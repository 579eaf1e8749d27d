-- ===== src/PlainBytes.antt =====
-- A plain implementation of `ByteIo` on lists: its laws can be met, and tests run on it.
use easy_usb.Base.{
  ℕ, ◌≤◌, ◌<◌, ◌%◌, ◌≡◌, refl, List, [], ◌∷◌, ◌++◌, Result, ok, err, Text, lit, length, drop, ltb,
  if◌then◌else◌, lt→ltb, le→ltb_false,
}
use easy_usb.Bytes.{ByteIo}
use easy_usb.Bytes.Words.{be32, be16, u32_of, u16_of}

-- A read of `n` bytes that are decoded by `value`.
abbrev pub read_word : ℕ → (List ℕ → ℕ) → List ℕ → Result Text (ℕ × List ℕ)
read_word n value bs =
    if ltb (length bs) n
    then err (lit "failed to fill whole buffer" ∷ [])
    else ok (value bs, drop n bs)

pub read_word_lem :
    (n : ℕ) (value : List ℕ → ℕ) (bs : List ℕ)
    → n ≤ length bs
    → read_word n value bs ≡ ok (value bs, drop n bs)
read_word_lem n value bs h = rw (le→ltb_false (length bs) n h)

pub read_word_short :
    (n : ℕ) (value : List ℕ → ℕ) (bs : List ℕ)
    → length bs < n
    → (e : Text) × (read_word n value bs ≡ err e)
read_word_short n value bs h = (lit "failed to fill whole buffer" ∷ [], rw (lt→ltb (length bs) n h))

instance abbrev pub plain_bytes : ByteIo
plain_bytes = record {
  put_u8 = λ buf n. buf ++ ((n % 256) ∷ []);
  put_u16 = λ buf n. buf ++ be16 n;
  put_u32 = λ buf n. buf ++ be32 n;
  put_i32 = λ buf n. buf ++ be32 n;
  put_slice = λ buf bs. buf ++ bs;
  read_u16 = read_word 2 u16_of;
  read_u32 = read_word 4 u32_of;
  read_i32 = read_word 4 u32_of;
  put_u8_lem = λ buf n. refl;
  put_u16_lem = λ buf n. refl;
  put_u32_lem = λ buf n. refl;
  put_i32_lem = λ buf n. refl;
  put_slice_lem = λ buf bs. refl;
  read_u16_lem = read_word_lem 2 u16_of;
  read_u32_lem = read_word_lem 4 u32_of;
  read_i32_lem = read_word_lem 4 u32_of;
  read_u16_short = read_word_short 2 u16_of;
  read_u32_short = read_word_short 4 u32_of;
  read_i32_short = read_word_short 4 u32_of;
}
