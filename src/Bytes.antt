-- ===== src/Bytes.antt =====
-- Bytes, words in network order, and the third-party byte buffers that
-- crates/easy-usb-core/src/protocol/codec.rs calls (the crates `bytes` and `byteorder`).
--
-- A byte is a number below 256 and a slice is a list of bytes. An `i32` is its bit pattern, a number
-- below 2 ^ 32: the patterns below 2 ^ 31 are the integers from 0 up, the others are negative.
pub mod Words
use easy_usb.Base.{ℕ, ◌<◌, ◌≤◌, ◌≡◌, List, ◌++◌, Result, ok, err, length, drop, Text}
use easy_usb.Base.{[], ◌∷◌, ◌%◌}
use Words.{be32, be16, u32_of, u16_of}

-- What the code relies on of the two crates. `put_*` of `bytes::BufMut` appends to a `BytesMut`;
-- `read_*` of `byteorder::ReadBytesExt` takes its bytes from the front of a slice, and fails with the
-- text of an `io::Error` where the slice is too short.
pub record ByteIo : Type 0 where
  pub put_u8 : List ℕ → ℕ → List ℕ
  pub put_u16 : List ℕ → ℕ → List ℕ
  pub put_u32 : List ℕ → ℕ → List ℕ
  pub put_i32 : List ℕ → ℕ → List ℕ
  pub put_slice : List ℕ → List ℕ → List ℕ
  pub read_u16 : List ℕ → Result Text (ℕ × List ℕ)
  pub read_u32 : List ℕ → Result Text (ℕ × List ℕ)
  pub read_i32 : List ℕ → Result Text (ℕ × List ℕ)
  pub put_u8_lem : (buf : List ℕ) (n : ℕ) → put_u8 buf n ≡ buf ++ ((n % 256) ∷ [])
  pub put_u16_lem : (buf : List ℕ) (n : ℕ) → put_u16 buf n ≡ buf ++ be16 n
  pub put_u32_lem : (buf : List ℕ) (n : ℕ) → put_u32 buf n ≡ buf ++ be32 n
  pub put_i32_lem : (buf : List ℕ) (n : ℕ) → put_i32 buf n ≡ buf ++ be32 n
  pub put_slice_lem : (buf bs : List ℕ) → put_slice buf bs ≡ buf ++ bs
  pub read_u16_lem : (bs : List ℕ) → 2 ≤ length bs → read_u16 bs ≡ ok (u16_of bs, drop 2 bs)
  pub read_u32_lem : (bs : List ℕ) → 4 ≤ length bs → read_u32 bs ≡ ok (u32_of bs, drop 4 bs)
  pub read_i32_lem : (bs : List ℕ) → 4 ≤ length bs → read_i32 bs ≡ ok (u32_of bs, drop 4 bs)
  pub read_u16_short : (bs : List ℕ) → length bs < 2 → (e : Text) × (read_u16 bs ≡ err e)
  pub read_u32_short : (bs : List ℕ) → length bs < 4 → (e : Text) × (read_u32 bs ≡ err e)
  pub read_i32_short : (bs : List ℕ) → length bs < 4 → (e : Text) × (read_i32 bs ≡ err e)
