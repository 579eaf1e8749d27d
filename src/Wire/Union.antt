-- ===== src/Wire/Union.antt =====
-- crates/easy-usb-core/src/protocol/wire.rs: `UsbipHeaderUnion`, the four command bodies as the memory
-- that they share, for a little-endian target.
use easy_usb.Base.{
  ℕ, ◌+◌, ◌*◌, ◌/◌, ◌%◌, ◌≡◌, refl, List, [], ◌∷◌, ◌++◌, get_or, take, drop, length, All, All-take,
  All-drop, arith,
}
use easy_usb.Bytes.Words.{IsU32, IsByte}
use easy_usb.Wire.{
  UsbipHeaderCmdSubmit, UsbipHeaderRetSubmit, UsbipHeaderCmdUnlink, UsbipHeaderRetUnlink,
}

-- The 28 bytes of the `repr(C)` union: five words, then eight bytes. A word is kept as its value,
-- which no variant reads in another byte order; the last eight bytes are `setup` in two variants and
-- two words of padding in the others.
pub record UsbipHeaderUnion : Type 0 where
  pub word0 : ℕ
  pub word1 : ℕ
  pub word2 : ℕ
  pub word3 : ℕ
  pub word4 : ℕ
  pub tail : List ℕ

-- Words in range, and eight bytes behind them.
pub record UnionIsValid (u : UsbipHeaderUnion) : Type 0 where
  pub word0 : IsU32 u.word0
  pub word1 : IsU32 u.word1
  pub word2 : IsU32 u.word2
  pub word3 : IsU32 u.word3
  pub word4 : IsU32 u.word4
  pub tail_length : length u.tail ≡ 8
  pub tail_bytes : All IsByte u.tail

-- `u32::to_ne_bytes` and `u32::from_ne_bytes` of a little-endian target.
ne_bytes : ℕ → List ℕ
ne_bytes n = (n % 256) ∷ (n / 256 % 256) ∷ (n / 65536 % 256) ∷ (n / 16777216 % 256) ∷ []

ne_word : List ℕ → ℕ
ne_word bs = get_or bs 0 0 + get_or bs 1 0 * 256 + get_or bs 2 0 * 65536 + get_or bs 3 0 * 16777216

-- Writing a variant: `UsbipHeaderUnion { cmd_submit: … }` and so on.
unfoldable pub of_cmd_submit : UsbipHeaderCmdSubmit → UsbipHeaderUnion
of_cmd_submit c = record {
  word0 = c.transfer_flags;
  word1 = c.transfer_buffer_length;
  word2 = c.start_frame;
  word3 = c.number_of_packets;
  word4 = c.interval;
  tail = c.setup;
}

unfoldable pub of_ret_submit : UsbipHeaderRetSubmit → UsbipHeaderUnion
of_ret_submit r = record {
  word0 = r.status;
  word1 = r.actual_length;
  word2 = r.start_frame;
  word3 = r.number_of_packets;
  word4 = r.error_count;
  tail = r.setup;
}

of_words : ℕ → List ℕ → UsbipHeaderUnion
unfolding ne_bytes
of_words w padding = record {
  word0 = w;
  word1 = get_or padding 0 0;
  word2 = get_or padding 1 0;
  word3 = get_or padding 2 0;
  word4 = get_or padding 3 0;
  tail = ne_bytes (get_or padding 4 0) ++ ne_bytes (get_or padding 5 0);
}

unfoldable pub of_cmd_unlink : UsbipHeaderCmdUnlink → UsbipHeaderUnion
unfolding of_words
of_cmd_unlink c = of_words c.seqnum c.padding

unfoldable pub of_ret_unlink : UsbipHeaderRetUnlink → UsbipHeaderUnion
unfolding of_words
of_ret_unlink r = of_words r.status r.padding

-- Reading a variant: `header.u.cmd_submit` and so on, whichever was written.
unfoldable pub as_cmd_submit : UsbipHeaderUnion → UsbipHeaderCmdSubmit
as_cmd_submit u = record {
  transfer_flags = u.word0;
  transfer_buffer_length = u.word1;
  start_frame = u.word2;
  number_of_packets = u.word3;
  interval = u.word4;
  setup = u.tail;
}

unfoldable pub as_ret_submit : UsbipHeaderUnion → UsbipHeaderRetSubmit
as_ret_submit u = record {
  status = u.word0;
  actual_length = u.word1;
  start_frame = u.word2;
  number_of_packets = u.word3;
  error_count = u.word4;
  setup = u.tail;
}

pub padding_of : UsbipHeaderUnion → List ℕ
unfolding ne_word
padding_of u =
    u.word1 ∷ u.word2 ∷ u.word3 ∷ u.word4 ∷ ne_word (take 4 u.tail) ∷ ne_word (drop 4 u.tail) ∷ []

unfoldable pub as_cmd_unlink : UsbipHeaderUnion → UsbipHeaderCmdUnlink
unfolding padding_of
as_cmd_unlink u = record { seqnum = u.word0; padding = padding_of u }

unfoldable pub as_ret_unlink : UsbipHeaderUnion → UsbipHeaderRetUnlink
unfolding padding_of
as_ret_unlink u = record { status = u.word0; padding = padding_of u }

-- A variant that was written reads back.
pub as_cmd_submit-of_cmd_submit : (c : UsbipHeaderCmdSubmit) → as_cmd_submit (of_cmd_submit c) ≡ c
unfolding as_cmd_submit of_cmd_submit
as_cmd_submit-of_cmd_submit c = refl

pub as_ret_submit-of_ret_submit : (r : UsbipHeaderRetSubmit) → as_ret_submit (of_ret_submit r) ≡ r
unfolding as_ret_submit of_ret_submit
as_ret_submit-of_ret_submit r = refl

ne_word-ne_bytes : (n : ℕ) → IsU32 n → ne_word (ne_bytes n) ≡ n
unfolding ne_word ne_bytes
ne_word-ne_bytes n h = omega arith

padding_of-of_words :
    (w : ℕ) (padding : List ℕ)
    → length padding ≡ 6
    → All IsU32 padding
    → padding_of (of_words w padding) ≡ padding
unfolding of_words padding_of ne_bytes ne_word
padding_of-of_words w (a ∷ b ∷ c ∷ d ∷ e ∷ f ∷ []) n h = ground arith
padding_of-of_words w _ n h = absurd (omega arith)

pub as_cmd_unlink-of_cmd_unlink :
    (c : UsbipHeaderCmdUnlink)
    → length c.padding ≡ 6
    → All IsU32 c.padding
    → as_cmd_unlink (of_cmd_unlink c) ≡ c
unfolding as_cmd_unlink of_cmd_unlink
as_cmd_unlink-of_cmd_unlink c n h = ground (arith, padding_of-of_words c.seqnum c.padding)

pub as_ret_unlink-of_ret_unlink :
    (r : UsbipHeaderRetUnlink)
    → length r.padding ≡ 6
    → All IsU32 r.padding
    → as_ret_unlink (of_ret_unlink r) ≡ r
unfolding as_ret_unlink of_ret_unlink
as_ret_unlink-of_ret_unlink r n h = ground (arith, padding_of-of_words r.status r.padding)

-- Reading a variant and writing it again changes nothing.
pub of_cmd_submit-as_cmd_submit : (u : UsbipHeaderUnion) → of_cmd_submit (as_cmd_submit u) ≡ u
unfolding as_cmd_submit of_cmd_submit
of_cmd_submit-as_cmd_submit u = refl

pub of_ret_submit-as_ret_submit : (u : UsbipHeaderUnion) → of_ret_submit (as_ret_submit u) ≡ u
unfolding as_ret_submit of_ret_submit
of_ret_submit-as_ret_submit u = refl

tail_of_words :
    (t : List ℕ)
    → length t ≡ 8
    → All IsByte t
    → ne_bytes (ne_word (take 4 t)) ++ ne_bytes (ne_word (drop 4 t)) ≡ t
unfolding ne_bytes ne_word
tail_of_words (a ∷ b ∷ c ∷ d ∷ e ∷ f ∷ g ∷ h ∷ []) n v = ground arith
tail_of_words t n v = absurd (omega arith)

of_words-padding_of :
    (u : UsbipHeaderUnion)
    → length u.tail ≡ 8
    → All IsByte u.tail
    → of_words u.word0 (padding_of u) ≡ u
unfolding of_words padding_of
of_words-padding_of u n v = λ i. record {
  word0 = u.word0;
  word1 = u.word1;
  word2 = u.word2;
  word3 = u.word3;
  word4 = u.word4;
  tail = tail_of_words u.tail n v i;
}

pub of_cmd_unlink-as_cmd_unlink :
    (u : UsbipHeaderUnion)
    → length u.tail ≡ 8
    → All IsByte u.tail
    → of_cmd_unlink (as_cmd_unlink u) ≡ u
unfolding as_cmd_unlink of_cmd_unlink
of_cmd_unlink-as_cmd_unlink u n v = of_words-padding_of u n v

pub of_ret_unlink-as_ret_unlink :
    (u : UsbipHeaderUnion)
    → length u.tail ≡ 8
    → All IsByte u.tail
    → of_ret_unlink (as_ret_unlink u) ≡ u
unfolding as_ret_unlink of_ret_unlink
of_ret_unlink-as_ret_unlink u n v = of_words-padding_of u n v

ne_word-IsU32 : (bs : List ℕ) → All IsByte bs → IsU32 (ne_word bs)
unfolding ne_word
ne_word-IsU32 [] h = omega arith
ne_word-IsU32 (a ∷ []) h = omega arith
ne_word-IsU32 (a ∷ b ∷ []) h = omega arith
ne_word-IsU32 (a ∷ b ∷ c ∷ []) h = omega arith
ne_word-IsU32 (a ∷ b ∷ c ∷ d ∷ r) h = omega arith

-- The padding of an unlink body: six words, each in range where the memory is.
pub length-padding : (u : UsbipHeaderUnion) → length (padding_of u) ≡ 6
unfolding padding_of
length-padding u = refl

pub padding-IsU32 :
    (u : UsbipHeaderUnion)
    → IsU32 u.word1
    → IsU32 u.word2
    → IsU32 u.word3
    → IsU32 u.word4
    → All IsByte u.tail
    → All IsU32 (padding_of u)
unfolding padding_of
padding-IsU32 u w1 w2 w3 w4 t =
    let front = ne_word-IsU32 (take 4 u.tail) (All-take IsByte 4 u.tail t) in
    let back = ne_word-IsU32 (drop 4 u.tail) (All-drop IsByte 4 u.tail t) in
    (w1, (w2, (w3, (w4, (front, (back, tt))))))

of_words-UnionIsValid :
    (w : ℕ) (padding : List ℕ)
    → IsU32 w
    → length padding ≡ 6
    → All IsU32 padding
    → UnionIsValid (of_words w padding)
unfolding of_words ne_bytes
of_words-UnionIsValid w (a ∷ b ∷ c ∷ d ∷ e ∷ f ∷ []) hw n h = omega arith
of_words-UnionIsValid w _ hw n h = absurd (omega arith)

pub of_cmd_unlink-UnionIsValid :
    (c : UsbipHeaderCmdUnlink)
    → IsU32 c.seqnum
    → length c.padding ≡ 6
    → All IsU32 c.padding
    → UnionIsValid (of_cmd_unlink c)
unfolding of_cmd_unlink
of_cmd_unlink-UnionIsValid c w n h = of_words-UnionIsValid c.seqnum c.padding w n h

pub of_ret_unlink-UnionIsValid :
    (r : UsbipHeaderRetUnlink)
    → IsU32 r.status
    → length r.padding ≡ 6
    → All IsU32 r.padding
    → UnionIsValid (of_ret_unlink r)
unfolding of_ret_unlink
of_ret_unlink-UnionIsValid r w n h = of_words-UnionIsValid r.status r.padding w n h
