-- ===== src/Bytes/Words.antt =====
-- Words in network order (big-endian), as `u32::to_be_bytes` and `u32::from_be_bytes` give them.
use easy_usb.Base.{
  ℕ, ◌+◌, ◌*◌, ◌/◌, ◌%◌, ◌≤◌, ◌<◌, ◌≡◌, refl, Bool, ltb, ◌&&◌, List, [], ◌∷◌, ◌++◌, arith, length,
  drop, get_or, All,
}

abbrev pub IsByte : ℕ → Type 0
IsByte b = b < 256

abbrev pub IsU16 : ℕ → Type 0
IsU16 n = n < 65536

abbrev pub IsU32 : ℕ → Type 0
IsU32 n = n < 4294967296

-- `x > 0` at the bit pattern of an i32.
abbrev pub is_positive : ℕ → Bool
is_positive w = ltb 0 w && ltb w 2147483648

-- The bytes of a word, highest first.
unfoldable pub be32 : ℕ → List ℕ
be32 n = (n / 16777216 % 256) ∷ (n / 65536 % 256) ∷ (n / 256 % 256) ∷ (n % 256) ∷ []

unfoldable pub be16 : ℕ → List ℕ
be16 n = (n / 256 % 256) ∷ (n % 256) ∷ []

-- The word that the first bytes of a slice spell.
unfoldable pub u32_of : List ℕ → ℕ
u32_of bs = get_or bs 0 0 * 16777216 + get_or bs 1 0 * 65536 + get_or bs 2 0 * 256 + get_or bs 3 0

unfoldable pub u16_of : List ℕ → ℕ
u16_of bs = get_or bs 0 0 * 256 + get_or bs 1 0

pub length-be32 : (n : ℕ) → length (be32 n) ≡ 4
unfolding be32
length-be32 n = refl

pub length-be16 : (n : ℕ) → length (be16 n) ≡ 2
unfolding be16
length-be16 n = refl

pub be32-IsByte : (n : ℕ) → All IsByte (be32 n)
unfolding be32
be32-IsByte n = omega arith

pub u32_of-be32 : (n : ℕ) (rest : List ℕ) → IsU32 n → u32_of (be32 n ++ rest) ≡ n
unfolding u32_of be32
u32_of-be32 n rest h = omega arith

pub u16_of-be16 : (n : ℕ) (rest : List ℕ) → IsU16 n → u16_of (be16 n ++ rest) ≡ n
unfolding u16_of be16
u16_of-be16 n rest h = omega arith

pub drop-be32 : (n : ℕ) (rest : List ℕ) → drop 4 (be32 n ++ rest) ≡ rest
unfolding be32
drop-be32 n rest = refl

pub drop-be16 : (n : ℕ) (rest : List ℕ) → drop 2 (be16 n ++ rest) ≡ rest
unfolding be16
drop-be16 n rest = refl

-- A word of bytes is in range.
pub u32_of-IsU32 : (bs : List ℕ) → All IsByte bs → IsU32 (u32_of bs)
unfolding u32_of
u32_of-IsU32 [] h = omega arith
u32_of-IsU32 (a ∷ []) h = omega arith
u32_of-IsU32 (a ∷ b ∷ []) h = omega arith
u32_of-IsU32 (a ∷ b ∷ c ∷ []) h = omega arith
u32_of-IsU32 (a ∷ b ∷ c ∷ d ∷ r) h = omega arith

pub u16_of-IsU16 : (bs : List ℕ) → All IsByte bs → IsU16 (u16_of bs)
unfolding u16_of
u16_of-IsU16 [] h = omega arith
u16_of-IsU16 (a ∷ []) h = omega arith
u16_of-IsU16 (a ∷ b ∷ r) h = omega arith

-- The first word of a slice of bytes, written again in front of the rest.
pub be32_split : (bs : List ℕ) → 4 ≤ length bs → All IsByte bs → be32 (u32_of bs) ++ drop 4 bs ≡ bs
unfolding be32 u32_of
be32_split [] e h = absurd (omega arith)
be32_split (a ∷ []) e h = absurd (omega arith)
be32_split (a ∷ b ∷ []) e h = absurd (omega arith)
be32_split (a ∷ b ∷ c ∷ []) e h = absurd (omega arith)
be32_split (a ∷ b ∷ c ∷ d ∷ r) e h = ground arith

pub be16_split : (bs : List ℕ) → 2 ≤ length bs → All IsByte bs → be16 (u16_of bs) ++ drop 2 bs ≡ bs
unfolding be16 u16_of
be16_split [] e h = absurd (omega arith)
be16_split (a ∷ []) e h = absurd (omega arith)
be16_split (a ∷ b ∷ r) e h = ground arith
