-- ===== src/Strings/Chars.antt =====
-- Scalar values and characters.
use Prim.Native.Nat.{ℕ, Ordering, compare}
use Prim.Native.Char.{Char, char, code, IsLt, IsScalar}
use text.Mathlib.TextEquality.{Char-path}
use easy_usb.Base.{Bool, true, false, ◌≡◌, refl, ap, ◌∙◌, ltb→lt, ◌<◌, ◌⊎◌, inl, inr}

-- `IsScalar` by its three comparisons.
abbrev BothLt : Ordering → Ordering → Type 0
BothLt Ordering.lt o = IsLt o
BothLt Ordering.eq _ = ⊥
BothLt Ordering.gt _ = ⊥

abbrev ScalarAt : Ordering → Ordering → Ordering → Type 0
ScalarAt Ordering.lt _ _ = Unit
ScalarAt Ordering.eq o p = BothLt o p
ScalarAt Ordering.gt o p = BothLt o p

abbrev decide_both : (o p : Ordering) → BothLt o p ⊎ Unit {0}
decide_both Ordering.lt Ordering.lt = inl tt
decide_both Ordering.lt Ordering.eq = inr tt
decide_both Ordering.lt Ordering.gt = inr tt
decide_both Ordering.eq p = inr tt
decide_both Ordering.gt p = inr tt

abbrev decide_scalar : (o p q : Ordering) → ScalarAt o p q ⊎ Unit {0}
decide_scalar Ordering.lt p q = inl tt
decide_scalar Ordering.eq p q = decide_both p q
decide_scalar Ordering.gt p q = decide_both p q

abbrev char_if : (n : ℕ) → IsScalar n ⊎ Unit {0} → Char
char_if n (inl p) = char n p
char_if n (inr _) = char 0xfffd tt

-- The character of a scalar value; U+FFFD for another number.
unfoldable pub char_of : ℕ → Char
char_of n = char_if n (decide_scalar (compare n 55296) (compare 57343 n) (compare n 1114112))

-- At its own number it is the character.
decide_both-inl : (o p : Ordering) → BothLt o p → (x : BothLt o p) × (decide_both o p ≡ inl x)
decide_both-inl Ordering.lt Ordering.lt h = (tt, refl)
decide_both-inl Ordering.lt Ordering.eq h = absurd h
decide_both-inl Ordering.lt Ordering.gt h = absurd h
decide_both-inl Ordering.eq p h = absurd h
decide_both-inl Ordering.gt p h = absurd h

decide_scalar-inl :
    (o p q : Ordering) → ScalarAt o p q → (x : ScalarAt o p q) × (decide_scalar o p q ≡ inl x)
decide_scalar-inl Ordering.lt p q h = (tt, refl)
decide_scalar-inl Ordering.eq p q h = decide_both-inl p q h
decide_scalar-inl Ordering.gt p q h = decide_both-inl p q h

pub char_of-code : (c : Char) → char_of (code c) ≡ c
unfolding char_of
char_of-code (char n h) =
    let (x, e) = decide_scalar-inl (compare n 55296) (compare 57343 n) (compare n 1114112) h in
    ap (char_if n) e ∙ Char-path (char n x) (char n h) refl

-- Its number is below the surrogates, or between them and U+110000.
ranges :
    (o p q : Ordering)
    → ScalarAt o p q
    → (o ≡ Ordering.lt) ⊎ ((p ≡ Ordering.lt) × (q ≡ Ordering.lt))
ranges Ordering.lt p q h = inl refl
ranges Ordering.eq Ordering.lt Ordering.lt h = inr (refl, refl)
ranges Ordering.gt Ordering.lt Ordering.lt h = inr (refl, refl)
ranges Ordering.eq Ordering.lt Ordering.eq h = absurd h
ranges Ordering.eq Ordering.lt Ordering.gt h = absurd h
ranges Ordering.gt Ordering.lt Ordering.eq h = absurd h
ranges Ordering.gt Ordering.lt Ordering.gt h = absurd h
ranges Ordering.eq Ordering.eq q h = absurd h
ranges Ordering.eq Ordering.gt q h = absurd h
ranges Ordering.gt Ordering.eq q h = absurd h
ranges Ordering.gt Ordering.gt q h = absurd h

abbrev is_less : Ordering → Bool
is_less o = elim o [ Ordering.lt ↦ true | _ ↦ false ]

below : (m n : ℕ) → compare m n ≡ Ordering.lt → m < n
below m n e = ltb→lt m n (ap is_less e)

pub code_range : (c : Char) → (code c < 0xd800) ⊎ ((0xdfff < code c) × (code c < 0x110000))
code_range (char n h) = elim (ranges (compare n 55296) (compare 57343 n) (compare n 1114112) h) [
  | inl e ↦ inl (below n 55296 e)
  | inr (e, f) ↦ inr (below 57343 n e, below n 1114112 f)
]
