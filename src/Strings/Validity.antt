-- ===== src/Strings/Validity.antt =====
-- The bytes of a text are well-formed UTF-8, and zeros only if the text is NULs.
use Prim.Native.Char.{Char, code}
use Prim.Native.String.{String}
use mathlib.Core.Path.{subst}
use easy_usb.Base.{
  ℕ, ◌+◌, ◌/◌, ◌%◌, ◌<◌, ◌≤◌, ◌≡◌, ◌∙◌, ◌⊎◌, inl, inr, refl, ap, List, ◌∷◌, ◌++◌, arith, Option,
  some, true, Bool, All, All-append,
}
use easy_usb.Bytes.Words.{IsByte}
use easy_usb.Server.{all_zero}
use easy_usb.Server.Utf8.{Due, lead, advance, utf8_from, is_utf8}
use easy_usb.Strings.{point_bytes, as_bytes, trim_end_nul}
use easy_usb.Strings.Steps.{lead_two, lead_three, lead_four, code-Width}

abbrev due_of : ℕ → Due
due_of n = record { more = n; low = 0x80; high = 0xbf }

valid_step :
    (due due' : Due) (b : ℕ) (bs : List ℕ)
    → advance due b ≡ some due'
    → utf8_from (some due) (b ∷ bs) ≡ utf8_from (some due') bs
unfolding utf8_from
valid_step due due' b bs e = ap (λ (o : Option Due). utf8_from o bs) e

advance-lead : (b : ℕ) → (lead b).more < 4 → advance (due_of 0) b ≡ some (lead b)
unfolding advance
advance-lead b h = ground (arith, h)

advance_next :
    (due : Due) (n b : ℕ)
    → due.more ≡ n + 1
    → due.low ≤ b
    → b ≤ due.high
    → advance due b ≡ some (due_of n)
unfolding advance
advance_next due n b e h k = ground (arith, e, h, k)

lead_ascii : (b : ℕ) → b < 0x80 → lead b ≡ due_of 0
unfolding lead
lead_ascii b h = ground (arith, h)

abbrev valid : ℕ → List ℕ → Bool
valid n bs = utf8_from (some (due_of n)) bs

module _ (n : ℕ) (bs : List ℕ) where
  valid_one : n < 0x80 → valid 0 (n ∷ bs) ≡ valid 0 bs
  valid_one h =
      valid_step (due_of 0) (lead n) n bs (advance-lead n (rw (lead_ascii n h) (omega arith)))
      ∙ ap (λ (d : Due). utf8_from (some d) bs) (lead_ascii n h)

  -- A continuation byte of n.
  abbrev tail_byte : ℕ → ℕ
  tail_byte m = 0x80 + m % 64

  valid_tail : (k m : ℕ) (cs : List ℕ) → valid (k + 1) (tail_byte m ∷ cs) ≡ valid k cs
  valid_tail k m cs =
      valid_step (due_of (k + 1)) (due_of k) (tail_byte m) cs
        (advance_next (due_of (k + 1)) k (tail_byte m) refl (omega arith) (omega arith))

  valid_two : 0x80 ≤ n → n < 0x800 → valid 0 ((0xc0 + n / 64) ∷ tail_byte n ∷ bs) ≡ valid 0 bs
  valid_two h k =
      let a = 0xc0 + n / 64 in
      let (more, low, high, _) = lead_two a (omega arith) (omega arith) in
      valid_step (due_of 0) (lead a) a (tail_byte n ∷ bs) (advance-lead a (omega (arith, more)))
      ∙ valid_step (lead a) (due_of 0) (tail_byte n) bs
          (advance_next (lead a) 0 (tail_byte n) more (omega (arith, low)) (omega (arith, high)))

  valid_three :
      0x800 ≤ n
      → n < 0x10000
      → (n < 0xd800) ⊎ (0xdfff < n)
      → valid 0 ((0xe0 + n / 4096) ∷ tail_byte (n / 64) ∷ tail_byte n ∷ bs) ≡ valid 0 bs
  valid_three h k scalar =
      let a = 0xe0 + n / 4096 in
      let b = tail_byte (n / 64) in
      let (more, low, high, _) = lead_three a (omega arith) (omega arith) in
      let above : (lead a).low ≤ b = ground (arith, low, h) in
      let under : b ≤ (lead a).high = ground (arith, high, scalar) in
      valid_step (due_of 0) (lead a) a (b ∷ tail_byte n ∷ bs) (advance-lead a (omega (arith, more)))
      ∙ valid_step (lead a) (due_of 1) b (tail_byte n ∷ bs)
          (advance_next (lead a) 1 b more above under)
      ∙ valid_tail 0 n bs

  valid_four :
      0x10000 ≤ n
      → n < 0x110000
      → valid 0 ((0xf0 + n / 262144) ∷ tail_byte (n / 4096) ∷ tail_byte (n / 64) ∷ tail_byte n ∷ bs)
        ≡ valid 0 bs
  valid_four h k =
      let a = 0xf0 + n / 262144 in
      let b = tail_byte (n / 4096) in
      let cs = tail_byte (n / 64) ∷ tail_byte n ∷ bs in
      let (more, low, high, _) = lead_four a (omega arith) (omega arith) in
      let above : (lead a).low ≤ b = ground (arith, low, h) in
      let under : b ≤ (lead a).high = ground (arith, high, k) in
      valid_step (due_of 0) (lead a) a (b ∷ cs) (advance-lead a (omega (arith, more)))
      ∙ valid_step (lead a) (due_of 2) b cs (advance_next (lead a) 2 b more above under)
      ∙ valid_tail 1 (n / 64) (tail_byte n ∷ bs)
      ∙ valid_tail 0 n bs

valid_char : (c : Char) (bs : List ℕ) → valid 0 (point_bytes (code c) ++ bs) ≡ valid 0 bs
valid_char c bs = elim (code-Width c) [
  | inl (h, e) ↦ rw e (valid_one (code c) bs h)
  | inr (inl (h, k, e)) ↦ rw e (valid_two (code c) bs h k)
  | inr (inr (inl (h, k, scalar, e))) ↦ rw e (valid_three (code c) bs h k scalar)
  | inr (inr (inr (h, k, e))) ↦ rw e (valid_four (code c) bs h k)
]

-- The bytes of a text are well-formed.
pub is_utf8-as_bytes : (s : String) → is_utf8 (as_bytes s) ≡ true
unfolding is_utf8 as_bytes
is_utf8-as_bytes String.[] = refl
is_utf8-as_bytes (String.◌∷◌ c s) = valid_char c (as_bytes s) ∙ is_utf8-as_bytes s

point_bytes-IsByte : (c : Char) → All IsByte (point_bytes (code c))
point_bytes-IsByte c = elim (code-Width c) [
  | inl (h, e) ↦ rw e (omega (arith, h))
  | inr (inl (h, k, e)) ↦ rw e (omega (arith, h, k))
  | inr (inr (inl (h, k, scalar, e))) ↦ rw e (omega (arith, h, k))
  | inr (inr (inr (h, k, e))) ↦ rw e (omega (arith, h, k))
]

pub as_bytes-IsByte : (s : String) → All IsByte (as_bytes s)
unfolding as_bytes
as_bytes-IsByte String.[] = tt
as_bytes-IsByte (String.◌∷◌ c s) =
    All-append IsByte (point_bytes (code c)) (as_bytes s) (point_bytes-IsByte c) (as_bytes-IsByte s)

-- Bytes of zeros are those of NULs.
head_zero : (b : ℕ) (bs : List ℕ) → all_zero (b ∷ bs) ≡ true → (b ≡ 0) × (all_zero bs ≡ true)
head_zero b bs z = ground (arith, z)

zero_char :
    (c : Char) (bs : List ℕ)
    → all_zero (point_bytes (code c) ++ bs) ≡ true
    → (code c ≡ 0) × (all_zero bs ≡ true)
zero_char c bs z = elim (code-Width c) [
  | inl (h, e) ↦ first_zero e
  | inr (inl (h, k, e)) ↦ absurd (omega (arith, (first_zero e).0))
  | inr (inr (inl (h, k, scalar, e))) ↦ absurd (omega (arith, (first_zero e).0))
  | inr (inr (inr (h, k, e))) ↦ absurd (omega (arith, (first_zero e).0))
]
  where
    first_zero :
        {b : ℕ} {l : List ℕ} → point_bytes (code c) ≡ b ∷ l → (b ≡ 0) × (all_zero (l ++ bs) ≡ true)
    first_zero {b} {l} e =
        head_zero b (l ++ bs) (subst (λ (m : List ℕ). all_zero (m ++ bs) ≡ true) e z)

trim_nul :
    (c : Char) (s : String)
    → code c ≡ 0
    → trim_end_nul s ≡ String.[]
    → trim_end_nul (String.◌∷◌ c s) ≡ String.[]
unfolding trim_end_nul
trim_nul c s z e = rw (e, z) refl

pub all_zero-as_bytes : (s : String) → all_zero (as_bytes s) ≡ true → trim_end_nul s ≡ String.[]
unfolding as_bytes trim_end_nul
all_zero-as_bytes String.[] z = refl
all_zero-as_bytes (String.◌∷◌ c s) z =
    let (zero_code, later) = zero_char c (as_bytes s) z in
    trim_nul c s zero_code (all_zero-as_bytes s later)
