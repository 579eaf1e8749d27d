-- ===== src/Runs/Outcomes.antt =====
-- What a test asks of a result.
use easy_usb.Base.{
  ℕ, Bool, true, false, ◌&&◌, ◌==◌, List, [], ◌∷◌, Option, none, some, Result, ok, err,
}

-- `==` on byte slices.
abbrev pub same_bytes : List ℕ → List ℕ → Bool
same_bytes [] [] = true
same_bytes (a ∷ xs) (b ∷ ys) = (a == b) && same_bytes xs ys
same_bytes _ _ = false

-- `expect`, and a test of what is there.
abbrev pub holds : {E A : Type 0} → (A → Bool) → Result E A → Bool
holds p (ok a) = p a
holds p (err e) = false

-- `matches!` on an error.
abbrev pub fails_by : {E A : Type 0} → (E → Bool) → Result E A → Bool
fails_by p (ok a) = false
fails_by p (err e) = p e

abbrev pub has_payload : List ℕ → Option (List ℕ) → Bool
has_payload bytes none = false
has_payload bytes (some p) = same_bytes p bytes

abbrev pub has_none : Option (List ℕ) → Bool
has_none none = true
has_none (some p) = false
