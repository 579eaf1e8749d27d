-- ===== src/Base/Results.antt =====
-- Rust's `Result`, its `?` as a bind, `map_err` and `ok_or_else`, and formatted texts.
use Prim.Native.Nat.{ℕ}
use Prim.Native.String.{String}
use mathlib.Core.Path.{◌≡◌, refl}
use mathlib.Core.Bool.{Bool, true, false}
use mathlib.Core.Option.{Option, none, some}
use mathlib.Core.List.{List}
use easy_usb.Base.Tests.{if◌then◌else◌}

pub data Result (E A : Type 0) : Type 0 where
  ok : A → Result E A
  err : E → Result E A

infixl 5 ◌>>=◌ ◌>>◌
abbrev pub ◌>>=◌ : {E A B : Type 0} → Result E A → (A → Result E B) → Result E B
err reason >>= next = err reason
ok value >>= next = next value

abbrev pub ◌>>◌ : {E B : Type 0} → Result E (Unit {0}) → Result E B → Result E B
first >> second = first >>= λ _. second

abbrev pub map_err : {E F A : Type 0} → (E → F) → Result E A → Result F A
map_err f (ok a) = ok a
map_err f (err e) = err (f e)

abbrev pub ok_or : {E A : Type 0} → Option A → E → Result E A
ok_or none e = err e
ok_or (some a) e = ok a

-- An early `return Err(e)` when the test holds.
abbrev pub fail_if : {E : Type 0} → Bool → E → Result E (Unit {0})
fail_if true e = err e
fail_if false e = ok tt

-- A formatted text, piece by piece: literal text, a number in decimal, and a number in hexadecimal
-- of a given width.
pub data Piece : Type 0 where
  lit : String → Piece
  dec : ℕ → Piece
  hex : ℕ → ℕ → Piece

abbrev pub Text : Type 0
Text = List Piece

-- A guard in front of the rest of a function is a conditional.
pub fail_if_lem :
    {E A : Type 0} (b : Bool) (e : E) (k : Result E A)
    → (fail_if b e >>= λ _. k) ≡ (if b then err e else k)
fail_if_lem true e k = refl
fail_if_lem false e k = refl
