-- ===== src/Net/Loops.antt =====
-- An operation on a connection, run a number of times: each run begins where the one before it ended, and
-- the first that fails ends the loop.
use easy_usb.Base.{
  ℕ, zero, suc, ◌≡◌, refl, ◌∙◌, List, [], ◌∷◌, ◌++◌, length, All, append_assoc, append-nil,
}
use mathlib.Core.List.{map}
use easy_usb.Net.{Tcp, Io, ◌>>=◌, done}
use easy_usb.Net.Leaves.{Leaves, Leaves-then}

abbrev pub repeat_io : {S E A : Type 0} → ℕ → Io S E A → Io S E (List A)
repeat_io zero m = done []
repeat_io (suc n) m = m >>= λ a. repeat_io n m >>= λ rest. done (a ∷ rest)

-- The bytes of all messages, one behind the other.
abbrev pub joined : {X : Type 0} → (X → List ℕ) → List X → List ℕ
joined f [] = []
joined f (x ∷ xs) = f x ++ joined f xs

-- When a run takes the bytes of one item off the stream and writes the bytes that answer it, as many
-- runs as there are items take all of them, in their order.
module _ (tcp : Tcp) where
  open tcp use {Stream, incoming, written, IsUp}

  module _ {X E A : Type 0} (m : Io Stream E A) (arriving leaving : X → List ℕ) (out : X → A)
      (Holds : X → Type 0)
      (step : (x : X) (rest : List ℕ) (s : Stream)
        → Holds x
        → IsUp s
        → incoming s ≡ arriving x ++ rest
        → Leaves tcp (m s) (out x) rest (written s ++ leaving x)) where
    taken_all :
        (xs : List X) (rest : List ℕ) (s : Stream)
        → All Holds xs
        → IsUp s
        → incoming s ≡ joined arriving xs ++ rest
        → Leaves tcp (repeat_io (length xs) m s) (map out xs) rest (written s ++ joined leaving xs)
    taken_all [] rest s h up e = record {
      result = refl;
      left = e;
      wrote = rw (append-nil (written s)) refl;
      up = up;
    }
    taken_all (x ∷ xs) rest s (h, hs) up e =
        let behind = joined arriving xs ++ rest in
        let first =
          step x behind s h up (e ∙ append_assoc (arriving x) (joined arriving xs) rest) in
        let later = taken_all xs rest (m s).0 hs first.up first.left in
        let sent = written (m s).0 ++ joined leaving xs in
        let total : sent ≡ written s ++ (leaving x ++ joined leaving xs) =
          rw (first.wrote) (append_assoc (written s) (leaving x) (joined leaving xs)) in
        Leaves-then tcp _ _ (out x) (map out (x ∷ xs)) behind rest (written s ++ leaving x) _ first
          (Leaves-then tcp _ _ (map out xs) (map out (x ∷ xs)) rest rest sent _ later (record {
            result = refl;
            left = later.left;
            wrote = later.wrote ∙ total;
            up = later.up;
          }))

    pub repeat_io-Leaves :
        (n : ℕ) (xs : List X) (rest : List ℕ) (s : Stream)
        → length xs ≡ n
        → All Holds xs
        → IsUp s
        → incoming s ≡ joined arriving xs ++ rest
        → Leaves tcp (repeat_io n m s) (map out xs) rest (written s ++ joined leaving xs)
    repeat_io-Leaves n xs rest s count h up e = rw (← count) (taken_all xs rest s h up e)
