-- ===== src/Net/Reads.antt =====
-- Reading on a connection that is up.
use easy_usb.Base.{
  ℕ, ◌≤◌, ◌≡◌, refl, sym, ap, ◌∙◌, List, ◌++◌, Result, ok, length, take, drop, arith, take-append,
  drop-append, length-append,
}
use easy_usb.Net.{Tcp, Io, proceed}

-- The same list cut at the same place.
pub append_cut {ℓ} :
    {A : Type ℓ} (xs ys us vs : List A)
    → xs ++ ys ≡ us ++ vs
    → length xs ≡ length us
    → (xs ≡ us) × (ys ≡ vs)
append_cut xs ys us vs e n = (
  sym (take-append (length us) xs ys n)
      ∙ ap (take (length us)) e
      ∙ take-append (length us) us vs refl,
  sym (drop-append (length us) xs ys n)
      ∙ ap (drop (length us)) e
      ∙ drop-append (length us) us vs refl,
)

-- A step that succeeds hands its result and its state on.
pub proceed-ok :
    {S E A B : Type 0} (p : S × Result E A) (f : A → Io S E B) (a : A)
    → p.1 ≡ ok a
    → proceed p f ≡ f a p.0
proceed-ok (s, r) f a e = rw e refl

module _ (tcp : Tcp) where
  open tcp use {
    Stream, read_exact, incoming, written, IsUp, read_exact-ok, read_exact-IsUp, read_exact-written,
  }

  -- What a read of the next bytes gives, and what it leaves.
  pub record Reads (n : ℕ) (s : Stream) (bs rest : List ℕ) : Type 0 where
    pub result : (read_exact n s).1 ≡ ok bs
    pub left : incoming (read_exact n s).0 ≡ rest
    pub up : IsUp (read_exact n s).0

  pub read_exact-Reads :
      (n : ℕ) (s : Stream) (bs rest : List ℕ)
      → IsUp s
      → incoming s ≡ bs ++ rest
      → length bs ≡ n
      → Reads n s bs rest
  read_exact-Reads n s bs rest up e len =
      let enough : n ≤ length (incoming s) = omega (arith, ap length e, length-append bs rest) in
      let ((got, result), still) = read_exact-IsUp n s up enough in
      let (size, split) = read_exact-ok n s got result in
      let (same, left) =
        append_cut got (incoming (read_exact n s).0) bs rest (sym split ∙ e) (omega arith) in
      record { result = result ∙ ap ok same; left = left; up = still }
