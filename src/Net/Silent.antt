-- ===== src/Net/Silent.antt =====
-- Operations that have written nothing when they fail.
use easy_usb.Base.{
  ℕ, ◌≡◌, refl, ap, ◌∙◌, Bool, true, false, List, ◌++◌, Result, ok, err, map_err, Text, length,
  arith, ltb, if◌then◌else◌, length-append,
}
use easy_usb.Net.{Tcp, Io, proceed, ◌>>=◌, done, map_io_err, fail_if_io}
use easy_usb.Net.Leaves.{payload_block}

pub map_err-ok :
    {E F A : Type 0} (wrap : E → F) (r : Result E A) (a : A) → map_err wrap r ≡ ok a → r ≡ ok a
map_err-ok wrap (ok x) a e = cc
map_err-ok wrap (err x) a e = absurd (cc e)

module _ (tcp : Tcp) where
  open tcp use {
    Stream, read_exact, read_exact-ok, read_exact-written, read_exact-IsUp, incoming, written, IsUp,
  }

  -- If it fails, then what was written is what was written at s.
  abbrev pub IsSilent : {E A : Type 0} → Stream → Stream × Result E A → Type 0
  IsSilent {E} s out = (e : E) → out.1 ≡ err e → written out.0 ≡ written s

  -- A quiet operation, and behind it one that is silent.
  pub IsSilent-then :
      {E A B : Type 0} (s : Stream) (out : Stream × Result E A) (f : A → Io Stream E B)
      → written out.0 ≡ written s
      → ((a : A) → out.1 ≡ ok a → IsSilent out.0 (f a out.0))
      → IsSilent s (proceed out f)
  IsSilent-then s (t, ok a) f quiet next e x = next a refl e x ∙ quiet
  IsSilent-then s (t, err y) f quiet next e x = quiet

  -- Quiet operations behind each other have written nothing, whether they fail or not.
  pub proceed-written :
      {E A B : Type 0} (s : Stream) (out : Stream × Result E A) (f : A → Io Stream E B)
      → written out.0 ≡ written s
      → ((a : A) → written (f a out.0).0 ≡ written out.0)
      → written (proceed out f).0 ≡ written s
  proceed-written s (t, ok a) f quiet next = next a ∙ quiet
  proceed-written s (t, err y) f quiet next = quiet

  pub fail_if_io-written :
      {E B : Type 0} (test : Bool) (x : E) (k : Io Stream E B) (s : Stream)
      → written (k s).0 ≡ written s
      → written (proceed (fail_if_io test x s) (λ _. k)).0 ≡ written s
  fail_if_io-written true x k s next = refl
  fail_if_io-written false x k s next = next

  pub IsSilent-guard :
      {E B : Type 0} (test : Bool) (x : E) (k : Io Stream E B) (s : Stream)
      → IsSilent s (k s)
      → IsSilent s (proceed (fail_if_io test x s) (λ _. k))
  IsSilent-guard true x k s next e y = refl
  IsSilent-guard false x k s next e y = next e y

  pub IsSilent-if :
      {E B : Type 0} (test : Bool) (m k : Io Stream E B) (s : Stream)
      → IsSilent s (m s)
      → IsSilent s (k s)
      → IsSilent s ((if test then m else k) s)
  IsSilent-if true m k s first second = first
  IsSilent-if false m k s first second = second

  -- A read that succeeds leaves the connection up.
  pub read_up :
      {E : Type 0} (wrap : Text → E) (n : ℕ) (s : Stream) (bytes : List ℕ)
      → IsUp s
      → (map_io_err wrap (read_exact n) s).1 ≡ ok bytes
      → IsUp (read_exact n s).0
  read_up wrap n s bytes up e =
      let (size, split) = read_exact-ok n s bytes (map_err-ok wrap (read_exact n s).1 bytes e) in
      (read_exact-IsUp n s up
        (omega (arith, ap length split, size, length-append bytes (incoming (read_exact n s).0)))).1

  pub payload_block_quiet :
      {E : Type 0} (wrap : Text → E) (n : ℕ) (buf : List ℕ) (s : Stream)
      → written (payload_block tcp wrap n buf s).0 ≡ written s
  payload_block_quiet wrap n buf s = by (ltb 0 n)
    where
      added :
          {E : Type 0} (out : Stream × Result E (List ℕ))
          → (proceed out (λ payload. done (buf ++ payload))).0 ≡ out.0
      added (t, ok bytes) = refl
      added (t, err x) = refl

      by :
          (due : Bool)
          → written
              ((if due
                  then (map_io_err wrap (read_exact n) >>= λ payload. done (buf ++ payload))
                  else done buf)
                s).0
            ≡ written s
      by true = ap written (added (map_io_err wrap (read_exact n) s)) ∙ read_exact-written n s
      by false = refl

  pub payload_block_up :
      {E : Type 0} (wrap : Text → E) (n : ℕ) (buf full : List ℕ) (s : Stream)
      → IsUp s
      → (payload_block tcp wrap n buf s).1 ≡ ok full
      → IsUp (payload_block tcp wrap n buf s).0
  payload_block_up wrap n buf full s up = by (ltb 0 n)
    where
      added :
          {E : Type 0} (out : Stream × Result E (List ℕ))
          → ((bytes : List ℕ) → out.1 ≡ ok bytes → IsUp out.0)
          → (proceed out (λ payload. done (buf ++ payload))).1 ≡ ok full
          → IsUp (proceed out (λ payload. done (buf ++ payload))).0
      added (t, ok bytes) still e = still bytes refl
      added (t, err x) still e = absurd (cc e)

      by :
          (due : Bool)
          → ((if due
                then (map_io_err wrap (read_exact n) >>= λ payload. done (buf ++ payload))
                else done buf)
              s).1
            ≡ ok full
          → IsUp
              ((if due
                  then (map_io_err wrap (read_exact n) >>= λ payload. done (buf ++ payload))
                  else done buf)
                s).0
      by true e =
          added (map_io_err wrap (read_exact n) s) (λ bytes r. read_up wrap n s bytes up r) e
      by false e = up
