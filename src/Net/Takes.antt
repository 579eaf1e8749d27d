-- ===== src/Net/Takes.antt =====
-- What an operation that succeeds has taken off a connection, whatever the peer sends.
use easy_usb.Base.{
  ℕ, ◌≡◌, refl, sym, ap, ◌∙◌, Bool, true, false, List, [], ◌++◌, Result, ok, err, Text, map_err,
  length, arith, append_assoc, append-nil, ltb, if◌then◌else◌,
}
use easy_usb.Net.{Tcp, Io, proceed, ◌>>=◌, done, map_io_err, fail_if_io}
use easy_usb.Net.Leaves.{payload_block}

module _ {S E B : Type 0} where
  pub proceed-ok_inv :
      {A : Type 0} (p : S × Result E A) (f : A → Io S E B) (b : B)
      → (proceed p f).1 ≡ ok b
      → (a : A) × (p.1 ≡ ok a) × (proceed p f ≡ f a p.0)
  proceed-ok_inv (s, ok a) f b e = (a, refl, refl)
  proceed-ok_inv (s, err x) f b e = cc

  -- A test in front of an operation that succeeds has let it pass.
  pub passed :
      (test : Bool) (x : E) (k : Io S E B) (s : S) (b : B)
      → (proceed (fail_if_io test x s) (λ _. k)).1 ≡ ok b
      → (test ≡ false) × (proceed (fail_if_io test x s) (λ _. k) ≡ k s)
  passed true x k s b e = cc
  passed false x k s b e = (refl, refl)

module _ (tcp : Tcp) where
  open tcp use {Stream, read_exact, read_exact-ok, read_exact-written, incoming, written}

  -- An operation took some bytes off the stream and wrote nothing.
  pub record Takes (s t : Stream) (taken : List ℕ) : Type 0 where
    pub split : incoming s ≡ taken ++ incoming t
    pub quiet : written t ≡ written s

  pub Takes-then :
      (s t u : Stream) (front more : List ℕ)
      → Takes s t front
      → Takes t u more
      → Takes s u (front ++ more)
  Takes-then s t u front more first second = record {
    split = first.split ∙ ap (◌++◌ front) second.split ∙ sym (append_assoc front more (incoming u));
    quiet = second.quiet ∙ first.quiet;
  }

  pub read-Takes :
      {E : Type 0} (wrap : Text → E) (n : ℕ) (s : Stream) (bytes : List ℕ)
      → (map_io_err wrap (read_exact n) s).1 ≡ ok bytes
      → (length bytes ≡ n) × Takes s (read_exact n s).0 bytes
  read-Takes wrap n s bytes e =
      let (size, split) = read_exact-ok n s bytes (unwrapped (read_exact n s).1 e) in
      (size, record { split = split; quiet = read_exact-written n s })
    where
      unwrapped : (r : Result Text (List ℕ)) → map_err wrap r ≡ ok bytes → r ≡ ok bytes
      unwrapped (ok bs) e = cc
      unwrapped (err x) e = cc

  pub payload_block-Takes :
      {E : Type 0} (wrap : Text → E) (n : ℕ) (buf full : List ℕ) (s : Stream)
      → (payload_block tcp wrap n buf s).1 ≡ ok full
      → (more : List ℕ) × (full ≡ buf ++ more)
        × (length more ≡ n)
        × Takes s (payload_block tcp wrap n buf s).0 more
  payload_block-Takes wrap n buf full s = by (ltb 0 n) refl
    where
      by :
          (due : Bool)
          → ltb 0 n ≡ due
          → ((if due
                then (map_io_err wrap (read_exact n) >>= λ payload. done (buf ++ payload))
                else done buf)
              s).1
            ≡ ok full
          → (more : List ℕ) × (full ≡ buf ++ more)
            × (length more ≡ n)
            × Takes s
                ((if due
                    then (map_io_err wrap (read_exact n) >>= λ payload. done (buf ++ payload))
                    else done buf)
                  s).0
                more
      by true due e =
          let (more, got, same) =
            proceed-ok_inv (map_io_err wrap (read_exact n) s) (λ payload. done (buf ++ payload))
              full e in
          let (size, takes) = read-Takes wrap n s more got in (more, cc e, size, rw same takes)
      by false none_due e = (
        [],
        cc (e, append-nil buf),
        ground (arith, none_due),
        record { split = refl; quiet = refl },
      )
