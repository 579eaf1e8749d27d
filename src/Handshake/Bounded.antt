-- ===== src/Handshake/Bounded.antt =====
-- Where the loop of `import_device` ends.
use easy_usb.Base.{
  ℕ, zero, suc, ◌<◌, ◌≡◌, ◌≢◌, ◌⊎◌, inl, inr, refl, ◌∙◌, arith, List, Result, ok, err, length,
  false, ◌==◌,
}
use easy_usb.Bytes.{ByteIo}
use easy_usb.Wire.{OpReqImport, OpRepImport}
use easy_usb.Net.{Tcp}
use easy_usb.Handshake.{
  HandshakeError, max_retries_exceeded, Attempt, elapsed, connects, settle, do_handshake,
  attempt_step, attempt_loop, import_device, make_import_request,
}
use easy_usb.Handshake.Retries.{
  Answers, Fails, IsMet, IsUsable, met_transient, met_status, met_invalid, transient_timeout,
  attempted, attempted-Answers,
}
use easy_usb.Handshake.Attempts.{attempt_step-Fails}

module _ ⦃io : ByteIo⦄ (tcp : Tcp) where
  open tcp use {Stream}

  -- The attempts before the k-th all fail by a timeout or on the connection.
  abbrev pub FailsBelow : ℕ → (ℕ → Attempt Stream) → OpReqImport → Type 0
  FailsBelow zero net req = Unit {0}
  FailsBelow (suc k) net req = FailsBelow k net req × Fails (attempted tcp (net k) req)

  -- An attempt that does not fail so is what the loop returns.
  settle-verdict :
      (r : Result HandshakeError (Stream × OpRepImport))
      → Answers IsMet (λ success. IsUsable success.1) r
      → Fails r ⊎ ((again : Result HandshakeError (Stream × OpRepImport)) → settle tcp r again ≡ r)
  unfolding settle
  settle-verdict (ok success) h = inr (λ again. refl)
  settle-verdict (err e) (met_transient t) = inl (e, refl, t)
  settle-verdict (err _) (met_status bad) = inr (λ again. refl)
  settle-verdict (err _) met_invalid = inr (λ again. refl)

  attempt_step-verdict :
      (a : Attempt Stream) (req : OpReqImport)
      → Fails (attempted tcp a req)
        ⊎ ((again : Result HandshakeError (Stream × OpRepImport))
            → attempt_step tcp a req again ≡ attempted tcp a req)
  unfolding attempt_step attempted
  attempt_step-verdict elapsed req = inl (_, refl, transient_timeout)
  attempt_step-verdict (connects answer) req =
      settle-verdict (do_handshake tcp answer req) (attempted-Answers tcp (connects answer) req)

  -- The loop ends at the k-th attempt with what that gave, or after the third with its own error.
  abbrev pub EndsAt :
      ℕ → (ℕ → Attempt Stream) → OpReqImport → Result HandshakeError (Stream × OpRepImport) → Type 0
  EndsAt k net req out =
      ((k < 3) × (out ≡ attempted tcp (net k) req))
      ⊎ ((k ≡ 3) × (out ≡ err (max_retries_exceeded 3)))

  attempt_loop-EndsAt :
      (net : ℕ → Attempt Stream) (req : OpReqImport)
      → (k : ℕ) × FailsBelow k net req × EndsAt k net req (attempt_loop tcp 3 0 net req)
  unfolding attempt_loop
  attempt_loop-EndsAt net req = elim (attempt_step-verdict (net 0) req) [
    | inr last ↦ (0, tt, inl (omega arith, last _))
    | inl f ↦ elim (attempt_step-verdict (net 1) req) [
      | inr last ↦ (1, (tt, f), inl (omega arith, attempt_step-Fails tcp _ _ _ f ∙ last _))
      | inl g ↦
          let second = attempt_step-Fails tcp _ _ _ f ∙ attempt_step-Fails tcp _ _ _ g in
          elim (attempt_step-verdict (net 2) req) [
            | inr last ↦ (2, ((tt, f), g), inl (omega arith, second ∙ last _))
            | inl x ↦ (3, (((tt, f), g), x), inr (refl, second ∙ attempt_step-Fails tcp _ _ _ x))
          ]
    ]
  ]

  -- The import of a bus id that is not empty ends, and after at most three attempts: those before the
  -- last all failed by a timeout or on the connection, and what it returns is what the last gave, or
  -- the error of the exhausted attempts when there were three that failed so.
  pub import_device-EndsAt :
      (net : ℕ → Attempt Stream) (busid : List ℕ) (devid : ℕ)
      → length busid ≢ 0
      → let req = make_import_request busid devid in
        (k : ℕ) × FailsBelow k net req × EndsAt k net req (import_device tcp net busid devid)
  unfolding import_device
  import_device-EndsAt net busid devid named =
      let is_named : (length busid == 0) ≡ false = ground (arith, named) in
      rw is_named (attempt_loop-EndsAt net (make_import_request busid devid))
