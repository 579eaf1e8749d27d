-- ===== src/Handshake/Attempts.antt =====
-- Which of the three attempts of `import_device` decides.
use easy_usb.Base.{
  ℕ, zero, suc, ◌<◌, ◌≡◌, ◌≢◌, refl, ◌∙◌, List, Result, ok, err, length, arith, false, ◌==◌,
}
use easy_usb.Bytes.{ByteIo}
use easy_usb.Wire.{OpReqImport, OpRepImport}
use easy_usb.Net.{Tcp}
use easy_usb.Handshake.{
  HandshakeError, max_retries_exceeded, Attempt, elapsed, connects, do_handshake, settle,
  attempt_step, attempt_loop, import_device, make_import_request,
}
use easy_usb.Handshake.Retries.{Fails, transient_timeout, transient_connection, attempted}

module _ ⦃io : ByteIo⦄ (tcp : Tcp) where
  open tcp use {Stream}

  settle-Fails :
      (r again : Result HandshakeError (Stream × OpRepImport))
      → Fails r
      → settle tcp r again ≡ again
  unfolding settle
  settle-Fails r again (_, e, transient_timeout) = rw e refl
  settle-Fails r again (_, e, transient_connection) = rw e refl

  pub attempt_step-Fails :
      (a : Attempt Stream) (req : OpReqImport)
      (again : Result HandshakeError (Stream × OpRepImport))
      → Fails (attempted tcp a req)
      → attempt_step tcp a req again ≡ again
  unfolding attempt_step attempted
  attempt_step-Fails elapsed req again h = refl
  attempt_step-Fails (connects answer) req again h =
      settle-Fails (do_handshake tcp answer req) again h

  attempt_step-ok :
      (a : Attempt Stream) (req : OpReqImport)
      (again : Result HandshakeError (Stream × OpRepImport)) (success : Stream × OpRepImport)
      → attempted tcp a req ≡ ok success
      → attempt_step tcp a req again ≡ ok success
  unfolding attempt_step attempted settle
  attempt_step-ok elapsed req again success h = cc
  attempt_step-ok (connects answer) req again success h = rw h refl

  -- When the attempts before one of the three fail by a timeout or on the connection, and that one
  -- succeeds, the import of a bus id that is not empty gives what it gave.
  pub import_device-ok :
      (net : ℕ → Attempt Stream) (busid : List ℕ) (devid k : ℕ) (success : Stream × OpRepImport)
      → length busid ≢ 0
      → k < 3
      → ((i : ℕ) → i < k → Fails (attempted tcp (net i) (make_import_request busid devid)))
      → attempted tcp (net k) (make_import_request busid devid) ≡ ok success
      → import_device tcp net busid devid ≡ ok success
  unfolding import_device attempt_loop
  import_device-ok net busid devid k success named three before here =
      let is_named : (length busid == 0) ≡ false = ground (arith, named) in
      rw is_named (at k three before here)
    where
      at :
          (k : ℕ)
          → k < 3
          → ((i : ℕ) → i < k → Fails (attempted tcp (net i) (make_import_request busid devid)))
          → attempted tcp (net k) (make_import_request busid devid) ≡ ok success
          → attempt_loop tcp 3 0 net (make_import_request busid devid) ≡ ok success
      at zero three before here = attempt_step-ok _ _ _ success here
      at (suc zero) three before here =
          attempt_step-Fails _ _ _ (before 0 (omega arith)) ∙ attempt_step-ok _ _ _ success here
      at (suc (suc zero)) three before here =
          attempt_step-Fails _ _ _ (before 0 (omega arith))
          ∙ attempt_step-Fails _ _ _ (before 1 (omega arith))
          ∙ attempt_step-ok _ _ _ success here
      at (suc (suc (suc k))) three before here = ground (arith, three)

  -- When all three attempts fail by a timeout or on the connection, the import of a bus id that is not
  -- empty gives up after three.
  pub import_device-exhausted :
      (net : ℕ → Attempt Stream) (busid : List ℕ) (devid : ℕ)
      → length busid ≢ 0
      → ((i : ℕ) → i < 3 → Fails (attempted tcp (net i) (make_import_request busid devid)))
      → import_device tcp net busid devid ≡ err (max_retries_exceeded 3)
  unfolding import_device attempt_loop
  import_device-exhausted net busid devid named all_fail =
      let is_named : (length busid == 0) ≡ false = ground (arith, named) in
      rw is_named (
        attempt_step-Fails _ _ _ (all_fail 0 (omega arith))
        ∙ attempt_step-Fails _ _ _ (all_fail 1 (omega arith))
        ∙ attempt_step-Fails _ _ _ (all_fail 2 (omega arith)))
