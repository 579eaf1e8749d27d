-- ===== src/Handshake/Retries.antt =====
-- The answers of `import_device`, and its three attempts.
use easy_usb.Base.{
  ℕ, zero, suc, ◌≡◌, ◌≢◌, refl, Bool, true, false, not, ◌||◌, List, Result, ok, err, Text, map_err,
  length, arith, ◌==◌, inl, inr, Bool-cases,
}
use easy_usb.Bytes.{ByteIo}
use easy_usb.Wire.{OpReqImport, OpRepImport}
use easy_usb.Codec.Import.{encode_op_req_import, decode_op_rep_import, op_rep_import_size}
use easy_usb.Net.{Tcp, Io, proceed, ◌>>◌, done, fail_if_io}
use easy_usb.Handshake.{
  HandshakeError, timeout, connection_failed, server_rejected, max_retries_exceeded, invalid_reply,
  Attempt, elapsed, connects, with_stream, exchange, do_handshake, attempt_loop, settle,
  attempt_step, import_device, make_import_request,
}

-- The errors that `import_device` reports.
pub data IsReported : HandshakeError → Type 0 where
  reported_status : {status : ℕ} → status ≢ 0 → IsReported (server_rejected status)
  reported_invalid : {text : Text} → IsReported (invalid_reply text)
  reported_exhausted : IsReported (max_retries_exceeded 3)

-- The errors after which it tries again.
pub data IsTransient : HandshakeError → Type 0 where
  transient_timeout : {seconds : ℕ} → IsTransient (timeout seconds)
  transient_connection : {text : Text} → IsTransient (connection_failed text)

-- A reply that names a device.
pub record IsUsable (reply : OpRepImport) : Type 0 where
  pub status : reply.status ≡ 0
  pub busnum : reply.busnum ≢ 0
  pub devnum : reply.devnum ≢ 0

-- An error of one attempt.
pub data IsMet : HandshakeError → Type 0 where
  met_transient : {e : HandshakeError} → IsTransient e → IsMet e
  met_status : {status : ℕ} → status ≢ 0 → IsMet (server_rejected status)
  met_invalid : {text : Text} → IsMet (invalid_reply text)

-- A result of the kind `P`, or an error of the kind `E`.
abbrev pub Answers :
    {A : Type 0} → (HandshakeError → Type 0) → (A → Type 0) → Result HandshakeError A → Type 0
Answers E P (ok a) = P a
Answers E P (err e) = E e

abbrev Errs : {A : Type 0} → Result HandshakeError A → Type 0
Errs r = Answers IsMet (λ _. Unit {0}) r

map_err-Errs :
    {E A : Type 0} (wrap : E → HandshakeError) (r : Result E A)
    → ((x : E) → IsMet (wrap x))
    → Errs (map_err wrap r)
map_err-Errs wrap (ok a) h = tt
map_err-Errs wrap (err e) h = h e

-- A failure after which it tries again.
abbrev pub Fails : {A : Type 0} → Result HandshakeError A → Type 0
Fails r = (e : HandshakeError) × (r ≡ err e) × IsTransient e

module _ {S : Type 0} where
  proceed-Answers :
      {A B : Type 0} (P : B → Type 0) (p : S × Result HandshakeError A)
      (f : A → Io S HandshakeError B)
      → Errs p.1
      → ((a : A) (s : S) → Answers IsMet P (f a s).1)
      → Answers IsMet P (proceed p f).1
  proceed-Answers P (s, ok a) f e k = k a s
  proceed-Answers P (s, err x) f e k = e

  -- The last two tests of an exchange.
  checked :
      (rejected incomplete : Bool) (text : Text) → OpRepImport → Io S HandshakeError OpRepImport
  checked rejected incomplete text reply =
      fail_if_io rejected (server_rejected reply.status)
      >> (fail_if_io incomplete (invalid_reply text) >> done reply)

  checked-Answers :
      (rejected incomplete : Bool) (text : Text) (reply : OpRepImport) (s : S)
      → (rejected ≡ true → reply.status ≢ 0)
      → (rejected ≡ false → incomplete ≡ false → IsUsable reply)
      → Answers IsMet IsUsable (checked rejected incomplete text reply s).1
  unfolding checked
  checked-Answers true incomplete text reply s bad good = met_status (bad refl)
  checked-Answers false true text reply s bad good = met_invalid
  checked-Answers false false text reply s bad good = good refl refl

module _ ⦃io : ByteIo⦄ (tcp : Tcp) where
  open tcp use {Stream, read_exact, write_all}

  -- What one attempt gives.
  unfoldable pub attempted :
      Attempt Stream → OpReqImport → Result HandshakeError (Stream × OpRepImport)
  attempted elapsed req = err (timeout 10)
  attempted (connects answer) req = do_handshake tcp answer req

  exchange-Answers :
      (req : OpReqImport) (s : Stream) → Answers IsMet IsUsable (exchange tcp req s).1
  unfolding exchange checked
  exchange-Answers req s =
      proceed-Answers IsUsable _ _ (map_err-Errs _ (encode_op_req_import req) (λ _. met_invalid))
        (λ sent s1.
          proceed-Answers IsUsable _ _
            (map_err-Errs _ (write_all sent s1).1 (λ _. met_transient transient_connection))
            (λ _ s2.
              proceed-Answers IsUsable _ _
                (map_err-Errs _ (read_exact op_rep_import_size s2).1
                  (λ _. met_transient transient_connection))
                (λ got s3.
                  proceed-Answers IsUsable _ _
                    (map_err-Errs _ (decode_op_rep_import got) (λ _. met_invalid))
                    (λ reply s4.
                      checked-Answers (not (reply.status == 0))
                        (reply.busnum == 0 || reply.devnum == 0) _ reply s4 (λ e. ground (arith, e))
                        (λ e f. record {
                          status = ground (arith, e);
                          busnum = ground (arith, f);
                          devnum = ground (arith, f);
                        })))))

  stream_Answers :
      (out : Stream × Result HandshakeError OpRepImport)
      → Answers IsMet IsUsable out.1
      → Answers IsMet (λ success. IsUsable success.1) (with_stream tcp out)
  stream_Answers (s, ok reply) h = h
  stream_Answers (s, err e) h = h

  pub attempted-Answers :
      (attempt : Attempt Stream) (req : OpReqImport)
      → Answers IsMet (λ success. IsUsable success.1) (attempted attempt req)
  unfolding attempted do_handshake
  attempted-Answers elapsed req = met_transient transient_timeout
  attempted-Answers (connects (ok s)) req = stream_Answers _ (exchange-Answers req s)
  attempted-Answers (connects (err e)) req = met_transient transient_connection

  -- A step of the loop answers as it reports, if the rest of the loop does.
  settle-Answers :
      (r again : Result HandshakeError (Stream × OpRepImport))
      → Answers IsMet (λ success. IsUsable success.1) r
      → Answers IsReported (λ success. IsUsable success.1) again
      → Answers IsReported (λ success. IsUsable success.1) (settle tcp r again)
  unfolding settle
  settle-Answers (ok success) again h rest = h
  settle-Answers (err _) again (met_status bad) rest = reported_status bad
  settle-Answers (err _) again met_invalid rest = reported_invalid
  settle-Answers (err _) again (met_transient transient_timeout) rest = rest
  settle-Answers (err _) again (met_transient transient_connection) rest = rest

  attempt_step-Answers :
      (attempt : Attempt Stream) (req : OpReqImport)
      (again : Result HandshakeError (Stream × OpRepImport))
      → Answers IsReported (λ success. IsUsable success.1) again
      → Answers IsReported (λ success. IsUsable success.1) (attempt_step tcp attempt req again)
  unfolding attempt_step attempted
  attempt_step-Answers elapsed req again rest = rest
  attempt_step-Answers (connects answer) req again rest =
      settle-Answers (do_handshake tcp answer req) again (attempted-Answers (connects answer) req)
        rest

  attempt_loop-Answers :
      (left i : ℕ) (net : ℕ → Attempt Stream) (req : OpReqImport)
      → Answers IsReported (λ success. IsUsable success.1) (attempt_loop tcp left i net req)
  unfolding attempt_loop
  attempt_loop-Answers zero i net req = reported_exhausted
  attempt_loop-Answers (suc left) i net req =
      attempt_step-Answers (net i) req _ (attempt_loop-Answers left (suc i) net req)

  -- An import ends with a stream and a reply whose status is 0 and whose bus and device numbers are not,
  -- with the server's status, which is not 0, with an invalid reply, or with the exhausted attempts; a
  -- single attempt's timeout or connection failure is not reported.
  pub import_device-Answers :
      (net : ℕ → Attempt Stream) (busid : List ℕ) (devid : ℕ)
      → Answers IsReported (λ success. IsUsable success.1) (import_device tcp net busid devid)
  unfolding import_device
  import_device-Answers net busid devid = elim (Bool-cases (length busid == 0)) [
    | inl empty ↦ rw empty reported_invalid
    | inr named ↦ rw named (attempt_loop-Answers 3 0 net (make_import_request busid devid))
  ]
