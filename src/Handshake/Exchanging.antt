-- ===== src/Handshake/Exchanging.antt =====
-- One handshake on a connection that is up: what it writes, and the reply that it takes.
use easy_usb.Base.{
  ℕ, ◌≡◌, refl, ◌∙◌, true, false, Bool, not, ◌||◌, List, [], ◌∷◌, ◌++◌, Result, ok, err, lit, dec,
  arith, ◌==◌, map_err,
}
use easy_usb.Bytes.{ByteIo}
use easy_usb.Wire.{OpReqImport, OpRepImport}
use easy_usb.Codec.Import.{decode_op_rep_import}
use easy_usb.Codec.Import.Layout.{RepIsValid, req_bytes, rep_bytes}
use easy_usb.Codec.Import.RoundTrip.{encode_op_req_import_lem, decode_rep_exact}
use easy_usb.Net.{Tcp, Io, proceed, done, map_io_err, fail_if_io}
use easy_usb.Net.Leaves.{Leaves, Leaves-then, reads, writes}
use easy_usb.Codec.{to_text}
use easy_usb.Handshake.{HandshakeError, connection_failed, invalid_reply, server_rejected, exchange}
use easy_usb.Handshake.Retries.{IsUsable}

module _ ⦃io : ByteIo⦄ (tcp : Tcp) where
  open tcp use {
    Stream, read_exact, read_exact-written, write_all, write_all-ok, write_all-IsUp, incoming,
    written, IsUp,
  }

  -- A valid reply that names a device is taken off the stream, and just the request is written.
  pub exchange-Leaves :
      (req : OpReqImport) (rep : OpRepImport) (rest : List ℕ) (s : Stream)
      → RepIsValid rep
      → IsUsable rep
      → IsUp s
      → incoming s ≡ rep_bytes rep ++ rest
      → Leaves tcp (exchange tcp req s) rep rest (written s ++ req_bytes req)
  unfolding exchange
  exchange-Leaves req rep rest s v u up arrives =
      let (long, decoded) = decode_rep_exact rep v in
      let sent =
        writes tcp connection_failed (req_bytes req) (rep_bytes rep ++ rest) s up arrives in
      let s2 = (write_all (req_bytes req) s).0 in
      let got = reads tcp connection_failed 316 (rep_bytes rep) rest s2 sent.up sent.left long in
      let accepted : (rep.status == 0) ≡ true = ground (arith, u.status) in
      let named : (rep.busnum == 0 || rep.devnum == 0) ≡ false =
        ground (arith, u.busnum, u.devnum) in
      rw (encode_op_req_import_lem req) (
        Leaves-then tcp _ _ tt rep (rep_bytes rep ++ rest) rest (written s ++ req_bytes req)
          (written s ++ req_bytes req) sent
          (Leaves-then tcp _ _ (rep_bytes rep) rep rest rest (written s2)
            (written s ++ req_bytes req) got
            (rw (decoded, accepted, named)
              (record {
                result = refl;
                left = got.left;
                wrote = got.wrote ∙ sent.wrote;
                up = got.up;
              }))))

  -- An operation that writes nothing.
  unfoldable IsQuiet : {A : Type 0} → Io Stream HandshakeError A → Type 0
  IsQuiet m = (s : Stream) → written (m s).0 ≡ written s

  proceed-written :
      {A B : Type 0} (p : Stream × Result HandshakeError A) (f : A → Io Stream HandshakeError B)
      → ((a : A) → IsQuiet (f a))
      → written (proceed p f).0 ≡ written p.0
  unfolding IsQuiet
  proceed-written (s, ok a) f k = k a s
  proceed-written (s, err x) f k = refl

  check-IsQuiet :
      {B : Type 0} (b : Bool) (e : HandshakeError) (k : Io Stream HandshakeError B)
      → IsQuiet k
      → IsQuiet (λ s. proceed (fail_if_io b e s) (λ _. k))
  unfolding IsQuiet
  check-IsQuiet true e k q s = refl
  check-IsQuiet false e k q s = q s

  lift-IsQuiet :
      {A B : Type 0} (r : Result HandshakeError A) (f : A → Io Stream HandshakeError B)
      → ((a : A) → IsQuiet (f a))
      → IsQuiet (λ s. proceed (s, r) f)
  unfolding IsQuiet
  lift-IsQuiet r f k s = proceed-written (s, r) f k

  read-IsQuiet :
      {B : Type 0} (n : ℕ) (f : List ℕ → Io Stream HandshakeError B)
      → ((a : List ℕ) → IsQuiet (f a))
      → IsQuiet (λ s. proceed (map_io_err connection_failed (read_exact n) s) f)
  unfolding IsQuiet
  read-IsQuiet n f k s =
      proceed-written (map_io_err connection_failed (read_exact n) s) f k ∙ read_exact-written n s

  done-IsQuiet : {A : Type 0} (a : A) → IsQuiet (done a)
  unfolding IsQuiet
  done-IsQuiet a s = refl

  write-written :
      {B : Type 0} (bytes : List ℕ) (k : Io Stream HandshakeError B) (s : Stream)
      → IsQuiet k
      → IsUp s
      → written (proceed (map_io_err connection_failed (write_all bytes) s) (λ _. k)).0
        ≡ written s ++ bytes
  write-written bytes k s q up =
      let (sent, _) = write_all-IsUp bytes s up in
      proceed-written (map_io_err connection_failed (write_all bytes) s) (λ _. k) (λ _. q)
      ∙ write_all-ok bytes s sent

  -- Whatever the server does, a handshake on a connection that is up writes just the request.
  pub exchange-written :
      (req : OpReqImport) (s : Stream)
      → IsUp s
      → written (exchange tcp req s).0 ≡ written s ++ req_bytes req
  unfolding exchange
  exchange-written req s up = rw (encode_op_req_import_lem req) (
      write-written (req_bytes req) _ s
        (read-IsQuiet 316 _ (λ got.
          lift-IsQuiet (map_err (λ e. invalid_reply (to_text e)) (decode_op_rep_import got)) _
            (λ (reply : OpRepImport).
              check-IsQuiet (not (reply.status == 0)) (server_rejected reply.status) _ (
                check-IsQuiet (reply.busnum == 0 || reply.devnum == 0)
                  (invalid_reply
                    (lit "busnum=" ∷ dec reply.busnum ∷ lit " devnum=" ∷ dec reply.devnum ∷ []))
                  (done reply) (done-IsQuiet reply)))))
        up)
