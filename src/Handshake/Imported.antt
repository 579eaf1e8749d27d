-- ===== src/Handshake/Imported.antt =====
-- What an import that succeeds has sent and taken, whatever the server sends.
use mathlib.Core.Path.{subst}
use easy_usb.Base.{
  ℕ, ◌<◌, ◌≡◌, ◌≢◌, inl, inr, refl, sym, ap, ◌∙◌, not, ◌||◌, List, [], ◌∷◌, ◌++◌, Result, ok, err,
  map_err, lit, dec, length, take, take_all, arith, All, All-front, ◌==◌,
}
use easy_usb.Bytes.{ByteIo}
use easy_usb.Bytes.Words.{IsByte}
use easy_usb.Wire.{OpReqImport, OpRepImport}
use easy_usb.Codec.{to_text}
use easy_usb.Codec.Import.{decode_op_rep_import}
use easy_usb.Codec.Import.Layout.{RepIsValid, req_bytes, rep_bytes}
use easy_usb.Codec.Import.RoundTrip.{encode_op_req_import_lem, encode_op_rep_import_lem}
use easy_usb.Codec.Import.Sound.{encode_op_rep_import-decode_op_rep_import}
use easy_usb.Net.{Tcp, Io, proceed, ◌>>=◌, ◌>>◌, done, lift, map_io_err, fail_if_io}
use easy_usb.Net.Takes.{proceed-ok_inv, passed, Takes, read-Takes}
use easy_usb.Net.Silent.{map_err-ok}
use easy_usb.Handshake.{
  HandshakeError, connection_failed, server_rejected, invalid_reply, Attempt, elapsed, connects,
  with_stream, exchange, do_handshake, import_device, make_import_request,
}
use easy_usb.Handshake.Retries.{IsUsable, attempted}
use easy_usb.Handshake.Bounded.{FailsBelow, import_device-EndsAt}

module _ ⦃io : ByteIo⦄ (tcp : Tcp) where
  open tcp use {
    Stream, read_exact, write_all, write_all-ok, write_all-incoming, incoming, written,
    incoming-IsByte,
  }

  -- The request was written, and a usable reply taken off the stream, just its bytes.
  pub record Imports (req : OpReqImport) (s t : Stream) (reply : OpRepImport) : Type 0 where
    pub valid : RepIsValid reply
    pub usable : IsUsable reply
    pub taken : incoming s ≡ rep_bytes reply ++ incoming t
    pub wrote : written t ≡ written s ++ req_bytes req

  reply_bytes :
      (buf : List ℕ) (reply : OpRepImport)
      → All IsByte buf
      → length buf ≡ 316
      → decode_op_rep_import buf ≡ ok reply
      → RepIsValid reply × (rep_bytes reply ≡ buf)
  reply_bytes buf reply bytes size e =
      let (v, again) = encode_op_rep_import-decode_op_rep_import buf reply bytes e in
      let same : rep_bytes reply ≡ take 316 buf =
        cc (sym (encode_op_rep_import_lem reply v) ∙ again) in
      (v, same ∙ take_all 316 buf (omega (arith, size)))

  -- The tests on a reply.
  abbrev tests : OpRepImport → Io Stream HandshakeError OpRepImport
  tests reply =
      fail_if_io (not (reply.status == 0)) (server_rejected reply.status)
      >> (fail_if_io (reply.busnum == 0 || reply.devnum == 0) (
            invalid_reply
              (lit "busnum=" ∷ dec reply.busnum ∷ lit " devnum=" ∷ dec reply.devnum ∷ []))
          >> done reply)

  tests-ok :
      (got reply : OpRepImport) (t : Stream)
      → (tests got t).1 ≡ ok reply
      → IsUsable got × (got ≡ reply) × ((tests got t).0 ≡ t)
  tests-ok got reply t e =
      let (good, next) = passed (not (got.status == 0)) (server_rejected got.status) _ t reply e in
      let (named, next2) =
        passed (got.busnum == 0 || got.devnum == 0) _ _ t reply (ap (λ o. o.1) (sym next) ∙ e) in
      let whole = next ∙ next2 in
      (
        record {
          status = ground (arith, good);
          busnum = ground (arith, named);
          devnum = ground (arith, named);
        },
        cc (ap (λ o. o.1) (sym whole) ∙ e),
        ap (λ o. o.0) whole,
      )

  abbrev behind_read : List ℕ → Io Stream HandshakeError OpRepImport
  behind_read buf =
      lift (map_err (λ e. invalid_reply (to_text e)) (decode_op_rep_import buf)) >>= tests

  abbrev behind_write : Io Stream HandshakeError OpRepImport
  behind_write = map_io_err connection_failed (read_exact 316) >>= behind_read

  -- What the rest of an exchange has taken.
  record Reads (s t : Stream) (reply : OpRepImport) : Type 0 where
    valid : RepIsValid reply
    usable : IsUsable reply
    takes : Takes tcp s t (rep_bytes reply)

  behind_write-Reads :
      (s : Stream) (reply : OpRepImport)
      → (behind_write s).1 ≡ ok reply
      → Reads s (behind_write s).0 reply
  behind_write-Reads s reply e =
      let read = map_io_err connection_failed (read_exact 316) s in
      let (buf, got, next) = proceed-ok_inv read behind_read reply e in
      let (size, took) = read-Takes tcp connection_failed 316 s buf got in
      let decoding = map_err (λ e. invalid_reply (to_text e)) (decode_op_rep_import buf) in
      let (rep, decoded, next2) =
        proceed-ok_inv (lift decoding read.0) tests reply (ap (λ o. o.1) (sym next) ∙ e) in
      let whole = next ∙ next2 in
      let (usable, same, stays) = tests-ok rep reply read.0 (ap (λ o. o.1) (sym whole) ∙ e) in
      let bytes =
        All-front IsByte buf (incoming read.0)
          (subst (λ (l : List ℕ). All IsByte l) took.split (incoming-IsByte s)) in
      let (v, spelled) =
        reply_bytes buf rep bytes size (map_err-ok _ (decode_op_rep_import buf) rep decoded) in
      let found : Reads s read.0 rep = record {
        valid = v;
        usable = usable;
        takes = subst (λ (l : List ℕ). Takes tcp s read.0 l) (sym spelled) took;
      } in
      subst (λ (u : Stream). Reads s u reply) (sym (ap (λ o. o.0) whole ∙ stays))
        (subst (λ (r : OpRepImport). Reads s read.0 r) same found)

  behind_encode-Imports :
      (req : OpReqImport) (s : Stream) (reply : OpRepImport)
      → (proceed (map_io_err connection_failed (write_all (req_bytes req)) s) (λ _. behind_write)).1
        ≡ ok reply
      → Imports req s
          (proceed
            (map_io_err connection_failed (write_all (req_bytes req)) s)
            (λ _. behind_write)).0
          reply
  behind_encode-Imports req s reply e =
      let bytes = req_bytes req in
      let write = map_io_err connection_failed (write_all bytes) s in
      let (_, sent, next) = proceed-ok_inv write (λ _. behind_write) reply e in
      let reads = behind_write-Reads write.0 reply (ap (λ o. o.1) (sym next) ∙ e) in
      let wrote =
        write_all-ok bytes s (map_err-ok connection_failed (write_all bytes s).1 tt sent) in
      subst (λ (u : Stream). Imports req s u reply) (sym (ap (λ o. o.0) next))
        (record {
          valid = reads.valid;
          usable = reads.usable;
          taken = sym (write_all-incoming bytes s) ∙ reads.takes.split;
          wrote = reads.takes.quiet ∙ wrote;
        })

  exchange-Imports :
      (req : OpReqImport) (s : Stream) (reply : OpRepImport)
      → (exchange tcp req s).1 ≡ ok reply
      → Imports req s (exchange tcp req s).0 reply
  unfolding exchange
  exchange-Imports req s reply =
      rw (encode_op_req_import_lem req) (behind_encode-Imports req s reply)

  -- One attempt that succeeds was connected.
  abbrev pub Connected : Attempt Stream → OpReqImport → Stream → OpRepImport → Type 0
  Connected attempt req t reply = (s : Stream) × (attempt ≡ connects (ok s)) × Imports req s t reply

  opened :
      (out : Stream × Result HandshakeError OpRepImport) (t : Stream) (reply : OpRepImport)
      → with_stream tcp out ≡ ok (t, reply)
      → (out.0 ≡ t) × (out.1 ≡ ok reply)
  opened (u, ok got) t reply e = (cc e, cc e)
  opened (u, err x) t reply e = absurd (cc e)

  attempted-Connected :
      (attempt : Attempt Stream) (req : OpReqImport) (t : Stream) (reply : OpRepImport)
      → attempted tcp attempt req ≡ ok (t, reply)
      → Connected attempt req t reply
  unfolding attempted do_handshake
  attempted-Connected elapsed req t reply e = absurd (cc e)
  attempted-Connected (connects (err x)) req t reply e = absurd (cc e)
  attempted-Connected (connects (ok s)) req t reply e =
      let (there, made) = opened (exchange tcp req s) t reply e in
      (
        s,
        refl,
        subst (λ (u : Stream). Imports req s u reply) there (exchange-Imports req s reply made),
      )

  -- When an import by a bus id that is not empty succeeds, whatever the network does and the server
  -- sends, then one of the first three attempts was connected, those before it failed by a timeout or
  -- on the connection; on its stream just the request was written, and just the bytes of the reply
  -- that the import returns were taken, a valid one whose status is 0 and that names a device.
  pub import_device-Connected :
      (net : ℕ → Attempt Stream) (busid : List ℕ) (devid : ℕ) (t : Stream) (reply : OpRepImport)
      → length busid ≢ 0
      → import_device tcp net busid devid ≡ ok (t, reply)
      → let req = make_import_request busid devid in
        (k : ℕ) × (k < 3) × FailsBelow tcp k net req × Connected (net k) req t reply
  import_device-Connected net busid devid t reply named e =
      let req = make_import_request busid devid in
      let (k, failed, last) = import_device-EndsAt tcp net busid devid named in
      elim last [
        | inl (three, out) ↦
            (k, three, failed, attempted-Connected (net k) req t reply (sym out ∙ e))
        | inr (_, out) ↦ absurd (cc (out, e))
      ]
