-- ===== src/Exchange/Import.antt =====
-- The import handshake at both ends: crates/easy-usb-core/src/protocol/handshake.rs and server.rs.
use easy_usb.Base.{
  ℕ, ◌≤◌, ◌≡◌, ◌≢◌, ◌∷◌, refl, sym, ap, ◌∙◌, true, false, List, [], ◌++◌, Result, ok, length,
  append-nil, All, arith,
}
use easy_usb.Bytes.{ByteIo}
use easy_usb.Bytes.Words.{IsByte}
use easy_usb.Wire.{OpReqImport, OpRepImport}
use easy_usb.Codec.Import.Layout.{RepIsValid, req_bytes, rep_bytes}
use easy_usb.Net.{Tcp}
use easy_usb.Net.Leaves.{Leaves, written_alike}
use easy_usb.Handshake.{
  HandshakeError, connects, exchange, with_stream, do_handshake, import_device, make_import_request,
}
use easy_usb.Handshake.Retries.{IsUsable, attempted}
use easy_usb.Handshake.Attempts.{import_device-ok}
use easy_usb.Handshake.Exchanging.{exchange-Leaves, exchange-written}
use easy_usb.Server.{
  AcceptError, all_zero, read_request, accept_device, with_peer, send_op_rep_import,
}
use easy_usb.Server.Utf8.{is_utf8}
use easy_usb.Server.Accepting.{
  accept_device-verdict, send_op_rep_import-Leaves, make_import_request-IsValid,
  verdict-make_import_request,
}

module _ ⦃io : ByteIo⦄ (tcp : Tcp) where
  open tcp use {Stream, read_exact, incoming, written, IsUp}

  attempted_once :
      (s : Stream) (req : OpReqImport) (rep : OpRepImport)
      → (exchange tcp req s).1 ≡ ok rep
      → attempted tcp (connects (ok s)) req ≡ ok ((exchange tcp req s).0, rep)
  unfolding attempted do_handshake
  attempted_once s req rep e = kept (exchange tcp req s) e
    where
      kept :
          (out : Stream × Result HandshakeError OpRepImport)
          → out.1 ≡ ok rep
          → with_stream tcp out ≡ ok (out.0, rep)
      kept (t, r) e = rw e refl

  length-named : (bs : List ℕ) → all_zero bs ≡ false → length bs ≢ 0
  length-named [] h = cc
  length-named (b ∷ bs) h = omega arith

  -- The same before whatever follows on the connection: the server's end has the request to read and
  -- then more, and the client's the reply and then more.
  pub import_handshake_first :
      (busid : List ℕ) (devid : ℕ) (rep : OpRepImport) (client server : Stream)
      (asked more_asked answered more_answered : List ℕ)
      → All IsByte busid
      → length busid ≤ 32
      → all_zero busid ≡ false
      → is_utf8 busid ≡ true
      → RepIsValid rep
      → IsUsable rep
      → IsUp client
      → IsUp server
      → incoming server ≡ asked ++ more_asked
      → incoming client ≡ answered ++ more_answered
      → let req = make_import_request busid devid in
        let taken = (read_request tcp server).0 in
        written (exchange tcp req client).0 ≡ written client ++ asked
        → written (send_op_rep_import tcp rep taken).0 ≡ written taken ++ answered
        → (accept_device tcp (ok server) ≡ ok (taken, req))
          × (incoming taken ≡ more_asked)
          × (import_device tcp (λ _. connects (ok client)) busid devid
              ≡ ok ((exchange tcp req client).0, rep))
          × (incoming (exchange tcp req client).0 ≡ more_answered)
          × IsUp (exchange tcp req client).0
          × Leaves tcp
              (send_op_rep_import tcp rep taken)
              tt
              more_asked
              (written taken ++ rep_bytes rep)
  import_handshake_first busid devid rep client server asked more_asked answered more_answered bytes
        short named text v u up server_up to_server to_client there again =
      let req = make_import_request busid devid in
      let req_same =
        written_alike (written client) _ _ _ there (exchange-written tcp req client up) in
      let arrived : incoming server ≡ req_bytes req ++ more_asked =
        to_server ∙ ap (λ (l : List ℕ). l ++ more_asked) req_same in
      let (accepted, drained, _, taken_up) =
        accept_device-verdict tcp req more_asked server
          (make_import_request-IsValid busid devid bytes) server_up arrived in
      let taken = (read_request tcp server).0 in
      let answer = send_op_rep_import-Leaves tcp rep more_asked taken v taken_up drained in
      let rep_same = written_alike (written taken) _ _ _ again answer.wrote in
      let back : incoming client ≡ rep_bytes rep ++ more_answered =
        to_client ∙ ap (λ (l : List ℕ). l ++ more_answered) rep_same in
      let done = exchange-Leaves tcp req rep more_answered client v u up back in
      let success : attempted tcp (connects (ok client)) req
          ≡ ok ((exchange tcp req client).0, rep) =
        attempted_once client req rep done.result in
      (
        accepted
            ∙ ap (λ (r : Result AcceptError OpReqImport). with_peer tcp (taken, r))
                (verdict-make_import_request busid devid short named text),
        drained,
        import_device-ok tcp (λ _. connects (ok client)) busid devid 0 _ (length-named busid named)
            (omega arith) (λ i h. absurd (omega arith)) success,
        done.left,
        done.up,
        answer,
      )

  -- A client imports a device by a bus id of at most 32 bytes, UTF-8 and not all zeros, over a
  -- connection that is up at both ends; the server accepts, and answers with a valid reply that names a
  -- device. Then the server sees the very request, the client's first attempt succeeds with the very
  -- reply, and nothing is left to read at either end.
  pub import_handshake :
      (busid : List ℕ) (devid : ℕ) (rep : OpRepImport) (client server : Stream)
      → All IsByte busid
      → length busid ≤ 32
      → all_zero busid ≡ false
      → is_utf8 busid ≡ true
      → RepIsValid rep
      → IsUsable rep
      → IsUp client
      → IsUp server
      → let req = make_import_request busid devid in
        let taken = (read_request tcp server).0 in
        written (exchange tcp req client).0 ≡ written client ++ incoming server
        → written (send_op_rep_import tcp rep taken).0 ≡ written taken ++ incoming client
        → (accept_device tcp (ok server) ≡ ok (taken, req))
          × (incoming taken ≡ [])
          × (import_device tcp (λ _. connects (ok client)) busid devid
              ≡ ok ((exchange tcp req client).0, rep))
          × (incoming (exchange tcp req client).0 ≡ [])
          × IsUp (exchange tcp req client).0
  import_handshake busid devid rep client server bytes short named text v u up server_up there
        again =
      let (accepted, drained, imported, left, still, _) =
        import_handshake_first busid devid rep client server (incoming server) [] (incoming client)
          [] bytes short named text v u up server_up (sym (append-nil _)) (sym (append-nil _)) there
          again in
      (accepted, drained, imported, left, still)
