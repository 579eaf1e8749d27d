-- ===== src/Exchange/Echo.antt =====
-- A session and the echo server: crates/easy-usb-core/src/protocol/session.rs and server.rs.
use mathlib.Core.Path.{subst}
use easy_usb.Base.{
  ℕ, ◌≡◌, refl, sym, ap, ◌∙◌, false, List, [], ◌++◌, Option, none, ok, append-nil, inl,
}
use easy_usb.Bytes.{ByteIo}
use easy_usb.Wire.Constants.{cmd_submit, cmd_unlink}
use easy_usb.Wire.Union.{as_cmd_submit}
use easy_usb.Wire.Header.{UsbipHeader}
use easy_usb.Codec.Message.{
  HeaderIsValid, IsEncodable, PayloadMatches, HasDirection, carried, message,
}
use easy_usb.Net.{Tcp}
use easy_usb.Net.Leaves.{Leaves, written_alike}
use easy_usb.Session.{TcpSession, numbered, send_header, recv_header_inner}
use easy_usb.Session.Sending.{send_header-message}
use easy_usb.Session.Receive.{recv_header_inner-message}
use easy_usb.Server.{submit_reply, unlink_reply, serve_urb_echo}
use easy_usb.Server.Replies.{
  echo_of, unlink_echo_of, submit_reply-echo_of, unlink_reply-unlink_echo_of, reply-IsEncodable,
  reply-PayloadMatches, reply-IsValid, carried-reply, unlink_reply-IsEncodable,
  unlink_reply-IsValid, unlink-IsEncodable, submit_reply_bulk, unlink_reply_bulk,
  announced-unlink_reply,
}
use easy_usb.Server.Serving.{serve_urb_echo-cmd_submit, serve_urb_echo-cmd_unlink}

module _ ⦃io : ByteIo⦄ (tcp : Tcp) where
  open tcp use {Stream, incoming, written, IsUp}

  module _ (session : TcpSession tcp) (h : UsbipHeader) (server back : Stream)
      (opened : session.closed ≡ false) (up : IsUp session.stream) (server_up : IsUp server)
      (back_up : IsUp back) where
    abbrev request : UsbipHeader
    request = numbered h session.next_seqnum

    -- A session that is open sends a CMD_SUBMIT with its payload, the server serves what the session has
    -- written, and the session reads what the server has written: the server has seen the request under
    -- the session's number, and the session gets a RET_SUBMIT under that number, with
    -- status 0, the announced length, the request's setup bytes and its payload, and nothing is left to read at either end.
    pub echo_cmd_submit :
        (p : Option (List ℕ))
        → HeaderIsValid request
        → IsEncodable request p
        → PayloadMatches request p
        → h.base.command ≡ cmd_submit
        → written (send_header tcp h p session).0.stream ≡ written session.stream ++ incoming server
        → written (serve_urb_echo tcp server).0 ≡ written server ++ incoming back
        → Leaves tcp (serve_urb_echo tcp server) request [] (written server ++ incoming back)
          × Leaves tcp
              (recv_header_inner tcp back)
              (echo_of request, carried request p)
              []
              (written back)
    echo_cmd_submit p v e m c there again =
        let (_, out, _, _) = send_header-message tcp session h p opened up e in
        let arrived : incoming server ≡ message request p ++ [] =
          written_alike (written session.stream) _ _ _ there out ∙ sym (append-nil _) in
        let served = serve_urb_echo-cmd_submit tcp request p [] server v e m c server_up arrived in
        let reply = submit_reply request (as_cmd_submit h.u) (carried request p) in
        let same = submit_reply-echo_of request p m in
        let answered : incoming back ≡ message reply (carried request p) ++ [] =
          written_alike (written server) _ _ _ again served.wrote
          ∙ ap (λ (r : UsbipHeader). message r (carried request p)) (sym same)
          ∙ sym (append-nil _) in
        let got =
          recv_header_inner-message tcp reply (carried request p) [] back
            (reply-IsValid request p m v) (reply-IsEncodable request p m)
            (reply-PayloadMatches request p m)
            (submit_reply_bulk request (as_cmd_submit h.u) (carried request p)) back_up answered in
        (
          record { result = served.result; left = served.left; wrote = again; up = served.up },
          record {
            result =
                got.result
                ∙ ap (λ (q : Option (List ℕ)). ok (reply, q)) (carried-reply request p m)
                ∙ ap (λ (r : UsbipHeader). ok (r, carried request p)) same;
            left = got.left;
            wrote = got.wrote;
            up = got.up;
          },
        )

    -- A session that is open sends a CMD_UNLINK, the server serves what the session has written, and the
    -- session reads what the server has written: it gets a RET_UNLINK under the number that it sent, and
    -- nothing is left to read at either end.
    pub echo_cmd_unlink :
        HeaderIsValid request
        → HasDirection h.base.direction
        → h.base.command ≡ cmd_unlink
        → written (send_header tcp h none session).0.stream
          ≡ written session.stream ++ incoming server
        → written (serve_urb_echo tcp server).0 ≡ written server ++ incoming back
        → Leaves tcp (serve_urb_echo tcp server) request [] (written server ++ incoming back)
          × Leaves tcp (recv_header_inner tcp back) (unlink_echo_of request, none) [] (written back)
    echo_cmd_unlink v d c there again =
        let e = unlink-IsEncodable request d c in
        let (_, out, _, _) = send_header-message tcp session h none opened up e in
        let arrived : incoming server ≡ message request none ++ [] =
          written_alike (written session.stream) _ _ _ there out ∙ sym (append-nil _) in
        let served = serve_urb_echo-cmd_unlink tcp request [] server v d c server_up arrived in
        let reply = unlink_reply request in
        let same = unlink_reply-unlink_echo_of request in
        let answered : incoming back ≡ message reply none ++ [] =
          written_alike (written server) _ _ _ again served.wrote
          ∙ ap (λ (r : UsbipHeader). message r none) (sym same)
          ∙ sym (append-nil _) in
        let got =
          recv_header_inner-message tcp reply none [] back (unlink_reply-IsValid request v)
            (unlink_reply-IsEncodable request d) (inl (announced-unlink_reply request))
            (unlink_reply_bulk request) back_up answered in
        let nothing : carried reply none ≡ none = rw (announced-unlink_reply request) refl in
        (
          record { result = served.result; left = served.left; wrote = again; up = served.up },
          subst
              (λ (r : UsbipHeader).
                Leaves tcp (recv_header_inner tcp back) (r, none) [] (written back))
              same (rw (← nothing) got),
        )
