-- ===== src/Exchange/Pipeline/Round.antt =====
-- A session sends URB after URB, the echo server answers each, and the session reads the answers.
use mathlib.Core.List.{map}
use easy_usb.Base.{
  ℕ, suc, ◌≡◌, ◌+◌, ◌%◌, refl, sym, ap, ◌∙◌, false, List, [], ◌∷◌, ◌++◌, ok, All, append-nil,
  length,
}
use easy_usb.Bytes.{ByteIo}
use easy_usb.Wire.Header.{UsbipHeader}
use easy_usb.Net.{Tcp}
use easy_usb.Net.Leaves.{Leaves, written_alike}
use easy_usb.Net.Loops.{joined, repeat_io, repeat_io-Leaves}
use easy_usb.Session.{TcpSession, recv_header, recv_header_inner}
use easy_usb.Server.{serve_urb_echo}
use easy_usb.Server.Contract.{Urb, urb_message, answer_of, IsServable}
use easy_usb.Exchange.Pipeline.{numbered_from, send_all}
use easy_usb.Exchange.Pipeline.Served.{serve_urb_echo-answer_of, recv_header_inner-answer_of}
use easy_usb.Exchange.Pipeline.Received.{repeat_recv-on_stream}
use easy_usb.Exchange.Pipeline.Sent.{send_all-Sends}

length-numbered_from : (urbs : List Urb) (n : ℕ) → length (numbered_from n urbs) ≡ length urbs
length-numbered_from [] n = refl
length-numbered_from (_ ∷ urbs) n = ap suc (length-numbered_from urbs ((n + 1) % 4294967296))

abbrev pub head_of : Urb → UsbipHeader
head_of (h, p) = h

abbrev pub answer_message : Urb → List ℕ
answer_message u = urb_message (answer_of u)

module _ ⦃io : ByteIo⦄ (tcp : Tcp) where
  open tcp use {Stream, incoming, written, IsUp}

  recv_answer :
      (urb : Urb) (rest : List ℕ) (s : Stream)
      → IsServable urb
      → IsUp s
      → incoming s ≡ answer_message urb ++ rest
      → Leaves tcp (recv_header_inner tcp s) (answer_of urb) rest (written s ++ [])
  recv_answer urb rest s i up e =
      rw (append-nil (written s)) (recv_header_inner-answer_of tcp urb rest s i up e)

  -- On an open session that is up, SUBMITs and UNLINKs that are valid and can be encoded under the
  -- session's numbers, each with the payload that it announces, are sent one after the other; the echo
  -- server on a connection that is up reads what the session has written, and runs once for each; and the
  -- session reads what the server has written, once for each. Then all URBs are sent, the server takes
  -- each of them in its order, and the session gets the answer of each in its order: a RET_SUBMIT
  -- with status 0, the announced length, the setup bytes and the payload, or a RET_UNLINK, under the number of
  -- its request. Nothing is left to read at either end.
  pub echo_pipeline :
      (session : TcpSession tcp) (urbs : List Urb) (server : Stream)
      → session.closed ≡ false
      → IsUp session.stream
      → IsUp server
      → All IsServable (numbered_from session.next_seqnum urbs)
      → written (send_all tcp urbs session).0.stream ≡ written session.stream ++ incoming server
      → written (repeat_io (length urbs) (serve_urb_echo tcp) server).0
        ≡ written server ++ incoming session.stream
      → let requests = numbered_from session.next_seqnum urbs in
        let served = repeat_io (length urbs) (serve_urb_echo tcp) server in
        let got = repeat_io (length urbs) (recv_header tcp) (send_all tcp urbs session).0 in
        ((send_all tcp urbs session).1 ≡ ok tt)
        × (served.1 ≡ ok (map head_of requests))
        × (got.1 ≡ ok (map answer_of requests))
        × (incoming served.0 ≡ [])
        × (incoming got.0.stream ≡ [])
  echo_pipeline session urbs server opened up server_up servable there again =
      let requests = numbered_from session.next_seqnum urbs in
      let out = send_all-Sends tcp urbs session opened up servable in
      let session2 = (send_all tcp urbs session).0 in
      let arrived : incoming server ≡ joined urb_message requests ++ [] =
        written_alike (written session.stream) _ _ _ there out.wrote ∙ sym (append-nil _) in
      let count = length-numbered_from urbs session.next_seqnum in
      let served =
        repeat_io-Leaves tcp (serve_urb_echo tcp) urb_message answer_message head_of IsServable
          (serve_urb_echo-answer_of tcp) (length urbs) requests [] server count servable server_up
          arrived in
      let answered : incoming session2.stream ≡ joined answer_message requests ++ [] =
        out.left ∙ written_alike (written server) _ _ _ again served.wrote ∙ sym (append-nil _) in
      let got =
        repeat_io-Leaves tcp (recv_header_inner tcp) answer_message (λ (_ : Urb). []) answer_of
          IsServable recv_answer (length urbs) requests [] session2.stream count servable out.up
          answered in
      rw (repeat_recv-on_stream tcp (length urbs) session2 out.opened)
        (out.result, served.result, got.result, served.left, got.left)
