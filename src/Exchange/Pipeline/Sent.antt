-- ===== src/Exchange/Pipeline/Sent.antt =====
-- What a session has written when it has sent URB after URB.
use easy_usb.Base.{
  ℕ, ◌≡◌, ◌+◌, ◌%◌, refl, sym, ap, ◌∙◌, false, List, [], ◌∷◌, ◌++◌, Result, ok, All, append-nil,
  append_assoc, Option,
}
use easy_usb.Bytes.{ByteIo}
use easy_usb.Wire.Header.{UsbipHeader}
use easy_usb.Codec.{ProtocolError}
use easy_usb.Codec.Message.{IsEncodable, message}
use easy_usb.Codec.Encode.{encode_header-message}
use easy_usb.Net.{Tcp}
use easy_usb.Net.Loops.{joined}
use easy_usb.Net.Reads.{proceed-ok}
use easy_usb.Session.{TcpSession, send_header, numbered}
use easy_usb.Session.Sending.{send_header-message}
use easy_usb.Server.Contract.{Urb, urb_message, IsServable}
use easy_usb.Exchange.Pipeline.{numbered_from, send_all}

module _ ⦃io : ByteIo⦄ (tcp : Tcp) where
  open tcp use {Stream, write_all-incoming, incoming, written, IsUp}

  -- A send reads nothing, and leaves the session open.
  pub send_header-incoming :
      (session : TcpSession tcp) (h : UsbipHeader) (p : Option (List ℕ))
      → session.closed ≡ false
      → IsEncodable (numbered h session.next_seqnum) p
      → let out = (send_header tcp h p session).0 in
        (incoming out.stream ≡ incoming session.stream) × (out.closed ≡ false)
  unfolding send_header
  send_header-incoming session h p opened e =
      rw (opened, encode_header-message (numbered h session.next_seqnum) p e)
        (write_all-incoming (message (numbered h session.next_seqnum) p) session.stream, refl)

  -- The outcome of sending the URBs on a session that is up.
  pub record Sends (session : TcpSession tcp) (urbs : List Urb)
      (out : TcpSession tcp × Result ProtocolError (Unit {0})) : Type 0 where
    pub result : out.1 ≡ ok tt
    pub wrote :
        written out.0.stream
        ≡ written session.stream ++ joined urb_message (numbered_from session.next_seqnum urbs)
    pub left : incoming out.0.stream ≡ incoming session.stream
    pub up : IsUp out.0.stream
    pub opened : out.0.closed ≡ false

  pub send_all-Sends :
      (urbs : List Urb) (session : TcpSession tcp)
      → session.closed ≡ false
      → IsUp session.stream
      → All IsServable (numbered_from session.next_seqnum urbs)
      → Sends session urbs (send_all tcp urbs session)
  send_all-Sends [] session opened up servable = record {
    result = refl;
    wrote = sym (append-nil (written session.stream));
    left = refl;
    up = up;
    opened = opened;
  }
  send_all-Sends ((h, p) ∷ urbs) session opened up (i, servable) =
      let (sent, out, next, still) = send_header-message tcp session h p opened up i.encodable in
      let (kept, open_) = send_header-incoming session h p opened i.encodable in
      let session2 = (send_header tcp h p session).0 in
      let later = send_all-Sends urbs session2 open_ still (rw next servable) in
      let first = message (numbered h session.next_seqnum) p in
      let others =
        joined urb_message (numbered_from ((session.next_seqnum + 1) % 4294967296) urbs) in
      let behind : joined urb_message (numbered_from session2.next_seqnum urbs) ≡ others =
        ap (λ (n : ℕ). joined urb_message (numbered_from n urbs)) next in
      rw (proceed-ok (send_header tcp h p session) (λ _. send_all tcp urbs) tt sent) (record {
        result = later.result;
        wrote =
            later.wrote
            ∙ ap (λ (w : List ℕ). written session2.stream ++ w) behind
            ∙ ap (λ (w : List ℕ). w ++ others) out
            ∙ append_assoc (written session.stream) first others;
        left = later.left ∙ kept;
        up = later.up;
        opened = later.opened;
      })
