-- ===== src/Session/Sending.antt =====
-- What a send writes and how it numbers its message.
use easy_usb.Base.{
  Bool, Result, err, ◌⊎◌, inl, inr, ap, ◌∙◌, ℕ, ◌≡◌, ◌+◌, ◌%◌, refl, false, arith, List, ◌++◌,
  Option, ok, if◌then◌else◌,
}
use easy_usb.Bytes.{ByteIo}
use easy_usb.Wire.Header.{UsbipHeader}
use easy_usb.Codec.{ProtocolError}
use easy_usb.Codec.Header.{encode_header}
use easy_usb.Codec.Message.{IsEncodable, message}
use easy_usb.Codec.Encode.{encode_header-message, encode_header-ok_iff}
use easy_usb.Net.{Tcp}
use easy_usb.Session.{TcpSession, send_header, numbered}

module _ ⦃io : ByteIo⦄ (tcp : Tcp) where
  open tcp use {Stream, write_all, write_all-ok, write_all-IsUp, written, IsUp}

  -- On an open session whose connection is up, a header that can be encoded is sent under the session's
  -- next sequence number: just its message is written behind what was written before, and the number
  -- goes up by one, from 2^32 - 1 to 0.
  pub send_header-message :
      (session : TcpSession tcp) (h : UsbipHeader) (p : Option (List ℕ))
      → session.closed ≡ false
      → IsUp session.stream
      → IsEncodable (numbered h session.next_seqnum) p
      → let out = send_header tcp h p session in
        (out.1 ≡ ok tt)
        × (written out.0.stream
            ≡ written session.stream ++ message (numbered h session.next_seqnum) p)
        × (out.0.next_seqnum ≡ (session.next_seqnum + 1) % 4294967296)
        × IsUp out.0.stream
  unfolding send_header
  send_header-message session h p opened up e =
      let bytes = message (numbered h session.next_seqnum) p in
      let (sent, still) = write_all-IsUp bytes session.stream up in
      rw (opened, encode_header-message (numbered h session.next_seqnum) p e, sent)
        (refl, write_all-ok bytes session.stream sent, refl, still)

  -- A send counts the session's number up whether it succeeds or not, unless the session is closed, and
  -- it never closes the session.
  pub send_header-next_seqnum :
      (session : TcpSession tcp) (h : UsbipHeader) (p : Option (List ℕ))
      → let out = send_header tcp h p session in
        (out.0.closed ≡ session.closed)
        × (out.0.next_seqnum ≡ (
            if session.closed then session.next_seqnum else (session.next_seqnum + 1) % 4294967296))
  unfolding send_header
  send_header-next_seqnum session h p = ground arith

  -- What a send did that went out, and what one did that was refused.
  pub record Sent (session : TcpSession tcp) (bytes : List ℕ)
      (out : TcpSession tcp × Result ProtocolError (Unit {0})) : Type 0 where
    pub result : out.1 ≡ ok tt
    pub wrote : written out.0.stream ≡ written session.stream ++ bytes

  pub record Refused (session : TcpSession tcp)
      (out : TcpSession tcp × Result ProtocolError (Unit {0})) : Type 0 where
    pub error : ProtocolError
    pub result : out.1 ≡ err error
    pub stream : out.0.stream ≡ session.stream

  refusal :
      (r : Result ProtocolError (List ℕ))
      → ((buf : List ℕ) × (r ≡ ok buf)) ⊎ ((e : ProtocolError) × (r ≡ err e))
  refusal (ok buf) = inl (buf, refl)
  refusal (err e) = inr (e, refl)

  send_header-Refused :
      (session : TcpSession tcp) (h : UsbipHeader) (p : Option (List ℕ)) (e : ProtocolError)
      → session.closed ≡ false
      → encode_header (numbered h session.next_seqnum) p ≡ err e
      → Refused session (send_header tcp h p session)
  unfolding send_header
  send_header-Refused session h p e opened refused =
      rw (opened, refused) (record { error = e; result = refl; stream = refl })

  -- On an open session whose connection is up, a send writes just its message and succeeds if the
  -- header, under the session's next sequence number, can be encoded with the payload; if not, it
  -- fails and leaves the stream as it was. Either way the number goes up by one, from
  -- 2^32 - 1 to 0, and the session stays open.
  pub send_header-IsEncodable :
      (session : TcpSession tcp) (h : UsbipHeader) (p : Option (List ℕ))
      → session.closed ≡ false
      → IsUp session.stream
      → let request = numbered h session.next_seqnum in
        let out = send_header tcp h p session in
        ((IsEncodable request p × Sent session (message request p) out)
          ⊎ ((¬ IsEncodable request p) × Refused session out))
        × (out.0.next_seqnum ≡ (session.next_seqnum + 1) % 4294967296)
        × (out.0.closed ≡ false)
  send_header-IsEncodable session h p opened up =
      let request = numbered h session.next_seqnum in
      let (closed, number) = send_header-next_seqnum session h p in
      let numbers =
        (number
          ∙ ap
              (λ (b : Bool).
                if b then session.next_seqnum else (session.next_seqnum + 1) % 4294967296)
              opened) in
      elim (refusal (encode_header request p)) [
        | inl made ↦
            let e = (encode_header-ok_iff request p).0 made in
            let (sent, out, _, _) = send_header-message session h p opened up e in
            (inl (e, record { result = sent; wrote = out }), numbers, closed ∙ opened)
        | inr (x, refused) ↦ (
          inr (
            λ e. absurd (cc (refused, encode_header-message request p e)),
            send_header-Refused session h p x opened refused,
          ),
          numbers,
          closed ∙ opened,
        )
      ]
