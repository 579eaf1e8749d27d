-- ===== src/Session/Closing.antt =====
-- What a failed receive leaves: a session that is closed, and that writes nothing more.
use easy_usb.Base.{
  ℕ, ◌≡◌, refl, ◌∙◌, true, List, [], ◌∷◌, arith, Option, Result, ok, err, not, ◌==◌, ltb,
}
use easy_usb.Bytes.{ByteIo}
use easy_usb.Wire.Header.{UsbipHeader}
use easy_usb.Codec.{
  ProtocolError, isochronous_not_supported, buffer_too_large, io_error, max_payload_size,
}
use easy_usb.Codec.Header.{decode_header}
use easy_usb.Net.{Tcp, map_io_err}
use easy_usb.Net.Leaves.{payload_block}
use easy_usb.Net.Silent.{proceed-written, fail_if_io-written, payload_block_quiet}
use easy_usb.Session.{
  TcpSession, session_closed, send_header, recv_header, recv_header_or_close, close_on_error,
  on_stream, recv_header_inner, payload_len, read_payload, word_at, num_packets_offset,
}

-- The calls that send or receive on a session. `close` and `into_stream` take the session away.
pub data SessionCall : Type 0 where
  send : UsbipHeader → Option (List ℕ) → SessionCall
  receive : SessionCall
  receive_or_close : SessionCall

module _ ⦃io : ByteIo⦄ (tcp : Tcp) where
  open tcp use {Stream, read_exact, read_exact-written, shutdown-written, written}

  -- The session after a call, and after some of them.
  unfoldable pub after_call : SessionCall → TcpSession tcp → TcpSession tcp
  after_call (send h p) session = (send_header tcp h p session).0
  after_call receive session = (recv_header tcp session).0
  after_call receive_or_close session = (recv_header_or_close tcp session).0

  unfoldable pub after_calls : List SessionCall → TcpSession tcp → TcpSession tcp
  after_calls [] session = session
  after_calls (call ∷ calls) session = after_calls calls (after_call call session)

  recv_header_inner-written : (s : Stream) → written (recv_header_inner tcp s).0 ≡ written s
  unfolding recv_header_inner read_payload
  recv_header_inner-written s =
      let first = read_exact 48 s in
      proceed-written tcp s (map_io_err io_error (read_exact 48) s) _ (read_exact-written 48 s)
        (λ buf.
          fail_if_io-written tcp (not (word_at num_packets_offset buf == 0))
            isochronous_not_supported _ first.0
            (fail_if_io-written tcp (ltb max_payload_size (payload_len buf))
              (buffer_too_large (payload_len buf) max_payload_size) _ first.0
              (proceed-written tcp first.0
                (payload_block tcp io_error (payload_len buf) buf first.0)
                (λ full t. (t, decode_header full))
                (payload_block_quiet tcp io_error (payload_len buf) buf first.0) (λ full. refl))))

  close_on_error-closed :
      {A : Type 0} (out : TcpSession tcp × Result ProtocolError A) (e : ProtocolError)
      → (close_on_error tcp out).1 ≡ err e
      → (close_on_error tcp out).0.closed ≡ true
  close_on_error-closed (s, ok a) e failed = ground (arith, failed)
  close_on_error-closed (s, err x) e failed = refl

  -- The session is closed, and w is what was written.
  abbrev IsClosedAt : List ℕ → TcpSession tcp → Type 0
  IsClosedAt w session = (session.closed ≡ true) × (written session.stream ≡ w)

  close_on_error-written :
      {A : Type 0} (out : TcpSession tcp × Result ProtocolError A)
      → written (close_on_error tcp out).0.stream ≡ written out.0.stream
  close_on_error-written (s, ok a) = refl
  close_on_error-written (s, err x) = shutdown-written s.stream

  still_closed :
      {A : Type 0} (out : TcpSession tcp × Result ProtocolError A)
      → out.0.closed ≡ true
      → (close_on_error tcp out).0.closed ≡ true
  still_closed (s, ok a) closed = closed
  still_closed (s, err x) closed = refl

  recv_header_or_close-written :
      (session : TcpSession tcp)
      → written (recv_header_or_close tcp session).0.stream ≡ written session.stream
  unfolding recv_header_or_close
  recv_header_or_close-written session =
      close_on_error-written (on_stream tcp (recv_header_inner tcp) session)
      ∙ recv_header_inner-written session.stream

  close_on_error-result :
      {A : Type 0} (out : TcpSession tcp × Result ProtocolError A)
      → (close_on_error tcp out).1 ≡ out.1
  close_on_error-result (s, ok a) = refl
  close_on_error-result (s, err x) = refl

  refused_send :
      (session : TcpSession tcp) (h : UsbipHeader) (p : Option (List ℕ))
      → session.closed ≡ true
      → send_header tcp h p session ≡ (session, err session_closed)
  unfolding send_header
  refused_send session h p closed = rw closed refl

  refused_receive :
      (session : TcpSession tcp)
      → session.closed ≡ true
      → recv_header tcp session ≡ (session, err session_closed)
  unfolding recv_header
  refused_receive session closed = rw closed refl

  after_call-IsClosedAt :
      (w : List ℕ) (call : SessionCall) (session : TcpSession tcp)
      → IsClosedAt w session
      → IsClosedAt w (after_call call session)
  unfolding after_call
  after_call-IsClosedAt w (send h p) session (closed, same) =
      rw (after_call, refused_send session h p closed) (closed, same)
  after_call-IsClosedAt w receive session (closed, same) =
      rw (after_call, refused_receive session closed) (closed, same)
  after_call-IsClosedAt w receive_or_close session (closed, same) = (
    unfold recv_header_or_close in
        still_closed (on_stream tcp (recv_header_inner tcp) session) closed,
    recv_header_or_close-written session ∙ same,
  )

  after_calls-IsClosedAt :
      (w : List ℕ) (calls : List SessionCall) (session : TcpSession tcp)
      → IsClosedAt w session
      → IsClosedAt w (after_calls calls session)
  unfolding after_calls
  after_calls-IsClosedAt w [] session v = v
  after_calls-IsClosedAt w (call ∷ calls) session v =
      after_calls-IsClosedAt w calls (after_call call session)
        (after_call-IsClosedAt w call session v)

  -- Once `recv_header_or_close` has failed, then after any further sends and receives the session is
  -- closed, and nothing was written since the call that failed, by which nothing was written either. A
  -- `send_header` and a `recv_header` are refused as closed and leave the session and its stream as they
  -- are, but `recv_header_or_close` still reads the stream: its result is what `recv_header_inner` gives.
  pub recv_header_or_close-refused :
      (session : TcpSession tcp) (e : ProtocolError) (calls : List SessionCall) (h : UsbipHeader)
      (p : Option (List ℕ))
      → (recv_header_or_close tcp session).1 ≡ err e
      → let later = after_calls calls (recv_header_or_close tcp session).0 in
        (later.closed ≡ true)
        × (written later.stream ≡ written session.stream)
        × (send_header tcp h p later ≡ (later, err session_closed))
        × (recv_header tcp later ≡ (later, err session_closed))
        × ((recv_header_or_close tcp later).1 ≡ (recv_header_inner tcp later.stream).1)
  recv_header_or_close-refused session e calls h p failed =
      let later = after_calls calls (recv_header_or_close tcp session).0 in
      let shut : (recv_header_or_close tcp session).0.closed ≡ true =
        unfold recv_header_or_close in
        close_on_error-closed (on_stream tcp (recv_header_inner tcp) session) e failed in
      let (closed, same) =
        after_calls-IsClosedAt (written session.stream) calls (recv_header_or_close tcp session).0
          (shut, recv_header_or_close-written session) in
      (
        closed,
        same,
        refused_send later h p closed,
        refused_receive later closed,
        unfold recv_header_or_close in
            close_on_error-result (on_stream tcp (recv_header_inner tcp) later),
      )
