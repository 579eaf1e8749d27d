-- ===== src/Server/Failing.antt =====
-- What `serve_urb_echo` has written when it fails.
use easy_usb.Base.{
  ℕ, ◌≡◌, refl, ap, List, Option, none, Result, ok, err, map_err, ok_or, lit, ◌∷◌, [],
  if◌then◌else◌, not, ltb, ◌==◌,
}
use easy_usb.Bytes.{ByteIo}
use easy_usb.Wire.Constants.{cmd_submit, cmd_unlink}
use easy_usb.Wire.Header.{UsbipHeader, header_cmd_submit}
use easy_usb.Codec.{
  ProtocolError, io_error, isochronous_not_supported, buffer_too_large, encoding_error,
  invalid_command, max_payload_size,
}
use easy_usb.Codec.Header.{encode_header, decode_header}
use easy_usb.Net.{Tcp, proceed, ◌>>=◌, ◌>>◌, done, fail, lift, map_io_err, fail_if_io}
use easy_usb.Net.Leaves.{payload_block}
use easy_usb.Net.Silent.{
  IsSilent, IsSilent-then, IsSilent-guard, IsSilent-if, read_up, payload_block_quiet,
  payload_block_up,
}
use easy_usb.Server.{
  submit_reply, unlink_reply, answer_submit, answer_unlink, answer, echo_payload_len,
  read_echo_payload, serve_urb_echo,
}
use easy_usb.Server.Answered.{respond}
use easy_usb.Server.Steps.{behind_reads, behind_header}

module _ ⦃io : ByteIo⦄ (tcp : Tcp) where
  open tcp use {Stream, read_exact, read_exact-written, write_all, write_all-IsUp, written, IsUp}

  -- A reply on a connection that is up: encoding it may fail, writing it does not.
  respond-IsSilent :
      (r : Result ProtocolError (List ℕ)) (s : Stream)
      → IsUp s
      → IsSilent tcp s ((lift r >>= λ encoded. map_io_err io_error (write_all encoded)) s)
  respond-IsSilent (ok bytes) s up e x =
      absurd (cc (x, ap (map_err io_error) (write_all-IsUp bytes s up).0))
  respond-IsSilent (err y) s up e x = refl

  answer_submit-IsSilent :
      (h : UsbipHeader) (q : Option (List ℕ)) (s : Stream)
      → IsUp s
      → IsSilent tcp s (answer_submit tcp h q s)
  unfolding answer_submit
  answer_submit-IsSilent h q s up =
      let found =
        ok_or (header_cmd_submit h)
          (encoding_error (lit "CMD_SUBMIT header missing cmd_submit data" ∷ [])) in
      IsSilent-then tcp s (lift found s)
        (λ cmd.
          fail_if_io (not (cmd.number_of_packets == 0)) isochronous_not_supported
          >> respond tcp (submit_reply h cmd q) q)
        refl
        (λ cmd _.
          IsSilent-guard tcp (not (cmd.number_of_packets == 0)) isochronous_not_supported
            (respond tcp (submit_reply h cmd q) q) s
            (respond-IsSilent (encode_header (submit_reply h cmd q) q) s up))

  answer-IsSilent :
      (h : UsbipHeader) (q : Option (List ℕ)) (s : Stream)
      → IsUp s
      → IsSilent tcp s (answer tcp h q s)
  unfolding answer answer_unlink
  answer-IsSilent h q s up =
      IsSilent-if tcp (h.base.command == cmd_submit) (answer_submit tcp h q)
        (if h.base.command == cmd_unlink
          then answer_unlink tcp h
          else fail (invalid_command h.base.command))
        s (answer_submit-IsSilent h q s up)
        (IsSilent-if tcp (h.base.command == cmd_unlink) (answer_unlink tcp h)
          (fail (invalid_command h.base.command)) s
          (respond-IsSilent (encode_header (unlink_reply h) none) s up) (λ e x. refl))

  done-IsSilent :
      (h : UsbipHeader) (s : Stream) (out : Stream × Result ProtocolError (Unit {0}))
      → IsSilent tcp s out
      → IsSilent tcp s (proceed out (λ _. done h))
  done-IsSilent h s (t, ok x) silent e y = absurd (cc y)
  done-IsSilent h s (t, err x) silent e y = silent x refl

  behind_reads-IsSilent :
      (full : List ℕ) (s : Stream) → IsUp s → IsSilent tcp s (behind_reads tcp full s)
  behind_reads-IsSilent full s up =
      IsSilent-then tcp s (lift (decode_header full) s)
        (λ (header, payload). answer tcp header payload >> done header) refl
        (λ u _. done-IsSilent u.0 s (answer tcp u.0 u.1 s) (answer-IsSilent u.0 u.1 s up))

  behind_header-IsSilent :
      (buf : List ℕ) (s : Stream) → IsUp s → IsSilent tcp s (behind_header tcp buf s)
  behind_header-IsSilent buf s up =
      let n = echo_payload_len buf in
      let block = payload_block tcp io_error n buf in
      IsSilent-guard tcp (ltb max_payload_size n) (buffer_too_large n max_payload_size)
        (block >>= behind_reads tcp) s
        (IsSilent-then tcp s (block s) (behind_reads tcp) (payload_block_quiet tcp io_error n buf s)
          (λ full e.
            behind_reads-IsSilent full (block s).0
              (payload_block_up tcp io_error n buf full s up e)))

  -- On a connection that is up, when `serve_urb_echo` fails, whatever the peer has sent, it has written
  -- nothing: no part of a reply is left on the stream.
  pub serve_urb_echo-err :
      (s : Stream) (e : ProtocolError)
      → IsUp s
      → (serve_urb_echo tcp s).1 ≡ err e
      → written (serve_urb_echo tcp s).0 ≡ written s
  unfolding serve_urb_echo read_echo_payload
  serve_urb_echo-err s e up =
      IsSilent-then tcp s (map_io_err io_error (read_exact 48) s) (behind_header tcp)
        (read_exact-written 48 s)
        (λ buf r.
          behind_header-IsSilent buf (read_exact 48 s).0 (read_up tcp io_error 48 s buf up r))
        e
