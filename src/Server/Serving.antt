-- ===== src/Server/Serving.antt =====
-- `serve_urb_echo` on a connection that is up: what it takes off the stream, and what it writes.
use mathlib.Core.Path.{subst}
use easy_usb.Base.{
  ℕ, ◌≡◌, ◌≢◌, refl, ap, ◌∙◌, List, [], ◌++◌, Option, none, some, arith, append_assoc, append-nil,
  inl, le→ltb_false,
}
use easy_usb.Bytes.{ByteIo}
use easy_usb.Wire.Constants.{cmd_submit, ret_submit, cmd_unlink}
use easy_usb.Wire.Union.{as_cmd_submit}
use easy_usb.Wire.Header.{UsbipHeader, header_cmd_submit}
use easy_usb.Codec.{io_error, max_payload_size}
use easy_usb.Codec.Message.{
  HeaderIsValid, IsEncodable, PayloadMatches, length-carried, announced, carried, message,
  bytes_or_nil, packets, HasDirection, IsUrbCommand,
}
use easy_usb.Codec.Encode.{header_bytes, encode_header-message}
use easy_usb.Codec.RoundTrip.{length-header_bytes, decode_joined}
use easy_usb.Net.{Tcp}
use easy_usb.Net.Leaves.{Leaves, Leaves-then, reads, writes, payload_block, payload_block-Leaves}
use easy_usb.Session.{word_at, payload_len}
use easy_usb.Session.Framing.{header_command_at, payload_len-header_bytes}
use easy_usb.Server.Replies.{
  echo_of, unlink_echo_of, unlink_reply-unlink_echo_of, reply, submit_reply-echo_of,
  reply-IsEncodable, unlink_reply-IsEncodable, unlink-IsEncodable, announced-cmd_unlink,
}
use easy_usb.Server.{
  echo_payload_len, submit_reply, unlink_reply, read_echo_payload, answer_submit, answer_unlink,
  answer, serve_urb_echo,
}

-- The server reads the same payload length as a client would, but for a RET_SUBMIT.
echo_payload_len_lem :
    (buf : List ℕ) → word_at 0 buf ≢ ret_submit → echo_payload_len buf ≡ payload_len buf
unfolding echo_payload_len payload_len
echo_payload_len_lem buf n = ground (arith, n)

-- From the header's own bytes it reads the length that the header announces.
pub echo_payload_len-header_bytes :
    (h : UsbipHeader)
    → HeaderIsValid h
    → IsUrbCommand h.base.command
    → h.base.command ≢ ret_submit
    → echo_payload_len (header_bytes h) ≡ announced h
echo_payload_len-header_bytes h v u c =
    let command : word_at 0 (header_bytes h) ≢ ret_submit =
      rw (← append-nil (header_bytes h), header_command_at h v u []) c in
    echo_payload_len_lem (header_bytes h) command
    ∙ rw (← append-nil (header_bytes h)) (payload_len-header_bytes h v u [])

module _ ⦃io : ByteIo⦄ (tcp : Tcp) where
  open tcp use {Stream, read_exact, incoming, written, IsUp}

  pub answer-cmd_submit :
      (h : UsbipHeader) (q : Option (List ℕ)) (s : Stream)
      → h.base.command ≡ cmd_submit
      → answer tcp h q s ≡ answer_submit tcp h q s
  unfolding answer
  answer-cmd_submit h q s c = simp c

  pub header_cmd_submit-some :
      (h : UsbipHeader)
      → h.base.command ≡ cmd_submit
      → header_cmd_submit h ≡ some (as_cmd_submit h.u)
  unfolding header_cmd_submit
  header_cmd_submit-some h c = simp c

  packets-cmd_submit :
      (h : UsbipHeader)
      → h.base.command ≡ cmd_submit
      → packets h ≡ 0
      → (as_cmd_submit h.u).number_of_packets ≡ 0
  unfolding packets
  packets-cmd_submit h c bulk = ground (arith, c, bulk)

  answer_submit-Leaves :
      (h : UsbipHeader) (p : Option (List ℕ)) (rest : List ℕ) (s : Stream)
      → h.base.command ≡ cmd_submit
      → IsEncodable h p
      → (m : PayloadMatches h p) → IsUp s
      → incoming s ≡ rest
      → Leaves tcp
          (answer_submit tcp h (carried h p) s)
          tt
          rest
          (written s ++ message (reply h p m) (carried h p))
  unfolding answer_submit
  answer_submit-Leaves h p rest s c e m up arrives =
      rw
        (
          header_cmd_submit-some h c,
          packets-cmd_submit h c e.bulk,
          encode_header-message (reply h p m) (carried h p) (reply-IsEncodable h p m),
        )
        (writes tcp io_error (message (reply h p m) (carried h p)) rest s up arrives)

  answer_unlink-Leaves :
      (h : UsbipHeader) (rest : List ℕ) (s : Stream)
      → h.base.command ≡ cmd_unlink
      → HasDirection h.base.direction
      → IsUp s
      → incoming s ≡ rest
      → (q : Option (List ℕ))
      → Leaves tcp (answer tcp h q s) tt rest (written s ++ message (unlink_reply h) none)
  unfolding answer answer_unlink
  answer_unlink-Leaves h rest s c d up arrives q =
      rw (c, encode_header-message (unlink_reply h) none (unlink_reply-IsEncodable h d))
        (writes tcp io_error (message (unlink_reply h) none) rest s up arrives)

  -- The front of `serve_urb_echo`, up to the answer.
  serve_urb_echo-Leaves :
      (h : UsbipHeader) (p : Option (List ℕ)) (rest bytes : List ℕ) (s : Stream)
      → HeaderIsValid h
      → IsEncodable h p
      → PayloadMatches h p
      → h.base.command ≢ ret_submit
      → IsUp s
      → incoming s ≡ message h p ++ rest
      → ((t : Stream)
          → IsUp t
          → incoming t ≡ rest
          → Leaves tcp (answer tcp h (carried h p) t) tt rest (written t ++ bytes))
      → Leaves tcp (serve_urb_echo tcp s) h rest (written s ++ bytes)
  unfolding serve_urb_echo read_echo_payload
  serve_urb_echo-Leaves h p rest bytes s v e m c up arrives respond =
      let body = bytes_or_nil (carried h p) in
      let (size, small) = length-carried h p m in
      let len = echo_payload_len-header_bytes h v e.command c in
      let first =
        reads tcp io_error 48 (header_bytes h) (body ++ rest) s up
          (arrives ∙ append_assoc (header_bytes h) body rest)
          (length-header_bytes h v e.command []) in
      let s2 = (read_exact 48 s).0 in
      let second =
        payload_block-Leaves tcp io_error (announced h) (header_bytes h) body rest s2 first.up
          first.left size in
      let s3 = (payload_block tcp io_error (announced h) (header_bytes h) s2).0 in
      let third = respond s3 second.up second.left in
      let total : written s3 ++ bytes ≡ written s ++ bytes =
        ap (λ (w : List ℕ). w ++ bytes) (second.wrote ∙ first.wrote) in
      Leaves-then tcp _ _ (header_bytes h) h (body ++ rest) rest (written s) (written s ++ bytes)
        first
        (rw (len, le→ltb_false max_payload_size (announced h) small)
          (Leaves-then tcp _ _ (header_bytes h ++ body) h rest rest (written s2)
            (written s ++ bytes) second
            (rw (decode_joined h p v e m) (
              Leaves-then tcp _ _ tt h rest rest (written s3 ++ bytes) (written s ++ bytes) third
                (record {
                  result = refl;
                  left = third.left;
                  wrote = third.wrote ∙ total;
                  up = third.up;
                })))))

  serve_submit :
      (h : UsbipHeader) (p : Option (List ℕ)) (rest : List ℕ) (s : Stream)
      → HeaderIsValid h
      → IsEncodable h p
      → (m : PayloadMatches h p) → h.base.command ≡ cmd_submit
      → IsUp s
      → incoming s ≡ message h p ++ rest
      → Leaves tcp
          (serve_urb_echo tcp s)
          h
          rest
          (written s ++ message (submit_reply h (as_cmd_submit h.u) (carried h p)) (carried h p))
  serve_submit h p rest s v e m c up arrives =
      serve_urb_echo-Leaves h p rest _ s v e m (omega (arith, c)) up arrives (λ t u i.
        rw (answer-cmd_submit h (carried h p) t c) (answer_submit-Leaves h p rest t c e m u i))

  -- A valid CMD_SUBMIT that can be encoded, with its payload, is taken off a connection that is up, and
  -- just one RET_SUBMIT is written: a success under the request's sequence number, device and
  -- endpoint, of the announced length, with the request's setup bytes and the payload that it carried.
  pub serve_urb_echo-cmd_submit :
      (h : UsbipHeader) (p : Option (List ℕ)) (rest : List ℕ) (s : Stream)
      → HeaderIsValid h
      → IsEncodable h p
      → (m : PayloadMatches h p) → h.base.command ≡ cmd_submit
      → IsUp s
      → incoming s ≡ message h p ++ rest
      → Leaves tcp (serve_urb_echo tcp s) h rest (written s ++ message (echo_of h) (carried h p))
  serve_urb_echo-cmd_submit h p rest s v e m c up arrives =
      subst
        (λ (r : UsbipHeader).
          Leaves tcp (serve_urb_echo tcp s) h rest (written s ++ message r (carried h p)))
        (submit_reply-echo_of h p m) (serve_submit h p rest s v e m c up arrives)

  serve_unlink :
      (h : UsbipHeader) (rest : List ℕ) (s : Stream)
      → HeaderIsValid h
      → HasDirection h.base.direction
      → h.base.command ≡ cmd_unlink
      → IsUp s
      → incoming s ≡ message h none ++ rest
      → Leaves tcp (serve_urb_echo tcp s) h rest (written s ++ message (unlink_reply h) none)
  serve_unlink h rest s v d c up arrives =
      serve_urb_echo-Leaves h none rest _ s v (unlink-IsEncodable h d c)
        (inl (announced-cmd_unlink h c)) (omega (arith, c)) up arrives
        (λ t u i. answer_unlink-Leaves h rest t c d u i (carried h none))

  -- A valid CMD_UNLINK whose direction is 0 or 1 is taken off a connection that is up, and just one
  -- RET_UNLINK is written, under the request's sequence number, with a status of 0.
  pub serve_urb_echo-cmd_unlink :
      (h : UsbipHeader) (rest : List ℕ) (s : Stream)
      → HeaderIsValid h
      → HasDirection h.base.direction
      → h.base.command ≡ cmd_unlink
      → IsUp s
      → incoming s ≡ message h none ++ rest
      → Leaves tcp (serve_urb_echo tcp s) h rest (written s ++ message (unlink_echo_of h) none)
  serve_urb_echo-cmd_unlink h rest s v d c up arrives =
      subst
        (λ (r : UsbipHeader).
          Leaves tcp (serve_urb_echo tcp s) h rest (written s ++ message r none))
        (unlink_reply-unlink_echo_of h) (serve_unlink h rest s v d c up arrives)
