-- ===== src/Session/Receive.antt =====
-- `recv_header_inner` takes just one message off the stream.
use easy_usb.Base.{ℕ, ◌≡◌, ◌∙◌, List, [], ◌++◌, Option, append_assoc, append-nil, le→ltb_false}
use easy_usb.Bytes.{ByteIo}
use easy_usb.Wire.Header.{UsbipHeader}
use easy_usb.Codec.{io_error, max_payload_size}
use easy_usb.Codec.Message.{
  HeaderIsValid, IsEncodable, PayloadMatches, announced, carried, message, bytes_or_nil,
  length-carried,
}
use easy_usb.Codec.Encode.{header_bytes}
use easy_usb.Codec.RoundTrip.{length-header_bytes, decode_joined}
use easy_usb.Net.{Tcp}
use easy_usb.Net.Leaves.{Leaves, Leaves-then, reads, payload_block-Leaves}
use easy_usb.Session.{word_at, payload_len, read_payload, recv_header_inner}
use easy_usb.Session.Framing.{word3_at, payload_len-header_bytes}

module _ ⦃io : ByteIo⦄ (tcp : Tcp) where
  open tcp use {Stream, read_exact, incoming, written, IsUp}

  -- A valid header that can be encoded, and whose fourth word behind the basic fields is 0, is received
  -- with just the payload that it announces from a connection that is up: just its message is taken off
  -- the stream, and nothing is written. The fourth word is where the session looks for the number of
  -- packets, whatever the command is: of an UNLINK it is padding, which has to be 0 too.
  pub recv_header_inner-message :
      (h : UsbipHeader) (p : Option (List ℕ)) (rest : List ℕ) (s : Stream)
      → HeaderIsValid h
      → IsEncodable h p
      → PayloadMatches h p
      → h.u.word3 ≡ 0
      → IsUp s
      → incoming s ≡ message h p ++ rest
      → Leaves tcp (recv_header_inner tcp s) (h, carried h p) rest (written s)
  unfolding recv_header_inner read_payload
  recv_header_inner-message h p rest s v e m bulk up arrives =
      let body = bytes_or_nil (carried h p) in
      let (size, small) = length-carried h p m in
      let word3 : word_at 32 (header_bytes h) ≡ 0 =
        rw (← append-nil (header_bytes h)) (word3_at h v e.command [] ∙ bulk) in
      let len : payload_len (header_bytes h) ≡ announced h =
        rw (← append-nil (header_bytes h)) (payload_len-header_bytes h v e.command []) in
      let first =
        reads tcp io_error 48 (header_bytes h) (body ++ rest) s up
          (arrives ∙ append_assoc (header_bytes h) body rest)
          (length-header_bytes h v e.command []) in
      let s2 = (read_exact 48 s).0 in
      let second =
        payload_block-Leaves tcp io_error (announced h) (header_bytes h) body rest s2 first.up
          first.left size in
      Leaves-then tcp _ _ (header_bytes h) (h, carried h p) (body ++ rest) rest (written s)
        (written s) first
        (rw (word3, len, le→ltb_false max_payload_size (announced h) small)
          (Leaves-then tcp _ _ (header_bytes h ++ body) (h, carried h p) rest rest (written s2)
            (written s) second
            (record {
              result = decode_joined h p v e m;
              left = second.left;
              wrote = second.wrote ∙ first.wrote;
              up = second.up;
            })))
