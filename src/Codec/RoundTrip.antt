-- ===== src/Codec/RoundTrip.antt =====
-- `decode_header` reads back what `encode_header` wrote.
use easy_usb.Base.{
  append-nil, ℕ, ◌+◌, ◌<◌, ◌≡◌, ap, ◌∙◌, false, List, [], ◌++◌, append_assoc, Option, none, some,
  ok, err, length, arith, take, take-append, drop-append, length-append,
}
use easy_usb.Bytes.{ByteIo}
use easy_usb.Wire.Union.{
  as_cmd_submit, as_ret_submit, as_cmd_unlink, as_ret_unlink, of_cmd_submit-as_cmd_submit,
  of_ret_submit-as_ret_submit, of_cmd_unlink-as_cmd_unlink, of_ret_unlink-as_ret_unlink,
}
use easy_usb.Wire.Header.{UsbipHeader}
use easy_usb.Codec.{incomplete_buffer}
use easy_usb.Codec.Fields.{is_bad_direction}
use easy_usb.Codec.Header.{encode_header, decode_header}
use easy_usb.Codec.Layout.{basic_bytes}
use easy_usb.Codec.Fidelity.{
  length-basic_bytes, basic_of-basic_bytes, cmd_submit_of-cmd_submit_bytes,
  ret_submit_of-ret_submit_bytes, cmd_unlink_of-cmd_unlink_bytes, ret_unlink_of-ret_unlink_bytes,
}
use easy_usb.Codec.Message.{
  HeaderIsValid, announced, body_bytes, IsUrbCommand, PayloadMatches, IsEncodable, carried, message,
  bytes_or_nil, length-body_bytes, as_cmd_submit-IsValid, as_ret_submit-IsValid,
  as_cmd_unlink-IsValid, as_ret_unlink-IsValid,
}
use easy_usb.Codec.Encode.{header_bytes, encode_header-message}
use easy_usb.Codec.Decode.{
  union_of, header_with, body_of, payload_at, command_outcome, decode_header_lem,
}

module _ (h : UsbipHeader) (v : HeaderIsValid h) where
  -- The body of a valid header spells its union.
  union_of-body_bytes : IsUrbCommand h.base.command → union_of h.base.command (body_bytes h) ≡ h.u
  unfolding union_of body_bytes
  union_of-body_bytes c = ground (
    arith,
    cmd_submit_of-cmd_submit_bytes (as_cmd_submit h.u) (as_cmd_submit-IsValid v.u),
    ret_submit_of-ret_submit_bytes (as_ret_submit h.u) (as_ret_submit-IsValid v.u),
    cmd_unlink_of-cmd_unlink_bytes (as_cmd_unlink h.u) (as_cmd_unlink-IsValid v.u),
    ret_unlink_of-ret_unlink_bytes (as_ret_unlink h.u) (as_ret_unlink-IsValid v.u),
    of_cmd_submit-as_cmd_submit h.u,
    of_ret_submit-as_ret_submit h.u,
    of_cmd_unlink-as_cmd_unlink h.u,
    of_ret_unlink-as_ret_unlink h.u,
  )

  header_with-body_bytes : IsUrbCommand h.base.command → header_with h.base (body_bytes h) ≡ h
  header_with-body_bytes c = ap (λ u. record { base = h.base; u = u }) (union_of-body_bytes c)

  module _ (c : IsUrbCommand h.base.command) (more : List ℕ) where
    take-message : take 20 (header_bytes h ++ more) ≡ basic_bytes h.base
    take-message =
        rw append_assoc (take-append 20 (basic_bytes h.base) _ (length-basic_bytes h.base))

    body_of-message : body_of (header_bytes h ++ more) ≡ body_bytes h
    body_of-message =
        rw (append_assoc, drop-append 20 (basic_bytes h.base) _ (length-basic_bytes h.base))
          (take-append 28 (body_bytes h) more (length-body_bytes h v c))

    pub length-header_bytes : length (header_bytes h) ≡ 48
    length-header_bytes = omega (
      arith,
      length-append (basic_bytes h.base) (body_bytes h),
      length-basic_bytes h.base,
      length-body_bytes h v c,
    )

    -- Behind a good header the decoder turns to the payload.
    pub decode_message :
        ⦃io : ByteIo⦄
        → is_bad_direction h.base.direction ≡ false
        → decode_header (header_bytes h ++ more) ≡ payload_at h (header_bytes h ++ more)
    unfolding command_outcome
    decode_message d =
        decode_header_lem (header_bytes h ++ more)
        ∙ rw
            (
              take-message,
              basic_of-basic_bytes h.base v.base,
              body_of-message,
              header_with-body_bytes c,
            )
            (ground (arith, length-append (header_bytes h) more, length-header_bytes))

payload_at-message :
    (h : UsbipHeader) (p : Option (List ℕ)) (rest : List ℕ)
    → length (header_bytes h) ≡ 48
    → PayloadMatches h p
    → payload_at h (header_bytes h ++ (bytes_or_nil (carried h p) ++ rest)) ≡ ok (h, carried h p)
payload_at-message h none rest n m = ground arith
payload_at-message h (some bytes) rest n m = ground (
  arith,
  drop-append 48 (header_bytes h) (bytes ++ rest) n,
  take-append (announced h) bytes rest,
  length-append (header_bytes h) (bytes ++ rest),
  length-append bytes rest,
)

payload_at-cut :
    (h : UsbipHeader) (bytes : List ℕ)
    → length (header_bytes h) ≡ 48
    → length bytes < announced h
    → payload_at h (header_bytes h ++ bytes)
      ≡ err (incomplete_buffer (48 + announced h) (48 + length bytes))
payload_at-cut h bytes n m = ground (arith, length-append (header_bytes h) bytes)

module _ ⦃io : ByteIo⦄ where
  -- A message is decoded to its header and payload, whatever follows it.
  pub decode_message_lem :
      (h : UsbipHeader) (p : Option (List ℕ)) (rest : List ℕ)
      → HeaderIsValid h
      → IsEncodable h p
      → PayloadMatches h p
      → decode_header (message h p ++ rest) ≡ ok (h, carried h p)
  decode_message_lem h p rest v e m =
      let good : is_bad_direction h.base.direction ≡ false = ground (arith, e.direction) in
      let tail = bytes_or_nil (carried h p) ++ rest in
      rw (append_assoc (header_bytes h) (bytes_or_nil (carried h p)) rest) (
        decode_message h v e.command tail good
        ∙ payload_at-message h p rest (length-header_bytes h v e.command []) m)

  pub decode_joined :
      (h : UsbipHeader) (p : Option (List ℕ))
      → HeaderIsValid h
      → IsEncodable h p
      → PayloadMatches h p
      → decode_header (header_bytes h ++ bytes_or_nil (carried h p)) ≡ ok (h, carried h p)
  decode_joined h p v e m =
      let body = bytes_or_nil (carried h p) in
      rw (← append-nil body, ← append_assoc (header_bytes h) body [])
        (decode_message_lem h p [] v e m)

  -- A valid header that can be encoded, with a payload of just the announced length, is encoded, and
  -- the decoder reads the header and the payload back from the message, whatever follows it.
  pub decode_header-encode_header :
      (h : UsbipHeader) (p : Option (List ℕ)) (rest : List ℕ)
      → HeaderIsValid h
      → IsEncodable h p
      → PayloadMatches h p
      → (buf : List ℕ) × (encode_header h p ≡ ok buf)
        × (decode_header (buf ++ rest) ≡ ok (h, carried h p))
  decode_header-encode_header h p rest v e m =
      (message h p, encode_header-message h p e, decode_message_lem h p rest v e m)

  -- The encoder does not compare the payload with the announced length: a valid header that can be
  -- encoded goes out with a payload shorter than announced, and the decoder refuses the message as
  -- incomplete.
  pub decode_header-short_payload :
      (h : UsbipHeader) (bytes : List ℕ)
      → HeaderIsValid h
      → IsEncodable h (some bytes)
      → length bytes < announced h
      → (buf : List ℕ) × (encode_header h (some bytes) ≡ ok buf)
        × (decode_header buf ≡ err (incomplete_buffer (48 + announced h) (48 + length bytes)))
  decode_header-short_payload h bytes v e m =
      let good : is_bad_direction h.base.direction ≡ false = ground (arith, e.direction) in
      (
        header_bytes h ++ bytes,
        encode_header-message h (some bytes) e ∙ ground arith,
        decode_message h v e.command bytes good
            ∙ payload_at-cut h bytes (length-header_bytes h v e.command []) m,
      )
