-- ===== src/Codec/Decode.antt =====
-- `decode_header`: all its outcomes as one table, and what a decoded header is.
use easy_usb.Base.{
  ℕ, ◌+◌, ◌-◌, ◌≡◌, ap, ◌∙◌, ◌⊎◌, inl, inr, not, List, Option, none, some, Result, ok, err,
  fail_if_lem, ◌==◌, if◌then◌else◌, length, arith, ltb, take, drop, length-take, length-drop,
  take_all,
}
use easy_usb.Bytes.{ByteIo}
use easy_usb.Bytes.Words.{is_positive}
use easy_usb.Wire.{UsbipHeaderBasic, UsbipHeaderCmdSubmit, UsbipHeaderRetSubmit}
use easy_usb.Wire.Constants.{cmd_submit, ret_submit, cmd_unlink, ret_unlink}
use easy_usb.Wire.Union.{
  UsbipHeaderUnion, as_cmd_submit, as_ret_submit, of_cmd_submit, of_ret_submit, of_cmd_unlink,
  of_ret_unlink,
}
use easy_usb.Wire.Header.{UsbipHeader}
use easy_usb.Codec.{
  ProtocolError, invalid_command, buffer_too_large, incomplete_buffer, max_payload_size,
}
use easy_usb.Codec.Fields.{
  is_bad_direction, bad_direction, decode_cmd_submit, decode_ret_submit, decode_cmd_unlink,
  decode_ret_unlink,
}
use easy_usb.Codec.Header.{
  cmd_has_payload, cut_payload, decode_cmd_submit_arm, decode_ret_submit_arm, decode_cmd_unlink_arm,
  decode_ret_unlink_arm, decode_command, decode_header,
}
use easy_usb.Codec.Layout.{basic_of, cmd_submit_of, ret_submit_of, cmd_unlink_of, ret_unlink_of}
use easy_usb.Codec.Parts.{
  decode_basic_short, decode_basic_lem, decode_cmd_submit_lem, decode_ret_submit_lem,
  decode_cmd_unlink_lem, decode_ret_unlink_lem,
}
use easy_usb.Codec.Message.{announced}
use easy_usb.Codec.Encode.{is_urb_command}

-- The union that 28 bytes spell for a command.
unfoldable pub union_of : ℕ → List ℕ → UsbipHeaderUnion
union_of command body =
    if command == cmd_submit
    then of_cmd_submit (cmd_submit_of body)
    else if command == ret_submit
    then of_ret_submit (ret_submit_of body)
    else if command == cmd_unlink
    then of_cmd_unlink (cmd_unlink_of body)
    else of_ret_unlink (ret_unlink_of body)

-- The header that the basic header and the body spell.
abbrev pub header_with : UsbipHeaderBasic → List ℕ → UsbipHeader
header_with b body = record { base = b; u = union_of b.command body }

abbrev pub body_of : List ℕ → List ℕ
body_of buf = take 28 (drop 20 buf)

-- What follows the 48 bytes of a header.
abbrev pub payload_at : UsbipHeader → List ℕ → Result ProtocolError (UsbipHeader × Option (List ℕ))
payload_at h buf =
    if announced h == 0
    then ok (h, none)
    else if ltb (length buf) (48 + announced h)
    then err (incomplete_buffer (48 + announced h) (length buf))
    else if ltb max_payload_size (announced h)
    then err (buffer_too_large (announced h) max_payload_size)
    else ok (h, some (take (announced h) (drop 48 buf)))

unfoldable pub command_outcome :
    UsbipHeaderBasic → (body buf : List ℕ) → Result ProtocolError (UsbipHeader × Option (List ℕ))
command_outcome b body buf =
    if not (is_urb_command b.command)
    then err (invalid_command b.command)
    else payload_at (header_with b body) buf

-- All outcomes of `decode_header`, in the order of the checks.
abbrev pub decode_outcome : List ℕ → Result ProtocolError (UsbipHeader × Option (List ℕ))
decode_outcome buf =
    let b = basic_of (take 20 buf) in
    if ltb (length buf) 20
    then err (incomplete_buffer 20 (length buf))
    else if is_bad_direction b.direction
    then err (bad_direction b.direction)
    else if ltb (length buf) 48
    then err (incomplete_buffer 48 (length buf))
    else command_outcome b (body_of buf) buf

-- What a header with a known body announces.
announced-cmd_submit :
    (b : UsbipHeaderBasic) (c : UsbipHeaderCmdSubmit)
    → b.command ≡ cmd_submit
    → announced (record { base = b; u = of_cmd_submit c })
      ≡ (if cmd_has_payload b.direction c then c.transfer_buffer_length else 0)
unfolding announced of_cmd_submit as_cmd_submit
announced-cmd_submit b c e = ground arith

announced-ret_submit :
    (b : UsbipHeaderBasic) (r : UsbipHeaderRetSubmit)
    → b.command ≡ ret_submit
    → announced (record { base = b; u = of_ret_submit r })
      ≡ (if is_positive r.actual_length then r.actual_length else 0)
unfolding announced of_ret_submit as_ret_submit
announced-ret_submit b r e = ground arith

announced_unlink :
    (b : UsbipHeaderBasic) (u : UsbipHeaderUnion)
    → (b.command ≡ cmd_unlink) ⊎ (b.command ≡ ret_unlink)
    → announced (record { base = b; u = u }) ≡ 0
unfolding announced
announced_unlink b u e = ground arith

module _ ⦃io : ByteIo⦄ where
  cut_payload_lem :
      (n : ℕ) (buf : List ℕ)
      → cut_payload n buf ≡ (
          if ltb (length buf) (48 + n)
          then err (incomplete_buffer (48 + n) (length buf))
          else if ltb max_payload_size n
          then err (buffer_too_large n max_payload_size)
          else ok (take n (drop 48 buf)))
  unfolding cut_payload
  cut_payload_lem n buf = let e : 48 + n - 48 ≡ n = omega arith in simp (fail_if_lem, e)

  module _ (b : UsbipHeaderBasic) (body buf : List ℕ) (len : length body ≡ 28) where
    decode_cmd_submit_body : decode_cmd_submit body ≡ ok (cmd_submit_of body)
    decode_cmd_submit_body =
        decode_cmd_submit_lem body (omega arith)
        ∙ ap (λ s. ok (cmd_submit_of s)) (take_all 28 body (omega arith))

    decode_ret_submit_body : decode_ret_submit body ≡ ok (ret_submit_of body)
    decode_ret_submit_body =
        decode_ret_submit_lem body (omega arith)
        ∙ ap (λ s. ok (ret_submit_of s)) (take_all 28 body (omega arith))

    decode_cmd_unlink_body : decode_cmd_unlink body ≡ ok (cmd_unlink_of body)
    decode_cmd_unlink_body =
        decode_cmd_unlink_lem body (omega arith)
        ∙ ap (λ s. ok (cmd_unlink_of s)) (take_all 28 body (omega arith))

    decode_ret_unlink_body : decode_ret_unlink body ≡ ok (ret_unlink_of body)
    decode_ret_unlink_body =
        decode_ret_unlink_lem body (omega arith)
        ∙ ap (λ s. ok (ret_unlink_of s)) (take_all 28 body (omega arith))

    -- Each arm reads the body and goes on to the payload.
    cmd_submit_arm_lem :
        b.command ≡ cmd_submit
        → decode_cmd_submit_arm b body buf
          ≡ payload_at (record { base = b; u = of_cmd_submit (cmd_submit_of body) }) buf
    cmd_submit_arm_lem c =
        unfold decode_cmd_submit_arm in
        ground (
          arith,
          decode_cmd_submit_body,
          announced-cmd_submit b (cmd_submit_of body) c,
          cut_payload_lem (cmd_submit_of body).transfer_buffer_length buf,
        )

    ret_submit_arm_lem :
        b.command ≡ ret_submit
        → decode_ret_submit_arm b body buf
          ≡ payload_at (record { base = b; u = of_ret_submit (ret_submit_of body) }) buf
    ret_submit_arm_lem c =
        unfold decode_ret_submit_arm in
        ground (
          arith,
          decode_ret_submit_body,
          announced-ret_submit b (ret_submit_of body) c,
          cut_payload_lem (ret_submit_of body).actual_length buf,
        )

    cmd_unlink_arm_lem :
        b.command ≡ cmd_unlink
        → decode_cmd_unlink_arm b body
          ≡ payload_at (record { base = b; u = of_cmd_unlink (cmd_unlink_of body) }) buf
    cmd_unlink_arm_lem c =
        unfold decode_cmd_unlink_arm in
        ground (
          arith,
          decode_cmd_unlink_body,
          announced_unlink b (of_cmd_unlink (cmd_unlink_of body)) (inl c),
        )

    ret_unlink_arm_lem :
        b.command ≡ ret_unlink
        → decode_ret_unlink_arm b body
          ≡ payload_at (record { base = b; u = of_ret_unlink (ret_unlink_of body) }) buf
    ret_unlink_arm_lem c =
        unfold decode_ret_unlink_arm in
        ground (
          arith,
          decode_ret_unlink_body,
          announced_unlink b (of_ret_unlink (ret_unlink_of body)) (inr c),
        )

    decode_command_lem : decode_command b body buf ≡ command_outcome b body buf
    unfolding decode_command union_of command_outcome
    decode_command_lem =
        ground
          (arith, cmd_submit_arm_lem, ret_submit_arm_lem, cmd_unlink_arm_lem, ret_unlink_arm_lem)

  -- `decode_header` gives, on every buffer and error branch, what the list of its outcomes in the order
  -- of its checks gives.
  pub decode_header_lem : (buf : List ℕ) → decode_header buf ≡ decode_outcome buf
  unfolding decode_header
  decode_header_lem buf = ground (
    arith,
    decode_basic_short buf,
    decode_basic_lem buf,
    decode_command_lem (basic_of (take 20 buf)) (body_of buf) buf,
    length-take 28 (drop 20 buf),
    length-drop 20 buf,
  )
