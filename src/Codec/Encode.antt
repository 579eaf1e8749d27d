-- ===== src/Codec/Encode.antt =====
-- `encode_header`: when it succeeds, what it writes, and each way that it fails.
use easy_usb.Base.{
  ℕ, String, ◌≡◌, refl, sym, ◌∙◌, ◌↔◌, ◌⊎◌, Bool, not, List, [], ◌∷◌, ◌++◌, append-nil, Option,
  none, some, Result, ok, err, fail_if_lem, lit, ◌==◌, ◌||◌, if◌then◌else◌, length, arith, ltb,
}
use easy_usb.Bytes.{ByteIo}
use easy_usb.Wire.Constants.{cmd_submit, ret_submit, cmd_unlink, ret_unlink}
use easy_usb.Wire.Union.{as_cmd_submit, as_ret_submit, as_cmd_unlink, as_ret_unlink}
use easy_usb.Wire.Header.{UsbipHeader}
use easy_usb.Codec.{
  ProtocolError, invalid_command, buffer_too_large, isochronous_not_supported, encoding_error,
  max_payload_size,
}
use easy_usb.Codec.Fields.{is_bad_direction, bad_direction}
use easy_usb.Codec.Header.{
  append_payload, encode_cmd_submit_arm, encode_ret_submit_arm, encode_command, encode_header,
}
use easy_usb.Codec.Layout.{basic_bytes, cmd_submit_bytes, ret_submit_bytes}
use easy_usb.Codec.Parts.{
  encode_basic_lem, encode_cmd_submit_lem, encode_ret_submit_lem, encode_cmd_unlink_lem,
  encode_ret_unlink_lem,
}
use easy_usb.Codec.Message.{announced, body_bytes, packets, IsEncodable, message}

-- The bytes in front of the payload.
abbrev pub header_bytes : UsbipHeader → List ℕ
header_bytes h = basic_bytes h.base ++ body_bytes h

-- The message for a payload that is missing.
abbrev missing_text : UsbipHeader → String
missing_text h =
    if h.base.command == cmd_submit
    then "CMD_SUBMIT with transfer_buffer_length > 0 requires payload"
    else "RET_SUBMIT with actual_length > 0 requires payload"

-- The payload bytes, if any, and what is wrong with them.
abbrev payload_outcome : UsbipHeader → Option (List ℕ) → Result ProtocolError (List ℕ)
payload_outcome h none = err (encoding_error (lit (missing_text h) ∷ []))
payload_outcome h (some bytes) =
    if ltb max_payload_size (length bytes)
    then err (buffer_too_large (length bytes) max_payload_size)
    else ok (header_bytes h ++ bytes)

abbrev pub is_urb_command : ℕ → Bool
is_urb_command c = c == cmd_submit || c == ret_submit || c == cmd_unlink || c == ret_unlink

-- All outcomes of `encode_header`, as one table in the order of the checks.
abbrev pub encode_outcome : UsbipHeader → Option (List ℕ) → Result ProtocolError (List ℕ)
encode_outcome h p =
    if is_bad_direction h.base.direction
    then err (bad_direction h.base.direction)
    else if not (is_urb_command h.base.command)
    then err (invalid_command h.base.command)
    else if not (packets h == 0)
    then err isochronous_not_supported
    else if announced h == 0
    then ok (header_bytes h)
    else payload_outcome h p

module _ ⦃io : ByteIo⦄ where
  open io use {put_slice_lem}

  append_payload_lem :
      (missing : String) (p : Option (List ℕ)) (buf : List ℕ)
      → append_payload missing p buf ≡ elim p [
        | none ↦ err (encoding_error (lit missing ∷ []))
        | some bytes ↦
            if ltb max_payload_size (length bytes)
            then err (buffer_too_large (length bytes) max_payload_size)
            else ok (buf ++ bytes)
      ]
  unfolding append_payload
  append_payload_lem missing none buf = refl
  append_payload_lem missing (some bytes) buf = simp (fail_if_lem, put_slice_lem)

  cmd_submit_arm_lem :
      (h : UsbipHeader) (p : Option (List ℕ))
      → h.base.command ≡ cmd_submit
      → encode_cmd_submit_arm h p (basic_bytes h.base) ≡ (
          if not (packets h == 0)
          then err isochronous_not_supported
          else if announced h == 0
          then ok (header_bytes h)
          else payload_outcome h p)
  unfolding encode_cmd_submit_arm packets announced body_bytes
  cmd_submit_arm_lem h p c = ground (
    arith,
    encode_cmd_submit_lem (as_cmd_submit h.u) (basic_bytes h.base),
    append_payload_lem "CMD_SUBMIT with transfer_buffer_length > 0 requires payload" p
        (basic_bytes h.base ++ cmd_submit_bytes (as_cmd_submit h.u)),
  )

  ret_submit_arm_lem :
      (h : UsbipHeader) (p : Option (List ℕ))
      → h.base.command ≡ ret_submit
      → encode_ret_submit_arm h p (basic_bytes h.base) ≡ (
          if not (packets h == 0)
          then err isochronous_not_supported
          else if announced h == 0
          then ok (header_bytes h)
          else payload_outcome h p)
  unfolding encode_ret_submit_arm packets announced body_bytes
  ret_submit_arm_lem h p c = ground (
    arith,
    encode_ret_submit_lem (as_ret_submit h.u) (basic_bytes h.base),
    append_payload_lem "RET_SUBMIT with actual_length > 0 requires payload" p
        (basic_bytes h.base ++ ret_submit_bytes (as_ret_submit h.u)),
  )

  unlink_quiet :
      (h : UsbipHeader)
      → (h.base.command ≡ cmd_unlink) ⊎ (h.base.command ≡ ret_unlink)
      → (packets h ≡ 0) × (announced h ≡ 0)
  unfolding packets announced
  unlink_quiet h c = ground arith

  encode_command_lem :
      (h : UsbipHeader) (p : Option (List ℕ))
      → encode_command h p (basic_bytes h.base) ≡ (
          if not (is_urb_command h.base.command)
          then err (invalid_command h.base.command)
          else if not (packets h == 0)
          then err isochronous_not_supported
          else if announced h == 0
          then ok (header_bytes h)
          else payload_outcome h p)
  unfolding encode_command body_bytes
  encode_command_lem h p = ground (
    arith,
    cmd_submit_arm_lem h p,
    ret_submit_arm_lem h p,
    encode_cmd_unlink_lem (as_cmd_unlink h.u) (basic_bytes h.base),
    encode_ret_unlink_lem (as_ret_unlink h.u) (basic_bytes h.base),
    unlink_quiet h,
  )

  pub encode_header_lem :
      (h : UsbipHeader) (p : Option (List ℕ)) → encode_header h p ≡ encode_outcome h p
  unfolding encode_header
  encode_header_lem h p = ground (arith, encode_basic_lem h.base [], encode_command_lem h p)

  outcome-IsEncodable :
      (h : UsbipHeader) (p : Option (List ℕ)) (buf : List ℕ)
      → encode_outcome h p ≡ ok buf
      → IsEncodable h p
  outcome-IsEncodable h none buf e = ground arith
  outcome-IsEncodable h (some bytes) buf e = ground arith

  outcome-message :
      (h : UsbipHeader) (p : Option (List ℕ))
      → IsEncodable h p
      → encode_outcome h p ≡ ok (message h p)
  outcome-message h none e = ground (arith, append-nil (header_bytes h))
  outcome-message h (some bytes) e = ground (arith, append-nil (header_bytes h))

  pub encode_header-message :
      (h : UsbipHeader) (p : Option (List ℕ))
      → IsEncodable h p
      → encode_header h p ≡ ok (message h p)
  encode_header-message h p e = encode_header_lem h p ∙ outcome-message h p e

  -- `encode_header` succeeds exactly on a header with a direction of 0 or 1, one of the four commands
  -- and no packets, with a payload of at most 1 MiB if one is announced.
  pub encode_header-ok_iff :
      (h : UsbipHeader) (p : Option (List ℕ))
      → ((buf : List ℕ) × (encode_header h p ≡ ok buf)) ↔ IsEncodable h p
  encode_header-ok_iff h p = (
    λ r. outcome-IsEncodable h p r.0 (sym (encode_header_lem h p) ∙ r.1),
    λ e. (message h p, encode_header-message h p e),
  )
