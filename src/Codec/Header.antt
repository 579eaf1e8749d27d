-- ===== src/Codec/Header.antt =====
-- crates/easy-usb-core/src/protocol/codec.rs: `encode_header`, `decode_header`, and
-- `UsbipHeaderCmdSubmit::direction`.
use easy_usb.Base.{
  ℕ, ◌+◌, ◌-◌, Bool, not, ◌&&◌, List, [], ◌∷◌, Option, none, some, Result, ok, err, ◌>>=◌, ◌>>◌,
  ok_or, fail_if, lit, String, ◌==◌, ltb, length, take, drop, if◌then◌else◌,
}
use easy_usb.Bytes.{ByteIo}
use easy_usb.Bytes.Words.{is_positive}
use easy_usb.Wire.{UsbipHeaderBasic, UsbipHeaderCmdSubmit}
use easy_usb.Wire.Constants.{
  cmd_submit, ret_submit, cmd_unlink, ret_unlink, usbip_dir_out, usbip_dir_in, usbip_urb_dir_in,
}
use easy_usb.Wire.Union.{
  of_cmd_submit, of_ret_submit, of_cmd_unlink, of_ret_unlink, as_cmd_submit, as_ret_submit,
  as_cmd_unlink, as_ret_unlink,
}
use easy_usb.Wire.Header.{UsbipHeader}
use easy_usb.Codec.{
  ProtocolError, incomplete_buffer, invalid_command, buffer_too_large, encoding_error,
  max_payload_size, payload_offset, basic_header_size,
}
use easy_usb.Codec.Fields.{
  encode_basic, decode_basic, encode_cmd_submit, decode_cmd_submit, encode_ret_submit,
  decode_ret_submit, encode_cmd_unlink, decode_cmd_unlink, encode_ret_unlink, decode_ret_unlink,
}
use Prim.Native.Nat.{bit_and}

-- `&buf[first..last]`.
abbrev pub slice : ℕ → ℕ → List ℕ → List ℕ
slice first last buf = take (last - first) (drop first buf)

-- Whether a CMD_SUBMIT and a RET_SUBMIT carry a payload behind the header.
abbrev pub cmd_has_payload : ℕ → UsbipHeaderCmdSubmit → Bool
cmd_has_payload direction cmd = direction == usbip_dir_out && is_positive cmd.transfer_buffer_length

module _ ⦃io : ByteIo⦄ where
  open io use {put_slice}

  -- The block that checks the payload and appends it, `missing` being the message without one.
  unfoldable pub append_payload : String → Option (List ℕ) → List ℕ → Result ProtocolError (List ℕ)
  append_payload missing payload buf = do
    bytes ← ok_or payload (encoding_error (lit missing ∷ []))
    fail_if (ltb max_payload_size (length bytes)) (buffer_too_large (length bytes) max_payload_size)
    ok (put_slice buf bytes)

  -- The arms of the `match` of `encode_header`, after `encode_basic` has filled `buf`.
  unfoldable pub encode_cmd_submit_arm :
      UsbipHeader → Option (List ℕ) → List ℕ → Result ProtocolError (List ℕ)
  encode_cmd_submit_arm header payload buf = do
    let cmd = as_cmd_submit header.u
    full ← encode_cmd_submit cmd buf
    if cmd_has_payload header.base.direction cmd
        then append_payload "CMD_SUBMIT with transfer_buffer_length > 0 requires payload" payload
            full
        else ok full

  unfoldable pub encode_ret_submit_arm :
      UsbipHeader → Option (List ℕ) → List ℕ → Result ProtocolError (List ℕ)
  encode_ret_submit_arm header payload buf = do
    let ret = as_ret_submit header.u
    full ← encode_ret_submit ret buf
    if is_positive ret.actual_length
        then append_payload "RET_SUBMIT with actual_length > 0 requires payload" payload full
        else ok full

  unfoldable pub encode_command :
      UsbipHeader → Option (List ℕ) → List ℕ → Result ProtocolError (List ℕ)
  encode_command header payload buf =
      if header.base.command == cmd_submit
      then encode_cmd_submit_arm header payload buf
      else if header.base.command == ret_submit
      then encode_ret_submit_arm header payload buf
      else if header.base.command == cmd_unlink
      then encode_cmd_unlink (as_cmd_unlink header.u) buf
      else if header.base.command == ret_unlink
      then encode_ret_unlink (as_ret_unlink header.u) buf
      else err (invalid_command header.base.command)

  unfoldable pub encode_header : UsbipHeader → Option (List ℕ) → Result ProtocolError (List ℕ)
  encode_header header payload = do
    buf ← encode_basic header.base []
    encode_command header payload buf

  -- The block that checks the announced length and copies the payload.
  unfoldable pub cut_payload : ℕ → List ℕ → Result ProtocolError (List ℕ)
  cut_payload payload_len buf = do
    fail_if (ltb (length buf) (payload_offset + payload_len))
        (incomplete_buffer (payload_offset + payload_len) (length buf))
    fail_if (ltb max_payload_size payload_len) (buffer_too_large payload_len max_payload_size)
    ok (slice payload_offset (payload_offset + payload_len) buf)

  -- The arms of the `match` of `decode_header`: `body` is `buf[20..48]`.
  unfoldable pub decode_cmd_submit_arm :
      UsbipHeaderBasic → (body buf : List ℕ) → Result ProtocolError (UsbipHeader × Option (List ℕ))
  decode_cmd_submit_arm basic body buf = do
    cmd ← decode_cmd_submit body
    let header : UsbipHeader = record { base = basic; u = of_cmd_submit cmd }
    if cmd_has_payload basic.direction cmd
        then (cut_payload cmd.transfer_buffer_length buf >>= λ payload. ok (header, some payload))
        else ok (header, none)

  unfoldable pub decode_ret_submit_arm :
      UsbipHeaderBasic → (body buf : List ℕ) → Result ProtocolError (UsbipHeader × Option (List ℕ))
  decode_ret_submit_arm basic body buf = do
    ret ← decode_ret_submit body
    let header : UsbipHeader = record { base = basic; u = of_ret_submit ret }
    if is_positive ret.actual_length
        then (cut_payload ret.actual_length buf >>= λ payload. ok (header, some payload))
        else ok (header, none)

  unfoldable pub decode_cmd_unlink_arm :
      UsbipHeaderBasic → List ℕ → Result ProtocolError (UsbipHeader × Option (List ℕ))
  decode_cmd_unlink_arm basic body = do
    cmd ← decode_cmd_unlink body
    ok (record { base = basic; u = of_cmd_unlink cmd }, none)

  unfoldable pub decode_ret_unlink_arm :
      UsbipHeaderBasic → List ℕ → Result ProtocolError (UsbipHeader × Option (List ℕ))
  decode_ret_unlink_arm basic body = do
    ret ← decode_ret_unlink body
    ok (record { base = basic; u = of_ret_unlink ret }, none)

  unfoldable pub decode_command :
      UsbipHeaderBasic → (body buf : List ℕ) → Result ProtocolError (UsbipHeader × Option (List ℕ))
  decode_command basic body buf =
      if basic.command == cmd_submit
      then decode_cmd_submit_arm basic body buf
      else if basic.command == ret_submit
      then decode_ret_submit_arm basic body buf
      else if basic.command == cmd_unlink
      then decode_cmd_unlink_arm basic body
      else if basic.command == ret_unlink
      then decode_ret_unlink_arm basic body
      else err (invalid_command basic.command)

  unfoldable pub decode_header : List ℕ → Result ProtocolError (UsbipHeader × Option (List ℕ))
  decode_header buf = do
    basic ← decode_basic buf
    fail_if (ltb (length buf) payload_offset) (incomplete_buffer payload_offset (length buf))
    decode_command basic (slice basic_header_size payload_offset buf) buf

-- `UsbipHeaderCmdSubmit::direction`.
unfoldable pub urb_direction : UsbipHeaderCmdSubmit → ℕ
urb_direction cmd =
    if not (bit_and cmd.transfer_flags usbip_urb_dir_in == 0) then usbip_dir_in else usbip_dir_out
