-- ===== src/Runs/CodecRuns.antt =====
-- Messages on the plain bytes, and device descriptors.
use easy_usb.Base.{
  ◌≡◌, ◌+◌, List, [], ◌∷◌, ◌++◌, some, ok, err, length, arith, ◌↔◌, ℕ, All, take, replicate,
}
use easy_usb.Bytes.Words.{IsByte, be32}
use easy_usb.PlainBytes.{plain_bytes}
use easy_usb.Wire.{OpRepImport}
use easy_usb.Wire.Union.{of_cmd_submit, as_cmd_submit}
use easy_usb.Codec.{incomplete_buffer}
use easy_usb.Codec.Header.{encode_header, decode_header}
use easy_usb.Codec.Message.{
  HeaderIsValid, IsEncodable, announced, carried, packets, message, body_bytes,
}
use easy_usb.Codec.Layout.{basic_bytes, cmd_submit_bytes}
use easy_usb.Codec.Encode.{encode_header-ok_iff}
use easy_usb.Codec.Decode.{decode_header_lem, decode_outcome}
use easy_usb.Codec.RoundTrip.{
  decode_header-encode_header, decode_header-short_payload, decode_message_lem,
}
use easy_usb.Codec.Sound.{IsDecoded, decode_header-IsDecoded, encode_header-decode_header}
use easy_usb.Device.{high_speed, speed_code, speed_try_from, speed_try_from_iff}
use easy_usb.Runs.Fixtures.{
  make_control_cmd_submit, control_IsValid, control_IsEncodable, control_payload,
  control_PayloadMatches, announced-control,
}

encode_header-ok_iff_example :
    ((buf : List ℕ) × (encode_header make_control_cmd_submit (some control_payload) ≡ ok buf))
    ↔ IsEncodable make_control_cmd_submit (some control_payload)
encode_header-ok_iff_example = encode_header-ok_iff make_control_cmd_submit (some control_payload)

round_trip_example :
    (buf : List ℕ) × (encode_header make_control_cmd_submit (some control_payload) ≡ ok buf)
    × (decode_header (buf ++ (7 ∷ []))
        ≡ ok (make_control_cmd_submit, carried make_control_cmd_submit (some control_payload)))
round_trip_example =
    decode_header-encode_header make_control_cmd_submit (some control_payload) (7 ∷ [])
      control_IsValid (control_IsEncodable control_payload (omega arith)) control_PayloadMatches

abbrev two_bytes : List ℕ
two_bytes = 1 ∷ 2 ∷ []

short_payload_example :
    (buf : List ℕ) × (encode_header make_control_cmd_submit (some two_bytes) ≡ ok buf)
    × (decode_header buf
        ≡ err (incomplete_buffer (48 + announced make_control_cmd_submit) (48 + length two_bytes)))
short_payload_example =
    decode_header-short_payload make_control_cmd_submit two_bytes control_IsValid
      (control_IsEncodable two_bytes (omega arith)) (omega (arith, announced-control))

decode_header_lem_example : decode_header control_payload ≡ decode_outcome control_payload
decode_header_lem_example = decode_header_lem control_payload

-- The message of the control transfer, and a byte behind it.
abbrev pub control_message : List ℕ
control_message = message make_control_cmd_submit (some control_payload) ++ (7 ∷ [])

control_decoded :
    decode_header control_message
    ≡ ok (make_control_cmd_submit, carried make_control_cmd_submit (some control_payload))
control_decoded =
    decode_message_lem make_control_cmd_submit (some control_payload) (7 ∷ []) control_IsValid
      (control_IsEncodable control_payload (omega arith)) control_PayloadMatches

pub control_message-IsByte : All IsByte control_message
unfolding of_cmd_submit as_cmd_submit announced basic_bytes body_bytes cmd_submit_bytes be32
control_message-IsByte = omega arith

control_packets : packets make_control_cmd_submit ≡ 0
control_packets = (control_IsEncodable control_payload (omega arith)).bulk

IsDecoded_example :
    IsDecoded control_message make_control_cmd_submit
      (carried make_control_cmd_submit (some control_payload))
IsDecoded_example =
    decode_header-IsDecoded control_message make_control_cmd_submit
      (carried make_control_cmd_submit (some control_payload)) control_decoded

encode_again_example :
    HeaderIsValid make_control_cmd_submit
    × (encode_header make_control_cmd_submit
          (carried make_control_cmd_submit (some control_payload))
        ≡ ok (take (48 + announced make_control_cmd_submit) control_message))
encode_again_example =
    encode_header-decode_header control_message make_control_cmd_submit
      (carried make_control_cmd_submit (some control_payload)) control_message-IsByte
      control_decoded control_packets

speed_try_from_iff_example : (speed_try_from 3 ≡ ok high_speed) ↔ (3 ≡ speed_code high_speed)
speed_try_from_iff_example = speed_try_from_iff 3 high_speed

-- A reply with a speed code that no speed has.
abbrev odd_reply : OpRepImport
odd_reply = record {
  status = 0;
  path = replicate 256 0;
  busid = replicate 32 0;
  busnum = 1;
  devnum = 2;
  speed = 7;
  id_vendor = 0x1d6b;
  id_product = 2;
  bcd_device = 0x100;
  b_device_class = 9;
  b_device_sub_class = 0;
  b_device_protocol = 0;
  b_configuration_value = 1;
  b_num_configurations = 1;
  b_num_interfaces = 1;
}
