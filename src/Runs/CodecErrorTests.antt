-- ===== src/Runs/CodecErrorTests.antt =====
-- Errors, and round trips of the import messages: tests of crates/easy-usb-core/src/protocol/codec.rs on the
-- model, over the plain bytes.
use easy_usb.Base.{◌≡◌, refl, Bool, true, false, ◌&&◌, ◌++◌, none, replicate, take, ◌==◌}
use easy_usb.Bytes.Words.{be32, be16, u32_of, u16_of}
use easy_usb.PlainBytes.{plain_bytes}
use easy_usb.Wire.{OpReqImport, OpRepImport}
use easy_usb.Wire.Union.{of_cmd_submit, as_cmd_submit, of_ret_submit, as_ret_submit}
use easy_usb.Wire.Constants.{cmd_submit, usbip_dir_out}
use easy_usb.Codec.{
  ProtocolError, incomplete_buffer, invalid_command, encoding_error, isochronous_not_supported,
}
use easy_usb.Codec.Header.{
  encode_header, decode_header, encode_command, decode_command, append_payload, cut_payload,
  encode_cmd_submit_arm, encode_ret_submit_arm, decode_cmd_submit_arm, decode_ret_submit_arm,
}
use easy_usb.Codec.Fields.{
  encode_basic, decode_basic, encode_cmd_submit, decode_cmd_submit, encode_ret_submit,
  decode_ret_submit,
}
use easy_usb.Codec.Import.{
  encode_op_req_import, decode_op_req_import, encode_op_rep_import, decode_op_rep_import,
}
use easy_usb.Handshake.{path_prefix}
use easy_usb.Runs.Outcomes.{same_bytes, holds, fails_by}
use easy_usb.Runs.Fixtures.{bus_1_1_2_3}

abbrev is_incomplete : ProtocolError → Bool
is_incomplete (incomplete_buffer _ _) = true
is_incomplete _ = false

abbrev is_dead_command : ProtocolError → Bool
is_dead_command (invalid_command c) = c == 0xdead
is_dead_command _ = false

abbrev is_encoding_error : ProtocolError → Bool
is_encoding_error (encoding_error _) = true
is_encoding_error _ = false

abbrev is_isochronous : ProtocolError → Bool
is_isochronous isochronous_not_supported = true
is_isochronous _ = false

abbrev truncated_buffer_error : Bool
truncated_buffer_error = fails_by is_incomplete (decode_header (replicate 10 0))

truncated_buffer_error_passes : truncated_buffer_error ≡ true
unfolding encode_header decode_header encode_command decode_command append_payload cut_payload
    encode_cmd_submit_arm encode_ret_submit_arm decode_cmd_submit_arm decode_ret_submit_arm
    encode_basic decode_basic encode_cmd_submit decode_cmd_submit encode_ret_submit
    decode_ret_submit of_cmd_submit as_cmd_submit of_ret_submit as_ret_submit be32 be16 u32_of
    u16_of
truncated_buffer_error_passes = refl

abbrev invalid_command_error : Bool
invalid_command_error =
    fails_by is_dead_command (
      decode_header (be32 0xdead ++ (be32 0 ++ (be32 0 ++ (be32 0 ++ (be32 0 ++ replicate 28 0))))))

invalid_command_error_passes : invalid_command_error ≡ true
unfolding encode_header decode_header encode_command decode_command append_payload cut_payload
    encode_cmd_submit_arm encode_ret_submit_arm decode_cmd_submit_arm decode_ret_submit_arm
    encode_basic decode_basic encode_cmd_submit decode_cmd_submit encode_ret_submit
    decode_ret_submit of_cmd_submit as_cmd_submit of_ret_submit as_ret_submit be32 be16 u32_of
    u16_of
invalid_command_error_passes = refl

abbrev invalid_direction_error : Bool
invalid_direction_error = fails_by is_encoding_error (
    decode_header
      (be32 cmd_submit ++ (be32 0 ++ (be32 0 ++ (be32 0xdead ++ (be32 0 ++ replicate 28 0))))))

invalid_direction_error_passes : invalid_direction_error ≡ true
unfolding encode_header decode_header encode_command decode_command append_payload cut_payload
    encode_cmd_submit_arm encode_ret_submit_arm decode_cmd_submit_arm decode_ret_submit_arm
    encode_basic decode_basic encode_cmd_submit decode_cmd_submit encode_ret_submit
    decode_ret_submit of_cmd_submit as_cmd_submit of_ret_submit as_ret_submit be32 be16 u32_of
    u16_of
invalid_direction_error_passes = refl

abbrev isochronous_rejection_error : Bool
isochronous_rejection_error = fails_by is_isochronous (
    encode_header
      (record {
        base = record {
          command = cmd_submit;
          seqnum = 5;
          devid = 0;
          direction = usbip_dir_out;
          ep = 0;
        };
        u = of_cmd_submit (record {
          transfer_flags = 0;
          transfer_buffer_length = 0;
          start_frame = 0;
          number_of_packets = 1;
          interval = 0;
          setup = replicate 8 0;
        });
      })
      none)

isochronous_rejection_error_passes : isochronous_rejection_error ≡ true
unfolding encode_header decode_header encode_command decode_command append_payload cut_payload
    encode_cmd_submit_arm encode_ret_submit_arm decode_cmd_submit_arm decode_ret_submit_arm
    encode_basic decode_basic encode_cmd_submit decode_cmd_submit encode_ret_submit
    decode_ret_submit of_cmd_submit as_cmd_submit of_ret_submit as_ret_submit be32 be16 u32_of
    u16_of
isochronous_rejection_error_passes = refl

abbrev import_reply : OpRepImport
import_reply = record {
  status = 0;
  path = path_prefix ++ replicate 233 0;
  busid = bus_1_1_2_3 ++ replicate 25 0;
  busnum = 1;
  devnum = 3;
  speed = 3;
  id_vendor = 0x1234;
  id_product = 0x5678;
  bcd_device = 0x0200;
  b_device_class = 0;
  b_device_sub_class = 0;
  b_device_protocol = 0;
  b_configuration_value = 1;
  b_num_configurations = 1;
  b_num_interfaces = 2;
}

abbrev import_request : OpReqImport
import_request = record {
  status = 0;
  path = path_prefix ++ replicate 233 0;
  busid = bus_1_1_2_3 ++ replicate 25 0;
}

abbrev roundtrip_op_rep_import : Bool
roundtrip_op_rep_import =
    holds
      (λ buf.
        holds
          (λ (decoded : OpRepImport).
            same_bytes (take 23 decoded.path) path_prefix
            && same_bytes (take 7 decoded.busid) bus_1_1_2_3
            && (decoded.status == import_reply.status)
            && (decoded.busnum == import_reply.busnum)
            && (decoded.devnum == import_reply.devnum)
            && (decoded.speed == import_reply.speed)
            && (decoded.id_vendor == import_reply.id_vendor)
            && (decoded.id_product == import_reply.id_product)
            && (decoded.bcd_device == import_reply.bcd_device)
            && (decoded.b_device_class == import_reply.b_device_class)
            && (decoded.b_device_sub_class == import_reply.b_device_sub_class)
            && (decoded.b_device_protocol == import_reply.b_device_protocol)
            && (decoded.b_configuration_value == import_reply.b_configuration_value)
            && (decoded.b_num_configurations == import_reply.b_num_configurations)
            && (decoded.b_num_interfaces == import_reply.b_num_interfaces))
          (decode_op_rep_import buf))
      (encode_op_rep_import import_reply)

roundtrip_op_rep_import_passes : roundtrip_op_rep_import ≡ true
unfolding encode_op_req_import decode_op_req_import encode_op_rep_import decode_op_rep_import be32
    be16 u32_of u16_of
roundtrip_op_rep_import_passes = refl

abbrev roundtrip_op_req_import : Bool
roundtrip_op_req_import =
    holds
      (λ buf.
        holds
          (λ (decoded : OpReqImport).
            (decoded.status == import_request.status)
            && same_bytes (take 23 decoded.path) path_prefix
            && same_bytes (take 7 decoded.busid) bus_1_1_2_3)
          (decode_op_req_import buf))
      (encode_op_req_import import_request)

roundtrip_op_req_import_passes : roundtrip_op_req_import ≡ true
unfolding encode_op_req_import decode_op_req_import encode_op_rep_import decode_op_rep_import be32
    be16 u32_of u16_of
roundtrip_op_req_import_passes = refl
