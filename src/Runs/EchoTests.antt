-- ===== src/Runs/EchoTests.antt =====
-- Tests of crates/easy-usb-core/src/protocol/server.rs on the model: the echo of one URB.
use easy_usb.Base.{
  ℕ, ◌≡◌, refl, Bool, true, false, ◌&&◌, List, [], ◌∷◌, ◌++◌, Option, none, some, Result, err,
  replicate, ◌==◌,
}
use easy_usb.Bytes.Words.{be32, be16, u32_of, u16_of}
use easy_usb.PlainBytes.{plain_bytes}
use easy_usb.PlainTcp.{Pipe}
use easy_usb.Wire.Header.{UsbipHeader, header_cmd_submit}
use easy_usb.Wire.Union.{
  of_cmd_submit, as_cmd_submit, of_ret_submit, as_ret_submit, of_cmd_unlink, as_cmd_unlink,
  of_ret_unlink, as_ret_unlink,
}
use easy_usb.Wire.Constants.{
  cmd_submit, ret_submit, cmd_unlink, ret_unlink, usbip_dir_in, usbip_dir_out, usbip_urb_dir_in,
}
use easy_usb.Codec.{ProtocolError, invalid_command}
use easy_usb.Codec.Header.{
  encode_header, decode_header, encode_command, decode_command, append_payload, cut_payload,
  encode_cmd_submit_arm, encode_ret_submit_arm, decode_cmd_submit_arm, decode_ret_submit_arm,
  decode_cmd_unlink_arm, decode_ret_unlink_arm,
}
use easy_usb.Codec.Fields.{
  encode_basic, decode_basic, encode_cmd_submit, decode_cmd_submit, encode_ret_submit,
  decode_ret_submit, put_words, read_words, encode_cmd_unlink, decode_cmd_unlink, encode_ret_unlink,
  decode_ret_unlink,
}
use easy_usb.Codec.Import.{encode_op_req_import, decode_op_req_import, encode_op_rep_import}
use easy_usb.Handshake.{busid_array}
use easy_usb.Server.{
  read_request, accept_device, send_op_rep_import, serve_urb_echo, echo_payload_len, echo_len,
  submit_reply, unlink_reply, read_echo_payload, answer_submit, answer_unlink, answer,
}
use easy_usb.Server.Utf8.{is_utf8}
use easy_usb.Runs.Fixtures.{bus_1_1_2_3}
use easy_usb.Runs.Outcomes.{has_payload, has_none}
use easy_usb.Runs.Serving.{
  all_bytes, client_wrote, make_op_req_import, request_bytes, urb_bytes, echo_server, served_and,
}

abbrev four_bytes : List ℕ
four_bytes = 1 ∷ 2 ∷ 3 ∷ 4 ∷ []

abbrev out_submit : UsbipHeader
out_submit = record {
  base = record { command = cmd_submit; seqnum = 1; devid = 3; direction = usbip_dir_out; ep = 2 };
  u = of_cmd_submit (record {
    transfer_flags = 0;
    transfer_buffer_length = 4;
    start_frame = 0;
    number_of_packets = 0;
    interval = 0;
    setup = replicate 8 0;
  });
}

abbrev in_submit : UsbipHeader
in_submit = record {
  base = record {
    command = cmd_submit;
    seqnum = 2;
    devid = 3;
    direction = usbip_dir_in;
    ep = 0x81;
  };
  u = of_cmd_submit (record {
    transfer_flags = usbip_urb_dir_in;
    transfer_buffer_length = 8;
    start_frame = 0;
    number_of_packets = 0;
    interval = 10;
    setup = replicate 8 0;
  });
}

abbrev unlink : UsbipHeader
unlink = record {
  base = record { command = cmd_unlink; seqnum = 5; devid = 3; direction = usbip_dir_out; ep = 2 };
  u = of_cmd_unlink (record { seqnum = 1; padding = replicate 6 0 });
}

abbrev is_dead : Option (Pipe × Result ProtocolError UsbipHeader) → Bool
is_dead (some (s, err (invalid_command c))) = c == 0xdead
is_dead _ = false

abbrev out_bytes : List ℕ
out_bytes = request_bytes bus_1_1_2_3 ++ urb_bytes out_submit (some four_bytes)

out_bytes-all_bytes : all_bytes out_bytes ≡ true
unfolding make_op_req_import request_bytes busid_array encode_op_req_import decode_op_req_import
    read_request accept_device is_utf8 be32 be16 u32_of u16_of send_op_rep_import
    encode_op_rep_import serve_urb_echo echo_payload_len echo_len submit_reply unlink_reply
    read_echo_payload answer_submit answer_unlink answer echo_server urb_bytes encode_header
    decode_header encode_command decode_command append_payload cut_payload encode_cmd_submit_arm
    encode_ret_submit_arm decode_cmd_submit_arm decode_ret_submit_arm decode_cmd_unlink_arm
    decode_ret_unlink_arm encode_basic decode_basic encode_cmd_submit decode_cmd_submit
    encode_ret_submit decode_ret_submit put_words read_words encode_cmd_unlink decode_cmd_unlink
    encode_ret_unlink decode_ret_unlink of_cmd_submit as_cmd_submit of_ret_submit as_ret_submit
    of_cmd_unlink as_cmd_unlink of_ret_unlink as_ret_unlink header_cmd_submit
out_bytes-all_bytes = refl

abbrev in_bytes : List ℕ
in_bytes = request_bytes bus_1_1_2_3 ++ urb_bytes in_submit none

in_bytes-all_bytes : all_bytes in_bytes ≡ true
unfolding make_op_req_import request_bytes busid_array encode_op_req_import decode_op_req_import
    read_request accept_device is_utf8 be32 be16 u32_of u16_of send_op_rep_import
    encode_op_rep_import serve_urb_echo echo_payload_len echo_len submit_reply unlink_reply
    read_echo_payload answer_submit answer_unlink answer echo_server urb_bytes encode_header
    decode_header encode_command decode_command append_payload cut_payload encode_cmd_submit_arm
    encode_ret_submit_arm decode_cmd_submit_arm decode_ret_submit_arm decode_cmd_unlink_arm
    decode_ret_unlink_arm encode_basic decode_basic encode_cmd_submit decode_cmd_submit
    encode_ret_submit decode_ret_submit put_words read_words encode_cmd_unlink decode_cmd_unlink
    encode_ret_unlink decode_ret_unlink of_cmd_submit as_cmd_submit of_ret_submit as_ret_submit
    of_cmd_unlink as_cmd_unlink of_ret_unlink as_ret_unlink header_cmd_submit
in_bytes-all_bytes = refl

abbrev unlink_bytes : List ℕ
unlink_bytes = request_bytes bus_1_1_2_3 ++ urb_bytes unlink none

unlink_bytes-all_bytes : all_bytes unlink_bytes ≡ true
unfolding make_op_req_import request_bytes busid_array encode_op_req_import decode_op_req_import
    read_request accept_device is_utf8 be32 be16 u32_of u16_of send_op_rep_import
    encode_op_rep_import serve_urb_echo echo_payload_len echo_len submit_reply unlink_reply
    read_echo_payload answer_submit answer_unlink answer echo_server urb_bytes encode_header
    decode_header encode_command decode_command append_payload cut_payload encode_cmd_submit_arm
    encode_ret_submit_arm decode_cmd_submit_arm decode_ret_submit_arm decode_cmd_unlink_arm
    decode_ret_unlink_arm encode_basic decode_basic encode_cmd_submit decode_cmd_submit
    encode_ret_submit decode_ret_submit put_words read_words encode_cmd_unlink decode_cmd_unlink
    encode_ret_unlink decode_ret_unlink of_cmd_submit as_cmd_submit of_ret_submit as_ret_submit
    of_cmd_unlink as_cmd_unlink of_ret_unlink as_ret_unlink header_cmd_submit
unlink_bytes-all_bytes = refl

abbrev dead_bytes : List ℕ
dead_bytes =
    request_bytes bus_1_1_2_3
    ++ (be32 0xdead ++ (be32 0 ++ (be32 0 ++ (be32 usbip_dir_in ++ (be32 0 ++ replicate 28 0)))))

dead_bytes-all_bytes : all_bytes dead_bytes ≡ true
unfolding make_op_req_import request_bytes busid_array encode_op_req_import decode_op_req_import
    read_request accept_device is_utf8 be32 be16 u32_of u16_of send_op_rep_import
    encode_op_rep_import serve_urb_echo echo_payload_len echo_len submit_reply unlink_reply
    read_echo_payload answer_submit answer_unlink answer echo_server urb_bytes encode_header
    decode_header encode_command decode_command append_payload cut_payload encode_cmd_submit_arm
    encode_ret_submit_arm decode_cmd_submit_arm decode_ret_submit_arm decode_cmd_unlink_arm
    decode_ret_unlink_arm encode_basic decode_basic encode_cmd_submit decode_cmd_submit
    encode_ret_submit decode_ret_submit put_words read_words encode_cmd_unlink decode_cmd_unlink
    encode_ret_unlink decode_ret_unlink of_cmd_submit as_cmd_submit of_ret_submit as_ret_submit
    of_cmd_unlink as_cmd_unlink of_ret_unlink as_ret_unlink header_cmd_submit
dead_bytes-all_bytes = refl

abbrev serve_urb_echo_echoes_cmd_submit : Bool
serve_urb_echo_echoes_cmd_submit =
    served_and (λ out. (out.0.base.command == ret_submit) && has_payload four_bytes out.1)
      (echo_server (client_wrote out_bytes out_bytes-all_bytes))

serve_urb_echo_echoes_cmd_submit_passes : serve_urb_echo_echoes_cmd_submit ≡ true
unfolding make_op_req_import request_bytes busid_array encode_op_req_import decode_op_req_import
    read_request accept_device is_utf8 be32 be16 u32_of u16_of send_op_rep_import
    encode_op_rep_import serve_urb_echo echo_payload_len echo_len submit_reply unlink_reply
    read_echo_payload answer_submit answer_unlink answer echo_server urb_bytes encode_header
    decode_header encode_command decode_command append_payload cut_payload encode_cmd_submit_arm
    encode_ret_submit_arm decode_cmd_submit_arm decode_ret_submit_arm decode_cmd_unlink_arm
    decode_ret_unlink_arm encode_basic decode_basic encode_cmd_submit decode_cmd_submit
    encode_ret_submit decode_ret_submit put_words read_words encode_cmd_unlink decode_cmd_unlink
    encode_ret_unlink decode_ret_unlink of_cmd_submit as_cmd_submit of_ret_submit as_ret_submit
    of_cmd_unlink as_cmd_unlink of_ret_unlink as_ret_unlink header_cmd_submit
serve_urb_echo_echoes_cmd_submit_passes = refl

abbrev serve_urb_echo_handles_cmd_unlink : Bool
serve_urb_echo_handles_cmd_unlink =
    served_and (λ out. (out.0.base.command == ret_unlink) && (out.0.base.seqnum == 5))
      (echo_server (client_wrote unlink_bytes unlink_bytes-all_bytes))

serve_urb_echo_handles_cmd_unlink_passes : serve_urb_echo_handles_cmd_unlink ≡ true
unfolding make_op_req_import request_bytes busid_array encode_op_req_import decode_op_req_import
    read_request accept_device is_utf8 be32 be16 u32_of u16_of send_op_rep_import
    encode_op_rep_import serve_urb_echo echo_payload_len echo_len submit_reply unlink_reply
    read_echo_payload answer_submit answer_unlink answer echo_server urb_bytes encode_header
    decode_header encode_command decode_command append_payload cut_payload encode_cmd_submit_arm
    encode_ret_submit_arm decode_cmd_submit_arm decode_ret_submit_arm decode_cmd_unlink_arm
    decode_ret_unlink_arm encode_basic decode_basic encode_cmd_submit decode_cmd_submit
    encode_ret_submit decode_ret_submit put_words read_words encode_cmd_unlink decode_cmd_unlink
    encode_ret_unlink decode_ret_unlink of_cmd_submit as_cmd_submit of_ret_submit as_ret_submit
    of_cmd_unlink as_cmd_unlink of_ret_unlink as_ret_unlink header_cmd_submit
serve_urb_echo_handles_cmd_unlink_passes = refl

abbrev serve_urb_echo_echoes_intr_in_cmd_submit : Bool
serve_urb_echo_echoes_intr_in_cmd_submit =
    served_and
      (λ out. (out.0.base.command == ret_submit) && (out.0.base.seqnum == 2) && has_none out.1)
      (echo_server (client_wrote in_bytes in_bytes-all_bytes))

serve_urb_echo_echoes_intr_in_cmd_submit_passes : serve_urb_echo_echoes_intr_in_cmd_submit ≡ true
unfolding make_op_req_import request_bytes busid_array encode_op_req_import decode_op_req_import
    read_request accept_device is_utf8 be32 be16 u32_of u16_of send_op_rep_import
    encode_op_rep_import serve_urb_echo echo_payload_len echo_len submit_reply unlink_reply
    read_echo_payload answer_submit answer_unlink answer echo_server urb_bytes encode_header
    decode_header encode_command decode_command append_payload cut_payload encode_cmd_submit_arm
    encode_ret_submit_arm decode_cmd_submit_arm decode_ret_submit_arm decode_cmd_unlink_arm
    decode_ret_unlink_arm encode_basic decode_basic encode_cmd_submit decode_cmd_submit
    encode_ret_submit decode_ret_submit put_words read_words encode_cmd_unlink decode_cmd_unlink
    encode_ret_unlink decode_ret_unlink of_cmd_submit as_cmd_submit of_ret_submit as_ret_submit
    of_cmd_unlink as_cmd_unlink of_ret_unlink as_ret_unlink header_cmd_submit
serve_urb_echo_echoes_intr_in_cmd_submit_passes = refl

abbrev serve_urb_echo_rejects_unknown_command : Bool
serve_urb_echo_rejects_unknown_command =
    is_dead (echo_server (client_wrote dead_bytes dead_bytes-all_bytes))

serve_urb_echo_rejects_unknown_command_passes : serve_urb_echo_rejects_unknown_command ≡ true
unfolding make_op_req_import request_bytes busid_array encode_op_req_import decode_op_req_import
    read_request accept_device is_utf8 be32 be16 u32_of u16_of send_op_rep_import
    encode_op_rep_import serve_urb_echo echo_payload_len echo_len submit_reply unlink_reply
    read_echo_payload answer_submit answer_unlink answer echo_server urb_bytes encode_header
    decode_header encode_command decode_command append_payload cut_payload encode_cmd_submit_arm
    encode_ret_submit_arm decode_cmd_submit_arm decode_ret_submit_arm decode_cmd_unlink_arm
    decode_ret_unlink_arm encode_basic decode_basic encode_cmd_submit decode_cmd_submit
    encode_ret_submit decode_ret_submit put_words read_words encode_cmd_unlink decode_cmd_unlink
    encode_ret_unlink decode_ret_unlink of_cmd_submit as_cmd_submit of_ret_submit as_ret_submit
    of_cmd_unlink as_cmd_unlink of_ret_unlink as_ret_unlink header_cmd_submit
serve_urb_echo_rejects_unknown_command_passes = refl
