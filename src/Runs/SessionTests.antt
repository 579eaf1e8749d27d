-- ===== src/Runs/SessionTests.antt =====
-- Tests of crates/easy-usb-core/src/protocol/session.rs on the model, over the plain bytes and the plain
-- connection: what the server of a test writes waits behind its reply.
use easy_usb.Base.{
  ℕ, ◌+◌, ◌*◌, ◌%◌, ◌≡◌, refl, Bool, true, false, not, ◌&&◌, List, [], ◌∷◌, ◌++◌, Option, none,
  some, Result, ok, err, replicate, take, drop, length, ◌==◌,
}
use easy_usb.Bytes.Words.{be32, be16, u32_of, u16_of}
use easy_usb.PlainBytes.{plain_bytes}
use easy_usb.PlainTcp.{plain_tcp}
use easy_usb.Wire.Header.{UsbipHeader}
use easy_usb.Wire.Union.{of_cmd_submit, as_cmd_submit, of_ret_submit, as_ret_submit}
use easy_usb.Wire.Constants.{cmd_submit, ret_submit, usbip_dir_in, usbip_dir_out}
use easy_usb.Codec.Header.{
  encode_header, decode_header, encode_command, decode_command, append_payload, cut_payload,
  encode_cmd_submit_arm, encode_ret_submit_arm, decode_cmd_submit_arm, decode_ret_submit_arm,
}
use easy_usb.Codec.Fields.{
  encode_basic, decode_basic, encode_cmd_submit, decode_cmd_submit, encode_ret_submit,
  decode_ret_submit,
}
use easy_usb.Codec.Import.{encode_op_req_import, decode_op_rep_import}
use easy_usb.Handshake.{
  HandshakeError, connects, import_device, attempt_loop, attempt_step, settle, do_handshake,
  exchange, make_import_request, busid_array,
}
use easy_usb.Session.{
  TcpSession, connect, send_header, recv_header, recv_header_inner, payload_len, read_payload,
  word_at,
}
use easy_usb.Runs.Fixtures.{bus_1_1_2_3, reply_bytes_of}
use easy_usb.Runs.Outcomes.{same_bytes, holds, has_payload, has_none}
use easy_usb.Runs.Serving.{all_bytes, client_wrote, urb_bytes}

-- The `_payload_len` of the source is unused.
abbrev session_cmd_submit : (seqnum tfl : ℕ) → UsbipHeader
session_cmd_submit seqnum tfl = record {
  base = record {
    command = cmd_submit;
    seqnum = seqnum;
    devid = 3;
    direction = usbip_dir_out;
    ep = 2;
  };
  u = of_cmd_submit (record {
    transfer_flags = 0;
    transfer_buffer_length = tfl;
    start_frame = 0;
    number_of_packets = 0;
    interval = 0;
    setup = replicate 8 0;
  });
}

abbrev session_ret_submit : (seqnum actual_length : ℕ) → UsbipHeader
session_ret_submit seqnum actual_length = record {
  base = record {
    command = ret_submit;
    seqnum = seqnum;
    devid = 3;
    direction = usbip_dir_in;
    ep = 2;
  };
  u = of_ret_submit (record {
    status = 0;
    actual_length = actual_length;
    start_frame = 0;
    number_of_packets = 0;
    error_count = 0;
    setup = replicate 8 0;
  });
}

-- A session connected to a server that writes its reply and then some bytes.
abbrev Connected : Type 0
Connected = Result HandshakeError (TcpSession plain_tcp)

unfoldable connected : (bytes : List ℕ) → all_bytes bytes ≡ true → Connected
connected bytes h =
    connect plain_tcp (λ _. connects (ok (client_wrote bytes h))) (ok tt) bus_1_1_2_3 3

abbrev with_session : (TcpSession plain_tcp → Bool) → Connected → Bool
with_session p (ok session) = p session
with_session p (err e) = false

abbrev full_handshake_server : List ℕ
full_handshake_server = reply_bytes_of 0 1 3 3

server_only-all_bytes : all_bytes full_handshake_server ≡ true
server_only-all_bytes = refl

abbrev connect_and_handshake : Bool
connect_and_handshake =
    with_session
      (λ session.
        (session.devid == 3)
        && same_bytes session.busid bus_1_1_2_3
        && (session.reply.status == 0)
        && (session.reply.busnum == 1)
        && (session.reply.devnum == 3)
        && (session.reply.speed == 3))
      (connected full_handshake_server server_only-all_bytes)

connect_and_handshake_passes : connect_and_handshake ≡ true
unfolding connected connect import_device attempt_loop attempt_step settle do_handshake exchange
    make_import_request busid_array encode_op_req_import decode_op_rep_import send_header
    recv_header recv_header_inner payload_len read_payload encode_header decode_header
    encode_command decode_command append_payload cut_payload encode_cmd_submit_arm
    encode_ret_submit_arm decode_cmd_submit_arm decode_ret_submit_arm encode_basic decode_basic
    encode_cmd_submit decode_cmd_submit encode_ret_submit decode_ret_submit of_cmd_submit
    as_cmd_submit of_ret_submit as_ret_submit be32 be16 u32_of u16_of urb_bytes
connect_and_handshake_passes = refl

-- What the server of a test reads behind the request of 292 bytes.
abbrev read_by_server : TcpSession plain_tcp → List ℕ
read_by_server session = drop 292 session.stream.sent

abbrev sent_by : UsbipHeader → Option (List ℕ) → TcpSession plain_tcp → TcpSession plain_tcp
sent_by header payload session = (send_header plain_tcp header payload session).0

abbrev sends_cmd_submit : TcpSession plain_tcp → Bool
sends_cmd_submit session =
    let buf = read_by_server (sent_by (session_cmd_submit 0 0) none session) in
    (length buf == 48) && (word_at 0 buf == cmd_submit) && (word_at 4 buf == 0)

-- The test `send_header`.
abbrev send_header_test : Bool
send_header_test =
    with_session (λ session. sends_cmd_submit session)
      (connected full_handshake_server server_only-all_bytes)

send_header_test_passes : send_header_test ≡ true
unfolding connected connect import_device attempt_loop attempt_step settle do_handshake exchange
    make_import_request busid_array encode_op_req_import decode_op_rep_import send_header
    recv_header recv_header_inner payload_len read_payload encode_header decode_header
    encode_command decode_command append_payload cut_payload encode_cmd_submit_arm
    encode_ret_submit_arm decode_cmd_submit_arm decode_ret_submit_arm encode_basic decode_basic
    encode_cmd_submit decode_cmd_submit encode_ret_submit decode_ret_submit of_cmd_submit
    as_cmd_submit of_ret_submit as_ret_submit be32 be16 u32_of u16_of urb_bytes
send_header_test_passes = refl

abbrev ret_behind : List ℕ
ret_behind = full_handshake_server ++ urb_bytes (session_ret_submit 0 0) none

ret_behind-all_bytes : all_bytes ret_behind ≡ true
unfolding connect import_device attempt_loop attempt_step settle do_handshake exchange
    make_import_request busid_array encode_op_req_import decode_op_rep_import send_header
    recv_header recv_header_inner payload_len read_payload encode_header decode_header
    encode_command decode_command append_payload cut_payload encode_cmd_submit_arm
    encode_ret_submit_arm decode_cmd_submit_arm decode_ret_submit_arm encode_basic decode_basic
    encode_cmd_submit decode_cmd_submit encode_ret_submit decode_ret_submit of_cmd_submit
    as_cmd_submit of_ret_submit as_ret_submit be32 be16 u32_of u16_of urb_bytes
ret_behind-all_bytes = refl

-- The test `recv_header`.
abbrev recv_header_test : Bool
recv_header_test =
    with_session
      (λ session.
        holds
          (λ out. (out.0.base.command == ret_submit) && (out.0.base.seqnum == 0) && has_none out.1)
          (recv_header plain_tcp session).1)
      (connected ret_behind ret_behind-all_bytes)

recv_header_test_passes : recv_header_test ≡ true
unfolding connected connect import_device attempt_loop attempt_step settle do_handshake exchange
    make_import_request busid_array encode_op_req_import decode_op_rep_import send_header
    recv_header recv_header_inner payload_len read_payload encode_header decode_header
    encode_command decode_command append_payload cut_payload encode_cmd_submit_arm
    encode_ret_submit_arm decode_cmd_submit_arm decode_ret_submit_arm encode_basic decode_basic
    encode_cmd_submit decode_cmd_submit encode_ret_submit decode_ret_submit of_cmd_submit
    as_cmd_submit of_ret_submit as_ret_submit be32 be16 u32_of u16_of urb_bytes
recv_header_test_passes = refl

-- `b"HELLO USBIP DATA"`.
abbrev test_payload : List ℕ
test_payload =
    0x48 ∷ 0x45 ∷ 0x4c ∷ 0x4c ∷ 0x4f ∷ 0x20 ∷ 0x55 ∷ 0x53 ∷ 0x42 ∷ 0x49 ∷ 0x50 ∷ 0x20 ∷ 0x44 ∷ 0x41
    ∷ 0x54 ∷ 0x41 ∷ []

abbrev sends_and_receives : TcpSession plain_tcp → Bool
sends_and_receives session =
    let after = sent_by (session_cmd_submit 0 16) (some test_payload) session in
    holds
      (λ out.
        ((as_cmd_submit out.0.u).transfer_buffer_length == 16) && has_payload test_payload out.1)
      (decode_header (take 64 (read_by_server after)))
    && holds (λ out. (out.0.base.command == ret_submit) && has_payload test_payload out.1)
        (recv_header plain_tcp after).1

abbrev echo_behind : List ℕ
echo_behind = full_handshake_server ++ urb_bytes (session_ret_submit 0 16) (some test_payload)

echo_behind-all_bytes : all_bytes echo_behind ≡ true
unfolding connect import_device attempt_loop attempt_step settle do_handshake exchange
    make_import_request busid_array encode_op_req_import decode_op_rep_import send_header
    recv_header recv_header_inner payload_len read_payload encode_header decode_header
    encode_command decode_command append_payload cut_payload encode_cmd_submit_arm
    encode_ret_submit_arm decode_cmd_submit_arm decode_ret_submit_arm encode_basic decode_basic
    encode_cmd_submit decode_cmd_submit encode_ret_submit decode_ret_submit of_cmd_submit
    as_cmd_submit of_ret_submit as_ret_submit be32 be16 u32_of u16_of urb_bytes
echo_behind-all_bytes = refl

abbrev send_recv_roundtrip : Bool
send_recv_roundtrip =
    with_session (λ session. sends_and_receives session)
      (connected echo_behind echo_behind-all_bytes)

send_recv_roundtrip_passes : send_recv_roundtrip ≡ true
unfolding connected connect import_device attempt_loop attempt_step settle do_handshake exchange
    make_import_request busid_array encode_op_req_import decode_op_rep_import send_header
    recv_header recv_header_inner payload_len read_payload encode_header decode_header
    encode_command decode_command append_payload cut_payload encode_cmd_submit_arm
    encode_ret_submit_arm decode_cmd_submit_arm decode_ret_submit_arm encode_basic decode_basic
    encode_cmd_submit decode_cmd_submit encode_ret_submit decode_ret_submit of_cmd_submit
    as_cmd_submit of_ret_submit as_ret_submit be32 be16 u32_of u16_of urb_bytes
send_recv_roundtrip_passes = refl

-- The number of a message that the server reads, and three sends in a row.
abbrev numbered_at : ℕ → TcpSession plain_tcp → ℕ
numbered_at i session = word_at (48 * i + 4) (read_by_server session)

abbrev numbers_from : ℕ → TcpSession plain_tcp → Bool
numbers_from n session =
    let header = session_cmd_submit 99 0 in
    let after = sent_by header none (sent_by header none (sent_by header none session)) in
    (numbered_at 0 after == n)
    && (numbered_at 1 after == (n + 1) % 4294967296)
    && (numbered_at 2 after == (n + 2) % 4294967296)

abbrev seqnum_wraps_at_u32_max : Bool
seqnum_wraps_at_u32_max =
    with_session (λ session. numbers_from 4294967294 (record session { next_seqnum = 4294967294 }))
      (connected full_handshake_server server_only-all_bytes)

seqnum_wraps_at_u32_max_passes : seqnum_wraps_at_u32_max ≡ true
unfolding connected connect import_device attempt_loop attempt_step settle do_handshake exchange
    make_import_request busid_array encode_op_req_import decode_op_rep_import send_header
    recv_header recv_header_inner payload_len read_payload encode_header decode_header
    encode_command decode_command append_payload cut_payload encode_cmd_submit_arm
    encode_ret_submit_arm decode_cmd_submit_arm decode_ret_submit_arm encode_basic decode_basic
    encode_cmd_submit decode_cmd_submit encode_ret_submit decode_ret_submit of_cmd_submit
    as_cmd_submit of_ret_submit as_ret_submit be32 be16 u32_of u16_of urb_bytes
seqnum_wraps_at_u32_max_passes = refl

abbrev sequence_number_increments : Bool
sequence_number_increments =
    with_session (λ session. numbers_from 0 session)
      (connected full_handshake_server server_only-all_bytes)

sequence_number_increments_passes : sequence_number_increments ≡ true
unfolding connected connect import_device attempt_loop attempt_step settle do_handshake exchange
    make_import_request busid_array encode_op_req_import decode_op_rep_import send_header
    recv_header recv_header_inner payload_len read_payload encode_header decode_header
    encode_command decode_command append_payload cut_payload encode_cmd_submit_arm
    encode_ret_submit_arm decode_cmd_submit_arm decode_ret_submit_arm encode_basic decode_basic
    encode_cmd_submit decode_cmd_submit encode_ret_submit decode_ret_submit of_cmd_submit
    as_cmd_submit of_ret_submit as_ret_submit be32 be16 u32_of u16_of urb_bytes
sequence_number_increments_passes = refl

-- `b"garbage_bytes_not_a_header"`.
abbrev garbage : List ℕ
garbage =
    0x67 ∷ 0x61 ∷ 0x72 ∷ 0x62 ∷ 0x61 ∷ 0x67 ∷ 0x65 ∷ 0x5f ∷ 0x62 ∷ 0x79 ∷ 0x74 ∷ 0x65 ∷ 0x73 ∷ 0x5f
    ∷ 0x6e ∷ 0x6f ∷ 0x74 ∷ 0x5f ∷ 0x61 ∷ 0x5f ∷ 0x68 ∷ 0x65 ∷ 0x61 ∷ 0x64 ∷ 0x65 ∷ 0x72 ∷ []

abbrev garbage_behind : List ℕ
garbage_behind = full_handshake_server ++ garbage

garbage_behind-all_bytes : all_bytes garbage_behind ≡ true
garbage_behind-all_bytes = refl

abbrev recv_header_malformed_data : Bool
recv_header_malformed_data =
    with_session (λ session. not (holds (λ _. true) (recv_header plain_tcp session).1))
      (connected garbage_behind garbage_behind-all_bytes)

recv_header_malformed_data_passes : recv_header_malformed_data ≡ true
unfolding connected connect import_device attempt_loop attempt_step settle do_handshake exchange
    make_import_request busid_array encode_op_req_import decode_op_rep_import send_header
    recv_header recv_header_inner payload_len read_payload encode_header decode_header
    encode_command decode_command append_payload cut_payload encode_cmd_submit_arm
    encode_ret_submit_arm decode_cmd_submit_arm decode_ret_submit_arm encode_basic decode_basic
    encode_cmd_submit decode_cmd_submit encode_ret_submit decode_ret_submit of_cmd_submit
    as_cmd_submit of_ret_submit as_ret_submit be32 be16 u32_of u16_of urb_bytes
recv_header_malformed_data_passes = refl
