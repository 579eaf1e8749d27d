-- ===== src/Runs/HandshakeTests.antt =====
-- Tests of crates/easy-usb-core/src/protocol/handshake.rs on the model: what `import_device` gives for the
-- servers of the tests, on the plain connection.
use easy_usb.Base.{
  ℕ, ◌≡◌, refl, Bool, true, false, ◌&&◌, List, [], ◌∷◌, Result, ok, err, lit, arith, ◌==◌,
}
use easy_usb.Bytes.Words.{be32, be16, u32_of, u16_of, IsByte}
use easy_usb.PlainBytes.{plain_bytes}
use easy_usb.PlainTcp.{Pipe, plain_tcp}
use easy_usb.Wire.{OpRepImport}
use easy_usb.Codec.Import.{encode_op_req_import, decode_op_rep_import}
use easy_usb.Handshake.{
  HandshakeError, server_rejected, max_retries_exceeded, invalid_reply, elapsed, connects,
  import_device, attempt_loop, attempt_step, settle, do_handshake, exchange, make_import_request,
  busid_array,
}
use easy_usb.Runs.Fixtures.{bus_1_1_2_3, reply_bytes_of, reply_bytes_of-IsByte}

abbrev bus_1_1 : List ℕ
bus_1_1 = 0x31 ∷ 0x2d ∷ 0x31 ∷ []

abbrev Imported : Type 0
Imported = Result HandshakeError (Pipe × OpRepImport)

-- A server that sends a reply of a status and two numbers, with the speed 3; `make_rep_import`.
abbrev replying : (status busnum devnum : ℕ) → IsByte status → IsByte busnum → IsByte devnum → Pipe
replying status busnum devnum a b c = record {
  unread = reply_bytes_of status busnum devnum 3;
  unread_bytes = reply_bytes_of-IsByte status busnum devnum 3 a b c (omega arith);
  sent = [];
}

abbrev handshake_server_ok : Pipe
handshake_server_ok = replying 0 1 3 (omega arith) (omega arith) (omega arith)

abbrev handshake_server_reject : Pipe
handshake_server_reject = replying 1 1 3 (omega arith) (omega arith) (omega arith)

abbrev handshake_server_invalid : Pipe
handshake_server_invalid = replying 0 0 0 (omega arith) (omega arith) (omega arith)

-- A server that closes the connection without a reply.
abbrev handshake_server_repeat_no_reply : Pipe
handshake_server_repeat_no_reply = record { unread = []; unread_bytes = tt; sent = [] }

abbrev gives_up : Imported → Bool
gives_up (err (max_retries_exceeded n)) = n == 3
gives_up _ = false

abbrev is_rejected : Imported → Bool
is_rejected (err (server_rejected status)) = status == 1
is_rejected _ = false

abbrev is_invalid : Imported → Bool
is_invalid (err (invalid_reply _)) = true
is_invalid _ = false

abbrev is_reply : Imported → Bool
is_reply (ok (s, result)) =
    (result.status == 0)
    && (result.busnum == 1)
    && (result.devnum == 3)
    && (result.speed == 3)
    && (result.id_vendor == 0x1234)
    && (result.id_product == 0x5678)
is_reply (err _) = false

abbrev successful_handshake : Bool
successful_handshake =
    is_reply (import_device plain_tcp (λ _. connects (ok handshake_server_ok)) bus_1_1_2_3 3)

successful_handshake_passes : successful_handshake ≡ true
unfolding import_device attempt_loop attempt_step settle do_handshake exchange make_import_request
    busid_array encode_op_req_import decode_op_rep_import be32 be16 u32_of u16_of
successful_handshake_passes = refl

abbrev server_rejection : Bool
server_rejection =
    is_rejected (import_device plain_tcp (λ _. connects (ok handshake_server_reject)) bus_1_1_2_3 3)

server_rejection_passes : server_rejection ≡ true
unfolding import_device attempt_loop attempt_step settle do_handshake exchange make_import_request
    busid_array encode_op_req_import decode_op_rep_import be32 be16 u32_of u16_of
server_rejection_passes = refl

abbrev connect_timeout : Bool
connect_timeout = gives_up (import_device plain_tcp (λ _. elapsed) bus_1_1 1)

connect_timeout_passes : connect_timeout ≡ true
unfolding import_device attempt_loop attempt_step settle do_handshake exchange make_import_request
    busid_array encode_op_req_import decode_op_rep_import be32 be16 u32_of u16_of
connect_timeout_passes = refl

abbrev handshake_timeout : Bool
handshake_timeout = gives_up (import_device plain_tcp (λ _. elapsed) bus_1_1_2_3 3)

handshake_timeout_passes : handshake_timeout ≡ true
unfolding import_device attempt_loop attempt_step settle do_handshake exchange make_import_request
    busid_array encode_op_req_import decode_op_rep_import be32 be16 u32_of u16_of
handshake_timeout_passes = refl

-- `max_retries_exceeded`.
abbrev retries_run_out : Bool
retries_run_out =
    gives_up
      (import_device plain_tcp (λ _. connects (ok handshake_server_repeat_no_reply)) bus_1_1 1)

retries_run_out_passes : retries_run_out ≡ true
unfolding import_device attempt_loop attempt_step settle do_handshake exchange make_import_request
    busid_array encode_op_req_import decode_op_rep_import be32 be16 u32_of u16_of
retries_run_out_passes = refl

abbrev invalid_reply_zero_ids : Bool
invalid_reply_zero_ids =
    is_invalid (import_device plain_tcp (λ _. connects (ok handshake_server_invalid)) bus_1_1_2_3 3)

invalid_reply_zero_ids_passes : invalid_reply_zero_ids ≡ true
unfolding import_device attempt_loop attempt_step settle do_handshake exchange make_import_request
    busid_array encode_op_req_import decode_op_rep_import be32 be16 u32_of u16_of
invalid_reply_zero_ids_passes = refl

abbrev connection_refused : Bool
connection_refused =
    gives_up
      (import_device plain_tcp (λ _. connects (err (lit "Connection refused" ∷ []))) bus_1_1 1)

connection_refused_passes : connection_refused ≡ true
unfolding import_device attempt_loop attempt_step settle do_handshake exchange make_import_request
    busid_array encode_op_req_import decode_op_rep_import be32 be16 u32_of u16_of
connection_refused_passes = refl
