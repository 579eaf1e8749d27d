-- ===== src/Runs/AcceptTests.antt =====
-- Tests of crates/easy-usb-core/src/protocol/server.rs on the model: accepting a client.
use easy_usb.Base.{
  ℕ, ◌≡◌, refl, Bool, true, false, ◌&&◌, List, [], ◌∷◌, Result, ok, err, take, drop, ◌==◌,
}
use easy_usb.Bytes.Words.{be32, be16, u32_of, u16_of}
use easy_usb.PlainBytes.{plain_bytes}
use easy_usb.PlainTcp.{Pipe, plain_tcp}
use easy_usb.Wire.{OpReqImport}
use easy_usb.Codec.Import.{
  encode_op_req_import, decode_op_req_import, encode_op_rep_import, decode_op_rep_import,
}
use easy_usb.Handshake.{busid_array}
use easy_usb.Server.{AcceptError, invalid_request, read_request, accept_device, send_op_rep_import}
use easy_usb.Server.Utf8.{is_utf8}
use easy_usb.Runs.Fixtures.{bus_1_1_2_3, reply_ok}
use easy_usb.Runs.Outcomes.{same_bytes}
use easy_usb.Runs.Serving.{all_bytes, client_wrote, make_op_req_import, request_bytes, or_nil}

abbrev Accepted : Type 0
Accepted = Result AcceptError (Pipe × OpReqImport)

abbrev asks_for : List ℕ → Accepted → Bool
asks_for bus (ok (s, req)) = same_bytes (take 7 req.busid) bus
asks_for bus (err e) = false

abbrev is_invalid_request : Accepted → Bool
is_invalid_request (err (invalid_request _)) = true
is_invalid_request _ = false

abbrev is_refused : Accepted → Bool
is_refused (ok _) = false
is_refused (err e) = true

abbrev named_bytes : List ℕ
named_bytes = request_bytes bus_1_1_2_3

named_bytes-all_bytes : all_bytes named_bytes ≡ true
unfolding make_op_req_import request_bytes busid_array encode_op_req_import decode_op_req_import
    read_request accept_device is_utf8 be32 be16 u32_of u16_of
named_bytes-all_bytes = refl

abbrev unnamed_bytes : List ℕ
unnamed_bytes = request_bytes []

unnamed_bytes-all_bytes : all_bytes unnamed_bytes ≡ true
unfolding make_op_req_import request_bytes busid_array encode_op_req_import decode_op_req_import
    read_request accept_device is_utf8 be32 be16 u32_of u16_of
unnamed_bytes-all_bytes = refl

-- The request for "1-1" with another first byte of the bus id.
abbrev broken_request : OpReqImport
broken_request = record (make_op_req_import (0x31 ∷ 0x2d ∷ 0x31 ∷ [])) {
  busid = 0xff ∷ drop 1 (make_op_req_import (0x31 ∷ 0x2d ∷ 0x31 ∷ [])).busid;
}

abbrev broken_bytes : List ℕ
broken_bytes = or_nil (encode_op_req_import broken_request)

broken_bytes-all_bytes : all_bytes broken_bytes ≡ true
unfolding make_op_req_import request_bytes busid_array encode_op_req_import decode_op_req_import
    read_request accept_device is_utf8 be32 be16 u32_of u16_of
broken_bytes-all_bytes = refl

-- `b"too_short"`.
abbrev too_short : List ℕ
too_short = 0x74 ∷ 0x6f ∷ 0x6f ∷ 0x5f ∷ 0x73 ∷ 0x68 ∷ 0x6f ∷ 0x72 ∷ 0x74 ∷ []

abbrev accept_device_receives_op_req_import : Bool
accept_device_receives_op_req_import =
    asks_for bus_1_1_2_3
      (accept_device plain_tcp (ok (client_wrote named_bytes named_bytes-all_bytes)))

accept_device_receives_op_req_import_passes : accept_device_receives_op_req_import ≡ true
unfolding make_op_req_import request_bytes busid_array encode_op_req_import decode_op_req_import
    read_request accept_device is_utf8 be32 be16 u32_of u16_of
accept_device_receives_op_req_import_passes = refl

abbrev accept_device_rejects_empty_busid : Bool
accept_device_rejects_empty_busid =
    is_invalid_request
      (accept_device plain_tcp (ok (client_wrote unnamed_bytes unnamed_bytes-all_bytes)))

accept_device_rejects_empty_busid_passes : accept_device_rejects_empty_busid ≡ true
unfolding make_op_req_import request_bytes busid_array encode_op_req_import decode_op_req_import
    read_request accept_device is_utf8 be32 be16 u32_of u16_of
accept_device_rejects_empty_busid_passes = refl

abbrev accept_device_rejects_non_utf8_busid : Bool
accept_device_rejects_non_utf8_busid =
    is_invalid_request
      (accept_device plain_tcp (ok (client_wrote broken_bytes broken_bytes-all_bytes)))

accept_device_rejects_non_utf8_busid_passes : accept_device_rejects_non_utf8_busid ≡ true
unfolding make_op_req_import request_bytes busid_array encode_op_req_import decode_op_req_import
    read_request accept_device is_utf8 be32 be16 u32_of u16_of
accept_device_rejects_non_utf8_busid_passes = refl

abbrev accept_device_rejects_truncated_request : Bool
accept_device_rejects_truncated_request =
    is_refused (accept_device plain_tcp (ok (client_wrote too_short refl)))

accept_device_rejects_truncated_request_passes : accept_device_rejects_truncated_request ≡ true
unfolding make_op_req_import request_bytes busid_array encode_op_req_import decode_op_req_import
    read_request accept_device is_utf8 be32 be16 u32_of u16_of
accept_device_rejects_truncated_request_passes = refl

-- The client's side: the reply that it decodes.
abbrev got_reply : Accepted → Bool
got_reply (err e) = false
got_reply (ok (s, req)) =
    elim (decode_op_rep_import (take 316 (send_op_rep_import plain_tcp reply_ok s).0.sent)) [
      | err e ↦ false
      | ok decoded ↦ (decoded.status == 0) && (decoded.busnum == 1) && (decoded.devnum == 3)
    ]

abbrev send_op_rep_import_writes_reply : Bool
send_op_rep_import_writes_reply =
    got_reply (accept_device plain_tcp (ok (client_wrote named_bytes named_bytes-all_bytes)))

send_op_rep_import_writes_reply_passes : send_op_rep_import_writes_reply ≡ true
unfolding make_op_req_import request_bytes busid_array encode_op_req_import decode_op_req_import
    read_request accept_device is_utf8 be32 be16 u32_of u16_of send_op_rep_import
    encode_op_rep_import decode_op_rep_import
send_op_rep_import_writes_reply_passes = refl
