-- ===== src/Runs/ImportRuns.antt =====
-- The import handshake on the plain bytes and the plain connection.
use easy_usb.Base.{
  ◌≡◌, refl, ℕ, List, [], ◌∷◌, ◌++◌, ok, err, lit, All, All-append, All-replicate, arith, length,
  take, replicate, false, true, sym, append-nil,
}
use easy_usb.Bytes.Words.{IsByte, be32, be16}
use easy_usb.PlainBytes.{plain_bytes}
use easy_usb.PlainTcp.{Pipe, plain_tcp}
use easy_usb.Wire.{OpReqImport}
use easy_usb.Codec.Import.{
  encode_op_req_import, encode_op_rep_import, decode_op_req_import, decode_op_rep_import,
}
use easy_usb.Codec.Import.Layout.{ReqIsValid, RepIsValid, req_bytes, rep_bytes}
use easy_usb.Codec.Import.RoundTrip.{
  decode_op_req_import-encode_op_req_import, decode_op_rep_import-encode_op_rep_import,
  decode_req_exact, decode_rep_exact,
}
use easy_usb.Codec.Import.Sound.{
  encode_op_req_import-decode_op_req_import, encode_op_rep_import-decode_op_rep_import,
}
use easy_usb.Handshake.{connects, exchange, import_device, make_import_request}
use easy_usb.Handshake.Retries.{IsUsable}
use easy_usb.Server.{
  invalid_request, accept_device, with_peer, read_request, send_op_rep_import, all_zero,
}
use easy_usb.Server.Utf8.{is_utf8}
use easy_usb.Server.Accepting.{
  verdict, accept_device-verdict, make_import_request-IsValid, send_op_rep_import-Leaves,
}
use easy_usb.Handshake.Exchanging.{exchange-written}
use easy_usb.Server.Accepted.{Accepts, accept_device-Accepts}
use easy_usb.Exchange.LongBus.{accept_device-cut}
use easy_usb.Exchange.Import.{import_handshake}
use easy_usb.Runs.Fixtures.{bus_1_1_2_3, reply_bytes_of, reply_bytes_of-IsByte, reply_ok}

-- The bus id "1-1", and the request for it.
abbrev bus_1_1 : List ℕ
bus_1_1 = 0x31 ∷ 0x2d ∷ 0x31 ∷ []

abbrev request_1_1 : OpReqImport
request_1_1 = make_import_request bus_1_1 0

request_IsValid : ReqIsValid request_1_1
request_IsValid = make_import_request-IsValid bus_1_1 0 (omega arith)

zeros_IsByte : (n : ℕ) → All IsByte (replicate n 0)
zeros_IsByte n = All-replicate IsByte n 0 (omega arith)

pub reply_IsValid : RepIsValid reply_ok
reply_IsValid = record {
  status = omega arith;
  path_length = refl;
  path_bytes = zeros_IsByte 256;
  busid_length = refl;
  busid_bytes = All-append IsByte bus_1_1_2_3 (replicate 25 0) (omega arith) (zeros_IsByte 25);
  busnum = omega arith;
  devnum = omega arith;
  speed = omega arith;
  id_vendor = omega arith;
  id_product = omega arith;
  bcd_device = omega arith;
  b_device_class = omega arith;
  b_device_sub_class = omega arith;
  b_device_protocol = omega arith;
  b_configuration_value = omega arith;
  b_num_configurations = omega arith;
  b_num_interfaces = omega arith;
}

pub reply_IsUsable : IsUsable reply_ok
reply_IsUsable = record { status = refl; busnum = omega arith; devnum = omega arith }

rep_bytes-reply_ok : rep_bytes reply_ok ≡ reply_bytes_of 0 1 3 3
unfolding rep_bytes be32 be16
rep_bytes-reply_ok = refl

pub rep_bytes-IsByte : All IsByte (rep_bytes reply_ok)
rep_bytes-IsByte =
    rw rep_bytes-reply_ok
      (reply_bytes_of-IsByte 0 1 3 3 (omega arith) (omega arith) (omega arith) (omega arith))

req_bytes-IsByte : All IsByte (req_bytes request_1_1)
unfolding req_bytes be32
req_bytes-IsByte =
    All-append IsByte (be32 request_1_1.status) (request_1_1.path ++ request_1_1.busid)
      (omega arith)
      (All-append IsByte request_1_1.path request_1_1.busid request_IsValid.path_bytes
        request_IsValid.busid_bytes)

decode_op_req_import-encode_op_req_import_example :
    (buf : List ℕ) × (encode_op_req_import request_1_1 ≡ ok buf)
    × (length buf ≡ 292)
    × (decode_op_req_import (buf ++ (7 ∷ [])) ≡ ok request_1_1)
decode_op_req_import-encode_op_req_import_example =
    decode_op_req_import-encode_op_req_import request_1_1 (7 ∷ []) request_IsValid

decode_op_rep_import-encode_op_rep_import_example :
    (buf : List ℕ) × (encode_op_rep_import reply_ok ≡ ok buf)
    × (length buf ≡ 316)
    × (decode_op_rep_import (buf ++ (7 ∷ [])) ≡ ok reply_ok)
decode_op_rep_import-encode_op_rep_import_example =
    decode_op_rep_import-encode_op_rep_import reply_ok (7 ∷ []) reply_IsValid

req_decoded : decode_op_req_import (req_bytes request_1_1) ≡ ok request_1_1
req_decoded = (decode_req_exact request_1_1 request_IsValid).1

encode_op_req_import-decode_op_req_import_example :
    ReqIsValid request_1_1
    × (encode_op_req_import request_1_1 ≡ ok (take 292 (req_bytes request_1_1)))
encode_op_req_import-decode_op_req_import_example =
    encode_op_req_import-decode_op_req_import (req_bytes request_1_1) request_1_1 req_bytes-IsByte
      req_decoded

rep_decoded : decode_op_rep_import (rep_bytes reply_ok) ≡ ok reply_ok
rep_decoded = (decode_rep_exact reply_ok reply_IsValid).1

encode_op_rep_import-decode_op_rep_import_example :
    RepIsValid reply_ok × (encode_op_rep_import reply_ok ≡ ok (take 316 (rep_bytes reply_ok)))
encode_op_rep_import-decode_op_rep_import_example =
    encode_op_rep_import-decode_op_rep_import (rep_bytes reply_ok) reply_ok rep_bytes-IsByte
      rep_decoded

-- The two ends of one connection: what each has to read is what the other writes.
abbrev pub at_client : Pipe
at_client = record { unread = rep_bytes reply_ok; unread_bytes = rep_bytes-IsByte; sent = [] }

abbrev at_server : Pipe
at_server = record { unread = req_bytes request_1_1; unread_bytes = req_bytes-IsByte; sent = [] }

at_server_end : at_server.unread ≡ req_bytes request_1_1 ++ []
at_server_end = sym (append-nil (req_bytes request_1_1))

accept_device-verdict_example :
    let taken = (read_request plain_tcp at_server).0 in
    (accept_device plain_tcp (ok at_server) ≡ with_peer plain_tcp (taken, verdict request_1_1))
    × (taken.unread ≡ [])
    × (taken.sent ≡ [])
    × Unit {0}
accept_device-verdict_example =
    accept_device-verdict plain_tcp request_1_1 [] at_server request_IsValid tt at_server_end

abbrev taken_1_1 : Pipe
taken_1_1 = (read_request plain_tcp at_server).0

replied :
    (send_op_rep_import plain_tcp reply_ok taken_1_1).0.sent ≡ taken_1_1.sent ++ rep_bytes reply_ok
replied =
    (send_op_rep_import-Leaves plain_tcp reply_ok taken_1_1.unread taken_1_1 reply_IsValid tt
      refl).wrote

bus_1_1_named : all_zero bus_1_1 ≡ false
bus_1_1_named = refl

bus_1_1_text : is_utf8 bus_1_1 ≡ true
unfolding is_utf8
bus_1_1_text = refl

import_handshake_example :
    let client = (exchange plain_tcp request_1_1 at_client).0 in
    (accept_device plain_tcp (ok at_server) ≡ ok (taken_1_1, request_1_1))
    × (taken_1_1.unread ≡ [])
    × (import_device plain_tcp (λ _. connects (ok at_client)) bus_1_1 0 ≡ ok (client, reply_ok))
    × (client.unread ≡ [])
    × Unit {0}
import_handshake_example =
    import_handshake plain_tcp bus_1_1 0 reply_ok at_client at_server (omega arith) (omega arith)
      bus_1_1_named bus_1_1_text reply_IsValid reply_IsUsable tt tt
      (exchange-written plain_tcp request_1_1 at_client tt) replied

accepted_1_1 : accept_device plain_tcp (ok at_server) ≡ ok (taken_1_1, request_1_1)
accepted_1_1 =
    let (accepted, _, _, _, _) =
      import_handshake plain_tcp bus_1_1 0 reply_ok at_client at_server (omega arith) (omega arith)
        bus_1_1_named bus_1_1_text reply_IsValid reply_IsUsable tt tt
        (exchange-written plain_tcp request_1_1 at_client tt) replied in
    accepted

accept_device-Accepts_example : Accepts plain_tcp at_server taken_1_1 request_1_1
accept_device-Accepts_example =
    accept_device-Accepts plain_tcp at_server taken_1_1 request_1_1 accepted_1_1

-- A bus id of 33 bytes: 31 letters, and "é".
abbrev long_bus : List ℕ
long_bus = replicate 31 0x61 ++ (0xc3 ∷ 0xa9 ∷ [])

long_bus-IsByte : All IsByte long_bus
long_bus-IsByte = omega arith

long_bus_cut : is_utf8 (take 32 long_bus) ≡ false
unfolding is_utf8
long_bus_cut = refl

abbrev long_request : OpReqImport
long_request = make_import_request long_bus 0

long_IsValid : ReqIsValid long_request
long_IsValid = make_import_request-IsValid long_bus 0 long_bus-IsByte

long_bytes-IsByte : All IsByte (req_bytes long_request)
unfolding req_bytes be32
long_bytes-IsByte =
    All-append IsByte (be32 long_request.status) (long_request.path ++ long_request.busid)
      (omega arith)
      (All-append IsByte long_request.path long_request.busid long_IsValid.path_bytes
        long_IsValid.busid_bytes)

abbrev long_server : Pipe
long_server = record {
  unread = req_bytes long_request;
  unread_bytes = long_bytes-IsByte;
  sent = [];
}

accept_device-cut_example :
    (long_request ≡ make_import_request (take 32 long_bus) 0)
    × (accept_device plain_tcp (ok long_server)
        ≡ err (invalid_request (lit "non-UTF-8 busid" ∷ [])))
accept_device-cut_example =
    accept_device-cut plain_tcp long_bus 0 [] long_server (omega arith) long_bus-IsByte refl
      long_bus_cut tt (sym (append-nil (req_bytes long_request)))
