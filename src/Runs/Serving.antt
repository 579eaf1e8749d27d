-- ===== src/Runs/Serving.antt =====
-- What the tests of crates/easy-usb-core/src/protocol/server.rs are made of: a client that has written its
-- bytes, on the plain connection, and the server that runs on them.
use easy_usb.Base.{
  ℕ, ◌≡◌, Bool, true, false, ◌&&◌, List, [], ◌∷◌, ◌++◌, Option, none, some, Result, ok, err,
  replicate, drop, All, arith, ltb,
}
use easy_usb.Bytes.Words.{IsByte}
use easy_usb.PlainBytes.{plain_bytes}
use easy_usb.PlainTcp.{Pipe, plain_tcp}
use easy_usb.Wire.{OpReqImport}
use easy_usb.Wire.Header.{UsbipHeader}
use easy_usb.Codec.{ProtocolError}
use easy_usb.Codec.Header.{encode_header, decode_header}
use easy_usb.Codec.Import.{encode_op_req_import}
use easy_usb.Handshake.{path_prefix, busid_array}
use easy_usb.Server.{AcceptError, accept_device, send_op_rep_import, serve_urb_echo}
use easy_usb.Runs.Fixtures.{reply_ok}

abbrev pub all_bytes : List ℕ → Bool
all_bytes [] = true
all_bytes (b ∷ bs) = ltb b 256 && all_bytes bs

pub all_bytes-IsByte : (bs : List ℕ) → all_bytes bs ≡ true → All IsByte bs
all_bytes-IsByte [] h = tt
all_bytes-IsByte (b ∷ bs) h = (ground (arith, h), all_bytes-IsByte bs (ground (arith, h)))

-- The server's end of a connection on which the client has written some bytes.
abbrev pub client_wrote : (bytes : List ℕ) → all_bytes bytes ≡ true → Pipe
client_wrote bytes h = record { unread = bytes; unread_bytes = all_bytes-IsByte bytes h; sent = [] }

unfoldable pub make_op_req_import : List ℕ → OpReqImport
make_op_req_import busid = record {
  status = 0x0111;
  path = path_prefix ++ replicate 233 0;
  busid = busid_array busid;
}

-- `unwrap` on what an encoder returned.
abbrev pub or_nil : {E : Type 0} → Result E (List ℕ) → List ℕ
or_nil (ok bytes) = bytes
or_nil (err e) = []

unfoldable pub request_bytes : List ℕ → List ℕ
request_bytes busid = or_nil (encode_op_req_import (make_op_req_import busid))

unfoldable pub urb_bytes : UsbipHeader → Option (List ℕ) → List ℕ
urb_bytes header payload = or_nil (encode_header header payload)

-- The server's task in the tests: accept, reply, echo one URB. None where an `unwrap` would panic.
abbrev pub then_echo :
    Pipe × Result ProtocolError (Unit {0}) → Option (Pipe × Result ProtocolError UsbipHeader)
then_echo (s, ok _) = some (serve_urb_echo plain_tcp s)
then_echo (s, err e) = none

abbrev pub then_reply :
    Result AcceptError (Pipe × OpReqImport) → Option (Pipe × Result ProtocolError UsbipHeader)
then_reply (ok (s, req)) = then_echo (send_op_rep_import plain_tcp reply_ok s)
then_reply (err e) = none

unfoldable pub echo_server : Pipe → Option (Pipe × Result ProtocolError UsbipHeader)
echo_server s = then_reply (accept_device plain_tcp (ok s))

-- What the client makes of the bytes behind the reply, and the server's result.
abbrev pub served_and :
    (UsbipHeader × Option (List ℕ) → Bool) → Option (Pipe × Result ProtocolError UsbipHeader) → Bool
served_and p none = false
served_and p (some (s, err e)) = false
served_and p (some (s, ok h)) = elim (decode_header (drop 316 s.sent)) [
  | err e ↦ false
  | ok out ↦ p out
]
