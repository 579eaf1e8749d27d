-- ===== src/Runs/RegisteringRuns.antt =====
-- The bus id "1-1.2.3" of the tests' reply, from the request to the registry.
use Prim.Native.String.{String}
use text.Mathlib.TextEquality.{eq_iff}
use easy_usb.Base.{◌≡◌, refl, ok, some, true, [], ◌∷◌, ◌++◌, All, All-append, arith}
use easy_usb.Bytes.Words.{IsByte, be32}
use easy_usb.PlainBytes.{plain_bytes}
use easy_usb.PlainTcp.{Pipe, plain_tcp}
use easy_usb.Wire.{OpReqImport}
use easy_usb.Codec.Import.Layout.{ReqIsValid, req_bytes, rep_bytes}
use easy_usb.Device.{descriptor_from}
use easy_usb.Port.{UsbDevice, device_from}
use easy_usb.Strings.{as_bytes, trim_end_nul, from_utf8_lossy}
use easy_usb.Strings.Chars.{char_of}
use easy_usb.Strings.Validity.{as_bytes-IsByte}
use easy_usb.Handshake.{connects, busid_array, exchange, import_device, make_import_request}
use easy_usb.Handshake.Exchanging.{exchange-written}
use easy_usb.Registry.{forwarded, empty_snapshot}
use easy_usb.Registry.MapLaws.{listed}
use easy_usb.Registry.Invariant.{IsConsistent, empty-IsConsistent}
use easy_usb.Registry.Forwarding.{forward_new}
use easy_usb.Server.{accept_device, read_request, send_op_rep_import}
use easy_usb.Server.Accepting.{make_import_request-IsValid, send_op_rep_import-Leaves}
use easy_usb.Exchange.Registering.{IsBusId, import_device-forward_new}
use easy_usb.Runs.Fixtures.{reply_ok}
use easy_usb.Runs.ImportRuns.{reply_IsValid, reply_IsUsable, at_client}

abbrev pub bus : String
bus = "1-1.2.3"

pub bus-IsBusId : IsBusId bus
unfolding as_bytes trim_end_nul
bus-IsBusId = record {
  named = ground (arith, eq_iff "1-1.2.3" "");
  trimmed = refl;
  short = omega arith;
}

abbrev pub request : OpReqImport
request = make_import_request (as_bytes bus) 0

request_IsValid : ReqIsValid request
request_IsValid = make_import_request-IsValid (as_bytes bus) 0 (as_bytes-IsByte bus)

pub request-IsByte : All IsByte (req_bytes request)
unfolding req_bytes be32
request-IsByte =
    All-append IsByte (be32 request.status) (request.path ++ request.busid) (omega arith) (
      All-append IsByte request.path request.busid request_IsValid.path_bytes
        request_IsValid.busid_bytes)

abbrev at_server : Pipe
at_server = record { unread = req_bytes request; unread_bytes = request-IsByte; sent = [] }

abbrev taken : Pipe
taken = (read_request plain_tcp at_server).0

replied : (send_op_rep_import plain_tcp reply_ok taken).0.sent ≡ taken.sent ++ rep_bytes reply_ok
replied =
    (send_op_rep_import-Leaves plain_tcp reply_ok taken.unread taken reply_IsValid tt refl).wrote

same_bus : reply_ok.busid ≡ busid_array (as_bytes bus)
unfolding busid_array as_bytes
same_bus = refl

abbrev device : UsbDevice
device = device_from (descriptor_from reply_ok)

import_device-forward_new_example :
    (accept_device plain_tcp (ok at_server) ≡ ok (taken, request))
    × (import_device plain_tcp (λ _. connects (ok at_client)) (as_bytes bus) 0
        ≡ ok ((exchange plain_tcp request at_client).0, reply_ok))
    × (device.busid ≡ bus)
    × IsConsistent (forward_new device bus "s" empty_snapshot)
    × ((forward_new device bus "s" empty_snapshot).devices bus
        ≡ some (record { device = device; state = forwarded "s" }))
    × (listed (forward_new device bus "s" empty_snapshot).forwardings "s" bus ≡ true)
import_device-forward_new_example =
    import_device-forward_new plain_tcp bus 0 reply_ok at_client at_server "s" empty_snapshot
      bus-IsBusId reply_IsValid reply_IsUsable same_bus tt tt empty-IsConsistent refl
      (exchange-written plain_tcp request at_client tt) replied

-- A character cut short and a byte that begins none are replaced, each once.
replaced : from_utf8_lossy (0x41 ∷ 0xe2 ∷ 0x82 ∷ 0x42 ∷ 0xff ∷ 0xc3 ∷ []) ≡ "A�B��"
unfolding from_utf8_lossy char_of
replaced = refl
