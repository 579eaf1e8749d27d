-- ===== src/Runs/ConnectionRuns.antt =====
-- A whole connection on the plain implementation: the import of "1-1.2.3", a SUBMIT and an UNLINK.
use mathlib.Core.List.{map}
use easy_usb.Base.{◌≡◌, refl, sym, ◌∙◌, append-nil, ok, [], ◌++◌, All-append}
use easy_usb.Bytes.Words.{IsByte}
use easy_usb.PlainBytes.{plain_bytes}
use easy_usb.PlainTcp.{Pipe, plain_tcp}
use easy_usb.Codec.Import.Layout.{req_bytes, rep_bytes}
use easy_usb.Strings.{as_bytes}
use easy_usb.Handshake.{connects}
use easy_usb.Handshake.Exchanging.{exchange-written}
use easy_usb.Net.Leaves.{Leaves}
use easy_usb.Net.Loops.{repeat_io-Leaves}
use easy_usb.Session.{connect}
use easy_usb.Server.{accept_device, send_op_rep_import, serve_urb_echo}
use easy_usb.Server.Accepting.{
  accept_device-verdict, send_op_rep_import-Leaves, make_import_request-IsValid,
}
use easy_usb.Server.Contract.{urb_message, answer_of, IsServable}
use easy_usb.Exchange.Pipeline.Round.{head_of, answer_message}
use easy_usb.Exchange.Pipeline.Sent.{send_all-Sends}
use easy_usb.Exchange.Pipeline.Served.{serve_urb_echo-answer_of}
use easy_usb.Exchange.Connection.{
  imported, session, sent as sent_by, accepted, replied, served, received, whole_connection,
}
use easy_usb.Strings.Validity.{as_bytes-IsByte}
use easy_usb.Runs.Fixtures.{reply_ok}
use easy_usb.Runs.ImportRuns.{reply_IsValid, reply_IsUsable, rep_bytes-IsByte}
use easy_usb.Runs.RegisteringRuns.{bus, bus-IsBusId, request, request-IsByte}
use easy_usb.Runs.PipelineRuns.{
  urbs, requests, requests-IsServable, sent, sent-IsByte, answered, answered-IsByte,
}

abbrev client : Pipe
client = record {
  unread = rep_bytes reply_ok ++ answered;
  unread_bytes = All-append IsByte (rep_bytes reply_ok) answered rep_bytes-IsByte answered-IsByte;
  sent = [];
}

abbrev server : Pipe
server = record {
  unread = req_bytes request ++ sent;
  unread_bytes = All-append IsByte (req_bytes request) sent request-IsByte sent-IsByte;
  sent = [];
}

abbrev at_import : Pipe
at_import = imported plain_tcp bus 0 reply_ok urbs client server

abbrev at_accept : Pipe
at_accept = accepted plain_tcp bus 0 reply_ok urbs client server

abbrev at_reply : Pipe
at_reply = replied plain_tcp bus 0 reply_ok urbs client server

urbs_left : at_accept.unread ≡ sent
urbs_left =
    let (_, left, _, _) =
      accept_device-verdict plain_tcp request sent server
        (make_import_request-IsValid (as_bytes bus) 0 (as_bytes-IsByte bus)) tt refl in
    left

reply_sent :
    Leaves plain_tcp
      (send_op_rep_import plain_tcp reply_ok at_accept)
      tt
      sent
      (at_accept.sent ++ rep_bytes reply_ok)
reply_sent = send_op_rep_import-Leaves plain_tcp reply_ok sent at_accept reply_IsValid tt urbs_left

urbs_sent :
    (sent_by plain_tcp bus 0 reply_ok urbs client server).0.stream.sent ≡ at_import.sent ++ sent
urbs_sent =
    (send_all-Sends plain_tcp urbs (session plain_tcp bus 0 reply_ok urbs client server) refl tt
      requests-IsServable).wrote

urbs_answered :
    (served plain_tcp bus 0 reply_ok urbs client server).0.sent ≡ at_reply.sent ++ answered
urbs_answered =
    (repeat_io-Leaves plain_tcp (serve_urb_echo plain_tcp) urb_message answer_message head_of
      IsServable (serve_urb_echo-answer_of plain_tcp) 2 requests [] at_reply refl
      requests-IsServable tt (reply_sent.left ∙ sym (append-nil sent))).wrote

whole_connection_example :
    let received_by = received plain_tcp bus 0 reply_ok urbs client server in
    let served_by = served plain_tcp bus 0 reply_ok urbs client server in
    (accept_device plain_tcp (ok server) ≡ ok (at_accept, request))
    × (connect plain_tcp (λ _. connects (ok client)) (ok tt) (as_bytes bus) 0
        ≡ ok (session plain_tcp bus 0 reply_ok urbs client server))
    × ((sent_by plain_tcp bus 0 reply_ok urbs client server).1 ≡ ok tt)
    × (served_by.1 ≡ ok (map head_of requests))
    × (received_by.1 ≡ ok (map answer_of requests))
    × (served_by.0.unread ≡ [])
    × (received_by.0.stream.unread ≡ [])
whole_connection_example =
    whole_connection plain_tcp bus 0 reply_ok urbs client server (req_bytes request) sent
      (rep_bytes reply_ok) answered bus-IsBusId reply_IsValid reply_IsUsable requests-IsServable tt
      tt refl refl (exchange-written plain_tcp request client tt) urbs_sent reply_sent.wrote
      urbs_answered
