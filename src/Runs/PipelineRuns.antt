-- ===== src/Runs/PipelineRuns.antt =====
-- A SUBMIT and an UNLINK in a row, through the echo server and back, on the plain connection.
use mathlib.Core.List.{map}
use easy_usb.Base.{
  ◌≡◌, ◌<◌, refl, ℕ, List, [], ◌∷◌, ◌++◌, none, some, ok, All, arith, sym, append-nil, false, inl,
  inr,
}
use easy_usb.Bytes.Words.{IsByte, be32}
use easy_usb.PlainBytes.{plain_bytes}
use easy_usb.PlainTcp.{Pipe, plain_tcp}
use easy_usb.Wire.Union.{
  of_cmd_submit, as_cmd_submit, of_ret_submit, as_ret_submit, of_cmd_unlink, as_cmd_unlink,
  of_ret_unlink, as_ret_unlink,
}
use easy_usb.Wire.Header.{UsbipHeader}
use easy_usb.Codec.Message.{HeaderIsValid, PayloadMatches, announced, body_bytes}
use easy_usb.Codec.Layout.{
  basic_bytes, cmd_submit_bytes, ret_submit_bytes, cmd_unlink_bytes, ret_unlink_bytes, words_bytes,
}
use easy_usb.Net.Loops.{joined, repeat_io, repeat_io-Leaves}
use easy_usb.Session.{TcpSession, numbered, recv_header}
use easy_usb.Server.{serve_urb_echo}
use easy_usb.Server.Replies.{unlink-IsEncodable, announced-cmd_unlink}
use easy_usb.Server.Contract.{Urb, urb_message, answer_of, IsServable}
use easy_usb.Exchange.Pipeline.{numbered_from, send_all}
use easy_usb.Exchange.Pipeline.Served.{serve_urb_echo-answer_of}
use easy_usb.Exchange.Pipeline.Sent.{send_all-Sends}
use easy_usb.Exchange.Pipeline.Round.{head_of, answer_message, echo_pipeline}
use easy_usb.Runs.Fixtures.{
  reply_ok, make_control_cmd_submit, control_IsValid, control_numbered, control_payload,
  control_PayloadMatches,
}
use easy_usb.Runs.EchoRuns.{holding, unlink_request, unlink_IsValid}

abbrev pub urbs : List Urb
urbs = (make_control_cmd_submit, some control_payload) ∷ (unlink_request, none) ∷ []

-- As they are sent: under the numbers 0 and 1.
abbrev pub requests : List Urb
requests = numbered_from 0 urbs

control_matches : PayloadMatches (numbered make_control_cmd_submit 0) (some control_payload)
unfolding announced
control_matches = control_PayloadMatches

renumbered :
    (h : UsbipHeader) (n : ℕ) → n < 4294967296 → HeaderIsValid h → HeaderIsValid (numbered h n)
renumbered h n small v = record {
  base = record {
    command = v.base.command;
    seqnum = small;
    devid = v.base.devid;
    direction = v.base.direction;
    ep = v.base.ep;
  };
  u = v.u;
}

pub requests-IsServable : All IsServable requests
requests-IsServable = (
  record {
    valid = renumbered make_control_cmd_submit 0 (omega arith) control_IsValid;
    encodable = control_numbered 0 control_payload (omega arith);
    matches = control_matches;
    command = inl refl;
  },
  (
    record {
      valid = renumbered unlink_request 1 (omega arith) unlink_IsValid;
      encodable = unlink-IsEncodable _ (inl refl) refl;
      matches = inl (announced-cmd_unlink _ refl);
      command = inr refl;
    },
    tt,
  ),
)

abbrev pub sent : List ℕ
sent = joined urb_message requests

abbrev pub answered : List ℕ
answered = joined answer_message requests

pub sent-IsByte : All IsByte sent
unfolding of_cmd_submit as_cmd_submit announced basic_bytes body_bytes cmd_submit_bytes be32
    of_cmd_unlink as_cmd_unlink cmd_unlink_bytes words_bytes
sent-IsByte = omega arith

pub answered-IsByte : All IsByte answered
unfolding of_cmd_submit as_cmd_submit of_ret_submit as_ret_submit announced basic_bytes body_bytes
    ret_submit_bytes be32 of_ret_unlink as_ret_unlink ret_unlink_bytes words_bytes
answered-IsByte = omega arith

abbrev client : TcpSession plain_tcp
client = record {
  stream = holding answered answered-IsByte;
  next_seqnum = 0;
  devid = 1;
  busid = 0x31 ∷ [];
  reply = reply_ok;
  closed = false;
}

abbrev server : Pipe
server = holding sent sent-IsByte

all_sent : (send_all plain_tcp urbs client).0.stream.sent ≡ [] ++ sent
all_sent = (send_all-Sends plain_tcp urbs client refl tt requests-IsServable).wrote

all_answered : (repeat_io 2 (serve_urb_echo plain_tcp) server).0.sent ≡ [] ++ answered
all_answered =
    let served =
      repeat_io-Leaves plain_tcp (serve_urb_echo plain_tcp) urb_message answer_message head_of
        IsServable (serve_urb_echo-answer_of plain_tcp) 2 requests [] server refl
        requests-IsServable tt (sym (append-nil sent)) in
    served.wrote

echo_pipeline_example :
    let served = repeat_io 2 (serve_urb_echo plain_tcp) server in
    let got = repeat_io 2 (recv_header plain_tcp) (send_all plain_tcp urbs client).0 in
    ((send_all plain_tcp urbs client).1 ≡ ok tt)
    × (served.1 ≡ ok (map head_of requests))
    × (got.1 ≡ ok (map answer_of requests))
    × (served.0.unread ≡ [])
    × (got.0.stream.unread ≡ [])
echo_pipeline_example =
    echo_pipeline plain_tcp client urbs server refl tt tt requests-IsServable all_sent all_answered
