-- ===== src/Runs/EchoRuns.antt =====
-- The echo server and a session on the plain connection.
use easy_usb.Base.{
  ◌≡◌, refl, ℕ, List, [], ◌∷◌, ◌++◌, none, some, All, arith, sym, append-nil, inl, ok, err, ◌≢◌,
}
use easy_usb.Bytes.Words.{IsByte, be32}
use easy_usb.PlainBytes.{plain_bytes}
use easy_usb.PlainTcp.{Pipe, plain_tcp}
use easy_usb.Wire.Constants.{cmd_unlink, usbip_dir_out}
use easy_usb.Wire.Union.{
  of_cmd_submit, as_cmd_submit, of_ret_submit, as_ret_submit, of_cmd_unlink, as_cmd_unlink,
  of_ret_unlink, as_ret_unlink,
}
use easy_usb.Wire.Header.{UsbipHeader}
use easy_usb.Codec.Message.{HeaderIsValid, announced, carried, message, body_bytes}
use easy_usb.Codec.Layout.{
  basic_bytes, cmd_submit_bytes, ret_submit_bytes, cmd_unlink_bytes, ret_unlink_bytes, words_bytes,
}
use easy_usb.Codec.{isochronous_not_supported}
use easy_usb.Codec.Header.{decode_header}
use easy_usb.Session.Padded.{recv_header_inner-padded}
use easy_usb.Net.Leaves.{Leaves}
use easy_usb.Session.{recv_header_inner}
use easy_usb.Server.{serve_urb_echo}
use easy_usb.Server.Replies.{echo_of, unlink_echo_of, unlink-IsEncodable}
use easy_usb.Server.Serving.{serve_urb_echo-cmd_submit, serve_urb_echo-cmd_unlink}
use easy_usb.Runs.Fixtures.{
  make_control_cmd_submit, control_IsValid, control_IsEncodable, control_payload,
  control_PayloadMatches,
}

-- The UNLINK of the test `serve_urb_echo_handles_cmd_unlink`.
abbrev pub unlink_request : UsbipHeader
unlink_request = record {
  base = record { command = cmd_unlink; seqnum = 5; devid = 3; direction = usbip_dir_out; ep = 2 };
  u = of_cmd_unlink (record { seqnum = 1; padding = 0 ∷ 0 ∷ 0 ∷ 0 ∷ 0 ∷ 0 ∷ [] });
}

pub unlink_IsValid : HeaderIsValid unlink_request
unfolding of_cmd_unlink
unlink_IsValid = record {
  base = record {
    command = omega arith;
    seqnum = omega arith;
    devid = omega arith;
    direction = omega arith;
    ep = omega arith;
  };
  u = record {
    word0 = omega arith;
    word1 = omega arith;
    word2 = omega arith;
    word3 = omega arith;
    word4 = omega arith;
    tail_length = refl;
    tail_bytes = omega arith;
  };
}

abbrev submit_message : List ℕ
submit_message = message make_control_cmd_submit (some control_payload)

abbrev submit_answer : UsbipHeader
submit_answer = echo_of make_control_cmd_submit

abbrev submit_answer_message : List ℕ
submit_answer_message =
    message submit_answer (carried make_control_cmd_submit (some control_payload))

pub submit_message-IsByte : All IsByte submit_message
unfolding of_cmd_submit as_cmd_submit announced basic_bytes body_bytes cmd_submit_bytes be32
submit_message-IsByte = omega arith

submit_answer-IsByte : All IsByte submit_answer_message
unfolding of_cmd_submit as_cmd_submit of_ret_submit as_ret_submit announced basic_bytes body_bytes
    ret_submit_bytes be32
submit_answer-IsByte = omega arith

abbrev unlink_message : List ℕ
unlink_message = message unlink_request none

abbrev unlink_answer_message : List ℕ
unlink_answer_message = message (unlink_echo_of unlink_request) none

unlink_message-IsByte : All IsByte unlink_message
unfolding of_cmd_unlink as_cmd_unlink announced basic_bytes body_bytes cmd_unlink_bytes be32
    words_bytes
unlink_message-IsByte = omega arith

unlink_answer-IsByte : All IsByte unlink_answer_message
unfolding of_ret_unlink as_ret_unlink announced basic_bytes body_bytes ret_unlink_bytes be32
    words_bytes
unlink_answer-IsByte = omega arith

-- A connection on which a message waits.
abbrev pub holding : (bytes : List ℕ) → All IsByte bytes → Pipe
holding bytes h = record { unread = bytes; unread_bytes = h; sent = [] }

abbrev pub submit_server : Pipe
submit_server = holding submit_message submit_message-IsByte

abbrev unlink_server : Pipe
unlink_server = holding unlink_message unlink_message-IsByte

pub submit_served :
    Leaves plain_tcp
      (serve_urb_echo plain_tcp submit_server)
      make_control_cmd_submit
      []
      ([] ++ submit_answer_message)
submit_served =
    serve_urb_echo-cmd_submit plain_tcp make_control_cmd_submit (some control_payload) []
      submit_server control_IsValid (control_IsEncodable control_payload (omega arith))
      control_PayloadMatches refl tt (sym (append-nil submit_message))

serve_urb_echo-cmd_submit_example :
    Leaves plain_tcp
      (serve_urb_echo plain_tcp submit_server)
      make_control_cmd_submit
      []
      ([] ++ submit_answer_message)
serve_urb_echo-cmd_submit_example =
    serve_urb_echo-cmd_submit plain_tcp make_control_cmd_submit (some control_payload) []
      submit_server control_IsValid (control_IsEncodable control_payload (omega arith))
      control_PayloadMatches refl tt (sym (append-nil submit_message))

serve_urb_echo-cmd_unlink_example :
    Leaves plain_tcp
      (serve_urb_echo plain_tcp unlink_server)
      unlink_request
      []
      ([] ++ unlink_answer_message)
serve_urb_echo-cmd_unlink_example =
    serve_urb_echo-cmd_unlink plain_tcp unlink_request [] unlink_server unlink_IsValid (inl refl)
      refl tt (sym (append-nil unlink_message))

-- One whose third padding word is not 0.
abbrev padded_unlink : UsbipHeader
padded_unlink = record {
  base = record { command = cmd_unlink; seqnum = 5; devid = 3; direction = usbip_dir_out; ep = 2 };
  u = of_cmd_unlink (record { seqnum = 3; padding = 0 ∷ 0 ∷ 9 ∷ 0 ∷ 0 ∷ 0 ∷ [] });
}

padded_IsValid : HeaderIsValid padded_unlink
unfolding of_cmd_unlink
padded_IsValid = record {
  base = record {
    command = omega arith;
    seqnum = omega arith;
    devid = omega arith;
    direction = omega arith;
    ep = omega arith;
  };
  u = record {
    word0 = omega arith;
    word1 = omega arith;
    word2 = omega arith;
    word3 = omega arith;
    word4 = omega arith;
    tail_length = refl;
    tail_bytes = omega arith;
  };
}

announced-padded : announced padded_unlink ≡ 0
unfolding announced
announced-padded = refl

word3-padded : padded_unlink.u.word3 ≢ 0
unfolding of_cmd_unlink
word3-padded = omega arith

padded_message-IsByte : All IsByte (message padded_unlink none)
unfolding of_cmd_unlink as_cmd_unlink announced basic_bytes body_bytes cmd_unlink_bytes be32
    words_bytes
padded_message-IsByte = omega arith

recv_header_inner-padded_example :
    (decode_header (message padded_unlink none) ≡ ok (padded_unlink, carried padded_unlink none))
    × ((recv_header_inner plain_tcp (holding (message padded_unlink none) padded_message-IsByte)).1
        ≡ err isochronous_not_supported)
recv_header_inner-padded_example =
    recv_header_inner-padded plain_tcp padded_unlink none []
      (holding (message padded_unlink none) padded_message-IsByte) padded_IsValid
      (unlink-IsEncodable padded_unlink (inl refl) refl) (inl announced-padded) word3-padded tt
      (sym (append-nil (message padded_unlink none)))
