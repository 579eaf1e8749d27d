-- ===== src/Runs/NetRuns.antt =====
-- Sessions and handshakes on the plain connection.
use easy_usb.Base.{
  ◌⊎◌, zero, suc, err, ◌<◌, ◌==◌, ℕ, ◌≡◌, refl, List, [], ◌∷◌, some, ok, err, lit, true, false,
  arith, ◌+◌, ◌%◌, if◌then◌else◌,
}
use easy_usb.Bytes.Words.{be32, be16, u32_of, u16_of}
use easy_usb.PlainBytes.{plain_bytes}
use easy_usb.PlainTcp.{Pipe, plain_tcp}
use easy_usb.Wire.{OpRepImport}
use easy_usb.Wire.Union.{of_cmd_submit}
use easy_usb.Codec.{io_error}
use easy_usb.Codec.Message.{IsEncodable, carried, message}
use easy_usb.Handshake.{
  timeout, Attempt, elapsed, connects, import_device, make_import_request, busid_array,
  do_handshake, exchange,
}
use easy_usb.Handshake.Retries.{
  Answers, IsReported, IsUsable, import_device-Answers, Fails, transient_timeout, attempted,
}
use easy_usb.Handshake.Imported.{Connected, import_device-Connected}
use easy_usb.Handshake.Bounded.{FailsBelow, EndsAt, import_device-EndsAt}
use easy_usb.Handshake.Attempts.{import_device-ok}
use easy_usb.Codec.Import.{encode_op_req_import, decode_op_rep_import}
use easy_usb.Session.{
  TcpSession, session_closed, numbered, recv_header_inner, recv_header, send_header,
  recv_header_or_close,
}
use easy_usb.Net.Leaves.{Leaves}
use easy_usb.Session.Receive.{recv_header_inner-message}
use easy_usb.Session.Taken.{Took, recv_header_inner-Took}
use easy_usb.Session.Closing.{
  SessionCall, send, receive, receive_or_close, after_calls, recv_header_or_close-refused,
}
use easy_usb.Session.Sending.{Sent, Refused, send_header-IsEncodable}
use easy_usb.Runs.Fixtures.{
  reply_bytes_of, reply_bytes_of-IsByte, reply_ok, make_control_cmd_submit, control_IsValid,
  control_IsEncodable, control_payload, control_PayloadMatches,
}
use easy_usb.Runs.CodecRuns.{control_message, control_message-IsByte}

abbrev quiet : Pipe
quiet = record { unread = []; unread_bytes = tt; sent = [] }

abbrev message_pipe : Pipe
message_pipe = record { unread = control_message; unread_bytes = control_message-IsByte; sent = [] }

control_bulk : make_control_cmd_submit.u.word3 ≡ 0
unfolding of_cmd_submit
control_bulk = refl

recv_header_inner-message_example :
    Leaves plain_tcp
      (recv_header_inner plain_tcp message_pipe)
      (make_control_cmd_submit, carried make_control_cmd_submit (some control_payload))
      (7 ∷ [])
      []
recv_header_inner-message_example =
    recv_header_inner-message plain_tcp make_control_cmd_submit (some control_payload) (7 ∷ [])
      message_pipe control_IsValid (control_IsEncodable control_payload (omega arith))
      control_PayloadMatches control_bulk tt refl

recv_header_inner-Took_example :
    (taken : List ℕ) × Took plain_tcp message_pipe (recv_header_inner plain_tcp message_pipe) taken
recv_header_inner-Took_example =
    recv_header_inner-Took plain_tcp message_pipe make_control_cmd_submit
      (carried make_control_cmd_submit (some control_payload))
      recv_header_inner-message_example.result

-- A session whose next number is the last one, 2^32 - 1.
abbrev last_session : TcpSession plain_tcp
last_session = record {
  stream = quiet;
  next_seqnum = 4294967295;
  devid = 1;
  busid = 0x31 ∷ [];
  reply = reply_ok;
  closed = false;
}

nothing_received :
    (recv_header_or_close plain_tcp last_session).1 ≡ err (io_error (lit "early eof" ∷ []))
unfolding recv_header_or_close recv_header_inner
nothing_received = refl

abbrev later_calls : List SessionCall
later_calls = receive ∷ send make_control_cmd_submit (some control_payload) ∷ receive_or_close ∷ []

refused_example :
    let later = after_calls plain_tcp later_calls (recv_header_or_close plain_tcp last_session).0 in
    (later.closed ≡ true)
    × (later.stream.sent ≡ [])
    × (send_header plain_tcp make_control_cmd_submit (some control_payload) later
        ≡ (later, err session_closed))
    × (recv_header plain_tcp later ≡ (later, err session_closed))
    × ((recv_header_or_close plain_tcp later).1 ≡ (recv_header_inner plain_tcp later.stream).1)
refused_example =
    recv_header_or_close-refused plain_tcp last_session (io_error (lit "early eof" ∷ []))
      later_calls make_control_cmd_submit (some control_payload) nothing_received

send_header-IsEncodable_example :
    let out = send_header plain_tcp make_control_cmd_submit (some control_payload) last_session in
    let request = numbered make_control_cmd_submit 4294967295 in
    ((IsEncodable request (some control_payload)
        × Sent plain_tcp last_session (message request (some control_payload)) out)
      ⊎ ((¬ IsEncodable request (some control_payload)) × Refused plain_tcp last_session out))
    × (out.0.next_seqnum ≡ (4294967295 + 1) % 4294967296)
    × (out.0.closed ≡ false)
send_header-IsEncodable_example =
    send_header-IsEncodable plain_tcp last_session make_control_cmd_submit (some control_payload)
      refl tt

import_device_example :
    Answers IsReported
      (λ success. IsUsable success.1)
      (import_device plain_tcp (λ _. elapsed) (0x31 ∷ []) 0)
import_device_example = import_device-Answers plain_tcp (λ _. elapsed) (0x31 ∷ []) 0

-- A server whose reply, `reply_ok`, is there.
abbrev server_pipe : Pipe
server_pipe = record {
  unread = reply_bytes_of 0 1 3 3;
  unread_bytes =
      reply_bytes_of-IsByte 0 1 3 3 (omega arith) (omega arith) (omega arith) (omega arith);
  sent = [];
}

-- The first attempt runs out of time.
abbrev second_answers : ℕ → Attempt Pipe
second_answers i = if i == 0 then elapsed else connects (ok server_pipe)

answered :
    (x : Pipe × OpRepImport) × (attempted plain_tcp
        (second_answers 1)
        (make_import_request (0x31 ∷ []) 0)
      ≡ ok x)
unfolding attempted do_handshake exchange make_import_request busid_array encode_op_req_import
    decode_op_rep_import be32 be16 u32_of u16_of
answered = (_, refl)

first_elapsed :
    (i : ℕ)
    → i < 1
    → Fails (attempted plain_tcp (second_answers i) (make_import_request (0x31 ∷ []) 0))
unfolding attempted
first_elapsed zero h = (timeout 10, refl, transient_timeout)
first_elapsed (suc i) h = ground (arith, h)

import_device-EndsAt_example :
    let req = make_import_request (0x31 ∷ []) 0 in
    (k : ℕ) × FailsBelow plain_tcp k second_answers req
    × EndsAt plain_tcp k second_answers req (import_device plain_tcp second_answers (0x31 ∷ []) 0)
import_device-EndsAt_example =
    import_device-EndsAt plain_tcp second_answers (0x31 ∷ []) 0 (omega arith)

second_imported : import_device plain_tcp second_answers (0x31 ∷ []) 0 ≡ ok answered.0
second_imported =
    import_device-ok plain_tcp second_answers (0x31 ∷ []) 0 1 answered.0 (omega arith) (omega arith)
      first_elapsed answered.1

import_device-Connected_example :
    let req = make_import_request (0x31 ∷ []) 0 in
    (k : ℕ) × (k < 3)
    × FailsBelow plain_tcp k second_answers req
    × Connected plain_tcp (second_answers k) req answered.0.0 answered.0.1
import_device-Connected_example =
    import_device-Connected plain_tcp second_answers (0x31 ∷ []) 0 answered.0.0 answered.0.1
      (omega arith) second_imported
