-- ===== src/Server.antt =====
-- crates/easy-usb-core/src/protocol/server.rs: accepting an import request, and the URB echo. The log
-- calls are left out.
pub mod Utf8
pub mod Replies
pub mod Contract
pub mod Serving
pub mod Answered
pub mod Steps
pub mod Echoed
pub mod Failing
pub mod Accepted
pub mod Accepting
use easy_usb.Base.{
  ℕ, zero, suc, ◌+◌, ◌%◌, Bool, true, false, not, ◌&&◌, List, [], ◌∷◌, ◌++◌, Option, none, some,
  Result, ok, err, Text, lit, ◌==◌, ltb, length, if◌then◌else◌, map_err, replicate, ok_or,
}
use easy_usb.Bytes.{ByteIo}
use easy_usb.Bytes.Words.{is_positive}
use easy_usb.Wire.{OpReqImport, OpRepImport, UsbipHeaderCmdSubmit}
use easy_usb.Wire.Union.{of_ret_submit, of_ret_unlink}
use easy_usb.Wire.Header.{UsbipHeader, header_cmd_submit}
use easy_usb.Wire.Constants.{
  cmd_submit, ret_submit, cmd_unlink, ret_unlink, usbip_dir_out, usbip_dir_in,
}
use easy_usb.Codec.{
  ProtocolError, isochronous_not_supported, buffer_too_large, io_error, invalid_command,
  encoding_error, max_payload_size, payload_offset, to_text,
}
use easy_usb.Codec.Header.{encode_header, decode_header}
use easy_usb.Codec.Import.{decode_op_req_import, encode_op_rep_import, op_req_import_size}
use easy_usb.Net.{Tcp, Io, proceed, ◌>>=◌, ◌>>◌, done, fail, lift, map_io_err, fail_if_io}
use easy_usb.Session.{word_at, direction_offset, tfl_offset}
use Utf8.{is_utf8}

pub data AcceptError : Type 0 where
  accept_failed invalid_request invalid_reply : Text → AcceptError

abbrev pub all_zero : List ℕ → Bool
all_zero [] = true
all_zero (b ∷ bs) = b == 0 && all_zero bs

-- The payload length that `serve_urb_echo` reads out of the 48 bytes.
unfoldable pub echo_payload_len : List ℕ → ℕ
echo_payload_len buf =
    if word_at 0 buf == cmd_submit
    then (if is_positive (word_at tfl_offset buf) && word_at direction_offset buf == usbip_dir_out
        then word_at tfl_offset buf
        else 0)
    else 0

-- `i32::try_from(payload.map(|p| p.len()).unwrap_or(0)).unwrap_or(0)`.
abbrev pub len_or_zero : Option (List ℕ) → ℕ
len_or_zero none = 0
len_or_zero (some p) = length p

unfoldable pub echo_len : Option (List ℕ) → ℕ
echo_len payload = if ltb (len_or_zero payload) 2147483648 then len_or_zero payload else 0

unfoldable pub submit_reply : UsbipHeader → UsbipHeaderCmdSubmit → Option (List ℕ) → UsbipHeader
unfolding echo_len
submit_reply header cmd payload = record {
  base = record {
    command = ret_submit;
    seqnum = header.base.seqnum;
    devid = header.base.devid;
    direction = usbip_dir_in;
    ep = header.base.ep;
  };
  u = of_ret_submit (record {
    status = 0;
    actual_length = echo_len payload;
    start_frame = 0;
    number_of_packets = 0;
    error_count = 0;
    setup = cmd.setup;
  });
}

unfoldable pub unlink_reply : UsbipHeader → UsbipHeader
unlink_reply header = record {
  base = record (header.base) { command = ret_unlink };
  u = of_ret_unlink (record { status = 0; padding = replicate 6 0 });
}

module _ ⦃io : ByteIo⦄ (tcp : Tcp) where
  open tcp use {Stream, read_exact, write_all}

  -- `accept_device`, on the stream that `listener.accept` gave.
  unfoldable pub read_request : Io Stream AcceptError OpReqImport
  read_request = do
    buf ←
        map_io_err (λ e. accept_failed (lit "read OP_REQ_IMPORT: " ∷ e))
          (read_exact op_req_import_size)
    req ← lift (map_err (λ e. invalid_request (to_text e)) (decode_op_req_import buf))
    fail_if_io (all_zero req.busid) (invalid_request (lit "empty busid" ∷ []))
    fail_if_io (not (is_utf8 req.busid)) (invalid_request (lit "non-UTF-8 busid" ∷ []))
    done req

  abbrev pub with_peer :
      Stream × Result AcceptError OpReqImport → Result AcceptError (Stream × OpReqImport)
  with_peer (s, ok req) = ok (s, req)
  with_peer (s, err e) = err e

  -- `accept_device`, given what `listener.accept` answers.
  unfoldable pub accept_device : Result Text Stream → Result AcceptError (Stream × OpReqImport)
  unfolding read_request
  accept_device (err e) = err (accept_failed e)
  accept_device (ok stream) = with_peer (read_request stream)

  unfoldable pub send_op_rep_import : OpRepImport → Io Stream ProtocolError (Unit {0})
  send_op_rep_import rep = do
    buf ← lift (encode_op_rep_import rep)
    map_io_err io_error (write_all buf)

  unfoldable pub read_echo_payload : ℕ → List ℕ → Io Stream ProtocolError (List ℕ)
  read_echo_payload len buf =
      if ltb 0 len
      then (map_io_err io_error (read_exact len) >>= λ payload. done (buf ++ payload))
      else done buf

  -- The arms of the `match` on the command.
  unfoldable pub answer_submit : UsbipHeader → Option (List ℕ) → Io Stream ProtocolError (Unit {0})
  unfolding submit_reply
  answer_submit header payload = do
    cmd ← lift (
        ok_or (header_cmd_submit header)
          (encoding_error (lit "CMD_SUBMIT header missing cmd_submit data" ∷ [])))
    fail_if_io (not (cmd.number_of_packets == 0)) isochronous_not_supported
    encoded ← lift (encode_header (submit_reply header cmd payload) payload)
    map_io_err io_error (write_all encoded)

  unfoldable pub answer_unlink : UsbipHeader → Io Stream ProtocolError (Unit {0})
  unfolding unlink_reply
  answer_unlink header = do
    encoded ← lift (encode_header (unlink_reply header) none)
    map_io_err io_error (write_all encoded)

  unfoldable pub answer : UsbipHeader → Option (List ℕ) → Io Stream ProtocolError (Unit {0})
  unfolding answer_submit answer_unlink
  answer header payload =
      if header.base.command == cmd_submit
      then answer_submit header payload
      else if header.base.command == cmd_unlink
      then answer_unlink header
      else fail (invalid_command header.base.command)

  unfoldable pub serve_urb_echo : Io Stream ProtocolError UsbipHeader
  unfolding echo_payload_len read_echo_payload answer
  serve_urb_echo = do
    buf ← map_io_err io_error (read_exact payload_offset)
    fail_if_io (ltb max_payload_size (echo_payload_len buf))
        (buffer_too_large (echo_payload_len buf) max_payload_size)
    full ← read_echo_payload (echo_payload_len buf) buf
    (header, payload) ← lift (decode_header full)
    answer header payload
    done header
