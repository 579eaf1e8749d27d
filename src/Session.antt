-- ===== src/Session.antt =====
-- crates/easy-usb-core/src/protocol/session.rs: `TcpSession`. The log calls, the keepalive options and
-- the private field `_reply`'s name are left out.
pub mod Framing
pub mod Receive
pub mod Taken
pub mod Padded
pub mod Closing
pub mod Sending
use easy_usb.Base.{
  ℕ, zero, suc, ◌+◌, ◌%◌, Bool, true, false, not, ◌&&◌, List, [], ◌∷◌, ◌++◌, Option, Result, ok,
  err, Text, lit, ◌==◌, ltb, length, drop, if◌then◌else◌,
}
use easy_usb.Bytes.{ByteIo}
use easy_usb.Bytes.Words.{u32_of, is_positive}
use easy_usb.Wire.{OpRepImport}
use easy_usb.Wire.Header.{UsbipHeader}
use easy_usb.Wire.Constants.{cmd_submit, ret_submit, usbip_dir_out}
use easy_usb.Codec.{
  ProtocolError, isochronous_not_supported, buffer_too_large, io_error, max_payload_size,
  payload_offset,
}
use easy_usb.Codec.Header.{encode_header, decode_header}
use easy_usb.Handshake.{HandshakeError, connection_failed, Attempt, import_device}
use easy_usb.Net.{Tcp, Io, proceed, ◌>>=◌, ◌>>◌, done, lift, map_io_err, fail_if_io}

-- `u32::from_be_bytes` of the four bytes from an offset on; also at an `i32`.
abbrev pub word_at : ℕ → List ℕ → ℕ
word_at offset buf = u32_of (drop offset buf)

abbrev pub direction_offset : ℕ
direction_offset = 12

abbrev pub tfl_offset : ℕ
tfl_offset = 24

abbrev pub num_packets_offset : ℕ
num_packets_offset = 32

-- The payload length that `recv_header_inner` reads out of the 48 bytes.
unfoldable pub payload_len : List ℕ → ℕ
payload_len buf =
    if word_at 0 buf == cmd_submit
    then (if is_positive (word_at tfl_offset buf) && word_at direction_offset buf == usbip_dir_out
        then word_at tfl_offset buf
        else 0)
    else if word_at 0 buf == ret_submit
    then (if is_positive (word_at tfl_offset buf) then word_at tfl_offset buf else 0)
    else 0

pub record TcpSession (tcp : Tcp) : Type 0 where
  pub stream : tcp.Stream
  pub next_seqnum : ℕ  -- u32
  pub devid : ℕ  -- u32
  pub busid : List ℕ  -- String
  pub reply : OpRepImport
  pub closed : Bool

abbrev pub session_closed : ProtocolError
session_closed = io_error (lit "session closed" ∷ [])

-- The header with another sequence number.
abbrev pub numbered : UsbipHeader → ℕ → UsbipHeader
numbered header n = record header { base = record (header.base) { seqnum = n } }

module _ ⦃io : ByteIo⦄ (tcp : Tcp) where
  open tcp use {Stream, read_exact, write_all, shutdown}

  -- `if payload_len > 0 { read and extend buf }`.
  unfoldable pub read_payload : ℕ → List ℕ → Io Stream ProtocolError (List ℕ)
  read_payload len buf =
      if ltb 0 len
      then (map_io_err io_error (read_exact len) >>= λ payload. done (buf ++ payload))
      else done buf

  unfoldable pub recv_header_inner : Io Stream ProtocolError (UsbipHeader × Option (List ℕ))
  unfolding payload_len read_payload
  recv_header_inner = do
    buf ← map_io_err io_error (read_exact payload_offset)
    fail_if_io (not (word_at num_packets_offset buf == 0)) isochronous_not_supported
    fail_if_io (ltb max_payload_size (payload_len buf))
        (buffer_too_large (payload_len buf) max_payload_size)
    full ← read_payload (payload_len buf) buf
    lift (decode_header full)

  -- An operation on the stream, in the session.
  abbrev pub on_stream :
      {A : Type 0} → Io Stream ProtocolError A → Io (TcpSession tcp) ProtocolError A
  on_stream m session =
      let (stream, r) = m session.stream in (record session { stream = stream }, r)

  unfoldable pub send_header :
      UsbipHeader → Option (List ℕ) → Io (TcpSession tcp) ProtocolError (Unit {0})
  send_header header payload session =
      if session.closed
      then (session, err session_closed)
      else (let bumped : TcpSession tcp = record session {
        next_seqnum = (session.next_seqnum + 1) % 4294967296;
      } in
          on_stream
            (lift (encode_header (numbered header session.next_seqnum) payload) >>= λ buf.
              map_io_err io_error (write_all buf))
            bumped)

  unfoldable pub recv_header : Io (TcpSession tcp) ProtocolError (UsbipHeader × Option (List ℕ))
  recv_header session =
      if session.closed then (session, err session_closed) else on_stream recv_header_inner session

  abbrev pub close_on_error :
      {A : Type 0}
      → TcpSession tcp × Result ProtocolError A
      → TcpSession tcp × Result ProtocolError A
  close_on_error (session, ok a) = (session, ok a)
  close_on_error (session, err e) =
      (record session { closed = true; stream = shutdown session.stream }, err e)

  unfoldable pub recv_header_or_close :
      Io (TcpSession tcp) ProtocolError (UsbipHeader × Option (List ℕ))
  recv_header_or_close session = close_on_error (on_stream recv_header_inner session)

  -- `TcpSession::connect`: the import handshake, then the answer of `set_tcp_keepalive`.
  unfoldable pub connect :
      (ℕ → Attempt Stream)
      → Result Text (Unit {0})
      → List ℕ
      → ℕ
      → Result HandshakeError (TcpSession tcp)
  connect net keepalive busid devid = elim (import_device tcp net busid devid) [
    | err e ↦ err e
    | ok (stream, reply) ↦ elim keepalive [
      | err e ↦ err (connection_failed (lit "keepalive setup: " ∷ e))
      | ok _ ↦ ok (record {
        stream = stream;
        next_seqnum = 0;
        devid = devid;
        busid = busid;
        reply = reply;
        closed = false;
      })
    ]
  ]

  -- `into_stream` hands the stream over, and `close` shuts it down.
  unfoldable pub into_stream : TcpSession tcp → Stream
  into_stream session = session.stream

  unfoldable pub close : TcpSession tcp → Stream
  close session = shutdown session.stream
