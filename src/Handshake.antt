-- ===== src/Handshake.antt =====
-- crates/easy-usb-core/src/protocol/handshake.rs: `import_device` and its retries. A `&str` is its
-- bytes in UTF-8; the log calls are left out.
pub mod Retries
pub mod Attempts
pub mod Exchanging
pub mod Bounded
pub mod Imported
use easy_usb.Base.{
  ℕ, zero, suc, ◌-◌, Bool, not, ◌||◌, List, [], ◌∷◌, ◌++◌, Result, ok, err, Text, lit, dec, ◌==◌,
  ltb, length, take, replicate, map_err, min, if◌then◌else◌,
}
use easy_usb.Bytes.{ByteIo}
use easy_usb.Wire.{OpReqImport, OpRepImport}
use easy_usb.Wire.Constants.{usbip_version}
use easy_usb.Codec.{ProtocolError, to_text}
use easy_usb.Codec.Import.{encode_op_req_import, decode_op_rep_import, op_rep_import_size}
use easy_usb.Net.{Tcp, Io, proceed, ◌>>=◌, ◌>>◌, done, lift, map_io_err, fail_if_io}

abbrev pub max_retries : ℕ
max_retries = 3

pub data HandshakeError : Type 0 where
  timeout : (seconds : ℕ) → HandshakeError
  connection_failed : Text → HandshakeError
  server_rejected : (status : ℕ) → HandshakeError
  max_retries_exceeded : ℕ → HandshakeError
  invalid_reply : Text → HandshakeError

-- `b"/sys/devices/pci0000:00"`.
abbrev pub path_prefix : List ℕ
path_prefix =
    0x2f ∷ 0x73 ∷ 0x79 ∷ 0x73 ∷ 0x2f ∷ 0x64 ∷ 0x65 ∷ 0x76 ∷ 0x69 ∷ 0x63 ∷ 0x65 ∷ 0x73 ∷ 0x2f ∷ 0x70
    ∷ 0x63 ∷ 0x69 ∷ 0x30 ∷ 0x30 ∷ 0x30 ∷ 0x30 ∷ 0x3a ∷ 0x30 ∷ 0x30 ∷ []

-- The first 32 bytes of the bus id, filled up with zeros.
unfoldable pub busid_array : List ℕ → List ℕ
busid_array bytes = take 32 bytes ++ replicate (32 - min (length bytes) 32) 0

unfoldable pub make_import_request : List ℕ → ℕ → OpReqImport
make_import_request busid devid = record {
  status = usbip_version;
  path = path_prefix ++ replicate 233 0;
  busid = busid_array busid;
}

-- What one attempt meets: the 10 seconds of `tokio::time::timeout` run out, or the handshake runs to
-- its end on what `TcpStream::connect` answers.
pub data Attempt (Stream : Type 0) : Type 0 where
  elapsed : Attempt Stream
  connects : Result Text Stream → Attempt Stream

module _ ⦃io : ByteIo⦄ (tcp : Tcp) where
  open tcp use {Stream, read_exact, write_all}

  -- `do_handshake` on the stream that `TcpStream::connect` gave.
  unfoldable pub exchange : OpReqImport → Io Stream HandshakeError OpRepImport
  exchange req = do
    req_bytes ← lift (map_err (λ e. invalid_reply (to_text e)) (encode_op_req_import req))
    map_io_err connection_failed (write_all req_bytes)
    rep_buf ← map_io_err connection_failed (read_exact op_rep_import_size)
    reply ← lift (map_err (λ e. invalid_reply (to_text e)) (decode_op_rep_import rep_buf))
    fail_if_io (not (reply.status == 0)) (server_rejected reply.status)
    fail_if_io (reply.busnum == 0 || reply.devnum == 0)
        (invalid_reply (lit "busnum=" ∷ dec reply.busnum ∷ lit " devnum=" ∷ dec reply.devnum ∷ []))
    done reply

  abbrev pub with_stream :
      Stream × Result HandshakeError OpRepImport → Result HandshakeError (Stream × OpRepImport)
  with_stream (s, ok reply) = ok (s, reply)
  with_stream (s, err e) = err e

  -- `do_handshake`, given what `TcpStream::connect` answers.
  unfoldable pub do_handshake :
      Result Text Stream → OpReqImport → Result HandshakeError (Stream × OpRepImport)
  unfolding exchange
  do_handshake (ok stream) req = with_stream (exchange req stream)
  do_handshake (err e) req = err (connection_failed e)

  -- The arms of the loop's `match`: what the handshake gave is returned, or the rest of the loop runs.
  unfoldable pub settle :
      Result HandshakeError (Stream × OpRepImport)
      → Result HandshakeError (Stream × OpRepImport)
      → Result HandshakeError (Stream × OpRepImport)
  settle (ok success) again = ok success
  settle (err (server_rejected status)) again = err (server_rejected status)
  settle (err (invalid_reply text)) again = err (invalid_reply text)
  settle (err (timeout _)) again = again
  settle (err (connection_failed _)) again = again
  settle (err (max_retries_exceeded _)) again = again

  unfoldable pub attempt_step :
      Attempt Stream
      → OpReqImport
      → Result HandshakeError (Stream × OpRepImport)
      → Result HandshakeError (Stream × OpRepImport)
  unfolding settle
  attempt_step elapsed req again = again
  attempt_step (connects answer) req again = settle (do_handshake answer req) again

  -- The loop, with the attempts left and the number of the next one.
  unfoldable pub attempt_loop :
      ℕ → ℕ → (ℕ → Attempt Stream) → OpReqImport → Result HandshakeError (Stream × OpRepImport)
  unfolding attempt_step
  attempt_loop zero i net req = err (max_retries_exceeded max_retries)
  attempt_loop (suc left) i net req = attempt_step (net i) req (attempt_loop left (suc i) net req)

  unfoldable pub import_device :
      (ℕ → Attempt Stream) → List ℕ → ℕ → Result HandshakeError (Stream × OpRepImport)
  unfolding attempt_loop make_import_request
  import_device net busid devid =
      if length busid == 0
      then err (invalid_reply (lit "empty busid" ∷ []))
      else attempt_loop max_retries 0 net (make_import_request busid devid)
