-- ===== src/Exchange/Connection.antt =====
-- A whole connection: the import (crates/easy-usb-core/src/protocol/handshake.rs and server.rs), the session
-- that it opens (session.rs), and URBs that the session sends and the server echoes.
use Prim.Native.String.{String}
use mathlib.Core.List.{map}
use easy_usb.Base.{ℕ, ◌≡◌, refl, sym, ap, ◌∙◌, false, List, [], ◌++◌, Result, ok, All, length}
use easy_usb.Bytes.{ByteIo}
use easy_usb.Wire.{OpRepImport}
use easy_usb.Wire.Header.{UsbipHeader}
use easy_usb.Codec.{ProtocolError}
use easy_usb.Codec.Import.Layout.{RepIsValid}
use easy_usb.Net.{Tcp}
use easy_usb.Net.Loops.{repeat_io}
use easy_usb.Handshake.{Attempt, connects, exchange, import_device, make_import_request}
use easy_usb.Handshake.Retries.{IsUsable}
use easy_usb.Strings.{as_bytes}
use easy_usb.Strings.Validity.{is_utf8-as_bytes, as_bytes-IsByte}
use easy_usb.Session.{TcpSession, connect, recv_header}
use easy_usb.Server.{read_request, send_op_rep_import, accept_device, serve_urb_echo}
use easy_usb.Server.Contract.{Urb, answer_of, IsServable}
use easy_usb.Exchange.Import.{import_handshake_first}
use easy_usb.Exchange.Registering.{IsBusId, not_zero}
use easy_usb.Exchange.Pipeline.{numbered_from, send_all}
use easy_usb.Exchange.Pipeline.Round.{head_of, echo_pipeline}

module _ ⦃io : ByteIo⦄ (tcp : Tcp) where
  open tcp use {Stream, incoming, written, IsUp}

  -- The session of a connection on which the import has run.
  abbrev pub session_on : Stream → List ℕ → ℕ → OpRepImport → TcpSession tcp
  session_on stream busid devid rep = record {
    stream = stream;
    next_seqnum = 0;
    devid = devid;
    busid = busid;
    reply = rep;
    closed = false;
  }

  connect-session_on :
      (net : ℕ → Attempt Stream) (busid : List ℕ) (devid : ℕ) (stream : Stream) (rep : OpRepImport)
      → import_device tcp net busid devid ≡ ok (stream, rep)
      → connect tcp net (ok tt) busid devid ≡ ok (session_on stream busid devid rep)
  unfolding connect
  connect-session_on net busid devid stream rep e = rw (e, connect) refl

  module _ (t : String) (devid : ℕ) (rep : OpRepImport) (urbs : List Urb)
      (client server : Stream) where
    -- The client's end behind the import, and the server's behind the request, the reply, and the URBs.
    abbrev pub imported : Stream
    imported = (exchange tcp (make_import_request (as_bytes t) devid) client).0

    abbrev pub session : TcpSession tcp
    session = session_on imported (as_bytes t) devid rep

    abbrev pub sent : TcpSession tcp × Result ProtocolError (Unit {0})
    sent = send_all tcp urbs session

    abbrev pub accepted : Stream
    accepted = (read_request tcp server).0

    abbrev pub replied : Stream
    replied = (send_op_rep_import tcp rep accepted).0

    abbrev pub served : Stream × Result ProtocolError (List UsbipHeader)
    served = repeat_io (length urbs) (serve_urb_echo tcp) replied

    abbrev pub received : TcpSession tcp × Result ProtocolError (List Urb)
    received = repeat_io (length urbs) (recv_header tcp) sent.0

    -- A client and a server, each on an end that is up. The client connects by a bus id that is a text
    -- of at most 32 bytes, not empty and without a NUL at its end, and sends URBs, each a SUBMIT or
    -- UNLINK that is valid and can be encoded under its number, with just the payload that it announces.
    -- The keepalive is set. The server accepts, answers with a valid reply that names a device,
    -- and echoes as many URBs. What the one writes up to its reply is what the other reads first, and what
    -- it writes then is what the other reads then. Then the server sees the very request, the client
    -- has a session with the very reply and 0 as the next number, every URB is sent, the server takes
    -- each in its order, the session gets the answer of each in its order and under its number, and
    -- nothing is left to read at either end.
    pub whole_connection :
        (asked urbs_sent replied_with answers : List ℕ)
        → IsBusId t
        → RepIsValid rep
        → IsUsable rep
        → All IsServable (numbered_from 0 urbs)
        → IsUp client
        → IsUp server
        → incoming server ≡ asked ++ urbs_sent
        → incoming client ≡ replied_with ++ answers
        → written imported ≡ written client ++ asked
        → written sent.0.stream ≡ written imported ++ urbs_sent
        → written replied ≡ written accepted ++ replied_with
        → written served.0 ≡ written replied ++ answers
        → (accept_device tcp (ok server) ≡ ok (accepted, make_import_request (as_bytes t) devid))
          × (connect tcp (λ _. connects (ok client)) (ok tt) (as_bytes t) devid ≡ ok session)
          × (sent.1 ≡ ok tt)
          × (served.1 ≡ ok (map head_of (numbered_from 0 urbs)))
          × (received.1 ≡ ok (map answer_of (numbered_from 0 urbs)))
          × (incoming served.0 ≡ [])
          × (incoming received.0.stream ≡ [])
    whole_connection asked urbs_sent replied_with answers i v u servable up server_up to_server
          to_client first second third fourth =
        let (accepted_it, _, imported_it, left, still, answer) =
          import_handshake_first tcp (as_bytes t) devid rep client server asked urbs_sent
            replied_with answers (as_bytes-IsByte t) i.short (not_zero t i) (is_utf8-as_bytes t) v u
            up server_up to_server to_client first third in
        let (all_sent, all_served, all_received, drained, empty) =
          echo_pipeline tcp session urbs replied refl still answer.up servable
            (second ∙ ap (◌++◌ (written imported)) (sym answer.left))
            (fourth ∙ ap (◌++◌ (written replied)) (sym left)) in
        (
          accepted_it,
          connect-session_on (λ _. connects (ok client)) (as_bytes t) devid imported rep
              imported_it,
          all_sent,
          all_served,
          all_received,
          drained,
          empty,
        )
