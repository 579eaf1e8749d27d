-- ===== src/Exchange/Pipeline.antt =====
-- URBs that a session sends one after the other, and the echo server that answers them:
-- crates/easy-usb-core/src/protocol/session.rs and server.rs.
pub mod Served
pub mod Sent
pub mod Received
pub mod Round
use easy_usb.Base.{
  ℕ, ◌≡◌, ◌+◌, ◌%◌, ◌⊎◌, List, [], ◌∷◌, Option, none, Result, ok, All, if◌then◌else◌, ◌==◌,
}
use easy_usb.Bytes.{ByteIo}
use easy_usb.Wire.Constants.{cmd_submit, cmd_unlink}
use easy_usb.Wire.Header.{UsbipHeader}
use easy_usb.Codec.{ProtocolError}
use easy_usb.Codec.Message.{HeaderIsValid, IsEncodable, PayloadMatches, carried, message}
use easy_usb.Net.{Tcp, Io, ◌>>◌, done}
use easy_usb.Session.{TcpSession, numbered, send_header}
use easy_usb.Server.Contract.{Urb}

-- The URBs under the numbers from n on, from 2^32 - 1 to 0.
abbrev pub numbered_from : ℕ → List Urb → List Urb
numbered_from n [] = []
numbered_from n ((h, p) ∷ urbs) = (numbered h n, p) ∷ numbered_from ((n + 1) % 4294967296) urbs

module _ ⦃io : ByteIo⦄ (tcp : Tcp) where
  -- `send_header`, for each URB.
  abbrev pub send_all : List Urb → Io (TcpSession tcp) ProtocolError (Unit {0})
  send_all [] = done tt
  send_all ((h, p) ∷ urbs) = send_header tcp h p >> send_all urbs
