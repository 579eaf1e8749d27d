-- ===== src/Server/Contract.antt =====
-- What the echo server of crates/easy-usb-core/src/protocol/server.rs owes its client: which URBs it
-- answers, and with what.
use easy_usb.Base.{ℕ, ◌≡◌, refl, ◌⊎◌, List, Option, none, if◌then◌else◌, ◌==◌}
use easy_usb.Wire.Constants.{cmd_submit, cmd_unlink}
use easy_usb.Wire.Header.{UsbipHeader}
use easy_usb.Codec.Message.{HeaderIsValid, IsEncodable, PayloadMatches, carried, message}
use easy_usb.Server.Replies.{echo_of, unlink_echo_of, announced-cmd_unlink}

-- A header and its payload.
abbrev pub Urb : Type 0
Urb = UsbipHeader × Option (List ℕ)

abbrev pub urb_message : Urb → List ℕ
urb_message (h, p) = message h p

-- What the echo server answers.
abbrev pub answer_of : Urb → Urb
answer_of (h, p) =
    if h.base.command == cmd_submit then (echo_of h, carried h p) else (unlink_echo_of h, none)

-- A valid SUBMIT or UNLINK that can be encoded, with the payload that it announces.
pub record IsServable (urb : Urb) : Type 0 where
  pub valid : HeaderIsValid urb.0
  pub encodable : IsEncodable urb.0 urb.1
  pub matches : PayloadMatches urb.0 urb.1
  pub command : (urb.0.base.command ≡ cmd_submit) ⊎ (urb.0.base.command ≡ cmd_unlink)

pub answer_of-cmd_submit :
    (h : UsbipHeader) (p : Option (List ℕ))
    → h.base.command ≡ cmd_submit
    → answer_of (h, p) ≡ (echo_of h, carried h p)
answer_of-cmd_submit h p c = simp c

pub answer_of-cmd_unlink :
    (h : UsbipHeader) (p : Option (List ℕ))
    → h.base.command ≡ cmd_unlink
    → answer_of (h, p) ≡ (unlink_echo_of h, none)
answer_of-cmd_unlink h p c = simp c

-- An UNLINK carries nothing.
carried-cmd_unlink :
    (h : UsbipHeader) (p : Option (List ℕ)) → h.base.command ≡ cmd_unlink → carried h p ≡ none
carried-cmd_unlink h p c = rw (announced-cmd_unlink h c) refl

pub message-cmd_unlink :
    (h : UsbipHeader) (p : Option (List ℕ))
    → h.base.command ≡ cmd_unlink
    → message h p ≡ message h none
message-cmd_unlink h p c = rw (carried-cmd_unlink h p c, carried-cmd_unlink h none c) refl
