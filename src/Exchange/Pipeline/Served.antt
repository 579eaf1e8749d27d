-- ===== src/Exchange/Pipeline/Served.antt =====
-- One URB that the echo server can answer, at the server and back at the client.
use mathlib.Core.Path.{subst}
use easy_usb.Base.{ℕ, ◌≡◌, refl, sym, ap, ◌∙◌, List, ◌++◌, Option, none, inl, inr}
use easy_usb.Bytes.{ByteIo}
use easy_usb.Wire.Union.{as_cmd_submit}
use easy_usb.Wire.Header.{UsbipHeader}
use easy_usb.Codec.Message.{HeaderIsValid, HasDirection, PayloadMatches, carried, message}
use easy_usb.Net.{Tcp}
use easy_usb.Net.Leaves.{Leaves}
use easy_usb.Session.{recv_header_inner}
use easy_usb.Session.Receive.{recv_header_inner-message}
use easy_usb.Server.{unlink_reply, serve_urb_echo}
use easy_usb.Server.Replies.{
  echo_of, unlink_echo_of, reply, submit_reply-echo_of, unlink_reply-unlink_echo_of,
  reply-IsEncodable, reply-PayloadMatches, reply-IsValid, carried-reply, unlink_reply-IsEncodable,
  unlink_reply-IsValid, submit_reply_bulk, unlink_reply_bulk, announced-unlink_reply,
}
use easy_usb.Server.Serving.{serve_urb_echo-cmd_submit, serve_urb_echo-cmd_unlink}
use easy_usb.Server.Contract.{
  Urb, urb_message, answer_of, IsServable, answer_of-cmd_submit, answer_of-cmd_unlink,
  message-cmd_unlink,
}

module _ ⦃io : ByteIo⦄ (tcp : Tcp) where
  open tcp use {Stream, incoming, written, IsUp}

  pub serve_urb_echo-answer_of :
      (urb : Urb) (rest : List ℕ) (s : Stream)
      → IsServable urb
      → IsUp s
      → incoming s ≡ urb_message urb ++ rest
      → Leaves tcp (serve_urb_echo tcp s) urb.0 rest (written s ++ urb_message (answer_of urb))
  serve_urb_echo-answer_of (h, p) rest s i up arrives = elim (i.command) [
    | inl c ↦
        subst (λ (a : Urb). Leaves tcp (serve_urb_echo tcp s) h rest (written s ++ urb_message a))
          (sym (answer_of-cmd_submit h p c))
          (serve_urb_echo-cmd_submit tcp h p rest s i.valid i.encodable i.matches c up arrives)
    | inr c ↦
        subst (λ (a : Urb). Leaves tcp (serve_urb_echo tcp s) h rest (written s ++ urb_message a))
          (sym (answer_of-cmd_unlink h p c))
          (serve_urb_echo-cmd_unlink tcp h rest s i.valid i.encodable.direction c up
            (arrives ∙ ap (λ (m : List ℕ). m ++ rest) (message-cmd_unlink h p c)))
  ]

  -- The client reads a reply whole, and it is the answer of the contract.
  receive_submit :
      (h : UsbipHeader) (p : Option (List ℕ)) (rest : List ℕ) (s : Stream)
      → HeaderIsValid h
      → (m : PayloadMatches h p) → IsUp s
      → incoming s ≡ message (echo_of h) (carried h p) ++ rest
      → Leaves tcp (recv_header_inner tcp s) (echo_of h, carried h p) rest (written s)
  receive_submit h p rest s v m up arrives =
      let same = submit_reply-echo_of h p m in
      let got =
        recv_header_inner-message tcp (reply h p m) (carried h p) rest s (reply-IsValid h p m v)
          (reply-IsEncodable h p m) (reply-PayloadMatches h p m)
          (submit_reply_bulk h (as_cmd_submit h.u) (carried h p)) up
          (arrives ∙ ap (λ (r : UsbipHeader). message r (carried h p) ++ rest) (sym same)) in
      subst
        (λ (r : UsbipHeader).
          Leaves tcp (recv_header_inner tcp s) (r, carried h p) rest (written s))
        same
        (subst
          (λ (q : Option (List ℕ)).
            Leaves tcp (recv_header_inner tcp s) (reply h p m, q) rest (written s))
          (carried-reply h p m) got)

  receive_unlink :
      (h : UsbipHeader) (rest : List ℕ) (s : Stream)
      → HeaderIsValid h
      → HasDirection h.base.direction
      → IsUp s
      → incoming s ≡ message (unlink_echo_of h) none ++ rest
      → Leaves tcp (recv_header_inner tcp s) (unlink_echo_of h, none) rest (written s)
  receive_unlink h rest s v d up arrives =
      let same = unlink_reply-unlink_echo_of h in
      let nothing : carried (unlink_reply h) none ≡ none = rw (announced-unlink_reply h) refl in
      let got =
        recv_header_inner-message tcp (unlink_reply h) none rest s (unlink_reply-IsValid h v)
          (unlink_reply-IsEncodable h d) (inl (announced-unlink_reply h)) (unlink_reply_bulk h) up
          (arrives ∙ ap (λ (r : UsbipHeader). message r none ++ rest) (sym same)) in
      subst (λ (r : UsbipHeader). Leaves tcp (recv_header_inner tcp s) (r, none) rest (written s))
        same
        (subst
          (λ (q : Option (List ℕ)).
            Leaves tcp (recv_header_inner tcp s) (unlink_reply h, q) rest (written s))
          nothing got)

  pub recv_header_inner-answer_of :
      (urb : Urb) (rest : List ℕ) (s : Stream)
      → IsServable urb
      → IsUp s
      → incoming s ≡ urb_message (answer_of urb) ++ rest
      → Leaves tcp (recv_header_inner tcp s) (answer_of urb) rest (written s)
  recv_header_inner-answer_of (h, p) rest s i up arrives = elim (i.command) [
    | inl c ↦
        let same = answer_of-cmd_submit h p c in
        subst (λ (a : Urb). Leaves tcp (recv_header_inner tcp s) a rest (written s)) (sym same)
          (receive_submit h p rest s i.valid i.matches up
            (arrives ∙ ap (λ (a : Urb). urb_message a ++ rest) same))
    | inr c ↦
        let same = answer_of-cmd_unlink h p c in
        subst (λ (a : Urb). Leaves tcp (recv_header_inner tcp s) a rest (written s)) (sym same)
          (receive_unlink h rest s i.valid i.encodable.direction up
            (arrives ∙ ap (λ (a : Urb). urb_message a ++ rest) same))
  ]
