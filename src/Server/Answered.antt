-- ===== src/Server/Answered.antt =====
-- What `serve_urb_echo` has done when it succeeds, whatever the peer sends.
use easy_usb.Base.{
  ℕ, ◌≡◌, ◌≢◌, refl, sym, ap, ◌∙◌, List, ◌++◌, Option, none, Result, ok, err, map_err, Text, false,
  not, arith, ◌==◌, inl, inr, ◌⊎◌, Bool-cases,
}
use easy_usb.Bytes.{ByteIo}
use easy_usb.Wire.Constants.{cmd_submit, cmd_unlink}
use easy_usb.Wire.Union.{as_cmd_submit}
use easy_usb.Wire.Header.{UsbipHeader}
use easy_usb.Codec.{ProtocolError, io_error, isochronous_not_supported}
use easy_usb.Codec.Header.{encode_header}
use easy_usb.Codec.Message.{
  HeaderIsValid, HasDirection, IsEncodable, PayloadMatches, announced, carried, message, packets,
}
use easy_usb.Codec.Encode.{encode_header-message}
use easy_usb.Codec.Sound.{matches-accepted, IsDecoded}
use easy_usb.Net.{Tcp, Io, proceed, ◌>>=◌, lift, map_io_err, fail_if_io}
use easy_usb.Net.Takes.{passed}
use easy_usb.Server.{submit_reply, unlink_reply, answer_submit, answer_unlink, answer}
use easy_usb.Server.Replies.{
  reply, reply-IsEncodable, submit_reply-echo_of, unlink_reply-IsEncodable,
  unlink_reply-unlink_echo_of,
}
use easy_usb.Server.Contract.{
  Urb, urb_message, answer_of, IsServable, answer_of-cmd_submit, answer_of-cmd_unlink,
}
use easy_usb.Server.Serving.{answer-cmd_submit, header_cmd_submit-some}

-- The payload that the decoder gives is the one that travels with the header.
pub carried_of_IsDecoded :
    (buf : List ℕ) (h : UsbipHeader) (p : Option (List ℕ)) → IsDecoded buf h p → carried h p ≡ p
carried_of_IsDecoded buf h p r = elim (Bool-cases (announced h == 0)) [
  | inl z ↦ rw z (sym (r.copied ∙ simp z))
  | inr z ↦ rw z refl
]

commands : (c : ℕ) → (c ≡ cmd_submit) ⊎ (c ≡ cmd_unlink) ⊎ ((c ≢ cmd_submit) × (c ≢ cmd_unlink))
commands c = omega arith

module _ ⦃io : ByteIo⦄ (tcp : Tcp) where
  open tcp use {Stream, read_exact, write_all, write_all-ok, write_all-incoming, incoming, written}

  -- A write that succeeds put the bytes behind what was written, and took none off.
  pub record Writes (s t : Stream) (bytes : List ℕ) : Type 0 where
    pub same : incoming t ≡ incoming s
    pub wrote : written t ≡ written s ++ bytes

  Writes-alike :
      {E A : Type 0} (s : Stream) (out out' : Stream × Result E A) (bytes bytes' : List ℕ)
      → out ≡ out'
      → bytes' ≡ bytes
      → Writes s out'.0 bytes'
      → Writes s out.0 bytes
  Writes-alike s out out' bytes bytes' e f w = rw (e, ← f) w

  write-Writes :
      (bytes : List ℕ) (s : Stream)
      → (map_io_err io_error (write_all bytes) s).1 ≡ ok tt
      → Writes s (map_io_err io_error (write_all bytes) s).0 bytes
  write-Writes bytes s e = record {
    same = write_all-incoming bytes s;
    wrote = write_all-ok bytes s (unwrapped (write_all bytes s).1 e);
  }
    where
      unwrapped : (r : Result Text (Unit {0})) → map_err io_error r ≡ ok tt → r ≡ ok tt
      unwrapped (ok x) e = refl
      unwrapped (err x) e = cc

  -- The writing of a reply.
  abbrev pub respond : UsbipHeader → Option (List ℕ) → Io Stream ProtocolError (Unit {0})
  respond r q = lift (encode_header r q) >>= λ encoded. map_io_err io_error (write_all encoded)

  respond-Writes :
      (r : UsbipHeader) (q : Option (List ℕ)) (s : Stream)
      → IsEncodable r q
      → (respond r q s).1 ≡ ok tt
      → Writes s (respond r q s).0 (message r q)
  respond-Writes r q s i = rw (encode_header-message r q i) (write-Writes (message r q) s)

  answer-respond :
      (h : UsbipHeader) (q : Option (List ℕ)) (s : Stream)
      → h.base.command ≡ cmd_submit
      → answer tcp h q s
        ≡ proceed
            (fail_if_io
              (not ((as_cmd_submit h.u).number_of_packets == 0))
              isochronous_not_supported
              s)
            (λ _. respond (submit_reply h (as_cmd_submit h.u) q) q)
  unfolding answer_submit
  answer-respond h q s c = answer-cmd_submit tcp h q s c ∙ rw (header_cmd_submit-some tcp h c) refl

  packets_of-cmd_submit :
      (h : UsbipHeader)
      → h.base.command ≡ cmd_submit
      → not ((as_cmd_submit h.u).number_of_packets == 0) ≡ false
      → packets h ≡ 0
  unfolding packets
  packets_of-cmd_submit h c e = ground (arith, c, e)

  answer-unlink :
      (h : UsbipHeader) (q : Option (List ℕ)) (s : Stream)
      → h.base.command ≡ cmd_unlink
      → answer tcp h q s ≡ respond (unlink_reply h) none s
  unfolding answer answer_unlink
  answer-unlink h q s c = rw c refl

  packets_of-cmd_unlink : (h : UsbipHeader) → h.base.command ≡ cmd_unlink → packets h ≡ 0
  unfolding packets
  packets_of-cmd_unlink h c = rw c refl

  answer-other :
      (h : UsbipHeader) (q : Option (List ℕ)) (s : Stream)
      → h.base.command ≢ cmd_submit
      → h.base.command ≢ cmd_unlink
      → (answer tcp h q s).1 ≢ ok tt
  unfolding answer
  answer-other h q s other another e = ground (arith, other, another, e)

  -- What the server did about a URB that it answers.
  pub record Answers (urb : Urb) (s : Stream) (out : Stream × Result ProtocolError (Unit {0}))
      : Type 0 where
    pub servable : IsServable urb
    pub writes : Writes s out.0 (urb_message (answer_of urb))

  pub answer-Answers :
      (h : UsbipHeader) (p : Option (List ℕ)) (s : Stream)
      → HeaderIsValid h
      → HasDirection h.base.direction
      → PayloadMatches h p
      → (answer tcp h (carried h p) s).1 ≡ ok tt
      → Answers (h, p) s (answer tcp h (carried h p) s)
  answer-Answers h p s v d m e = elim (commands h.base.command) [
    | inl c ↦
        let shape = answer-respond h (carried h p) s c in
        let (bulk, next) =
          passed _ isochronous_not_supported _ s tt (ap (λ o. o.1) (sym shape) ∙ e) in
        let whole = shape ∙ next in
        let i : IsEncodable h p = record {
          direction = d;
          command = inl c;
          bulk = packets_of-cmd_submit h c bulk;
          payload = matches-accepted h p m;
        } in
        record {
          servable = record { valid = v; encodable = i; matches = m; command = inl c };
          writes =
              Writes-alike s _ _ _ _ whole
                (ap (λ (r : UsbipHeader). message r (carried h p)) (submit_reply-echo_of h p m)
                  ∙ ap urb_message (sym (answer_of-cmd_submit h p c)))
                (respond-Writes (reply h p m) (carried h p) s (reply-IsEncodable h p m)
                  (ap (λ o. o.1) (sym whole) ∙ e));
        }
    | inr (inl c) ↦
        let whole = answer-unlink h (carried h p) s c in
        record {
          servable = record {
            valid = v;
            encodable = record {
              direction = d;
              command = inr (inr (inl c));
              bulk = packets_of-cmd_unlink h c;
              payload = matches-accepted h p m;
            };
            matches = m;
            command = inr c;
          };
          writes =
              Writes-alike s _ _ _ _ whole
                (ap (λ (r : UsbipHeader). message r none) (unlink_reply-unlink_echo_of h)
                  ∙ ap urb_message (sym (answer_of-cmd_unlink h p c)))
                (respond-Writes (unlink_reply h) none s (unlink_reply-IsEncodable h d)
                  (ap (λ o. o.1) (sym whole) ∙ e));
        }
    | inr (inr (other, another)) ↦ absurd (answer-other h (carried h p) s other another e)
  ]
