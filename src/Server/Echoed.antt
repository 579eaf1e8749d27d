-- ===== src/Server/Echoed.antt =====
-- What `serve_urb_echo` has taken and written when it succeeds, whatever the peer sends.
use mathlib.Core.Path.{subst}
use easy_usb.Base.{
  All-front, ℕ, ◌≡◌, ◌≢◌, ◌≤◌, ◌+◌, sym, ap, ◌∙◌, List, ◌++◌, Option, ok, length, arith, All,
  length-append, take-append, take_all,
}
use easy_usb.Bytes.{ByteIo}
use easy_usb.Bytes.Words.{IsByte}
use easy_usb.Wire.Constants.{ret_submit}
use easy_usb.Wire.Header.{UsbipHeader}
use easy_usb.Codec.Message.{announced, carried, message}
use easy_usb.Codec.Encode.{header_bytes}
use easy_usb.Codec.Sound.{
  IsDecoded, decode_header-IsDecoded, HeaderIsValid_of_IsDecoded, header_bytes_of_IsDecoded,
  message_of_IsDecoded,
}
use easy_usb.Net.{Tcp}
use easy_usb.Server.{answer, echo_payload_len, serve_urb_echo}
use easy_usb.Server.Contract.{Urb, urb_message, answer_of, IsServable}
use easy_usb.Server.Serving.{echo_payload_len-header_bytes}
use easy_usb.Server.Answered.{carried_of_IsDecoded, Answers, answer-Answers}
use easy_usb.Server.Steps.{serve_urb_echo-Runs}

module _ ⦃io : ByteIo⦄ (tcp : Tcp) where
  open tcp use {Stream, read_exact, incoming, written, incoming-IsByte}

  -- A URB was taken off the stream, just its message, and its answer written.
  pub record Echoes (s t : Stream) (urb : Urb) : Type 0 where
    pub servable : IsServable urb
    pub taken : incoming s ≡ urb_message urb ++ incoming t
    pub wrote : written t ≡ written s ++ urb_message (answer_of urb)

  -- The bytes that the server read are just the message of what it decoded.
  read_message :
      (h : UsbipHeader) (p : Option (List ℕ)) (buf more : List ℕ)
      → All IsByte (buf ++ more)
      → length buf ≡ 48
      → length more ≡ echo_payload_len buf
      → IsDecoded (buf ++ more) h p
      → h.base.command ≢ ret_submit
      → buf ++ more ≡ message h p
  read_message h p buf more bytes size due r c =
      let v = HeaderIsValid_of_IsDecoded (buf ++ more) h p bytes r in
      let front : header_bytes h ≡ buf =
        header_bytes_of_IsDecoded (buf ++ more) h p bytes r ∙ take-append 48 buf more size in
      let len : echo_payload_len buf ≡ announced h =
        ap echo_payload_len (sym front) ∙ echo_payload_len-header_bytes h v r.command c in
      let whole : length (buf ++ more) ≤ 48 + announced h =
        omega (arith, length-append buf more, size, due, len) in
      sym (message_of_IsDecoded (buf ++ more) h p bytes r ∙ take_all _ (buf ++ more) whole)

  served-command :
      (h : UsbipHeader) (p : Option (List ℕ)) → IsServable (h, p) → h.base.command ≢ ret_submit
  served-command h p i e = ground (arith, i.command, e)

  -- When `serve_urb_echo` succeeds, whatever the peer has sent and whether or not the connection is up,
  -- it has taken just one message off the stream: that of a valid SUBMIT or UNLINK that can be
  -- encoded, with the payload that it announces; and it has written just the message that answers it.
  pub serve_urb_echo-Echoes :
      (s : Stream) (h : UsbipHeader)
      → (serve_urb_echo tcp s).1 ≡ ok h
      → (p : Option (List ℕ)) × Echoes s (serve_urb_echo tcp s).0 (h, p)
  serve_urb_echo-Echoes s h e =
      let (buf, size, (more, p, v, runs)) = serve_urb_echo-Runs tcp s h e in
      let full = buf ++ more in
      let bytes =
        All-front IsByte full (incoming v)
          (subst (λ (l : List ℕ). All IsByte l) runs.takes.split (incoming-IsByte s)) in
      let r = decode_header-IsDecoded full h p runs.decodes.decoded in
      let same : carried h p ≡ p = carried_of_IsDecoded full h p r in
      let answered : Answers tcp (h, p) v (answer tcp h p v) =
        subst (λ (q : Option (List ℕ)). Answers tcp (h, p) v (answer tcp h q v)) same
          (answer-Answers tcp h p v (HeaderIsValid_of_IsDecoded full h p bytes r) r.direction
            r.payload
            (subst (λ (q : Option (List ℕ)). (answer tcp h q v).1 ≡ ok tt) (sym same)
              runs.decodes.answered)) in
      let after : Stream = (answer tcp h p v).0 in
      let read =
        read_message h p buf more bytes size runs.due r (served-command h p answered.servable) in
      let found : Echoes s after (h, p) = record {
        servable = answered.servable;
        taken =
            runs.takes.split
            ∙ ap (λ (l : List ℕ). l ++ incoming v) read
            ∙ ap (λ (l : List ℕ). message h p ++ l) (sym answered.writes.same);
        wrote =
            answered.writes.wrote
            ∙ ap (λ (l : List ℕ). l ++ urb_message (answer_of (h, p))) runs.takes.quiet;
      } in
      (p, subst (λ (u : Stream). Echoes s u (h, p)) (sym runs.decodes.last) found)
