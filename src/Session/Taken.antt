-- ===== src/Session/Taken.antt =====
-- What `recv_header_inner` takes off a connection, whatever the peer sends.
use mathlib.Core.Path.{subst}
use easy_usb.Base.{
  ℕ, ◌+◌, ◌≤◌, ◌≡◌, refl, sym, ap, ◌∙◌, not, List, Option, Result, ok, length, arith, length-append,
  ltb, ◌==◌,
}
use easy_usb.Bytes.{ByteIo}
use easy_usb.Wire.Header.{UsbipHeader}
use easy_usb.Codec.{
  ProtocolError, io_error, isochronous_not_supported, buffer_too_large, max_payload_size,
}
use easy_usb.Codec.Header.{decode_header}
use easy_usb.Net.{Tcp, lift, map_io_err}
use easy_usb.Net.Leaves.{payload_block}
use easy_usb.Net.Takes.{proceed-ok_inv, passed, Takes, Takes-then, read-Takes, payload_block-Takes}
use easy_usb.Session.{word_at, payload_len, read_payload, recv_header_inner}

module _ ⦃io : ByteIo⦄ (tcp : Tcp) where
  open tcp use {Stream, read_exact}

  -- What a receive that succeeds took: the bytes that it decoded.
  pub record Took (s : Stream) (out : Stream × Result ProtocolError (UsbipHeader × Option (List ℕ)))
      (taken : List ℕ) : Type 0 where
    pub takes : Takes tcp s out.0 taken
    pub low : 48 ≤ length taken
    pub high : length taken ≤ 48 + max_payload_size
    pub decoded : decode_header taken ≡ out.1

  -- When `recv_header_inner` succeeds, whatever the peer has sent, it has taken between 48 bytes and
  -- 48 bytes and 1 MiB off the stream, it returns what the decoder gives for just these bytes, and it
  -- has written nothing.
  pub recv_header_inner-Took :
      (s : Stream) (h : UsbipHeader) (p : Option (List ℕ))
      → (recv_header_inner tcp s).1 ≡ ok (h, p)
      → (taken : List ℕ) × Took s (recv_header_inner tcp s) taken
  unfolding recv_header_inner read_payload
  recv_header_inner-Took s h p e =
      let (buf, got, next) = proceed-ok_inv (map_io_err io_error (read_exact 48) s) _ (h, p) e in
      let s2 = (read_exact 48 s).0 in
      let (size, first) = read-Takes tcp io_error 48 s buf got in
      let (_, next2) =
        passed (not (word_at 32 buf == 0)) isochronous_not_supported _ s2 (h, p)
          (ap (λ o. o.1) (sym next) ∙ e) in
      let (small, next3) =
        passed (ltb max_payload_size (payload_len buf))
          (buffer_too_large (payload_len buf) max_payload_size) _ s2 (h, p)
          (ap (λ o. o.1) (sym (next ∙ next2)) ∙ e) in
      let (full, read, next4) =
        proceed-ok_inv (payload_block tcp io_error (payload_len buf) buf s2)
          (λ full. lift (decode_header full)) (h, p)
          (ap (λ o. o.1) (sym (next ∙ next2 ∙ next3)) ∙ e) in
      let (more, joined, length_more, second) =
        payload_block-Takes tcp io_error (payload_len buf) buf full s2 read in
      let bounded : payload_len buf ≤ max_payload_size = ground (arith, small) in
      let took : Took s
          ((payload_block tcp io_error (payload_len buf) buf s2).0, decode_header full) full =
        record {
          takes = rw joined (Takes-then tcp s s2 _ buf more first second);
          low = rw joined (omega (arith, length-append buf more, size));
          high = rw joined (omega (arith, length-append buf more, size, length_more, bounded));
          decoded = refl;
        } in
      (
        full,
        subst
            (λ (out : Stream × Result ProtocolError (UsbipHeader × Option (List ℕ))).
              Took s out full)
            (sym (next ∙ next2 ∙ next3 ∙ next4)) took,
      )
