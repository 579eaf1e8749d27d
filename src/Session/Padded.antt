-- ===== src/Session/Padded.antt =====
-- `recv_header_inner` on a message with a fourth word that is not 0.
use easy_usb.Base.{
  ℕ, ◌≡◌, ◌≢◌, refl, ap, ◌∙◌, false, List, [], ◌++◌, Option, ok, err, arith, append_assoc,
  append-nil, ◌==◌,
}
use easy_usb.Bytes.{ByteIo}
use easy_usb.Wire.Header.{UsbipHeader}
use easy_usb.Codec.{io_error, isochronous_not_supported}
use easy_usb.Codec.Header.{decode_header}
use easy_usb.Codec.Message.{
  HeaderIsValid, IsEncodable, PayloadMatches, carried, message, bytes_or_nil,
}
use easy_usb.Codec.Encode.{header_bytes}
use easy_usb.Codec.RoundTrip.{length-header_bytes, decode_joined}
use easy_usb.Net.{Tcp}
use easy_usb.Net.Leaves.{reads}
use easy_usb.Net.Reads.{proceed-ok}
use easy_usb.Session.{word_at, recv_header_inner}
use easy_usb.Session.Framing.{word3_at}

module _ ⦃io : ByteIo⦄ (tcp : Tcp) where
  open tcp use {Stream, read_exact, incoming, IsUp}

  -- A message that the encoder makes, and that the decoder reads back, of a header without packets
  -- whose fourth word is not 0, as the padding of an UNLINK can have it: on a connection that is up, the
  -- session refuses it as isochronous.
  pub recv_header_inner-padded :
      (h : UsbipHeader) (p : Option (List ℕ)) (rest : List ℕ) (s : Stream)
      → HeaderIsValid h
      → IsEncodable h p
      → PayloadMatches h p
      → h.u.word3 ≢ 0
      → IsUp s
      → incoming s ≡ message h p ++ rest
      → (decode_header (message h p) ≡ ok (h, carried h p))
        × ((recv_header_inner tcp s).1 ≡ err isochronous_not_supported)
  unfolding recv_header_inner
  recv_header_inner-padded h p rest s v e m padded up arrives =
      let word3 : word_at 32 (header_bytes h) ≡ h.u.word3 =
        rw (← append-nil (header_bytes h)) (word3_at h v e.command []) in
      let first =
        reads tcp io_error 48 (header_bytes h) (bytes_or_nil (carried h p) ++ rest) s up
          (arrives ∙ append_assoc (header_bytes h) (bytes_or_nil (carried h p)) rest)
          (length-header_bytes h v e.command []) in
      let refused : (word_at 32 (header_bytes h) == 0) ≡ false = ground (arith, word3, padded) in
      (
        decode_joined h p v e m,
        ap (λ o. o.1) (proceed-ok _ _ (header_bytes h) first.result) ∙ rw refused refl,
      )
