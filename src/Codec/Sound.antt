-- ===== src/Codec/Sound.antt =====
-- What a successful `decode_header` guarantees, and that it reads no other form than the encoder's.
use easy_usb.Base.{
  ℕ, ◌+◌, ◌≤◌, ◌≡◌, refl, sym, ap, ◌∙◌, ◌⊎◌, inl, inr, List, ◌++◌, Option, some, ok, ◌==◌, length,
  All, arith, take, drop, take-append-take-drop, Bool-cases, ==_iff, length-take, length-drop,
}
use easy_usb.Codec.{max_payload_size}
use mathlib.Core.Path.{subst, ap₂}
use easy_usb.Bytes.{ByteIo}
use easy_usb.Bytes.Words.{IsByte}
use easy_usb.Wire.Header.{UsbipHeader}
use easy_usb.Codec.Header.{encode_header, decode_header}
use easy_usb.Codec.Layout.{basic_of}
use easy_usb.Codec.Message.{
  HeaderIsValid, announced, packets, IsUrbCommand, HasDirection, PayloadMatches, PayloadIsAccepted,
  IsEncodable, message, carried, bytes_or_nil,
}
use easy_usb.Codec.Spelled.{header_at-HeaderIsValid, header_bytes-header_at}
use easy_usb.Codec.Encode.{header_bytes, encode_header-message}
use easy_usb.Codec.Decode.{
  header_with, body_of, payload_at, command_outcome, decode_outcome, decode_header_lem,
}

-- What `decode_header` promises of a result `(h, p)` that it read from `buf`.
pub record IsDecoded (buf : List ℕ) (h : UsbipHeader) (p : Option (List ℕ)) : Type 0 where
  pub direction : HasDirection h.base.direction
  pub command : IsUrbCommand h.base.command
  pub whole : 48 + announced h ≤ length buf
  pub payload : PayloadMatches h p
  pub copied : p ≡ carried h (some (take (announced h) (drop 48 buf)))
  pub front : h ≡ header_with (basic_of (take 20 buf)) (body_of buf)

payload_at-ok :
    (g h : UsbipHeader) (buf : List ℕ) (p : Option (List ℕ))
    → 48 ≤ length buf
    → payload_at g buf ≡ ok (h, p)
    → (g ≡ h)
      × (48 + announced g ≤ length buf)
      × (p ≡ carried g (some (take (announced g) (drop 48 buf))))
      × ((announced g ≡ 0) ⊎ (announced g ≤ max_payload_size))
payload_at-ok g h buf p n e = ground arith

-- A payload that is cut out of the buffer has the announced length.
carried-PayloadMatches :
    (g : UsbipHeader) (buf : List ℕ) (p : Option (List ℕ))
    → 48 + announced g ≤ length buf
    → p ≡ carried g (some (take (announced g) (drop 48 buf)))
    → (announced g ≡ 0) ⊎ (announced g ≤ max_payload_size)
    → PayloadMatches g p
carried-PayloadMatches g buf p n e m = elim (Bool-cases (announced g == 0)) [
  | inl z ↦ inl ((==_iff (announced g) 0).0 z)
  | inr z ↦ inr (
    take (announced g) (drop 48 buf),
    ground arith,
    omega (arith, length-take (announced g) (drop 48 buf), length-drop 48 buf),
    ground arith,
  )
]

outcome-payload_at :
    (buf : List ℕ) (h : UsbipHeader) (p : Option (List ℕ))
    → decode_outcome buf ≡ ok (h, p)
    → (let b = basic_of (take 20 buf) in
        HasDirection b.direction
        × IsUrbCommand b.command
        × (48 ≤ length buf)
        × (payload_at (header_with b (body_of buf)) buf ≡ ok (h, p)))
unfolding command_outcome
outcome-payload_at buf h p e = ground arith

outcome-IsDecoded :
    (buf : List ℕ) (h : UsbipHeader) (p : Option (List ℕ))
    → decode_outcome buf ≡ ok (h, p)
    → IsDecoded buf h p
outcome-IsDecoded buf h p e =
    let (d, c, n, q) = outcome-payload_at buf h p e in
    let g : UsbipHeader = header_with (basic_of (take 20 buf)) (body_of buf) in
    let (same, whole, copied, bound) = payload_at-ok g h buf p n q in
    subst (λ x. IsDecoded buf x p) same
      (record {
        direction = d;
        command = c;
        whole = whole;
        payload = carried-PayloadMatches g buf p whole copied bound;
        copied = copied;
        front = refl;
      })

pub header_bytes_of_IsDecoded :
    (buf : List ℕ) (h : UsbipHeader) (p : Option (List ℕ))
    → All IsByte buf
    → IsDecoded buf h p
    → header_bytes h ≡ take 48 buf
header_bytes_of_IsDecoded buf h p s r =
    let n : 48 ≤ length buf = omega (arith, r.whole) in
    ap header_bytes r.front
    ∙ header_bytes-header_at buf n s
        (subst (λ x. IsUrbCommand x) (ap (λ x. x.base.command) r.front) r.command)

payload_of_carried :
    (h : UsbipHeader) (p : Option (List ℕ)) (tail : List ℕ)
    → p ≡ carried h (some (take (announced h) tail))
    → bytes_or_nil (carried h p) ≡ take (announced h) tail
payload_of_carried h p tail e = elim (Bool-cases (announced h == 0)) [
  | inl z ↦ rw ((==_iff (announced h) 0).0 z)
  | inr z ↦ rw (e, z)
]

pub message_of_IsDecoded :
    (buf : List ℕ) (h : UsbipHeader) (p : Option (List ℕ))
    → All IsByte buf
    → IsDecoded buf h p
    → message h p ≡ take (48 + announced h) buf
message_of_IsDecoded buf h p s r =
    ap₂ ◌++◌ (header_bytes_of_IsDecoded buf h p s r) (payload_of_carried h p (drop 48 buf) r.copied)
    ∙ take-append-take-drop 48 (announced h) (48 + announced h) buf refl

pub HeaderIsValid_of_IsDecoded :
    (buf : List ℕ) (h : UsbipHeader) (p : Option (List ℕ))
    → All IsByte buf
    → IsDecoded buf h p
    → HeaderIsValid h
HeaderIsValid_of_IsDecoded buf h p s r =
    subst HeaderIsValid (sym r.front) (header_at-HeaderIsValid buf (omega (arith, r.whole)) s)

pub matches-accepted :
    (h : UsbipHeader) (p : Option (List ℕ)) → PayloadMatches h p → PayloadIsAccepted h p
matches-accepted h p (inl z) = inl z
matches-accepted h p (inr (bytes, e, n, m)) = inr (bytes, e, omega arith)

module _ ⦃io : ByteIo⦄ where
  -- A header and payload that the decoder returns: direction and command are known values, the buffer
  -- holds the header and all that it announces, the payload is just that part of the buffer and at
  -- most 1 MiB, and the header is the one that the first 48 bytes spell.
  pub decode_header-IsDecoded :
      (buf : List ℕ) (h : UsbipHeader) (p : Option (List ℕ))
      → decode_header buf ≡ ok (h, p)
      → IsDecoded buf h p
  decode_header-IsDecoded buf h p e = outcome-IsDecoded buf h p (sym (decode_header_lem buf) ∙ e)

  -- From a buffer of bytes the decoder returns valid headers only, and a header without packets is
  -- encoded again, with its payload, to the very bytes that it was read from.
  pub encode_header-decode_header :
      (buf : List ℕ) (h : UsbipHeader) (p : Option (List ℕ))
      → All IsByte buf
      → decode_header buf ≡ ok (h, p)
      → packets h ≡ 0
      → HeaderIsValid h × (encode_header h p ≡ ok (take (48 + announced h) buf))
  encode_header-decode_header buf h p s e z =
      let r = decode_header-IsDecoded buf h p e in
      let q : IsEncodable h p = record {
        direction = r.direction;
        command = r.command;
        bulk = z;
        payload = matches-accepted h p r.payload;
      } in
      (
        HeaderIsValid_of_IsDecoded buf h p s r,
        encode_header-message h p q ∙ ap ok (message_of_IsDecoded buf h p s r),
      )
