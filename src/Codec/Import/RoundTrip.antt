-- ===== src/Codec/Import/RoundTrip.antt =====
-- What the encoders of OP_REQ_IMPORT and OP_REP_IMPORT write, and that the decoders read it back.
use easy_usb.Base.{
  ℕ, ◌≡◌, ◌≤◌, ◌+◌, ◌%◌, refl, ◌∙◌, List, [], ◌++◌, append_assoc, append-nil, ok, err, arith,
  length, drop, false, ltb, le→ltb_false, length-drop, length-take, if◌then◌else◌, Bool-cases, inl,
  inr,
}
use easy_usb.Bytes.{ByteIo}
use easy_usb.Bytes.Words.{IsByte}
use easy_usb.Wire.{OpReqImport, OpRepImport}
use easy_usb.Codec.{incomplete_buffer}
use easy_usb.Codec.Import.{
  bytes_at, encode_op_req_import, decode_op_req_import, encode_op_rep_import, decode_op_rep_import,
}
use easy_usb.Codec.Import.Layout.{ReqIsValid, RepIsValid, req_bytes, rep_bytes, req_of, rep_of}
use easy_usb.Codec.Import.Fields.{
  req_of-req_bytes, length-req_bytes, rep_of-rep_bytes, length-rep_bytes,
}

module _ ⦃io : ByteIo⦄ where
  open io use {put_u8_lem, put_u16_lem, put_u32_lem, put_slice_lem, read_u16_lem, read_u32_lem}

  -- The encoders write the layouts.
  pub encode_op_req_import_lem : (req : OpReqImport) → encode_op_req_import req ≡ ok (req_bytes req)
  unfolding encode_op_req_import req_bytes
  encode_op_req_import_lem req = simp (put_u32_lem, put_slice_lem, append_assoc)

  small_byte : (b : ℕ) → IsByte b → b % 256 ≡ b
  small_byte b h = omega arith

  pub encode_op_rep_import_lem :
      (rep : OpRepImport) → RepIsValid rep → encode_op_rep_import rep ≡ ok (rep_bytes rep)
  unfolding encode_op_rep_import rep_bytes
  encode_op_rep_import_lem rep v = simp (
    put_u8_lem,
    put_u16_lem,
    put_u32_lem,
    put_slice_lem,
    append_assoc,
    small_byte rep.b_device_class v.b_device_class,
    small_byte rep.b_device_sub_class v.b_device_sub_class,
    small_byte rep.b_device_protocol v.b_device_protocol,
    small_byte rep.b_configuration_value v.b_configuration_value,
    small_byte rep.b_num_configurations v.b_num_configurations,
    small_byte rep.b_num_interfaces v.b_num_interfaces,
  )

  -- A slice that is long enough is read as what it spells, and a shorter one is refused.
  pub decode_op_req_import_lem :
      (buf : List ℕ)
      → decode_op_req_import buf ≡ (
          if ltb (length buf) 292
          then err (incomplete_buffer 292 (length buf))
          else ok (req_of buf))
  unfolding decode_op_req_import req_of
  decode_op_req_import_lem buf = elim (Bool-cases (ltb (length buf) 292)) [
    | inl short ↦ rw short refl
    | inr long ↦
        rw (long, read_u32_lem (bytes_at 0 4 buf) (ground (arith, long, length-take 4 buf)))
  ]

  room : (buf : List ℕ) (k n : ℕ) → k + n ≤ length buf → n ≤ length (bytes_at k n buf)
  room buf k n h = omega (arith, length-take n (drop k buf), length-drop k buf)

  pub decode_op_rep_import_lem :
      (buf : List ℕ)
      → decode_op_rep_import buf ≡ (
          if ltb (length buf) 316
          then err (incomplete_buffer 316 (length buf))
          else ok (rep_of buf))
  unfolding decode_op_rep_import rep_of
  decode_op_rep_import_lem buf = elim (Bool-cases (ltb (length buf) 316)) [
    | inl short ↦ rw short refl
    | inr long ↦
        let enough : 316 ≤ length buf = ground (arith, long) in
        rw (
          long,
          read_u32_lem (bytes_at 0 4 buf) (room buf 0 4 (omega arith)),
          read_u32_lem (bytes_at 292 4 buf) (room buf 292 4 (omega arith)),
          read_u32_lem (bytes_at 296 4 buf) (room buf 296 4 (omega arith)),
          read_u32_lem (bytes_at 300 4 buf) (room buf 300 4 (omega arith)),
          read_u16_lem (bytes_at 304 2 buf) (room buf 304 2 (omega arith)),
          read_u16_lem (bytes_at 306 2 buf) (room buf 306 2 (omega arith)),
          read_u16_lem (bytes_at 308 2 buf) (room buf 308 2 (omega arith)),
        )
  ]

  pub decode_req_bytes :
      (req : OpReqImport) (more : List ℕ)
      → ReqIsValid req
      → decode_op_req_import (req_bytes req ++ more) ≡ ok req
  decode_req_bytes req more v =
      let long : ltb (length (req_bytes req ++ more)) 292 ≡ false =
        le→ltb_false _ 292 (omega (arith, length-req_bytes req more v)) in
      decode_op_req_import_lem (req_bytes req ++ more) ∙ rw (long, req_of-req_bytes req more v) refl

  pub decode_rep_bytes :
      (rep : OpRepImport) (more : List ℕ)
      → RepIsValid rep
      → decode_op_rep_import (rep_bytes rep ++ more) ≡ ok rep
  decode_rep_bytes rep more v =
      let long : ltb (length (rep_bytes rep ++ more)) 316 ≡ false =
        le→ltb_false _ 316 (omega (arith, length-rep_bytes rep v more)) in
      decode_op_rep_import_lem (rep_bytes rep ++ more) ∙ rw (long, rep_of-rep_bytes rep v more) refl

  -- The bytes alone.
  pub decode_req_exact :
      (req : OpReqImport)
      → ReqIsValid req
      → (length (req_bytes req) ≡ 292) × (decode_op_req_import (req_bytes req) ≡ ok req)
  decode_req_exact req v =
      rw (← append-nil (req_bytes req))
        (omega (arith, length-req_bytes req [] v), decode_req_bytes req [] v)

  pub decode_rep_exact :
      (rep : OpRepImport)
      → RepIsValid rep
      → (length (rep_bytes rep) ≡ 316) × (decode_op_rep_import (rep_bytes rep) ≡ ok rep)
  decode_rep_exact rep v =
      rw (← append-nil (rep_bytes rep))
        (omega (arith, length-rep_bytes rep v []), decode_rep_bytes rep [] v)

  -- A request whose fields are within their types is encoded to 292 bytes, and the decoder reads it
  -- back from them, whatever follows.
  pub decode_op_req_import-encode_op_req_import :
      (req : OpReqImport) (more : List ℕ)
      → ReqIsValid req
      → (buf : List ℕ) × (encode_op_req_import req ≡ ok buf)
        × (length buf ≡ 292)
        × (decode_op_req_import (buf ++ more) ≡ ok req)
  decode_op_req_import-encode_op_req_import req more v = (
    req_bytes req,
    encode_op_req_import_lem req,
    (decode_req_exact req v).0,
    decode_req_bytes req more v,
  )

  -- A reply whose fields are within their types is encoded to 316 bytes, and the decoder reads it back
  -- from them, whatever follows.
  pub decode_op_rep_import-encode_op_rep_import :
      (rep : OpRepImport) (more : List ℕ)
      → RepIsValid rep
      → (buf : List ℕ) × (encode_op_rep_import rep ≡ ok buf)
        × (length buf ≡ 316)
        × (decode_op_rep_import (buf ++ more) ≡ ok rep)
  decode_op_rep_import-encode_op_rep_import rep more v = (
    rep_bytes rep,
    encode_op_rep_import_lem rep v,
    (decode_rep_exact rep v).0,
    decode_rep_bytes rep more v,
  )
