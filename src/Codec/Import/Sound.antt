-- ===== src/Codec/Import/Sound.antt =====
-- What the decoders of OP_REQ_IMPORT and OP_REP_IMPORT return, written again.
use easy_usb.Base.{
  ℕ, ◌≡◌, ◌≤◌, ◌+◌, refl, sym, ap, ◌∙◌, List, [], ◌∷◌, ◌++◌, append-nil, ok, err, arith, length,
  take, drop, get_or, get_or-drop, All-get_or, ltb, length-drop, length-take, drop-drop, All,
  All-take, All-drop, if◌then◌else◌, take-append-take-drop, nil_of_length,
}
use easy_usb.Bytes.{ByteIo}
use easy_usb.Bytes.Words.{
  IsByte, be32, be16, u32_of, u16_of, be32_split, be16_split, u32_of-IsU32, u16_of-IsU16,
}
use easy_usb.Wire.{OpReqImport, OpRepImport}
use easy_usb.Codec.{incomplete_buffer}
use easy_usb.Codec.Import.{
  bytes_at, encode_op_req_import, decode_op_req_import, encode_op_rep_import, decode_op_rep_import,
}
use easy_usb.Codec.Import.Layout.{
  ReqIsValid, RepIsValid, front_bytes, req_bytes, device_bytes, rep_bytes, req_of, rep_of,
}
use easy_usb.Codec.Import.RoundTrip.{
  encode_op_req_import_lem, encode_op_rep_import_lem, decode_op_req_import_lem,
  decode_op_rep_import_lem,
}

-- Six bytes taken one by one.
six_again :
    (xs : List ℕ)
    → 6 ≤ length xs
    → get_or xs 0 0
        ∷ get_or xs 1 0
        ∷ get_or xs 2 0
        ∷ get_or xs 3 0
        ∷ get_or xs 4 0
        ∷ get_or xs 5 0
        ∷ []
      ≡ take 6 xs
six_again (a ∷ b ∷ c ∷ d ∷ e ∷ f ∷ r) h = refl
six_again (a ∷ b ∷ c ∷ d ∷ e ∷ []) h = absurd (omega arith)
six_again (a ∷ b ∷ c ∷ d ∷ []) h = absurd (omega arith)
six_again (a ∷ b ∷ c ∷ []) h = absurd (omega arith)
six_again (a ∷ b ∷ []) h = absurd (omega arith)
six_again (a ∷ []) h = absurd (omega arith)
six_again [] h = absurd (omega arith)

module _ (buf : List ℕ) (bytes : All IsByte buf) where
  piece-IsByte : (k n : ℕ) → All IsByte (bytes_at k n buf)
  piece-IsByte k n = All-take IsByte n (drop k buf) (All-drop IsByte k buf bytes)

  length-piece : (k n : ℕ) → k + n ≤ length buf → length (bytes_at k n buf) ≡ n
  length-piece k n h = omega (arith, length-take n (drop k buf), length-drop k buf)

  -- A word is written again as the bytes that it was read from.
  word_again : (k : ℕ) → k + 4 ≤ length buf → be32 (u32_of (bytes_at k 4 buf)) ≡ bytes_at k 4 buf
  word_again k h =
      let n = length-piece k 4 h in
      let none_left : drop 4 (bytes_at k 4 buf) ≡ [] =
        nil_of_length _ (omega (arith, n, length-drop 4 (bytes_at k 4 buf))) in
      sym (append-nil _)
      ∙ ap (◌++◌ (be32 (u32_of (bytes_at k 4 buf)))) (sym none_left)
      ∙ be32_split (bytes_at k 4 buf) (omega (arith, n)) (piece-IsByte k 4)

  half_again : (k : ℕ) → k + 2 ≤ length buf → be16 (u16_of (bytes_at k 2 buf)) ≡ bytes_at k 2 buf
  half_again k h =
      let n = length-piece k 2 h in
      let none_left : drop 2 (bytes_at k 2 buf) ≡ [] =
        nil_of_length _ (omega (arith, n, length-drop 2 (bytes_at k 2 buf))) in
      sym (append-nil _)
      ∙ ap (◌++◌ (be16 (u16_of (bytes_at k 2 buf)))) (sym none_left)
      ∙ be16_split (bytes_at k 2 buf) (omega (arith, n)) (piece-IsByte k 2)

  -- Two neighbouring pieces make one.
  join : (k m n l : ℕ) → k + m ≡ l → bytes_at k m buf ++ bytes_at l n buf ≡ bytes_at k (m + n) buf
  join k m n l e =
      rw (← drop-drop k m l buf e) (take-append-take-drop m n (m + n) (drop k buf) refl)

  front_again :
      292 ≤ length buf
      → front_bytes (u32_of (bytes_at 0 4 buf)) (bytes_at 4 256 buf) (bytes_at 260 32 buf)
        ≡ take 292 buf
  front_again h = rw (word_again 0 (omega arith), join 4 256 32 260 refl, join 0 4 288 4 refl)

  pub req_of-IsValid : 292 ≤ length buf → ReqIsValid (req_of buf)
  unfolding req_of
  req_of-IsValid h = record {
    status = u32_of-IsU32 _ (piece-IsByte 0 4);
    path_length = length-piece 4 256 (omega arith);
    path_bytes = piece-IsByte 4 256;
    busid_length = length-piece 260 32 (omega arith);
    busid_bytes = piece-IsByte 260 32;
  }

  pub req_bytes-req_of : 292 ≤ length buf → req_bytes (req_of buf) ≡ take 292 buf
  unfolding req_bytes req_of
  req_bytes-req_of h = front_again h

  head-IsByte : (k : ℕ) → IsByte (get_or buf k 0)
  head-IsByte k = All-get_or IsByte buf k 0 bytes (omega arith)

  pub rep_of-IsValid : 316 ≤ length buf → RepIsValid (rep_of buf)
  unfolding rep_of
  rep_of-IsValid h = record {
    status = u32_of-IsU32 _ (piece-IsByte 0 4);
    path_length = length-piece 4 256 (omega arith);
    path_bytes = piece-IsByte 4 256;
    busid_length = length-piece 260 32 (omega arith);
    busid_bytes = piece-IsByte 260 32;
    busnum = u32_of-IsU32 _ (piece-IsByte 292 4);
    devnum = u32_of-IsU32 _ (piece-IsByte 296 4);
    speed = u32_of-IsU32 _ (piece-IsByte 300 4);
    id_vendor = u16_of-IsU16 _ (piece-IsByte 304 2);
    id_product = u16_of-IsU16 _ (piece-IsByte 306 2);
    bcd_device = u16_of-IsU16 _ (piece-IsByte 308 2);
    b_device_class = head-IsByte 310;
    b_device_sub_class = head-IsByte 311;
    b_device_protocol = head-IsByte 312;
    b_configuration_value = head-IsByte 313;
    b_num_configurations = head-IsByte 314;
    b_num_interfaces = head-IsByte 315;
  }

  last_again :
      316 ≤ length buf
      → get_or buf 310 0
          ∷ get_or buf 311 0
          ∷ get_or buf 312 0
          ∷ get_or buf 313 0
          ∷ get_or buf 314 0
          ∷ get_or buf 315 0
          ∷ []
        ≡ bytes_at 310 6 buf
  last_again h =
      rw
        (
          ← get_or-drop 310 0 310 buf 0 refl,
          ← get_or-drop 310 1 311 buf 0 refl,
          ← get_or-drop 310 2 312 buf 0 refl,
          ← get_or-drop 310 3 313 buf 0 refl,
          ← get_or-drop 310 4 314 buf 0 refl,
          ← get_or-drop 310 5 315 buf 0 refl,
        )
        (six_again (drop 310 buf) (omega (arith, length-drop 310 buf)))

  device_again : 316 ≤ length buf → device_bytes (rep_of buf) ≡ bytes_at 292 24 buf
  unfolding device_bytes rep_of
  device_again h = rw (
    last_again h,
    word_again 292 (omega arith),
    word_again 296 (omega arith),
    word_again 300 (omega arith),
    half_again 304 (omega arith),
    half_again 306 (omega arith),
    half_again 308 (omega arith),
    join 308 2 6 310 refl,
    join 306 2 8 308 refl,
    join 304 2 10 306 refl,
    join 300 4 12 304 refl,
    join 296 4 16 300 refl,
    join 292 4 20 296 refl,
  )

  pub rep_bytes-rep_of : 316 ≤ length buf → rep_bytes (rep_of buf) ≡ take 316 buf
  unfolding rep_bytes
  rep_bytes-rep_of h =
      let front : front_bytes (rep_of buf).status (rep_of buf).path (rep_of buf).busid
          ≡ take 292 buf =
        unfold rep_of in front_again (omega arith) in
      rw (device_again h, front) (join 0 292 24 292 refl)

module _ ⦃io : ByteIo⦄ where
  -- From a slice of bytes the decoder of requests returns valid requests only, and such a request is
  -- encoded again to the very 292 bytes that it was read from.
  pub encode_op_req_import-decode_op_req_import :
      (buf : List ℕ) (req : OpReqImport)
      → All IsByte buf
      → decode_op_req_import buf ≡ ok req
      → ReqIsValid req × (encode_op_req_import req ≡ ok (take 292 buf))
  encode_op_req_import-decode_op_req_import buf req bytes e =
      let (long, same) = spelled buf req (sym (decode_op_req_import_lem buf) ∙ e) in
      rw (← same) (
        req_of-IsValid buf bytes long,
        encode_op_req_import_lem (req_of buf) ∙ ap ok (req_bytes-req_of buf bytes long),
      )
    where
      spelled :
          (buf : List ℕ) (req : OpReqImport)
          → (if ltb (length buf) 292
              then err (incomplete_buffer 292 (length buf))
              else ok (req_of buf))
            ≡ ok req
          → (292 ≤ length buf) × (req_of buf ≡ req)
      spelled buf req e = ground arith

  -- From a slice of bytes the decoder of replies returns valid replies only, and such a reply is
  -- encoded again to the very 316 bytes that it was read from.
  pub encode_op_rep_import-decode_op_rep_import :
      (buf : List ℕ) (rep : OpRepImport)
      → All IsByte buf
      → decode_op_rep_import buf ≡ ok rep
      → RepIsValid rep × (encode_op_rep_import rep ≡ ok (take 316 buf))
  encode_op_rep_import-decode_op_rep_import buf rep bytes e =
      let (long, same) = spelled buf rep (sym (decode_op_rep_import_lem buf) ∙ e) in
      let v = rep_of-IsValid buf bytes long in
      rw (← same)
        (v, encode_op_rep_import_lem (rep_of buf) v ∙ ap ok (rep_bytes-rep_of buf bytes long))
    where
      spelled :
          (buf : List ℕ) (rep : OpRepImport)
          → (if ltb (length buf) 316
              then err (incomplete_buffer 316 (length buf))
              else ok (rep_of buf))
            ≡ ok rep
          → (316 ≤ length buf) × (rep_of buf ≡ rep)
      spelled buf rep e = ground arith
