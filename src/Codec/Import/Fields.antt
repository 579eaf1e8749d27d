-- ===== src/Codec/Import/Fields.antt =====
-- The fields of OP_REQ_IMPORT and OP_REP_IMPORT, found again in their bytes.
use easy_usb.Base.{
  ℕ, ◌≡◌, ◌+◌, refl, sym, ap, ◌∙◌, List, ◌++◌, append_assoc, arith, length, take, drop, get_or,
  get_or-drop, length-append, take-append, drop-append, drop-drop,
}
use easy_usb.Bytes.Words.{IsU32, be32, be16, u32_of, u16_of, length-be32}
use easy_usb.Wire.{OpReqImport, OpRepImport}
use easy_usb.Codec.Import.{bytes_at}
use easy_usb.Codec.Import.Layout.{
  ReqIsValid, RepIsValid, front_bytes, req_bytes, device_bytes, rep_bytes, req_of, rep_of,
}

-- The front of a message, read back.
module _ (status : ℕ) (path busid : List ℕ) (is_status : IsU32 status)
    (long_path : length path ≡ 256) (long_busid : length busid ≡ 32) (more : List ℕ) where
  abbrev pub front : List ℕ
  front = front_bytes status path busid ++ more

  pub front_split : front ≡ be32 status ++ (path ++ (busid ++ more))
  front_split = simp append_assoc

  pub length-front : length front ≡ 292 + length more
  length-front = omega (
    arith,
    length-append (front_bytes status path busid) more,
    length-append (be32 status) (path ++ busid),
    length-append path busid,
    length-be32 status,
  )

  pub status_at : u32_of (bytes_at 0 4 front) ≡ status
  unfolding be32 u32_of
  status_at = omega arith

  behind_status : drop 4 front ≡ path ++ (busid ++ more)
  behind_status = ap (drop 4) front_split ∙ drop-append 4 (be32 status) _ (length-be32 status)

  pub path_at : bytes_at 4 256 front ≡ path
  path_at = ap (take 256) behind_status ∙ take-append 256 path (busid ++ more) long_path

  behind_path : drop 260 front ≡ busid ++ more
  behind_path =
      sym (drop-drop 4 256 260 front refl)
      ∙ ap (drop 256) behind_status
      ∙ drop-append 256 path (busid ++ more) long_path

  pub busid_at : bytes_at 260 32 front ≡ busid
  busid_at = ap (take 32) behind_path ∙ take-append 32 busid more long_busid

  pub behind_front : drop 292 front ≡ more
  behind_front =
      sym (drop-drop 260 32 292 front refl)
      ∙ ap (drop 32) behind_path
      ∙ drop-append 32 busid more long_busid

pub req_of-req_bytes :
    (req : OpReqImport) (more : List ℕ) → ReqIsValid req → req_of (req_bytes req ++ more) ≡ req
unfolding req_of req_bytes
req_of-req_bytes req more v =
    let n = v.path_length in
    let m = v.busid_length in
    rw (
      status_at req.status req.path req.busid v.status n m more,
      path_at req.status req.path req.busid v.status n m more,
      busid_at req.status req.path req.busid v.status n m more,
    )

pub length-req_bytes :
    (req : OpReqImport) (more : List ℕ)
    → ReqIsValid req
    → length (req_bytes req ++ more) ≡ 292 + length more
unfolding req_bytes
length-req_bytes req more v =
    length-front req.status req.path req.busid v.status v.path_length v.busid_length more

module _ (rep : OpRepImport) (v : RepIsValid rep) (more : List ℕ) where
  behind : drop 292 (rep_bytes rep ++ more) ≡ device_bytes rep ++ more
  unfolding rep_bytes
  behind = rw (append_assoc (front_bytes rep.status rep.path rep.busid) (device_bytes rep) more) (
      behind_front rep.status rep.path rep.busid v.status v.path_length v.busid_length
        (device_bytes rep ++ more))

  -- A piece of the device's bytes.
  piece :
      (j n k : ℕ)
      → 292 + j ≡ k
      → bytes_at k n (rep_bytes rep ++ more) ≡ bytes_at j n (device_bytes rep ++ more)
  piece j n k e =
      ap (take n) (sym (drop-drop 292 j k (rep_bytes rep ++ more) e) ∙ ap (drop j) behind)

  single :
      (j k : ℕ)
      → 292 + j ≡ k
      → get_or (rep_bytes rep ++ more) k 0 ≡ get_or (device_bytes rep ++ more) j 0
  single j k e =
      sym (get_or-drop 292 j k (rep_bytes rep ++ more) 0 e)
      ∙ ap (λ (xs : List ℕ). get_or xs j 0) behind

  words_at :
      (u32_of (bytes_at 292 4 (rep_bytes rep ++ more)) ≡ rep.busnum)
      × (u32_of (bytes_at 296 4 (rep_bytes rep ++ more)) ≡ rep.devnum)
      × (u32_of (bytes_at 300 4 (rep_bytes rep ++ more)) ≡ rep.speed)
  unfolding device_bytes be32 u32_of
  words_at = (
    rw (piece 0 4 292 refl) (omega (arith, v.busnum)),
    rw (piece 4 4 296 refl) (omega (arith, v.devnum)),
    rw (piece 8 4 300 refl) (omega (arith, v.speed)),
  )

  halves_at :
      (u16_of (bytes_at 304 2 (rep_bytes rep ++ more)) ≡ rep.id_vendor)
      × (u16_of (bytes_at 306 2 (rep_bytes rep ++ more)) ≡ rep.id_product)
      × (u16_of (bytes_at 308 2 (rep_bytes rep ++ more)) ≡ rep.bcd_device)
  unfolding device_bytes be32 be16 u16_of
  halves_at = (
    rw (piece 12 2 304 refl) (omega (arith, v.id_vendor)),
    rw (piece 14 2 306 refl) (omega (arith, v.id_product)),
    rw (piece 16 2 308 refl) (omega (arith, v.bcd_device)),
  )

  bytes_in :
      (get_or (rep_bytes rep ++ more) 310 0 ≡ rep.b_device_class)
      × (get_or (rep_bytes rep ++ more) 311 0 ≡ rep.b_device_sub_class)
      × (get_or (rep_bytes rep ++ more) 312 0 ≡ rep.b_device_protocol)
      × (get_or (rep_bytes rep ++ more) 313 0 ≡ rep.b_configuration_value)
      × (get_or (rep_bytes rep ++ more) 314 0 ≡ rep.b_num_configurations)
      × (get_or (rep_bytes rep ++ more) 315 0 ≡ rep.b_num_interfaces)
  unfolding device_bytes be32 be16
  bytes_in = (
    single 18 310 refl,
    single 19 311 refl,
    single 20 312 refl,
    single 21 313 refl,
    single 22 314 refl,
    single 23 315 refl,
  )

  front_at :
      (u32_of (bytes_at 0 4 (rep_bytes rep ++ more)) ≡ rep.status)
      × (bytes_at 4 256 (rep_bytes rep ++ more) ≡ rep.path)
      × (bytes_at 260 32 (rep_bytes rep ++ more) ≡ rep.busid)
  unfolding rep_bytes
  front_at =
      let n = v.path_length in
      let m = v.busid_length in
      let tail = device_bytes rep ++ more in
      rw (append_assoc (front_bytes rep.status rep.path rep.busid) (device_bytes rep) more) (
        status_at rep.status rep.path rep.busid v.status n m tail,
        path_at rep.status rep.path rep.busid v.status n m tail,
        busid_at rep.status rep.path rep.busid v.status n m tail,
      )

  pub rep_of-rep_bytes : rep_of (rep_bytes rep ++ more) ≡ rep
  unfolding rep_of
  rep_of-rep_bytes = rw (
    front_at.0, front_at.1, front_at.2, words_at.0, words_at.1, words_at.2, halves_at.0,
    halves_at.1, halves_at.2, bytes_in.0, bytes_in.1, bytes_in.2, bytes_in.3, bytes_in.4,
    bytes_in.5,
  )

  length-device_bytes : length (device_bytes rep ++ more) ≡ 24 + length more
  unfolding device_bytes be32 be16
  length-device_bytes = omega arith

  pub length-rep_bytes : length (rep_bytes rep ++ more) ≡ 316 + length more
  unfolding rep_bytes
  length-rep_bytes = omega (
    arith,
    ap length (append_assoc (front_bytes rep.status rep.path rep.busid) (device_bytes rep) more),
    length-front rep.status rep.path rep.busid v.status v.path_length v.busid_length
        (device_bytes rep ++ more),
    length-device_bytes,
  )
