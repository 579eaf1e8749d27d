-- ===== src/Server/Accepting.antt =====
-- `accept_device` and `send_op_rep_import` on a connection that is up.
use easy_usb.Base.{
  ℕ, ◌-◌, ◌≤◌, ◌≡◌, refl, ◌∙◌, true, false, not, List, [], ◌∷◌, ◌++◌, Result, ok, err, Text, lit,
  length, take, replicate, arith, min, if◌then◌else◌, Bool-cases, inl, inr, All, All-append,
  All-take, All-replicate, length-append, length-take, length-replicate, take_all,
}
use easy_usb.Bytes.{ByteIo}
use easy_usb.Bytes.Words.{IsByte}
use easy_usb.Wire.{OpReqImport, OpRepImport}
use easy_usb.Codec.{io_error}
use easy_usb.Codec.Import.Layout.{ReqIsValid, RepIsValid, req_bytes, rep_bytes}
use easy_usb.Codec.Import.RoundTrip.{decode_req_exact, encode_op_rep_import_lem}
use easy_usb.Net.{Tcp, proceed, ◌>>◌, done, fail_if_io}
use easy_usb.Net.Reads.{proceed-ok}
use easy_usb.Net.Leaves.{Leaves, reads, writes}
use easy_usb.Handshake.{busid_array, make_import_request}
use easy_usb.Server.{
  AcceptError, invalid_request, accept_failed, all_zero, read_request, accept_device, with_peer,
  send_op_rep_import,
}
use easy_usb.Server.Utf8.{is_utf8}
use easy_usb.Server.Utf8.Padding.{is_utf8-append}

-- The answer to a request, by its bus id.
abbrev pub verdict : OpReqImport → Result AcceptError OpReqImport
verdict req =
    if all_zero req.busid
    then err (invalid_request (lit "empty busid" ∷ []))
    else if not (is_utf8 req.busid)
    then err (invalid_request (lit "non-UTF-8 busid" ∷ []))
    else ok req

module _ ⦃io : ByteIo⦄ (tcp : Tcp) where
  open tcp use {Stream, read_exact, incoming, written, IsUp}

  -- The tests on the bus id.
  judged :
      (req : OpReqImport) (t : Stream)
      → proceed (fail_if_io (all_zero req.busid) (invalid_request (lit "empty busid" ∷ [])) t) (λ _.
        fail_if_io (not (is_utf8 req.busid)) (invalid_request (lit "non-UTF-8 busid" ∷ []))
        >> done req)
        ≡ (t, verdict req)
  judged req t = elim (Bool-cases (all_zero req.busid)) [
    | inl empty ↦ rw empty refl
    | inr named ↦ elim (Bool-cases (is_utf8 req.busid)) [
      | inl text ↦ rw (named, text) refl
      | inr bytes ↦ rw (named, bytes) refl
    ]
  ]

  read_request_lem :
      (req : OpReqImport) (rest : List ℕ) (s : Stream)
      → ReqIsValid req
      → IsUp s
      → incoming s ≡ req_bytes req ++ rest
      → read_request tcp s ≡ ((read_exact 292 s).0, verdict req)
  unfolding read_request
  read_request_lem req rest s v up arrives =
      let (long, decoded) = decode_req_exact req v in
      let first =
        reads tcp (λ (e : Text). accept_failed (lit "read OP_REQ_IMPORT: " ∷ e)) 292 (req_bytes req)
          rest s up arrives long in
      proceed-ok _ _ (req_bytes req) first.result ∙ rw decoded (judged req (read_exact 292 s).0)

  -- On a connection that is up, a valid request is taken off the stream, and it is accepted if its bus
  -- id has a byte that is not 0 and is well-formed UTF-8, and otherwise refused; nothing is written.
  pub accept_device-verdict :
      (req : OpReqImport) (rest : List ℕ) (s : Stream)
      → ReqIsValid req
      → IsUp s
      → incoming s ≡ req_bytes req ++ rest
      → let taken = (read_request tcp s).0 in
        (accept_device tcp (ok s) ≡ with_peer tcp (taken, verdict req))
        × (incoming taken ≡ rest)
        × (written taken ≡ written s)
        × IsUp taken
  unfolding accept_device
  accept_device-verdict req rest s v up arrives =
      let (long, _) = decode_req_exact req v in
      let first = reads tcp accept_failed 292 (req_bytes req) rest s up arrives long in
      rw (read_request_lem req rest s v up arrives) (refl, first.left, first.wrote, first.up)

  -- A valid reply is written just as its 316 bytes.
  pub send_op_rep_import-Leaves :
      (rep : OpRepImport) (rest : List ℕ) (s : Stream)
      → RepIsValid rep
      → IsUp s
      → incoming s ≡ rest
      → Leaves tcp (send_op_rep_import tcp rep s) tt rest (written s ++ rep_bytes rep)
  unfolding send_op_rep_import
  send_op_rep_import-Leaves rep rest s v up e =
      rw (encode_op_rep_import_lem rep v) (writes tcp io_error (rep_bytes rep) rest s up e)

-- The bus id that a client puts into its request.
all_zero-append : (bs cs : List ℕ) → all_zero bs ≡ false → all_zero (bs ++ cs) ≡ false
all_zero-append [] cs h = cc
all_zero-append (b ∷ bs) cs h = ground (arith, h, all_zero-append bs cs)

module _ (busid : List ℕ) where
  pub length-busid_array : length (busid_array busid) ≡ 32
  unfolding busid_array
  length-busid_array = omega (
    arith,
    length-append (take 32 busid) (replicate (32 - min (length busid) 32) 0),
    length-take 32 busid,
    length-replicate {A = ℕ} (32 - min (length busid) 32) 0,
  )

  -- One of at most 32 bytes is kept whole, with zeros behind it.
  pub busid_array-short :
      length busid ≤ 32 → busid_array busid ≡ busid ++ replicate (32 - min (length busid) 32) 0
  unfolding busid_array
  busid_array-short h = rw (take_all 32 busid h) refl

  pub make_import_request-IsValid :
      (devid : ℕ) → All IsByte busid → ReqIsValid (make_import_request busid devid)
  unfolding make_import_request busid_array
  make_import_request-IsValid devid h = record {
    status = omega arith;
    path_length = refl;
    path_bytes = omega arith;
    busid_length = length-busid_array;
    busid_bytes =
        All-append IsByte (take 32 busid) _ (All-take IsByte 32 busid h)
          (All-replicate IsByte _ 0 (omega arith));
  }

  -- The server takes the request for a bus id of 1 to 32 bytes that is UTF-8 and not all zeros.
  pub verdict-make_import_request :
      (devid : ℕ)
      → length busid ≤ 32
      → all_zero busid ≡ false
      → is_utf8 busid ≡ true
      → verdict (make_import_request busid devid) ≡ ok (make_import_request busid devid)
  unfolding make_import_request
  verdict-make_import_request devid short named text =
      let pad = 32 - min (length busid) 32 in
      let same = busid_array-short short in
      let named' : all_zero (busid_array busid) ≡ false =
        rw same (all_zero-append busid (replicate pad 0) named) in
      let text' : is_utf8 (busid_array busid) ≡ true = rw same (is_utf8-append busid pad text) in
      rw (named', text') refl
