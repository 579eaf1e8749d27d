-- ===== src/Server/Accepted.antt =====
-- What `accept_device` has taken when it accepts, whatever the peer sends.
use mathlib.Core.Path.{subst}
use easy_usb.Base.{
  All-front, ℕ, ◌≡◌, sym, ap, ◌∙◌, true, false, not, List, [], ◌∷◌, ◌++◌, Result, ok, err, map_err,
  Text, lit, length, take, take_all, arith, All,
}
use easy_usb.Bytes.{ByteIo}
use easy_usb.Bytes.Words.{IsByte}
use easy_usb.Wire.{OpReqImport}
use easy_usb.Codec.{to_text}
use easy_usb.Codec.Import.{decode_op_req_import}
use easy_usb.Codec.Import.Layout.{ReqIsValid, req_bytes}
use easy_usb.Codec.Import.RoundTrip.{encode_op_req_import_lem}
use easy_usb.Codec.Import.Sound.{encode_op_req_import-decode_op_req_import}
use easy_usb.Net.{Tcp, Io, ◌>>=◌, ◌>>◌, done, lift, map_io_err, fail_if_io}
use easy_usb.Net.Takes.{proceed-ok_inv, passed, Takes, read-Takes}
use easy_usb.Net.Silent.{map_err-ok}
use easy_usb.Server.{
  AcceptError, invalid_request, accept_failed, all_zero, read_request, accept_device, with_peer,
}
use easy_usb.Server.Utf8.{is_utf8}

module _ ⦃io : ByteIo⦄ (tcp : Tcp) where
  open tcp use {Stream, read_exact, incoming, written, incoming-IsByte}

  opened :
      (out : Stream × Result AcceptError OpReqImport) (t : Stream) (req : OpReqImport)
      → with_peer tcp out ≡ ok (t, req)
      → (out.0 ≡ t) × (out.1 ≡ ok req)
  opened (u, ok got) t req e = (cc e, cc e)
  opened (u, err x) t req e = absurd (cc e)

  -- A request was taken off the stream, just its bytes, and nothing written.
  pub record Accepts (s t : Stream) (req : OpReqImport) : Type 0 where
    pub valid : ReqIsValid req
    pub named : all_zero req.busid ≡ false
    pub text : is_utf8 req.busid ≡ true
    pub taken : incoming s ≡ req_bytes req ++ incoming t
    pub quiet : written t ≡ written s

  request_bytes :
      (buf : List ℕ) (req : OpReqImport)
      → All IsByte buf
      → length buf ≡ 292
      → decode_op_req_import buf ≡ ok req
      → ReqIsValid req × (req_bytes req ≡ buf)
  request_bytes buf req bytes size e =
      let (v, again) = encode_op_req_import-decode_op_req_import buf req bytes e in
      let same : req_bytes req ≡ take 292 buf = cc (sym (encode_op_req_import_lem req) ∙ again) in
      (v, same ∙ take_all 292 buf (omega (arith, size)))

  -- The tests behind the decoder.
  abbrev tests : OpReqImport → Io Stream AcceptError OpReqImport
  tests req =
      fail_if_io (all_zero req.busid) (invalid_request (lit "empty busid" ∷ []))
      >> (fail_if_io (not (is_utf8 req.busid)) (invalid_request (lit "non-UTF-8 busid" ∷ []))
          >> done req)

  tests-ok :
      (got req : OpReqImport) (t : Stream)
      → (tests got t).1 ≡ ok req
      → (all_zero got.busid ≡ false)
        × (not (is_utf8 got.busid) ≡ false)
        × (got ≡ req)
        × ((tests got t).0 ≡ t)
  tests-ok got req t e =
      let (named, next) = passed (all_zero got.busid) _ _ t req e in
      let (text, next2) =
        passed (not (is_utf8 got.busid)) _ _ t req (ap (λ o. o.1) (sym next) ∙ e) in
      let whole = next ∙ next2 in
      (named, text, cc (ap (λ o. o.1) (sym whole) ∙ e), ap (λ o. o.0) whole)

  abbrev behind_read : List ℕ → Io Stream AcceptError OpReqImport
  behind_read buf =
      lift (map_err (λ e. invalid_request (to_text e)) (decode_op_req_import buf)) >>= tests

  behind_read-Accepts :
      (s t : Stream) (buf : List ℕ) (req : OpReqImport)
      → length buf ≡ 292
      → Takes tcp s t buf
      → (behind_read buf t).1 ≡ ok req
      → Accepts s (behind_read buf t).0 req
  behind_read-Accepts s t buf req size took e =
      let decoding = map_err (λ e. invalid_request (to_text e)) (decode_op_req_import buf) in
      let (got, decoded, next) = proceed-ok_inv (lift decoding t) tests req e in
      let (named, text, same, stays) = tests-ok got req t (ap (λ o. o.1) (sym next) ∙ e) in
      let bytes =
        All-front IsByte buf (incoming t)
          (subst (λ (l : List ℕ). All IsByte l) took.split (incoming-IsByte s)) in
      let (v, read) =
        request_bytes buf got bytes size (map_err-ok _ (decode_op_req_import buf) got decoded) in
      let found : Accepts s t got = record {
        valid = v;
        named = named;
        text = ground (arith, text);
        taken = took.split ∙ ap (λ (l : List ℕ). l ++ incoming t) (sym read);
        quiet = took.quiet;
      } in
      subst (λ (u : Stream). Accepts s u req) (sym (ap (λ o. o.0) next ∙ stays))
        (subst (λ (r : OpReqImport). Accepts s t r) same found)

  -- When `accept_device` accepts, whatever the peer has sent and whether or not the connection is up, it
  -- has taken just the 292 bytes of the request that it returns, whose bus id has a byte that is not 0
  -- and is well-formed UTF-8; and it has written nothing.
  pub accept_device-Accepts :
      (s t : Stream) (req : OpReqImport) → accept_device tcp (ok s) ≡ ok (t, req) → Accepts s t req
  unfolding accept_device read_request
  accept_device-Accepts s t req e =
      let (there, made) = opened (read_request tcp s) t req e in
      let wrap : Text → AcceptError = λ x. accept_failed (lit "read OP_REQ_IMPORT: " ∷ x) in
      let (buf, got, next) =
        proceed-ok_inv (map_io_err wrap (read_exact 292) s) behind_read req made in
      let (size, took) = read-Takes tcp wrap 292 s buf got in
      subst (λ (u : Stream). Accepts s u req) (ap (λ o. o.0) (sym next) ∙ there)
        (behind_read-Accepts s (read_exact 292 s).0 buf req size took
          (ap (λ o. o.1) (sym next) ∙ made))
