-- ===== src/Codec/Parts.antt =====
-- The encoders and decoders of the fixed parts compute the layout of `Codec.Layout`.
use easy_usb.Base.{
  ℕ, zero, suc, ◌*◌, ◌≤◌, ◌≡◌, refl, sym, not, List, [], ◌∷◌, ◌++◌, append_assoc, append-nil, take,
  drop, length, arith, length-drop, length-take, ok, err, if◌then◌else◌, ◌==◌, le→ltb_false, lt→ltb,
  ◌<◌, fail_if_lem,
}
use easy_usb.Bytes.{ByteIo}
use easy_usb.Bytes.Words.{u32_of}
use easy_usb.Wire.{
  UsbipHeaderBasic, UsbipHeaderCmdSubmit, UsbipHeaderRetSubmit, UsbipHeaderCmdUnlink,
  UsbipHeaderRetUnlink,
}
use easy_usb.Codec.{isochronous_not_supported, incomplete_buffer}
use easy_usb.Codec.Fields.{
  is_bad_direction, bad_direction, encode_basic, decode_basic, encode_cmd_submit, decode_cmd_submit,
  encode_ret_submit, decode_ret_submit, put_words, read_words, encode_cmd_unlink, decode_cmd_unlink,
  encode_ret_unlink, decode_ret_unlink,
}
use easy_usb.Codec.Layout.{
  basic_bytes, basic_of, cmd_submit_bytes, cmd_submit_of, ret_submit_bytes, ret_submit_of,
  words_bytes, words_of, cmd_unlink_bytes, cmd_unlink_of, ret_unlink_bytes, ret_unlink_of,
}

-- Five words can be read one after the other.
words_fit :
    (s : List ℕ)
    → 20 ≤ length s
    → (4 ≤ length s)
      × (4 ≤ length (drop 4 s))
      × (4 ≤ length (drop 4 (drop 4 s)))
      × (4 ≤ length (drop 4 (drop 4 (drop 4 s))))
      × (4 ≤ length (drop 4 (drop 4 (drop 4 (drop 4 s)))))
words_fit s h = omega (
  arith,
  length-drop 4 s,
  length-drop 4 (drop 4 s),
  length-drop 4 (drop 4 (drop 4 s)),
  length-drop 4 (drop 4 (drop 4 (drop 4 s))),
)

module _ ⦃io : ByteIo⦄ where
  open io use {
    put_u32_lem, put_i32_lem, put_slice_lem, read_u32_lem, read_i32_lem, put_u32, put_i32,
    put_slice, read_u32, read_i32,
  }

  -- An encoder appends the layout behind its check, and otherwise fails.
  pub encode_basic_lem :
      (b : UsbipHeaderBasic) (buf : List ℕ)
      → encode_basic b buf ≡ (
          if is_bad_direction b.direction
          then err (bad_direction b.direction)
          else ok (buf ++ basic_bytes b))
  unfolding encode_basic basic_bytes
  encode_basic_lem b buf = simp (put_u32_lem, append_assoc, append-nil, fail_if_lem)

  pub encode_cmd_submit_lem :
      (c : UsbipHeaderCmdSubmit) (buf : List ℕ)
      → encode_cmd_submit c buf ≡ (
          if not (c.number_of_packets == 0)
          then err isochronous_not_supported
          else ok (buf ++ cmd_submit_bytes c))
  unfolding encode_cmd_submit cmd_submit_bytes
  encode_cmd_submit_lem c buf =
      simp (put_u32_lem, put_i32_lem, put_slice_lem, append_assoc, fail_if_lem)

  pub encode_ret_submit_lem :
      (r : UsbipHeaderRetSubmit) (buf : List ℕ)
      → encode_ret_submit r buf ≡ (
          if not (r.number_of_packets == 0)
          then err isochronous_not_supported
          else ok (buf ++ ret_submit_bytes r))
  unfolding encode_ret_submit ret_submit_bytes
  encode_ret_submit_lem r buf = simp (put_i32_lem, put_slice_lem, append_assoc, fail_if_lem)

  put_words_lem : (ws buf : List ℕ) → put_words ws buf ≡ buf ++ words_bytes ws
  unfolding put_words words_bytes
  put_words_lem [] buf = sym (append-nil buf)
  put_words_lem (w ∷ ws) buf = simp (put_u32_lem, put_words_lem ws, append_assoc)

  pub encode_cmd_unlink_lem :
      (c : UsbipHeaderCmdUnlink) (buf : List ℕ)
      → encode_cmd_unlink c buf ≡ ok (buf ++ cmd_unlink_bytes c)
  unfolding encode_cmd_unlink cmd_unlink_bytes
  encode_cmd_unlink_lem c buf = simp (put_words_lem, put_u32_lem, append_assoc)

  pub encode_ret_unlink_lem :
      (r : UsbipHeaderRetUnlink) (buf : List ℕ)
      → encode_ret_unlink r buf ≡ ok (buf ++ ret_unlink_bytes r)
  unfolding encode_ret_unlink ret_unlink_bytes
  encode_ret_unlink_lem r buf = simp (put_words_lem, put_i32_lem, append_assoc)

  -- A decoder reads the layout off the front of a long enough slice.
  module _ (buf : List ℕ) where
    pub decode_basic_short :
        length buf < 20 → decode_basic buf ≡ err (incomplete_buffer 20 (length buf))
    unfolding decode_basic
    decode_basic_short h = rw (lt→ltb (length buf) 20 h)

    pub decode_basic_lem :
        20 ≤ length buf
        → decode_basic buf ≡ (
            let b = basic_of (take 20 buf) in
            if is_bad_direction b.direction then err (bad_direction b.direction) else ok b)
    unfolding decode_basic basic_of
    decode_basic_lem h =
        let s = take 20 buf in
        let fit = words_fit s (omega (arith, length-take 20 buf)) in
        rw
          (
            le→ltb_false (length buf) 20 h,
            read_u32_lem s fit.0,
            read_u32_lem _ fit.1,
            read_u32_lem _ fit.2,
            read_u32_lem _ fit.3,
            read_u32_lem _ fit.4,
          )
          (fail_if_lem (is_bad_direction (u32_of (drop 4 (drop 4 (drop 4 s)))))
            (bad_direction (u32_of (drop 4 (drop 4 (drop 4 s))))) (ok (basic_of s)))

    pub decode_cmd_submit_lem :
        28 ≤ length buf → decode_cmd_submit buf ≡ ok (cmd_submit_of (take 28 buf))
    unfolding decode_cmd_submit cmd_submit_of
    decode_cmd_submit_lem h =
        let s = take 28 buf in
        let fit = words_fit s (omega (arith, length-take 28 buf)) in
        rw (
          le→ltb_false (length buf) 28 h,
          read_u32_lem s fit.0,
          read_i32_lem _ fit.1,
          read_i32_lem _ fit.2,
          read_i32_lem _ fit.3,
          read_i32_lem _ fit.4,
        )

    pub decode_ret_submit_lem :
        28 ≤ length buf → decode_ret_submit buf ≡ ok (ret_submit_of (take 28 buf))
    unfolding decode_ret_submit ret_submit_of
    decode_ret_submit_lem h =
        let s = take 28 buf in
        let fit = words_fit s (omega (arith, length-take 28 buf)) in
        rw (
          le→ltb_false (length buf) 28 h,
          read_i32_lem s fit.0,
          read_i32_lem _ fit.1,
          read_i32_lem _ fit.2,
          read_i32_lem _ fit.3,
          read_i32_lem _ fit.4,
        )

  read_words_lem : (n : ℕ) (s : List ℕ) → 4 * n ≤ length s → read_words n s ≡ ok (words_of n s)
  unfolding read_words words_of
  read_words_lem zero s h = refl
  read_words_lem (suc n) s h =
      let more = read_words_lem n (drop 4 s) (omega (arith, length-drop 4 s)) in
      rw (read_u32_lem s (omega arith), more)

  pub decode_cmd_unlink_lem :
      (buf : List ℕ) → 28 ≤ length buf → decode_cmd_unlink buf ≡ ok (cmd_unlink_of (take 28 buf))
  unfolding decode_cmd_unlink cmd_unlink_of
  decode_cmd_unlink_lem buf h =
      let s = take 28 buf in
      let n = length-take 28 buf in
      rw (
        le→ltb_false (length buf) 28 h,
        read_u32_lem s (omega arith),
        read_words_lem 6 (drop 4 s) (omega (arith, length-drop 4 s)),
      )

  pub decode_ret_unlink_lem :
      (buf : List ℕ) → 28 ≤ length buf → decode_ret_unlink buf ≡ ok (ret_unlink_of (take 28 buf))
  unfolding decode_ret_unlink ret_unlink_of
  decode_ret_unlink_lem buf h =
      let s = take 28 buf in
      let n = length-take 28 buf in
      rw (
        le→ltb_false (length buf) 28 h,
        read_i32_lem s (omega arith),
        read_words_lem 6 (drop 4 s) (omega (arith, length-drop 4 s)),
      )
