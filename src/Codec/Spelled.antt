-- ===== src/Codec/Spelled.antt =====
-- A header spelled by 48 bytes: it is valid, and the bytes are those of its encoding.
use easy_usb.Base.{
  ℕ, ◌≤◌, ◌≡◌, inl, inr, List, ◌==◌, length, All, arith, take, drop, take-append-take-drop,
  Bool-cases, length-take, length-drop, All-take, All-drop,
}
use easy_usb.Bytes.Words.{IsByte}
use easy_usb.Wire.{UsbipHeaderBasic}
use easy_usb.Wire.Constants.{cmd_submit, ret_submit, cmd_unlink}
use easy_usb.Wire.Union.{
  UnionIsValid, of_cmd_unlink-UnionIsValid, of_ret_unlink-UnionIsValid, as_cmd_submit-of_cmd_submit,
  as_ret_submit-of_ret_submit, as_cmd_unlink-of_cmd_unlink, as_ret_unlink-of_ret_unlink,
  of_cmd_submit, of_ret_submit, of_cmd_unlink, of_ret_unlink,
}
use easy_usb.Wire.Header.{UsbipHeader}
use easy_usb.Codec.Layout.{basic_of, cmd_submit_of, ret_submit_of, cmd_unlink_of, ret_unlink_of}
use easy_usb.Codec.Canonical.{
  basic_bytes-basic_of, cmd_submit_bytes-cmd_submit_of, ret_submit_bytes-ret_submit_of,
  cmd_unlink_bytes-cmd_unlink_of, ret_unlink_bytes-ret_unlink_of, basic_of-BasicIsValid,
  cmd_submit_of-CmdSubmitIsValid, ret_submit_of-RetSubmitIsValid, cmd_unlink_of-CmdUnlinkIsValid,
  ret_unlink_of-RetUnlinkIsValid,
}
use easy_usb.Codec.Message.{HeaderIsValid, body_bytes, IsUrbCommand}
use easy_usb.Codec.Encode.{header_bytes}
use easy_usb.Codec.Decode.{union_of, header_with, body_of}

module _ (body : List ℕ) (n : length body ≡ 28) (s : All IsByte body) where
  cmd_submit-UnionIsValid : UnionIsValid (of_cmd_submit (cmd_submit_of body))
  cmd_submit-UnionIsValid =
      let v = cmd_submit_of-CmdSubmitIsValid body s n in
      unfold of_cmd_submit in
      record {
        word0 = v.transfer_flags;
        word1 = v.transfer_buffer_length;
        word2 = v.start_frame;
        word3 = v.number_of_packets;
        word4 = v.interval;
        tail_length = v.setup_length;
        tail_bytes = v.setup_bytes;
      }

  ret_submit-UnionIsValid : UnionIsValid (of_ret_submit (ret_submit_of body))
  ret_submit-UnionIsValid =
      let v = ret_submit_of-RetSubmitIsValid body s n in
      unfold of_ret_submit in
      record {
        word0 = v.status;
        word1 = v.actual_length;
        word2 = v.start_frame;
        word3 = v.number_of_packets;
        word4 = v.error_count;
        tail_length = v.setup_length;
        tail_bytes = v.setup_bytes;
      }

  cmd_unlink-UnionIsValid : UnionIsValid (of_cmd_unlink (cmd_unlink_of body))
  cmd_unlink-UnionIsValid =
      let v = cmd_unlink_of-CmdUnlinkIsValid body s in
      of_cmd_unlink-UnionIsValid _ v.seqnum v.padding_length v.padding_words

  ret_unlink-UnionIsValid : UnionIsValid (of_ret_unlink (ret_unlink_of body))
  ret_unlink-UnionIsValid =
      let v = ret_unlink_of-RetUnlinkIsValid body s in
      of_ret_unlink-UnionIsValid _ v.status v.padding_length v.padding_words

  union_of-UnionIsValid : (c : ℕ) → UnionIsValid (union_of c body)
  unfolding union_of
  union_of-UnionIsValid c = elim (Bool-cases (c == cmd_submit)) [
    | inl e ↦ rw e cmd_submit-UnionIsValid
    | inr e ↦ elim (Bool-cases (c == ret_submit)) [
      | inl f ↦ rw (e, f) ret_submit-UnionIsValid
      | inr f ↦ elim (Bool-cases (c == cmd_unlink)) [
        | inl g ↦ rw (e, f, g) cmd_unlink-UnionIsValid
        | inr g ↦ rw (e, f, g) ret_unlink-UnionIsValid
      ]
    ]
  ]

  -- The bytes of a union that was read from a body are the body.
  body_bytes-header_with :
      (b : UsbipHeaderBasic) → IsUrbCommand b.command → body_bytes (header_with b body) ≡ body
  unfolding body_bytes union_of
  body_bytes-header_with b c =
      let v = cmd_unlink_of-CmdUnlinkIsValid body s in
      let w = ret_unlink_of-RetUnlinkIsValid body s in
      ground (
        arith,
        as_cmd_submit-of_cmd_submit (cmd_submit_of body),
        as_ret_submit-of_ret_submit (ret_submit_of body),
        as_cmd_unlink-of_cmd_unlink (cmd_unlink_of body) v.padding_length v.padding_words,
        as_ret_unlink-of_ret_unlink (ret_unlink_of body) w.padding_length w.padding_words,
        cmd_submit_bytes-cmd_submit_of body n s,
        ret_submit_bytes-ret_submit_of body n s,
        cmd_unlink_bytes-cmd_unlink_of body n s,
        ret_unlink_bytes-ret_unlink_of body n s,
      )

module _ (buf : List ℕ) (n : 48 ≤ length buf) (s : All IsByte buf) where
  -- The header that the first 48 bytes of a buffer spell.
  abbrev pub header_at : UsbipHeader
  header_at = header_with (basic_of (take 20 buf)) (body_of buf)

  length-body_of : length (body_of buf) ≡ 28
  length-body_of = omega (arith, length-take 28 (drop 20 buf), length-drop 20 buf)

  body_of-IsByte : All IsByte (body_of buf)
  body_of-IsByte = All-take IsByte 28 (drop 20 buf) (All-drop IsByte 20 buf s)

  pub header_at-HeaderIsValid : HeaderIsValid header_at
  header_at-HeaderIsValid = record {
    base = basic_of-BasicIsValid (take 20 buf) (All-take IsByte 20 buf s);
    u =
        union_of-UnionIsValid (body_of buf) length-body_of body_of-IsByte
          (basic_of (take 20 buf)).command;
  }

  pub header_bytes-header_at :
      IsUrbCommand (basic_of (take 20 buf)).command → header_bytes header_at ≡ take 48 buf
  header_bytes-header_at c =
      rw
        (
          body_bytes-header_with (body_of buf) length-body_of body_of-IsByte
              (basic_of (take 20 buf)) c,
          basic_bytes-basic_of (take 20 buf) (omega (arith, length-take 20 buf))
              (All-take IsByte 20 buf s),
        )
        (take-append-take-drop 20 28 48 buf (omega arith))
