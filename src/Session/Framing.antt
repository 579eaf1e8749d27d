-- ===== src/Session/Framing.antt =====
-- The header's own account of its payload agrees with what `recv_header_inner` reads out of the raw
-- bytes.
use easy_usb.Base.{
  ℕ, ◌≡◌, refl, List, ◌++◌, drop, drop-drop, arith, drop-append, append_assoc, inl, inr,
}
use easy_usb.Bytes.Words.{be32, u32_of, u32_of-be32, drop-be32}
use easy_usb.Wire.{UsbipHeaderBasic}
use easy_usb.Wire.Union.{as_cmd_submit, as_ret_submit, as_cmd_unlink, as_ret_unlink}
use easy_usb.Wire.Header.{UsbipHeader}
use easy_usb.Codec.Layout.{
  basic_bytes, BasicIsValid, cmd_submit_bytes, ret_submit_bytes, cmd_unlink_bytes, ret_unlink_bytes,
  words_bytes,
}
use easy_usb.Codec.Message.{HeaderIsValid, announced, body_bytes, IsUrbCommand}
use easy_usb.Codec.Encode.{header_bytes}
use easy_usb.Codec.Fidelity.{length-basic_bytes}
use easy_usb.Session.{word_at, payload_len}

module _ (b : UsbipHeaderBasic) (v : BasicIsValid b) (more : List ℕ) where
  command_at : word_at 0 (basic_bytes b ++ more) ≡ b.command
  unfolding basic_bytes u32_of be32
  command_at = omega (arith, v)

  direction_at : word_at 12 (basic_bytes b ++ more) ≡ b.direction
  unfolding basic_bytes u32_of be32
  direction_at = omega (arith, v)

-- Every body begins with the first four words of the union's memory.
body_front :
    (h : UsbipHeader)
    → IsUrbCommand h.base.command
    → (t : List ℕ) × (body_bytes h
        ≡ be32 h.u.word0 ++ (be32 h.u.word1 ++ (be32 h.u.word2 ++ (be32 h.u.word3 ++ t))))
unfolding body_bytes cmd_submit_bytes ret_submit_bytes cmd_unlink_bytes ret_unlink_bytes words_bytes
    as_cmd_submit as_ret_submit as_cmd_unlink as_ret_unlink
body_front h (inl e) = (be32 h.u.word4 ++ h.u.tail, ground arith)
body_front h (inr (inl e)) = (be32 h.u.word4 ++ h.u.tail, ground arith)
body_front h (inr (inr (inl e))) = (words_bytes (drop 3 (as_cmd_unlink h.u).padding), ground arith)
body_front h (inr (inr (inr e))) = (words_bytes (drop 3 (as_cmd_unlink h.u).padding), ground arith)

module _ (h : UsbipHeader) (v : HeaderIsValid h) (c : IsUrbCommand h.base.command)
    (more : List ℕ) where
  header_front :
      (t : List ℕ) × (drop 20 (header_bytes h ++ more)
        ≡ be32 h.u.word0 ++ (be32 h.u.word1 ++ (be32 h.u.word2 ++ (be32 h.u.word3 ++ t))))
  header_front =
      let (t, e) = body_front h c in
      (
        t ++ more,
        rw
            (
              append_assoc (basic_bytes h.base) (body_bytes h) more,
              drop-append 20 (basic_bytes h.base) (body_bytes h ++ more)
                  (length-basic_bytes h.base),
              e,
            )
            (simp append_assoc),
      )

  pub word1_at : word_at 24 (header_bytes h ++ more) ≡ h.u.word1
  word1_at =
      let (t, e) = header_front in
      rw (← drop-drop 20 4 24 (header_bytes h ++ more) refl, e, drop-be32)
        (u32_of-be32 _ _ v.u.word1)

  pub word3_at : word_at 32 (header_bytes h ++ more) ≡ h.u.word3
  word3_at =
      let (t, e) = header_front in
      rw
        (
          ← drop-drop 20 12 32 (header_bytes h ++ more) refl,
          ← drop-drop 8 4 12 (drop 20 (header_bytes h ++ more)) refl,
          ← drop-drop 4 4 8 (drop 20 (header_bytes h ++ more)) refl,
          e,
          drop-be32,
          drop-be32,
          drop-be32,
        )
        (u32_of-be32 _ _ v.u.word3)

  pub header_command_at : word_at 0 (header_bytes h ++ more) ≡ h.base.command
  header_command_at =
      rw (append_assoc (basic_bytes h.base) (body_bytes h) more)
        (command_at h.base v.base (body_bytes h ++ more))

  -- The payload length that is read out of the raw bytes is the announced one.
  pub payload_len-header_bytes : payload_len (header_bytes h ++ more) ≡ announced h
  unfolding payload_len announced as_cmd_submit as_ret_submit
  payload_len-header_bytes =
      let assoc = append_assoc (basic_bytes h.base) (body_bytes h) more in
      let command : word_at 0 (header_bytes h ++ more) ≡ h.base.command =
        rw assoc (command_at h.base v.base (body_bytes h ++ more)) in
      let direction : word_at 12 (header_bytes h ++ more) ≡ h.base.direction =
        rw assoc (direction_at h.base v.base (body_bytes h ++ more)) in
      rw (command, direction, word1_at) (ground arith)
