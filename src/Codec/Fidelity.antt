-- ===== src/Codec/Fidelity.antt =====
-- The layout of the fixed parts of a header is a bijection between valid structures and bytes.
use easy_usb.Base.{ℕ, zero, suc, ◌+◌, ◌*◌, ◌≡◌, refl, List, [], ◌∷◌, length, All, arith, take_all}
use easy_usb.Bytes.Words.{IsU32, be32, u32_of-be32, drop-be32}
use easy_usb.Wire.{
  UsbipHeaderBasic, UsbipHeaderCmdSubmit, UsbipHeaderRetSubmit, UsbipHeaderCmdUnlink,
  UsbipHeaderRetUnlink,
}
use easy_usb.Codec.Layout.{
  length-five_bytes, basic_bytes, basic_of, cmd_submit_bytes, cmd_submit_of, ret_submit_bytes,
  ret_submit_of, words_bytes, words_of, cmd_unlink_bytes, cmd_unlink_of, ret_unlink_bytes,
  ret_unlink_of, BasicIsValid, CmdSubmitIsValid, RetSubmitIsValid, CmdUnlinkIsValid,
  RetUnlinkIsValid,
}

pub length-basic_bytes : (b : UsbipHeaderBasic) → length (basic_bytes b) ≡ 20
unfolding basic_bytes
length-basic_bytes b = length-five_bytes b.command b.seqnum b.devid b.direction b.ep []

pub basic_of-basic_bytes : (b : UsbipHeaderBasic) → BasicIsValid b → basic_of (basic_bytes b) ≡ b
unfolding basic_bytes basic_of
basic_of-basic_bytes b v = simp (
  drop-be32,
  u32_of-be32 _ _ v.command,
  u32_of-be32 _ _ v.seqnum,
  u32_of-be32 _ _ v.devid,
  u32_of-be32 _ _ v.direction,
  u32_of-be32 _ _ v.ep,
)

pub cmd_submit_of-cmd_submit_bytes :
    (c : UsbipHeaderCmdSubmit) → CmdSubmitIsValid c → cmd_submit_of (cmd_submit_bytes c) ≡ c
unfolding cmd_submit_bytes cmd_submit_of
cmd_submit_of-cmd_submit_bytes c v = simp (
  drop-be32,
  u32_of-be32 _ _ v.transfer_flags,
  u32_of-be32 _ _ v.transfer_buffer_length,
  u32_of-be32 _ _ v.start_frame,
  u32_of-be32 _ _ v.number_of_packets,
  u32_of-be32 _ _ v.interval,
  take_all 8 c.setup (omega arith),
)

pub ret_submit_of-ret_submit_bytes :
    (r : UsbipHeaderRetSubmit) → RetSubmitIsValid r → ret_submit_of (ret_submit_bytes r) ≡ r
unfolding ret_submit_bytes ret_submit_of
ret_submit_of-ret_submit_bytes r v = simp (
  drop-be32,
  u32_of-be32 _ _ v.status,
  u32_of-be32 _ _ v.actual_length,
  u32_of-be32 _ _ v.start_frame,
  u32_of-be32 _ _ v.number_of_packets,
  u32_of-be32 _ _ v.error_count,
  take_all 8 r.setup (omega arith),
)

words_of-words_bytes :
    (ws : List ℕ) (n : ℕ) → length ws ≡ n → All IsU32 ws → words_of n (words_bytes ws) ≡ ws
unfolding words_bytes words_of
words_of-words_bytes [] zero e h = refl
words_of-words_bytes [] (suc n) e h = absurd (omega arith)
words_of-words_bytes (w ∷ ws) zero e h = absurd (omega arith)
words_of-words_bytes (w ∷ ws) (suc n) e h =
    simp (drop-be32, u32_of-be32 _ _ h.0, words_of-words_bytes ws n (omega arith) h.1)

pub cmd_unlink_of-cmd_unlink_bytes :
    (c : UsbipHeaderCmdUnlink) → CmdUnlinkIsValid c → cmd_unlink_of (cmd_unlink_bytes c) ≡ c
unfolding cmd_unlink_bytes cmd_unlink_of
cmd_unlink_of-cmd_unlink_bytes c v = simp (
  drop-be32,
  u32_of-be32 _ _ v.seqnum,
  words_of-words_bytes c.padding 6 v.padding_length v.padding_words,
)

pub ret_unlink_of-ret_unlink_bytes :
    (r : UsbipHeaderRetUnlink) → RetUnlinkIsValid r → ret_unlink_of (ret_unlink_bytes r) ≡ r
unfolding ret_unlink_bytes ret_unlink_of
ret_unlink_of-ret_unlink_bytes r v = simp (
  drop-be32,
  u32_of-be32 _ _ v.status,
  words_of-words_bytes r.padding 6 v.padding_length v.padding_words,
)

pub length-words_bytes : (ws : List ℕ) → length (words_bytes ws) ≡ 4 * length ws
unfolding words_bytes be32
length-words_bytes [] = omega arith
length-words_bytes (w ∷ ws) = omega (arith, length-words_bytes ws)

pub length-cmd_submit_bytes :
    (c : UsbipHeaderCmdSubmit) → length (cmd_submit_bytes c) ≡ 20 + length c.setup
unfolding cmd_submit_bytes
length-cmd_submit_bytes c = length-five_bytes _ _ _ _ _ c.setup

pub length-ret_submit_bytes :
    (r : UsbipHeaderRetSubmit) → length (ret_submit_bytes r) ≡ 20 + length r.setup
unfolding ret_submit_bytes
length-ret_submit_bytes r = length-five_bytes _ _ _ _ _ r.setup

pub length-cmd_unlink_bytes :
    (c : UsbipHeaderCmdUnlink) → length (cmd_unlink_bytes c) ≡ 4 + 4 * length c.padding
unfolding cmd_unlink_bytes be32
length-cmd_unlink_bytes c = omega (arith, length-words_bytes c.padding)

pub length-ret_unlink_bytes :
    (r : UsbipHeaderRetUnlink) → length (ret_unlink_bytes r) ≡ 4 + 4 * length r.padding
unfolding ret_unlink_bytes be32
length-ret_unlink_bytes r = omega (arith, length-words_bytes r.padding)
