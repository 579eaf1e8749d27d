-- ===== src/Codec/Layout.antt =====
-- The wire format of the fixed parts of a header, written down on its own: the bytes of each
-- structure, and the structure that given bytes spell.
use easy_usb.Base.{ℕ, zero, suc, ◌+◌, ◌≡◌, List, [], ◌∷◌, ◌++◌, take, drop, length, All, arith}
use easy_usb.Bytes.Words.{IsByte, IsU32, be32, u32_of}
use easy_usb.Wire.{
  UsbipHeaderBasic, UsbipHeaderCmdSubmit, UsbipHeaderRetSubmit, UsbipHeaderCmdUnlink,
  UsbipHeaderRetUnlink,
}

-- Five words, then what follows.
abbrev pub five_bytes : (a b c d e : ℕ) → List ℕ → List ℕ
five_bytes a b c d e rest = be32 a ++ (be32 b ++ (be32 c ++ (be32 d ++ (be32 e ++ rest))))

pub length-five_bytes :
    (a b c d e : ℕ) (rest : List ℕ) → length (five_bytes a b c d e rest) ≡ 20 + length rest
unfolding be32
length-five_bytes a b c d e rest = omega arith

unfoldable pub basic_bytes : UsbipHeaderBasic → List ℕ
basic_bytes b = five_bytes b.command b.seqnum b.devid b.direction b.ep []

unfoldable pub basic_of : List ℕ → UsbipHeaderBasic
basic_of s = record {
  command = u32_of s;
  seqnum = u32_of (drop 4 s);
  devid = u32_of (drop 4 (drop 4 s));
  direction = u32_of (drop 4 (drop 4 (drop 4 s)));
  ep = u32_of (drop 4 (drop 4 (drop 4 (drop 4 s))));
}

unfoldable pub cmd_submit_bytes : UsbipHeaderCmdSubmit → List ℕ
cmd_submit_bytes c =
    five_bytes c.transfer_flags c.transfer_buffer_length c.start_frame c.number_of_packets
      c.interval c.setup

unfoldable pub cmd_submit_of : List ℕ → UsbipHeaderCmdSubmit
cmd_submit_of s = record {
  transfer_flags = u32_of s;
  transfer_buffer_length = u32_of (drop 4 s);
  start_frame = u32_of (drop 4 (drop 4 s));
  number_of_packets = u32_of (drop 4 (drop 4 (drop 4 s)));
  interval = u32_of (drop 4 (drop 4 (drop 4 (drop 4 s))));
  setup = take 8 (drop 4 (drop 4 (drop 4 (drop 4 (drop 4 s)))));
}

unfoldable pub ret_submit_bytes : UsbipHeaderRetSubmit → List ℕ
ret_submit_bytes r =
    five_bytes r.status r.actual_length r.start_frame r.number_of_packets r.error_count r.setup

unfoldable pub ret_submit_of : List ℕ → UsbipHeaderRetSubmit
ret_submit_of s = record {
  status = u32_of s;
  actual_length = u32_of (drop 4 s);
  start_frame = u32_of (drop 4 (drop 4 s));
  number_of_packets = u32_of (drop 4 (drop 4 (drop 4 s)));
  error_count = u32_of (drop 4 (drop 4 (drop 4 (drop 4 s))));
  setup = take 8 (drop 4 (drop 4 (drop 4 (drop 4 (drop 4 s)))));
}

-- Words one behind the other, and the first `n` words of a slice.
unfoldable pub words_bytes : List ℕ → List ℕ
words_bytes [] = []
words_bytes (w ∷ ws) = be32 w ++ words_bytes ws

unfoldable pub words_of : ℕ → List ℕ → List ℕ
words_of zero s = []
words_of (suc n) s = u32_of s ∷ words_of n (drop 4 s)

unfoldable pub cmd_unlink_bytes : UsbipHeaderCmdUnlink → List ℕ
cmd_unlink_bytes c = be32 c.seqnum ++ words_bytes c.padding

unfoldable pub cmd_unlink_of : List ℕ → UsbipHeaderCmdUnlink
cmd_unlink_of s = record { seqnum = u32_of s; padding = words_of 6 (drop 4 s) }

unfoldable pub ret_unlink_bytes : UsbipHeaderRetUnlink → List ℕ
ret_unlink_bytes r = be32 r.status ++ words_bytes r.padding

unfoldable pub ret_unlink_of : List ℕ → UsbipHeaderRetUnlink
ret_unlink_of s = record { status = u32_of s; padding = words_of 6 (drop 4 s) }

-- Fields within their types, and arrays of their lengths.
pub record BasicIsValid (b : UsbipHeaderBasic) : Type 0 where
  pub command : IsU32 b.command
  pub seqnum : IsU32 b.seqnum
  pub devid : IsU32 b.devid
  pub direction : IsU32 b.direction
  pub ep : IsU32 b.ep

pub record CmdSubmitIsValid (c : UsbipHeaderCmdSubmit) : Type 0 where
  pub transfer_flags : IsU32 c.transfer_flags
  pub transfer_buffer_length : IsU32 c.transfer_buffer_length
  pub start_frame : IsU32 c.start_frame
  pub number_of_packets : IsU32 c.number_of_packets
  pub interval : IsU32 c.interval
  pub setup_length : length c.setup ≡ 8
  pub setup_bytes : All IsByte c.setup

pub record RetSubmitIsValid (r : UsbipHeaderRetSubmit) : Type 0 where
  pub status : IsU32 r.status
  pub actual_length : IsU32 r.actual_length
  pub start_frame : IsU32 r.start_frame
  pub number_of_packets : IsU32 r.number_of_packets
  pub error_count : IsU32 r.error_count
  pub setup_length : length r.setup ≡ 8
  pub setup_bytes : All IsByte r.setup

pub record CmdUnlinkIsValid (c : UsbipHeaderCmdUnlink) : Type 0 where
  pub seqnum : IsU32 c.seqnum
  pub padding_length : length c.padding ≡ 6
  pub padding_words : All IsU32 c.padding

pub record RetUnlinkIsValid (r : UsbipHeaderRetUnlink) : Type 0 where
  pub status : IsU32 r.status
  pub padding_length : length r.padding ≡ 6
  pub padding_words : All IsU32 r.padding
