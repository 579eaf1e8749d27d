-- ===== src/Codec/Message.antt =====
-- A whole message on the wire, described apart from the code: which headers are valid, how many
-- payload bytes a header announces, and the bytes of its command body.
use easy_usb.Base.{
  ℕ, ◌≡◌, ◌≤◌, Option, none, some, ◌⊎◌, List, [], ◌++◌, ◌==◌, if◌then◌else◌, length, arith,
}
use easy_usb.Bytes.Words.{is_positive}
use easy_usb.Wire.Constants.{
  cmd_submit, ret_submit, cmd_unlink, ret_unlink, usbip_dir_out, usbip_dir_in,
}
use easy_usb.Wire.Union.{
  UsbipHeaderUnion, UnionIsValid, as_cmd_submit, as_ret_submit, as_cmd_unlink, as_ret_unlink,
  length-padding, padding-IsU32,
}
use easy_usb.Wire.Header.{UsbipHeader}
use easy_usb.Codec.{max_payload_size}
use easy_usb.Codec.Header.{cmd_has_payload}
use easy_usb.Codec.Layout.{
  BasicIsValid, CmdSubmitIsValid, RetSubmitIsValid, CmdUnlinkIsValid, RetUnlinkIsValid, basic_bytes,
  cmd_submit_bytes, ret_submit_bytes, cmd_unlink_bytes, ret_unlink_bytes,
}
use easy_usb.Codec.Fidelity.{
  length-cmd_submit_bytes, length-ret_submit_bytes, length-cmd_unlink_bytes,
  length-ret_unlink_bytes,
}

-- A header of which every field is within its type.
pub record HeaderIsValid (h : UsbipHeader) : Type 0 where
  pub base : BasicIsValid h.base
  pub u : UnionIsValid h.u

-- The number of payload bytes behind the header.
unfoldable pub announced : UsbipHeader → ℕ
announced h =
    if h.base.command == cmd_submit
    then (if cmd_has_payload h.base.direction (as_cmd_submit h.u)
        then (as_cmd_submit h.u).transfer_buffer_length
        else 0)
    else if h.base.command == ret_submit
    then (if is_positive (as_ret_submit h.u).actual_length
        then (as_ret_submit h.u).actual_length
        else 0)
    else 0

-- The 28 bytes behind the basic header.
unfoldable pub body_bytes : UsbipHeader → List ℕ
body_bytes h =
    if h.base.command == cmd_submit
    then cmd_submit_bytes (as_cmd_submit h.u)
    else if h.base.command == ret_submit
    then ret_submit_bytes (as_ret_submit h.u)
    else if h.base.command == cmd_unlink
    then cmd_unlink_bytes (as_cmd_unlink h.u)
    else if h.base.command == ret_unlink
    then ret_unlink_bytes (as_ret_unlink h.u)
    else []

-- The four commands of an URB message.
abbrev pub IsUrbCommand : ℕ → Type 0
IsUrbCommand c = (c ≡ cmd_submit) ⊎ (c ≡ ret_submit) ⊎ (c ≡ cmd_unlink) ⊎ (c ≡ ret_unlink)

-- The packet counts are 0: no isochronous transfer.
unfoldable pub packets : UsbipHeader → ℕ
packets h =
    if h.base.command == cmd_submit
    then (as_cmd_submit h.u).number_of_packets
    else if h.base.command == ret_submit
    then (as_ret_submit h.u).number_of_packets
    else 0

module _ {u : UsbipHeaderUnion} (v : UnionIsValid u) where
  pub as_cmd_submit-IsValid : CmdSubmitIsValid (as_cmd_submit u)
  unfolding as_cmd_submit
  as_cmd_submit-IsValid = record {
    transfer_flags = v.word0;
    transfer_buffer_length = v.word1;
    start_frame = v.word2;
    number_of_packets = v.word3;
    interval = v.word4;
    setup_length = v.tail_length;
    setup_bytes = v.tail_bytes;
  }

  pub as_ret_submit-IsValid : RetSubmitIsValid (as_ret_submit u)
  unfolding as_ret_submit
  as_ret_submit-IsValid = record {
    status = v.word0;
    actual_length = v.word1;
    start_frame = v.word2;
    number_of_packets = v.word3;
    error_count = v.word4;
    setup_length = v.tail_length;
    setup_bytes = v.tail_bytes;
  }

  pub as_cmd_unlink-IsValid : CmdUnlinkIsValid (as_cmd_unlink u)
  unfolding as_cmd_unlink
  as_cmd_unlink-IsValid = record {
    seqnum = v.word0;
    padding_length = length-padding u;
    padding_words = padding-IsU32 u v.word1 v.word2 v.word3 v.word4 v.tail_bytes;
  }

  pub as_ret_unlink-IsValid : RetUnlinkIsValid (as_ret_unlink u)
  unfolding as_ret_unlink
  as_ret_unlink-IsValid = record {
    status = v.word0;
    padding_length = length-padding u;
    padding_words = padding-IsU32 u v.word1 v.word2 v.word3 v.word4 v.tail_bytes;
  }

pub length-body_bytes :
    (h : UsbipHeader) → HeaderIsValid h → IsUrbCommand h.base.command → length (body_bytes h) ≡ 28
unfolding body_bytes
length-body_bytes h v c = ground (
  arith,
  length-cmd_submit_bytes (as_cmd_submit h.u),
  length-ret_submit_bytes (as_ret_submit h.u),
  length-cmd_unlink_bytes (as_cmd_unlink h.u),
  length-ret_unlink_bytes (as_ret_unlink h.u),
  (as_cmd_submit-IsValid v.u).setup_length,
  (as_ret_submit-IsValid v.u).setup_length,
  (as_cmd_unlink-IsValid v.u).padding_length,
  (as_ret_unlink-IsValid v.u).padding_length,
)

abbrev pub HasDirection : ℕ → Type 0
HasDirection d = (d ≡ usbip_dir_out) ⊎ (d ≡ usbip_dir_in)

-- No payload is announced, or there is one of at most 1 MiB.
abbrev pub PayloadIsAccepted : UsbipHeader → Option (List ℕ) → Type 0
PayloadIsAccepted h p =
    (announced h ≡ 0) ⊎ ((bytes : List ℕ) × (p ≡ some bytes) × (length bytes ≤ max_payload_size))

-- No payload is announced, or there is one of just the announced length, at most 1 MiB.
abbrev pub PayloadMatches : UsbipHeader → Option (List ℕ) → Type 0
PayloadMatches h p =
    (announced h ≡ 0)
    ⊎ ((bytes : List ℕ) × (p ≡ some bytes)
        × (length bytes ≡ announced h)
        × (announced h ≤ max_payload_size))

-- The payload that travels with the header.
abbrev pub carried : UsbipHeader → Option (List ℕ) → Option (List ℕ)
carried h p = if announced h == 0 then none else p

-- What `encode_header` accepts.
pub record IsEncodable (h : UsbipHeader) (p : Option (List ℕ)) : Type 0 where
  pub direction : HasDirection h.base.direction
  pub command : IsUrbCommand h.base.command
  pub bulk : packets h ≡ 0
  pub payload : PayloadIsAccepted h p

abbrev pub bytes_or_nil : Option (List ℕ) → List ℕ
bytes_or_nil none = []
bytes_or_nil (some bytes) = bytes

-- The whole message.
abbrev pub message : UsbipHeader → Option (List ℕ) → List ℕ
message h p = (basic_bytes h.base ++ body_bytes h) ++ bytes_or_nil (carried h p)

-- The payload that travels has the announced length, which is not above the limit.
pub length-carried :
    (h : UsbipHeader) (p : Option (List ℕ))
    → PayloadMatches h p
    → (length (bytes_or_nil (carried h p)) ≡ announced h) × (announced h ≤ max_payload_size)
length-carried h none m = ground arith
length-carried h (some bytes) m = ground arith
