-- ===== src/Codec.antt =====
-- crates/easy-usb-core/src/protocol/codec.rs: `ProtocolError` with its messages, and the sizes that
-- `size_of` gives. The functions are in the children.
pub mod Fields
pub mod Import
pub mod Header
pub mod Layout
pub mod Fidelity
pub mod Canonical
pub mod Parts
pub mod Message
pub mod Encode
pub mod Decode
pub mod RoundTrip
pub mod Sound
pub mod Spelled
use easy_usb.Base.{ℕ, ◌+◌, List, [], ◌∷◌, Text, lit, dec, hex}

pub data ProtocolError : Type 0 where
  incomplete_buffer : (needed available : ℕ) → ProtocolError
  invalid_command : (command : ℕ) → ProtocolError
  invalid_device_speed : (value : ℕ) → ProtocolError
  buffer_too_large : (size max : ℕ) → ProtocolError
  isochronous_not_supported : ProtocolError
  encoding_error : Text → ProtocolError
  io_error : Text → ProtocolError

-- `to_string`, from the `#[error]` attributes.
unfoldable pub to_text : ProtocolError → Text
to_text (incomplete_buffer needed available) =
    lit "incomplete buffer: need " ∷ dec needed ∷ lit " bytes, have " ∷ dec available ∷ []
to_text (invalid_command command) = lit "invalid command: 0x" ∷ hex 8 command ∷ []
to_text (invalid_device_speed value) = lit "invalid device speed: " ∷ dec value ∷ []
to_text (buffer_too_large size max) =
    lit "buffer too large: " ∷ dec size ∷ lit " bytes exceeds maximum " ∷ dec max ∷ []
to_text isochronous_not_supported = lit "isochronous transfers not supported in v1" ∷ []
to_text (encoding_error e) = lit "encoding error: " ∷ e
to_text (io_error e) = lit "I/O error: " ∷ e

abbrev pub max_payload_size : ℕ
max_payload_size = 1_048_576

abbrev pub basic_header_size : ℕ
basic_header_size = 20

abbrev pub cmd_header_size : ℕ
cmd_header_size = 28

abbrev pub payload_offset : ℕ
payload_offset = 48
