-- ===== src/Runs/CodecTests.antt =====
-- Round trips of URBs: tests of crates/easy-usb-core/src/protocol/codec.rs on the model, over the plain bytes.
use easy_usb.Base.{
  ℕ, ◌+◌, ◌≡◌, refl, Bool, true, ◌&&◌, List, [], ◌∷◌, Option, none, some, replicate, length, ◌==◌,
}
use easy_usb.Bytes.Words.{be32, be16, u32_of, u16_of}
use easy_usb.PlainBytes.{plain_bytes}
use easy_usb.Wire.Header.{UsbipHeader}
use easy_usb.Wire.Union.{of_cmd_submit, as_cmd_submit, of_ret_submit, as_ret_submit}
use easy_usb.Wire.Constants.{cmd_submit, ret_submit, usbip_dir_in, usbip_dir_out, usbip_urb_dir_in}
use easy_usb.Codec.{payload_offset}
use easy_usb.Codec.Header.{
  encode_header, decode_header, encode_command, decode_command, append_payload, cut_payload,
  encode_cmd_submit_arm, encode_ret_submit_arm, decode_cmd_submit_arm, decode_ret_submit_arm,
}
use easy_usb.Codec.Fields.{
  encode_basic, decode_basic, encode_cmd_submit, decode_cmd_submit, encode_ret_submit,
  decode_ret_submit,
}
use easy_usb.Runs.Outcomes.{same_bytes, holds, has_payload, has_none}
use easy_usb.Runs.Fixtures.{make_control_cmd_submit, control_payload}

abbrev make_intr_cmd_submit : UsbipHeader
make_intr_cmd_submit = record {
  base = record {
    command = cmd_submit;
    seqnum = 2;
    devid = 1;
    direction = usbip_dir_in;
    ep = 0x81;
  };
  u = of_cmd_submit (record {
    transfer_flags = usbip_urb_dir_in;
    transfer_buffer_length = 8;
    start_frame = 0;
    number_of_packets = 0;
    interval = 10;
    setup = replicate 8 0;
  });
}

abbrev make_bulk_cmd_submit : UsbipHeader
make_bulk_cmd_submit = record {
  base = record {
    command = cmd_submit;
    seqnum = 3;
    devid = 2;
    direction = usbip_dir_out;
    ep = 0x02;
  };
  u = of_cmd_submit (record {
    transfer_flags = 0;
    transfer_buffer_length = 512;
    start_frame = 0;
    number_of_packets = 0;
    interval = 0;
    setup = replicate 8 0;
  });
}

abbrev make_ret_submit : UsbipHeader
make_ret_submit = record {
  base = record {
    command = ret_submit;
    seqnum = 3;
    devid = 2;
    direction = usbip_dir_in;
    ep = 0x02;
  };
  u = of_ret_submit (record {
    status = 0;
    actual_length = 512;
    start_frame = 0;
    number_of_packets = 0;
    error_count = 0;
    setup = replicate 8 0;
  });
}

-- A header is encoded, its message checked, decoded, and what comes back checked.
abbrev round_trip :
    UsbipHeader → Option (List ℕ) → (List ℕ → Bool) → (UsbipHeader × Option (List ℕ) → Bool) → Bool
round_trip h p long back =
    holds (λ buf. long buf && holds back (decode_header buf)) (encode_header h p)

abbrev roundtrip_control_transfer : Bool
roundtrip_control_transfer =
    round_trip make_control_cmd_submit (some control_payload)
      (λ buf. length buf == payload_offset + 8)
      (λ out.
        let cmd = as_cmd_submit out.0.u in
        (out.0.base.command == cmd_submit)
        && (out.0.base.seqnum == 1)
        && (cmd.transfer_buffer_length == 8)
        && same_bytes cmd.setup (0x80 ∷ 0x06 ∷ 0x00 ∷ 0x01 ∷ 0x00 ∷ 0x00 ∷ 0x12 ∷ 0x00 ∷ [])
        && has_payload control_payload out.1)

roundtrip_control_transfer_passes : roundtrip_control_transfer ≡ true
unfolding encode_header decode_header encode_command decode_command append_payload cut_payload
    encode_cmd_submit_arm encode_ret_submit_arm decode_cmd_submit_arm decode_ret_submit_arm
    encode_basic decode_basic encode_cmd_submit decode_cmd_submit encode_ret_submit
    decode_ret_submit of_cmd_submit as_cmd_submit of_ret_submit as_ret_submit be32 be16 u32_of
    u16_of
roundtrip_control_transfer_passes = refl

abbrev roundtrip_interrupt_transfer : Bool
roundtrip_interrupt_transfer =
    round_trip make_intr_cmd_submit none (λ _. true)
      (λ out.
        let cmd = as_cmd_submit out.0.u in
        (out.0.base.command == cmd_submit)
        && (out.0.base.direction == usbip_dir_in)
        && (cmd.transfer_flags == usbip_urb_dir_in)
        && (cmd.interval == 10)
        && (cmd.transfer_buffer_length == 8)
        && has_none out.1)

roundtrip_interrupt_transfer_passes : roundtrip_interrupt_transfer ≡ true
unfolding encode_header decode_header encode_command decode_command append_payload cut_payload
    encode_cmd_submit_arm encode_ret_submit_arm decode_cmd_submit_arm decode_ret_submit_arm
    encode_basic decode_basic encode_cmd_submit decode_cmd_submit encode_ret_submit
    decode_ret_submit of_cmd_submit as_cmd_submit of_ret_submit as_ret_submit be32 be16 u32_of
    u16_of
roundtrip_interrupt_transfer_passes = refl

abbrev roundtrip_bulk_transfer : Bool
roundtrip_bulk_transfer =
    round_trip make_bulk_cmd_submit (some (replicate 512 0xaa))
      (λ buf. length buf == payload_offset + 512)
      (λ out.
        (out.0.base.command == cmd_submit)
        && (out.0.base.ep == 2)
        && ((as_cmd_submit out.0.u).transfer_buffer_length == 512)
        && has_payload (replicate 512 0xaa) out.1)

roundtrip_bulk_transfer_passes : roundtrip_bulk_transfer ≡ true
unfolding encode_header decode_header encode_command decode_command append_payload cut_payload
    encode_cmd_submit_arm encode_ret_submit_arm decode_cmd_submit_arm decode_ret_submit_arm
    encode_basic decode_basic encode_cmd_submit decode_cmd_submit encode_ret_submit
    decode_ret_submit of_cmd_submit as_cmd_submit of_ret_submit as_ret_submit be32 be16 u32_of
    u16_of
roundtrip_bulk_transfer_passes = refl

abbrev roundtrip_ret_submit : Bool
roundtrip_ret_submit =
    round_trip make_ret_submit (some (replicate 512 0xbb)) (λ _. true)
      (λ out.
        let ret = as_ret_submit out.0.u in
        (ret.status == 0) && (ret.actual_length == 512) && has_payload (replicate 512 0xbb) out.1)

roundtrip_ret_submit_passes : roundtrip_ret_submit ≡ true
unfolding encode_header decode_header encode_command decode_command append_payload cut_payload
    encode_cmd_submit_arm encode_ret_submit_arm decode_cmd_submit_arm decode_ret_submit_arm
    encode_basic decode_basic encode_cmd_submit decode_cmd_submit encode_ret_submit
    decode_ret_submit of_cmd_submit as_cmd_submit of_ret_submit as_ret_submit be32 be16 u32_of
    u16_of
roundtrip_ret_submit_passes = refl

abbrev zero_transfer_buffer_length_no_payload : Bool
zero_transfer_buffer_length_no_payload =
    round_trip
      (record {
        base = record {
          command = cmd_submit;
          seqnum = 4;
          devid = 0;
          direction = usbip_dir_out;
          ep = 0;
        };
        u = of_cmd_submit (record {
          transfer_flags = 0;
          transfer_buffer_length = 0;
          start_frame = 0;
          number_of_packets = 0;
          interval = 0;
          setup = replicate 8 0;
        });
      })
      none (λ buf. length buf == payload_offset) (λ out. has_none out.1)

zero_transfer_buffer_length_no_payload_passes : zero_transfer_buffer_length_no_payload ≡ true
unfolding encode_header decode_header encode_command decode_command append_payload cut_payload
    encode_cmd_submit_arm encode_ret_submit_arm decode_cmd_submit_arm decode_ret_submit_arm
    encode_basic decode_basic encode_cmd_submit decode_cmd_submit encode_ret_submit
    decode_ret_submit of_cmd_submit as_cmd_submit of_ret_submit as_ret_submit be32 be16 u32_of
    u16_of
zero_transfer_buffer_length_no_payload_passes = refl
