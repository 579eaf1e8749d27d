-- ===== src/Runs/Fixtures.antt =====
-- Headers of the tests in crates/easy-usb-core/src/protocol/codec.rs and a device of the tests in
-- crates/easy-usb-core/src/engine/registry.rs.
use Prim.Native.String.{String}
use easy_usb.Base.{
  ℕ, ◌≡◌, refl, List, [], ◌∷◌, none, some, arith, length, replicate, ◌++◌, All, All-append,
  All-replicate, ◌≤◌, sym, inl, inr,
}
use easy_usb.Wire.{OpRepImport}
use easy_usb.Bytes.Words.{IsByte}
use easy_usb.Wire.Header.{UsbipHeader}
use easy_usb.Wire.Union.{of_cmd_submit, as_cmd_submit}
use easy_usb.Wire.Constants.{cmd_submit, usbip_dir_out}
use easy_usb.Codec.Message.{HeaderIsValid, IsEncodable, packets, announced, PayloadMatches}
use easy_usb.Session.{numbered}
use easy_usb.Device.{high_speed}
use easy_usb.Port.{UsbDevice}

abbrev pub make_control_cmd_submit : UsbipHeader
make_control_cmd_submit = record {
  base = record { command = cmd_submit; seqnum = 1; devid = 0; direction = usbip_dir_out; ep = 0 };
  u = of_cmd_submit (record {
    transfer_flags = 0;
    transfer_buffer_length = 8;
    start_frame = 0;
    number_of_packets = 0;
    interval = 0;
    setup = 0x80 ∷ 0x06 ∷ 0x00 ∷ 0x01 ∷ 0x00 ∷ 0x00 ∷ 0x12 ∷ 0x00 ∷ [];
  });
}

pub control_IsValid : HeaderIsValid make_control_cmd_submit
unfolding of_cmd_submit
control_IsValid = record {
  base = record {
    command = omega arith;
    seqnum = omega arith;
    devid = omega arith;
    direction = omega arith;
    ep = omega arith;
  };
  u = record {
    word0 = omega arith;
    word1 = omega arith;
    word2 = omega arith;
    word3 = omega arith;
    word4 = omega arith;
    tail_length = refl;
    tail_bytes = omega arith;
  };
}

-- `b"\x12\x01\x00\x02\x00\x00\x00\x40"`.
abbrev pub control_payload : List ℕ
control_payload = 0x12 ∷ 0x01 ∷ 0x00 ∷ 0x02 ∷ 0x00 ∷ 0x00 ∷ 0x00 ∷ 0x40 ∷ []

pub announced-control : announced make_control_cmd_submit ≡ 8
unfolding of_cmd_submit as_cmd_submit announced
announced-control = refl

-- Under any sequence number.
pub control_numbered :
    (n : ℕ) (payload : List ℕ)
    → length payload ≤ 1048576
    → IsEncodable (numbered make_control_cmd_submit n) (some payload)
unfolding of_cmd_submit as_cmd_submit packets
control_numbered n payload small = record {
  direction = inl refl;
  command = inl refl;
  bulk = refl;
  payload = inr (payload, refl, small);
}

pub control_IsEncodable :
    (payload : List ℕ)
    → length payload ≤ 1048576
    → IsEncodable make_control_cmd_submit (some payload)
control_IsEncodable payload small = control_numbered 1 payload small

pub control_PayloadMatches : PayloadMatches make_control_cmd_submit (some control_payload)
control_PayloadMatches =
    inr (control_payload, refl, sym announced-control, omega (arith, announced-control))

abbrev pub make_device : String → ℕ → ℕ → UsbDevice
make_device busid vid pid = record {
  busid = busid;
  vid = vid;
  pid = pid;
  manufacturer = none;
  product = none;
  busnum = 1;
  devnum = 1;
  speed = high_speed;
  b_device_class = 0;
  b_device_sub_class = 0;
  b_device_protocol = 0;
}

-- `b"1-1.2.3"`.
abbrev pub bus_1_1_2_3 : List ℕ
bus_1_1_2_3 = 0x31 ∷ 0x2d ∷ 0x31 ∷ 0x2e ∷ 0x32 ∷ 0x2e ∷ 0x33 ∷ []

abbrev pub make_rep_import : (status busnum devnum speed : ℕ) → OpRepImport
make_rep_import status busnum devnum speed = record {
  status = status;
  path = replicate 256 0;
  busid = bus_1_1_2_3 ++ replicate 25 0;
  busnum = busnum;
  devnum = devnum;
  speed = speed;
  id_vendor = 0x1234;
  id_product = 0x5678;
  bcd_device = 0x0200;
  b_device_class = 0;
  b_device_sub_class = 0;
  b_device_protocol = 0;
  b_configuration_value = 1;
  b_num_configurations = 1;
  b_num_interfaces = 2;
}

-- `make_rep_import_ok`.
abbrev pub reply_ok : OpRepImport
reply_ok = make_rep_import 0 1 3 3

-- The bytes of such a reply, for words of one byte.
abbrev pub device_end : (busnum devnum speed : ℕ) → List ℕ
device_end busnum devnum speed =
    0 ∷ 0 ∷ 0 ∷ busnum ∷ 0 ∷ 0 ∷ 0 ∷ devnum ∷ 0 ∷ 0 ∷ 0 ∷ speed ∷ 0x12 ∷ 0x34 ∷ 0x56 ∷ 0x78 ∷ 2 ∷ 0
    ∷ 0 ∷ 0 ∷ 0 ∷ 1 ∷ 1 ∷ 2 ∷ []

abbrev pub bus_and_end : (busnum devnum speed : ℕ) → List ℕ
bus_and_end busnum devnum speed = bus_1_1_2_3 ++ (replicate 25 0 ++ device_end busnum devnum speed)

abbrev pub reply_bytes_of : (status busnum devnum speed : ℕ) → List ℕ
reply_bytes_of status busnum devnum speed =
    (0 ∷ 0 ∷ 0 ∷ status ∷ []) ++ (replicate 256 0 ++ bus_and_end busnum devnum speed)

pub reply_bytes_of-IsByte :
    (status busnum devnum speed : ℕ)
    → IsByte status
    → IsByte busnum
    → IsByte devnum
    → IsByte speed
    → All IsByte (reply_bytes_of status busnum devnum speed)
reply_bytes_of-IsByte status busnum devnum speed a b c d =
    let tail = device_end busnum devnum speed in
    All-append IsByte (0 ∷ 0 ∷ 0 ∷ status ∷ []) (replicate 256 0 ++ bus_and_end busnum devnum speed)
      (omega arith)
      (All-append IsByte (replicate 256 0) (bus_and_end busnum devnum speed)
        (All-replicate IsByte 256 0 (omega arith))
        (All-append IsByte bus_1_1_2_3 (replicate 25 0 ++ tail) (omega arith) (
          All-append IsByte (replicate 25 0) tail (All-replicate IsByte 25 0 (omega arith))
            (omega arith))))
