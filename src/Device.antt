-- ===== src/Device.antt =====
-- crates/easy-usb-core/src/protocol/device.rs: device speeds and descriptors.
use easy_usb.Base.{ℕ, ◌≡◌, ◌⊎◌, List, Result, ok, err, ◌==◌, if◌then◌else◌, arith, ◌≤◌, ◌↔◌}
use easy_usb.Wire.{OpRepImport}
use easy_usb.Codec.{ProtocolError, invalid_device_speed}

pub data UsbDeviceSpeed : Type 0 where
  low_speed full_speed high_speed super_speed : UsbDeviceSpeed

-- `speed as u32`, from the discriminants.
unfoldable pub speed_code : UsbDeviceSpeed → ℕ
speed_code low_speed = 1
speed_code full_speed = 2
speed_code high_speed = 3
speed_code super_speed = 4

-- `UsbDeviceSpeed::try_from`.
unfoldable pub speed_try_from : ℕ → Result ProtocolError UsbDeviceSpeed
speed_try_from value =
    if value == 1
    then ok low_speed
    else if value == 2
    then ok full_speed
    else if value == 3
    then ok high_speed
    else if value == 4
    then ok super_speed
    else err (invalid_device_speed value)

pub record UsbDeviceDescriptor : Type 0 where
  pub path : List ℕ  -- [u8; 256]
  pub busid : List ℕ  -- [u8; 32]
  pub busnum : ℕ
  pub devnum : ℕ
  pub speed : UsbDeviceSpeed
  pub id_vendor : ℕ
  pub id_product : ℕ
  pub bcd_device : ℕ
  pub b_device_class : ℕ
  pub b_device_sub_class : ℕ
  pub b_device_protocol : ℕ
  pub b_configuration_value : ℕ
  pub b_num_configurations : ℕ
  pub b_num_interfaces : ℕ

-- An unknown speed falls back to `HighSpeed`.
speed_or_high : Result ProtocolError UsbDeviceSpeed → UsbDeviceSpeed
speed_or_high (ok s) = s
speed_or_high (err _) = high_speed

-- `UsbDeviceDescriptor::from(rep)`.
unfoldable pub descriptor_from : OpRepImport → UsbDeviceDescriptor
unfolding speed_or_high speed_try_from
descriptor_from rep = record {
  path = rep.path;
  busid = rep.busid;
  busnum = rep.busnum;
  devnum = rep.devnum;
  speed = speed_or_high (speed_try_from rep.speed);
  id_vendor = rep.id_vendor;
  id_product = rep.id_product;
  bcd_device = rep.bcd_device;
  b_device_class = rep.b_device_class;
  b_device_sub_class = rep.b_device_sub_class;
  b_device_protocol = rep.b_device_protocol;
  b_configuration_value = rep.b_configuration_value;
  b_num_configurations = rep.b_num_configurations;
  b_num_interfaces = rep.b_num_interfaces;
}

-- A code is read as the speed that has it, and the codes of the four speeds are the ones read.
pub speed_try_from_iff :
    (value : ℕ) (s : UsbDeviceSpeed) → (speed_try_from value ≡ ok s) ↔ (value ≡ speed_code s)
unfolding speed_try_from speed_code
speed_try_from_iff value s = ground arith

-- A descriptor has the speed whose code the reply holds, and `HighSpeed` for any other code.
pub speed-descriptor_from :
    (rep : OpRepImport)
    → (rep.speed ≡ speed_code (descriptor_from rep).speed)
      ⊎ (((rep.speed ≡ 0) ⊎ (5 ≤ rep.speed)) × ((descriptor_from rep).speed ≡ high_speed))
unfolding descriptor_from speed_code
speed-descriptor_from rep = ground arith
