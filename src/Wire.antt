-- ===== src/Wire.antt =====
-- crates/easy-usb-core/src/protocol/wire.rs: the wire structures. A field of an integer
-- type holds its value, an `i32` its bit pattern, and an array is the list of its elements.
pub mod Constants
pub mod Union
pub mod Header
use easy_usb.Base.{ℕ, List}

pub record UsbipHeaderBasic : Type 0 where
  pub command : ℕ  -- u32
  pub seqnum : ℕ  -- u32
  pub devid : ℕ  -- u32
  pub direction : ℕ  -- u32
  pub ep : ℕ  -- u32

pub record UsbipHeaderCmdSubmit : Type 0 where
  pub transfer_flags : ℕ  -- u32
  pub transfer_buffer_length : ℕ  -- i32
  pub start_frame : ℕ  -- i32
  pub number_of_packets : ℕ  -- i32
  pub interval : ℕ  -- i32
  pub setup : List ℕ  -- [u8; 8]

pub record UsbipHeaderRetSubmit : Type 0 where
  pub status : ℕ  -- i32
  pub actual_length : ℕ  -- i32
  pub start_frame : ℕ  -- i32
  pub number_of_packets : ℕ  -- i32
  pub error_count : ℕ  -- i32
  pub setup : List ℕ  -- [u8; 8]

pub record UsbipHeaderCmdUnlink : Type 0 where
  pub seqnum : ℕ  -- u32
  pub padding : List ℕ  -- [u32; 6]

pub record UsbipHeaderRetUnlink : Type 0 where
  pub status : ℕ  -- i32
  pub padding : List ℕ  -- [u32; 6]

pub record OpReqImport : Type 0 where
  pub status : ℕ  -- u32
  pub path : List ℕ  -- [u8; 256]
  pub busid : List ℕ  -- [u8; 32]

pub record OpRepImport : Type 0 where
  pub status : ℕ  -- u32
  pub path : List ℕ  -- [u8; 256]
  pub busid : List ℕ  -- [u8; 32]
  pub busnum : ℕ  -- u32
  pub devnum : ℕ  -- u32
  pub speed : ℕ  -- u32
  pub id_vendor : ℕ  -- u16
  pub id_product : ℕ  -- u16
  pub bcd_device : ℕ  -- u16
  pub b_device_class : ℕ  -- u8
  pub b_device_sub_class : ℕ  -- u8
  pub b_device_protocol : ℕ  -- u8
  pub b_configuration_value : ℕ  -- u8
  pub b_num_configurations : ℕ  -- u8
  pub b_num_interfaces : ℕ  -- u8
