-- ===== src/Port.antt =====
-- crates/easy-usb-core/src/port/types.rs, and the error types of port/{host,discovery,ipc,session}.rs.
use Prim.Native.String.{String}
use easy_usb.Base.{ℕ, List, Option, none}
use easy_usb.Device.{UsbDeviceSpeed, UsbDeviceDescriptor}
use easy_usb.Strings.{from_utf8_lossy, trim_end_nul}

pub data SignalMode : Type 0 where
  eager confirmed : SignalMode

pub record UsbDevice : Type 0 where
  pub busid : String
  pub vid : ℕ
  pub pid : ℕ
  pub manufacturer : Option String
  pub product : Option String
  pub busnum : ℕ
  pub devnum : ℕ
  pub speed : UsbDeviceSpeed
  pub b_device_class : ℕ
  pub b_device_sub_class : ℕ
  pub b_device_protocol : ℕ

-- `UsbDevice::from(d)`.
unfoldable pub device_from : UsbDeviceDescriptor → UsbDevice
unfolding from_utf8_lossy trim_end_nul
device_from d = record {
  busid = trim_end_nul (from_utf8_lossy d.busid);
  vid = d.id_vendor;
  pid = d.id_product;
  manufacturer = none;
  product = none;
  busnum = d.busnum;
  devnum = d.devnum;
  speed = d.speed;
  b_device_class = d.b_device_class;
  b_device_sub_class = d.b_device_sub_class;
  b_device_protocol = d.b_device_protocol;
}

pub data UsbEvent : Type 0 where
  connected : UsbDevice → UsbEvent
  disconnected : String → UsbEvent

pub data DiscoveryError : Type 0 where
  advertise_failed scan_failed withdraw_failed not_initialized : String → DiscoveryError

pub data UsbHostError : Type 0 where
  io device_not_found device_in_use platform_error : String → UsbHostError

pub data IpcError : Type 0 where
  bind_failed route_not_found shutdown_failed : String → IpcError
  already_serving : IpcError

pub data SessionSignalError : Type 0 where
  signal_failed : String → SessionSignalError
  already_registered not_registered : SessionSignalError

-- `std::net::IpAddr`: four octets, or eight segments.
pub data IpAddr : Type 0 where
  ip_v4 ip_v6 : List ℕ → IpAddr

pub record ServiceInfo : Type 0 where
  pub hostname : String
  pub ip : IpAddr
  pub port : ℕ
  pub service_type : String

pub record ServerInfo : Type 0 where
  pub hostname : String
  pub ip : IpAddr
  pub port : ℕ
  pub device_count : ℕ
