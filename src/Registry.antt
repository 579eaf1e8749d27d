-- ===== src/Registry.antt =====
-- crates/easy-usb-core/src/engine/registry.rs: the device registry. A `HashMap` is a function from
-- keys, a `String` newtype is the string, and logging is left out.
pub mod Maps
pub mod MapLaws
pub mod Commands
pub mod Invariant
pub mod Lifecycle
pub mod Frame
pub mod Channels
pub mod System
pub mod Refinement
pub mod Forwarding
use Prim.Native.String.{String}
use text.Mathlib.Text.{◌==◌ as str_eq}
use easy_usb.Base.{Bool, true, false, List, Option, none}
use easy_usb.Port.{UsbDevice}

abbrev pub SessionId : Type 0
SessionId = String

abbrev pub BusId : Type 0
BusId = String

pub data DeviceState : Type 0 where
  idle bound : DeviceState
  forwarded : SessionId → DeviceState
  disconnected : DeviceState

-- The derived `PartialEq`.
abbrev pub state_eq : DeviceState → DeviceState → Bool
state_eq idle idle = true
state_eq bound bound = true
state_eq (forwarded a) (forwarded b) = str_eq a b
state_eq disconnected disconnected = true
state_eq _ _ = false

pub record DeviceEntry : Type 0 where
  pub device : UsbDevice
  pub state : DeviceState

pub record RegistrySnapshot : Type 0 where
  pub devices : BusId → Option DeviceEntry
  pub forwardings : SessionId → Option (List BusId)

-- `RegistrySnapshot::default()`.
abbrev pub empty_snapshot : RegistrySnapshot
empty_snapshot = record { devices = λ _. none; forwardings = λ _. none }

pub data RegistryCommand : Type 0 where
  add_device : UsbDevice → RegistryCommand
  remove_device : BusId → RegistryCommand
  transition_state : BusId → DeviceState → RegistryCommand
