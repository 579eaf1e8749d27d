-- ===== src/Registry/Commands.antt =====
-- crates/easy-usb-core/src/engine/registry.rs: `handle_command`, `is_valid_transition` and the loop of
-- `run_registry`.
use easy_usb.Base.{Bool, true, false, not, List, [], ◌∷◌, Option, none, some, if◌then◌else◌}
use easy_usb.Port.{UsbDevice}
use easy_usb.Registry.{
  BusId, DeviceState, idle, bound, forwarded, disconnected, state_eq, DeviceEntry, RegistrySnapshot,
  empty_snapshot, RegistryCommand, add_device, remove_device, transition_state,
}
use easy_usb.Registry.Maps.{insert, remove, release, attach}

unfoldable pub is_valid_transition : DeviceState → DeviceState → Bool
is_valid_transition idle bound = true
is_valid_transition idle disconnected = true
is_valid_transition bound (forwarded _) = true
is_valid_transition bound disconnected = true
is_valid_transition (forwarded _) idle = true
is_valid_transition (forwarded _) disconnected = true
is_valid_transition disconnected _ = false
is_valid_transition _ _ = false

-- The arm `AddDevice(device)`, at the entry of the device's bus.
unfoldable pub add_at : UsbDevice → RegistrySnapshot → Option DeviceEntry → RegistrySnapshot
add_at device s none = record s {
  devices = insert device.busid (record { device = device; state = idle }) s.devices;
}
add_at device s (some entry) =
    if state_eq entry.state disconnected
    then (record s {
      devices = insert device.busid (record { device = device; state = idle }) s.devices;
    })
    else s

-- The arm `RemoveDevice(busid)`, at the entry of the bus.
unfoldable pub remove_at : BusId → RegistrySnapshot → Option DeviceEntry → RegistrySnapshot
remove_at busid s none = s
remove_at busid s (some entry) = record {
  devices = remove busid s.devices;
  forwardings = release entry.state busid s.forwardings;
}

-- The arm `TransitionState(busid, new_state)`, at the entry of the bus.
unfoldable pub transition_at :
    BusId → DeviceState → RegistrySnapshot → Option DeviceEntry → RegistrySnapshot
transition_at busid new_state s none = s
transition_at busid new_state s (some entry) =
    if not (is_valid_transition entry.state new_state) then s else (record {
      devices = insert busid (record entry { state = new_state }) s.devices;
      forwardings = attach new_state busid (release entry.state busid s.forwardings);
    })

unfoldable pub handle_command : RegistryCommand → RegistrySnapshot → RegistrySnapshot
unfolding add_at remove_at transition_at
handle_command (add_device device) s = add_at device s (s.devices device.busid)
handle_command (remove_device busid) s = remove_at busid s (s.devices busid)
handle_command (transition_state busid new_state) s =
    transition_at busid new_state s (s.devices busid)

-- What a round of `tokio::select!` sees: a command, the end of the channel, or the shutdown signal.
pub data Wake : Type 0 where
  received : RegistryCommand → Wake
  channel_closed shutdown_signal : Wake

-- The rounds of the loop on the wakes that come, from a state, with the snapshots handed to `snap_tx.send`.
-- With no wake left it is still waiting.
unfoldable pub run_loop : RegistrySnapshot → List Wake → List RegistrySnapshot
run_loop s [] = []
run_loop s (received cmd ∷ wakes) = handle_command cmd s ∷ run_loop (handle_command cmd s) wakes
run_loop s (channel_closed ∷ wakes) = []
run_loop s (shutdown_signal ∷ wakes) = []

-- `run_registry`: the default snapshot, which the watch channel is made with, and those handed to it.
unfoldable pub run_registry : List Wake → List RegistrySnapshot
unfolding run_loop
run_registry wakes = empty_snapshot ∷ run_loop empty_snapshot wakes
