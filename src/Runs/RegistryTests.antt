-- ===== src/Runs/RegistryTests.antt =====
-- Tests of crates/easy-usb-core/src/engine/registry.rs on the model: devices and their transitions.
use text.Mathlib.Text.{◌==◌ as str_eq}
use easy_usb.Base.{◌≡◌, refl, Bool, true, ◌&&◌, [], ◌∷◌, ◌==◌}
use easy_usb.Registry.{
  idle, bound, forwarded, disconnected, state_eq, DeviceEntry, RegistrySnapshot, add_device,
  remove_device, transition_state,
}
use easy_usb.Registry.Maps.{contains, attach, release, drop_bus, retain_others, keep_list, push_new}
use easy_usb.Registry.Commands.{handle_command, is_valid_transition}
use easy_usb.Registry.System.{
  handle_send, new, snapshot, with_capacity, command_round, on_command, signal, stop,
}
use easy_usb.Runs.Fixtures.{make_device}
use easy_usb.Runs.Stages.{
  tokio, is_ok, passes, contains_key, some_and, moves, moves_and, stays, plug_1_1, s1_empty,
}

abbrev add_device_appears_in_snapshot : Bool
add_device_appears_in_snapshot = passes (
    record {
      command = add_device (make_device "1-1" 0x1234 0x5678);
      expected = λ (s : RegistrySnapshot).
          contains_key "1-1" s
          && some_and
              (λ (e : DeviceEntry).
                str_eq e.device.busid "1-1"
                && (e.device.vid == 0x1234)
                && (e.device.pid == 0x5678)
                && state_eq e.state idle)
              (s.devices "1-1");
    }
    ∷ [])

add_device_appears_in_snapshot_passes : add_device_appears_in_snapshot ≡ true
unfolding passes new with_capacity handle_send snapshot command_round on_command handle_command
    is_valid_transition attach release drop_bus retain_others keep_list push_new contains stop
    signal
add_device_appears_in_snapshot_passes = refl

abbrev remove_unknown_device_no_panic : Bool
remove_unknown_device_no_panic =
    is_ok (handle_send tokio (remove_device "nonexistent") (new tokio)).1

remove_unknown_device_no_panic_passes : remove_unknown_device_no_panic ≡ true
unfolding passes new with_capacity handle_send snapshot command_round on_command handle_command
    is_valid_transition attach release drop_bus retain_others keep_list push_new contains stop
    signal
remove_unknown_device_no_panic_passes = refl

abbrev transition_idle_to_bound : Bool
transition_idle_to_bound = passes (plug_1_1 ∷ moves "1-1" bound ∷ [])

transition_idle_to_bound_passes : transition_idle_to_bound ≡ true
unfolding passes new with_capacity handle_send snapshot command_round on_command handle_command
    is_valid_transition attach release drop_bus retain_others keep_list push_new contains stop
    signal
transition_idle_to_bound_passes = refl

abbrev transition_bound_to_forwarded_updates_forwardings : Bool
transition_bound_to_forwarded_updates_forwardings = passes (
    plug_1_1
    ∷ moves "1-1" bound
    ∷ moves_and "1-1" (forwarded "s1")
        (λ s. some_and (λ buses. contains buses "1-1") (s.forwardings "s1"))
    ∷ [])

transition_bound_to_forwarded_updates_forwardings_passes :
    transition_bound_to_forwarded_updates_forwardings ≡ true
unfolding passes new with_capacity handle_send snapshot command_round on_command handle_command
    is_valid_transition attach release drop_bus retain_others keep_list push_new contains stop
    signal
transition_bound_to_forwarded_updates_forwardings_passes = refl

abbrev transition_forwarded_to_idle_removes_from_forwardings : Bool
transition_forwarded_to_idle_removes_from_forwardings = passes (
    plug_1_1
    ∷ moves "1-1" bound
    ∷ moves "1-1" (forwarded "s1")
    ∷ moves_and "1-1" idle (λ s. s1_empty s)
    ∷ [])

transition_forwarded_to_idle_removes_from_forwardings_passes :
    transition_forwarded_to_idle_removes_from_forwardings ≡ true
unfolding passes new with_capacity handle_send snapshot command_round on_command handle_command
    is_valid_transition attach release drop_bus retain_others keep_list push_new contains stop
    signal
transition_forwarded_to_idle_removes_from_forwardings_passes = refl

abbrev transition_cycle : Bool
transition_cycle = passes (
    plug_1_1
    ∷ moves "1-1" bound
    ∷ moves "1-1" (forwarded "s1")
    ∷ moves_and "1-1" idle (λ s. s1_empty s)
    ∷ [])

transition_cycle_passes : transition_cycle ≡ true
unfolding passes new with_capacity handle_send snapshot command_round on_command handle_command
    is_valid_transition attach release drop_bus retain_others keep_list push_new contains stop
    signal
transition_cycle_passes = refl

abbrev invalid_transition_idle_to_forwarded_rejected : Bool
invalid_transition_idle_to_forwarded_rejected =
    passes (plug_1_1 ∷ stays "1-1" (forwarded "s1") idle ∷ [])

invalid_transition_idle_to_forwarded_rejected_passes :
    invalid_transition_idle_to_forwarded_rejected ≡ true
unfolding passes new with_capacity handle_send snapshot command_round on_command handle_command
    is_valid_transition attach release drop_bus retain_others keep_list push_new contains stop
    signal
invalid_transition_idle_to_forwarded_rejected_passes = refl

abbrev unknown_device_transition_no_panic : Bool
unknown_device_transition_no_panic =
    is_ok (handle_send tokio (transition_state "nonexistent" bound) (new tokio)).1

unknown_device_transition_no_panic_passes : unknown_device_transition_no_panic ≡ true
unfolding passes new with_capacity handle_send snapshot command_round on_command handle_command
    is_valid_transition attach release drop_bus retain_others keep_list push_new contains stop
    signal
unknown_device_transition_no_panic_passes = refl

abbrev disconnect_removes_from_forwardings : Bool
disconnect_removes_from_forwardings = passes (
    plug_1_1
    ∷ moves "1-1" bound
    ∷ moves "1-1" (forwarded "s1")
    ∷ moves_and "1-1" disconnected (λ s. s1_empty s)
    ∷ [])

disconnect_removes_from_forwardings_passes : disconnect_removes_from_forwardings ≡ true
unfolding passes new with_capacity handle_send snapshot command_round on_command handle_command
    is_valid_transition attach release drop_bus retain_others keep_list push_new contains stop
    signal
disconnect_removes_from_forwardings_passes = refl
