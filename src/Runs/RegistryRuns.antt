-- ===== src/Runs/RegistryRuns.antt =====
-- The registry, with a device that is bound and forwarded.
use text.Mathlib.TextEquality.{eq_iff}
use easy_usb.Base.{arith, ◌≡◌, ◌≢◌, refl, ◌⊎◌, true, [], ◌∷◌, some, All}
use easy_usb.Registry.{
  SessionId, idle, bound, forwarded, DeviceEntry, RegistrySnapshot, empty_snapshot, add_device,
  transition_state,
}
use easy_usb.Registry.MapLaws.{listed}
use easy_usb.Registry.Maps.{contains, attach, release}
use easy_usb.Registry.Commands.{
  is_valid_transition, handle_command, run_registry, received, shutdown_signal,
}
use easy_usb.Registry.Invariant.{
  IsConsistent, handle_command-IsConsistent, run_registry-IsConsistent, empty-IsConsistent,
}
use easy_usb.Registry.Lifecycle.{◌⟶◌, Change, handle_command-Change, transition_exact, target}
use easy_usb.Registry.Frame.{handle_command-other_bus}
use easy_usb.Runs.Fixtures.{make_device}

abbrev plugged : RegistrySnapshot
plugged = handle_command (add_device (make_device "1-1" 0x1234 0x5678)) empty_snapshot

abbrev bound_bus : RegistrySnapshot
bound_bus = handle_command (transition_state "1-1" bound) plugged

abbrev forwarded_bus : RegistrySnapshot
forwarded_bus = handle_command (transition_state "1-1" (forwarded "s1")) bound_bus

plugged-IsConsistent : IsConsistent plugged
plugged-IsConsistent =
    handle_command-IsConsistent empty_snapshot empty-IsConsistent
      (add_device (make_device "1-1" 0x1234 0x5678))

handle_command-IsConsistent_example : IsConsistent bound_bus
handle_command-IsConsistent_example =
    handle_command-IsConsistent plugged plugged-IsConsistent (transition_state "1-1" bound)

forwarded_bus-IsConsistent : IsConsistent forwarded_bus
forwarded_bus-IsConsistent =
    handle_command-IsConsistent bound_bus handle_command-IsConsistent_example
      (transition_state "1-1" (forwarded "s1"))

run_registry_example :
    All IsConsistent (
      run_registry (received (add_device (make_device "1-1" 0x1234 0x5678)) ∷ shutdown_signal ∷ []))
run_registry_example =
    run_registry-IsConsistent
      (received (add_device (make_device "1-1" 0x1234 0x5678)) ∷ shutdown_signal ∷ [])

Change_example : Change (plugged.devices "1-1") (bound_bus.devices "1-1")
Change_example = handle_command-Change (transition_state "1-1" bound) plugged "1-1"

abbrev idle_entry : DeviceEntry
idle_entry = record { device = make_device "1-1" 0x1234 0x5678; state = idle }

plugged_idle : plugged.devices "1-1" ≡ some idle_entry
unfolding handle_command
plugged_idle = refl

transition_exact_example :
    ((idle ⟶ bound) × (bound_bus.devices "1-1" ≡ some (record idle_entry { state = bound })))
    ⊎ ((¬ (idle ⟶ bound)) × (bound_bus ≡ plugged))
transition_exact_example = transition_exact plugged "1-1" idle_entry bound plugged_idle

apart : target (transition_state "1-1" bound) ≢ "2-1"
apart = ground (arith, eq_iff "1-1" "2-1")

other_bus_example :
    ((handle_command (transition_state "1-1" bound) plugged).devices "2-1" ≡ plugged.devices "2-1")
    × ((sid : SessionId)
        → listed (handle_command (transition_state "1-1" bound) plugged).forwardings sid "2-1"
          ≡ listed plugged.forwardings sid "2-1")
other_bus_example =
    handle_command-other_bus (transition_state "1-1" bound) plugged "2-1" plugged-IsConsistent apart

listed_here : listed forwarded_bus.forwardings "s1" "1-1" ≡ true
unfolding handle_command listed contains is_valid_transition attach release
listed_here = refl

-- A command that is pending at the shutdown signal.
