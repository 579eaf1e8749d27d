-- ===== src/Registry/Forwarding.antt =====
-- A new device that is bound and forwarded to a session.
use text.Mathlib.TextPositions.{eq_refl}
use easy_usb.Base.{◌≡◌, refl, sym, ap, ◌∙◌, true, none, some}
use easy_usb.Port.{UsbDevice}
use easy_usb.Registry.{
  SessionId, BusId, DeviceState, idle, bound, forwarded, RegistrySnapshot, add_device,
  transition_state,
}
use easy_usb.Registry.MapLaws.{listed}
use easy_usb.Registry.Commands.{handle_command, add_at, transition_at, is_valid_transition}
use easy_usb.Registry.Invariant.{IsConsistent, is_forwarded_to, handle_command-IsConsistent}

added :
    (d : UsbDevice) (s : RegistrySnapshot)
    → s.devices d.busid ≡ none
    → (handle_command (add_device d) s).devices d.busid ≡ some (record { device = d; state = idle })
unfolding handle_command add_at
added d s e = rw (e, eq_refl d.busid) refl

moved :
    (b : BusId) (s : RegistrySnapshot) (d : UsbDevice) (from to : DeviceState)
    → s.devices b ≡ some (record { device = d; state = from })
    → is_valid_transition from to ≡ true
    → (handle_command (transition_state b to) s).devices b
      ≡ some (record { device = d; state = to })
unfolding handle_command transition_at
moved b s d from to e valid = rw (e, valid, eq_refl b) refl

-- The three commands, one after the other.
abbrev pub forward_new : UsbDevice → BusId → SessionId → RegistrySnapshot → RegistrySnapshot
forward_new d b sid s =
    handle_command (transition_state b (forwarded sid))
      (handle_command (transition_state b bound) (handle_command (add_device d) s))

pub forward_new-IsConsistent :
    (d : UsbDevice) (b : BusId) (sid : SessionId) (s : RegistrySnapshot)
    → IsConsistent s
    → IsConsistent (forward_new d b sid s)
forward_new-IsConsistent d b sid s v =
    handle_command-IsConsistent _
      (handle_command-IsConsistent _ (handle_command-IsConsistent s v (add_device d))
        (transition_state b bound))
      (transition_state b (forwarded sid))

pub forward_new-devices :
    (d : UsbDevice) (b : BusId) (sid : SessionId) (s : RegistrySnapshot)
    → d.busid ≡ b
    → s.devices b ≡ none
    → (forward_new d b sid s).devices b ≡ some (record { device = d; state = forwarded sid })
unfolding is_valid_transition
forward_new-devices d b sid s same new =
    let first =
      ap (handle_command (add_device d) s).devices (sym same)
      ∙ added d s (ap s.devices same ∙ new) in
    moved b _ d bound (forwarded sid) (moved b _ d idle bound first refl) refl

pub forward_new-listed :
    (d : UsbDevice) (b : BusId) (sid : SessionId) (s : RegistrySnapshot)
    → IsConsistent s
    → d.busid ≡ b
    → s.devices b ≡ none
    → listed (forward_new d b sid s).forwardings sid b ≡ true
forward_new-listed d b sid s v same new =
    (forward_new-IsConsistent d b sid s v).agree sid b
    ∙ ap (is_forwarded_to sid) (forward_new-devices d b sid s same new)
    ∙ eq_refl sid
