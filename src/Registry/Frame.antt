-- ===== src/Registry/Frame.antt =====
-- What a command leaves alone, and that a device is forwarded to one session at most.
use text.Mathlib.Text.{◌==◌ as str_eq}
use text.Mathlib.TextEquality.{eq_iff}
use easy_usb.Base.{◌≡◌, sym, ap, ◌∙◌, ◌≢◌, true, false, Option, none, some, arith}
use easy_usb.Registry.{
  SessionId, BusId, DeviceState, forwarded, state_eq, DeviceEntry, RegistrySnapshot,
  RegistryCommand,
}
use easy_usb.Registry.MapLaws.{listed}
use easy_usb.Registry.Commands.{add_at, transition_at, remove_at, handle_command}
use easy_usb.Registry.Invariant.{IsConsistent, is_forwarded_to, handle_command-IsConsistent}
use easy_usb.Registry.Lifecycle.{target}

-- The entry of any other bus is unchanged.
devices-handle_command :
    (cmd : RegistryCommand) (s : RegistrySnapshot) (b : BusId)
    → str_eq (target cmd) b ≡ false
    → (handle_command cmd s).devices b ≡ s.devices b
unfolding handle_command add_at remove_at transition_at
devices-handle_command cmd s b n = ground arith

-- A command for one bus changes, in a consistent registry, neither the entry of any other bus nor the
-- lists that it is in.
pub handle_command-other_bus :
    (cmd : RegistryCommand) (s : RegistrySnapshot) (b : BusId)
    → IsConsistent s
    → target cmd ≢ b
    → ((handle_command cmd s).devices b ≡ s.devices b)
      × ((sid : SessionId)
          → listed (handle_command cmd s).forwardings sid b ≡ listed s.forwardings sid b)
handle_command-other_bus cmd s b v n =
    let n' : str_eq (target cmd) b ≡ false = ground (arith, eq_iff (target cmd) b) in
    let same = devices-handle_command cmd s b n' in
    let w = handle_command-IsConsistent s v cmd in
    (same, λ sid. w.agree sid b ∙ ap (is_forwarded_to sid) same ∙ sym (v.agree sid b))

same_session :
    (sid t : SessionId) (st : DeviceState)
    → state_eq st (forwarded sid) ≡ true
    → state_eq st (forwarded t) ≡ true
    → sid ≡ t
same_session sid t (forwarded u) h k = ground (arith, eq_iff u sid, eq_iff u t)
same_session sid t _ h k = cc

one_session :
    (sid t : SessionId) (o : Option DeviceEntry)
    → is_forwarded_to sid o ≡ true
    → is_forwarded_to t o ≡ true
    → sid ≡ t
one_session sid t none h k = cc
one_session sid t (some e) h k = same_session sid t e.state h k

-- In a consistent registry no device is in the lists of two sessions.
pub listed_unique :
    (s : RegistrySnapshot) (b : BusId) (sid t : SessionId)
    → IsConsistent s
    → listed s.forwardings sid b ≡ true
    → listed s.forwardings t b ≡ true
    → sid ≡ t
listed_unique s b sid t v h k =
    one_session sid t (s.devices b) (sym (v.agree sid b) ∙ h) (sym (v.agree t b) ∙ k)
