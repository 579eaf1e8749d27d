-- ===== src/Registry/Lifecycle.antt =====
-- The life of one device in the registry: how its entry may change at a command, what other devices
-- see of it, and to how many sessions it can be forwarded.
use text.Mathlib.Text.{◌==◌ as str_eq}
use text.Mathlib.TextEquality.{eq_iff}
use text.Mathlib.TextPositions.{eq_refl}
use easy_usb.Base.{
  ◌≡◌, refl, sym, ap, ◌∙◌, ◌⊎◌, true, Option, none, some, if◌then◌else◌, Bool-cases, inl, inr,
}
use easy_usb.Port.{UsbDevice}
use easy_usb.Registry.{
  SessionId, BusId, DeviceState, idle, bound, forwarded, disconnected, state_eq, DeviceEntry,
  RegistrySnapshot, RegistryCommand, add_device, remove_device, transition_state,
}
use easy_usb.Registry.Commands.{
  is_valid_transition, add_at, remove_at, transition_at, handle_command,
}

-- The state machine of a device.
infix 40 ◌⟶◌
pub data ◌⟶◌ : DeviceState → DeviceState → Type 0 where
  bind : idle ⟶ bound
  forward : (sid : SessionId) → bound ⟶ forwarded sid
  give_back : (sid : SessionId) → forwarded sid ⟶ idle
  unplug_idle : idle ⟶ disconnected
  unplug_bound : bound ⟶ disconnected
  unplug_forwarded : (sid : SessionId) → forwarded sid ⟶ disconnected

is_valid_transition_sound : (from to : DeviceState) → is_valid_transition from to ≡ true → from ⟶ to
unfolding is_valid_transition
is_valid_transition_sound idle bound h = bind
is_valid_transition_sound idle disconnected h = unplug_idle
is_valid_transition_sound bound (forwarded sid) h = forward sid
is_valid_transition_sound bound disconnected h = unplug_bound
is_valid_transition_sound (forwarded sid) idle h = give_back sid
is_valid_transition_sound (forwarded sid) disconnected h = unplug_forwarded sid
is_valid_transition_sound disconnected to h = cc
is_valid_transition_sound _ _ h = cc

is_valid_transition_complete :
    (from to : DeviceState) → from ⟶ to → is_valid_transition from to ≡ true
unfolding is_valid_transition
is_valid_transition_complete from to bind = refl
is_valid_transition_complete from to (forward sid) = refl
is_valid_transition_complete from to (give_back sid) = refl
is_valid_transition_complete from to unplug_idle = refl
is_valid_transition_complete from to unplug_bound = refl
is_valid_transition_complete from to (unplug_forwarded sid) = refl

-- How the entry of a bus may change at one command.
pub data Change : Option DeviceEntry → Option DeviceEntry → Type 0 where
  stays : (o : Option DeviceEntry) → Change o o
  appears : (d : UsbDevice) → Change none (some (record { device = d; state = idle }))
  returns :
      (e : DeviceEntry) (d : UsbDevice)
      → e.state ≡ disconnected
      → Change (some e) (some (record { device = d; state = idle }))
  goes : (e : DeviceEntry) → Change (some e) none
  moves :
      (e : DeviceEntry) (to : DeviceState)
      → e.state ⟶ to
      → Change (some e) (some (record e { state = to }))

is_disconnected : (st : DeviceState) → state_eq st disconnected ≡ true → st ≡ disconnected
is_disconnected disconnected h = refl
is_disconnected _ h = cc

-- A change at `busid`, seen at any bus.
Change-at :
    (s : RegistrySnapshot) (busid b : BusId) (o o' : Option DeviceEntry)
    → s.devices busid ≡ o
    → Change o o'
    → Change (s.devices b) (if str_eq busid b then o' else s.devices b)
Change-at s busid b o o' e c = elim (Bool-cases (str_eq busid b)) [
  | inl here ↦
      let same : s.devices b ≡ o = ap s.devices (sym ((eq_iff busid b).0 here)) ∙ e in
      rw (here, same) c
  | inr other ↦ rw other (stays (s.devices b))
]

add_at-Change :
    (d : UsbDevice) (s : RegistrySnapshot) (b : BusId) (o : Option DeviceEntry)
    → s.devices d.busid ≡ o
    → Change (s.devices b) ((add_at d s o).devices b)
unfolding add_at
add_at-Change d s b none e = Change-at s d.busid b none _ e (appears d)
add_at-Change d s b (some entry) e = elim (Bool-cases (state_eq entry.state disconnected)) [
  | inl gone ↦
      rw gone (
        Change-at s d.busid b (some entry) _ e (returns entry d (is_disconnected entry.state gone)))
  | inr here ↦ rw here (stays (s.devices b))
]

transition_at-Change :
    (busid : BusId) (to : DeviceState) (s : RegistrySnapshot) (b : BusId) (o : Option DeviceEntry)
    → s.devices busid ≡ o
    → Change (s.devices b) ((transition_at busid to s o).devices b)
unfolding transition_at
transition_at-Change busid to s b none e = stays (s.devices b)
transition_at-Change busid to s b (some entry) e =
    elim (Bool-cases (is_valid_transition entry.state to)) [
      | inl valid ↦ rw valid (
          Change-at s busid b (some entry) _ e
            (moves entry to (is_valid_transition_sound entry.state to valid)))
      | inr refused ↦ rw refused (stays (s.devices b))
    ]

remove_at-Change :
    (busid : BusId) (s : RegistrySnapshot) (b : BusId) (o : Option DeviceEntry)
    → s.devices busid ≡ o
    → Change (s.devices b) ((remove_at busid s o).devices b)
unfolding remove_at
remove_at-Change busid s b none e = stays (s.devices b)
remove_at-Change busid s b (some entry) e = Change-at s busid b (some entry) none e (goes entry)

-- At each command a device's entry stays, appears idle, comes back idle with new data after a
-- disconnect, goes, or moves along an arrow of the state machine.
pub handle_command-Change :
    (cmd : RegistryCommand) (s : RegistrySnapshot) (b : BusId)
    → Change (s.devices b) ((handle_command cmd s).devices b)
unfolding handle_command
handle_command-Change (add_device d) s b = add_at-Change d s b (s.devices d.busid) refl
handle_command-Change (remove_device busid) s b = remove_at-Change busid s b (s.devices busid) refl
handle_command-Change (transition_state busid to) s b =
    transition_at-Change busid to s b (s.devices busid) refl

-- A transition command for a known device takes effect exactly along the arrows of the state machine:
-- along one, the entry has the new state; on any other request the registry is unchanged.
pub transition_exact :
    (s : RegistrySnapshot) (busid : BusId) (e : DeviceEntry) (to : DeviceState)
    → s.devices busid ≡ some e
    → ((e.state ⟶ to)
        × ((handle_command (transition_state busid to) s).devices busid
            ≡ some (record e { state = to })))
      ⊎ ((¬ (e.state ⟶ to)) × (handle_command (transition_state busid to) s ≡ s))
unfolding handle_command transition_at
transition_exact s busid e to found = elim (Bool-cases (is_valid_transition e.state to)) [
  | inl valid ↦ inl (is_valid_transition_sound e.state to valid, rw (found, valid, eq_refl busid))
  | inr refused ↦
      inr (λ step. cc (is_valid_transition_complete e.state to step), rw (found, refused))
]

abbrev pub target : RegistryCommand → BusId
target (add_device d) = d.busid
target (remove_device busid) = busid
target (transition_state busid to) = busid
