-- ===== src/Registry/Invariant.antt =====
-- The registry's two maps agree after every command.
use text.Mathlib.Text.{◌==◌ as str_eq}
use text.Mathlib.TextEquality.{eq_iff}
use text.Mathlib.TextPositions.{eq_refl}
use easy_usb.Base.{
  ◌≡◌, refl, ◌∙◌, Bool, true, false, List, [], ◌∷◌, Option, none, some, if◌then◌else◌, arith,
  Option-cases, Bool-cases, inl, inr, All,
}
use easy_usb.Port.{UsbDevice}
use easy_usb.Registry.{
  SessionId, BusId, DeviceState, idle, forwarded, disconnected, state_eq, DeviceEntry,
  RegistrySnapshot, empty_snapshot, RegistryCommand, add_device, remove_device, transition_state,
}
use easy_usb.Registry.Maps.{contains, insert, release, attach, Forwardings}
use easy_usb.Registry.MapLaws.{
  listed, listed-release, release-is_tidy, listed-attach_state, is_tidy, attach_state-is_tidy,
}
use easy_usb.Registry.Commands.{
  is_valid_transition, add_at, remove_at, transition_at, handle_command, Wake, received,
  channel_closed, shutdown_signal, run_loop, run_registry,
}

-- Whether an entry is forwarded to a session.
abbrev pub is_forwarded_to : SessionId → Option DeviceEntry → Bool
is_forwarded_to sid none = false
is_forwarded_to sid (some e) = state_eq e.state (forwarded sid)

abbrev pub has_busid : BusId → Option DeviceEntry → Bool
has_busid b none = true
has_busid b (some e) = str_eq e.device.busid b

disconnected-not_forwarded :
    (st : DeviceState) (sid : SessionId)
    → state_eq st disconnected ≡ true
    → state_eq st (forwarded sid) ≡ false
disconnected-not_forwarded disconnected sid h = refl
disconnected-not_forwarded _ sid h = cc

-- A session's list has just the devices that are forwarded to it, no list is empty or has a bus
-- twice, and every device stands under its own bus id.
pub record IsConsistent (s : RegistrySnapshot) : Type 0 where
  pub agree :
      (sid : SessionId) (b : BusId) → listed s.forwardings sid b ≡ is_forwarded_to sid (s.devices b)
  pub tidy : (sid : SessionId) → is_tidy (s.forwardings sid) ≡ true
  pub keyed : (b : BusId) → has_busid b (s.devices b) ≡ true

-- Changing the entry of one bus, and the lists to match.
module _ (s : RegistrySnapshot) (v : IsConsistent s) (busid : BusId) where
  put-IsConsistent :
      (o : Option DeviceEntry) (fwd : Forwardings)
      → ((sid : SessionId) (b : BusId)
          → listed fwd sid b
            ≡ (if str_eq busid b then is_forwarded_to sid o else listed s.forwardings sid b))
      → ((sid : SessionId) → is_tidy (fwd sid) ≡ true)
      → has_busid busid o ≡ true
      → IsConsistent
          (record { devices = λ b. if str_eq busid b then o else s.devices b; forwardings = fwd })
  put-IsConsistent o fwd a d k = record {
    agree = λ sid b. ground (arith, a sid b, v.agree sid b);
    tidy = d;
    keyed = λ b. ground (arith, v.keyed b, eq_iff busid b);
  }

  module _ (entry : DeviceEntry) (found : s.devices busid ≡ some entry) where
    -- The lists before a change, at the bus, and after `release`.
    listed_here :
        (sid : SessionId) → listed s.forwardings sid busid ≡ state_eq entry.state (forwarded sid)
    listed_here sid = ground (arith, v.agree sid busid)

    freed : Forwardings
    freed = release entry.state busid s.forwardings

    listed-freed :
        (sid : SessionId) (b : BusId)
        → listed freed sid b ≡ (if str_eq busid b then false else listed s.forwardings sid b)
    unfolding freed
    listed-freed = listed-release entry.state busid s.forwardings listed_here

    not_listed : (sid : SessionId) → listed freed sid busid ≡ false
    not_listed sid = ground (arith, listed-freed sid busid, eq_refl busid)

    freed-is_tidy : (sid : SessionId) → is_tidy (freed sid) ≡ true
    unfolding freed
    freed-is_tidy = release-is_tidy entry.state busid s.forwardings v.tidy

    remove-IsConsistent : IsConsistent (remove_at busid s (some entry))
    unfolding remove_at freed
    remove-IsConsistent = put-IsConsistent none freed listed-freed freed-is_tidy refl

    keyed_here : str_eq entry.device.busid busid ≡ true
    keyed_here = ground (arith, v.keyed busid)

    listed-moved :
        (st : DeviceState) (sid : SessionId) (b : BusId)
        → listed (attach st busid freed) sid b
          ≡ (if str_eq busid b then state_eq st (forwarded sid) else listed s.forwardings sid b)
    listed-moved st sid b =
        ground (arith, listed-attach_state st busid freed not_listed sid b, listed-freed sid b)

    moved-IsConsistent :
        (st : DeviceState)
        → IsConsistent (record {
          devices = insert busid (record entry { state = st }) s.devices;
          forwardings = attach st busid freed;
        })
    moved-IsConsistent st =
        put-IsConsistent (some (record entry { state = st })) (attach st busid freed)
          (listed-moved st) (attach_state-is_tidy st busid freed freed-is_tidy) keyed_here

    transition-IsConsistent :
        (st : DeviceState) → IsConsistent (transition_at busid st s (some entry))
    unfolding transition_at freed
    transition-IsConsistent st = elim (Bool-cases (is_valid_transition entry.state st)) [
      | inl valid ↦ rw valid (moved-IsConsistent st)
      | inr refused ↦ rw refused v
    ]

  -- A fresh idle device on a bus that is in no list.
  idle-IsConsistent :
      (device : UsbDevice)
      → ((sid : SessionId) → listed s.forwardings sid busid ≡ false)
      → str_eq device.busid busid ≡ true
      → IsConsistent
          (record s { devices = insert busid (record { device = device; state = idle }) s.devices })
  idle-IsConsistent device free k =
      put-IsConsistent (some (record { device = device; state = idle })) s.forwardings
        (λ sid b. ground (arith, free sid, eq_iff busid b)) v.tidy k

module _ (s : RegistrySnapshot) (v : IsConsistent s) where
  add-IsConsistent :
      (device : UsbDevice) (o : Option DeviceEntry)
      → s.devices device.busid ≡ o
      → IsConsistent (add_at device s o)
  unfolding add_at
  add-IsConsistent device none e =
      idle-IsConsistent s v device.busid device (λ sid. ground (arith, v.agree sid device.busid))
        (eq_refl device.busid)
  add-IsConsistent device (some entry) e = elim (Bool-cases (state_eq entry.state disconnected)) [
    | inl gone ↦ rw gone (
        idle-IsConsistent s v device.busid device
          (λ sid. v.agree sid device.busid ∙ rw e (disconnected-not_forwarded entry.state sid gone))
          (eq_refl device.busid))
    | inr here ↦ rw here v
  ]

  -- Every command keeps the registry consistent: each session's list has just the devices that are
  -- forwarded to it, no list is empty or has a bus twice, and each device stands under its bus id.
  pub handle_command-IsConsistent : (cmd : RegistryCommand) → IsConsistent (handle_command cmd s)
  unfolding handle_command
  handle_command-IsConsistent (add_device device) =
      add-IsConsistent device (s.devices device.busid) refl
  handle_command-IsConsistent (remove_device busid) = elim (Option-cases (s.devices busid)) [
    | inl e ↦ rw e v
    | inr (entry, e) ↦ rw e (remove-IsConsistent s v busid entry e)
  ]
  handle_command-IsConsistent (transition_state busid st) = elim (Option-cases (s.devices busid)) [
    | inl e ↦ rw e v
    | inr (entry, e) ↦ rw e (transition-IsConsistent s v busid entry e st)
  ]

run_loop-IsConsistent :
    (s : RegistrySnapshot)
    → IsConsistent s
    → (wakes : List Wake) → All IsConsistent (run_loop s wakes)
unfolding run_loop
run_loop-IsConsistent s v [] = tt
run_loop-IsConsistent s v (received cmd ∷ wakes) =
    let next = handle_command-IsConsistent s v cmd in
    (next, run_loop-IsConsistent (handle_command cmd s) next wakes)
run_loop-IsConsistent s v (channel_closed ∷ wakes) = tt
run_loop-IsConsistent s v (shutdown_signal ∷ wakes) = tt

pub empty-IsConsistent : IsConsistent empty_snapshot
unfolding listed contains
empty-IsConsistent = record { agree = λ sid b. refl; tidy = λ sid. refl; keyed = λ b. refl }

-- The default snapshot and every snapshot that the registry's loop hands to the watch channel are
-- consistent, whatever commands come and whenever it stops.
pub run_registry-IsConsistent : (wakes : List Wake) → All IsConsistent (run_registry wakes)
unfolding run_registry
run_registry-IsConsistent wakes =
    (empty-IsConsistent, run_loop-IsConsistent empty_snapshot empty-IsConsistent wakes)
