-- ===== src/Registry/Refinement.antt =====
-- The registry's promise with one map only: which devices there are, each with its state; a session has
-- just the devices that are forwarded to it.
use text.Mathlib.Text.{◌==◌ as str_eq}
use text.Mathlib.TextEquality.{eq_iff}
use easy_usb.Base.{
  ◌≡◌, refl, sym, ap, ◌∙◌, List, [], ◌∷◌, Option, none, some, if◌then◌else◌, arith, Bool-cases, inl,
  inr,
}
use easy_usb.Port.{UsbDevice}
use easy_usb.Registry.Maps.{contains}
use easy_usb.Registry.{
  SessionId, BusId, DeviceState, idle, disconnected, state_eq, DeviceEntry, RegistrySnapshot,
  empty_snapshot, RegistryCommand, add_device, remove_device, transition_state,
}
use easy_usb.Registry.MapLaws.{listed}
use easy_usb.Registry.Commands.{
  is_valid_transition, add_at, remove_at, transition_at, handle_command, Wake, received,
  channel_closed, shutdown_signal, run_loop, run_registry,
}
use easy_usb.Registry.Lifecycle.{target}
use easy_usb.Registry.Invariant.{
  IsConsistent, is_forwarded_to, handle_command-IsConsistent, empty-IsConsistent,
}

-- The only map.
abbrev pub DeviceTable : Type 0
DeviceTable = BusId → Option DeviceEntry

-- What a command makes of the entry of its own bus.
unfoldable pub next_entry : RegistryCommand → Option DeviceEntry → Option DeviceEntry
next_entry (add_device device) none = some (record { device = device; state = idle })
next_entry (add_device device) (some entry) =
    if state_eq entry.state disconnected
    then some (record { device = device; state = idle })
    else some entry
next_entry (remove_device busid) entry = none
next_entry (transition_state busid new_state) none = none
next_entry (transition_state busid new_state) (some entry) =
    if is_valid_transition entry.state new_state
    then some (record entry { state = new_state })
    else some entry

unfoldable pub table_step : RegistryCommand → DeviceTable → DeviceTable
table_step cmd table = λ b. if str_eq (target cmd) b then next_entry cmd (table b) else table b

-- The tables from the start on, one for each command before the loop stops.
unfoldable pub table_loop : DeviceTable → List Wake → List DeviceTable
table_loop table [] = []
table_loop table (received cmd ∷ wakes) =
    let next = table_step cmd table in next ∷ table_loop next wakes
table_loop table (channel_closed ∷ wakes) = []
table_loop table (shutdown_signal ∷ wakes) = []

-- A snapshot shows a table, the order within a session's list being forgotten.
pub record Shows (s : RegistrySnapshot) (table : DeviceTable) : Type 0 where
  pub devices : (b : BusId) → s.devices b ≡ table b
  pub sessions :
      (sid : SessionId) (b : BusId) → listed s.forwardings sid b ≡ is_forwarded_to sid (table b)

-- The snapshots show the tables one by one.
unfoldable pub AllShow : List RegistrySnapshot → List DeviceTable → Type 0
AllShow [] [] = Unit {0}
AllShow (s ∷ ss) (t ∷ ts) = Shows s t × AllShow ss ts
AllShow [] (t ∷ ts) = ⊥
AllShow (s ∷ ss) [] = ⊥

add_at-next_entry :
    (d : UsbDevice) (s : RegistrySnapshot) (b : BusId) (o : Option DeviceEntry)
    → s.devices d.busid ≡ o
    → (add_at d s o).devices b
      ≡ (if str_eq d.busid b then next_entry (add_device d) o else s.devices b)
unfolding add_at next_entry
add_at-next_entry d s b none e = refl
add_at-next_entry d s b (some entry) e = elim (Bool-cases (str_eq d.busid b)) [
  | inl same ↦
      let at_bus : s.devices b ≡ some entry = ap s.devices (sym ((eq_iff d.busid b).0 same)) ∙ e in
      ground (arith, same, at_bus)
  | inr other ↦ ground (arith, other)
]

remove_at-next_entry :
    (busid : BusId) (s : RegistrySnapshot) (b : BusId) (o : Option DeviceEntry)
    → s.devices busid ≡ o
    → (remove_at busid s o).devices b
      ≡ (if str_eq busid b then next_entry (remove_device busid) o else s.devices b)
unfolding remove_at next_entry
remove_at-next_entry busid s b none e = elim (Bool-cases (str_eq busid b)) [
  | inl same ↦
      let at_bus : s.devices b ≡ none = ap s.devices (sym ((eq_iff busid b).0 same)) ∙ e in
      ground (arith, same, at_bus)
  | inr other ↦ ground (arith, other)
]
remove_at-next_entry busid s b (some entry) e = refl

transition_at-next_entry :
    (busid : BusId) (to : DeviceState) (s : RegistrySnapshot) (b : BusId) (o : Option DeviceEntry)
    → s.devices busid ≡ o
    → (transition_at busid to s o).devices b
      ≡ (if str_eq busid b then next_entry (transition_state busid to) o else s.devices b)
unfolding transition_at next_entry
transition_at-next_entry busid to s b none e = elim (Bool-cases (str_eq busid b)) [
  | inl same ↦
      let at_bus : s.devices b ≡ none = ap s.devices (sym ((eq_iff busid b).0 same)) ∙ e in
      ground (arith, same, at_bus)
  | inr other ↦ ground (arith, other)
]
transition_at-next_entry busid to s b (some entry) e = elim (Bool-cases (str_eq busid b)) [
  | inl same ↦
      let at_bus : s.devices b ≡ some entry = ap s.devices (sym ((eq_iff busid b).0 same)) ∙ e in
      ground (arith, same, at_bus)
  | inr other ↦ ground (arith, other)
]

-- The entries after a command, by the entry that its bus had.
handle_command-next_entry :
    (cmd : RegistryCommand) (s : RegistrySnapshot) (b : BusId)
    → (handle_command cmd s).devices b
      ≡ (if str_eq (target cmd) b then next_entry cmd (s.devices (target cmd)) else s.devices b)
unfolding handle_command
handle_command-next_entry (add_device d) s b = add_at-next_entry d s b (s.devices d.busid) refl
handle_command-next_entry (remove_device busid) s b =
    remove_at-next_entry busid s b (s.devices busid) refl
handle_command-next_entry (transition_state busid to) s b =
    transition_at-next_entry busid to s b (s.devices busid) refl

handle_command-table_step :
    (cmd : RegistryCommand) (s : RegistrySnapshot) (table : DeviceTable) (b : BusId)
    → ((b : BusId) → s.devices b ≡ table b)
    → (handle_command cmd s).devices b ≡ table_step cmd table b
unfolding table_step
handle_command-table_step cmd s table b same = elim (Bool-cases (str_eq (target cmd) b)) [
  | inl own ↦
      let at_bus : s.devices (target cmd) ≡ table b =
        ap s.devices ((eq_iff (target cmd) b).0 own) ∙ same b in
      handle_command-next_entry cmd s b ∙ rw (own, at_bus) refl
  | inr other ↦ handle_command-next_entry cmd s b ∙ rw other (same b)
]

-- A command on a consistent snapshot is the step of the table that it shows.
handle_command-Shows :
    (cmd : RegistryCommand) (s : RegistrySnapshot) (table : DeviceTable)
    → IsConsistent s
    → Shows s table
    → Shows (handle_command cmd s) (table_step cmd table)
handle_command-Shows cmd s table v shown =
    let devices : (b : BusId) → (handle_command cmd s).devices b ≡ table_step cmd table b =
      λ b. handle_command-table_step cmd s table b shown.devices in
    record {
      devices = devices;
      sessions = λ sid b.
          (handle_command-IsConsistent s v cmd).agree sid b ∙ ap (is_forwarded_to sid) (devices b);
    }

run_loop-AllShow :
    (wakes : List Wake) (s : RegistrySnapshot) (table : DeviceTable)
    → IsConsistent s
    → Shows s table
    → AllShow (run_loop s wakes) (table_loop table wakes)
unfolding run_loop table_loop AllShow
run_loop-AllShow [] s table v shown = tt
run_loop-AllShow (received cmd ∷ wakes) s table v shown =
    let next = handle_command-Shows cmd s table v shown in
    (next, run_loop-AllShow wakes _ _ (handle_command-IsConsistent s v cmd) next)
run_loop-AllShow (channel_closed ∷ wakes) s table v shown = tt
run_loop-AllShow (shutdown_signal ∷ wakes) s table v shown = tt

-- Whatever wakes the loop, its snapshots are those of one map from buses to entries: each command
-- changes the entry of its own bus only, as the table's step says, and each session's list has just the
-- buses whose entry is forwarded to it. Nothing else of the second map shows but the order in a list.
pub run_registry-AllShow :
    (wakes : List Wake) → AllShow (run_registry wakes) ((λ _. none) ∷ table_loop (λ _. none) wakes)
unfolding run_registry AllShow
run_registry-AllShow wakes =
    let start : Shows empty_snapshot (λ _. none) = record {
      devices = λ b. refl;
      sessions = λ sid b. unfold listed contains in refl;
    } in
    (start, run_loop-AllShow wakes empty_snapshot (λ _. none) empty-IsConsistent start)
