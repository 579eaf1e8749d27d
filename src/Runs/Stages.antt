-- ===== src/Runs/Stages.antt =====
-- What the tests of crates/easy-usb-core/src/engine/registry.rs are made of: a subscriber sends a command,
-- and the task takes it before the subscriber looks (`wait_for`, or a sleep).
use Prim.Native.String.{String}
use easy_usb.Base.{ℕ, Bool, true, false, ◌&&◌, List, [], ◌∷◌, Option, none, some, Result, ok, err}
use easy_usb.PlainChannels.{plain_channels}
use easy_usb.Registry.{
  BusId, DeviceState, state_eq, DeviceEntry, RegistrySnapshot, RegistryCommand, add_device,
  transition_state,
}
use easy_usb.Registry.Channels.{Channels}
use easy_usb.Registry.System.{System, new, handle_send, snapshot, command_round}
use easy_usb.Runs.Fixtures.{make_device}

abbrev pub tokio : Channels RegistryCommand RegistrySnapshot
tokio = plain_channels

-- A command, and what is asked of the snapshot then.
pub record Stage : Type 0 where
  pub command : RegistryCommand
  pub expected : RegistrySnapshot → Bool

abbrev pub is_ok : {E A : Type 0} → Result E A → Bool
is_ok (ok _) = true
is_ok (err _) = false

-- A send, and a round of the task.
unfoldable pub passed_on : RegistryCommand → System tokio → System tokio
passed_on cmd s = command_round tokio (handle_send tokio cmd s).0

unfoldable pub stages_pass : List Stage → System tokio → Bool
unfolding passed_on
stages_pass [] s = true
stages_pass (stage ∷ stages) s =
    let rest = stages_pass stages (passed_on stage.command s) in
    is_ok (handle_send tokio stage.command s).1
    && stage.expected (passed_on stage.command s).watch.value
    && rest

-- The stages on a new registry, with a subscriber from the start on.
unfoldable pub passes : List Stage → Bool
unfolding stages_pass
passes stages = stages_pass stages (snapshot tokio (new tokio))

abbrev pub some_and : {A : Type 0} → (A → Bool) → Option A → Bool
some_and p none = false
some_and p (some a) = p a

abbrev pub none_or : {A : Type 0} → (A → Bool) → Option A → Bool
none_or p none = true
none_or p (some a) = p a

abbrev pub is_empty : {A : Type 0} → List A → Bool
is_empty [] = true
is_empty (a ∷ more) = false

abbrev pub contains_key : BusId → RegistrySnapshot → Bool
contains_key b s = some_and (λ _. true) (s.devices b)

abbrev pub in_state : BusId → DeviceState → RegistrySnapshot → Bool
in_state b st s = some_and (λ (e : DeviceEntry). state_eq e.state st) (s.devices b)

abbrev pub adds : String → ℕ → ℕ → Stage
adds b vid pid = record { command = add_device (make_device b vid pid); expected = contains_key b }

-- A transition that is waited for, and then something more.
abbrev pub moves_and : BusId → DeviceState → (RegistrySnapshot → Bool) → Stage
moves_and b st more = record {
  command = transition_state b st;
  expected = λ s. in_state b st s && more s;
}

abbrev pub moves : BusId → DeviceState → Stage
moves b st = moves_and b st (λ _. true)

-- A transition after which the device is in another state.
abbrev pub stays : BusId → DeviceState → DeviceState → Stage
stays b asked st = record { command = transition_state b asked; expected = in_state b st }

abbrev pub plug_1_1 : Stage
plug_1_1 = adds "1-1" 0x1234 0x5678

-- `is_none_or(|buses| buses.is_empty())`, at the session "s1".
abbrev pub s1_empty : RegistrySnapshot → Bool
s1_empty s = none_or (λ buses. is_empty buses) (s.forwardings "s1")
