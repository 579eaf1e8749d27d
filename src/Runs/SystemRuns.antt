-- ===== src/Runs/SystemRuns.antt =====
-- The registry with its task on the plain channels.
use easy_usb.Base.{◌≤◌, ◌≡◌, ◌⊎◌, refl, none, some, List, [], ◌∷◌, arith, err}
use easy_usb.PlainChannels.{plain_channels}
use easy_usb.Registry.{
  bound, RegistrySnapshot, empty_snapshot, RegistryCommand, add_device, transition_state,
}
use easy_usb.Registry.Commands.{run_registry, Wake, received, shutdown_signal}
use easy_usb.Registry.Refinement.{AllShow, table_loop, run_registry-AllShow}
use easy_usb.Registry.Channels.{Channels}
use easy_usb.Registry.System.{
  System, channel_closed, with_capacity, handle_send, snapshot, signal, command_round, TaskStep,
  took, Reached, started, moved, sent, task_step,
}
use easy_usb.Registry.System.Runs.{IsSound, replay}
use easy_usb.Registry.System.Reaching.{Reached-IsSound}
use easy_usb.Registry.System.Losing.{signal-waiting}
use easy_usb.Registry.System.Watching.{served, current-served}
use easy_usb.Registry.System.Stops.{Rounds, rest, round, signal-Rounds}
use easy_usb.Runs.Fixtures.{make_device}

abbrev plug : RegistryCommand
plug = add_device (make_device "1-1" 0x1234 0x5678)

abbrev bind : RegistryCommand
bind = transition_state "1-1" bound

abbrev wakes : List Wake
wakes = received plug ∷ received bind ∷ shutdown_signal ∷ received plug ∷ []

run_registry-AllShow_example :
    AllShow (run_registry wakes) ((λ _. none) ∷ table_loop (λ _. none) wakes)
run_registry-AllShow_example = run_registry-AllShow wakes

abbrev tokio : Channels RegistryCommand RegistrySnapshot
tokio = plain_channels

-- A registry with room for two commands: one is sent, a second one, and the first one is handled.
abbrev new_registry : System tokio
new_registry = with_capacity tokio 2

abbrev one_sent : System tokio
one_sent = (handle_send tokio plug new_registry).0

abbrev two_sent : System tokio
two_sent = (handle_send tokio bind one_sent).0

abbrev one_handled : System tokio
one_handled = command_round tokio two_sent

two_sent-Reached : Reached tokio 2 (plug ∷ bind ∷ []) two_sent
unfolding with_capacity handle_send
two_sent-Reached =
    moved (moved (started (omega arith)) (sent plug refl (omega arith)))
      (sent bind refl (omega arith))

first_round : TaskStep tokio two_sent one_handled
unfolding with_capacity handle_send
first_round = took plug (bind ∷ []) refl refl

one_handled-Reached : Reached tokio 2 (plug ∷ bind ∷ []) one_handled
one_handled-Reached = moved two_sent-Reached (task_step first_round)

Reached-IsSound_example : IsSound tokio 2 (plug ∷ bind ∷ []) one_handled
Reached-IsSound_example = Reached-IsSound tokio 2 (plug ∷ bind ∷ []) one_handled one_handled-Reached

two_sent-task : two_sent.task ≡ some empty_snapshot
unfolding with_capacity handle_send
two_sent-task = refl

two_sent-queue : two_sent.commands.waiting ≡ plug ∷ bind ∷ []
unfolding with_capacity handle_send
two_sent-queue = refl

-- The shutdown is signalled with both commands waiting, and the task takes one before it sees that.
abbrev signalled_two : System tokio
signalled_two = signal tokio two_sent

one_round : Rounds tokio signalled_two 1 (command_round tokio signalled_two)
unfolding with_capacity handle_send signal
one_round = round (took plug (bind ∷ []) refl refl) rest

signal-Rounds_example :
    let t = command_round tokio signalled_two in
    (1 ≤ 3) × ((t.task ≡ none) ⊎ ((u : System tokio) × TaskStep tokio t u × (u.task ≡ none)))
signal-Rounds_example =
    signal-Rounds tokio 2 (plug ∷ bind ∷ []) two_sent (command_round tokio signalled_two) 1
      two_sent-Reached one_round

-- The shutdown is signalled with both commands waiting, and the second one is lost.
signal-waiting_example :
    (t : System tokio) × (u : System tokio) × Rounds tokio signalled_two 1 t
    × (t.task ≡ some (replay (plug ∷ []) empty_snapshot))
    × (t.commands.waiting ≡ bind ∷ [])
    × TaskStep tokio t u
    × (u.task ≡ none)
    × (handle_send tokio plug u ≡ (u, err channel_closed))
signal-waiting_example =
    signal-waiting tokio 2 (plug ∷ bind ∷ []) (plug ∷ []) (bind ∷ []) two_sent empty_snapshot plug
      two_sent-Reached two_sent-task two_sent-queue

current-served_example :
    ((served tokio (plug ∷ bind ∷ []) (snapshot tokio new_registry)).watch.value
      ≡ replay (plug ∷ bind ∷ []) empty_snapshot)
    × ((served tokio (plug ∷ bind ∷ []) new_registry).task
        ≡ some (replay (plug ∷ bind ∷ []) empty_snapshot))
    × ((snapshot tokio (served tokio (plug ∷ bind ∷ []) new_registry)).watch.value ≡ empty_snapshot)
current-served_example = current-served tokio 2 (plug ∷ bind ∷ []) (omega arith)
