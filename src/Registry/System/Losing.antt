-- ===== src/Registry/System/Losing.antt =====
-- What the shutdown signal may do to the commands that wait.
use easy_usb.Base.{◌≡◌, refl, ap, ◌∙◌, true, ℕ, List, [], ◌∷◌, ◌++◌, some, none, length, arith, err}
use easy_usb.Registry.{RegistrySnapshot, RegistryCommand}
use easy_usb.Registry.Commands.{handle_command}
use easy_usb.Registry.Channels.{Channels}
use easy_usb.Registry.System.{
  System, channel_closed, handle_send, signal, stop, on_command, command_round, TaskStep, took,
  stopped, Reached,
}
use easy_usb.Registry.System.Runs.{replay}
use easy_usb.Registry.System.Stops.{
  Rounds, rest, round, signal-is_fired, Reached-IsFiredOrThere, Rounds-shutdown,
}

module _ (tokio : Channels RegistryCommand RegistrySnapshot) where
  open tokio use {queue, recv-some, send-closed, drop_receiver-closed, is_fired}

  signal-kept :
      (s : System tokio)
      → ((signal tokio s).task ≡ s.task) × ((signal tokio s).commands ≡ s.commands)
  unfolding signal
  signal-kept s = ground arith

  -- The task can take the waiting commands one by one.
  record Takes (front back : List RegistryCommand) (state : RegistrySnapshot) (s : System tokio)
      : Type 0 where
    later : System tokio
    rounds : Rounds tokio s (length front) later
    handled : later.task ≡ some (replay front state)
    left : queue later.commands ≡ back

  takes :
      (front back : List RegistryCommand) (state : RegistrySnapshot) (s : System tokio)
      → s.task ≡ some state
      → queue s.commands ≡ front ++ back
      → Takes front back state s
  unfolding replay
  takes [] back state s e waiting = record { later = s; rounds = rest; handled = e; left = waiting }
  takes (cmd ∷ cmds) back state s e waiting =
      let (got, behind, _, _) = recv-some cmd (cmds ++ back) s.commands waiting in
      let more =
        takes cmds back (handle_command cmd state) (command_round tokio s)
          (unfold command_round on_command in rw (e, got) refl)
          (unfold command_round on_command in rw (e, got) behind) in
      record {
        later = more.later;
        rounds = round (took cmd (cmds ++ back) e waiting) more.rounds;
        handled = more.handled;
        left = more.left;
      }

  stop-closed :
      (cmd : RegistryCommand) (s : System tokio)
      → handle_send tokio cmd (stop tokio s) ≡ (stop tokio s, err channel_closed)
  unfolding handle_send stop
  stop-closed cmd s = rw (send-closed cmd _ (drop_receiver-closed s.commands)) refl

  -- When the shutdown is signalled with commands waiting, then for each way to cut those into a first
  -- part and a rest, the task can run so that it takes just the first part, one in a round, its state
  -- being what they give, and then stops with the rest still waiting; a send behind that is refused.
  pub signal-waiting :
      (n : ℕ) (accepted front back : List RegistryCommand) (s : System tokio)
      (state : RegistrySnapshot) (cmd : RegistryCommand)
      → Reached tokio n accepted s
      → s.task ≡ some state
      → queue s.commands ≡ front ++ back
      → (t : System tokio) × (u : System tokio) × Rounds tokio (signal tokio s) (length front) t
        × (t.task ≡ some (replay front state))
        × (queue t.commands ≡ back)
        × TaskStep tokio t u
        × (u.task ≡ none)
        × (handle_send tokio cmd u ≡ (u, err channel_closed))
  signal-waiting n accepted front back s state cmd run e waiting =
      let (same_task, same_commands) = signal-kept s in
      let ran =
        takes front back state (signal tokio s) (same_task ∙ e)
          (ap queue same_commands ∙ waiting) in
      let fired : is_fired ran.later.shutdown ≡ true =
        ap is_fired (Rounds-shutdown tokio (signal tokio s) ran.later (length front) ran.rounds)
        ∙ signal-is_fired tokio s (Reached-IsFiredOrThere tokio n accepted s run) in
      (
        ran.later,
        stop tokio ran.later,
        ran.rounds,
        ran.handled,
        ran.left,
        stopped ran.handled fired,
        (unfold stop in refl),
        stop-closed cmd ran.later,
      )
