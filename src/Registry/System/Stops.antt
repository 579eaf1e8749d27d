-- ===== src/Registry/System/Stops.antt =====
-- The task comes to its end.
use easy_usb.Base.{
  ℕ, suc, ◌+◌, ◌≤◌, ◌<◌, ◌≡◌, ◌⊎◌, inl, inr, refl, ap, ◌∙◌, Bool, true, false, List, Option, none,
  some, Option-cases, length, arith, if◌then◌else◌,
}
use easy_usb.Registry.{RegistrySnapshot, RegistryCommand}
use easy_usb.Registry.Channels.{Channels}
use easy_usb.Registry.System.{
  System, with_capacity, handle_send, snapshot, signal, stop, on_command, round_in, command_round,
  TaskStep, took, ended, stopped, Step, task_step, sent, refused, subscribed, unsubscribed,
  signalled, handles_dropped, Reached, started, moved,
}
use easy_usb.Registry.System.Runs.{IsRunning, IsOver}
use easy_usb.Registry.System.Reaching.{Reached-IsSound}

module _ (tokio : Channels RegistryCommand RegistrySnapshot) where
  open tokio use {queue, recv, recv-some, recv-none, is_fired, is_fired-fire, fire}

  -- k rounds of the task.
  pub data Rounds : System tokio → ℕ → System tokio → Type 0 where
    rest : {s : System tokio} → Rounds s 0 s
    round : {s t u : System tokio} {k : ℕ} → TaskStep tokio s t → Rounds t k u → Rounds s (suc k) u

  -- The rounds that the task has left if nothing is sent.
  abbrev rounds_left : Option RegistrySnapshot → ℕ → ℕ
  rounds_left none waiting = 0
  rounds_left (some state) waiting = suc waiting

  abbrev pub left_of : System tokio → ℕ
  left_of s = rounds_left s.task (length (queue s.commands))

  TaskStep-left_of : (s t : System tokio) → TaskStep tokio s t → left_of t < left_of s
  TaskStep-left_of s _ (took cmd cmds e waiting) =
      let (got, behind, _, _) = recv-some cmd cmds s.commands waiting in
      unfold command_round on_command in rw (e, got, behind, waiting) (omega arith)
  TaskStep-left_of s _ (ended e empty alone) =
      unfold command_round on_command stop in rw (e, recv-none s.commands empty alone) (omega arith)
  TaskStep-left_of s _ (stopped e fired) = unfold stop in rw e (omega arith)

  -- Without further sends the task makes at most one round for each waiting command, and one to end.
  pub Rounds-left_of : (s t : System tokio) (k : ℕ) → Rounds s k t → k + left_of t ≤ left_of s
  Rounds-left_of s _ _ rest = omega arith
  Rounds-left_of s u _ (round {t} {k} step more) =
      omega (arith, TaskStep-left_of s t step, Rounds-left_of t u k more)

  -- The shutdown sender goes only when it fires.
  abbrev pub IsFiredOrThere : System tokio → Type 0
  IsFiredOrThere s = (is_fired s.shutdown ≡ true) ⊎ (s.has_shutdown_tx ≡ true)

  pub signal-is_fired :
      (s : System tokio) → IsFiredOrThere s → is_fired (signal tokio s).shutdown ≡ true
  unfolding signal
  signal-is_fired s v = by s.has_shutdown_tx v
    where
      by :
          (there : Bool)
          → (is_fired s.shutdown ≡ true) ⊎ (there ≡ true)
          → is_fired
              (if there
                then (record s { shutdown = fire s.shutdown; has_shutdown_tx = false })
                else s).shutdown
            ≡ true
      by true v = is_fired-fire s.shutdown
      by false (inl fired) = fired
      by false (inr there) = cc

  command_round-shutdown :
      (s : System tokio)
      → ((command_round tokio s).shutdown ≡ s.shutdown)
        × ((command_round tokio s).has_shutdown_tx ≡ s.has_shutdown_tx)
  unfolding command_round
  command_round-shutdown s = at_task s.task
    where
      taken :
          (state : RegistrySnapshot) (p : tokio.Mpsc × Option RegistryCommand)
          → ((on_command tokio state s p).shutdown ≡ s.shutdown)
            × ((on_command tokio state s p).has_shutdown_tx ≡ s.has_shutdown_tx)
      taken state (m, none) = unfold on_command stop in (refl, refl)
      taken state (m, some cmd) = unfold on_command in (refl, refl)

      at_task :
          (task : Option RegistrySnapshot)
          → ((round_in tokio s task).shutdown ≡ s.shutdown)
            × ((round_in tokio s task).has_shutdown_tx ≡ s.has_shutdown_tx)
      at_task none = (refl, refl)
      at_task (some state) = taken state (recv s.commands)

  TaskStep-shutdown :
      (s t : System tokio)
      → TaskStep tokio s t
      → (t.shutdown ≡ s.shutdown) × (t.has_shutdown_tx ≡ s.has_shutdown_tx)
  TaskStep-shutdown s _ (took cmd cmds e waiting) = command_round-shutdown s
  TaskStep-shutdown s _ (ended e empty alone) = command_round-shutdown s
  TaskStep-shutdown s _ (stopped e fired) = unfold stop in (refl, refl)

  pub Rounds-shutdown : (s t : System tokio) (k : ℕ) → Rounds s k t → t.shutdown ≡ s.shutdown
  Rounds-shutdown s _ _ rest = refl
  Rounds-shutdown s u _ (round {t} {k} step more) =
      Rounds-shutdown t u k more ∙ (TaskStep-shutdown s t step).0

  Step-IsFiredOrThere :
      (s t : System tokio) (more : List RegistryCommand)
      → Step tokio s more t
      → IsFiredOrThere s
      → IsFiredOrThere t
  Step-IsFiredOrThere s t _ (task_step step) v =
      let (fired, there) = TaskStep-shutdown s t step in rw (fired, there) v
  Step-IsFiredOrThere s _ _ (sent cmd opened room) v = unfold handle_send in v
  Step-IsFiredOrThere s _ _ (refused cmd h) v = unfold handle_send in v
  Step-IsFiredOrThere s _ _ subscribed v = unfold snapshot in v
  Step-IsFiredOrThere s _ _ (unsubscribed h) v = v
  Step-IsFiredOrThere s _ _ signalled v = inl (signal-is_fired s v)
  Step-IsFiredOrThere s _ _ handles_dropped v = v

  pub Reached-IsFiredOrThere :
      (n : ℕ) (accepted : List RegistryCommand) (s : System tokio)
      → Reached tokio n accepted s
      → IsFiredOrThere s
  Reached-IsFiredOrThere n _ _ (started some_room) = inr (unfold with_capacity in refl)
  Reached-IsFiredOrThere n _ t (moved {accepted} {more} {s} run step) =
      Step-IsFiredOrThere s t more step (Reached-IsFiredOrThere n accepted s run)

  signal-left_of : (s : System tokio) → left_of (signal tokio s) ≡ left_of s
  unfolding signal
  signal-left_of s = by s.has_shutdown_tx
    where
      by :
          (there : Bool)
          → left_of (
              if there
              then (record s { shutdown = fire s.shutdown; has_shutdown_tx = false })
              else s)
            ≡ left_of s
      by true = refl
      by false = refl

  left_of-bound :
      (n : ℕ) (accepted handled : List RegistryCommand) (s : System tokio)
      → IsRunning tokio n accepted handled s ⊎ IsOver tokio accepted handled s
      → left_of s ≤ suc n
  left_of-bound n accepted handled s (inl run) = rw run.state (omega (arith, run.bound))
  left_of-bound n accepted handled s (inr over) = rw over.state (omega arith)

  -- Without a state there is no task, and with one it can stop.
  can_stop :
      (t : System tokio)
      → is_fired t.shutdown ≡ true
      → (t.task ≡ none) ⊎ ((u : System tokio) × TaskStep tokio t u × (u.task ≡ none))
  can_stop t fired = elim (Option-cases t.task) [
    | inl over ↦ inl over
    | inr (state, e) ↦ inr (stop tokio t, stopped e fired, unfold stop in refl)
  ]

  -- After the shutdown signal, and if nothing is sent any more, the task of a registry of capacity n
  -- makes at most n + 1 rounds, and before each of them, unless it is over, it can stop at once.
  pub signal-Rounds :
      (n : ℕ) (accepted : List RegistryCommand) (s t : System tokio) (k : ℕ)
      → Reached tokio n accepted s
      → Rounds (signal tokio s) k t
      → (k ≤ suc n)
        × ((t.task ≡ none) ⊎ ((u : System tokio) × TaskStep tokio t u × (u.task ≡ none)))
  signal-Rounds n accepted s t k run rounds =
      let sound = Reached-IsSound tokio n accepted s run in
      let bound = left_of-bound n accepted sound.handled s sound.life in
      let fired = signal-is_fired s (Reached-IsFiredOrThere n accepted s run) in
      (
        omega (arith, Rounds-left_of (signal tokio s) t k rounds, signal-left_of s, bound),
        can_stop t (ap is_fired (Rounds-shutdown (signal tokio s) t k rounds) ∙ fired),
      )
