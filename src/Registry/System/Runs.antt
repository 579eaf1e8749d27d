-- ===== src/Registry/System/Runs.antt =====
-- What holds of the registry, its task and its channels in every state that they get to.
use easy_usb.Base.{
  ℕ, ◌≤◌, ◌<◌, ◌≡◌, ◌≢◌, ◌⊎◌, inl, inr, refl, sym, ap, ◌∙◌, true, false, List, [], ◌∷◌, ◌++◌, none,
  some, length, arith, append-nil, append_assoc, length-append, Bool-cases, ◌==◌,
}
use easy_usb.Registry.{RegistrySnapshot, empty_snapshot, RegistryCommand}
use easy_usb.Registry.Commands.{handle_command}
use easy_usb.Registry.Invariant.{IsConsistent, handle_command-IsConsistent}
use easy_usb.Registry.Channels.{Channels}
use easy_usb.Registry.System.{
  System, with_capacity, handle_send, stop, on_command, command_round, TaskStep, took, ended,
  stopped,
}

-- The state after some commands.
unfoldable pub replay : List RegistryCommand → RegistrySnapshot → RegistrySnapshot
replay [] s = s
replay (cmd ∷ cmds) s = replay cmds (handle_command cmd s)

pub replay-append_one :
    (cmds : List RegistryCommand) (cmd : RegistryCommand) (s : RegistrySnapshot)
    → replay (cmds ++ (cmd ∷ [])) s ≡ handle_command cmd (replay cmds s)
unfolding replay
replay-append_one [] cmd s = refl
replay-append_one (c ∷ cmds) cmd s = replay-append_one cmds cmd (handle_command c s)

pub replay-IsConsistent :
    (cmds : List RegistryCommand) (s : RegistrySnapshot)
    → IsConsistent s
    → IsConsistent (replay cmds s)
unfolding replay
replay-IsConsistent [] s v = v
replay-IsConsistent (cmd ∷ cmds) s v =
    replay-IsConsistent cmds (handle_command cmd s) (handle_command-IsConsistent s v cmd)

module _ (tokio : Channels RegistryCommand RegistrySnapshot) where
  open tokio use {
    Mpsc, queue, capacity, is_closed, channel-new, send, send-open, send-closed, recv, recv-some,
    recv-none, drop_senders-kept, drop_receiver, drop_receiver-closed, Watch, current, watchers,
    watch_channel, watch_channel-new, watch_send, watch_send-watched, watch_send-unwatched,
    subscribe-kept, drop_watcher-kept,
  }

  -- The watch channel shows the state after some first of the handled commands.
  pub record ShowsPrefix (handled : List RegistryCommand) (w : Watch) : Type 0 where
    pub seen : List RegistryCommand
    pub later : List RegistryCommand
    pub split : handled ≡ seen ++ later
    pub value : current w ≡ replay seen empty_snapshot

  pub same-ShowsPrefix :
      (handled : List RegistryCommand) (v w : Watch)
      → current w ≡ current v
      → ShowsPrefix handled v
      → ShowsPrefix handled w
  same-ShowsPrefix handled v w e p = record {
    seen = p.seen;
    later = p.later;
    split = p.split;
    value = e ∙ p.value;
  }

  watch_send-ShowsPrefix :
      (handled : List RegistryCommand) (cmd : RegistryCommand) (w : Watch)
      → ShowsPrefix handled w
      → ShowsPrefix
          (handled ++ (cmd ∷ []))
          (watch_send (handle_command cmd (replay handled empty_snapshot)) w)
  watch_send-ShowsPrefix handled cmd w p = elim (Bool-cases (watchers w == 0)) [
    | inl alone ↦ record {
      seen = p.seen;
      later = p.later ++ (cmd ∷ []);
      split = ap (λ hs. hs ++ (cmd ∷ [])) p.split ∙ append_assoc p.seen p.later (cmd ∷ []);
      value = ap current (watch_send-unwatched _ w (ground (arith, alone))) ∙ p.value;
    }
    | inr watched ↦
        let (value, _) =
          watch_send-watched (handle_command cmd (replay handled empty_snapshot)) w
            (ground (arith, watched)) in
        record {
          seen = handled ++ (cmd ∷ []);
          later = [];
          split = sym (append-nil (handled ++ (cmd ∷ [])));
          value = value ∙ sym (replay-append_one handled cmd empty_snapshot);
        }
  ]

  -- The task runs: its state is what the handled commands give, and the accepted ones are those and the
  -- queue, in order, with no more than the capacity waiting.
  pub record IsRunning (n : ℕ) (accepted handled : List RegistryCommand) (s : System tokio)
      : Type 0 where
    pub state : s.task ≡ some (replay handled empty_snapshot)
    pub order : accepted ≡ handled ++ queue s.commands
    pub open_end : is_closed s.commands ≡ false
    pub size : capacity s.commands ≡ n
    pub bound : length (queue s.commands) ≤ n

  -- The task is over: the commands that were still waiting are lost.
  pub record IsOver (accepted handled : List RegistryCommand) (s : System tokio) : Type 0 where
    pub state : s.task ≡ none
    pub lost : List RegistryCommand
    pub order : accepted ≡ handled ++ lost
    pub closed_end : is_closed s.commands ≡ true

  pub record IsSound (n : ℕ) (accepted : List RegistryCommand) (s : System tokio) : Type 0 where
    pub handled : List RegistryCommand
    pub life : IsRunning n accepted handled s ⊎ IsOver accepted handled s
    pub shown : ShowsPrefix handled s.watch

  pub with_capacity-IsSound : (n : ℕ) → n ≢ 0 → IsSound n [] (with_capacity tokio n)
  unfolding with_capacity replay
  with_capacity-IsSound n some_room =
      let (nothing, size, open_end) = channel-new n some_room in
      let (value, one) = watch_channel-new empty_snapshot in
      let (kept, _) = drop_watcher-kept (watch_channel empty_snapshot) (omega (arith, one)) in
      record {
        handled = [];
        life = inl (record {
          state = refl;
          order = sym nothing;
          open_end = open_end;
          size = size;
          bound = rw nothing (omega arith);
        });
        shown = record { seen = []; later = []; split = refl; value = kept ∙ value };
      }

  -- After a state of the task, what a step of it gives.
  took-IsSound :
      (n : ℕ) (accepted handled : List RegistryCommand) (s : System tokio) (cmd : RegistryCommand)
      (cmds : List RegistryCommand)
      → IsRunning n accepted handled s
      → ShowsPrefix handled s.watch
      → queue s.commands ≡ cmd ∷ cmds
      → IsSound n accepted (command_round tokio s)
  unfolding command_round on_command
  took-IsSound n accepted handled s cmd cmds run shown waiting =
      let (got, rest, size, ends) = recv-some cmd cmds s.commands waiting in
      rw (run.state, got)
        (record {
          handled = handled ++ (cmd ∷ []);
          life = inl (record {
            state = ap some (sym (replay-append_one handled cmd empty_snapshot));
            order =
                run.order
                ∙ ap (◌++◌ handled) waiting
                ∙ sym (append_assoc handled (cmd ∷ []) cmds)
                ∙ ap (◌++◌ (handled ++ (cmd ∷ []))) (sym rest);
            open_end = ends ∙ run.open_end;
            size = size ∙ run.size;
            bound = rw rest (omega (arith, run.bound, ap length waiting));
          });
          shown = watch_send-ShowsPrefix handled cmd s.watch shown;
        })

  over-IsSound :
      (n : ℕ) (accepted handled : List RegistryCommand) (s : System tokio)
      → IsRunning n accepted handled s
      → ShowsPrefix handled s.watch
      → IsSound n accepted (stop tokio s)
  unfolding stop
  over-IsSound n accepted handled s run shown = record {
    handled = handled;
    life = inr (record {
      state = refl;
      lost = queue s.commands;
      order = run.order;
      closed_end = drop_receiver-closed s.commands;
    });
    shown = shown;
  }

  ended-IsSound :
      (n : ℕ) (accepted handled : List RegistryCommand) (s : System tokio)
      → IsRunning n accepted handled s
      → ShowsPrefix handled s.watch
      → recv s.commands ≡ (s.commands, none)
      → IsSound n accepted (command_round tokio s)
  unfolding command_round on_command
  ended-IsSound n accepted handled s run shown empty =
      rw (run.state, empty) (over-IsSound n accepted handled s run shown)

  alive :
      (n : ℕ) (accepted handled : List RegistryCommand) (s : System tokio)
      (state : RegistrySnapshot)
      → s.task ≡ some state
      → IsRunning n accepted handled s ⊎ IsOver accepted handled s
      → IsRunning n accepted handled s
  alive n accepted handled s state e (inl run) = run
  alive n accepted handled s state e (inr over) = absurd (some_none (sym e ∙ over.state))
    where
      some_none : {A : Type 0} {a : A} → some a ≡ none → ⊥
      some_none h = cc

  pub TaskStep-IsSound :
      (n : ℕ) (accepted : List RegistryCommand) (s t : System tokio)
      → IsSound n accepted s
      → TaskStep tokio s t
      → IsSound n accepted t
  TaskStep-IsSound n accepted s _ v (took cmd cmds e waiting) =
      took-IsSound n accepted v.handled s cmd cmds (alive n accepted v.handled s _ e v.life) v.shown
        waiting
  TaskStep-IsSound n accepted s _ v (ended e empty alone) =
      ended-IsSound n accepted v.handled s (alive n accepted v.handled s _ e v.life) v.shown
        (recv-none s.commands empty alone)
  TaskStep-IsSound n accepted s _ v (stopped e fired) =
      over-IsSound n accepted v.handled s (alive n accepted v.handled s _ e v.life) v.shown

  pub sent-IsSound :
      (n : ℕ) (accepted : List RegistryCommand) (s : System tokio) (cmd : RegistryCommand)
      → IsSound n accepted s
      → is_closed s.commands ≡ false
      → length (queue s.commands) < capacity s.commands
      → IsSound n (accepted ++ (cmd ∷ [])) (handle_send tokio cmd s).0
  unfolding handle_send
  sent-IsSound n accepted s cmd v opened room = sound v.handled v.life v.shown
    where
      sound :
          (handled : List RegistryCommand)
          → IsRunning n accepted handled s ⊎ IsOver accepted handled s
          → ShowsPrefix handled s.watch
          → IsSound n (accepted ++ (cmd ∷ [])) (handle_send tokio cmd s).0
      sound handled (inr over) shown = cc (over.closed_end, opened)
      sound handled (inl run) shown =
          let (_, queued, size, open_end) = send-open cmd s.commands opened room in
          record {
            handled = handled;
            life = inl (record {
              state = run.state;
              order =
                  ap (λ xs. xs ++ (cmd ∷ [])) run.order
                  ∙ append_assoc handled (queue s.commands) (cmd ∷ [])
                  ∙ ap (◌++◌ handled) (sym queued);
              open_end = open_end;
              size = size ∙ run.size;
              bound =
                  rw queued
                    (omega (arith, room, run.size, length-append (queue s.commands) (cmd ∷ [])));
            });
            shown = shown;
          }
