-- ===== src/Registry/System/Reaching.antt =====
-- Every state that the registry gets to is sound.
use easy_usb.Base.{
  ℕ, ◌≡◌, ◌⊎◌, inl, inr, refl, sym, ap, ◌∙◌, Bool, true, false, List, ◌++◌, none, err, append-nil,
  if◌then◌else◌,
}
use easy_usb.Registry.{RegistrySnapshot, empty_snapshot, RegistryCommand}
use easy_usb.Registry.Invariant.{IsConsistent, empty-IsConsistent}
use easy_usb.Registry.Channels.{Channels}
use easy_usb.Registry.System.{
  System, channel_closed, handle_send, snapshot, signal, Step, task_step, sent, refused, subscribed,
  unsubscribed, signalled, handles_dropped, Reached, started, moved,
}
use easy_usb.Registry.System.Runs.{
  replay-IsConsistent, same-ShowsPrefix, IsRunning, IsOver, IsSound, with_capacity-IsSound,
  TaskStep-IsSound, sent-IsSound,
}

module _ (tokio : Channels RegistryCommand RegistrySnapshot) where
  open tokio use {
    Mpsc, queue, capacity, is_closed, send-closed, drop_senders, drop_senders-kept, Watch, current,
    watchers, subscribe, subscribe-kept, drop_watcher, drop_watcher-kept, Oneshot,
  }

  -- What neither the task nor the commands nor the shown value is touched by.
  kept-IsSound :
      (n : ℕ) (accepted : List RegistryCommand) (s : System tokio) (m : Mpsc) (w : Watch)
      (o : Oneshot) (has : Bool)
      → (queue m ≡ queue s.commands)
        × (capacity m ≡ capacity s.commands)
        × (is_closed m ≡ is_closed s.commands)
      → current w ≡ current s.watch
      → IsSound tokio n accepted s
      → IsSound tokio n accepted
          (record { commands = m; watch = w; shutdown = o; task = s.task; has_shutdown_tx = has })
  kept-IsSound n accepted s m w o has (waiting, size, ends) e v = record {
    handled = v.handled;
    life = lives v.handled v.life;
    shown = same-ShowsPrefix tokio v.handled s.watch w e v.shown;
  }
    where
      lives :
          (handled : List RegistryCommand)
          → IsRunning tokio n accepted handled s ⊎ IsOver tokio accepted handled s
          → IsRunning tokio n accepted handled (record {
            commands = m;
            watch = w;
            shutdown = o;
            task = s.task;
            has_shutdown_tx = has;
          })
            ⊎ IsOver tokio accepted handled (record {
              commands = m;
              watch = w;
              shutdown = o;
              task = s.task;
              has_shutdown_tx = has;
            })
      lives handled (inl run) = inl (record {
        state = run.state;
        order = run.order ∙ ap (◌++◌ handled) (sym waiting);
        open_end = ends ∙ run.open_end;
        size = size ∙ run.size;
        bound = rw waiting run.bound;
      })
      lives handled (inr over) = inr (record {
        state = over.state;
        lost = over.lost;
        order = over.order;
        closed_end = ends ∙ over.closed_end;
      })

  handle_send-refused :
      (cmd : RegistryCommand) (s : System tokio)
      → is_closed s.commands ≡ true
      → handle_send tokio cmd s ≡ (s, err channel_closed)
  unfolding handle_send
  handle_send-refused cmd s h = rw (send-closed cmd s.commands h) refl

  signal-IsSound :
      (n : ℕ) (accepted : List RegistryCommand) (s : System tokio)
      → IsSound tokio n accepted s
      → IsSound tokio n accepted (signal tokio s)
  unfolding signal
  signal-IsSound n accepted s v =
      either s.has_shutdown_tx
        (kept-IsSound n accepted s s.commands s.watch _ false (refl, refl, refl) refl v)
    where
      either :
          (there : Bool) {t : System tokio}
          → IsSound tokio n accepted t
          → IsSound tokio n accepted (if there then t else s)
      either true u = u
      either false u = v

  Step-IsSound :
      (n : ℕ) (accepted more : List RegistryCommand) (s t : System tokio)
      → IsSound tokio n accepted s
      → Step tokio s more t
      → IsSound tokio n (accepted ++ more) t
  Step-IsSound n accepted _ s t v (task_step step) =
      rw (append-nil accepted) (TaskStep-IsSound tokio n accepted s t v step)
  Step-IsSound n accepted _ s _ v (sent cmd opened room) =
      sent-IsSound tokio n accepted s cmd v opened room
  Step-IsSound n accepted _ s _ v (refused cmd h) =
      rw (append-nil accepted, handle_send-refused cmd s h) v
  Step-IsSound n accepted _ s _ v subscribed =
      let (same, _) = subscribe-kept s.watch in
      rw (append-nil accepted) (
        unfold snapshot in
        kept-IsSound n accepted s s.commands (subscribe s.watch) s.shutdown s.has_shutdown_tx
          (refl, refl, refl) same v)
  Step-IsSound n accepted _ s _ v (unsubscribed some_left) =
      let (same, _) = drop_watcher-kept s.watch some_left in
      rw (append-nil accepted) (
        kept-IsSound n accepted s s.commands (drop_watcher s.watch) s.shutdown s.has_shutdown_tx
          (refl, refl, refl) same v)
  Step-IsSound n accepted _ s _ v signalled =
      rw (append-nil accepted) (signal-IsSound n accepted s v)
  Step-IsSound n accepted _ s _ v handles_dropped = rw (append-nil accepted) (
      kept-IsSound n accepted s (drop_senders s.commands) s.watch s.shutdown s.has_shutdown_tx
        (drop_senders-kept s.commands) refl v)

  -- Whatever the holders of a registry of capacity n and its task do in turn, the accepted commands are
  -- handled in the order of their sends, none twice: while the task runs they are the handled ones and
  -- those that wait, at most n, and its state is what the handled ones give; once it is over the channel
  -- is closed. The snapshot on the watch channel is the state after some first of the handled ones.
  pub Reached-IsSound :
      (n : ℕ) (accepted : List RegistryCommand) (s : System tokio)
      → Reached tokio n accepted s
      → IsSound tokio n accepted s
  Reached-IsSound n _ _ (started some_room) = with_capacity-IsSound tokio n some_room
  Reached-IsSound n _ t (moved {accepted} {more} {s} run step) =
      Step-IsSound n accepted more s t (Reached-IsSound n accepted s run) step

  -- In every state that a registry gets to, the snapshot on the watch channel is consistent.
  pub Reached-current :
      (n : ℕ) (accepted : List RegistryCommand) (s : System tokio)
      → Reached tokio n accepted s
      → IsConsistent (current s.watch)
  Reached-current n accepted s run =
      let shown = (Reached-IsSound n accepted s run).shown in
      rw shown.value (replay-IsConsistent shown.seen empty_snapshot empty-IsConsistent)

  -- A send on a registry whose task is over gives `ChannelClosed`, and changes nothing.
  pub handle_send-over :
      (n : ℕ) (accepted : List RegistryCommand) (s : System tokio) (cmd : RegistryCommand)
      → Reached tokio n accepted s
      → s.task ≡ none
      → handle_send tokio cmd s ≡ (s, err channel_closed)
  handle_send-over n accepted s cmd run over =
      handle_send-refused cmd s (closed (Reached-IsSound n accepted s run).life)
    where
      closed :
          {handled : List RegistryCommand}
          → IsRunning tokio n accepted handled s ⊎ IsOver tokio accepted handled s
          → is_closed s.commands ≡ true
      closed (inl running) = cc (over, running.state)
      closed (inr ended) = ended.closed_end
