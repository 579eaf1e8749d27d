-- ===== src/Registry/System.antt =====
-- crates/easy-usb-core/src/engine/registry.rs: `DeviceRegistry`, its handle and its task on the channels
-- that they share.
pub mod Runs
pub mod Reaching
pub mod Watching
pub mod Stops
pub mod Losing
use easy_usb.Base.{
  ℕ, ◌<◌, ◌≡◌, ◌≢◌, Bool, true, false, List, [], ◌∷◌, ◌++◌, Option, none, some, Result, ok, err,
  map_err, length, if◌then◌else◌,
}
use easy_usb.Registry.{RegistrySnapshot, empty_snapshot, RegistryCommand}
use easy_usb.Registry.Commands.{handle_command}
use easy_usb.Registry.Channels.{Channels}

abbrev pub default_channel_capacity : ℕ
default_channel_capacity = 64

pub data RegistryError : Type 0 where
  channel_closed : RegistryError

-- The registry, its handles and its task share the channels. `task` is the `state` of `run_registry` while
-- it runs; `has_shutdown_tx` tells whether `shutdown_tx` is still there.
pub record System (tokio : Channels RegistryCommand RegistrySnapshot) : Type 0 where
  pub commands : tokio.Mpsc
  pub watch : tokio.Watch
  pub shutdown : tokio.Oneshot
  pub task : Option RegistrySnapshot
  pub has_shutdown_tx : Bool

module _ (tokio : Channels RegistryCommand RegistrySnapshot) where
  open tokio use {
    Mpsc, queue, has_senders, channel, send, recv, drop_senders, drop_receiver, watchers,
    watch_channel, watch_send, subscribe, drop_watcher, oneshot, fire, is_fired, capacity,
    is_closed,
  }

  -- The receiver that `watch::channel` returns is dropped.
  unfoldable pub with_capacity : ℕ → System tokio
  with_capacity n = record {
    commands = channel n;
    watch = drop_watcher (watch_channel empty_snapshot);
    shutdown = oneshot;
    task = some empty_snapshot;
    has_shutdown_tx = true;
  }

  unfoldable pub new : System tokio
  new = with_capacity default_channel_capacity

  -- `RegistryHandle::send`.
  unfoldable pub handle_send :
      RegistryCommand → System tokio → System tokio × Result RegistryError (Unit {0})
  handle_send cmd s =
      let (commands, r) = send cmd s.commands in
      (record s { commands = commands }, map_err (λ _. channel_closed) r)

  unfoldable pub snapshot : System tokio → System tokio
  snapshot s = record s { watch = subscribe s.watch }

  -- `if let Some(shutdown_tx) = self.shutdown_tx.take() { … }`, in `shutdown` and in `drop`.
  unfoldable pub signal : System tokio → System tokio
  signal s =
      if s.has_shutdown_tx
      then (record s { shutdown = fire s.shutdown; has_shutdown_tx = false })
      else s

  -- `break`: the task ends, and its end of the command channel goes.
  unfoldable pub stop : System tokio → System tokio
  stop s = record s { commands = drop_receiver s.commands; task = none }

  -- The arm of the command, for what `recv` gave.
  unfoldable pub on_command :
      RegistrySnapshot → System tokio → Mpsc × Option RegistryCommand → System tokio
  unfolding stop
  on_command state s (commands, none) = stop (record s { commands = commands })
  on_command state s (commands, some cmd) =
      let next = handle_command cmd state in
      record s { commands = commands; watch = watch_send next s.watch; task = some next }

  -- A round of the loop that takes the arm of the command, with the `state` of the task if it runs.
  abbrev pub round_in : System tokio → Option RegistrySnapshot → System tokio
  round_in s none = s
  round_in s (some state) = on_command state s (recv s.commands)

  unfoldable pub command_round : System tokio → System tokio
  command_round s = round_in s s.task

  -- A step of the task: a round of the loop with an arm that is ready.
  pub data TaskStep : System tokio → System tokio → Type 0 where
    took :
        {s : System tokio} {state : RegistrySnapshot} (cmd : RegistryCommand)
        (cmds : List RegistryCommand)
        → s.task ≡ some state
        → queue s.commands ≡ cmd ∷ cmds
        → TaskStep s (command_round s)
    ended :
        {s : System tokio} {state : RegistrySnapshot}
        → s.task ≡ some state
        → queue s.commands ≡ []
        → has_senders s.commands ≡ false
        → TaskStep s (command_round s)
    stopped :
        {s : System tokio} {state : RegistrySnapshot}
        → s.task ≡ some state
        → is_fired s.shutdown ≡ true
        → TaskStep s (stop s)

  -- A step of the whole, with the commands that it accepts: one of the task, or of those who hold the
  -- registry or one of its handles or snapshots.
  pub data Step : System tokio → List RegistryCommand → System tokio → Type 0 where
    task_step : {s t : System tokio} → TaskStep s t → Step s [] t
    sent :
        {s : System tokio} (cmd : RegistryCommand)
        → is_closed s.commands ≡ false
        → length (queue s.commands) < capacity s.commands
        → Step s (cmd ∷ []) (handle_send cmd s).0
    refused :
        {s : System tokio} (cmd : RegistryCommand)
        → is_closed s.commands ≡ true
        → Step s [] (handle_send cmd s).0
    subscribed : {s : System tokio} → Step s [] (snapshot s)
    unsubscribed :
        {s : System tokio}
        → watchers s.watch ≢ 0
        → Step s [] (record s { watch = drop_watcher s.watch })
    signalled : {s : System tokio} → Step s [] (signal s)
    handles_dropped :
        {s : System tokio} → Step s [] (record s { commands = drop_senders s.commands })

  -- The states that a registry of a capacity gets to, with all the commands accepted on the way. With a
  -- capacity of 0 there is no registry: `mpsc::channel` panics.
  pub data Reached (n : ℕ) : List RegistryCommand → System tokio → Type 0 where
    started : n ≢ 0 → Reached n [] (with_capacity n)
    moved :
        {accepted more : List RegistryCommand} {s t : System tokio}
        → Reached n accepted s
        → Step s more t
        → Reached n (accepted ++ more) t
