-- ===== src/Registry/System/Watching.antt =====
-- Who sees the commands that were handled: `snapshot` subscribes to the watch channel.
use easy_usb.Base.{
  ℕ, zero, suc, ◌≤◌, ◌≡◌, ◌≢◌, refl, sym, ap, ◌∙◌, false, List, [], ◌∷◌, ◌++◌, some, length, arith,
}
use easy_usb.Registry.{RegistrySnapshot, empty_snapshot, RegistryCommand}
use easy_usb.Registry.Commands.{handle_command}
use easy_usb.Registry.Channels.{Channels}
use easy_usb.Registry.System.{
  System, with_capacity, handle_send, snapshot, on_command, command_round,
}
use easy_usb.Registry.System.Runs.{replay}

module _ (tokio : Channels RegistryCommand RegistrySnapshot) where
  open tokio use {
    queue, capacity, is_closed, channel-new, send, send-open, recv, recv-some, Watch, current,
    watchers, watch_channel, watch_channel-new, watch_send-watched, watch_send-unwatched, subscribe,
    subscribe-kept, drop_watcher-kept,
  }

  -- Each command is sent, and the task takes it at once.
  unfoldable pub served : List RegistryCommand → System tokio → System tokio
  served [] s = s
  served (cmd ∷ cmds) s = served cmds (command_round tokio (handle_send tokio cmd s).0)

  -- The task waits with a state, and someone watches or not.
  record IsWaiting (n watching : ℕ) (state : RegistrySnapshot) (s : System tokio) : Type 0 where
    task : s.task ≡ some state
    empty : queue s.commands ≡ []
    open_end : is_closed s.commands ≡ false
    size : capacity s.commands ≡ n
    watched : watchers s.watch ≡ watching

  -- One command on a registry that waits.
  served_one :
      (n watching : ℕ) (state : RegistrySnapshot) (s : System tokio) (cmd : RegistryCommand)
      → 1 ≤ n
      → IsWaiting n watching state s
      → let t = command_round tokio (handle_send tokio cmd s).0 in
        IsWaiting n watching (handle_command cmd state) t
        × (watching ≡ 0 → t.watch ≡ s.watch)
        × (watching ≢ 0 → current t.watch ≡ handle_command cmd state)
  unfolding handle_send command_round on_command
  served_one n watching state s cmd room v =
      let (_, queued, size, open_end) =
        send-open cmd s.commands v.open_end (omega (arith, room, v.size, ap length v.empty)) in
      let waits : queue (send cmd s.commands).0 ≡ cmd ∷ [] =
        queued ∙ ap (λ xs. xs ++ (cmd ∷ [])) v.empty in
      let (got, rest, size', ends) = recv-some cmd [] (send cmd s.commands).0 waits in
      let next = handle_command cmd state in
      rw (v.task, got)
        (
          record {
            task = refl;
            empty = rest;
            open_end = ends ∙ open_end;
            size = size' ∙ size ∙ v.size;
            watched = watchers_kept watching s.watch next v.watched;
          },
          (λ alone. watch_send-unwatched next s.watch (v.watched ∙ alone)),
          (λ seen. (watch_send-watched next s.watch (λ e. seen (sym v.watched ∙ e))).0),
        )
    where
      watchers_kept :
          (k : ℕ) (w : Watch) (next : RegistrySnapshot)
          → watchers w ≡ k
          → watchers (tokio.watch_send next w) ≡ k
      watchers_kept zero w next e = ap watchers (watch_send-unwatched next w e) ∙ e
      watchers_kept (suc k) w next e = (watch_send-watched next w (omega (arith, e))).1 ∙ e

  served_while :
      (n watching : ℕ) (cmds : List RegistryCommand) (state : RegistrySnapshot) (s : System tokio)
      → 1 ≤ n
      → IsWaiting n watching state s
      → IsWaiting n watching (replay cmds state) (served cmds s)
        × (watching ≡ 0 → (served cmds s).watch ≡ s.watch)
        × (watching ≢ 0
            → current s.watch ≡ state
            → current (served cmds s).watch ≡ replay cmds state)
  unfolding served replay
  served_while n watching [] state s room v = (v, (λ alone. refl), (λ seen e. e))
  served_while n watching (cmd ∷ cmds) state s room v =
      let (w, same, shown) = served_one n watching state s cmd room v in
      let (end, later_same, later_shown) =
        served_while n watching cmds (handle_command cmd state)
          (command_round tokio (handle_send tokio cmd s).0) room w in
      (end, (λ alone. later_same alone ∙ same alone), (λ seen e. later_shown seen (shown seen)))

  with_capacity-IsWaiting :
      (n : ℕ)
      → n ≢ 0
      → IsWaiting n 0 empty_snapshot (with_capacity tokio n)
        × (current (with_capacity tokio n).watch ≡ empty_snapshot)
  unfolding with_capacity
  with_capacity-IsWaiting n some_room =
      let (nothing, size, open_end) = channel-new n some_room in
      let (value, one) = watch_channel-new empty_snapshot in
      let (kept, fewer) = drop_watcher-kept (watch_channel empty_snapshot) (omega (arith, one)) in
      (
        record {
          task = refl;
          empty = nothing;
          open_end = open_end;
          size = size;
          watched = omega (arith, fewer, one);
        },
        kept ∙ value,
      )

  snapshot-IsWaiting :
      (n watching : ℕ) (state : RegistrySnapshot) (s : System tokio)
      → IsWaiting n watching state s
      → IsWaiting n (suc watching) state (snapshot tokio s)
        × (current (snapshot tokio s).watch ≡ current s.watch)
  unfolding snapshot
  snapshot-IsWaiting n watching state s v =
      let (same, more) = subscribe-kept s.watch in
      (
        record {
          task = v.task;
          empty = v.empty;
          open_end = v.open_end;
          size = v.size;
          watched = more ∙ ap (λ k. suc k) v.watched;
        },
        same,
      )

  -- Commands are handled one by one, by a new registry with room for one at least. Who subscribes
  -- before them sees their outcome after them; if nobody does, the task has the outcome all the same,
  -- but who subscribes then is shown the snapshot without any device.
  pub current-served :
      (n : ℕ) (cmds : List RegistryCommand)
      → 1 ≤ n
      → (current (served cmds (snapshot tokio (with_capacity tokio n))).watch
          ≡ replay cmds empty_snapshot)
        × ((served cmds (with_capacity tokio n)).task ≡ some (replay cmds empty_snapshot))
        × (current (snapshot tokio (served cmds (with_capacity tokio n))).watch ≡ empty_snapshot)
  current-served n cmds room =
      let (start, value) = with_capacity-IsWaiting n (omega (arith, room)) in
      let (watched, same) = snapshot-IsWaiting n 0 empty_snapshot (with_capacity tokio n) start in
      let (_, _, shown) =
        served_while n 1 cmds empty_snapshot (snapshot tokio (with_capacity tokio n)) room
          watched in
      let (end, unchanged, _) =
        served_while n 0 cmds empty_snapshot (with_capacity tokio n) room start in
      let (_, late) = snapshot-IsWaiting n 0 _ (served cmds (with_capacity tokio n)) end in
      (shown (omega arith) (same ∙ value), end.task, late ∙ ap current (unchanged refl) ∙ value)
