-- ===== src/Registry/Channels.antt =====
-- What crates/easy-usb-core/src/engine/registry.rs relies on of tokio's channels: a bounded `mpsc` for
-- commands, a `watch` for snapshots and a `oneshot` for the shutdown.
use easy_usb.Base.{
  ℕ, suc, ◌<◌, ◌≡◌, ◌≢◌, Bool, true, false, List, [], ◌∷◌, ◌++◌, Option, none, some, Result, ok,
  err, length,
}

-- `queue` holds what was sent and not received yet. A send that finds the queue full waits, and one
-- that finds the receiver dropped gives the command back. A value sent on a watch channel that nobody
-- watches is not stored. A `oneshot` receiver wakes when it is fired.
-- `mpsc::channel` panics for a capacity of 0, of which nothing is assumed here.
pub record Channels (C V : Type 0) : Type 1 where
  pub Mpsc : Type 0
  pub queue : Mpsc → List C
  pub capacity : Mpsc → ℕ
  pub has_senders : Mpsc → Bool
  pub is_closed : Mpsc → Bool
  pub channel : ℕ → Mpsc
  pub send : C → Mpsc → Mpsc × Result C (Unit {0})
  pub recv : Mpsc → Mpsc × Option C
  pub drop_senders : Mpsc → Mpsc
  pub drop_receiver : Mpsc → Mpsc
  pub Watch : Type 0
  pub current : Watch → V
  pub watchers : Watch → ℕ
  pub watch_channel : V → Watch
  pub watch_send : V → Watch → Watch
  pub subscribe : Watch → Watch
  pub drop_watcher : Watch → Watch
  pub Oneshot : Type 0
  pub is_fired : Oneshot → Bool
  pub oneshot : Oneshot
  pub fire : Oneshot → Oneshot
  pub channel-new :
      (n : ℕ)
      → n ≢ 0
      → (queue (channel n) ≡ []) × (capacity (channel n) ≡ n) × (is_closed (channel n) ≡ false)
  pub send-open :
      (c : C) (m : Mpsc)
      → is_closed m ≡ false
      → length (queue m) < capacity m
      → ((send c m).1 ≡ ok tt)
        × (queue (send c m).0 ≡ queue m ++ (c ∷ []))
        × (capacity (send c m).0 ≡ capacity m)
        × (is_closed (send c m).0 ≡ false)
  pub send-closed : (c : C) (m : Mpsc) → is_closed m ≡ true → send c m ≡ (m, err c)
  pub recv-some :
      (c : C) (cs : List C) (m : Mpsc)
      → queue m ≡ c ∷ cs
      → ((recv m).1 ≡ some c)
        × (queue (recv m).0 ≡ cs)
        × (capacity (recv m).0 ≡ capacity m)
        × (is_closed (recv m).0 ≡ is_closed m)
  pub recv-none : (m : Mpsc) → queue m ≡ [] → has_senders m ≡ false → recv m ≡ (m, none)
  pub drop_senders-kept :
      (m : Mpsc)
      → (queue (drop_senders m) ≡ queue m)
        × (capacity (drop_senders m) ≡ capacity m)
        × (is_closed (drop_senders m) ≡ is_closed m)
  pub drop_receiver-closed : (m : Mpsc) → is_closed (drop_receiver m) ≡ true
  pub watch_channel-new :
      (v : V) → (current (watch_channel v) ≡ v) × (watchers (watch_channel v) ≡ 1)
  pub watch_send-watched :
      (v : V) (w : Watch)
      → watchers w ≢ 0
      → (current (watch_send v w) ≡ v) × (watchers (watch_send v w) ≡ watchers w)
  pub watch_send-unwatched : (v : V) (w : Watch) → watchers w ≡ 0 → watch_send v w ≡ w
  pub subscribe-kept :
      (w : Watch)
      → (current (subscribe w) ≡ current w) × (watchers (subscribe w) ≡ suc (watchers w))
  pub drop_watcher-kept :
      (w : Watch)
      → watchers w ≢ 0
      → (current (drop_watcher w) ≡ current w) × (suc (watchers (drop_watcher w)) ≡ watchers w)
  pub is_fired-oneshot : is_fired oneshot ≡ false
  pub is_fired-fire : (o : Oneshot) → is_fired (fire o) ≡ true
