-- ===== src/PlainChannels.antt =====
-- A plain implementation of `Channels`, so that its laws can be met and runs can be made on it.
use easy_usb.Base.{
  ℕ, zero, suc, ◌-◌, ◌<◌, ◌≡◌, ◌≢◌, refl, Bool, true, false, List, [], ◌∷◌, ◌++◌, Option, none,
  some, Result, ok, err, length, arith, ltb, lt→ltb, if◌then◌else◌,
}
use easy_usb.Registry.Channels.{Channels}

pub record Lane (C : Type 0) : Type 0 where
  pub waiting : List C
  pub room : ℕ
  pub senders : Bool
  pub closed : Bool

pub record Board (V : Type 0) : Type 0 where
  pub value : V
  pub receivers : ℕ

module _ {C : Type 0} where
  abbrev pub lane_send : C → Lane C → Lane C × Result C (Unit {0})
  lane_send c m =
      if m.closed
      then (m, err c)
      else if ltb (length m.waiting) m.room
      then (record m { waiting = m.waiting ++ (c ∷ []) }, ok tt)
      else (m, err c)

  abbrev pub first_of : Lane C → List C → Lane C × Option C
  first_of m [] = (m, none)
  first_of m (c ∷ cs) = (record m { waiting = cs }, some c)

  abbrev pub lane_recv : Lane C → Lane C × Option C
  lane_recv m = first_of m m.waiting

  pub lane_send-open :
      (c : C) (m : Lane C)
      → m.closed ≡ false
      → length m.waiting < m.room
      → ((lane_send c m).1 ≡ ok tt)
        × ((lane_send c m).0.waiting ≡ m.waiting ++ (c ∷ []))
        × ((lane_send c m).0.room ≡ m.room)
        × ((lane_send c m).0.closed ≡ false)
  lane_send-open c m opened free =
      simp (opened, lt→ltb (length m.waiting) m.room free) (refl, refl, refl, refl)

  pub lane_send-closed : (c : C) (m : Lane C) → m.closed ≡ true → lane_send c m ≡ (m, err c)
  lane_send-closed c m h = simp h

  pub lane_recv-some :
      (c : C) (cs : List C) (m : Lane C)
      → m.waiting ≡ c ∷ cs
      → ((lane_recv m).1 ≡ some c)
        × ((lane_recv m).0.waiting ≡ cs)
        × ((lane_recv m).0.room ≡ m.room)
        × ((lane_recv m).0.closed ≡ m.closed)
  lane_recv-some c cs m h = by m.waiting h
    where
      by :
          (xs : List C)
          → xs ≡ c ∷ cs
          → ((first_of m xs).1 ≡ some c)
            × ((first_of m xs).0.waiting ≡ cs)
            × ((first_of m xs).0.room ≡ m.room)
            × ((first_of m xs).0.closed ≡ m.closed)
      by [] e = cc
      by (x ∷ xs) e = (cc e, cc e, refl, refl)

  pub lane_recv-none : (m : Lane C) → m.waiting ≡ [] → lane_recv m ≡ (m, none)
  lane_recv-none m h = by m.waiting h
    where
      by : (xs : List C) → xs ≡ [] → first_of m xs ≡ (m, none)
      by [] e = refl
      by (x ∷ xs) e = cc

module _ {V : Type 0} where
  abbrev pub post : V → ℕ → Board V → Board V
  post v zero w = w
  post v (suc n) w = record { value = v; receivers = suc n }

  pub post-watched :
      (v : V) (n : ℕ) (w : Board V)
      → n ≢ 0
      → ((post v n w).value ≡ v) × ((post v n w).receivers ≡ n)
  post-watched v zero w h = absurd (h refl)
  post-watched v (suc n) w h = (refl, refl)

  pub post-unwatched : (v : V) (n : ℕ) (w : Board V) → n ≡ 0 → post v n w ≡ w
  post-unwatched v zero w h = refl
  post-unwatched v (suc n) w h = absurd (omega arith)

abbrev pub plain_channels : {C V : Type 0} → Channels C V
plain_channels {C} {V} = record {
  Mpsc = Lane C;
  queue = λ m. m.waiting;
  capacity = λ m. m.room;
  has_senders = λ m. m.senders;
  is_closed = λ m. m.closed;
  channel = λ n. record { waiting = []; room = n; senders = true; closed = false };
  send = lane_send;
  recv = lane_recv;
  drop_senders = λ m. record m { senders = false };
  drop_receiver = λ m. record m { closed = true };
  Watch = Board V;
  current = λ w. w.value;
  watchers = λ w. w.receivers;
  watch_channel = λ v. record { value = v; receivers = 1 };
  watch_send = λ v w. post v w.receivers w;
  subscribe = λ w. record w { receivers = suc w.receivers };
  drop_watcher = λ w. record w { receivers = w.receivers - 1 };
  Oneshot = Bool;
  is_fired = λ o. o;
  oneshot = false;
  fire = λ o. true;
  channel-new = λ n some_room. (refl, refl, refl);
  send-open = lane_send-open;
  send-closed = lane_send-closed;
  recv-some = lane_recv-some;
  recv-none = λ m e alone. lane_recv-none m e;
  drop_senders-kept = λ m. (refl, refl, refl);
  drop_receiver-closed = λ m. refl;
  watch_channel-new = λ v. (refl, refl);
  watch_send-watched = λ v w h. post-watched v w.receivers w h;
  watch_send-unwatched = λ v w h. post-unwatched v w.receivers w h;
  subscribe-kept = λ w. (refl, refl);
  drop_watcher-kept = λ w h. (refl, omega arith);
  is_fired-oneshot = refl;
  is_fired-fire = λ o. refl;
}
