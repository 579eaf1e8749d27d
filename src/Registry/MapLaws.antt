-- ===== src/Registry/MapLaws.antt =====
-- Laws of the maps of the registry: which lists have which bus after each operation, and that every
-- list stays without repetition and is removed when it gets empty.
use text.Mathlib.Text.{◌==◌ as str_eq}
use text.Mathlib.TextEquality.{eq_iff}
use easy_usb.Base.{
  ◌≡◌, refl, Bool, true, false, not, ◌&&◌, ◌||◌, List, [], ◌∷◌, ◌++◌, Option, none, some,
  if◌then◌else◌, arith, Option-cases, Bool-cases, inl, inr, ap, sym, ◌∙◌,
}
use easy_usb.Registry.{
  SessionId, BusId, DeviceState, idle, bound, forwarded, disconnected, state_eq,
}
use easy_usb.Registry.Maps.{
  contains, retain_others, Forwardings, keep_list, drop_bus, release, attach, or_default, push_new,
}

-- Whether a session's list has a bus.
unfoldable pub listed : Forwardings → SessionId → BusId → Bool
listed fwd sid b = contains (or_default (fwd sid)) b

contains-retain_others :
    (busid b : BusId) (xs : List BusId)
    → contains (retain_others busid xs) b ≡ (contains xs b && not (str_eq busid b))
unfolding contains retain_others
contains-retain_others busid b [] = refl
contains-retain_others busid b (x ∷ xs) =
    ground (arith, eq_iff x busid, eq_iff x b, eq_iff busid b, contains-retain_others busid b xs)

contains-append_one :
    (xs : List BusId) (busid b : BusId)
    → contains (xs ++ (busid ∷ [])) b ≡ (contains xs b || str_eq busid b)
unfolding contains
contains-append_one [] busid b = ground arith
contains-append_one (x ∷ xs) busid b = ground (arith, contains-append_one xs busid b)

contains-push_new :
    (xs : List BusId) (busid b : BusId)
    → contains (push_new xs busid) b ≡ (contains xs b || str_eq busid b)
unfolding push_new
contains-push_new xs busid b = ground (arith, eq_iff busid b, contains-append_one xs busid b)

keep_list-or_default :
    (sid t : SessionId) (bs : List BusId) (fwd : Forwardings)
    → or_default (keep_list sid bs fwd t) ≡ (if str_eq sid t then bs else or_default (fwd t))
unfolding keep_list
keep_list-or_default sid t [] fwd = ground arith
keep_list-or_default sid t (b ∷ bs) fwd = ground arith

drop_bus-or_default :
    (sid t : SessionId) (busid : BusId) (fwd : Forwardings)
    → or_default (drop_bus sid busid fwd t)
      ≡ (if str_eq sid t then retain_others busid (or_default (fwd t)) else or_default (fwd t))
unfolding drop_bus
drop_bus-or_default sid t busid fwd = elim (Option-cases (fwd sid)) [
  | inl e ↦
      rw (e, drop_bus)
        (elim (Bool-cases (str_eq sid t)) [
          | inl s ↦
              let same : fwd t ≡ none = ap fwd (sym ((eq_iff sid t).0 s)) ∙ e in
              rw (s, same) (unfold retain_others in refl)
          | inr s ↦ rw s
        ])
  | inr (buses, e) ↦
      rw (e, drop_bus)
        (elim (Bool-cases (str_eq sid t)) [
          | inl s ↦
              let same : fwd t ≡ some buses = ap fwd (sym ((eq_iff sid t).0 s)) ∙ e in
              keep_list-or_default sid t (retain_others busid buses) fwd ∙ rw (s, same)
          | inr s ↦ keep_list-or_default sid t (retain_others busid buses) fwd ∙ rw s
        ])
]

-- Taking a bus out of a session's list takes out just that.
pub listed-drop_bus :
    (sid t : SessionId) (busid b : BusId) (fwd : Forwardings)
    → listed (drop_bus sid busid fwd) t b ≡ (listed fwd t b && not (str_eq sid t && str_eq busid b))
unfolding listed
listed-drop_bus sid t busid b fwd = ground (
  arith,
  drop_bus-or_default sid t busid fwd,
  contains-retain_others busid b (or_default (fwd t)),
)

-- Putting a bus into a session's list adds just that.
pub listed-attach :
    (sid t : SessionId) (busid b : BusId) (fwd : Forwardings)
    → listed (attach (forwarded sid) busid fwd) t b
      ≡ (listed fwd t b || (str_eq sid t && str_eq busid b))
unfolding listed attach
listed-attach sid t busid b fwd =
    ground (arith, eq_iff sid t, contains-push_new (or_default (fwd t)) busid b)

-- The lists of the map: none is empty, and none has a bus twice.
unfoldable pub is_nodup : List BusId → Bool
is_nodup [] = true
is_nodup (x ∷ xs) = not (contains xs x) && is_nodup xs

abbrev is_cons : List BusId → Bool
is_cons [] = false
is_cons (x ∷ xs) = true

abbrev pub is_tidy : Option (List BusId) → Bool
is_tidy none = true
is_tidy (some buses) = is_cons buses && is_nodup buses

retain_others-is_nodup :
    (busid : BusId) (xs : List BusId)
    → is_nodup xs ≡ true
    → is_nodup (retain_others busid xs) ≡ true
unfolding is_nodup retain_others
retain_others-is_nodup busid [] h = refl
retain_others-is_nodup busid (x ∷ xs) h =
    ground (arith, contains-retain_others busid x xs, retain_others-is_nodup busid xs)

append_one-is_nodup :
    (xs : List BusId) (busid : BusId)
    → is_nodup xs ≡ true
    → contains xs busid ≡ false
    → is_nodup (xs ++ (busid ∷ [])) ≡ true
unfolding is_nodup contains
append_one-is_nodup [] busid h n = refl
append_one-is_nodup (x ∷ xs) busid h n = ground (
  arith,
  eq_iff x busid,
  eq_iff busid x,
  contains-append_one xs busid x,
  append_one-is_nodup xs busid,
)

push_new-is_tidy :
    (xs : List BusId) (busid : BusId)
    → is_nodup xs ≡ true
    → is_tidy (some (push_new xs busid)) ≡ true
unfolding push_new
push_new-is_tidy [] busid h = unfold contains is_nodup in refl
push_new-is_tidy (x ∷ xs) busid h = ground (arith, append_one-is_nodup (x ∷ xs) busid)

keep_list-is_tidy :
    (sid t : SessionId) (bs : List BusId) (fwd : Forwardings)
    → is_nodup bs ≡ true
    → is_tidy (fwd t) ≡ true
    → is_tidy (keep_list sid bs fwd t) ≡ true
unfolding keep_list
keep_list-is_tidy sid t [] fwd n h = ground arith
keep_list-is_tidy sid t (b ∷ bs) fwd n h = ground arith

or_default-is_nodup : (o : Option (List BusId)) → is_tidy o ≡ true → is_nodup (or_default o) ≡ true
unfolding is_nodup
or_default-is_nodup none h = refl
or_default-is_nodup (some buses) h = unfold contains in ground arith

pub drop_bus-is_tidy :
    (sid t : SessionId) (busid : BusId) (fwd : Forwardings)
    → is_tidy (fwd t) ≡ true
    → is_tidy (fwd sid) ≡ true
    → is_tidy (drop_bus sid busid fwd t) ≡ true
unfolding drop_bus
drop_bus-is_tidy sid t busid fwd h k = elim (Option-cases (fwd sid)) [
  | inl e ↦ rw (e, drop_bus) h
  | inr (buses, e) ↦
      let nodup =
        retain_others-is_nodup busid buses (or_default-is_nodup (some buses) (rw e at k)) in
      rw (e, drop_bus) (keep_list-is_tidy sid t (retain_others busid buses) fwd nodup h)
]

pub attach-is_tidy :
    (sid t : SessionId) (busid : BusId) (fwd : Forwardings)
    → is_tidy (fwd t) ≡ true
    → is_tidy (fwd sid) ≡ true
    → is_tidy (attach (forwarded sid) busid fwd t) ≡ true
unfolding attach
attach-is_tidy sid t busid fwd h k =
    let nodup = or_default-is_nodup (fwd sid) k in
    ground (arith, push_new-is_tidy (or_default (fwd sid)) busid nodup)

-- A bus whose state is known is in no list after `release`.
pub listed-release :
    (st : DeviceState) (busid : BusId) (fwd : Forwardings)
    → ((sid : SessionId) → listed fwd sid busid ≡ state_eq st (forwarded sid))
    → (sid : SessionId) (b : BusId)
    → listed (release st busid fwd) sid b ≡ (if str_eq busid b then false else listed fwd sid b)
unfolding release
listed-release idle busid fwd h sid b = ground (arith, eq_iff busid b, h sid)
listed-release bound busid fwd h sid b = ground (arith, eq_iff busid b, h sid)
listed-release (forwarded t) busid fwd h sid b =
    ground (arith, eq_iff busid b, h sid, listed-drop_bus t sid busid b fwd)
listed-release disconnected busid fwd h sid b = ground (arith, eq_iff busid b, h sid)

pub release-is_tidy :
    (st : DeviceState) (busid : BusId) (fwd : Forwardings)
    → ((sid : SessionId) → is_tidy (fwd sid) ≡ true)
    → (sid : SessionId) → is_tidy (release st busid fwd sid) ≡ true
unfolding release
release-is_tidy idle busid fwd d sid = d sid
release-is_tidy bound busid fwd d sid = d sid
release-is_tidy (forwarded t) busid fwd d sid = drop_bus-is_tidy t sid busid fwd (d sid) (d t)
release-is_tidy disconnected busid fwd d sid = d sid

-- A bus that no list has is in the new state's list, if any, after `attach`.
pub listed-attach_state :
    (st : DeviceState) (busid : BusId) (fwd : Forwardings)
    → ((sid : SessionId) → listed fwd sid busid ≡ false)
    → (sid : SessionId) (b : BusId)
    → listed (attach st busid fwd) sid b
      ≡ (if str_eq busid b then state_eq st (forwarded sid) else listed fwd sid b)
listed-attach_state idle busid fwd h sid b = unfold attach in ground (arith, eq_iff busid b, h sid)
listed-attach_state bound busid fwd h sid b = unfold attach in ground (arith, eq_iff busid b, h sid)
listed-attach_state (forwarded t) busid fwd h sid b =
    ground (arith, eq_iff busid b, h sid, listed-attach t sid busid b fwd)
listed-attach_state disconnected busid fwd h sid b =
    unfold attach in ground (arith, eq_iff busid b, h sid)

pub attach_state-is_tidy :
    (st : DeviceState) (busid : BusId) (fwd : Forwardings)
    → ((sid : SessionId) → is_tidy (fwd sid) ≡ true)
    → (sid : SessionId) → is_tidy (attach st busid fwd sid) ≡ true
attach_state-is_tidy idle busid fwd d sid = unfold attach in d sid
attach_state-is_tidy bound busid fwd d sid = unfold attach in d sid
attach_state-is_tidy (forwarded t) busid fwd d sid = attach-is_tidy t sid busid fwd (d sid) (d t)
attach_state-is_tidy disconnected busid fwd d sid = unfold attach in d sid
