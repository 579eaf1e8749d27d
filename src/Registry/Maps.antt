-- ===== src/Registry/Maps.antt =====
-- The maps and vectors of crates/easy-usb-core/src/engine/registry.rs, and the two blocks that take a
-- bus out of a session's list and put it in.
use Prim.Native.String.{String}
use text.Mathlib.Text.{◌==◌ as str_eq}
use easy_usb.Base.{Bool, false, not, ◌||◌, List, [], ◌∷◌, ◌++◌, Option, none, some, if◌then◌else◌}
use easy_usb.Registry.{SessionId, BusId, DeviceState, idle, bound, forwarded, disconnected}

-- `HashMap::insert` and `HashMap::remove`.
abbrev pub insert : {V : Type 0} → String → V → (String → Option V) → String → Option V
insert k v m = λ j. if str_eq k j then some v else m j

abbrev pub remove : {V : Type 0} → String → (String → Option V) → String → Option V
remove k m = λ j. if str_eq k j then none else m j

-- `Vec::contains`, and `retain(|b| *b != busid)`.
unfoldable pub contains : List BusId → BusId → Bool
contains [] b = false
contains (x ∷ xs) b = str_eq x b || contains xs b

unfoldable pub retain_others : BusId → List BusId → List BusId
retain_others busid [] = []
retain_others busid (x ∷ xs) =
    if str_eq x busid then retain_others busid xs else x ∷ retain_others busid xs

abbrev pub Forwardings : Type 0
Forwardings = SessionId → Option (List BusId)

-- `if buses.is_empty() { remove(sid) }`, the vector being changed in place.
unfoldable pub keep_list : SessionId → List BusId → Forwardings → Forwardings
keep_list sid [] fwd = remove sid fwd
keep_list sid (b ∷ bs) fwd = insert sid (b ∷ bs) fwd

unfoldable pub drop_bus : SessionId → BusId → Forwardings → Forwardings
drop_bus sid busid fwd = elim (fwd sid) [
  | none ↦ fwd
  | some buses ↦ keep_list sid (retain_others busid buses) fwd
]

-- `if let Forwarded(sid) = old_state && let Some(buses) = forwardings.get_mut(sid) { … }`.
unfoldable pub release : DeviceState → BusId → Forwardings → Forwardings
release (forwarded sid) busid fwd = drop_bus sid busid fwd
release idle busid fwd = fwd
release bound busid fwd = fwd
release disconnected busid fwd = fwd

abbrev pub or_default : Option (List BusId) → List BusId
or_default none = []
or_default (some buses) = buses

unfoldable pub push_new : List BusId → BusId → List BusId
push_new buses busid = if not (contains buses busid) then buses ++ (busid ∷ []) else buses

-- `if let Forwarded(sid) = new_state { … entry(sid).or_default() … push … }`.
unfoldable pub attach : DeviceState → BusId → Forwardings → Forwardings
unfolding push_new
attach (forwarded sid) busid fwd = insert sid (push_new (or_default (fwd sid)) busid) fwd
attach idle busid fwd = fwd
attach bound busid fwd = fwd
attach disconnected busid fwd = fwd
