-- ===== src/Collection/Store.antt =====
-- packages/collection/src/index.ts: the class `Collection`, its constructor and its keyed methods.
-- The argument `now` is `Date.now()`; `roll`, below 1000, is `Math.random()` in thousandths. A time is
-- a whole number of milliseconds. A time to live or a size that the code's checks refuse is 0 here:
-- the model has no other number that they refuse. `purge` and the cap take their turns on fuel.
pub mod Purge
pub mod Sweeps
pub mod Model
pub mod Writes
pub mod Cap
pub mod Reads
pub mod Options
use lunibee.Base.{
  ℕ, zero, suc, ◌+◌, ◌-◌, ◌*◌, ◌/◌, max, Bool, true, false, not, ◌&&◌, ◌||◌, Option, none, some,
  List, [], ◌∷◌, ◌++◌, ◌==◌, ltb, leb, if◌then◌else◌, length, is_some,
}
use lunibee.Collection.Maps.{find, put, drop, has_key}
use lunibee.Collection.Heap.{Filing, heap_pop, no_filing}
use lunibee.Collection.Policy.{
  EvictionReason, expired, evicted, Entry, Policy, promote, forget, next_deadline, rearm,
  track_timed, track_untimed, notify, write_entry, pop_top,
}

-- What a policy and the map under it hold.
pub record Kept (V : Type 0) : Type 0 where
  pub items : List (ℕ × V)
  pub policy : Policy V

pub record Collection (V : Type 0) : Type 0 where
  pub items : List (ℕ × V)
  pub policy : Option (Policy V)
  pub hits : ℕ
  pub misses : ℕ

pub record CollectionOptions : Type 0 where
  pub ttl : Option ℕ
  pub jitter : Option ℕ
  pub max_size : Option ℕ
  pub slide : Option Bool
  pub on_evict : Bool

abbrev pub no_options : CollectionOptions
no_options = record { ttl = none; jitter = none; max_size = none; slide = none; on_evict = false }

abbrev pub or_else {ℓ} : {A : Type ℓ} → Option A → A → A
or_else none a = a
or_else (some b) a = b

abbrev pub first_of {ℓ} : {A : Type ℓ} → Option A → Option A → Option A
first_of none other = other
first_of (some a) other = some a

-- `assertTTL`, and the check of `maxSize`
abbrev pub is_refused : Option ℕ → Bool
is_refused none = false
is_refused (some n) = n == 0

abbrev pub is_above_one : Option ℕ → Bool
is_above_one none = false
is_above_one (some jitter) = ltb 1000 jitter

abbrev pub top_of : List Filing → Filing
top_of [] = no_filing
top_of (x ∷ _) = x

abbrev pub is_passed : Option ℕ → ℕ → Bool
is_passed none now = false
is_passed (some deadline) now = leb deadline now

-- `policy.oldest`, by its key; the code asserts that there is one.
abbrev pub oldest_of : List ℕ → ℕ
oldest_of [] = 0
oldest_of (x ∷ xs) = x

abbrev pub without_oldest : List ℕ → List ℕ
without_oldest [] = []
without_oldest (x ∷ xs) = xs

module _ {V : Type 0} where
  unfoldable pub new_policy : CollectionOptions → Policy V
  new_policy options = record {
    entries = [];
    recency = [];
    lru_size = 0;
    heap = [];
    timer = none;
    armed_for = none;
    ttl = options.ttl;
    jitter = or_else options.jitter 0;
    max_size = options.max_size;
    slide = or_else options.slide true;
    on_evict = options.on_evict;
    notified = [];
    expired_count = 0;
    evicted_count = 0;
    next_id = 0;
  }

  -- `#remove`
  unfoldable pub remove : Kept V → ℕ → Kept V
  remove k key = record { items = drop key k.items; policy = forget k.policy key }

  abbrev pub count_expired : Policy V → ℕ → Policy V
  count_expired p n = record p { expired_count = p.expired_count + n }

  -- `#expire`
  unfoldable pub expire : Kept V → ℕ → Kept V
  unfolding remove
  expire k key =
      let value = find key k.items in
      let removed = remove k key in
      record removed { policy = notify (count_expired removed.policy 1) key value expired }

  abbrev pub is_due : Option (Entry V) → ℕ → Bool
  is_due none now = false
  is_due (some e) now = not (e.window == 0) && leb e.deadline now

  -- `#expireIfDue`
  unfoldable pub expire_if_due : Kept V → ℕ → ℕ → Kept V × Bool
  unfolding expire
  expire_if_due k now key =
      if is_due (find key k.policy.entries) now then (expire k key, true) else (k, false)

  -- The loop of `purge`: the entries that it drops, the first one first.
  unfoldable pub purge_loop : ℕ → Kept V → ℕ → Kept V × List (ℕ × Option V)
  unfolding remove
  purge_loop zero k now = (k, [])
  purge_loop (suc fuel) k now =
      let (p, deadline) = next_deadline k.policy in
      let key = (top_of p.heap).key in
      let removed = remove (record { items = k.items; policy = pop_top p }) key in
      let (last, dropped) = purge_loop fuel removed now in
      if is_passed deadline now
      then (last, (key, find key k.items) ∷ dropped)
      else (record { items = k.items; policy = p }, [])

  abbrev pub notify_all : Policy V → List (ℕ × Option V) → Policy V
  notify_all p [] = p
  notify_all p ((key, value) ∷ dropped) = notify_all (notify p key value expired) dropped

  -- `purge` with a policy.
  unfoldable pub purge_kept : Kept V → ℕ → Kept V × ℕ
  unfolding purge_loop
  purge_kept k now =
      let (last, dropped) = purge_loop (length k.policy.heap + 1) k now in
      let removed = length dropped in
      let armed = rearm (count_expired last.policy removed) now in
      if leb (length k.policy.heap) 0
      then (k, 0)
      else (record { items = last.items; policy = notify_all armed dropped }, removed)

  -- One turn of the loop of `#enforceCap`, for the oldest key.
  abbrev pub evict : Kept V → ℕ → Kept V
  evict k key =
      let p = record k.policy {
        recency = without_oldest k.policy.recency;
        lru_size = k.policy.lru_size - 1;
        entries = drop key k.policy.entries;
        evicted_count = k.policy.evicted_count + 1;
      } in
      record { items = drop key k.items; policy = notify p key (find key k.items) evicted }

  -- The loop of `#enforceCap`. The list is not empty while its count is above the cap.
  unfoldable pub evict_past : ℕ → ℕ → Kept V → Kept V
  evict_past zero cap k = k
  evict_past (suc fuel) cap k =
      let later = evict_past fuel cap (evict k (oldest_of k.policy.recency)) in
      if ltb cap k.policy.lru_size then later else k

  -- `#enforceCap` with a cap.
  unfoldable pub enforce_cap : Kept V → ℕ → ℕ → Kept V
  unfolding evict_past purge_kept
  enforce_cap k cap now =
      let lapsed = not (leb (length k.policy.heap) 0) && leb ((top_of k.policy.heap).filed) now in
      let purged = if ltb cap k.policy.lru_size && lapsed then (purge_kept k now).0 else k in
      evict_past purged.policy.lru_size cap purged
