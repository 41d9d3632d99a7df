-- ===== src/Collection/Keyed/Setting.antt =====
-- `set`, `setWithoutTTL`, `clear`, `purge` and the timer of packages/collection/src/index.ts, as
-- updates of the map with lifetimes that a collection means.
use lunibee.Base.{
  ℕ, ◌+◌, ◌≡◌, refl, ap, ◌∙◌, sym, Option, none, some, List, [], ◌==◌, Bool, false, is_some,
  if◌then◌else◌, by_if, inr, arith, ◌⊎◌,
}
use lunibee.Collection.Maps.{find, put}
use lunibee.Collection.Maps.Laws.{IsMap, find-put, put-IsMap}
use lunibee.Collection.Heap.Count.{count-nil}
use lunibee.Collection.Policy.{Policy, forget}
use lunibee.Collection.Filed.Calls.{forget-Sound}
use lunibee.Collection.Filed.Tracked.{forget-Says}
use lunibee.Collection.Store.{
  Collection, CollectionOptions, new_policy, no_options, is_refused, first_of, purge_kept,
}
use lunibee.Collection.Keyed.{kept_of, set_checked, set_without_ttl, jittered, clear, purge, ring}
use lunibee.Collection.Store.Purge.{IsKept}
use lunibee.Collection.Store.Sweeps.{IsSoundAt, purge_kept-Purged, purge_kept-IsSoundAt}
use lunibee.Collection.Store.Model.{Binding, bind, model, model_same, alive, Purged-model}
use lunibee.Collection.Store.Writes.{put-Binds, lifetime_from}
use lunibee.Collection.Store.Reads.{set_kept_lem}
use lunibee.Collection.Keyed.Writing.{none_of}
use lunibee.Collection.Keyed.Meaning.{IsSound, meaning, Rebinds, alive_plain}

-- The window that `set` gives.
abbrev pub window_by : {V : Type 0} → Option (Policy V) → ℕ → Option ℕ → Option ℕ
window_by none roll ttl = ttl
window_by (some p) roll ttl = jittered p roll (first_of ttl p.ttl)

abbrev pub has_cap_by : {V : Type 0} → Option (Policy V) → Bool
has_cap_by none = false
has_cap_by (some p) = is_some p.max_size

-- From `c` to `d` the key comes to be bound to `b`; only a cap takes keys away.
abbrev pub Sets : {V : Type 0} → Collection V → ℕ → ℕ → Option (Binding V) → Collection V → Type 0
Sets c now key b d =
    IsSound d now
    × ((j : ℕ) → (meaning d j ≡ none) ⊎ (meaning d j ≡ (if j == key then b else meaning c j)))
    × (has_cap_by c.policy ≡ false → (j : ℕ) → meaning d j ≡ (if j == key then b else meaning c j))

-- The policy that `clear` leaves.
abbrev pub bare : {V : Type 0} → Policy V → Policy V
bare p = record p {
  entries = [];
  recency = [];
  lru_size = 0;
  heap = [];
  timer = none;
  armed_for = none;
}

-- A policy without entries is sound.
pub bare-IsSoundAt :
    {V : Type 0} (items : List (ℕ × V)) (p : Policy V) (now : ℕ)
    → IsMap items
    → IsSoundAt (record { items = items; policy = bare p }) now
bare-IsSoundAt items p now maps = (
  record {
    filed = record {
      maps = tt;
      keyed = λ k e h. absurd (ground (arith, h));
      ordered = λ c p q. absurd (omega arith);
      covered = λ k e h t. absurd (ground (arith, h));
      agrees = λ f e c h i. absurd (ground (arith, h));
      single = λ f. ground (arith, count-nil f);
      old_record = λ f c. absurd (ground (arith, count-nil f));
      old_entry = λ k e h. absurd (ground (arith, h));
      early = λ k e h t. absurd (ground (arith, h));
    };
    maps = maps;
    copied = λ key v w d h. absurd (ground (arith, h));
  },
  record { alarm = refl; covers = λ k e h t. absurd (ground (arith, h)) },
  λ key. tt,
)

module _ {V : Type 0} (items : List (ℕ × V)) (o : CollectionOptions) (now : ℕ) where
  -- A new policy says nothing.
  pub new_policy-IsSoundAt :
      IsMap items → IsSoundAt (record { items = items; policy = new_policy o }) now
  unfolding new_policy
  new_policy-IsSoundAt maps = bare-IsSoundAt items (new_policy o) now maps

  new_policy-model :
      (j : ℕ) → model (record { items = items; policy = new_policy o }) j ≡ bind (find j items) none
  unfolding new_policy model
  new_policy-model j = refl

-- The policy that the first `set` with a window makes has no cap.
uncapped : {V : Type 0} (items : List (ℕ × V)) → (new_policy {V = V} no_options).max_size ≡ none
unfolding new_policy
uncapped items = refl

set_plain-Sets :
    {V : Type 0} (c : Collection V) (now key : ℕ) (value : V)
    → IsMap c.items
    → Sets
        (record c { policy = none })
        now
        key
        (some (value, none))
        (record c { items = put key value c.items; policy = none })
set_plain-Sets c now key value maps =
    let binds = λ (j : ℕ).
      by_if
        (λ i. bind i none ≡ (if j == key then some (value, none) else bind (find j c.items) none))
        (j == key) (λ here. rw here refl) (λ other. rw other refl) in
    let exact = λ (j : ℕ). ap (λ i. bind i none) (find-put key j value c.items) ∙ binds j in
    (put-IsMap key value c.items maps, λ j. inr (exact j), λ _ j. exact j)

set_by :
    {V : Type 0} (c : Collection V) (policy : Option (Policy V)) (now roll key : ℕ) (value : V)
    (ttl : Option ℕ)
    → let d = record c { policy = policy } in
      let window = window_by policy roll ttl in
      IsSound d now
      → is_refused window ≡ false
      → Sets d now key
          (some (value, lifetime_from now window))
          (set_checked d now roll key value ttl)
unfolding set_checked
set_by c none now roll key value none s accepted = set_plain-Sets c now key value s
set_by c none now roll key value (some w) s accepted =
    let k = kept_of c (new_policy no_options) in
    let (sound, part, exact) =
      set_kept_lem k now (new_policy-IsSoundAt c.items no_options now s) key value (some w)
        accepted in
    let bound : (j : ℕ)
        → meaning (set_checked (record c { policy = none }) now roll key value (some w)) j
          ≡ (if j == key then some (value, some (w, now + w)) else bind (find j c.items) none) =
      λ j.
        exact (uncapped c.items) j
        ∙ ap (λ b. if j == key then some (value, some (w, now + w)) else b)
            (new_policy-model c.items no_options now j) in
    (sound, λ j. inr (bound j), λ _ j. bound j)
set_by c (some p) now roll key value ttl s accepted =
    let window = jittered p roll (first_of ttl p.ttl) in
    let (sound, part, exact) = set_kept_lem (kept_of c p) now s key value window accepted in
    (sound, part, λ no_cap. exact (sym (none_of no_cap)))

pub set_checked-Sets :
    {V : Type 0} (c : Collection V) (now roll key : ℕ) (value : V) (ttl : Option ℕ)
    → IsSound c now
    → is_refused (window_by c.policy roll ttl) ≡ false
    → Sets c now key
        (some (value, lifetime_from now (window_by c.policy roll ttl)))
        (set_checked c now roll key value ttl)
set_checked-Sets c now roll key value ttl s accepted =
    set_by c c.policy now roll key value ttl s accepted

-- Without a cap `set` binds its key to the value, for its window from now, leaves every other key as
-- it was, and keeps the collection sound, if the window is not 0.
pub set_checked-Rebinds :
    {V : Type 0} (c : Collection V) (now roll key : ℕ) (value : V) (ttl : Option ℕ)
    → IsSound c now
    → is_refused (window_by c.policy roll ttl) ≡ false
    → has_cap_by c.policy ≡ false
    → Rebinds c now key
        (some (value, lifetime_from now (window_by c.policy roll ttl)))
        (set_checked c now roll key value ttl)
set_checked-Rebinds c now roll key value ttl s accepted uncapped =
    let (sound, part, exact) = set_checked-Sets c now roll key value ttl s accepted in
    (sound, exact uncapped)

forget_by :
    {V : Type 0} (c : Collection V) (policy : Option (Policy V)) (now key : ℕ) (value : V)
    → let d = record c { policy = policy } in
      IsSound d now → Rebinds d now key (some (value, none)) (set_without_ttl d key value)
unfolding set_without_ttl
forget_by c none now key value s =
    let (sound, part, exact) = set_plain-Sets c now key value s in (sound, exact refl)
forget_by c (some p) now key value s =
    put-Binds (kept_of c p) now s key (forget p key) (forget-Sound p now (s.0.filed, s.1) key) value
      none (λ v w d h. absurd (ground (arith, h))) tt (forget-Says p key s.0.filed)

-- `setWithoutTTL` binds its key to the value for good, whatever the options.
pub set_without_ttl-Rebinds :
    {V : Type 0} (c : Collection V) (now key : ℕ) (value : V)
    → IsSound c now
    → Rebinds c now key (some (value, none)) (set_without_ttl c key value)
set_without_ttl-Rebinds c now key value s = forget_by c c.policy now key value s

-- From `c` to `d` what has lapsed at `now` goes, and nothing else.
abbrev pub Purges : {V : Type 0} → Collection V → ℕ → Collection V → Type 0
Purges c now d = IsSound d now × ((j : ℕ) → meaning d j ≡ alive (meaning c j) now)

purge_by :
    {V : Type 0} (c : Collection V) (policy : Option (Policy V)) (now : ℕ)
    → let d = record c { policy = policy } in IsSound d now → Purges d now (purge d now).0
unfolding purge
purge_by c none now s = (s, λ j. sym (alive_plain (find j c.items) now))
purge_by c (some p) now s =
    let k = kept_of c p in
    (
      purge_kept-IsSoundAt k now s.0 s.1.alarm s.2,
      λ j. Purged-model k now s.0 j (purge_kept k now).0 (purge_kept-Purged k now s.0 s.1.alarm).0,
    )

-- `purge` unbinds the keys that have lapsed, leaves every other key as it was, and keeps a sound
-- collection sound.
pub purge-Purges :
    {V : Type 0} (c : Collection V) (now : ℕ) → IsSound c now → Purges c now (purge c now).0
purge-Purges c now s = purge_by c c.policy now s

ring_by :
    {V : Type 0} (c : Collection V) (policy : Option (Policy V)) (now : ℕ)
    → let d = record c { policy = policy } in IsSound d now → Purges d now (ring d now)
unfolding ring purge
ring_by c none now s = (s, λ j. sym (alive_plain (find j c.items) now))
ring_by c (some p) now s =
    let quiet = record p { timer = none; armed_for = none } in
    let k = kept_of c quiet in
    let w : IsKept k = record { filed = s.0.filed; maps = s.0.maps; copied = s.0.copied } in
    (
      purge_kept-IsSoundAt k now w refl s.2,
      λ j.
          Purged-model k now w j (purge_kept k now).0 (purge_kept-Purged k now w refl).0
          ∙ ap (λ b. alive b now) (model_same k (kept_of c p) j refl refl),
    )

-- When its timer fires, a collection drops what has lapsed.
pub ring-Purges :
    {V : Type 0} (c : Collection V) (now : ℕ) → IsSound c now → Purges c now (ring c now)
ring-Purges c now s = ring_by c c.policy now s

clear_by :
    {V : Type 0} (c : Collection V) (policy : Option (Policy V)) (now : ℕ)
    → let d = record c { policy = policy } in
      IsSound (clear d) now × ((j : ℕ) → meaning (clear d) j ≡ none)
unfolding clear model
clear_by c none now = (tt, λ j. refl)
clear_by c (some p) now = (bare-IsSoundAt [] p now tt, λ j. refl)

-- `clear` unbinds every key.
pub clear-IsSound :
    {V : Type 0} (c : Collection V) (now : ℕ)
    → IsSound (clear c) now × ((j : ℕ) → meaning (clear c) j ≡ none)
clear-IsSound c now = clear_by c c.policy now
