-- ===== src/Collection/Keyed.antt =====
-- packages/collection/src/index.ts: the methods of `Collection` that take a key, and `clear`, `purge`
-- and the counters. `set` gives `none` where it throws. The factory of `ensure` does not throw and
-- leaves the collection alone.
pub mod Meaning
pub mod Reading
pub mod Writing
pub mod Setting
pub mod Timer
pub mod Settings
pub mod Runs
use lunibee.Base.{
  ℕ, zero, suc, ◌+◌, ◌-◌, ◌*◌, ◌/◌, max, Bool, true, false, not, ◌&&◌, ◌||◌, Option, none, some,
  List, [], ◌∷◌, ◌++◌, ◌==◌, ltb, leb, if◌then◌else◌, length, is_some,
}
use lunibee.Collection.Maps.{find, put, drop, has_key}
use lunibee.Collection.Policy.{
  Entry, Policy, promote, forget, track_timed, track_untimed, write_entry,
}
use lunibee.Collection.Store.{
  Kept, Collection, CollectionOptions, no_options, first_of, is_refused, is_above_one, new_policy,
  expire_if_due, expire, is_due, purge_kept, enforce_cap,
}

-- Whether any option is given.
abbrev pub has_options : CollectionOptions → Bool
has_options o =
    is_some o.ttl || is_some o.jitter || is_some o.max_size || is_some o.slide || o.on_evict

module _ {V : Type 0} where
  abbrev pub with_kept : Collection V → Kept V → Collection V
  with_kept c k = record c { items = k.items; policy = some k.policy }

  abbrev pub kept_of : Collection V → Policy V → Kept V
  kept_of c p = record { items = c.items; policy = p }

  -- The window after jitter.
  abbrev pub jittered : Policy V → ℕ → Option ℕ → Option ℕ
  jittered p roll none = none
  jittered p roll (some window) =
      if ltb 0 p.jitter
      then some (max 1 (window - window * p.jitter * roll / 1_000_000))
      else some window

  -- `#track`
  unfoldable pub track : Policy V → ℕ → ℕ → V → Option ℕ → Policy V
  track p now key value none = track_untimed p key value (find key p.entries)
  track p now key value (some window) = track_timed p now key value window (find key p.entries)

  -- Whether `set` takes its path for the common rewrite.
  abbrev pub is_rewrite : Option (Entry V) → Option ℕ → ℕ → Bool
  is_rewrite none window now = false
  is_rewrite (some e) none now = false
  is_rewrite (some e) (some window) now = not (e.window == 0) && leb e.filed (now + window)

  -- The common rewrite of a timed entry.
  unfoldable pub rewrite : Policy V → ℕ → V → Option (Entry V) → Option ℕ → Policy V
  rewrite p now value (some e) (some window) =
      let e' = record e { value = value; deadline = now + window; window = window } in
      let q = write_entry p e' in if e.in_lru then promote q e' else q
  rewrite p now value _ _ = p

  abbrev pub is_over : Policy V → Bool
  is_over p = elim p.max_size [ none ↦ false | some cap ↦ ltb cap p.lru_size ]

  abbrev pub cap_of : Policy V → ℕ
  cap_of p = elim p.max_size [ none ↦ 0 | some cap ↦ cap ]

  -- `set` with a policy, once the window is known.
  unfoldable pub set_kept : Kept V → ℕ → ℕ → V → Option ℕ → Kept V
  unfolding track rewrite
  set_kept k now key value window =
      let existing = find key k.policy.entries in
      let items = put key value k.items in
      let tracked : Kept V = record {
        items = items;
        policy = track k.policy now key value window;
      } in
      if is_rewrite existing window now
      then record { items = items; policy = rewrite k.policy now value existing window }
      else (if is_over tracked.policy
          then enforce_cap tracked (cap_of tracked.policy) now
          else tracked)

  -- `set` past its check of `ttl`.
  unfoldable pub set_checked : Collection V → ℕ → ℕ → ℕ → V → Option ℕ → Collection V
  unfolding set_kept
  set_checked c now roll key value ttl = elim c.policy [
    | none ↦ elim ttl [
      | none ↦ record c { items = put key value c.items }
      | some window ↦
          with_kept c (set_kept (kept_of c (new_policy no_options)) now key value (some window))
    ]
    | some p ↦
        with_kept c (set_kept (kept_of c p) now key value (jittered p roll (first_of ttl p.ttl)))
  ]

  -- `set`
  unfoldable pub set : Collection V → ℕ → ℕ → ℕ → V → Option ℕ → Option (Collection V)
  set c now roll key value ttl =
      if is_refused ttl then none else some (set_checked c now roll key value ttl)

  abbrev pub forget_in : Option (Policy V) → ℕ → Option (Policy V)
  forget_in none key = none
  forget_in (some p) key = some (forget p key)

  -- `setWithoutTTL`
  unfoldable pub set_without_ttl : Collection V → ℕ → V → Collection V
  set_without_ttl c key value = record c {
    items = put key value c.items;
    policy = forget_in c.policy key;
  }

  -- `get` without an entry.
  abbrev pub get_plain : Collection V → ℕ → Collection V × Option V
  get_plain c key =
      let value = find key c.items in
      if is_some value
      then (record c { hits = c.hits + 1 }, value)
      else (record c { misses = c.misses + 1 }, none)

  -- A read that keeps its entry: the window starts again, and the entry is the newest.
  unfoldable pub touch : Policy V → ℕ → Entry V → Policy V
  touch p now e =
      let restarts = not (e.window == 0) && p.slide in
      let e' = record e { deadline = if restarts then now + e.window else e.deadline } in
      let q = write_entry p e' in if e.in_lru then promote q e' else q

  unfoldable pub get_entry : Collection V → Policy V → ℕ → Entry V → Collection V × Option V
  unfolding touch
  get_entry c p now e =
      let dropped = with_kept c (expire (kept_of c p) e.key) in
      if is_due (some e) now
      then (record dropped { misses = c.misses + 1 }, none)
      else (record c { hits = c.hits + 1; policy = some (touch p now e) }, some e.value)

  -- `get`
  unfoldable pub get : Collection V → ℕ → ℕ → Collection V × Option V
  unfolding get_entry
  get c now key = elim c.policy [
    | none ↦ get_plain c key
    | some p ↦ elim (find key p.entries) [ none ↦ get_plain c key | some e ↦ get_entry c p now e ]
  ]

  -- `ensure`, for a `ttl` that passes the check of `set`.
  unfoldable pub ensure : Collection V → ℕ → ℕ → ℕ → (ℕ → V) → Option ℕ → Collection V × V
  ensure c now roll key factory ttl =
      let (read, existing) = get c now key in
      elim existing [
        | some value ↦ (read, value)
        | none ↦ (set_checked read now roll key (factory key) ttl, factory key)
      ]

  -- `#expireIfDue` of a collection.
  unfoldable pub check_due : Collection V → ℕ → ℕ → Collection V × Bool
  check_due c now key = elim c.policy [
    | none ↦ (c, false)
    | some p ↦ let (k, due) = expire_if_due (kept_of c p) now key in (with_kept c k, due)
  ]

  unfoldable pub peek : Collection V → ℕ → ℕ → Collection V × Option V
  peek c now key =
      let (d, due) = check_due c now key in
      if not due && has_key key d.items
      then (record d { hits = d.hits + 1 }, find key d.items)
      else (record d { misses = d.misses + 1 }, none)

  unfoldable pub has : Collection V → ℕ → ℕ → Collection V × Bool
  has c now key = let (d, due) = check_due c now key in (d, not due && has_key key d.items)

  unfoldable pub delete : Collection V → ℕ → ℕ → Collection V × Bool
  delete c now key =
      let (d, due) = check_due c now key in
      let removed = record d { items = drop key d.items; policy = forget_in d.policy key } in
      if due then (d, false) else (removed, has_key key d.items)

  unfoldable pub clear : Collection V → Collection V
  clear c = record c {
    items = [];
    policy = elim c.policy [
      | none ↦ none
      | some p ↦ some (record p {
        entries = [];
        recency = [];
        lru_size = 0;
        heap = [];
        timer = none;
        armed_for = none;
      })
    ];
  }

  unfoldable pub ttl_remaining : Collection V → ℕ → ℕ → Collection V × Option ℕ
  ttl_remaining c now key =
      let (d, due) = check_due c now key in
      let remaining : Option ℕ = elim d.policy [
        | none ↦ none
        | some p ↦ elim (find key p.entries) [
          | none ↦ none
          | some e ↦ if e.window == 0 then none else some (e.deadline - now)
        ]
      ] in
      (d, if due then none else remaining)

  unfoldable pub purge : Collection V → ℕ → Collection V × ℕ
  purge c now = elim c.policy [
    | none ↦ (c, 0)
    | some p ↦ let (k, removed) = purge_kept (kept_of c p) now in (with_kept c k, removed)
  ]

  -- The callback of the timer of `#rearm`.
  unfoldable pub ring : Collection V → ℕ → Collection V
  unfolding purge
  ring c now = elim c.policy [
    | none ↦ c
    | some p ↦
        (purge (record c { policy = some (record p { timer = none; armed_for = none }) }) now).0
  ]

  abbrev set_all : Collection V → ℕ → List (ℕ × V × ℕ) → Collection V
  set_all c now [] = c
  set_all c now ((key, value, roll) ∷ entries) =
      set_all (set_checked c now roll key value none) now entries

  -- The constructor, with a roll for each entry; `none` stands for its RangeError.
  unfoldable pub new_collection : List (ℕ × V × ℕ) → CollectionOptions → ℕ → Option (Collection V)
  unfolding set_checked
  new_collection entries o now =
      let empty : Collection V = record {
        items = [];
        policy = if has_options o then some (new_policy o) else none;
        hits = 0;
        misses = 0;
      } in
      if is_refused o.ttl || is_above_one o.jitter || is_refused o.max_size
      then none
      else some (set_all empty now entries)
