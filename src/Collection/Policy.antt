-- ===== src/Collection/Policy.antt =====
-- packages/collection/src/index.ts: `Policy` and the private methods of `Collection` that keep it.
-- `Date.now()` is the argument `now`. `recency` is the linked list of the recency order, the oldest
-- key first, and `is_newest` and `remove_key` stand for its pointer tests and writes. A record's
-- identity is its `id`. `armed_for` and a deadline of `none` are Infinity; `timer` is the time at
-- which the timer fires. `notified` holds the calls of `onEvict`, the newest first; the callback
-- does not call the collection.
pub mod Options
use lunibee.Base.{
  ℕ, zero, suc, ◌+◌, ◌-◌, ◌*◌, Bool, true, false, not, ◌&&◌, ◌||◌, Option, none, some, List, [],
  ◌∷◌, ◌++◌, ◌==◌, ltb, leb, if◌then◌else◌, length, keep, is_some,
}
use lunibee.Collection.Maps.{find, put, drop}
use lunibee.Collection.Heap.{Filing, heap_push, heap_pop}

pub data EvictionReason : Type 0 where
  expired evicted : EvictionReason

pub record Entry (V : Type 0) : Type 0 where
  pub key : ℕ
  pub value : V
  pub in_lru : Bool
  pub window : ℕ
  pub deadline : ℕ
  pub filed : ℕ
  pub id : ℕ

-- A jitter is in thousandths.
pub record Policy (V : Type 0) : Type 0 where
  pub entries : List (ℕ × Entry V)
  pub recency : List ℕ
  pub lru_size : ℕ
  pub heap : List Filing
  pub timer : Option ℕ
  pub armed_for : Option ℕ
  pub ttl : Option ℕ
  pub jitter : ℕ
  pub max_size : Option ℕ
  pub slide : Bool
  pub on_evict : Bool
  pub notified : List (ℕ × Option V × EvictionReason)
  pub expired_count : ℕ
  pub evicted_count : ℕ
  pub next_id : ℕ

-- `newest === entry`, by its key
abbrev pub is_newest : ℕ → List ℕ → Bool
is_newest key [] = false
is_newest key (x ∷ []) = x == key
is_newest key (x ∷ y ∷ xs) = is_newest key (y ∷ xs)

abbrev pub remove_key : ℕ → List ℕ → List ℕ
remove_key key [] = []
remove_key key (x ∷ xs) = let rest = remove_key key xs in if x == key then xs else x ∷ rest

-- `deadline >= armedFor`
abbrev pub no_earlier : Option ℕ → Option ℕ → Bool
no_earlier none armed = true
no_earlier (some t) none = false
no_earlier (some t) (some armed) = leb armed t

-- The loop of `#compact`.
unfoldable pub push_all : List Filing → List Filing → List Filing
push_all [] h = h
push_all (f ∷ fs) h = push_all fs (heap_push h f)

module _ {V : Type 0} where
  abbrev pub filing : Entry V → Filing
  filing e = record { key = e.key; id = e.id; filed = e.filed }

  -- A write to the fields of the record that its key's map value is.
  abbrev pub write_entry : Policy V → Entry V → Policy V
  write_entry p e = record p { entries = put e.key e p.entries }

  -- `#unlink`
  unfoldable pub unlink : Policy V → Entry V → Policy V
  unlink p e = record p {
    entries = put e.key (record e { in_lru = false }) p.entries;
    recency = remove_key e.key p.recency;
    lru_size = p.lru_size - 1;
  }

  -- `#promote`
  unfoldable pub promote : Policy V → Entry V → Policy V
  promote p e =
      if is_newest e.key p.recency
      then p
      else (if e.in_lru
          then record p { recency = remove_key e.key p.recency ++ e.key ∷ [] }
          else record p {
            entries = put e.key (record e { in_lru = true }) p.entries;
            recency = p.recency ++ e.key ∷ [];
            lru_size = p.lru_size + 1;
          })

  unfoldable pub forget_found : Policy V → ℕ → Option (Entry V) → Policy V
  forget_found p key none = p
  forget_found p key (some e) =
      let q = if e.in_lru then unlink p e else p in record q { entries = drop key q.entries }

  -- `#forget`
  unfoldable pub forget : Policy V → ℕ → Policy V
  forget p key = forget_found p key (find key p.entries)

  -- `#create`, with the identity of the record
  abbrev pub create : ℕ → V → ℕ → ℕ → ℕ → Entry V
  create key value window deadline id = record {
    key = key;
    value = value;
    in_lru = false;
    window = window;
    deadline = deadline;
    filed = deadline;
    id = id;
  }

  -- `policy.entries.set` with a record that is new
  abbrev pub add_entry : Policy V → Entry V → Policy V
  add_entry p e = record p { entries = put e.key e p.entries; next_id = p.next_id + 1 }

  -- The record of `#replace`.
  abbrev pub replacement : Policy V → Entry V → ℕ → ℕ → Entry V
  replacement p old window deadline = record old {
    window = window;
    deadline = deadline;
    filed = deadline;
    id = p.next_id;
  }

  abbrev pub is_live : List (ℕ × Entry V) → Filing → Bool
  is_live entries f = elim (find f.key entries) [ none ↦ false | some e ↦ e.id == f.id ]

  -- `#nextDeadline` files the record at the top again.
  abbrev pub refile : Policy V → Entry V → Policy V
  refile p e =
      let e' = record e { filed = e.deadline } in
      record p { entries = put e.key e' p.entries; heap = heap_push (heap_pop p.heap) (filing e') }

  abbrev pub pop_top : Policy V → Policy V
  pop_top p = record p { heap = heap_pop p.heap }

  -- A pass of the loop of `#nextDeadline` over the top record; `popped` and `again` are the passes
  -- after it, without the top and with the top filed again.
  unfoldable pub pass_top :
      Policy V
      → Policy V × Option ℕ
      → (Entry V → Policy V × Option ℕ)
      → Filing
      → Option (Entry V)
      → Policy V × Option ℕ
  pass_top p popped again top none = popped
  pass_top p popped again top (some e) =
      let refiled = again e in
      if e.id == top.id
      then (if e.deadline == e.filed then (p, some e.filed) else refiled)
      else popped

  unfoldable pub pass :
      Policy V
      → Policy V × Option ℕ
      → (Entry V → Policy V × Option ℕ)
      → List Filing
      → Policy V × Option ℕ
  pass p popped again [] = (p, none)
  pass p popped again (top ∷ _) = pass_top p popped again top (find top.key p.entries)

  -- The loop of `#nextDeadline`.
  unfoldable pub settle : ℕ → Policy V → Policy V × Option ℕ
  settle zero p = (p, none)
  settle (suc fuel) p =
      let popped = settle fuel (pop_top p) in pass p popped (λ e. settle fuel (refile p e)) p.heap

  unfoldable pub next_deadline : Policy V → Policy V × Option ℕ
  next_deadline p = settle (2 * length p.heap + 1) p

  -- `#compact`
  unfoldable pub compact : Policy V → Policy V
  compact p = record p { heap = push_all (keep (is_live p.entries) p.heap) [] }

  -- The timer of `#rearm`: it fires after `max(0, deadline - now)`.
  abbrev pub arm : Policy V → ℕ → Option ℕ → Policy V
  arm p now none = record p { timer = none; armed_for = none }
  arm p now (some t) = record p { timer = some (now + (t - now)); armed_for = some t }

  -- `#rearm`
  unfoldable pub rearm : Policy V → ℕ → Policy V
  rearm p now =
      let (q, deadline) = next_deadline p in
      if is_some q.timer && no_earlier deadline q.armed_for then q else arm q now deadline

  abbrev pub has_cap : Policy V → Bool
  has_cap p = is_some p.max_size

  abbrev pub push_entry : Policy V → Entry V → Policy V
  push_entry p e = record p { heap = heap_push p.heap (filing e) }

  abbrev pub compact_if_large : Policy V → Policy V
  compact_if_large p = if ltb (2 * length p.entries + 8) (length p.heap) then compact p else p

  abbrev pub rearm_if_earlier : Policy V → ℕ → ℕ → Policy V
  rearm_if_earlier p now deadline =
      if not (is_some p.timer) || not (no_earlier (some deadline) p.armed_for)
      then rearm p now
      else p

  -- The end of `#track`, for a record that the heap does not hold.
  unfoldable pub file : Policy V → ℕ → Entry V → Policy V
  file p now e =
      let q = if has_cap p then promote p e else p in
      rearm_if_earlier (compact_if_large (push_entry q e)) now e.deadline

  -- `#track` without a window.
  unfoldable pub track_untimed : Policy V → ℕ → V → Option (Entry V) → Policy V
  track_untimed p key value none =
      let e = create key value 0 0 p.next_id in if has_cap p then promote (add_entry p e) e else p
  track_untimed p key value (some old) =
      let e = record old { value = value } in
      let q = write_entry p e in
      let untimed = replacement q e 0 0 in
      if e.window == 0
      then promote q e
      else (if has_cap p then promote (add_entry q untimed) untimed else forget q key)

  -- `#track` with a window.
  unfoldable pub track_timed : Policy V → ℕ → ℕ → V → ℕ → Option (Entry V) → Policy V
  track_timed p now key value window none =
      let e = create key value window (now + window) p.next_id in file (add_entry p e) now e
  track_timed p now key value window (some old) =
      let deadline = now + window in
      let timed = record old {
        value = value;
        window = window;
        deadline = deadline;
        filed = deadline;
      } in
      let moved = record old { value = value; window = window; deadline = deadline } in
      let q = write_entry p moved in
      let fresh = replacement q moved window deadline in
      if old.window == 0
      then file (write_entry p timed) now timed
      else (if ltb deadline old.filed
          then file (add_entry q fresh) now fresh
          else (if old.in_lru then promote q moved else q))

  -- `#notify`
  unfoldable pub notify : Policy V → ℕ → Option V → EvictionReason → Policy V
  notify p key value reason =
      if p.on_evict then record p { notified = (key, value, reason) ∷ p.notified } else p
