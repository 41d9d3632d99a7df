-- ===== src/Sharding/Requests/Once.antt =====
-- Histories of a tracker of requests.ts: every request is settled once.
use lunibee.Base.{
  leb, ◌≤◌, ℕ, suc, ◌+◌, ◌≡◌, refl, ap, Bool, true, Option, none, some, List, [], ◌∷◌, ◌++◌, ◌==◌,
  if◌then◌else◌, Text, Bool-cases, Option-cases, inl, inr, arith, is_some, ltb,
}
use lunibee.Sharding.Requests.{
  RequestTracker, Entry, Settled, Collected, find_entry, remove_entry, set_entry, finish, begin,
  store, answer, fail_owner, close, fail_entries, finish_all, fail_keys, accept, admits, new_entry,
  fresh_tracker,
}

-- A call, or a finish by the timer, the signal or a microtask of a request.
pub data Event : Type 0 where
  begins : List (Text × ℕ) → Option Bool → Event
  answers : ℕ → Settled → ℕ → Event
  finishes : ℕ → Event
  fails : ℕ → Text → Event
  closes : Event

begun : RequestTracker → Option (RequestTracker × ℕ × Bool) → RequestTracker × List (ℕ × Collected)
begun t none = (t, [])
begun t (some (d, id, soon)) = (d, [])

unfoldable pub step : RequestTracker → Event → RequestTracker × List (ℕ × Collected)
unfolding begun
step t (begins keys signal) = begun t (begin t keys signal)
step t (answers id s from) = let (d, accepted, done) = answer t id s from in (d, done)
step t (finishes id) = finish t id
step t (fails owner error) = fail_owner t owner error
step t closes = close t

unfoldable pub run : RequestTracker → List Event → RequestTracker × List (ℕ × Collected)
run t [] = (t, [])
run t (e ∷ es) = let (d, done) = step t e in let (d', rest) = run d es in (d', done ++ rest)

-- How often an id stands in a list.
abbrev pub occurrences {ℓ} : {A : Type ℓ} → ℕ → List (ℕ × A) → ℕ
occurrences id [] = 0
occurrences id ((i, x) ∷ xs) = let rest = occurrences id xs in if i == id then suc rest else rest

occurrences-append {ℓ} :
    {A : Type ℓ} (id : ℕ) (xs ys : List (ℕ × A))
    → occurrences id (xs ++ ys) ≡ occurrences id xs + occurrences id ys
occurrences-append id [] ys = omega arith
occurrences-append id ((i, x) ∷ xs) ys = ground (arith, occurrences-append id xs ys)

-- 1 for an id that was not given out yet.
abbrev pub unissued : ℕ → ℕ → ℕ
unissued id counter = if ltb counter id then 1 else 0

occurrences-remove_entry :
    (id i : ℕ) (es : List (ℕ × Entry))
    → is_some (find_entry i es) ≡ true
    → occurrences id (remove_entry i es) + (if i == id then 1 else 0) ≡ occurrences id es
occurrences-remove_entry id i [] h = ground arith
occurrences-remove_entry id i ((j, e) ∷ es) h = ground (arith, occurrences-remove_entry id i es)

occurrences-set_entry :
    (id i : ℕ) (e : Entry) (es : List (ℕ × Entry))
    → occurrences id (set_entry i e es) ≡ occurrences id es
occurrences-set_entry id i e [] = refl
occurrences-set_entry id i e ((j, e') ∷ es) = ground (arith, occurrences-set_entry id i e es)

-- What a call does to an id: it waits, is settled, or was not given out, as often as before.
pub Keeps : ℕ → RequestTracker → RequestTracker × List (ℕ × Collected) → Type 0
Keeps id t (d, done) =
    occurrences id d.pending + unissued id d.counter + occurrences id done
    ≡ occurrences id t.pending + unissued id t.counter

Keeps-self : (id : ℕ) (t : RequestTracker) → Keeps id t (t, [])
unfolding Keeps
Keeps-self id t = omega arith

Keeps-trans :
    (id : ℕ) (t : RequestTracker) (p q : RequestTracker × List (ℕ × Collected))
    → Keeps id t p
    → Keeps id p.0 q
    → Keeps id t (q.0, p.1 ++ q.1)
unfolding Keeps
Keeps-trans id t p q h h' = omega (arith, h, h', occurrences-append id p.1 q.1)

finish-Keeps : (id : ℕ) (t : RequestTracker) (i : ℕ) → Keeps id t (finish t i)
unfolding Keeps finish
finish-Keeps id t i = elim (Option-cases (find_entry i t.pending)) [
  | inl e ↦ ground arith
  | inr (entry, e) ↦ ground (arith, occurrences-remove_entry id i t.pending (ap is_some e))
]

store-Keeps : (id : ℕ) (t : RequestTracker) (i : ℕ) (e : Entry) → Keeps id t (store t i e)
unfolding Keeps store
store-Keeps id t i e =
    let d = record t { pending = set_entry i e t.pending } in
    ground (arith, occurrences-set_entry id i e t.pending, finish-Keeps id d i)

answer-Keeps :
    (id : ℕ) (t : RequestTracker) (i : ℕ) (s : Settled) (from : ℕ)
    → let (d, accepted, done) = answer t i s from in Keeps id t (d, done)
unfolding answer
answer-Keeps id t i s from = elim (Option-cases (find_entry i t.pending)) [
  | inl e ↦ rw e (Keeps-self id t)
  | inr (entry, e) ↦ rw e (elim (Bool-cases (admits (some entry) s.key from)) [
    | inl h ↦ rw h (store-Keeps id t i (accept s entry))
    | inr h ↦ rw h (Keeps-self id t)
  ])
]

fail_entries-Keeps :
    (id owner : ℕ) (error : Text) (es : List (ℕ × Entry)) (t : RequestTracker)
    → Keeps id t (fail_entries owner error es t)
unfolding fail_entries
fail_entries-Keeps id owner error [] t = Keeps-self id t
fail_entries-Keeps id owner error ((i, e) ∷ es) t =
    let p = store t i (fail_keys owner error e.keys e) in
    Keeps-trans id t p (fail_entries owner error es p.0)
      (store-Keeps id t i (fail_keys owner error e.keys e))
      (fail_entries-Keeps id owner error es p.0)

finish_all-Keeps :
    (id : ℕ) (es : List (ℕ × Entry)) (t : RequestTracker) → Keeps id t (finish_all es t)
unfolding finish_all
finish_all-Keeps id [] t = Keeps-self id t
finish_all-Keeps id ((i, e) ∷ es) t =
    let p = finish t i in
    Keeps-trans id t p (finish_all es p.0) (finish-Keeps id t i) (finish_all-Keeps id es p.0)

begin-Keeps :
    (id : ℕ) (t : RequestTracker) (keys : List (Text × ℕ)) (signal : Option Bool)
    → Keeps id t (step t (begins keys signal))
unfolding Keeps step begin
begin-Keeps id t keys signal =
    ground (arith, occurrences-append id t.pending ((t.counter + 1, new_entry keys) ∷ []))

step-Keeps : (id : ℕ) (t : RequestTracker) (e : Event) → Keeps id t (step t e)
unfolding step fail_owner close
step-Keeps id t (begins keys signal) = begin-Keeps id t keys signal
step-Keeps id t (answers i s from) = answer-Keeps id t i s from
step-Keeps id t (finishes i) = finish-Keeps id t i
step-Keeps id t (fails owner error) = fail_entries-Keeps id owner error t.pending t
step-Keeps id t closes = finish_all-Keeps id t.pending t

run-Keeps : (id : ℕ) (t : RequestTracker) (es : List Event) → Keeps id t (run t es)
unfolding run
run-Keeps id t [] = Keeps-self id t
run-Keeps id t (e ∷ es) =
    let p = step t e in Keeps-trans id t p (run p.0 es) (step-Keeps id t e) (run-Keeps id p.0 es)

-- In every history of a new tracker an id that was given out is, counted together, once among the
-- waiting requests or once among the settled promises, and an id that was not given out is in
-- neither: no request is lost and none is settled twice.
pub run-once :
    (id max_pending : ℕ) (es : List Event)
    → 1 ≤ id
    → let (d, done) = run (fresh_tracker max_pending) es in
      occurrences id d.pending + occurrences id done ≡ (if leb id d.counter then 1 else 0)
unfolding Keeps
run-once id max_pending es given = ground (arith, run-Keeps id (fresh_tracker max_pending) es)
