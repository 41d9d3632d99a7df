-- ===== src/Sharding/Requests.antt =====
-- packages/sharding/src/requests.ts: `RequestTracker`, the requests that wait for answers.
-- An id is its counter, without the prefix. A result is an opaque number. A promise is settled
-- where a call gives a `Collected` for an id; the timer and the abort signal of a request finish it
-- as the event `finish`.
use lunibee.Base.{
  ℕ, ◌+◌, Bool, true, false, not, ◌&&◌, ◌||◌, Option, none, some, List, [], ◌∷◌, ◌++◌, ◌==◌, leb,
  if◌then◌else◌, length, keep, map, Text, text_eq,
}
pub mod Entries
pub mod Owners
pub mod Once
pub mod Settlement
pub mod Tracking
mod Tests

pub record Settled : Type 0 where
  pub key : Text
  pub result : Option ℕ
  pub error : Option Text

pub record Collected : Type 0 where
  pub replies : List Settled
  pub missing : List Text

-- `keys` is a map in insertion order, `answered` a set in insertion order.
pub record Entry : Type 0 where
  pub keys : List (Text × ℕ)
  pub replies : List Settled
  pub answered : List Text

pub record RequestTracker : Type 0 where
  pub pending : List (ℕ × Entry)
  pub max_pending : ℕ
  pub counter : ℕ

abbrev pub fresh_tracker : ℕ → RequestTracker
fresh_tracker max_pending = record { pending = []; max_pending = max_pending; counter = 0 }

-- The constructor; `none` stands for its RangeError.
unfoldable pub new_tracker : ℕ → Option RequestTracker
new_tracker max_pending = if max_pending == 0 then none else some (fresh_tracker max_pending)

abbrev pub size : RequestTracker → ℕ
size t = length t.pending

abbrev pub has_text : Text → List Text → Bool
has_text s [] = false
has_text s (t ∷ ts) = if text_eq s t then true else has_text s ts

abbrev pub owner_of : Text → List (Text × ℕ) → Option ℕ
owner_of s [] = none
owner_of s ((t, owner) ∷ ks) = if text_eq s t then some owner else owner_of s ks

abbrev pub find_entry : ℕ → List (ℕ × Entry) → Option Entry
find_entry id [] = none
find_entry id ((i, entry) ∷ es) = if i == id then some entry else find_entry id es

abbrev pub set_entry : ℕ → Entry → List (ℕ × Entry) → List (ℕ × Entry)
set_entry id e [] = []
set_entry id e ((i, entry) ∷ es) =
    let rest = set_entry id e es in if i == id then (i, e) ∷ es else (i, entry) ∷ rest

abbrev pub remove_entry : ℕ → List (ℕ × Entry) → List (ℕ × Entry)
remove_entry id [] = []
remove_entry id ((i, entry) ∷ es) =
    let rest = remove_entry id es in if i == id then es else (i, entry) ∷ rest

-- The keys that have no answer.
unfoldable pub unanswered : List Text → List (Text × ℕ) → List Text
unanswered answered [] = []
unanswered answered ((k, owner) ∷ ks) =
    let rest = unanswered answered ks in if has_text k answered then rest else k ∷ rest

unfoldable pub collect : Entry → Collected
collect e = record { replies = e.replies; missing = unanswered e.answered e.keys }

-- `finish` of a request, for an answer, its timer, its signal or a microtask.
unfoldable pub finish : RequestTracker → ℕ → RequestTracker × List (ℕ × Collected)
finish t id = elim (find_entry id t.pending) [
  | none ↦ (t, [])
  | some e ↦ (record t { pending = remove_entry id t.pending }, (id, collect e) ∷ [])
]

abbrev pub new_entry : List (Text × ℕ) → Entry
new_entry keys = record { keys = keys; replies = []; answered = [] }

-- Whether `begin` queues a microtask that finishes the request.
abbrev finishes_soon : List (Text × ℕ) → Option Bool → Bool
finishes_soon [] signal = true
finishes_soon (_ ∷ _) none = false
finishes_soon (_ ∷ _) (some aborted) = aborted

-- The keys with their owners, and whether the caller's signal is aborted. The result is the id and
-- whether a microtask finishes it; `none` stands for the error that too many requests wait.
unfoldable pub begin :
    RequestTracker → List (Text × ℕ) → Option Bool → Option (RequestTracker × ℕ × Bool)
begin t keys signal =
    if leb t.max_pending (length t.pending)
    then none
    else let id = t.counter + 1 in
      some (
        record t { pending = t.pending ++ (id, new_entry keys) ∷ []; counter = id },
        id,
        finishes_soon keys signal,
      )

-- One answer is stored.
unfoldable pub accept : Settled → Entry → Entry
accept s e = record e { answered = e.answered ++ s.key ∷ []; replies = e.replies ++ s ∷ [] }

abbrev pub is_complete : Entry → Bool
is_complete e = leb (length e.keys) (length e.replies)

abbrev owns_key : Option ℕ → ℕ → Bool
owns_key none from = false
owns_key (some owner) from = owner == from

-- The guards of `answer`.
unfoldable pub admits : Option Entry → Text → ℕ → Bool
admits none key from = false
admits (some e) key from = owns_key (owner_of key e.keys) from && not (has_text key e.answered)

-- The entry is stored again, and finished when it is complete.
unfoldable pub store : RequestTracker → ℕ → Entry → RequestTracker × List (ℕ × Collected)
store t id e =
    let d = record t { pending = set_entry id e t.pending } in
    if is_complete e then finish d id else (d, [])

unfoldable pub accept_if :
    RequestTracker
    → ℕ
    → Settled
    → Option Entry
    → Bool
    → RequestTracker × Bool × List (ℕ × Collected)
accept_if t id s (some e) true = let (d, done) = store t id (accept s e) in (d, true, done)
accept_if t id s _ _ = (t, false, [])

unfoldable pub answer :
    RequestTracker → ℕ → Settled → ℕ → RequestTracker × Bool × List (ℕ × Collected)
unfolding accept_if
answer t id s from = let e = find_entry id t.pending in accept_if t id s e (admits e s.key from)

unfoldable pub fail_key : ℕ → Text → Text × ℕ → Entry → Entry
fail_key owner error (key, key_owner) e =
    if key_owner == owner && not (has_text key e.answered)
    then accept (record { key = key; result = none; error = some error }) e
    else e

-- The loop of `failOwner` over the keys of one entry.
unfoldable pub fail_keys : ℕ → Text → List (Text × ℕ) → Entry → Entry
fail_keys owner error [] e = e
fail_keys owner error (k ∷ ks) e = fail_keys owner error ks (fail_key owner error k e)

-- The loop of `failOwner` over the entries that wait when it is called.
unfoldable pub fail_entries :
    ℕ → Text → List (ℕ × Entry) → RequestTracker → RequestTracker × List (ℕ × Collected)
fail_entries owner error [] t = (t, [])
fail_entries owner error ((id, e) ∷ es) t =
    let (d, done) = store t id (fail_keys owner error e.keys e) in
    let (d', rest) = fail_entries owner error es d in (d', done ++ rest)

unfoldable pub fail_owner : RequestTracker → ℕ → Text → RequestTracker × List (ℕ × Collected)
unfolding fail_entries
fail_owner t owner error = fail_entries owner error t.pending t

unfoldable pub finish_all :
    List (ℕ × Entry) → RequestTracker → RequestTracker × List (ℕ × Collected)
finish_all [] t = (t, [])
finish_all ((id, e) ∷ es) t =
    let (d, done) = finish t id in let (d', rest) = finish_all es d in (d', done ++ rest)

unfoldable pub close : RequestTracker → RequestTracker × List (ℕ × Collected)
unfolding finish_all
close t = finish_all t.pending t
