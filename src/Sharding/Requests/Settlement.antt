-- ===== src/Sharding/Requests/Settlement.antt =====
-- Storing and finishing one request of requests.ts.
use lunibee.Base.{
  ℕ, ◌≤◌, ◌≡◌, refl, sym, ap, subst, ◌⊎◌, false, none, some, List, [], ◌∷◌, ◌==◌, if◌then◌else◌,
  length, Text, Bool-cases, Option-cases, inl, inr, arith, is_some, All, map,
}
use lunibee.Sharding.Requests.{
  RequestTracker, Entry, Collected, find_entry, remove_entry, set_entry, finish, store, collect,
  unanswered, has_text, is_complete,
}
use lunibee.Sharding.Requests.Entries.{Sound, NoDup}
use mathlib.Core.Option.{some-injective}

-- The answers are to different keys, and no key that is answered is missing.
abbrev pub IsSettlement : Collected → Type 0
IsSettlement c =
    let answered = map (λ s. s.key) c.replies in
    NoDup answered × All (λ k. has_text k answered ≡ false) c.missing

unanswered-All :
    (answered : List Text) (ks : List (Text × ℕ))
    → All (λ k. has_text k answered ≡ false) (unanswered answered ks)
unfolding unanswered
unanswered-All answered [] = tt
unanswered-All answered ((k, owner) ∷ ks) = elim (Bool-cases (has_text k answered)) [
  | inl e ↦ rw e (unanswered-All answered ks)
  | inr e ↦ rw e (e, unanswered-All answered ks)
]

collect-IsSettlement : (e : Entry) → Sound e → IsSettlement (collect e)
unfolding collect Sound
collect-IsSettlement e (same, nodup, count, distinct) = (
  subst NoDup same nodup,
  subst (λ xs. All (λ k. has_text k xs ≡ false) (unanswered e.answered e.keys)) same
      (unanswered-All e.answered e.keys),
)

-- A waiting request is sound, and has a key without an answer unless it has no key at all.
abbrev pub IsOpen : Entry → Type 0
IsOpen e = Sound e × ((is_complete e ≡ false) ⊎ (length e.keys ≡ 0))

abbrev pub AllOpen : List (ℕ × Entry) → Type 0
AllOpen = All (λ p. IsOpen p.1)

-- Every waiting request is open, and no more wait than may.
unfoldable pub Tracked : RequestTracker → Type 0
Tracked t = AllOpen t.pending × (length t.pending ≤ t.max_pending)

abbrev pub AllSettlements : List (ℕ × Collected) → Type 0
AllSettlements = All (λ p. IsSettlement p.1)

pub find_entry-Sound :
    (id : ℕ) (es : List (ℕ × Entry)) (e : Entry) → AllOpen es → find_entry id es ≡ some e → Sound e
find_entry-Sound id [] e h q = ground arith
find_entry-Sound id ((i, e') ∷ es) e (h, hs) q = elim (Bool-cases (i == id)) [
  | inl s ↦ subst Sound (some-injective _ _ (rw s at q)) h.0
  | inr s ↦ find_entry-Sound id es e hs (rw s at q)
]

remove_entry-AllOpen : (id : ℕ) (es : List (ℕ × Entry)) → AllOpen es → AllOpen (remove_entry id es)
remove_entry-AllOpen id [] h = tt
remove_entry-AllOpen id ((i, e) ∷ es) (h, hs) = elim (Bool-cases (i == id)) [
  | inl s ↦ rw s hs
  | inr s ↦ rw s (h, remove_entry-AllOpen id es hs)
]

set_entry-AllOpen :
    (id : ℕ) (e : Entry) (es : List (ℕ × Entry))
    → IsOpen e
    → AllOpen es
    → AllOpen (set_entry id e es)
set_entry-AllOpen id e [] o h = tt
set_entry-AllOpen id e ((i, e') ∷ es) o (h, hs) = elim (Bool-cases (i == id)) [
  | inl s ↦ rw s (o, hs)
  | inr s ↦ rw s (h, set_entry-AllOpen id e es o hs)
]

length-remove_entry : (id : ℕ) (es : List (ℕ × Entry)) → length (remove_entry id es) ≤ length es
length-remove_entry id [] = omega arith
length-remove_entry id ((i, e) ∷ es) = ground (arith, length-remove_entry id es)

length-set_entry :
    (id : ℕ) (e : Entry) (es : List (ℕ × Entry)) → length (set_entry id e es) ≡ length es
length-set_entry id e [] = refl
length-set_entry id e ((i, e') ∷ es) = ground (arith, length-set_entry id e es)

remove-set_entry :
    (id : ℕ) (e : Entry) (es : List (ℕ × Entry))
    → remove_entry id (set_entry id e es) ≡ remove_entry id es
remove-set_entry id e [] = refl
remove-set_entry id e ((i, e') ∷ es) = ground (arith, remove-set_entry id e es)

find-set_entry :
    (id : ℕ) (e : Entry) (es : List (ℕ × Entry))
    → find_entry id (set_entry id e es) ≡ (if is_some (find_entry id es) then some e else none)
find-set_entry id e [] = refl
find-set_entry id e ((i, e') ∷ es) = ground (arith, find-set_entry id e es)

set_entry-absent :
    (id : ℕ) (e : Entry) (es : List (ℕ × Entry)) → find_entry id es ≡ none → set_entry id e es ≡ es
set_entry-absent id e [] h = refl
set_entry-absent id e ((i, e') ∷ es) h = elim (Bool-cases (i == id)) [
  | inl s ↦ ground (arith, s)
  | inr s ↦ rw s (ap (◌∷◌ (i, e')) (set_entry-absent id e es (rw s at h)))
]

finish-none : (t : RequestTracker) (id : ℕ) → find_entry id t.pending ≡ none → finish t id ≡ (t, [])
unfolding finish
finish-none t id q = ground (arith, q)

finish-some :
    (t : RequestTracker) (id : ℕ) (e : Entry)
    → find_entry id t.pending ≡ some e
    → finish t id ≡ (record t { pending = remove_entry id t.pending }, (id, collect e) ∷ [])
unfolding finish
finish-some t id e q = ground (arith, q)

-- A state and its settlements are as they should be.
abbrev pub Good : RequestTracker × List (ℕ × Collected) → Type 0
Good p = Tracked p.0 × AllSettlements p.1

finish_stored-Good :
    (t : RequestTracker) (id : ℕ) (e : Entry)
    → Tracked t
    → Sound e
    → Good (finish (record t { pending = set_entry id e t.pending }) id)
unfolding Tracked
finish_stored-Good t id e (open_all, bound) sound =
    let d = record t { pending = set_entry id e t.pending } in
    elim (Option-cases (find_entry id t.pending)) [
      | inl q ↦
          let absent : find_entry id d.pending ≡ none = rw (find-set_entry id e t.pending, q) in
          subst Good (sym (finish-none d id absent)) (
            (
              subst AllOpen (sym (set_entry-absent id e t.pending q)) open_all,
              omega (arith, bound, length-set_entry id e t.pending),
            ),
            tt,
          )
      | inr (e', q) ↦
          let found : find_entry id d.pending ≡ some e = rw (find-set_entry id e t.pending, q) in
          subst Good (sym (finish-some d id e found)) (
            (
              subst AllOpen (sym (remove-set_entry id e t.pending))
                  (remove_entry-AllOpen id t.pending open_all),
              omega (
                arith,
                bound,
                ap length (remove-set_entry id e t.pending),
                length-remove_entry id t.pending,
              ),
            ),
            (collect-IsSettlement e sound, tt),
          )
    ]

-- An entry is stored: it is open, or it is finished at once.
pub store-All :
    (t : RequestTracker) (id : ℕ) (e : Entry) → Tracked t → Sound e → Good (store t id e)
unfolding store Tracked
store-All t id e (open_all, bound) sound = elim (Bool-cases (is_complete e)) [
  | inl s ↦ rw s (finish_stored-Good t id e (open_all, bound) sound)
  | inr s ↦ rw s (
    (
      set_entry-AllOpen id e t.pending (sound, inl s) open_all,
      omega (arith, bound, length-set_entry id e t.pending),
    ),
    tt,
  )
]

pub finish-All : (t : RequestTracker) (id : ℕ) → Tracked t → Good (finish t id)
unfolding Tracked
finish-All t id (open_all, bound) = elim (Option-cases (find_entry id t.pending)) [
  | inl q ↦ rw (finish-none t id q) ((open_all, bound), tt)
  | inr (e, q) ↦ rw (finish-some t id e q) (
    (
      remove_entry-AllOpen id t.pending open_all,
      omega (arith, bound, length-remove_entry id t.pending),
    ),
    (collect-IsSettlement e (find_entry-Sound id t.pending e open_all q), tt),
  )
]
