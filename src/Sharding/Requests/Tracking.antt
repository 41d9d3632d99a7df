-- ===== src/Sharding/Requests/Tracking.antt =====
-- What every history of the tracker of requests.ts keeps, and which answers it accepts.
use lunibee.Base.{◌↔◌, true, ℕ, ◌≡◌, refl, false, Option, some, [], Option-cases, inl, inr, arith}
use lunibee.Sharding.Requests.{
  RequestTracker, Entry, Settled, find_entry, answer, admits, has_text, owner_of, accept_if,
}
use lunibee.Sharding.Requests.Entries.{Distinct}
use lunibee.Sharding.Requests.Once.{Event, begins}
use mathlib.Core.Option.{some-injective}

-- The keys of a request are a map.
abbrev pub IsRequest : Event → Type 0
IsRequest (begins keys signal) = Distinct keys
IsRequest _ = Unit

-- An answer is accepted exactly when its request waits, the cluster it came from owns its key, and
-- the key has no answer yet; an answer that is not accepted changes nothing and settles nothing.
pub answer_iff :
    (t : RequestTracker) (id : ℕ) (s : Settled) (from : ℕ)
    → ((answer t id s from).1 ≡ true ↔ (
        (e : Entry) × (find_entry id t.pending ≡ some e)
        × (owner_of s.key e.keys ≡ some from)
        × (has_text s.key e.answered ≡ false)))
      × ((answer t id s from).1 ≡ false → answer t id s from ≡ (t, false, []))
unfolding answer accept_if admits
answer_iff t id s from = elim (Option-cases (find_entry id t.pending)) [
  | inl q ↦ rw q ((λ h. ground arith, λ h. ground arith), λ h. refl)
  | inr (e, q) ↦ rw q (
    (λ h. (e, refl, ground arith, ground arith), λ h. ground (arith, some-injective _ _ h.1)),
    λ h. ground arith,
  )
]
