-- ===== src/Sharding/Leader/Leases.antt =====
-- Who leads under the lock of packages/sharding/src/leader.ts, and until when.
use lunibee.Base.{
  ℕ, ◌+◌, ◌≤◌, ◌<◌, ◌≡◌, refl, ap, ◌∙◌, sym, subst, Bool, true, false, Option, none, some, List, [],
  ◌∷◌, ◌==◌, ltb, if◌then◌else◌, Text, text_eq, eq_of_text_eq, lt→ltb, Bool-cases, inl, inr, arith,
}
use mathlib.Core.Option.{some-injective}
use lunibee.Sharding.Leader.{
  RedisKey, RedisLeaderLock, acquire_script, acquire_found, release_script, acquire, release, Call,
  acquires, releases, run,
}

-- What Redis documents of a key: a value that is set with a time to live is read until that has passed
-- and no longer, PEXPIRE starts the time to live of a value that is there anew, and DEL removes it.
pub record RedisLaws {S : Type 0} (r : RedisKey S) : Type 0 where
  pub get-set :
      (s : S) (token : Text) (now ttl u : ℕ)
      → now ≤ u
      → r.get (r.set s token now ttl) u ≡ (if ltb u (now + ttl) then some token else none)
  pub get-pexpire :
      (s : S) (token : Text) (now ttl u : ℕ)
      → r.get s now ≡ some token
      → now ≤ u
      → r.get (r.pexpire s now ttl) u ≡ (if ltb u (now + ttl) then some token else none)
  pub get-del : (s : S) (u : ℕ) → r.get (r.del s) u ≡ none

-- From `now` on the key reads `token` until `end`, and nothing from then on.
abbrev pub IsLeased : {S : Type 0} → RedisKey S → S → ℕ → Text → ℕ → Type 0
IsLeased r s now token end =
    (u : ℕ) → now ≤ u → r.get s u ≡ (if ltb u end then some token else none)

-- The time of the last call.
abbrev pub end_of : ℕ → List (ℕ × Call) → ℕ
end_of now [] = now
end_of now ((delay, call) ∷ calls) = end_of (now + delay) calls

abbrev pub token_of : Call → Text
token_of (acquires lock ttl) = lock.token
token_of (releases lock) = lock.token

-- No call is one of the holder of the token.
abbrev pub AreOthers : Text → List (ℕ × Call) → Type 0
AreOthers token [] = Unit
AreOthers token ((delay, call) ∷ calls) =
    (text_eq token (token_of call) ≡ false) × AreOthers token calls

-- No coordinator that asks is told that it leads.
abbrev pub NoneLeads : List (Option Bool) → Type 0
NoneLeads [] = Unit
NoneLeads (none ∷ results) = NoneLeads results
NoneLeads (some leads ∷ results) = (leads ≡ false) × NoneLeads results

past : (u end : ℕ) → end ≤ u → ltb u end ≡ false
past u end le = ground arith

NoneLeads-cons :
    (result : Option Bool) (results : List (Option Bool))
    → NoneLeads (result ∷ [])
    → NoneLeads results
    → NoneLeads (result ∷ results)
NoneLeads-cons none results first rest = rest
NoneLeads-cons (some leads) results (first, _) rest = (first, rest)

module _ {S : Type 0} (r : RedisKey S) (laws : RedisLaws r) where
  found_lease :
      (s : S) (now ttl : ℕ) (token : Text) (found : Option Text)
      → r.get s now ≡ found
      → ((acquire_found r s now token ttl found).1 == 1) ≡ true
      → IsLeased r (acquire_found r s now token ttl found).0 now token (now + ttl)
  found_lease s now ttl token none get leads u le = laws.get-set s token now ttl u le
  found_lease s now ttl token (some v) get leads u le = elim (Bool-cases (text_eq v token)) [
    | inl ours ↦
        rw ours (laws.get-pexpire s token now ttl u (get ∙ ap some (eq_of_text_eq v token ours)) le)
    | inr theirs ↦ absurd (ground (arith, rw theirs at leads))
  ]

  le_end : (now : ℕ) (calls : List (ℕ × Call)) → now ≤ end_of now calls
  le_end now [] = omega arith
  le_end now ((delay, call) ∷ calls) = omega (arith, le_end (now + delay) calls)

  IsLeased-later :
      (s : S) (now later : ℕ) (token : Text) (end : ℕ)
      → now ≤ later
      → IsLeased r s now token end
      → IsLeased r s later token end
  IsLeased-later s now later token end le lease u from = lease u (omega (arith, le, from))

  -- While the lease of another runs, a call changes nothing.
  acquire_other :
      (lock : RedisLeaderLock) (s : S) (now ttl : ℕ) (token : Text)
      → r.get s now ≡ some token
      → text_eq token lock.token ≡ false
      → ((acquire r lock s now ttl).0 ≡ s) × NoneLeads ((acquire r lock s now ttl).1 ∷ [])
  unfolding acquire acquire_script
  acquire_other lock s now ttl token get other =
      let apart : text_eq token lock.token ≡ false = other in
      elim (Bool-cases (ltb ttl 1)) [
        | inl refused ↦ rw refused (refl, tt)
        | inr valid ↦ rw (valid, get, apart) (refl, (refl, tt))
      ]

  release_other :
      (lock : RedisLeaderLock) (s : S) (now : ℕ) (token : Text)
      → r.get s now ≡ some token
      → text_eq token lock.token ≡ false
      → release r lock s now ≡ s
  unfolding release release_script
  release_other lock s now token get other = rw (get, other) refl

  run_others :
      (s : S) (now : ℕ) (token : Text) (end : ℕ) (calls : List (ℕ × Call))
      → IsLeased r s now token end
      → AreOthers token calls
      → end_of now calls < end
      → ((run r s now calls).0 ≡ s) × NoneLeads (run r s now calls).1
  unfolding run
  run_others s now token end [] lease others before = (refl, tt)
  run_others s now token end ((delay, acquires lock ttl) ∷ calls) lease (other, others) before =
      let later = now + delay in
      let still = IsLeased-later s now later token end (omega arith) lease in
      let holds : r.get s later ≡ some token =
        still later (omega arith)
        ∙ rw (lt→ltb later end (omega (arith, before, le_end later calls))) refl in
      let (same, none_leads) = acquire_other lock s later ttl token holds other in
      let after = λ (s' : S). run r s' later calls in
      let (ends, rest) = run_others s later token end calls still others before in
      (
        ap (λ s'. (after s').0) same ∙ ends,
        NoneLeads-cons (acquire r lock s later ttl).1 (after (acquire r lock s later ttl).0).1
            none_leads (subst (λ (s' : S). NoneLeads (after s').1) (sym same) rest),
      )
  run_others s now token end ((delay, releases lock) ∷ calls) lease (other, others) before =
      let later = now + delay in
      let still = IsLeased-later s now later token end (omega arith) lease in
      let holds : r.get s later ≡ some token =
        still later (omega arith)
        ∙ rw (lt→ltb later end (omega (arith, before, le_end later calls))) refl in
      subst (λ (s' : S). ((run r s' later calls).0 ≡ s) × NoneLeads (run r s' later calls).1)
        (sym (release_other lock s later token holds other))
        (run_others s later token end calls still others before)

  acquire_free :
      (lock : RedisLeaderLock) (s : S) (now ttl : ℕ)
      → r.get s now ≡ none
      → 0 < ttl
      → (acquire r lock s now ttl).1 ≡ some true
  unfolding acquire acquire_script
  acquire_free lock s now ttl free valid =
      let allowed : ltb ttl 1 ≡ false = ground arith in rw (allowed, free) refl

  -- A token that was told that it leads, at `now` for `ttl`.
  acquired :
      (lock : RedisLeaderLock) (s : S) (now ttl : ℕ)
      → (acquire r lock s now ttl).1 ≡ some true
      → IsLeased r (acquire r lock s now ttl).0 now lock.token (now + ttl)
  unfolding acquire acquire_script
  acquired lock s now ttl leads = elim (Bool-cases (ltb ttl 1)) [
    | inl refused ↦ absurd (ground (arith, rw refused at leads))
    | inr valid ↦ rw valid (
        found_lease s now ttl lock.token (r.get s now) refl
          (some-injective _ _ (rw valid at leads)))
  ]

  -- Who is told that it leads, leads alone until its time to live has passed: until then no other
  -- coordinator is told so, whatever the others call; and once it has passed without another call, the
  -- next coordinator that asks is told that it leads.
  pub leads_alone :
      (lock other : RedisLeaderLock) (s : S) (now ttl : ℕ) (calls : List (ℕ × Call))
      (later ttl' : ℕ)
      → (acquire r lock s now ttl).1 ≡ some true
      → AreOthers lock.token calls
      → end_of now calls < now + ttl
      → now + ttl ≤ later
      → 0 < ttl'
      → let s' = (acquire r lock s now ttl).0 in
        NoneLeads (run r s' now calls).1
        × ((acquire r other (run r s' now calls).0 later ttl').1 ≡ some true)
  leads_alone lock other s now ttl calls later ttl' leads others before lapsed valid =
      let s' = (acquire r lock s now ttl).0 in
      let lease = acquired lock s now ttl leads in
      let (same, none_leads) = run_others s' now lock.token (now + ttl) calls lease others before in
      let free : r.get s' later ≡ none =
        lease later (omega (arith, lapsed)) ∙ rw (past later (now + ttl) lapsed) refl in
      (
        none_leads,
        subst (λ (x : S). (acquire r other x later ttl').1 ≡ some true) (sym same)
            (acquire_free other s' later ttl' free valid),
      )
