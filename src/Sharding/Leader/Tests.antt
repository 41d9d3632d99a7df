-- ===== src/Sharding/Leader/Tests.antt =====
-- Runs of the code of packages/sharding/src/leader.ts on a key that is kept as a value and its deadline.
use lunibee.Base.{
  ℕ, ◌+◌, ◌≤◌, ◌≡◌, refl, ap, true, false, Option, none, some, List, [], ◌∷◌, ltb, if◌then◌else◌,
  Text, codes, Bool-cases, inl, inr, arith,
}
use lunibee.Sharding.Leader.{
  RedisKey, RedisLeaderLock, new_leader_lock, acquire, release, acquire_script, Call, acquires,
  releases, run,
}
use lunibee.Sharding.Leader.Leases.{RedisLaws, leads_alone, NoneLeads}

abbrev Cell : Type 0
Cell = Option (Text × ℕ)

abbrev read : Cell → ℕ → Option Text
read none now = none
read (some (token, deadline)) now = if ltb now deadline then some token else none

abbrev restart : Cell → ℕ → ℕ → Cell
restart none now ttl = none
restart (some (token, deadline)) now ttl =
    if ltb now deadline then some (token, now + ttl) else none

abbrev redis : RedisKey Cell
redis = record {
  get = read;
  set = λ s token now ttl. some (token, now + ttl);
  pexpire = restart;
  del = λ s. none;
}

read-restart :
    (s : Cell) (token : Text) (now ttl u : ℕ)
    → read s now ≡ some token
    → now ≤ u
    → read (restart s now ttl) u ≡ (if ltb u (now + ttl) then some token else none)
read-restart none token now ttl u there le = absurd (ground (arith, there))
read-restart (some (t, deadline)) token now ttl u there le = elim (Bool-cases (ltb now deadline)) [
  | inl live ↦ rw live (ap (λ o. if ltb u (now + ttl) then o else none) (rw live at there))
  | inr over ↦ absurd (ground (arith, rw over at there))
]

redis-laws : RedisLaws redis
redis-laws = record {
  get-set = λ s token now ttl u le. refl;
  get-pexpire = read-restart;
  get-del = λ s u. refl;
}

abbrev first : RedisLeaderLock
first = record { key = codes "lunibee:cluster:leader"; token = codes "a" }

abbrev second : RedisLeaderLock
second = record { key = codes "lunibee:cluster:leader"; token = codes "b" }

second_new : new_leader_lock none (some (codes "b")) (codes "id") ≡ some second
unfolding new_leader_lock
second_new = refl

-- The second coordinator asks twice and releases what it does not hold.
abbrev calls : List (ℕ × Call)
calls = (5, acquires second 100) ∷ (10, releases second) ∷ (20, acquires second 100) ∷ []

refused :
    (run redis (acquire redis first none 1000 100).0 1000 calls).1 ≡ some false ∷ some false ∷ []
unfolding run acquire release
refused = refl

first_leads : (acquire redis first none 1000 100).1 ≡ some true
unfolding acquire acquire_script
first_leads = refl

leads_alone_example :
    NoneLeads (run redis (acquire redis first none 1000 100).0 1000 calls).1
    × ((acquire redis second
          (run redis (acquire redis first none 1000 100).0 1000 calls).0
          1100
          50).1
        ≡ some true)
leads_alone_example =
    leads_alone redis redis-laws first second none 1000 100 calls 1100 50 first_leads
      (refl, (refl, (refl, tt))) (omega arith) (omega arith) (omega arith)
