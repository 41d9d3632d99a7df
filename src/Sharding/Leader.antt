-- ===== src/Sharding/Leader.antt =====
-- packages/sharding/src/leader.ts: the lock by which one of several coordinators leads.
-- The Redis server is a parameter: a type of its states of one key, and the commands on that key that
-- the scripts call, each at a time in milliseconds. A script runs as one step at the server's time, and
-- its reply arrives.
pub mod Leases
mod Tests
use lunibee.Base.{
  ℕ, zero, suc, ◌+◌, ◌≤◌, ◌<◌, ◌≡◌, Bool, true, false, ◌||◌, Option, none, some, List, [], ◌∷◌,
  ◌==◌, ltb, if◌then◌else◌, Text, codes, text_eq,
}

-- `GET`, `SET … PX`, `PEXPIRE` and `DEL` of one key.
pub record RedisKey (S : Type 0) : Type 0 where
  pub get : S → ℕ → Option Text
  pub set : S → Text → ℕ → ℕ → S
  pub pexpire : S → ℕ → ℕ → S
  pub del : S → S

pub record RedisLeaderLock : Type 0 where
  pub key : Text
  pub token : Text

abbrev is_empty : Text → Bool
is_empty [] = true
is_empty (c ∷ s) = false

abbrev text_or : Option Text → Text → Text
text_or none s = s
text_or (some t) s = t

-- The constructor; `uuid` is what `crypto.randomUUID` gives, and `none` stands for its TypeError.
unfoldable pub new_leader_lock : Option Text → Option Text → Text → Option RedisLeaderLock
new_leader_lock key token uuid =
    let k = text_or key (codes "lunibee:cluster:leader") in
    let t = text_or token uuid in
    if is_empty k || is_empty t then none else some (record { key = k; token = t })

module _ {S : Type 0} (r : RedisKey S) where
  -- ACQUIRE, with what GET has found; the number is its reply.
  abbrev acquire_found : S → ℕ → Text → ℕ → Option Text → S × ℕ
  acquire_found s now token ttl none = (r.set s token now ttl, 1)
  acquire_found s now token ttl (some v) =
      if text_eq v token then (r.pexpire s now ttl, 1) else (s, 0)

  unfoldable pub acquire_script : S → ℕ → Text → ℕ → S × ℕ
  acquire_script s now token ttl = acquire_found s now token ttl (r.get s now)

  -- RELEASE, with what GET has found.
  abbrev release_found : S → Text → Option Text → S
  release_found s token none = s
  release_found s token (some v) = if text_eq v token then r.del s else s

  unfoldable pub release_script : S → ℕ → Text → S
  release_script s now token = release_found s token (r.get s now)

  -- `acquire`; `none` stands for its RangeError.
  unfoldable pub acquire : RedisLeaderLock → S → ℕ → ℕ → S × Option Bool
  unfolding acquire_script
  acquire lock s now ttl =
      let (after, reply) = acquire_script s now lock.token ttl in
      if ltb ttl 1 then (s, none) else (after, some (reply == 1))

  unfoldable pub release : RedisLeaderLock → S → ℕ → S
  unfolding release_script
  release lock s now = release_script s now lock.token

-- A call of a coordinator.
pub data Call : Type 0 where
  acquires : RedisLeaderLock → ℕ → Call
  releases : RedisLeaderLock → Call

module _ {S : Type 0} (r : RedisKey S) where
  -- Calls, each with the time since the one before, and the results of those of `acquire`.
  unfoldable pub run : S → ℕ → List (ℕ × Call) → S × List (Option Bool)
  run s now [] = (s, [])
  run s now ((delay, acquires lock ttl) ∷ calls) =
      let result = acquire r lock s (now + delay) ttl in
      let rest = run result.0 (now + delay) calls in (rest.0, result.1 ∷ rest.1)
  run s now ((delay, releases lock) ∷ calls) =
      run (release r lock s (now + delay)) (now + delay) calls
