-- ===== src/Sharding/Supervisor/Delays.antt =====
-- The delays of packages/sharding/src/supervisor.ts, and the loop of a cluster that keeps crashing.
use lunibee.Base.{
  ==_self, by_if, ℕ, ◌+◌, ◌*◌, ◌^◌, ◌≤◌, ◌<◌, ◌≡◌, refl, sym, ap, ◌∙◌, min, true, false, Option,
  none, some, List, ◌==◌, if◌then◌else◌, arith, Bool-cases, inl, inr,
}
use native.Mathlib.Nat.{
  le-div_iff_mul-le, mul-le-mul, mul-le-mul_right, mul-pos, one-le-pow, pow-le-pow_left,
}
use lunibee.Collection.Maps.{find, put}
use lunibee.Collection.Maps.Laws.{IsMap, find-put, find-drop, put-IsMap, drop-IsMap, find-drop_self}
use lunibee.Ws.Reconnect.{Fraction}
use lunibee.Sharding.Supervisor.{
  Settings, Restarts, ShardSupervisor, remembered, count_of, delay_of, is_spent, next, round,
}

round-at_least : (m num den : ℕ) → 0 < den → m * den ≤ num → m ≤ round num den
round-at_least m num den p le =
    (le-div_iff_mul-le {k = 2 * den} (omega (arith, p))).1 (omega (arith, le))

pub find-put_self :
    {A : Type 0} (key : ℕ) (a : A) (xs : List (ℕ × A)) → find key (put key a xs) ≡ some a
find-put_self key a xs = find-put key key a xs ∙ rw (==_self key) refl

-- A jitter only lengthens a wait.
lengthened :
    (m base den spread more : ℕ)
    → 0 < den
    → 0 < spread
    → m * den ≤ base
    → m * (den * spread) ≤ base * (spread + more)
lengthened m base den spread more d s le = omega (arith, mul-le-mul_right spread le)

-- The backoff only lengthens a wait.
backed_off :
    (most delay slow fast : ℕ)
    → slow ≤ fast
    → min most delay * slow ≤ min (most * slow) (delay * fast)
backed_off most delay slow fast le = omega (
  arith,
  mul-le-mul_right {m = min most delay} {n = most} slow (omega arith),
  mul-le-mul {n₁ = min most delay} {m₁ = slow} {n₂ = delay} {m₂ = fast} (omega arith) le,
)

pub delay_of-le :
    (o : Settings) (count : ℕ) (random : Fraction) → delay_of o count random ≤ o.max_delay
unfolding delay_of
delay_of-le o count random = ground arith

module _ (o : Settings) (count : ℕ) (random : Fraction) (b : 0 < o.backoff.den)
    (grows : o.backoff.den ≤ o.backoff.num) (j : 0 < o.jitter.den) (r : 0 < random.den) where
  pub le-delay_of : min o.max_delay o.restart_delay ≤ delay_of o count random
  unfolding delay_of
  le-delay_of =
      let den = o.backoff.den ^ count in
      let spread = o.jitter.den * random.den in
      let positive : 0 < den = one-le-pow count o.backoff.den b in
      let spread_positive : 0 < spread = mul-pos j r in
      let base = min (o.max_delay * den) (o.restart_delay * o.backoff.num ^ count) in
      let slow =
        backed_off o.max_delay o.restart_delay den (o.backoff.num ^ count)
          (pow-le-pow_left grows count) in
      let rounded =
        round-at_least (min o.max_delay o.restart_delay)
          (base * (spread + o.jitter.num * random.num)) (den * spread)
          (mul-pos positive spread_positive)
          (lengthened (min o.max_delay o.restart_delay) base den spread (o.jitter.num * random.num)
            positive spread_positive slow) in
      omega (arith, rounded)

-- The entry of a cluster that counts, at `now`.
abbrev pub entry_at : ShardSupervisor → ℕ → ℕ → Option Restarts
entry_at s id now = remembered s.options.window now (find id s.restarts)

-- What `next` has done: given the cluster up, or noted one restart more, after a wait.
abbrev pub IsJudged : ShardSupervisor → ℕ → ℕ → ShardSupervisor → Option ℕ → Type 0
IsJudged s id now after none =
    (is_spent s.options.max_restarts (count_of (entry_at s id now)) ≡ true)
    × (find id after.restarts ≡ none)
IsJudged s id now after (some delay) =
    let count = count_of (entry_at s id now) in
    let noted : Restarts = record { count = count + 1; restart_at = now + delay } in
    (is_spent s.options.max_restarts count ≡ false)
    × (find id after.restarts ≡ some noted)
    × (delay ≤ s.options.max_delay)
    × (min s.options.max_delay s.options.restart_delay ≤ delay)

module _ (s : ShardSupervisor) (id now : ℕ) (random : Fraction) (maps : IsMap s.restarts) where
  pub next-others :
      (j : ℕ)
      → find j (next s id now random).0.restarts
        ≡ (if j == id then find id (next s id now random).0.restarts else find j s.restarts)
  unfolding next
  next-others j =
      let count = count_of (entry_at s id now) in
      let noted : Restarts = record {
        count = count + 1;
        restart_at = now + delay_of s.options count random;
      } in
      let swap = λ (v : Option Restarts). if j == id then v else find j s.restarts in
      by_if
        (λ (r : ShardSupervisor × Option ℕ).
          find j r.0.restarts ≡ (if j == id then find id r.0.restarts else find j s.restarts))
        (is_spent s.options.max_restarts count)
        (λ _. find-drop id j s.restarts maps ∙ ap swap (sym (find-drop_self id s.restarts maps)))
        (λ _. find-put id j noted s.restarts ∙ ap swap (sym (find-put_self id noted s.restarts)))

  pub next-IsMap : IsMap (next s id now random).0.restarts
  unfolding next
  next-IsMap =
      let count = count_of (entry_at s id now) in
      by_if (λ (r : ShardSupervisor × Option ℕ). IsMap r.0.restarts)
        (is_spent s.options.max_restarts count) (λ _. drop-IsMap id s.restarts maps)
        (λ _. put-IsMap id _ s.restarts maps)

  -- `next` gives a cluster up exactly when its restarts since its last stable window have reached the
  -- limit, and forgets it; or else it counts one restart more and waits at most `maxDelay`, and at
  -- least `restartDelay` where that is not more, until the time that it notes. It leaves the other
  -- clusters as they are.
  pub next-IsJudged :
      (j : ℕ)
      → 0 < s.options.backoff.den
      → s.options.backoff.den ≤ s.options.backoff.num
      → 0 < s.options.jitter.den
      → 0 < random.den
      → let r = next s id now random in
        IsJudged s id now r.0 r.1
        × (find j r.0.restarts ≡ (if j == id then find id r.0.restarts else find j s.restarts))
  unfolding next
  next-IsJudged j b grows d p =
      let count = count_of (entry_at s id now) in
      (
        elim (Bool-cases (is_spent s.options.max_restarts count)) [
          | inl spent ↦ rw spent (spent, find-drop_self id s.restarts maps)
          | inr allowed ↦ rw allowed (
            allowed,
            find-put_self id
                (record { count = count + 1; restart_at = now + delay_of s.options count random })
                s.restarts,
            delay_of-le s.options count random,
            le-delay_of s.options count random b grows d p,
          )
        ],
        next-others j,
      )
