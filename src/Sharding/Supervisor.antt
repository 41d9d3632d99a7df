-- ===== src/Sharding/Supervisor.antt =====
-- packages/sharding/src/supervisor.ts: when a crashed cluster comes back.
-- `now` is `Date.now()` and `random`, below 1, is what the random source gives. `backoff`, `jitter` and
-- `random` are exact fractions with a denominator that is not 0, and delays are whole milliseconds.
-- `none` for `max_restarts` is Infinity, and for a new supervisor the RangeError.
pub mod Delays
pub mod Histories
mod Tests
use lunibee.Base.{
  ℕ, ◌+◌, ◌*◌, ◌/◌, ◌^◌, min, Bool, true, false, not, ◌||◌, Option, none, some, List, [], ◌∷◌, ◌==◌,
  ltb, leb, if◌then◌else◌,
}
use lunibee.Collection.Maps.{find, put, drop}
use lunibee.Ws.Reconnect.{Fraction}

pub record SupervisorOptions : Type 0 where
  pub restart_delay : Option ℕ
  pub backoff : Option Fraction
  pub max_delay : Option ℕ
  pub jitter : Option Fraction
  pub max_restarts : Option ℕ
  pub window : Option ℕ

-- The options with their defaults.
pub record Settings : Type 0 where
  pub restart_delay : ℕ
  pub backoff : Fraction
  pub max_delay : ℕ
  pub jitter : Fraction
  pub max_restarts : Option ℕ
  pub window : ℕ

-- An entry of `#restarts`
pub record Restarts : Type 0 where
  pub count : ℕ
  pub restart_at : ℕ

pub record ShardSupervisor : Type 0 where
  pub options : Settings
  pub restarts : List (ℕ × Restarts)

abbrev or_default : {A : Type 0} → Option A → A → A
or_default none a = a
or_default (some b) a = b

abbrev whole : ℕ → Fraction
whole n = record { num = n; den = 1 }

unfoldable pub with_defaults : SupervisorOptions → Settings
with_defaults o = record {
  restart_delay = or_default o.restart_delay 5000;
  backoff = or_default o.backoff (whole 1);
  max_delay = or_default o.max_delay 300_000;
  jitter = or_default o.jitter (whole 0);
  max_restarts = o.max_restarts;
  window = or_default o.window 60_000;
}

-- The checks of the constructor that can fail for these numbers.
abbrev pub is_refused : Settings → Bool
is_refused o = (o.window == 0) || (ltb o.backoff.num o.backoff.den || ltb o.jitter.den o.jitter.num)

unfoldable pub new_supervisor : SupervisorOptions → Option ShardSupervisor
unfolding with_defaults
new_supervisor options =
    let o = with_defaults options in
    if is_refused o then none else some (record { options = o; restarts = [] })

-- `history`, unless the cluster has run for a whole window since.
abbrev pub remembered : ℕ → ℕ → Option Restarts → Option Restarts
remembered window now none = none
remembered window now (some h) = if leb (h.restart_at + window) now then none else some h

-- `history?.count ?? 0`
abbrev pub count_of : Option Restarts → ℕ
count_of none = 0
count_of (some h) = h.count

-- `Math.round` of a fraction.
abbrev pub round : ℕ → ℕ → ℕ
round num den = (2 * num + den) / (2 * den)

-- `base` is the fraction `min(max_delay * den, restart_delay * num) / den` of the backoff's power.
unfoldable pub delay_of : Settings → ℕ → Fraction → ℕ
delay_of o count random =
    let den = o.backoff.den ^ count in
    let base = min (o.max_delay * den) (o.restart_delay * o.backoff.num ^ count) in
    let spread = o.jitter.den * random.den in
    min o.max_delay (round (base * (spread + o.jitter.num * random.num)) (den * spread))

abbrev pub is_spent : Option ℕ → ℕ → Bool
is_spent none count = false
is_spent (some most) count = leb most count

unfoldable pub next : ShardSupervisor → ℕ → ℕ → Fraction → ShardSupervisor × Option ℕ
unfolding delay_of
next s id now random =
    let o = s.options in
    let count = count_of (remembered o.window now (find id s.restarts)) in
    let delay = delay_of o count random in
    let restart : Restarts = record { count = count + 1; restart_at = now + delay } in
    if is_spent o.max_restarts count
    then (record s { restarts = drop id s.restarts }, none)
    else (record s { restarts = put id restart s.restarts }, some delay)

unfoldable pub attempts : ShardSupervisor → ℕ → ℕ
attempts s id = count_of (find id s.restarts)

unfoldable pub reset : ShardSupervisor → Option ℕ → ShardSupervisor
reset s none = record s { restarts = [] }
reset s (some id) = record s { restarts = drop id s.restarts }

pub data Event : Type 0 where
  exits : ℕ → ℕ → Fraction → Event
  resets : Option ℕ → Event

-- A history of calls, with the cluster and the result of each `next`.
unfoldable pub run : ShardSupervisor → List Event → ShardSupervisor × List (ℕ × Option ℕ)
run s [] = (s, [])
run s (exits id now random ∷ events) =
    let r = next s id now random in let rest = run r.0 events in (rest.0, (id, r.1) ∷ rest.1)
run s (resets id ∷ events) = run (reset s id) events
