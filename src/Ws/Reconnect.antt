-- ===== src/Ws/Reconnect.antt =====
-- packages/ws/src/reconnect.ts and close-codes.ts: how a close code is classified, and
-- `GatewayReconnect`. Times and delays are whole milliseconds but for the jitter, which is kept as
-- an exact fraction; `none` stands for an unlimited number of attempts.
pub mod Close
pub mod Backoff
pub mod Attempts
pub mod Storm
pub mod Sharing
mod Tests
use lunibee.Base.{
  ℕ, suc, ◌+◌, ◌-◌, ◌*◌, ◌^◌, min, max, Bool, true, false, not, ◌&&◌, Option, none, some, List, [],
  ◌∷◌, ◌++◌, leb, ◌==◌, if◌then◌else◌, includes, is_some, length, Text,
}
use lunibee.Ws.CloseCodes
use lunibee.Ws.SlidingWindow.{drop_expired}

pub data CloseAction : Type 0 where
  resume identify stop : CloseAction

abbrev pub fatal_close_codes : List ℕ
fatal_close_codes =
    CloseCodes.authentication_failed ∷ CloseCodes.invalid_shard ∷ CloseCodes.sharding_required
    ∷ CloseCodes.invalid_api_version ∷ CloseCodes.invalid_intents ∷ CloseCodes.disallowed_intents
    ∷ []

abbrev pub identify_close_codes : List ℕ
identify_close_codes = CloseCodes.invalid_seq ∷ CloseCodes.session_timed_out ∷ []

unfoldable pub classify_close_code : ℕ → Bool → CloseAction
classify_close_code code can_resume =
    if includes code fatal_close_codes
    then stop
    else if includes code identify_close_codes
    then identify
    else if can_resume
    then resume
    else identify

-- A non-negative number of milliseconds, or a random number, that need not be whole.
pub record Fraction : Type 0 where
  pub num : ℕ
  pub den : ℕ

pub data ScheduleRefusal : Type 0 where
  disabled pending exhausted : ScheduleRefusal

-- `scheduled delayMs attempt unstable`, the last with the number of reconnects if it is set.
pub data ScheduleResult : Type 0 where
  scheduled : Fraction → ℕ → Option ℕ → ScheduleResult
  refused : ScheduleRefusal → ScheduleResult

pub record ReconnectOptions : Type 0 where
  pub enabled : Bool
  pub max_attempts : Option ℕ
  pub base_delay : ℕ
  pub max_delay : ℕ
  pub storm_limit : Option ℕ
  pub storm_window : Option ℕ

abbrev or_default : Option ℕ → ℕ → ℕ
or_default none d = d
or_default (some n) d = n

abbrev pub window_of : ReconnectOptions → ℕ
window_of o = or_default o.storm_window 60_000

abbrev pub limit_of : ReconnectOptions → ℕ
limit_of o = or_default o.storm_limit 5

-- The private fields. `timer` holds the delay that an armed reconnect was given. A promise is a
-- number; `settler` is the promise that `#resolve` and `#reject` belong to, and `settled` lists
-- the promises that were settled, each with its error.
pub record GatewayReconnect : Type 0 where
  pub options : ReconnectOptions
  pub attempt_count : ℕ
  pub recent : List ℕ
  pub timer : Option Fraction
  pub promise : Option ℕ
  pub settler : Option ℕ
  pub next_promise : ℕ
  pub settled : List (ℕ × Option Text)

unfoldable pub new_reconnect : ReconnectOptions → GatewayReconnect
new_reconnect options = record {
  options = options;
  attempt_count = 0;
  recent = [];
  timer = none;
  promise = none;
  settler = none;
  next_promise = 0;
  settled = [];
}

reached : Option ℕ → ℕ → Bool
reached none n = false
reached (some m) n = leb m n

unfoldable pub is_exhausted : GatewayReconnect → Bool
unfolding reached
is_exhausted r = reached r.options.max_attempts r.attempt_count

unfoldable pub can_reconnect : GatewayReconnect → Bool
can_reconnect r = r.options.enabled && not (is_exhausted r)

abbrev pub connecting : GatewayReconnect → Bool
connecting r = is_some r.promise

-- The wait before the jitter: `reconnects` counts those in the window before this one.
unfoldable pub base_wait : ReconnectOptions → ℕ → ℕ → ℕ
base_wait o attempt reconnects =
    let delay = min o.max_delay (o.base_delay * 2 ^ attempt) in
    if leb (limit_of o) reconnects
    then min o.max_delay (max delay (o.base_delay * 2 ^ (reconnects - limit_of o + 1)))
    else delay

-- `delay + random * Math.max(1, delay * 0.25)`
unfoldable pub with_jitter : ℕ → Fraction → Fraction
with_jitter delay random = record {
  num = 4 * random.den * delay + random.num * max 4 delay;
  den = 4 * random.den;
}

-- `schedule` past its three refusals.
unfoldable pub arm : GatewayReconnect → ℕ → Fraction → GatewayReconnect × ScheduleResult
arm r now random =
    let kept = drop_expired now (window_of r.options) r.recent in
    let delay_ms = with_jitter (base_wait r.options r.attempt_count (length kept)) random in
    (
      record r {
        attempt_count = r.attempt_count + 1;
        recent = kept ++ now ∷ [];
        timer = some delay_ms;
      },
      scheduled delay_ms r.attempt_count
          (if leb (limit_of r.options) (length kept) then some (length kept + 1) else none),
    )

unfoldable pub schedule : GatewayReconnect → ℕ → Fraction → GatewayReconnect × ScheduleResult
schedule r now random =
    if not r.options.enabled
    then (r, refused disabled)
    else if is_some r.timer
    then (r, refused pending)
    else if is_exhausted r
    then (r, refused exhausted)
    else arm r now random

-- The armed timer fires: it is cleared, and its `run` is called if it was armed.
unfoldable pub fire : GatewayReconnect → GatewayReconnect × Bool
fire r = (record r { timer = none }, is_some r.timer)

unfoldable pub cancel : GatewayReconnect → GatewayReconnect
cancel r = record r { timer = none }

unfoldable pub reset : GatewayReconnect → GatewayReconnect
reset r = record r { attempt_count = 0 }

log_settled : Option ℕ → Option Text → List (ℕ × Option Text) → List (ℕ × Option Text)
log_settled none error log = log
log_settled (some p) error log = log ++ (p, error) ∷ []

unfoldable pub settle : GatewayReconnect → Option Text → GatewayReconnect
unfolding log_settled
settle r error = record r {
  settled = log_settled r.settler error r.settled;
  settler = none;
  promise = none;
}

-- `start` is what the caller's function does to this object; it runs inside the promise's
-- executor, before `#promise` is assigned. The result is the promise, and whether `start` ran.
unfoldable pub attempt :
    GatewayReconnect → (GatewayReconnect → GatewayReconnect) → GatewayReconnect × ℕ × Bool
attempt r start = elim r.promise [
  | some p ↦ (r, p, false)
  | none ↦
      let id = r.next_promise in
      let started = start (record r { settler = some id; next_promise = id + 1 }) in
      (record started { promise = some id }, id, true)
]
