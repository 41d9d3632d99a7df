-- ===== src/Ws/SendBudget.antt =====
-- packages/ws/src/send-budget.ts: `GatewaySendLimiter`, and `#dispatch` of
-- packages/ws/src/index.ts, which asks it and records what went out.
pub mod Refinement
mod Tests
use lunibee.Base.{ℕ, Bool, true, false, ◌||◌, List, [], ◌∷◌, ◌++◌, ltb, if◌then◌else◌, length}
use lunibee.Ws.SlidingWindow.{drop_expired}

pub record GatewaySendLimiter : Type 0 where
  pub timestamps : List ℕ
  pub limit : ℕ
  pub window_ms : ℕ

unfoldable pub new_limiter : ℕ → ℕ → GatewaySendLimiter
new_limiter limit window_ms = record { timestamps = []; limit = limit; window_ms = window_ms }

-- The defaults of the constructor.
abbrev pub default_limit : ℕ
default_limit = 115

abbrev pub default_window_ms : ℕ
default_window_ms = 60_000

abbrev pub used : GatewaySendLimiter → ℕ
used l = length l.timestamps

unfoldable pub allows : GatewaySendLimiter → Bool → ℕ → GatewaySendLimiter × Bool
allows l privileged now =
    let kept = drop_expired now l.window_ms l.timestamps in
    (record l { timestamps = kept }, privileged || ltb (length kept) l.limit)

unfoldable pub record_send : GatewaySendLimiter → ℕ → GatewaySendLimiter
record_send l now = record l { timestamps = l.timestamps ++ now ∷ [] }

-- One call of `#dispatch`, with what the transport answers: whether it is connected, and whether
-- its `send` writes the payload.
pub record Attempt : Type 0 where
  pub now : ℕ
  pub privileged : Bool
  pub connected : Bool
  pub written : Bool

-- The part of `#dispatch` after the budget was asked.
send_allowed : GatewaySendLimiter → Bool → Attempt → GatewaySendLimiter × Bool
send_allowed l false a = (l, false)
send_allowed l true a = if a.written then (record_send l a.now, true) else (l, false)

unfoldable pub dispatch : GatewaySendLimiter → Attempt → GatewaySendLimiter × Bool
unfolding send_allowed
dispatch l a =
    let (asked, allowed) = allows l a.privileged a.now in
    if a.connected then send_allowed asked allowed a else (l, false)
