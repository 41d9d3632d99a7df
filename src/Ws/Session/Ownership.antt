-- ===== src/Ws/Session/Ownership.antt =====
-- Generations: what a superseded socket can do to the session of session.ts.
use lunibee.Base.{
  ℕ, ◌+◌, ◌≤◌, ◌≡◌, refl, Bool, true, false, inl, inr, List, [], ◌∷◌, arith, ◌==◌, if◌then◌else◌,
  Bool-cases,
}
use lunibee.Ws.Session.{
  GatewaySession, Number, Payload, InvalidationReason, begin_connection, owns, record_sequence,
  activate, invalidate,
}

-- A call of one of the methods that change the session.
pub data Call : Type 0 where
  begins : Call
  records : Number → ℕ → Call
  activates : Payload → ℕ → Call
  invalidates : ℕ → InvalidationReason → Call

unfoldable pub step : GatewaySession → Call → GatewaySession
unfolding begin_connection record_sequence activate invalidate
step s begins = (begin_connection s).0
step s (records n token) = (record_sequence s n token).0
step s (activates payload token) = (activate s payload token).0
step s (invalidates token reason) = (invalidate s token reason).0

unfoldable pub run : GatewaySession → List Call → GatewaySession
run s [] = s
run s (c ∷ cs) = run (step s c) cs

-- Whether the call presents the current generation; `begin_connection` presents none.
unfoldable pub is_owned : ℕ → Call → Bool
is_owned g begins = true
is_owned g (records n token) = token == g
is_owned g (activates payload token) = token == g
is_owned g (invalidates token reason) = token == g

unfoldable pub next_generation : ℕ → Call → ℕ
next_generation g begins = g + 1
next_generation g _ = g

-- The calls of a history that own the session when they are made.
unfoldable pub owned_calls : ℕ → List Call → List Call
owned_calls g [] = []
owned_calls g (c ∷ cs) =
    let rest = owned_calls (next_generation g c) cs in if is_owned g c then c ∷ rest else rest

record_sequence-generation :
    (s : GatewaySession) (n : Number) (token : ℕ)
    → (record_sequence s n token).0.generation ≡ s.generation
unfolding record_sequence
record_sequence-generation s (Number.integer n) token = ground arith
record_sequence-generation s Number.not_integer token = ground arith

activate-generation :
    (s : GatewaySession) (payload : Payload) (token : ℕ)
    → (activate s payload token).0.generation ≡ s.generation
unfolding activate
activate-generation s payload token = ground arith

pub step-generation :
    (s : GatewaySession) (c : Call) → (step s c).generation ≡ next_generation s.generation c
unfolding step next_generation
step-generation s begins = refl
step-generation s (records n token) = record_sequence-generation s n token
step-generation s (activates payload token) = activate-generation s payload token
step-generation s (invalidates token reason) = ground arith

generation-step-le : (s : GatewaySession) (c : Call) → s.generation ≤ (step s c).generation
unfolding next_generation
generation-step-le s begins = omega (arith, step-generation s begins)
generation-step-le s c = omega (arith, step-generation s c)

pub step_unowned : (s : GatewaySession) (c : Call) → is_owned s.generation c ≡ false → step s c ≡ s
unfolding step is_owned
step_unowned s begins h = cc
step_unowned s (records n token) h = ground arith
step_unowned s (activates payload token) h = ground arith
step_unowned s (invalidates token reason) h = ground arith

-- Running a history gives the same session as running only its calls that own the session: calls
-- of superseded sockets, wherever they fall in the history, change nothing.
pub run-owned_calls :
    (s : GatewaySession) (cs : List Call) → run s cs ≡ run s (owned_calls s.generation cs)
unfolding run owned_calls
run-owned_calls s [] = refl
run-owned_calls s (c ∷ cs) = elim (Bool-cases (is_owned s.generation c)) [
  | inl e ↦ rw (e, ← step-generation s c) (run-owned_calls (step s c) cs)
  | inr e ↦ rw (e, ← step-generation s c, step_unowned s c e) (run-owned_calls s cs)
]

generation-run-le : (s : GatewaySession) (cs : List Call) → s.generation ≤ (run s cs).generation
unfolding run
generation-run-le s [] = omega arith
generation-run-le s (c ∷ cs) =
    omega (arith, generation-run-le (step s c) cs, generation-step-le s c)

-- Once a new connection has begun, a token given out before it never owns the session again,
-- whatever calls follow.
pub superseded_forever :
    (s : GatewaySession) (cs : List Call) (token : ℕ)
    → token ≤ s.generation
    → owns (run (begin_connection s).0 cs) token ≡ false
unfolding begin_connection
superseded_forever s cs token h = ground (arith, generation-run-le (begin_connection s).0 cs)
