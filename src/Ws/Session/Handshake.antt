-- ===== src/Ws/Session/Handshake.antt =====
-- What the next connection of session.ts sends: RESUME, or IDENTIFY.
use lunibee.Base.{◌≡◌, ◌↔◌, false, some, List, [], ◌∷◌, arith, All}
use lunibee.Ws.Session.{
  GatewaySession, no_session, established, ResumeInfo, resume, identify, InvalidationReason,
  can_resume, handshake, invalidate, Number,
}
use lunibee.Ws.Session.Ownership.{Call, begins, records, activates, invalidates, step, run}

handshake-resume_to :
    (s : GatewaySession) (info : ResumeInfo)
    → handshake s ≡ resume info
    → (s.state ≡ established info.session_id info.resume_url) × (s.sequence ≡ some info.sequence)
unfolding handshake
handshake-resume_to s info h = ground arith

handshake-resume_from :
    (s : GatewaySession) (info : ResumeInfo)
    → (s.state ≡ established info.session_id info.resume_url) × (s.sequence ≡ some info.sequence)
    → handshake s ≡ resume info
unfolding handshake
handshake-resume_from s info h = ground arith

-- The next connection resumes with given material exactly when a session with that identifier and
-- host is established and the sequence has been seen, and it identifies exactly when `can_resume`
-- is false.
pub handshake_iff :
    (s : GatewaySession)
    → ((info : ResumeInfo)
        → (handshake s ≡ resume info) ↔ (
            (s.state ≡ established info.session_id info.resume_url)
            × (s.sequence ≡ some info.sequence)))
      × ((handshake s ≡ identify) ↔ (can_resume s ≡ false))
unfolding handshake can_resume
handshake_iff s = (
  λ info. (handshake-resume_to s info, handshake-resume_from s info),
  (λ h. ground arith, λ h. ground arith),
)

abbrev pub IsActivation : Call → Type 0
IsActivation (activates payload token) = Unit {0}
IsActivation _ = ⊥

step-no_session :
    (s : GatewaySession) (c : Call)
    → s.state ≡ no_session
    → ¬ IsActivation c
    → (step s c).state ≡ no_session
unfolding step
step-no_session s begins h a = h
step-no_session s (records (Number.integer n) token) h a = ground arith
step-no_session s (records Number.not_integer token) h a = ground arith
step-no_session s (activates payload token) h a = absurd (a tt)
step-no_session s (invalidates token reason) h a = ground arith

run-no_session :
    (s : GatewaySession) (cs : List Call)
    → s.state ≡ no_session
    → All (λ c. ¬ IsActivation c) cs
    → (run s cs).state ≡ no_session
unfolding run
run-no_session s [] h a = h
run-no_session s (c ∷ cs) h (a, as') = run-no_session (step s c) cs (step-no_session s c h a) as'

-- After its owner discards the session, the next connection identifies, whatever sequences arrive
-- and however many connections begin, until a READY is activated; the reason is kept.
pub invalidated_identifies :
    (s : GatewaySession) (reason : InvalidationReason) (cs : List Call)
    → All (λ c. ¬ IsActivation c) cs
    → ((invalidate s s.generation reason).0.last_invalidation ≡ some reason)
      × (handshake (run (invalidate s s.generation reason).0 cs) ≡ identify)
unfolding handshake invalidate
invalidated_identifies s reason cs h =
    let t = (invalidate s s.generation reason).0 in
    (ground arith, ground (arith, run-no_session t cs (ground arith) h))
