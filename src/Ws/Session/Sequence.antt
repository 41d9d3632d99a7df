-- ===== src/Ws/Session/Sequence.antt =====
-- The sequence number that `GatewaySession` of session.ts keeps for a RESUME.
use lunibee.Base.{
  ℕ, ◌≡◌, subst, Option, none, some, List, [], ◌∷◌, arith, ℤ, ◌≤ℤ◌, ◌==◌, if◌then◌else◌, All,
}
use lunibee.Ws.Session.{GatewaySession, Number, Payload, integer, record_sequence, activate}
use lunibee.Ws.Session.Ownership.{
  Call, begins, records, activates, invalidates, step, run, next_generation, step-generation,
}

-- No sequence lies below every sequence.
abbrev pub IsUpTo : Option ℤ → Option ℤ → Type 0
IsUpTo none n = Unit {0}
IsUpTo (some m) none = ⊥
IsUpTo (some m) (some n) = m ≤ℤ n

IsUpTo-refl : (n : Option ℤ) → IsUpTo n n
IsUpTo-refl none = tt
IsUpTo-refl (some n) = omega arith

IsUpTo-trans : (m n k : Option ℤ) → IsUpTo m n → IsUpTo n k → IsUpTo m k
IsUpTo-trans none n k p q = tt
IsUpTo-trans (some m) none k p q = absurd p
IsUpTo-trans (some m) (some n) none p q = absurd q
IsUpTo-trans (some m) (some n) (some k) p q = omega arith

record_sequence-IsUpTo :
    (s : GatewaySession) (n : Number) (token : ℕ)
    → IsUpTo s.sequence (record_sequence s n token).0.sequence
unfolding record_sequence
record_sequence-IsUpTo s (integer n) token = ground (arith, IsUpTo-refl s.sequence)
record_sequence-IsUpTo s Number.not_integer token = ground (arith, IsUpTo-refl s.sequence)

activate-sequence :
    (s : GatewaySession) (payload : Payload) (token : ℕ)
    → (activate s payload token).0.sequence ≡ s.sequence
unfolding activate
activate-sequence s payload token = ground arith

abbrev pub IsInvalidation : Call → Type 0
IsInvalidation (invalidates token reason) = Unit {0}
IsInvalidation _ = ⊥

step-IsUpTo :
    (s : GatewaySession) (c : Call) → ¬ IsInvalidation c → IsUpTo s.sequence (step s c).sequence
unfolding step
step-IsUpTo s begins h = IsUpTo-refl s.sequence
step-IsUpTo s (records n token) h = record_sequence-IsUpTo s n token
step-IsUpTo s (activates payload token) h =
    rw (activate-sequence s payload token) (IsUpTo-refl s.sequence)
step-IsUpTo s (invalidates token reason) h = absurd (h tt)

-- The sequence of a call that owns the session and carries an integer.
unfoldable pub offered : ℕ → Call → Option ℤ
offered g (records (integer n) token) = if token == g then some n else none
offered g _ = none

-- The sequences offered by a history's owned calls.
abbrev pub AllOffered : (ℤ → Type 0) → ℕ → List Call → Type 0
AllOffered P g [] = Unit {0}
AllOffered P g (c ∷ cs) =
    ((n : ℤ) → offered g c ≡ some n → P n) × AllOffered P (next_generation g c) cs

step-offered :
    (s : GatewaySession) (c : Call) (n : ℤ)
    → offered s.generation c ≡ some n
    → IsUpTo (some n) (step s c).sequence
unfolding step offered
step-offered s (records (integer m) token) n h = ground arith
step-offered s _ n h = cc

-- Over a history without an invalidation the stored sequence never moves back: at the end it is
-- at least the one at the start, and at least every integer that an owning socket offered.
pub run-sequence_newest :
    (s : GatewaySession) (cs : List Call)
    → All (λ c. ¬ IsInvalidation c) cs
    → IsUpTo s.sequence (run s cs).sequence
      × AllOffered (λ n. IsUpTo (some n) (run s cs).sequence) s.generation cs
unfolding run
run-sequence_newest s [] h = (IsUpTo-refl s.sequence, tt)
run-sequence_newest s (c ∷ cs) (keeps, h) =
    let (up, offers) = run-sequence_newest (step s c) cs h in
    let final = (run (step s c) cs).sequence in
    (
      IsUpTo-trans s.sequence (step s c).sequence final (step-IsUpTo s c keeps) up,
      (
        λ n e. IsUpTo-trans (some n) (step s c).sequence final (step-offered s c n e) up,
        subst (λ g. AllOffered (λ n. IsUpTo (some n) final) g cs) (step-generation s c) offers,
      ),
    )
