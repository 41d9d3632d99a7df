-- ===== src/Ws/Reconnect/Close.antt =====
-- `classifyCloseCode` of reconnect.ts.
use lunibee.Base.{
  ℕ, ◌≡◌, refl, ◌↔◌, inl, inr, Bool, true, false, includes, includes_iff, IsAmong, Bool-cases,
  false≢true, sym, ◌∙◌, if◌then◌else◌,
}
use lunibee.Ws.Reconnect.{
  resume, identify, stop, fatal_close_codes, identify_close_codes, classify_close_code,
}

keep_or_identify :
    {P Q : Type 0} (can_resume : Bool)
    → ¬ P
    → ¬ Q
    → (((if can_resume then resume else identify) ≡ stop) ↔ P)
      × (((if can_resume then resume else identify) ≡ resume)
          ↔ ((can_resume ≡ true) × (¬ P) × (¬ Q)))
keep_or_identify true p q = ((λ h. cc, λ a. absurd (p a)), (λ h. (refl, p, q), λ h. refl))
keep_or_identify false p q = ((λ h. cc, λ a. absurd (p a)), (λ h. cc, λ (c, h, k). cc))

-- The Gateway stops exactly at the six fatal codes, resumes exactly when the code is neither fatal
-- nor one that destroys the session and the session can be resumed, and identifies otherwise.
pub classify_close_code_iff :
    (code : ℕ) (can_resume : Bool)
    → ((classify_close_code code can_resume ≡ stop) ↔ IsAmong code fatal_close_codes)
      × ((classify_close_code code can_resume ≡ resume) ↔ (
          (can_resume ≡ true)
          × (¬ IsAmong code fatal_close_codes)
          × (¬ IsAmong code identify_close_codes)))
unfolding classify_close_code
classify_close_code_iff code can_resume =
    let fatal = includes_iff code fatal_close_codes in
    let lost = includes_iff code identify_close_codes in
    elim (Bool-cases (includes code fatal_close_codes)) [
      | inl f ↦ rw f ((λ h. fatal.0 f, λ h. refl), (λ h. cc, λ (c, h, k). absurd (h (fatal.0 f))))
      | inr f ↦
          let stops : ¬ IsAmong code fatal_close_codes = λ a. false≢true (sym f ∙ fatal.1 a) in
          rw f (elim (Bool-cases (includes code identify_close_codes)) [
            | inl g ↦
                rw g
                  ((λ h. cc, λ a. absurd (stops a)), (λ h. cc, λ (c, h, k). absurd (k (lost.0 g))))
            | inr g ↦
                let keeps : ¬ IsAmong code identify_close_codes =
                  λ a. false≢true (sym g ∙ lost.1 a) in
                rw g (keep_or_identify can_resume stops keeps)
          ])
    ]
