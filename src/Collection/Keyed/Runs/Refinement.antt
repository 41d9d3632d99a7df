-- ===== src/Collection/Keyed/Runs/Refinement.antt =====
-- The steps of a history of packages/collection/src/index.ts, beside those of the map with lifetimes.
use mathlib.Core.Path.{fun_ext}
use lunibee.Base.{
  ℕ, ◌+◌, ◌≡◌, refl, ap, sym, subst, Option, none, some, List, [], ◌∷◌, false, Bool-cases, inl, inr,
  arith,
}
use lunibee.Collection.Policy.{Policy}
use lunibee.Collection.Policy.Options.{Options}
use lunibee.Collection.Store.{Collection, is_refused}
use lunibee.Collection.Keyed.{set}
use lunibee.Collection.Keyed.Meaning.{IsSound, meaning}
use lunibee.Collection.Keyed.Reading.{peek-Rebinds, has-Rebinds, delete-Rebinds}
use lunibee.Collection.Keyed.Writing.{slides, get-Reads}
use lunibee.Collection.Keyed.Setting.{
  set_checked-Sets, set_without_ttl-Rebinds, purge-Purges, clear-IsSound, ring-Purges, has_cap_by,
}
use lunibee.Collection.Keyed.Timer.{IsSound-later}
use lunibee.Collection.Keyed.Settings.{
  settings, window_by-settings, window_of-accepted, get-Keeps, peek-Keeps, has-Keeps, delete-Keeps,
  set_checked-Keeps, set_without_ttl-Keeps, purge-Keeps, clear-Keeps, ring-Keeps,
}
use lunibee.Collection.Keyed.Runs.{
  Call, set_call, set_without_ttl_call, get_call, peek_call, has_call, delete_call, clear_call,
  purge_call, timer_call, Answer, found, flag, step, run, replay, replay_step, TimedMap,
}

-- The collection is sound, it means `m`, and its options are `o`.
abbrev pub Means : {V : Type 0} → Options → TimedMap V → ℕ → Collection V → Type 0
Means o m now c = IsSound c now × (meaning c ≡ m) × (settings c.policy ≡ o)

abbrev pub StepsAs :
    {V : Type 0} → Options → ℕ → Collection V × Answer V → TimedMap V × Answer V → Type 0
StepsAs o now r q = Means o q.0 now r.0 × (r.1 ≡ q.1)

slides-settings :
    {V : Type 0} (policy : Option (Policy V)) → slides policy ≡ (settings policy).slide
slides-settings none = refl
slides-settings (some p) = refl

has_cap-settings :
    {V : Type 0} (policy : Option (Policy V))
    → (settings policy).max_size ≡ none
    → has_cap_by policy ≡ false
has_cap-settings none uncapped = refl
has_cap-settings (some p) uncapped = ground (arith, uncapped)

module _ {V : Type 0} (c : Collection V) (now : ℕ) (s : IsSound c now)
    (uncapped : (settings c.policy).max_size ≡ none)
    (ready : is_refused (settings c.policy).ttl ≡ false) where
  set-StepsAs :
      (roll key : ℕ) (value : V) (ttl : Option ℕ)
      → StepsAs
          (settings c.policy)
          now
          (step c now (set_call roll key value ttl))
          (replay_step (settings c.policy) (meaning c) now (set_call roll key value ttl))
  unfolding step replay_step set
  set-StepsAs roll key value ttl = elim (Bool-cases (is_refused ttl)) [
    | inl refused ↦ rw refused ((s, refl, refl), refl)
    | inr accepted ↦
        let o = settings c.policy in
        let same = window_by-settings c.policy roll ttl in
        let fits = window_of-accepted o roll ttl accepted ready in
        let (sound, part, exact) = set_checked-Sets c now roll key value ttl s (rw same fits) in
        rw accepted (
          (
            sound,
            fun_ext (λ j. rw same at (exact (has_cap-settings c.policy uncapped) j)),
            set_checked-Keeps o c now key refl roll value ttl,
          ),
          refl,
        )
  ]

  get-StepsAs :
      (key : ℕ)
      → StepsAs
          (settings c.policy)
          now
          (step c now (get_call key))
          (replay_step (settings c.policy) (meaning c) now (get_call key))
  unfolding step replay_step
  get-StepsAs key =
      let ((sound, binds), value) = get-Reads c now key s in
      (
        (
          sound,
          fun_ext (λ j. rw (slides-settings c.policy) at (binds j)),
          get-Keeps (settings c.policy) c now key refl,
        ),
        ap found value,
      )

  step-StepsAs :
      (call : Call V)
      → StepsAs
          (settings c.policy)
          now
          (step c now call)
          (replay_step (settings c.policy) (meaning c) now call)
  unfolding step replay_step
  step-StepsAs (set_call roll key value ttl) = set-StepsAs roll key value ttl
  step-StepsAs (set_without_ttl_call key value) =
      let (sound, binds) = set_without_ttl-Rebinds c now key value s in
      ((sound, fun_ext binds, set_without_ttl-Keeps (settings c.policy) c now key refl value), refl)
  step-StepsAs (get_call key) = get-StepsAs key
  step-StepsAs (peek_call key) =
      let ((sound, binds), value) = peek-Rebinds c now key s in
      ((sound, fun_ext binds, peek-Keeps (settings c.policy) c now key refl), ap found value)
  step-StepsAs (has_call key) =
      let ((sound, binds), value) = has-Rebinds c now key s in
      ((sound, fun_ext binds, has-Keeps (settings c.policy) c now key refl), ap flag value)
  step-StepsAs (delete_call key) =
      let ((sound, binds), value) = delete-Rebinds c now key s in
      ((sound, fun_ext binds, delete-Keeps (settings c.policy) c now key refl), ap flag value)
  step-StepsAs clear_call =
      let (sound, binds) = clear-IsSound c now in
      ((sound, fun_ext binds, clear-Keeps (settings c.policy) c now 0 refl), refl)
  step-StepsAs purge_call =
      let (sound, binds) = purge-Purges c now s in
      ((sound, fun_ext binds, purge-Keeps (settings c.policy) c now 0 refl), refl)
  step-StepsAs timer_call =
      let (sound, binds) = ring-Purges c now s in
      ((sound, fun_ext binds, ring-Keeps (settings c.policy) c now 0 refl), refl)

step_refines :
    {V : Type 0} (o : Options) (c : Collection V) (m : TimedMap V) (now : ℕ) (call : Call V)
    → o.max_size ≡ none
    → is_refused o.ttl ≡ false
    → Means o m now c
    → StepsAs o now (step c now call) (replay_step o m now call)
step_refines o c m now call uncapped ready (sound, same, kept) =
    let at_c =
      step-StepsAs c now sound (subst (λ (p : Options). p.max_size ≡ none) (sym kept) uncapped)
        (subst (λ (p : Options). is_refused p.ttl ≡ false) (sym kept) ready) call in
    subst (λ p. StepsAs p now (step c now call) (replay_step p m now call)) kept
      (subst
        (λ n.
          StepsAs (settings c.policy) now (step c now call)
            (replay_step (settings c.policy) n now call))
        same at_c)

ap2 : {A : Type 0} {x y : A} {xs ys : List A} → x ≡ y → xs ≡ ys → x ∷ xs ≡ y ∷ ys
ap2 head tail = cc

-- A history of a collection that means `m` answers as the map with lifetimes `m` does, and ends in a
-- collection that means what the map has become. Its options hold a lifetime that is positive if
-- there is one, and no cap.
pub run_refines :
    {V : Type 0} (o : Options) (calls : List (ℕ × Call V)) (c : Collection V) (m : TimedMap V)
    (now : ℕ)
    → o.max_size ≡ none
    → is_refused o.ttl ≡ false
    → Means o m now c
    → (meaning (run c now calls).0 ≡ (replay o m now calls).0)
      × ((run c now calls).1 ≡ (replay o m now calls).1)
unfolding run replay
run_refines o [] c m now uncapped ready (sound, same, kept) = (same, refl)
run_refines o ((delay, call) ∷ calls) c m now uncapped ready (sound, same, kept) =
    let later = now + delay in
    let (means, answer) =
      step_refines o c m later call uncapped ready
        (IsSound-later c c.policy now later (omega arith) sound, same, kept) in
    let r = step c later call in
    let q = replay_step o m later call in
    let (ends, answers) = run_refines o calls r.0 q.0 later uncapped ready means in
    (ends, ap2 answer answers)
