-- ===== src/Rest/Scheduler/Queues.antt =====
-- What the calls of scheduler.ts do to the queues of the keys.
use lunibee.Base.{
  ℕ, ◌+◌, ◌≡◌, refl, sym, ap, ◌∙◌, true, false, Option, none, some, List, [], ◌∷◌, if◌then◌else◌,
  Text, text_eq, arith, Bool-cases, inl, inr, eq_of_text_eq, false≢true, subst, ==_iff,
}
use lunibee.Rest.Scheduler.{
  Job, RequestScheduler, lookup, delete, store, find_job, update_job, is_gate,
}
use lunibee.Rest.Scheduler.Exclusion.{all_released, AllBelow, IsPrior, Chain, end}
use lunibee.Rest.Scheduler.Steps.{IsPrior-end, last-end}

lookup-delete_other :
    (key other : Text) (xs : List (Text × ℕ))
    → text_eq other key ≡ false
    → lookup key (delete other xs) ≡ lookup key xs
lookup-delete_other key other [] h = refl
lookup-delete_other key other ((k, n) ∷ xs) h = elim (Bool-cases (text_eq k other)) [
  | inl e ↦
      let same : text_eq k key ≡ false =
        subst (λ x. text_eq x key ≡ false) (sym (eq_of_text_eq k other e)) h in
      rw (e, same) (lookup-delete_other key other xs h)
  | inr e ↦ ground (arith, e, lookup-delete_other key other xs h)
]

lookup-delete_same : (key : Text) (xs : List (Text × ℕ)) → lookup key (delete key xs) ≡ none
lookup-delete_same key [] = refl
lookup-delete_same key ((k, n) ∷ xs) = ground (arith, lookup-delete_same key xs)

pub AllBelow-later : (n : ℕ) (js : List (ℕ × Job)) → AllBelow n js → AllBelow (n + 1) js
AllBelow-later n [] below = tt
AllBelow-later n ((i, j) ∷ js) (here, below) = (omega (arith, here), AllBelow-later n js below)

-- The queues after a call for a key.
pub IsPrior-push :
    (key k : Text) (n : ℕ) (j : Job) (queues : List (Text × ℕ)) (js : List (ℕ × Job))
    → j.key ≡ key
    → IsPrior k (lookup k queues) js
    → IsPrior k (lookup k (store key n queues)) ((n, j) ∷ js)
IsPrior-push key k n j queues js is prior = elim (Bool-cases (text_eq key k)) [
  | inl e ↦ let mine : text_eq j.key k ≡ true = ap (λ x. text_eq x k) is ∙ e in rw (e, mine) refl
  | inr e ↦
      let mine : text_eq j.key k ≡ false = ap (λ x. text_eq x k) is ∙ e in
      rw (e, lookup-delete_other k key queues e) (passed (lookup k queues) mine prior)
]
  where
    passed : (o : Option ℕ) → text_eq j.key k ≡ false → IsPrior k o js → IsPrior k o ((n, j) ∷ js)
    passed none mine h = rw mine h
    passed (some gate) mine h = rw mine h

-- The queues after the release of a gate.
pub released_queues-IsPrior :
    (s : RequestScheduler) (id : ℕ) (j : Job) (k : Text)
    → Chain s.jobs
    → ((key : Text) → IsPrior key (lookup key s.queues) s.jobs)
    → find_job id s.jobs ≡ some j
    → j.started ≡ true
    → IsPrior k
        (lookup k (if is_gate (lookup j.key s.queues) id then delete j.key s.queues else s.queues))
        (update_job id end s.jobs)
released_queues-IsPrior s id j k chain priors found begun =
    elim (Bool-cases (is_gate (lookup j.key s.queues) id)) [
      | inr g ↦ rw g (IsPrior-end k id (lookup k s.queues) s.jobs (priors k))
      | inl g ↦ rw g (elim (Bool-cases (text_eq j.key k)) [
        | inr e ↦
            rw (lookup-delete_other k j.key s.queues e)
              (IsPrior-end k id (lookup k s.queues) s.jobs (priors k))
        | inl e ↦
            let same : j.key ≡ k = eq_of_text_eq j.key k e in
            subst (λ x. IsPrior x (lookup x (delete j.key s.queues)) (update_job id end s.jobs))
              same
              (rw (lookup-delete_same j.key s.queues)
                (last_gate (lookup j.key s.queues) g (priors j.key)))
      ])
    ]
  where
    last_gate :
        (o : Option ℕ)
        → is_gate o id ≡ true
        → IsPrior j.key o s.jobs
        → all_released j.key (update_job id end s.jobs) ≡ true
    last_gate none g h = absurd (false≢true g)
    last_gate (some gate) g h =
        last-end j.key id j s.jobs chain (h ∙ ap some ((==_iff gate id).0 g)) found begun
