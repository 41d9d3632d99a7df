-- ===== src/Rest/Scheduler/Steps.antt =====
-- Starting and ending a task of scheduler.ts keeps the calls in order.
use lunibee.Base.{
  false, ap, ==_iff, ◌∙◌, ℕ, ◌≤◌, ◌<◌, ◌≡◌, refl, sym, true, Option, none, some, List, [], ◌∷◌,
  ◌==◌, Text, text_eq, arith, Bool-cases, inl, inr, eq_of_text_eq, subst,
}
use lunibee.Rest.Scheduler.{find_job, Job, update_job, is_open}
use mathlib.Core.Option.{some-injective}
use lunibee.Rest.Scheduler.Exclusion.{
  all_released, newest, AllBelow, IsPrior, Chain, newest-below, is_open-tail, open_newest, begin,
  end, AllBelow-update, newest-begin, newest-end, all_released-begin, all_released-end,
}

update-absent :
    (n id : ℕ) (f : Job → Job) (js : List (ℕ × Job))
    → AllBelow n js
    → n ≤ id
    → update_job id f js ≡ js
update-absent n id f [] below le = refl
update-absent n id f ((i, j) ∷ js) (here, below) le =
    ground (arith, here, le, update-absent n id f js below le)

-- A call waits for an older one.
prior-below :
    (n id gate : ℕ) (j : Job) (js : List (ℕ × Job))
    → AllBelow n js
    → Chain js
    → find_job id js ≡ some j
    → j.previous ≡ some gate
    → gate < n
prior-below n id gate j [] below chain h p = absurd (ground arith)
prior-below n id gate j ((i, k) ∷ js) (here, below) (under, prior, done, first, chain) h p =
    elim (Bool-cases (i == id)) [
      | inl e ↦
          let same : k ≡ j = some-injective _ _ (rw e at h) in
          let before : newest k.key js ≡ some gate =
            subst (λ o. IsPrior k.key o js) (ap (λ x. x.previous) same ∙ p) prior in
          omega (arith, here, newest-below k.key i gate js under before)
      | inr e ↦ prior-below n id gate j js below chain (rw e at h) p
    ]

-- The wait of a call is over.
abbrev pub IsReady : List (ℕ × Job) → Option ℕ → Type 0
IsReady js none = Unit
IsReady js (some gate) = is_open js gate ≡ true

ready-all_released :
    (i : ℕ) (j : Job) (js : List (ℕ × Job)) (previous : Option ℕ)
    → AllBelow i js
    → Chain js
    → IsPrior j.key previous js
    → IsReady ((i, j) ∷ js) previous
    → all_released j.key js ≡ true
ready-all_released i j js none below chain prior ready = prior
ready-all_released i j js (some gate) below chain prior ready =
    open_newest j.key gate js chain prior
      (is_open-tail i gate j js (newest-below j.key i gate js below prior) ready)

pub IsPrior-begin :
    (key : Text) (id : ℕ) (o : Option ℕ) (js : List (ℕ × Job))
    → IsPrior key o js
    → IsPrior key o (update_job id begin js)
IsPrior-begin key id none js h = all_released-begin key id js ∙ h
IsPrior-begin key id (some gate) js h = newest-begin key id js ∙ h

pub IsPrior-end :
    (key : Text) (id : ℕ) (o : Option ℕ) (js : List (ℕ × Job))
    → IsPrior key o js
    → IsPrior key o (update_job id end js)
IsPrior-end key id none js h = all_released-end key id js h
IsPrior-end key id (some gate) js h = newest-end key id js ∙ h

IsReady-tail :
    (i id : ℕ) (k j : Job) (js : List (ℕ × Job)) (previous : Option ℕ)
    → AllBelow i js
    → Chain js
    → find_job id js ≡ some j
    → j.previous ≡ previous
    → IsReady ((i, k) ∷ js) previous
    → IsReady js previous
IsReady-tail i id k j js none below chain h p ready = tt
IsReady-tail i id k j js (some gate) below chain h p ready =
    is_open-tail i gate k js (prior-below i id gate j js below chain h p) ready

pub Chain-begin :
    (id : ℕ) (j : Job) (js : List (ℕ × Job))
    → Chain js
    → find_job id js ≡ some j
    → IsReady js j.previous
    → Chain (update_job id begin js)
Chain-begin id j [] chain h ready = tt
Chain-begin id j ((i, k) ∷ js) (below, prior, done, first, chain) h ready =
    elim (Bool-cases (i == id)) [
      | inl e ↦
          let same : k ≡ j = some-injective _ _ (rw e at h) in
          let quiet =
            ready-all_released i k js k.previous below chain prior
              (subst (IsReady ((i, k) ∷ js)) (ap (λ x. x.previous) (sym same)) ready) in
          rw (e, update-absent i id begin js below (ground (arith, e)))
            (below, prior, λ r. refl, λ b. quiet, chain)
      | inr e ↦ rw e (
        AllBelow-update i id begin js below,
        IsPrior-begin k.key id k.previous js prior,
        done,
        λ b. all_released-begin k.key id js ∙ first b,
        Chain-begin id j js chain (rw e at h)
            (IsReady-tail i id k j js j.previous below chain (rw e at h) refl ready),
      )
    ]

pub Chain-end :
    (id : ℕ) (j : Job) (js : List (ℕ × Job))
    → Chain js
    → find_job id js ≡ some j
    → j.started ≡ true
    → Chain (update_job id end js)
Chain-end id j [] chain h begun = tt
Chain-end id j ((i, k) ∷ js) (below, prior, done, first, chain) h begun =
    elim (Bool-cases (i == id)) [
      | inl e ↦
          let same : k ≡ j = some-injective _ _ (rw e at h) in
          rw (e, update-absent i id end js below (ground (arith, e)))
            (below, prior, λ r. ap (λ x. x.started) same ∙ begun, first, chain)
      | inr e ↦ rw e (
        AllBelow-update i id end js below,
        IsPrior-end k.key id k.previous js prior,
        done,
        λ b. all_released-end k.key id js (first b),
        Chain-end id j js chain (rw e at h) begun,
      )
    ]

-- When the last call for a key ends its task, every call for it has released.
pub last-end :
    (key : Text) (id : ℕ) (j : Job) (js : List (ℕ × Job))
    → Chain js
    → newest key js ≡ some id
    → find_job id js ≡ some j
    → j.started ≡ true
    → all_released key (update_job id end js) ≡ true
last-end key id j [] chain n h begun = refl
last-end key id j ((i, k) ∷ js) (below, prior, done, first, chain) n h begun =
    elim (Bool-cases (text_eq k.key key)) [
      | inl e ↦
          let is : i ≡ id = some-injective _ _ (rw e at n) in
          let is_id : (i == id) ≡ true = (==_iff i id).1 is in
          let same : k ≡ j = some-injective _ _ (rw is_id at h) in
          let before : all_released key js ≡ true =
            subst (λ x. all_released x js ≡ true) (eq_of_text_eq k.key key e)
              (first (ap (λ x. x.started) same ∙ begun)) in
          rw (is_id, e) (all_released-end key id js before)
      | inr e ↦
          let there : newest key js ≡ some id = rw e at n in
          let other : (i == id) ≡ false = ground (arith, newest-below key i id js below there) in
          rw (other, e) (last-end key id j js chain there (rw other at h) begun)
    ]
