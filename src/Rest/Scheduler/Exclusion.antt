-- ===== src/Rest/Scheduler/Exclusion.antt =====
-- Without aborts, scheduler.ts runs one request per bucket key at a time.
use lunibee.Base.{
  ℕ, suc, ◌≤◌, ◌<◌, ◌≡◌, refl, sym, Bool, true, not, ◌&&◌, Option, none, some, List, [], ◌∷◌, ◌==◌,
  if◌then◌else◌, Text, text_eq, arith, Bool-cases, inl, inr, eq_of_text_eq, subst, All,
}
use lunibee.Rest.Scheduler.{Job, update_job, is_open}
use mathlib.Core.Option.{some-injective}

-- Every call for the key has released its gate.
abbrev pub all_released : Text → List (ℕ × Job) → Bool
all_released key [] = true
all_released key ((i, j) ∷ js) =
    let later = all_released key js in if text_eq j.key key then j.released && later else later

-- The last call for the key.
abbrev pub newest : Text → List (ℕ × Job) → Option ℕ
newest key [] = none
newest key ((i, j) ∷ js) = if text_eq j.key key then some i else newest key js

-- The calls for the key whose task holds the slot.
abbrev pub count_running : Text → List (ℕ × Job) → ℕ
count_running key [] = 0
count_running key ((i, j) ∷ js) =
    let later = count_running key js in
    if text_eq j.key key && j.started && not j.released then suc later else later

abbrev pub AllBelow : ℕ → List (ℕ × Job) → Type 0
AllBelow n = All (λ p. p.0 < n)

abbrev pub IsPrior : Text → Option ℕ → List (ℕ × Job) → Type 0
IsPrior key none js = all_released key js ≡ true
IsPrior key (some gate) js = newest key js ≡ some gate

-- A call waits for the last one before it, and starts after all of them have released.
abbrev pub Chain : List (ℕ × Job) → Type 0
Chain [] = Unit
Chain ((i, j) ∷ js) =
    AllBelow i js
    × IsPrior j.key j.previous js
    × (j.released ≡ true → j.started ≡ true)
    × (j.started ≡ true → all_released j.key js ≡ true)
    × Chain js

all_released-running :
    (key : Text) (js : List (ℕ × Job)) → all_released key js ≡ true → count_running key js ≡ 0
all_released-running key [] h = refl
all_released-running key ((i, j) ∷ js) h = ground (arith, all_released-running key js)

pub Chain-running : (key : Text) (js : List (ℕ × Job)) → Chain js → count_running key js ≤ 1
Chain-running key [] chain = omega arith
Chain-running key ((i, j) ∷ js) (below, prior, done, first, chain) =
    elim (Bool-cases (text_eq j.key key && j.started && not j.released)) [
      | inr e ↦ rw e (Chain-running key js chain)
      | inl e ↦
          let same : j.key ≡ key = eq_of_text_eq j.key key (ground (arith, e)) in
          let begun : j.started ≡ true = ground (arith, e) in
          let quiet : all_released key js ≡ true =
            subst (λ k. all_released k js ≡ true) same (first begun) in
          rw e (omega (arith, all_released-running key js quiet))
    ]

pub newest-below :
    (key : Text) (n gate : ℕ) (js : List (ℕ × Job))
    → AllBelow n js
    → newest key js ≡ some gate
    → gate < n
newest-below key n gate [] below h = absurd (ground arith)
newest-below key n gate ((i, j) ∷ js) (here, below) h = elim (Bool-cases (text_eq j.key key)) [
  | inl e ↦ omega (arith, here, some-injective _ _ (rw e at h))
  | inr e ↦ newest-below key n gate js below (rw e at h)
]

pub is_open-tail :
    (i gate : ℕ) (j : Job) (js : List (ℕ × Job))
    → gate < i
    → is_open ((i, j) ∷ js) gate ≡ true
    → is_open js gate ≡ true
unfolding is_open
is_open-tail i gate j js lt h = ground arith

is_open-released :
    (i : ℕ) (j : Job) (js : List (ℕ × Job)) → is_open ((i, j) ∷ js) i ≡ true → j.released ≡ true
unfolding is_open
is_open-released i j js h = ground arith

-- When the gate of the last call for a key is open, every call for it has released.
pub open_newest :
    (key : Text) (gate : ℕ) (js : List (ℕ × Job))
    → Chain js
    → newest key js ≡ some gate
    → is_open js gate ≡ true
    → all_released key js ≡ true
open_newest key gate [] chain h o = refl
open_newest key gate ((i, j) ∷ js) (below, prior, done, first, chain) h o =
    elim (Bool-cases (text_eq j.key key)) [
      | inl e ↦
          let is : i ≡ gate = some-injective _ _ (rw e at h) in
          let released : j.released ≡ true =
            is_open-released i j js (subst (λ g. is_open ((i, j) ∷ js) g ≡ true) (sym is) o) in
          let before : all_released key js ≡ true =
            subst (λ k. all_released k js ≡ true) (eq_of_text_eq j.key key e)
              (first (done released)) in
          ground (arith, e, released, before)
      | inr e ↦
          let there : newest key js ≡ some gate = rw e at h in
          rw e (
            open_newest key gate js chain there
              (is_open-tail i gate j js (newest-below key i gate js below there) o))
    ]

abbrev pub begin : Job → Job
begin j = record j { started = true }

abbrev pub end : Job → Job
end j = record j { released = true }

pub AllBelow-update :
    (n id : ℕ) (f : Job → Job) (js : List (ℕ × Job))
    → AllBelow n js
    → AllBelow n (update_job id f js)
AllBelow-update n id f [] below = tt
AllBelow-update n id f ((i, j) ∷ js) (here, below) = elim (Bool-cases (i == id)) [
  | inl e ↦ rw e (here, AllBelow-update n id f js below)
  | inr e ↦ rw e (here, AllBelow-update n id f js below)
]

pub newest-begin :
    (key : Text) (id : ℕ) (js : List (ℕ × Job))
    → newest key (update_job id begin js) ≡ newest key js
newest-begin key id [] = refl
newest-begin key id ((i, j) ∷ js) = ground (arith, newest-begin key id js)

pub newest-end :
    (key : Text) (id : ℕ) (js : List (ℕ × Job)) → newest key (update_job id end js) ≡ newest key js
newest-end key id [] = refl
newest-end key id ((i, j) ∷ js) = ground (arith, newest-end key id js)

pub all_released-begin :
    (key : Text) (id : ℕ) (js : List (ℕ × Job))
    → all_released key (update_job id begin js) ≡ all_released key js
all_released-begin key id [] = refl
all_released-begin key id ((i, j) ∷ js) = ground (arith, all_released-begin key id js)

pub all_released-end :
    (key : Text) (id : ℕ) (js : List (ℕ × Job))
    → all_released key js ≡ true
    → all_released key (update_job id end js) ≡ true
all_released-end key id [] h = refl
all_released-end key id ((i, j) ∷ js) h = ground (arith, all_released-end key id js)
