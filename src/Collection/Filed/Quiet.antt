-- ===== src/Collection/Filed/Quiet.antt =====
-- What the timer and the heap of a `Policy` of packages/collection/src/index.ts may change: nothing
-- of the entries but where they are filed.
use lunibee.Base.{
  ℕ, ◌≡◌, refl, ◌∙◌, ap, sym, Option, none, some, List, [], ◌==◌, if◌then◌else◌, Bool-cases, by_if,
  inl, inr, arith, true,
}
use lunibee.Collection.Maps.{find, put}
use lunibee.Collection.Maps.Laws.{find-put}
use lunibee.Collection.Policy.{Entry, Policy, promote, is_newest}

-- An entry but for its identity and where it is filed.
abbrev pub face : {V : Type 0} → Entry V → Entry V
face e = record e { filed = 0; id = 0 }

abbrev pub faces : {V : Type 0} → Option (Entry V) → Option (Entry V)
faces none = none
faces (some e) = some (face e)

-- A policy but for its entries, its heap, its timer and the next identity.
abbrev pub rest : {V : Type 0} → Policy V → Policy V
rest p = record p { entries = []; heap = []; timer = none; armed_for = none; next_id = 0 }

pub record Quiet {V : Type 0} (p q : Policy V) : Type 0 where
  pub looks : (k : ℕ) → faces (find k q.entries) ≡ faces (find k p.entries)
  pub others : rest q ≡ rest p

module _ {V : Type 0} where
  pub Quiet-refl : (p : Policy V) → Quiet p p
  Quiet-refl p = record { looks = λ k. refl; others = refl }

  pub Quiet-trans : {p q r : Policy V} → Quiet p q → Quiet q r → Quiet p r
  Quiet-trans f g = record { looks = λ k. g.looks k ∙ f.looks k; others = g.others ∙ f.others }

  pub put-faces :
      (E : List (ℕ × Entry V)) (e e' : Entry V)
      → find e.key E ≡ some e
      → e'.key ≡ e.key
      → face e' ≡ face e
      → (k : ℕ) → faces (find k (put e'.key e' E)) ≡ faces (find k E)
  put-faces E e e' there key same k = elim (Bool-cases (k == e'.key)) [
    | inl here ↦
        let same_key : k ≡ e.key = ground arith in
        let written : find k (put e'.key e' E) ≡ some e' = ground (arith, find-put e'.key k e' E) in
        let before : find k E ≡ some e = ap (λ j. find j E) same_key ∙ there in
        ap faces written ∙ (ap some same ∙ sym (ap faces before))
    | inr other ↦ rw (find-put e'.key k e' E, other) refl
  ]

-- What an entry says of its value and its expiry.
abbrev pub gist : {V : Type 0} → Option (Entry V) → Option (V × ℕ × ℕ)
gist none = none
gist (some e) = some (e.value, e.window, e.deadline)

pub gist-faces : {V : Type 0} (o : Option (Entry V)) → gist (faces o) ≡ gist o
gist-faces none = refl
gist-faces (some e) = refl

module _ {V : Type 0} where
  pub gist-Quiet :
      (p q : Policy V) → Quiet p q → (k : ℕ) → gist (find k q.entries) ≡ gist (find k p.entries)
  gist-Quiet p q quiet k =
      sym (gist-faces (find k q.entries))
      ∙ (ap gist (quiet.looks k) ∙ gist-faces (find k p.entries))

  pub gist-put :
      (E : List (ℕ × Entry V)) (e : Entry V) (k : ℕ)
      → gist (find k (put e.key e E))
        ≡ (if k == e.key then some (e.value, e.window, e.deadline) else gist (find k E))
  gist-put E e k = elim (Bool-cases (k == e.key)) [
    | inl here ↦ rw (find-put e.key k e E, here) refl
    | inr other ↦ rw (find-put e.key k e E, other) refl
  ]

  -- A write to an entry that leaves what it says.
  pub gist-write :
      (E : List (ℕ × Entry V)) (e e' : Entry V)
      → find e.key E ≡ some e
      → e'.key ≡ e.key
      → gist (some e') ≡ gist (some e)
      → (k : ℕ) → gist (find k (put e'.key e' E)) ≡ gist (find k E)
  gist-write E e e' there key same k = elim (Bool-cases (k == e'.key)) [
    | inl here ↦
        let same_key : k ≡ e.key = ground (arith, key) in
        rw (find-put e'.key k e' E, here)
          (same ∙ ap gist (sym (ap (λ j. find j E) same_key ∙ there)))
    | inr other ↦ rw (find-put e'.key k e' E, other) refl
  ]

  -- A move in the recency order leaves what the entries say.
  pub gist-promote :
      (p : Policy V) (e : Entry V)
      → find e.key p.entries ≡ some e
      → (k : ℕ) → gist (find k (promote p e).entries) ≡ gist (find k p.entries)
  unfolding promote
  gist-promote p e there k =
      let same = λ (q : Policy V). gist (find k q.entries) ≡ gist (find k p.entries) in
      by_if same (is_newest e.key p.recency) (λ _. refl)
        (λ _.
          by_if same e.in_lru (λ _. refl)
            (λ _. gist-write p.entries e (record e { in_lru = true }) there refl refl k))
