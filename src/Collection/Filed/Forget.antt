-- ===== src/Collection/Filed/Forget.antt =====
-- `#forget` of packages/collection/src/index.ts: what is left of a `Policy`.
use lunibee.Base.{
  ℕ, ◌≡◌, refl, ap, ◌∙◌, sym, subst, Option, none, some, List, ◌∷◌, ◌==◌, false, if◌then◌else◌,
  Bool-cases, by_if, inl, inr, arith,
}
use lunibee.Collection.Maps.{find, put, drop}
use lunibee.Collection.Maps.Laws.{find-put, find-drop, put-IsMap}
use lunibee.Collection.Heap.{Filing}
use lunibee.Collection.Policy.{Entry, Policy, unlink, forget, forget_found, pop_top}
use lunibee.Collection.Filed.{drop-IsFiled}
use lunibee.Collection.Filed.Moves.{rewrite-IsFiled}
use lunibee.Collection.Filed.Settle.{IsPolicyFiled, pop_top-IsFiled, alarm_of}

module _ {V : Type 0} (p : Policy V) where
  forget_found-IsPolicyFiled :
      (key : ℕ) (found : Option (Entry V))
      → IsPolicyFiled p
      → find key p.entries ≡ found
      → IsPolicyFiled (forget_found p key found)
  unfolding forget_found unlink
  forget_found-IsPolicyFiled key none w there = w
  forget_found-IsPolicyFiled key (some e) w there =
      let here : find e.key p.entries ≡ some e =
        ap (λ k. find k p.entries) (w.keyed key e there) ∙ there in
      let unlinked =
        rewrite-IsFiled p.entries p.heap p.next_id w e (record e { in_lru = false }) here refl
          (ground arith) (w.early e.key e here) in
      by_if (λ (q : Policy V). IsPolicyFiled (record q { entries = drop key q.entries })) e.in_lru
        (λ _. drop-IsFiled _ _ _ unlinked key) (λ _. drop-IsFiled _ _ _ w key)

  pub forget-IsPolicyFiled : (key : ℕ) → IsPolicyFiled p → IsPolicyFiled (forget p key)
  unfolding forget
  forget-IsPolicyFiled key w = forget_found-IsPolicyFiled key (find key p.entries) w refl

  find-forget_found :
      (key k : ℕ) (found : Option (Entry V))
      → IsPolicyFiled p
      → find key p.entries ≡ found
      → find k (forget_found p key found).entries ≡ (if k == key then none else find k p.entries)
  unfolding forget_found unlink
  find-forget_found key k none w there = ground (arith, there)
  find-forget_found key k (some e) w there =
      let same : e.key ≡ key = w.keyed key e there in
      let e' = record e { in_lru = false } in
      let maps = put-IsMap e.key e' p.entries w.maps in
      by_if
        (λ (q : Policy V).
          find k (drop key q.entries) ≡ (if k == key then none else find k p.entries))
        e.in_lru
        (λ _.
          ground
            (arith, find-drop key k (put e.key e' p.entries) maps, find-put e.key k e' p.entries))
        (λ _. find-drop key k p.entries w.maps)

  -- The other entries stay as they are.
  pub find-forget :
      (key k : ℕ)
      → IsPolicyFiled p
      → find k (forget p key).entries ≡ (if k == key then none else find k p.entries)
  unfolding forget
  find-forget key k w = find-forget_found key k (find key p.entries) w refl

  forget_found-pop :
      (key : ℕ) (found : Option (Entry V))
      → forget_found (pop_top p) key found ≡ pop_top (forget_found p key found)
  unfolding forget_found unlink
  forget_found-pop key none = refl
  forget_found-pop key (some e) = elim (Bool-cases e.in_lru) [
    | inl linked ↦ rw linked refl
    | inr loose ↦ rw loose refl
  ]

  pub forget-pop : (key : ℕ) → forget (pop_top p) key ≡ pop_top (forget p key)
  unfolding forget
  forget-pop key = forget_found-pop key (find key p.entries)

  forget_found-heap :
      (key : ℕ) (found : Option (Entry V)) → (forget_found p key found).heap ≡ p.heap
  unfolding forget_found unlink
  forget_found-heap key none = refl
  forget_found-heap key (some e) =
      by_if (λ (q : Policy V). q.heap ≡ p.heap) e.in_lru (λ _. refl) (λ _. refl)

  pub heap-forget : (key : ℕ) → (forget p key).heap ≡ p.heap
  unfolding forget
  heap-forget key = forget_found-heap key (find key p.entries)

module _ {V : Type 0} (p : Policy V) where
  alarm-forget_found :
      (key : ℕ) (found : Option (Entry V)) → alarm_of (forget_found p key found) ≡ alarm_of p
  unfolding forget_found unlink
  alarm-forget_found key none = refl
  alarm-forget_found key (some e) =
      by_if (λ (q : Policy V). alarm_of q ≡ alarm_of p) e.in_lru (λ _. refl) (λ _. refl)

  pub alarm-forget : (key : ℕ) → alarm_of (forget p key) ≡ alarm_of p
  unfolding forget
  alarm-forget key = alarm-forget_found key (find key p.entries)

-- The due record at the top goes, with its entry.
pub pop_due-IsPolicyFiled :
    {V : Type 0} (p : Policy V) (x : Filing) (h : List Filing)
    → IsPolicyFiled p
    → p.heap ≡ x ∷ h
    → IsPolicyFiled (forget (pop_top p) x.key)
pop_due-IsPolicyFiled p x h w heap =
    let q = forget p x.key in
    let gone = find-forget p x.key x.key w in
    subst IsPolicyFiled (sym (forget-pop p x.key)) (
      pop_top-IsFiled q (forget-IsPolicyFiled p x.key w) x h (heap-forget p x.key ∙ heap)
        (ground (arith, gone)))
