-- ===== src/Collection/Derived/Groups.antt =====
-- How `groupBy` and `merge` of packages/collection/src/index.ts read.
use lunibee.Base.{
  ℕ, ◌+◌, ◌≡◌, refl, subst, ap, ◌∙◌, sym, Bool, true, false, Option, none, some, List, [], ◌∷◌,
  ◌++◌, ◌==◌, ==_self, if◌then◌else◌, Bool-cases, by_if, inl, inr, arith,
}
use mathlib.Core.List.{append_assoc, append-nil}
use lunibee.Collection.Maps.{find, has_key}
use lunibee.Collection.Maps.Laws.{IsMap, find-put, eq_of_==}
use lunibee.Collection.Derived.Algebra.{find_absent}
use lunibee.Collection.Derived.{
  group_by, group_onto, push_group, merge, merge_self, merge_other, decide, decide_self, Keep,
  keep_value, drop_value,
}

module _ {V : Type 0} (key_selector : V → ℕ → ℕ) where
  -- The items, from `index` on, whose key is `k`, in their order.
  unfoldable pub items_of : ℕ → ℕ → List V → List V
  items_of k index [] = []
  items_of k index (item ∷ items) =
      let later = items_of k (index + 1) items in
      if key_selector item index == k then item ∷ later else later

  -- A group that is there, with more items.
  abbrev grown : Option (List V) → List V → Option (List V)
  grown none [] = none
  grown none (item ∷ items) = some (item ∷ items)
  grown (some group) items = some (group ++ items)

  grown_nil : (o : Option (List V)) → grown o [] ≡ o
  grown_nil none = refl
  grown_nil (some group) = ap some (append-nil group)

  pushed :
      (k key : ℕ) (item : V) (items : List V) (groups : List (ℕ × List V)) (found : Option (List V))
      → find key groups ≡ found
      → grown (find k (push_group key item found groups)) items
        ≡ grown (find k groups) (if key == k then item ∷ items else items)
  pushed k key item items groups none there = elim (Bool-cases (key == k)) [
    | inl here ↦
        let again : (k == key) ≡ true = ground arith in
        rw (here, find-put key k (item ∷ []) groups, again, sym (eq_of_== key k here), there) refl
    | inr other ↦
        let apart : (k == key) ≡ false = ground arith in
        rw (other, find-put key k (item ∷ []) groups, apart) refl
  ]
  pushed k key item items groups (some group) there = elim (Bool-cases (key == k)) [
    | inl here ↦
        let again : (k == key) ≡ true = ground arith in
        rw
          (
            here,
            find-put key k (group ++ item ∷ []) groups,
            again,
            sym (eq_of_== key k here),
            there,
          )
          (ap some (append_assoc group (item ∷ []) items))
    | inr other ↦
        let apart : (k == key) ≡ false = ground arith in
        rw (other, find-put key k (group ++ item ∷ []) groups, apart) refl
  ]

  grown_push :
      (k key : ℕ) (item : V) (items : List V) (groups : List (ℕ × List V))
      → grown (find k (push_group key item (find key groups) groups)) items
        ≡ grown (find k groups) (if key == k then item ∷ items else items)
  grown_push k key item items groups = pushed k key item items groups (find key groups) refl

  find-group_onto :
      (k index : ℕ) (groups : List (ℕ × List V)) (items : List V)
      → find k (group_onto key_selector groups index items)
        ≡ grown (find k groups) (items_of k index items)
  unfolding group_onto items_of
  find-group_onto k index groups [] = sym (grown_nil (find k groups))
  find-group_onto k index groups (item ∷ items) =
      let key = key_selector item index in
      find-group_onto k (index + 1) (push_group key item (find key groups) groups) items
      ∙ grown_push k key item (items_of k (index + 1) items) groups

  abbrev pub group_or_none : List V → Option (List V)
  group_or_none [] = none
  group_or_none (item ∷ items) = some (item ∷ items)

  grown_none : (items : List V) → grown none items ≡ group_or_none items
  grown_none [] = refl
  grown_none (item ∷ items) = refl

  -- `groupBy` binds a key to the items that the selector gives it, in their order, and to nothing if
  -- there is none.
  pub find-group_by :
      (k : ℕ) (items : List V)
      → find k (group_by key_selector items) ≡ group_or_none (items_of k 0 items)
  unfolding group_by
  find-group_by k items = find-group_onto k 0 [] items ∙ grown_none (items_of k 0 items)

-- What a decision leaves of a key.
abbrev pub settled : {R : Type 0} → Keep R → Option R → Option R
settled (keep_value r) before = some r
settled drop_value before = before

by_choice :
    {R : Type 0} (k : ℕ) (r s : List (ℕ × R)) (o : Option R) (b : Bool)
    → find k s ≡ o
    → find k (if b then r else s) ≡ (if b then find k r else o)
by_choice k r s o true same = refl
by_choice k r s o false same = same

module _ {V T R : Type 0} (when_in_self : V → ℕ → Keep R) (when_in_other : T → ℕ → Keep R)
    (when_in_both : V → T → ℕ → Keep R) where
  find-decide :
      (k key : ℕ) (result : List (ℕ × R)) (kept : Keep R)
      → find k (decide result key kept)
        ≡ (if k == key then settled kept (find k result) else find k result)
  find-decide k key result (keep_value r) = find-put key k r result
  find-decide k key result drop_value =
      by_if (λ o. find k result ≡ o) (k == key) (λ _. refl) (λ _. refl)

  abbrev self_then : ℕ → List (ℕ × T) → Option V → Option R → Option R
  self_then k other none before = before
  self_then k other (some v) before =
      settled (decide_self when_in_self when_in_both v k (find k other)) before

  find-merge_self :
      (k : ℕ) (other : List (ℕ × T)) (result : List (ℕ × R)) (xs : List (ℕ × V))
      → IsMap xs
      → find k (merge_self when_in_self when_in_both other result xs)
        ≡ self_then k other (find k xs) (find k result)
  unfolding merge_self
  find-merge_self k other result [] maps = refl
  find-merge_self k other result ((key, v) ∷ xs) (fresh, maps) =
      let kept = decide_self when_in_self when_in_both v key (find key other) in
      let later = find-merge_self k other (decide result key kept) xs maps in
      elim (Bool-cases (key == k)) [
        | inl here ↦
            let same = eq_of_== key k here in
            let gone : find k xs ≡ none = find_absent k xs (rw⁻¹ same fresh) in
            let again : (k == key) ≡ true = ground arith in
            rw here (
              later
              ∙ rw (gone, find-decide k key result kept, again)
                  (ap
                    (λ j.
                      settled (decide_self when_in_self when_in_both v j (find j other))
                        (find k result))
                    same))
        | inr apart ↦
            let off : (k == key) ≡ false = ground arith in
            rw apart (later ∙ rw (find-decide k key result kept, off) refl)
      ]

  abbrev other_then : ℕ → List (ℕ × V) → Option T → Option R → Option R
  other_then k self none before = before
  other_then k self (some t) before =
      if has_key k self then before else settled (when_in_other t k) before

  decided :
      (k key : ℕ) (t : T) (self : List (ℕ × V)) (result : List (ℕ × R))
      → key ≡ k
      → find k (if has_key key self then result else decide result key (when_in_other t key))
        ≡ other_then k self (some t) (find k result)
  decided k key t self result same =
      subst
        (λ (j : ℕ).
          find k (if has_key j self then result else decide result j (when_in_other t j))
          ≡ other_then k self (some t) (find k result))
        (sym same)
        (by_choice k result (decide result k (when_in_other t k))
          (settled (when_in_other t k) (find k result)) (has_key k self)
          (find-decide k k result (when_in_other t k) ∙ rw (==_self k) refl))

  undecided :
      (k key : ℕ) (t : T) (self : List (ℕ × V)) (result : List (ℕ × R))
      → (key == k) ≡ false
      → find k (if has_key key self then result else decide result key (when_in_other t key))
        ≡ find k result
  undecided k key t self result apart =
      let off : (k == key) ≡ false = ground arith in
      by_if (λ (r : List (ℕ × R)). find k r ≡ find k result) (has_key key self) (λ _. refl)
        (λ _. find-decide k key result (when_in_other t key) ∙ rw off refl)

  find-merge_other :
      (k : ℕ) (self : List (ℕ × V)) (result : List (ℕ × R)) (xs : List (ℕ × T))
      → IsMap xs
      → find k (merge_other when_in_other self result xs)
        ≡ other_then k self (find k xs) (find k result)
  unfolding merge_other
  find-merge_other k self result [] maps = refl
  find-merge_other k self result ((key, t) ∷ xs) (fresh, maps) =
      let kept = decide result key (when_in_other t key) in
      let next = if has_key key self then result else kept in
      let later = find-merge_other k self next xs maps in
      elim (Bool-cases (key == k)) [
        | inl here ↦
            let same = eq_of_== key k here in
            let gone : find k xs ≡ none = find_absent k xs (rw⁻¹ same fresh) in
            rw here (later ∙ rw gone (decided k key t self result same))
        | inr apart ↦
            rw apart
              (later ∙ ap (other_then k self (find k xs)) (undecided k key t self result apart))
      ]

  -- What `merge` makes of the values of a key in the two collections.
  abbrev pub merged : ℕ → Option V → Option T → Option R
  merged k none none = none
  merged k (some v) none = settled (when_in_self v k) none
  merged k none (some t) = settled (when_in_other t k) none
  merged k (some v) (some t) = settled (when_in_both v t k) none

  meets :
      (k : ℕ) (self : List (ℕ × V)) (other : List (ℕ × T)) (a : Option V) (b : Option T)
      → find k self ≡ a
      → find k other ≡ b
      → other_then k self b (self_then k other a none) ≡ merged k a b
  meets k self other none none at_a at_b = refl
  meets k self other (some v) none at_a at_b = rw at_b refl
  meets k self other none (some t) at_a at_b = rw at_a refl
  meets k self other (some v) (some t) at_a at_b = rw (at_a, at_b) refl

  -- `merge` asks of each key of either collection the callback for where it is, and binds it to the
  -- value that is kept; a key that is dropped or in neither collection is not bound.
  pub find-merge :
      (k : ℕ) (self : List (ℕ × V)) (other : List (ℕ × T))
      → IsMap self
      → IsMap other
      → find k (merge self other when_in_self when_in_other when_in_both)
        ≡ merged k (find k self) (find k other)
  unfolding merge
  find-merge k self other here there =
      let first = merge_self when_in_self when_in_both other [] self in
      find-merge_other k self first other there
      ∙ (ap (other_then k self (find k other)) (find-merge_self k other [] self here)
          ∙ meets k self other (find k self) (find k other) refl refl)
