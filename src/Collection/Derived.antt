-- ===== src/Collection/Derived.antt =====
-- packages/collection/src/index.ts: the methods of `Collection` that read all of it or make a new one.
-- A collection is the list of the entries that its iterator gives, after the purge. A new one has no
-- policy, so its `set` is that of the map. A callback does not get the collection as an argument and
-- leaves it alone.
pub mod Algebra
pub mod Groups
use lunibee.Base.{
  ℕ, zero, suc, ◌+◌, ◌-◌, Bool, true, false, not, ◌&&◌, Option, none, some, List, [], ◌∷◌, ◌++◌,
  ◌==◌, ltb, leb, if◌then◌else◌, length, keep, is_some, map, ℤ, pos, negsuc,
}
use lunibee.Collection.Maps.{find, put, drop, has_key}

-- What a callback of `merge` decides.
pub data Keep {ℓ} (R : Type ℓ) : Type ℓ where
  keep_value : R → Keep R
  drop_value : Keep R

module _ {ℓ} {V : Type ℓ} where
  -- The loop that sets each entry of a collection.
  unfoldable pub set_entries : List (ℕ × V) → List (ℕ × V) → List (ℕ × V)
  set_entries result [] = result
  set_entries result ((key, value) ∷ xs) = set_entries (put key value result) xs

  unfoldable pub clone : List (ℕ × V) → List (ℕ × V)
  unfolding set_entries
  clone self = set_entries [] self

  unfoldable pub filter : (V → ℕ → Bool) → List (ℕ × V) → List (ℕ × V)
  unfolding set_entries
  filter predicate self = set_entries [] (keep (λ x. predicate x.1 x.0) self)

  unfoldable pub union : List (ℕ × V) → List (ℕ × V) → List (ℕ × V)
  unfolding clone set_entries
  union self other = set_entries (clone self) other

  unfoldable pub intersection : List (ℕ × V) → List (ℕ × V) → List (ℕ × V)
  unfolding set_entries
  intersection self other = set_entries [] (keep (λ x. has_key x.0 other) self)

  unfoldable pub difference : List (ℕ × V) → List (ℕ × V) → List (ℕ × V)
  unfolding set_entries
  difference self other = set_entries [] (keep (λ x. not (has_key x.0 other)) self)

  unfoldable pub symmetric_difference : List (ℕ × V) → List (ℕ × V) → List (ℕ × V)
  unfolding set_entries
  symmetric_difference self other =
      set_entries (set_entries [] (keep (λ x. not (has_key x.0 other)) self))
        (keep (λ x. not (has_key x.0 self)) other)

  abbrev concat_onto : List (ℕ × V) → List (List (ℕ × V)) → List (ℕ × V)
  concat_onto result [] = result
  concat_onto result (c ∷ collections) = concat_onto (set_entries result c) collections

  unfoldable pub concat : List (ℕ × V) → List (List (ℕ × V)) → List (ℕ × V)
  unfolding clone set_entries
  concat self collections = concat_onto (clone self) collections

  -- The loop of `partition`.
  unfoldable pub partition_onto :
      (V → ℕ → Bool) → List (ℕ × V) × List (ℕ × V) → List (ℕ × V) → List (ℕ × V) × List (ℕ × V)
  partition_onto predicate (pass, fail) [] = (pass, fail)
  partition_onto predicate (pass, fail) ((key, value) ∷ xs) =
      if predicate value key
      then partition_onto predicate (put key value pass, fail) xs
      else partition_onto predicate (pass, put key value fail) xs

  unfoldable pub partition : (V → ℕ → Bool) → List (ℕ × V) → List (ℕ × V) × List (ℕ × V)
  unfolding partition_onto
  partition predicate self = partition_onto predicate ([], []) self

  unfoldable pub find_value : (V → ℕ → Bool) → List (ℕ × V) → Option V
  find_value predicate [] = none
  find_value predicate ((key, value) ∷ xs) =
      let later = find_value predicate xs in if predicate value key then some value else later

  -- The loop of `findLast` runs from the last entry.
  unfoldable pub find_last : (V → ℕ → Bool) → List (ℕ × V) → Option V
  find_last predicate [] = none
  find_last predicate ((key, value) ∷ xs) =
      let later = find_last predicate xs in
      if is_some later then later else (if predicate value key then some value else none)

  unfoldable pub some_entry : (V → ℕ → Bool) → List (ℕ × V) → Bool
  some_entry predicate [] = false
  some_entry predicate ((key, value) ∷ xs) =
      let later = some_entry predicate xs in if predicate value key then true else later

  unfoldable pub every : (V → ℕ → Bool) → List (ℕ × V) → Bool
  every predicate [] = true
  every predicate ((key, value) ∷ xs) =
      let later = every predicate xs in if predicate value key then later else false

  unfoldable pub has_all : List (ℕ × V) → List ℕ → Bool
  has_all self [] = true
  has_all self (key ∷ keys) =
      let later = has_all self keys in if has_key key self then later else false

  unfoldable pub has_any : List (ℕ × V) → List ℕ → Bool
  has_any self [] = false
  has_any self (key ∷ keys) =
      let later = has_any self keys in if has_key key self then true else later

  -- The loop of `sweep`, without a time to live: the rest of the entries and the count.
  unfoldable pub sweep : (V → ℕ → Bool) → List (ℕ × V) → List (ℕ × V) → List (ℕ × V) × ℕ
  sweep predicate self [] = (self, 0)
  sweep predicate self ((key, value) ∷ xs) =
      let later = sweep predicate self xs in
      let (left, removed) = sweep predicate (drop key self) xs in
      if predicate value key && has_key key self then (left, removed + 1) else later

  -- The countdown over the values of `at`.
  abbrev pub nth : List (ℕ × V) → ℕ → Option (ℕ × V)
  nth [] i = none
  nth (x ∷ xs) zero = some x
  nth (x ∷ xs) (suc i) = nth xs i

  -- The entry of `at` and `keyAt`; `negsuc n` is the index -(n + 1).
  unfoldable pub entry_at : List (ℕ × V) → ℤ → Option (ℕ × V)
  entry_at self (pos i) = nth self i
  entry_at self (negsuc n) = if ltb n (length self) then nth self (length self - suc n) else none

  unfoldable pub to_reversed_onto : List (ℕ × V) → List (ℕ × V) → List (ℕ × V)
  to_reversed_onto result [] = result
  to_reversed_onto result ((key, value) ∷ xs) = put key value (to_reversed_onto result xs)

  unfoldable pub to_reversed : List (ℕ × V) → List (ℕ × V)
  unfolding to_reversed_onto
  to_reversed self = to_reversed_onto [] self

module _ {ℓ κ} {V : Type ℓ} {T : Type κ} where
  abbrev pub map_values_onto : (V → ℕ → T) → List (ℕ × T) → List (ℕ × V) → List (ℕ × T)
  map_values_onto transform result [] = result
  map_values_onto transform result ((key, value) ∷ xs) =
      map_values_onto transform (put key (transform value key) result) xs

  unfoldable pub map_values : (V → ℕ → T) → List (ℕ × V) → List (ℕ × T)
  map_values transform self = map_values_onto transform [] self

  unfoldable pub reduce : (T → V → ℕ → T) → List (ℕ × V) → T → T
  reduce fn [] acc = acc
  reduce fn ((key, value) ∷ xs) acc = reduce fn xs (fn acc value key)

  unfoldable pub reduce_right : (T → V → ℕ → T) → List (ℕ × V) → T → T
  reduce_right fn [] acc = acc
  reduce_right fn ((key, value) ∷ xs) acc = fn (reduce_right fn xs acc) value key

  unfoldable pub flat_map : (V → ℕ → List T) → List (ℕ × V) → List T
  flat_map transform [] = []
  flat_map transform ((key, value) ∷ xs) = transform value key ++ flat_map transform xs

-- `decide` of `merge`
abbrev pub decide {ℓ} : {R : Type ℓ} → List (ℕ × R) → ℕ → Keep R → List (ℕ × R)
decide result key (keep_value value) = put key value result
decide result key drop_value = result

module _ {V T R : Type 0} where
  -- What `merge` decides of an entry of the collection.
  abbrev pub decide_self : (V → ℕ → Keep R) → (V → T → ℕ → Keep R) → V → ℕ → Option T → Keep R
  decide_self when_in_self when_in_both value key none = when_in_self value key
  decide_self when_in_self when_in_both value key (some other) = when_in_both value other key

  unfoldable pub merge_self :
      (V → ℕ → Keep R)
      → (V → T → ℕ → Keep R)
      → List (ℕ × T)
      → List (ℕ × R)
      → List (ℕ × V)
      → List (ℕ × R)
  merge_self when_in_self when_in_both other result [] = result
  merge_self when_in_self when_in_both other result ((key, value) ∷ xs) =
      let kept = decide_self when_in_self when_in_both value key (find key other) in
      merge_self when_in_self when_in_both other (decide result key kept) xs

  unfoldable pub merge_other :
      (T → ℕ → Keep R) → List (ℕ × V) → List (ℕ × R) → List (ℕ × T) → List (ℕ × R)
  merge_other when_in_other self result [] = result
  merge_other when_in_other self result ((key, value) ∷ xs) =
      let kept = decide result key (when_in_other value key) in
      merge_other when_in_other self (if has_key key self then result else kept) xs

  unfoldable pub merge :
      List (ℕ × V)
      → List (ℕ × T)
      → (V → ℕ → Keep R)
      → (T → ℕ → Keep R)
      → (V → T → ℕ → Keep R)
      → List (ℕ × R)
  unfolding merge_self merge_other
  merge self other when_in_self when_in_other when_in_both =
      merge_other when_in_other self (merge_self when_in_self when_in_both other [] self) other

module _ {V : Type 0} where
  -- `groups.ensure(key, () => []).push(item)`
  abbrev pub push_group : ℕ → V → Option (List V) → List (ℕ × List V) → List (ℕ × List V)
  push_group key item none groups = put key (item ∷ []) groups
  push_group key item (some group) groups = put key (group ++ item ∷ []) groups

  unfoldable pub group_onto : (V → ℕ → ℕ) → List (ℕ × List V) → ℕ → List V → List (ℕ × List V)
  group_onto key_selector groups index [] = groups
  group_onto key_selector groups index (item ∷ items) =
      let key = key_selector item index in
      group_onto key_selector (push_group key item (find key groups) groups) (index + 1) items

  unfoldable pub group_by : (V → ℕ → ℕ) → List V → List (ℕ × List V)
  unfolding group_onto
  group_by key_selector items = group_onto key_selector [] 0 items

  abbrev pub combine_one : (V → V → ℕ → V) → V → ℕ → Option V → V
  combine_one combine value key none = value
  combine_one combine value key (some first) = combine first value key

  unfoldable pub combine_onto : (V → V → ℕ → V) → List (ℕ × V) → List (ℕ × V) → List (ℕ × V)
  combine_onto combine result [] = result
  combine_onto combine result ((key, value) ∷ xs) =
      combine_onto combine (put key (combine_one combine value key (find key result)) result) xs

  unfoldable pub combine_entries : (V → V → ℕ → V) → List (ℕ × V) → List (ℕ × V)
  unfolding combine_onto
  combine_entries combine entries = combine_onto combine [] entries
