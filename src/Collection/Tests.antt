-- ===== src/Collection/Tests.antt =====
-- Runs of the code of packages/collection/src/index.ts on concrete collections.
use lunibee.Base.{
  ap, ◌∙◌, ℕ, ◌+◌, ◌≡◌, refl, Option, none, some, List, [], ◌∷◌, false, if◌then◌else◌, arith, ltb,
}
use lunibee.Collection.Maps.{find}
use lunibee.Collection.Heap.{write, at, rise, Filing, heap_push, heap_pop}
use lunibee.Collection.Heap.Order.{IsHeap}
use lunibee.Collection.Heap.Up.{heap_push-IsHeap}
use lunibee.Collection.Heap.Count.{count, IsHeap-laws, Pops}
use lunibee.Collection.Policy.{next_deadline, Policy}
use lunibee.Collection.Filed.Settle.{IsPolicyFiled, next_deadline-Settles, Settles}
use lunibee.Collection.Store.{is_refused, Collection, CollectionOptions, no_options, new_policy}
use lunibee.Collection.Keyed.{set_checked, purge}
use lunibee.Collection.Store.Writes.{lifetime_from}
use lunibee.Collection.Keyed.Meaning.{IsSoundBy, IsSound, meaning}
use lunibee.Collection.Keyed.Setting.{
  new_policy-IsSoundAt, set_checked-Rebinds, purge-Purges, Purges, window_by, has_cap_by,
}
use lunibee.Collection.Keyed.Timer.{IsSound-later}
use lunibee.Collection.Keyed.Runs.{
  Call, set_call, get_call, peek_call, has_call, timer_call, replay_step, done, found, flag, run,
  replay,
}
use lunibee.Collection.Keyed.Runs.Fresh.{new_run_refines, options_of}
use lunibee.Collection.Keyed.{new_collection}
use lunibee.Collection.Derived.{
  union, intersection, difference, symmetric_difference, merge, Keep, keep_value, drop_value,
  group_by,
}
use lunibee.Collection.Derived.Algebra.{set_algebra}
use lunibee.Collection.Derived.Groups.{find-merge, find-group_by, items_of}

-- Entries live for 10 ms.
abbrev ten : CollectionOptions
ten = record no_options { ttl = some 10 }

abbrev calls : List (ℕ × Call ℕ)
calls =
    (0, set_call 0 1 100 none)
    ∷ (4, set_call 0 2 200 (some 3))
    ∷ (5, get_call 1)
    ∷ (0, has_call 2)
    ∷ (9, peek_call 1)
    ∷ (1, timer_call)
    ∷ (0, get_call 1)
    ∷ []

new_run_refines_example :
    (c : Collection ℕ) × (new_collection [] ten 0 ≡ some c)
    × (meaning (run c 0 calls).0 ≡ (replay (options_of ten) (λ _. none) 0 calls).0)
    × ((run c 0 calls).1 ≡ (replay (options_of ten) (λ _. none) 0 calls).1)
new_run_refines_example = new_run_refines ten 0 calls refl refl

answers :
    (replay (options_of ten) (λ _. none) 0 calls).1
    ≡ done ∷ done ∷ found (some 100) ∷ flag false ∷ found (some 100) ∷ done ∷ found none ∷ []
unfolding replay replay_step
answers = refl

abbrev bare_ten : Collection ℕ
bare_ten = record { items = []; policy = some (new_policy ten); hits = 0; misses = 0 }

bare_ten-IsSound : IsSound bare_ten 0
bare_ten-IsSound = new_policy-IsSoundAt [] ten 0 tt

-- Key 1 is bound to 100 from time 0 on.
abbrev one : Collection ℕ
one = set_checked bare_ten 0 0 1 100 none

accepted : is_refused (window_by bare_ten.policy 0 none) ≡ false
unfolding new_policy
accepted = refl

uncapped : has_cap_by bare_ten.policy ≡ false
unfolding new_policy
uncapped = refl

window_ten : window_by bare_ten.policy 0 none ≡ some 10
unfolding new_policy
window_ten = refl

one-IsSound : IsSound one 0
one-IsSound = (set_checked-Rebinds bare_ten 0 0 1 100 none bare_ten-IsSound accepted uncapped).0

one-bound : meaning one 1 ≡ some (100, some (10, 10))
one-bound =
    (set_checked-Rebinds bare_ten 0 0 1 100 none bare_ten-IsSound accepted uncapped).1 1
    ∙ ap (λ w. some (100, lifetime_from 0 w)) window_ten

purge-Purges_example : Purges one 12 (purge one 12).0
purge-Purges_example =
    purge-Purges one 12 (IsSound-later one one.policy 0 12 (omega arith) one-IsSound)

-- A record, filed at 3.
abbrev at_three : Filing
at_three = record { key = 1; id = 0; filed = 3 }

-- A record, filed at 7.
abbrev at_seven : Filing
at_seven = record { key = 2; id = 1; filed = 7 }

-- A record, filed at 5.
abbrev at_five : Filing
at_five = record { key = 3; id = 2; filed = 5 }

two-IsHeap : IsHeap (at_three ∷ at_seven ∷ [])
unfolding heap_push rise at write
two-IsHeap =
    heap_push-IsHeap (at_three ∷ []) at_seven
      (λ c above below. absurd (omega (arith, above, below)))

IsHeap-laws_example :
    IsHeap (heap_push (at_three ∷ at_seven ∷ []) at_five)
    × (count at_seven (heap_push (at_three ∷ at_seven ∷ []) at_five)
        ≡ count at_seven (at_three ∷ at_seven ∷ []) + 0)
    × IsHeap (heap_pop (at_three ∷ at_seven ∷ []))
    × Pops at_seven (at_three ∷ at_seven ∷ [])
IsHeap-laws_example = IsHeap-laws at_seven at_five (at_three ∷ at_seven ∷ []) two-IsHeap

abbrev policy_or : {V : Type 0} → Policy V → Option (Policy V) → Policy V
policy_or other none = other
policy_or other (some p) = p

policy_or-IsFiled :
    {V : Type 0} (items : List (ℕ × V)) (other : Policy V) (policy : Option (Policy V)) (now : ℕ)
    → IsPolicyFiled other
    → IsSoundBy items policy now
    → IsPolicyFiled (policy_or other policy)
policy_or-IsFiled items other none now w s = w
policy_or-IsFiled items other (some p) now w s = s.0.filed

-- The policy of `one`, which has one record in its heap.
abbrev filled : Policy ℕ
filled = policy_or (new_policy ten) one.policy

next_deadline-Settles_example : Settles filled (next_deadline filled)
next_deadline-Settles_example =
    next_deadline-Settles filled (
      policy_or-IsFiled one.items (new_policy ten) one.policy 0 bare_ten-IsSound.0.filed
        one-IsSound)

abbrev two_keys : List (ℕ × ℕ)
two_keys = (1, 10) ∷ (2, 20) ∷ []

abbrev other_keys : List (ℕ × ℕ)
other_keys = (2, 21) ∷ (3, 30) ∷ []

set_algebra_example :
    (find 2 (union two_keys other_keys) ≡ some 21)
    × (find 2 (intersection two_keys other_keys) ≡ some 20)
    × (find 2 (difference two_keys other_keys) ≡ none)
    × (find 2 (symmetric_difference two_keys other_keys) ≡ none)
set_algebra_example = set_algebra two_keys other_keys (refl, (refl, tt)) (refl, (refl, tt)) 2

-- Keeps a value that both collections have.
abbrev when_in_both : ℕ → ℕ → ℕ → Keep ℕ
when_in_both value value_other key = keep_value (value + value_other)

abbrev drops : ℕ → ℕ → Keep ℕ
drops value key = drop_value

find-merge_example : find 2 (merge two_keys other_keys drops drops when_in_both) ≡ some 41
find-merge_example =
    find-merge drops drops when_in_both 2 two_keys other_keys (refl, (refl, tt)) (refl, (refl, tt))

-- The key of an item is whether it is below 5.
abbrev is_small : ℕ → ℕ → ℕ
is_small item index = if ltb item 5 then 1 else 0

find-group_by_example : find 1 (group_by is_small (3 ∷ 8 ∷ 4 ∷ [])) ≡ some (3 ∷ 4 ∷ [])
unfolding items_of
find-group_by_example = find-group_by is_small 1 (3 ∷ 8 ∷ 4 ∷ [])
