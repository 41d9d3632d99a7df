-- ===== src/Sharding/Identify/Keys.antt =====
-- What the calls of identify.ts do to the key of one bucket.
use lunibee.Base.{
  ℕ, ◌%◌, ◌≤◌, ◌≡◌, inl, inr, refl, sym, ap, ◌∙◌, Bool, true, not, Option, none, some, List, [],
  ◌∷◌, ◌++◌, arith, ◌==◌, if◌then◌else◌, is_some, keep, All-append, Bool-cases, Option-cases,
  ==_iff, subst,
}
use lunibee.Sharding.Identify.State.{Key, Waiter, Effect, new_key, granted}
use lunibee.Sharding.Identify.Calls.{find_key, update_key, with_key, enqueue, drop_key, drop_keys}
use lunibee.Sharding.Identify.History.{count_granted}
use lunibee.Sharding.Identify.Waiting.{drop_key-queue}
use lunibee.Sharding.Identify.Buckets.{count_on, Filed, IsFiledAt}

abbrev pub map_key : (Key → Key) → Option Key → Option Key
map_key f none = none
map_key f (some key) = some (f key)

pub find-update_key :
    (b index : ℕ) (f : Key → Key) (ks : List (ℕ × Key))
    → find_key b (update_key index f ks)
      ≡ (if index == b then map_key f (find_key b ks) else find_key b ks)
unfolding update_key
find-update_key b index f [] = ground arith
find-update_key b index f ((i, key) ∷ ks) = ground (arith, find-update_key b index f ks)

find-append :
    (b index : ℕ) (ks : List (ℕ × Key))
    → find_key b (ks ++ (index, new_key) ∷ []) ≡ (
        if is_some (find_key b ks)
        then find_key b ks
        else if index == b
        then some new_key
        else none)
find-append b index [] = ground arith
find-append b index ((i, key) ∷ ks) = ground (arith, find-append b index ks)

pub find-with_key :
    (b index : ℕ) (ks : List (ℕ × Key))
    → find_key b (with_key index ks) ≡ (
        if is_some (find_key b ks)
        then find_key b ks
        else if index == b
        then some new_key
        else none)
find-with_key b index ks = elim (Bool-cases (is_some (find_key index ks))) [
  | inl e ↦ rw e (elim (Bool-cases (index == b)) [
    | inl s ↦
        let there : is_some (find_key b ks) ≡ true =
          subst (λ x. is_some (find_key x ks) ≡ true) ((==_iff index b).0 s) e in
        ground (arith, there)
    | inr s ↦ ground (arith, s)
  ])
  | inr e ↦ rw e (find-append b index ks)
]

pub find-drop_keys :
    (b max_concurrency interval now owner : ℕ) (ks : List (ℕ × Key))
    → find_key b (drop_keys max_concurrency interval now owner ks).0
      ≡ map_key (drop_key interval now owner) (find_key b ks)
unfolding drop_keys
find-drop_keys b max_concurrency interval now owner [] = refl
find-drop_keys b max_concurrency interval now owner ((i, key) ∷ ks) =
    ground (arith, find-drop_keys b max_concurrency interval now owner ks)

-- A change of keys keeps requests filed.
abbrev KeepsFiled : ℕ → ℕ → (Key → Key) → Type 0
KeepsFiled max_concurrency index f =
    (key : Key)
    → IsFiledAt max_concurrency index key.queue
    → IsFiledAt max_concurrency index (f key).queue

pub update_key-Filed :
    (max_concurrency index : ℕ) (f : Key → Key) (ks : List (ℕ × Key))
    → KeepsFiled max_concurrency index f
    → Filed max_concurrency ks
    → Filed max_concurrency (update_key index f ks)
unfolding update_key
update_key-Filed max_concurrency index f [] keeps filed = tt
update_key-Filed max_concurrency index f ((i, key) ∷ ks) keeps (here, distinct, filed) =
    elim (Bool-cases (i == index)) [
      | inl e ↦
          let is : i ≡ index = (==_iff i index).0 e in
          rw e (
            subst (λ x. IsFiledAt max_concurrency x (f key).queue) (sym is)
                (keeps key (subst (λ x. IsFiledAt max_concurrency x key.queue) is here)),
            distinct,
            filed,
          )
      | inr e ↦
          let none_there : find_key i (update_key index f ks) ≡ none =
            ground (arith, find-update_key i index f ks, distinct) in
          rw e (here, none_there, update_key-Filed max_concurrency index f ks keeps filed)
    ]

with_new-Filed :
    (max_concurrency index : ℕ) (ks : List (ℕ × Key))
    → find_key index ks ≡ none
    → Filed max_concurrency ks
    → Filed max_concurrency (ks ++ (index, new_key) ∷ [])
with_new-Filed max_concurrency index [] h filed = (tt, refl, tt)
with_new-Filed max_concurrency index ((i, key) ∷ ks) h (here, distinct, filed) =
    elim (Bool-cases (i == index)) [
      | inl e ↦ absurd (ground (arith, e))
      | inr e ↦
          let none_there : find_key i (ks ++ (index, new_key) ∷ []) ≡ none =
            ground (arith, find-append i index ks, distinct) in
          (here, none_there, with_new-Filed max_concurrency index ks (rw e at h) filed)
    ]

pub with_key-Filed :
    (max_concurrency index : ℕ) (ks : List (ℕ × Key))
    → Filed max_concurrency ks
    → Filed max_concurrency (with_key index ks)
with_key-Filed max_concurrency index ks filed = elim (Option-cases (find_key index ks)) [
  | inl e ↦ rw e (with_new-Filed max_concurrency index ks e filed)
  | inr (key, e) ↦ rw e filed
]

keep-filed :
    (max_concurrency index : ℕ) (p : Waiter → Bool) (ws : List Waiter)
    → IsFiledAt max_concurrency index ws
    → IsFiledAt max_concurrency index (keep p ws)
keep-filed max_concurrency index p [] h = tt
keep-filed max_concurrency index p (w ∷ ws) (same, h) = elim (Bool-cases (p w)) [
  | inl e ↦ rw e (same, keep-filed max_concurrency index p ws h)
  | inr e ↦ rw e (keep-filed max_concurrency index p ws h)
]

drop_key-filed :
    (max_concurrency index interval now owner : ℕ)
    → KeepsFiled max_concurrency index (drop_key interval now owner)
drop_key-filed max_concurrency index interval now owner key h =
    subst (IsFiledAt max_concurrency index) (sym (drop_key-queue interval now owner key))
      (keep-filed max_concurrency index (λ w. not (w.owner == owner)) key.queue h)

pub drop_keys-Filed :
    (max_concurrency interval now owner : ℕ) (ks : List (ℕ × Key))
    → Filed max_concurrency ks
    → Filed max_concurrency (drop_keys max_concurrency interval now owner ks).0
unfolding drop_keys
drop_keys-Filed max_concurrency interval now owner [] filed = tt
drop_keys-Filed max_concurrency interval now owner ((i, key) ∷ ks) (here, distinct, filed) = (
  drop_key-filed max_concurrency i interval now owner key here,
  find-drop_keys i max_concurrency interval now owner ks
      ∙ ap (map_key (drop_key interval now owner)) distinct,
  drop_keys-Filed max_concurrency interval now owner ks filed,
)

pub enqueue-filed :
    (max_concurrency index : ℕ) (w : Waiter)
    → w.shard_id % max_concurrency ≡ index
    → KeepsFiled max_concurrency index (enqueue w)
enqueue-filed max_concurrency index w same key h = All-append _ key.queue (w ∷ []) h (same, tt)

-- Grants on a bucket are grants.
pub count_on-le_granted : (b : ℕ) (es : List Effect) → count_on b es ≤ count_granted es
unfolding count_on count_granted
count_on-le_granted b [] = omega arith
count_on-le_granted b (granted owner shard_id bucket waited ∷ es) =
    ground (arith, count_on-le_granted b es)
count_on-le_granted b (_ ∷ es) = count_on-le_granted b es
