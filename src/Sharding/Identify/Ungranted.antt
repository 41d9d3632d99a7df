-- ===== src/Sharding/Identify/Ungranted.antt =====
-- Dropping an owner and closing, in identify.ts, grant nothing of their own.
use lunibee.Base.{ℕ, ◌≡◌, refl, List, [], ◌∷◌, arith}
use lunibee.Sharding.Identify.State.{Key, Waiter}
use lunibee.Sharding.Identify.Calls.{drop_keys, drop_effects, close_keys, reject_all}
use lunibee.Sharding.Identify.History.{count_granted, count_granted-append}

drop_effects-ungranted :
    (max_concurrency owner : ℕ) (ws : List Waiter)
    → count_granted (drop_effects max_concurrency owner ws) ≡ 0
unfolding drop_effects count_granted
drop_effects-ungranted max_concurrency owner [] = refl
drop_effects-ungranted max_concurrency owner (w ∷ ws) =
    ground (arith, drop_effects-ungranted max_concurrency owner ws)

pub drop_keys-ungranted :
    (max_concurrency interval now owner : ℕ) (ks : List (ℕ × Key))
    → count_granted (drop_keys max_concurrency interval now owner ks).1 ≡ 0
unfolding drop_keys count_granted
drop_keys-ungranted max_concurrency interval now owner [] = refl
drop_keys-ungranted max_concurrency interval now owner ((index, key) ∷ ks) = omega (
  arith,
  drop_keys-ungranted max_concurrency interval now owner ks,
  drop_effects-ungranted max_concurrency owner key.queue,
  count_granted-append (drop_effects max_concurrency owner key.queue)
      (drop_keys max_concurrency interval now owner ks).1,
)

reject_all-ungranted : (ws : List Waiter) → count_granted (reject_all ws) ≡ 0
unfolding reject_all count_granted
reject_all-ungranted [] = refl
reject_all-ungranted (w ∷ ws) = reject_all-ungranted ws

pub close_keys-ungranted : (ks : List (ℕ × Key)) → count_granted (close_keys ks).1 ≡ 0
unfolding close_keys count_granted
close_keys-ungranted [] = refl
close_keys-ungranted ((index, key) ∷ ks) = omega (
  arith,
  close_keys-ungranted ks,
  reject_all-ungranted key.queue,
  count_granted-append (reject_all key.queue) (close_keys ks).1,
)
