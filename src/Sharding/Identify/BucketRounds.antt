-- ===== src/Sharding/Identify/BucketRounds.antt =====
-- The loop of `pump` of identify.ts on the key of one bucket.
use lunibee.Base.{
  ℕ, ◌≡◌, inl, inr, refl, sym, ap, ◌∙◌, Option, none, some, List, [], ◌∷◌, arith, ◌==◌, Bool-cases,
  ==_iff, subst,
}
use mathlib.Core.Option.{some-injective}
use lunibee.Sharding.Identify.State.{Key}
use lunibee.Sharding.Identify.Pumping.{Round, pump_key, pump_keys}
use lunibee.Sharding.Identify.Calls.{find_key}
use lunibee.Sharding.Identify.Buckets.{
  count_on, count_on-append, Filed, IsFiledAt, pump_key-other, queue-filed,
}

module _ (max_concurrency now : ℕ) (reset_at : Option ℕ) where
  pub pump_keys-absent :
      (b : ℕ) (r : Round) (ks : List (ℕ × Key))
      → find_key b ks ≡ none
      → Filed max_concurrency ks
      → let p = pump_keys max_concurrency now reset_at r ks in
        (find_key b p.1 ≡ none) × (count_on b p.2 ≡ 0)
  unfolding pump_keys count_on
  pump_keys-absent b r [] h filed = (refl, refl)
  pump_keys-absent b r ((index, key) ∷ ks) h (here, distinct, filed) =
      elim (Bool-cases (index == b)) [
        | inl e ↦ absurd (ground (arith, e))
        | inr e ↦
            let p = pump_key max_concurrency now reset_at r key in
            let (gone, zero_on) = pump_keys-absent b p.0 ks (rw e at h) filed in
            (
              rw e gone,
              omega (
                arith,
                zero_on,
                pump_key-other max_concurrency now reset_at r b index key here e,
                count_on-append b p.2 (pump_keys max_concurrency now reset_at p.0 ks).2,
              ),
            )
      ]

  -- The loop on the key of a bucket is `pump_key` in some round, and grants nothing else on it.
  pub pump_keys-found :
      (b : ℕ) (r : Round) (ks : List (ℕ × Key)) (key : Key)
      → find_key b ks ≡ some key
      → Filed max_concurrency ks
      → let p = pump_keys max_concurrency now reset_at r ks in
        (r' : Round) × (find_key b p.1 ≡ some (pump_key max_concurrency now reset_at r' key).1)
        × (count_on b p.2 ≡ count_on b (pump_key max_concurrency now reset_at r' key).2)
        × IsFiledAt max_concurrency b key.queue
  unfolding pump_keys count_on
  pump_keys-found b r [] key h filed = absurd (ground arith)
  pump_keys-found b r ((index, k) ∷ ks) key h (here, distinct, filed) =
      let p = pump_key max_concurrency now reset_at r k in
      let q = pump_keys max_concurrency now reset_at p.0 ks in
      elim (Bool-cases (index == b)) [
        | inl e ↦
            let same : k ≡ key = some-injective _ _ (rw e at h) in
            let is_b : index ≡ b = (==_iff index b).0 e in
            let (gone, zero_on) =
              pump_keys-absent b p.0 ks (ap (λ x. find_key x ks) (sym is_b) ∙ distinct) filed in
            (
              r,
              rw e (ap (λ x. some (pump_key max_concurrency now reset_at r x).1) same),
              omega (
                arith,
                zero_on,
                count_on-append b p.2 q.2,
                ap (λ x. count_on b (pump_key max_concurrency now reset_at r x).2) same,
              ),
              subst (λ x. IsFiledAt max_concurrency b x.queue) same
                  (subst (λ x. IsFiledAt max_concurrency x k.queue) is_b here),
            )
        | inr e ↦
            let (r', found, counted, there) = pump_keys-found b p.0 ks key (rw e at h) filed in
            (
              r',
              rw e found,
              omega (
                arith,
                counted,
                pump_key-other max_concurrency now reset_at r b index k here e,
                count_on-append b p.2 q.2,
              ),
              there,
            )
      ]

  pub pump_keys-Filed :
      (r : Round) (ks : List (ℕ × Key))
      → Filed max_concurrency ks
      → Filed max_concurrency (pump_keys max_concurrency now reset_at r ks).1
  unfolding pump_keys
  pump_keys-Filed r [] filed = tt
  pump_keys-Filed r ((index, key) ∷ ks) (here, distinct, filed) =
      let p = pump_key max_concurrency now reset_at r key in
      (
        queue-filed max_concurrency now reset_at r index key.next_at key.holder key.queue here,
        (pump_keys-absent index p.0 ks distinct filed).0,
        pump_keys-Filed p.0 ks filed,
      )
