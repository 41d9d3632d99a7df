-- ===== src/Collection/Store/Cap.antt =====
-- `#enforceCap` of packages/collection/src/index.ts.
use lunibee.Base.{
  ℕ, zero, suc, ◌+◌, ◌-◌, ◌≤◌, ◌≡◌, ◌⊎◌, refl, ◌∙◌, none, ◌==◌, ltb, leb, length, not, ◌&&◌,
  if◌then◌else◌, Bool-cases, by_if, inl, inr, arith,
}
use lunibee.Collection.Maps.{find, drop}
use lunibee.Collection.Maps.Laws.{find-drop}
use lunibee.Collection.Policy.{Policy, evicted, notify}
use lunibee.Collection.Filed.Calls.{Sound, drop-Sound}
use lunibee.Collection.Filed.Tracked.{Says}
use lunibee.Collection.Store.{
  Kept, top_of, evict, evict_past, enforce_cap, purge_kept, oldest_of, without_oldest,
}
use lunibee.Collection.Store.Sweeps.{IsSoundAt, purge_kept-Purged, purge_kept-IsSoundAt}
use lunibee.Collection.Store.Model.{model, Purged-model, is_lapsed}
use lunibee.Collection.Store.Writes.{Binds, drop-Binds, notify-Binds}

-- Each key of `l` is bound as in `k`.
abbrev pub IsPart : {V : Type 0} → Kept V → Kept V → Type 0
IsPart k l = (j : ℕ) → (model l j ≡ none) ⊎ (model l j ≡ model k j)

module _ {V : Type 0} where
  pub IsPart-trans : (k l m : Kept V) → IsPart k l → IsPart l m → IsPart k m
  IsPart-trans k l m first second j = elim (second j) [
    | inl gone ↦ inl gone
    | inr same ↦ elim (first j) [ inl gone ↦ inl (same ∙ gone) | inr as_k ↦ inr (same ∙ as_k) ]
  ]

  Binds-IsPart : (k l : Kept V) (now key : ℕ) → Binds k now key none l → IsPart k l
  Binds-IsPart k l now key (_, binds) j = elim (Bool-cases (j == key)) [
    | inl here ↦ inl (rw here at (binds j))
    | inr other ↦ inr (rw other at (binds j))
  ]

  pub drop-Says :
      (p : Policy V) (now key : ℕ)
      → Sound p now
      → Says p key none (record p { entries = drop key p.entries })
  drop-Says p now key s k = elim (Bool-cases (k == key)) [
    | inl here ↦ rw (find-drop key k p.entries s.0.maps, here) refl
    | inr other ↦ rw (find-drop key k p.entries s.0.maps, other) refl
  ]

module _ {V : Type 0} (k : Kept V) (now : ℕ) (s : IsSoundAt k now) (key : ℕ) where
  pub evict-Binds : Binds k now key none (evict k key)
  evict-Binds =
      let sound : Sound k.policy now = (s.0.filed, s.1) in
      let p = record k.policy {
        recency = without_oldest k.policy.recency;
        lru_size = k.policy.lru_size - 1;
        entries = drop key k.policy.entries;
        evicted_count = k.policy.evicted_count + 1;
      } in
      notify-Binds k now key none (drop key k.items) p key (find key k.items) evicted (
        drop-Binds k now s key p (drop-Sound k.policy now sound key)
          (drop-Says k.policy now key sound))

module _ {V : Type 0} where
  lru_size-evict : (k : Kept V) (key : ℕ) → (evict k key).policy.lru_size ≡ k.policy.lru_size - 1
  unfolding notify
  lru_size-evict k key =
      by_if (λ (q : Policy V). q.lru_size ≡ k.policy.lru_size - 1) k.policy.on_evict (λ _. refl)
        (λ _. refl)

  purge_kept-IsPart : (k : Kept V) (now : ℕ) → IsSoundAt k now → IsPart k ((purge_kept k now).0)
  purge_kept-IsPart k now s j =
      let (purged, armed) = purge_kept-Purged k now s.0 s.1.alarm in
      let left = Purged-model k now s.0 j ((purge_kept k now).0) purged in
      elim (Bool-cases (is_lapsed (model k j) now)) [
        | inl lapsed ↦ inl (rw lapsed at left)
        | inr live ↦ inr (rw live at left)
      ]

  evict_past_lem :
      (fuel cap : ℕ) (k : Kept V) (now : ℕ)
      → IsSoundAt k now
      → k.policy.lru_size ≤ fuel + cap
      → let l = evict_past fuel cap k in IsSoundAt l now × IsPart k l × (l.policy.lru_size ≤ cap)
  unfolding evict_past
  evict_past_lem zero cap k now s enough = (s, λ j. inr refl, omega arith)
  evict_past_lem (suc fuel) cap k now s enough = elim (Bool-cases (ltb cap k.policy.lru_size)) [
    | inr small ↦ rw small (s, λ j. inr refl, ground arith)
    | inl over ↦
        let key = oldest_of k.policy.recency in
        let first = evict-Binds k now s key in
        let (sound, part, size) =
          evict_past_lem fuel cap (evict k key) now first.0 (omega (arith, lru_size-evict k key)) in
        rw over (
          sound,
          IsPart-trans k (evict k key) (evict_past fuel cap (evict k key))
              (Binds-IsPart k (evict k key) now key first) part,
          size,
        )
  ]

  pub enforce_cap_lem :
      (k : Kept V) (cap now : ℕ)
      → IsSoundAt k now
      → let l = enforce_cap k cap now in IsSoundAt l now × IsPart k l × (l.policy.lru_size ≤ cap)
  unfolding enforce_cap
  enforce_cap_lem k cap now s =
      let lapsed = not (leb (length k.policy.heap) 0) && leb ((top_of k.policy.heap).filed) now in
      let purged = if ltb cap k.policy.lru_size && lapsed then (purge_kept k now).0 else k in
      let start : IsSoundAt purged now × IsPart k purged =
        by_if (λ (l : Kept V). IsSoundAt l now × IsPart k l) (ltb cap k.policy.lru_size && lapsed)
          (λ _. (purge_kept-IsSoundAt k now s.0 s.1.alarm s.2, purge_kept-IsPart k now s))
          (λ _. (s, λ j. inr refl)) in
      let (sound, part, size) =
        evict_past_lem purged.policy.lru_size cap purged now start.0 (omega arith) in
      (sound, IsPart-trans k purged (enforce_cap k cap now) start.1 part, size)
