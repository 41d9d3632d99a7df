-- ===== src/Collection/Store/Reads.antt =====
-- The reads of packages/collection/src/index.ts that restart a window, and `set`.
use lunibee.Base.{
  ◌⊎◌, ℕ, ◌+◌, ◌≤◌, ◌≡◌, ◌≢◌, refl, ap, ◌∙◌, sym, subst, Option, none, some, ◌==◌, not, ◌&&◌, true,
  false, if◌then◌else◌, by_if, inl, inr, arith, ◌↔◌,
}
use lunibee.Collection.Maps.{find, put}
use lunibee.Collection.Policy.{Entry, Policy, promote, write_entry}
use lunibee.Collection.Policy.Options.{options, track_timed-Has, track_untimed-Has}
use lunibee.Collection.Filed.Quiet.{gist}
use lunibee.Collection.Filed.Calls.{Sound, rewrite-Sound, promote-Sound}
use lunibee.Collection.Filed.Tracked.{Says, write-Says, promote-Says}
use lunibee.Collection.Filed.Track.{find-put_self}
use lunibee.Collection.Store.{Kept, is_refused}
use lunibee.Collection.Keyed.{touch, rewrite, is_rewrite, set_kept, track, is_over, cap_of}
use lunibee.Collection.Store.Sweeps.{IsSoundAt, IsFresh}
use lunibee.Collection.Store.Model.{model, bind, Binding, IsCopied, lifetime}
use lunibee.Collection.Store.Writes.{
  Binds, Says-Binds, put-Binds, track-Binds, lifetime_from, some-IsCopied,
}
use lunibee.Collection.Store.Cap.{enforce_cap_lem}

module _ {V : Type 0} (p : Policy V) (now : ℕ) (s : Sound p now) (key : ℕ) (e : Entry V)
    (there : find key p.entries ≡ some e) (value : V) (deadline window : ℕ)
    (timed : (window ≢ 0) ↔ (e.window ≢ 0)) (late : window ≢ 0 → e.filed ≤ deadline) where
  -- The entry of `key` with a new value, window and deadline, in its record.
  abbrev renewed : Entry V
  renewed = record e { value = value; window = window; deadline = deadline }

  here : find e.key p.entries ≡ some e
  here = ap (λ k. find k p.entries) (s.0.keyed key e there) ∙ there

  -- It is written, and it is the newest if it was in the recency order.
  pub renew :
      let q = write_entry p renewed in
      let r = if e.in_lru then promote q renewed else q in
      Sound r now × Says p key (some (value, window, deadline)) r
  renew =
      let q = write_entry p renewed in
      let written = rewrite-Sound p now s e renewed here refl timed late in
      let says = λ (r : Policy V) (h : Says p e.key (some (value, window, deadline)) r).
        subst (λ (k : ℕ). Says p k (some (value, window, deadline)) r) (s.0.keyed key e there) h in
      by_if (λ (r : Policy V). Sound r now × Says p key (some (value, window, deadline)) r) e.in_lru
        (λ _. (
          promote-Sound q now written renewed (find-put_self renewed p.entries),
          says (promote q renewed) (promote-Says p renewed p.next_id),
        ))
        (λ _. (written, says q (write-Says p renewed p.next_id)))

module _ {V : Type 0} (k : Kept V) (now : ℕ) (s : IsSoundAt k now) (key : ℕ) where
  -- A read of an entry that has not lapsed: its window starts again if `slide` is on.
  pub touch-Binds :
      (e : Entry V)
      → find key k.policy.entries ≡ some e
      → Binds k now key
          (some (
            e.value,
            lifetime (
                some (
                  e.value,
                  e.window,
                  if not (e.window == 0) && k.policy.slide then now + e.window else e.deadline,
                )),
          ))
          (record { items = k.items; policy = touch k.policy now e })
  unfolding touch
  touch-Binds e there =
      let deadline = if not (e.window == 0) && k.policy.slide then now + e.window else e.deadline in
      let content : Option (V × ℕ × ℕ) = some (e.value, e.window, deadline) in
      let item = s.0.copied key e.value e.window e.deadline (ap gist there) in
      let fresh : e.window ≢ 0 → e.deadline ≤ now + e.window =
        subst (λ g. IsFresh g now) (ap gist there) (s.2 key) in
      let early = s.0.filed.early key e there in
      let (sound, says) =
        renew k.policy now (s.0.filed, s.1) key e there e.value deadline e.window (ground arith)
          (λ t. ground (arith, fresh t, early t)) in
      subst
        (λ (i : Option V).
          Binds k now key (bind i content)
            (record { items = k.items; policy = touch k.policy now e }))
        item
        (Says-Binds k now s key _ sound content
          (subst (λ i. IsCopied i content) (sym item) (some-IsCopied e.value e.window deadline))
          (λ t. ground (arith, fresh t)) says)

-- `#track` keeps a policy without a cap without one.
track_uncapped :
    {V : Type 0} (k : Kept V) (now key : ℕ) (value : V) (window : Option ℕ)
    → k.policy.max_size ≡ none
    → is_over (track k.policy now key value window) ≡ false
unfolding track
track_uncapped k now key value none uncapped =
    let same =
      track_untimed-Has (options k.policy) k.policy key value (find key k.policy.entries) refl in
    ground (arith, ap (λ o. o.max_size) same, uncapped)
track_uncapped k now key value (some window) uncapped =
    let same =
      track_timed-Has (options k.policy) k.policy now key value window (find key k.policy.entries)
        refl in
    ground (arith, ap (λ o. o.max_size) same, uncapped)

module _ {V : Type 0} (k : Kept V) (now : ℕ) (s : IsSoundAt k now) (key : ℕ) (value : V) where
  -- The common rewrite of `set`.
  rewrite-Binds :
      (window : Option ℕ) (found : Option (Entry V))
      → is_refused window ≡ false
      → find key k.policy.entries ≡ found
      → is_rewrite found window now ≡ true
      → Binds k now key (some (value, lifetime_from now window)) (record {
        items = put key value k.items;
        policy = rewrite k.policy now value found window;
      })
  unfolding rewrite
  rewrite-Binds window none accepted there fast = absurd (ground (arith, fast))
  rewrite-Binds none (some e) accepted there fast = absurd (ground (arith, fast))
  rewrite-Binds (some w) (some e) accepted there fast =
      let timed : (w == 0) ≡ false = ground arith in
      let (sound, says) =
        renew k.policy now (s.0.filed, s.1) key e there value (now + w) w (ground arith)
          (λ t. ground arith) in
      subst
        (λ b. Binds k now key (some (value, b)) (record {
          items = put key value k.items;
          policy = rewrite k.policy now value (some e) (some w);
        }))
        (rw timed refl)
        (put-Binds k now s key _ sound value (some (value, w, now + w))
          (some-IsCopied value w (now + w)) (λ _. omega arith) says)

  -- `set` binds its key to the value, for its window from now. Only a cap takes keys away.
  pub set_kept_lem :
      (window : Option ℕ)
      → is_refused window ≡ false
      → let l = set_kept k now key value window in
        let b : Option (Binding V) = some (value, lifetime_from now window) in
        IsSoundAt l now
        × ((j : ℕ) → (model l j ≡ none) ⊎ (model l j ≡ (if j == key then b else model k j)))
        × ((k.policy.max_size ≡ none) → (j : ℕ) → model l j ≡ (if j == key then b else model k j))
  unfolding set_kept
  set_kept_lem window accepted =
      let b : Option (Binding V) = some (value, lifetime_from now window) in
      let exact : Kept V → Type 0 =
        λ l. (j : ℕ) → model l j ≡ (if j == key then b else model k j) in
      let goal : Kept V → Type 0 = λ l.
        IsSoundAt l now
        × ((j : ℕ) → (model l j ≡ none) ⊎ (model l j ≡ (if j == key then b else model k j)))
        × (k.policy.max_size ≡ none → exact l) in
      by_if goal (is_rewrite (find key k.policy.entries) window now)
        (λ fast.
          let (sound, binds) =
            rewrite-Binds window (find key k.policy.entries) accepted refl fast in
          (sound, λ j. inr (binds j), λ _. binds))
        (λ slow.
          let (sound, binds) = track-Binds k now s key value window accepted in
          let q = track k.policy now key value window in
          let tracked : Kept V = record { items = put key value k.items; policy = q } in
          by_if goal (is_over q)
            (λ over.
              let (sound', part, size) = enforce_cap_lem tracked (cap_of q) now sound in
              (
                sound',
                λ j. elim (part j) [ inl gone ↦ inl gone | inr same ↦ inr (same ∙ binds j) ],
                λ uncapped. absurd (ground (arith, track_uncapped k now key value window uncapped)),
              ))
            (λ small. (sound, λ j. inr (binds j), λ _. binds)))
