-- ===== src/Collection/Store/Writes.antt =====
-- The writes of packages/collection/src/index.ts to the map and its policy, at one key.
use lunibee.Base.{
  ℕ, ◌+◌, ◌≡◌, refl, ap, ◌∙◌, sym, subst, Option, none, some, List, ◌==◌, false, if◌then◌else◌,
  Bool-cases, by_if, inl, inr, arith,
}
use mathlib.Core.Option.{some-injective}
use lunibee.Collection.Maps.{find, put, drop}
use lunibee.Collection.Maps.Laws.{eq_of_==, find-put, find-drop, put-IsMap, drop-IsMap}
use lunibee.Collection.Policy.{
  Policy, forget, notify, track_timed, track_untimed, expired, EvictionReason,
}
use lunibee.Collection.Filed.Quiet.{gist}
use lunibee.Collection.Filed.Calls.{Sound, forget-Sound}
use lunibee.Collection.Filed.Tracked.{
  Says, forget-Says, track_timed-Sound, track_untimed-Sound, untimed_gist,
}
use lunibee.Collection.Store.{
  Kept, is_due, remove, expire, expire_if_due, count_expired, is_refused,
}
use lunibee.Collection.Keyed.{track}
use lunibee.Collection.Store.Sweeps.{IsSoundAt, IsFresh, notify_log}
use lunibee.Collection.Store.Model.{
  Binding, model, lifetime, IsCopied, model-none, model-some, model_same, model-bind, bind, alive,
  is_lapsed, is_lapsed-model,
}

-- From `k` to `l` the key comes to be bound to `b`, and the other keys stay as they were.
abbrev pub Binds : {V : Type 0} → Kept V → ℕ → ℕ → Option (Binding V) → Kept V → Type 0
Binds k now key b l = IsSoundAt l now × ((j : ℕ) → model l j ≡ (if j == key then b else model k j))

module _ {V : Type 0} (k : Kept V) (now : ℕ) (s : IsSoundAt k now) (key : ℕ) (q : Policy V)
    (sound : Sound q now) where
  Says-IsFresh :
      (content : Option (V × ℕ × ℕ))
      → Says k.policy key content q
      → IsFresh content now
      → (j : ℕ) → IsFresh (gist (find j q.entries)) now
  Says-IsFresh content says fresh j =
      subst (λ g. IsFresh g now) (sym (says j))
        (by_if (λ g. IsFresh g now) (j == key) (λ _. fresh) (λ _. s.2 j))

  -- The policy comes to say `content` of the key.
  pub Says-Binds :
      (content : Option (V × ℕ × ℕ))
      → IsCopied (find key k.items) content
      → IsFresh content now
      → Says k.policy key content q
      → Binds k now key (bind (find key k.items) content) (record { items = k.items; policy = q })
  Says-Binds content copied fresh says =
      let l : Kept V = record { items = k.items; policy = q } in
      (
        (
          record {
            filed = sound.0;
            maps = s.0.maps;
            copied = λ j v w d there. elim (Bool-cases (j == key)) [
              | inl here ↦
                  rw (eq_of_== j key here) (copied v w d (sym (rw here at (says j)) ∙ there))
              | inr other ↦ s.0.copied j v w d (sym (rw other at (says j)) ∙ there)
            ];
          },
          sound.1,
          Says-IsFresh content says fresh,
        ),
        λ j. elim (Bool-cases (j == key)) [
          | inl here ↦ rw here (
              model-bind l j (find key k.items) content (rw (eq_of_== j key here) refl)
                (rw here at (says j)))
          | inr other ↦ rw other (model_same l k j refl (rw other at (says j)))
        ],
      )

  -- The map gets a value, and the policy what `content` says of the key.
  pub put-Binds :
      (value : V) (content : Option (V × ℕ × ℕ))
      → IsCopied (some value) content
      → IsFresh content now
      → Says k.policy key content q
      → Binds k now key
          (some (value, lifetime content))
          (record { items = put key value k.items; policy = q })
  put-Binds value content copied fresh says =
      let l : Kept V = record { items = put key value k.items; policy = q } in
      let item = λ (j : ℕ). find-put key j value k.items in
      (
        (
          record {
            filed = sound.0;
            maps = put-IsMap key value k.items s.0.maps;
            copied = λ j v w d there. elim (Bool-cases (j == key)) [
              | inl here ↦ rw (item j, here) (copied v w d (sym (rw here at (says j)) ∙ there))
              | inr other ↦
                  rw (item j, other) (s.0.copied j v w d (sym (rw other at (says j)) ∙ there))
            ];
          },
          sound.1,
          Says-IsFresh content says fresh,
        ),
        λ j. elim (Bool-cases (j == key)) [
          | inl here ↦ rw here (
              model-some l j value (rw (item j, here) refl)
              ∙ ap (λ c. some (value, lifetime c)) (rw here at (says j)))
          | inr other ↦ rw other (model_same l k j (rw (item j, other) refl) (rw other at (says j)))
        ],
      )

  -- The key leaves the map and the policy.
  pub drop-Binds :
      Says k.policy key none q
      → Binds k now key none (record { items = drop key k.items; policy = q })
  drop-Binds says =
      let l : Kept V = record { items = drop key k.items; policy = q } in
      let item = λ (j : ℕ). find-drop key j k.items s.0.maps in
      (
        (
          record {
            filed = sound.0;
            maps = drop-IsMap key k.items s.0.maps;
            copied = λ j v w d there. elim (Bool-cases (j == key)) [
              | inl here ↦ absurd (ground (arith, there, rw here at (says j)))
              | inr other ↦
                  rw (item j, other) (s.0.copied j v w d (sym (rw other at (says j)) ∙ there))
            ];
          },
          sound.1,
          Says-IsFresh none says tt,
        ),
        λ j. elim (Bool-cases (j == key)) [
          | inl here ↦ rw here (model-none l j (rw (item j, here) refl))
          | inr other ↦ rw other (model_same l k j (rw (item j, other) refl) (rw other at (says j)))
        ],
      )

-- The log of `onEvict` says nothing of a key.
pub notify-Binds :
    {V : Type 0} (k : Kept V) (now key : ℕ) (b : Option (Binding V)) (items : List (ℕ × V))
    (p : Policy V) (at : ℕ) (value : Option V) (reason : EvictionReason)
    → Binds k now key b (record { items = items; policy = p })
    → Binds k now key b (record { items = items; policy = notify p at value reason })
notify-Binds {V} k now key b items p at value reason (sound, binds) =
    let (log, same) = notify_log p at value reason in
    subst (λ (q : Policy V). Binds k now key b (record { items = items; policy = q })) (sym same)
      (
        (
          record { filed = sound.0.filed; maps = sound.0.maps; copied = sound.0.copied },
          sound.1,
          sound.2,
        ),
        λ j.
            model_same (record { items = items; policy = record p { notified = log } })
              (record { items = items; policy = p }) j refl refl
            ∙ binds j,
      )

module _ {V : Type 0} (k : Kept V) (now : ℕ) (s : IsSoundAt k now) (key : ℕ) where
  unchanged : (j : ℕ) → model k j ≡ (if j == key then model k key else model k j)
  unchanged j = elim (Bool-cases (j == key)) [
    | inl here ↦ rw (here, eq_of_== j key here) refl
    | inr other ↦ rw other refl
  ]

  pub remove-Binds : Binds k now key none (remove k key)
  unfolding remove
  remove-Binds =
      drop-Binds k now s key (forget k.policy key) (forget-Sound k.policy now (s.0.filed, s.1) key)
        (forget-Says k.policy key s.0.filed)

  pub expire-Binds : Binds k now key none (expire k key)
  unfolding expire remove
  expire-Binds =
      let p = count_expired (forget k.policy key) 1 in
      notify-Binds k now key none (drop key k.items) p key (find key k.items) expired (
        drop-Binds k now s key p (forget-Sound k.policy now (s.0.filed, s.1) key)
          (forget-Says k.policy key s.0.filed))

  -- `#expireIfDue` drops a key that has lapsed, and says whether it did.
  pub expire_if_due-Binds :
      Binds k now key (alive (model k key) now) ((expire_if_due k now key).0)
      × ((expire_if_due k now key).1 ≡ is_lapsed (model k key) now)
  unfolding expire_if_due
  expire_if_due-Binds = elim (Bool-cases (is_due (find key k.policy.entries) now)) [
    | inl due ↦
        let lapsed = is_lapsed-model k now s.0 key ∙ due in rw (due, lapsed) (expire-Binds, refl)
    | inr live ↦
        let alive_yet = is_lapsed-model k now s.0 key ∙ live in
        rw (live, alive_yet) ((s, unchanged), refl)
  ]

pub some-IsCopied :
    {V : Type 0} (value : V) (window deadline : ℕ)
    → IsCopied (some value) (some (value, window, deadline))
some-IsCopied value window deadline v w d same = ap some (ap (λ g. g.0) (some-injective _ _ same))

module _ {V : Type 0} (value : V) where
  lifetime-untimed_gist : (d : Option ℕ) → lifetime (untimed_gist value d) ≡ none
  lifetime-untimed_gist none = refl
  lifetime-untimed_gist (some d) = refl

  untimed_gist-IsCopied : (d : Option ℕ) → IsCopied (some value) (untimed_gist value d)
  untimed_gist-IsCopied none v w d same = absurd (ground (arith, same))
  untimed_gist-IsCopied (some d) v w e same = some-IsCopied value 0 d v w e same

  untimed_gist-IsFresh : (d : Option ℕ) (now : ℕ) → IsFresh (untimed_gist value d) now
  untimed_gist-IsFresh none now = tt
  untimed_gist-IsFresh (some d) now = λ timed. absurd (timed refl)

-- The lifetime that `set` gives at `now`.
abbrev pub lifetime_from : ℕ → Option ℕ → Option (ℕ × ℕ)
lifetime_from now none = none
lifetime_from now (some window) = some (window, now + window)

module _ {V : Type 0} (k : Kept V) (now : ℕ) (s : IsSoundAt k now) (key : ℕ) (value : V) where
  -- `set` by way of `#track`.
  pub track-Binds :
      (window : Option ℕ)
      → is_refused window ≡ false
      → Binds k now key
          (some (value, lifetime_from now window))
          (record { items = put key value k.items; policy = track k.policy now key value window })
  unfolding track
  track-Binds none accepted =
      let (sound, (d, says)) =
        track_untimed-Sound k.policy now (s.0.filed, s.1) key value (find key k.policy.entries)
          refl in
      subst
        (λ b. Binds k now key (some (value, b)) (record {
          items = put key value k.items;
          policy = track_untimed k.policy key value (find key k.policy.entries);
        }))
        (lifetime-untimed_gist value d)
        (put-Binds k now s key _ sound value (untimed_gist value d) (untimed_gist-IsCopied value d)
          (untimed_gist-IsFresh value d now) says)
  track-Binds (some window) accepted =
      let (sound, says) =
        track_timed-Sound k.policy now (s.0.filed, s.1) key value window (find key k.policy.entries)
          refl (λ e. absurd (ground arith)) in
      let timed : (window == 0) ≡ false = ground arith in
      subst
        (λ b. Binds k now key (some (value, b)) (record {
          items = put key value k.items;
          policy = track_timed k.policy now key value window (find key k.policy.entries);
        }))
        (rw timed refl)
        (put-Binds k now s key _ sound value (some (value, window, now + window))
          (some-IsCopied value window (now + window)) (λ _. omega arith) says)
