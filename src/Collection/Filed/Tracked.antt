-- ===== src/Collection/Filed/Tracked.antt =====
-- `#track` of packages/collection/src/index.ts.
use lunibee.Base.{
  ℕ, ◌+◌, ◌≡◌, ◌≢◌, refl, ap, ◌∙◌, sym, subst, Option, none, some, List, ◌==◌, ltb, if◌then◌else◌,
  Bool-cases, by_if, inl, inr, arith,
}
use lunibee.Collection.Maps.{find, put}
use lunibee.Collection.Maps.Laws.{put-put, eq_of_==}
use lunibee.Collection.Policy.{
  Entry, Policy, promote, forget, file, has_cap, create, add_entry, write_entry, replacement,
  track_timed, track_untimed,
}
use lunibee.Collection.Filed.Settle.{IsPolicyFiled}
use lunibee.Collection.Filed.Quiet.{Quiet, gist, gist-Quiet, gist-promote, gist-put}
use lunibee.Collection.Filed.Calls.{Sound, promote-Sound, forget-Sound, relink-Sound, rewrite-Sound}
use lunibee.Collection.Filed.Track.{
  linked, file_new-Sound, file_old-Sound, untimed_new-Sound, find-put_self,
}
use lunibee.Collection.Filed.Forget.{find-forget}

-- From `p` to `q` the entry of `key` comes to say `content`, and the others what they said.
abbrev pub Says : {V : Type 0} → Policy V → ℕ → Option (V × ℕ × ℕ) → Policy V → Type 0
Says p key content q =
    (k : ℕ) → gist (find k q.entries) ≡ (if k == key then content else gist (find k p.entries))

module _ {V : Type 0} (p : Policy V) (e : Entry V) (n : ℕ) where
  -- A write of an entry, and its move to the newest place.
  abbrev wrote : Policy V
  wrote = record p { entries = put e.key e p.entries; next_id = n }

  pub write-Says : Says p e.key (gist (some e)) wrote
  write-Says k = gist-put p.entries e k

  pub promote-Says : Says p e.key (gist (some e)) (promote wrote e)
  promote-Says k = gist-promote wrote e (find-put_self e p.entries) k ∙ write-Says k

  linked-Says : Says p e.key (gist (some e)) (linked wrote e)
  linked-Says =
      by_if (Says p e.key (gist (some e))) (has_cap p) (λ _. promote-Says) (λ _. write-Says)

  -- An entry that is filed says the same.
  filed-Says :
      (now : ℕ)
      → Sound (file wrote now e) now × Quiet (linked wrote e) (file wrote now e)
      → Sound (file wrote now e) now × Says p e.key (gist (some e)) (file wrote now e)
  filed-Says now (sound, quiet) =
      (sound, λ k. gist-Quiet (linked wrote e) (file wrote now e) quiet k ∙ linked-Says k)

module _ {V : Type 0} (p : Policy V) (now : ℕ) (s : Sound p now) where
  -- An entry of the map, under the key that it holds.
  found_here :
      (key : ℕ) (old : Entry V) → find key p.entries ≡ some old → find old.key p.entries ≡ some old
  found_here key old there = ap (λ k. find k p.entries) (s.0.keyed key old there) ∙ there

  retimed :
      (old : Entry V) (value : V) (window : ℕ)
      → find old.key p.entries ≡ some old
      → window ≢ 0
      → let q = track_timed p now old.key value window (some old) in
        Sound q now × Says p old.key (some (value, window, now + window)) q
  unfolding track_timed
  retimed old value window here timed =
      let deadline = now + window in
      let moved = record old { value = value; window = window; deadline = deadline } in
      let fresh = replacement p moved window deadline in
      let goal : Policy V → Type 0 =
        λ q. Sound q now × Says p old.key (some (value, window, deadline)) q in
      by_if goal (old.window == 0)
        (λ untimed.
          let e = record moved { filed = deadline } in
          filed-Says p e p.next_id now
            (file_old-Sound p now s old e here (ground arith) timed refl refl refl))
        (λ was.
          by_if goal (ltb deadline old.filed)
            (λ early.
              subst
                (λ (E : List (ℕ × Entry V)).
                  goal (file (record p { entries = E; next_id = p.next_id + 1 }) now fresh))
                (sym (put-put old.key moved fresh p.entries))
                (filed-Says p fresh (p.next_id + 1) now
                  (file_new-Sound p now s fresh timed refl refl)))
            (λ later.
              let kept =
                rewrite-Sound p now s old moved here refl (ground arith) (λ t. ground arith) in
              by_if goal old.in_lru
                (λ _. (
                  promote-Sound (write_entry p moved) now kept moved
                      (find-put_self moved p.entries),
                  promote-Says p moved p.next_id,
                ))
                (λ _. (kept, write-Says p moved p.next_id))))

  pub track_timed-Sound :
      (key : ℕ) (value : V) (window : ℕ) (found : Option (Entry V))
      → find key p.entries ≡ found
      → window ≢ 0
      → let q = track_timed p now key value window found in
        Sound q now × Says p key (some (value, window, now + window)) q
  unfolding track_timed
  track_timed-Sound key value window none there timed =
      let e = create key value window (now + window) p.next_id in
      filed-Says p e (p.next_id + 1) now (file_new-Sound p now s e timed refl refl)
  track_timed-Sound key value window (some old) there timed =
      subst
        (λ (j : ℕ).
          let q = track_timed p now j value window (some old) in
          Sound q now × Says p j (some (value, window, now + window)) q)
        (s.0.keyed key old there) (retimed old value window (found_here key old there) timed)

module _ {V : Type 0} where
  Says-trans :
      (p q r : Policy V) (key : ℕ) (c d : Option (V × ℕ × ℕ))
      → Says p key c q
      → Says q key d r
      → Says p key d r
  Says-trans p q r key c d first second k = elim (Bool-cases (k == key)) [
    | inl here ↦ rw here (second k ∙ rw here refl)
    | inr other ↦ rw other (second k ∙ rw other (first k ∙ rw other refl))
  ]

  pub forget-Says : (p : Policy V) (key : ℕ) → IsPolicyFiled p → Says p key none (forget p key)
  forget-Says p key w k = elim (Bool-cases (k == key)) [
    | inl here ↦ rw (find-forget p key k w, here) refl
    | inr other ↦ rw (find-forget p key k w, other) refl
  ]

  absent-Says : (p : Policy V) (key : ℕ) → find key p.entries ≡ none → Says p key none p
  absent-Says p key there k = elim (Bool-cases (k == key)) [
    | inl here ↦ rw (here, eq_of_== k key here, there) refl
    | inr other ↦ rw other refl
  ]

-- What an entry without a window says, where there is one.
abbrev pub untimed_gist : {V : Type 0} → V → Option ℕ → Option (V × ℕ × ℕ)
untimed_gist value none = none
untimed_gist value (some d) = some (value, 0, d)

module _ {V : Type 0} (p : Policy V) (now : ℕ) (s : Sound p now) where
  -- From `p` to `q` the entry of `key` goes, or comes to hold `value` without a window.
  abbrev Untimes : ℕ → V → Policy V → Type 0
  Untimes key value q = Sound q now × ((d : Option ℕ) × Says p key (untimed_gist value d) q)

  untimed :
      (old : Entry V) (value : V)
      → find old.key p.entries ≡ some old
      → Untimes old.key value (track_untimed p old.key value (some old))
  unfolding track_untimed
  untimed old value here =
      let e = record old { value = value } in
      let q = write_entry p e in
      let kept = relink-Sound p now s old e here refl refl refl in
      let fresh = replacement q e 0 0 in
      by_if (Untimes old.key value) (e.window == 0)
        (λ level. (
          promote-Sound q now kept e (find-put_self e p.entries),
          (
            some e.deadline,
            subst (λ w. Says p old.key (some (value, w, e.deadline)) (promote q e)) (ground arith)
                (promote-Says p e p.next_id),
          ),
        ))
        (λ _.
          by_if (Untimes old.key value) (has_cap p)
            (λ _. (
              promote-Sound (add_entry q fresh) now (untimed_new-Sound q now kept fresh refl refl)
                  fresh (find-put_self fresh q.entries),
              (
                some 0,
                Says-trans p q (promote (add_entry q fresh) fresh) old.key (gist (some e))
                    (gist (some fresh)) (write-Says p e p.next_id)
                    (promote-Says q fresh (q.next_id + 1)),
              ),
            ))
            (λ _. (
              forget-Sound q now kept old.key,
              (
                none,
                Says-trans p q (forget q old.key) old.key (gist (some e)) none
                    (write-Says p e p.next_id) (forget-Says q old.key kept.0),
              ),
            )))

  pub track_untimed-Sound :
      (key : ℕ) (value : V) (found : Option (Entry V))
      → find key p.entries ≡ found
      → Untimes key value (track_untimed p key value found)
  unfolding track_untimed
  track_untimed-Sound key value none there =
      let e = create key value 0 0 p.next_id in
      by_if (Untimes key value) (has_cap p)
        (λ _. (
          promote-Sound (add_entry p e) now (untimed_new-Sound p now s e refl refl) e
              (find-put_self e p.entries),
          (some 0, promote-Says p e (p.next_id + 1)),
        ))
        (λ _. (s, (none, absent-Says p key there)))
  track_untimed-Sound key value (some old) there =
      subst (λ (j : ℕ). Untimes j value (track_untimed p j value (some old)))
        (s.0.keyed key old there) (untimed old value (found_here p now s key old there))
