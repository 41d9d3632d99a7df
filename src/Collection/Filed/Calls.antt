-- ===== src/Collection/Filed/Calls.antt =====
-- The methods of packages/collection/src/index.ts that change a `Policy`, and the agreement of its
-- entries, its heap and its timer.
use lunibee.Base.{
  ℕ, ◌≤◌, ◌≡◌, ◌≢◌, refl, ap, ◌∙◌, Option, none, some, List, true, false, if◌then◌else◌, by_if,
  arith, ◌↔◌,
}
use lunibee.Collection.Maps.{find, put, drop}
use lunibee.Collection.Maps.Laws.{IsMap, find-put, find-drop}
use lunibee.Collection.Policy.{
  Entry, Policy, filing, promote, unlink, forget, is_newest, write_entry, forget_found,
}
use lunibee.Collection.Filed.{drop-IsFiled}
use lunibee.Collection.Filed.Moves.{rewrite-IsFiled}
use lunibee.Collection.Filed.Settle.{IsPolicyFiled}
use lunibee.Collection.Filed.Armed.{IsArmed, IsPolicyArmed, rings_before}

-- The entries, the heap and the timer of a policy agree at `now`.
abbrev pub Sound : {V : Type 0} → Policy V → ℕ → Type 0
Sound p now = IsPolicyFiled p × IsPolicyArmed p now

module _ {V : Type 0} (E : List (ℕ × Entry V)) (timer armed : Option ℕ) (now : ℕ)
    (a : IsArmed E timer armed now) where
  put-IsArmed :
      (e : Entry V)
      → (e.window ≢ 0 → rings_before timer armed e.filed ≡ true)
      → IsArmed (put e.key e E) timer armed now
  put-IsArmed e covered = record {
    alarm = a.alarm;
    covers = λ k d there timed. ground (arith, find-put e.key k e E, a.covers k d, covered);
  }

  drop-IsArmed : (key : ℕ) → IsMap E → IsArmed (drop key E) timer armed now
  drop-IsArmed key maps = record {
    alarm = a.alarm;
    covers = λ k d there timed. ground (arith, find-drop key k E maps, a.covers k d);
  }

module _ {V : Type 0} (p : Policy V) (now : ℕ) (s : Sound p now) where
  -- A write to an entry of the map that leaves where it is filed.
  pub rewrite-Sound :
      (e e' : Entry V)
      → find e.key p.entries ≡ some e
      → filing e' ≡ filing e
      → ((e'.window ≢ 0) ↔ (e.window ≢ 0))
      → (e'.window ≢ 0 → e'.filed ≤ e'.deadline)
      → Sound (write_entry p e') now
  rewrite-Sound e e' there same timed early =
      let filed : e'.filed ≡ e.filed = ap (λ f. f.filed) same in
      (
        rewrite-IsFiled p.entries p.heap p.next_id s.0 e e' there same timed early,
        put-IsArmed p.entries p.timer p.armed_for now s.1 e'
            (λ t. rw filed (s.1.covers e.key e there (timed.0 t))),
      )

  pub drop-Sound : (key : ℕ) → Sound (record p { entries = drop key p.entries }) now
  drop-Sound key = (
    drop-IsFiled p.entries p.heap p.next_id s.0 key,
    drop-IsArmed p.entries p.timer p.armed_for now s.1 key s.0.maps,
  )

  -- A write to the fields of an entry that say nothing of its expiry.
  pub relink-Sound :
      (e e' : Entry V)
      → find e.key p.entries ≡ some e
      → filing e' ≡ filing e
      → e'.window ≡ e.window
      → e'.deadline ≡ e.deadline
      → Sound (write_entry p e') now
  relink-Sound e e' there same window deadline =
      let filed : e'.filed ≡ e.filed = ap (λ f. f.filed) same in
      rewrite-Sound e e' there same (ground (arith, window))
        (λ t. ground (arith, s.0.early e.key e there))

  pub promote-Sound : (e : Entry V) → find e.key p.entries ≡ some e → Sound (promote p e) now
  unfolding promote
  promote-Sound e there =
      by_if (λ (q : Policy V). Sound q now) (is_newest e.key p.recency) (λ _. s)
        (λ _.
          by_if (λ (q : Policy V). Sound q now) e.in_lru (λ _. s)
            (λ _. relink-Sound e (record e { in_lru = true }) there refl refl refl))

  pub unlink-Sound : (e : Entry V) → find e.key p.entries ≡ some e → Sound (unlink p e) now
  unfolding unlink
  unlink-Sound e there = relink-Sound e (record e { in_lru = false }) there refl refl refl

  pub unlink_if-Sound :
      (e : Entry V) → find e.key p.entries ≡ some e → Sound (if e.in_lru then unlink p e else p) now
  unlink_if-Sound e there =
      by_if (λ (q : Policy V). Sound q now) e.in_lru (λ _. unlink-Sound e there) (λ _. s)

module _ {V : Type 0} (p : Policy V) (now : ℕ) (s : Sound p now) where
  forget_found-Sound :
      (key : ℕ) (found : Option (Entry V))
      → find key p.entries ≡ found
      → Sound (forget_found p key found) now
  unfolding forget_found
  forget_found-Sound key none there = s
  forget_found-Sound key (some e) there =
      let here : find e.key p.entries ≡ some e =
        ap (λ k. find k p.entries) (s.0.keyed key e there) ∙ there in
      drop-Sound (if e.in_lru then unlink p e else p) now (unlink_if-Sound p now s e here) key

  pub forget-Sound : (key : ℕ) → Sound (forget p key) now
  unfolding forget
  forget-Sound key = forget_found-Sound key (find key p.entries) refl
