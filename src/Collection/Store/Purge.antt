-- ===== src/Collection/Store/Purge.antt =====
-- `purge` of packages/collection/src/index.ts: the entries that it drops.
use lunibee.Base.{
  ℕ, zero, suc, ◌<◌, ◌≡◌, refl, ap, ◌∙◌, sym, subst, Option, none, some, List, ◌∷◌, ◌==◌, true,
  false, length, if◌then◌else◌, Bool-cases, inl, inr, arith,
}
use lunibee.Collection.Maps.{find}
use lunibee.Collection.Maps.Laws.{eq_of_==, find-drop, drop-IsMap, IsMap}
use lunibee.Collection.Heap.{Filing}
use lunibee.Collection.Heap.Count.{count, count-cons}
use lunibee.Collection.Policy.{Entry, Policy, forget, pop_top, next_deadline}
use lunibee.Collection.Filed.Settle.{
  IsPolicyFiled, IsSettled, alarm_of, topped, next_deadline-Settles, length-pop_top,
}
use lunibee.Collection.Filed.Quiet.{Quiet, faces, gist, gist-Quiet}
use lunibee.Collection.Filed.Armed.{IsLeast, next_deadline-IsLeast}
use lunibee.Collection.Filed.Forget.{
  find-forget, heap-forget, alarm-forget, forget-pop, pop_due-IsPolicyFiled,
}
use lunibee.Collection.Store.{Kept, is_due, is_passed, remove, purge_loop, top_of}

-- A map, its policy, and the copies of the values that the policy holds.
pub record IsKept {V : Type 0} (k : Kept V) : Type 0 where
  pub filed : IsPolicyFiled k.policy
  pub maps : IsMap k.items
  pub copied :
      (key : ℕ) (value : V) (window deadline : ℕ)
      → gist (find key k.policy.entries) ≡ some (value, window, deadline)
      → find key k.items ≡ some value

pub is_due-faces :
    {V : Type 0} (o : Option (Entry V)) (now : ℕ) → is_due (faces o) now ≡ is_due o now
is_due-faces none now = refl
is_due-faces (some e) now = refl

pub is_due-Quiet :
    {V : Type 0} (p q : Policy V) (now : ℕ)
    → Quiet p q
    → (key : ℕ) → is_due (find key q.entries) now ≡ is_due (find key p.entries) now
is_due-Quiet p q now quiet key =
    sym (is_due-faces (find key q.entries) now)
    ∙ (ap (λ o. is_due o now) (quiet.looks key) ∙ is_due-faces (find key p.entries) now)

pub find-popped :
    {V : Type 0} (p : Policy V) (key k : ℕ)
    → IsPolicyFiled p
    → find k (forget (pop_top p) key).entries ≡ (if k == key then none else find k p.entries)
find-popped {V} p key k w =
    ap (λ (q : Policy V). find k q.entries) (forget-pop p key) ∙ find-forget p key k w

-- The loop of `purge` from `k` at `now` ends with `last`.
pub record Purged {V : Type 0} (k : Kept V) (now : ℕ) (last : Kept V) : Type 0 where
  pub kept : IsKept last
  pub items :
      (key : ℕ)
      → find key last.items
        ≡ (if is_due (find key k.policy.entries) now then none else find key k.items)
  pub entries :
      (key : ℕ)
      → faces (find key last.policy.entries) ≡ (
          if is_due (find key k.policy.entries) now
          then none
          else faces (find key k.policy.entries))

-- The same, and the timer is as it was.
abbrev pub Looped : {V : Type 0} → Kept V → ℕ → Kept V → Type 0
Looped k now last = Purged k now last × (alarm_of last.policy ≡ alarm_of k.policy)

-- Past the first deadline nothing is due.
none_due :
    {V : Type 0} (q : Policy V) (now : ℕ) (least : Option ℕ)
    → IsPolicyFiled q
    → IsLeast q.entries least
    → is_passed least now ≡ false
    → (key : ℕ) (found : Option (Entry V)) → find key q.entries ≡ found
    → is_due found now ≡ false
none_due q now least w low ahead key none there = refl
none_due q now none w low ahead key (some e) there = ground (arith, low key e there)
none_due q now (some t) w low ahead key (some e) there =
    ground (arith, low key e there, w.early key e there)

-- The heap of `#nextDeadline` in place of the one before.
pub settled-IsKept :
    {V : Type 0} (k : Kept V) (q : Policy V)
    → IsKept k
    → IsPolicyFiled q
    → ((key : ℕ) → gist (find key q.entries) ≡ gist (find key k.policy.entries))
    → IsKept (record { items = k.items; policy = q })
settled-IsKept k q w filed looks = record {
  filed = filed;
  maps = w.maps;
  copied = λ key value window deadline there.
      w.copied key value window deadline (sym (looks key) ∙ there);
}

remove_due-IsKept :
    {V : Type 0} (k : Kept V) (x : Filing) (h : List Filing)
    → IsKept k
    → k.policy.heap ≡ x ∷ h
    → IsKept (remove (record { items = k.items; policy = pop_top k.policy }) x.key)
unfolding remove
remove_due-IsKept k x h w heap = record {
  filed = pop_due-IsPolicyFiled k.policy x h w.filed heap;
  maps = drop-IsMap x.key k.items w.maps;
  copied = λ key value window deadline there. elim (Bool-cases (key == x.key)) [
    | inl here ↦ absurd (ground (arith, there, rw here at (find-popped k.policy x.key key w.filed)))
    | inr other ↦
        let popped = rw other at (find-popped k.policy x.key key w.filed) in
        rw (find-drop x.key key k.items w.maps, other)
          (w.copied key value window deadline (sym (ap gist popped) ∙ there))
  ];
}

module _ {V : Type 0} (k : Kept V) (now : ℕ) (w : IsKept k) where
  -- The loop ends where `#nextDeadline` is past `now`.
  pub stop-Looped :
      (q : Policy V) (least : Option ℕ)
      → IsPolicyFiled q
      → IsLeast q.entries least
      → Quiet k.policy q
      → alarm_of q ≡ alarm_of k.policy
      → is_passed least now ≡ false
      → Looped k now (record { items = k.items; policy = q })
  stop-Looped q least filed low quiet alarm ahead =
      let idle = λ (key : ℕ).
        sym (is_due-Quiet k.policy q now quiet key)
        ∙ none_due q now least filed low ahead key (find key q.entries) refl in
      (
        record {
          kept = settled-IsKept k q w filed (gist-Quiet k.policy q quiet);
          items = λ key. rw (idle key) refl;
          entries = λ key. rw (idle key) (quiet.looks key);
        },
        alarm,
      )

  -- A turn of the loop drops an entry that is due.
  turn-Looped :
      (q : Policy V) (x : Filing) (h : List Filing) (e : Entry V) (last : Kept V)
      → IsPolicyFiled q
      → Quiet k.policy q
      → alarm_of q ≡ alarm_of k.policy
      → find x.key q.entries ≡ some e
      → is_due (some e) now ≡ true
      → Looped (remove (record { items = k.items; policy = pop_top q }) x.key) now last
      → Looped k now last
  unfolding remove
  turn-Looped q x h e last filed quiet alarm there due later =
      let popped = λ (key : ℕ). find-popped q x.key key filed in
      let same = λ (key : ℕ). is_due-Quiet k.policy q now quiet key in
      let here : is_due (find x.key k.policy.entries) now ≡ true =
        sym (same x.key) ∙ (ap (λ o. is_due o now) there ∙ due) in
      let due_at : (key : ℕ)
          → (key == x.key) ≡ true
          → is_due (find key k.policy.entries) now ≡ true =
        λ key at_x. rw (eq_of_== key x.key at_x) here in
      let gone = λ (key : ℕ). find-drop x.key key k.items w.maps in
      (
        record {
          kept = later.0.kept;
          items = λ key. elim (Bool-cases (key == x.key)) [
            | inl at_x ↦
                rw (due_at key at_x)
                  (later.0.items key ∙ rw (popped key, at_x, gone key, at_x) refl)
            | inr other ↦
                rw⁻¹ (same key) (later.0.items key ∙ rw (popped key, other, gone key, other) refl)
          ];
          entries = λ key. elim (Bool-cases (key == x.key)) [
            | inl at_x ↦ rw (due_at key at_x) (later.0.entries key ∙ rw (popped key, at_x) refl)
            | inr other ↦
                rw⁻¹ (same key, quiet.looks key) (later.0.entries key ∙ rw (popped key, other) refl)
          ];
        },
        later.1 ∙ (alarm-forget (pop_top q) x.key ∙ alarm),
      )

popped_turn-Looped :
    {V : Type 0} (k : Kept V) (now : ℕ)
    → IsKept k
    → (q : Policy V) (least : Option ℕ) → IsPolicyFiled q
    → Quiet k.policy q
    → alarm_of q ≡ alarm_of k.policy
    → IsSettled q least
    → is_passed least now ≡ true
    → (next : Kept V → Kept V)
    → ((x : Filing) (h : List Filing)
        → q.heap ≡ x ∷ h
        → let removed = remove (record { items = k.items; policy = pop_top q }) x.key in
          Looped removed now (next removed))
    → Looped k now
        (next (remove (record { items = k.items; policy = pop_top q }) ((top_of q.heap).key)))
popped_turn-Looped k now w q none filed quiet alarm settled passed next ih =
    absurd (ground (arith, passed))
popped_turn-Looped k now w q (some t) filed quiet alarm (topped x h e heap there live level) passed
      next ih =
    let held : 0 < count x q.heap = rw heap (ground (arith, count-cons x x h)) in
    let timed = (filed.agrees x e held there live).1 in
    subst
      (λ (key : ℕ).
        Looped k now (next (remove (record { items = k.items; policy = pop_top q }) key)))
      (sym (ap (λ H. (top_of H).key) heap))
      (turn-Looped k now w q x h e _ filed quiet alarm there (ground (arith, passed, level))
        (ih x h heap))

pub purge_loop-Looped :
    {V : Type 0} (fuel : ℕ) (k : Kept V) (now : ℕ)
    → IsKept k
    → length k.policy.heap < fuel
    → Looped k now ((purge_loop fuel k now).0)
unfolding purge_loop remove
purge_loop-Looped zero k now w enough = absurd (omega arith)
purge_loop-Looped {V} (suc fuel) k now w enough =
    let (filed, settled, quiet, alarm, shorter) = next_deadline-Settles k.policy w.filed in
    let low = next_deadline-IsLeast k.policy w.filed in
    elim (Bool-cases (is_passed ((next_deadline k.policy).1) now)) [
      | inr ahead ↦ rw ahead (stop-Looped k now w _ _ filed low quiet alarm ahead)
      | inl passed ↦ rw passed (
          popped_turn-Looped k now w ((next_deadline k.policy).0) ((next_deadline k.policy).1) filed
            quiet alarm settled passed (λ (r : Kept V). (purge_loop fuel r now).0)
            (λ x h heap.
              let q = (next_deadline k.policy).0 in
              let settled_k = settled-IsKept k q w filed (gist-Quiet k.policy q quiet) in
              purge_loop-Looped fuel _ now
                (remove_due-IsKept (record { items = k.items; policy = q }) x h settled_k heap)
                (omega (
                  arith,
                  shorter,
                  length-pop_top q x h heap,
                  ap length (heap-forget (pop_top q) x.key),
                ))))
    ]
