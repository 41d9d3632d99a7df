-- ===== src/Collection/Filed/Track.antt =====
-- The end of `#track` of packages/collection/src/index.ts.
use lunibee.Base.{
  ℕ, ◌+◌, ◌*◌, ◌≤◌, ◌<◌, ◌≡◌, ◌≢◌, ◌⊎◌, refl, ap, ◌∙◌, sym, subst, Option, none, some, List, ltb,
  length, true, false, ◌||◌, not, is_some, if◌then◌else◌, by_if, inl, inr, arith,
}
use lunibee.Collection.Maps.{find, put}
use lunibee.Collection.Maps.Laws.{find-put}
use lunibee.Collection.Heap.{Filing, heap_push}
use lunibee.Collection.Heap.Count.{count}
use lunibee.Collection.Policy.{
  Entry, Policy, filing, promote, no_earlier, is_newest, compact, file, has_cap, add_entry,
  write_entry, push_entry, compact_if_large, rearm_if_earlier,
}
use lunibee.Collection.Filed.{IsFiled}
use lunibee.Collection.Filed.Moves.{
  rewrite-IsFiled, untimed-IsFiled, filed-IsFiled, compact-IsFiled,
}
use lunibee.Collection.Filed.Settle.{IsPolicyFiled}
use lunibee.Collection.Filed.Armed.{IsArmed, rings_by, rings_before, rearm_lem}
use lunibee.Collection.Filed.Quiet.{Quiet, Quiet-refl, Quiet-trans}
use lunibee.Collection.Filed.Calls.{Sound}

-- As `IsArmed`, but an entry may be filed at `deadline` as well.
record IsArmedBut {V : Type 0} (E : List (ℕ × Entry V)) (timer armed : Option ℕ) (now deadline : ℕ)
    : Type 0 where
  alarm : rings_by timer armed now ≡ true
  covers :
      (k : ℕ) (e : Entry V)
      → find k E ≡ some e
      → e.window ≢ 0
      → (rings_before timer armed e.filed ≡ true) ⊎ (e.filed ≡ deadline)

put-IsArmedBut :
    {V : Type 0} (E : List (ℕ × Entry V)) (timer armed : Option ℕ) (now : ℕ) (e : Entry V)
    → IsArmed E timer armed now
    → IsArmedBut (put e.key e E) timer armed now e.filed
put-IsArmedBut E timer armed now e a = record {
  alarm = a.alarm;
  covers = λ k d there timed. ground (arith, find-put e.key k e E, a.covers k d);
}

-- The part of `#track`'s end that does not touch the heap.
abbrev pub linked : {V : Type 0} → Policy V → Entry V → Policy V
linked p e = if has_cap p then promote p e else p

-- The state of `#track` before it pushes the record of `e`.
abbrev Pushable : {V : Type 0} → Policy V → ℕ → Entry V → Type 0
Pushable p now e =
    IsFiled p.entries (heap_push p.heap (filing e)) p.next_id
    × IsArmedBut p.entries p.timer p.armed_for now e.deadline

rings_of_later :
    (timer armed : Option ℕ) (deadline : ℕ)
    → (not (is_some timer) || not (no_earlier (some deadline) armed)) ≡ false
    → rings_before timer armed deadline ≡ true
rings_of_later none armed deadline later = absurd (ground arith)
rings_of_later (some t) none deadline later = absurd (ground arith)
rings_of_later (some t) (some a) deadline later = ground arith

module _ {V : Type 0} (p : Policy V) (now : ℕ) where
  rearm_if_earlier-Sound :
      (deadline : ℕ)
      → IsPolicyFiled p
      → IsArmedBut p.entries p.timer p.armed_for now deadline
      → Sound (rearm_if_earlier p now deadline) now × Quiet p (rearm_if_earlier p now deadline)
  rearm_if_earlier-Sound deadline filed but =
      let early = not (is_some p.timer) || not (no_earlier (some deadline) p.armed_for) in
      by_if (λ (q : Policy V). Sound q now × Quiet p q) early
        (λ _. let r = rearm_lem p now filed but.alarm in ((r.filed, r.armed), r.quiet))
        (λ later.
          let rings = rings_of_later p.timer p.armed_for deadline later in
          (
            (
              filed,
              record {
                alarm = but.alarm;
                covers = λ k e there timed. elim (but.covers k e there timed) [
                  | inl covered ↦ covered
                  | inr here ↦ rw here rings
                ];
              },
            ),
            Quiet-refl p,
          ))

  compact_if_large-Pushed :
      (deadline : ℕ)
      → IsPolicyFiled p
      → IsArmedBut p.entries p.timer p.armed_for now deadline
      → IsPolicyFiled (compact_if_large p)
        × IsArmedBut
            (compact_if_large p).entries
            (compact_if_large p).timer
            (compact_if_large p).armed_for
            now
            deadline
        × Quiet p (compact_if_large p)
  unfolding compact
  compact_if_large-Pushed deadline filed but =
      by_if
        (λ (q : Policy V).
          IsPolicyFiled q × IsArmedBut q.entries q.timer q.armed_for now deadline × Quiet p q)
        (ltb (2 * length p.entries + 8) (length p.heap))
        (λ _. (
          compact-IsFiled p.entries p.heap p.next_id filed,
          but,
          record { looks = λ k. refl; others = refl },
        ))
        (λ _. (filed, but, Quiet-refl p))

module _ {V : Type 0} (p : Policy V) (now : ℕ) (e : Entry V) (there : find e.key p.entries ≡ some e)
    (level : e.filed ≡ e.deadline) (ready : Pushable p now e) where
  linked-Pushable : Pushable (write_entry p (record e { in_lru = true })) now e
  linked-Pushable =
      let e' = record e { in_lru = true } in
      (
        rewrite-IsFiled p.entries (heap_push p.heap (filing e)) p.next_id ready.0 e e' there refl
            (ground arith) (λ t. omega (arith, level)),
        record {
          alarm = ready.1.alarm;
          covers =
              λ k d found timed. ground (arith, find-put e.key k e' p.entries, ready.1.covers k d);
        },
      )

  promote-Pushable : Pushable (promote p e) now e
  unfolding promote
  promote-Pushable =
      by_if (λ (q : Policy V). Pushable q now e) (is_newest e.key p.recency) (λ _. ready)
        (λ _.
          by_if (λ (q : Policy V). Pushable q now e) e.in_lru (λ _. ready) (λ _. linked-Pushable))

  file-Sound : Sound (file p now e) now × Quiet (linked p e) (file p now e)
  unfolding file
  file-Sound =
      let q = linked p e in
      let pushable : Pushable q now e =
        by_if (λ (q : Policy V). Pushable q now e) (has_cap p) (λ _. promote-Pushable)
          (λ _. ready) in
      let (filed, but, quiet) =
        compact_if_large-Pushed (push_entry q e) now e.deadline pushable.0 pushable.1 in
      let (sound, quiet') =
        rearm_if_earlier-Sound (compact_if_large (push_entry q e)) now e.deadline filed but in
      (sound, Quiet-trans (record { looks = quiet.looks; others = quiet.others }) quiet')

-- A record that is new at its key, pushed.
push_new-Pushable :
    {V : Type 0} (p : Policy V) (now : ℕ) (e : Entry V) (n : ℕ)
    → Sound p now
    → e.window ≢ 0
    → e.filed ≡ e.deadline
    → p.next_id ≤ n
    → e.id < n
    → ((f : Filing) → f.key ≡ e.key → 0 < count f p.heap → f.id ≢ e.id)
    → Pushable (record p { entries = put e.key e p.entries; next_id = n }) now e
push_new-Pushable p now e n s timed level grown older unheld = (
  filed-IsFiled p.entries p.heap p.next_id s.0 e n timed level grown older unheld,
  subst (IsArmedBut (put e.key e p.entries) p.timer p.armed_for now) level
      (put-IsArmedBut p.entries p.timer p.armed_for now e s.1),
)

pub find-put_self :
    {V : Type 0} (e : Entry V) (E : List (ℕ × Entry V)) → find e.key (put e.key e E) ≡ some e
find-put_self e E = ground (arith, find-put e.key e.key e E)

module _ {V : Type 0} (p : Policy V) (now : ℕ) (s : Sound p now) where
  -- A record that `#create` or `#replace` makes, filed.
  pub file_new-Sound :
      (e : Entry V)
      → e.window ≢ 0
      → e.filed ≡ e.deadline
      → e.id ≡ p.next_id
      → Sound (file (add_entry p e) now e) now
        × Quiet (linked (add_entry p e) e) (file (add_entry p e) now e)
  file_new-Sound e timed level fresh =
      file-Sound (add_entry p e) now e (find-put_self e p.entries) level (
        push_new-Pushable p now e (p.next_id + 1) s timed level (omega arith) (omega arith)
          (λ f k held. ground (arith, s.0.old_record f held)))

  pub file_old-Sound :
      (old e : Entry V)
      → find old.key p.entries ≡ some old
      → old.window ≡ 0
      → e.window ≢ 0
      → e.filed ≡ e.deadline
      → e.id ≡ old.id
      → e.key ≡ old.key
      → Sound (file (write_entry p e) now e) now
        × Quiet (linked (write_entry p e) e) (file (write_entry p e) now e)
  file_old-Sound old e there untimed timed level same key =
      file-Sound (write_entry p e) now e (find-put_self e p.entries) level (
        push_new-Pushable p now e p.next_id s timed level (omega arith)
          (ground (arith, s.0.old_entry old.key old there))
          (λ f k held i.
            let found : find f.key p.entries ≡ some old =
              ap (λ j. find j p.entries) (k ∙ key) ∙ there in
            (s.0.agrees f old held found (sym (i ∙ same))).1 untimed))

  pub untimed_new-Sound :
      (e : Entry V) → e.window ≡ 0 → e.id ≡ p.next_id → Sound (add_entry p e) now
  untimed_new-Sound e untimed fresh = (
    untimed-IsFiled p.entries p.heap p.next_id s.0 e fresh untimed,
    record {
      alarm = s.1.alarm;
      covers = λ k d there timed. ground (arith, find-put e.key k e p.entries, s.1.covers k d);
    },
  )
