-- ===== src/Collection/Filed/Moves.antt =====
-- The writes of the `Policy` of packages/collection/src/index.ts, each with the heap that it leaves.
use lunibee.Base.{
  ℕ, ◌+◌, ◌<◌, ◌≤◌, ◌≡◌, ◌≢◌, refl, ap, ◌∙◌, sym, subst, true, false, some, List, [], ◌∷◌, ◌↔◌,
  Bool-cases, inl, inr, arith, keep,
}
use lunibee.Collection.Maps.{find, put}
use lunibee.Collection.Heap.{Filing, heap_push, heap_pop}
use lunibee.Collection.Heap.Order.{IsHeap}
use lunibee.Collection.Heap.Up.{heap_push-IsHeap}
use lunibee.Collection.Heap.Down.{heap_pop-IsHeap}
use lunibee.Collection.Heap.Count.{
  count, count-heap_push, count-heap_pop, count-cons, count-nil, count-keep, same_filing,
}
use lunibee.Collection.Policy.{Entry, filing, is_live, push_all}
use lunibee.Collection.Filed.{IsFiled, put-IsFiled}

pub live_of :
    {V : Type 0} (E : List (ℕ × Entry V)) (f : Filing) (e : Entry V)
    → find f.key E ≡ some e
    → e.id ≡ f.id
    → is_live E f ≡ true
live_of E f e there same = ground (arith, there)

module _ {V : Type 0} (E : List (ℕ × Entry V)) (H : List Filing) (n : ℕ) (w : IsFiled E H n) where
  -- A write to an entry that leaves its identity and its place in the heap.
  pub rewrite-IsFiled :
      (e e' : Entry V)
      → find e.key E ≡ some e
      → filing e' ≡ filing e
      → ((e'.window ≢ 0) ↔ (e.window ≢ 0))
      → (e'.window ≢ 0 → e'.filed ≤ e'.deadline)
      → IsFiled (put e'.key e' E) H n
  rewrite-IsFiled e e' there same timed early =
      let key : e'.key ≡ e.key = ap (λ f. f.key) same in
      let id : e'.id ≡ e.id = ap (λ f. f.id) same in
      let filed : e'.filed ≡ e.filed = ap (λ f. f.filed) same in
      put-IsFiled E H n e' H n w (record {
        ordered = w.ordered;
        single = w.single;
        others = λ f h. refl;
        own = λ f h c i. ground (arith, w.agrees f e c, timed);
        held = λ t. subst (λ f. 0 < count f H) (sym same) (w.covered e.key e there (timed.0 t));
        grown = ground arith;
        older = ground (arith, w.old_entry e.key e there);
        older_record = w.old_record;
        early = early;
      })

  -- An entry that does not expire, in a new record.
  pub untimed-IsFiled : (e : Entry V) → e.id ≡ n → e.window ≡ 0 → IsFiled (put e.key e E) H (n + 1)
  untimed-IsFiled e fresh untimed = put-IsFiled E H n e H (n + 1) w (record {
    ordered = w.ordered;
    single = w.single;
    others = λ f h. refl;
    own = λ f h c i. absurd (ground (arith, w.old_record f c));
    held = λ t. absurd (t untimed);
    grown = omega arith;
    older = omega arith;
    older_record = λ f c. ground (arith, w.old_record f c);
    early = λ t. absurd (t untimed);
  })

  -- An entry that expires and that no record of the heap stands for, with its record.
  pub filed-IsFiled :
      (e : Entry V) (n' : ℕ)
      → e.window ≢ 0
      → e.filed ≡ e.deadline
      → n ≤ n'
      → e.id < n'
      → ((f : Filing) → f.key ≡ e.key → 0 < count f H → f.id ≢ e.id)
      → IsFiled (put e.key e E) (heap_push H (filing e)) n'
  filed-IsFiled e n' timed level grown older unheld =
      let H' = heap_push H (filing e) in
      let counted = λ (f : Filing). count-heap_push f H (filing e) in
      put-IsFiled E H n e H' n' w (record {
        ordered = heap_push-IsHeap H (filing e) w.ordered;
        single = λ f. ground (arith, counted f, w.single f, unheld f);
        others = λ f h. ground (arith, counted f);
        own = λ f h c i. ground (arith, counted f, unheld f);
        held = λ t. ground (arith, counted (filing e));
        grown = grown;
        older = older;
        older_record = λ f c. ground (arith, counted f, w.old_record f);
        early = λ t. ground arith;
      })

  -- A heap with fewer records that has all live ones.
  pub fewer-IsFiled :
      (H' : List Filing)
      → IsHeap H'
      → ((f : Filing) → count f H' ≤ count f H)
      → ((f : Filing) → is_live E f ≡ true → count f H' ≡ count f H)
      → IsFiled E H' n
  fewer-IsFiled H' heap fewer live = record {
    maps = w.maps;
    keyed = w.keyed;
    ordered = heap;
    covered = λ k e h t.
        let here : find e.key E ≡ some e = ap (λ j. find j E) (w.keyed k e h) ∙ h in
        ground (arith, live (filing e) (live_of E (filing e) e here refl), w.covered k e h t);
    agrees = λ f e c. w.agrees f e (ground (arith, fewer f));
    single = λ f. ground (arith, fewer f, w.single f);
    old_record = λ f c. w.old_record f (ground (arith, fewer f));
    old_entry = w.old_entry;
    early = w.early;
  }

-- A test by the key and the identity does not tell equal records apart.
is_live_alike :
    {V : Type 0} (E : List (ℕ × Entry V)) (f x : Filing)
    → same_filing f x ≡ true
    → is_live E x ≡ is_live E f
is_live_alike E f x same =
    let key : x.key ≡ f.key = ground arith in
    let id : x.id ≡ f.id = ground arith in rw (key, id) refl

-- The top of the heap is stale and leaves it.
pub pop_stale-IsFiled :
    {V : Type 0} (E : List (ℕ × Entry V)) (x : Filing) (h : List Filing) (n : ℕ)
    → IsFiled E (x ∷ h) n
    → is_live E x ≡ false
    → IsFiled E (heap_pop (x ∷ h)) n
pop_stale-IsFiled E x h n w stale =
    let counted = λ (f : Filing). count-heap_pop f x h in
    fewer-IsFiled E (x ∷ h) n w (heap_pop (x ∷ h)) (heap_pop-IsHeap (x ∷ h) w.ordered)
      (λ f. ground (arith, counted f))
      (λ f live. elim (Bool-cases (same_filing f x)) [
        | inl same ↦ absurd (ground (arith, is_live_alike E f x same))
        | inr other ↦ ground (arith, counted f)
      ])

-- A live top of the heap has no second record under its entry.
popped_gone :
    {V : Type 0} (E : List (ℕ × Entry V)) (x : Filing) (h : List Filing) (n : ℕ) (e : Entry V)
    → IsFiled E (x ∷ h) n
    → find x.key E ≡ some e
    → e.id ≡ x.id
    → (f : Filing) → f.key ≡ x.key
    → f.id ≡ x.id
    → count f (heap_pop (x ∷ h)) ≡ 0
popped_gone E x h n e w there live f k i =
    let at_x = w.agrees x e (ground (arith, count-cons x x h)) there live in
    let at_f = λ (c : 0 < count f (x ∷ h)). w.agrees f e c (rw k there) (ground arith) in
    ground (arith, count-heap_pop f x h, w.single f, at_x, at_f)

-- The top of the heap is live and is filed again, at its entry's deadline.
pub refile-IsFiled :
    {V : Type 0} (E : List (ℕ × Entry V)) (x : Filing) (h : List Filing) (n : ℕ) (e e' : Entry V)
    → IsFiled E (x ∷ h) n
    → find x.key E ≡ some e
    → e.id ≡ x.id
    → e.deadline ≢ e.filed
    → filing e' ≡ record (filing e) { filed = e.deadline }
    → e'.window ≡ e.window
    → e'.deadline ≡ e.deadline
    → IsFiled (put e'.key e' E) (heap_push (heap_pop (x ∷ h)) (filing e')) n
refile-IsFiled E x h n e e' w there live moved same window deadline =
    let key : e'.key ≡ e.key = ap (λ f. f.key) same in
    let id : e'.id ≡ e.id = ap (λ f. f.id) same in
    let filed : e'.filed ≡ e.deadline = ap (λ f. f.filed) same in
    let at_key : e.key ≡ x.key = w.keyed x.key e there in
    let popped = λ (f : Filing). count-heap_pop f x h in
    let pushed = λ (f : Filing). count-heap_push f (heap_pop (x ∷ h)) (filing e') in
    let timed = (w.agrees x e (ground (arith, count-cons x x h)) there live).1 in
    let gone = popped_gone E x h n e w there live in
    put-IsFiled E (x ∷ h) n e' (heap_push (heap_pop (x ∷ h)) (filing e')) n w (record {
      ordered = heap_push-IsHeap (heap_pop (x ∷ h)) (filing e') (heap_pop-IsHeap (x ∷ h) w.ordered);
      single = λ f. ground (arith, popped f, pushed f, gone f, w.single f);
      others = λ f k. ground (arith, popped f, pushed f);
      own = λ f k c i. ground (arith, pushed f, gone f, timed);
      held = λ t. ground (arith, pushed (filing e'));
      grown = omega arith;
      older = ground (arith, w.old_entry x.key e there);
      older_record =
          λ f c. ground (arith, popped f, pushed f, w.old_record f, w.old_entry x.key e there);
      early = λ t. ground arith;
    })

push_all-IsHeap : (fs h : List Filing) → IsHeap h → IsHeap (push_all fs h)
unfolding push_all
push_all-IsHeap [] h heap = heap
push_all-IsHeap (f ∷ fs) h heap = push_all-IsHeap fs (heap_push h f) (heap_push-IsHeap h f heap)

count-push_all :
    (f : Filing) (fs h : List Filing) → count f (push_all fs h) ≡ count f fs + count f h
unfolding push_all
count-push_all f [] h = ground (arith, count-nil f)
count-push_all f (x ∷ fs) h =
    ground (arith, count-push_all f fs (heap_push h x), count-heap_push f h x, count-cons f x fs)

-- The heap that `#compact` builds.
pub compact-IsFiled :
    {V : Type 0} (E : List (ℕ × Entry V)) (H : List Filing) (n : ℕ)
    → IsFiled E H n
    → IsFiled E (push_all (keep (is_live E) H) []) n
compact-IsFiled E H n w =
    let kept = λ (f : Filing). count-keep (is_live E) f H (is_live_alike E f) in
    let pushed = λ (f : Filing). count-push_all f (keep (is_live E) H) [] in
    fewer-IsFiled E H n w (push_all (keep (is_live E) H) [])
      (push_all-IsHeap (keep (is_live E) H) [] (λ c p q. absurd (omega arith)))
      (λ f. ground (arith, kept f, pushed f, count-nil f))
      (λ f live. ground (arith, kept f, pushed f, count-nil f))
