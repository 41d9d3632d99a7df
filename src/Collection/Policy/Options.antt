-- ===== src/Collection/Policy/Options.antt =====
-- The options of a `Policy` under the methods of packages/collection/src/index.ts.
use lunibee.Base.{
  ℕ, zero, suc, ◌+◌, ◌*◌, ◌≡◌, Option, none, some, List, [], ◌∷◌, ◌==◌, ltb, Bool, not, ◌&&◌, ◌||◌,
  is_some, if◌then◌else◌, by_if, length,
}
use lunibee.Collection.Maps.{find}
use lunibee.Collection.Heap.{Filing}
use lunibee.Collection.Policy.{
  Entry, Policy, promote, unlink, forget, forget_found, pass, pass_top, pop_top, refile, settle,
  next_deadline, compact, compact_if_large, rearm, arm, no_earlier, file, push_entry, has_cap,
  is_newest, track_timed, track_untimed,
}

pub record Options : Type 0 where
  pub ttl : Option ℕ
  pub jitter : ℕ
  pub max_size : Option ℕ
  pub slide : Bool
  pub on_evict : Bool

abbrev pub options : {V : Type 0} → Policy V → Options
options p = record {
  ttl = p.ttl;
  jitter = p.jitter;
  max_size = p.max_size;
  slide = p.slide;
  on_evict = p.on_evict;
}

module _ {V : Type 0} (o : Options) where
  abbrev pub Has : Policy V → Type 0
  Has p = options p ≡ o

  pub promote-Has : (p : Policy V) (e : Entry V) → Has p → Has (promote p e)
  unfolding promote
  promote-Has p e h =
      by_if Has (is_newest e.key p.recency) (λ _. h) (λ _. by_if Has e.in_lru (λ _. h) (λ _. h))

  forget_found-Has :
      (p : Policy V) (key : ℕ) (found : Option (Entry V)) → Has p → Has (forget_found p key found)
  unfolding forget_found unlink
  forget_found-Has p key none h = h
  forget_found-Has p key (some e) h = by_if Has e.in_lru (λ _. h) (λ _. h)

  pub forget-Has : (p : Policy V) (key : ℕ) → Has p → Has (forget p key)
  unfolding forget
  forget-Has p key h = forget_found-Has p key (find key p.entries) h

  module _ (p : Policy V) (popped : Policy V × Option ℕ) (again : Entry V → Policy V × Option ℕ)
      (h : Has p) (hp : Has popped.0) (ha : (e : Entry V) → Has (again e).0) where
    pass_top-Has : (x : Filing) (found : Option (Entry V)) → Has (pass_top p popped again x found).0
    unfolding pass_top
    pass_top-Has x none = hp
    pass_top-Has x (some e) =
        let goal : Policy V × Option ℕ → Type 0 = λ r. Has r.0 in
        by_if goal (e.id == x.id) (λ _. by_if goal (e.deadline == e.filed) (λ _. h) (λ _. ha e))
          (λ _. hp)

    pass-Has : (heap : List Filing) → Has (pass p popped again heap).0
    unfolding pass
    pass-Has [] = h
    pass-Has (x ∷ heap) = pass_top-Has x (find x.key p.entries)

module _ {V : Type 0} (o : Options) where
  pub settle-Has : (fuel : ℕ) (p : Policy V) → Has o p → Has o (settle fuel p).0
  unfolding settle
  settle-Has zero p h = h
  settle-Has (suc fuel) p h =
      pass-Has o p (settle fuel (pop_top p)) (λ e. settle fuel (refile p e)) h
        (settle-Has fuel (pop_top p) h) (λ e. settle-Has fuel (refile p e) h) p.heap

  arm-Has : (p : Policy V) (now : ℕ) (least : Option ℕ) → Has o p → Has o (arm p now least)
  arm-Has p now none h = h
  arm-Has p now (some t) h = h

  pub rearm-Has : (p : Policy V) (now : ℕ) → Has o p → Has o (rearm p now)
  unfolding rearm next_deadline
  rearm-Has p now h =
      let r = settle (2 * length p.heap + 1) p in
      let kept = settle-Has (2 * length p.heap + 1) p h in
      by_if (Has o) (is_some r.0.timer && no_earlier r.1 r.0.armed_for) (λ _. kept)
        (λ _. arm-Has r.0 now r.1 kept)

  file-Has : (p : Policy V) (now : ℕ) (e : Entry V) → Has o p → Has o (file p now e)
  unfolding file compact
  file-Has p now e h =
      let q = if has_cap p then promote p e else p in
      let linked : Has o q = by_if (Has o) (has_cap p) (λ _. promote-Has o p e h) (λ _. h) in
      let r = compact_if_large (push_entry q e) in
      let small : Has o r =
        by_if (Has o) (ltb (2 * length q.entries + 8) (length (push_entry q e).heap)) (λ _. linked)
          (λ _. linked) in
      by_if (Has o) (not (is_some r.timer) || not (no_earlier (some e.deadline) r.armed_for))
        (λ _. rearm-Has r now small) (λ _. small)

  pub track_timed-Has :
      (p : Policy V) (now key : ℕ) (value : V) (window : ℕ) (found : Option (Entry V))
      → Has o p
      → Has o (track_timed p now key value window found)
  unfolding track_timed
  track_timed-Has p now key value window none h = file-Has _ now _ h
  track_timed-Has p now key value window (some old) h =
      by_if (Has o) (old.window == 0) (λ _. file-Has _ now _ h)
        (λ _.
          by_if (Has o) (ltb (now + window) old.filed) (λ _. file-Has _ now _ h)
            (λ _. by_if (Has o) old.in_lru (λ _. promote-Has o _ _ h) (λ _. h)))

  pub track_untimed-Has :
      (p : Policy V) (key : ℕ) (value : V) (found : Option (Entry V))
      → Has o p
      → Has o (track_untimed p key value found)
  unfolding track_untimed
  track_untimed-Has p key value none h =
      by_if (Has o) (has_cap p) (λ _. promote-Has o _ _ h) (λ _. h)
  track_untimed-Has p key value (some old) h =
      by_if (Has o) (old.window == 0) (λ _. promote-Has o _ _ h)
        (λ _. by_if (Has o) (has_cap p) (λ _. promote-Has o _ _ h) (λ _. forget-Has o _ key h))
