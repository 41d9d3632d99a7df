-- ===== src/Collection/Store/Options.antt =====
-- The options under the methods of packages/collection/src/index.ts that change the map and its policy
-- together.
use lunibee.Base.{
  ℕ, zero, suc, ◌+◌, ◌*◌, Option, none, some, List, [], ◌∷◌, ltb, leb, Bool, not, ◌&&◌,
  if◌then◌else◌, by_if, length,
}
use lunibee.Collection.Maps.{find, put}
use lunibee.Collection.Policy.{
  Entry, Policy, EvictionReason, forget, pop_top, next_deadline, rearm, notify, expired, evicted,
}
use lunibee.Collection.Policy.Options.{
  Options, Has, promote-Has, forget-Has, settle-Has, rearm-Has, track_timed-Has, track_untimed-Has,
}
use lunibee.Collection.Store.{
  Kept, remove, expire, expire_if_due, is_due, purge_loop, purge_kept, notify_all, count_expired,
  top_of, is_passed, evict, evict_past, enforce_cap, oldest_of,
}
use lunibee.Collection.Keyed.{set_kept, track, rewrite, is_rewrite, is_over, cap_of, touch}

module _ {V : Type 0} (o : Options) where
  notify-Has :
      (p : Policy V) (key : ℕ) (value : Option V) (reason : EvictionReason)
      → Has o p
      → Has o (notify p key value reason)
  unfolding notify
  notify-Has p key value reason h = by_if (Has o) p.on_evict (λ _. h) (λ _. h)

  notify_all-Has :
      (p : Policy V) (dropped : List (ℕ × Option V)) → Has o p → Has o (notify_all p dropped)
  notify_all-Has p [] h = h
  notify_all-Has p ((key, value) ∷ dropped) h =
      notify_all-Has (notify p key value expired) dropped (notify-Has p key value expired h)

  pub expire-Has : (k : Kept V) (key : ℕ) → Has o k.policy → Has o (expire k key).policy
  unfolding expire remove
  expire-Has k key h =
      notify-Has (count_expired (forget k.policy key) 1) key (find key k.items) expired
        (forget-Has o k.policy key h)

  pub expire_if_due-Has :
      (k : Kept V) (now key : ℕ) → Has o k.policy → Has o (expire_if_due k now key).0.policy
  unfolding expire_if_due
  expire_if_due-Has k now key h =
      by_if (λ (r : Kept V × Bool). Has o r.0.policy) (is_due (find key k.policy.entries) now)
        (λ _. expire-Has k key h) (λ _. h)

  purge_loop-Has :
      (fuel : ℕ) (k : Kept V) (now : ℕ) → Has o k.policy → Has o (purge_loop fuel k now).0.policy
  unfolding purge_loop remove next_deadline
  purge_loop-Has zero k now h = h
  purge_loop-Has (suc fuel) k now h =
      let r = next_deadline k.policy in
      let settled = settle-Has o (2 * length k.policy.heap + 1) k.policy h in
      let key = (top_of r.0.heap).key in
      let removed = remove (record { items = k.items; policy = pop_top r.0 }) key in
      by_if (λ (l : Kept V × List (ℕ × Option V)). Has o l.0.policy) (is_passed r.1 now)
        (λ _. purge_loop-Has fuel removed now (forget-Has o (pop_top r.0) key settled))
        (λ _. settled)

  pub purge_kept-Has : (k : Kept V) (now : ℕ) → Has o k.policy → Has o (purge_kept k now).0.policy
  unfolding purge_kept
  purge_kept-Has k now h =
      let l = purge_loop (length k.policy.heap + 1) k now in
      let q = count_expired l.0.policy (length l.1) in
      by_if (λ (l : Kept V × ℕ). Has o l.0.policy) (leb (length k.policy.heap) 0) (λ _. h)
        (λ _.
          notify_all-Has (rearm q now) l.1
            (rearm-Has o q now (purge_loop-Has (length k.policy.heap + 1) k now h)))

  evict_past-Has :
      (fuel cap : ℕ) (k : Kept V) → Has o k.policy → Has o (evict_past fuel cap k).policy
  unfolding evict_past
  evict_past-Has zero cap k h = h
  evict_past-Has (suc fuel) cap k h =
      let next = evict k (oldest_of k.policy.recency) in
      by_if (λ (l : Kept V). Has o l.policy) (ltb cap k.policy.lru_size)
        (λ _. evict_past-Has fuel cap next (notify-Has _ _ _ evicted h)) (λ _. h)

  enforce_cap-Has :
      (k : Kept V) (cap now : ℕ) → Has o k.policy → Has o (enforce_cap k cap now).policy
  unfolding enforce_cap
  enforce_cap-Has k cap now h =
      let lapsed = not (leb (length k.policy.heap) 0) && leb ((top_of k.policy.heap).filed) now in
      let purged = if ltb cap k.policy.lru_size && lapsed then (purge_kept k now).0 else k in
      let kept : Has o purged.policy =
        by_if (λ (l : Kept V). Has o l.policy) (ltb cap k.policy.lru_size && lapsed)
          (λ _. purge_kept-Has k now h) (λ _. h) in
      evict_past-Has purged.policy.lru_size cap purged kept

  track-Has :
      (p : Policy V) (now key : ℕ) (value : V) (window : Option ℕ)
      → Has o p
      → Has o (track p now key value window)
  unfolding track
  track-Has p now key value none h = track_untimed-Has o p key value (find key p.entries) h
  track-Has p now key value (some w) h = track_timed-Has o p now key value w (find key p.entries) h

  rewrite-Has :
      (p : Policy V) (now : ℕ) (value : V) (found : Option (Entry V)) (window : Option ℕ)
      → Has o p
      → Has o (rewrite p now value found window)
  unfolding rewrite
  rewrite-Has p now value none window h = h
  rewrite-Has p now value (some e) none h = h
  rewrite-Has p now value (some e) (some w) h =
      by_if (Has o) e.in_lru (λ _. promote-Has o _ _ h) (λ _. h)

  pub set_kept-Has :
      (k : Kept V) (now key : ℕ) (value : V) (window : Option ℕ)
      → Has o k.policy
      → Has o (set_kept k now key value window).policy
  unfolding set_kept
  set_kept-Has k now key value window h =
      let found = find key k.policy.entries in
      let q = track k.policy now key value window in
      let tracked : Kept V = record { items = put key value k.items; policy = q } in
      let kept = track-Has k.policy now key value window h in
      let goal : Kept V → Type 0 = λ l. Has o l.policy in
      by_if goal (is_rewrite found window now) (λ _. rewrite-Has k.policy now value found window h)
        (λ _. by_if goal (is_over q) (λ _. enforce_cap-Has tracked (cap_of q) now kept) (λ _. kept))

  pub touch-Has : (p : Policy V) (now : ℕ) (e : Entry V) → Has o p → Has o (touch p now e)
  unfolding touch
  touch-Has p now e h = by_if (Has o) e.in_lru (λ _. promote-Has o _ _ h) (λ _. h)
