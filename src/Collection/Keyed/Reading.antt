-- ===== src/Collection/Keyed/Reading.antt =====
-- `peek`, `has` and `delete` of packages/collection/src/index.ts, as reads and updates of the map with
-- lifetimes that a collection means.
use lunibee.Base.{
  ℕ, ◌≡◌, refl, ap, ◌∙◌, sym, Option, none, some, ◌==◌, ==_self, Bool, true, false, not, ◌&&◌,
  is_some, Bool-cases, by_if, inl, inr, arith,
}
use lunibee.Collection.Maps.{find, drop, has_key}
use lunibee.Collection.Maps.Laws.{find-drop, drop-IsMap}
use lunibee.Collection.Policy.{Policy}
use lunibee.Collection.Store.{Collection, remove}
use lunibee.Collection.Keyed.{kept_of, check_due, has, peek, delete, forget_in}
use lunibee.Collection.Store.Model.{Binding, alive, is_lapsed}
use lunibee.Collection.Store.Writes.{remove-Binds}
use lunibee.Collection.Keyed.Meaning.{
  IsSound, meaning, value_of, Rebinds, check_due-Rebinds, find-meaning,
}

unread :
    {V : Type 0} (b : Option (Binding V)) (now : ℕ) (item : Option V)
    → item ≡ value_of (alive b now)
    → not (is_lapsed b now) && is_some item ≡ false
    → none ≡ value_of (alive b now)
unread b now none found idle = found
unread b now (some v) found idle = elim (Bool-cases (is_lapsed b now)) [
  | inl lapsed ↦ rw lapsed refl
  | inr live ↦ absurd (ground (arith, live))
]

presence :
    {V : Type 0} (b : Option (Binding V)) (now : ℕ) (item : Option V)
    → item ≡ value_of (alive b now)
    → not (is_lapsed b now) && is_some item ≡ is_some (value_of (alive b now))
presence b now item found = elim (Bool-cases (is_lapsed b now)) [
  | inl lapsed ↦ rw lapsed refl
  | inr live ↦ rw live (ap is_some (found ∙ rw live refl))
]

pub Rebinds-trans :
    {V : Type 0} (c d e : Collection V) (now key : ℕ) (a b : Option (Binding V))
    → Rebinds c now key a d
    → Rebinds d now key b e
    → Rebinds c now key b e
Rebinds-trans c d e now key a b (_, first) (sound, second) = (
  sound,
  λ j. elim (Bool-cases (j == key)) [
    | inl here ↦ rw here (second j ∙ rw here refl)
    | inr other ↦ rw other (second j ∙ rw other (first j ∙ rw other refl))
  ],
)

-- `#forget` and the deletion, with a policy or without.
drop_by :
    {V : Type 0} (c : Collection V) (policy : Option (Policy V)) (now key : ℕ)
    → let d = record c { policy = policy } in
      IsSound d now
      → Rebinds d now key none
          (record c { items = drop key c.items; policy = forget_in policy key })
unfolding remove
drop_by c none now key s = (
  drop-IsMap key c.items s,
  λ j. elim (Bool-cases (j == key)) [
    | inl here ↦ rw (find-drop key j c.items s, here) refl
    | inr other ↦ rw (find-drop key j c.items s, other) refl
  ],
)
drop_by c (some p) now key s = remove-Binds (kept_of c p) now s key

module _ {V : Type 0} (c : Collection V) (now key : ℕ) (s : IsSound c now) where
  -- What `#expireIfDue` leaves of the key.
  found_alive : find key ((check_due c now key).0).items ≡ value_of (alive (meaning c key) now)
  found_alive =
      let (rebinds, due) = check_due-Rebinds c now key s in
      find-meaning ((check_due c now key).0) key
      ∙ ap value_of (rebinds.1 key ∙ rw (==_self key) refl)

  pub peek-Rebinds :
      Rebinds c now key (alive (meaning c key) now) ((peek c now key).0)
      × ((peek c now key).1 ≡ value_of (alive (meaning c key) now))
  unfolding peek
  peek-Rebinds =
      let (rebinds, due) = check_due-Rebinds c now key s in
      let d = (check_due c now key).0 in
      let goal : Collection V × Option V → Type 0 = λ r.
        Rebinds c now key (alive (meaning c key) now) r.0
        × (r.1 ≡ value_of (alive (meaning c key) now)) in
      by_if goal (not ((check_due c now key).1) && has_key key d.items)
        (λ _. (rebinds, found_alive))
        (λ idle.
          (rebinds, unread (meaning c key) now (find key d.items) found_alive (rw due at idle)))

  pub has-Rebinds :
      Rebinds c now key (alive (meaning c key) now) ((has c now key).0)
      × ((has c now key).1 ≡ is_some (value_of (alive (meaning c key) now)))
  unfolding has
  has-Rebinds =
      let (rebinds, due) = check_due-Rebinds c now key s in
      let d = (check_due c now key).0 in
      (rebinds, rw due (presence (meaning c key) now (find key d.items) found_alive))

  pub delete-Rebinds :
      Rebinds c now key none ((delete c now key).0)
      × ((delete c now key).1 ≡ is_some (value_of (alive (meaning c key) now)))
  unfolding delete
  delete-Rebinds =
      let (rebinds, due) = check_due-Rebinds c now key s in
      let d = (check_due c now key).0 in
      let removed : Collection V = record d {
        items = drop key d.items;
        policy = forget_in d.policy key;
      } in
      let goal : Collection V × Bool → Type 0 =
        λ r. Rebinds c now key none r.0 × (r.1 ≡ is_some (value_of (alive (meaning c key) now))) in
      by_if goal ((check_due c now key).1)
        (λ lapsed.
          let late : is_lapsed (meaning c key) now ≡ true = sym due ∙ lapsed in
          (rw late at rebinds, rw late refl))
        (λ live.
          let early : is_lapsed (meaning c key) now ≡ false = sym due ∙ live in
          (
            Rebinds-trans c d removed now key (alive (meaning c key) now) none rebinds
                (drop_by d d.policy now key rebinds.0),
            ap is_some found_alive,
          ))
