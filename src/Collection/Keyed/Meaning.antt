-- ===== src/Collection/Keyed/Meaning.antt =====
-- What a `Collection` of packages/collection/src/index.ts means: a map with lifetimes, whose keyed
-- methods are updates of a function.
use lunibee.Base.{
  ℕ, ◌≡◌, refl, sym, Option, none, some, List, ◌==◌, false, if◌then◌else◌, Bool-cases, inl, inr,
}
use lunibee.Collection.Maps.{find}
use lunibee.Collection.Maps.Laws.{IsMap, eq_of_==}
use lunibee.Collection.Policy.{Policy}
use lunibee.Collection.Filed.Quiet.{gist}
use lunibee.Collection.Store.{Collection}
use lunibee.Collection.Keyed.{kept_of, check_due}
use lunibee.Collection.Store.Sweeps.{IsSoundAt}
use lunibee.Collection.Store.Model.{Binding, bind, model, alive, is_lapsed}
use lunibee.Collection.Store.Writes.{expire_if_due-Binds}

module _ {V : Type 0} where
  -- A collection is sound at `now`: its map, and with a policy all that the policy keeps.
  abbrev pub IsSoundBy : List (ℕ × V) → Option (Policy V) → ℕ → Type 0
  IsSoundBy items none now = IsMap items
  IsSoundBy items (some p) now = IsSoundAt (record { items = items; policy = p }) now

  abbrev pub IsSound : Collection V → ℕ → Type 0
  IsSound c now = IsSoundBy c.items c.policy now

  abbrev pub meaning_by : List (ℕ × V) → Option (Policy V) → ℕ → Option (Binding V)
  meaning_by items none key = bind (find key items) none
  meaning_by items (some p) key = model (record { items = items; policy = p }) key

  -- What a key is bound to, lapsed or not.
  abbrev pub meaning : Collection V → ℕ → Option (Binding V)
  meaning c key = meaning_by c.items c.policy key

  abbrev pub value_of : Option (Binding V) → Option V
  value_of none = none
  value_of (some (value, _)) = some value

  -- From `c` to `d` the key comes to be bound to `b`, and the other keys stay as they were.
  abbrev pub Rebinds : Collection V → ℕ → ℕ → Option (Binding V) → Collection V → Type 0
  Rebinds c now key b d =
      IsSound d now × ((j : ℕ) → meaning d j ≡ (if j == key then b else meaning c j))

module _ {V : Type 0} (m : ℕ → Option (Binding V)) (key : ℕ) where
  pub kept_binding : (j : ℕ) → m j ≡ (if j == key then m key else m j)
  kept_binding j = elim (Bool-cases (j == key)) [
    | inl here ↦ rw (here, eq_of_== j key here) refl
    | inr other ↦ rw other refl
  ]

pub alive_plain :
    {V : Type 0} (item : Option V) (now : ℕ) → alive (bind item none) now ≡ bind item none
alive_plain none now = refl
alive_plain (some v) now = refl

lapsed_plain : {V : Type 0} (item : Option V) (now : ℕ) → is_lapsed (bind item none) now ≡ false
lapsed_plain none now = refl
lapsed_plain (some v) now = refl

check_by :
    {V : Type 0} (c : Collection V) (policy : Option (Policy V)) (now key : ℕ)
    → let d = record c { policy = policy } in
      IsSound d now
      → Rebinds d now key (alive (meaning d key) now) ((check_due d now key).0)
        × ((check_due d now key).1 ≡ is_lapsed (meaning d key) now)
unfolding check_due
check_by c none now key s =
    let item = find key c.items in
    rw (alive_plain item now, lapsed_plain item now)
      ((s, kept_binding (meaning (record c { policy = none })) key), refl)
check_by c (some p) now key s = expire_if_due-Binds (kept_of c p) now s key

-- `#expireIfDue` forgets a key that has lapsed, and does nothing else.
pub check_due-Rebinds :
    {V : Type 0} (c : Collection V) (now key : ℕ)
    → IsSound c now
    → Rebinds c now key (alive (meaning c key) now) ((check_due c now key).0)
      × ((check_due c now key).1 ≡ is_lapsed (meaning c key) now)
check_due-Rebinds c now key s = check_by c c.policy now key s

value_of-bind :
    {V : Type 0} (item : Option V) (says : Option (V × ℕ × ℕ)) → value_of (bind item says) ≡ item
value_of-bind none says = refl
value_of-bind (some v) says = refl

pub find-meaning :
    {V : Type 0} (c : Collection V) (key : ℕ) → find key c.items ≡ value_of (meaning c key)
unfolding model
find-meaning {V} c key = found c.policy
  where
    found :
        (policy : Option (Policy V)) → find key c.items ≡ value_of (meaning_by c.items policy key)
    found none = sym (value_of-bind (find key c.items) none)
    found (some p) = sym (value_of-bind (find key c.items) (gist (find key p.entries)))
