-- ===== src/Collection/Keyed/Writing.antt =====
-- `get`, `ensure`, `set`, `setWithoutTTL` and the timer of packages/collection/src/index.ts, as
-- updates of the map with lifetimes that a collection means.
use lunibee.Base.{
  ℕ, ◌+◌, ◌≡◌, refl, ap, ◌∙◌, sym, subst, Option, none, some, ◌==◌, Bool, true, false, not, ◌&&◌,
  is_some, if◌then◌else◌, Bool-cases, by_if, inl, inr, arith,
}
use lunibee.Collection.Maps.{find}
use lunibee.Collection.Policy.{Entry, Policy}
use lunibee.Collection.Filed.Quiet.{gist}
use lunibee.Collection.Store.{Collection, expire, is_due}
use lunibee.Collection.Keyed.{kept_of, get, get_plain, get_entry}
use lunibee.Collection.Store.Sweeps.{IsSoundAt}
use lunibee.Collection.Store.Model.{
  Binding, bind, model, model-bind, alive, is_lapsed, is_lapsed-model, lifetime,
}
use lunibee.Collection.Store.Writes.{Binds, expire-Binds}
use lunibee.Collection.Store.Reads.{touch-Binds}
use lunibee.Collection.Keyed.Meaning.{IsSound, meaning, value_of, Rebinds, kept_binding}

-- A read starts the window again, if the collection slides.
abbrev pub restarted : {V : Type 0} → Bool → ℕ → Option (Binding V) → Option (Binding V)
restarted slide now none = none
restarted slide now (some (value, none)) = some (value, none)
restarted slide now (some (value, some (window, deadline))) =
    some (value, some (window, if slide then now + window else deadline))

abbrev pub slides : {V : Type 0} → Option (Policy V) → Bool
slides none = true
slides (some p) = p.slide

-- A read of `key` at `now`.
abbrev pub Reads : {V : Type 0} → Collection V → ℕ → ℕ → Collection V × Option V → Type 0
Reads c now key r =
    Rebinds c now key (restarted (slides c.policy) now (alive (meaning c key) now)) r.0
    × (r.1 ≡ value_of (alive (meaning c key) now))

read_plain :
    {V : Type 0} (item : Option V) (slide : Bool) (now : ℕ)
    → (restarted slide now (alive (bind item none) now) ≡ bind item none)
      × (value_of (alive (bind item none) now) ≡ item)
read_plain none slide now = (refl, refl)
read_plain (some v) slide now = (refl, refl)

pub none_of : {V : Type 0} {item : Option V} → is_some item ≡ false → none ≡ item
none_of {item = none} absent = refl
none_of {item = some v} absent = absurd (ground arith)

-- A read of a key without an entry.
get_plain-Reads :
    {V : Type 0} (c : Collection V) (now key : ℕ)
    → IsSound c now
    → meaning c key ≡ bind (find key c.items) none
    → Reads c now key (get_plain c key)
get_plain-Reads {V} c now key s plain =
    let item = find key c.items in
    let (same, value) = read_plain item (slides c.policy) now in
    let keeps = λ (j : ℕ).
      kept_binding (meaning c) key j
      ∙ ap (λ b. if j == key then b else meaning c j)
          (plain
            ∙ (sym same ∙ ap (λ b. restarted (slides c.policy) now (alive b now)) (sym plain))) in
    let reads = sym (ap (λ b. value_of (alive b now)) plain ∙ value) in
    let goal : Collection V × Option V → Type 0 = Reads c now key in
    by_if goal (is_some item) (λ _. ((s, keeps), reads))
      (λ absent. ((s, keeps), none_of absent ∙ reads))

restart_lifetime :
    {V : Type 0} (value : V) (window deadline : ℕ) (slide : Bool) (now : ℕ)
    → restarted slide now (some (value, lifetime (some (value, window, deadline))))
      ≡ some (
        value,
        lifetime
            (some (value, window, if not (window == 0) && slide then now + window else deadline)),
      )
restart_lifetime value window deadline slide now = elim (Bool-cases (window == 0)) [
  | inl never ↦ rw never refl
  | inr timed ↦ rw timed refl
]

module _ {V : Type 0} (c : Collection V) (p : Policy V) (now key : ℕ) (e : Entry V)
    (s : IsSoundAt (kept_of c p) now) (there : find key p.entries ≡ some e) where
  expire-at : Binds (kept_of c p) now key none (expire (kept_of c p) e.key)
  expire-at =
      subst (λ (j : ℕ). Binds (kept_of c p) now key none (expire (kept_of c p) j))
        (sym (s.0.filed.keyed key e there)) (expire-Binds (kept_of c p) now s key)

  entry-model :
      model (kept_of c p) key ≡ some (e.value, lifetime (some (e.value, e.window, e.deadline)))
  entry-model =
      model-bind (kept_of c p) key (some e.value) (some (e.value, e.window, e.deadline))
        (s.0.copied key e.value e.window e.deadline (ap gist there)) (ap gist there)

  entry-lapsed : is_lapsed (model (kept_of c p) key) now ≡ is_due (some e) now
  entry-lapsed = is_lapsed-model (kept_of c p) now s.0 key ∙ ap (λ o. is_due o now) there

  get_entry-Reads : Reads (record c { policy = some p }) now key (get_entry c p now e)
  unfolding get_entry
  get_entry-Reads =
      let b = model (kept_of c p) key in
      by_if (Reads (record c { policy = some p }) now key) (is_due (some e) now)
        (λ due. rw (entry-lapsed ∙ due) (expire-at, refl))
        (λ live.
          let touched = touch-Binds (kept_of c p) now s key e there in
          let again = restart_lifetime e.value e.window e.deadline p.slide now in
          rw (entry-lapsed ∙ live, entry-model, again) (touched, refl))

get_by :
    {V : Type 0} (c : Collection V) (policy : Option (Policy V)) (now key : ℕ)
    → let d = record c { policy = policy } in IsSound d now → Reads d now key (get d now key)
unfolding get
get_by c none now key s = get_plain-Reads (record c { policy = none }) now key s refl
get_by {V} c (some p) now key s = by_found (find key p.entries) refl
  where
    d : Collection V
    d = record c { policy = some p }

    by_found :
        (found : Option (Entry V))
        → find key p.entries ≡ found
        → Reads d now key (elim found [ none ↦ get_plain d key | some e ↦ get_entry d p now e ])
    by_found none there =
        get_plain-Reads d now key s
          (model-bind (kept_of d p) key (find key c.items) none refl (ap gist there))
    by_found (some e) there = get_entry-Reads d p now key e s there

-- `get` reads what is alive, starts its window again, and forgets a key that has lapsed.
pub get-Reads :
    {V : Type 0} (c : Collection V) (now key : ℕ) → IsSound c now → Reads c now key (get c now key)
get-Reads c now key s = get_by c c.policy now key s
