-- ===== src/Collection/Store/Model.antt =====
-- The map with lifetimes that a `Collection` of packages/collection/src/index.ts stands for.
use lunibee.Base.{
  ℕ, ◌≡◌, refl, ap, ◌∙◌, sym, Option, none, some, ◌==◌, Bool, false, not, ◌&&◌, leb, if◌then◌else◌,
  Bool-cases, inl, inr, arith,
}
use lunibee.Collection.Maps.{find}
use lunibee.Collection.Policy.{Entry}
use lunibee.Collection.Filed.Quiet.{gist, gist-faces}
use lunibee.Collection.Store.{Kept, is_due}
use lunibee.Collection.Store.Purge.{IsKept, Purged}

-- A value, and its window and deadline if it lapses.
abbrev pub Binding : Type 0 → Type 0
Binding V = V × Option (ℕ × ℕ)

abbrev pub lifetime : {V : Type 0} → Option (V × ℕ × ℕ) → Option (ℕ × ℕ)
lifetime none = none
lifetime (some (_, window, deadline)) = if window == 0 then none else some (window, deadline)

abbrev pub bind : {V : Type 0} → Option V → Option (V × ℕ × ℕ) → Option (Binding V)
bind none says = none
bind (some value) says = some (value, lifetime says)

-- What the collection binds a key to, lapsed or not.
unfoldable pub model : {V : Type 0} → Kept V → ℕ → Option (Binding V)
model k key = bind (find key k.items) (gist (find key k.policy.entries))

abbrev pub is_lapsed : {V : Type 0} → Option (Binding V) → ℕ → Bool
is_lapsed none now = false
is_lapsed (some (_, none)) now = false
is_lapsed (some (_, some (_, deadline))) now = leb deadline now

-- A binding, unless it has lapsed.
abbrev pub alive : {V : Type 0} → Option (Binding V) → ℕ → Option (Binding V)
alive b now = if is_lapsed b now then none else b

abbrev pub is_late : {V : Type 0} → Option (V × ℕ × ℕ) → ℕ → Bool
is_late none now = false
is_late (some (_, window, deadline)) now = not (window == 0) && leb deadline now

pub is_late-gist :
    {V : Type 0} (o : Option (Entry V)) (now : ℕ) → is_late (gist o) now ≡ is_due o now
is_late-gist none now = refl
is_late-gist (some e) now = refl

-- A policy's entry has its value in the map.
abbrev pub IsCopied : {V : Type 0} → Option V → Option (V × ℕ × ℕ) → Type 0
IsCopied {V} item says =
    (value : V) (window deadline : ℕ) → says ≡ some (value, window, deadline) → item ≡ some value

pub is_lapsed-bind :
    {V : Type 0} (item : Option V) (says : Option (V × ℕ × ℕ)) (now : ℕ)
    → IsCopied item says
    → is_lapsed (bind item says) now ≡ is_late says now
is_lapsed-bind none none now copied = refl
is_lapsed-bind (some v) none now copied = refl
is_lapsed-bind none (some (v, w, d)) now copied = absurd (ground (arith, copied v w d refl))
is_lapsed-bind (some u) (some (v, w, d)) now copied = ground arith

module _ {V : Type 0} where
  pub model-none : (k : Kept V) (key : ℕ) → find key k.items ≡ none → model k key ≡ none
  unfolding model
  model-none k key absent = rw absent refl

  pub model-some :
      (k : Kept V) (key : ℕ) (value : V)
      → find key k.items ≡ some value
      → model k key ≡ some (value, lifetime (gist (find key k.policy.entries)))
  unfolding model
  model-some k key value there = rw there refl

  pub model-bind :
      (k : Kept V) (key : ℕ) (item : Option V) (says : Option (V × ℕ × ℕ))
      → find key k.items ≡ item
      → gist (find key k.policy.entries) ≡ says
      → model k key ≡ bind item says
  unfolding model
  model-bind k key item says there same = rw (there, same) refl

  pub model_same :
      (k l : Kept V) (key : ℕ)
      → find key k.items ≡ find key l.items
      → gist (find key k.policy.entries) ≡ gist (find key l.policy.entries)
      → model k key ≡ model l key
  unfolding model
  model_same k l key items says = rw (items, says) refl

module _ {V : Type 0} (k : Kept V) (now : ℕ) (s : IsKept k) (key : ℕ) where
  pub is_lapsed-model : is_lapsed (model k key) now ≡ is_due (find key k.policy.entries) now
  unfolding model
  is_lapsed-model =
      is_lapsed-bind (find key k.items) (gist (find key k.policy.entries)) now (s.copied key)
      ∙ is_late-gist (find key k.policy.entries) now

  -- A purge leaves what is alive.
  pub Purged-model : (last : Kept V) → Purged k now last → model last key ≡ alive (model k key) now
  Purged-model last purged = elim (Bool-cases (is_due (find key k.policy.entries) now)) [
    | inl due ↦ rw (is_lapsed-model ∙ due) (model-none last key (rw due at (purged.items key)))
    | inr live ↦
        let same = rw live at (purged.entries key) in
        rw (is_lapsed-model ∙ live) (
          model_same last k key (rw live at (purged.items key)) (
            sym (gist-faces (find key last.policy.entries))
            ∙ (ap gist same ∙ gist-faces (find key k.policy.entries))))
  ]
