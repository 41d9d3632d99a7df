-- ===== src/Collection/Keyed/Settings.antt =====
-- The options of a collection under the keyed methods of packages/collection/src/index.ts.
use lunibee.Base.{
  ℕ, ◌-◌, ◌*◌, ◌/◌, ◌≡◌, refl, max, ltb, Option, none, some, Bool, true, false, not, ◌&&◌, is_some,
  if◌then◌else◌, by_if, arith,
}
use lunibee.Collection.Maps.{find, has_key}
use lunibee.Collection.Policy.{Entry, Policy}
use lunibee.Collection.Policy.Options.{Options, options, Has, forget-Has}
use lunibee.Collection.Store.{Collection, new_policy, no_options, is_refused, first_of, is_due}
use lunibee.Collection.Store.Options.{
  expire-Has, expire_if_due-Has, purge_kept-Has, set_kept-Has, touch-Has,
}
use lunibee.Collection.Keyed.{
  kept_of, jittered, set_checked, set_without_ttl, forget_in, get, get_plain, get_entry, check_due,
  peek, has, delete, clear, purge, ring,
}
use lunibee.Collection.Keyed.Setting.{window_by}

-- A collection without a policy has these.
abbrev pub plain_options : Options
plain_options = record { ttl = none; jitter = 0; max_size = none; slide = true; on_evict = false }

abbrev pub settings : {V : Type 0} → Option (Policy V) → Options
settings none = plain_options
settings (some p) = options p

-- The window that `set` gives under these options.
abbrev pub shaved : ℕ → ℕ → Option ℕ → Option ℕ
shaved jitter roll none = none
shaved jitter roll (some w) =
    if ltb 0 jitter then some (max 1 (w - w * jitter * roll / 1_000_000)) else some w

abbrev pub window_of : Options → ℕ → Option ℕ → Option ℕ
window_of o roll ttl = shaved o.jitter roll (first_of ttl o.ttl)

window_by_jitter :
    {V : Type 0} (p : Policy V) (roll : ℕ) (ttl base : Option ℕ)
    → jittered p roll (first_of ttl base) ≡ window_of (record (options p) { ttl = base }) roll ttl
window_by_jitter p roll none none = refl
window_by_jitter p roll none (some w) = refl
window_by_jitter p roll (some w) base = refl

pub window_by-settings :
    {V : Type 0} (policy : Option (Policy V)) (roll : ℕ) (ttl : Option ℕ)
    → window_by policy roll ttl ≡ window_of (settings policy) roll ttl
window_by-settings none roll none = refl
window_by-settings none roll (some w) = refl
window_by-settings (some p) roll ttl = window_by_jitter p roll ttl p.ttl

shaved-accepted :
    (jitter roll : ℕ) (base : Option ℕ)
    → is_refused base ≡ false
    → is_refused (shaved jitter roll base) ≡ false
shaved-accepted jitter roll none accepted = refl
shaved-accepted jitter roll (some w) accepted =
    by_if (λ b. is_refused b ≡ false) (ltb 0 jitter) (λ _. ground arith) (λ _. accepted)

pub window_of-accepted :
    (o : Options) (roll : ℕ) (ttl : Option ℕ)
    → is_refused ttl ≡ false
    → is_refused o.ttl ≡ false
    → is_refused (window_of o roll ttl) ≡ false
window_of-accepted o roll (some w) accepted ready = shaved-accepted o.jitter roll (some w) accepted
window_of-accepted o roll none accepted ready = shaved-accepted o.jitter roll o.ttl ready

module _ {V : Type 0} (o : Options) where
  -- The collection has these options.
  abbrev pub Keeps : Collection V → Type 0
  Keeps c = settings c.policy ≡ o

  get_entry-Keeps :
      (c : Collection V) (p : Policy V) (now : ℕ) (e : Entry V)
      → Has o p
      → Keeps (get_entry c p now e).0
  unfolding get_entry
  get_entry-Keeps c p now e h =
      by_if (λ (r : Collection V × Option V). Keeps r.0) (is_due (some e) now)
        (λ _. expire-Has o (kept_of c p) e.key h) (λ _. touch-Has o p now e h)

  get_plain-Keeps : (c : Collection V) (key : ℕ) → Keeps c → Keeps (get_plain c key).0
  get_plain-Keeps c key h =
      by_if (λ (r : Collection V × Option V). Keeps r.0) (is_some (find key c.items)) (λ _. h)
        (λ _. h)

  get_found-Keeps :
      (c : Collection V) (p : Policy V) (now key : ℕ) (found : Option (Entry V))
      → Has o p
      → Keeps c
      → let r : Collection V × Option V = elim found [
        | none ↦ get_plain c key
        | some e ↦ get_entry c p now e
      ] in
        Keeps r.0
  get_found-Keeps c p now key none h k = get_plain-Keeps c key k
  get_found-Keeps c p now key (some e) h k = get_entry-Keeps c p now e h

  get_by :
      (c : Collection V) (policy : Option (Policy V)) (now key : ℕ)
      → settings policy ≡ o
      → Keeps (get (record c { policy = policy }) now key).0
  unfolding get
  get_by c none now key h = get_plain-Keeps (record c { policy = none }) key h
  get_by c (some p) now key h =
      get_found-Keeps (record c { policy = some p }) p now key (find key p.entries) h h

  check_by :
      (c : Collection V) (policy : Option (Policy V)) (now key : ℕ)
      → settings policy ≡ o
      → Keeps (check_due (record c { policy = policy }) now key).0
  unfolding check_due
  check_by c none now key h = h
  check_by c (some p) now key h = expire_if_due-Has o (kept_of c p) now key h

  forget_in-settings :
      (policy : Option (Policy V)) (key : ℕ)
      → settings policy ≡ o
      → settings (forget_in policy key) ≡ o
  forget_in-settings none key h = h
  forget_in-settings (some p) key h = forget-Has o p key h

  set_by :
      (c : Collection V) (policy : Option (Policy V)) (now roll key : ℕ) (value : V)
      (ttl : Option ℕ)
      → settings policy ≡ o
      → Keeps (set_checked (record c { policy = policy }) now roll key value ttl)
  unfolding set_checked new_policy
  set_by c none now roll key value none h = h
  set_by c none now roll key value (some w) h =
      set_kept-Has o (kept_of c (new_policy no_options)) now key value (some w) h
  set_by c (some p) now roll key value ttl h =
      set_kept-Has o (kept_of c p) now key value (jittered p roll (first_of ttl p.ttl)) h

  purge_by :
      (c : Collection V) (policy : Option (Policy V)) (now : ℕ)
      → settings policy ≡ o
      → Keeps (purge (record c { policy = policy }) now).0
  unfolding purge
  purge_by c none now h = h
  purge_by c (some p) now h = purge_kept-Has o (kept_of c p) now h

  ring_by :
      (c : Collection V) (policy : Option (Policy V)) (now : ℕ)
      → settings policy ≡ o
      → Keeps (ring (record c { policy = policy }) now)
  unfolding ring
  ring_by c none now h = h
  ring_by c (some p) now h = purge_by c (some (record p { timer = none; armed_for = none })) now h

clear_by :
    {V : Type 0} (o : Options) (c : Collection V) (policy : Option (Policy V))
    → settings policy ≡ o
    → Keeps o (clear (record c { policy = policy }))
unfolding clear
clear_by o c none h = h
clear_by o c (some p) h = h

module _ {V : Type 0} (o : Options) (c : Collection V) (now key : ℕ) (h : Keeps o c) where
  pub get-Keeps : Keeps o (get c now key).0
  get-Keeps = get_by o c c.policy now key h

  check_due-Keeps : Keeps o (check_due c now key).0
  check_due-Keeps = check_by o c c.policy now key h

  pub peek-Keeps : Keeps o (peek c now key).0
  unfolding peek
  peek-Keeps =
      let d = check_due c now key in
      by_if (λ (r : Collection V × Option V). Keeps o r.0) (not d.1 && has_key key d.0.items)
        (λ _. check_due-Keeps) (λ _. check_due-Keeps)

  pub has-Keeps : Keeps o (has c now key).0
  unfolding has
  has-Keeps = check_due-Keeps

  pub delete-Keeps : Keeps o (delete c now key).0
  unfolding delete
  delete-Keeps =
      let d = check_due c now key in
      by_if (λ (r : Collection V × Bool). Keeps o r.0) d.1 (λ _. check_due-Keeps)
        (λ _. forget_in-settings o d.0.policy key check_due-Keeps)

  pub set_checked-Keeps :
      (roll : ℕ) (value : V) (ttl : Option ℕ) → Keeps o (set_checked c now roll key value ttl)
  set_checked-Keeps roll value ttl = set_by o c c.policy now roll key value ttl h

  pub set_without_ttl-Keeps : (value : V) → Keeps o (set_without_ttl c key value)
  unfolding set_without_ttl
  set_without_ttl-Keeps value = forget_in-settings o c.policy key h

  pub purge-Keeps : Keeps o (purge c now).0
  purge-Keeps = purge_by o c c.policy now h

  pub ring-Keeps : Keeps o (ring c now)
  ring-Keeps = ring_by o c c.policy now h

  pub clear-Keeps : Keeps o (clear c)
  clear-Keeps = clear_by o c c.policy h
