-- ===== src/Collection/Keyed/Runs.antt =====
-- Histories of the keyed methods of packages/collection/src/index.ts, and the same calls on a map
-- with lifetimes.
pub mod Refinement
pub mod Fresh
use lunibee.Base.{
  ℕ, ◌+◌, ◌≤◌, ◌≡◌, refl, ap, ◌∙◌, sym, subst, Option, none, some, List, [], ◌∷◌, ◌==◌, Bool, true,
  false, is_some, if◌then◌else◌, Bool-cases, by_if, inl, inr, arith,
}
use lunibee.Collection.Maps.{find}
use lunibee.Collection.Policy.{Policy}
use lunibee.Collection.Policy.Options.{Options}
use lunibee.Collection.Store.{Collection, is_refused, or_else}
use lunibee.Collection.Keyed.{
  get, set, set_checked, set_without_ttl, peek, has, delete, clear, purge, ring, kept_of,
}
use lunibee.Collection.Store.Sweeps.{IsSoundAt}
use lunibee.Collection.Store.Model.{Binding, alive}
use lunibee.Collection.Store.Writes.{lifetime_from}
use lunibee.Collection.Keyed.Meaning.{IsSound, meaning, value_of, Rebinds}
use lunibee.Collection.Keyed.Reading.{peek-Rebinds, has-Rebinds, delete-Rebinds}
use lunibee.Collection.Keyed.Writing.{Reads, restarted, slides, get-Reads}
use lunibee.Collection.Keyed.Setting.{
  Sets, set_checked-Sets, set_without_ttl-Rebinds, Purges, purge-Purges, ring-Purges, window_by,
  has_cap_by,
}
use lunibee.Collection.Keyed.Timer.{IsSound-later}
use lunibee.Collection.Keyed.Settings.{
  settings, window_of, window_by-settings, window_of-accepted, Keeps, get-Keeps, peek-Keeps,
  has-Keeps, delete-Keeps, set_checked-Keeps, set_without_ttl-Keeps, purge-Keeps, ring-Keeps,
}

pub data Call (V : Type 0) : Type 0 where
  set_call : ℕ → ℕ → V → Option ℕ → Call V
  set_without_ttl_call : ℕ → V → Call V
  get_call peek_call has_call delete_call : ℕ → Call V
  clear_call purge_call timer_call : Call V

pub data Answer (V : Type 0) : Type 0 where
  done thrown : Answer V
  found : Option V → Answer V
  flag : Bool → Answer V

abbrev pub TimedMap : Type 0 → Type 0
TimedMap V = ℕ → Option (Binding V)

module _ {V : Type 0} where
  abbrev pub set_result : Collection V → Option (Collection V) → Collection V × Answer V
  set_result c none = (c, thrown)
  set_result c (some d) = (d, done)

  unfoldable pub step : Collection V → ℕ → Call V → Collection V × Answer V
  step c now (set_call roll key value ttl) = set_result c (set c now roll key value ttl)
  step c now (set_without_ttl_call key value) = (set_without_ttl c key value, done)
  step c now (get_call key) = let r = get c now key in (r.0, found r.1)
  step c now (peek_call key) = let r = peek c now key in (r.0, found r.1)
  step c now (has_call key) = let r = has c now key in (r.0, flag r.1)
  step c now (delete_call key) = let r = delete c now key in (r.0, flag r.1)
  step c now clear_call = (clear c, done)
  step c now purge_call = ((purge c now).0, done)
  step c now timer_call = (ring c now, done)

  -- Calls, each with the time since the one before.
  unfoldable pub run : Collection V → ℕ → List (ℕ × Call V) → Collection V × List (Answer V)
  run c now [] = (c, [])
  run c now ((delay, call) ∷ calls) =
      let r = step c (now + delay) call in
      let rest = run r.0 (now + delay) calls in (rest.0, r.1 ∷ rest.1)

  abbrev pub update : TimedMap V → ℕ → Option (Binding V) → TimedMap V
  update m key b j = if j == key then b else m j

  -- The same calls, on a map with lifetimes.
  unfoldable pub replay_step : Options → TimedMap V → ℕ → Call V → TimedMap V × Answer V
  replay_step o m now (set_call roll key value ttl) =
      let b : Option (Binding V) = some (value, lifetime_from now (window_of o roll ttl)) in
      if is_refused ttl then (m, thrown) else (update m key b, done)
  replay_step o m now (set_without_ttl_call key value) = (update m key (some (value, none)), done)
  replay_step o m now (get_call key) =
      let b = alive (m key) now in (update m key (restarted o.slide now b), found (value_of b))
  replay_step o m now (peek_call key) =
      let b = alive (m key) now in (update m key b, found (value_of b))
  replay_step o m now (has_call key) =
      let b = alive (m key) now in (update m key b, flag (is_some (value_of b)))
  replay_step o m now (delete_call key) =
      let b = alive (m key) now in (update m key none, flag (is_some (value_of b)))
  replay_step o m now clear_call = (λ j. none, done)
  replay_step o m now purge_call = (λ j. alive (m j) now, done)
  replay_step o m now timer_call = (λ j. alive (m j) now, done)

  unfoldable pub replay :
      Options → TimedMap V → ℕ → List (ℕ × Call V) → TimedMap V × List (Answer V)
  replay o m now [] = (m, [])
  replay o m now ((delay, call) ∷ calls) =
      let r = replay_step o m (now + delay) call in
      let rest = replay o r.0 (now + delay) calls in (rest.0, r.1 ∷ rest.1)
