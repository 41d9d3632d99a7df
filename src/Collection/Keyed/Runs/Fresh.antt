-- ===== src/Collection/Keyed/Runs/Fresh.antt =====
-- Histories from the constructor of packages/collection/src/index.ts.
use lunibee.Base.{
  ℕ, ◌≡◌, refl, Option, none, some, List, [], ◌||◌, Bool, true, false, is_some, if◌then◌else◌,
  Bool-cases, inl, inr, arith,
}
use lunibee.Collection.Policy.Options.{Options}
use lunibee.Collection.Store.{
  Collection, CollectionOptions, is_refused, is_above_one, or_else, new_policy,
}
use lunibee.Collection.Keyed.{new_collection, has_options}
use lunibee.Collection.Store.Model.{model}
use lunibee.Collection.Keyed.Meaning.{meaning}
use lunibee.Collection.Keyed.Setting.{new_policy-IsSoundAt}
use lunibee.Collection.Keyed.Settings.{plain_options}
use lunibee.Collection.Keyed.Runs.{Call, run, replay}
use lunibee.Collection.Keyed.Runs.Refinement.{Means, run_refines}

-- The options that a collection is made with.
abbrev pub options_of : CollectionOptions → Options
options_of o = record {
  ttl = o.ttl;
  jitter = or_else o.jitter 0;
  max_size = o.max_size;
  slide = or_else o.slide true;
  on_evict = o.on_evict;
}

plain_by :
    (ttl jitter max_size : Option ℕ) (slide : Option Bool) (on_evict : Bool)
    → (is_some ttl || is_some jitter || is_some max_size || is_some slide || on_evict) ≡ false
    → plain_options ≡ record {
      ttl = ttl;
      jitter = or_else jitter 0;
      max_size = max_size;
      slide = or_else slide true;
      on_evict = on_evict;
    }
plain_by none none none none false plain = refl
plain_by none none none none true plain = absurd (ground (arith, plain))
plain_by none none none (some s) on_evict plain = absurd (ground (arith, plain))
plain_by none none (some m) slide on_evict plain = absurd (ground (arith, plain))
plain_by none (some j) max_size slide on_evict plain = absurd (ground (arith, plain))
plain_by (some t) jitter max_size slide on_evict plain = absurd (ground (arith, plain))

-- The collection that the constructor makes without entries.
abbrev empty : {V : Type 0} → CollectionOptions → Collection V
empty o = record {
  items = [];
  policy = if has_options o then some (new_policy o) else none;
  hits = 0;
  misses = 0;
}

empty-Means :
    {V : Type 0} (o : CollectionOptions) (now : ℕ)
    → Means (options_of o) (λ _. none) now (empty {V = V} o)
unfolding new_policy model
empty-Means o now = elim (Bool-cases (has_options o)) [
  | inl given ↦ rw given (new_policy-IsSoundAt [] o now tt, refl, refl)
  | inr plain ↦ rw plain (tt, refl, plain_by o.ttl o.jitter o.max_size o.slide o.on_evict plain)
]

-- A history of a new collection without `maxSize` answers as the map with lifetimes does from the
-- empty one, and ends meaning what that has become, whatever the times between the calls. The
-- constructor accepts options whose `ttl`, `jitter` and `maxSize` pass its checks.
pub new_run_refines :
    {V : Type 0} (o : CollectionOptions) (now : ℕ) (calls : List (ℕ × Call V))
    → (is_refused o.ttl || is_above_one o.jitter || is_refused o.max_size) ≡ false
    → o.max_size ≡ none
    → (c : Collection V) × (new_collection [] o now ≡ some c)
      × (meaning (run c now calls).0 ≡ (replay (options_of o) (λ _. none) now calls).0)
      × ((run c now calls).1 ≡ (replay (options_of o) (λ _. none) now calls).1)
unfolding new_collection
new_run_refines o now calls accepted uncapped =
    let (ends, answers) =
      run_refines (options_of o) calls (empty o) (λ _. none) now uncapped (ground (arith, accepted))
        (empty-Means o now) in
    (empty o, rw accepted refl, ends, answers)
