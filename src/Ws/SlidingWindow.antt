-- ===== src/Ws/SlidingWindow.antt =====
-- The timestamps of a sliding window, oldest first, as send-budget.ts and reconnect.ts keep them,
-- against the log of every timestamp ever recorded.
use lunibee.Base.{
  ◌∙◌, keep-append, ℕ, ◌+◌, ◌≤◌, ◌≡◌, refl, List, [], ◌∷◌, ◌++◌, arith, ltb, leb, if◌then◌else◌,
  keep, All, keep-append,
}

-- `while (ts.length && now - ts[0] >= windowMs) ts.shift()`
unfoldable pub drop_expired : ℕ → ℕ → List ℕ → List ℕ
drop_expired now window [] = []
drop_expired now window (t ∷ ts) =
    let rest = drop_expired now window ts in if leb (t + window) now then rest else t ∷ ts

-- The timestamps of a log that lie in the window that ends now.
abbrev pub in_window : ℕ → ℕ → List ℕ → List ℕ
in_window now window = keep (λ t. ltb now (t + window))

-- Oldest first.
abbrev pub IsOrdered : List ℕ → Type 0
IsOrdered [] = Unit {0}
IsOrdered (t ∷ ts) = All (λ u. t ≤ u) ts × IsOrdered ts

-- Nothing lies after `now`.
abbrev pub IsPast : ℕ → List ℕ → Type 0
IsPast now = All (λ t. t ≤ now)

All-le_trans : (a b : ℕ) (ts : List ℕ) → a ≤ b → All (λ u. b ≤ u) ts → All (λ u. a ≤ u) ts
All-le_trans a b [] h k = tt
All-le_trans a b (t ∷ ts) h k = (omega arith, All-le_trans a b ts h k.1)

pub IsPast-mono : (last now : ℕ) (ts : List ℕ) → last ≤ now → IsPast last ts → IsPast now ts
IsPast-mono last now [] h k = tt
IsPast-mono last now (t ∷ ts) h k = (omega arith, IsPast-mono last now ts h k.1)

All-le-concat :
    (a now : ℕ) (ts : List ℕ) → a ≤ now → All (λ u. a ≤ u) ts → All (λ u. a ≤ u) (ts ++ now ∷ [])
All-le-concat a now [] h k = (h, tt)
All-le-concat a now (t ∷ ts) h k = (k.0, All-le-concat a now ts h k.1)

pub IsOrdered-concat :
    (now : ℕ) (ts : List ℕ) → IsOrdered ts → IsPast now ts → IsOrdered (ts ++ now ∷ [])
IsOrdered-concat now [] o p = (tt, tt)
IsOrdered-concat now (t ∷ ts) o p =
    (All-le-concat t now ts p.0 o.0, IsOrdered-concat now ts o.1 p.1)

pub IsPast-concat : (now : ℕ) (ts : List ℕ) → IsPast now ts → IsPast now (ts ++ now ∷ [])
IsPast-concat now [] p = (omega arith, tt)
IsPast-concat now (t ∷ ts) p = (p.0, IsPast-concat now ts p.1)

in_window-All :
    (now window t : ℕ) (ts : List ℕ)
    → now + 1 ≤ t + window
    → All (λ u. t ≤ u) ts
    → in_window now window ts ≡ ts
in_window-All now window t [] h k = refl
in_window-All now window t (u ∷ ts) h k = ground (arith, in_window-All now window t ts h k.1)

-- On an ordered list, dropping from the front is filtering.
pub drop_expired-in_window :
    (now window : ℕ) (ts : List ℕ)
    → IsOrdered ts
    → drop_expired now window ts ≡ in_window now window ts
unfolding drop_expired
drop_expired-in_window now window [] o = refl
drop_expired-in_window now window (t ∷ ts) o = ground (
  arith,
  drop_expired-in_window now window ts o.1,
  λ (h : now + 1 ≤ t + window). in_window-All now window t ts h o.0,
)

-- What has left the window stays out of it as the clock advances.
pub in_window_again :
    (last now window : ℕ) (ts : List ℕ)
    → last ≤ now
    → in_window now window (in_window last window ts) ≡ in_window now window ts
in_window_again last now window [] h = refl
in_window_again last now window (t ∷ ts) h = ground (arith, in_window_again last now window ts h)

All-le-in_window :
    (a now window : ℕ) (ts : List ℕ)
    → All (λ u. a ≤ u) ts
    → All (λ u. a ≤ u) (in_window now window ts)
All-le-in_window a now window [] k = tt
All-le-in_window a now window (t ∷ ts) k = ground (arith, All-le-in_window a now window ts k.1)

pub IsOrdered-in_window :
    (now window : ℕ) (ts : List ℕ) → IsOrdered ts → IsOrdered (in_window now window ts)
IsOrdered-in_window now window [] o = tt
IsOrdered-in_window now window (t ∷ ts) o =
    ground (arith, IsOrdered-in_window now window ts o.1, All-le-in_window t now window ts o.0)

-- The kept timestamps hold enough of the log for every window that ends at `last` or later.
pub record Keeps (window : ℕ) (ts log : List ℕ) (last : ℕ) : Type 0 where
  pub ordered : IsOrdered ts
  pub past : IsPast last ts
  pub same : (now : ℕ) → last ≤ now → in_window now window ts ≡ in_window now window log

IsPast-in_window :
    (last now window : ℕ) (ts : List ℕ) → IsPast last ts → IsPast last (in_window now window ts)
IsPast-in_window last now window [] p = tt
IsPast-in_window last now window (t ∷ ts) p =
    ground (arith, IsPast-in_window last now window ts p.1)

pub empty-Keeps : (window : ℕ) → Keeps window [] [] 0
empty-Keeps window = record { ordered = tt; past = tt; same = λ n k. refl }

pub drop_expired-log :
    (window last now : ℕ) (ts log : List ℕ)
    → last ≤ now
    → Keeps window ts log last
    → drop_expired now window ts ≡ in_window now window log
drop_expired-log window last now ts log h t =
    drop_expired-in_window now window ts t.ordered ∙ t.same now h

pub drop_expired-Keeps :
    (window last now : ℕ) (ts log : List ℕ)
    → last ≤ now
    → Keeps window ts log last
    → Keeps window (drop_expired now window ts) log now
drop_expired-Keeps window last now ts log h t =
    rw (drop_expired-in_window now window ts t.ordered) (record {
      ordered = IsOrdered-in_window now window ts t.ordered;
      past = IsPast-in_window now now window ts (IsPast-mono last now ts h t.past);
      same = λ n k. in_window_again now n window ts k ∙ t.same n (omega arith);
    })

-- Both the list and the log record `now`.
pub concat-Keeps :
    (window now : ℕ) (ts log : List ℕ)
    → Keeps window ts log now
    → Keeps window (ts ++ now ∷ []) (log ++ now ∷ []) now
concat-Keeps window now ts log t = record {
  ordered = IsOrdered-concat now ts t.ordered t.past;
  past = IsPast-concat now ts t.past;
  same = λ n k. rw (
    keep-append (λ u. ltb n (u + window)) ts (now ∷ []),
    keep-append (λ u. ltb n (u + window)) log (now ∷ []),
    t.same n k,
  );
}

pub later-Keeps :
    (window last now : ℕ) (ts log : List ℕ)
    → last ≤ now
    → Keeps window ts log last
    → Keeps window ts log now
later-Keeps window last now ts log h t = record {
  ordered = t.ordered;
  past = IsPast-mono last now ts h t.past;
  same = λ n k. t.same n (omega arith);
}
