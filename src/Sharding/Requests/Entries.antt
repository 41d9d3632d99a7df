-- ===== src/Sharding/Requests/Entries.antt =====
-- One request of requests.ts: its answers and missing keys always make up its keys.
use lunibee.Base.{
  ℕ, ◌+◌, ◌≡◌, refl, sym, ap, ◌∙◌, true, false, none, List, [], ◌∷◌, ◌++◌, if◌then◌else◌, length,
  length-append, map, Text, text_eq, eq_of_text_eq, Bool-cases, inl, inr, arith, is_some,
}
use lunibee.Sharding.Requests.{Entry, Settled, accept, unanswered, has_text, owner_of, new_entry}

pub text_eq_comm : (s t : Text) → text_eq s t ≡ text_eq t s
text_eq_comm [] [] = refl
text_eq_comm [] (b ∷ t) = refl
text_eq_comm (a ∷ s) [] = refl
text_eq_comm (a ∷ s) (b ∷ t) = ground (arith, text_eq_comm s t)

pub has_text-append :
    (k s : Text) (xs : List Text)
    → has_text k (xs ++ s ∷ []) ≡ (if has_text k xs then true else text_eq k s)
has_text-append k s [] = ground arith
has_text-append k s (x ∷ xs) = ground (arith, has_text-append k s xs)

-- The keys of a map.
abbrev pub Distinct : List (Text × ℕ) → Type 0
Distinct [] = Unit
Distinct ((k, owner) ∷ ks) = (owner_of k ks ≡ none) × Distinct ks

-- The elements of a set.
abbrev pub NoDup : List Text → Type 0
NoDup [] = Unit
NoDup (x ∷ xs) = (has_text x xs ≡ false) × NoDup xs

NoDup-append : (k : Text) (xs : List Text) → NoDup xs → has_text k xs ≡ false → NoDup (xs ++ k ∷ [])
NoDup-append k [] nodup h = (refl, tt)
NoDup-append k (x ∷ xs) (fresh, nodup) h = (
  ground (arith, has_text-append x k xs, text_eq_comm x k),
  NoDup-append k xs nodup (ground arith),
)

unanswered_other :
    (k : Text) (answered : List Text) (ks : List (Text × ℕ))
    → owner_of k ks ≡ none
    → unanswered (answered ++ k ∷ []) ks ≡ unanswered answered ks
unfolding unanswered
unanswered_other k answered [] h = refl
unanswered_other k answered ((k', owner) ∷ ks) h =
    ground (arith, has_text-append k' k answered, text_eq_comm k k', unanswered_other k answered ks)

unanswered_accept :
    (k : Text) (answered : List Text) (ks : List (Text × ℕ))
    → Distinct ks
    → is_some (owner_of k ks) ≡ true
    → has_text k answered ≡ false
    → length (unanswered (answered ++ k ∷ []) ks) + 1 ≡ length (unanswered answered ks)
unfolding unanswered
unanswered_accept k answered [] distinct h fresh = ground arith
unanswered_accept k answered ((k', owner) ∷ ks) (absent, distinct) h fresh =
    elim (Bool-cases (text_eq k k')) [
      | inl e ↦
          let same = eq_of_text_eq k k' e in
          ground (
            arith,
            has_text-append k' k answered,
            text_eq_comm k k',
            e,
            ap (λ x. has_text x answered) same,
            ap length (unanswered_other k answered ks (ap (λ x. owner_of x ks) same ∙ absent)),
          )
      | inr e ↦ ground (
        arith,
        has_text-append k' k answered,
        text_eq_comm k k',
        e,
        unanswered_accept k answered ks distinct (rw e at h) fresh,
      )
    ]

-- The answers are to different keys, and with the missing keys they make up the keys.
unfoldable pub Sound : Entry → Type 0
Sound e =
    (e.answered ≡ map (λ s. s.key) e.replies)
    × NoDup e.answered
    × (length e.replies + length (unanswered e.answered e.keys) ≡ length e.keys)
    × Distinct e.keys

length-unanswered_nil : (ks : List (Text × ℕ)) → length (unanswered [] ks) ≡ length ks
unfolding unanswered
length-unanswered_nil [] = refl
length-unanswered_nil ((k, owner) ∷ ks) = omega (arith, length-unanswered_nil ks)

pub new_entry-Sound : (ks : List (Text × ℕ)) → Distinct ks → Sound (new_entry ks)
unfolding Sound
new_entry-Sound ks distinct = (refl, tt, omega (arith, length-unanswered_nil ks), distinct)

map_key-append :
    (s : Settled) (xs : List Settled)
    → map (λ x. x.key) (xs ++ s ∷ []) ≡ map (λ x. x.key) xs ++ s.key ∷ []
map_key-append s [] = refl
map_key-append s (x ∷ xs) = ap (◌∷◌ x.key) (map_key-append s xs)

pub accept-Sound :
    (s : Settled) (e : Entry)
    → Sound e
    → is_some (owner_of s.key e.keys) ≡ true
    → has_text s.key e.answered ≡ false
    → Sound (accept s e)
unfolding Sound accept
accept-Sound s e (same, nodup, count, distinct) known fresh = (
  ap (λ xs. xs ++ s.key ∷ []) same ∙ sym (map_key-append s e.replies),
  NoDup-append s.key e.answered nodup fresh,
  omega (
    arith,
    count,
    unanswered_accept s.key e.answered e.keys distinct known fresh,
    length-append e.replies (s ∷ []),
  ),
  distinct,
)
