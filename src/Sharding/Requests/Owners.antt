-- ===== src/Sharding/Requests/Owners.antt =====
-- `failOwner` of requests.ts on one entry: it answers the keys of an owner and no others.
use lunibee.Base.{
  ℕ, ◌≡◌, refl, ◌∙◌, true, not, ◌&&◌, none, some, List, [], ◌∷◌, ◌==◌, if◌then◌else◌, Text, text_eq,
  text_eq_self, Bool-cases, inl, inr, arith, All, is_some,
}
use lunibee.Sharding.Requests.{Entry, accept, fail_key, fail_keys, has_text, owner_of}
use lunibee.Sharding.Requests.Entries.{Sound, accept-Sound, has_text-append}

-- A key of the entry.
abbrev IsKeyOf : List (Text × ℕ) → Text × ℕ → Type 0
IsKeyOf ks p = is_some (owner_of p.0 ks) ≡ true

fail_key-keys :
    (owner : ℕ) (error : Text) (p : Text × ℕ) (e : Entry) → (fail_key owner error p e).keys ≡ e.keys
unfolding fail_key accept
fail_key-keys owner error p e = ground arith

pub fail_keys-keys :
    (owner : ℕ) (error : Text) (ks : List (Text × ℕ)) (e : Entry)
    → (fail_keys owner error ks e).keys ≡ e.keys
unfolding fail_keys
fail_keys-keys owner error [] e = refl
fail_keys-keys owner error (p ∷ ks) e =
    fail_keys-keys owner error ks (fail_key owner error p e) ∙ fail_key-keys owner error p e

fail_key-Sound :
    (owner : ℕ) (error : Text) (p : Text × ℕ) (e : Entry)
    → Sound e
    → IsKeyOf e.keys p
    → Sound (fail_key owner error p e)
unfolding fail_key
fail_key-Sound owner error (key, key_owner) e sound known =
    elim (Bool-cases (key_owner == owner && not (has_text key e.answered))) [
      | inl h ↦ rw h (
          accept-Sound (record { key = key; result = none; error = some error }) e sound known
            (ground arith))
      | inr h ↦ rw h sound
    ]

fail_keys-Sound_among :
    (owner : ℕ) (error : Text) (ks : List (Text × ℕ)) (e : Entry)
    → Sound e
    → All (IsKeyOf e.keys) ks
    → Sound (fail_keys owner error ks e)
unfolding fail_keys
fail_keys-Sound_among owner error [] e sound known = sound
fail_keys-Sound_among owner error (p ∷ ks) e sound (h, known) =
    fail_keys-Sound_among owner error ks (fail_key owner error p e)
      (fail_key-Sound owner error p e sound h) (rw (fail_key-keys owner error p e) known)

-- Every key of a map is found in it.
IsKeyOf-cons :
    (p : Text × ℕ) (ks : List (Text × ℕ)) (xs : List (Text × ℕ))
    → All (IsKeyOf ks) xs
    → All (IsKeyOf (p ∷ ks)) xs
IsKeyOf-cons p ks [] h = tt
IsKeyOf-cons p ks (x ∷ xs) (h, hs) = (ground arith, IsKeyOf-cons p ks xs hs)

keys-IsKeyOf : (ks : List (Text × ℕ)) → All (IsKeyOf ks) ks
keys-IsKeyOf [] = tt
keys-IsKeyOf ((k, owner) ∷ ks) =
    (ground (arith, text_eq_self k), IsKeyOf-cons (k, owner) ks ks (keys-IsKeyOf ks))

pub fail_keys-Sound :
    (owner : ℕ) (error : Text) (e : Entry) → Sound e → Sound (fail_keys owner error e.keys e)
fail_keys-Sound owner error e sound =
    fail_keys-Sound_among owner error e.keys e sound (keys-IsKeyOf e.keys)

fail_key-answered :
    (owner : ℕ) (error : Text) (p : Text × ℕ) (e : Entry) (k : Text)
    → has_text k (fail_key owner error p e).answered ≡ (
        if has_text k e.answered
        then true
        else text_eq k p.0 && p.1 == owner && not (has_text p.0 e.answered))
unfolding fail_key accept
fail_key-answered owner error p e k = ground (arith, has_text-append k p.0 e.answered)

-- Answered keys stay answered.
fail_keys-keep :
    (owner : ℕ) (error : Text) (ks : List (Text × ℕ)) (e : Entry) (k : Text)
    → has_text k e.answered ≡ true
    → has_text k (fail_keys owner error ks e).answered ≡ true
unfolding fail_keys
fail_keys-keep owner error [] e k h = h
fail_keys-keep owner error (p ∷ ks) e k h =
    fail_keys-keep owner error ks (fail_key owner error p e) k
      (ground (arith, fail_key-answered owner error p e k))

abbrev pub IsAnsweredFor : ℕ → List Text → Text × ℕ → Type 0
IsAnsweredFor owner answered (k, key_owner) = key_owner ≡ owner → has_text k answered ≡ true

-- After the loop of `failOwner` over the keys of a request every one of those keys that the owner
-- owns has an answer.
pub fail_keys-IsAnsweredFor :
    (owner : ℕ) (error : Text) (ks : List (Text × ℕ)) (e : Entry)
    → All (IsAnsweredFor owner (fail_keys owner error ks e).answered) ks
unfolding fail_keys
fail_keys-IsAnsweredFor owner error [] e = tt
fail_keys-IsAnsweredFor owner error ((k, key_owner) ∷ ks) e =
    let d = fail_key owner error (k, key_owner) e in
    (
      λ h.
          fail_keys-keep owner error ks d k
            (ground (arith, fail_key-answered owner error (k, key_owner) e k, text_eq_self k)),
      fail_keys-IsAnsweredFor owner error ks d,
    )
