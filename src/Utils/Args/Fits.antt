-- ===== src/Utils/Args/Fits.antt =====
-- What `readOne` of args.ts yields satisfies the spec.
use lunibee.Base.{
  codes, ℕ, ◌≡◌, refl, sym, ap, ◌∙◌, Bool, true, false, not, ◌&&◌, ◌||◌, Option, none, some, List,
  [], ◌∷◌, if◌then◌else◌, Text, arith, Bool-cases, Option-cases, inl, inr, length, text_eq,
  text_eq_self, to_lower, subst,
}
use lunibee.Utils.Args.Reading.{
  not_a_channel, not_a_role, read_id, number_read, not_a_user, Numbers, PrefixArgType,
  PrefixArgSpec, PrefixArgValue, ReadError, reads, rest, string, integer, number, boolean, user,
  role, channel, mentionable, text_value, number_value, boolean_value, user_mention, role_mention,
  is_snowflake, Choice, choice_text, read_as, read_text, choose_text, check_number, read_boolean,
  read_mentionable, parse_user_mention, parse_role_mention, parse_channel_mention, mention_id,
  exceeds, below, above, is_offered, find_exact, find_lower, or_else, strip_prefix, strip_close,
  strip_mark, as_snowflake,
}
use mathlib.Core.Option.{some-injective}

-- An ID that a pattern yields is a snowflake.
IsId : Option Text → Type 0
IsId o = (id : Text) → o ≡ some id → is_snowflake id ≡ true

as_snowflake-IsId : (s : Text) → IsId (as_snowflake s)
unfolding IsId
as_snowflake-IsId s id h = elim (Bool-cases (is_snowflake s)) [
  | inl e ↦ ap is_snowflake (sym (some-injective _ _ (rw e at h))) ∙ e
  | inr e ↦ ground (arith, e)
]

strip_mark-IsId : (o : Option Text) → IsId (strip_mark o)
strip_mark-IsId none = unfold IsId in λ id h. ground arith
strip_mark-IsId (some s) = closed (strip_close s)
  where
    closed : (o : Option Text) → IsId (elim o [ none ↦ none | some id ↦ as_snowflake id ])
    closed none = unfold IsId in λ id h. ground arith
    closed (some id) = as_snowflake-IsId id

or_else-IsId : (a b : Option Text) → IsId a → IsId b → IsId (or_else a b)
or_else-IsId none b ha hb = hb
or_else-IsId (some s) b ha hb = ha

mention_id-IsId : (prefix s : Text) → IsId (mention_id prefix s)
unfolding mention_id
mention_id-IsId prefix s = strip_mark-IsId (strip_prefix prefix s)

parse_user_mention-IsId : (s : Text) → IsId (parse_user_mention s)
unfolding parse_user_mention
parse_user_mention-IsId s =
    or_else-IsId _ _ (or_else-IsId _ _ (mention_id-IsId _ s) (mention_id-IsId _ s))
      (as_snowflake-IsId s)

parse_role_mention-IsId : (s : Text) → IsId (parse_role_mention s)
unfolding parse_role_mention
parse_role_mention-IsId s = or_else-IsId _ _ (mention_id-IsId _ s) (as_snowflake-IsId s)

parse_channel_mention-IsId : (s : Text) → IsId (parse_channel_mention s)
unfolding parse_channel_mention
parse_channel_mention-IsId s = or_else-IsId _ _ (mention_id-IsId _ s) (as_snowflake-IsId s)

module _ (N : Numbers) where
  abbrev has_choice : Text → List (Choice N.Number) → Bool
  has_choice s [] = false
  has_choice s (c ∷ cs) = if text_eq (choice_text N c) s then true else has_choice s cs

  abbrev choices_fit : Option ℕ → Option (List (Choice N.Number)) → Text → Bool
  choices_fit limit none s = not (exceeds limit (length s))
  choices_fit limit (some cs) s = has_choice s cs

  abbrev text_fits : PrefixArgSpec N.Number → Text → Bool
  text_fits spec s = choices_fit spec.max_length spec.choices s

  abbrev number_fits : PrefixArgSpec N.Number → N.Number → Bool
  number_fits spec n =
      not (below N n spec.min) && not (above N n spec.max) && is_offered N n spec.choices

  -- The value is of the type, and satisfies what the spec demands.
  abbrev pub fits : PrefixArgType → PrefixArgSpec N.Number → PrefixArgValue N.Number → Bool
  fits string spec (text_value s) = text_fits spec s
  fits rest spec (text_value s) = text_fits spec s
  fits integer spec (number_value n) = N.is_safe_integer n && number_fits spec n
  fits number spec (number_value n) = number_fits spec n
  fits boolean spec (boolean_value b) = true
  fits user spec (text_value s) = is_snowflake s
  fits role spec (text_value s) = is_snowflake s
  fits channel spec (text_value s) = is_snowflake s
  fits mentionable spec (user_mention s) = is_snowflake s
  fits mentionable spec (role_mention s) = is_snowflake s
  fits _ spec _ = false

  find_exact-has_choice :
      (raw s : Text) (cs : List (Choice N.Number))
      → find_exact N raw cs ≡ some s
      → has_choice s cs ≡ true
  find_exact-has_choice raw s [] h = ground arith
  find_exact-has_choice raw s (c ∷ cs) h = elim (Bool-cases (text_eq (choice_text N c) raw)) [
    | inl e ↦
        let eq = some-injective _ _ (rw e at h) in
        rw (subst (λ x. text_eq (choice_text N c) x ≡ true) eq (text_eq_self (choice_text N c)))
    | inr e ↦ ground (arith, find_exact-has_choice raw s cs (rw e at h))
  ]

  find_lower-has_choice :
      (lower s : Text) (cs : List (Choice N.Number))
      → find_lower N lower cs ≡ some s
      → has_choice s cs ≡ true
  find_lower-has_choice lower s [] h = ground arith
  find_lower-has_choice lower s (c ∷ cs) h =
      elim (Bool-cases (text_eq (to_lower (choice_text N c)) lower)) [
        | inl e ↦
            let eq = some-injective _ _ (rw e at h) in
            rw (subst (λ x. text_eq (choice_text N c) x ≡ true) eq (text_eq_self (choice_text N c)))
        | inr e ↦ ground (arith, find_lower-has_choice lower s cs (rw e at h))
      ]

  found-has_choice :
      (raw s : Text) (cs : List (Choice N.Number))
      → or_else (find_exact N raw cs) (find_lower N (to_lower raw) cs) ≡ some s
      → has_choice s cs ≡ true
  found-has_choice raw s cs h = elim (Option-cases (find_exact N raw cs)) [
    | inl e ↦ find_lower-has_choice (to_lower raw) s cs (rw e at h)
    | inr (t, e) ↦ find_exact-has_choice raw s cs (e ∙ (rw e at h))
  ]

  choose_text-fits :
      (limit : Option ℕ) (raw : Text) (choices : Option (List (Choice N.Number)))
      (v : PrefixArgValue N.Number)
      → exceeds limit (length raw) ≡ false
      → choose_text N raw choices ≡ reads v
      → (s : Text) × (v ≡ text_value s) × (choices_fit limit choices s ≡ true)
  unfolding choose_text
  choose_text-fits limit raw none v short h = (raw, ground arith, ground (arith, short))
  choose_text-fits limit raw (some cs) v short h =
      elim (Option-cases (or_else (find_exact N raw cs) (find_lower N (to_lower raw) cs))) [
        | inl e ↦ absurd (ground (arith, e))
        | inr (s, e) ↦ (s, ground (arith, e), found-has_choice raw s cs e)
      ]

  read_text-fits :
      (spec : PrefixArgSpec N.Number) (raw : Text) (v : PrefixArgValue N.Number)
      → read_text N spec raw ≡ reads v
      → (s : Text) × (v ≡ text_value s) × (text_fits spec s ≡ true)
  unfolding read_text
  read_text-fits spec raw v h = elim (Bool-cases (exceeds spec.max_length (length raw))) [
    | inl e ↦ absurd (ground (arith, e))
    | inr e ↦ choose_text-fits spec.max_length raw spec.choices v e (rw e at h)
  ]

  check_number-fits :
      (spec : PrefixArgSpec N.Number) (whole : Bool) (n : N.Number) (v : PrefixArgValue N.Number)
      → check_number N spec whole n ≡ reads v
      → (v ≡ number_value n)
        × (number_fits spec n ≡ true)
        × ((not whole || N.is_safe_integer n) ≡ true)
  unfolding check_number
  check_number-fits spec whole n v h = ground arith

  number_read-fits :
      (spec : PrefixArgSpec N.Number) (whole : Bool) (o : Option N.Number)
      (v : PrefixArgValue N.Number)
      → number_read N spec whole o ≡ reads v
      → (n : N.Number) × (v ≡ number_value n)
        × (number_fits spec n ≡ true)
        × ((not whole || N.is_safe_integer n) ≡ true)
  number_read-fits spec whole none v h = absurd (ground arith)
  number_read-fits spec whole (some n) v h =
      let (is, fit, safe) = check_number-fits spec whole n v h in (n, is, fit, safe)

  read_id-fits :
      (error : ReadError) (o : Option Text) (v : PrefixArgValue N.Number)
      → IsId o
      → read_id N error o ≡ reads v
      → (s : Text) × (v ≡ text_value s) × (is_snowflake s ≡ true)
  unfolding IsId
  read_id-fits error none v ids h = absurd (ground arith)
  read_id-fits error (some id) v ids h = (id, ground arith, ids id refl)

  read_mentionable-fits :
      (marked unmarked : Option Text) (spec : PrefixArgSpec N.Number) (v : PrefixArgValue N.Number)
      → IsId marked
      → IsId unmarked
      → read_mentionable N marked unmarked ≡ reads v
      → fits mentionable spec v ≡ true
  unfolding read_mentionable IsId
  read_mentionable-fits (some id) o spec v ids ids' h = ground (arith, ids id refl)
  read_mentionable-fits none (some id) spec v ids ids' h = ground (arith, ids' id refl)
  read_mentionable-fits none none spec v ids ids' h = absurd (ground arith)

  read_boolean-fits :
      (word : Text) (spec : PrefixArgSpec N.Number) (v : PrefixArgValue N.Number)
      → read_boolean N word ≡ reads v
      → fits boolean spec v ≡ true
  unfolding read_boolean
  read_boolean-fits word spec v h = ground arith

  -- What is read for a type is a value of it that satisfies the spec.
  pub read_as-fits :
      (t : PrefixArgType) (spec : PrefixArgSpec N.Number) (raw : Text) (v : PrefixArgValue N.Number)
      → read_as N t spec raw ≡ reads v
      → fits t spec v ≡ true
  unfolding read_as
  read_as-fits string spec raw v h = let (s, is, fit) = read_text-fits spec raw v h in rw is fit
  read_as-fits rest spec raw v h = let (s, is, fit) = read_text-fits spec raw v h in rw is fit
  read_as-fits integer spec raw v h =
      let (n, is, fit, safe) = number_read-fits spec true (N.read_number raw) v h in
      rw (is, safe) fit
  read_as-fits number spec raw v h =
      let (n, is, fit, safe) = number_read-fits spec false (N.read_number raw) v h in rw is fit
  read_as-fits boolean spec raw v h = read_boolean-fits (to_lower raw) spec v h
  read_as-fits user spec raw v h =
      let (s, is, fit) =
        read_id-fits not_a_user (parse_user_mention raw) v (parse_user_mention-IsId raw) h in
      rw is fit
  read_as-fits role spec raw v h =
      let (s, is, fit) =
        read_id-fits not_a_role (parse_role_mention raw) v (parse_role_mention-IsId raw) h in
      rw is fit
  read_as-fits channel spec raw v h =
      let (s, is, fit) =
        read_id-fits not_a_channel (parse_channel_mention raw) v (parse_channel_mention-IsId raw)
          h in
      rw is fit
  read_as-fits mentionable spec raw v h =
      read_mentionable-fits (mention_id (codes "<@&") raw) (parse_user_mention raw) spec v
        (mention_id-IsId _ raw) (parse_user_mention-IsId raw) h
