-- ===== src/Utils/Args/Options.antt =====
-- `argsFromCommandOptions` of packages/utils/src/args.ts, and that `parsePrefixArgs` never throws on
-- what it yields.
use lunibee.Base.{
  ℕ, ◌≡◌, refl, ◌∙◌, subst, ◌==◌, Bool, true, false, not, ◌&&◌, Option, none, some, List, [], ◌∷◌,
  if◌then◌else◌, Text, arith, Bool-cases, inl, inr, All,
}
use mathlib.Core.Option.{some-injective}
use lunibee.Utils.Args.Tokens.{tokenize_args}
use lunibee.Utils.Args.Reading.{
  Numbers, PrefixArgType, PrefixArgSpec, PrefixArgValue, Choice, Read, reads, read_fails, string,
  integer, number, boolean, user, role, channel, mentionable, rest, read_one,
}
use lunibee.Utils.Args.Parsing.{
  PrefixArgsResult, parsed, failed, throws, is_rest, is_last, put, put_read, put_raw, parse_specs,
  parse_prefix_args, tail,
}

-- An option as sent to Discord, with the values of its choices.
pub record CommandOption (Number : Type 0) : Type 0 where
  pub name : Text
  pub type : ℕ
  pub required : Bool
  pub min_value : Option Number
  pub max_value : Option Number
  pub max_length : Option ℕ
  pub choices : Option (List (Choice Number))

-- `OPTION_TYPES`
abbrev pub option_types : List (ℕ × PrefixArgType)
option_types =
    (3, string)
    ∷ (4, integer)
    ∷ (5, boolean)
    ∷ (6, user)
    ∷ (7, channel)
    ∷ (8, role)
    ∷ (9, mentionable)
    ∷ (10, number)
    ∷ []

abbrev pub type_in : List (ℕ × PrefixArgType) → ℕ → Option PrefixArgType
type_in [] n = none
type_in ((m, t) ∷ ts) n = if m == n then some t else type_in ts n

unfoldable pub option_type : ℕ → Option PrefixArgType
option_type n = type_in option_types n

type_in-NoRest :
    (ts : List (ℕ × PrefixArgType)) (n : ℕ) (t : PrefixArgType)
    → All (λ p. is_rest p.1 ≡ false) ts
    → type_in ts n ≡ some t
    → is_rest t ≡ false
type_in-NoRest [] n t h eq = absurd (ground arith)
type_in-NoRest ((m, u) ∷ ts) n t (here, h) eq = elim (Bool-cases (m == n)) [
  | inl e ↦ subst (λ x. is_rest x ≡ false) (some-injective _ _ (rw e at eq)) here
  | inr e ↦ type_in-NoRest ts n t h (rw e at eq)
]

option_type-NoRest : (n : ℕ) (t : PrefixArgType) → option_type n ≡ some t → is_rest t ≡ false
unfolding option_type
option_type-NoRest n t h =
    type_in-NoRest option_types n t
      (refl, (refl, (refl, (refl, (refl, (refl, (refl, (refl, tt)))))))) h

abbrev pub is_string : PrefixArgType → Bool
is_string string = true
is_string _ = false

module _ {Number : Type 0} where
  abbrev pub spec_of_option : CommandOption Number → PrefixArgType → PrefixArgSpec Number
  spec_of_option o t = record {
    name = o.name;
    type = t;
    required = o.required;
    max_length = o.max_length;
    min = o.min_value;
    max = o.max_value;
    choices = o.choices;
  }

  -- The loop: options of other types are left out.
  unfoldable pub known_options : List (CommandOption Number) → List (PrefixArgSpec Number)
  known_options [] = []
  known_options (o ∷ os) =
      let later = known_options os in
      elim (option_type o.type) [ none ↦ later | some t ↦ spec_of_option o t ∷ later ]

  -- The last string takes the rest of the message.
  unfoldable pub rest_last : List (PrefixArgSpec Number) → List (PrefixArgSpec Number)
  rest_last [] = []
  rest_last (s ∷ []) = (if is_string s.type then record s { type = rest } else s) ∷ []
  rest_last (s ∷ t ∷ ss) = s ∷ rest_last (t ∷ ss)

  unfoldable pub args_from_command_options :
      List (CommandOption Number) → Bool → List (PrefixArgSpec Number)
  args_from_command_options options is_rest_last =
      let specs = known_options options in if is_rest_last then rest_last specs else specs

  -- Only the last spec may be `rest`.
  abbrev RestOnlyLast : List (PrefixArgSpec Number) → Type 0
  RestOnlyLast [] = Unit
  RestOnlyLast (s ∷ ss) = ((is_rest s.type && not (is_last ss)) ≡ false) × RestOnlyLast ss

  abbrev NoRest : List (PrefixArgSpec Number) → Type 0
  NoRest = All (λ s. is_rest s.type ≡ false)

  NoRest-RestOnlyLast : (ss : List (PrefixArgSpec Number)) → NoRest ss → RestOnlyLast ss
  NoRest-RestOnlyLast [] h = tt
  NoRest-RestOnlyLast (s ∷ ss) (none_here, h) =
      (ground (arith, none_here), NoRest-RestOnlyLast ss h)

  rest_last-RestOnlyLast :
      (ss : List (PrefixArgSpec Number)) → NoRest ss → RestOnlyLast (rest_last ss)
  unfolding rest_last
  rest_last-RestOnlyLast [] h = tt
  rest_last-RestOnlyLast (s ∷ []) h = (ground arith, tt)
  rest_last-RestOnlyLast (s ∷ t ∷ ss) (none_here, h) =
      (ground (arith, none_here), rest_last-RestOnlyLast (t ∷ ss) h)

  kept-NoRest :
      (o : CommandOption Number) (k : Option PrefixArgType) (later : List (PrefixArgSpec Number))
      → ((t : PrefixArgType) → k ≡ some t → is_rest t ≡ false)
      → NoRest later
      → NoRest (elim k [ none ↦ later | some t ↦ spec_of_option o t ∷ later ])
  kept-NoRest o none later h hs = hs
  kept-NoRest o (some t) later h hs = (h t refl, hs)

  known_options-NoRest : (os : List (CommandOption Number)) → NoRest (known_options os)
  unfolding known_options
  known_options-NoRest [] = tt
  known_options-NoRest (o ∷ os) =
      kept-NoRest o (option_type o.type) (known_options os) (option_type-NoRest o.type)
        (known_options-NoRest os)

  args_from_command_options-RestOnlyLast :
      (os : List (CommandOption Number)) (is_rest_last : Bool)
      → RestOnlyLast (args_from_command_options os is_rest_last)
  unfolding args_from_command_options
  args_from_command_options-RestOnlyLast os true =
      rest_last-RestOnlyLast (known_options os) (known_options-NoRest os)
  args_from_command_options-RestOnlyLast os false =
      NoRest-RestOnlyLast (known_options os) (known_options-NoRest os)

  -- The parser threw.
  abbrev pub has_thrown : PrefixArgsResult Number → Bool
  has_thrown (parsed values) = false
  has_thrown (failed arg error) = false
  has_thrown (throws arg) = true

  has_thrown-put :
      (name : Text) (v : Option (PrefixArgValue Number)) (r : PrefixArgsResult Number)
      → has_thrown (put name v r) ≡ has_thrown r
  has_thrown-put name v (parsed values) = refl
  has_thrown-put name v (failed arg error) = refl
  has_thrown-put name v (throws arg) = refl

module _ (N : Numbers) where
  has_thrown-put_read :
      (name : Text) (read : Read N.Number) (r : PrefixArgsResult N.Number)
      → has_thrown r ≡ false
      → has_thrown (put_read N name read r) ≡ false
  has_thrown-put_read name (reads v) r h = has_thrown-put name (some v) r ∙ h
  has_thrown-put_read name (read_fails error) r h = refl

  has_thrown-put_raw :
      (spec : PrefixArgSpec N.Number) (raw : Option Text)
      (same_args next_args : PrefixArgsResult N.Number)
      → has_thrown same_args ≡ false
      → has_thrown next_args ≡ false
      → has_thrown (put_raw N spec raw same_args next_args) ≡ false
  has_thrown-put_raw spec none same_args next_args hs hn =
      ground (arith, has_thrown-put spec.name none same_args, hs)
  has_thrown-put_raw spec (some raw) same_args next_args hs hn =
      has_thrown-put_read spec.name (read_one N spec raw) next_args hn

  parse_specs-returns :
      (specs : List (PrefixArgSpec N.Number)) (args : List Text)
      → RestOnlyLast specs
      → has_thrown (parse_specs N specs args) ≡ false
  unfolding parse_specs
  parse_specs-returns [] args h = refl
  parse_specs-returns (spec ∷ specs) args (last, h) = rw last (
      has_thrown-put_raw spec _ (parse_specs N specs args) _ (parse_specs-returns specs args h)
        (parse_specs-returns specs (if is_rest spec.type then [] else tail args) h))

  -- The specs that `argsFromCommandOptions` makes of any options, with or without `restLast`, never
  -- make `parsePrefixArgs` throw, whatever the text.
  pub args_from_command_options-returns :
      (input : Text) (os : List (CommandOption N.Number)) (is_rest_last : Bool)
      → has_thrown (parse_prefix_args N input (args_from_command_options os is_rest_last)) ≡ false
  unfolding parse_prefix_args
  args_from_command_options-returns input os is_rest_last =
      parse_specs-returns (args_from_command_options os is_rest_last) (tokenize_args input)
        (args_from_command_options-RestOnlyLast os is_rest_last)
