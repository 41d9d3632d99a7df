-- ===== src/Utils/Args/Reading.antt =====
-- `readOne` and `parsePrefixArgs` of packages/utils/src/args.ts. A JavaScript number is of the type
-- `Number`; its parser (`none` for what is not finite or blank), its order and its text are
-- arguments. `toLowerCase` is that of ASCII text.
use lunibee.Base.{
  map, ℕ, Bool, true, false, not, ◌&&◌, Option, none, some, List, [], ◌∷◌, ◌==◌, leb, ltb,
  if◌then◌else◌, length, Text, text_eq, codes, to_lower,
}

pub data PrefixArgType : Type 0 where
  string integer number boolean user role channel mentionable rest : PrefixArgType

pub data Choice (Number : Type 0) : Type 0 where
  text_choice : Text → Choice Number
  number_choice : Number → Choice Number

pub record PrefixArgSpec (Number : Type 0) : Type 0 where
  pub name : Text
  pub type : PrefixArgType
  pub required : Bool
  pub max_length : Option ℕ
  pub min : Option Number
  pub max : Option Number
  pub choices : Option (List (Choice Number))

pub data PrefixArgValue (Number : Type 0) : Type 0 where
  text_value : Text → PrefixArgValue Number
  number_value : Number → PrefixArgValue Number
  boolean_value : Bool → PrefixArgValue Number
  user_mention role_mention : Text → PrefixArgValue Number

-- The errors, without their wording.
pub data ReadError : Type 0 where
  too_long not_a_choice not_a_number not_whole too_small too_large not_boolean : ReadError
  not_a_user not_a_role not_a_channel not_mentionable : ReadError

pub data Read (Number : Type 0) : Type 0 where
  reads : PrefixArgValue Number → Read Number
  read_fails : ReadError → Read Number

abbrev pub is_digit : ℕ → Bool
is_digit c = leb 48 c && leb c 57

abbrev pub all_digits : Text → Bool
all_digits [] = true
all_digits (c ∷ s) = if is_digit c then all_digits s else false

-- `/^\d{16,20}$/`
unfoldable pub is_snowflake : Text → Bool
is_snowflake s = all_digits s && leb 16 (length s) && leb (length s) 20

-- What stands between `open` and a final `>`, when that is an ID.
abbrev pub strip_prefix : Text → Text → Option Text
strip_prefix [] s = some s
strip_prefix (_ ∷ _) [] = none
strip_prefix (p ∷ ps) (c ∷ s) = if c == p then strip_prefix ps s else none

abbrev pub strip_close : Text → Option Text
strip_close [] = none
strip_close (c ∷ []) = if c == 62 then some [] else none
strip_close (c ∷ d ∷ s) = elim (strip_close (d ∷ s)) [ none ↦ none | some r ↦ some (c ∷ r) ]

abbrev pub as_snowflake : Text → Option Text
as_snowflake s = if is_snowflake s then some s else none

abbrev pub strip_mark : Option Text → Option Text
strip_mark none = none
strip_mark (some s) = elim (strip_close s) [ none ↦ none | some id ↦ as_snowflake id ]

unfoldable pub mention_id : Text → Text → Option Text
mention_id prefix s = strip_mark (strip_prefix prefix s)

-- The first result, or the second.
abbrev pub or_else : Option Text → Option Text → Option Text
or_else none b = b
or_else (some a) b = some a

unfoldable pub parse_role_mention : Text → Option Text
parse_role_mention s = or_else (mention_id (codes "<@&") s) (as_snowflake s)

unfoldable pub parse_channel_mention : Text → Option Text
parse_channel_mention s = or_else (mention_id (codes "<#") s) (as_snowflake s)

unfoldable pub parse_user_mention : Text → Option Text
parse_user_mention s =
    or_else (or_else (mention_id (codes "<@!") s) (mention_id (codes "<@") s)) (as_snowflake s)

abbrev pub true_words : List Text
true_words = map codes ("true" ∷ "yes" ∷ "y" ∷ "on" ∷ "1" ∷ "enable" ∷ "enabled" ∷ [])

abbrev pub false_words : List Text
false_words = map codes ("false" ∷ "no" ∷ "n" ∷ "off" ∷ "0" ∷ "disable" ∷ "disabled" ∷ [])

abbrev pub has_word : Text → List Text → Bool
has_word s [] = false
has_word s (w ∷ ws) = if text_eq s w then true else has_word s ws

-- `x !== undefined && value.length > x` and such tests.
abbrev pub exceeds : Option ℕ → ℕ → Bool
exceeds none n = false
exceeds (some limit) n = ltb limit n

-- The numbers of JavaScript: the parser, `Number.isSafeInteger`, `<`, `===` and `String`.
pub record Numbers : Type 1 where
  pub Number : Type 0
  pub read_number : Text → Option Number
  pub is_safe_integer : Number → Bool
  pub less : Number → Number → Bool
  pub same : Number → Number → Bool
  pub show : Number → Text

module _ (N : Numbers) where
  -- `String(choice)`
  abbrev pub choice_text : Choice N.Number → Text
  choice_text (text_choice s) = s
  choice_text (number_choice n) = N.show n

  -- The first choice with the text, then the first one with it but for case.
  abbrev pub find_exact : Text → List (Choice N.Number) → Option Text
  find_exact raw [] = none
  find_exact raw (c ∷ cs) =
      if text_eq (choice_text c) raw then some (choice_text c) else find_exact raw cs

  abbrev pub find_lower : Text → List (Choice N.Number) → Option Text
  find_lower lower [] = none
  find_lower lower (c ∷ cs) =
      if text_eq (to_lower (choice_text c)) lower then some (choice_text c) else find_lower lower cs

  unfoldable pub choose_text : Text → Option (List (Choice N.Number)) → Read N.Number
  choose_text raw none = reads (text_value raw)
  choose_text raw (some cs) = elim (or_else (find_exact raw cs) (find_lower (to_lower raw) cs)) [
    | none ↦ read_fails not_a_choice
    | some s ↦ reads (text_value s)
  ]

  unfoldable pub read_text : PrefixArgSpec N.Number → Text → Read N.Number
  read_text spec raw =
      if exceeds spec.max_length (length raw)
      then read_fails too_long
      else choose_text raw spec.choices

  abbrev pub below : N.Number → Option N.Number → Bool
  below value none = false
  below value (some min) = N.less value min

  abbrev pub above : N.Number → Option N.Number → Bool
  above value none = false
  above value (some max) = N.less max value

  abbrev pub includes_number : N.Number → List (Choice N.Number) → Bool
  includes_number value [] = false
  includes_number value (text_choice s ∷ cs) = includes_number value cs
  includes_number value (number_choice n ∷ cs) =
      if N.same n value then true else includes_number value cs

  abbrev pub is_offered : N.Number → Option (List (Choice N.Number)) → Bool
  is_offered value none = true
  is_offered value (some cs) = includes_number value cs

  -- A number that was read; `whole` says that the type is `integer`.
  unfoldable pub check_number : PrefixArgSpec N.Number → Bool → N.Number → Read N.Number
  check_number spec whole value =
      if whole && not (N.is_safe_integer value)
      then read_fails not_whole
      else if below value spec.min
      then read_fails too_small
      else if above value spec.max
      then read_fails too_large
      else if not (is_offered value spec.choices)
      then read_fails not_a_choice
      else reads (number_value value)

  abbrev pub number_read : PrefixArgSpec N.Number → Bool → Option N.Number → Read N.Number
  number_read spec whole none = read_fails not_a_number
  number_read spec whole (some value) = check_number spec whole value

  unfoldable pub read_boolean : Text → Read N.Number
  read_boolean word =
      if has_word word true_words
      then reads (boolean_value true)
      else if has_word word false_words
      then reads (boolean_value false)
      else read_fails not_boolean

  abbrev pub read_id : ReadError → Option Text → Read N.Number
  read_id error none = read_fails error
  read_id error (some id) = reads (text_value id)

  -- `parseMentionable`
  unfoldable pub read_mentionable : Option Text → Option Text → Read N.Number
  read_mentionable (some id) u = reads (role_mention id)
  read_mentionable none (some id) = reads (user_mention id)
  read_mentionable none none = read_fails not_mentionable

  unfoldable pub read_as : PrefixArgType → PrefixArgSpec N.Number → Text → Read N.Number
  read_as string spec raw = read_text spec raw
  read_as rest spec raw = read_text spec raw
  read_as integer spec raw = number_read spec true (N.read_number raw)
  read_as number spec raw = number_read spec false (N.read_number raw)
  read_as boolean spec raw = read_boolean (to_lower raw)
  read_as user spec raw = read_id not_a_user (parse_user_mention raw)
  read_as role spec raw = read_id not_a_role (parse_role_mention raw)
  read_as channel spec raw = read_id not_a_channel (parse_channel_mention raw)
  read_as mentionable spec raw =
      read_mentionable (mention_id (codes "<@&") raw) (parse_user_mention raw)

  unfoldable pub read_one : PrefixArgSpec N.Number → Text → Read N.Number
  read_one spec raw = read_as spec.type spec raw
