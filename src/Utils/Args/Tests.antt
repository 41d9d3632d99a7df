-- ===== src/Utils/Args/Tests.antt =====
-- The theorems on args.ts at concrete inputs, with the natural numbers as the numbers.
use lunibee.Base.{
  ℕ, ◌+◌, ◌*◌, ◌-◌, ◌≡◌, refl, true, false, Option, none, some, List, [], ◌∷◌, ◌==◌, ltb,
  if◌then◌else◌, codes, Text,
}
use lunibee.Utils.Args.Tokens.{tokenize_args, scan, next, is_space}
use lunibee.Utils.Args.RoundTrip.{write_args, tokenize_args-write_args}
use lunibee.Utils.Args.Reading.{
  Numbers, PrefixArgSpec, PrefixArgValue, read_one, read_as, check_number, read_text, choose_text,
  text_value, number_value, string, integer, rest, is_digit,
}
use lunibee.Utils.Args.Parsing.{parsed, parse_specs, parse_prefix_args}
use lunibee.Utils.Args.Options.{
  CommandOption, has_thrown, args_from_command_options, args_from_command_options-returns,
}
use lunibee.Utils.Args.Results.{AllFit, parse_prefix_args-AllFit, empty_argument_blocks}

abbrev read_digits : ℕ → Text → Option ℕ
read_digits n [] = some n
read_digits n (c ∷ s) = if is_digit c then read_digits (n * 10 + (c - 48)) s else none

abbrev naturals : Numbers
naturals = record {
  Number = ℕ;
  read_number = read_digits 0;
  is_safe_integer = λ n. true;
  less = ltb;
  same = λ a b. a == b;
  show = λ n. [];
}

abbrev spec_of : Text → PrefixArgSpec ℕ
spec_of name = record {
  name = name;
  type = string;
  required = false;
  max_length = none;
  min = none;
  max = none;
  choices = none;
}

abbrev specs : List (PrefixArgSpec ℕ)
specs =
    record (spec_of (codes "minutes")) { type = integer; max = some 60 }
    ∷ record (spec_of (codes "reason")) { type = rest }
    ∷ []

abbrev values : List (Text × Option (PrefixArgValue ℕ))
values =
    (codes "minutes", some (number_value 10))
    ∷ (codes "reason", some (text_value (codes "too loud")))
    ∷ []

tokens_of_quotes :
    tokenize_args (codes "a \"b c\"  d\\ e") ≡ codes "a" ∷ codes "b c" ∷ codes "d e" ∷ []
unfolding tokenize_args scan next is_space
tokens_of_quotes = refl

tokenize_args-write_args_example :
    tokenize_args (write_args (codes "ban" ∷ [] ∷ codes "being rude" ∷ []))
    ≡ codes "ban" ∷ [] ∷ codes "being rude" ∷ []
tokenize_args-write_args_example =
    tokenize_args-write_args (codes "ban" ∷ [] ∷ codes "being rude" ∷ [])

parse_prefix_args-AllFit_example : AllFit naturals specs values
unfolding parse_prefix_args parse_specs tokenize_args scan next is_space read_one read_as
    check_number read_text choose_text
parse_prefix_args-AllFit_example =
    parse_prefix_args-AllFit naturals (codes "10 too loud") specs values refl

empty_argument_blocks_example :
    parse_specs naturals (spec_of (codes "a") ∷ spec_of (codes "b") ∷ []) ([] ∷ codes "x" ∷ [])
    ≡ parsed ((codes "a", none) ∷ (codes "b", none) ∷ [])
empty_argument_blocks_example =
    empty_argument_blocks naturals (spec_of (codes "a") ∷ spec_of (codes "b") ∷ []) (codes "x" ∷ [])
      ((refl, refl), ((refl, refl), tt))

abbrev options : List (CommandOption ℕ)
options =
    record {
      name = codes "reason";
      type = 3;
      required = true;
      min_value = none;
      max_value = none;
      max_length = some 100;
      choices = none;
    }
    ∷ []

args_from_command_options-returns_example :
    has_thrown
      (parse_prefix_args naturals (codes "too loud") (args_from_command_options options true))
    ≡ false
args_from_command_options-returns_example =
    args_from_command_options-returns naturals (codes "too loud") options true
