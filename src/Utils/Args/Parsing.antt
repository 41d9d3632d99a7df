-- ===== src/Utils/Args/Parsing.antt =====
-- `parsePrefixArgs` of packages/utils/src/args.ts, past the split of a text into arguments.
use lunibee.Base.{
  Bool, true, false, not, ◌&&◌, Option, none, some, List, [], ◌∷◌, ◌++◌, if◌then◌else◌, Text,
}
use lunibee.Utils.Args.Tokens.{space, tokenize_args}
use lunibee.Utils.Args.Reading.{
  Numbers, PrefixArgType, PrefixArgSpec, PrefixArgValue, ReadError, Read, reads, read_fails,
  read_one, rest,
}

-- The values by name, in order; the argument that failed, with why or because it is required; or
-- the error that is thrown for a rest argument that is not the last.
pub data PrefixArgsResult (Number : Type 0) : Type 0 where
  parsed : List (Text × Option (PrefixArgValue Number)) → PrefixArgsResult Number
  failed : Text → Option ReadError → PrefixArgsResult Number
  throws : Text → PrefixArgsResult Number

abbrev pub is_rest : PrefixArgType → Bool
is_rest rest = true
is_rest _ = false

-- `args.join(" ")`
abbrev pub join : List Text → Text
join [] = []
join (s ∷ []) = s
join (s ∷ t ∷ ss) = s ++ space ∷ join (t ∷ ss)

abbrev pub head : List Text → Option Text
head [] = none
head (s ∷ ss) = some s

abbrev pub tail : List Text → List Text
tail [] = []
tail (s ∷ ss) = ss

-- `raw === undefined || raw === ""` is `none` here.
abbrev pub given : Option Text → Option Text
given none = none
given (some []) = none
given (some (c ∷ s)) = some (c ∷ s)

abbrev pub is_last : {Number : Type 0} → List (PrefixArgSpec Number) → Bool
is_last [] = true
is_last (_ ∷ _) = false

-- The values of the specs that follow are put behind one value.
abbrev pub put :
    {Number : Type 0}
    → Text
    → Option (PrefixArgValue Number)
    → PrefixArgsResult Number
    → PrefixArgsResult Number
put name value (parsed values) = parsed ((name, value) ∷ values)
put name value (failed arg error) = failed arg error
put name value (throws arg) = throws arg

module _ (N : Numbers) where
  -- What was read for a spec, with the result for the specs after it.
  abbrev pub put_read : Text → Read N.Number → PrefixArgsResult N.Number → PrefixArgsResult N.Number
  put_read name (read_fails error) later = failed name (some error)
  put_read name (reads value) later = put name (some value) later

  abbrev pub put_raw :
      PrefixArgSpec N.Number
      → Option Text
      → PrefixArgsResult N.Number
      → PrefixArgsResult N.Number
      → PrefixArgsResult N.Number
  put_raw spec none same_args next_args =
      if spec.required then failed spec.name none else put spec.name none same_args
  put_raw spec (some raw) same_args next_args = put_read spec.name (read_one N spec raw) next_args

  -- The loop; the arguments are those from `position` on.
  unfoldable pub parse_specs : List (PrefixArgSpec N.Number) → List Text → PrefixArgsResult N.Number
  parse_specs [] args = parsed []
  parse_specs (spec ∷ specs) args =
      let is_all = is_rest spec.type in
      let same_args = parse_specs specs args in
      let next_args = parse_specs specs (if is_all then [] else tail args) in
      if is_all && not (is_last specs)
      then throws spec.name
      else put_raw spec (given (if is_all then some (join args) else head args)) same_args next_args

  -- For a text; for arguments that are already split it is `parse_specs`.
  unfoldable pub parse_prefix_args :
      Text → List (PrefixArgSpec N.Number) → PrefixArgsResult N.Number
  parse_prefix_args input specs = parse_specs specs (tokenize_args input)
