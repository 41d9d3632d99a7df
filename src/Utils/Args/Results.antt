-- ===== src/Utils/Args/Results.antt =====
-- What a result of `parsePrefixArgs` of args.ts says about its arguments.
use lunibee.Base.{
  ◌≡◌, refl, Bool, true, false, not, ◌&&◌, Option, none, some, List, [], ◌∷◌, if◌then◌else◌, Text,
  arith, Bool-cases, inl, inr, All, map,
}
use lunibee.Utils.Args.Tokens.{tokenize_args}
use lunibee.Utils.Args.Reading.{
  Numbers, PrefixArgSpec, PrefixArgValue, Read, reads, read_fails, read_one,
}
use lunibee.Utils.Args.Parsing.{
  PrefixArgsResult, parsed, failed, throws, parse_specs, parse_prefix_args, put, put_read, put_raw,
  is_rest, is_last, tail,
}
use lunibee.Utils.Args.Fits.{fits, read_as-fits}

module _ (N : Numbers) where
  abbrev Values : Type 0
  Values = List (Text × Option (PrefixArgValue N.Number))

  -- The value is missing and not required, or satisfies the spec.
  abbrev value_fits : PrefixArgSpec N.Number → Option (PrefixArgValue N.Number) → Bool
  value_fits spec none = not spec.required
  value_fits spec (some v) = fits N spec.type spec v

  abbrev pub AllFit : List (PrefixArgSpec N.Number) → Values → Type 0
  AllFit [] [] = Unit
  AllFit [] (_ ∷ _) = ⊥
  AllFit (_ ∷ _) [] = ⊥
  AllFit (spec ∷ specs) ((name, v) ∷ vs) =
      (name ≡ spec.name) × (value_fits spec v ≡ true) × AllFit specs vs

  put-parsed :
      (name : Text) (v : Option (PrefixArgValue N.Number)) (r : PrefixArgsResult N.Number)
      (vs : Values)
      → put name v r ≡ parsed vs
      → (vs' : Values) × (r ≡ parsed vs') × (vs ≡ (name, v) ∷ vs')
  put-parsed name v (parsed vs') vs h = (vs', refl, ground arith)
  put-parsed name v (failed arg error) vs h = absurd (ground arith)
  put-parsed name v (throws arg) vs h = absurd (ground arith)

  put_read-parsed :
      (name : Text) (read : Read N.Number) (r : PrefixArgsResult N.Number) (vs : Values)
      → put_read N name read r ≡ parsed vs
      → (v : PrefixArgValue N.Number) × (vs' : Values) × (read ≡ reads v)
        × (r ≡ parsed vs')
        × (vs ≡ (name, some v) ∷ vs')
  put_read-parsed name (reads v) r vs h =
      let (vs', is, eq) = put-parsed name (some v) r vs h in (v, vs', refl, is, eq)
  put_read-parsed name (read_fails error) r vs h = absurd (ground arith)

  -- One value in front of values that fit.
  put_raw-AllFit :
      (spec : PrefixArgSpec N.Number) (specs : List (PrefixArgSpec N.Number)) (raw : Option Text)
      (same_args next_args : PrefixArgsResult N.Number) (vs : Values)
      → ((vs' : Values) → same_args ≡ parsed vs' → AllFit specs vs')
      → ((vs' : Values) → next_args ≡ parsed vs' → AllFit specs vs')
      → put_raw N spec raw same_args next_args ≡ parsed vs
      → AllFit (spec ∷ specs) vs
  put_raw-AllFit spec specs none same_args next_args vs hs hn h = elim (Bool-cases spec.required) [
    | inl e ↦ absurd (ground (arith, e))
    | inr e ↦
        let (vs', is, eq) = put-parsed spec.name none same_args vs (rw e at h) in
        rw eq (refl, ground (arith, e), hs vs' is)
  ]
  put_raw-AllFit spec specs (some raw) same_args next_args vs hs hn h =
      let (v, vs', read, is, eq) = put_read-parsed spec.name (read_one N spec raw) next_args vs h in
      rw eq (refl, read_as-fits N spec.type spec raw v (unfold read_one in read), hn vs' is)

  parse_specs-AllFit :
      (specs : List (PrefixArgSpec N.Number)) (args : List Text) (vs : Values)
      → parse_specs N specs args ≡ parsed vs
      → AllFit specs vs
  unfolding parse_specs
  parse_specs-AllFit [] args [] h = tt
  parse_specs-AllFit [] args (_ ∷ _) h = absurd (ground arith)
  parse_specs-AllFit (spec ∷ specs) args vs h =
      elim (Bool-cases (is_rest spec.type && not (is_last specs))) [
        | inl e ↦ absurd (ground (arith, e))
        | inr e ↦
            put_raw-AllFit spec specs _ (parse_specs N specs args)
              (parse_specs N specs (if is_rest spec.type then [] else tail args)) vs
              (λ vs'. parse_specs-AllFit specs args vs')
              (λ vs'. parse_specs-AllFit specs (if is_rest spec.type then [] else tail args) vs')
              (rw e at h)
      ]

  -- When `parsePrefixArgs` succeeds there is one value for each spec, in order and under its name:
  -- missing only if it is not required, and else of the spec's type and within its demands (length
  -- or choice of a text, wholeness, range and choice of a number, an ID of 16 to 20 digits).
  pub parse_prefix_args-AllFit :
      (input : Text) (specs : List (PrefixArgSpec N.Number)) (vs : Values)
      → parse_prefix_args N input specs ≡ parsed vs
      → AllFit specs vs
  unfolding parse_prefix_args
  parse_prefix_args-AllFit input specs vs h = parse_specs-AllFit specs (tokenize_args input) vs h

  abbrev pub IsOptional : PrefixArgSpec N.Number → Type 0
  IsOptional spec = (spec.required ≡ false) × (is_rest spec.type ≡ false)

  -- An empty quoted argument is never passed: if the next argument is empty, and the specs left are
  -- optional and none is `rest`, then all their values are missing, whatever arguments follow.
  pub empty_argument_blocks :
      (specs : List (PrefixArgSpec N.Number)) (args : List Text)
      → All IsOptional specs
      → parse_specs N specs ([] ∷ args) ≡ parsed (map (λ spec. (spec.name, none)) specs)
  unfolding parse_specs
  empty_argument_blocks [] args h = refl
  empty_argument_blocks (spec ∷ specs) args ((optional, single), h) =
      rw (single, optional, empty_argument_blocks specs args h) refl
