-- ===== src/Utils/Args/RoundTrip.antt =====
-- A way to write arguments that `tokenizeArgs` of args.ts reads back.
use lunibee.Base.{
  false≢true, ℕ, ◌≡◌, refl, sym, ap, ◌∙◌, Bool, true, false, not, ◌&&◌, ◌||◌, Option, none, some,
  List, [], ◌∷◌, ◌++◌, ◌==◌, if◌then◌else◌, Text, arith, Bool-cases, inl, inr,
}
use lunibee.Utils.Args.Tokens.{
  Scanner, fresh_scanner, scan, next, tokenize_args, is_end, backslash, double_quote, single_quote,
  space, is_space,
}
use mathlib.Core.List.{append_assoc, append-nil}

-- A backslash before each double quote and backslash.
unfoldable pub escape : Text → Text
escape [] = []
escape (c ∷ s) =
    let rest = escape s in
    if c == double_quote || c == backslash then backslash ∷ c ∷ rest else c ∷ rest

-- The argument in double quotes.
unfoldable pub quote_arg : Text → Text
quote_arg s = double_quote ∷ escape s ++ double_quote ∷ []

abbrev is_plain_code : ℕ → Bool
is_plain_code c = not (c == double_quote || c == single_quote || c == backslash || is_space c)

abbrev all_plain : Text → Bool
all_plain [] = true
all_plain (c ∷ s) = if is_plain_code c then all_plain s else false

-- A word of plain characters is written as it is, anything else in quotes.
unfoldable pub write_arg : Text → Text
write_arg s = if not (is_end s) && all_plain s then s else quote_arg s

unfoldable pub write_args : List Text → Text
write_args [] = []
write_args (s ∷ []) = write_arg s
write_args (s ∷ t ∷ ss) = write_arg s ++ space ∷ write_args (t ∷ ss)

-- Between two arguments, and in the middle of one.
abbrev between : List Text → Scanner
between args = record fresh_scanner { args = args }

abbrev within : List Text → Text → Option ℕ → Scanner
within args current quote = record {
  args = args;
  current = current;
  quote = quote;
  started = true;
  escaping = false;
}

is_end-snoc : (s : Text) (c : ℕ) (rest : Text) → is_end (s ++ c ∷ rest) ≡ false
is_end-snoc [] c rest = refl
is_end-snoc (d ∷ s) c rest = refl

-- One character moves from the text to the argument.
grow :
    (current s : Text) (c : ℕ) (f : Text → Scanner)
    → f ((current ++ c ∷ []) ++ s) ≡ f (current ++ c ∷ s)
grow current s c f = ap f (append_assoc current (c ∷ []) s)

scan_escaped :
    (args : List Text) (current rest : Text) (c : ℕ)
    → scan (within args current (some double_quote)) (backslash ∷ c ∷ rest)
      ≡ scan (within args (current ++ c ∷ []) (some double_quote)) rest
unfolding scan next
scan_escaped args current rest c = refl

scan_quoted :
    (args : List Text) (current rest : Text) (c : ℕ)
    → (c == double_quote || c == backslash) ≡ false
    → scan (within args current (some double_quote)) (c ∷ rest)
      ≡ scan (within args (current ++ c ∷ []) (some double_quote)) rest
unfolding scan next
scan_quoted args current rest c h = ground arith

scan-escape :
    (args : List Text) (current s rest : Text)
    → scan (within args current (some double_quote)) (escape s ++ double_quote ∷ rest)
      ≡ scan (within args (current ++ s) none) rest
unfolding escape
scan-escape args current [] rest = unfold scan next in rw (append-nil current) refl
scan-escape args current (c ∷ s) rest =
    let more =
      scan-escape args (current ++ c ∷ []) s rest
      ∙ grow current s c (λ x. scan (within args x none) rest) in
    elim (Bool-cases (c == double_quote || c == backslash)) [
      | inl e ↦ rw e (scan_escaped args current (escape s ++ double_quote ∷ rest) c ∙ more)
      | inr e ↦ rw e (scan_quoted args current (escape s ++ double_quote ∷ rest) c e ∙ more)
    ]

scan_plain_code :
    (args : List Text) (current rest : Text) (c : ℕ)
    → is_plain_code c ≡ true
    → scan (within args current none) (c ∷ rest) ≡ scan (within args (current ++ c ∷ []) none) rest
unfolding scan next
scan_plain_code args current rest c h = ground arith

scan_plain :
    (args : List Text) (current s rest : Text)
    → all_plain s ≡ true
    → scan (within args current none) (s ++ rest) ≡ scan (within args (current ++ s) none) rest
scan_plain args current [] rest h = rw (append-nil current) refl
scan_plain args current (c ∷ s) rest h = elim (Bool-cases (is_plain_code c)) [
  | inl e ↦
      scan_plain_code args current (s ++ rest) c e
      ∙ scan_plain args (current ++ c ∷ []) s rest (rw e at h)
      ∙ grow current s c (λ x. scan (within args x none) rest)
  | inr e ↦ absurd (false≢true (rw e at h))
]

scan_start_plain :
    (args : List Text) (rest : Text) (c : ℕ)
    → is_plain_code c ≡ true
    → scan (between args) (c ∷ rest) ≡ scan (within args (c ∷ []) none) rest
unfolding scan next
scan_start_plain args rest c h = ground arith

scan_open :
    (args : List Text) (rest : Text)
    → scan (between args) (double_quote ∷ rest) ≡ scan (within args [] (some double_quote)) rest
unfolding scan next
scan_open args rest = refl

scan-quote_arg :
    (args : List Text) (s rest : Text)
    → scan (between args) (quote_arg s ++ rest) ≡ scan (within args s none) rest
unfolding quote_arg
scan-quote_arg args s rest =
    scan_open args ((escape s ++ double_quote ∷ []) ++ rest)
    ∙ ap (λ x. scan (within args [] (some double_quote)) x)
        (append_assoc (escape s) (double_quote ∷ []) rest)
    ∙ scan-escape args [] s rest

scan_word :
    (args : List Text) (s rest : Text)
    → (not (is_end s) && all_plain s) ≡ true
    → scan (between args) (s ++ rest) ≡ scan (within args s none) rest
scan_word args [] rest h = absurd (false≢true h)
scan_word args (c ∷ s) rest h = elim (Bool-cases (is_plain_code c)) [
  | inl e ↦ scan_start_plain args (s ++ rest) c e ∙ scan_plain args (c ∷ []) s rest (rw e at h)
  | inr e ↦ absurd (false≢true (rw e at h))
]

-- However an argument is written, it is the current one when it has been read.
scan-write_arg :
    (args : List Text) (s rest : Text)
    → scan (between args) (write_arg s ++ rest) ≡ scan (within args s none) rest
unfolding write_arg
scan-write_arg args s rest = elim (Bool-cases (not (is_end s) && all_plain s)) [
  | inl e ↦ rw e (scan_word args s rest e)
  | inr e ↦ rw e (scan-quote_arg args s rest)
]

scan-space :
    (args : List Text) (s rest : Text)
    → scan (within args s none) (space ∷ rest) ≡ scan (between (args ++ s ∷ [])) rest
unfolding scan next is_space
scan-space args s rest = refl

-- The arguments that a scanner ends with.
abbrev results : Scanner → List Text
results s = if s.started then s.args ++ s.current ∷ [] else s.args

scan-write_args :
    (args : List Text) (s : Text) (ss : List Text)
    → results (scan (between args) (write_args (s ∷ ss))) ≡ args ++ s ∷ ss
unfolding write_args
scan-write_args args s [] =
    ap (λ x. results (scan (between args) x)) (sym (append-nil (write_arg s)))
    ∙ ap results (scan-write_arg args s [])
    ∙ (unfold scan in refl)
scan-write_args args s (t ∷ ss) =
    ap results (
      scan-write_arg args s (space ∷ write_args (t ∷ ss)) ∙ scan-space args s (write_args (t ∷ ss)))
    ∙ scan-write_args (args ++ s ∷ []) t ss
    ∙ append_assoc args (s ∷ []) (t ∷ ss)

-- Any list of arguments, empty ones and ones with spaces, quotes and backslashes included, is read
-- back by `tokenizeArgs` when each is written as it is, if it has a character and no special one,
-- and else in double quotes with a backslash before each double quote and backslash, and a space is
-- put between them.
pub tokenize_args-write_args : (args : List Text) → tokenize_args (write_args args) ≡ args
unfolding tokenize_args write_args
tokenize_args-write_args [] = unfold scan in refl
tokenize_args-write_args (s ∷ ss) = scan-write_args [] s ss
