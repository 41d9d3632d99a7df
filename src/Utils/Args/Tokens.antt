-- ===== src/Utils/Args/Tokens.antt =====
-- `tokenizeArgs` of packages/utils/src/args.ts.
use lunibee.Base.{
  ℕ, Bool, true, false, not, ◌&&◌, ◌||◌, Option, none, some, List, [], ◌∷◌, ◌++◌, ◌==◌, leb,
  if◌then◌else◌, Text,
}

abbrev pub backslash : ℕ
backslash = 92

abbrev pub double_quote : ℕ
double_quote = 34

abbrev pub single_quote : ℕ
single_quote = 39

abbrev pub space : ℕ
space = 32

-- The pattern `\s`.
unfoldable pub is_space : ℕ → Bool
is_space c =
    leb 9 c && leb c 13
    || leb 8192 c && leb c 8202
    || c == 32
    || c == 160
    || c == 5760
    || c == 8232
    || c == 8233
    || c == 8239
    || c == 8287
    || c == 12288
    || c == 65279

-- The variables of the loop. `escaping` stands between a backslash and the character it escapes,
-- which the source reads in the same round.
pub record Scanner : Type 0 where
  pub args : List Text
  pub current : Text
  pub quote : Option ℕ
  pub started : Bool
  pub escaping : Bool

abbrev pub fresh_scanner : Scanner
fresh_scanner = record { args = []; current = []; quote = none; started = false; escaping = false }

-- The character is added to the argument.
abbrev pub append_escaped : Scanner → ℕ → Scanner
append_escaped s c = record s { current = s.current ++ c ∷ []; started = true; escaping = false }

-- Inside a quoted part.
abbrev pub quoted : Scanner → ℕ → ℕ → Scanner
quoted s q c =
    if c == q then record s { quote = none } else record s { current = s.current ++ c ∷ [] }

abbrev pub open_quote : Scanner → ℕ → Scanner
open_quote s c =
    if s.started
    then record s { current = s.current ++ c ∷ [] }
    else record s { quote = some c; started = true }

abbrev pub end_argument : Scanner → Scanner
end_argument s = record s {
  args = if s.started then s.args ++ s.current ∷ [] else s.args;
  current = [];
  started = false;
}

-- Outside a quoted part.
abbrev pub unquoted : Scanner → ℕ → Scanner
unquoted s c =
    if c == double_quote || c == single_quote
    then open_quote s c
    else if is_space c
    then end_argument s
    else record s { current = s.current ++ c ∷ []; started = true }

abbrev pub plain : Scanner → Option ℕ → ℕ → Scanner
plain s none c = unquoted s c
plain s (some q) c = quoted s q c

-- One character; `last` says that none follows.
unfoldable pub next : Scanner → ℕ → Bool → Scanner
next s c last =
    if s.escaping
    then append_escaped s c
    else if c == backslash && not last
    then record s { escaping = true }
    else plain s s.quote c

abbrev pub is_end : Text → Bool
is_end [] = true
is_end (_ ∷ _) = false

unfoldable pub scan : Scanner → Text → Scanner
scan s [] = s
scan s (c ∷ rest) = scan (next s c (is_end rest)) rest

unfoldable pub tokenize_args : Text → List Text
tokenize_args input =
    let s = scan fresh_scanner input in if s.started then s.args ++ s.current ∷ [] else s.args
