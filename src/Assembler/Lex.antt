-- ===== src/Assembler/Lex.antt =====
-- The text functions of assembler/compiler.py: lines, comments, names and tokens.
use Prim.Native.Char.{Char, code}
use unc_coin.Prelude.{
  ℕ, zero, suc, String, Bool, false, not, ◌&&◌, ◌||◌, Option, none, some, List, [], ◌∷◌, str_eq,
  ◌==◌, leb, if◌then◌else◌,
}
use unc_coin.Externals.{Externals}
use unc_coin.Uvm.Program.{is_line_break}
use unc_coin.Assembler.Base.{Assembly, good, bad, good_of, ◌>>=◌, unparsable_line, line_empty}

abbrev starts_with_code : ℕ → String → Bool
starts_with_code n String.[] = false
starts_with_code n (String.◌∷◌ c s) = code c == n

abbrev add_to_first : Char → List String → List String
add_to_first c [] = String.◌∷◌ c String.[] ∷ []
add_to_first c (l ∷ ls) = String.◌∷◌ c l ∷ ls

-- `source.splitlines()`; a return and a newline in a row are one break.
unfoldable pub source_lines : String → List String
unfolding is_line_break
source_lines String.[] = []
source_lines (String.◌∷◌ c s) =
    let rest = source_lines s in
    if code c == 13 && starts_with_code 10 s
    then rest
    else if is_line_break (code c)
    then "" ∷ rest
    else add_to_first c rest

-- The variables of the loop of `_strip_comment`: the open quote, 0 for none, and whether the
-- character is escaped.
abbrev next_escaped : Bool → ℕ → Bool
next_escaped escaped c = not escaped && c == 92

abbrev next_quote : ℕ → Bool → ℕ → ℕ
next_quote quote escaped c =
    if escaped || c == 92
    then quote
    else if not (quote == 0)
    then (if c == quote then 0 else quote)
    else if c == 39 || c == 34
    then c
    else 0

-- A comment begins here: `#`, or `//`, outside quotes.
abbrev starts_comment : ℕ → Bool → ℕ → String → Bool
starts_comment quote escaped c rest =
    not escaped && quote == 0 && (c == 35 || (c == 47 && starts_with_code 47 rest))

unfoldable pub strip_comment_from : ℕ → Bool → String → String
strip_comment_from quote escaped String.[] = String.[]
strip_comment_from quote escaped (String.◌∷◌ c s) =
    let rest =
      strip_comment_from (next_quote quote escaped (code c)) (next_escaped escaped (code c)) s in
    if starts_comment quote escaped (code c) s then String.[] else String.◌∷◌ c rest

-- `_strip_comment`
unfoldable pub strip_comment : String → String
unfolding strip_comment_from
strip_comment line = strip_comment_from 0 false line

abbrev is_letter : ℕ → Bool
is_letter c = (leb 65 c && leb c 90) || (leb 97 c && leb c 122)

-- `[A-Za-z_]` and `[A-Za-z0-9_.-]`
unfoldable pub is_name_start : ℕ → Bool
is_name_start c = is_letter c || c == 95

unfoldable pub is_name_char : ℕ → Bool
unfolding is_name_start
is_name_char c = is_name_start c || (leb 48 c && leb c 57) || c == 46 || c == 45

-- The longest prefix of name characters, and the rest.
unfoldable pub span_name : String → String × String
unfolding is_name_char
span_name String.[] = (String.[], String.[])
span_name (String.◌∷◌ c s) =
    let (name, rest) = span_name s in
    if is_name_char (code c) then (String.◌∷◌ c name, rest) else (String.[], String.◌∷◌ c s)

unfoldable pub starts_name : String → Bool
unfolding is_name_start
starts_name String.[] = false
starts_name (String.◌∷◌ c s) = is_name_start (code c)

-- `NAME_PATTERN.match(name)`
unfoldable pub is_name : String → Bool
unfolding span_name starts_name
is_name s = starts_name s && str_eq (span_name s).1 ""

abbrev pub after_colon : String → String → Option (String × String)
after_colon name String.[] = none
after_colon name (String.◌∷◌ c s) = if code c == 58 then some (name, s) else none

-- `LABEL_PATTERN.match(line)`: the label and what stands behind its colon.
unfoldable pub match_label : String → Option (String × String)
unfolding span_name starts_name
match_label line =
    let (name, rest) = span_name line in if starts_name line then after_colon name rest else none

-- `s[n:]`
unfoldable pub drop_chars : ℕ → String → String
drop_chars zero s = s
drop_chars (suc n) String.[] = String.[]
drop_chars (suc n) (String.◌∷◌ c s) = drop_chars n s

abbrev pub first_and_rest : ℕ → List String → Assembly (String × List String)
first_and_rest line_number [] = bad line_empty (some line_number)
first_and_rest line_number (t ∷ ts) = good (t, ts)

-- `_split_tokens`, the first token apart.
unfoldable pub split_tokens : Externals → ℕ → String → Assembly (String × List String)
split_tokens X line_number line = do
  tokens ← good_of unparsable_line line_number (X.shlex_split line)
  first_and_rest line_number tokens
