-- ===== src/Assembler/Directive.antt =====
-- Directives in assembler/compiler.py.
use Prim.Native.Char.{code}
use unc_coin.Prelude.{
  ℕ, String, Bool, true, false, ◌||◌, Option, none, some, List, [], ◌∷◌, str_eq, ◌==◌,
  if◌then◌else◌,
}
use unc_coin.Text.{strip, lower, append, text_length}
use unc_coin.Value.{Value, text, obj, Fields, field, end}
use unc_coin.Dict.{Dict, insert, contains}
use unc_coin.Externals.{Externals}
use unc_coin.Assembler.Base.{
  Assembly, good, bad, good_of, ◌>>=◌, AssemblyReason, duplicate_constant, invalid_constant_name,
  const_incomplete, metadata_incomplete, metadata_not_object, invalid_json, unknown_directive,
  value_error,
}
use unc_coin.Assembler.Lex.{split_tokens, is_name, drop_chars}
use unc_coin.Assembler.Operand.{parse_scalar_token}

-- `" ".join(tokens)`
unfoldable pub join_words : List String → String
join_words [] = ""
join_words (w ∷ []) = w
join_words (w ∷ w' ∷ ws) = append w (append " " (join_words (w' ∷ ws)))

abbrev words_value : List String → Value
unfolding parse_scalar_token join_words
words_value (w ∷ []) = parse_scalar_token w
words_value ws = text (join_words ws)

unfoldable pub plain_value : Option (List String) → Assembly Value
unfolding words_value
plain_value none = bad value_error none
plain_value (some ws) = good (words_value ws)

abbrev pub json_or_plain : Option Value → Assembly Value → Assembly Value
json_or_plain none plain = plain
json_or_plain (some v) plain = good v

-- `_parse_directive_value`
unfoldable pub parse_directive_value : Externals → String → Assembly Value
unfolding strip plain_value
parse_directive_value X value_text =
    let stripped = strip value_text in
    if str_eq stripped ""
    then good (text "")
    else json_or_plain (X.json_loads stripped) (plain_value (X.shlex_split stripped))

-- The two dicts that directives write.
pub record Declared : Type 0 where
  pub constants : Dict Value
  pub metadata : Dict Value

abbrev refuse_when : {A : Type 0} → Bool → AssemblyReason → ℕ → Assembly A → Assembly A
refuse_when true r line m = bad r (some line)
refuse_when false r line m = m

-- `.const`, from the tokens behind it and the rest of the line.
unfoldable pub declare_constant :
    Externals → ℕ → List String → String → Declared → Assembly Declared
unfolding is_name contains drop_chars strip parse_directive_value insert
declare_constant X line_number [] rest d = bad const_incomplete (some line_number)
declare_constant X line_number (name ∷ []) rest d = bad const_incomplete (some line_number)
declare_constant X line_number (name ∷ _ ∷ _) rest d =
    if is_name name
    then if contains name d.constants
      then bad duplicate_constant (some line_number)
      else (parse_directive_value X (strip (drop_chars (text_length name) rest)) >>= λ value.
          good (record d { constants = insert name value d.constants }))
    else bad invalid_constant_name (some line_number)

-- `metadata.update(value)`
unfoldable pub update_fields : Fields → Dict Value → Dict Value
unfolding insert
update_fields end d = d
update_fields (field k v fs) d = update_fields fs (insert k v d)

abbrev pub object_fields : ℕ → Value → Assembly Fields
object_fields line_number (obj fs) = good fs
object_fields line_number _ = bad metadata_not_object (some line_number)

abbrev pub opens_object : String → Bool
opens_object String.[] = false
opens_object (String.◌∷◌ c s) = code c == 123

-- `.metadata` with a JSON object.
unfoldable pub declare_object : Externals → ℕ → String → Declared → Assembly Declared
unfolding update_fields
declare_object X line_number value_text d = do
  value ← good_of invalid_json line_number (X.json_loads value_text)
  fields ← object_fields line_number value
  good (record d { metadata = update_fields fields d.metadata })

-- `.metadata` with a key and a value.
unfoldable pub declare_key : Externals → ℕ → List String → String → Declared → Assembly Declared
unfolding drop_chars strip parse_directive_value insert
declare_key X line_number [] rest d = bad metadata_incomplete (some line_number)
declare_key X line_number (key ∷ []) rest d = bad metadata_incomplete (some line_number)
declare_key X line_number (key ∷ _ ∷ _) rest d = do
  value ← parse_directive_value X (strip (drop_chars (text_length key) rest))
  good (record d { metadata = insert key value d.metadata })

unfoldable pub declare_metadata :
    Externals → ℕ → List String → String → Declared → Assembly Declared
unfolding declare_object declare_key
declare_metadata X line_number [] rest d = bad metadata_incomplete (some line_number)
declare_metadata X line_number (t ∷ ts) rest d =
    if opens_object rest
    then declare_object X line_number rest d
    else declare_key X line_number (t ∷ ts) rest d

-- `_parse_directive`
unfoldable pub parse_directive : Externals → ℕ → String → Declared → Assembly Declared
unfolding split_tokens lower drop_chars strip declare_constant declare_metadata
parse_directive X line_number line d = do
  (first, tokens) ← split_tokens X line_number line
  let directive = lower first
  let rest = strip (drop_chars (text_length first) line)
  if str_eq directive ".const"
      then declare_constant X line_number tokens rest d
      else if str_eq directive ".metadata" || str_eq directive ".meta"
      then declare_metadata X line_number tokens rest d
      else bad unknown_directive (some line_number)
