-- ===== src/Uvm/Program.antt =====
-- Reading a program: `parse_uvm_program` of core/uvm.py and its helpers.
use Prim.Native.Char.{code}
use unc_coin.Prelude.{
  ℕ, zero, suc, ◌+◌, String, Bool, false, ◌&&◌, ◌||◌, Option, none, some, List, [], ◌∷◌, map,
  str_eq, ◌==◌, leb, if◌then◌else◌,
}
use unc_coin.Prelude.Int.{pos}
use unc_coin.Text.{strip, upper, has_hex_prefix, parse_int, text_length}
use unc_coin.Value.{
  Value, null, bool, int, text, arr, obj, nil, cons, Fields, get_field, items_list,
}
use unc_coin.Externals.{Externals, show}
use unc_coin.Uvm.Opcode.{Opcode, opcode_of}

-- `UvmInstruction`; the opcode is `none` where its name has no price.
pub record Instruction : Type 0 where
  pub opcode : Option Opcode
  pub operands : List Value

-- `int(text, base)` where that is a number, else the text.
unfoldable pub number_or_text : ℕ → String → Value
unfolding parse_int
number_or_text base s = elim (parse_int base s) [ none ↦ text s | some n ↦ int n ]

-- `_parse_operand`
unfoldable pub parse_operand : Value → Value
unfolding number_or_text strip has_hex_prefix
parse_operand (bool b) = int (pos (if b then 1 else 0))
parse_operand (text s) =
    let stripped = strip s in number_or_text (if has_hex_prefix stripped then 16 else 10) stripped
parse_operand v = v

abbrev pub instruction : String → List Value → Option Instruction
instruction name raw =
    some (record { opcode = opcode_of (upper name); operands = map parse_operand raw })

unfoldable pub instruction_of_words : List String → Option Instruction
unfolding opcode_of upper parse_operand
instruction_of_words [] = none
instruction_of_words (w ∷ ws) = instruction w (map text ws)

unfoldable pub get_or_else : String → Value → Fields → Value
unfolding get_field
get_or_else key default fields = elim (get_field key fields) [ none ↦ default | some v ↦ v ]

-- The two last tests of `_parse_instruction` on an object, on what stands under `op` and `args`.
unfoldable pub instruction_of_parts : Externals → Value → Value → Option Instruction
unfolding opcode_of upper parse_operand items_list show
instruction_of_parts X null _ = none
instruction_of_parts X op (arr xs) = instruction (show X op) (items_list xs)
instruction_of_parts X op _ = none

-- `_parse_instruction`; `none` is a `ValueError`.
unfoldable pub parse_instruction : Externals → Value → Option Instruction
unfolding instruction_of_words instruction_of_parts get_or_else
parse_instruction X (text s) = elim (X.shlex_split s) [
  | none ↦ none
  | some ws ↦ instruction_of_words ws
]
parse_instruction X (arr nil) = none
parse_instruction X (arr (cons v vs)) = instruction (show X v) (items_list vs)
parse_instruction X (obj fields) =
    instruction_of_parts X (get_or_else "op" (get_or_else "opcode" null fields) fields)
      (get_or_else "args" (get_or_else "operands" (arr nil) fields) fields)
parse_instruction X _ = none

abbrev and_rest : Option Instruction → Option (List Instruction) → Option (List Instruction)
and_rest none rest = none
and_rest (some i) none = none
and_rest (some i) (some is) = some (i ∷ is)

-- The loop of `parse_uvm_program`, which stops at the first instruction that is refused.
unfoldable pub parse_instructions : Externals → List Value → Option (List Instruction)
unfolding parse_instruction
parse_instructions X [] = some []
parse_instructions X (v ∷ vs) =
    let rest = parse_instructions X vs in and_rest (parse_instruction X v) rest

-- The characters that end a line for `splitlines`.
unfoldable pub is_line_break : ℕ → Bool
is_line_break c =
    (leb 10 c && leb c 13) || (leb 28 c && leb c 30) || c == 133 || c == 8232 || c == 8233

unfoldable pub split_lines : String → List String
unfolding is_line_break
split_lines String.[] = "" ∷ []
split_lines (String.◌∷◌ c s) = add_char (split_lines s)
  where
    add_char : List String → List String
    add_char [] = []
    add_char (l ∷ ls) = if is_line_break (code c) then "" ∷ l ∷ ls else String.◌∷◌ c l ∷ ls

-- `line.split("#", maxsplit=1)[0]`
unfoldable pub before_hash : String → String
before_hash String.[] = String.[]
before_hash (String.◌∷◌ c s) =
    let rest = before_hash s in if code c == 35 then String.[] else String.◌∷◌ c rest

-- The lines of an assembly text that are left without comments and blank lines.
unfoldable pub assembly_lines : List String → List Value
unfolding before_hash strip
assembly_lines [] = []
assembly_lines (l ∷ ls) =
    let rest = assembly_lines ls in
    let line = strip (before_hash l) in if str_eq line "" then rest else text line ∷ rest

-- `_parse_assembly_program`
unfoldable pub parse_assembly : Externals → String → Option (List Instruction)
unfolding parse_instructions assembly_lines split_lines
parse_assembly X s = parse_instructions X (assembly_lines (split_lines s))

-- `stripped_program[0] in "[{"`
unfoldable pub opens_json : String → Bool
opens_json String.[] = false
opens_json (String.◌∷◌ c s) = code c == 91 || code c == 123

-- What a JSON text holds as the program.
unfoldable pub program_part : Value → Value
unfolding get_or_else
program_part (obj fields) = get_or_else "program" (arr nil) fields
program_part v = v

-- `parse_uvm_program`, with a bound on how deep JSON texts stand in JSON texts.
unfoldable pub parse_within : Externals → ℕ → Value → Option (List Instruction)
unfolding parse_instructions items_list parse_assembly opens_json program_part strip
parse_within X zero _ = none
parse_within X (suc depth) (arr xs) = parse_instructions X (items_list xs)
parse_within X (suc depth) (text s) =
    let stripped = strip s in
    let again = λ (v : Value). parse_within X depth (program_part v) in
    if str_eq stripped ""
    then some []
    else if opens_json stripped
    then elim (X.json_loads stripped) [ none ↦ none | some v ↦ again v ]
    else parse_assembly X stripped
parse_within X (suc depth) _ = none

-- A text inside a JSON text is shorter than it, so its length bounds the depth.
unfoldable pub parse_program : Externals → Value → Option (List Instruction)
unfolding parse_within
parse_program X (text s) = parse_within X (text_length s + 2) (text s)
parse_program X v = parse_within X 1 v
