-- ===== src/Assembler/Operand.antt =====
-- Operands of instructions in assembler/compiler.py.
use Prim.Native.Char.{code}
use unc_coin.Prelude.{
  ℕ, String, Bool, true, false, ◌&&◌, ◌||◌, Option, none, some, List, [], ◌∷◌, ◌==◌, if◌then◌else◌,
}
use unc_coin.Prelude.Int.{pos}
use unc_coin.Text.{strip, has_hex_prefix}
use unc_coin.Value.{Value, text, int, bool}
use unc_coin.Dict.{Dict, lookup}
use unc_coin.Uvm.Opcode.{Opcode}
use unc_coin.Uvm.Program.{number_or_text}
use unc_coin.Assembler.Base.{
  Assembly, good, bad, good_of, ◌>>=◌, unknown_constant, operand_count, operand_type, OperandType,
  int_type, str_type, operand_types, ParsedInstruction,
}

-- `s.startswith(("0x", "0X", "-0x", "-0X"))`
unfoldable pub has_signed_hex_prefix : String → Bool
unfolding has_hex_prefix
has_signed_hex_prefix String.[] = false
has_signed_hex_prefix (String.◌∷◌ c s) =
    has_hex_prefix (String.◌∷◌ c s) || (code c == 45 && has_hex_prefix s)

-- `_parse_scalar_token`
unfoldable pub parse_scalar_token : String → Value
unfolding strip has_signed_hex_prefix number_or_text
parse_scalar_token token =
    let stripped = strip token in
    number_or_text (if has_signed_hex_prefix stripped then 16 else 10) stripped

-- `_normalize_constant_value`
unfoldable pub normalize_constant_value : Value → Value
normalize_constant_value (bool b) = int (pos (if b then 1 else 0))
normalize_constant_value v = v

-- The name behind an `@`.
unfoldable pub at_name : String → Option String
at_name String.[] = none
at_name (String.◌∷◌ c s) = if code c == 64 then some s else none

unfoldable pub constant_or_token : Dict Value → ℕ → String → Option String → Assembly Value
unfolding lookup normalize_constant_value parse_scalar_token
constant_or_token constants line operand none = good (parse_scalar_token operand)
constant_or_token constants line operand (some name) = do
  value ← good_of unknown_constant line (lookup name constants)
  good (normalize_constant_value value)

-- `_parse_instruction_operand`
unfoldable pub parse_instruction_operand : Dict Value → ℕ → String → Assembly Value
unfolding at_name constant_or_token
parse_instruction_operand constants line operand =
    constant_or_token constants line operand (at_name operand)

-- The label that the first operand of a jump names, with an `@` or without.
unfoldable pub label_of : Dict ℕ → String → Option ℕ
unfolding lookup at_name
label_of labels operand = elim (lookup operand labels) [
  | some n ↦ some n
  | none ↦ elim (at_name operand) [ none ↦ none | some name ↦ lookup name labels ]
]

unfoldable pub parse_operands : Dict Value → ℕ → List String → Assembly (List Value)
unfolding parse_instruction_operand
parse_operands constants line [] = good []
parse_operands constants line (o ∷ os) = do
  value ← parse_instruction_operand constants line o
  values ← parse_operands constants line os
  good (value ∷ values)

abbrev pub is_jump : Opcode → Bool
is_jump Opcode.jump = true
is_jump Opcode.jumpi = true
is_jump _ = false

abbrev pub label_or_value : Option ℕ → Assembly Value → Assembly Value
label_or_value (some n) value = good (int (pos n))
label_or_value none value = value

-- The first operand of an instruction, on the label that it may name.
unfoldable pub first_operand : Bool → Dict ℕ → Dict Value → ℕ → String → Assembly Value
unfolding parse_instruction_operand label_of
first_operand jumps labels constants line operand =
    label_or_value (if jumps then label_of labels operand else none)
      (parse_instruction_operand constants line operand)

unfoldable pub operands_of : Bool → Dict ℕ → Dict Value → ℕ → List String → Assembly (List Value)
unfolding first_operand parse_operands
operands_of jumps labels constants line [] = good []
operands_of jumps labels constants line (o ∷ os) = do
  value ← first_operand jumps labels constants line o
  values ← parse_operands constants line os
  good (value ∷ values)

-- `_resolve_operands`
unfoldable pub resolve_operands : ParsedInstruction → Dict ℕ → Dict Value → Assembly (List Value)
unfolding operands_of
resolve_operands i labels constants =
    operands_of (is_jump i.opcode) labels constants i.line i.operands

-- `isinstance(operand, expected_type)`, where a `bool` is no `int`.
unfoldable pub has_type : OperandType → Value → Bool
has_type int_type (int n) = true
has_type int_type _ = false
has_type str_type (text s) = true
has_type str_type _ = false

-- `_validate_instruction`: the number of the operands is looked at before their types.
unfoldable pub same_length : List OperandType → List Value → Bool
same_length [] [] = true
same_length (t ∷ ts) (v ∷ vs) = same_length ts vs
same_length [] (v ∷ vs) = false
same_length (t ∷ ts) [] = false

unfoldable pub have_types : List OperandType → List Value → Bool
unfolding has_type
have_types [] vs = true
have_types (t ∷ ts) [] = true
have_types (t ∷ ts) (v ∷ vs) = has_type t v && have_types ts vs

unfoldable pub validate_instruction : Opcode → List Value → ℕ → Assembly (Unit {0})
unfolding operand_types same_length have_types
validate_instruction op operands line =
    if same_length (operand_types op) operands
    then if have_types (operand_types op) operands then good tt else bad operand_type (some line)
    else bad operand_count (some line)
