-- ===== src/Assembler/Rows.antt =====
-- The instructions of an assembled program, as the machine reads them, fit the table of the assembler.
use unc_coin.Prelude.{
  ℕ, zero, suc, String, ◌≡◌, refl, Bool, true, false, ◌&&◌, some, List, [], ◌∷◌, map, str_eq,
  eq_iff, get_elem?, str_eq-cases, inl, inr,
}
use unc_coin.Text.{upper}
use unc_coin.Value.{Value, bool, int, text, null, obj, arr}
use unc_coin.Dict.{Dict, lookup}
use unc_coin.Uvm.Opcode.{Opcode, opcode_of, opcode_names}
use unc_coin.Uvm.Program.{Instruction, parse_operand}
use unc_coin.Assembler.Base.{OperandType, int_type, str_type, operand_types}
use unc_coin.Assembler.Operand.{same_length, have_types, has_type}
use unc_coin.Assembler.Typed.{IsTyped, AreTyped, no_rows, typed_row}
use unc_coin.Assembler.Reading.{machine_instruction}
use unc_coin.Assembler.Fitting.{IsInt, Fits}

-- All keys are written in capitals.
unfoldable all_upper : Dict Opcode → Bool
unfolding upper
all_upper [] = true
all_upper ((k, op) ∷ d) = str_eq (upper k) k && all_upper d

and_left : (a b : Bool) → (a && b) ≡ true → a ≡ true
and_left true b h = refl
and_left false b h = cc

and_right : (a b : Bool) → (a && b) ≡ true → b ≡ true
and_right true b h = h
and_right false b h = cc

lookup-upper :
    (name : String) (d : Dict Opcode) {op : Opcode}
    → all_upper d ≡ true
    → lookup name d ≡ some op
    → upper name ≡ name
unfolding lookup all_upper
lookup-upper name [] h e = cc
lookup-upper name ((k, op) ∷ d) h e = elim (str_eq-cases k name) [
  | inl same ↦ rw⁻¹ same ((eq_iff (upper k) k).0 (and_left (str_eq (upper k) k) _ h))
  | inr other ↦ lookup-upper name d (and_right (str_eq (upper k) k) _ h) (rw other at e)
]

opcode_names-upper : all_upper opcode_names ≡ true
unfolding all_upper
opcode_names-upper = refl

opcode_of-upper :
    (name : String) {op : Opcode} → opcode_of name ≡ some op → opcode_of (upper name) ≡ some op
unfolding opcode_of
opcode_of-upper name e = rw (lookup-upper name opcode_names opcode_names-upper e) e

parse_operand-IsInt : (v : Value) → has_type int_type v ≡ true → IsInt (parse_operand v)
unfolding has_type parse_operand
parse_operand-IsInt (int n) h = tt
parse_operand-IsInt (bool b) h = cc
parse_operand-IsInt (text s) h = cc
parse_operand-IsInt null h = cc
parse_operand-IsInt (obj fs) h = cc
parse_operand-IsInt (arr vs) h = cc

parse_operand-Fits :
    (ts : List OperandType) (vs : List Value)
    → same_length ts vs ≡ true
    → have_types ts vs ≡ true
    → Fits ts (map parse_operand vs)
unfolding same_length have_types
parse_operand-Fits [] [] count types = tt
parse_operand-Fits [] (v ∷ vs) count types = cc
parse_operand-Fits (t ∷ ts) [] count types = cc
parse_operand-Fits (int_type ∷ ts) (v ∷ vs) count types = (
  parse_operand-IsInt v (and_left (has_type int_type v) _ types),
  parse_operand-Fits ts vs count (and_right (has_type int_type v) _ types),
)
parse_operand-Fits (str_type ∷ ts) (v ∷ vs) count types =
    parse_operand-Fits ts vs count (and_right (has_type str_type v) _ types)

-- An instruction that the machine can run.
pub record IsFit (i : Instruction) : Type 0 where
  pub opcode : Opcode
  pub known : i.opcode ≡ some opcode
  pub fits : Fits (operand_types opcode) i.operands

pub data AreFit : List Instruction → Type 0 where
  none_fit : AreFit []
  fit_row : {i : Instruction} {is : List Instruction} → IsFit i → AreFit is → AreFit (i ∷ is)

machine_instruction-IsFit :
    (row : String × List Value) → IsTyped row → IsFit (machine_instruction row)
machine_instruction-IsFit (name, operands) typed = record {
  opcode = typed.opcode;
  known = opcode_of-upper name typed.known;
  fits = parse_operand-Fits (operand_types typed.opcode) operands typed.count typed.types;
}

pub program-AreFit :
    {program : List (String × List Value)}
    → AreTyped program
    → AreFit (map machine_instruction program)
program-AreFit no_rows = none_fit
program-AreFit (typed_row {row} typed rest) =
    fit_row (machine_instruction-IsFit row typed) (program-AreFit rest)

pub get_elem?-IsFit :
    {is : List Instruction} (pc : ℕ) {j : Instruction}
    → AreFit is
    → get_elem? is pc ≡ some j
    → IsFit j
get_elem?-IsFit pc none_fit e = cc
get_elem?-IsFit zero {j} (fit_row {i} fit rest) e = let same : i ≡ j = cc in rw⁻¹ same fit
get_elem?-IsFit (suc pc) (fit_row fit rest) e = get_elem?-IsFit pc rest e
