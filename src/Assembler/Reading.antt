-- ===== src/Assembler/Reading.antt =====
-- How the machine of core/uvm.py reads an assembled program.
use unc_coin.Prelude.{String, ◌≡◌, refl, sym, ap, ◌∙◌, Bool, true, false, some, List, [], ◌∷◌, map}
use unc_coin.Text.{upper}
use unc_coin.Value.{Value, text, arr, Items, items_list}
use unc_coin.Externals.{Externals, show}
use unc_coin.Uvm.Opcode.{opcode_of}
use unc_coin.Uvm.Program.{
  Instruction, parse_operand, parse_instruction, parse_instructions, parse_within, parse_program,
}
use unc_coin.Assembler.Base.{good, ◌>>=◌}
use unc_coin.Assembler.Lex.{source_lines}
use unc_coin.Assembler.Source.{
  list_items, program_items, program_value, check_program, assemble_source, scan_lines,
  resolve_program, empty_pass,
}

-- A row as the machine reads it.
abbrev pub machine_instruction : String × List Value → Instruction
machine_instruction (name, operands) = record {
  opcode = opcode_of (upper name);
  operands = map parse_operand operands;
}

items_list-list_items : (vs : List Value) → items_list (list_items vs) ≡ vs
unfolding items_list list_items
items_list-list_items [] = refl
items_list-list_items (v ∷ vs) = ap (λ l. v ∷ l) (items_list-list_items vs)

parse_instruction_row :
    (X : Externals) (name : String) (operands : List Value)
    → parse_instruction X (arr (Items.cons (text name) (list_items operands)))
      ≡ some (machine_instruction (name, operands))
unfolding parse_instruction show
parse_instruction_row X name operands =
    ap (λ l. some (machine_instruction (name, l))) (items_list-list_items operands)

parse_instructions_cons :
    (X : Externals) (v : Value) (vs : List Value) {i : Instruction} {is : List Instruction}
    → parse_instruction X v ≡ some i
    → parse_instructions X vs ≡ some is
    → parse_instructions X (v ∷ vs) ≡ some (i ∷ is)
unfolding parse_instructions
parse_instructions_cons X v vs e f = rw (e, f) refl

parse_instructions_none : (X : Externals) → parse_instructions X [] ≡ some []
unfolding parse_instructions
parse_instructions_none X = refl

parse_instructions_rows :
    (X : Externals) (program : List (String × List Value))
    → parse_instructions X (items_list (program_items program))
      ≡ some (map machine_instruction program)
unfolding program_items items_list
parse_instructions_rows X [] = parse_instructions_none X
parse_instructions_rows X ((name, operands) ∷ program) =
    parse_instructions_cons X (arr (Items.cons (text name) (list_items operands)))
      (items_list (program_items program)) (parse_instruction_row X name operands)
      (parse_instructions_rows X program)

-- The machine reads every program that the assembler writes.
pub parse_program_rows :
    (X : Externals) (program : List (String × List Value))
    → parse_program X (program_value program) ≡ some (map machine_instruction program)
unfolding parse_program parse_within program_value
parse_program_rows X program = parse_instructions_rows X program

pub check_program_passes :
    (X : Externals) (validate : Bool) (program : List (String × List Value))
    → check_program X validate program ≡ good tt
unfolding check_program
check_program_passes X true program = rw (parse_program_rows X program) refl
check_program_passes X false program = refl

-- The check of the assembled program never fails: with it and without it the assembler gives the same
-- program or the same error.
pub assemble_source-validate :
    (X : Externals) (source : String)
    → assemble_source X true source ≡ assemble_source X false source
unfolding assemble_source
assemble_source-validate X source = λ i. scan_lines X 1 (source_lines source) empty_pass >>= λ p.
    resolve_program p 0 p.parsed_instructions >>= λ x.
    (check_program_passes X true x.0 ∙ sym (check_program_passes X false x.0)) i >>= λ u.
    good (record {
      program = x.0;
      metadata = p.declared.metadata;
      labels = p.labels;
      constants = p.declared.constants;
      source_map = x.1;
    })
