-- ===== src/Assembler/Source.antt =====
-- `assemble_source` of assembler/compiler.py: the pass over the lines, and the pass over the
-- instructions. The loop over the labels of a line takes the length of the line plus one as fuel.
use Prim.Native.Char.{code}
use unc_coin.Prelude.{
  ℕ, zero, suc, String, Bool, false, Option, none, some, List, [], ◌∷◌, ◌++◌, str_eq, ◌==◌,
  if◌then◌else◌, length,
}
use unc_coin.Text.{strip, upper, text_length}
use unc_coin.Value.{Value, text, arr, Items, cons, nil}
use unc_coin.Dict.{Dict, insert, contains}
use unc_coin.Externals.{Externals}
use unc_coin.Uvm.Opcode.{opcode_of}
use unc_coin.Uvm.Program.{Instruction, parse_program}
use unc_coin.Assembler.Base.{
  Assembly, good, bad, good_of, ◌>>=◌, duplicate_label, unknown_opcode, invalid_uvm, out_of_fuel,
  ParsedInstruction, SourceMapEntry, AssemblyResult,
}
use unc_coin.Assembler.Lex.{source_lines, strip_comment, match_label, split_tokens}
use unc_coin.Assembler.Operand.{resolve_operands, validate_instruction}
use unc_coin.Assembler.Directive.{Declared, parse_directive}

-- The variables of the pass over the lines.
pub record Pass : Type 0 where
  pub labels : Dict ℕ
  pub declared : Declared
  pub parsed_instructions : List ParsedInstruction

abbrev label_step :
    (String → Dict ℕ → Assembly (String × Dict ℕ))
    → ℕ
    → ℕ
    → String
    → Dict ℕ
    → Option (String × String)
    → Assembly (String × Dict ℕ)
unfolding contains insert strip
label_step loop line_number here line labels none = good (line, labels)
label_step loop line_number here line labels (some (label, after)) =
    let rest = strip after in
    let labels' = insert label here labels in
    let next = loop rest labels' in
    if contains label labels
    then bad duplicate_label (some line_number)
    else if str_eq rest ""
    then good (rest, labels')
    else next

-- The loop over the labels in front of a line, for instructions that begin at the index `here`.
unfoldable pub take_labels : ℕ → ℕ → ℕ → String → Dict ℕ → Assembly (String × Dict ℕ)
unfolding match_label label_step
take_labels zero line_number here line labels = bad out_of_fuel (some line_number)
take_labels (suc fuel) line_number here line labels =
    label_step (take_labels fuel line_number here) line_number here line labels (match_label line)

unfoldable pub starts_with_dot : String → Bool
starts_with_dot String.[] = false
starts_with_dot (String.◌∷◌ c s) = code c == 46

-- An instruction, on its line and the raw line.
unfoldable pub parse_line : Externals → ℕ → String → String → Assembly ParsedInstruction
unfolding split_tokens upper opcode_of
parse_line X line_number line raw_line = do
  (first, operands) ← split_tokens X line_number line
  let opcode_name = upper first
  opcode ← good_of unknown_opcode line_number (opcode_of opcode_name)
  good (record {
    opcode_name = opcode_name;
    opcode = opcode;
    operands = operands;
    line = line_number;
    source = raw_line;
  })

-- A line without its labels.
unfoldable pub scan_rest : Externals → ℕ → String → String → Pass → Assembly Pass
unfolding parse_directive parse_line starts_with_dot
scan_rest X line_number raw_line line p =
    if str_eq line ""
    then good p
    else if starts_with_dot line
    then (parse_directive X line_number line p.declared >>= λ d. good (record p { declared = d }))
    else (parse_line X line_number line raw_line >>= λ i.
        good (record p { parsed_instructions = p.parsed_instructions ++ i ∷ [] }))

-- The body of the loop over the lines.
unfoldable pub scan_line : Externals → ℕ → String → Pass → Assembly Pass
unfolding strip_comment strip take_labels scan_rest
scan_line X line_number raw_line p =
    let line = strip (strip_comment raw_line) in
    if str_eq line "" then good p else do
      (rest, labels) ←
          take_labels (suc (text_length line)) line_number (length p.parsed_instructions) line
            p.labels
      scan_rest X line_number raw_line rest (record p { labels = labels })

unfoldable pub scan_lines : Externals → ℕ → List String → Pass → Assembly Pass
unfolding scan_line
scan_lines X line_number [] p = good p
scan_lines X line_number (l ∷ ls) p = do
  p' ← scan_line X line_number l p
  scan_lines X (suc line_number) ls p'

-- The loop over the instructions: the program and the source map from an index on.
unfoldable pub resolve_program :
    Pass → ℕ → List ParsedInstruction → Assembly (List (String × List Value) × List SourceMapEntry)
unfolding resolve_operands validate_instruction
resolve_program p index [] = good ([], [])
resolve_program p index (i ∷ is) = do
  operands ← resolve_operands i p.labels p.declared.constants
  valid ← validate_instruction i.opcode operands i.line
  (program, source_map) ← resolve_program p (suc index) is
  good (
    (i.opcode_name, operands) ∷ program,
    record { instruction_index = index; line = i.line; source = i.source } ∷ source_map,
  )

-- The program as the value that `parse_uvm_program` reads.
unfoldable pub list_items : List Value → Items
list_items [] = nil
list_items (v ∷ vs) = cons v (list_items vs)

unfoldable pub program_items : List (String × List Value) → Items
unfolding list_items
program_items [] = nil
program_items ((name, operands) ∷ program) =
    cons (arr (cons (text name) (list_items operands))) (program_items program)

unfoldable pub program_value : List (String × List Value) → Value
unfolding program_items
program_value program = arr (program_items program)

abbrev accepted_program : Option (List Instruction) → Assembly (Unit {0})
accepted_program none = bad invalid_uvm none
accepted_program (some is) = good tt

-- The check of the whole program, where it is asked for.
unfoldable pub check_program : Externals → Bool → List (String × List Value) → Assembly (Unit {0})
unfolding parse_program program_value
check_program X validate program =
    if validate then accepted_program (parse_program X (program_value program)) else good tt

abbrev pub empty_pass : Pass
empty_pass = record {
  labels = [];
  declared = record { constants = []; metadata = [] };
  parsed_instructions = [];
}

-- `assemble_source`, with the flag `validate`.
unfoldable pub assemble_source : Externals → Bool → String → Assembly AssemblyResult
unfolding source_lines scan_lines resolve_program check_program
assemble_source X validate source = do
  p ← scan_lines X 1 (source_lines source) empty_pass
  (program, source_map) ← resolve_program p 0 p.parsed_instructions
  checked ← check_program X validate program
  good (record {
    program = program;
    metadata = p.declared.metadata;
    labels = p.labels;
    constants = p.declared.constants;
    source_map = source_map;
  })
