-- ===== src/Assembler/Total.antt =====
-- The assembler does not run out of fuel.
use unc_coin.Prelude.{
  ℕ, suc, String, refl, Bool, ◌||◌, Option, none, some, List, [], ◌∷◌, arith, str_eq, if◌then◌else◌,
  length,
}
use unc_coin.Text.{strip, text_length, lower}
use unc_coin.Uvm.Opcode.{Opcode}
use unc_coin.Assembler.Reading.{check_program_passes}
use unc_coin.Dict.{Dict, contains, lookup}
use unc_coin.Value.{Value}
use unc_coin.Externals.{Externals}
use unc_coin.Assembler.Base.{Assembly, ParsedInstruction}
use unc_coin.Assembler.Ends.{
  Ends, ends_good, ends_bad, Ends-bind, Ends-if, Ends-good_of, take_labels-Ends, split_tokens-Ends,
  parse_line-Ends,
}
use unc_coin.Assembler.Lex.{is_name, drop_chars, source_lines, strip_comment}
use unc_coin.Assembler.Operand.{
  constant_or_token, at_name, is_jump, label_of, label_or_value, first_operand, operands_of,
  parse_instruction_operand, parse_operands, resolve_operands, validate_instruction,
}
use unc_coin.Assembler.Directive.{
  Declared, json_or_plain, plain_value, object_fields, opens_object, parse_directive_value,
  declare_constant, declare_object, declare_key, declare_metadata, parse_directive,
}
use unc_coin.Assembler.Source.{
  Pass, scan_rest, starts_with_dot, scan_line, scan_lines, resolve_program, check_program,
  assemble_source, empty_pass,
}

pub json_or_plain-Ends :
    (json : Option Value) (plain : Option (List String))
    → Ends (json_or_plain json (plain_value plain))
unfolding plain_value
json_or_plain-Ends none none = ends_bad refl
json_or_plain-Ends none (some ws) = ends_good
json_or_plain-Ends (some v) plain = ends_good

pub parse_directive_value-Ends : (X : Externals) (s : String) → Ends (parse_directive_value X s)
unfolding parse_directive_value
parse_directive_value-Ends X s =
    Ends-if (str_eq (strip s) "") ends_good
      (json_or_plain-Ends (X.json_loads (strip s)) (X.shlex_split (strip s)))

pub declare_constant-Ends :
    (X : Externals) (line_number : ℕ) (ts : List String) (rest : String) (d : Declared)
    → Ends (declare_constant X line_number ts rest d)
unfolding declare_constant
declare_constant-Ends X line_number [] rest d = ends_bad refl
declare_constant-Ends X line_number (name ∷ []) rest d = ends_bad refl
declare_constant-Ends X line_number (name ∷ v ∷ ts) rest d =
    Ends-if (is_name name)
      (Ends-if (contains name d.constants) (ends_bad refl) (
        Ends-bind (parse_directive_value-Ends X (strip (drop_chars (text_length name) rest)))
          λ value. ends_good))
      (ends_bad refl)

pub object_fields-Ends : (line_number : ℕ) (v : Value) → Ends (object_fields line_number v)
object_fields-Ends line_number (Value.obj fs) = ends_good
object_fields-Ends line_number _ = ends_bad refl

pub declare_object-Ends :
    (X : Externals) (line_number : ℕ) (s : String) (d : Declared)
    → Ends (declare_object X line_number s d)
unfolding declare_object
declare_object-Ends X line_number s d =
    Ends-bind (Ends-good_of _ line_number (X.json_loads s) refl)
      λ v. Ends-bind (object_fields-Ends line_number v) λ fs. ends_good

pub declare_key-Ends :
    (X : Externals) (line_number : ℕ) (ts : List String) (rest : String) (d : Declared)
    → Ends (declare_key X line_number ts rest d)
unfolding declare_key
declare_key-Ends X line_number [] rest d = ends_bad refl
declare_key-Ends X line_number (key ∷ []) rest d = ends_bad refl
declare_key-Ends X line_number (key ∷ v ∷ ts) rest d =
    Ends-bind (parse_directive_value-Ends X (strip (drop_chars (text_length key) rest)))
      λ value. ends_good

pub declare_metadata-Ends :
    (X : Externals) (line_number : ℕ) (ts : List String) (rest : String) (d : Declared)
    → Ends (declare_metadata X line_number ts rest d)
unfolding declare_metadata
declare_metadata-Ends X line_number [] rest d = ends_bad refl
declare_metadata-Ends X line_number (t ∷ ts) rest d =
    Ends-if (opens_object rest) (declare_object-Ends X line_number rest d)
      (declare_key-Ends X line_number (t ∷ ts) rest d)

parse_directive-Ends :
    (X : Externals) (line_number : ℕ) (line : String) (d : Declared)
    → Ends (parse_directive X line_number line d)
unfolding parse_directive
parse_directive-Ends X line_number line d = Ends-bind (split_tokens-Ends X line_number line) λ t.
    let rest = strip (drop_chars (text_length t.0) line) in
    Ends-if (str_eq (lower t.0) ".const") (declare_constant-Ends X line_number t.1 rest d) (
      Ends-if (str_eq (lower t.0) ".metadata" || str_eq (lower t.0) ".meta")
        (declare_metadata-Ends X line_number t.1 rest d) (ends_bad refl))

scan_rest-Ends :
    (X : Externals) (line_number : ℕ) (raw_line line : String) (p : Pass)
    → Ends (scan_rest X line_number raw_line line p)
unfolding scan_rest
scan_rest-Ends X line_number raw_line line p = Ends-if (str_eq line "") ends_good (
    Ends-if (starts_with_dot line)
      (Ends-bind (parse_directive-Ends X line_number line p.declared) λ d. ends_good)
      (Ends-bind (parse_line-Ends X line_number line raw_line) λ i. ends_good))

scan_line-Ends :
    (X : Externals) (line_number : ℕ) (raw_line : String) (p : Pass)
    → Ends (scan_line X line_number raw_line p)
unfolding scan_line
scan_line-Ends X line_number raw_line p =
    let line = strip (strip_comment raw_line) in
    Ends-if (str_eq line "") ends_good (
      Ends-bind
        (take_labels-Ends (suc (text_length line)) line_number (length p.parsed_instructions) line
          p.labels (omega arith))
        λ r. scan_rest-Ends X line_number raw_line r.0 (record p { labels = r.1 }))

scan_lines-Ends :
    (X : Externals) (line_number : ℕ) (lines : List String) (p : Pass)
    → Ends (scan_lines X line_number lines p)
unfolding scan_lines
scan_lines-Ends X line_number [] p = ends_good
scan_lines-Ends X line_number (l ∷ ls) p =
    Ends-bind (scan_line-Ends X line_number l p) λ p'. scan_lines-Ends X (suc line_number) ls p'

constant_or_token-Ends :
    (constants : Dict Value) (line : ℕ) (operand : String) (name : Option String)
    → Ends (constant_or_token constants line operand name)
unfolding constant_or_token
constant_or_token-Ends constants line operand none = ends_good
constant_or_token-Ends constants line operand (some name) =
    Ends-bind (Ends-good_of _ line (lookup name constants) refl) λ v. ends_good

parse_instruction_operand-Ends :
    (constants : Dict Value) (line : ℕ) (operand : String)
    → Ends (parse_instruction_operand constants line operand)
unfolding parse_instruction_operand
parse_instruction_operand-Ends constants line operand =
    constant_or_token-Ends constants line operand (at_name operand)

parse_operands-Ends :
    (constants : Dict Value) (line : ℕ) (operands : List String)
    → Ends (parse_operands constants line operands)
unfolding parse_operands
parse_operands-Ends constants line [] = ends_good
parse_operands-Ends constants line (o ∷ os) =
    Ends-bind (parse_instruction_operand-Ends constants line o)
      λ v. Ends-bind (parse_operands-Ends constants line os) λ vs. ends_good

label_or_value-Ends :
    (label : Option ℕ) {value : Assembly Value} → Ends value → Ends (label_or_value label value)
label_or_value-Ends none h = h
label_or_value-Ends (some n) h = ends_good

operands_of-Ends :
    (jumps : Bool) (labels : Dict ℕ) (constants : Dict Value) (line : ℕ) (operands : List String)
    → Ends (operands_of jumps labels constants line operands)
unfolding operands_of first_operand
operands_of-Ends jumps labels constants line [] = ends_good
operands_of-Ends jumps labels constants line (o ∷ os) =
    Ends-bind
      (label_or_value-Ends (if jumps then label_of labels o else none)
        (parse_instruction_operand-Ends constants line o))
      λ v. Ends-bind (parse_operands-Ends constants line os) λ vs. ends_good

validate_instruction-Ends :
    (op : Opcode) (operands : List Value) (line : ℕ) → Ends (validate_instruction op operands line)
unfolding validate_instruction
validate_instruction-Ends op operands line =
    Ends-if _ (Ends-if _ ends_good (ends_bad refl)) (ends_bad refl)

resolve_program-Ends :
    (p : Pass) (index : ℕ) (is : List ParsedInstruction) → Ends (resolve_program p index is)
unfolding resolve_program resolve_operands
resolve_program-Ends p index [] = ends_good
resolve_program-Ends p index (i ∷ is) =
    Ends-bind (operands_of-Ends (is_jump i.opcode) p.labels p.declared.constants i.line i.operands)
      λ operands.
        Ends-bind (validate_instruction-Ends i.opcode operands i.line)
          λ u. Ends-bind (resolve_program-Ends p (suc index) is) λ r. ends_good

check_program-Ends :
    (X : Externals) (validate : Bool) (program : List (String × List Value))
    → Ends (check_program X validate program)
check_program-Ends X validate program = rw (check_program_passes X validate program) ends_good

-- The assembler never runs out of the fuel that the model gives it: on every source it comes to a
-- program or to one of the source's own errors.
pub assemble_source-Ends :
    (X : Externals) (validate : Bool) (source : String) → Ends (assemble_source X validate source)
unfolding assemble_source
assemble_source-Ends X validate source =
    Ends-bind (scan_lines-Ends X 1 (source_lines source) empty_pass) λ p.
      Ends-bind (resolve_program-Ends p 0 p.parsed_instructions)
        λ r. Ends-bind (check_program-Ends X validate r.0) λ u. ends_good
