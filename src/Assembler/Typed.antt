-- ===== src/Assembler/Typed.antt =====
-- What an assembled program is: known opcodes, each with operands of the number and the types of its
-- row in `OPCODE_SPECS`, and labels that stand in front of an instruction or at the end.
use unc_coin.Prelude.{
  ℕ, suc, String, ◌≡◌, refl, sym, ◌∙◌, ap, Bool, true, some, List, [], ◌∷◌, arith, length,
}
use unc_coin.Value.{Value}
use unc_coin.Dict.{lookup}
use unc_coin.Externals.{Externals}
use unc_coin.Uvm.Opcode.{Opcode, opcode_of}
use unc_coin.Assembler.Base.{
  good, Gives, gives, refuses, Gives-bind, Gives-if, Gives-eq, operand_types, ParsedInstruction,
  SourceMapEntry, AssemblyResult,
}
use unc_coin.Assembler.Lex.{source_lines}
use unc_coin.Assembler.Operand.{same_length, have_types, resolve_operands, validate_instruction}
use unc_coin.Assembler.Source.{
  Pass, scan_lines, resolve_program, check_program, empty_pass, assemble_source,
}
use unc_coin.Assembler.Scan.{
  AreKnown, none_known, known_row, IsWithin, IsScanned, scan_lines-IsScanned,
}

-- A row of a program: an opcode and operands that fit it.
pub record IsTyped (row : String × List Value) : Type 0 where
  pub opcode : Opcode
  pub known : opcode_of row.0 ≡ some opcode
  pub count : same_length (operand_types opcode) row.1 ≡ true
  pub types : have_types (operand_types opcode) row.1 ≡ true

pub data AreTyped : List (String × List Value) → Type 0 where
  no_rows : AreTyped []
  typed_row :
      {row : String × List Value} {rows : List (String × List Value)}
      → IsTyped row
      → AreTyped rows
      → AreTyped (row ∷ rows)

validate_instruction-Gives :
    (op : Opcode) (operands : List Value) (line : ℕ)
    → Gives
        (λ u.
          (same_length (operand_types op) operands ≡ true)
          × (have_types (operand_types op) operands ≡ true))
        (validate_instruction op operands line)
unfolding validate_instruction
validate_instruction-Gives op operands line =
    Gives-if (same_length (operand_types op) operands)
      (λ count.
        Gives-if (have_types (operand_types op) operands) (λ types. gives (count, types))
          λ no. refuses)
      λ no. refuses

-- The rows and the source map from an index on.
pub data AreMapped : ℕ → List SourceMapEntry → Type 0 where
  all_mapped : {n : ℕ} → AreMapped n []
  mapped_row :
      {n : ℕ} {e : SourceMapEntry} {es : List SourceMapEntry}
      → e.instruction_index ≡ n
      → AreMapped (suc n) es
      → AreMapped n (e ∷ es)

record IsResolved (index count : ℕ) (r : List (String × List Value) × List SourceMapEntry)
    : Type 0 where
  typed : AreTyped r.0
  rows : length r.0 ≡ count
  entries : length r.1 ≡ count
  mapped : AreMapped index r.1

resolve_program-IsResolved :
    (p : Pass) (index : ℕ) (is : List ParsedInstruction)
    → AreKnown is
    → Gives (IsResolved index (length is)) (resolve_program p index is)
unfolding resolve_program
resolve_program-IsResolved p index _ none_known =
    gives (record { typed = no_rows; rows = refl; entries = refl; mapped = all_mapped })
resolve_program-IsResolved p index _ (known_row {i} {is} known rest) =
    Gives-bind (resolve_operands i p.labels p.declared.constants) λ operands e.
      Gives-bind (validate_instruction i.opcode operands i.line) λ u valid.
        Gives-bind (resolve_program p (suc index) is) λ r found.
          let (count, types) =
            Gives-eq (validate_instruction-Gives i.opcode operands i.line) valid in
          let below = Gives-eq (resolve_program-IsResolved p (suc index) is rest) found in
          gives (record {
            typed =
                typed_row
                  (record { opcode = i.opcode; known = known; count = count; types = types })
                  below.typed;
            rows = ap suc below.rows;
            entries = ap suc below.entries;
            mapped = mapped_row refl below.mapped;
          })

-- What an assembled source is.
pub record IsAssembled (r : AssemblyResult) : Type 0 where
  pub typed : AreTyped r.program
  pub labels : IsWithin (length r.program) r.labels
  pub entries : length r.source_map ≡ length r.program
  pub mapped : AreMapped 0 r.source_map

assemble_source-Gives :
    (X : Externals) (validate : Bool) (source : String)
    → Gives IsAssembled (assemble_source X validate source)
unfolding assemble_source lookup
assemble_source-Gives X validate source =
    Gives-bind (scan_lines X 1 (source_lines source) empty_pass) λ p scanned.
      Gives-bind (resolve_program p 0 p.parsed_instructions) λ r resolved.
        Gives-bind (check_program X validate r.0) λ u checked.
          let start : IsScanned empty_pass = record {
            known = none_known;
            within = λ name n found. cc;
          } in
          let h =
            Gives-eq (scan_lines-IsScanned X 1 (source_lines source) empty_pass start) scanned in
          let k =
            Gives-eq (resolve_program-IsResolved p 0 p.parsed_instructions h.known) resolved in
          gives (record {
            typed = k.typed;
            labels =
                λ name n found. let low = h.within name n found in let e = k.rows in omega arith;
            entries = k.entries ∙ sym k.rows;
            mapped = k.mapped;
          })

-- Every instruction of a source that assembles has a known opcode and as many operands as its row in
-- the table says, of the types that the row says; every label stands for an instruction or for the
-- end of the program; the source map has an entry for each instruction, in order.
pub assemble_source-IsAssembled :
    (X : Externals) (validate : Bool) (source : String) {r : AssemblyResult}
    → assemble_source X validate source ≡ good r
    → IsAssembled r
assemble_source-IsAssembled X validate source h =
    Gives-eq (assemble_source-Gives X validate source) h
