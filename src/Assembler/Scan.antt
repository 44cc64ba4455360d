-- ===== src/Assembler/Scan.antt =====
-- What the pass over the lines of a source keeps: known opcodes, and labels that stand for an
-- instruction or for the end.
use unc_coin.Prelude.{
  ℕ, zero, suc, ◌≤◌, String, ◌≡◌, some, List, [], ◌∷◌, ◌++◌, arith, str_eq, length, length-append,
  Bool-cases, Option-cases, inl, inr,
}
use unc_coin.Text.{strip, text_length, upper}
use unc_coin.Dict.{Dict, lookup, insert, contains, lookup-insert}
use unc_coin.Externals.{Externals}
use unc_coin.Uvm.Opcode.{opcode_of}
use unc_coin.Assembler.Base.{
  Gives, gives, refuses, Gives-bind, Gives-good_of, Gives-if, Gives-eq, unknown_opcode,
  ParsedInstruction,
}
use unc_coin.Assembler.Lex.{strip_comment, match_label, split_tokens}
use unc_coin.Assembler.Directive.{parse_directive}
use unc_coin.Assembler.Source.{
  Pass, take_labels, parse_line, scan_rest, starts_with_dot, scan_line, scan_lines,
}

pub data AreKnown : List ParsedInstruction → Type 0 where
  none_known : AreKnown []
  known_row :
      {i : ParsedInstruction} {is : List ParsedInstruction}
      → opcode_of i.opcode_name ≡ some i.opcode
      → AreKnown is
      → AreKnown (i ∷ is)

AreKnown-snoc :
    {is : List ParsedInstruction} (i : ParsedInstruction)
    → AreKnown is
    → opcode_of i.opcode_name ≡ some i.opcode
    → AreKnown (is ++ i ∷ [])
AreKnown-snoc i none_known e = known_row e none_known
AreKnown-snoc i (known_row e' rest) e = known_row e' (AreKnown-snoc i rest e)

-- No label stands behind the index.
abbrev pub IsWithin : ℕ → Dict ℕ → Type 0
IsWithin here labels = (name : String) (n : ℕ) → lookup name labels ≡ some n → n ≤ here

insert-IsWithin :
    (here : ℕ) (label : String) (labels : Dict ℕ)
    → IsWithin here labels
    → IsWithin here (insert label here labels)
insert-IsWithin here label labels within name n found = elim (Bool-cases (str_eq label name)) [
  | inl same ↦
      let e = rw (lookup-insert, same) at found in let e' : here ≡ n = cc in rw e' (omega arith)
  | inr other ↦ within name n (rw (lookup-insert, other) at found)
]

take_labels-IsWithin :
    (fuel line_number here : ℕ) (line : String) (labels : Dict ℕ)
    → IsWithin here labels
    → Gives (λ r. IsWithin here r.1) (take_labels fuel line_number here line labels)
unfolding take_labels
take_labels-IsWithin zero line_number here line labels within = refuses
take_labels-IsWithin (suc fuel) line_number here line labels within =
    elim (Option-cases (match_label line)) [
      | inl e ↦ rw e (gives within)
      | inr ((label, after), e) ↦
          let more = insert-IsWithin here label labels within in
          rw e (
            Gives-if (contains label labels) (λ twice. refuses)
              λ new.
                Gives-if (str_eq (strip after) "") (λ empty. gives more)
                  λ go.
                    take_labels-IsWithin fuel line_number here (strip after)
                      (insert label here labels) more)
    ]

-- What the pass over the lines keeps.
pub record IsScanned (p : Pass) : Type 0 where
  pub known : AreKnown p.parsed_instructions
  pub within : IsWithin (length p.parsed_instructions) p.labels

parse_line-Gives :
    (X : Externals) (line_number : ℕ) (line raw_line : String)
    → Gives (λ i. opcode_of i.opcode_name ≡ some i.opcode) (parse_line X line_number line raw_line)
unfolding parse_line
parse_line-Gives X line_number line raw_line =
    Gives-bind (split_tokens X line_number line) λ t e.
      Gives-good_of unknown_opcode line_number (opcode_of (upper t.0)) λ op found. gives found

scan_rest-IsScanned :
    (X : Externals) (line_number : ℕ) (raw_line line : String) (p : Pass)
    → IsScanned p
    → Gives IsScanned (scan_rest X line_number raw_line line p)
unfolding scan_rest
scan_rest-IsScanned X line_number raw_line line p h =
    Gives-if (str_eq line "") (λ empty. gives h)
      λ full.
        Gives-if (starts_with_dot line)
          (λ dot.
            Gives-bind (parse_directive X line_number line p.declared)
              λ d e. gives (record { known = h.known; within = h.within }))
          λ plain. Gives-bind (parse_line X line_number line raw_line) λ i e. gives (record {
            known =
                AreKnown-snoc i h.known (Gives-eq (parse_line-Gives X line_number line raw_line) e);
            within = λ name n found.
                let low = h.within name n found in
                let more = length-append p.parsed_instructions (i ∷ []) in rw more (omega arith);
          })

scan_line-IsScanned :
    (X : Externals) (line_number : ℕ) (raw_line : String) (p : Pass)
    → IsScanned p
    → Gives IsScanned (scan_line X line_number raw_line p)
unfolding scan_line
scan_line-IsScanned X line_number raw_line p h =
    let line = strip (strip_comment raw_line) in
    let here = length p.parsed_instructions in
    Gives-if (str_eq line "") (λ empty. gives h)
      λ full.
        Gives-bind (take_labels (suc (text_length line)) line_number here line p.labels) λ r e.
          scan_rest-IsScanned X line_number raw_line r.0 (record p { labels = r.1 })
            (record {
              known = h.known;
              within =
                  Gives-eq
                    (take_labels-IsWithin (suc (text_length line)) line_number here line p.labels
                      h.within)
                    e;
            })

pub scan_lines-IsScanned :
    (X : Externals) (line_number : ℕ) (lines : List String) (p : Pass)
    → IsScanned p
    → Gives IsScanned (scan_lines X line_number lines p)
unfolding scan_lines
scan_lines-IsScanned X line_number [] p h = gives h
scan_lines-IsScanned X line_number (l ∷ ls) p h = Gives-bind (scan_line X line_number l p) λ p' e.
    scan_lines-IsScanned X (suc line_number) ls p'
      (Gives-eq (scan_line-IsScanned X line_number l p h) e)
