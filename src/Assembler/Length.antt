-- ===== src/Assembler/Length.antt =====
-- The lengths of the texts that the assembler cuts a line into.
use text.Mathlib.TextLemmas.{length-cons}
use unc_coin.Prelude.{
  suc, ◌≤◌, ◌<◌, String, ◌≡◌, ◌&&◌, some, arith, str_eq, Bool-cases, inl, inr, ◌==◌,
}
use Prim.Native.Char.{Char, code}
use unc_coin.Text.{strip, strip_left, strip_right, is_space, text_length}
use unc_coin.Assembler.Lex.{match_label, span_name, is_name_char, starts_name, after_colon}

length_cons : (c : Char) (s : String) → text_length (String.◌∷◌ c s) ≡ suc (text_length s)
length_cons c s = length-cons c s

strip_left-length : (s : String) → text_length (strip_left s) ≤ text_length s
unfolding strip_left
strip_left-length String.[] = omega (arith, length_cons)
strip_left-length (String.◌∷◌ c s) = elim (Bool-cases (is_space (code c))) [
  | inl blank ↦ rw blank (omega (arith, length_cons, strip_left-length s))
  | inr other ↦ rw other (omega (arith, length_cons))
]

strip_right-length : (s : String) → text_length (strip_right s) ≤ text_length s
unfolding strip_right
strip_right-length String.[] = omega (arith, length_cons)
strip_right-length (String.◌∷◌ c s) =
    elim (Bool-cases (str_eq (strip_right s) "" && is_space (code c))) [
      | inl blank ↦ rw blank (omega (arith, length_cons))
      | inr other ↦ rw other (omega (arith, length_cons, strip_right-length s))
    ]

pub strip-length : (s : String) → text_length (strip s) ≤ text_length s
unfolding strip
strip-length s = omega (arith, length_cons, strip_left-length s, strip_right-length (strip_left s))

span_name-length : (s : String) → text_length (span_name s).1 ≤ text_length s
unfolding span_name
span_name-length String.[] = omega (arith, length_cons)
span_name-length (String.◌∷◌ c s) = elim (Bool-cases (is_name_char (code c))) [
  | inl name ↦ rw name (omega (arith, length_cons, span_name-length s))
  | inr other ↦ rw other (omega (arith, length_cons))
]

after_colon-length :
    (name s : String) {r : String × String}
    → after_colon name s ≡ some r
    → text_length r.1 < text_length s
after_colon-length name String.[] e = cc
after_colon-length name (String.◌∷◌ c s) {r} e = elim (Bool-cases (code c == 58)) [
  | inl colon ↦
      let e' = rw colon at e in let same : s ≡ r.1 = cc in rw⁻¹ same (omega (arith, length_cons))
  | inr other ↦ let e' = rw other at e in cc
]

pub match_label-length :
    (line : String) {r : String × String}
    → match_label line ≡ some r
    → text_length r.1 < text_length line
unfolding match_label
match_label-length line {r} e = elim (Bool-cases (starts_name line)) [
  | inl named ↦
      let e' = rw named at e in
      omega
        (arith, after_colon-length (span_name line).0 (span_name line).1 e', span_name-length line)
  | inr other ↦ let e' = rw other at e in cc
]
