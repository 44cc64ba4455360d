-- ===== src/Assembler/Ends.antt =====
-- The loop over the labels of a line has enough fuel.
use unc_coin.Prelude.{
  ℕ, zero, suc, ◌≤◌, ◌<◌, String, ◌≡◌, refl, Bool, true, false, ◌&&◌, Option, none, some, List, [],
  ◌∷◌, arith, str_eq, if◌then◌else◌, length, Bool-cases, Option-cases, inl, inr, ◌==◌,
}
use unc_coin.Text.{strip, text_length}
use unc_coin.Dict.{Dict, insert, contains}
use unc_coin.Externals.{Externals}
use unc_coin.Assembler.Base.{Assembly, good, bad, good_of, ◌>>=◌, AssemblyReason, out_of_fuel}
use unc_coin.Assembler.Length.{strip-length, match_label-length}
use unc_coin.Assembler.Lex.{match_label, split_tokens, first_and_rest}
use unc_coin.Assembler.Source.{take_labels, parse_line}

abbrev pub is_fuel : AssemblyReason → Bool
is_fuel out_of_fuel = true
is_fuel _ = false

-- An assembly that does not run out of fuel.
pub data Ends {A : Type 0} : Assembly A → Type 0 where
  ends_good : {a : A} → Ends (good a)
  ends_bad : {r : AssemblyReason} {line : Option ℕ} → is_fuel r ≡ false → Ends (bad r line)

pub Ends-bind :
    {A B : Type 0} {f : A → Assembly B} {m : Assembly A}
    → Ends m
    → ((a : A) → Ends (f a))
    → Ends (m >>= f)
Ends-bind (ends_good {a}) k = k a
Ends-bind (ends_bad h) k = ends_bad h

pub Ends-if :
    {A : Type 0} {m n : Assembly A} (c : Bool) → Ends m → Ends n → Ends (if c then m else n)
Ends-if true h k = h
Ends-if false h k = k

pub Ends-good_of :
    {A : Type 0} (r : AssemblyReason) (line : ℕ) (o : Option A)
    → is_fuel r ≡ false
    → Ends (good_of r line o)
Ends-good_of r line none h = ends_bad h
Ends-good_of r line (some a) h = ends_good

pub take_labels-Ends :
    (fuel line_number here : ℕ) (line : String) (labels : Dict ℕ)
    → text_length line < fuel
    → Ends (take_labels fuel line_number here line labels)
unfolding take_labels
take_labels-Ends zero line_number here line labels enough = elim enough [ ]
take_labels-Ends (suc fuel) line_number here line labels enough =
    elim (Option-cases (match_label line)) [
      | inl e ↦ rw e ends_good
      | inr ((label, after), e) ↦
          let shorter = match_label-length line e in
          let stripped = strip-length after in
          rw e (
            Ends-if (contains label labels) (ends_bad refl) (
              Ends-if (str_eq (strip after) "") ends_good (
                take_labels-Ends fuel line_number here (strip after) (insert label here labels)
                  (omega arith))))
    ]

pub ruleset ends_base = (Ends-bind, Ends-if, Ends-good_of, ends_good, ends_bad, refl)

pub split_tokens-Ends :
    (X : Externals) (line_number : ℕ) (line : String) → Ends (split_tokens X line_number line)
unfolding split_tokens
split_tokens-Ends X line_number line =
    Ends-bind (Ends-good_of _ line_number (X.shlex_split line) refl) λ ts. first_and_rest-Ends ts
  where
    first_and_rest-Ends : (ts : List String) → Ends (first_and_rest line_number ts)
    first_and_rest-Ends [] = ends_bad refl
    first_and_rest-Ends (t ∷ ts) = ends_good

pub parse_line-Ends :
    (X : Externals) (line_number : ℕ) (line raw_line : String)
    → Ends (parse_line X line_number line raw_line)
unfolding parse_line
parse_line-Ends X line_number line raw_line =
    Ends-bind (split_tokens-Ends X line_number line) λ t. search ends_base
