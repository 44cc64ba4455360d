-- ===== src/Text/Digits.antt =====
-- `int` reads what `str` prints of a number.
use Prim.Native.Char.{Char, code}
use unc_coin.Prelude.{
  ℕ, zero, suc, ◌+◌, ◌*◌, ◌/◌, ◌%◌, ◌<◌, ◌≡◌, ◌∙◌, refl, ap, String, Bool, true, false, ◌&&◌, some,
  arith, ltb, ◌==◌, if◌then◌else◌, Bool-cases, inl, inr,
}
use unc_coin.Prelude.Int.{pos}
use unc_coin.Text.{
  is_space, strip, strip_left, strip_right, digit_value, digits_value, unsigned_value, signed_value,
  parse_int, nth_char, show_digits, show_ℕ, positive,
}

-- A character that `int` reads as a digit.
record IsDigit (d : ℕ) (c : Char) : Type 0 where
  value : digit_value (code c) ≡ some d
  no_underscore : (code c == 95) ≡ false
  no_blank : is_space (code c) ≡ false
  no_minus : (code c == 45) ≡ false
  no_plus : (code c == 43) ≡ false

abbrev digit : ℕ → Char
unfolding nth_char
digit d = nth_char d "0123456789"

digit-IsDigit : (d : ℕ) → d < 10 → IsDigit d (digit d)
unfolding digit digit_value is_space
digit-IsDigit zero h = record {
  value = refl;
  no_underscore = refl;
  no_blank = refl;
  no_minus = refl;
  no_plus = refl;
}
digit-IsDigit (suc zero) h = record {
  value = refl;
  no_underscore = refl;
  no_blank = refl;
  no_minus = refl;
  no_plus = refl;
}
digit-IsDigit (suc (suc zero)) h = record {
  value = refl;
  no_underscore = refl;
  no_blank = refl;
  no_minus = refl;
  no_plus = refl;
}
digit-IsDigit (suc (suc (suc zero))) h = record {
  value = refl;
  no_underscore = refl;
  no_blank = refl;
  no_minus = refl;
  no_plus = refl;
}
digit-IsDigit (suc (suc (suc (suc zero)))) h = record {
  value = refl;
  no_underscore = refl;
  no_blank = refl;
  no_minus = refl;
  no_plus = refl;
}
digit-IsDigit (suc (suc (suc (suc (suc zero))))) h = record {
  value = refl;
  no_underscore = refl;
  no_blank = refl;
  no_minus = refl;
  no_plus = refl;
}
digit-IsDigit (suc (suc (suc (suc (suc (suc zero)))))) h = record {
  value = refl;
  no_underscore = refl;
  no_blank = refl;
  no_minus = refl;
  no_plus = refl;
}
digit-IsDigit (suc (suc (suc (suc (suc (suc (suc zero))))))) h = record {
  value = refl;
  no_underscore = refl;
  no_blank = refl;
  no_minus = refl;
  no_plus = refl;
}
digit-IsDigit (suc (suc (suc (suc (suc (suc (suc (suc zero)))))))) h = record {
  value = refl;
  no_underscore = refl;
  no_blank = refl;
  no_minus = refl;
  no_plus = refl;
}
digit-IsDigit (suc (suc (suc (suc (suc (suc (suc (suc (suc zero))))))))) h = record {
  value = refl;
  no_underscore = refl;
  no_blank = refl;
  no_minus = refl;
  no_plus = refl;
}
digit-IsDigit (suc (suc (suc (suc (suc (suc (suc (suc (suc (suc d)))))))))) h =
    let never : ⊥ = omega arith in elim never [ ]

digits_value_digit :
    (k d : ℕ) (b : Bool) (c : Char) (s : String)
    → IsDigit d c
    → d < 10
    → digits_value 10 k b (String.◌∷◌ c s) ≡ digits_value 10 (k * 10 + d) true s
unfolding digits_value
digits_value_digit k d b c s h low = rw (h.no_underscore, h.value) (ground (arith, low))

-- A text without white space.
abbrev HasNoBlank : String → Type 0
HasNoBlank String.[] = Unit
HasNoBlank (String.◌∷◌ c s) = (is_space (code c) ≡ false) × HasNoBlank s

else_kept : {A : Type 0} (x y : A) (a b : Bool) → b ≡ false → (if a && b then x else y) ≡ y
else_kept x y true b h = rw h refl
else_kept x y false b h = refl

strip_right_none : (s : String) → HasNoBlank s → strip_right s ≡ s
unfolding strip_right
strip_right_none String.[] h = refl
strip_right_none (String.◌∷◌ c s) (h, rest) =
    rw (strip_right_none s rest) (else_kept _ _ _ (is_space (code c)) h)

strip_none :
    (c : Char) (s : String) → HasNoBlank (String.◌∷◌ c s) → strip (String.◌∷◌ c s) ≡ String.◌∷◌ c s
unfolding strip strip_left
strip_none c s h = rw h.0 (strip_right_none (String.◌∷◌ c s) h)

show_digits-HasNoBlank :
    (fuel n : ℕ) (acc : String) → HasNoBlank acc → HasNoBlank (show_digits fuel n acc)
unfolding show_digits
show_digits-HasNoBlank zero n acc h = h
show_digits-HasNoBlank (suc fuel) n acc h =
    let d = digit-IsDigit (n % 10) (omega arith) in
    elim (Bool-cases (ltb n 10)) [
      | inl small ↦ rw small (d.no_blank, h)
      | inr large ↦ rw large (show_digits-HasNoBlank fuel (n / 10) _ (d.no_blank, h))
    ]

-- The digits of a number begin with a digit.
show_digits-first :
    (fuel n : ℕ) (acc : String)
    → n < fuel
    → (d : ℕ) × (c : Char) × (s : String) × IsDigit d c × (show_digits fuel n acc ≡ String.◌∷◌ c s)
unfolding show_digits
show_digits-first zero n acc enough = elim enough [ ]
show_digits-first (suc fuel) n acc enough =
    let h = digit-IsDigit (n % 10) (omega arith) in
    elim (Bool-cases (ltb n 10)) [
      | inl small ↦ (n % 10, digit (n % 10), acc, h, rw small refl)
      | inr large ↦
          let (d, c, s, k, e) =
            show_digits-first fuel (n / 10) (String.◌∷◌ (digit (n % 10)) acc)
              (ground (arith, large)) in
          (d, c, s, k, rw large e)
    ]

digits_value-show_digits :
    (fuel n : ℕ) (b : Bool) (acc : String)
    → n < fuel
    → digits_value 10 0 b (show_digits fuel n acc) ≡ digits_value 10 n true acc
unfolding show_digits
digits_value-show_digits zero n b acc enough = elim enough [ ]
digits_value-show_digits (suc fuel) n b acc enough =
    let h = digit-IsDigit (n % 10) (omega arith) in
    elim (Bool-cases (ltb n 10)) [
      | inl small ↦
          let e : 0 * 10 + n % 10 ≡ n = ground (arith, small) in
          rw small (
            digits_value_digit 0 (n % 10) b (digit (n % 10)) acc h (omega arith)
            ∙ ap (λ m. digits_value 10 m true acc) e)
      | inr large ↦
          let e : n / 10 * 10 + n % 10 ≡ n = omega arith in
          rw large (
            digits_value-show_digits fuel (n / 10) b (String.◌∷◌ (digit (n % 10)) acc)
              (ground (arith, large))
            ∙ digits_value_digit (n / 10) (n % 10) true (digit (n % 10)) acc h (omega arith)
            ∙ ap (λ m. digits_value 10 m true acc) e)
    ]

signed_value_digits :
    (d : ℕ) (c : Char) (s : String)
    → IsDigit d c
    → signed_value 10 (String.◌∷◌ c s) ≡ positive (digits_value 10 0 false (String.◌∷◌ c s))
unfolding signed_value unsigned_value
signed_value_digits d c s h = rw (h.no_minus, h.no_plus) refl

parse_int_digits :
    (t : String) (d : ℕ) (c : Char) (s : String)
    → IsDigit d c
    → HasNoBlank t
    → t ≡ String.◌∷◌ c s
    → parse_int 10 t ≡ positive (digits_value 10 0 false t)
unfolding parse_int
parse_int_digits t d c s h blank e =
    rw (e, strip_none c s (rw e at blank)) (signed_value_digits d c s h)

digits_value_end : (n : ℕ) → digits_value 10 n true "" ≡ some n
unfolding digits_value
digits_value_end n = refl

-- `int(str(n))` is `n`.
pub parse_int-show_ℕ : (n : ℕ) → parse_int 10 (show_ℕ n) ≡ some (pos n)
unfolding show_ℕ
parse_int-show_ℕ n =
    let (d, c, s, h, e) = show_digits-first (suc n) n "" (omega arith) in
    parse_int_digits (show_digits (suc n) n "") d c s h (show_digits-HasNoBlank (suc n) n "" tt) e
    ∙ ap positive (digits_value-show_digits (suc n) n false "" (omega arith) ∙ digits_value_end n)
