-- ===== src/Text.antt =====
-- The methods of Python's `str` and the conversions between `int` and `str` that the node uses,
-- over ASCII letters and digits.
pub mod Digits
pub mod Order
use Prim.Native.Char.{Char, code, nul}
pub use Prim.Native.String.{◌++◌ as append}
use Prim.Native.String.{count}
use unc_coin.Prelude.{
  ℕ, zero, suc, ◌+◌, ◌-◌, ◌*◌, ◌/◌, ◌%◌, String, Bool, true, false, ◌&&◌, ◌||◌, Option, none, some,
  ltb, leb, ◌==◌, str_eq, if◌then◌else◌,
}
use unc_coin.Prelude.Int.{ℤ, pos, negsuc, sub_ℕ}

-- The characters that `strip`, `split` and `int` count as white space.
unfoldable pub is_space : ℕ → Bool
is_space c =
    (leb 9 c && leb c 13)
    || (leb 28 c && leb c 32)
    || c == 133
    || c == 160
    || c == 5760
    || (leb 8192 c && leb c 8202)
    || c == 8232
    || c == 8233
    || c == 8239
    || c == 8287
    || c == 12288

unfoldable pub strip_left : String → String
unfolding is_space
strip_left String.[] = String.[]
strip_left (String.◌∷◌ c s) =
    let rest = strip_left s in if is_space (code c) then rest else String.◌∷◌ c s

unfoldable pub strip_right : String → String
unfolding is_space
strip_right String.[] = String.[]
strip_right (String.◌∷◌ c s) =
    let rest = strip_right s in
    if str_eq rest "" && is_space (code c) then String.[] else String.◌∷◌ c rest

-- `s.strip()`
unfoldable pub strip : String → String
unfolding strip_left strip_right
strip s = strip_right (strip_left s)

-- The character of the second alphabet that stands where `c` stands in the first.
unfoldable pub translate : String → String → Char → Char
translate (String.◌∷◌ a as₁) (String.◌∷◌ b bs) c =
    let rest = translate as₁ bs c in if code a == code c then b else rest
translate _ _ c = c

abbrev upper_letters : String
upper_letters = "ABCDEFGHIJKLMNOPQRSTUVWXYZ"

abbrev lower_letters : String
lower_letters = "abcdefghijklmnopqrstuvwxyz"

-- `s.lower()`
unfoldable pub lower : String → String
unfolding translate
lower String.[] = String.[]
lower (String.◌∷◌ c s) = String.◌∷◌ (translate upper_letters lower_letters c) (lower s)

-- `s.upper()`
unfoldable pub upper : String → String
unfolding translate
upper String.[] = String.[]
upper (String.◌∷◌ c s) = String.◌∷◌ (translate lower_letters upper_letters c) (upper s)

-- `len(s)`
abbrev pub text_length : String → ℕ
text_length s = count s

-- The value of a digit in bases up to 36.
unfoldable pub digit_value : ℕ → Option ℕ
digit_value c =
    if leb 48 c && leb c 57
    then some (c - 48)
    else if leb 97 c && leb c 122
    then some (c - 87)
    else if leb 65 c && leb c 90
    then some (c - 55)
    else none

-- A character in `0123456789abcdefABCDEF`.
unfoldable pub is_hex_digit : ℕ → Bool
is_hex_digit c = (leb 48 c && leb c 57) || (leb 97 c && leb c 102) || (leb 65 c && leb c 70)

unfoldable pub all_hex : String → Bool
unfolding is_hex_digit
all_hex String.[] = true
all_hex (String.◌∷◌ c s) = is_hex_digit (code c) && all_hex s

-- One character of a number, from whether it is an underscore and the digit that it is.
abbrev digit_step : (ℕ → Bool → Option ℕ) → ℕ → ℕ → Bool → Bool → Option ℕ → Option ℕ
digit_step loop base n after_digit true d = if after_digit then loop n false else none
digit_step loop base n after_digit false none = none
digit_step loop base n after_digit false (some d) =
    if ltb d base then loop (n * base + d) true else none

-- Digits with single underscores between them: `after_digit` tells whether one may come now.
unfoldable pub digits_value : ℕ → ℕ → Bool → String → Option ℕ
unfolding digit_value
digits_value base n after_digit String.[] = if after_digit then some n else none
digits_value base n after_digit (String.◌∷◌ c s) =
    digit_step (λ n' after. digits_value base n' after s) base n after_digit (code c == 95)
      (digit_value (code c))

unfoldable pub drop_underscore : String → String
drop_underscore String.[] = String.[]
drop_underscore (String.◌∷◌ u t) = if code u == 95 then t else String.◌∷◌ u t

-- `0x` or `0X`, which base 16 allows, with one underscore behind it.
unfoldable pub drop_hex_prefix : String → String
unfolding drop_underscore
drop_hex_prefix (String.◌∷◌ z (String.◌∷◌ x s)) =
    if code z == 48 && (code x == 120 || code x == 88)
    then drop_underscore s
    else String.◌∷◌ z (String.◌∷◌ x s)
drop_hex_prefix s = s

-- The digits of a number in base 10 or 16.
unfoldable pub unsigned_value : ℕ → String → Option ℕ
unfolding digits_value drop_hex_prefix
unsigned_value base s = digits_value base 0 false (if base == 16 then drop_hex_prefix s else s)

abbrev negated : Option ℕ → Option ℤ
negated none = none
negated (some n) = some (sub_ℕ 0 n)

abbrev pub positive : Option ℕ → Option ℤ
positive none = none
positive (some n) = some (pos n)

unfoldable pub signed_value : ℕ → String → Option ℤ
unfolding unsigned_value
signed_value base String.[] = none
signed_value base (String.◌∷◌ c s) =
    if code c == 45
    then negated (unsigned_value base s)
    else if code c == 43
    then positive (unsigned_value base s)
    else positive (unsigned_value base (String.◌∷◌ c s))

-- `int(s, base)`, in base 10 or 16; `none` is a `ValueError`.
unfoldable pub parse_int : ℕ → String → Option ℤ
unfolding signed_value strip
parse_int base s = signed_value base (strip s)

-- `s.startswith(("0x", "0X"))`
unfoldable pub has_hex_prefix : String → Bool
has_hex_prefix (String.◌∷◌ z (String.◌∷◌ x s)) = code z == 48 && (code x == 120 || code x == 88)
has_hex_prefix _ = false

unfoldable pub nth_char : ℕ → String → Char
nth_char i String.[] = nul
nth_char zero (String.◌∷◌ c s) = c
nth_char (suc i) (String.◌∷◌ c s) = nth_char i s

-- The digits of `n` in front of `acc`; one round for each digit.
unfoldable pub show_digits : ℕ → ℕ → String → String
unfolding nth_char
show_digits zero n acc = acc
show_digits (suc fuel) n acc =
    let printed = String.◌∷◌ (nth_char (n % 10) "0123456789") acc in
    let rest = show_digits fuel (n / 10) printed in if ltb n 10 then printed else rest

-- `str(n)` for a number that is not negative.
unfoldable pub show_ℕ : ℕ → String
unfolding show_digits
show_ℕ n = show_digits (suc n) n ""

-- `str(n)`
unfoldable pub show_ℤ : ℤ → String
unfolding show_ℕ
show_ℤ (pos n) = show_ℕ n
show_ℤ (negsuc n) = append "-" (show_ℕ (suc n))

-- The last `width` hexadecimal digits of `n` in front of `acc`.
unfoldable pub hex_digits : ℕ → ℕ → String → String
unfolding nth_char
hex_digits zero n acc = acc
hex_digits (suc width) n acc =
    hex_digits width (n / 16) (String.◌∷◌ (nth_char (n % 16) "0123456789abcdef") acc)

-- `f"{a}|{b}"`
infixr 65 ◌bar◌
abbrev pub ◌bar◌ : String → String → String
a bar b = append a (append "|" b)
