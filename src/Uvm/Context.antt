-- ===== src/Uvm/Context.antt =====
-- `UvmExecutionContext` of core/uvm.py, and what an instruction reads from its operands.
use unc_coin.Prelude.{
  ℕ, suc, ◌^◌, ◌==◌, String, Bool, ◌&&◌, Option, none, some, List, [], ◌∷◌, str_eq, leb,
  if◌then◌else◌,
}
use unc_coin.Prelude.Int.{ℤ, pos, negsuc}
use unc_coin.Text.{strip, has_hex_prefix, parse_int, text_length, all_hex}
use unc_coin.Value.{Value, bool, int, text, Fields, get_field}
use unc_coin.Dict.{Dict}
use unc_coin.Authorization.{AuthIndex}
use unc_coin.Uvm.Machine.{
  Exec, pure, raise, escape, require, operand_count, operand_not_int, operand_not_key, missing_key,
  value_not_int, jump_out_of_bounds,
}

-- An entry of `state.reveals`.
pub record Reveal : Type 0 where
  pub seed : String
  pub salt : String
  pub commitment_hash : String

pub record Context : Type 0 where
  pub tx_sender : String
  pub contract_address : String
  pub gas_limit : ℤ
  pub storage : Dict ℕ
  pub balances : Dict ℤ
  pub commitments : Dict (Dict String)
  pub reveals : Dict (Dict Reveal)
  pub authorization_index : AuthIndex
  pub metadata : Fields
  pub input_data : Fields
  pub block_height : ℕ

-- `_require_operand_count` for 0 to 3 operands, which it hands on.
unfoldable pub no_operands : List Value → Exec (Unit {0})
no_operands [] = pure tt
no_operands _ = raise operand_count

unfoldable pub one_operand : List Value → Exec Value
one_operand (a ∷ []) = pure a
one_operand _ = raise operand_count

unfoldable pub two_operands : List Value → Exec (Value × Value)
two_operands (a ∷ b ∷ []) = pure (a, b)
two_operands _ = raise operand_count

unfoldable pub three_operands : List Value → Exec (Value × Value × Value)
three_operands (a ∷ b ∷ c ∷ []) = pure (a, b, c)
three_operands _ = raise operand_count

-- `_require_int_operand`; in Python a `bool` is an `int`.
unfoldable pub int_operand : Value → Exec ℤ
int_operand (int n) = pure n
int_operand (bool b) = pure (pos (if b then 1 else 0))
int_operand _ = raise operand_not_int

-- `_require_key_operand`
unfoldable pub key_operand : Value → Exec String
key_operand (text s) = if str_eq s "" then raise operand_not_key else pure s
key_operand _ = raise operand_not_key

-- `_resolve_account_operand`
unfoldable pub account_operand : Context → Value → Exec String
account_operand ctx (text s) =
    if str_eq s ""
    then raise operand_not_key
    else if str_eq s "$CONTRACT"
    then pure ctx.contract_address
    else pure s
account_operand ctx _ = raise operand_not_key

-- The number that `_read_word_value` reads; `none` is its error.
unfoldable pub word_value : Value → Option ℤ
unfolding strip has_hex_prefix parse_int all_hex
word_value (int n) = some n
word_value (text s) =
    let stripped = strip s in
    if has_hex_prefix stripped
    then parse_int 16 stripped
    else if text_length stripped == 64 && all_hex stripped
    then parse_int 16 stripped
    else parse_int 10 stripped
word_value _ = none

-- `_read_word_value`
unfoldable pub read_word_value : Value → Exec ℤ
unfolding word_value
read_word_value v = require value_not_int (word_value v)

unfoldable pub read_found : Option Value → Exec ℤ
unfolding read_word_value
read_found none = raise missing_key
read_found (some v) = read_word_value v

-- `_read_word_mapping`
unfoldable pub read_word_mapping : Fields → String → Exec ℤ
unfolding get_field read_found
read_word_mapping values key = read_found (get_field key values)

-- `str` of a number with more than 4300 digits is a `ValueError`.
unfoldable pub has_long_text : ℤ → Bool
has_long_text (pos n) = leb (10 ^ 4300) n
has_long_text (negsuc n) = leb (10 ^ 4300) (suc n)

-- The message of a target out of bounds shows the target.
unfoldable pub out_of_bounds : ℤ → Exec ℕ
unfolding has_long_text
out_of_bounds target = if has_long_text target then escape else raise jump_out_of_bounds

-- `_validate_jump_target`
unfoldable pub jump_target : ℕ → ℤ → Exec ℕ
unfolding out_of_bounds
jump_target program_length (pos n) = if leb program_length n then out_of_bounds (pos n) else pure n
jump_target program_length (negsuc n) = out_of_bounds (negsuc n)
