-- ===== src/Uvm/Step/Grants.antt =====
-- The opcodes that read commitments, reveals and authorizations (core/uvm.py).
use unc_coin.Prelude.{ℕ, String, Option, none, some, List}
use unc_coin.Prelude.Int.{ℤ}
use unc_coin.Text.{parse_int}
use unc_coin.Value.{Value}
use unc_coin.Dict.{lookup, is_some}
use unc_coin.Authorization.{lookup_in, is_request_authorized}
use unc_coin.Uvm.Machine.{
  Exec, pure, require, guard, ◌>>=◌, ◌>>◌, push_word, not_authorized, missing_commitment, escape,
  missing_reveal, invalid_reveal_seed,
}
use unc_coin.Uvm.Context.{Context, two_operands, key_operand}
use unc_coin.Uvm.Step.Arith.{flag}

-- The wallet and the request id of READ_COMMIT, READ_REVEAL, HAS_REVEAL, HAS_AUTH and
-- REQUIRE_AUTH.
unfoldable pub wallet_and_request : List Value → Exec (String × String)
wallet_and_request operands = do
  (first, second) ← two_operands operands
  wallet ← key_operand first
  request_id ← key_operand second
  pure (wallet, request_id)

-- The number of a commitment; nothing catches the `ValueError` of one that is none.
unfoldable pub commitment_value : Option ℤ → Exec ℤ
commitment_value none = escape
commitment_value (some n) = pure n

unfoldable pub exec_read_commit : Context → List Value → Exec (Option ℕ)
exec_read_commit ctx operands = do
  (wallet, request_id) ← wallet_and_request operands
  guard not_authorized (is_request_authorized ctx.authorization_index wallet request_id)
  commitment_hash ←
      require missing_commitment (lookup_in wallet (lookup request_id ctx.commitments))
  value ← commitment_value (parse_int 16 commitment_hash)
  push_word value
  pure none

unfoldable pub exec_read_reveal : Context → List Value → Exec (Option ℕ)
exec_read_reveal ctx operands = do
  (wallet, request_id) ← wallet_and_request operands
  reveal ← require missing_reveal (lookup_in wallet (lookup request_id ctx.reveals))
  seed_value ← require invalid_reveal_seed (parse_int 10 reveal.seed)
  push_word seed_value
  pure none

unfoldable pub exec_has_reveal : Context → List Value → Exec (Option ℕ)
exec_has_reveal ctx operands = do
  (wallet, request_id) ← wallet_and_request operands
  push_word (flag (is_some (lookup_in wallet (lookup request_id ctx.reveals))))
  pure none

unfoldable pub exec_has_auth : Context → List Value → Exec (Option ℕ)
exec_has_auth ctx operands = do
  (wallet, request_id) ← wallet_and_request operands
  push_word (flag (is_request_authorized ctx.authorization_index wallet request_id))
  pure none

unfoldable pub exec_require_auth : Context → List Value → Exec (Option ℕ)
exec_require_auth ctx operands = do
  (wallet, request_id) ← wallet_and_request operands
  guard not_authorized (is_request_authorized ctx.authorization_index wallet request_id)
  pure none
