-- ===== src/Uvm/Words/Bounds.antt =====
-- Every instruction, and every run, keeps the bounds of the machine.
use unc_coin.Prelude.{ℕ, String, Option, none, some, List, [], ◌∷◌}
use unc_coin.Prelude.Int.{ℤ, pos, negsuc}
use unc_coin.Value.{Value, bool, int, text, Fields, get_field}
use unc_coin.Externals.{Externals}
use unc_coin.Uvm.Opcode.{BinOp, Opcode}
use unc_coin.Uvm.Context.{
  Context, no_operands, one_operand, two_operands, three_operands, int_operand, key_operand,
  account_operand, read_word_value, read_found, read_word_mapping, jump_target, out_of_bounds,
}
use unc_coin.Uvm.Step.{
  exec_push, exec_pop, exec_dup, exec_swap, binary_value, exec_binary, exec_not, exec_sha256,
  exec_mem_load, exec_mem_store, exec_read_metadata, exec_read_input, exec_load, exec_store,
  wallet_and_request, commitment_value, exec_read_commit, exec_read_reveal, exec_has_reveal,
  exec_has_auth, exec_require_auth, exec_block_height, exec_tx_sender, exec_jump, exec_jumpi,
  exec_halt, exec_revert, exec_transfer_from, execute_instruction,
}
use unc_coin.Uvm.Words.Keeps.{
  Keeps, Keeps-pure, Keeps-raise, Keeps-escape, Keeps-require, Keeps-if, Keeps-bind, Keeps-guard,
  Keeps-push, Keeps-pop, Keeps-peek, Keeps-swap, Keeps-read_memory, Keeps-read_storage,
  Keeps-write_memory, Keeps-write_storage, Keeps-revert_now, Keeps-transfer_funds,
}

ruleset keeps_base = (Keeps-pure, Keeps-raise, Keeps-escape, Keeps-require, Keeps-if, Keeps-bind)

Keeps-no_operands : (vs : List Value) → Keeps (no_operands vs)
unfolding no_operands
Keeps-no_operands [] = search keeps_base
Keeps-no_operands _ = search keeps_base

Keeps-one_operand : (vs : List Value) → Keeps (one_operand vs)
unfolding one_operand
Keeps-one_operand (a ∷ []) = search keeps_base
Keeps-one_operand _ = search keeps_base

Keeps-two_operands : (vs : List Value) → Keeps (two_operands vs)
unfolding two_operands
Keeps-two_operands (a ∷ b ∷ []) = search keeps_base
Keeps-two_operands _ = search keeps_base

Keeps-three_operands : (vs : List Value) → Keeps (three_operands vs)
unfolding three_operands
Keeps-three_operands (a ∷ b ∷ c ∷ []) = search keeps_base
Keeps-three_operands _ = search keeps_base

Keeps-int_operand : (v : Value) → Keeps (int_operand v)
unfolding int_operand
Keeps-int_operand (int n) = search keeps_base
Keeps-int_operand (bool b) = search keeps_base
Keeps-int_operand _ = search keeps_base

Keeps-key_operand : (v : Value) → Keeps (key_operand v)
unfolding key_operand
Keeps-key_operand (text s) = search keeps_base
Keeps-key_operand _ = search keeps_base

Keeps-account_operand : (ctx : Context) (v : Value) → Keeps (account_operand ctx v)
unfolding account_operand
Keeps-account_operand ctx (text s) = search keeps_base
Keeps-account_operand ctx _ = search keeps_base

Keeps-read_word_value : (v : Value) → Keeps (read_word_value v)
unfolding read_word_value
Keeps-read_word_value v = search keeps_base

Keeps-read_found : (o : Option Value) → Keeps (read_found o)
unfolding read_found
Keeps-read_found none = search keeps_base
Keeps-read_found (some v) = Keeps-read_word_value v

Keeps-read_word_mapping : (values : Fields) (key : String) → Keeps (read_word_mapping values key)
unfolding read_word_mapping
Keeps-read_word_mapping values key = Keeps-read_found (get_field key values)

Keeps-commitment_value : (o : Option ℤ) → Keeps (commitment_value o)
unfolding commitment_value
Keeps-commitment_value none = search keeps_base
Keeps-commitment_value (some n) = search keeps_base

Keeps-jump_target : (n : ℕ) (t : ℤ) → Keeps (jump_target n t)
unfolding jump_target out_of_bounds
Keeps-jump_target n (pos t) = search keeps_base
Keeps-jump_target n (negsuc t) = search keeps_base

Keeps-binary_value : (o : BinOp) (a b : ℕ) → Keeps (binary_value o a b)
unfolding binary_value
Keeps-binary_value BinOp.div a b = search keeps_base
Keeps-binary_value _ a b = search keeps_base

-- The rule for a pop stands before the rule for a bind.
ruleset keeps_parts = (
  Keeps-pop, keeps_base, Keeps-guard, Keeps-push, Keeps-peek, Keeps-swap, Keeps-read_memory,
  Keeps-read_storage, Keeps-write_memory, Keeps-write_storage, Keeps-revert_now,
  Keeps-transfer_funds, Keeps-no_operands, Keeps-one_operand, Keeps-two_operands,
  Keeps-three_operands, Keeps-int_operand, Keeps-key_operand, Keeps-account_operand,
  Keeps-read_word_value, Keeps-read_word_mapping, Keeps-jump_target, Keeps-commitment_value,
  Keeps-binary_value,
)

Keeps-wallet_and_request : (vs : List Value) → Keeps (wallet_and_request vs)
unfolding wallet_and_request
Keeps-wallet_and_request vs = search keeps_parts depth 9

ruleset keeps_all = (keeps_parts, Keeps-wallet_and_request)

-- Every instruction keeps the stack, the memory and the storage within their bounds, whether it
-- returns or stops.
pub Keeps-execute_instruction :
    (X : Externals) (ctx : Context) (n : ℕ) (op : Opcode) (vs : List Value)
    → Keeps (execute_instruction X ctx n op vs)
unfolding execute_instruction exec_push exec_pop exec_dup exec_swap exec_binary exec_not exec_sha256
    exec_mem_load exec_mem_store exec_read_metadata exec_read_input exec_load exec_store
    exec_read_commit exec_read_reveal exec_has_reveal exec_has_auth exec_require_auth
    exec_block_height exec_tx_sender exec_jump exec_jumpi exec_halt exec_revert exec_transfer_from
Keeps-execute_instruction X ctx n Opcode.push vs = search keeps_all depth 9
Keeps-execute_instruction X ctx n _ vs = search keeps_all depth 12
