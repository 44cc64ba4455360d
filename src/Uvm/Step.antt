-- ===== src/Uvm/Step.antt =====
-- `_execute_instruction` of core/uvm.py. The children have one function for each opcode. An
-- instruction answers with the program counter that it jumps to, or with `none`.
mod Arith
mod Keys
mod Grants
mod Funds
mod Flow
unfoldable pub use Arith.{
  flag, exec_push, exec_pop, exec_dup, exec_swap, binary_value, exec_binary, exec_not, exec_sha256,
}
unfoldable pub use Keys.{
  exec_mem_load, exec_mem_store, exec_read_metadata, exec_read_input, exec_load, exec_store,
}
unfoldable pub use Grants.{
  wallet_and_request, commitment_value, exec_read_commit, exec_read_reveal, exec_has_reveal,
  exec_has_auth, exec_require_auth,
}
unfoldable pub use Funds.{move_funds, may_spend, transfer_funds, exec_transfer_from}
unfoldable pub use Flow.{
  exec_block_height, exec_tx_sender, exec_jump, exec_jumpi, exec_halt, revert_now, exec_revert,
}
use unc_coin.Prelude.{ℕ, Option, List}
use unc_coin.Value.{Value}
use unc_coin.Externals.{Externals}
use unc_coin.Uvm.Opcode.{BinOp, Opcode}
use unc_coin.Uvm.Machine.{Exec}
use unc_coin.Uvm.Context.{Context}

-- `_execute_instruction`, for an instruction whose opcode has a price.
unfoldable pub execute_instruction : Externals → Context → ℕ → Opcode → List Value → Exec (Option ℕ)
execute_instruction X ctx n Opcode.push operands = exec_push operands
execute_instruction X ctx n Opcode.pop operands = exec_pop operands
execute_instruction X ctx n Opcode.dup operands = exec_dup operands
execute_instruction X ctx n Opcode.swap operands = exec_swap operands
execute_instruction X ctx n (Opcode.binary o) operands = exec_binary o operands
execute_instruction X ctx n Opcode.not_op operands = exec_not operands
execute_instruction X ctx n Opcode.sha256 operands = exec_sha256 X operands
execute_instruction X ctx n Opcode.mem_load operands = exec_mem_load operands
execute_instruction X ctx n Opcode.mem_store operands = exec_mem_store operands
execute_instruction X ctx n Opcode.read_metadata operands = exec_read_metadata ctx operands
execute_instruction X ctx n Opcode.read_input operands = exec_read_input ctx operands
execute_instruction X ctx n Opcode.load operands = exec_load operands
execute_instruction X ctx n Opcode.store operands = exec_store operands
execute_instruction X ctx n Opcode.read_commit operands = exec_read_commit ctx operands
execute_instruction X ctx n Opcode.read_reveal operands = exec_read_reveal ctx operands
execute_instruction X ctx n Opcode.has_reveal operands = exec_has_reveal ctx operands
execute_instruction X ctx n Opcode.transfer_from operands = exec_transfer_from X ctx operands
execute_instruction X ctx n Opcode.has_auth operands = exec_has_auth ctx operands
execute_instruction X ctx n Opcode.require_auth operands = exec_require_auth ctx operands
execute_instruction X ctx n Opcode.block_height operands = exec_block_height ctx operands
execute_instruction X ctx n Opcode.tx_sender operands = exec_tx_sender ctx operands
execute_instruction X ctx n Opcode.jump operands = exec_jump n operands
execute_instruction X ctx n Opcode.jumpi operands = exec_jumpi n operands
execute_instruction X ctx n Opcode.halt operands = exec_halt operands
execute_instruction X ctx n Opcode.revert operands = exec_revert operands
