-- ===== src/Uvm/Step/Flow.antt =====
-- BLOCK_HEIGHT, TX_SENDER, the jumps, HALT and REVERT (core/uvm.py).
use unc_coin.Prelude.{ℕ, ◌==◌, Option, none, some, List, if◌then◌else◌}
use unc_coin.Prelude.Int.{pos}
use unc_coin.Value.{Value, text}
use unc_coin.Uvm.Machine.{Exec, err, reverted, pure, ◌>>=◌, ◌>>◌, push_word, pop_word}
use unc_coin.Uvm.Context.{
  Context, no_operands, one_operand, int_operand, read_word_value, jump_target,
}

unfoldable pub exec_block_height : Context → List Value → Exec (Option ℕ)
exec_block_height ctx operands = do
  no_operands operands
  push_word (pos ctx.block_height)
  pure none

unfoldable pub exec_tx_sender : Context → List Value → Exec (Option ℕ)
exec_tx_sender ctx operands = do
  no_operands operands
  value ← read_word_value (text ctx.tx_sender)
  push_word value
  pure none

unfoldable pub exec_jump : ℕ → List Value → Exec (Option ℕ)
exec_jump program_length operands = do
  operand ← one_operand operands
  n ← int_operand operand
  target ← jump_target program_length n
  pure (some target)

unfoldable pub exec_jumpi : ℕ → List Value → Exec (Option ℕ)
exec_jumpi program_length operands = do
  operand ← one_operand operands
  n ← int_operand operand
  target ← jump_target program_length n
  condition ← pop_word
  pure (if condition == 0 then none else some target)

unfoldable pub exec_halt : List Value → Exec (Option ℕ)
exec_halt operands = do no_operands operands; pure none

unfoldable pub revert_now : Exec (Option ℕ)
revert_now s = (err reverted, s)

unfoldable pub exec_revert : List Value → Exec (Option ℕ)
exec_revert operands = do no_operands operands; revert_now
