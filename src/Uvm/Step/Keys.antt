-- ===== src/Uvm/Step/Keys.antt =====
-- The opcodes that read or write under a key (core/uvm.py).
use unc_coin.Prelude.{ℕ, Option, none, List}
use unc_coin.Prelude.Int.{pos}
use unc_coin.Value.{Value}
use unc_coin.Uvm.Machine.{
  Exec, pure, ◌>>=◌, ◌>>◌, push_word, pop_word, read_memory, write_memory, read_storage,
  write_storage,
}
use unc_coin.Uvm.Context.{Context, one_operand, key_operand, read_word_mapping}

-- MEM_LOAD, MEM_STORE, READ_METADATA, READ_INPUT, LOAD and STORE. Python pops before it looks at
-- the key of an assignment.
unfoldable pub exec_mem_load : List Value → Exec (Option ℕ)
exec_mem_load operands = do
  operand ← one_operand operands
  key ← key_operand operand
  value ← read_memory key
  push_word (pos value)
  pure none

unfoldable pub exec_mem_store : List Value → Exec (Option ℕ)
exec_mem_store operands = do
  operand ← one_operand operands
  value ← pop_word
  key ← key_operand operand
  write_memory key value
  pure none

unfoldable pub exec_read_metadata : Context → List Value → Exec (Option ℕ)
exec_read_metadata ctx operands = do
  operand ← one_operand operands
  key ← key_operand operand
  value ← read_word_mapping ctx.metadata key
  push_word value
  pure none

unfoldable pub exec_read_input : Context → List Value → Exec (Option ℕ)
exec_read_input ctx operands = do
  operand ← one_operand operands
  key ← key_operand operand
  value ← read_word_mapping ctx.input_data key
  push_word value
  pure none

unfoldable pub exec_load : List Value → Exec (Option ℕ)
exec_load operands = do
  operand ← one_operand operands
  key ← key_operand operand
  value ← read_storage key
  push_word (pos value)
  pure none

unfoldable pub exec_store : List Value → Exec (Option ℕ)
exec_store operands = do
  operand ← one_operand operands
  value ← pop_word
  key ← key_operand operand
  write_storage key value
  pure none
