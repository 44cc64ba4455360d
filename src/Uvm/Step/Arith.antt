-- ===== src/Uvm/Step/Arith.antt =====
-- The stack and the operations on words: PUSH to XOR, NOT and SHA256 (core/uvm.py).
use Prim.Native.Nat.{bit_xor}
use unc_coin.Prelude.{
  ℕ, ◌+◌, ◌*◌, ◌/◌, ◌%◌, ◌==◌, Bool, not, ◌&&◌, ◌||◌, Option, none, List, ltb, if◌then◌else◌,
}
use unc_coin.Prelude.Int.{ℤ, pos, ◌-ℤ◌}
use unc_coin.Text.{show_ℕ}
use unc_coin.Value.{Value}
use unc_coin.Externals.{Externals}
use unc_coin.Uvm.Opcode.{BinOp}
use unc_coin.Uvm.Machine.{
  Exec, pure, raise, ◌>>=◌, ◌>>◌, push_word, pop_word, peek_word, swap_words, division_by_zero,
  modulo_by_zero,
}
use unc_coin.Uvm.Context.{no_operands, one_operand, int_operand}

abbrev pub flag : Bool → ℤ
flag b = pos (if b then 1 else 0)

-- PUSH, POP, DUP and SWAP
unfoldable pub exec_push : List Value → Exec (Option ℕ)
exec_push operands = do
  operand ← one_operand operands
  value ← int_operand operand
  push_word value
  pure none

unfoldable pub exec_pop : List Value → Exec (Option ℕ)
exec_pop operands = do no_operands operands; pop_word; pure none

unfoldable pub exec_dup : List Value → Exec (Option ℕ)
exec_dup operands = do no_operands operands; top ← peek_word; push_word (pos top); pure none

unfoldable pub exec_swap : List Value → Exec (Option ℕ)
exec_swap operands = do no_operands operands; swap_words; pure none

-- What an operation on two words pushes, before it is cut to a word.
unfoldable pub binary_value : BinOp → ℕ → ℕ → Exec ℤ
binary_value BinOp.add left right = pure (pos (left + right))
binary_value BinOp.sub left right = pure (pos left -ℤ pos right)
binary_value BinOp.mul left right = pure (pos (left * right))
binary_value BinOp.div left right =
    if right == 0 then raise division_by_zero else pure (pos (left / right))
binary_value BinOp.mod_op left right =
    if right == 0 then raise modulo_by_zero else pure (pos (left % right))
binary_value BinOp.eq left right = pure (flag (left == right))
binary_value BinOp.lt left right = pure (flag (ltb left right))
binary_value BinOp.gt left right = pure (flag (ltb right left))
binary_value BinOp.and_op left right = pure (flag (not (left == 0) && not (right == 0)))
binary_value BinOp.or_op left right = pure (flag (not (left == 0) || not (right == 0)))
binary_value BinOp.xor left right = pure (pos (bit_xor left right))

unfoldable pub exec_binary : BinOp → List Value → Exec (Option ℕ)
exec_binary o operands = do
  no_operands operands
  right ← pop_word
  left ← pop_word
  value ← binary_value o left right
  push_word value
  pure none

unfoldable pub exec_not : List Value → Exec (Option ℕ)
exec_not operands = do
  no_operands operands
  value ← pop_word
  push_word (flag (value == 0))
  pure none

unfoldable pub exec_sha256 : Externals → List Value → Exec (Option ℕ)
exec_sha256 X operands = do
  no_operands operands
  value ← pop_word
  push_word (pos (X.sha256 (show_ℕ value)))
  pure none
