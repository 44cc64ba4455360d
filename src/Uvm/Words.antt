-- ===== src/Uvm/Words.antt =====
-- The bounds of the machine: at most `max_stack_items` words on the stack, and only words below
-- 2^256 there, in the memory and in the storage.
pub mod Keeps
pub mod Bounds
pub mod Results
use unc_coin.Prelude.{
  ℕ, suc, ◌+◌, ◌-◌, ◌%◌, ◌≤◌, ◌<◌, String, ◌≡◌, refl, Bool, true, false, Option, none, some, List,
  [], ◌∷◌, arith, str_eq, leb, if◌then◌else◌, length, Bool-cases, inl, inr,
}
use unc_coin.Prelude.Int.{ℤ, pos, negsuc}
use unc_coin.Value.{Value, bool, int, text, Fields, get_field}
use unc_coin.Dict.{Dict, insert}
use unc_coin.Externals.{Externals}
use unc_coin.Uvm.Opcode.{BinOp, Opcode}
use unc_coin.Uvm.Machine
use unc_coin.Uvm.Machine.{
  Exec, Result, ok, err, Vm, UvmError, word_modulus, max_stack_items, normalize_word, pure, raise,
  escape, require, guard, ◌>>=◌, ◌>>◌, push_word, pop_from, pop_word, peek_from, peek_word,
  swap_from, swap_words, read_memory, write_memory, read_storage, write_storage,
}
use unc_coin.Uvm.Context.{
  Context, no_operands, one_operand, two_operands, three_operands, int_operand, key_operand,
  account_operand, read_word_value, read_found, read_word_mapping, jump_target, out_of_bounds,
}
use unc_coin.Uvm.Step.{
  exec_push, exec_pop, exec_dup, exec_swap, binary_value, exec_binary, exec_not, exec_sha256,
  exec_mem_load, exec_mem_store, exec_read_metadata, exec_read_input, exec_load, exec_store,
  wallet_and_request, commitment_value, exec_read_commit, exec_read_reveal, exec_has_reveal,
  exec_has_auth, exec_require_auth, exec_block_height, exec_tx_sender, exec_jump, exec_jumpi,
  exec_halt, revert_now, exec_revert, transfer_funds, exec_transfer_from, execute_instruction,
}

abbrev pub IsWord : ℕ → Type 0
IsWord x = x < word_modulus

abbrev pub AreWords : List ℕ → Type 0
AreWords [] = Unit
AreWords (x ∷ xs) = IsWord x × AreWords xs

abbrev pub HoldsWords : Dict ℕ → Type 0
HoldsWords [] = Unit
HoldsWords ((k, x) ∷ d) = IsWord x × HoldsWords d

pub record IsWellFormed (s : Vm) : Type 0 where
  pub bounded : length s.stack ≤ max_stack_items
  pub on_stack : AreWords s.stack
  pub in_memory : HoldsWords s.memory
  pub in_storage : HoldsWords s.storage

pub insert-HoldsWords :
    (k : String) (x : ℕ) (d : Dict ℕ) → IsWord x → HoldsWords d → HoldsWords (insert k x d)
unfolding insert
insert-HoldsWords k x [] w h = (w, tt)
insert-HoldsWords k x ((j, y) ∷ d) w h = elim (Bool-cases (str_eq j k)) [
  | inl e ↦ rw e (w, h.1)
  | inr e ↦ rw e (h.0, insert-HoldsWords k x d w h.1)
]

pub normalize_word-IsWord : (v : ℤ) → IsWord (normalize_word v)
unfolding normalize_word
normalize_word-IsWord (pos n) = omega arith
normalize_word-IsWord (negsuc n) = omega arith
