-- ===== src/Uvm/Quiet.antt =====
-- Actions that leave the money alone: every opcode but TRANSFER_FROM.
use unc_coin.Prelude.{
  ℕ, String, ◌≡◌, ◌∙◌, refl, Bool, true, false, Option, none, some, List, [], ◌∷◌, arith,
  if◌then◌else◌,
}
use unc_coin.Prelude.Int.{ℤ, pos, negsuc}
use unc_coin.Value.{Value, bool, int, text, Fields, get_field}
use unc_coin.Externals.{Externals}
use unc_coin.Uvm.Opcode.{BinOp, Opcode}
use unc_coin.Uvm.Machine
use unc_coin.Uvm.Machine.{
  Exec, Result, ok, err, Vm, UvmError, pure, raise, escape, require, guard, ◌>>=◌, ◌>>◌, push_word,
  pop_from, pop_word, peek_from, peek_word, swap_from, swap_words, read_memory, write_memory,
  read_storage, write_storage,
}
use unc_coin.Uvm.Context.{
  Context, no_operands, one_operand, two_operands, three_operands, int_operand, key_operand,
  account_operand, read_word_value, read_found, read_word_mapping, jump_target, out_of_bounds,
}
use unc_coin.Uvm.Step.{
  exec_push, exec_pop, exec_dup, exec_swap, binary_value, exec_binary, exec_not, exec_sha256,
  exec_mem_load, exec_mem_store, exec_read_metadata, exec_read_input, exec_load, exec_store,
  wallet_and_request, commitment_value, exec_read_commit, exec_read_reveal, exec_has_reveal,
  exec_has_auth, exec_require_auth, exec_block_height, exec_tx_sender, exec_jump, exec_jumpi,
  exec_halt, revert_now, exec_revert, execute_instruction,
}

pub record Quiet {A : Type 0} (m : Exec A) : Type 0 where
  pub same : (s : Vm) → (m s).1.ledger ≡ s.ledger

module _ {A : Type 0} where
  pub Quiet-pure : (a : A) → Quiet (pure a)
  unfolding pure
  Quiet-pure a = record { same = λ s. refl }

  Quiet-raise : (e : UvmError) → Quiet (raise {A = A} e)
  unfolding raise
  Quiet-raise e = record { same = λ s. refl }

  Quiet-escape : Quiet (escape {A = A})
  unfolding escape
  Quiet-escape = record { same = λ s. refl }

  Quiet-require : (e : UvmError) (o : Option A) → Quiet (require e o)
  unfolding require
  Quiet-require e none = record { same = λ s. refl }
  Quiet-require e (some a) = record { same = λ s. refl }

  Quiet-if : (b : Bool) (m n : Exec A) → Quiet m → Quiet n → Quiet (if b then m else n)
  Quiet-if true m n hm hn = hm
  Quiet-if false m n hm hn = hn

module _ {A B : Type 0} where
  continue_same :
      (r : Result A) (f : A → Exec B) (s : Vm)
      → ((a : A) → Quiet (f a))
      → (Machine.continue r f s).1.ledger ≡ s.ledger
  continue_same (ok a) f s h = (h a).same s
  continue_same (err e) f s h = refl

  Quiet-bind : (m : Exec A) (f : A → Exec B) → Quiet m → ((a : A) → Quiet (f a)) → Quiet (m >>= f)
  unfolding ◌>>=◌
  Quiet-bind m f hm hf = record {
    same = λ s. let (r, s') = m s in continue_same r f s' hf ∙ hm.same s;
  }

ruleset quiet_base = (Quiet-pure, Quiet-raise, Quiet-escape, Quiet-require, Quiet-if, Quiet-bind)

Quiet-guard : (e : UvmError) (b : Bool) → Quiet (guard e b)
unfolding guard
Quiet-guard e true = record { same = λ s. refl }
Quiet-guard e false = record { same = λ s. refl }

Quiet-push : (v : ℤ) → Quiet (push_word v)
unfolding push_word
Quiet-push v = record { same = λ s. ground arith }

pop_from_same : (xs : List ℕ) (s : Vm) → (pop_from xs s).1.ledger ≡ s.ledger
unfolding pop_from
pop_from_same [] s = refl
pop_from_same (x ∷ xs) s = refl

pub Quiet-pop : Quiet pop_word
unfolding pop_word
Quiet-pop = record { same = λ s. pop_from_same s.stack s }

peek_from_same : (xs : List ℕ) (s : Vm) → (peek_from xs s).1.ledger ≡ s.ledger
unfolding peek_from
peek_from_same [] s = refl
peek_from_same (x ∷ xs) s = refl

Quiet-peek : Quiet peek_word
unfolding peek_word
Quiet-peek = record { same = λ s. peek_from_same s.stack s }

swap_from_same : (xs : List ℕ) (s : Vm) → (swap_from xs s).1.ledger ≡ s.ledger
unfolding swap_from
swap_from_same [] s = refl
swap_from_same (x ∷ []) s = refl
swap_from_same (x ∷ y ∷ xs) s = refl

Quiet-swap : Quiet swap_words
unfolding swap_words
Quiet-swap = record { same = λ s. swap_from_same s.stack s }

Quiet-read_memory : (k : String) → Quiet (read_memory k)
unfolding read_memory
Quiet-read_memory k = record { same = λ s. refl }

Quiet-write_memory : (k : String) (v : ℕ) → Quiet (write_memory k v)
unfolding write_memory
Quiet-write_memory k v = record { same = λ s. refl }

Quiet-read_storage : (k : String) → Quiet (read_storage k)
unfolding read_storage
Quiet-read_storage k = record { same = λ s. refl }

Quiet-write_storage : (k : String) (v : ℕ) → Quiet (write_storage k v)
unfolding write_storage
Quiet-write_storage k v = record { same = λ s. refl }

Quiet-revert_now : Quiet revert_now
unfolding revert_now
Quiet-revert_now = record { same = λ s. refl }

ruleset quiet_stack = (
  quiet_base, Quiet-guard, Quiet-push, Quiet-pop, Quiet-peek, Quiet-swap, Quiet-read_memory,
  Quiet-write_memory, Quiet-read_storage, Quiet-write_storage, Quiet-revert_now,
)

Quiet-no_operands : (vs : List Value) → Quiet (no_operands vs)
unfolding no_operands
Quiet-no_operands [] = search quiet_base
Quiet-no_operands _ = search quiet_base

Quiet-one_operand : (vs : List Value) → Quiet (one_operand vs)
unfolding one_operand
Quiet-one_operand (a ∷ []) = search quiet_base
Quiet-one_operand _ = search quiet_base

Quiet-two_operands : (vs : List Value) → Quiet (two_operands vs)
unfolding two_operands
Quiet-two_operands (a ∷ b ∷ []) = search quiet_base
Quiet-two_operands _ = search quiet_base

pub Quiet-three_operands : (vs : List Value) → Quiet (three_operands vs)
unfolding three_operands
Quiet-three_operands (a ∷ b ∷ c ∷ []) = search quiet_base
Quiet-three_operands _ = search quiet_base

Quiet-int_operand : (v : Value) → Quiet (int_operand v)
unfolding int_operand
Quiet-int_operand (int n) = search quiet_base
Quiet-int_operand (bool b) = search quiet_base
Quiet-int_operand _ = search quiet_base

pub Quiet-key_operand : (v : Value) → Quiet (key_operand v)
unfolding key_operand
Quiet-key_operand (text s) = search quiet_base
Quiet-key_operand _ = search quiet_base

pub Quiet-account_operand : (ctx : Context) (v : Value) → Quiet (account_operand ctx v)
unfolding account_operand
Quiet-account_operand ctx (text s) = search quiet_base
Quiet-account_operand ctx _ = search quiet_base

Quiet-read_word_value : (v : Value) → Quiet (read_word_value v)
unfolding read_word_value
Quiet-read_word_value v = search quiet_base

Quiet-read_found : (o : Option Value) → Quiet (read_found o)
unfolding read_found
Quiet-read_found none = search quiet_base
Quiet-read_found (some v) = Quiet-read_word_value v

Quiet-read_word_mapping : (values : Fields) (key : String) → Quiet (read_word_mapping values key)
unfolding read_word_mapping
Quiet-read_word_mapping values key = Quiet-read_found (get_field key values)

Quiet-commitment_value : (o : Option ℤ) → Quiet (commitment_value o)
unfolding commitment_value
Quiet-commitment_value none = search quiet_base
Quiet-commitment_value (some n) = search quiet_base

Quiet-jump_target : (n : ℕ) (t : ℤ) → Quiet (jump_target n t)
unfolding jump_target out_of_bounds
Quiet-jump_target n (pos t) = search quiet_base
Quiet-jump_target n (negsuc t) = search quiet_base

Quiet-binary_value : (o : BinOp) (a b : ℕ) → Quiet (binary_value o a b)
unfolding binary_value
Quiet-binary_value BinOp.div a b = search quiet_base
Quiet-binary_value _ a b = search quiet_base

ruleset quiet_operands = (
  quiet_stack, Quiet-no_operands, Quiet-one_operand, Quiet-two_operands, Quiet-int_operand,
  Quiet-key_operand, Quiet-read_word_value, Quiet-read_word_mapping, Quiet-jump_target,
  Quiet-commitment_value, Quiet-binary_value,
)

Quiet-wallet_and_request : (vs : List Value) → Quiet (wallet_and_request vs)
unfolding wallet_and_request
Quiet-wallet_and_request vs = search quiet_operands depth 9

ruleset quiet_parts = (quiet_operands, Quiet-wallet_and_request)

-- The opcodes that touch no money: all but TRANSFER_FROM.
abbrev pub IsQuiet : Opcode → Type 0
IsQuiet Opcode.transfer_from = ⊥
IsQuiet _ = Unit

pub Quiet-execute_instruction :
    (X : Externals) (ctx : Context) (n : ℕ) (op : Opcode) (vs : List Value)
    → IsQuiet op
    → Quiet (execute_instruction X ctx n op vs)
unfolding execute_instruction exec_push exec_pop exec_dup exec_swap exec_binary exec_not exec_sha256
    exec_mem_load exec_mem_store exec_read_metadata exec_read_input exec_load exec_store
    exec_read_commit exec_read_reveal exec_has_reveal exec_has_auth exec_require_auth
    exec_block_height exec_tx_sender exec_jump exec_jumpi exec_halt exec_revert
Quiet-execute_instruction X ctx n Opcode.transfer_from vs h = absurd h
Quiet-execute_instruction X ctx n _ vs h = search quiet_parts depth 9
