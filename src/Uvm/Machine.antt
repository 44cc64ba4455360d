-- ===== src/Uvm/Machine.antt =====
-- The state that core/uvm.py changes while a program runs, the ways in which an instruction can
-- stop it, and the stack operations.
use unc_coin.Prelude.{
  ℕ, ◌-◌, ◌%◌, ◌^◌, String, Bool, true, false, Option, none, some, List, [], ◌∷◌, leb,
  if◌then◌else◌, length,
}
use unc_coin.Prelude.Int.{ℤ, pos, negsuc}
use unc_coin.Dict.{Dict, lookup_or, insert}

-- One constructor for each message of `_UvmExecutionError`, and for each other error of a run.
pub data UvmError : Type 0 where
  invalid_program negative_gas_limit unknown_opcode out_of_gas : UvmError
  operand_count operand_not_int operand_not_key stack_underflow stack_limit : UvmError
  division_by_zero modulo_by_zero missing_key value_not_int jump_out_of_bounds : UvmError
  not_authorized missing_commitment missing_reveal : UvmError
  invalid_reveal_seed amount_not_positive balance_too_low : UvmError

-- `_UvmExecutionError` and `_UvmRevert`, and a `ValueError`, which `execute_uvm_program` does not
-- catch.
pub data Stop : Type 0 where
  fault : UvmError → Stop
  reverted : Stop
  uncaught : Stop

pub data Result {ℓ} (A : Type ℓ) : Type ℓ where
  ok : A → Result A
  err : Stop → Result A

pub record Transfer : Type 0 where
  pub source : String
  pub receiver : String
  pub amount : ℤ
  pub request_id : String

-- The part of the state that holds money.
pub record Ledger : Type 0 where
  pub balances : Dict ℤ
  pub balance_changes : Dict ℤ
  pub transfers : List Transfer

-- The head of the list is the top of the stack.
pub record Vm : Type 0 where
  pub stack : List ℕ
  pub memory : Dict ℕ
  pub storage : Dict ℕ
  pub ledger : Ledger

-- What is written before a stop stays written.
abbrev pub Exec : Type 0 → Type 0
Exec A = Vm → Result A × Vm

module _ {A : Type 0} where
  unfoldable pub pure : A → Exec A
  pure a s = (ok a, s)

  unfoldable pub raise : UvmError → Exec A
  raise e s = (err (fault e), s)

  unfoldable pub escape : Exec A
  escape s = (err uncaught, s)

  unfoldable pub gets : (Vm → A) → Exec A
  gets f s = (ok (f s), s)

  -- A value, or the error where there is none.
  unfoldable pub require : UvmError → Option A → Exec A
  require e none s = (err (fault e), s)
  require e (some a) s = (ok a, s)

module _ {A B : Type 0} where
  abbrev pub continue : Result A → (A → Exec B) → Exec B
  continue (ok a) f s = f a s
  continue (err e) f s = (err e, s)

  infixl 10 ◌>>=◌ ◌>>◌
  unfoldable pub ◌>>=◌ : Exec A → (A → Exec B) → Exec B
  ◌>>=◌ m f s = let (r, s') = m s in continue r f s'

  abbrev pub ◌>>◌ : Exec A → Exec B → Exec B
  m >> n = m >>= λ _. n

unfoldable pub guard : UvmError → Bool → Exec (Unit {0})
guard e true s = (ok tt, s)
guard e false s = (err (fault e), s)

abbrev pub word_modulus : ℕ
word_modulus = 2 ^ 256

abbrev pub max_stack_items : ℕ
max_stack_items = 1024

-- `int(value) % UVM_WORD_MODULUS`, which Python never makes negative.
unfoldable pub normalize_word : ℤ → ℕ
normalize_word (pos n) = n % word_modulus
normalize_word (negsuc n) = word_modulus - 1 - n % word_modulus

unfoldable pub push_word : ℤ → Exec (Unit {0})
unfolding normalize_word
push_word value s =
    if leb max_stack_items (length s.stack)
    then (err (fault stack_limit), s)
    else (ok tt, record s { stack = normalize_word value ∷ s.stack })

unfoldable pub pop_from : List ℕ → Exec ℕ
pop_from [] s = (err (fault stack_underflow), s)
pop_from (x ∷ xs) s = (ok x, record s { stack = xs })

unfoldable pub pop_word : Exec ℕ
unfolding pop_from
pop_word s = pop_from s.stack s

unfoldable pub peek_from : List ℕ → Exec ℕ
peek_from [] s = (err (fault stack_underflow), s)
peek_from (x ∷ xs) s = (ok x, s)

unfoldable pub peek_word : Exec ℕ
unfolding peek_from
peek_word s = peek_from s.stack s

unfoldable pub swap_from : List ℕ → Exec (Unit {0})
swap_from (x ∷ y ∷ xs) s = (ok tt, record s { stack = y ∷ x ∷ xs })
swap_from _ s = (err (fault stack_underflow), s)

unfoldable pub swap_words : Exec (Unit {0})
unfolding swap_from
swap_words s = swap_from s.stack s

unfoldable pub read_memory : String → Exec ℕ
read_memory key s = (ok (lookup_or key 0 s.memory), s)

unfoldable pub write_memory : String → ℕ → Exec (Unit {0})
write_memory key value s = (ok tt, record s { memory = insert key value s.memory })

unfoldable pub read_storage : String → Exec ℕ
read_storage key s = (ok (lookup_or key 0 s.storage), s)

unfoldable pub write_storage : String → ℕ → Exec (Unit {0})
write_storage key value s = (ok tt, record s { storage = insert key value s.storage })
