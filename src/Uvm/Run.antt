-- ===== src/Uvm/Run.antt =====
-- The loop of `execute_uvm_program` of core/uvm.py, and its results.
use unc_coin.Prelude.{
  ℕ, zero, suc, ◌+◌, ◌-◌, ◌%◌, ◌==◌, ◌≡◌, ◌⊎◌, inl, inr, refl, Bool, true, false, Option, none,
  some, List, [], ◌∷◌, reverse, ltb, if◌then◌else◌, length, get_elem?,
}
use unc_coin.Prelude.Int.{ℤ, pos, negsuc}
use unc_coin.Value.{Value}
use unc_coin.Dict.{Dict, or_default}
use unc_coin.Externals.{Externals}
use unc_coin.Uvm.Opcode.{Opcode, gas_cost}
use unc_coin.Uvm.Machine.{
  Result, ok, err, fault, reverted, uncaught, Stop, Vm, Transfer, UvmError, invalid_program,
  negative_gas_limit, unknown_opcode, out_of_gas, word_modulus,
}
use unc_coin.Uvm.Context.{Context, has_long_text}
use unc_coin.Uvm.Program.{Instruction, parse_program}
use unc_coin.Uvm.Step.{execute_instruction}

-- `UvmExecutionResult`
pub record UvmResult : Type 0 where
  pub success : Bool
  pub was_reverted : Bool
  pub gas_used : ℕ
  pub gas_remaining : ℕ
  pub gas_exhausted : Bool
  pub used_all_gas : Bool
  pub error : Option Stop
  pub stack : List ℕ
  pub memory : Dict ℕ
  pub storage : Dict ℕ
  pub balance_changes : Dict ℤ
  pub transfers : List Transfer
  pub program_counter : ℕ

abbrev pub is_zero : ℤ → Bool
is_zero (pos n) = n == 0
is_zero (negsuc n) = false

-- The entries of a dict of amounts that are not zero.
unfoldable pub nonzero : Dict ℤ → Dict ℤ
nonzero [] = []
nonzero ((k, v) ∷ d) = let rest = nonzero d in if is_zero v then rest else (k, v) ∷ rest

-- `_result`, on the final state. Python lists a stack from the bottom.
unfoldable pub result :
    Bool → Bool → ℕ → ℕ → Bool → Option Stop → Vm → Dict ℤ → List Transfer → ℕ → UvmResult
unfolding nonzero
result success was_reverted gas_limit gas exhausted error s changes transfers pc = record {
  success = success;
  was_reverted = was_reverted;
  gas_used = gas_limit - gas;
  gas_remaining = gas;
  gas_exhausted = exhausted;
  used_all_gas = gas == 0;
  error = error;
  stack = reverse s.stack;
  memory = s.memory;
  storage = s.storage;
  balance_changes = nonzero changes;
  transfers = transfers;
  program_counter = pc;
}

-- `_failure` for an instruction that is not begun: it reports no money moves.
unfoldable pub failure_before : ℕ → ℕ → Bool → UvmError → Vm → ℕ → UvmResult
unfolding result
failure_before gas_limit gas exhausted e s pc =
    result false false gas_limit gas exhausted (some (fault e)) s [] [] pc

-- `_failure` for an instruction that raised `_UvmExecutionError`.
unfoldable pub failed_result : ℕ → ℕ → UvmError → Vm → ℕ → UvmResult
unfolding result
failed_result gas_limit gas e s pc =
    result false false gas_limit gas false (some (fault e)) s s.ledger.balance_changes
      s.ledger.transfers pc

unfoldable pub reverted_result : ℕ → ℕ → Vm → ℕ → UvmResult
unfolding result
reverted_result gas_limit gas s pc =
    result false true gas_limit gas false (some reverted) s s.ledger.balance_changes
      s.ledger.transfers pc

unfoldable pub success_result : ℕ → ℕ → Vm → ℕ → UvmResult
unfolding result
success_result gas_limit gas s pc =
    result true false gas_limit gas false none s s.ledger.balance_changes s.ledger.transfers pc

-- How a run ends: with a result, or with a `ValueError` that leaves `execute_uvm_program`.
pub data Ending : Type 0 where
  returned : UvmResult → Ending
  raised : Ending

-- What one round of the loop leads to: an end, or the next counter, gas and state.
pub data Next : Type 0 where
  done : UvmResult → Next
  escapes : Next
  goto : ℕ → ℕ → Vm → Next

unfoldable pub is_halt : Opcode → Bool
is_halt Opcode.halt = true
is_halt _ = false

unfoldable pub after_instruction : ℕ → ℕ → ℕ → Opcode → Result (Option ℕ) × Vm → Next
unfolding is_halt failed_result reverted_result success_result
after_instruction gas_limit gas pc op (ok jumped, s) =
    if is_halt op
    then done (success_result gas_limit gas s pc)
    else goto (or_default (pc + 1) jumped) gas s
after_instruction gas_limit gas pc op (err (fault e), s) = done (failed_result gas_limit gas e s pc)
after_instruction gas_limit gas pc op (err reverted, s) = done (reverted_result gas_limit gas s pc)
after_instruction gas_limit gas pc op (err uncaught, s) = escapes

-- The body of the loop, on an opcode with a price.
unfoldable pub run_opcode : Externals → Context → ℕ → ℕ → Opcode → List Value → ℕ → ℕ → Vm → Next
unfolding gas_cost failure_before after_instruction
run_opcode X ctx gas_limit program_length op operands pc gas s =
    if ltb gas (gas_cost op)
    then done (failure_before gas_limit 0 true out_of_gas s pc)
    else after_instruction gas_limit (gas - gas_cost op) pc op
        (execute_instruction X ctx program_length op operands s)

unfoldable pub run_instruction :
    Externals → Context → ℕ → ℕ → Option Opcode → List Value → ℕ → ℕ → Vm → Next
unfolding run_opcode failure_before
run_instruction X ctx gas_limit program_length none operands pc gas s =
    done (failure_before gas_limit gas false unknown_opcode s pc)
run_instruction X ctx gas_limit program_length (some op) operands pc gas s =
    run_opcode X ctx gas_limit program_length op operands pc gas s

-- One round: the loop ends behind the last instruction.
unfoldable pub at_instruction : Externals → Context → ℕ → ℕ → Option Instruction → ℕ → ℕ → Vm → Next
unfolding run_instruction success_result
at_instruction X ctx gas_limit program_length none pc gas s =
    done (success_result gas_limit gas s pc)
at_instruction X ctx gas_limit program_length (some i) pc gas s =
    run_instruction X ctx gas_limit program_length i.opcode i.operands pc gas s

unfoldable pub next : Externals → Context → ℕ → List Instruction → ℕ → ℕ → Vm → Next
unfolding at_instruction
next X ctx gas_limit instructions pc gas s =
    at_instruction X ctx gas_limit (length instructions) (get_elem? instructions pc) pc gas s

-- To split on a round and keep the equation.
pub Next-cases :
    (n : Next)
    → ((r : UvmResult) × (n ≡ done r))
      ⊎ ((n ≡ escapes) ⊎ ((pc : ℕ) × (gas : ℕ) × (s : Vm) × (n ≡ goto pc gas s)))
Next-cases (done r) = inl (r, refl)
Next-cases escapes = inr (inl refl)
Next-cases (goto pc gas s) = inr (inr (pc, gas, s, refl))

-- The loop on fuel; `none` means that the fuel ran out.
unfoldable pub run : Externals → Context → ℕ → List Instruction → ℕ → ℕ → ℕ → Vm → Option Ending
run X ctx gas_limit instructions zero pc gas s = none
run X ctx gas_limit instructions (suc fuel) pc gas s =
    elim (next X ctx gas_limit instructions pc gas s) [
      | done r ↦ some (returned r)
      | escapes ↦ some raised
      | goto pc' gas' s' ↦ run X ctx gas_limit instructions fuel pc' gas' s'
    ]

-- `_normalize_word` on each value of the storage.
unfoldable pub normalize_storage : Dict ℕ → Dict ℕ
normalize_storage [] = []
normalize_storage ((k, v) ∷ d) = (k, v % word_modulus) ∷ normalize_storage d

abbrev pub initial_vm : Dict ℕ → Dict ℤ → Vm
initial_vm storage balances = record {
  stack = [];
  memory = [];
  storage = storage;
  ledger = record { balances = balances; balance_changes = []; transfers = [] };
}

-- `max(limit, 0)`
abbrev pub natural : ℤ → ℕ
natural (pos n) = n
natural (negsuc n) = 0

abbrev pub refused : UvmError → ℕ → Dict ℕ → UvmResult
unfolding result
refused e gas storage =
    result false false gas gas false (some (fault e)) (initial_vm storage []) [] [] 0

-- The rest of `execute_uvm_program` on a program that was read. A round that goes on uses gas, so
-- one round more than there is gas is enough.
unfoldable pub execute_instructions : Externals → Context → List Instruction → ℤ → Option Ending
unfolding run normalize_storage refused
execute_instructions X ctx instructions (pos gas_limit) =
    run X ctx gas_limit instructions (suc gas_limit) 0 gas_limit
      (initial_vm (normalize_storage ctx.storage) ctx.balances)
execute_instructions X ctx instructions (negsuc n) =
    some (returned (refused negative_gas_limit 0 ctx.storage))

-- The result on a program that cannot be read looks at `str(context.gas_limit)`.
unfoldable pub execute_parsed : Externals → Context → Option (List Instruction) → Option Ending
unfolding execute_instructions refused has_long_text
execute_parsed X ctx none =
    if has_long_text ctx.gas_limit
    then some raised
    else some (returned (refused invalid_program (natural ctx.gas_limit) ctx.storage))
execute_parsed X ctx (some instructions) = execute_instructions X ctx instructions ctx.gas_limit

-- `execute_uvm_program`; `none` means that the fuel ran out.
unfoldable pub execute_program : Externals → Value → Context → Option Ending
unfolding parse_program execute_parsed
execute_program X program ctx = execute_parsed X ctx (parse_program X program)
