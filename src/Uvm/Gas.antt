-- ===== src/Uvm/Gas.antt =====
-- Gas: every round that goes on uses some, so the loop ends, and what a result reports adds up.
use unc_coin.Prelude.{
  ℕ, zero, suc, ◌+◌, ◌-◌, ◌≤◌, ◌<◌, ◌≡◌, inl, inr, refl, true, Option, none, some, List, [], ◌∷◌,
  arith, ltb, length, get_elem?, Bool-cases,
}
use unc_coin.Prelude.Int.{ℤ, pos, negsuc}
use unc_coin.Value.{Value}
use unc_coin.Externals.{Externals}
use unc_coin.Uvm.Opcode.{BinOp, Opcode, binary_gas, gas_cost}
use unc_coin.Uvm.Machine.{Result, ok, err, fault, reverted, uncaught, Vm, ◌>>=◌, pure, raise}
use unc_coin.Uvm.Context.{Context, no_operands, has_long_text}
use unc_coin.Uvm.Program.{Instruction, parse_program}
use unc_coin.Uvm.Step.{exec_revert, revert_now, execute_instruction}
use unc_coin.Uvm.Run
use unc_coin.Uvm.Run.{
  UvmResult, Ending, returned, raised, Next, done, escapes, goto, is_halt, after_instruction,
  run_opcode, run_instruction, at_instruction, Next-cases, run, result, success_result,
  failed_result, reverted_result, failure_before, execute_instructions, execute_parsed,
  execute_program, natural,
}

-- An opcode that costs nothing ends the run.
data Cost (op : Opcode) : Type 0 where
  paid : 0 < gas_cost op → Cost op
  halts : is_halt op ≡ true → Cost op
  reverts : op ≡ Opcode.revert → Cost op

binary_gas_pos : (o : BinOp) → 0 < binary_gas o
unfolding binary_gas
binary_gas_pos BinOp.add = omega arith
binary_gas_pos _ = omega arith

Cost-of : (op : Opcode) → Cost op
unfolding gas_cost is_halt
Cost-of Opcode.halt = halts refl
Cost-of Opcode.revert = reverts refl
Cost-of (Opcode.binary o) = paid (binary_gas_pos o)
Cost-of _ = paid (omega arith)

abbrev Stops : {A : Type 0} → Result A × Vm → Type 0
Stops (ok a, s) = ⊥
Stops (err e, s) = Unit

exec_revert-Stops : (vs : List Value) (s : Vm) → Stops (exec_revert vs s)
unfolding exec_revert ◌>>=◌ no_operands revert_now pure raise
exec_revert-Stops [] s = tt
exec_revert-Stops (v ∷ vs) s = tt

-- What a round leaves to the next one.
abbrev Decreases : ℕ → Next → Type 0
Decreases gas (done r) = Unit
Decreases gas escapes = Unit
Decreases gas (goto pc gas' s) = gas' < gas

-- The gas that a result reports is the gas that the run was given.
abbrev Accounts : ℕ → Next → Type 0
Accounts gas_limit (done r) = r.gas_used + r.gas_remaining ≡ gas_limit
Accounts gas_limit escapes = Unit
Accounts gas_limit (goto pc gas' s) = gas' ≤ gas_limit

-- The gas of a result adds up to the limit.
abbrev pub AddsUp : ℤ → Ending → Type 0
AddsUp limit (returned r) = r.gas_used + r.gas_remaining ≡ natural limit
AddsUp limit raised = Unit

-- The run did not run out of fuel.
abbrev pub Ends : ℤ → Option Ending → Type 0
Ends limit o = (e : Ending) × (o ≡ some e) × AddsUp limit e

module _ (gas_limit gas pc : ℕ) (op : Opcode) where
  after_paid :
      (before : ℕ) (r : Result (Option ℕ) × Vm)
      → gas < before
      → Decreases before (after_instruction gas_limit gas pc op r)
  unfolding after_instruction
  after_paid before (ok jumped, s) h = elim (Bool-cases (is_halt op)) [
    | inl e ↦ rw e tt
    | inr e ↦ rw e h
  ]
  after_paid before (err (fault e), s) h = tt
  after_paid before (err reverted, s) h = tt
  after_paid before (err uncaught, s) h = tt

  after_halt :
      (before : ℕ) (r : Result (Option ℕ) × Vm)
      → is_halt op ≡ true
      → Decreases before (after_instruction gas_limit gas pc op r)
  unfolding after_instruction
  after_halt before (ok jumped, s) h = rw h tt
  after_halt before (err (fault e), s) h = tt
  after_halt before (err reverted, s) h = tt
  after_halt before (err uncaught, s) h = tt

  after_stop :
      (before : ℕ) (r : Result (Option ℕ) × Vm)
      → Stops r
      → Decreases before (after_instruction gas_limit gas pc op r)
  unfolding after_instruction
  after_stop before (ok jumped, s) h = absurd h
  after_stop before (err (fault e), s) h = tt
  after_stop before (err reverted, s) h = tt
  after_stop before (err uncaught, s) h = tt

  after_instruction-Accounts :
      (r : Result (Option ℕ) × Vm)
      → gas ≤ gas_limit
      → Accounts gas_limit (after_instruction gas_limit gas pc op r)
  unfolding after_instruction success_result failed_result reverted_result result
  after_instruction-Accounts (ok jumped, s) h = elim (Bool-cases (is_halt op)) [
    | inl e ↦ rw e (omega arith)
    | inr e ↦ rw e h
  ]
  after_instruction-Accounts (err (fault e), s) h = omega arith
  after_instruction-Accounts (err reverted, s) h = omega arith
  after_instruction-Accounts (err uncaught, s) h = tt

module _ (X : Externals) (ctx : Context) (gas_limit : ℕ) where
  run_opcode-Decreases :
      (n : ℕ) (op : Opcode) (vs : List Value) (pc gas : ℕ) (s : Vm)
      → Decreases gas (run_opcode X ctx gas_limit n op vs pc gas s)
  unfolding run_opcode execute_instruction
  run_opcode-Decreases n op vs pc gas s =
      let r = execute_instruction X ctx n op vs s in
      elim (Bool-cases (ltb gas (gas_cost op))) [
        | inl short ↦ rw short tt
        | inr covered ↦ rw covered (elim (Cost-of op) [
          | paid h ↦ after_paid gas_limit (gas - gas_cost op) pc op gas r (ground arith)
          | halts h ↦ after_halt gas_limit (gas - gas_cost op) pc op gas r h
          | reverts e ↦
              after_stop gas_limit (gas - gas_cost op) pc op gas r (rw e (exec_revert-Stops vs s))
        ])
      ]

  run_opcode-Accounts :
      (n : ℕ) (op : Opcode) (vs : List Value) (pc gas : ℕ) (s : Vm)
      → gas ≤ gas_limit
      → Accounts gas_limit (run_opcode X ctx gas_limit n op vs pc gas s)
  unfolding run_opcode failure_before result
  run_opcode-Accounts n op vs pc gas s h = elim (Bool-cases (ltb gas (gas_cost op))) [
    | inl short ↦ rw short (omega arith)
    | inr covered ↦ rw covered (
        after_instruction-Accounts gas_limit (gas - gas_cost op) pc op
          (execute_instruction X ctx n op vs s) (omega arith))
  ]

  at_instruction-Decreases :
      (n : ℕ) (i : Option Instruction) (pc gas : ℕ) (s : Vm)
      → Decreases gas (at_instruction X ctx gas_limit n i pc gas s)
  unfolding at_instruction run_instruction
  at_instruction-Decreases n none pc gas s = tt
  at_instruction-Decreases n (some i) pc gas s = run_priced i.opcode
    where
      run_priced :
          (op : Option Opcode)
          → Decreases gas (run_instruction X ctx gas_limit n op i.operands pc gas s)
      run_priced none = tt
      run_priced (some op) = run_opcode-Decreases n op i.operands pc gas s

  at_instruction-Accounts :
      (n : ℕ) (i : Option Instruction) (pc gas : ℕ) (s : Vm)
      → gas ≤ gas_limit
      → Accounts gas_limit (at_instruction X ctx gas_limit n i pc gas s)
  unfolding at_instruction run_instruction success_result failure_before result
  at_instruction-Accounts n none pc gas s h = omega arith
  at_instruction-Accounts n (some i) pc gas s h = run_priced i.opcode
    where
      run_priced :
          (op : Option Opcode)
          → Accounts gas_limit (run_instruction X ctx gas_limit n op i.operands pc gas s)
      run_priced none = omega arith
      run_priced (some op) = run_opcode-Accounts n op i.operands pc gas s h

  -- With more rounds than gas the loop comes to an end.
  pub run_total :
      (is : List Instruction) (fuel pc gas : ℕ) (s : Vm)
      → gas < fuel
      → gas ≤ gas_limit
      → Ends (pos gas_limit) (run X ctx gas_limit is fuel pc gas s)
  unfolding run Run.next
  run_total is zero pc gas s h within = absurd (omega arith)
  run_total is (suc fuel) pc gas s h within =
      let i = get_elem? is pc in
      let less = at_instruction-Decreases (length is) i pc gas s in
      let adds = at_instruction-Accounts (length is) i pc gas s within in
      elim (Next-cases (Run.next X ctx gas_limit is pc gas s)) [
        | inl (r, e) ↦ (returned r, rw (e, run) refl, rw e at adds)
        | inr (inl e) ↦ (raised, rw (e, run) refl, tt)
        | inr (inr (pc', gas', s', e)) ↦
            let less' : gas' < gas = rw e at less in
            rw (e, run) (run_total is fuel pc' gas' s' (omega arith) (omega arith))
      ]

module _ (X : Externals) (ctx : Context) where
  execute_instructions_total :
      (is : List Instruction) (limit : ℤ) → Ends limit (execute_instructions X ctx is limit)
  unfolding execute_instructions result
  execute_instructions_total is (pos n) =
      run_total X ctx n is (suc n) 0 n _ (omega arith) (omega arith)
  execute_instructions_total is (negsuc n) = (_, refl, omega arith)

  execute_parsed_total :
      (o : Option (List Instruction)) → Ends ctx.gas_limit (execute_parsed X ctx o)
  unfolding execute_parsed result
  execute_parsed_total none = elim (Bool-cases (has_long_text ctx.gas_limit)) [
    | inl long ↦ rw long (raised, refl, tt)
    | inr short ↦ rw short (_, refl, omega arith)
  ]
  execute_parsed_total (some is) = execute_instructions_total is ctx.gas_limit

-- Every run comes to an end, on any program and any gas limit: it returns a result whose gas used
-- and gas left add up to that limit, which counts as 0 if it is negative, or a `ValueError` leaves
-- it.
pub execute_program_total :
    (X : Externals) (program : Value) (ctx : Context)
    → Ends ctx.gas_limit (execute_program X program ctx)
unfolding execute_program
execute_program_total X program ctx = execute_parsed_total X ctx (parse_program X program)
