-- ===== src/Assembler/Runs.antt =====
-- An assembled program on the machine of core/uvm.py.
use unc_coin.Prelude.{
  ℕ, zero, suc, ◌-◌, String, ◌≡◌, refl, Bool, true, Option, none, some, List, ltb, length,
  get_elem?, Bool-cases, Option-cases, inl, inr,
}
use unc_coin.Prelude.Int.{ℤ, pos, negsuc}
use unc_coin.Externals.{Externals}
use unc_coin.Uvm.Opcode.{Opcode, gas_cost}
use unc_coin.Uvm.Machine.{
  Result, ok, err, fault, reverted, uncaught, Stop, Vm, out_of_gas, negative_gas_limit,
}
use unc_coin.Uvm.Context.{Context}
use unc_coin.Uvm.Program.{Instruction}
use unc_coin.Uvm.Step.{execute_instruction}
use unc_coin.Uvm.Run.{
  UvmResult, Ending, returned, raised, Next, done, escapes, goto, Next-cases, after_instruction,
  run_opcode, run_instruction, at_instruction, run, execute_instructions, execute_parsed,
  execute_program, failed_result, reverted_result, success_result, failure_before, is_halt, refused,
}
use unc_coin.Uvm.Run
use unc_coin.Uvm.Gas.{execute_program_total}
use unc_coin.Assembler.Base.{good, AssemblyResult}
use unc_coin.Assembler.Source.{program_value, assemble_source}
use unc_coin.Assembler.Typed.{assemble_source-IsAssembled}
use unc_coin.Assembler.Reading.{parse_program_rows}
use unc_coin.Assembler.Clean.{stop_of_run, result_of_run}
use unc_coin.Assembler.Fitting.{Clean-execute_instruction}
use unc_coin.Assembler.Rows.{IsFit, AreFit, program-AreFit, get_elem?-IsFit}

-- A result that reports no fault in the shape of the program.
abbrev pub error_of_run : Option Stop → Bool
error_of_run none = true
error_of_run (some e) = stop_of_run e

done_injective : {r q : UvmResult} → done r ≡ done q → r ≡ q
done_injective e = cc

module _ (X : Externals) (ctx : Context) (gas_limit n : ℕ) where
  after_instruction_clean :
      (gas pc : ℕ) (op : Opcode) (a : Result (Option ℕ) × Vm) {r : UvmResult}
      → result_of_run a.0 ≡ true
      → after_instruction gas_limit gas pc op a ≡ done r
      → error_of_run r.error ≡ true
  unfolding after_instruction
  after_instruction_clean gas pc op (ok jumped, s) {r} h e = elim (Bool-cases (is_halt op)) [
    | inl halts ↦
        let e' = rw halts at e in
        let same : success_result gas_limit gas s pc ≡ r = done_injective e' in rw⁻¹ same refl
    | inr goes ↦ let e' = rw goes at e in cc
  ]
  after_instruction_clean gas pc op (err (fault f), s) {r} h e =
      let same : failed_result gas_limit gas f s pc ≡ r = done_injective e in rw⁻¹ same h
  after_instruction_clean gas pc op (err reverted, s) {r} h e =
      let same : reverted_result gas_limit gas s pc ≡ r = done_injective e in rw⁻¹ same refl
  after_instruction_clean gas pc op (err uncaught, s) h e = cc

  run_instruction_clean :
      (i : Instruction) (pc gas : ℕ) (s : Vm) {r : UvmResult}
      → IsFit i
      → run_instruction X ctx gas_limit n i.opcode i.operands pc gas s ≡ done r
      → error_of_run r.error ≡ true
  unfolding run_instruction run_opcode
  run_instruction_clean i pc gas s {r} fit e =
      let op = fit.opcode in
      let e1 = rw fit.known at e in
      elim (Bool-cases (ltb gas (gas_cost op))) [
        | inl short ↦
            let e2 = rw short at e1 in
            let same : failure_before gas_limit 0 true out_of_gas s pc ≡ r = done_injective e2 in
            rw⁻¹ same refl
        | inr enough ↦
            let e2 = rw enough at e1 in
            after_instruction_clean (gas - gas_cost op) pc op
              (execute_instruction X ctx n op i.operands s)
              ((Clean-execute_instruction X ctx n op i.operands fit.fits).at s) e2
      ]

module _ (X : Externals) (ctx : Context) (gas_limit : ℕ) (is : List Instruction)
    (fit : AreFit is) where
  next_clean :
      (pc gas : ℕ) (s : Vm) {r : UvmResult}
      → Run.next X ctx gas_limit is pc gas s ≡ done r
      → error_of_run r.error ≡ true
  unfolding Run.next at_instruction
  next_clean pc gas s {r} e = elim (Option-cases (get_elem? is pc)) [
    | inl over ↦
        let e' = rw over at e in
        let same : success_result gas_limit gas s pc ≡ r = done_injective e' in rw⁻¹ same refl
    | inr (i, found) ↦
        let e' = rw found at e in
        run_instruction_clean X ctx gas_limit (length is) i pc gas s (get_elem?-IsFit pc fit found)
          e'
  ]

  run_clean :
      (fuel pc gas : ℕ) (s : Vm) {r : UvmResult}
      → run X ctx gas_limit is fuel pc gas s ≡ some (returned r)
      → error_of_run r.error ≡ true
  unfolding run
  run_clean zero pc gas s e = cc
  run_clean (suc fuel) pc gas s {r} e = elim (Next-cases (Run.next X ctx gas_limit is pc gas s)) [
    | inl (q, stops) ↦
        let e' = rw (stops, run) at e in
        let same : q ≡ r = cc in rw⁻¹ same (next_clean pc gas s stops)
    | inr (inl e') ↦ let e'' = rw (e', run) at e in cc
    | inr (inr (pc', gas', s', goes)) ↦
        let e' = rw (goes, run) at e in run_clean fuel pc' gas' s' e'
  ]

execute_instructions_clean :
    (X : Externals) (ctx : Context) (is : List Instruction) (limit : ℤ) {r : UvmResult}
    → AreFit is
    → execute_instructions X ctx is limit ≡ some (returned r)
    → error_of_run r.error ≡ true
unfolding execute_instructions
execute_instructions_clean X ctx is (pos gas) fit e = run_clean X ctx gas is fit (suc gas) 0 gas _ e
execute_instructions_clean X ctx is (negsuc n) {r} fit e =
    let same : refused negative_gas_limit 0 ctx.storage ≡ r = cc in rw⁻¹ same refl

-- An end of a run that reports no fault in the shape of the program.
abbrev pub ending_of_run : Ending → Bool
ending_of_run (returned r) = error_of_run r.error
ending_of_run raised = true

ending_clean :
    (X : Externals) (ctx : Context) (is : List Instruction) (e : Ending)
    → AreFit is
    → execute_parsed X ctx (some is) ≡ some e
    → ending_of_run e ≡ true
unfolding execute_parsed
ending_clean X ctx is (returned r) fit ran =
    execute_instructions_clean X ctx is ctx.gas_limit fit ran
ending_clean X ctx is raised fit ran = refl

-- Every run of an assembled program comes to an end, whatever the context, and a result that it
-- returns reports no unreadable program, no unknown opcode, no wrong number of operands and no
-- operand that should be an integer and is none; it returns one unless a `ValueError` leaves it.
pub assemble_source-runs :
    (X : Externals) (validate : Bool) (source : String) (ctx : Context) {r : AssemblyResult}
    → assemble_source X validate source ≡ good r
    → (e : Ending) × (execute_program X (program_value r.program) ctx ≡ some e)
      × (ending_of_run e ≡ true)
unfolding execute_program
assemble_source-runs X validate source ctx {r} h =
    let (e, found, adds) = execute_program_total X (program_value r.program) ctx in
    let typed = (assemble_source-IsAssembled X validate source h).typed in
    let run' = rw (parse_program_rows X r.program) at found in
    (e, found, ending_clean X ctx _ e (program-AreFit typed) run')
