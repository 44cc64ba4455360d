-- ===== src/Uvm/Caught/Runs.antt =====
-- Runs of `execute_uvm_program` that return a result.
use unc_coin.Prelude.{
  ℕ, zero, suc, ◌+◌, ◌-◌, ◌≡◌, refl, Bool, true, false, Option, none, some, List, [], ◌∷◌, ltb,
  length, get_elem?, Bool-cases, Option-cases, inl, inr,
}
use unc_coin.Prelude.Int.{ℤ, pos, negsuc}
use unc_coin.Value.{Value}
use unc_coin.Externals.{Externals}
use unc_coin.Uvm.Opcode.{Opcode, gas_cost}
use unc_coin.Uvm.Machine.{
  Result, ok, err, fault, reverted, uncaught, Vm, negative_gas_limit, invalid_program,
}
use unc_coin.Uvm.Context.{Context, has_long_text}
use unc_coin.Uvm.Program.{Instruction, parse_program}
use unc_coin.Uvm.Step.{execute_instruction}
use unc_coin.Uvm.Run
use unc_coin.Uvm.Run.{
  UvmResult, Ending, returned, raised, Next, done, escapes, goto, is_halt, after_instruction,
  run_opcode, run_instruction, at_instruction, Next-cases, run, execute_instructions,
  execute_parsed, execute_program, natural, refused,
}
use unc_coin.Uvm.Gas.{AddsUp, execute_program_total}
use unc_coin.Uvm.Caught.{is_caught}
use unc_coin.Uvm.Caught.Steps.{HasNumbers, HasShortTarget, Caught-execute_instruction}

abbrev IsShortAt : Option Opcode → List Value → Type 0
IsShortAt none vs = Unit
IsShortAt (some op) vs = HasShortTarget op vs

-- The targets of the jumps of a program have at most 4300 digits.
abbrev pub HasShortTargets : List Instruction → Type 0
HasShortTargets [] = Unit
HasShortTargets (i ∷ is) = IsShortAt i.opcode i.operands × HasShortTargets is

-- A program that cannot be read has no jumps.
abbrev pub ReadsShort : Option (List Instruction) → Type 0
ReadsShort none = Unit
ReadsShort (some is) = HasShortTargets is

get_elem?-short :
    (is : List Instruction) (pc : ℕ) {i : Instruction}
    → HasShortTargets is
    → get_elem? is pc ≡ some i
    → IsShortAt i.opcode i.operands
get_elem?-short [] pc h e = cc
get_elem?-short (j ∷ is) zero {i} h e = let same : j ≡ i = cc in rw⁻¹ same h.0
get_elem?-short (j ∷ is) (suc pc) h e = get_elem?-short is pc h.1 e

abbrev stays : Next → Bool
stays (done r) = true
stays escapes = false
stays (goto pc gas s) = true

abbrev is_returned : Ending → Bool
is_returned (returned r) = true
is_returned raised = false

after_instruction-stays :
    (gas_limit gas pc : ℕ) (op : Opcode) (a : Result (Option ℕ) × Vm)
    → is_caught a.0 ≡ true
    → stays (after_instruction gas_limit gas pc op a) ≡ true
unfolding after_instruction
after_instruction-stays gas_limit gas pc op (ok jumped, s) h = elim (Bool-cases (is_halt op)) [
  | inl halts ↦ rw halts refl
  | inr goes ↦ rw goes refl
]
after_instruction-stays gas_limit gas pc op (err (fault e), s) h = refl
after_instruction-stays gas_limit gas pc op (err reverted, s) h = refl
after_instruction-stays gas_limit gas pc op (err uncaught, s) h = cc

module _ (X : Externals) (ctx : Context) (numbers : HasNumbers ctx) (gas_limit : ℕ) where
  run_opcode-stays :
      (n : ℕ) (op : Opcode) (vs : List Value) (pc gas : ℕ) (s : Vm)
      → HasShortTarget op vs
      → stays (run_opcode X ctx gas_limit n op vs pc gas s) ≡ true
  unfolding run_opcode
  run_opcode-stays n op vs pc gas s short = elim (Bool-cases (ltb gas (gas_cost op))) [
    | inl poor ↦ rw poor refl
    | inr enough ↦ rw enough (
        after_instruction-stays gas_limit (gas - gas_cost op) pc op
          (execute_instruction X ctx n op vs s)
          ((Caught-execute_instruction X ctx n op vs numbers short).at s))
  ]

  run_instruction-stays :
      (n : ℕ) (op : Option Opcode) (vs : List Value) (pc gas : ℕ) (s : Vm)
      → IsShortAt op vs
      → stays (run_instruction X ctx gas_limit n op vs pc gas s) ≡ true
  unfolding run_instruction
  run_instruction-stays n none vs pc gas s short = refl
  run_instruction-stays n (some op) vs pc gas s short = run_opcode-stays n op vs pc gas s short

  next-stays :
      (is : List Instruction) (pc gas : ℕ) (s : Vm)
      → HasShortTargets is
      → stays (Run.next X ctx gas_limit is pc gas s) ≡ true
  unfolding Run.next at_instruction
  next-stays is pc gas s short = elim (Option-cases (get_elem? is pc)) [
    | inl over ↦ rw over refl
    | inr (i, found) ↦ rw found (
        run_instruction-stays (length is) i.opcode i.operands pc gas s
          (get_elem?-short is pc short found))
  ]

  run_returns :
      (is : List Instruction) (fuel pc gas : ℕ) (s : Vm) {e : Ending}
      → HasShortTargets is
      → run X ctx gas_limit is fuel pc gas s ≡ some e
      → is_returned e ≡ true
  unfolding run
  run_returns is zero pc gas s short h = cc
  run_returns is (suc fuel) pc gas s {e} short h =
      let stay = next-stays is pc gas s short in
      elim (Next-cases (Run.next X ctx gas_limit is pc gas s)) [
        | inl (r, stops) ↦
            let h' = rw (stops, run) at h in let same : returned r ≡ e = cc in rw⁻¹ same refl
        | inr (inl out) ↦ let never = rw out at stay in cc
        | inr (inr (pc', gas', s', goes)) ↦
            let h' = rw (goes, run) at h in run_returns is fuel pc' gas' s' short h'
      ]

kept_result :
    {o : Option Ending} (limit : ℤ) (e : Ending)
    → o ≡ some e
    → AddsUp limit e
    → is_returned e ≡ true
    → (r : UvmResult) × (o ≡ some (returned r)) × (r.gas_used + r.gas_remaining ≡ natural limit)
kept_result limit (returned r) ends adds h = (r, ends, adds)
kept_result limit raised ends adds h = cc

module _ (X : Externals) (ctx : Context) (numbers : HasNumbers ctx) where
  instructions_return :
      (is : List Instruction) (limit : ℤ) {e : Ending}
      → HasShortTargets is
      → execute_instructions X ctx is limit ≡ some e
      → is_returned e ≡ true
  unfolding execute_instructions
  instructions_return is (pos n) short h = run_returns X ctx numbers n is (suc n) 0 n _ short h
  instructions_return is (negsuc n) {e} short h =
      let same : returned (refused negative_gas_limit 0 ctx.storage) ≡ e = cc in rw⁻¹ same refl

  parsed_returns :
      (o : Option (List Instruction)) {e : Ending}
      → has_long_text ctx.gas_limit ≡ false
      → ReadsShort o
      → execute_parsed X ctx o ≡ some e
      → is_returned e ≡ true
  unfolding execute_parsed
  parsed_returns none {e} limit short h =
      let h' = rw limit at h in
      let same : returned (refused invalid_program (natural ctx.gas_limit) ctx.storage) ≡ e = cc in
      rw⁻¹ same refl
  parsed_returns (some is) limit short h = instructions_return is ctx.gas_limit short h

  -- On commitments that are hexadecimal numbers, every run of a program whose jump targets have at
  -- most 4300 digits returns a result, on any gas limit with at most 4300 digits, and the gas used
  -- and the gas left add up to that limit, which counts as 0 if it is negative.
  pub execute_program_returns :
      (program : Value)
      → has_long_text ctx.gas_limit ≡ false
      → ReadsShort (parse_program X program)
      → (r : UvmResult) × (execute_program X program ctx ≡ some (returned r))
        × (r.gas_used + r.gas_remaining ≡ natural ctx.gas_limit)
  unfolding execute_program
  execute_program_returns program limit short =
      let (e, ends, adds) = execute_program_total X program ctx in
      let back = parsed_returns (parse_program X program) limit short ends in
      kept_result ctx.gas_limit e ends adds back
