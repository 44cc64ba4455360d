-- ===== src/Uvm/Effects.antt =====
-- What a run does to money: its result reports a sequence of transfers that passed their tests.
use unc_coin.Prelude.{
  ℕ, zero, suc, ◌-◌, ◌≡◌, inl, inr, refl, sym, subst, true, Option, none, some, List, arith, ltb,
  length, get_elem?, Bool-cases,
}
use unc_coin.Value.{Value}
use unc_coin.Externals.{Externals}
use unc_coin.Uvm.Opcode.{Opcode, gas_cost}
use unc_coin.Uvm.Machine.{Result, ok, err, fault, reverted, uncaught, Vm, Ledger}
use unc_coin.Uvm.Context.{Context}
use unc_coin.Uvm.Program.{Instruction}
use unc_coin.Uvm.Step.{execute_instruction}
use unc_coin.Uvm.Money.{MoneySteps, here, next, OneMove, execute_instruction-OneMove}
use unc_coin.Uvm.Run
use unc_coin.Uvm.Run.{
  UvmResult, Ending, returned, raised, nonzero, Next, done, escapes, goto, is_halt,
  after_instruction, run_opcode, run_instruction, at_instruction, Next-cases, run, success_result,
  failed_result, reverted_result, failure_before,
}

-- The final ledger of a run that succeeds, with the changes and transfers that it reports.
pub record Reports (ctx : Context) (l : Ledger) (r : UvmResult) : Type 0 where
  pub final : Ledger
  pub steps : MoneySteps ctx l final
  pub changes : r.balance_changes ≡ nonzero final.balance_changes
  pub transfers : r.transfers ≡ final.transfers

abbrev NextReports : Context → Ledger → Next → Type 0
NextReports ctx l (done r) = r.success ≡ true → Reports ctx l r
NextReports ctx l escapes = Unit
NextReports ctx l (goto pc gas s) = MoneySteps ctx l s.ledger

steps_of_move : (ctx : Context) {l l' : Ledger} → OneMove ctx l l' → MoneySteps ctx l l'
steps_of_move ctx {l} (inl e) = subst (MoneySteps ctx l) (sym e) here
steps_of_move ctx (inr m) = next here m

module _ (ctx : Context) (gas_limit : ℕ) where
  success_result-Reports :
      (gas : ℕ) (s : Vm) (pc : ℕ) {l : Ledger}
      → MoneySteps ctx l s.ledger
      → Reports ctx l (success_result gas_limit gas s pc)
  unfolding success_result
  success_result-Reports gas s pc steps = record {
    final = s.ledger;
    steps = steps;
    changes = refl;
    transfers = refl;
  }

  after_instruction-NextReports :
      (gas pc : ℕ) (op : Opcode) (r : Result (Option ℕ)) (s : Vm) {l : Ledger}
      → MoneySteps ctx l s.ledger
      → NextReports ctx l (after_instruction gas_limit gas pc op (r, s))
  unfolding after_instruction
  after_instruction-NextReports gas pc op (ok jumped) s steps = elim (Bool-cases (is_halt op)) [
    | inl h ↦ rw h (λ _. success_result-Reports gas s pc steps)
    | inr h ↦ rw h steps
  ]
  after_instruction-NextReports gas pc op (err (fault e)) s steps = λ h. cc
  after_instruction-NextReports gas pc op (err reverted) s steps = λ h. cc
  after_instruction-NextReports gas pc op (err uncaught) s steps = tt

  module _ (X : Externals) where
    run_opcode-NextReports :
        (n : ℕ) (op : Opcode) (vs : List Value) (pc gas : ℕ) (s : Vm)
        → NextReports ctx s.ledger (run_opcode X ctx gas_limit n op vs pc gas s)
    unfolding run_opcode
    run_opcode-NextReports n op vs pc gas s =
        let (r, s') = execute_instruction X ctx n op vs s in
        elim (Bool-cases (ltb gas (gas_cost op))) [
          | inl h ↦ rw h (λ e. cc)
          | inr h ↦ rw h (
              after_instruction-NextReports (gas - gas_cost op) pc op r s'
                (steps_of_move ctx (execute_instruction-OneMove X ctx n op vs s)))
        ]

    run_instruction-NextReports :
        (n : ℕ) (op : Option Opcode) (vs : List Value) (pc gas : ℕ) (s : Vm)
        → NextReports ctx s.ledger (run_instruction X ctx gas_limit n op vs pc gas s)
    unfolding run_instruction
    run_instruction-NextReports n none vs pc gas s = λ h. cc
    run_instruction-NextReports n (some op) vs pc gas s = run_opcode-NextReports n op vs pc gas s

    at_instruction-NextReports :
        (n : ℕ) (i : Option Instruction) (pc gas : ℕ) (s : Vm)
        → NextReports ctx s.ledger (at_instruction X ctx gas_limit n i pc gas s)
    unfolding at_instruction
    at_instruction-NextReports n none pc gas s = λ _. success_result-Reports gas s pc here
    at_instruction-NextReports n (some i) pc gas s =
        run_instruction-NextReports n i.opcode i.operands pc gas s

    next-NextReports :
        (is : List Instruction) (pc gas : ℕ) (s : Vm)
        → NextReports ctx s.ledger (Run.next X ctx gas_limit is pc gas s)
    unfolding Run.next
    next-NextReports is pc gas s = at_instruction-NextReports (length is) (get_elem? is pc) pc gas s

    MoneySteps-trans :
        {l m n : Ledger} → MoneySteps ctx l m → MoneySteps ctx m n → MoneySteps ctx l n
    MoneySteps-trans p here = p
    MoneySteps-trans p (next q st) = next (MoneySteps-trans p q) st

    Reports-after :
        {l m : Ledger} {r : UvmResult} → MoneySteps ctx l m → Reports ctx m r → Reports ctx l r
    Reports-after p h = record {
      final = h.final;
      steps = MoneySteps-trans p h.steps;
      changes = h.changes;
      transfers = h.transfers;
    }

    -- A run that succeeds reports the money moves that it made, and each passed its tests.
    pub run-Reports :
        (is : List Instruction) (fuel pc gas : ℕ) (s : Vm) {r : UvmResult}
        → run X ctx gas_limit is fuel pc gas s ≡ some (returned r)
        → r.success ≡ true
        → Reports ctx s.ledger r
    unfolding run
    run-Reports is zero pc gas s h won = cc
    run-Reports is (suc fuel) pc gas s {r} h won =
        let reports = next-NextReports is pc gas s in
        elim (Next-cases (Run.next X ctx gas_limit is pc gas s)) [
          | inl (q, e) ↦ ground (arith, rw e at reports)
          | inr (inl e) ↦ let h' = rw (e, run) at h in cc
          | inr (inr (pc', gas', s', e)) ↦
              Reports-after (rw e at reports)
                (run-Reports is fuel pc' gas' s' (rw (e, run) at h) won)
        ]
