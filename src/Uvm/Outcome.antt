-- ===== src/Uvm/Outcome.antt =====
-- The money side of `execute_uvm_program`: what a successful result may report.
use unc_coin.Prelude.{
  suc, String, ◌≡◌, refl, true, false, Option, none, some, List, [], ◌∷◌, arith, if◌then◌else◌,
  str_eq, Bool-cases, inl, inr, ap,
}
use unc_coin.Prelude.Int.{ℤ, pos, negsuc, ◌+ℤ◌, ◌≤ℤ◌, int_laws, parts_of_eq}
use unc_coin.Value.{Value}
use unc_coin.Dict.{Dict}
use unc_coin.Dict.Sum.{get0, total, total_at}
use unc_coin.Externals.{Externals}
use unc_coin.Uvm.Machine.{Ledger}
use unc_coin.Uvm.Context.{Context, has_long_text}
use unc_coin.Uvm.Program.{Instruction, parse_program}
use unc_coin.Uvm.Step.{may_spend}
use unc_coin.Uvm.Run.{
  UvmResult, returned, is_zero, nonzero, result, execute_instructions, execute_parsed,
  execute_program,
}
use unc_coin.Uvm.Effects.{Reports, run-Reports}
use unc_coin.Uvm.Conserve.{MoneySteps-IsSolvent, MoneySteps-Conserves, MoneySteps_unauthorized}

is_zero→eq : (v : ℤ) → is_zero v ≡ true → v ≡ pos 0
is_zero→eq (pos n) h = ground arith
is_zero→eq (negsuc n) h = cc

total-nonzero : (d : Dict ℤ) → total (nonzero d) ≡ total d
unfolding total nonzero
total-nonzero [] = refl
total-nonzero ((k, v) ∷ d) = elim (Bool-cases (is_zero v)) [
  | inl h ↦ rw (h, is_zero→eq v h) (omega (int_laws, parts_of_eq (total-nonzero d)))
  | inr h ↦ rw h (ap (λ t. v +ℤ t) (total-nonzero d))
]

no_share : (k a : String) (t u : ℤ) → t ≡ u → t ≡ (if str_eq k a then pos 0 else pos 0) +ℤ u
no_share k a t u e = elim (Bool-cases (str_eq k a)) [
  | inl h ↦ rw (h, e) (omega int_laws)
  | inr h ↦ rw (h, e) (omega int_laws)
]

total_at-nonzero : (a : String) (d : Dict ℤ) → total_at a (nonzero d) ≡ total_at a d
unfolding total_at nonzero
total_at-nonzero a [] = refl
total_at-nonzero a ((k, v) ∷ d) = elim (Bool-cases (is_zero v)) [
  | inl h ↦ rw (h, is_zero→eq v h) (no_share k a _ _ (total_at-nonzero a d))
  | inr h ↦ rw h (ap (λ t. (if str_eq k a then v else pos 0) +ℤ t) (total_at-nonzero a d))
]

-- What a result says of the accounts.
pub record IsFair (ctx : Context) (r : UvmResult) : Type 0 where
  pub cancels : total r.balance_changes ≡ pos 0
  pub covered :
      ((a : String) → pos 0 ≤ℤ get0 a ctx.balances)
      → (a : String) → pos 0 ≤ℤ get0 a ctx.balances +ℤ total_at a r.balance_changes
  pub unforced :
      (a : String)
      → ((q : String) → may_spend ctx a q ≡ false)
      → pos 0 ≤ℤ total_at a r.balance_changes

balance_after : (b c x : ℤ) → b +ℤ pos 0 ≡ c +ℤ x → pos 0 ≤ℤ b → pos 0 ≤ℤ c +ℤ x
balance_after b c x e h = omega (int_laws, parts_of_eq e)

abbrev start : Context → Ledger
start ctx = record { balances = ctx.balances; balance_changes = []; transfers = [] }

Reports-IsFair : (ctx : Context) {r : UvmResult} → Reports ctx (start ctx) r → IsFair ctx r
unfolding total total_at
Reports-IsFair ctx h =
    let kept = MoneySteps-Conserves ctx h.steps in
    let f = h.final in
    record {
      cancels = rw (h.changes, total-nonzero) kept.sum;
      covered = λ solvent a.
          rw (h.changes, total_at-nonzero)
            (balance_after (get0 a f.balances) (get0 a ctx.balances) (total_at a f.balance_changes)
              (kept.accounts a) (MoneySteps-IsSolvent ctx h.steps solvent a));
      unforced = λ a denied.
          rw (h.changes, total_at-nonzero) (MoneySteps_unauthorized ctx a denied h.steps);
    }

module _ (X : Externals) (ctx : Context) where
  instructions-IsFair :
      (is : List Instruction) (limit : ℤ) {r : UvmResult}
      → execute_instructions X ctx is limit ≡ some (returned r)
      → r.success ≡ true
      → IsFair ctx r
  unfolding execute_instructions result
  instructions-IsFair is (pos n) h won =
      Reports-IsFair ctx (run-Reports ctx n X is (suc n) 0 n _ h won)
  instructions-IsFair is (negsuc n) h won = ground (arith, h, won)

  parsed-IsFair :
      (o : Option (List Instruction)) {r : UvmResult}
      → execute_parsed X ctx o ≡ some (returned r)
      → r.success ≡ true
      → IsFair ctx r
  unfolding execute_parsed result
  parsed-IsFair none {r} h won = elim (Bool-cases (has_long_text ctx.gas_limit)) [
    | inl long ↦ let h' = rw long at h in cc
    | inr short ↦ let h' = rw short at h in ground (arith, h', won)
  ]
  parsed-IsFair (some is) h won = instructions-IsFair is ctx.gas_limit h won

  -- A program that succeeds has only moved money: the changes that it reports cancel; if no
  -- account that it was given is overdrawn, none is after them; and an account that is neither the
  -- sender nor the contract and has authorized no request has not lost anything.
  pub execute_program-IsFair :
      (program : Value) {r : UvmResult}
      → execute_program X program ctx ≡ some (returned r)
      → r.success ≡ true
      → IsFair ctx r
  unfolding execute_program
  execute_program-IsFair program h won = parsed-IsFair (parse_program X program) h won
