-- ===== src/Chain/Call.antt =====
-- What a call of a contract does to the money.
use unc_coin.Prelude.{
  ◌+◌, Option, none, some, ℕ, ◌*◌, ◌≤◌, String, ◌≡◌, refl, Bool, true, false, ◌&&◌, some, arith,
  str_eq, if◌then◌else◌, Bool-cases, inl, inr,
}
use unc_coin.Prelude.Int.{ℤ, pos, negsuc, ◌+ℤ◌, ◌-ℤ◌, ◌*ℤ◌, ◌≤ℤ◌, ltb_ℤ, int_laws, le_of_ltb}
use unc_coin.Text.{strip}
use unc_coin.Value.{Value, text, get_field}
use unc_coin.Dict.{Dict}
use unc_coin.Dict.Sum.{get0, total, total_at, share}
use unc_coin.Externals.{Externals}
use unc_coin.Uvm.Context.{Context}
use unc_coin.Uvm.Run.{UvmResult, Ending, returned, raised, execute_program, natural}
use unc_coin.Uvm.Outcome.{IsFair, execute_program-IsFair}
use unc_coin.Uvm.Gas.{execute_program_total}
use unc_coin.Transaction.{Transaction}
use unc_coin.Chain.State.{ChainState}
use unc_coin.Chain.Check.{
  Checked, ◌>>=◌, Ensures, passes, rejects, Ensures-bind, Ensures-refuse_if, Ensures-require,
  Ensures-need, Ensures-eq, receiver_empty, amount_negative, contract_address_invalid,
  contract_address_mismatch, gas_limit_invalid, gas_limit_negative, gas_price_invalid,
  gas_price_negative, fee_below_fuel, balance_too_low,
}
use unc_coin.Chain.Execute.{
  Call, check_call, shown_or, int_of_field, value_or, find_target, Target, execution_fee, escrowed,
  call_context, result_of, record_execution, settle, apply_execute, debit, credit, add_changes,
}
use unc_coin.Chain.Balances.{
  IsSolvent, total-debit, total-credit, total-add_changes, get0-debit, get0-credit,
  get0-add_changes, debit-IsSolvent, credit-IsSolvent,
}
use unc_coin.Chain.Spend.{Spends}

-- What `check_call` has made sure of.
record IsCovered (t : Transaction) (s : ChainState) (c : Call) : Type 0 where
  amount : pos 0 ≤ℤ t.amount
  limit : pos 0 ≤ℤ c.gas_limit
  price : pos 0 ≤ℤ c.gas_price
  fuel : (ltb_ℤ (pos 0) c.gas_price && ltb_ℤ t.fee (c.gas_limit *ℤ c.gas_price)) ≡ false
  cost : t.amount +ℤ t.fee ≤ℤ get0 t.sender s.balances

check_call-IsCovered :
    (X : Externals) (t : Transaction) (s : ChainState) → Ensures (IsCovered t s) (check_call X t s)
unfolding check_call
check_call-IsCovered X t s =
    let address = strip (shown_or X t.receiver (get_field "contract_address" t.payload)) in
    let balance = get0 t.sender s.balances in
    Ensures-refuse_if (str_eq t.receiver "") receiver_empty λ _.
      Ensures-refuse_if (ltb_ℤ t.amount (pos 0)) amount_negative λ amount.
        Ensures-refuse_if (str_eq address "") contract_address_invalid λ _.
          Ensures-require (str_eq address t.receiver) contract_address_mismatch λ _.
            Ensures-need (int_of_field (get_field "gas_limit" t.payload)) gas_limit_invalid
              λ limit _. Ensures-refuse_if (ltb_ℤ limit (pos 0)) gas_limit_negative λ low.
                Ensures-need
                  (X.decimal_of (value_or (text "0.0") (get_field "gas_price" t.payload)))
                  gas_price_invalid
                  λ price _. Ensures-refuse_if (ltb_ℤ price (pos 0)) gas_price_negative λ cheap.
                    Ensures-refuse_if (ltb_ℤ (pos 0) price && ltb_ℤ t.fee (limit *ℤ price))
                      fee_below_fuel
                      λ fuel.
                        Ensures-refuse_if (ltb_ℤ balance (t.amount +ℤ t.fee)) balance_too_low
                          λ covered. passes (record {
                            amount = le_of_ltb t.amount (pos 0) amount;
                            limit = le_of_ltb limit (pos 0) low;
                            price = le_of_ltb price (pos 0) cheap;
                            fuel = fuel;
                            cost = le_of_ltb balance (t.amount +ℤ t.fee) covered;
                          })

mul_mono : (m n p : ℕ) → m ≤ n → m * p ≤ n * p
mul_mono m n p h = grind arith

mul_pos : (a b : ℕ) → pos a *ℤ pos b ≡ pos (a * b)
unfolding ◌*ℤ◌
mul_pos a b = ground arith

fee_of_gas :
    (used : ℕ) (limit price fee : ℤ)
    → used ≤ natural limit
    → pos 0 ≤ℤ limit
    → pos 0 ≤ℤ price
    → ltb_ℤ fee (limit *ℤ price) ≡ false
    → (pos 0 ≤ℤ pos used *ℤ price) × (pos used *ℤ price ≤ℤ fee)
fee_of_gas used (negsuc n) price fee gas low cheap fuel = omega arith
fee_of_gas used (pos n) (negsuc m) fee gas low cheap fuel = omega arith
fee_of_gas used (pos limit) (pos price) fee gas low cheap fuel =
    let whole = le_of_ltb fee (pos (limit * price)) (rw mul_pos at fuel) in
    let part = mul_mono used limit price gas in rw mul_pos (omega arith, omega arith)

-- The fee is not negative and not more than the declared one.
fee_within :
    (t : Transaction) (s : ChainState) (c : Call) (r : UvmResult)
    → pos 0 ≤ℤ t.fee
    → IsCovered t s c
    → r.gas_used ≤ natural c.gas_limit
    → (pos 0 ≤ℤ execution_fee c.gas_price t.fee r) × (execution_fee c.gas_price t.fee r ≤ℤ t.fee)
unfolding execution_fee
fee_within t s c r nonneg k gas = elim (Bool-cases (ltb_ℤ (pos 0) c.gas_price)) [
  | inl p ↦
      let fuel = rw p at k.fuel in
      rw p (fee_of_gas r.gas_used c.gas_limit c.gas_price t.fee gas k.limit k.price fuel)
  | inr n ↦ rw n (nonneg, omega arith)
]

-- A program uses at most the gas that it is given.
gas_within :
    (X : Externals) (ctx : Context) (program : Value) {r : UvmResult}
    → execute_program X program ctx ≡ some (returned r)
    → r.gas_used ≤ natural ctx.gas_limit
gas_within X ctx program {r} ran =
    let (e, ends, adds) = execute_program_total X program ctx in
    let same : e ≡ returned r = cc in
    let sum : r.gas_used + r.gas_remaining ≡ natural ctx.gas_limit = rw same at adds in omega arith

-- A call goes on only with a result that the program returned.
Ensures-result :
    {B : Type 0} {P : B → Type 0} {f : UvmResult → Checked B} (o : Option Ending)
    → ((r : UvmResult) → o ≡ some (returned r) → Ensures P (f r))
    → Ensures P (result_of o >>= f)
unfolding result_of
Ensures-result none h = rejects
Ensures-result (some raised) h = rejects
Ensures-result (some (returned r)) h = h r refl

-- The writes of a call that failed: only the fee is gone.
settle_failed :
    (sender address : String) (amount paid : ℤ) (r : UvmResult) (d : Dict ℤ)
    → r.success ≡ false
    → settle sender address amount paid r d ≡ debit sender paid d
unfolding settle
settle_failed sender address amount paid r d h = rw h refl

settle_won :
    (sender address : String) (amount paid : ℤ) (r : UvmResult) (d : Dict ℤ)
    → r.success ≡ true
    → settle sender address amount paid r d
      ≡ add_changes r.balance_changes
          (credit address amount (debit sender amount (debit sender paid d)))
unfolding settle
settle_won sender address amount paid r d h = rw h refl

-- What the sender's escrow covers, the fee that is paid in its place covers too.
after_call :
    (mine : Bool) (g paid fee amount x y : ℤ)
    → paid ≤ℤ fee
    → pos 0 ≤ℤ g -ℤ (if mine then amount +ℤ fee else pos 0) +ℤ x +ℤ y
    → pos 0 ≤ℤ g -ℤ (if mine then paid else pos 0) -ℤ (if mine then amount else pos 0) +ℤ x +ℤ y
after_call true g paid fee amount x y h k = omega int_laws
after_call false g paid fee amount x y h k = omega int_laws

module _ (t : Transaction) (s : ChainState) (c : Call) (target : Target) (height : ℕ)
    (r : UvmResult) (k : IsCovered t s c)
    (fair : r.success ≡ true → IsFair (call_context t c.address c.gas_limit target height s) r)
    (paid : ℤ) where
  abbrev b : Dict ℤ
  b = s.balances

  settle-total : total (settle t.sender c.address t.amount paid r b) +ℤ paid ≡ total b
  settle-total = elim (Bool-cases r.success) [
    | inl won ↦
        let even = (fair won).cancels in
        let rest = debit t.sender t.amount (debit t.sender paid b) in
        rw
          (
            settle_won t.sender c.address t.amount paid r b won,
            total-add_changes,
            even,
            total-credit c.address t.amount rest k.amount,
            total-debit,
            total-debit t.sender paid b,
          )
          (omega int_laws)
    | inr lost ↦
        rw (settle_failed t.sender c.address t.amount paid r b lost, total-debit) (omega int_laws)
  ]

  -- The program sees nobody overdrawn.
  escrow-IsSolvent : IsSolvent b → IsSolvent (escrowed t c.address s)
  unfolding escrowed
  escrow-IsSolvent ok =
      credit-IsSolvent c.address t.amount (debit t.sender (t.amount +ℤ t.fee) b) k.amount
        (debit-IsSolvent t.sender (t.amount +ℤ t.fee) b k.cost ok)

  get0-escrowed :
      (a : String)
      → get0 a (escrowed t c.address s)
        ≡ get0 a b -ℤ share t.sender a (t.amount +ℤ t.fee) +ℤ share c.address a t.amount
  unfolding escrowed
  get0-escrowed a =
      rw
        (
          get0-credit c.address a t.amount (debit t.sender (t.amount +ℤ t.fee) b) k.amount,
          get0-debit,
        )
        refl

  settle-IsSolvent :
      paid ≤ℤ t.fee → IsSolvent b → IsSolvent (settle t.sender c.address t.amount paid r b)
  unfolding call_context
  settle-IsSolvent within ok = elim (Bool-cases r.success) [
    | inl won ↦ λ a.
        let covered = (fair won).covered (escrow-IsSolvent ok) a in
        rw
          (
            settle_won t.sender c.address t.amount paid r b won,
            get0-add_changes,
            get0-credit c.address a t.amount (debit t.sender t.amount (debit t.sender paid b))
                k.amount,
            get0-debit,
            get0-debit,
          )
          (after_call (str_eq t.sender a) (get0 a b) paid t.fee t.amount
            (share c.address a t.amount) (total_at a r.balance_changes) within
            (rw get0-escrowed at covered))
    | inr lost ↦ rw (settle_failed t.sender c.address t.amount paid r b lost) (
        let cost = k.cost in
        let amount = k.amount in debit-IsSolvent t.sender paid b (omega int_laws) ok)
  ]

pub apply_execute-Spends :
    (S : Externals) (t : Transaction) (nonce height : ℕ) (s : ChainState)
    → pos 0 ≤ℤ t.fee
    → Ensures (Spends t nonce s) (apply_execute S t s nonce height)
unfolding apply_execute record_execution
apply_execute-Spends S t nonce height s nonneg =
    let X = S in
    Ensures-bind (check_call X t s) λ c checked.
      Ensures-bind (find_target X t c.address s) λ target _.
        let ctx = call_context t c.address c.gas_limit target height s in
        Ensures-result (execute_program X target.program ctx) λ r ran.
          let k : IsCovered t s c = Ensures-eq (check_call-IsCovered X t s) checked in
          let paid = execution_fee c.gas_price t.fee r in
          let within = fee_within t s c r nonneg k (gas_within X ctx target.program ran) in
          let fair = execute_program-IsFair X ctx target.program ran in
          passes (record {
            fee = paid;
            reported = refl;
            fee_nonneg = within.0;
            fee_bounded = within.1;
            nonces = refl;
            height = refl;
            supply = settle-total t s c target height r k fair paid;
            solvent = settle-IsSolvent t s c target height r k fair paid within.1;
          })
