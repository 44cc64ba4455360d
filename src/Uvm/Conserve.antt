-- ===== src/Uvm/Conserve.antt =====
-- What sequences of authorized transfers keep: no money is made or lost, no account is
-- overdrawn, and nobody pays who gave no leave.
use unc_coin.Prelude.{
  String, ◌≡◌, refl, ap, true, false, arith, str_eq, Bool-cases, str_eq-cases, eq_refl, inl, inr,
}
use unc_coin.Prelude.Int.{ℤ, pos, ◌+ℤ◌, ◌-ℤ◌, ◌≤ℤ◌, int_laws, parts_of_eq, +ℤ_assoc}
use unc_coin.Dict.{Dict, insert}
use unc_coin.Dict.Sum.{get0, bump, total, total_at, share, total-bump, total_at-bump, get0-bump}
use unc_coin.Uvm.Machine.{Ledger}
use unc_coin.Uvm.Context.{Context}
use unc_coin.Uvm.Step.{move_funds, may_spend}
use unc_coin.Uvm.Money.{MoneyStep, move, MoneySteps, here, next}

-- `d[k] = d.get(k, 0) - x` as an addition.
debit-eq-bump :
    (k : String) (x : ℤ) (d : Dict ℤ) → insert k (get0 k d -ℤ x) d ≡ bump k (pos 0 -ℤ x) d
unfolding bump
debit-eq-bump k x d = ap (λ v. insert k v d) (omega int_laws)

-- What a transfer adds to the account `a`.
abbrev effect : String → String → ℤ → String → ℤ
effect source receiver amount a = share source a (pos 0 -ℤ amount) +ℤ share receiver a amount

module _ (source receiver request_id : String) (amount : ℤ) (l : Ledger) where
  abbrev moved : Ledger
  moved = move_funds source receiver request_id amount l

  get0-moved :
      (a : String) → get0 a moved.balances ≡ get0 a l.balances +ℤ effect source receiver amount a
  unfolding move_funds
  get0-moved a = rw (debit-eq-bump, get0-bump, get0-bump) (+ℤ_assoc _ _ _)

  total_at-moved :
      (a : String)
      → total_at a moved.balance_changes
        ≡ total_at a l.balance_changes +ℤ effect source receiver amount a
  unfolding move_funds
  total_at-moved a = rw (debit-eq-bump, total_at-bump, total_at-bump) (+ℤ_assoc _ _ _)

  total-moved : total moved.balance_changes ≡ total l.balance_changes
  unfolding move_funds
  total-moved = rw (debit-eq-bump, total-bump, total-bump) (omega int_laws)

abbrev IsSolvent : Ledger → Type 0
IsSolvent l = (a : String) → pos 0 ≤ℤ get0 a l.balances

-- A covered debit and a credit leave every account at zero or more.
effect_solvent :
    (source receiver a : String) (amount held : ℤ)
    → pos 1 ≤ℤ amount
    → pos 0 ≤ℤ held
    → (source ≡ a → amount ≤ℤ held)
    → pos 0 ≤ℤ held +ℤ effect source receiver amount a
effect_solvent source receiver a amount held p h cover = elim (Bool-cases (str_eq receiver a)) [
  | inl r ↦ elim (str_eq-cases source a) [
    | inl e ↦ let c = cover e in rw (r, e, eq_refl) (omega int_laws)
    | inr n ↦ rw (r, n) (omega int_laws)
  ]
  | inr r ↦ elim (str_eq-cases source a) [
    | inl e ↦ let c = cover e in rw (r, e, eq_refl) (omega int_laws)
    | inr n ↦ rw (r, n) (omega int_laws)
  ]
]

MoneyStep-IsSolvent :
    (ctx : Context) {l l' : Ledger} → MoneyStep ctx l l' → IsSolvent l → IsSolvent l'
MoneyStep-IsSolvent ctx {l} (move source receiver request_id amount p granted cover e) h a =
    rw (e, get0-moved)
      (effect_solvent source receiver a amount (get0 a l.balances) p (h a)
        (λ same. rw same at cover))

-- From accounts that are not overdrawn, authorized transfers overdraw none.
pub MoneySteps-IsSolvent :
    (ctx : Context) {l l' : Ledger} → MoneySteps ctx l l' → IsSolvent l → IsSolvent l'
MoneySteps-IsSolvent ctx here h = h
MoneySteps-IsSolvent ctx (next steps st) h =
    MoneyStep-IsSolvent ctx st (MoneySteps-IsSolvent ctx steps h)

-- Money is only moved: the recorded changes cancel, and each balance has changed by what is
-- recorded for its account.
pub record Conserves (l l' : Ledger) : Type 0 where
  pub sum : total l'.balance_changes ≡ total l.balance_changes
  pub accounts :
      (a : String)
      → get0 a l'.balances +ℤ total_at a l.balance_changes
        ≡ get0 a l.balances +ℤ total_at a l'.balance_changes

same_effect : (b c x y d : ℤ) → b +ℤ x ≡ c +ℤ y → b +ℤ d +ℤ x ≡ c +ℤ (y +ℤ d)
same_effect b c x y d e = omega (int_laws, parts_of_eq e)

pub MoneySteps-Conserves : (ctx : Context) {l l' : Ledger} → MoneySteps ctx l l' → Conserves l l'
MoneySteps-Conserves ctx here = record { sum = refl; accounts = λ a. refl }
MoneySteps-Conserves ctx {l}
      (next {m} steps (move source receiver request_id amount p granted cover e)) =
    let before = MoneySteps-Conserves ctx steps in
    record {
      sum = rw (e, total-moved) before.sum;
      accounts = λ a.
          rw (e, get0-moved, total_at-moved)
            (same_effect (get0 a m.balances) (get0 a l.balances) (total_at a l.balance_changes)
              (total_at a m.balance_changes) (effect source receiver amount a) (before.accounts a));
    }

effect_nonneg :
    (source receiver a : String) (amount : ℤ)
    → pos 1 ≤ℤ amount
    → str_eq source a ≡ false
    → pos 0 ≤ℤ effect source receiver amount a
effect_nonneg source receiver a amount p n = elim (Bool-cases (str_eq receiver a)) [
  | inl r ↦ rw (r, n) (omega int_laws)
  | inr r ↦ rw (r, n) (omega int_laws)
]

spender_differs :
    (ctx : Context) (source a request_id : String)
    → may_spend ctx source request_id ≡ true
    → ((q : String) → may_spend ctx a q ≡ false)
    → str_eq source a ≡ false
spender_differs ctx source a request_id granted denied = elim (str_eq-cases source a) [
  | inl e ↦ let d = denied request_id in cc (rw e at granted)
  | inr n ↦ n
]

grows : (b c d : ℤ) → b ≤ℤ c → pos 0 ≤ℤ d → b ≤ℤ c +ℤ d
grows b c d h k = omega int_laws

-- An account that is neither the sender nor the contract, and has authorized no request, loses
-- nothing: what is recorded for it only grows.
pub MoneySteps_unauthorized :
    (ctx : Context) (a : String) {l l' : Ledger}
    → ((q : String) → may_spend ctx a q ≡ false)
    → MoneySteps ctx l l'
    → total_at a l.balance_changes ≤ℤ total_at a l'.balance_changes
MoneySteps_unauthorized ctx a denied here = omega arith
MoneySteps_unauthorized ctx a {l} denied
      (next {m} steps (move source receiver request_id amount p granted cover e)) =
    rw (e, total_at-moved)
      (grows (total_at a l.balance_changes) (total_at a m.balance_changes)
        (effect source receiver amount a) (MoneySteps_unauthorized ctx a denied steps)
        (effect_nonneg source receiver a amount p
          (spender_differs ctx source a request_id granted denied)))
