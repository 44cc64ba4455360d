-- ===== src/Uvm/Money.antt =====
-- The money moves of a program as a relation: each step is one TRANSFER_FROM that passed its tests.
use unc_coin.Prelude.{ℕ, String, ◌≡◌, ◌⊎◌, sym, subst, inl, inr, refl, true, List, Bool-cases}
use unc_coin.Prelude.Int.{ℤ, pos, ◌≤ℤ◌, ltb_ℤ, pos_of_ltb, le_of_ltb}
use unc_coin.Value.{Value}
use unc_coin.Dict.Sum.{get0}
use unc_coin.Externals.{Externals}
use unc_coin.Uvm.Opcode.{Opcode}
use unc_coin.Uvm.Machine.{Exec, Result, ok, err, Vm, Ledger, pure, ◌>>=◌, ◌>>◌, pop_word}
use unc_coin.Uvm.Machine
use unc_coin.Uvm.Quiet.{
  Quiet, Quiet-pure, Quiet-pop, Quiet-three_operands, Quiet-account_operand, Quiet-key_operand,
  Quiet-execute_instruction, IsQuiet,
}
use unc_coin.Uvm.Context.{Context}
use unc_coin.Uvm.Step.{
  move_funds, may_spend, transfer_funds, exec_transfer_from, execute_instruction,
}

-- One transfer that the machine lets through.
pub data MoneyStep (ctx : Context) (l l' : Ledger) : Type 0 where
  move :
      (source receiver request_id : String) (amount : ℤ)
      → pos 1 ≤ℤ amount
      → may_spend ctx source request_id ≡ true
      → amount ≤ℤ get0 source l.balances
      → l' ≡ move_funds source receiver request_id amount l
      → MoneyStep ctx l l'

pub data MoneySteps (ctx : Context) (l : Ledger) : Ledger → Type 0 where
  here : MoneySteps ctx l l
  next : {m n : Ledger} → MoneySteps ctx l m → MoneyStep ctx m n → MoneySteps ctx l n

abbrev pub OneMove : Context → Ledger → Ledger → Type 0
OneMove ctx l l' = (l' ≡ l) ⊎ MoneyStep ctx l l'

transfer_funds-OneMove :
    (ctx : Context) (source receiver request_id : String) (amount : ℤ) (s : Vm)
    → OneMove ctx s.ledger (transfer_funds ctx source receiver request_id amount s).1.ledger
unfolding transfer_funds
transfer_funds-OneMove ctx source receiver request_id amount s =
    elim (Bool-cases (ltb_ℤ (pos 0) amount)) [
      | inr low ↦ rw low (inl refl)
      | inl positive ↦ elim (Bool-cases (may_spend ctx source request_id)) [
        | inr denied ↦ rw (positive, denied) (inl refl)
        | inl granted ↦ elim (Bool-cases (ltb_ℤ (get0 source s.ledger.balances) amount)) [
          | inl short ↦ rw (positive, granted, short) (inl refl)
          | inr covered ↦
              rw (positive, granted, covered)
                (inr (
                  move source receiver request_id amount (pos_of_ltb amount positive) granted
                    (le_of_ltb (get0 source s.ledger.balances) amount covered) refl))
        ]
      ]
    ]

-- An action that makes at most one move.
record Moving (ctx : Context) {A : Type 0} (m : Exec A) : Type 0 where
  at : (s : Vm) → OneMove ctx s.ledger (m s).1.ledger

module _ (ctx : Context) {A B : Type 0} where
  continue-Moving :
      (r : Result A) (f : A → Exec B) (s : Vm)
      → ((a : A) → Moving ctx (f a))
      → OneMove ctx s.ledger (Machine.continue r f s).1.ledger
  continue-Moving (ok a) f s h = (h a).at s
  continue-Moving (err e) f s h = inl refl

  Moving-bind :
      (m : Exec A) (f : A → Exec B) → Quiet m → ((a : A) → Moving ctx (f a)) → Moving ctx (m >>= f)
  unfolding ◌>>=◌
  Moving-bind m f hm hf = record {
    at = λ s.
        let (r, s') = m s in
        subst (λ l. OneMove ctx l (Machine.continue r f s').1.ledger) (hm.same s)
          (continue-Moving r f s' hf);
  }

  continue-Quiet :
      (l : Ledger) (r : Result A) (f : A → Exec B) (s : Vm)
      → ((a : A) → Quiet (f a))
      → OneMove ctx l s.ledger
      → OneMove ctx l (Machine.continue r f s).1.ledger
  continue-Quiet l (ok a) f s h o = subst (OneMove ctx l) (sym ((h a).same s)) o
  continue-Quiet l (err e) f s h o = o

  Moving-then :
      (m : Exec A) (f : A → Exec B) → Moving ctx m → ((a : A) → Quiet (f a)) → Moving ctx (m >>= f)
  unfolding ◌>>=◌
  Moving-then m f hm hf = record {
    at = λ s. let (r, s') = m s in continue-Quiet s.ledger r f s' hf (hm.at s);
  }

Moving-transfer_funds :
    (ctx : Context) (source receiver request_id : String) (amount : ℤ)
    → Moving ctx (transfer_funds ctx source receiver request_id amount)
Moving-transfer_funds ctx source receiver request_id amount = record {
  at = transfer_funds-OneMove ctx source receiver request_id amount;
}

Moving-exec_transfer_from :
    (X : Externals) (ctx : Context) (vs : List Value) → Moving ctx (exec_transfer_from X ctx vs)
unfolding exec_transfer_from
Moving-exec_transfer_from X ctx vs =
    search
      (
        Moving-bind, Moving-then, Moving-transfer_funds, Quiet-pure, Quiet-three_operands,
        Quiet-account_operand, Quiet-key_operand, Quiet-pop,
      )
      depth 12

Moving-Quiet : (ctx : Context) {A : Type 0} (m : Exec A) → Quiet m → Moving ctx m
Moving-Quiet ctx m h = record { at = λ s. inl (h.same s) }

IsQuiet-or_transfer : (op : Opcode) → IsQuiet op ⊎ (op ≡ Opcode.transfer_from)
IsQuiet-or_transfer Opcode.transfer_from = inr refl
IsQuiet-or_transfer _ = inl tt

-- An instruction makes at most one move, and only TRANSFER_FROM makes one.
pub execute_instruction-OneMove :
    (X : Externals) (ctx : Context) (n : ℕ) (op : Opcode) (vs : List Value) (s : Vm)
    → OneMove ctx s.ledger (execute_instruction X ctx n op vs s).1.ledger
unfolding execute_instruction
execute_instruction-OneMove X ctx n op vs s = elim (IsQuiet-or_transfer op) [
  | inl quiet ↦ inl ((Quiet-execute_instruction X ctx n op vs quiet).same s)
  | inr e ↦ rw e ((Moving-exec_transfer_from X ctx vs).at s)
]
