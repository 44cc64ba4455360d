-- ===== src/Chain/Select.antt =====
-- The choice of transactions for a new block: `_select_transactions_for_block` and
-- `_calculate_transaction_fees_for_block` of core/blockchain.py.
use unc_coin.Prelude.{
  ℕ, zero, suc, Bool, true, false, ◌||◌, Option, none, some, List, [], ◌∷◌, ◌++◌, length, leb,
  if◌then◌else◌,
}
use unc_coin.Prelude.Int.{ℤ, pos, ltb_ℤ}
use unc_coin.Externals.{Externals}
use unc_coin.Transaction.{Transaction}
use unc_coin.Chain.State.{ChainState}
use unc_coin.Chain.Check.{Checked, pass, reject, ◌>>=◌}
use unc_coin.Chain.Raise.{or_raise}
use unc_coin.Chain.Apply.{apply_transaction}
use unc_coin.Chain.Reward.{is_empty}
use unc_coin.Chain.Block.{apply_transactions}

-- `sorted(…, key=fee, reverse=True)`, which keeps the order of equal fees.
unfoldable pub insert_by_fee : Transaction → List Transaction → List Transaction
insert_by_fee t [] = t ∷ []
insert_by_fee t (u ∷ us) =
    let rest = insert_by_fee t us in if ltb_ℤ t.fee u.fee then u ∷ rest else t ∷ u ∷ us

unfoldable pub sort_by_fee : List Transaction → List Transaction
unfolding insert_by_fee
sort_by_fee [] = []
sort_by_fee (t ∷ ts) = insert_by_fee t (sort_by_fee ts)

-- The variables of one round.
pub record Round : Type 0 where
  pub state : ChainState
  pub selected : List Transaction
  pub progress : Bool
  pub next_round : List Transaction

abbrev pub deferred : Transaction → Round → Round
deferred t r = record r { next_round = r.next_round ++ t ∷ [] }

-- One transaction, on what its application to a copy of the state gave.
unfoldable pub taken : Transaction → Checked (ChainState × Option ℤ) → Round → Checked Round
unfolding or_raise
taken t (reject e) r = or_raise e (deferred t r)
taken t (pass (state, fee)) r =
    pass (record r { state = state; selected = r.selected ++ t ∷ []; progress = true })

unfoldable pub select_one : Externals → Transaction → Round → Checked Round
unfolding taken apply_transaction
select_one S t r =
    if leb 99 (length r.selected)
    then pass (deferred t r)
    else taken t (apply_transaction S t r.state r.state.next_height) r

unfoldable pub select_round : Externals → List Transaction → Round → Checked Round
unfolding select_one
select_round S [] r = pass r
select_round S (t ∷ ts) r = select_one S t r >>= select_round S ts

abbrev pub new_round : ChainState → List Transaction → Round
new_round state selected = record {
  state = state;
  selected = selected;
  progress = false;
  next_round = [];
}

-- The outer loop; `none` is out of fuel.
unfoldable pub select_rounds :
    Externals
    → ℕ
    → List Transaction
    → ChainState
    → List Transaction
    → Checked (Option (List Transaction))
unfolding select_round
select_rounds S zero remaining state selected = pass none
select_rounds S (suc fuel) remaining state selected =
    if is_empty remaining || leb 99 (length selected) then pass (some selected) else do
      r ← select_round S remaining (new_round state selected)
      let rest = select_rounds S fuel r.next_round r.state r.selected
      (if r.progress then rest else pass (some r.selected))

-- `_select_transactions_for_block` on the pending transactions and the tip's state; a refusal is a
-- `ValueError` of one of the transactions.
unfoldable pub select_transactions_for_block :
    Externals → List Transaction → ChainState → Checked (Option (List Transaction))
unfolding select_rounds sort_by_fee
select_transactions_for_block S pending state =
    select_rounds S (suc (length (sort_by_fee pending))) (sort_by_fee pending) state []

abbrev sum_of : Checked (ChainState × ℤ) → Option ℤ
sum_of (pass (state, fees)) = some fees
sum_of (reject e) = none

-- `_calculate_transaction_fees_for_block`; `none` is the `ValueError`.
unfoldable pub calculate_transaction_fees_for_block :
    Externals → List Transaction → ChainState → Option ℤ
unfolding apply_transactions
calculate_transaction_fees_for_block S transactions base_state =
    sum_of (apply_transactions S transactions base_state base_state.next_height (pos 0))
