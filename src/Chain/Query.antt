-- ===== src/Chain/Query.antt =====
-- What is asked of a chain: `_get_state_for_tip` and the `get_…` methods of core/blockchain.py; a
-- `none` of `get_state_for_tip` is a `ValueError`. Copies of a value are the value.
use unc_coin.Prelude.{
  ℕ, String, Bool, true, ◌&&◌, Option, none, some, List, [], ◌∷◌, str_eq, if◌then◌else◌,
}
use unc_coin.Prelude.Int.{ℤ, pos}
use unc_coin.Dict.{Dict, lookup, lookup_or}
use unc_coin.Dict.Sum.{get0}
use unc_coin.Uvm.Context.{Reveal}
use unc_coin.Externals.{Externals}
use unc_coin.Transaction.{Transaction}
use unc_coin.Chain.State.{ChainState, Contract, Receipt, AuthorizationEntry}
use unc_coin.Chain.Check.{Checked, pass, reject, ◌>>=◌, need, value_error}
use unc_coin.Chain.Raise.{or_raise}
use unc_coin.Chain.Store.{Blockchain}
use unc_coin.Chain.Branch.{or_main_tip}
use unc_coin.Chain.Reconcile.{state_of_tip}
use unc_coin.Chain.Pending.{apply_pending, add_transaction}

-- `_get_state_for_tip`
unfoldable pub get_state_for_tip : Blockchain → Option String → Option ChainState
unfolding state_of_tip
get_state_for_tip chain tip_hash = state_of_tip chain (or_main_tip chain tip_hash)

abbrev pub read {ℓ} : {A : Type ℓ} → (ChainState → A) → Option ChainState → Option A
read f none = none
read f (some s) = some (f s)

-- `get_balance`
unfoldable pub get_balance : Blockchain → String → Option String → Option ℤ
unfolding get_state_for_tip lookup_or
get_balance chain address tip = read (λ s. get0 address s.balances) (get_state_for_tip chain tip)

unfoldable pub available_in : String → Checked ChainState → Checked ℤ
unfolding lookup_or or_raise
available_in address (pass s) = pass (get0 address s.balances)
available_in address (reject r) = or_raise r (pos 0)

-- `get_available_balance`; `none` is a `KeyError`, a refusal a `ValueError`.
unfoldable pub get_available_balance :
    Externals → Blockchain → String → Option String → Option (Checked ℤ)
unfolding get_state_for_tip apply_pending available_in
get_available_balance S chain address tip =
    read (λ s. available_in address (apply_pending S chain.pending_transactions s))
      (get_state_for_tip chain tip)

-- `get_next_nonce`; a refusal is a `ValueError`.
unfoldable pub get_next_nonce : Externals → Blockchain → String → Option String → Checked ℕ
unfolding get_state_for_tip apply_pending lookup_or
get_next_nonce S chain address tip = do
  tip_state ← need (get_state_for_tip chain tip) value_error
  state ← apply_pending S chain.pending_transactions tip_state
  pass (lookup_or address 0 state.nonces)

-- `get_commitments`
unfoldable pub get_commitments : Blockchain → String → Option String → Option (Dict String)
unfolding get_state_for_tip lookup_or
get_commitments chain request_id tip =
    read (λ s. lookup_or request_id [] s.commitments) (get_state_for_tip chain tip)

-- `get_commitment`
unfoldable pub get_commitment :
    Blockchain → String → String → Option String → Option (Option String)
unfolding get_state_for_tip lookup_or lookup
get_commitment chain request_id sender tip =
    read (λ s. lookup sender (lookup_or request_id [] s.commitments)) (get_state_for_tip chain tip)

-- `get_reveals`
unfoldable pub get_reveals : Blockchain → String → Option String → Option (Dict Reveal)
unfolding get_state_for_tip lookup_or
get_reveals chain request_id tip =
    read (λ s. lookup_or request_id [] s.reveals) (get_state_for_tip chain tip)

-- `get_reveal`
unfoldable pub get_reveal : Blockchain → String → String → Option String → Option (Option Reveal)
unfolding get_state_for_tip lookup_or lookup
get_reveal chain request_id sender tip =
    read (λ s. lookup sender (lookup_or request_id [] s.reveals)) (get_state_for_tip chain tip)

abbrev matches : Option String → String → Bool
matches none s = true
matches (some wanted) s = str_eq s wanted

unfoldable pub matching_authorizations :
    Option String
    → Option String
    → Option String
    → List AuthorizationEntry
    → List AuthorizationEntry
matching_authorizations contract_address request_id wallet [] = []
matching_authorizations contract_address request_id wallet (a ∷ as₁) =
    let rest = matching_authorizations contract_address request_id wallet as₁ in
    if matches contract_address a.contract_address
      && matches request_id a.request_id
      && matches wallet a.wallet
    then a ∷ rest
    else rest

-- `get_authorizations`
unfoldable pub get_authorizations :
    Blockchain
    → Option String
    → Option String
    → Option String
    → Option String
    → Option (List AuthorizationEntry)
unfolding get_state_for_tip matching_authorizations
get_authorizations chain contract_address request_id wallet tip =
    read (λ s. matching_authorizations contract_address request_id wallet s.authorizations)
      (get_state_for_tip chain tip)

-- `get_contract_storage`
unfoldable pub get_contract_storage : Blockchain → String → Option String → Option (Dict ℕ)
unfolding get_state_for_tip lookup_or
get_contract_storage chain contract_address tip =
    read (λ s. lookup_or contract_address [] s.contract_storage) (get_state_for_tip chain tip)

-- `get_contract`
unfoldable pub get_contract : Blockchain → String → Option String → Option (Option Contract)
unfolding get_state_for_tip lookup
get_contract chain contract_address tip =
    read (λ s. lookup contract_address s.contracts) (get_state_for_tip chain tip)

-- `get_uvm_receipt`
unfoldable pub get_uvm_receipt : Blockchain → String → Option String → Option (Option Receipt)
unfolding get_state_for_tip lookup
get_uvm_receipt chain transaction_id tip =
    read (λ s. lookup transaction_id s.uvm_receipts) (get_state_for_tip chain tip)

-- `add_transaction` on the chain; a refusal is a `ValueError`.
unfoldable pub add_pending :
    Externals → Transaction → Blockchain → Option String → Checked Blockchain
unfolding get_state_for_tip add_transaction
add_pending S t chain tip = do
  tip_state ← need (get_state_for_tip chain tip) value_error
  pending ← add_transaction S t chain.pending_transactions tip_state
  pass (record chain { pending_transactions = pending })
