-- ===== src/Chain/Apply.antt =====
-- `_apply_transaction_to_state_error` of core/blockchain.py: what a transaction does to the state.
-- The source writes only behind its last check, so a refusal is a reason and no state.
use unc_coin.Prelude.{
  ℕ, suc, Bool, false, Option, none, some, [], ◌∷◌, ◌++◌, str_eq, ◌==◌, if◌then◌else◌,
}
use unc_coin.Prelude.Int.{ℤ, pos, negsuc, ◌+ℤ◌, ltb_ℤ}
use unc_coin.Text.{show_ℕ}
use unc_coin.Dict.{lookup_or, insert}
use unc_coin.Dict.Sum.{get0, bump}
use unc_coin.Authorization.{scope_fields}
use unc_coin.Externals.{Externals}
use unc_coin.Transaction.{Transaction, Kind}
use unc_coin.Chain.State.{ChainState, insert_in}
use unc_coin.Chain.Check.{
  Checked, pass, reject, ◌>>=◌, ◌>>◌, refuse_if, require, fee_negative, sender_empty,
  nonce_mismatch, balance_too_low, unsupported_kind, reward_receiver_empty,
  reward_amount_not_positive, receiver_empty, amount_not_positive,
}
use unc_coin.Chain.Validate.{
  is_reward, check_authenticity, check_commit, check_reveal, check_authorize, check_deploy,
}
use unc_coin.Chain.Execute.{apply_execute, debit}

-- A mining reward: the amount is new money.
unfoldable pub apply_reward : Transaction → ChainState → Checked (ChainState × Option ℤ)
unfolding bump
apply_reward t state = do
  refuse_if (str_eq t.receiver "") reward_receiver_empty
  require (ltb_ℤ (pos 0) t.amount) reward_amount_not_positive
  pass (record state { balances = bump t.receiver t.amount state.balances }, none)

-- The sender's nonce goes up and the cost is taken: the writes that all kinds begin with.
unfoldable pub charge : Transaction → ℕ → ℤ → ChainState → ChainState
unfolding insert debit
charge t nonce cost state = record state {
  nonces = insert t.sender (suc nonce) state.nonces;
  balances = debit t.sender cost state.balances;
}

abbrev check_balance : Transaction → ℤ → ChainState → Checked (Unit {0})
check_balance t cost state = refuse_if (ltb_ℤ (get0 t.sender state.balances) cost) balance_too_low

unfoldable pub apply_transfer : Transaction → ChainState → ℕ → Checked (ChainState × Option ℤ)
unfolding charge bump
apply_transfer t state nonce = do
  refuse_if (str_eq t.receiver "") receiver_empty
  require (ltb_ℤ (pos 0) t.amount) amount_not_positive
  check_balance t (t.amount +ℤ t.fee) state
  let charged = charge t nonce (t.amount +ℤ t.fee) state
  pass (record charged { balances = bump t.receiver t.amount charged.balances }, some t.fee)

unfoldable pub apply_commit : Transaction → ChainState → ℕ → Checked (ChainState × Option ℤ)
unfolding check_commit charge insert_in
apply_commit t state nonce = do
  (request_id, commitment_hash) ← check_commit t state
  check_balance t t.fee state
  let charged = charge t nonce t.fee state
  pass (
    record charged {
      commitments = insert_in request_id t.sender commitment_hash state.commitments;
    },
    some t.fee,
  )

unfoldable pub apply_reveal :
    Externals → Transaction → ChainState → ℕ → Checked (ChainState × Option ℤ)
unfolding check_reveal charge insert_in show_ℕ
apply_reveal S t state nonce = do
  (request_id, seed, salt, commitment_hash) ← check_reveal S t state
  check_balance t t.fee state
  let charged = charge t nonce t.fee state
  pass (
    record charged {
      reveals =
          insert_in request_id t.sender
            (record { seed = show_ℕ seed; salt = salt; commitment_hash = commitment_hash })
            state.reveals;
    },
    some t.fee,
  )

unfoldable pub apply_authorize : Transaction → ChainState → ℕ → ℕ → Checked (ChainState × Option ℤ)
unfolding check_authorize charge scope_fields
apply_authorize t state nonce height = do
  (contract_address, code_hash, request_id, scope) ← check_authorize t state
  check_balance t t.fee state
  let charged = charge t nonce t.fee state
  pass (
    record charged {
      authorizations =
          state.authorizations
          ++ record {
            wallet = t.sender;
            contract_address = contract_address;
            code_hash = code_hash;
            request_id = request_id;
            scope = scope_fields scope;
            authorized_at_height = height;
          }
            ∷ [];
    },
    some t.fee,
  )

unfoldable pub apply_deploy :
    Externals → Transaction → ChainState → ℕ → Checked (ChainState × Option ℤ)
unfolding check_deploy charge insert lookup_or
apply_deploy S t state nonce = do
  (contract_address, contract) ← check_deploy S t state
  check_balance t t.fee state
  let charged = charge t nonce t.fee state
  pass (
    record charged {
      contracts = insert contract_address contract state.contracts;
      contract_storage =
          insert contract_address (lookup_or contract_address [] state.contract_storage)
            state.contract_storage;
    },
    some t.fee,
  )

-- The branch on the kind.
unfoldable pub apply_kind :
    Externals → Kind → Transaction → ChainState → ℕ → ℕ → Checked (ChainState × Option ℤ)
unfolding apply_transfer apply_commit apply_reveal apply_authorize apply_deploy apply_execute
apply_kind S Kind.transfer t state nonce height = apply_transfer t state nonce
apply_kind S Kind.commit t state nonce height = apply_commit t state nonce
apply_kind S Kind.reveal t state nonce height = apply_reveal S t state nonce
apply_kind S Kind.authorize t state nonce height = apply_authorize t state nonce height
apply_kind S Kind.deploy t state nonce height = apply_deploy S t state nonce
apply_kind S Kind.execute t state nonce height = apply_execute S t state nonce height
apply_kind S (Kind.other name) t state nonce height = reject unsupported_kind

abbrev pub is_nonce : ℤ → ℕ → Bool
is_nonce (pos n) expected = n == expected
is_nonce (negsuc n) expected = false

-- A transaction of a wallet, not a mining reward.
unfoldable pub apply_signed :
    Externals → Transaction → ChainState → ℕ → Checked (ChainState × Option ℤ)
unfolding lookup_or apply_kind
apply_signed S t state height = do
  refuse_if (str_eq t.sender "") sender_empty
  let nonce = lookup_or t.sender 0 state.nonces
  require (is_nonce t.nonce nonce) nonce_mismatch
  apply_kind S t.kind t state nonce height

-- `_apply_transaction_to_state_error` at a block height; hands on the new state and the fee that
-- `collect_fee` gets, if any.
unfoldable pub apply_transaction :
    Externals → Transaction → ChainState → ℕ → Checked (ChainState × Option ℤ)
unfolding check_authenticity is_reward apply_reward apply_signed
apply_transaction S t state height = do
  check_authenticity S t
  refuse_if (ltb_ℤ t.fee (pos 0)) fee_negative
  (if is_reward t then apply_reward t state else apply_signed S t state height)
