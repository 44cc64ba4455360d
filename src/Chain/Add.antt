-- ===== src/Chain/Add.antt =====
-- Adding a block, with the reconciliation of the pending transactions: `add_block_result`,
-- `add_block` and `add_block_with_status` of core/blockchain.py.
use unc_coin.Externals.{Externals}
use unc_coin.Prelude.{String, Bool, true, false, Option, none, some, if◌then◌else◌}
use unc_coin.Chain.Check.{Checked, pass, reject}
use unc_coin.Chain.Raise.{is_raise}
use unc_coin.Chain.Reward.{Block}
use unc_coin.Chain.Block.{Rules}
use unc_coin.Chain.Store.{
  Blockchain, Added, duplicate, missing_parent, key_error, invalid, accepted, raised,
  check_and_store,
}
use unc_coin.Chain.Reconcile.{reconcile_pending_transactions}

-- The reconciliation of a chain, and what it led to.
abbrev pub accepted_or_error : Blockchain → Option (Checked Blockchain) → Added
accepted_or_error chain none = key_error
accepted_or_error chain (some (pass reconciled)) = accepted reconciled
accepted_or_error chain (some (reject r)) = raised chain

-- The last step of `add_block_result`, from the main tip before the block on.
unfoldable pub after_added : Externals → Option String → Bool → Added → Added
unfolding reconcile_pending_transactions
after_added S previous_head true (accepted chain) =
    accepted_or_error chain (reconcile_pending_transactions S chain previous_head none)
after_added S previous_head false (accepted chain) = accepted chain
after_added S previous_head reconcile (raised chain) = raised chain
after_added S previous_head reconcile duplicate = duplicate
after_added S previous_head reconcile missing_parent = missing_parent
after_added S previous_head reconcile key_error = key_error
after_added S previous_head reconcile (invalid r) = invalid r

-- `add_block_result` on a block and the flag `reconcile_pending_transactions`.
unfoldable pub add_block_result : Rules → Blockchain → Block → Bool → Added
unfolding check_and_store after_added
add_block_result R chain block reconcile =
    after_added R.externals chain.main_tip_hash reconcile (check_and_store R chain block)

-- The status of a result, `none` for a `KeyError` or a `ValueError`.
unfoldable pub status : Added → Option String
unfolding is_raise
status duplicate = some "duplicate"
status missing_parent = some "missing_parent"
status key_error = none
status (invalid r) = if is_raise r then none else some "invalid"
status (raised chain) = none
status (accepted chain) = some "accepted"

-- `add_block_with_status`
unfoldable pub add_block_with_status : Rules → Blockchain → Block → Bool → Option String
unfolding add_block_result status
add_block_with_status R chain block reconcile = status (add_block_result R chain block reconcile)
