-- ===== src/Chain/Store.antt =====
-- The store of blocks and their states: `_get_parent_state_for_block`, `_should_update_main_tip`
-- and `add_block_result` of core/blockchain.py, without the reconciliation that may follow.
use unc_coin.Prelude.{
  String, ◌==◌, Bool, true, false, not, ◌&&◌, Option, none, some, List, [], ◌∷◌, ◌++◌, str_eq, ltb,
  if◌then◌else◌,
}
use unc_coin.Dict.{Dict, lookup, lookup_or, insert, contains}
use unc_coin.Transaction.{Transaction}
use unc_coin.Chain.State.{ChainState, empty_state}
use unc_coin.Chain.Check.{
  Checked, pass, reject, Reason, ◌>>=◌, ◌>>◌, refuse_if, require, need, another_genesis,
  missing_parent_state, height_mismatch,
}
use unc_coin.Chain.Reward.{Block}
use unc_coin.Chain.Block.{Rules, check_genesis, build_child_state, genesis_previous_hash}

-- The fields of `Blockchain` that change.
pub record Blockchain : Type 0 where
  pub blocks_by_hash : Dict Block
  pub children_by_hash : Dict (List String)
  pub block_states : Dict ChainState
  pub pending_transactions : List Transaction
  pub main_tip_hash : Option String

abbrev pub is_genesis : Block → Bool
is_genesis block = str_eq block.previous_hash genesis_previous_hash

-- Whether a genesis block with another hash is stored.
unfoldable pub has_other_genesis : String → Dict Block → Bool
has_other_genesis block_hash [] = false
has_other_genesis block_hash ((h, b) ∷ blocks) =
    let rest = has_other_genesis block_hash blocks in
    if is_genesis b && not (str_eq h block_hash) then true else rest

-- The state under a genesis block.
unfoldable pub genesis_parent : Rules → Blockchain → Block → Checked ChainState
unfolding check_genesis has_other_genesis
genesis_parent R chain block = do
  check_genesis R block
  refuse_if (has_other_genesis block.block_hash chain.blocks_by_hash) another_genesis
  pass empty_state

-- The state under any other block.
unfoldable pub stored_parent : Blockchain → Block → Checked ChainState
unfolding lookup
stored_parent chain block = do
  parent_state ← need (lookup block.previous_hash chain.block_states) missing_parent_state
  require (block.block_id == parent_state.next_height) height_mismatch
  pass parent_state

-- `_get_parent_state_for_block`
unfoldable pub get_parent_state : Rules → Blockchain → Block → Checked ChainState
unfolding genesis_parent stored_parent
get_parent_state R chain block =
    if is_genesis block then genesis_parent R chain block else stored_parent chain block

-- `BlockAcceptanceResult`, with the chain where it has changed; `key_error` is a `KeyError`, and
-- `raised` a `ValueError` of the reconciliation, with the chain that it leaves.
pub data Added : Type 0 where
  duplicate missing_parent key_error : Added
  invalid : Reason → Added
  accepted raised : Blockchain → Added

abbrev is_higher : ChainState → Option ChainState → Option Bool
is_higher state none = none
is_higher state (some current) = some (ltb current.next_height state.next_height)

-- `_should_update_main_tip` for a state that has just been stored; `none` is a `KeyError`.
unfoldable pub should_update_main_tip : ChainState → Option String → Dict ChainState → Option Bool
unfolding lookup
should_update_main_tip state none states = some true
should_update_main_tip state (some tip) states = is_higher state (lookup tip states)

-- `children_by_hash` with the new block under its parent.
unfoldable pub add_child : Block → Dict (List String) → Dict (List String)
unfolding insert lookup_or
add_child block children =
    let own = insert block.block_hash (lookup_or block.block_hash [] children) children in
    if is_genesis block
    then own
    else insert block.previous_hash (lookup_or block.previous_hash [] own ++ block.block_hash ∷ [])
        own

abbrev moved_tip : Option Bool → Block → Blockchain → Added
moved_tip none block chain = key_error
moved_tip (some moves) block chain =
    accepted (record chain {
      main_tip_hash = if moves then some block.block_hash else chain.main_tip_hash;
    })

-- The writes of a block that has been checked.
unfoldable pub store_block : Block → ChainState → Blockchain → Added
unfolding insert add_child should_update_main_tip
store_block block state chain =
    let states = insert block.block_hash state chain.block_states in
    moved_tip (should_update_main_tip state chain.main_tip_hash states) block (record chain {
      blocks_by_hash = insert block.block_hash block chain.blocks_by_hash;
      block_states = states;
      children_by_hash = add_child block chain.children_by_hash;
    })

abbrev pub store_checked : Checked ChainState → Block → Blockchain → Added
unfolding store_block
store_checked (reject r) block chain = invalid r
store_checked (pass state) block chain = store_block block state chain

-- `add_block_result` up to the reconciliation of the pending transactions.
unfoldable pub check_and_store : Rules → Blockchain → Block → Added
unfolding contains get_parent_state build_child_state store_checked
check_and_store R chain block =
    if contains block.block_hash chain.blocks_by_hash
    then duplicate
    else if not (is_genesis block) && not (contains block.previous_hash chain.block_states)
    then missing_parent
    else store_checked (get_parent_state R chain block >>= build_child_state R block) block chain
