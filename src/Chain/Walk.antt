-- ===== src/Chain/Walk.antt =====
-- Walks from a block to the blocks under it: `_parent_hash`, `is_ancestor`,
-- `_find_common_ancestor_hash`, `_collect_branch_transactions`, `get_chain` and
-- `_collect_transactions` of core/blockchain.py. A loop takes the height of its start plus one as
-- its fuel.
use unc_coin.Prelude.{
  ℕ, zero, suc, ◌-◌, String, Bool, true, false, not, ◌||◌, Option, none, some, str_eq,
  if◌then◌else◌,
}
use unc_coin.Dict.{lookup, contains, or_default}
use unc_coin.Chain.State.{empty_state}
use unc_coin.Chain.Reward.{Block}
use unc_coin.Chain.Store.{Blockchain, is_genesis}

abbrev parent_of : Option Block → Option (Option String)
parent_of none = none
parent_of (some b) = some (if is_genesis b then none else some b.previous_hash)

-- `_parent_hash`; `none` is a `KeyError`, and `some none` the `None` under a genesis block.
unfoldable pub parent_hash : Blockchain → String → Option (Option String)
unfolding lookup
parent_hash chain block_hash = parent_of (lookup block_hash chain.blocks_by_hash)

-- The height of a stored block plus one, or 0.
unfoldable pub depth : Blockchain → String → ℕ
unfolding lookup
depth chain block_hash = (or_default empty_state (lookup block_hash chain.block_states)).next_height

-- One step of the loop of `is_ancestor`, which ends at a missing block too.
abbrev step_to_ancestor : (String → Option Bool) → Option (Option String) → Option Bool
step_to_ancestor loop none = some false
step_to_ancestor loop (some none) = some false
step_to_ancestor loop (some (some parent)) = loop parent

-- The loop of `is_ancestor`; `none` is out of fuel.
unfoldable pub ancestor_loop : Blockchain → String → ℕ → String → Option Bool
unfolding parent_hash
ancestor_loop chain ancestor_hash zero current_hash = none
ancestor_loop chain ancestor_hash (suc fuel) current_hash =
    let rest =
      step_to_ancestor (ancestor_loop chain ancestor_hash fuel) (parent_hash chain current_hash) in
    if str_eq current_hash ancestor_hash then some true else rest

-- `is_ancestor`
unfoldable pub is_ancestor : Blockchain → String → Option String → Option Bool
unfolding ancestor_loop contains depth
is_ancestor chain ancestor_hash none = some false
is_ancestor chain ancestor_hash (some descendant_hash) =
    if str_eq ancestor_hash ""
      || not (contains ancestor_hash chain.block_states)
      || not (contains descendant_hash chain.block_states)
    then some false
    else ancestor_loop chain ancestor_hash (suc (depth chain descendant_hash)) descendant_hash

-- A walk stops with `some none` where the code returns `None`, and with `none` at a `KeyError` or
-- out of fuel.
abbrev follow :
    {A : Type 0} → Option (Option String) → (String → Option (Option A)) → Option (Option A)
follow none k = none
follow (some none) k = some none
follow (some (some parent)) k = k parent

-- The first two loops of `_find_common_ancestor_hash`: as many steps as the heights differ.
unfoldable pub climb : Blockchain → ℕ → String → Option (Option String)
unfolding parent_hash
climb chain zero block_hash = some (some block_hash)
climb chain (suc steps) block_hash = follow (parent_hash chain block_hash) (climb chain steps)

abbrev follow_both :
    Option (Option String)
    → Option (Option String)
    → (String → String → Option (Option String))
    → Option (Option String)
follow_both none right k = none
follow_both (some left) none k = none
follow_both (some none) (some right) k = some none
follow_both (some (some left)) (some none) k = some none
follow_both (some (some left)) (some (some right)) k = k left right

-- The last loop of `_find_common_ancestor_hash`.
unfoldable pub meet : Blockchain → ℕ → String → String → Option (Option String)
unfolding parent_hash
meet chain zero left_hash right_hash = none
meet chain (suc fuel) left_hash right_hash =
    let rest =
      follow_both (parent_hash chain left_hash) (parent_hash chain right_hash) (meet chain fuel) in
    if str_eq left_hash right_hash then some (some left_hash) else rest

-- `_find_common_ancestor_hash`
unfoldable pub find_common_ancestor :
    Blockchain → Option String → Option String → Option (Option String)
unfolding contains depth climb meet
find_common_ancestor chain none right_head = some none
find_common_ancestor chain (some left_head) none = some none
find_common_ancestor chain (some left_head) (some right_head) =
    let left_height = depth chain left_head in
    let right_height = depth chain right_head in
    if not (contains left_head chain.block_states) || not (contains right_head chain.block_states)
    then some none
    else follow (climb chain (left_height - right_height) left_head) λ left.
      follow (climb chain (right_height - left_height) right_head)
        (meet chain (suc left_height) left)
