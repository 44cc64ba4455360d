-- ===== src/Chain/Branch.antt =====
-- Lists of the blocks under a block: `get_chain`, `_collect_branch_transactions` and
-- `_collect_transactions` of core/blockchain.py. A loop takes the height of its start plus one as
-- its fuel.
use unc_coin.Prelude.{
  ℕ, zero, suc, String, Bool, false, Option, none, some, List, [], ◌∷◌, ◌++◌, reverse, str_eq,
  if◌then◌else◌,
}
use unc_coin.Dict.{lookup}
use unc_coin.Transaction.{Transaction}
use unc_coin.Chain.Reward.{Block}
use unc_coin.Chain.Store.{Blockchain, is_genesis}
use unc_coin.Chain.Walk.{depth}

-- `h == stop`, where `stop` may be `None`.
abbrev pub is_stop : Option String → String → Bool
is_stop none h = false
is_stop (some stop) h = str_eq h stop

-- One step of the loop of `get_chain`, which ends at a missing block too.
abbrev chain_step :
    (String → List Block → Option (List Block)) → List Block → Option Block → Option (List Block)
chain_step loop found none = some found
chain_step loop found (some block) =
    let next = loop block.previous_hash (found ++ block ∷ []) in
    if is_genesis block then some (found ++ block ∷ []) else next

-- The loop of `get_chain`; `none` is out of fuel.
unfoldable pub chain_loop : Blockchain → ℕ → String → List Block → Option (List Block)
unfolding lookup
chain_loop chain zero current_hash found = none
chain_loop chain (suc fuel) current_hash found =
    chain_step (chain_loop chain fuel) found (lookup current_hash chain.blocks_by_hash)

abbrev pub or_main_tip : Blockchain → Option String → Option String
or_main_tip chain none = chain.main_tip_hash
or_main_tip chain (some tip) = some tip

abbrev reversed {ℓ} : {A : Type ℓ} → Option (List A) → Option (List A)
reversed none = none
reversed (some xs) = some (reverse xs)

abbrev chain_from : Blockchain → Option String → Option (List Block)
unfolding chain_loop depth
chain_from chain none = some []
chain_from chain (some tip) = reversed (chain_loop chain (suc (depth chain tip)) tip [])

-- `get_chain`
unfoldable pub get_chain : Blockchain → Option String → Option (List Block)
unfolding chain_from
get_chain chain tip_hash = chain_from chain (or_main_tip chain tip_hash)

-- One step of the loop of `_collect_branch_transactions`, which ends behind a genesis block.
abbrev branch_step :
    (String → List Block → Option (List Block)) → List Block → Option Block → Option (List Block)
branch_step loop found none = none
branch_step loop found (some block) =
    let next = loop block.previous_hash (found ++ block ∷ []) in
    if is_genesis block then some (found ++ block ∷ []) else next

-- The loop of `_collect_branch_transactions`; `none` is a `KeyError` or out of fuel.
unfoldable pub branch_loop :
    Blockchain → Option String → ℕ → String → List Block → Option (List Block)
unfolding lookup
branch_loop chain stop zero current_hash found = none
branch_loop chain stop (suc fuel) current_hash found =
    let next =
      branch_step (branch_loop chain stop fuel) found (lookup current_hash chain.blocks_by_hash) in
    if is_stop stop current_hash then some found else next

-- The transactions of a list of blocks, in order.
unfoldable pub transactions_of : List Block → List Transaction
transactions_of [] = []
transactions_of (b ∷ bs) = b.transactions ++ transactions_of bs

abbrev pub transactions_of_reversed : Option (List Block) → Option (List Transaction)
unfolding transactions_of
transactions_of_reversed none = none
transactions_of_reversed (some bs) = some (transactions_of (reverse bs))

-- `_collect_branch_transactions`
unfoldable pub collect_branch_transactions :
    Blockchain → Option String → Option String → Option (List Transaction)
unfolding branch_loop depth transactions_of
collect_branch_transactions chain none stop = some []
collect_branch_transactions chain (some head) stop =
    if is_stop stop head
    then some []
    else transactions_of_reversed (branch_loop chain stop (suc (depth chain head)) head [])

abbrev transactions_of_found : Option (List Block) → Option (List Transaction)
unfolding transactions_of
transactions_of_found none = none
transactions_of_found (some bs) = some (transactions_of bs)

-- `_collect_transactions`
unfoldable pub collect_transactions : Blockchain → Option String → Option (List Transaction)
unfolding get_chain transactions_of
collect_transactions chain none = some []
collect_transactions chain (some tip) = transactions_of_found (get_chain chain (some tip))
