-- ===== src/Tests/Store.antt =====
-- A store with the genesis block and one block on top of it.
use unc_coin.Prelude.{String, ◌≡◌, refl, Bool, true, none, some, List, [], ◌∷◌, reverse, length}
use mathlib.Core.Logic.{◌↔◌}
use unc_coin.Prelude.Int.{ℤ, pos, ◌+ℤ◌}
use unc_coin.Dict.{Dict, lookup, contains}
use unc_coin.Transaction.{Transaction}
use unc_coin.Randomness.{address_from_public_key}
use unc_coin.Chain.State.{ChainState, empty_state}
use unc_coin.Chain.Check.{Checked, pass}
use unc_coin.Chain.Raise.{Returns}
use unc_coin.Chain.Reward.{Block}
use unc_coin.Chain.Block.{Rules, genesis_hash}
use unc_coin.Chain.Store.{Blockchain, Added, accepted, check_and_store}
use unc_coin.Chain.Issue.{IsSound}
use unc_coin.Chain.Sound.{
  IsKept, kept_duplicate, kept_missing_parent, kept_invalid, kept_accepted, check_and_store-IsKept,
}
use unc_coin.Chain.Walk.{depth, is_ancestor, find_common_ancestor}
use unc_coin.Chain.Ancestor.{Ancestor, is_ancestor-decides}
use unc_coin.Chain.Meet.{IsMeet, find_common_ancestor-IsMeet}
use unc_coin.Chain.Branch.{get_chain}
use unc_coin.Chain.Segment.{Segment, get_chain-Segment}
use unc_coin.Chain.Reconcile.{reconcile_pending_transactions}
use unc_coin.Chain.Reorganize.{
  AreCandidates, Reconciles, reconcile_pending_transactions-IsReconciled,
}
use unc_coin.Chain.Query.{get_available_balance, add_pending}
use unc_coin.Chain.Forecast.{AtLeastZero, IsNext, add_pending-IsNext, get_available_balance_nonneg}
use unc_coin.Chain.Add.{add_block_result}
use unc_coin.Chain.Settle.{IsSettled, add_block_result-IsSettled}
use unc_coin.Tests.{
  rules, externals, no_chain, no_chain-IsSound, genesis, reward_block, payment, key,
}

IsKept-IsSound :
    {R : Rules} {states : Dict ChainState} {pending : List Transaction} {a : Added} {c : Blockchain}
    → IsKept R states pending a
    → a ≡ accepted c
    → IsSound R c
IsKept-IsSound kept_duplicate e = cc
IsKept-IsSound kept_missing_parent e = cc
IsKept-IsSound kept_invalid e = cc
IsKept-IsSound {R} {c = c} (kept_accepted {new} sound grown same) e =
    let b : new ≡ c = cc in rw⁻¹ b sound

abbrev first_state : ChainState
first_state = record empty_state { next_height = 1 }

abbrev first_chain : Blockchain
first_chain = record {
  blocks_by_hash = (genesis_hash, genesis) ∷ [];
  children_by_hash = (genesis_hash, []) ∷ [];
  block_states = (genesis_hash, first_state) ∷ [];
  pending_transactions = [];
  main_tip_hash = some genesis_hash;
}

first_stored : check_and_store rules no_chain genesis ≡ accepted first_chain
unfolding check_and_store
first_stored = refl

first-IsSound : IsSound rules first_chain
first-IsSound =
    IsKept-IsSound (check_and_store-IsKept rules no_chain genesis no_chain-IsSound) first_stored

abbrev second_chain : Blockchain
second_chain = record {
  blocks_by_hash = (genesis_hash, genesis) ∷ ("0b", reward_block) ∷ [];
  children_by_hash = (genesis_hash, "0b" ∷ []) ∷ ("0b", []) ∷ [];
  block_states =
      (genesis_hash, first_state)
      ∷ ("0b", record empty_state { balances = (key, pos 10) ∷ []; next_height = 2 })
      ∷ [];
  pending_transactions = [];
  main_tip_hash = some "0b";
}

second_stored : check_and_store rules first_chain reward_block ≡ accepted second_chain
unfolding check_and_store ◌+ℤ◌
second_stored = refl

second-IsSound : IsSound rules second_chain
second-IsSound =
    IsKept-IsSound (check_and_store-IsKept rules first_chain reward_block first-IsSound)
      second_stored

add_block_result-IsSettled_example :
    IsSettled rules first_chain true (add_block_result rules first_chain reward_block true)
add_block_result-IsSettled_example =
    add_block_result-IsSettled rules first_chain reward_block true first-IsSound

is_ancestor-decides_example :
    (b : Bool) × (is_ancestor second_chain genesis_hash (some "0b") ≡ some b)
    × ((b ≡ true) ↔ Ancestor second_chain genesis_hash "0b")
is_ancestor-decides_example =
    is_ancestor-decides rules second_chain second-IsSound.linked genesis_hash "0b" refl

find_common_ancestor-IsMeet_example :
    (c : String) × (find_common_ancestor second_chain (some genesis_hash) (some "0b")
      ≡ some (some c))
    × IsMeet second_chain genesis_hash "0b" c
unfolding contains lookup
find_common_ancestor-IsMeet_example =
    find_common_ancestor-IsMeet rules second_chain second-IsSound.linked genesis_hash "0b" refl refl

get_chain-Segment_example :
    (bs : List Block) × Segment second_chain none (some "0b") bs
    × (length bs ≡ depth second_chain "0b")
    × (get_chain second_chain (some "0b") ≡ some (reverse bs))
unfolding contains lookup
get_chain-Segment_example = get_chain-Segment rules second_chain second-IsSound.linked "0b" refl

reconcile_pending_transactions-IsReconciled_example :
    (c : Checked Blockchain) × (reconcile_pending_transactions externals second_chain
        (some "0b")
        (some genesis_hash)
      ≡ some c)
    × (pool : List Transaction) × AreCandidates externals second_chain
        (some "0b")
        (some genesis_hash)
        pool
    × Returns externals pool (Reconciles externals second_chain (some "0b") (some genesis_hash)) c
unfolding contains lookup
reconcile_pending_transactions-IsReconciled_example =
    reconcile_pending_transactions-IsReconciled rules second_chain second-IsSound (some "0b")
      (some genesis_hash) refl refl

get_available_balance_nonneg_example :
    (c : Checked ℤ) × (get_available_balance externals second_chain key none ≡ some c)
    × Returns externals second_chain.pending_transactions AtLeastZero c
get_available_balance_nonneg_example =
    get_available_balance_nonneg rules second_chain second-IsSound key none tt

add_second :
    add_pending externals payment second_chain none
    ≡ pass (record second_chain { pending_transactions = payment ∷ [] })
unfolding add_pending address_from_public_key ◌+ℤ◌
add_second = refl

add_pending-IsNext_example :
    IsNext externals payment second_chain
      (record second_chain { pending_transactions = payment ∷ [] })
      none
add_pending-IsNext_example = add_pending-IsNext externals payment second_chain none add_second
