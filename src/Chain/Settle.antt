-- ===== src/Chain/Settle.antt =====
-- A sound store stays sound, and its pending transactions applicable, whatever block is added.
use unc_coin.Prelude.{String, ◌≡◌, refl, Bool, true, false, Option, none, some, List, map}
use unc_coin.Dict.{contains}
use unc_coin.Externals.{Externals}
use unc_coin.Transaction.Serialize.{transaction_hash}
use unc_coin.Transaction.{Transaction}
use unc_coin.Chain.State.{ChainState}
use unc_coin.Chain.Check.{Reason, Checked, pass, reject}
use mathlib.Core.List.{Memᴰ}
use unc_coin.Chain.Apply.{apply_transaction}
use unc_coin.Chain.Raise.{is_raise, Returns, returns, raises}
use unc_coin.Chain.Reward.{Block}
use unc_coin.Chain.Block.{Rules}
use unc_coin.Chain.Pending.{apply_pending}
use unc_coin.Chain.Store.{
  Blockchain, Added, duplicate, missing_parent, invalid, accepted, raised, check_and_store,
}
use unc_coin.Chain.Issue.{IsSound}
use unc_coin.Chain.Sound.{
  IsKept, kept_duplicate, kept_missing_parent, kept_invalid, kept_accepted, check_and_store-IsKept,
}
use unc_coin.Chain.Reconcile.{get_canonical_state}
use unc_coin.Chain.Revalidate.{IsDistinct}
use unc_coin.Chain.Reorganize.{
  AreCandidates, Reconciles, IsHead, tip-IsHead, reconcile_pending_transactions-IsReconciled,
}
use unc_coin.Chain.Add.{accepted_or_error, after_added, add_block_result}

-- Pending transactions that apply in order to the canonical state, under different ids.
pub record IsReady (S : Externals) (chain : Blockchain) : Type 0 where
  pub state : ChainState
  pub canonical : get_canonical_state chain ≡ some state
  pub final : ChainState
  pub applied : apply_pending S chain.pending_transactions state ≡ pass final
  pub distinct : IsDistinct (map (transaction_hash S) chain.pending_transactions)

-- What an added block leaves: without a reconciliation, the pending transactions that were there.
abbrev pub IsLeft : Externals → List Transaction → Bool → Blockchain → Type 0
IsLeft S pending true chain = IsReady S chain
IsLeft S pending false chain = chain.pending_transactions ≡ pending

-- A transaction that the reconciliation tries raises a `ValueError` when it is applied to some state.
abbrev pub MayRaise : Externals → Blockchain → Blockchain → Type 0
MayRaise S old new =
    (pool : List Transaction) × AreCandidates S new old.main_tip_hash none pool
    × (t : Transaction) × (s : ChainState) × (r : Reason) × Memᴰ t pool
    × (is_raise r ≡ true)
    × (apply_transaction S t s s.next_height ≡ reject r)

-- An outcome that leaves a sound store and the right pending transactions, where it leaves a store; a
-- `KeyError` is none of these.
pub data IsSettled (R : Rules) (old : Blockchain) (reconcile : Bool) : Added → Type 0 where
  settled_duplicate : IsSettled R old reconcile duplicate
  settled_missing_parent : IsSettled R old reconcile missing_parent
  settled_invalid : {r : Reason} → IsSettled R old reconcile (invalid r)
  settled_accepted :
      {new : Blockchain}
      → IsSound R new
      → ((h : String) → contains h old.block_states ≡ true → contains h new.block_states ≡ true)
      → IsLeft R.externals old.pending_transactions reconcile new
      → IsSettled R old reconcile (accepted new)
  settled_raised :
      {new : Blockchain}
      → IsSound R new
      → ((h : String) → contains h old.block_states ≡ true → contains h new.block_states ≡ true)
      → new.pending_transactions ≡ old.pending_transactions
      → MayRaise R.externals old new
      → IsSettled R old reconcile (raised new)

module _ (R : Rules) where
  pending-IsSound :
      (chain : Blockchain) (pending : List Transaction)
      → IsSound R chain
      → IsSound R (record chain { pending_transactions = pending })
  pending-IsSound chain pending sound = record {
    issued = sound.issued;
    tip = sound.tip;
    linked = sound.linked;
    tipless = sound.tipless;
  }

  kept-IsHead :
      (old new : Blockchain) (t : Option String)
      → IsHead old t
      → ((h : String) → contains h old.block_states ≡ true → contains h new.block_states ≡ true)
      → IsHead new t
  kept-IsHead old new none head grown = tt
  kept-IsHead old new (some t) head grown = grown t head

  reconciled-IsSettled :
      (old new : Blockchain) (pool : List Transaction) (c : Checked Blockchain)
      → IsSound R new
      → ((h : String) → contains h old.block_states ≡ true → contains h new.block_states ≡ true)
      → new.pending_transactions ≡ old.pending_transactions
      → AreCandidates R.externals new old.main_tip_hash none pool
      → Returns R.externals pool (Reconciles R.externals new old.main_tip_hash none) c
      → IsSettled R old true (accepted_or_error new (some c))
  unfolding get_canonical_state
  reconciled-IsSettled old new pool _ sound grown same candidates (returns (pending, e, done)) =
      rw e (
        settled_accepted (pending-IsSound new pending sound) grown (record {
          state = done.state;
          canonical = done.canonical;
          final = done.valid.final;
          applied = done.valid.applied;
          distinct = done.valid.distinct;
        }))
  reconciled-IsSettled old new pool _ sound grown same candidates (raises {r} t s at error e) =
      settled_raised sound grown same (pool, candidates, t, s, r, at, error, e)

  accepted-IsSettled :
      (old new : Blockchain) (reconcile : Bool)
      → IsSound R old
      → IsSound R new
      → ((h : String) → contains h old.block_states ≡ true → contains h new.block_states ≡ true)
      → new.pending_transactions ≡ old.pending_transactions
      → IsSettled R old reconcile
          (after_added R.externals old.main_tip_hash reconcile (accepted new))
  unfolding after_added
  accepted-IsSettled old new false before sound grown same = settled_accepted sound grown same
  accepted-IsSettled old new true before sound grown same =
      let head =
        kept-IsHead old new old.main_tip_hash (tip-IsHead R old before old.main_tip_hash refl)
          grown in
      let (c, found, pool, candidates, reconciled) =
        reconcile_pending_transactions-IsReconciled R new sound old.main_tip_hash none head tt in
      rw found (reconciled-IsSettled old new pool c sound grown same candidates reconciled)

  after_added-IsSettled :
      (old : Blockchain) (reconcile : Bool) (added : Added)
      → IsSound R old
      → IsKept R old.block_states old.pending_transactions added
      → IsSettled R old reconcile (after_added R.externals old.main_tip_hash reconcile added)
  unfolding after_added
  after_added-IsSettled old reconcile _ before kept_duplicate = settled_duplicate
  after_added-IsSettled old reconcile _ before kept_missing_parent = settled_missing_parent
  after_added-IsSettled old reconcile _ before kept_invalid = settled_invalid
  after_added-IsSettled old reconcile _ before (kept_accepted {new} sound grown same) =
      accepted-IsSettled old new reconcile before sound grown same

  -- A block that is offered to a sound store leaves a sound store, whether it is accepted or not:
  -- every stored state holds the fixed reward once for each block above the genesis block, nobody in
  -- it is overdrawn, the main tip is one of the highest, and the blocks with their states are one
  -- tree. No state is lost and no `KeyError` is raised. The pending transactions stay what they were,
  -- or, where they are reconciled, apply in order to the state of the main tip, each under another id.
  -- A `ValueError` can leave the reconciliation only where one of the transactions that it tries
  -- raises it; the store is sound then, too, and the pending transactions are the old ones.
  pub add_block_result-IsSettled :
      (chain : Blockchain) (block : Block) (reconcile : Bool)
      → IsSound R chain
      → IsSettled R chain reconcile (add_block_result R chain block reconcile)
  unfolding add_block_result
  add_block_result-IsSettled chain block reconcile sound =
      after_added-IsSettled chain reconcile (check_and_store R chain block) sound
        (check_and_store-IsKept R chain block sound)
