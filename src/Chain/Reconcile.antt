-- ===== src/Chain/Reconcile.antt =====
-- The pending transactions after a change of the main tip: `_reconcile_pending_transactions` of
-- core/blockchain.py, and the queries on the pending transactions.
use unc_coin.Prelude.{
  String, Bool, false, not, ◌&&◌, ◌||◌, Option, none, some, List, [], ◌∷◌, ◌++◌, map, str_eq,
  if◌then◌else◌,
}
use unc_coin.Prelude.Int.{ℤ}
use unc_coin.Dict.{lookup}
use unc_coin.Externals.{Externals}
use unc_coin.Transaction.Serialize.{transaction_hash}
use unc_coin.Transaction.{Transaction}
use unc_coin.Chain.State.{ChainState, empty_state}
use unc_coin.Chain.Check
use unc_coin.Chain.Check.{Checked, pass, reject}
use unc_coin.Chain.Raise.{or_raise}
use unc_coin.Chain.Validate.{is_reward}
use unc_coin.Chain.Apply.{apply_transaction}
use unc_coin.Chain.Store.{Blockchain}
use unc_coin.Chain.Walk.{find_common_ancestor}
use unc_coin.Chain.Branch.{or_main_tip, collect_branch_transactions}

-- `id in ids`, for a set of transaction ids.
unfoldable pub has_id : String → List String → Bool
has_id h [] = false
has_id h (i ∷ ids) = str_eq i h || has_id h ids

-- The transactions of the old branch that are no rewards and not in the new branch.
unfoldable pub resurrected : Externals → List String → List Transaction → List Transaction
unfolding is_reward has_id
resurrected S current_ids [] = []
resurrected S current_ids (t ∷ ts) =
    let rest = resurrected S current_ids ts in
    if not (is_reward t) && not (has_id (transaction_hash S t) current_ids) then t ∷ rest else rest

-- The variables of the loop over the candidates.
pub record Kept : Type 0 where
  pub state : ChainState
  pub seen_ids : List String
  pub valid : List Transaction

-- One candidate, on what its application to a copy of the state gave.
unfoldable pub kept_if :
    String → Transaction → Checked (ChainState × Option ℤ) → Kept → Checked Kept
unfolding or_raise
kept_if id t (reject e) k = or_raise e k
kept_if id t (pass (state, fee)) k =
    pass (record { state = state; seen_ids = id ∷ k.seen_ids; valid = k.valid ++ t ∷ [] })

unfoldable pub keep_one : Externals → List String → Transaction → Kept → Checked Kept
unfolding has_id apply_transaction kept_if
keep_one S current_ids t k =
    let id = transaction_hash S t in
    if has_id id k.seen_ids || has_id id current_ids
    then pass k
    else kept_if id t (apply_transaction S t k.state k.state.next_height) k

unfoldable pub keep_valid : Externals → List String → List Transaction → Kept → Checked Kept
unfolding keep_one
keep_valid S current_ids [] k = pass k
keep_valid S current_ids (t ∷ ts) k =
    Check.◌>>=◌ (keep_one S current_ids t k) (keep_valid S current_ids ts)

unfoldable pub state_of_tip : Blockchain → Option String → Option ChainState
unfolding lookup
state_of_tip chain none = some empty_state
state_of_tip chain (some tip) = lookup tip chain.block_states

-- `_get_canonical_state`; `none` is a `KeyError`.
unfoldable pub get_canonical_state : Blockchain → Option ChainState
unfolding state_of_tip
get_canonical_state chain = state_of_tip chain chain.main_tip_hash

infixl 5 ◌>>=◌
abbrev ◌>>=◌ : {A B : Type 0} → Option A → (A → Option B) → Option B
none >>= f = none
some a >>= f = f a

abbrev pub start_kept : ChainState → Kept
start_kept state = record { state = state; seen_ids = []; valid = [] }

-- The candidates that are kept; the canonical state is asked for where there is a candidate.
unfoldable pub kept_of :
    Externals
    → List String
    → Option ChainState
    → List Transaction
    → Option (Checked (List Transaction))
unfolding keep_valid
kept_of S current_ids canonical [] = some (pass [])
kept_of S current_ids canonical (t ∷ ts) = do
  state ← canonical
  some (Check.◌>>=◌ (keep_valid S current_ids (t ∷ ts) (start_kept state)) λ k. pass k.valid)

-- The pending transactions that the two branches and the old pending transactions leave.
unfoldable pub revalidated :
    Externals
    → Blockchain
    → List Transaction
    → List Transaction
    → Option (Checked (List Transaction))
unfolding resurrected get_canonical_state kept_of
revalidated S chain previous_transactions current_transactions =
    let current_ids = map (transaction_hash S) current_transactions in
    kept_of S current_ids (get_canonical_state chain)
      (resurrected S current_ids previous_transactions ++ chain.pending_transactions)

-- `_reconcile_pending_transactions`; `none` is a `KeyError` or out of fuel, a refusal a `ValueError`.
unfoldable pub reconcile_pending_transactions :
    Externals → Blockchain → Option String → Option String → Option (Checked Blockchain)
unfolding find_common_ancestor collect_branch_transactions revalidated
reconcile_pending_transactions S chain previous_head current_head = do
  let resolved = or_main_tip chain current_head
  common ← find_common_ancestor chain previous_head resolved
  previous_transactions ← collect_branch_transactions chain previous_head common
  current_transactions ← collect_branch_transactions chain resolved common
  pending ← revalidated S chain previous_transactions current_transactions
  some (Check.◌>>=◌ pending λ ts. pass (record chain { pending_transactions = ts }))
