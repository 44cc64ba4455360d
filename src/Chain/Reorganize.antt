-- ===== src/Chain/Reorganize.antt =====
-- The reconciliation of the pending transactions on a sound store.
use unc_coin.Prelude.{
  String, ◌≡◌, refl, Option, none, some, true, List, [], ◌++◌, map, Option-cases, inl, inr,
}
use unc_coin.Dict.{contains}
use unc_coin.Externals.{Externals}
use unc_coin.Transaction.Serialize.{transaction_hash}
use unc_coin.Transaction.{Transaction}
use unc_coin.Chain.State.{ChainState, empty_state}
use unc_coin.Chain.Check.{Checked}
use unc_coin.Chain.Raise.{Returns, returns, Returns-bind}
use unc_coin.Chain.Store.{Blockchain}
use unc_coin.Chain.Block.{Rules}
use unc_coin.Chain.Walk.{find_common_ancestor}
use unc_coin.Chain.Ancestor.{contains_of}
use unc_coin.Chain.Meet.{find_common_ancestor-IsMeet}
use unc_coin.Chain.Branch.{or_main_tip, collect_branch_transactions}
use unc_coin.Chain.Segment.{collect_branch_transactions-Segment}
use unc_coin.Chain.Issue.{IsSound}
use unc_coin.Chain.Reconcile.{
  get_canonical_state, revalidated, resurrected, reconcile_pending_transactions,
}
use unc_coin.Chain.Revalidate.{IsValid, kept_of-IsValid}

-- No block, or a stored one.
abbrev pub IsHead : Blockchain → Option String → Type 0
IsHead chain none = Unit
IsHead chain (some h) = contains h chain.block_states ≡ true

-- What a reconciliation leaves: transactions that apply in order to the canonical state, under
-- different ids that are not those of the transactions of the new branch.
pub record IsReconciled (S : Externals) (chain : Blockchain) (previous current : Option String)
    (pending : List Transaction) : Type 0 where
  pub common : Option String
  pub met : find_common_ancestor chain previous (or_main_tip chain current) ≡ some common
  pub branch : List Transaction
  pub collected : collect_branch_transactions chain (or_main_tip chain current) common ≡ some branch
  pub state : ChainState
  pub canonical : get_canonical_state chain ≡ some state
  pub valid : IsValid S state (map (transaction_hash S) branch) pending

-- A reconciliation changes the pending transactions alone.
abbrev pub Reconciles : Externals → Blockchain → Option String → Option String → Blockchain → Type 0
Reconciles S chain previous current new =
    (pending : List Transaction) × (new ≡ record chain { pending_transactions = pending })
    × IsReconciled S chain previous current pending

-- The transactions that a reconciliation tries: those of the old branch that are no rewards and not
-- in the new branch, and the pending ones.
pub record AreCandidates (S : Externals) (chain : Blockchain) (previous current : Option String)
    (pool : List Transaction) : Type 0 where
  pub common : Option String
  pub met : find_common_ancestor chain previous (or_main_tip chain current) ≡ some common
  pub old : List Transaction
  pub old_collected : collect_branch_transactions chain previous common ≡ some old
  pub branch : List Transaction
  pub collected : collect_branch_transactions chain (or_main_tip chain current) common ≡ some branch
  pub all : pool ≡ resurrected S (map (transaction_hash S) branch) old ++ chain.pending_transactions

module _ (R : Rules) (chain : Blockchain) (sound : IsSound R chain) where
  find_total :
      (l r : Option String)
      → IsHead chain l
      → IsHead chain r
      → (c : Option String) × (find_common_ancestor chain l r ≡ some c)
  unfolding find_common_ancestor
  find_total none r left right = (none, refl)
  find_total (some l) none left right = (none, refl)
  find_total (some l) (some r) left right =
      let (c, e, m) = find_common_ancestor-IsMeet R chain sound.linked l r left right in (some c, e)

  collect_total :
      (h stop : Option String)
      → IsHead chain h
      → (ts : List Transaction) × (collect_branch_transactions chain h stop ≡ some ts)
  unfolding collect_branch_transactions
  collect_total none stop head = ([], refl)
  collect_total (some h) stop head =
      let (bs, segment, e) = collect_branch_transactions-Segment R chain sound.linked h stop head in
      (_, e)

  pub tip-IsHead : (t : Option String) → chain.main_tip_hash ≡ t → IsHead chain t
  tip-IsHead none e = tt
  tip-IsHead (some t) e =
      let (top, stored, below) = sound.tip t e in contains_of R chain sound.linked t top stored

  canonical_total : (s : ChainState) × (get_canonical_state chain ≡ some s)
  unfolding get_canonical_state
  canonical_total = elim (Option-cases chain.main_tip_hash) [
    | inl e ↦ (empty_state, rw e refl)
    | inr (t, e) ↦ let (top, stored, below) = sound.tip t e in (top, rw e stored)
  ]

  pub resolved-IsHead :
      (current : Option String) → IsHead chain current → IsHead chain (or_main_tip chain current)
  resolved-IsHead none head = tip-IsHead chain.main_tip_hash refl
  resolved-IsHead (some h) head = head

  -- The reconciliation of the pending transactions of a sound store after a move from one head to
  -- another ends, without a `KeyError`, and changes the pending transactions alone: the new ones
  -- apply in order to the state of the main tip, each is there once, and none is in the new branch.
  -- Only the application of one of the transactions that it tries to some state can end it with a
  -- `ValueError`.
  pub reconcile_pending_transactions-IsReconciled :
      (previous current : Option String)
      → IsHead chain previous
      → IsHead chain current
      → (c : Checked Blockchain) × (reconcile_pending_transactions R.externals chain previous
            current
          ≡ some c)
        × (pool : List Transaction) × AreCandidates R.externals chain previous current pool
        × Returns R.externals pool (Reconciles R.externals chain previous current) c
  unfolding reconcile_pending_transactions revalidated
  reconcile_pending_transactions-IsReconciled previous current before now =
      let S = R.externals in
      let head = resolved-IsHead current now in
      let (common, met) = find_total previous (or_main_tip chain current) before head in
      let (old, old_found) = collect_total previous common before in
      let (branch, found) = collect_total (or_main_tip chain current) common head in
      let (state, canonical) = canonical_total in
      let ids = map (transaction_hash S) branch in
      let pool = resurrected S ids old ++ chain.pending_transactions in
      let (c, kept, valid) =
        kept_of-IsValid S state ids (get_canonical_state chain) pool canonical in
      (
        _,
        rw (met, old_found, found, kept) refl,
        pool,
        record {
          common = common;
          met = met;
          old = old;
          old_collected = old_found;
          branch = branch;
          collected = found;
          all = refl;
        },
        Returns-bind valid λ pending h. returns (
          pending,
          refl,
          record {
            common = common;
            met = met;
            branch = branch;
            collected = found;
            state = state;
            canonical = canonical;
            valid = h;
          },
        ),
      )
