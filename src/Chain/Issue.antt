-- ===== src/Chain/Issue.antt =====
-- The money in the state of every stored block, and the main tip.
use unc_coin.Prelude.{
  ℕ, suc, ◌*◌, ◌≤◌, String, ◌==◌, ◌≡◌, ◌∙◌, refl, ap, true, false, none, some, List, [], ◌∷◌, arith,
}
use unc_coin.Prelude.Int.{ℤ, pos, ◌+ℤ◌}
use unc_coin.Dict.{lookup, lookup_or}
use unc_coin.Dict.Sum.{total}
use unc_coin.Externals.{Externals}
use unc_coin.Transaction.{Transaction}
use unc_coin.Chain.State.{ChainState, empty_state}
use unc_coin.Chain.Check.{
  ◌>>=◌, Checked, pass, reject, Ensures, passes, rejects, Ensures-bind, Ensures-eq,
}
use unc_coin.Chain.Balances.{IsSolvent}
use unc_coin.Chain.Reward.{Block, mining_reward, check_reward_amount}
use unc_coin.Chain.Block.{
  Rules, build_child_state, check_child, reward_only, apply_block, apply_transactions,
}
use unc_coin.Chain.Supply.{build_child_state-Extends}
use unc_coin.Chain.Store.{Blockchain, get_parent_state, is_genesis, has_other_genesis}
use unc_coin.Chain.Link.{Parent, root, above, Link, first, next, IsLinked, get_parent_state-Parent}

-- A state at a height holds the fixed reward once for each block above the genesis block.
pub record IsIssued (R : Rules) (s : ChainState) : Type 0 where
  pub height : ℕ
  pub at_height : s.next_height ≡ suc height
  pub supply : total s.balances ≡ pos (height * mining_reward R.externals)
  pub solvent : IsSolvent s.balances

nothing_applied :
    (S : Externals) (ts : List Transaction) (s : ChainState) (height : ℕ) (fees : ℤ)
    → ts ≡ []
    → Ensures (λ r. r.0 ≡ s) (apply_transactions S ts s height fees)
unfolding apply_transactions
nothing_applied S [] s height fees e = passes refl
nothing_applied S (t ∷ ts) s height fees e = cc

nothing_rewarded :
    (R : Rules) (block : Block) (ts : List Transaction) (s : ChainState)
    → ts ≡ []
    → reward_only R block ts s ≡ none
unfolding reward_only
nothing_rewarded R block [] s e = refl
nothing_rewarded R block (t ∷ ts) s e = cc

issue_none : (x : ℕ) → pos 0 ≡ pos (0 * x)
issue_none x = grind arith

issue_one : (n x : ℕ) → pos (n * x) +ℤ pos x ≡ pos (suc n * x)
unfolding ◌+ℤ◌
issue_one n x = grind arith

genesis-IsIssued :
    (R : Rules) (block : Block)
    → block.block_id ≡ 0
    → block.transactions ≡ []
    → Ensures (λ s. IsIssued R s × (s.next_height ≡ 1)) (build_child_state R block empty_state)
unfolding build_child_state apply_block total lookup lookup_or
genesis-IsIssued R block number empty =
    let start = record empty_state { next_height = suc block.block_id } in
    let ts = block.transactions in
    Ensures-bind (check_child R block) λ _ _. rw (nothing_rewarded R block ts empty_state empty) (
      Ensures-bind (apply_transactions R.externals ts start block.block_id (pos 0)) λ r h.
        let same =
          Ensures-eq (nothing_applied R.externals ts start block.block_id (pos 0) empty) h in
        Ensures-bind (check_reward_amount R.externals block r.1) λ _ _.
          let height = ap (λ s. s.next_height) same ∙ ap suc number in
          passes (
            record {
              height = 0;
              at_height = height;
              supply = ap (λ s. total s.balances) same ∙ issue_none (mining_reward R.externals);
              solvent = rw same (λ a. omega arith);
            },
            height,
          ))

extended_height :
    (R : Rules) (block : Block) (s : ChainState) {r : ChainState}
    → IsIssued R s
    → (block.block_id == s.next_height) ≡ true
    → build_child_state R block s ≡ pass r
    → r.next_height ≡ suc s.next_height
extended_height R block s {r} issued fits h =
    let at_height = issued.at_height in
    let numbered : (block.block_id == 0) ≡ false = ground (arith, fits, at_height) in
    let same : block.block_id ≡ s.next_height = ground (arith, fits) in
    let more = build_child_state-Extends R block s numbered h in more.height ∙ ap suc same

-- The next block issues the reward once more.
extended-IsIssued :
    (R : Rules) (block : Block) (s : ChainState) {r : ChainState}
    → IsIssued R s
    → (block.block_id == s.next_height) ≡ true
    → build_child_state R block s ≡ pass r
    → IsIssued R r
extended-IsIssued R block s {r} issued fits h =
    let at_height = issued.at_height in
    let numbered : (block.block_id == 0) ≡ false = ground (arith, fits, at_height) in
    let same : block.block_id ≡ s.next_height = ground (arith, fits) in
    let more = build_child_state-Extends R block s numbered h in
    record {
      height = suc issued.height;
      at_height = more.height ∙ ap suc (same ∙ at_height);
      supply = more.supply ∙ rw issued.supply (issue_one issued.height (mining_reward R.externals));
      solvent = more.solvent issued.solvent;
    }

as_ensured :
    {A : Type 0} {P : A → Type 0} (m : Checked A) → ((a : A) → m ≡ pass a → P a) → Ensures P m
as_ensured (pass a) h = passes (h a refl)
as_ensured (reject r) h = rejects

-- What the store of a chain keeps: the state of every block is issued, the main tip is one of the
-- highest, and the blocks with their states are one tree.
pub record IsSound (R : Rules) (chain : Blockchain) : Type 0 where
  pub issued : (h : String) (s : ChainState) → lookup h chain.block_states ≡ some s → IsIssued R s
  pub tip :
      (t : String)
      → chain.main_tip_hash ≡ some t
      → (top : ChainState) × (lookup t chain.block_states ≡ some top)
        × ((h : String) (s : ChainState)
            → lookup h chain.block_states ≡ some s
            → s.next_height ≤ top.next_height)
  pub linked : IsLinked R chain.blocks_by_hash chain.block_states
  pub tipless : chain.main_tip_hash ≡ none → (h : String) → lookup h chain.block_states ≡ none

-- A state that a block may be stored with.
pub record IsChild (R : Rules) (chain : Blockchain) (block : Block) (r : ChainState) : Type 0 where
  pub issued : IsIssued R r
  pub link : Link R chain.block_states block r
  pub only :
      is_genesis block ≡ true → has_other_genesis block.block_hash chain.blocks_by_hash ≡ false

Parent-IsChild :
    (R : Rules) (chain : Blockchain) (block : Block) (s : ChainState) {r : ChainState}
    → IsSound R chain
    → Parent R chain block s
    → build_child_state R block s ≡ pass r
    → IsChild R chain block r
Parent-IsChild R chain block _ sound (root genesis checked alone number empty) h =
    let (issued, height) = Ensures-eq (genesis-IsIssued R block number empty) h in
    record { issued = issued; link = first genesis checked height h; only = λ e. alone }
Parent-IsChild R chain block _ sound (above s child found fits) h =
    let below = sound.issued block.previous_hash s found in
    record {
      issued = extended-IsIssued R block s below fits h;
      link = next s child found (extended_height R block s below fits h) h;
      only = λ e. cc;
    }

-- The state that a checked block leads to may be stored with it.
pub checked-IsChild :
    (R : Rules) (chain : Blockchain) (block : Block)
    → IsSound R chain
    → Ensures (IsChild R chain block) (get_parent_state R chain block >>= build_child_state R block)
checked-IsChild R chain block sound = Ensures-bind (get_parent_state R chain block) λ s h.
    let parent = Ensures-eq (get_parent_state-Parent R chain block) h in
    as_ensured (build_child_state R block s)
      λ r built. Parent-IsChild R chain block s sound parent built
