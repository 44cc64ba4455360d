-- ===== src/Chain/Segment.antt =====
-- Why the lists of the blocks under a block are complete.
use unc_coin.Prelude.{
  ℕ, zero, suc, ◌≤◌, String, ◌≡◌, refl, sym, ◌∙◌, ap, Bool, true, false, Option, none, some, List,
  [], ◌∷◌, ◌++◌, reverse, arith, if◌then◌else◌, length, Bool-cases, inl, inr,
}
use unc_coin.Dict.{lookup, contains}
use unc_coin.Chain.State.{ChainState}
use unc_coin.Chain.Reward.{Block}
use unc_coin.Chain.Block.{Rules}
use unc_coin.Chain.Store.{Blockchain, is_genesis}
use unc_coin.Chain.Link.{IsLinked, Link, first, next}
use unc_coin.Chain.Walk.{depth}
use unc_coin.Chain.Ancestor.{stored_state, depth_of, contains_of, depth_pos}
use unc_coin.Chain.Branch.{
  is_stop, chain_loop, get_chain, branch_loop, collect_branch_transactions, transactions_of,
  transactions_of_reversed,
}

-- The blocks from a block down to the genesis block, or to a block in front of which to stop.
pub data Segment (chain : Blockchain) (stop : Option String)
    : Option String → List Block → Type 0 where
  over : Segment chain stop none []
  stopped : {h : String} → is_stop stop h ≡ true → Segment chain stop (some h) []
  block :
      {h : String} (b : Block) {bs : List Block}
      → lookup h chain.blocks_by_hash ≡ some b
      → is_stop stop h ≡ false
      → Segment chain stop (if is_genesis b then none else some b.previous_hash) bs
      → Segment chain stop (some h) (b ∷ bs)

-- What the walk finds at a stored block.
data Footing (chain : Blockchain) (h : String) : Type 0 where
  on_nothing :
      (b : Block)
      → lookup h chain.blocks_by_hash ≡ some b
      → is_genesis b ≡ true
      → depth chain h ≡ 1
      → Footing chain h
  on_parent :
      (b : Block)
      → lookup h chain.blocks_by_hash ≡ some b
      → is_genesis b ≡ false
      → contains b.previous_hash chain.block_states ≡ true
      → depth chain h ≡ suc (depth chain b.previous_hash)
      → Footing chain h

snoc_all : {A : Type 0} (xs ys : List A) (x : A) → (xs ++ x ∷ []) ++ ys ≡ xs ++ x ∷ ys
snoc_all [] ys x = refl
snoc_all (z ∷ xs) ys x = ap (λ l. z ∷ l) (snoc_all xs ys x)

append_none : {A : Type 0} (xs : List A) → xs ++ [] ≡ xs
append_none [] = refl
append_none (x ∷ xs) = ap (λ l. x ∷ l) (append_none xs)

else_branch :
    {A : Type 0} {x y : A} (z : A) (c : Bool) → c ≡ false → x ≡ y → (if c then z else x) ≡ y
else_branch z true h e = cc
else_branch z false h e = e

module _ (R : Rules) (chain : Blockchain)
    (linked : IsLinked R chain.blocks_by_hash chain.block_states) where
  linked-Footing :
      (h : String) (b : Block) (s : ChainState)
      → lookup h chain.blocks_by_hash ≡ some b
      → lookup h chain.block_states ≡ some s
      → Link R chain.block_states b s
      → Footing chain h
  linked-Footing h b s found state (first genesis checked height built) =
      on_nothing b found genesis (depth_of R chain linked h s state ∙ height)
  linked-Footing h b s found state (next p child parent height built) =
      on_parent b found child (contains_of R chain linked b.previous_hash p parent) (
        depth_of R chain linked h s state
        ∙ height
        ∙ ap suc (sym (depth_of R chain linked b.previous_hash p parent)))

  stored-Footing : (h : String) → contains h chain.block_states ≡ true → Footing chain h
  stored-Footing h stored =
      let (s, found) = stored_state R chain linked h stored in
      let (b, e) = linked.blocked h s found in
      let (s', found', link) = linked.stated h b e in linked-Footing h b s' e found' link

  branch_loop-Segment :
      (stop : Option String) (fuel : ℕ) (h : String) (found : List Block)
      → contains h chain.block_states ≡ true
      → depth chain h ≤ fuel
      → (bs : List Block) × Segment chain stop (some h) bs
        × (branch_loop chain stop fuel h found ≡ some (found ++ bs))
  unfolding branch_loop
  branch_loop-Segment stop zero h found stored enough =
      let high = depth_pos R chain linked h stored in let never : ⊥ = omega arith in elim never [ ]
  branch_loop-Segment stop (suc fuel) h found stored enough = elim (Bool-cases (is_stop stop h)) [
    | inl halt ↦ ([], stopped halt, rw (halt, append_none) refl)
    | inr go ↦ elim (stored-Footing h stored) [
      | on_nothing b e genesis low ↦
          (b ∷ [], block b e go (rw genesis over), rw (e, go, genesis) refl)
      | on_parent b e child parent high ↦
          let (bs, segment, same) =
            branch_loop-Segment stop fuel b.previous_hash (found ++ b ∷ []) parent (omega arith) in
          (
            b ∷ bs,
            block b e go (rw child segment),
            rw (e, go, child) (same ∙ ap some (snoc_all found bs b)),
          )
    ]
  ]

  chain_loop-Segment :
      (fuel : ℕ) (h : String) (found : List Block)
      → contains h chain.block_states ≡ true
      → depth chain h ≤ fuel
      → (bs : List Block) × Segment chain none (some h) bs
        × (length bs ≡ depth chain h)
        × (chain_loop chain fuel h found ≡ some (found ++ bs))
  unfolding chain_loop
  chain_loop-Segment zero h found stored enough =
      let high = depth_pos R chain linked h stored in let never : ⊥ = omega arith in elim never [ ]
  chain_loop-Segment (suc fuel) h found stored enough = elim (stored-Footing h stored) [
    | on_nothing b e genesis low ↦
        (b ∷ [], block b e refl (rw genesis over), sym low, rw (e, genesis) refl)
    | on_parent b e child parent high ↦
        let (bs, segment, count, same) =
          chain_loop-Segment fuel b.previous_hash (found ++ b ∷ []) parent (omega arith) in
        (
          b ∷ bs,
          block b e refl (rw child segment),
          ap suc count ∙ sym high,
          rw (e, child) (same ∙ ap some (snoc_all found bs b)),
        )
  ]

  -- The chain of a stored block has all blocks from the genesis block up to it, each on top of the
  -- one before it, and as many as its height says.
  pub get_chain-Segment :
      (h : String)
      → contains h chain.block_states ≡ true
      → (bs : List Block) × Segment chain none (some h) bs
        × (length bs ≡ depth chain h)
        × (get_chain chain (some h) ≡ some (reverse bs))
  unfolding get_chain
  get_chain-Segment h stored =
      let (bs, segment, count, same) =
        chain_loop-Segment (suc (depth chain h)) h [] stored (omega arith) in
      (bs, segment, count, rw same refl)

  -- The transactions between two blocks, the upper one stored: those of the blocks from the upper
  -- one down to the lower one or to the genesis block, in the order of the chain.
  pub collect_branch_transactions-Segment :
      (h : String) (stop : Option String)
      → contains h chain.block_states ≡ true
      → (bs : List Block) × Segment chain stop (some h) bs
        × (collect_branch_transactions chain (some h) stop ≡ some (transactions_of (reverse bs)))
  unfolding collect_branch_transactions transactions_of
  collect_branch_transactions-Segment h stop stored = elim (Bool-cases (is_stop stop h)) [
    | inl halt ↦ ([], stopped halt, rw halt refl)
    | inr go ↦
        let (bs, segment, same) =
          branch_loop-Segment stop (suc (depth chain h)) h [] stored (omega arith) in
        (bs, segment, else_branch (some []) _ go (ap transactions_of_reversed same))
  ]
