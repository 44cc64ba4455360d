-- ===== src/Chain/Link.antt =====
-- What a block may stand on, and the tree that the stored blocks and their states make.
use unc_coin.Prelude.{
  ℕ, suc, String, ◌==◌, ◌≡◌, ◌⊎◌, refl, sym, true, false, not, ◌&&◌, ◌||◌, none, some, List, [],
  ◌∷◌, arith, str_eq, eq_iff, eq_refl, Bool-cases, str_eq-cases, inl, inr,
}
use unc_coin.Dict.{Dict, lookup, insert, lookup-insert}
use unc_coin.Chain.State.{ChainState, empty_state}
use unc_coin.Chain.Check.{
  pass, Ensures, passes, Ensures-if, Ensures-bind, Ensures-need, Ensures-require, Ensures-refuse_if,
  require-eq-pass, genesis_invalid, missing_parent_state, height_mismatch, another_genesis,
}
use unc_coin.Chain.Reward.{Block, is_empty}
use unc_coin.Chain.Block.{Rules, check_genesis, build_child_state}
use unc_coin.Chain.Store.{
  Blockchain, get_parent_state, genesis_parent, stored_parent, is_genesis, has_other_genesis,
}

eq_of_test : (m n : ℕ) → (m == n) ≡ true → m ≡ n
eq_of_test m n h = ground (arith, h)

eq_of_empty : {A : Type 0} (xs : List A) → is_empty xs ≡ true → xs ≡ []
eq_of_empty [] h = refl
eq_of_empty (x ∷ xs) h = cc

-- What the checks of the genesis block make sure of.
check_genesis-Ensures :
    (R : Rules) (block : Block)
    → check_genesis R block ≡ pass tt
    → (block.block_id ≡ 0) × (block.transactions ≡ [])
unfolding check_genesis
check_genesis-Ensures R block h =
    let (first, h1) = require-eq-pass (block.block_id == 0) genesis_invalid _ h in
    let (empty, _) = require-eq-pass (is_empty block.transactions) genesis_invalid _ h1 in
    (eq_of_test block.block_id 0 first, eq_of_empty block.transactions empty)

-- What a block may stand on.
pub data Parent (R : Rules) (chain : Blockchain) (block : Block) : ChainState → Type 0 where
  root :
      is_genesis block ≡ true
      → check_genesis R block ≡ pass tt
      → has_other_genesis block.block_hash chain.blocks_by_hash ≡ false
      → block.block_id ≡ 0
      → block.transactions ≡ []
      → Parent R chain block empty_state
  above :
      (s : ChainState)
      → is_genesis block ≡ false
      → lookup block.previous_hash chain.block_states ≡ some s
      → (block.block_id == s.next_height) ≡ true
      → Parent R chain block s

genesis_parent-Parent :
    (R : Rules) (chain : Blockchain) (block : Block)
    → is_genesis block ≡ true
    → Ensures (Parent R chain block) (genesis_parent R chain block)
unfolding genesis_parent
genesis_parent-Parent R chain block genesis = Ensures-bind (check_genesis R block) λ u h.
    let (number, empty) = check_genesis-Ensures R block h in
    Ensures-refuse_if (has_other_genesis block.block_hash chain.blocks_by_hash) another_genesis
      λ only. passes (root genesis h only number empty)

stored_parent-Parent :
    (R : Rules) (chain : Blockchain) (block : Block)
    → is_genesis block ≡ false
    → Ensures (Parent R chain block) (stored_parent chain block)
unfolding stored_parent
stored_parent-Parent R chain block child =
    Ensures-need (lookup block.previous_hash chain.block_states) missing_parent_state λ s found.
      Ensures-require (block.block_id == s.next_height) height_mismatch
        λ fits. passes (above s child found fits)

pub get_parent_state-Parent :
    (R : Rules) (chain : Blockchain) (block : Block)
    → Ensures (Parent R chain block) (get_parent_state R chain block)
unfolding get_parent_state
get_parent_state-Parent R chain block =
    Ensures-if (is_genesis block) (genesis_parent-Parent R chain block)
      (stored_parent-Parent R chain block)

-- How the state of a stored block comes about: from the empty state under a genesis block, from the
-- stored state of its parent under any other.
pub data Link (R : Rules) (states : Dict ChainState) (block : Block) (s : ChainState) : Type 0 where
  first :
      is_genesis block ≡ true
      → check_genesis R block ≡ pass tt
      → s.next_height ≡ 1
      → build_child_state R block empty_state ≡ pass s
      → Link R states block s
  next :
      (p : ChainState)
      → is_genesis block ≡ false
      → lookup block.previous_hash states ≡ some p
      → s.next_height ≡ suc p.next_height
      → build_child_state R block p ≡ pass s
      → Link R states block s

-- Each stored block has a state, which its parent's state leads to, and each state has a block; the
-- blocks stand under their own hashes, and there is one genesis block at most.
pub record IsLinked (R : Rules) (blocks : Dict Block) (states : Dict ChainState) : Type 0 where
  pub stated :
      (h : String) (b : Block)
      → lookup h blocks ≡ some b
      → (s : ChainState) × (lookup h states ≡ some s) × Link R states b s
  pub blocked :
      (h : String) (s : ChainState)
      → lookup h states ≡ some s
      → (b : Block) × (lookup h blocks ≡ some b)
  pub keyed : (h : String) (b : Block) → lookup h blocks ≡ some b → b.block_hash ≡ h
  pub one_root :
      (h : String) (b : Block)
      → lookup h blocks ≡ some b
      → is_genesis b ≡ true
      → has_other_genesis h blocks ≡ false

has_other_genesis-insert :
    (h k : String) (b : Block) (d : Dict Block)
    → lookup k d ≡ none
    → has_other_genesis h (insert k b d)
      ≡ (has_other_genesis h d || (is_genesis b && not (str_eq k h)))
unfolding has_other_genesis insert lookup
has_other_genesis-insert h k b [] e = ground arith
has_other_genesis-insert h k b ((j, c) ∷ d) e = ground (arith, has_other_genesis-insert h k b d, e)

-- All genesis blocks of a dict without another genesis block stand under the one hash.
pub has_other_genesis_none :
    (h k : String) (b : Block) (d : Dict Block)
    → has_other_genesis h d ≡ false
    → lookup k d ≡ some b
    → is_genesis b ≡ true
    → k ≡ h
unfolding has_other_genesis lookup
has_other_genesis_none h k b [] only found genesis = cc
has_other_genesis_none h k b ((j, c) ∷ d) only found genesis =
    ground (arith, only, found, genesis, eq_iff j k, eq_iff j h, has_other_genesis_none h k b d)

-- An entry stays where it is when a key that is not there is stored.
pub lookup-insert_fresh :
    {V : Type 0} (h k : String) (v w : V) (d : Dict V)
    → lookup k d ≡ none
    → lookup h d ≡ some v
    → lookup h (insert k w d) ≡ some v
lookup-insert_fresh h k v w d fresh found = elim (str_eq-cases k h) [
  | inl same ↦ let here = rw same at fresh in cc
  | inr other ↦ rw (lookup-insert, other) found
]

module _ (R : Rules) (chain : Blockchain) (block : Block) (state : ChainState)
    (fresh : lookup block.block_hash chain.blocks_by_hash ≡ none)
    (unknown : lookup block.block_hash chain.block_states ≡ none) where
  abbrev new_blocks : Dict Block
  new_blocks = insert block.block_hash block chain.blocks_by_hash

  abbrev new_states : Dict ChainState
  new_states = insert block.block_hash state chain.block_states

  Link-insert : (b : Block) (s : ChainState) → Link R chain.block_states b s → Link R new_states b s
  Link-insert b s (first genesis checked height built) = first genesis checked height built
  Link-insert b s (next p child found height built) =
      next p child (lookup-insert_fresh b.previous_hash block.block_hash p state _ unknown found)
        height built

  -- The new block stands under its hash in place of nothing.
  new_block-cases :
      (h : String) (b : Block)
      → lookup h new_blocks ≡ some b
      → ((h ≡ block.block_hash) × (b ≡ block)) ⊎ (lookup h chain.blocks_by_hash ≡ some b)
  new_block-cases h b found = elim (str_eq-cases block.block_hash h) [
    | inl same ↦
        let here = rw (lookup-insert, same, eq_refl) at found in
        let e : b ≡ block = cc in inl (sym same, e)
    | inr other ↦ inr (rw (lookup-insert, other) at found)
  ]

  new-stated :
      IsLinked R chain.blocks_by_hash chain.block_states
      → Link R chain.block_states block state
      → (h : String) (b : Block) → lookup h new_blocks ≡ some b
      → (s : ChainState) × (lookup h new_states ≡ some s) × Link R new_states b s
  new-stated linked link h b found = elim (new_block-cases h b found) [
    | inl (here, same) ↦
        (state, rw (here, lookup-insert, eq_refl) refl, rw same (Link-insert block state link))
    | inr stored ↦
        let (s, e, old) = linked.stated h b stored in
        (s, lookup-insert_fresh h block.block_hash s state _ unknown e, Link-insert b s old)
  ]

  new-one_root :
      IsLinked R chain.blocks_by_hash chain.block_states
      → (is_genesis block ≡ true → has_other_genesis block.block_hash chain.blocks_by_hash ≡ false)
      → (h : String) (b : Block) → lookup h new_blocks ≡ some b
      → is_genesis b ≡ true
      → has_other_genesis h new_blocks ≡ false
  new-one_root linked only h b found genesis = elim (new_block-cases h b found) [
    | inl (here, same) ↦
        let alone = only (rw same at genesis) in
        rw (here, has_other_genesis-insert block.block_hash block.block_hash block _ fresh)
          (ground (arith, alone, eq_refl block.block_hash))
    | inr stored ↦
        let alone = linked.one_root h b stored genesis in
        rw (has_other_genesis-insert h block.block_hash block _ fresh, alone)
          (elim (Bool-cases (is_genesis block)) [
            | inl root_too ↦
                let same =
                  has_other_genesis_none block.block_hash h b chain.blocks_by_hash (only root_too)
                    stored genesis in
                let here = rw same at stored in cc
            | inr child ↦ rw child refl
          ])
  ]

  -- A tree of blocks with one more block, whose state its parent's state leads to.
  pub insert-IsLinked :
      IsLinked R chain.blocks_by_hash chain.block_states
      → Link R chain.block_states block state
      → (is_genesis block ≡ true → has_other_genesis block.block_hash chain.blocks_by_hash ≡ false)
      → IsLinked R new_blocks new_states
  insert-IsLinked linked link only = record {
    stated = new-stated linked link;
    blocked = λ h s found. elim (str_eq-cases block.block_hash h) [
      | inl same ↦ (block, rw (same, lookup-insert, eq_refl) refl)
      | inr other ↦
          let (b, e) = linked.blocked h s (rw (lookup-insert, other) at found) in
          (b, rw (lookup-insert, other) e)
    ];
    keyed = λ h b found. elim (new_block-cases h b found) [
      | inl (here, same) ↦ rw (here, same) refl
      | inr stored ↦ linked.keyed h b stored
    ];
    one_root = new-one_root linked only;
  }
