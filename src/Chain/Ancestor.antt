-- ===== src/Chain/Ancestor.antt =====
-- What the walks of Chain/Walk find in a tree of blocks.
use unc_coin.Prelude.{
  ℕ, zero, suc, ◌≤◌, String, ◌≡◌, ◌⊎◌, refl, sym, ◌∙◌, ap, Bool, true, false, none, some, arith,
  str_eq, eq_refl, Bool-cases, Option-cases, str_eq-cases, inl, inr,
}
use mathlib.Core.Logic.{◌↔◌}
use unc_coin.Dict.{lookup, contains}
use unc_coin.Chain.State.{ChainState}
use unc_coin.Chain.Reward.{Block}
use unc_coin.Chain.Block.{Rules}
use unc_coin.Chain.Store.{Blockchain}
use unc_coin.Chain.Link.{IsLinked, Link, first, next}
use unc_coin.Chain.Walk.{parent_hash, depth, ancestor_loop, is_ancestor}

-- A stored block is an ancestor of itself and of the blocks above it.
pub data Ancestor (chain : Blockchain) (a : String) : String → Type 0 where
  here : {d : String} → a ≡ d → contains d chain.block_states ≡ true → Ancestor chain a d
  up :
      {d p : String} → parent_hash chain d ≡ some (some p) → Ancestor chain a p → Ancestor chain a d

-- What is under a stored block.
pub data Under (chain : Blockchain) (h : String) : Type 0 where
  bottom : parent_hash chain h ≡ some none → depth chain h ≡ 1 → Under chain h
  deeper :
      (p : String)
      → parent_hash chain h ≡ some (some p)
      → contains p chain.block_states ≡ true
      → depth chain h ≡ suc (depth chain p)
      → Under chain h

module _ (R : Rules) (chain : Blockchain)
    (linked : IsLinked R chain.blocks_by_hash chain.block_states) where
  pub stored_state :
      (h : String)
      → contains h chain.block_states ≡ true
      → (s : ChainState) × (lookup h chain.block_states ≡ some s)
  unfolding contains
  stored_state h stored = elim (Option-cases (lookup h chain.block_states)) [
    | inl e ↦ let nothing = rw e at stored in cc
    | inr found ↦ found
  ]

  pub depth_of :
      (h : String) (s : ChainState)
      → lookup h chain.block_states ≡ some s
      → depth chain h ≡ s.next_height
  unfolding depth
  depth_of h s found = rw (depth, found) refl

  pub contains_of :
      (h : String) (s : ChainState)
      → lookup h chain.block_states ≡ some s
      → contains h chain.block_states ≡ true
  unfolding contains
  contains_of h s found = rw found refl

  linked-Under :
      (h : String) (b : Block) (s : ChainState)
      → lookup h chain.blocks_by_hash ≡ some b
      → lookup h chain.block_states ≡ some s
      → Link R chain.block_states b s
      → Under chain h
  unfolding parent_hash
  linked-Under h b s block found (first genesis checked height built) =
      bottom (rw (block, genesis) refl) (depth_of h s found ∙ height)
  linked-Under h b s block found (next p child parent height built) =
      deeper b.previous_hash (rw (block, child) refl) (contains_of b.previous_hash p parent)
        (depth_of h s found ∙ height ∙ ap suc (sym (depth_of b.previous_hash p parent)))

  -- A stored block stands on another one, one less high, or is the genesis block.
  pub stored-Under : (h : String) → contains h chain.block_states ≡ true → Under chain h
  stored-Under h stored =
      let (s, found) = stored_state h stored in
      let (b, block) = linked.blocked h s found in
      let (s', found', link) = linked.stated h b block in linked-Under h b s' block found' link

  pub depth_pos : (h : String) → contains h chain.block_states ≡ true → 1 ≤ depth chain h
  depth_pos h stored = elim (stored-Under h stored) [
    | bottom e low ↦ omega arith
    | deeper p e parent high ↦ omega arith
  ]

  -- What has a parent is stored, and so is the parent.
  stored_of_parent :
      (h p : String) → parent_hash chain h ≡ some (some p) → contains h chain.block_states ≡ true
  unfolding parent_hash
  stored_of_parent h p e = elim (Option-cases (lookup h chain.blocks_by_hash)) [
    | inl nothing ↦ let stuck = rw nothing at e in cc
    | inr (b, block) ↦ let (s, found, link) = linked.stated h b block in contains_of h s found
  ]

  pub parent_stored :
      (h p : String)
      → parent_hash chain h ≡ some (some p)
      → (contains p chain.block_states ≡ true) × (depth chain h ≡ suc (depth chain p))
  parent_stored h p e = elim (stored-Under h (stored_of_parent h p e)) [
    | bottom e' low ↦ cc
    | deeper q e' parent high ↦ let same : q ≡ p = cc in (rw same at parent, rw same at high)
  ]

  pub Ancestor-cases :
      {a d : String}
      → Ancestor chain a d
      → (a ≡ d) ⊎ ((p : String) × (parent_hash chain d ≡ some (some p)) × Ancestor chain a p)
  Ancestor-cases (here e stored) = inl e
  Ancestor-cases (up {d} {p} e rest) = inr (p, e, rest)

  pub Ancestor-contains : {a d : String} → Ancestor chain a d → contains a chain.block_states ≡ true
  Ancestor-contains (here e stored) = rw e stored
  Ancestor-contains (up e rest) = Ancestor-contains rest

  pub Ancestor-contains_end :
      {a d : String} → Ancestor chain a d → contains d chain.block_states ≡ true
  Ancestor-contains_end (here e stored) = stored
  Ancestor-contains_end (up {d} {p} e rest) = stored_of_parent d p e

  pub Ancestor-depth : {a d : String} → Ancestor chain a d → depth chain a ≤ depth chain d
  Ancestor-depth (here e stored) = rw e (omega arith)
  Ancestor-depth (up {d} {p} e rest) =
      let low = Ancestor-depth rest in let (_, high) = parent_stored d p e in omega arith

  -- Another ancestor than the block itself is one of its parent.
  pub to_parent :
      {a d p : String}
      → (a ≡ d → ⊥)
      → parent_hash chain d ≡ some (some p)
      → Ancestor chain a d
      → Ancestor chain a p
  to_parent {a} {d} {p} other e anc = elim (Ancestor-cases anc) [
    | inl same ↦ elim (other same) [ ]
    | inr (q, e', rest) ↦ let same : q ≡ p = cc in rw same at rest
  ]

  pub differ : {a b : String} → str_eq a b ≡ false → b ≡ a → ⊥
  differ {a} {b} other same = let e = rw (same, eq_refl) at other in cc

  ancestor_loop-decides :
      (a : String) (fuel : ℕ) (d : String)
      → contains d chain.block_states ≡ true
      → depth chain d ≤ fuel
      → (b : Bool) × (ancestor_loop chain a fuel d ≡ some b) × ((b ≡ true) ↔ Ancestor chain a d)
  unfolding ancestor_loop
  ancestor_loop-decides a zero d stored enough =
      let high = depth_pos d stored in let never : ⊥ = omega arith in elim never [ ]
  ancestor_loop-decides a (suc fuel) d stored enough = elim (str_eq-cases d a) [
    | inl same ↦ (true, rw (same, eq_refl) refl, (λ e. here (sym same) stored, λ e. refl))
    | inr other ↦ elim (stored-Under d stored) [
      | bottom e low ↦ (
        false,
        rw (other, e) refl,
        (
          λ no. cc,
          λ anc. elim (Ancestor-cases anc) [
            | inl same ↦ elim (differ other same) [ ]
            | inr (q, e', rest) ↦ cc
          ],
        ),
      )
      | deeper p e parent high ↦
          let (b, found, iff) = ancestor_loop-decides a fuel p parent (omega arith) in
          (
            b,
            rw (other, e) found,
            (λ t. up e (iff.0 t), λ anc. iff.1 (to_parent (differ other) e anc)),
          )
    ]
  ]

  not_stored :
      (a d : String)
      → ((contains a chain.block_states ≡ false) ⊎ (contains d chain.block_states ≡ false))
      → (false ≡ true) ↔ Ancestor chain a d
  not_stored a d missing = (
    λ no. cc,
    λ anc. elim missing [
      | inl e ↦ let stored = Ancestor-contains anc in cc
      | inr e ↦ let stored = Ancestor-contains_end anc in cc
    ],
  )

  -- `is_ancestor` ends, and tells exactly whether the one block is an ancestor of the other.
  pub is_ancestor-decides :
      (a d : String)
      → str_eq a "" ≡ false
      → (b : Bool) × (is_ancestor chain a (some d) ≡ some b) × ((b ≡ true) ↔ Ancestor chain a d)
  unfolding is_ancestor
  is_ancestor-decides a d named = elim (Bool-cases (contains a chain.block_states)) [
    | inr missing ↦ (false, rw (named, missing) refl, not_stored a d (inl missing))
    | inl known ↦ elim (Bool-cases (contains d chain.block_states)) [
      | inr missing ↦ (false, rw (named, known, missing) refl, not_stored a d (inr missing))
      | inl stored ↦
          let (b, found, iff) =
            ancestor_loop-decides a (suc (depth chain d)) d stored (omega arith) in
          (b, rw (named, known, stored) found, iff)
    ]
  ]
