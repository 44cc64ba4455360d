-- ===== src/Chain/Sound.antt =====
-- Storing a block keeps the store sound.
use unc_coin.Prelude.{
  ◌≤◌, String, ◌≡◌, refl, Bool, true, false, not, ◌&&◌, none, some, List, arith, str_eq, eq_refl,
  ltb, if◌then◌else◌, Bool-cases, Option-cases, str_eq-cases, inl, inr,
}
use unc_coin.Dict.{Dict, lookup, insert, contains, lookup-insert, contains-insert}
use unc_coin.Transaction.{Transaction}
use unc_coin.Chain.State.{ChainState}
use unc_coin.Chain.Check.{Reason, Checked, pass, reject, ◌>>=◌, Ensures, passes}
use unc_coin.Chain.Reward.{Block}
use unc_coin.Chain.Block.{Rules, build_child_state}
use unc_coin.Chain.Store.{
  Blockchain, Added, accepted, duplicate, missing_parent, invalid, get_parent_state, is_genesis,
  store_block, store_checked, check_and_store, should_update_main_tip,
}
use unc_coin.Chain.Link.{insert-IsLinked}
use unc_coin.Chain.Issue.{IsIssued, IsChild, IsSound, checked-IsChild}

as_stored : {R : Rules} {s s' : ChainState} → some s ≡ some s' → IsIssued R s → IsIssued R s'
as_stored {R} {s} {s'} e issued = let same : s ≡ s' = cc in rw same at issued

module _ (R : Rules) (block : Block) (state : ChainState) (chain : Blockchain) where
  abbrev states : Dict ChainState
  states = insert block.block_hash state chain.block_states

  states-IsIssued :
      IsSound R chain
      → IsIssued R state
      → (h : String) (s : ChainState) → lookup h states ≡ some s
      → IsIssued R s
  states-IsIssued sound issued h s found = elim (Bool-cases (str_eq block.block_hash h)) [
    | inl same ↦ let here = rw (lookup-insert, same) at found in as_stored here issued
    | inr other ↦ sound.issued h s (rw (lookup-insert, other) at found)
  ]

  -- The highest stored state, at the new main tip.
  IsTop : Dict ChainState → String → Type 0
  IsTop d t =
      (top : ChainState) × (lookup t d ≡ some top)
      × ((h : String) (s : ChainState) → lookup h d ≡ some s → s.next_height ≤ top.next_height)

  -- The new state is the highest if nothing stored is higher.
  new-IsTop :
      ((h : String) (s : ChainState)
        → lookup h chain.block_states ≡ some s
        → s.next_height ≤ state.next_height)
      → IsTop states block.block_hash
  unfolding IsTop
  new-IsTop below = (
    state,
    rw (lookup-insert, eq_refl) refl,
    λ h s found. elim (Bool-cases (str_eq block.block_hash h)) [
      | inl same ↦
          let here = rw (lookup-insert, same) at found in
          let e : state ≡ s = cc in rw e (omega arith)
      | inr other ↦ below h s (rw (lookup-insert, other) at found)
    ],
  )

  -- The old tip stays the highest if the new state is not higher.
  old-IsTop :
      (t : String) (top : ChainState)
      → str_eq block.block_hash t ≡ false
      → lookup t chain.block_states ≡ some top
      → ((h : String) (s : ChainState)
          → lookup h chain.block_states ≡ some s
          → s.next_height ≤ top.next_height)
      → state.next_height ≤ top.next_height
      → IsTop states t
  unfolding IsTop
  old-IsTop t top other stored below low = (
    top,
    rw (lookup-insert, other) stored,
    λ h s found. elim (Bool-cases (str_eq block.block_hash h)) [
      | inl same ↦
          let here = rw (lookup-insert, same) at found in let e : state ≡ s = cc in rw⁻¹ e low
      | inr away ↦ below h s (rw (lookup-insert, away) at found)
    ],
  )

-- An outcome that leaves a sound store, where it leaves one; a `KeyError` is none of these.
pub data IsKept (R : Rules) (states : Dict ChainState) (pending : List Transaction)
    : Added → Type 0 where
  kept_duplicate : IsKept R states pending duplicate
  kept_missing_parent : IsKept R states pending missing_parent
  kept_invalid : {r : Reason} → IsKept R states pending (invalid r)
  kept_accepted :
      {new : Blockchain}
      → IsSound R new
      → ((h : String) → contains h states ≡ true → contains h new.block_states ≡ true)
      → new.pending_transactions ≡ pending
      → IsKept R states pending (accepted new)

module _ (R : Rules) (block : Block) (chain : Blockchain) (sound : IsSound R chain)
    (fresh : contains block.block_hash chain.blocks_by_hash ≡ false) where
  no_block : lookup block.block_hash chain.blocks_by_hash ≡ none
  unfolding contains
  no_block = elim (Option-cases (lookup block.block_hash chain.blocks_by_hash)) [
    | inl e ↦ e
    | inr (b, e) ↦ let stored = rw e at fresh in cc
  ]

  unknown : lookup block.block_hash chain.block_states ≡ none
  unknown = elim (Option-cases (lookup block.block_hash chain.block_states)) [
    | inl e ↦ e
    | inr (s, e) ↦
        let (b, found) = sound.linked.blocked block.block_hash s e in let nothing = no_block in cc
  ]

  -- A chain with the new block, its state and a tip that is right for them.
  stored-IsSound :
      (state : ChainState) (children : Dict (List String)) (tip : String)
      → IsChild R chain block state
      → IsTop R block state chain (insert block.block_hash state chain.block_states) tip
      → IsSound R (record chain {
        blocks_by_hash = insert block.block_hash block chain.blocks_by_hash;
        block_states = insert block.block_hash state chain.block_states;
        children_by_hash = children;
        main_tip_hash = some tip;
      })
  unfolding IsTop
  stored-IsSound state children tip child top = record {
    issued = states-IsIssued R block state chain sound child.issued;
    tip = λ t e. let same : tip ≡ t = cc in rw same at top;
    linked =
        insert-IsLinked R chain block state no_block unknown sound.linked child.link child.only;
    tipless = λ e. cc;
  }

  tip_is_other :
      (t : String) (top : ChainState)
      → lookup t chain.block_states ≡ some top
      → str_eq block.block_hash t ≡ false
  tip_is_other t top stored = elim (str_eq-cases block.block_hash t) [
    | inl same ↦ let here = rw same at unknown in cc
    | inr other ↦ other
  ]

  still_stored :
      (state : ChainState) (h : String)
      → contains h chain.block_states ≡ true
      → contains h (insert block.block_hash state chain.block_states) ≡ true
  still_stored state h stored = rw contains-insert (ground (arith, stored))

  stored-IsKept :
      (state : ChainState) (children : Dict (List String)) (tip : String)
      → IsChild R chain block state
      → IsTop R block state chain (insert block.block_hash state chain.block_states) tip
      → IsKept R chain.block_states chain.pending_transactions (
          accepted (record chain {
            blocks_by_hash = insert block.block_hash block chain.blocks_by_hash;
            block_states = insert block.block_hash state chain.block_states;
            children_by_hash = children;
            main_tip_hash = some tip;
          }))
  stored-IsKept state children tip child top =
      kept_accepted (stored-IsSound state children tip child top) (still_stored state) refl

  store_block-IsKept :
      (state : ChainState)
      → IsChild R chain block state
      → IsKept R chain.block_states chain.pending_transactions (store_block block state chain)
  unfolding store_block should_update_main_tip IsTop
  store_block-IsKept state child = elim (Option-cases chain.main_tip_hash) [
    | inl e ↦ rw e (
        stored-IsKept state _ block.block_hash child
          (new-IsTop R block state chain λ h s found. let nothing = sound.tipless e h in cc))
    | inr (t, e) ↦
        let (top, stored, below) = sound.tip t e in
        let other = tip_is_other t top stored in
        elim (Bool-cases (ltb top.next_height state.next_height)) [
          | inl higher ↦
              rw (e, lookup-insert, other, stored, higher)
                (stored-IsKept state _ block.block_hash child (
                  new-IsTop R block state chain
                    λ h s found. let under = below h s found in ground (arith, higher, under)))
          | inr not_higher ↦
              rw (e, lookup-insert, other, stored, not_higher)
                (stored-IsKept state _ t child (
                  old-IsTop R block state chain t top other stored below
                    (ground (arith, not_higher))))
        ]
  ]

  checked-IsKept :
      (m : Checked ChainState)
      → Ensures (IsChild R chain block) m
      → IsKept R chain.block_states chain.pending_transactions (store_checked m block chain)
  unfolding store_block
  checked-IsKept (pass state) (passes child) = store_block-IsKept state child
  checked-IsKept (reject r) h = kept_invalid

if-IsKept :
    {R : Rules} {states : Dict ChainState} {pending : List Transaction} {a b : Added} (c : Bool)
    → IsKept R states pending a
    → IsKept R states pending b
    → IsKept R states pending (if c then a else b)
if-IsKept true h k = h
if-IsKept false h k = k

-- A block that is offered to a sound store leaves a sound store with all the states that it had and
-- the same pending transactions, or is refused; no `KeyError` is raised.
pub check_and_store-IsKept :
    (R : Rules) (chain : Blockchain) (block : Block)
    → IsSound R chain
    → IsKept R chain.block_states chain.pending_transactions (check_and_store R chain block)
unfolding check_and_store
check_and_store-IsKept R chain block sound =
    elim (Bool-cases (contains block.block_hash chain.blocks_by_hash)) [
      | inl seen ↦ rw seen kept_duplicate
      | inr fresh ↦ rw fresh (
          if-IsKept
            (not (is_genesis block) && not (contains block.previous_hash chain.block_states))
            kept_missing_parent
            (checked-IsKept R block chain sound fresh
              (get_parent_state R chain block >>= build_child_state R block)
              (checked-IsChild R chain block sound)))
    ]
