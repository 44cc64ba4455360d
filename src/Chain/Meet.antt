-- ===== src/Chain/Meet.antt =====
-- The common ancestor that the walk down from two blocks finds.
use unc_coin.Prelude.{
  ℕ, zero, suc, ◌+◌, ◌-◌, ◌≤◌, ◌<◌, String, ◌≡◌, refl, sym, ◌∙◌, ap, subst, true, none, some, arith,
  eq_refl, Bool-cases, Option-cases, str_eq-cases, inl, inr,
}
use unc_coin.Dict.{lookup, contains}
use unc_coin.Chain.Reward.{Block}
use unc_coin.Chain.Block.{Rules}
use unc_coin.Chain.Store.{Blockchain, is_genesis}
use unc_coin.Chain.Link.{IsLinked, has_other_genesis_none}
use unc_coin.Chain.Walk.{parent_hash, depth, climb, meet, find_common_ancestor}
use unc_coin.Chain.Ancestor.{
  Ancestor, here, up, bottom, deeper, stored-Under, depth_pos, parent_stored, Ancestor-cases,
  Ancestor-depth, to_parent, differ,
}

-- A common ancestor of two blocks that all others are ancestors of.
pub record IsMeet (chain : Blockchain) (l r c : String) : Type 0 where
  pub of_left : Ancestor chain c l
  pub of_right : Ancestor chain c r
  pub last : (a : String) → Ancestor chain a l → Ancestor chain a r → Ancestor chain a c

module _ (R : Rules) (chain : Blockchain)
    (linked : IsLinked R chain.blocks_by_hash chain.block_states) where
  -- What `steps` steps down from a block lead to.
  record Climbed (steps : ℕ) (h h' : String) : Type 0 where
    found : climb chain steps h ≡ some (some h')
    stored : contains h' chain.block_states ≡ true
    height : depth chain h ≡ steps + depth chain h'
    below : Ancestor chain h' h
    all : (a : String) → Ancestor chain a h → depth chain a ≤ depth chain h' → Ancestor chain a h'

  climb-Climbed :
      (steps : ℕ) (h : String)
      → contains h chain.block_states ≡ true
      → steps < depth chain h
      → (h' : String) × Climbed steps h h'
  unfolding climb
  climb-Climbed zero h stored room = (
    h,
    record {
      found = refl;
      stored = stored;
      height = omega arith;
      below = here refl stored;
      all = λ a anc low. anc;
    },
  )
  climb-Climbed (suc steps) h stored room = elim (stored-Under R chain linked h stored) [
    | bottom e low ↦ let never : ⊥ = omega arith in elim never [ ]
    | deeper p e parent high ↦
        let (h', c) = climb-Climbed steps p parent (omega arith) in
        let height = c.height in
        (
          h',
          record {
            found = rw e c.found;
            stored = c.stored;
            height = omega arith;
            below = up e c.below;
            all = λ a anc low.
                let under =
                  to_parent R chain linked
                    (λ same.
                      let eq = ap (depth chain) same in
                      let never : ⊥ = omega arith in elim never [ ])
                    e anc in
                c.all a under low;
          },
        )
  ]

  Ancestor-trans : {a b c : String} → Ancestor chain a b → Ancestor chain b c → Ancestor chain a c
  Ancestor-trans {a} first (here e stored) = subst (Ancestor chain a) e first
  Ancestor-trans first (up e rest) = up e (Ancestor-trans first rest)

  genesis_of :
      (h : String)
      → parent_hash chain h ≡ some none
      → (b : Block) × (lookup h chain.blocks_by_hash ≡ some b) × (is_genesis b ≡ true)
  unfolding parent_hash
  genesis_of h e = elim (Option-cases (lookup h chain.blocks_by_hash)) [
    | inl nothing ↦ let stuck = rw nothing at e in cc
    | inr (b, block) ↦ elim (Bool-cases (is_genesis b)) [
      | inl genesis ↦ (b, block, genesis)
      | inr child ↦ let stuck = rw (block, child) at e in cc
    ]
  ]

  same_genesis :
      (l r : String) → parent_hash chain l ≡ some none → parent_hash chain r ≡ some none → l ≡ r
  same_genesis l r e f =
      let (b, block, genesis) = genesis_of l e in
      let (b', block', genesis') = genesis_of r f in
      has_other_genesis_none r l b chain.blocks_by_hash (linked.one_root r b' block' genesis') block
        genesis

  -- Two different blocks of one height have no common ancestor but those of their parents.
  apart :
      (l r a : String)
      → (r ≡ l → ⊥)
      → depth chain l ≡ depth chain r
      → Ancestor chain a l
      → Ancestor chain a r
      → a ≡ l
      → ⊥
  apart l r a other level left right same = elim (Ancestor-cases R chain linked right) [
    | inl same' ↦ other (sym same' ∙ same)
    | inr (p, e, rest) ↦
        let low = Ancestor-depth R chain linked rest in
        let (_, high) = parent_stored R chain linked r p e in
        let eq = ap (depth chain) same in omega arith
  ]

  meet-IsMeet :
      (fuel : ℕ) (l r : String)
      → contains l chain.block_states ≡ true
      → contains r chain.block_states ≡ true
      → depth chain l ≡ depth chain r
      → depth chain l ≤ fuel
      → (c : String) × (meet chain fuel l r ≡ some (some c)) × IsMeet chain l r c
  unfolding meet
  meet-IsMeet zero l r left right level enough =
      let high = depth_pos R chain linked l left in let never : ⊥ = omega arith in elim never [ ]
  meet-IsMeet (suc fuel) l r left right level enough = elim (str_eq-cases l r) [
    | inl same ↦ (
      l,
      rw (same, eq_refl) refl,
      record { of_left = here refl left; of_right = here same right; last = λ a anc anc'. anc },
    )
    | inr other ↦
        let distinct = differ R chain linked other in
        elim (stored-Under R chain linked l left) [
          | bottom e low ↦ elim (stored-Under R chain linked r right) [
            | bottom f low' ↦ elim (distinct (sym (same_genesis l r e f))) [ ]
            | deeper q f parent high ↦
                let pos_q = depth_pos R chain linked q parent in
                let never : ⊥ = omega arith in elim never [ ]
          ]
          | deeper p e parent high ↦ elim (stored-Under R chain linked r right) [
            | bottom f low ↦
                let pos_p = depth_pos R chain linked p parent in
                let never : ⊥ = omega arith in elim never [ ]
            | deeper q f parent' high' ↦
                let (c, found, m) =
                  meet-IsMeet fuel p q parent parent' (omega arith) (omega arith) in
                (
                  c,
                  rw (other, e, f) found,
                  record {
                    of_left = up e m.of_left;
                    of_right = up f m.of_right;
                    last = λ a anc anc'.
                        m.last a
                          (to_parent R chain linked (apart l r a distinct level anc anc') e anc)
                          (to_parent R chain linked
                            (apart r l a (λ e'. distinct (sym e')) (sym level) anc' anc) f anc');
                  },
                )
          ]
        ]
  ]

  -- The walk from two stored blocks ends, without a `KeyError`, at a common ancestor of the two, and
  -- every common ancestor is an ancestor of that one.
  pub find_common_ancestor-IsMeet :
      (l r : String)
      → contains l chain.block_states ≡ true
      → contains r chain.block_states ≡ true
      → (c : String) × (find_common_ancestor chain (some l) (some r) ≡ some (some c))
        × IsMeet chain l r c
  unfolding find_common_ancestor
  find_common_ancestor-IsMeet l r left right =
      let high_l = depth_pos R chain linked l left in
      let high_r = depth_pos R chain linked r right in
      let (l', cl) = climb-Climbed (depth chain l - depth chain r) l left (omega arith) in
      let (r', cr) = climb-Climbed (depth chain r - depth chain l) r right (omega arith) in
      let hl = cl.height in
      let hr = cr.height in
      let (c, found, m) =
        meet-IsMeet (suc (depth chain l)) l' r' cl.stored cr.stored (omega arith) (omega arith) in
      (
        c,
        rw (left, right, cl.found, cr.found) found,
        record {
          of_left = Ancestor-trans m.of_left cl.below;
          of_right = Ancestor-trans m.of_right cr.below;
          last = λ a anc anc'.
              let low = Ancestor-depth R chain linked anc in
              let low' = Ancestor-depth R chain linked anc' in
              m.last a (cl.all a anc (omega arith)) (cr.all a anc' (omega arith));
        },
      )
