-- ===== src/Chain/Choice.antt =====
-- Why a choice of transactions applies in order, and why it ends.
use unc_coin.Prelude.{
  ℕ, zero, suc, ◌+◌, ◌≤◌, ◌<◌, ◌≡◌, ◌∙◌, refl, ap, subst, true, ◌||◌, Option, none, some, List, [],
  ◌∷◌, ◌++◌, arith, length, leb, Bool-cases, inl, inr,
}
use mathlib.Core.List.{Memᴰ}
use unc_coin.Prelude.Int.{ℤ, pos, ltb_ℤ}
use unc_coin.Externals.{Externals}
use unc_coin.Transaction.{Transaction}
use unc_coin.Chain.State.{ChainState}
use unc_coin.Chain.Check.{Checked, pass, reject, >>=-eq-pass}
use unc_coin.Chain.Raise.{
  Returns, returns, Returns-bind, Returns-or_raise, AreIn, AreIn-append, AreIn-same,
}
use unc_coin.Chain.Validate.{is_reward}
use unc_coin.Chain.Apply.{apply_transaction}
use unc_coin.Chain.Accept.{apply_transaction-Spends, apply_transaction-Rewards}
use unc_coin.Chain.Reward.{is_empty}
use unc_coin.Chain.Block.{apply_transactions, collected}
use unc_coin.Chain.Select.{
  Round, deferred, taken, select_one, select_round, new_round, select_rounds, insert_by_fee,
  sort_by_fee, select_transactions_for_block, calculate_transaction_fees_for_block,
}

apply_transaction-height :
    (S : Externals) (t : Transaction) (s : ChainState) (height : ℕ) {r : ChainState × Option ℤ}
    → apply_transaction S t s height ≡ pass r
    → r.0.next_height ≡ s.next_height
apply_transaction-height S t s height h = elim (Bool-cases (is_reward t)) [
  | inl reward ↦ (apply_transaction-Rewards S t s height reward h).height
  | inr wallet ↦ (apply_transaction-Spends S t s height wallet h).height
]

apply_transactions-snoc :
    (S : Externals) (ts : List Transaction) (t : Transaction) (s m : ChainState) (height : ℕ)
    (f f' : ℤ) {r : ChainState × Option ℤ}
    → apply_transactions S ts s height f ≡ pass (m, f')
    → apply_transaction S t m height ≡ pass r
    → apply_transactions S (ts ++ t ∷ []) s height f ≡ pass (r.0, collected f' r.1)
unfolding apply_transactions
apply_transactions-snoc S [] t s m height f f' h k =
    let e : s ≡ m = cc in let g : f ≡ f' = cc in rw (e, k, g) refl
apply_transactions-snoc S (u ∷ ts) t s m height f f' h k =
    let (x, one, rest) = >>=-eq-pass (apply_transaction S u s height) _ h in
    rw one (apply_transactions-snoc S ts t x.0 m height (collected f x.1) f' rest k)

length-snoc : (ts : List Transaction) (t : Transaction) → length (ts ++ t ∷ []) ≡ suc (length ts)
length-snoc [] t = refl
length-snoc (u ∷ ts) t = ap suc (length-snoc ts t)

-- What a round keeps, from a base state, from a number of selected transactions on and behind a
-- number of transactions that it has seen: the selected transactions apply to the base in order
-- and lead to the state of the round, there are at most 99 of them, and each transaction that was
-- seen is selected or left for the next round.
record Holds (S : Externals) (pool : List Transaction) (base : ChainState) (before seen : ℕ)
    (r : Round) : Type 0 where
  fees : ℤ
  applied : apply_transactions S r.selected base base.next_height (pos 0) ≡ pass (r.state, fees)
  height : r.state.next_height ≡ base.next_height
  few : length r.selected ≤ 99
  counted : length r.next_round + length r.selected ≡ before + seen
  above : before ≤ length r.selected
  grown : r.progress ≡ true → before < length r.selected
  within : AreIn pool r.next_round

module _ (S : Externals) (pool : List Transaction) (base : ChainState) (before : ℕ) where
  deferred-Holds :
      (seen : ℕ) (t : Transaction) (r : Round)
      → Memᴰ t pool
      → Holds S pool base before seen r
      → Holds S pool base before (suc seen) (deferred t r)
  deferred-Holds seen t r at h =
      let counted = h.counted in
      record {
        fees = h.fees;
        applied = h.applied;
        height = h.height;
        few = h.few;
        counted = rw length-snoc (omega arith);
        above = h.above;
        grown = h.grown;
        within = AreIn-append pool r.next_round (t ∷ []) h.within (at, tt);
      }

  taken-Holds :
      (seen : ℕ) (t : Transaction) (r : Round) (c : Checked (ChainState × Option ℤ))
      → Memᴰ t pool
      → apply_transaction S t r.state r.state.next_height ≡ c
      → suc (length r.selected) ≤ 99
      → Holds S pool base before seen r
      → Returns S pool (Holds S pool base before (suc seen)) (taken t c r)
  unfolding taken
  taken-Holds seen t r (reject e) at found room h =
      Returns-or_raise t r.state e (deferred t r) at found (deferred-Holds seen t r at h)
  taken-Holds seen t r (pass x) at found room h =
      let counted = h.counted in
      let above = h.above in
      returns (record {
        fees = collected h.fees x.1;
        applied =
            apply_transactions-snoc S r.selected t base r.state base.next_height (pos 0) h.fees
              h.applied (subst (λ n. apply_transaction S t r.state n ≡ pass x) h.height found);
        height = apply_transaction-height S t r.state r.state.next_height found ∙ h.height;
        few = rw length-snoc room;
        counted = rw length-snoc (omega arith);
        above = rw length-snoc (omega arith);
        grown = λ p. rw length-snoc (omega arith);
        within = h.within;
      })

  select_one-Holds :
      (seen : ℕ) (t : Transaction) (r : Round)
      → Memᴰ t pool
      → Holds S pool base before seen r
      → Returns S pool (Holds S pool base before (suc seen)) (select_one S t r)
  unfolding select_one
  select_one-Holds seen t r at h = elim (Bool-cases (leb 99 (length r.selected))) [
    | inl full ↦ rw full (returns (deferred-Holds seen t r at h))
    | inr room ↦ rw room (
        taken-Holds seen t r (apply_transaction S t r.state r.state.next_height) at refl
          (ground (arith, room)) h)
  ]

  select_round-Holds :
      (ts : List Transaction) (seen : ℕ) (r : Round)
      → AreIn pool ts
      → Holds S pool base before seen r
      → Returns S pool (Holds S pool base before (seen + length ts)) (select_round S ts r)
  unfolding select_round
  select_round-Holds [] seen r at h =
      returns (subst (λ n. Holds S pool base before n r) (omega arith) h)
  select_round-Holds (t ∷ ts) seen r (at, rest) h =
      Returns-bind (select_one-Holds seen t r at h) λ q hq.
        subst (λ n. Returns S pool (Holds S pool base before n) (select_round S ts q)) (omega arith)
          (select_round-Holds ts (suc seen) q rest hq)

-- Transactions that apply to the base in order, at most 99 of them.
pub record IsChoice (S : Externals) (base : ChainState) (ts : List Transaction) : Type 0 where
  pub fees : ℤ
  pub charged : calculate_transaction_fees_for_block S ts base ≡ some fees
  pub few : length ts ≤ 99

-- The loop ended with a choice, and did not run out of fuel.
abbrev pub Chosen : Externals → ChainState → Option (List Transaction) → Type 0
Chosen S base none = ⊥
Chosen S base (some ts) = IsChoice S base ts

insert_by_fee-AreIn :
    (pool : List Transaction) (t : Transaction) (ts : List Transaction)
    → Memᴰ t pool
    → AreIn pool ts
    → AreIn pool (insert_by_fee t ts)
unfolding insert_by_fee
insert_by_fee-AreIn pool t [] at h = (at, tt)
insert_by_fee-AreIn pool t (u ∷ us) at (one, rest) = elim (Bool-cases (ltb_ℤ t.fee u.fee)) [
  | inl less ↦ rw less (one, insert_by_fee-AreIn pool t us at rest)
  | inr more ↦ rw more (at, (one, rest))
]

sort_by_fee-AreIn : (pool ts : List Transaction) → AreIn pool ts → AreIn pool (sort_by_fee ts)
unfolding sort_by_fee
sort_by_fee-AreIn pool [] h = tt
sort_by_fee-AreIn pool (t ∷ ts) (at, rest) =
    insert_by_fee-AreIn pool t (sort_by_fee ts) at (sort_by_fee-AreIn pool ts rest)

module _ (S : Externals) (base : ChainState) where
  apply_transactions-IsChoice :
      (ts : List Transaction) (state : ChainState) (fees : ℤ)
      → apply_transactions S ts base base.next_height (pos 0) ≡ pass (state, fees)
      → length ts ≤ 99
      → IsChoice S base ts
  unfolding calculate_transaction_fees_for_block
  apply_transactions-IsChoice ts state fees applied few = record {
    fees = fees;
    charged = rw applied refl;
    few = few;
  }

  select_rounds-IsChoice :
      (pool : List Transaction) (fuel : ℕ) (remaining : List Transaction) (state : ChainState)
      (selected : List Transaction) (fees : ℤ)
      → apply_transactions S selected base base.next_height (pos 0) ≡ pass (state, fees)
      → state.next_height ≡ base.next_height
      → length selected ≤ 99
      → length remaining < fuel
      → AreIn pool remaining
      → Returns S pool (Chosen S base) (select_rounds S fuel remaining state selected)
  unfolding select_rounds
  select_rounds-IsChoice pool zero remaining state selected fees applied height few enough within =
      elim enough [ ]
  select_rounds-IsChoice pool (suc fuel) remaining state selected fees applied height few enough
        within =
      let start = new_round state selected in
      let first : Holds S pool base (length selected) 0 start = record {
        fees = fees;
        applied = applied;
        height = height;
        few = few;
        counted = omega arith;
        above = omega arith;
        grown = λ p. cc;
        within = tt;
      } in
      let round = select_round-Holds S pool base (length selected) remaining 0 start within first in
      elim (Bool-cases (is_empty remaining || leb 99 (length selected))) [
        | inl stop ↦ rw stop (returns (apply_transactions-IsChoice selected state fees applied few))
        | inr go ↦ rw go (
            Returns-bind round λ r h.
              let counted = h.counted in
              elim (Bool-cases r.progress) [
                | inl moved ↦
                    let grown = h.grown moved in
                    rw moved (
                      select_rounds-IsChoice pool fuel r.next_round r.state r.selected h.fees
                        h.applied h.height h.few (omega arith) h.within)
                | inr still ↦ rw still (
                    returns (apply_transactions-IsChoice r.selected r.state h.fees h.applied h.few))
              ])
      ]

  -- The selection of transactions for a block ends, with at most 99 transactions, and they apply to
  -- the tip's state in the order of the selection: the calculation of their fees does not raise.
  -- Only the application of a pending transaction to some state can end it with a `ValueError`.
  pub select_transactions_for_block-IsChoice :
      (pending : List Transaction)
      → Returns S pending (Chosen S base) (select_transactions_for_block S pending base)
  unfolding select_transactions_for_block apply_transactions
  select_transactions_for_block-IsChoice pending =
      select_rounds-IsChoice pending (suc (length (sort_by_fee pending))) (sort_by_fee pending) base
        [] (pos 0) refl refl (omega arith) (omega arith)
        (sort_by_fee-AreIn pending pending (AreIn-same pending))
