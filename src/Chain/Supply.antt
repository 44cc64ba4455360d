-- ===== src/Chain/Supply.antt =====
-- The money that a block adds.
use unc_coin.Prelude.{
  ℕ, suc, ◌==◌, ◌≡◌, ◌∙◌, refl, Bool, true, false, Option, none, some, List, [], ◌∷◌, arith,
  Bool-cases, inl, inr, ltb, length, Option-cases,
}
use unc_coin.Prelude.Int.{ℤ, pos, negsuc, ◌+ℤ◌, int_laws, parts_of_eq}
use unc_coin.Dict.{is_some}
use unc_coin.Dict.Sum.{total, total-bump}
use unc_coin.Externals.{Externals}
use unc_coin.Transaction.{Transaction}
use unc_coin.Chain.State.{ChainState}
use unc_coin.Chain.Check.{
  Checked, pass, reject, Reason, ◌>>◌, Ensures, passes, Ensures-bind, Ensures-map, Ensures-eq,
  require, >>=-eq-pass, require-eq-pass, refuse_if-eq-pass, too_many_transactions,
  reward_amount_mismatch, reward_signed, refuse_if,
}
use unc_coin.Chain.Validate.{is_reward}
use unc_coin.Chain.Apply.{apply_transaction}
use unc_coin.Chain.Balances.{IsSolvent, bump-IsSolvent}
use unc_coin.Chain.Accept.{apply_transaction-Spends, apply_transaction-Rewards}
use unc_coin.Chain.Reward.{
  Block, mining_reward, rewards_of, eq_ℤ, check_first_amount, check_reward_amount,
  check_only_reward, check_reward_structure,
}
use unc_coin.Chain.Block.{
  Rules, collected, apply_transactions, apply_block, build_child_state, check_child, reward_only,
  rewarded, passing,
}

eq_of_eq_ℤ : (a b : ℤ) → eq_ℤ a b ≡ true → a ≡ b
eq_of_eq_ℤ (pos m) (pos n) h = ground (arith, h)
eq_of_eq_ℤ (negsuc m) (negsuc n) h = ground (arith, h)
eq_of_eq_ℤ (pos m) (negsuc n) h = cc
eq_of_eq_ℤ (negsuc m) (pos n) h = cc

-- The amounts of the rewards among some transactions.
unfoldable minted : List Transaction → ℤ
minted [] = pos 0
minted (t ∷ ts) = t.amount +ℤ minted ts

-- What a run of transactions does: the sum of all balances, with the fees that were collected,
-- goes up by the rewards.
record Adds (ts : List Transaction) (s : ChainState) (fees : ℤ) (r : ChainState × ℤ) : Type 0 where
  sum : total r.0.balances +ℤ r.1 ≡ total s.balances +ℤ fees +ℤ minted (rewards_of ts)
  height : r.0.next_height ≡ s.next_height
  solvent : IsSolvent s.balances → IsSolvent r.0.balances

add_spent :
    (total' fees' total0 total1 fees fee m : ℤ)
    → total1 +ℤ fee ≡ total0
    → total' +ℤ fees' ≡ total1 +ℤ (fees +ℤ fee) +ℤ m
    → total' +ℤ fees' ≡ total0 +ℤ fees +ℤ m
add_spent total' fees' total0 total1 fees fee m h k = omega (int_laws, parts_of_eq h, parts_of_eq k)

add_minted :
    (total' fees' total0 total1 fees x m : ℤ)
    → total1 ≡ total0 +ℤ x
    → total' +ℤ fees' ≡ total1 +ℤ fees +ℤ m
    → total' +ℤ fees' ≡ total0 +ℤ fees +ℤ (x +ℤ m)
add_minted total' fees' total0 total1 fees x m h k = omega (int_laws, parts_of_eq h, parts_of_eq k)

module _ (S : Externals) (t : Transaction) (ts : List Transaction) where
  cons-Adds :
      (s : ChainState) (height : ℕ) (fees : ℤ) {r : ChainState × Option ℤ} {r' : ChainState × ℤ}
      → apply_transaction S t s height ≡ pass r
      → Adds ts r.0 (collected fees r.1) r'
      → Adds (t ∷ ts) s fees r'
  unfolding rewards_of minted
  cons-Adds s height fees {r} {r'} h rest = elim (Bool-cases (is_reward t)) [
    | inl reward ↦
        let one = apply_transaction-Rewards S t s height reward h in
        record {
          sum = rw reward (
              add_minted (total r'.0.balances) r'.1 (total s.balances) (total r.0.balances) fees
                t.amount (minted (rewards_of ts)) one.supply (rw one.unreported at rest.sum));
          height = rest.height ∙ one.height;
          solvent = λ ok. rest.solvent (one.solvent ok);
        }
    | inr wallet ↦
        let one = apply_transaction-Spends S t s height wallet h in
        record {
          sum = rw wallet (
              add_spent (total r'.0.balances) r'.1 (total s.balances) (total r.0.balances) fees
                one.fee (minted (rewards_of ts)) one.supply (rw one.reported at rest.sum));
          height = rest.height ∙ one.height;
          solvent = λ ok. rest.solvent (one.solvent ok);
        }
  ]

apply_transactions-Adds :
    (S : Externals) (ts : List Transaction) (s : ChainState) (height : ℕ) (fees : ℤ)
    → Ensures (Adds ts s fees) (apply_transactions S ts s height fees)
unfolding apply_transactions rewards_of minted
apply_transactions-Adds S [] s height fees =
    passes (record { sum = omega int_laws; height = refl; solvent = λ ok. ok })
apply_transactions-Adds S (t ∷ ts) s height fees =
    Ensures-bind (apply_transaction S t s height) λ r h.
      Ensures-map (λ r' rest. cons-Adds S t ts s height fees h rest)
        (apply_transactions-Adds S ts r.0 height (collected fees r.1))

-- What a block on top of a state adds: the fixed reward, and nothing else.
pub record Extends (R : Rules) (block : Block) (s r : ChainState) : Type 0 where
  pub supply : total r.balances ≡ total s.balances +ℤ pos (mining_reward R.externals)
  pub height : r.next_height ≡ suc block.block_id
  pub solvent : IsSolvent s.balances → IsSolvent r.balances

require_unit : (c : Bool) (r : Reason) → require c r ≡ pass tt → (require c r >> pass tt) ≡ pass tt
require_unit true r h = refl
require_unit false r h = cc

absurd_none : {A B : Type 0} {a : A} → none ≡ some a → B
absurd_none h = cc

passing-eq-some :
    {A : Type 0} (m : Checked (Unit {0})) {a b : A} → passing m a ≡ some b → (m ≡ pass tt) × (a ≡ b)
passing-eq-some (pass tt) h = (refl, cc)
passing-eq-some (reject r) h = cc

block_total :
    (total' fees total0 m x : ℤ)
    → total' +ℤ fees ≡ total0 +ℤ pos 0 +ℤ m
    → m ≡ x +ℤ fees
    → total' ≡ total0 +ℤ x
block_total total' fees total0 m x h k = omega (int_laws, parts_of_eq h, parts_of_eq k)

minted_of_checks :
    (X : Externals) (rs ts : List Transaction) (fees : ℤ)
    → check_only_reward rs ts ≡ pass tt
    → check_first_amount X rs fees ≡ pass tt
    → minted rs ≡ pos (mining_reward X) +ℤ fees
unfolding minted check_only_reward check_first_amount
minted_of_checks X [] ts fees h k = cc
minted_of_checks X (r ∷ r' ∷ rs) ts fees h k = cc
minted_of_checks X (r ∷ []) ts fees h k =
    let (equal, _) =
      require-eq-pass (eq_ℤ r.amount (pos (mining_reward X) +ℤ fees)) reward_amount_mismatch
        (pass tt) (require_unit _ _ k) in
    let e = eq_of_eq_ℤ r.amount (pos (mining_reward X) +ℤ fees) equal in rw e (omega int_laws)

module _ (R : Rules) (block : Block) (s : ChainState)
    (numbered : (block.block_id == 0) ≡ false) where
  abbrev X : Externals
  X = R.externals

  apply_block-Extends :
      check_only_reward (rewards_of block.transactions) block.transactions ≡ pass tt
      → Ensures (Extends R block s) (apply_block R block s)
  unfolding apply_block check_reward_amount
  apply_block-Extends one =
      let start = record s { next_height = suc block.block_id } in
      Ensures-bind (apply_transactions R.externals block.transactions start block.block_id (pos 0))
        λ r h.
          let adds =
            Ensures-eq
              (apply_transactions-Adds R.externals block.transactions start block.block_id (pos 0))
              h in
          Ensures-bind (check_reward_amount X block r.1) λ _ amount.
            let m =
              minted_of_checks X (rewards_of block.transactions) block.transactions r.1 one
                (rw numbered at amount) in
            passes (record {
              supply =
                  block_total (total r.0.balances) r.1 (total s.balances)
                    (minted (rewards_of block.transactions)) (pos (mining_reward X)) adds.sum m;
              height = adds.height;
              solvent = adds.solvent;
            })

  rewarded-Extends :
      (t : Transaction)
      → t.amount ≡ pos (mining_reward X) +ℤ pos 0
      → Extends R block s (rewarded block t s)
  unfolding rewarded
  rewarded-Extends t e = record {
    supply = total-bump t.receiver t.amount s.balances ∙ rw e (omega int_laws);
    height = refl;
    solvent = bump-IsSolvent t.receiver t.amount s.balances (rw e (omega int_laws));
  }

  reward_only-Extends :
      (ts : List Transaction) {r : ChainState}
      → block.transactions ≡ ts
      → reward_only R block ts s ≡ some r
      → Extends R block s r
  unfolding reward_only check_reward_amount rewards_of check_first_amount
  reward_only-Extends [] e h = cc
  reward_only-Extends (t ∷ t' ∷ ts) e h = cc
  reward_only-Extends (t ∷ []) e h = elim (Bool-cases (is_reward t)) [
    | inl reward ↦
        let (checked, same) = passing-eq-some _ (rw (numbered, reward) at h) in
        let unsigned =
          refuse_if (is_some t.sender_public_key) reward_signed
          >> refuse_if (is_some t.signature) reward_signed in
        let (_, _, amount) = >>=-eq-pass unsigned _ checked in
        let (equal, _) =
          require-eq-pass (eq_ℤ t.amount (pos (mining_reward X) +ℤ pos 0)) reward_amount_mismatch
            (pass tt) (require_unit _ _ (rw (e, reward) at amount)) in
        let ok = rewarded-Extends t (eq_of_eq_ℤ _ _ equal) in rw same at ok
    | inr wallet ↦ absurd_none (rw (numbered, wallet) at h)
  ]

-- An accepted block above the genesis block adds exactly the fixed reward to the sum of all
-- balances, its state is one block higher, and a state in which nobody is overdrawn leads to
-- another; whichever of the two paths the block takes.
pub build_child_state-Extends :
    (R : Rules) (block : Block) (s : ChainState) {r : ChainState}
    → (block.block_id == 0) ≡ false
    → build_child_state R block s ≡ pass r
    → Extends R block s r
unfolding build_child_state check_child check_reward_structure
build_child_state-Extends R block s {r} numbered h =
    let (_, checked, h1) = >>=-eq-pass (check_child R block) _ h in
    let (_, c1) =
      refuse_if-eq-pass (ltb 100 (length block.transactions)) too_many_transactions _ checked in
    let (_, one, _) = >>=-eq-pass (check_reward_structure block) _ c1 in
    elim (Option-cases (reward_only R block block.transactions s)) [
      | inl e ↦
          Ensures-eq (apply_block-Extends R block s numbered (rw numbered at one)) (rw e at h1)
      | inr (r', e) ↦
          let same = rw e at h1 in
          let ok : Ensures (Extends R block s) (pass r') =
            passes (reward_only-Extends R block s numbered block.transactions refl e) in
          Ensures-eq ok same
    ]
