-- ===== src/Chain/Reward.antt =====
-- The mining reward of a block: core/utils/mining.py, and the block of core/block.py.
use unc_coin.Prelude.{
  ℕ, zero, suc, ◌*◌, Option, String, ◌==◌, Bool, true, false, List, [], ◌∷◌, str_eq, if◌then◌else◌,
}
use unc_coin.Prelude.Int.{ℤ, pos, negsuc, ◌+ℤ◌}
use unc_coin.Externals.{Externals}
use unc_coin.Transaction.{Transaction}
use unc_coin.Chain.Check.{
  Checked, pass, reject, ◌>>◌, refuse_if, require, genesis_has_reward, reward_missing,
  several_rewards, reward_not_first, reward_fee_not_zero, reward_receiver_empty,
  reward_amount_mismatch,
}
use unc_coin.Chain.Validate.{is_reward}

-- `Block`, without the hash function, which all blocks share.
pub record Block : Type 0 where
  pub block_id : ℕ
  pub transactions : List Transaction
  pub description : String
  pub previous_hash : String
  pub nonce : ℤ
  pub nonces_checked : Option ℤ
  pub block_hash : String

-- `MINING_REWARD_AMOUNT`, ten coins, in units.
unfoldable pub mining_reward : Externals → ℕ
mining_reward X = 10 * X.units

-- The reward transactions of a block, in order.
unfoldable pub rewards_of : List Transaction → List Transaction
unfolding is_reward
rewards_of [] = []
rewards_of (t ∷ ts) = if is_reward t then t ∷ rewards_of ts else rewards_of ts

abbrev pub is_zero_ℤ : ℤ → Bool
is_zero_ℤ (pos zero) = true
is_zero_ℤ (pos (suc n)) = false
is_zero_ℤ (negsuc n) = false

abbrev first_is_reward : List Transaction → Bool
unfolding is_reward
first_is_reward [] = false
first_is_reward (t ∷ ts) = is_reward t

-- The checks on the reward transactions of a block that is not the genesis block. The first
-- transaction equals the only reward exactly if it is a reward itself.
unfoldable pub check_only_reward : List Transaction → List Transaction → Checked (Unit {0})
unfolding first_is_reward
check_only_reward [] ts = reject reward_missing
check_only_reward (r ∷ []) ts = do
  require (first_is_reward ts) reward_not_first
  require (is_zero_ℤ r.fee) reward_fee_not_zero
  refuse_if (str_eq r.receiver "") reward_receiver_empty
check_only_reward (r ∷ r' ∷ rs) ts = reject several_rewards

abbrev pub is_empty {ℓ} : {A : Type ℓ} → List A → Bool
is_empty [] = true
is_empty (x ∷ xs) = false

-- `get_mining_reward_structure_error`
unfoldable pub check_reward_structure : Block → Checked (Unit {0})
unfolding rewards_of check_only_reward
check_reward_structure block =
    let rewards = rewards_of block.transactions in
    if block.block_id == 0
    then require (is_empty rewards) genesis_has_reward
    else check_only_reward rewards block.transactions

abbrev pub eq_ℤ : ℤ → ℤ → Bool
eq_ℤ (pos m) (pos n) = m == n
eq_ℤ (negsuc m) (negsuc n) = m == n
eq_ℤ (pos m) (negsuc n) = false
eq_ℤ (negsuc m) (pos n) = false

-- The first reward is worth the fees and the fixed amount; a block without one is refused by the
-- structure check before this point.
unfoldable pub check_first_amount : Externals → List Transaction → ℤ → Checked (Unit {0})
unfolding mining_reward
check_first_amount X [] fees = reject reward_missing
check_first_amount X (r ∷ rs) fees =
    require (eq_ℤ r.amount (pos (mining_reward X) +ℤ fees)) reward_amount_mismatch

-- `get_mining_reward_amount_validation_error`
unfoldable pub check_reward_amount : Externals → Block → ℤ → Checked (Unit {0})
unfolding check_first_amount rewards_of
check_reward_amount X block total_fees =
    if block.block_id == 0
    then pass tt
    else check_first_amount X (rewards_of block.transactions) total_fees
