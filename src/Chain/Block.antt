-- ===== src/Chain/Block.antt =====
-- Blocks on top of a state: difficulty and proof of work of core/blockchain.py and core/block.py,
-- the genesis block of core/genesis.py, and `_build_child_state`.
use unc_coin.Prelude.{
  ℕ, zero, suc, ◌-◌, ◌*◌, ◌/◌, ◌^◌, String, ◌==◌, Bool, true, false, ◌&&◌, ◌||◌, Option, none, some,
  List, [], ◌∷◌, length, str_eq, ltb, leb, if◌then◌else◌,
}
use unc_coin.Prelude.Int.{ℤ, pos, negsuc, ◌+ℤ◌, ◌*ℤ◌, ltb_ℤ}
use unc_coin.Text.{parse_int, text_length}
use unc_coin.Dict.Sum.{bump}
use unc_coin.Uvm.Run.{natural}
use unc_coin.Externals.{Externals}
use unc_coin.Transaction.{Transaction}
use unc_coin.Chain.State.{ChainState}
use unc_coin.Chain.Check.{
  Checked, pass, reject, ◌>>=◌, ◌>>◌, refuse_if, require, need, too_many_transactions,
  hash_mismatch, proof_of_work_too_weak, genesis_invalid, value_error,
}
use unc_coin.Chain.Validate.{is_reward, check_authenticity}
use unc_coin.Chain.Apply.{apply_transaction}
use unc_coin.Chain.Reward.{Block, check_reward_structure, check_reward_amount, is_empty, eq_ℤ}

-- The fields of `Blockchain` that set the difficulty.
pub record Schedule : Type 0 where
  pub difficulty_bits : ℤ
  pub genesis_difficulty_bits : Option ℤ
  pub difficulty_growth_factor : ℤ
  pub difficulty_growth_start_height : ℤ
  pub difficulty_growth_bits : ℤ
  pub difficulty_schedule_activation_height : ℤ

-- What a node's chain is given: the externals, the hash of a block's contents and the schedule.
pub record Rules : Type 0 where
  pub externals : Externals
  pub hash_function : Block → String
  pub schedule : Schedule

-- The loop of `get_difficulty_bits_for_height`; `none` is out of fuel.
unfoldable pub growth_steps : ℕ → ℕ → ℕ → ℕ → ℕ → Option ℕ
growth_steps zero height threshold factor steps = none
growth_steps (suc fuel) height threshold factor steps =
    let rest = growth_steps fuel height (threshold * factor) factor (suc steps) in
    if leb threshold height then rest else some steps

abbrev or_bits : ℤ → Option ℤ → ℤ
or_bits bits none = bits
or_bits bits (some g) = g

abbrev is_negative : Option ℤ → Bool
is_negative none = false
is_negative (some g) = ltb_ℤ g (pos 0)

-- The settings that `get_difficulty_bits_for_height` refuses with a `ValueError`.
unfoldable pub is_bad_schedule : Schedule → Bool
is_bad_schedule c =
    is_negative c.genesis_difficulty_bits
    || ltb_ℤ c.difficulty_growth_factor (pos 2)
    || ltb_ℤ c.difficulty_growth_start_height (pos 1)
    || ltb_ℤ c.difficulty_growth_bits (pos 1)

abbrev grown : Schedule → Option ℕ → Option ℤ
grown c none = none
grown c (some steps) = some (c.difficulty_bits +ℤ pos steps *ℤ c.difficulty_growth_bits)

-- `get_difficulty_bits_for_height`; `none` is a `ValueError`, or out of fuel.
unfoldable pub get_difficulty_bits_for_height : Schedule → ℕ → Option ℤ
unfolding growth_steps is_bad_schedule
get_difficulty_bits_for_height c height =
    if is_bad_schedule c
    then none
    else if height == 0
    then some (or_bits c.difficulty_bits c.genesis_difficulty_bits)
    else if ltb_ℤ (pos height) c.difficulty_schedule_activation_height
    then some c.difficulty_bits
    else if ltb_ℤ (pos height) c.difficulty_growth_start_height
    then some c.difficulty_bits
    else grown c (
        growth_steps (suc height) height (natural c.difficulty_growth_start_height)
          (natural c.difficulty_growth_factor) 0)

abbrev shifted_is_zero : ℤ → ℕ → Bool
shifted_is_zero (pos n) shift = n / 2 ^ shift == 0
shifted_is_zero (negsuc n) shift = false

-- The comparison of `has_leading_zero_bits`, on the value of the hash and its number of bits.
unfoldable pub has_zero_bits : ℤ → ℕ → ℤ → Bool
has_zero_bits value total_bits (negsuc n) = true
has_zero_bits value total_bits (pos bits) =
    if bits == 0
    then true
    else if ltb total_bits bits
    then false
    else shifted_is_zero value (total_bits - bits)

abbrev zero_bits_of : Option ℤ → ℕ → ℤ → Option Bool
unfolding has_zero_bits
zero_bits_of none total_bits bits = none
zero_bits_of (some value) total_bits bits = some (has_zero_bits value total_bits bits)

-- `has_leading_zero_bits`; `none` is the `ValueError` of a text that is no number.
unfoldable pub has_leading_zero_bits : String → ℤ → Option Bool
unfolding zero_bits_of parse_int
has_leading_zero_bits block_hash bits =
    zero_bits_of (parse_int 16 block_hash) (text_length block_hash * 4) bits

-- `get_block_verification_error`
unfoldable pub check_block : Rules → Block → ℤ → Checked (Unit {0})
unfolding has_leading_zero_bits
check_block R block bits = do
  require (str_eq block.block_hash (R.hash_function block)) hash_mismatch
  enough ← need (has_leading_zero_bits block.block_hash bits) value_error
  require enough proof_of_work_too_weak

-- `GENESIS_PREVIOUS_HASH`
abbrev pub genesis_previous_hash : String
genesis_previous_hash = "0000000000000000000000000000000000000000000000000000000000000000"

-- `GENESIS_HASH`
abbrev pub genesis_hash : String
genesis_hash = "003b875e335a9acf04b9c275499e9d5c283520af89558ca3b558c6a37dcc0a30"

-- `get_genesis_block_validation_error`; its messages are one reason.
unfoldable pub check_genesis : Rules → Block → Checked (Unit {0})
check_genesis R block = do
  require (block.block_id == 0) genesis_invalid
  require (is_empty block.transactions) genesis_invalid
  require (str_eq block.description "Genesis block") genesis_invalid
  require (str_eq block.previous_hash genesis_previous_hash) genesis_invalid
  require (eq_ℤ block.nonce (pos 42)) genesis_invalid
  require (str_eq (R.hash_function block) genesis_hash && str_eq block.block_hash genesis_hash)
      genesis_invalid

-- `sum(fee_collector)` after one more transaction.
abbrev pub collected : ℤ → Option ℤ → ℤ
collected fees none = fees
collected fees (some fee) = fees +ℤ fee

-- A list of transactions on a state at a height, with the sum of the fees collected so far.
unfoldable pub apply_transactions :
    Externals → List Transaction → ChainState → ℕ → ℤ → Checked (ChainState × ℤ)
unfolding apply_transaction
apply_transactions S [] state height fees = pass (state, fees)
apply_transactions S (t ∷ ts) state height fees = do
  (state', fee) ← apply_transaction S t state height
  apply_transactions S ts state' height (collected fees fee)

-- The path of `_build_child_state` that applies every transaction.
unfoldable pub apply_block : Rules → Block → ChainState → Checked ChainState
unfolding apply_transactions check_reward_amount
apply_block R block parent_state = do
  (state, fees) ←
      apply_transactions R.externals block.transactions
        (record parent_state { next_height = suc block.block_id }) block.block_id (pos 0)
  check_reward_amount R.externals block fees
  pass state

-- The state under a block with a reward and nothing else.
unfoldable pub rewarded : Block → Transaction → ChainState → ChainState
unfolding bump
rewarded block t parent_state = record parent_state {
  balances = bump t.receiver t.amount parent_state.balances;
  next_height = suc block.block_id;
}

abbrev pub passing : {A : Type 0} → Checked (Unit {0}) → A → Option A
passing (pass u) a = some a
passing (reject r) a = none

-- `_build_reward_only_child_state`, on the block's transactions; `none` where it does not apply.
unfoldable pub reward_only : Rules → Block → List Transaction → ChainState → Option ChainState
unfolding is_reward check_authenticity check_reward_amount rewarded
reward_only R block [] parent_state = none
reward_only R block (t ∷ t' ∷ ts) parent_state = none
reward_only R block (t ∷ []) parent_state =
    if block.block_id == 0
    then none
    else if is_reward t
    then passing (check_authenticity R.externals t >> check_reward_amount R.externals block (pos 0))
        (rewarded block t parent_state)
    else none

-- The state of the short path, if there is one.
abbrev pub or_apply_block : Option ChainState → Checked ChainState → Checked ChainState
or_apply_block (some state) slow = pass state
or_apply_block none slow = slow

-- The checks of `_build_child_state` in front of both paths.
unfoldable pub check_child : Rules → Block → Checked (Unit {0})
unfolding check_reward_structure check_block get_difficulty_bits_for_height
check_child R block = do
  refuse_if (ltb 100 (length block.transactions)) too_many_transactions
  check_reward_structure block
  bits ← need (get_difficulty_bits_for_height R.schedule block.block_id) value_error
  check_block R block bits

-- `_build_child_state`
unfoldable pub build_child_state : Rules → Block → ChainState → Checked ChainState
unfolding check_child reward_only apply_block
build_child_state R block parent_state = do
  check_child R block
  or_apply_block (reward_only R block block.transactions parent_state)
      (apply_block R block parent_state)
