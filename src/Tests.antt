-- ===== src/Tests.antt =====
-- The theorems at concrete inputs: a program that transfers an amount, a transfer between two
-- wallets, and the first two blocks of a chain.
mod Store
mod Machine
mod Wire
mod Assemble
use unc_coin.Prelude.{
  ℕ, List, ◌++◌, ◌*◌, ◌^◌, ◌<◌, ◌≤◌, String, ◌==◌, ◌≡◌, refl, true, false, Option, none, some, [],
  ◌∷◌, if◌then◌else◌, arith,
}
use unc_coin.Prelude.Int.{ℤ, pos, negsuc, ◌+ℤ◌, ◌-ℤ◌}
use unc_coin.Value.{Value, int, text, arr, nil, cons, end}
use unc_coin.Dict.{lookup, lookup_or, contains}
use unc_coin.Randomness.{address_from_public_key}
use unc_coin.Chain.Validate.{is_reward}
use unc_coin.Externals.{Externals}
use unc_coin.Uvm.Machine.{◌>>=◌, pure, push_word, pop_word, write_storage}
use unc_coin.Uvm.Context.{
  Context, no_operands, one_operand, three_operands, int_operand, key_operand, account_operand,
}
use unc_coin.Uvm.Step.{
  execute_instruction, exec_push, exec_store, exec_transfer_from, transfer_funds, exec_halt,
}
use unc_coin.Uvm.Run.{UvmResult, Ending, returned, next, execute_program}
use unc_coin.Uvm.Gas.{Ends, execute_program_total}
use unc_coin.Uvm.Outcome.{IsFair, execute_program-IsFair}
use unc_coin.Uvm.Words.Results.{IsBounded, execute_program-IsBounded}
use unc_coin.Transaction.Serialize.{transaction_hash}
use unc_coin.Transaction.{Transaction, Kind}
use unc_coin.Chain.State.{ChainState, empty_state}
use unc_coin.Chain.Check.{Checked, pass, reject, nonce_mismatch}
use unc_coin.Chain.Apply.{apply_transaction}
use unc_coin.Chain.Accept.{
  Rewards, apply_transaction-Spends, apply_transaction-Rewards, apply_transaction_replay,
}
use unc_coin.Chain.Spend.{Spends}
use unc_coin.Chain.Reward.{Block}
use unc_coin.Chain.Block.{
  Rules, growth_steps, build_child_state, genesis_previous_hash, genesis_hash,
}
use unc_coin.Chain.Select.{select_transactions_for_block}
use unc_coin.Chain.Raise.{Returns}
use unc_coin.Chain.Choice.{Chosen, select_transactions_for_block-IsChoice}
use unc_coin.Chain.Pending.{apply_pending, add_transaction, add_transaction_lem}
use unc_coin.Chain.Difficulty.{growth_steps_lem}
use unc_coin.Chain.Supply.{Extends, build_child_state-Extends}
use unc_coin.Chain.Store.{Blockchain}
use unc_coin.Chain.Issue.{IsSound}

-- Libraries that are good enough for the inputs below: every digest is zero, a coin is one unit,
-- and no text is JSON.
abbrev externals : Externals
externals = record {
  sha256 = λ s. 0;
  units = 1;
  decimal_of = λ v. some (pos 0);
  show_decimal = λ a. "0.0";
  iso_of = λ s. some s;
  show_value = λ v. "";
  json_loads = λ s. none;
  canonical_json = λ v. "";
  shlex_split = λ s. none;
}

-- PUSH 5, STORE "paid", PUSH 3, TRANSFER_FROM alice shop pay, HALT
abbrev program : Value
program = arr (
    cons (arr (cons (text "PUSH") (cons (int (pos 5)) nil))) (
      cons (arr (cons (text "STORE") (cons (text "paid") nil))) (
        cons (arr (cons (text "PUSH") (cons (int (pos 3)) nil))) (
          cons
            (arr (
              cons (text "TRANSFER_FROM")
                (cons (text "alice") (cons (text "shop") (cons (text "pay") nil)))))
            (cons (arr (cons (text "HALT") nil)) nil)))))

abbrev context : Context
context = record {
  tx_sender = "alice";
  contract_address = "vault";
  gas_limit = pos 10000;
  storage = ("paid", 1) ∷ [];
  balances = ("alice", pos 10) ∷ [];
  commitments = [];
  reveals = [];
  authorization_index = [];
  metadata = end;
  input_data = end;
  block_height = 7;
}

abbrev outcome : Option Ending
outcome = execute_program externals program context

abbrev key : String
key = "0000000000000000000000000000000000000000000000000000000000000000"

-- The wallet of the key (3, 5) pays 4 units to "shop" with a fee of 1.
abbrev payment : Transaction
payment = record {
  sender = key;
  receiver = "shop";
  amount = pos 4;
  fee = pos 1;
  timestamp = "";
  nonce = pos 0;
  sender_public_key = some (3, 5);
  signature = some "00";
  kind = Kind.transfer;
  payload = end;
  version = 2;
}

-- The reward of a block with that payment.
abbrev reward : Transaction
reward = record {
  sender = "SYSTEM";
  receiver = key;
  amount = pos 11;
  fee = pos 0;
  timestamp = "";
  nonce = pos 0;
  sender_public_key = none;
  signature = none;
  kind = Kind.transfer;
  payload = end;
  version = 2;
}

abbrev funded : ChainState
funded = record empty_state { balances = (key, pos 9) ∷ []; next_height = 1 }

abbrev after_payment : Checked (ChainState × Option ℤ)
after_payment = apply_transaction externals payment funded 1

abbrev after_payment_state : ChainState
after_payment_state = record empty_state {
  balances = (key, pos 4) ∷ ("shop", pos 4) ∷ [];
  nonces = (key, 1) ∷ [];
  next_height = 1;
}

abbrev after_reward : Checked (ChainState × Option ℤ)
after_reward = apply_transaction externals reward funded 1

abbrev rules : Rules
rules = record {
  externals = externals;
  hash_function = λ b. if b.block_id == 0 then genesis_hash else "0b";
  schedule = record {
    difficulty_bits = pos 4;
    genesis_difficulty_bits = none;
    difficulty_growth_factor = pos 10;
    difficulty_growth_start_height = pos 100;
    difficulty_growth_bits = pos 1;
    difficulty_schedule_activation_height = pos 0;
  };
}

abbrev genesis : Block
genesis = record {
  block_id = 0;
  transactions = [];
  description = "Genesis block";
  previous_hash = genesis_previous_hash;
  nonce = pos 42;
  nonces_checked = none;
  block_hash = genesis_hash;
}

abbrev first_block : Block
first_block = record {
  block_id = 1;
  transactions = reward ∷ payment ∷ [];
  description = "";
  previous_hash = genesis_hash;
  nonce = pos 7;
  nonces_checked = some (pos 7);
  block_hash = "0b";
}

abbrev after_block : Checked ChainState
after_block = build_child_state rules first_block funded

abbrev no_chain : Blockchain
no_chain = record {
  blocks_by_hash = [];
  children_by_hash = [];
  block_states = [];
  pending_transactions = [];
  main_tip_hash = none;
}

-- A block with a reward and nothing else, on the genesis block.
abbrev reward_block : Block
reward_block = record first_block { transactions = record reward { amount = pos 10 } ∷ [] }

abbrev after_reward_block : Checked ChainState
after_reward_block = build_child_state rules reward_block (record empty_state { next_height = 1 })

abbrev after_replay : Checked (ChainState × Option ℤ)
after_replay = apply_transaction externals payment after_payment_state 9

abbrev transferred : UvmResult
transferred = record {
  success = true;
  was_reverted = false;
  gas_used = 152;
  gas_remaining = 9848;
  gas_exhausted = false;
  used_all_gas = false;
  error = none;
  stack = [];
  memory = [];
  storage = ("paid", 5) ∷ [];
  balance_changes = ("alice", negsuc 2) ∷ ("shop", pos 3) ∷ [];
  transfers =
      record { source = "alice"; receiver = "shop"; amount = pos 3; request_id = "pay" } ∷ [];
  program_counter = 4;
}

run_program : execute_program externals program context ≡ some (returned transferred)
unfolding execute_program next execute_instruction exec_push ◌>>=◌ one_operand pure int_operand
    push_word exec_store pop_word key_operand exec_transfer_from three_operands account_operand
    transfer_funds exec_halt no_operands ◌+ℤ◌ ◌-ℤ◌ write_storage lookup_or
run_program = refl

pay : apply_transaction externals payment funded 1 ≡ pass (after_payment_state, some (pos 1))
unfolding apply_transaction address_from_public_key ◌+ℤ◌ ◌-ℤ◌
pay = refl

mint :
    apply_transaction externals reward funded 1
    ≡ pass (record funded { balances = (key, pos 20) ∷ [] }, none)
unfolding apply_transaction ◌+ℤ◌
mint = refl

build :
    build_child_state rules first_block funded
    ≡ pass (record after_payment_state {
      balances = (key, pos 15) ∷ ("shop", pos 4) ∷ [];
      next_height = 2;
    })
unfolding build_child_state address_from_public_key ◌+ℤ◌ ◌-ℤ◌
build = refl

execute_program_total_example : Ends (pos 10000) (execute_program externals program context)
execute_program_total_example = execute_program_total externals program context

execute_program-IsFair_example : IsFair context transferred
execute_program-IsFair_example = execute_program-IsFair externals context program run_program refl

execute_program-IsBounded_example : IsBounded transferred
execute_program-IsBounded_example =
    execute_program-IsBounded externals context program (omega arith, tt) run_program

apply_transaction-Spends_example : Spends payment 0 funded (after_payment_state, some (pos 1))
unfolding is_reward lookup_or lookup
apply_transaction-Spends_example = apply_transaction-Spends externals payment funded 1 refl pay

apply_transaction-Rewards_example :
    Rewards reward funded (record funded { balances = (key, pos 20) ∷ [] }, none)
unfolding is_reward
apply_transaction-Rewards_example = apply_transaction-Rewards externals reward funded 1 refl mint

apply_transaction_replay_example :
    apply_transaction externals payment after_payment_state 9 ≡ reject nonce_mismatch
unfolding is_reward
apply_transaction_replay_example = apply_transaction_replay externals payment funded 1 9 refl pay

build_child_state-Extends_example : Extends rules first_block funded (record after_payment_state {
  balances = (key, pos 15) ∷ ("shop", pos 4) ∷ [];
  next_height = 2;
})
build_child_state-Extends_example = build_child_state-Extends rules first_block funded refl build

no_chain-IsSound : IsSound rules no_chain
unfolding lookup contains
no_chain-IsSound = record {
  issued = λ h s found. cc;
  tip = λ t e. cc;
  linked = record {
    stated = λ h b found. cc;
    blocked = λ h s found. cc;
    keyed = λ h b found. cc;
    one_root = λ h b found e. cc;
  };
  tipless = λ e h. refl;
}

growth_steps_lem_example :
    (n : ℕ) × (growth_steps 1501 1500 100 10 0 ≡ some n)
    × (1500 < 100 * 10 ^ n)
    × ((m : ℕ) → m < n → 100 * 10 ^ m ≤ 1500)
growth_steps_lem_example = growth_steps_lem 1500 100 10 (omega arith) (omega arith)

select_transactions_for_block-IsChoice_example :
    Returns externals
      (payment ∷ [])
      (Chosen externals funded)
      (select_transactions_for_block externals (payment ∷ []) funded)
select_transactions_for_block-IsChoice_example =
    select_transactions_for_block-IsChoice externals funded (payment ∷ [])

-- The payment is selected, and the second copy of it is not.
select_payment :
    select_transactions_for_block externals (payment ∷ payment ∷ []) funded
    ≡ pass (some (payment ∷ []))
unfolding select_transactions_for_block address_from_public_key ◌+ℤ◌
select_payment = refl

add_payment : add_transaction externals payment [] funded ≡ pass (payment ∷ [])
unfolding add_transaction address_from_public_key ◌+ℤ◌ ◌-ℤ◌
add_payment = refl

add_transaction_lem_example :
    (is_reward payment ≡ false)
    × ((payment ∷ []) ≡ [] ++ payment ∷ [])
    × (state : ChainState) × (apply_pending externals (payment ∷ []) funded ≡ pass state)
add_transaction_lem_example = add_transaction_lem externals payment [] funded add_payment
