-- ===== src/Chain/Execute.antt =====
-- `_apply_execute_transaction_to_state_error` of core/blockchain.py: a call of a contract.
use unc_coin.Prelude.{
  ℕ, suc, String, ◌&&◌, ◌||◌, Option, none, some, List, [], ◌∷◌, str_eq, if◌then◌else◌,
}
use unc_coin.Prelude.Int.{ℤ, pos, ◌+ℤ◌, ◌-ℤ◌, ◌*ℤ◌, ltb_ℤ}
use unc_coin.Text.{strip, lower}
use unc_coin.Value.{Value, null, text, obj, Fields, end, get_field, is_truthy, value_int}
use unc_coin.Dict.{Dict, lookup, lookup_or, insert, is_some}
use unc_coin.Dict.Sum.{get0, bump}
use unc_coin.Authorization.{AuthIndex, Scope, scope_of_value, scope_fields, scope_error}
use unc_coin.Randomness.{compute_contract_code_hash}
use unc_coin.Externals.{Externals, show}
use unc_coin.Uvm.Context.{Context}
use unc_coin.Uvm.Run.{UvmResult, Ending, returned, raised, execute_program}
use unc_coin.Transaction.Serialize.{transaction_hash}
use unc_coin.Transaction.{Transaction}
use unc_coin.Chain.State.{ChainState, Contract, Receipt, AuthorizationEntry, insert_in}
use unc_coin.Chain.Check.{
  Checked, pass, reject, ◌>>=◌, ◌>>◌, refuse_if, require, need, receiver_empty, amount_negative,
  contract_address_invalid, contract_address_mismatch, gas_limit_invalid, gas_limit_negative,
  gas_price_invalid, gas_price_negative, fee_below_fuel, balance_too_low, undeployed_contract,
  inline_authorizations, no_result, value_error,
}

-- The scope of an entry, if it holds at a block height.
unfoldable pub live_scope : ℕ → Value → Option Scope
unfolding scope_of_value scope_error
live_scope height v = keep_live (scope_of_value v)
  where
    keep_live : Option Scope → Option Scope
    keep_live none = none
    keep_live (some s) = if is_some (scope_error s height) then none else some s

-- What an entry adds to the index.
unfoldable pub index_scope : Option Scope → String → String → AuthIndex → AuthIndex
unfolding scope_fields insert_in
index_scope none wallet request_id index = index
index_scope (some s) wallet request_id index =
    if str_eq wallet "" || str_eq request_id ""
    then index
    else insert_in wallet request_id (scope_fields s) index

-- The loop of `_build_chain_authorization_index`.
unfoldable pub build_authorization_index :
    String → String → ℕ → List AuthorizationEntry → AuthIndex → AuthIndex
unfolding strip lower live_scope index_scope
build_authorization_index address code_hash height [] index = index
build_authorization_index address code_hash height (a ∷ as₁) index =
    build_authorization_index address code_hash height as₁ (
      if str_eq a.contract_address address && str_eq (lower (strip a.code_hash)) code_hash
      then index_scope (live_scope height (obj a.scope)) (strip a.wallet) (strip a.request_id) index
      else index)

-- What the call runs: the program, its input and metadata, and the code hash.
pub record Target : Type 0 where
  pub program : Value
  pub input_data : Fields
  pub metadata : Fields
  pub code_hash : String

abbrev dict_or_empty : Option Value → Fields
dict_or_empty (some (obj fields)) = fields
dict_or_empty _ = end

-- A program that comes with the call; `None` is no program.
unfoldable pub inline_target : Externals → Option Value → Checked Target
unfolding compute_contract_code_hash
inline_target X none = reject undeployed_contract
inline_target X (some null) = reject undeployed_contract
inline_target X (some program) = pass (record {
  program = program;
  input_data = end;
  metadata = end;
  code_hash = compute_contract_code_hash X program end;
})

unfoldable pub call_target : Externals → Option Contract → Option Value → Checked Target
unfolding inline_target
call_target X (some c) input = pass (record {
  program = c.program;
  input_data = dict_or_empty input;
  metadata = c.metadata;
  code_hash = c.code_hash;
})
call_target X none input = inline_target X input

-- `str(payload.get("contract_address", receiver))`
unfoldable pub shown_or : Externals → String → Option Value → String
unfolding show
shown_or X default none = default
shown_or X default (some v) = show X v

abbrev pub value_or : Value → Option Value → Value
value_or default none = default
value_or default (some v) = v

abbrev pub int_of_field : Option Value → Option ℤ
int_of_field none = none
int_of_field (some v) = value_int v

-- `for address, change in balance_changes.items()`
unfoldable pub add_changes : Dict ℤ → Dict ℤ → Dict ℤ
unfolding bump
add_changes [] balances = balances
add_changes ((a, x) ∷ changes) balances = add_changes changes (bump a x balances)

-- `balances[address] += amount`, if there is an amount.
unfoldable pub credit : String → ℤ → Dict ℤ → Dict ℤ
unfolding bump
credit address amount balances =
    if ltb_ℤ (pos 0) amount then bump address amount balances else balances

-- `balances[sender] -= amount`
unfoldable pub debit : String → ℤ → Dict ℤ → Dict ℤ
unfolding insert
debit address amount balances = insert address (get0 address balances -ℤ amount) balances

-- The balances after the call: the fee is paid in any case.
unfoldable pub settle : String → String → ℤ → ℤ → UvmResult → Dict ℤ → Dict ℤ
unfolding debit credit add_changes
settle sender address amount fee_paid result balances =
    let paid = debit sender fee_paid balances in
    if result.success
    then add_changes result.balance_changes (credit address amount (debit sender amount paid))
    else paid

unfoldable pub receipt : Transaction → ℤ → UvmResult → Receipt
receipt t fee_paid result = record {
  result = result;
  fee_escrowed = t.fee;
  fee_paid = fee_paid;
  fee_refunded = t.fee -ℤ fee_paid;
}

-- The writes to the state, with the fee that was paid.
unfoldable pub record_execution :
    Externals → Transaction → ℕ → String → ℤ → UvmResult → ChainState → ChainState
unfolding settle receipt insert
record_execution S t nonce address fee_paid result state = record state {
  nonces = insert t.sender (suc nonce) state.nonces;
  balances = settle t.sender address t.amount fee_paid result state.balances;
  contract_storage =
      if result.success
      then insert address result.storage state.contract_storage
      else state.contract_storage;
  uvm_receipts = insert (transaction_hash S t) (receipt t fee_paid result) state.uvm_receipts;
}

-- The fee for the gas that was used, or the whole fee if gas is free.
unfoldable pub execution_fee : ℤ → ℤ → UvmResult → ℤ
execution_fee gas_price fee result =
    if ltb_ℤ (pos 0) gas_price then pos result.gas_used *ℤ gas_price else fee

-- The balances that the program sees: the cost is taken, the value is with the contract.
unfoldable pub escrowed : Transaction → String → ChainState → Dict ℤ
unfolding debit credit
escrowed t address state =
    credit address t.amount (debit t.sender (t.amount +ℤ t.fee) state.balances)

unfoldable pub call_context : Transaction → String → ℤ → Target → ℕ → ChainState → Context
unfolding escrowed lookup_or build_authorization_index
call_context t address gas_limit target height state = record {
  tx_sender = t.sender;
  contract_address = address;
  gas_limit = gas_limit;
  storage = lookup_or address [] state.contract_storage;
  balances = escrowed t address state;
  commitments = state.commitments;
  reveals = state.reveals;
  authorization_index =
      build_authorization_index address target.code_hash height state.authorizations [];
  metadata = target.metadata;
  input_data = target.input_data;
  block_height = height;
}

-- What the first checks find: the address, the gas limit and the gas price.
pub record Call : Type 0 where
  pub address : String
  pub gas_limit : ℤ
  pub gas_price : ℤ

-- The checks in front of the choice of the program.
unfoldable pub check_call : Externals → Transaction → ChainState → Checked Call
unfolding strip shown_or get_field
check_call X t state = do
  refuse_if (str_eq t.receiver "") receiver_empty
  refuse_if (ltb_ℤ t.amount (pos 0)) amount_negative
  let address = strip (shown_or X t.receiver (get_field "contract_address" t.payload))
  refuse_if (str_eq address "") contract_address_invalid
  require (str_eq address t.receiver) contract_address_mismatch
  gas_limit ← need (int_of_field (get_field "gas_limit" t.payload)) gas_limit_invalid
  refuse_if (ltb_ℤ gas_limit (pos 0)) gas_limit_negative
  gas_price ←
      need (X.decimal_of (value_or (text "0.0") (get_field "gas_price" t.payload)))
        gas_price_invalid
  refuse_if (ltb_ℤ gas_price (pos 0)) gas_price_negative
  refuse_if (ltb_ℤ (pos 0) gas_price && ltb_ℤ t.fee (gas_limit *ℤ gas_price)) fee_below_fuel
  refuse_if (ltb_ℤ (get0 t.sender state.balances) (t.amount +ℤ t.fee)) balance_too_low
  pass (record { address = address; gas_limit = gas_limit; gas_price = gas_price })

-- The choice of the program, and the refusal of authorizations that come with the call.
unfoldable pub find_target : Externals → Transaction → String → ChainState → Checked Target
unfolding call_target is_truthy lookup get_field
find_target X t address state = do
  target ← call_target X (lookup address state.contracts) (get_field "input" t.payload)
  refuse_if (is_truthy (value_or null (get_field "authorizations" t.payload))) inline_authorizations
  pass target

-- The result of the program. A `ValueError` that leaves it leaves the call as well.
unfoldable pub result_of : Option Ending → Checked UvmResult
result_of none = reject no_result
result_of (some raised) = reject value_error
result_of (some (returned result)) = pass result

-- `_apply_execute_transaction_to_state_error`, on a sender with this nonce at this block height;
-- hands on the new state and the fee.
unfoldable pub apply_execute :
    Externals → Transaction → ChainState → ℕ → ℕ → Checked (ChainState × Option ℤ)
unfolding check_call find_target call_context result_of execution_fee record_execution
apply_execute S t state nonce height = do
  call ← check_call S t state
  target ← find_target S t call.address state
  result ← result_of (
      execute_program S target.program
        (call_context t call.address call.gas_limit target height state))
  let fee_paid = execution_fee call.gas_price t.fee result
  pass (record_execution S t nonce call.address fee_paid result state, some fee_paid)
