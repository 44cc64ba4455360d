-- ===== src/Chain/State.antt =====
-- `ChainState` of core/blockchain.py.
use unc_coin.Prelude.{ℕ, String, List, []}
use unc_coin.Prelude.Int.{ℤ}
use unc_coin.Value.{Value, Fields}
use unc_coin.Dict.{Dict, lookup_or, insert}
use unc_coin.Uvm.Context.{Reveal}
use unc_coin.Uvm.Run.{UvmResult}

-- An entry of `state.authorizations`.
pub record AuthorizationEntry : Type 0 where
  pub wallet : String
  pub contract_address : String
  pub code_hash : String
  pub request_id : String
  pub scope : Fields
  pub authorized_at_height : ℕ

-- An entry of `state.contracts`.
pub record Contract : Type 0 where
  pub deployer : String
  pub code_hash : String
  pub program : Value
  pub metadata : Fields

-- An entry of `state.uvm_receipts`.
pub record Receipt : Type 0 where
  pub result : UvmResult
  pub fee_escrowed : ℤ
  pub fee_paid : ℤ
  pub fee_refunded : ℤ

-- `next_height` is the height plus one, since the height starts at -1.
pub record ChainState : Type 0 where
  pub balances : Dict ℤ
  pub nonces : Dict ℕ
  pub commitments : Dict (Dict String)
  pub reveals : Dict (Dict Reveal)
  pub authorizations : List AuthorizationEntry
  pub contracts : Dict Contract
  pub contract_storage : Dict (Dict ℕ)
  pub uvm_receipts : Dict Receipt
  pub next_height : ℕ

-- `ChainState()`
abbrev pub empty_state : ChainState
empty_state = record {
  balances = [];
  nonces = [];
  commitments = [];
  reveals = [];
  authorizations = [];
  contracts = [];
  contract_storage = [];
  uvm_receipts = [];
  next_height = 0;
}

-- `outer.setdefault(first, {})[second] = v`
unfoldable pub insert_in {ℓ} : {V : Type ℓ} → String → String → V → Dict (Dict V) → Dict (Dict V)
unfolding insert lookup_or
insert_in first second v outer = insert first (insert second v (lookup_or first [] outer)) outer
