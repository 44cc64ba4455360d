-- ===== src/Transaction/Build.antt =====
-- The constructors by kind of core/transaction.py; each ends with `__post_init__`.
use unc_coin.Prelude.{ℕ, String, Option, none, some, ◌≡◌, refl, str_eq, if◌then◌else◌}
use unc_coin.Prelude.Int.{ℤ, pos}
use unc_coin.Value.{Value, text, int, obj, Fields, field, end}
use unc_coin.Text.{strip, lower}
use unc_coin.Externals.{Externals, show}
use unc_coin.Randomness.{compute_contract_code_hash, compute_contract_address}
use unc_coin.Transaction.{Transaction, Kind}
use unc_coin.Transaction.Wire.{default_payload, post_init}

-- What every constructor is given besides, under the source's parameter names.
pub record Envelope : Type 0 where
  pub sender : String
  pub fee : ℤ
  pub timestamp : String
  pub nonce : ℤ
  pub sender_public_key : Option (ℕ × ℕ)
  pub signature : Option String

-- A transaction of `TRANSACTION_VERSION_TYPED`.
unfoldable pub build_transaction : Externals → Envelope → Kind → String → ℤ → Fields → Transaction
unfolding post_init
build_transaction X e kind receiver amount payload = post_init X (record {
  sender = e.sender;
  receiver = receiver;
  amount = amount;
  fee = e.fee;
  timestamp = e.timestamp;
  nonce = e.nonce;
  sender_public_key = e.sender_public_key;
  signature = e.signature;
  kind = kind;
  payload = payload;
  version = 2;
})

module _ (X : Externals) (e : Envelope) where
  unfoldable pub transfer : String → ℤ → Transaction
  unfolding build_transaction
  transfer receiver amount =
      build_transaction X e Kind.transfer receiver amount
        (field "receiver" (text receiver) (field "amount" (text (X.show_decimal amount)) end))

  unfoldable execute : String → Value → ℤ → ℤ → ℤ → Transaction
  unfolding build_transaction
  execute contract_address input_data value gas_limit gas_price =
      build_transaction X e Kind.execute contract_address value (
        field "contract_address" (text contract_address) (
          field "input" input_data (
            field "value" (text (X.show_decimal value)) (
              field "gas_limit" (int gas_limit)
                (field "gas_price" (text (X.show_decimal gas_price)) end)))))

  unfoldable authorize : String → String → String → Fields → Transaction
  unfolding build_transaction strip lower
  authorize contract_address code_hash request_id scope =
      build_transaction X e Kind.authorize contract_address (pos 0) (
        field "contract_address" (text contract_address) (
          field "code_hash" (text (lower (strip code_hash)))
            (field "request_id" (text request_id) (field "scope" (obj scope) end))))

  -- `contract_address or …`
  address_or : Option String → String → String
  address_or none computed = computed
  address_or (some a) computed = if str_eq a "" then computed else a

  unfoldable deploy : Value → Option String → Fields → Transaction
  unfolding build_transaction address_or compute_contract_code_hash compute_contract_address
  deploy program contract_address metadata =
      let code_hash = compute_contract_code_hash X program metadata in
      let resolved =
        address_or contract_address (compute_contract_address X e.sender e.nonce code_hash) in
      build_transaction X e Kind.deploy resolved (pos 0) (
        field "contract_address" (text resolved) (
          field "code_hash" (text code_hash)
            (field "program" program (field "metadata" (obj metadata) end))))

  unfoldable commit : String → String → Transaction
  unfolding build_transaction
  commit request_id commitment_hash =
      build_transaction X e Kind.commit "" (pos 0)
        (field "request_id" (text request_id) (field "commitment_hash" (text commitment_hash) end))

  unfoldable reveal : String → Value → String → Transaction
  unfolding build_transaction show
  reveal request_id seed salt = build_transaction X e Kind.reveal "" (pos 0) (
      field "request_id" (text request_id)
        (field "seed" (text (show X seed)) (field "salt" (text salt) end)))

default_payload_idem :
    (X : Externals) (kind : Kind) (fs : Fields) (receiver : String) (amount : ℤ)
    → default_payload X kind (default_payload X kind fs receiver amount) receiver amount
      ≡ default_payload X kind fs receiver amount
unfolding default_payload
default_payload_idem X Kind.transfer end receiver amount = refl
default_payload_idem X Kind.transfer (field k v fs) receiver amount = refl
default_payload_idem X Kind.execute fs receiver amount = refl
default_payload_idem X Kind.commit fs receiver amount = refl
default_payload_idem X Kind.reveal fs receiver amount = refl
default_payload_idem X Kind.authorize fs receiver amount = refl
default_payload_idem X Kind.deploy fs receiver amount = refl
default_payload_idem X (Kind.other s) fs receiver amount = refl

-- A transaction that was built is completed: `__post_init__` changes it no more.
pub post_init-build_transaction :
    (X : Externals) (e : Envelope) (kind : Kind) (receiver : String) (amount : ℤ) (payload : Fields)
    → post_init X (build_transaction X e kind receiver amount payload)
      ≡ build_transaction X e kind receiver amount payload
unfolding build_transaction post_init
post_init-build_transaction X e kind receiver amount payload =
    rw (default_payload_idem X kind payload receiver amount) refl
