-- ===== src/Chain/Validate.antt =====
-- The checks of core/blockchain.py on a transaction, kind by kind. A check that passes hands on
-- what its caller reads again from the payload.
use unc_coin.Prelude.{
  ℕ, String, ◌==◌, Bool, false, not, ◌&&◌, Option, none, some, List, [], ◌∷◌, str_eq, leb,
  if◌then◌else◌,
}
use unc_coin.Prelude.Int.{ℤ, pos, negsuc}
use unc_coin.Text.{strip, lower, text_length, all_hex, parse_int}
use unc_coin.Value.{Value, null, text, arr, obj, Fields, end, get_field, items_list}
use unc_coin.Dict.{lookup, contains, is_some}
use unc_coin.Authorization.{Scope, scope_of_value, lookup_in}
use unc_coin.Randomness.{
  parse_randomness_seed, create_reveal_commitment_hash, compute_contract_code_hash,
  compute_contract_address, address_from_public_key,
}
use unc_coin.Externals.{Externals, show}
use unc_coin.Uvm.Program.{parse_program}
use unc_coin.Wallet.{verify_signature_with_public_key}
use unc_coin.Transaction.Serialize.{signing_payload}
use unc_coin.Transaction.{Transaction, stripped_field, nonempty_text}
use unc_coin.Chain.State.{ChainState, Contract}
use unc_coin.Chain.Check.{
  Checked, pass, reject, ◌>>=◌, ◌>>◌, refuse_if, require, need, reward_signed, signature_missing,
  sender_key_mismatch, signature_invalid, value_error, receiver_empty, receiver_not_empty,
  amount_not_zero, request_id_invalid, request_id_too_long, commitment_hash_invalid,
  commitment_exists, seed_missing, seed_invalid, salt_invalid, salt_too_long, no_commitment,
  reveal_exists, seed_mismatch, contract_address_invalid, contract_address_mismatch,
  code_hash_invalid, code_hash_mismatch, scope_invalid, already_deployed, program_missing,
  program_invalid, metadata_invalid, address_not_derived, metadata_request_ids_invalid,
}

-- `is_mining_reward_transaction`
unfoldable pub is_reward : Transaction → Bool
is_reward t = str_eq t.sender "SYSTEM"

-- `_validate_transaction_authenticity_error`
unfoldable pub check_authenticity : Externals → Transaction → Checked (Unit {0})
unfolding is_reward address_from_public_key verify_signature_with_public_key signing_payload
check_authenticity S t =
    if is_reward t
    then refuse_if (is_some t.sender_public_key) reward_signed
      >> refuse_if (is_some t.signature) reward_signed
    else do
      key ← need t.sender_public_key signature_missing
      signature ← need t.signature signature_missing
      require (str_eq t.sender (address_from_public_key S key)) sender_key_mismatch
      valid ←
          need (verify_signature_with_public_key S (signing_payload S t) signature key) value_error
      require valid signature_invalid

abbrev is_zero : ℤ → Bool
is_zero (pos n) = n == 0
is_zero (negsuc n) = false

-- `_validate_commit_transaction_error`; hands on the request id and the commitment hash.
unfoldable pub check_commit : Transaction → ChainState → Checked (String × String)
unfolding stripped_field all_hex lower lookup
check_commit t state = do
  refuse_if (not (str_eq t.receiver "")) receiver_not_empty
  require (is_zero t.amount) amount_not_zero
  request_id ← need (stripped_field "request_id" t.payload) request_id_invalid
  require (leb (text_length request_id) 128) request_id_too_long
  commitment_hash ← need (stripped_field "commitment_hash" t.payload) commitment_hash_invalid
  require (text_length commitment_hash == 64 && all_hex commitment_hash) commitment_hash_invalid
  refuse_if (is_some (lookup_in t.sender (lookup request_id state.commitments))) commitment_exists
  pass (request_id, lower commitment_hash)

-- The text under `salt`, which may be left out.
unfoldable pub salt_text : Option Value → Checked String
unfolding strip
salt_text none = pass ""
salt_text (some (text s)) = pass (strip s)
salt_text (some _) = reject salt_invalid

-- `_validate_reveal_transaction_error`; hands on the request id, the seed, the salt and the
-- commitment.
unfoldable pub check_reveal :
    Externals → Transaction → ChainState → Checked (String × ℕ × String × String)
unfolding stripped_field get_field parse_randomness_seed salt_text lookup
    create_reveal_commitment_hash
check_reveal X t state = do
  refuse_if (not (str_eq t.receiver "")) receiver_not_empty
  require (is_zero t.amount) amount_not_zero
  request_id ← need (stripped_field "request_id" t.payload) request_id_invalid
  require (leb (text_length request_id) 128) request_id_too_long
  seed_field ← need (get_field "seed" t.payload) seed_missing
  seed ← need (parse_randomness_seed seed_field) seed_invalid
  salt ← salt_text (get_field "salt" t.payload)
  require (leb (text_length salt) 1024) salt_too_long
  commitment_hash ← need (lookup_in t.sender (lookup request_id state.commitments)) no_commitment
  refuse_if (is_some (lookup_in t.sender (lookup request_id state.reveals))) reveal_exists
  require (str_eq (create_reveal_commitment_hash X t.sender request_id seed salt) commitment_hash)
      seed_mismatch
  pass (request_id, seed, salt, commitment_hash)

-- `_is_hex_hash`
unfoldable pub is_hex_hash : String → Bool
unfolding parse_int
is_hex_hash s = text_length s == 64 && is_some (parse_int 16 s)

-- The code hash of a contract that is deployed must be the one that is authorized.
unfoldable pub check_deployed_hash : String → Option Contract → Checked (Unit {0})
unfolding lower strip
check_deployed_hash code_hash none = pass tt
check_deployed_hash code_hash (some c) =
    require (str_eq code_hash (lower (strip c.code_hash))) code_hash_mismatch

-- `_validate_authorize_transaction_error`; hands on the address, the code hash, the request id and
-- the scope.
unfoldable pub check_authorize :
    Transaction → ChainState → Checked (String × String × String × Scope)
unfolding stripped_field is_hex_hash check_deployed_hash get_field scope_of_value lookup
check_authorize t state = do
  refuse_if (str_eq t.receiver "") receiver_empty
  require (is_zero t.amount) amount_not_zero
  contract_address ← need (stripped_field "contract_address" t.payload) contract_address_invalid
  require (str_eq contract_address t.receiver) contract_address_mismatch
  raw_code_hash ← need (stripped_field "code_hash" t.payload) code_hash_invalid
  require (is_hex_hash raw_code_hash) code_hash_invalid
  check_deployed_hash (lower raw_code_hash) (lookup contract_address state.contracts)
  request_id ← need (stripped_field "request_id" t.payload) request_id_invalid
  require (leb (text_length request_id) 128) request_id_too_long
  scope ← need (scope_of_value (scope_field (get_field "scope" t.payload))) scope_invalid
  pass (contract_address, lower raw_code_hash, request_id, scope)
  where
    scope_field : Option Value → Value
    scope_field none = obj end
    scope_field (some v) = v

-- The loop over `metadata.request_ids`.
unfoldable pub check_request_ids : List Value → Checked (Unit {0})
unfolding nonempty_text
check_request_ids [] = pass tt
check_request_ids (v ∷ vs) = do
  request_id ← need (nonempty_text (some v)) metadata_request_ids_invalid
  require (leb (text_length request_id) 128) metadata_request_ids_invalid
  check_request_ids vs

unfoldable pub check_metadata_request_ids : Option Value → Checked (Unit {0})
unfolding check_request_ids items_list
check_metadata_request_ids none = pass tt
check_metadata_request_ids (some null) = pass tt
check_metadata_request_ids (some (arr vs)) = check_request_ids (items_list vs)
check_metadata_request_ids (some _) = reject metadata_request_ids_invalid

-- The object under `metadata`, which may be left out.
unfoldable pub metadata_fields : Option Value → Checked Fields
metadata_fields none = pass end
metadata_fields (some (obj fields)) = pass fields
metadata_fields (some _) = reject metadata_invalid

-- `str(payload.get("code_hash", ""))`
unfoldable pub shown_or_empty : Externals → Option Value → String
unfolding show
shown_or_empty X none = ""
shown_or_empty X (some v) = show X v

-- `_validate_deploy_transaction_error`; hands on the contract to store and its address.
unfoldable pub check_deploy : Externals → Transaction → ChainState → Checked (String × Contract)
unfolding stripped_field contains get_field parse_program metadata_fields shown_or_empty lower strip
    compute_contract_code_hash compute_contract_address check_metadata_request_ids
check_deploy X t state = do
  refuse_if (str_eq t.receiver "") receiver_empty
  require (is_zero t.amount) amount_not_zero
  contract_address ← need (stripped_field "contract_address" t.payload) contract_address_invalid
  require (str_eq contract_address t.receiver) contract_address_mismatch
  refuse_if (contains contract_address state.contracts) already_deployed
  program ← need (get_field "program" t.payload) program_missing
  require (is_some (parse_program X program)) program_invalid
  metadata ← metadata_fields (get_field "metadata" t.payload)
  let expected = compute_contract_code_hash X program metadata
  let raw_code_hash = shown_or_empty X (get_field "code_hash" t.payload)
  require (str_eq (lower (strip raw_code_hash)) expected) code_hash_mismatch
  require (str_eq contract_address (compute_contract_address X t.sender t.nonce expected))
      address_not_derived
  check_metadata_request_ids (get_field "request_ids" metadata)
  pass (
    contract_address,
    record {
      deployer = t.sender;
      code_hash = raw_code_hash;
      program = program;
      metadata = metadata;
    },
  )
