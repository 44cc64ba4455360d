-- ===== src/Randomness.antt =====
-- Seeds and the commitments to them, core/randomness.py, and the addresses and code hashes of
-- core/contracts.py and wallet/wallet.py.
use unc_coin.Prelude.{ℕ, ◌^◌, String, Option, none, some, str_eq, ltb, if◌then◌else◌}
use unc_coin.Prelude.Int.{ℤ, pos, negsuc}
use unc_coin.Text.{strip, lower, has_hex_prefix, parse_int, show_ℕ, show_ℤ, ◌bar◌, append}
use unc_coin.Value.{Value, int, text, obj, Fields, field, end}
use unc_coin.Externals.{Externals, hex_digest}

-- `seed_value < 0 or seed_value >= RANDOMNESS_SEED_MODULUS`
unfoldable pub seed_in_range : Option ℤ → Option ℕ
seed_in_range none = none
seed_in_range (some (negsuc n)) = none
seed_in_range (some (pos n)) = if ltb n (2 ^ 256) then some n else none

unfoldable pub seed_of_text : String → Option ℤ
unfolding has_hex_prefix parse_int
seed_of_text stripped =
    if str_eq stripped ""
    then none
    else if has_hex_prefix stripped
    then parse_int 16 stripped
    else parse_int 10 stripped

-- `parse_randomness_seed`; `none` is a `ValueError`.
unfoldable pub parse_randomness_seed : Value → Option ℕ
unfolding seed_in_range seed_of_text strip
parse_randomness_seed (int n) = seed_in_range (some n)
parse_randomness_seed (text s) = seed_in_range (seed_of_text (strip s))
parse_randomness_seed _ = none

-- `reveal_commitment_payload`, on a seed that was parsed.
unfoldable pub reveal_commitment_payload : String → String → ℕ → String → String
unfolding strip show_ℕ
reveal_commitment_payload sender request_id seed salt =
    "UVM_REVEAL" bar "1" bar strip sender bar strip request_id bar show_ℕ seed bar strip salt

-- `create_reveal_commitment_hash`
unfoldable pub create_reveal_commitment_hash : Externals → String → String → ℕ → String → String
unfolding reveal_commitment_payload hex_digest
create_reveal_commitment_hash X sender request_id seed salt =
    hex_digest X (reveal_commitment_payload sender request_id seed salt)

-- `compute_contract_code_hash`
unfoldable pub compute_contract_code_hash : Externals → Value → Fields → String
unfolding hex_digest
compute_contract_code_hash X program metadata = hex_digest X (
    X.canonical_json (
      obj (
        field "domain" (text "UVM_CODE") (
          field "version" (int (pos 1))
            (field "program" program (field "metadata" (obj metadata) end))))))

-- `compute_contract_address`
unfoldable pub compute_contract_address : Externals → String → ℤ → String → String
unfolding hex_digest strip lower show_ℤ
compute_contract_address X deployer nonce code_hash =
    hex_digest X
      ("UVM_CONTRACT" bar "1" bar strip deployer bar show_ℤ nonce bar lower (strip code_hash))

-- `Wallet.address_from_public_key`, on the exponent and the modulus.
unfoldable pub address_from_public_key : Externals → ℕ × ℕ → String
unfolding hex_digest show_ℕ
address_from_public_key X (exponent, modulus) =
    hex_digest X (append (show_ℕ exponent) (append ":" (show_ℕ modulus)))
