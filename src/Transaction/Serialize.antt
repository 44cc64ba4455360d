-- ===== src/Transaction/Serialize.antt =====
-- The texts that are signed and hashed: `signing_payload` and `canonical_payload` of
-- core/transaction.py, core/serialization.py and `sha256_transaction_hash` of core/hashing.py.
use unc_coin.Prelude.{ℕ, String, Option, none, some, ◌==◌, if◌then◌else◌}
use unc_coin.Value.{obj}
use unc_coin.Text.{append, show_ℕ, show_ℤ, ◌bar◌}
use unc_coin.Externals.{Externals, hex_digest}
use unc_coin.Transaction.{Transaction}
use unc_coin.Transaction.Wire.{canonical_fields, kind_text}

unfoldable pub canonical_payload : Externals → Transaction → String
unfolding canonical_fields
canonical_payload X t = X.canonical_json (obj (canonical_fields t.payload))

unfoldable pub signing_payload : Externals → Transaction → String
unfolding show_ℕ show_ℤ kind_text canonical_payload
signing_payload X t =
    if t.version == 1
    then t.sender
      bar t.receiver
      bar X.show_decimal t.amount
      bar X.show_decimal t.fee
      bar show_ℤ t.nonce
      bar t.timestamp
    else show_ℕ t.version
      bar kind_text t.kind
      bar t.sender
      bar t.receiver
      bar X.show_decimal t.amount
      bar X.show_decimal t.fee
      bar show_ℤ t.nonce
      bar t.timestamp
      bar canonical_payload X t

unfoldable pub serialize_public_key : Option (ℕ × ℕ) → String
unfolding show_ℕ
serialize_public_key none = ""
serialize_public_key (some (exponent, modulus)) =
    append (show_ℕ exponent) (append ":" (show_ℕ modulus))

-- `signature or ''`
abbrev signature_text : Option String → String
signature_text none = ""
signature_text (some s) = s

unfoldable pub serialize_transaction : Externals → Transaction → String
unfolding show_ℕ show_ℤ kind_text canonical_payload serialize_public_key
serialize_transaction X t =
    if t.version == 1
    then t.sender
      bar t.receiver
      bar X.show_decimal t.amount
      bar X.show_decimal t.fee
      bar t.timestamp
      bar show_ℤ t.nonce
      bar serialize_public_key t.sender_public_key
      bar signature_text t.signature
    else show_ℕ t.version
      bar kind_text t.kind
      bar t.sender
      bar t.receiver
      bar X.show_decimal t.amount
      bar X.show_decimal t.fee
      bar t.timestamp
      bar show_ℤ t.nonce
      bar serialize_public_key t.sender_public_key
      bar signature_text t.signature
      bar canonical_payload X t

-- `sha256_transaction_hash`
unfoldable pub transaction_hash : Externals → Transaction → String
unfolding hex_digest serialize_transaction
transaction_hash X t = hex_digest X (serialize_transaction X t)
