-- ===== src/Chain/Serialize.antt =====
-- The text of a block that is hashed, core/serialization.py, and its hash, core/hashing.py.
use unc_coin.Prelude.{String, List, [], ◌∷◌}
use unc_coin.Text.{append, show_ℕ, show_ℤ, ◌bar◌}
use unc_coin.Externals.{Externals, hex_digest}
use unc_coin.Transaction.{Transaction}
use unc_coin.Transaction.Serialize.{serialize_transaction}
use unc_coin.Chain.Reward.{Block}

-- The texts of the transactions, one behind the other.
unfoldable pub transaction_data : Externals → List Transaction → String
unfolding serialize_transaction
transaction_data X [] = ""
transaction_data X (t ∷ ts) = append (serialize_transaction X t) (transaction_data X ts)

unfoldable pub serialize_block_prefix : Externals → Block → String
unfolding show_ℕ transaction_data
serialize_block_prefix X block =
    show_ℕ block.block_id
    bar transaction_data X block.transactions
    bar block.description
    bar block.previous_hash
    bar ""

unfoldable pub serialize_block : Externals → Block → String
unfolding show_ℤ serialize_block_prefix
serialize_block X block = append (serialize_block_prefix X block) (show_ℤ block.nonce)

-- `sha256_block_hash`
unfoldable pub sha256_block_hash : Externals → Block → String
unfolding hex_digest serialize_block
sha256_block_hash X block = hex_digest X (serialize_block X block)
