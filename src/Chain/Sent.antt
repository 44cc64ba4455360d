-- ===== src/Chain/Sent.antt =====
-- A block that is sent in its dict form, as the receiver reads it.
use unc_coin.Prelude.{String, List, [], ◌∷◌, some, ◌≡◌, refl, ap, map}
use unc_coin.Text.{append, show_ℕ, show_ℤ, ◌bar◌}
use unc_coin.Externals.{Externals, hex_digest}
use unc_coin.Transaction.{Transaction}
use unc_coin.Transaction.Wire.{post_init}
use unc_coin.Transaction.RoundTrip.{IsExact}
use unc_coin.Transaction.Sent.{read_back, serialize_transaction-read_back}
use unc_coin.Chain.Reward.{Block}
use unc_coin.Chain.Serialize.{
  transaction_data, serialize_block_prefix, serialize_block, sha256_block_hash,
}
use unc_coin.Chain.Wire.{block_to_dict, block_from_dict}
use unc_coin.Chain.RoundTrip.{AreReadable, block_from_dict-block_to_dict}

-- `__post_init__` has completed every transaction.
unfoldable pub AreComplete : Externals → List Transaction → Type 0
AreComplete X [] = Unit
AreComplete X (t ∷ ts) = (post_init X t ≡ t) × AreComplete X ts

transaction_data-read_back :
    (X : Externals) (ts : List Transaction)
    → AreComplete X ts
    → transaction_data X (map (read_back X) ts) ≡ transaction_data X ts
unfolding transaction_data AreComplete
transaction_data-read_back X [] h = refl
transaction_data-read_back X (t ∷ ts) (complete, rest) =
    rw (serialize_transaction-read_back X t complete, transaction_data-read_back X ts rest) refl

-- The block that the receiver of a dict reads, with whatever hash function, has the hash that the
-- dict gives, and its contents hash to what the sender's do.
pub record BlockArrives (X : Externals) (hash_function : Block → String) (block : Block)
    : Type 0 where
  pub received : Block
  pub read : block_from_dict X hash_function (block_to_dict X block) ≡ some received
  pub given_hash : received.block_hash ≡ block.block_hash
  pub same_hash : sha256_block_hash X received ≡ sha256_block_hash X block

-- A block of completed transactions that is sent in its dict form arrives: it is read, has the
-- block hash that was sent, and its contents have the SHA-256 hash that they had at the sender;
-- where decimals and the times of the transactions are read as they are printed and the kinds are
-- named.
pub block_to_dict-BlockArrives :
    (X : Externals) (hash_function : Block → String) (block : Block)
    → IsExact X
    → AreReadable X block.transactions
    → AreComplete X block.transactions
    → BlockArrives X hash_function block
unfolding sha256_block_hash serialize_block serialize_block_prefix
block_to_dict-BlockArrives X hash_function block exact readable complete = record {
  received = record block { transactions = map (read_back X) block.transactions };
  read = block_from_dict-block_to_dict X hash_function block exact readable;
  given_hash = refl;
  same_hash =
      ap
        (λ data_text. hex_digest X (
          append
            (show_ℕ block.block_id
              bar data_text
              bar block.description
              bar block.previous_hash
              bar "")
            (show_ℤ block.nonce)))
        (transaction_data-read_back X block.transactions complete);
}
