-- ===== src/Chain/RoundTrip.antt =====
-- Reading the dict form of a block back.
use unc_coin.Prelude.{String, Option, none, some, List, [], ◌∷◌, ◌≡◌, refl, map}
use unc_coin.Prelude.Int.{ℤ}
use unc_coin.Value.{get_field, value_int, null}
use unc_coin.Externals.{Externals}
use unc_coin.Transaction.{Transaction}
use unc_coin.Transaction.Wire.{as_optional_text, get_or}
use unc_coin.Transaction.Sent.{read_back}
use unc_coin.Transaction.RoundTrip.{IsExact, IsNamed, from_dict-to_dict}
use unc_coin.Chain.Reward.{Block}
use unc_coin.Chain.Wire.{
  transaction_dicts, checked_dict, block_to_dict, read_transactions, as_checked, block_from_dict,
}

-- The time of every transaction is read as it is printed, and its kind is named.
unfoldable pub AreReadable : Externals → List Transaction → Type 0
AreReadable X [] = Unit
AreReadable X (t ∷ ts) =
    (X.iso_of t.timestamp ≡ some t.timestamp) × IsNamed t.kind × AreReadable X ts

read_transactions-transaction_dicts :
    (X : Externals) (ts : List Transaction)
    → IsExact X
    → AreReadable X ts
    → read_transactions X (transaction_dicts X ts) ≡ some (map (read_back X) ts)
unfolding read_transactions transaction_dicts AreReadable read_back
read_transactions-transaction_dicts X [] exact h = refl
read_transactions-transaction_dicts X (t ∷ ts) exact (time, named, rest) =
    rw (from_dict-to_dict X t exact time named, read_transactions-transaction_dicts X ts exact rest)
      refl

as_checked-checked_dict :
    (n : Option ℤ) → as_checked (get_or null (get_field "nonces_checked" (checked_dict n))) ≡ some n
unfolding as_checked checked_dict get_field value_int
as_checked-checked_dict none = refl
as_checked-checked_dict (some n) = refl

-- A block that is read back from its dict form, with whatever hash function, is the block with its
-- transactions read back, its hash included; where decimals and the times of the transactions are
-- read as they are printed and the kinds are named.
pub block_from_dict-block_to_dict :
    (X : Externals) (hash_function : Block → String) (block : Block)
    → IsExact X
    → AreReadable X block.transactions
    → block_from_dict X hash_function (block_to_dict X block)
      ≡ some (record block { transactions = map (read_back X) block.transactions })
unfolding block_from_dict block_to_dict get_field value_int as_optional_text
block_from_dict-block_to_dict X hash_function block exact h =
    rw
      (
        read_transactions-transaction_dicts X block.transactions exact h,
        as_checked-checked_dict block.nonces_checked,
      )
      refl
