-- ===== src/Chain/Wire.antt =====
-- The dict form of a block: `Block.to_dict` and `Block.from_dict` of core/block.py.
use unc_coin.Prelude.{String, Option, none, some, List, [], ◌∷◌}
use unc_coin.Prelude.Int.{ℤ, pos}
use unc_coin.Value.{
  Value, text, int, obj, arr, null, Fields, field, end, Items, nil, cons, get_field, value_int,
}
use unc_coin.Externals.{Externals}
use unc_coin.Transaction.{Transaction}
use unc_coin.Transaction.Wire.{
  to_dict, from_dict, ◌>>=◌, as_text, as_fields, as_optional_text, as_natural, get_or,
}
use unc_coin.Chain.Reward.{Block}

unfoldable pub transaction_dicts : Externals → List Transaction → Items
unfolding to_dict
transaction_dicts X [] = nil
transaction_dicts X (t ∷ ts) = cons (obj (to_dict X t)) (transaction_dicts X ts)

-- The number of nonces that were tried is left out where it is not known.
unfoldable pub checked_dict : Option ℤ → Fields
checked_dict none = end
checked_dict (some n) = field "nonces_checked" (int n) end

-- `Block.to_dict`
unfoldable pub block_to_dict : Externals → Block → Fields
unfolding transaction_dicts checked_dict
block_to_dict X block = field "block_id" (int (pos block.block_id)) (
    field "transactions" (arr (transaction_dicts X block.transactions)) (
      field "description" (text block.description) (
        field "previous_hash" (text block.previous_hash) (
          field "nonce" (int block.nonce)
            (field "block_hash" (text block.block_hash) (checked_dict block.nonces_checked))))))

unfoldable pub read_transactions : Externals → Items → Option (List Transaction)
unfolding from_dict
read_transactions X nil = some []
read_transactions X (cons v vs) =
    let rest = read_transactions X vs in
    do fs ← as_fields v; t ← from_dict X fs; ts ← rest; some (t ∷ ts)

abbrev as_items : Value → Option Items
as_items (arr vs) = some vs
as_items _ = none

unfoldable pub as_checked : Value → Option (Option ℤ)
unfolding value_int
as_checked null = some none
as_checked v = do n ← value_int v; some (some n)

-- The hash that is given, or else the one that is computed.
abbrev with_hash : (Block → String) → Block → Option String → Block
with_hash hash_function block none = record block { block_hash = hash_function block }
with_hash hash_function block (some h) = record block { block_hash = h }

-- `Block.from_dict`; `none` is a `KeyError`, a `ValueError`, a `TypeError` or an
-- `InvalidOperation`. The hash that is computed does not read the hash of the block.
unfoldable pub block_from_dict : Externals → (Block → String) → Fields → Option Block
unfolding get_field value_int read_transactions as_checked as_optional_text
block_from_dict X hash_function fs = do
  transactions ← get_field "transactions" fs >>= as_items >>= read_transactions X
  provided ← as_optional_text (get_or null (get_field "block_hash" fs))
  block_id ← get_field "block_id" fs >>= value_int >>= as_natural
  description ← get_field "description" fs >>= as_text
  previous_hash ← get_field "previous_hash" fs >>= as_text
  nonce ← value_int (get_or (int (pos 0)) (get_field "nonce" fs))
  nonces_checked ← as_checked (get_or null (get_field "nonces_checked" fs))
  some (
      with_hash hash_function
        (record {
          block_id = block_id;
          transactions = transactions;
          description = description;
          previous_hash = previous_hash;
          nonce = nonce;
          nonces_checked = nonces_checked;
          block_hash = "";
        })
        provided)
