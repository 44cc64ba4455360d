-- ===== src/Tests/Wire.antt =====
-- A payment and a block, to their dict form and back.
use unc_coin.Prelude.{◌==◌, String, Option, none, some, [], ◌∷◌, ◌≡◌, refl, map, if◌then◌else◌}
use Prim.Native.Char.{code}
use unc_coin.Prelude.Int.{ℤ, pos, negsuc}
use unc_coin.Value.{Value, null, text, Fields, field, end}
use unc_coin.Text.{parse_int, show_ℕ}
use unc_coin.Text.Digits.{parse_int-show_ℕ}
use unc_coin.Externals.{Externals}
use unc_coin.Transaction.{Transaction, Kind}
use unc_coin.Transaction.Wire.{to_dict, from_dict, default_payload, post_init, canonical_fields}
use unc_coin.Transaction.RoundTrip.{IsExact, IsNamed, from_dict-to_dict}
use unc_coin.Chain.Reward.{Block}
use unc_coin.Chain.Signed.{IsSigned, apply_transaction-IsSigned, check_authenticity_legacy}
use unc_coin.Chain.Validate.{is_reward, check_authenticity}
use unc_coin.Chain.Serialize.{sha256_block_hash}
use unc_coin.Chain.Wire.{block_to_dict, block_from_dict}
use unc_coin.Chain.Sent.{AreComplete, BlockArrives, block_to_dict-BlockArrives}
use unc_coin.Transaction.Build.{Envelope, build_transaction, transfer, post_init-build_transaction}
use unc_coin.Transaction.Sent.{read_back, Arrives, to_dict-Arrives}
use unc_coin.Chain.RoundTrip.{AreReadable, block_from_dict-block_to_dict}
use unc_coin.Tests.{externals, first_block, payment, funded, pay, key}

-- Decimals are written as a sign and the number of units.
abbrev signed_units : ℤ → String
signed_units (pos n) = String.◌∷◌ "+" (show_ℕ n)
signed_units (negsuc n) = String.◌∷◌ "-" (show_ℕ n)

abbrev below_zero : Option ℤ → Option ℤ
below_zero (some (pos n)) = some (negsuc n)
below_zero _ = none

abbrev units_of : Value → Option ℤ
unfolding parse_int
units_of (text (String.◌∷◌ c s)) =
    if code c == 43 then parse_int 10 s else below_zero (parse_int 10 s)
units_of _ = none

abbrev formats : Externals
formats = record externals { show_decimal = signed_units; decimal_of = units_of }

formats-IsExact : IsExact formats
unfolding units_of parse_int
formats-IsExact (pos n) = parse_int-show_ℕ n
formats-IsExact (negsuc n) = rw (parse_int-show_ℕ n) refl

-- A payment whose payload names its fields in another order.
abbrev order : Transaction
order = record payment { payload = field "memo" null (field "amount" (text "+4") end) }

order_complete : post_init formats order ≡ order
unfolding post_init default_payload
order_complete = refl

-- The payment as the wallet builds it.
abbrev envelope : Envelope
envelope = record {
  sender = key;
  fee = pos 1;
  timestamp = "";
  nonce = pos 0;
  sender_public_key = some (3, 5);
  signature = some "00";
}

abbrev transfer_payload : Fields
transfer_payload = field "receiver" (text "shop") (field "amount" (text "+4") end)

abbrev built : Transaction
unfolding build_transaction
built = build_transaction formats envelope Kind.transfer "shop" (pos 4) transfer_payload

to_dict-Arrives_example : Arrives formats built
unfolding IsNamed build_transaction built post_init
to_dict-Arrives_example =
    to_dict-Arrives formats built
      (post_init-build_transaction formats envelope Kind.transfer "shop" (pos 4) transfer_payload)
      formats-IsExact refl tt

built_by_transfer : transfer formats envelope "shop" (pos 4) ≡ built
unfolding transfer build_transaction built show_ℕ
built_by_transfer = refl

from_dict-to_dict_example :
    from_dict formats (to_dict formats order)
    ≡ some (post_init formats (record order { payload = canonical_fields order.payload }))
unfolding IsNamed
from_dict-to_dict_example = from_dict-to_dict formats order formats-IsExact refl tt

abbrev order_block : Block
order_block = record first_block { transactions = order ∷ order ∷ [] }

block_from_dict-block_to_dict_example :
    block_from_dict formats (sha256_block_hash formats) (block_to_dict formats order_block)
    ≡ some (record order_block { transactions = map (read_back formats) order_block.transactions })
unfolding AreReadable IsNamed
block_from_dict-block_to_dict_example =
    block_from_dict-block_to_dict formats (sha256_block_hash formats) order_block formats-IsExact
      (refl, tt, (refl, tt, tt))

block_to_dict-BlockArrives_example : BlockArrives formats (sha256_block_hash formats) order_block
unfolding AreReadable AreComplete IsNamed
block_to_dict-BlockArrives_example =
    block_to_dict-BlockArrives formats (sha256_block_hash formats) order_block formats-IsExact
      (refl, tt, (refl, tt, tt)) (order_complete, (order_complete, tt))

apply_transaction-IsSigned_example : IsSigned externals payment
unfolding is_reward
apply_transaction-IsSigned_example = apply_transaction-IsSigned externals payment funded 1 refl pay

check_authenticity_legacy_example :
    check_authenticity externals
      (record (record payment { version = 1 }) { kind = Kind.reveal; payload = order.payload })
    ≡ check_authenticity externals (record payment { version = 1 })
check_authenticity_legacy_example =
    check_authenticity_legacy externals (record payment { version = 1 }) Kind.reveal order.payload
      refl
