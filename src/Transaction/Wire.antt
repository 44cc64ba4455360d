-- ===== src/Transaction/Wire.antt =====
-- The dict form of a transaction: `Transaction.to_dict`, `Transaction.from_dict`, `__post_init__` and
-- `_canonicalize_payload` of core/transaction.py, and the texts that are signed and hashed.
use unc_coin.Prelude.{ℕ, String, Option, none, some, str_eq, if◌then◌else◌}
use unc_coin.Prelude.Int.{ℤ, pos, negsuc}
use unc_coin.Value.{
  Value, text, int, bool, null, obj, arr, Fields, field, end, Items, nil, cons, get_field,
  value_int,
}
use unc_coin.Text.{show_ℕ}
use unc_coin.Text.Order.{is_after}
use unc_coin.Externals.{Externals}
use unc_coin.Transaction.{Transaction, Kind}

-- A key goes in front of the keys that are not smaller.
unfoldable pub insert_field : String → Value → Fields → Fields
insert_field k v end = field k v end
insert_field k v (field j w fs) =
    let rest = insert_field k v fs in
    if is_after k j then field j w rest else field k v (field j w fs)

unfoldable mutual
  unfolding insert_field

  -- `_canonicalize_payload`
  pub canonicalize : Value → Value
  canonicalize (obj fs) = obj (canonical_fields fs)
  canonicalize (arr vs) = arr (canonical_items vs)
  canonicalize (text s) = text s
  canonicalize (int n) = int n
  canonicalize (bool b) = bool b
  canonicalize null = null

  pub canonical_fields : Fields → Fields
  canonical_fields end = end
  canonical_fields (field k v fs) = insert_field k (canonicalize v) (canonical_fields fs)

  pub canonical_items : Items → Items
  canonical_items nil = nil
  canonical_items (cons v vs) = cons (canonicalize v) (canonical_items vs)

unfoldable pub kind_text : Kind → String
kind_text Kind.transfer = "transfer"
kind_text Kind.execute = "execute"
kind_text Kind.commit = "commit"
kind_text Kind.reveal = "reveal"
kind_text Kind.authorize = "authorize"
kind_text Kind.deploy = "deploy"
kind_text (Kind.other s) = s

unfoldable pub kind_of_text : String → Kind
kind_of_text s =
    if str_eq s "transfer"
    then Kind.transfer
    else if str_eq s "execute"
    then Kind.execute
    else if str_eq s "commit"
    then Kind.commit
    else if str_eq s "reveal"
    then Kind.reveal
    else if str_eq s "authorize"
    then Kind.authorize
    else if str_eq s "deploy"
    then Kind.deploy
    else Kind.other s

unfoldable pub option_text : Option String → Value
option_text none = null
option_text (some s) = text s

unfoldable pub key_dict : Option (ℕ × ℕ) → Value
unfolding show_ℕ
key_dict none = null
key_dict (some (exponent, modulus)) =
    obj (field "exponent" (text (show_ℕ exponent)) (field "modulus" (text (show_ℕ modulus)) end))

-- `to_dict`
unfoldable pub to_dict : Externals → Transaction → Fields
unfolding option_text key_dict kind_text canonical_fields
to_dict F t = field "sender" (text t.sender) (
    field "receiver" (text t.receiver) (
      field "amount" (text (F.show_decimal t.amount)) (
        field "fee" (text (F.show_decimal t.fee)) (
          field "timestamp" (text t.timestamp) (
            field "nonce" (int t.nonce) (
              field "sender_public_key" (key_dict t.sender_public_key) (
                field "signature" (option_text t.signature) (
                  field "kind" (text (kind_text t.kind)) (
                    field "payload" (obj (canonical_fields t.payload))
                      (field "version" (int (pos t.version)) end))))))))))

infixl 5 ◌>>=◌
abbrev pub ◌>>=◌ : {A B : Type 0} → Option A → (A → Option B) → Option B
none >>= f = none
some a >>= f = f a

-- The values that the fields of a transaction have; one of another type, which Python would keep, has
-- no transaction of the model.
abbrev pub as_text : Value → Option String
as_text (text s) = some s
as_text _ = none

abbrev pub as_fields : Value → Option Fields
as_fields (obj fs) = some fs
as_fields _ = none

unfoldable pub as_optional_text : Value → Option (Option String)
as_optional_text (text s) = some (some s)
as_optional_text null = some none
as_optional_text _ = none

abbrev pub as_natural : ℤ → Option ℕ
as_natural (pos n) = some n
as_natural (negsuc n) = none

abbrev pub get_or : Value → Option Value → Value
get_or default none = default
get_or default (some v) = v

-- The public key of a dict: an exponent and a modulus, which are not negative.
unfoldable pub as_key : Value → Option (Option (ℕ × ℕ))
unfolding get_field value_int
as_key null = some none
as_key (obj fs) = do
  exponent ← get_field "exponent" fs >>= value_int >>= as_natural
  modulus ← get_field "modulus" fs >>= value_int >>= as_natural
  some (some (exponent, modulus))
as_key _ = none

-- `__post_init__`, on values that have their types.
unfoldable pub default_payload : Externals → Kind → Fields → String → ℤ → Fields
default_payload F Kind.transfer end receiver amount =
    field "receiver" (text receiver) (field "amount" (text (F.show_decimal amount)) end)
default_payload F kind payload receiver amount = payload

unfoldable pub post_init : Externals → Transaction → Transaction
unfolding default_payload
post_init F t = record t { payload = default_payload F t.kind t.payload t.receiver t.amount }

-- `str(self.kind or TRANSACTION_KIND_TRANSFER)`
unfoldable pub kind_or_transfer : String → Kind
unfolding kind_of_text
kind_or_transfer s = kind_of_text (if str_eq s "" then "transfer" else s)

abbrev as_kind : Value → Option String
as_kind null = some ""
as_kind v = as_text v

-- `from_dict`; `none` is a `KeyError`, a `ValueError`, a `TypeError` or an `InvalidOperation`.
unfoldable pub from_dict : Externals → Fields → Option Transaction
unfolding get_field value_int as_optional_text as_key post_init kind_or_transfer
from_dict F fs = do
  sender_public_key ← as_key (get_or null (get_field "sender_public_key" fs))
  sender ← get_field "sender" fs >>= as_text
  receiver ← get_field "receiver" fs >>= as_text
  amount ← get_field "amount" fs >>= F.decimal_of
  fee ← F.decimal_of (get_or (text "0.0") (get_field "fee" fs))
  timestamp ← get_field "timestamp" fs >>= as_text >>= F.iso_of
  nonce ← value_int (get_or (int (pos 0)) (get_field "nonce" fs))
  signature ← as_optional_text (get_or null (get_field "signature" fs))
  kind ← as_kind (get_or (text "transfer") (get_field "kind" fs))
  payload ← as_fields (get_or (obj end) (get_field "payload" fs))
  version ← value_int (get_or (int (pos 1)) (get_field "version" fs)) >>= as_natural
  some (
      post_init F (record {
        sender = sender;
        receiver = receiver;
        amount = amount;
        fee = fee;
        timestamp = timestamp;
        nonce = nonce;
        sender_public_key = sender_public_key;
        signature = signature;
        kind = kind_or_transfer kind;
        payload = payload;
        version = version;
      }))
