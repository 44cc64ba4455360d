-- ===== src/Transaction/RoundTrip.antt =====
-- Reading the dict form of a transaction back.
use unc_coin.Prelude.{ℕ, String, Option, none, some, ◌≡◌, refl}
use unc_coin.Prelude.Int.{ℤ}
use unc_coin.Value.{text, get_field, value_int}
use unc_coin.Text.Digits.{parse_int-show_ℕ}
use unc_coin.Externals.{Externals}
use unc_coin.Transaction.{Transaction, Kind}
use unc_coin.Transaction.Wire.{
  canonical_fields, kind_text, kind_of_text, kind_or_transfer, key_dict, as_key, option_text,
  as_optional_text, to_dict, post_init, from_dict,
}

-- A decimal is read as it is printed.
abbrev pub IsExact : Externals → Type 0
IsExact F = (a : ℤ) → F.decimal_of (text (F.show_decimal a)) ≡ some a

-- A kind that its text stands for: the text of another kind is not one of the six, nor empty.
unfoldable pub IsNamed : Kind → Type 0
unfolding kind_or_transfer
IsNamed (Kind.other s) = kind_or_transfer s ≡ Kind.other s
IsNamed k = Unit

kind_or_transfer-kind_text : (k : Kind) → IsNamed k → kind_or_transfer (kind_text k) ≡ k
unfolding IsNamed kind_or_transfer kind_of_text kind_text
kind_or_transfer-kind_text Kind.transfer h = refl
kind_or_transfer-kind_text Kind.execute h = refl
kind_or_transfer-kind_text Kind.commit h = refl
kind_or_transfer-kind_text Kind.reveal h = refl
kind_or_transfer-kind_text Kind.authorize h = refl
kind_or_transfer-kind_text Kind.deploy h = refl
kind_or_transfer-kind_text (Kind.other s) h = h

as_key-key_dict : (k : Option (ℕ × ℕ)) → as_key (key_dict k) ≡ some k
unfolding key_dict as_key get_field value_int
as_key-key_dict none = refl
as_key-key_dict (some (e, m)) = rw (parse_int-show_ℕ e, parse_int-show_ℕ m) refl

as_optional_text-option_text : (s : Option String) → as_optional_text (option_text s) ≡ some s
unfolding as_optional_text option_text
as_optional_text-option_text none = refl
as_optional_text-option_text (some s) = refl

-- A transaction read back from its dict form is the transaction, with the keys of its payload
-- sorted and then the default payload of a transfer that has none; where decimals and the time are
-- read as they are printed and the kind is named.
pub from_dict-to_dict :
    (F : Externals) (t : Transaction)
    → IsExact F
    → F.iso_of t.timestamp ≡ some t.timestamp
    → IsNamed t.kind
    → from_dict F (to_dict F t)
      ≡ some (post_init F (record t { payload = canonical_fields t.payload }))
unfolding from_dict to_dict get_field value_int
from_dict-to_dict F t exact time named =
    rw
      (
        as_key-key_dict t.sender_public_key,
        exact t.amount,
        exact t.fee,
        time,
        as_optional_text-option_text t.signature,
        kind_or_transfer-kind_text t.kind named,
      )
      refl
