-- ===== src/Transaction.antt =====
-- Transactions, core/transaction.py, and the fields of their payloads.
pub mod Wire
pub mod RoundTrip
pub mod Serialize
pub mod Canonical
pub mod Sent
pub mod Build
use unc_coin.Prelude.{ℕ, String, Bool, Option, none, some, str_eq, if◌then◌else◌}
use unc_coin.Prelude.Int.{ℤ}
use unc_coin.Value.{Value, text, Fields, get_field}
use unc_coin.Text.{strip}

-- `TRANSACTION_KIND_…`; `other` holds any other text.
pub data Kind : Type 0 where
  transfer execute commit reveal authorize deploy : Kind
  other : String → Kind

-- `Transaction`. Amounts are counted in units; the time is its ISO text.
pub record Transaction : Type 0 where
  pub sender : String
  pub receiver : String
  pub amount : ℤ
  pub fee : ℤ
  pub timestamp : String
  pub nonce : ℤ
  pub sender_public_key : Option (ℕ × ℕ)
  pub signature : Option String
  pub kind : Kind
  pub payload : Fields
  pub version : ℕ

-- A text with something in it besides blanks; stripped.
unfoldable pub nonempty_text : Option Value → Option String
unfolding strip
nonempty_text (some (text s)) = let t = strip s in if str_eq t "" then none else some t
nonempty_text _ = none

-- `payload.get(key)` where that is such a text.
unfoldable pub stripped_field : String → Fields → Option String
unfolding get_field nonempty_text
stripped_field key payload = nonempty_text (get_field key payload)
