-- ===== src/Externals.antt =====
-- What the node takes from libraries: hashes, JSON, the text of a
-- value and of a decimal. The definitions that need one of these take the record as an argument.
use unc_coin.Prelude.{ℕ, String, Option, List}
use unc_coin.Prelude.Int.{ℤ}
use unc_coin.Value.{Value, text}
use unc_coin.Text.{hex_digits}

pub record Externals : Type 0 where
  -- the SHA-256 digest of a text, as a number
  pub sha256 : String → ℕ
  -- the amounts of the model are counted in units; this many make one coin
  pub units : ℕ
  -- `Decimal(str(value))`, in units; `none` is `InvalidOperation`
  pub decimal_of : Value → Option ℤ
  -- `str` of a decimal
  pub show_decimal : ℤ → String
  -- `datetime.fromisoformat` of a text, printed by `isoformat`; `none` is a `ValueError`
  pub iso_of : String → Option String
  -- `str(value)` of a value that is no text
  pub show_value : Value → String
  -- `json.loads`; `none` is a `JSONDecodeError`
  pub json_loads : String → Option Value
  -- `json.dumps` of a value with sorted keys and no blanks
  pub canonical_json : Value → String
  -- `shlex.split`; `none` is a `ValueError`
  pub shlex_split : String → Option (List String)

-- `str(value)`
unfoldable pub show : Externals → Value → String
show X (text s) = s
show X v = X.show_value v

-- `hashlib.sha256(s.encode("utf-8")).hexdigest()`
unfoldable pub hex_digest : Externals → String → String
unfolding hex_digits
hex_digest X s = hex_digits 64 (X.sha256 s) ""
