-- ===== src/Value.antt =====
-- The values of a transaction's payload: what `json.loads` returns, without floats.
use unc_coin.Prelude.{
  String, Bool, true, false, ◌==◌, Option, none, some, List, [], ◌∷◌, str_eq, if◌then◌else◌,
}
use unc_coin.Prelude.Int.{ℤ, pos}
use unc_coin.Text.{parse_int}

mutual
  -- The members of an object, in order.
  pub data Fields : Type 0 where
    field : String → Value → Fields → Fields
    end : Fields

  pub data Value : Type 0 where
    text : String → Value
    int : ℤ → Value
    bool : Bool → Value
    null : Value
    obj : Fields → Value
    arr : Items → Value

  pub data Items : Type 0 where
    cons : Value → Items → Items
    nil : Items

-- `payload.get(key)` on an object that has the key, `none` where it has not.
unfoldable pub get_field : String → Fields → Option Value
get_field k end = none
get_field k (field j v fs) = if str_eq j k then some v else get_field k fs

unfoldable pub items_list : Items → List Value
items_list nil = []
items_list (cons v vs) = v ∷ items_list vs

-- A list or an object that is not empty, a text that is not empty, a number that is not 0: what
-- Python takes for true.
unfoldable pub is_truthy : Value → Bool
is_truthy null = false
is_truthy (bool b) = b
is_truthy (int (pos n)) = if n == 0 then false else true
is_truthy (int _) = true
is_truthy (text s) = if str_eq s "" then false else true
is_truthy (arr nil) = false
is_truthy (arr _) = true
is_truthy (obj end) = false
is_truthy (obj _) = true

-- `int(value)`; `none` is a `TypeError` or a `ValueError`.
unfoldable pub value_int : Value → Option ℤ
unfolding parse_int
value_int (bool b) = some (pos (if b then 1 else 0))
value_int (int n) = some n
value_int (text s) = parse_int 10 s
value_int _ = none
