-- ===== src/Authorization.antt =====
-- Authorization scopes and the index of granted requests, core/uvm_authorization.py.
use unc_coin.Prelude.{ℕ, String, Bool, false, Option, none, some, ltb, if◌then◌else◌}
use unc_coin.Prelude.Int.{ℤ, pos, negsuc}
use unc_coin.Text.{strip}
use unc_coin.Value.{Value, null, bool, int, obj, Fields, end, field, get_field, value_int}
use unc_coin.Dict.{Dict, lookup, is_some}

-- `UvmAuthorizationScope`
pub record Scope : Type 0 where
  pub valid_from_height : Option ℕ
  pub valid_until_height : Option ℕ

abbrev put_height : String → Option ℕ → Fields → Fields
put_height key none rest = rest
put_height key (some h) rest = field key (int (pos h)) rest

-- `UvmAuthorizationScope.to_dict`
unfoldable pub scope_fields : Scope → Fields
scope_fields s =
    put_height "valid_from_height" s.valid_from_height
      (put_height "valid_until_height" s.valid_until_height end)

-- `_parse_optional_height`: the outer `none` is the `ValueError`.
unfoldable pub height_of_int : Option ℤ → Option (Option ℕ)
height_of_int none = none
height_of_int (some (pos n)) = some (some n)
height_of_int (some (negsuc n)) = none

unfoldable pub parse_optional_height : Option Value → Option (Option ℕ)
unfolding height_of_int value_int
parse_optional_height none = some none
parse_optional_height (some null) = some none
parse_optional_height (some (bool b)) = none
parse_optional_height (some v) = height_of_int (value_int v)

abbrev both_heights : Option (Option ℕ) → Option (Option ℕ) → Option Scope
both_heights (some f) (some u) = some (record { valid_from_height = f; valid_until_height = u })
both_heights _ _ = none

-- `UvmAuthorizationScope.from_dict`; `none` is a `ValueError`.
unfoldable pub scope_of_value : Value → Option Scope
unfolding parse_optional_height get_field
scope_of_value null = some (record { valid_from_height = none; valid_until_height = none })
scope_of_value (obj fields) =
    both_heights (parse_optional_height (get_field "valid_from_height" fields))
      (parse_optional_height (get_field "valid_until_height" fields))
scope_of_value _ = none

pub data ScopeError : Type 0 where
  until_before_from not_valid_yet expired : ScopeError

-- `until < from`, where both are given.
unfoldable pub is_reversed : Option ℕ → Option ℕ → Bool
is_reversed (some from) (some until) = ltb until from
is_reversed _ _ = false

unfoldable pub starts_after : Option ℕ → ℕ → Bool
starts_after none height = false
starts_after (some from) height = ltb height from

unfoldable pub ends_before : Option ℕ → ℕ → Bool
ends_before none height = false
ends_before (some until) height = ltb until height

-- `UvmAuthorizationScope.validation_error` at a block height.
unfoldable pub scope_error : Scope → ℕ → Option ScopeError
unfolding is_reversed starts_after ends_before
scope_error s height =
    if is_reversed s.valid_from_height s.valid_until_height
    then some until_before_from
    else if starts_after s.valid_from_height height
    then some not_valid_yet
    else if ends_before s.valid_until_height height
    then some expired
    else none

-- The index: wallet, then request id, then the scope's dict.
abbrev pub AuthIndex : Type 0
AuthIndex = Dict (Dict Fields)

abbrev pub lookup_in {ℓ} : {V : Type ℓ} → String → Option (Dict V) → Option V
lookup_in key none = none
lookup_in key (some d) = lookup key d

-- `get_authorization_scope`, on an index of dicts.
unfoldable pub get_authorization_scope : AuthIndex → String → String → Option Fields
unfolding lookup strip
get_authorization_scope index wallet request_id =
    lookup_in (strip request_id) (lookup (strip wallet) index)

-- `is_request_authorized`
unfoldable pub is_request_authorized : AuthIndex → String → String → Bool
unfolding get_authorization_scope
is_request_authorized index wallet request_id =
    is_some (get_authorization_scope index wallet request_id)
