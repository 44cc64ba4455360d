-- ===== src/Dict.antt =====
-- Python's `dict` with text keys, as an association list in insertion order.
pub mod Sum
use unc_coin.Prelude.{
  String, ◌≡◌, refl, Bool, true, false, Option, none, some, List, [], ◌∷◌, arith, str_eq, eq_iff,
  if◌then◌else◌,
}

abbrev pub Dict {ℓ} : Type ℓ → Type ℓ
Dict V = List (String × V)

module _ {ℓ} {V : Type ℓ} where
  abbrev pub or_default : V → Option V → V
  or_default default none = default
  or_default default (some v) = v

  abbrev pub is_some : Option V → Bool
  is_some none = false
  is_some (some v) = true

  -- `d.get(k)`
  unfoldable pub lookup : String → Dict V → Option V
  lookup k [] = none
  lookup k ((j, v) ∷ d) = if str_eq j k then some v else lookup k d

  -- `d.get(k, default)`
  unfoldable pub lookup_or : String → V → Dict V → V
  lookup_or k default d = or_default default (lookup k d)

  -- `k in d`
  unfoldable pub contains : String → Dict V → Bool
  contains k d = is_some (lookup k d)

  -- `d[k] = v`
  unfoldable pub insert : String → V → Dict V → Dict V
  insert k v [] = (k, v) ∷ []
  insert k v ((j, w) ∷ d) = if str_eq j k then (k, v) ∷ d else (j, w) ∷ insert k v d

  pub lookup-insert :
      (k j : String) (v : V) (d : Dict V)
      → lookup j (insert k v d) ≡ (if str_eq k j then some v else lookup j d)
  unfolding lookup insert
  lookup-insert k j v [] = refl
  lookup-insert k j v ((i, w) ∷ d) =
      ground (arith, eq_iff k j, eq_iff i k, eq_iff i j, lookup-insert k j v d)

  pub lookup_or-insert :
      (k j : String) (default v : V) (d : Dict V)
      → lookup_or j default (insert k v d) ≡ (if str_eq k j then v else lookup_or j default d)
  unfolding lookup_or
  lookup_or-insert k j default v d = ground (arith, lookup-insert k j v d)

  pub contains-insert :
      (k j : String) (v : V) (d : Dict V)
      → contains j (insert k v d) ≡ (if str_eq k j then true else contains j d)
  unfolding contains
  contains-insert k j v d = ground (arith, lookup-insert k j v d)

pub ruleset dict_laws = (lookup-insert, lookup_or-insert, contains-insert)
