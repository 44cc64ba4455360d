-- ===== src/Dict/Sum.antt =====
-- Sums over the values of a dict of amounts.
use unc_coin.Prelude.{
  String, ◌≡◌, refl, true, false, some, [], ◌∷◌, str_eq, eq_refl, if◌then◌else◌, Bool-cases,
  str_eq-cases, inl, inr,
}
use unc_coin.Prelude.Int.{ℤ, pos, ◌+ℤ◌, int_laws, parts_of_eq, +ℤ_swap, +ℤ_under}
use unc_coin.Dict.{Dict, lookup, lookup_or, insert, or_default, lookup_or-insert}

-- `d.get(k, Decimal("0.0"))`
abbrev pub get0 : String → Dict ℤ → ℤ
get0 k d = lookup_or k (pos 0) d

-- `d[k] = d.get(k, Decimal("0.0")) + x`
unfoldable pub bump : String → ℤ → Dict ℤ → Dict ℤ
bump k x d = insert k (get0 k d +ℤ x) d

-- The sum of all amounts.
unfoldable pub total : Dict ℤ → ℤ
total [] = pos 0
total ((j, v) ∷ d) = v +ℤ total d

-- The sum of the amounts under one key.
unfoldable pub total_at : String → Dict ℤ → ℤ
total_at k [] = pos 0
total_at k ((j, v) ∷ d) = (if str_eq j k then v else pos 0) +ℤ total_at k d

pub total-insert :
    (k : String) (v : ℤ) (d : Dict ℤ) → total (insert k v d) +ℤ get0 k d ≡ total d +ℤ v
unfolding total insert lookup_or lookup
total-insert k v [] = omega int_laws
total-insert k v ((j, w) ∷ d) =
    elim (str_eq j k)
      as (λ b.
        total (if b then (k, v) ∷ d else (j, w) ∷ insert k v d)
          +ℤ or_default (pos 0) (if b then some w else lookup k d)
        ≡ w +ℤ total d +ℤ v) [
          | true ↦ omega int_laws
          | false ↦ omega (int_laws, parts_of_eq (total-insert k v d))
        ]

pub total-bump : (k : String) (x : ℤ) (d : Dict ℤ) → total (bump k x d) ≡ total d +ℤ x
unfolding bump
total-bump k x d = omega (int_laws, parts_of_eq (total-insert k (get0 k d +ℤ x) d))

pub total_at-insert :
    (k a : String) (v : ℤ) (d : Dict ℤ)
    → total_at a (insert k v d) +ℤ (if str_eq k a then get0 k d else pos 0)
      ≡ total_at a d +ℤ (if str_eq k a then v else pos 0)
unfolding total_at insert lookup_or lookup
total_at-insert k a v [] = elim (Bool-cases (str_eq k a)) [
  | inl h ↦ rw h (omega int_laws)
  | inr h ↦ rw h (omega int_laws)
]
total_at-insert k a v ((j, w) ∷ d) = elim (str_eq-cases j k) [
  | inl e ↦ rw (e, eq_refl, insert, lookup_or, lookup, total_at) (+ℤ_swap _ _ _)
  | inr n ↦
      rw (n, insert, lookup_or, lookup, total_at) (+ℤ_under _ _ _ _ _ (total_at-insert k a v d))
]

-- What a change of `x` under `k` adds under `a`.
abbrev pub share : String → String → ℤ → ℤ
share k a x = if str_eq k a then x else pos 0

pub get0-bump : (k a : String) (x : ℤ) (d : Dict ℤ) → get0 a (bump k x d) ≡ get0 a d +ℤ share k a x
unfolding bump
get0-bump k a x d = elim (str_eq-cases k a) [
  | inl e ↦ rw (e, lookup_or-insert, eq_refl) refl
  | inr n ↦ rw (lookup_or-insert, n) (omega int_laws)
]

pub total_at-bump :
    (k a : String) (x : ℤ) (d : Dict ℤ) → total_at a (bump k x d) ≡ total_at a d +ℤ share k a x
unfolding bump
total_at-bump k a x d =
    let e = total_at-insert k a (get0 k d +ℤ x) d in
    elim (Bool-cases (str_eq k a)) [
      | inl h ↦ rw h (omega (int_laws, parts_of_eq (rw h at e)))
      | inr h ↦ rw h (omega (int_laws, parts_of_eq (rw h at e)))
    ]
