-- ===== src/Chain/Balances.antt =====
-- What the writes to the balances do to one account and to the sum of all.
use unc_coin.Prelude.{
  String, ◌≡◌, ◌∙◌, refl, false, [], ◌∷◌, str_eq, Bool-cases, str_eq-cases, eq_refl, inl, inr,
}
use unc_coin.Prelude.Int.{ℤ, pos, ◌+ℤ◌, ◌-ℤ◌, ◌≤ℤ◌, ltb_ℤ, int_laws, parts_of_eq, le_of_ltb}
use unc_coin.Dict.{Dict, lookup_or-insert}
use unc_coin.Dict.Sum.{get0, bump, total, total_at, share, total-insert, total-bump, get0-bump}
use unc_coin.Chain.Execute.{add_changes, credit, debit}

-- No account is overdrawn.
abbrev pub IsSolvent : Dict ℤ → Type 0
IsSolvent d = (a : String) → pos 0 ≤ℤ get0 a d

pub total-debit : (k : String) (x : ℤ) (d : Dict ℤ) → total (debit k x d) ≡ total d -ℤ x
unfolding debit
total-debit k x d = omega (int_laws, parts_of_eq (total-insert k (get0 k d -ℤ x) d))

pub get0-debit :
    (k a : String) (x : ℤ) (d : Dict ℤ) → get0 a (debit k x d) ≡ get0 a d -ℤ share k a x
unfolding debit
get0-debit k a x d = elim (str_eq-cases k a) [
  | inl e ↦ rw (e, lookup_or-insert, eq_refl) refl
  | inr n ↦ rw (lookup_or-insert, n) (omega int_laws)
]

zero_of_bounds : (x : ℤ) → pos 0 ≤ℤ x → ltb_ℤ (pos 0) x ≡ false → x ≡ pos 0
zero_of_bounds x h n = let k = le_of_ltb (pos 0) x n in omega int_laws

pub total-credit :
    (k : String) (x : ℤ) (d : Dict ℤ) → pos 0 ≤ℤ x → total (credit k x d) ≡ total d +ℤ x
unfolding credit
total-credit k x d h = elim (Bool-cases (ltb_ℤ (pos 0) x)) [
  | inl p ↦ rw p (total-bump k x d)
  | inr n ↦ rw (n, zero_of_bounds x h n) (omega int_laws)
]

no_share : (k a : String) (y : ℤ) → y ≡ y +ℤ share k a (pos 0)
no_share k a y = elim (Bool-cases (str_eq k a)) [
  | inl h ↦ rw h (omega int_laws)
  | inr h ↦ rw h (omega int_laws)
]

pub get0-credit :
    (k a : String) (x : ℤ) (d : Dict ℤ)
    → pos 0 ≤ℤ x
    → get0 a (credit k x d) ≡ get0 a d +ℤ share k a x
unfolding credit
get0-credit k a x d h = elim (Bool-cases (ltb_ℤ (pos 0) x)) [
  | inl p ↦ rw p (get0-bump k a x d)
  | inr n ↦ rw (n, zero_of_bounds x h n) (no_share k a (get0 a d))
]

pub total-add_changes : (c d : Dict ℤ) → total (add_changes c d) ≡ total d +ℤ total c
unfolding add_changes total
total-add_changes [] d = omega int_laws
total-add_changes ((a, x) ∷ c) d = total-add_changes c (bump a x d) ∙ rw total-bump (omega int_laws)

regroup : (g x t : ℤ) → g +ℤ x +ℤ t ≡ g +ℤ (x +ℤ t)
regroup g x t = omega int_laws

pub get0-add_changes :
    (a : String) (c d : Dict ℤ) → get0 a (add_changes c d) ≡ get0 a d +ℤ total_at a c
unfolding add_changes total_at
get0-add_changes a [] d = omega int_laws
get0-add_changes a ((k, x) ∷ c) d =
    get0-add_changes a c (bump k x d)
    ∙ rw get0-bump (regroup (get0 a d) (share k a x) (total_at a c))

-- Taking from an account what it holds leaves it at zero or more.
pub debit-IsSolvent :
    (k : String) (x : ℤ) (d : Dict ℤ) → x ≤ℤ get0 k d → IsSolvent d → IsSolvent (debit k x d)
debit-IsSolvent k x d cover h a =
    let here = h a in
    elim (str_eq-cases k a) [
      | inl e ↦ let c = rw e at cover in rw (get0-debit, e, eq_refl) (omega int_laws)
      | inr n ↦ rw (get0-debit, n) (omega int_laws)
    ]

pub bump-IsSolvent :
    (k : String) (x : ℤ) (d : Dict ℤ) → pos 0 ≤ℤ x → IsSolvent d → IsSolvent (bump k x d)
bump-IsSolvent k x d p h a =
    let here = h a in
    elim (Bool-cases (str_eq k a)) [
      | inl e ↦ rw (get0-bump, e) (omega int_laws)
      | inr e ↦ rw (get0-bump, e) (omega int_laws)
    ]

pub credit-IsSolvent :
    (k : String) (x : ℤ) (d : Dict ℤ) → pos 0 ≤ℤ x → IsSolvent d → IsSolvent (credit k x d)
credit-IsSolvent k x d p h a =
    let here = h a in
    elim (Bool-cases (str_eq k a)) [
      | inl e ↦ rw (get0-credit k a x d p, e) (omega int_laws)
      | inr e ↦ rw (get0-credit k a x d p, e) (omega int_laws)
    ]
