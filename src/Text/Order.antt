-- ===== src/Text/Order.antt =====
-- The order of texts by the numbers of their characters, in which `sorted` puts keys.
use Prim.Native.Char.{code}
use Prim.Native.Nat.{Ordering, compare as compare_ℕ}
use Prim.Native.Nat.compare as number_clauses
use Prim.Native.String.{compare, then}
use Prim.Native.String.compare as text_clauses
use unc_coin.Prelude.{ℕ, zero, suc, String, Bool, true, false, ◌≡◌, ◌∙◌, sym, ap, refl}

abbrev is_gt : Ordering → Bool
is_gt Ordering.gt = true
is_gt _ = false

-- `j < k`
unfoldable pub is_after : String → String → Bool
is_after k j = is_gt (compare k j)

flip : Ordering → Ordering
flip Ordering.lt = Ordering.gt
flip Ordering.eq = Ordering.eq
flip Ordering.gt = Ordering.lt

numbers_flip : (m n : ℕ) → compare_ℕ m n ≡ flip (compare_ℕ n m)
unfolding flip
numbers_flip zero zero = refl
numbers_flip zero (suc n) = number_clauses.zero-suc n ∙ ap flip (sym (number_clauses.suc-zero n))
numbers_flip (suc m) zero = number_clauses.suc-zero m ∙ ap flip (sym (number_clauses.zero-suc m))
numbers_flip (suc m) (suc n) =
    number_clauses.suc-suc m n ∙ numbers_flip m n ∙ ap flip (sym (number_clauses.suc-suc n m))

then-flip : (o r : Ordering) → then (flip o) (flip r) ≡ flip (then o r)
unfolding flip
then-flip Ordering.lt r = refl
then-flip Ordering.eq r = refl
then-flip Ordering.gt r = refl

texts_flip : (s t : String) → compare s t ≡ flip (compare t s)
unfolding flip
texts_flip String.[] String.[] = refl
texts_flip String.[] (String.◌∷◌ d t) =
    text_clauses.nil-cons d t ∙ ap flip (sym (text_clauses.cons-nil d t))
texts_flip (String.◌∷◌ c s) String.[] =
    text_clauses.cons-nil c s ∙ ap flip (sym (text_clauses.nil-cons c s))
texts_flip (String.◌∷◌ c s) (String.◌∷◌ d t) =
    text_clauses.cons-cons c d s t
    ∙ ap (λ o. then o (compare s t)) (numbers_flip (code c) (code d))
    ∙ ap (then (flip (compare_ℕ (code d) (code c)))) (texts_flip s t)
    ∙ then-flip (compare_ℕ (code d) (code c)) (compare t s)
    ∙ ap flip (sym (text_clauses.cons-cons d c t s))

is_gt-flip : (o : Ordering) → is_gt (flip o) ≡ true → is_gt o ≡ false
unfolding flip
is_gt-flip Ordering.lt h = refl
is_gt-flip Ordering.eq h = refl
is_gt-flip Ordering.gt h = cc

-- Of two texts, at most one is after the other.
pub is_after_asym : (k j : String) → is_after k j ≡ true → is_after j k ≡ false
unfolding is_after
is_after_asym k j h = is_gt-flip (compare j k) (rw (texts_flip k j) at h)
