-- ===== src/Chain/Raise.antt =====
-- A `ValueError` that leaves `_apply_transaction_to_state_error`, in place of a reason that it
-- returns: the signature is no hexadecimal number, or the program that is called lets it through.
use mathlib.Core.List.{Memᴰ}
use mathlib.Core.List.Memᴰ.{head, tail}
use unc_coin.Prelude.{
  ◌≡◌, refl, Bool, true, false, List, [], ◌∷◌, ◌++◌, if◌then◌else◌, Bool-cases, inl, inr,
}
use unc_coin.Externals.{Externals}
use unc_coin.Transaction.{Transaction}
use unc_coin.Chain.State.{ChainState}
use unc_coin.Chain.Check.{Checked, pass, reject, Reason, value_error, ◌>>=◌}
use unc_coin.Chain.Apply.{apply_transaction}

-- The reason that stands for a `ValueError`.
unfoldable pub is_raise : Reason → Bool
is_raise value_error = true
is_raise _ = false

-- A test for a reason: what to do where there is one, and where there is none.
unfoldable pub or_raise : {A : Type 0} → Reason → A → Checked A
unfolding is_raise
or_raise r a = if is_raise r then reject r else pass a

-- What is returned has the property, unless the application of one of the transactions raises a
-- `ValueError`.
pub data Returns {A : Type 0} (S : Externals) (pool : List Transaction) (P : A → Type 0)
    : Checked A → Type 0 where
  returns : {a : A} → P a → Returns S pool P (pass a)
  raises :
      {r : Reason} (t : Transaction) (s : ChainState)
      → Memᴰ t pool
      → is_raise r ≡ true
      → apply_transaction S t s s.next_height ≡ reject r
      → Returns S pool P (reject r)

-- All transactions of a list are in the pool.
abbrev pub AreIn : List Transaction → List Transaction → Type 0
AreIn pool [] = Unit
AreIn pool (t ∷ ts) = Memᴰ t pool × AreIn pool ts

pub AreIn-append :
    (pool ts us : List Transaction) → AreIn pool ts → AreIn pool us → AreIn pool (ts ++ us)
AreIn-append pool [] us h k = k
AreIn-append pool (t ∷ ts) us (one, rest) k = (one, AreIn-append pool ts us rest k)

AreIn-cons : (pool ts : List Transaction) (t : Transaction) → AreIn pool ts → AreIn (t ∷ pool) ts
AreIn-cons pool [] t h = tt
AreIn-cons pool (u ∷ us) t (one, rest) = (tail one, AreIn-cons pool us t rest)

pub AreIn-same : (pool : List Transaction) → AreIn pool pool
AreIn-same [] = tt
AreIn-same (t ∷ ts) = (head refl, AreIn-cons ts ts t (AreIn-same ts))

module _ {A B : Type 0} {S : Externals} {pool : List Transaction} {P : A → Type 0}
    {Q : B → Type 0} where
  pub Returns-bind :
      {m : Checked A} {f : A → Checked B}
      → Returns S pool P m
      → ((a : A) → P a → Returns S pool Q (f a))
      → Returns S pool Q (m >>= f)
  Returns-bind (returns h) k = k _ h
  Returns-bind (raises t s at e h) k = raises t s at e h

  pub Returns-map :
      {m : Checked A}
      → Returns S pool P m
      → (f : A → B) → ((a : A) → P a → Q (f a))
      → Returns S pool Q (m >>= λ a. pass (f a))
  Returns-map h f k = Returns-bind h λ a p. returns (k a p)

-- A refusal that is no `ValueError` is passed over.
pub Returns-or_raise :
    {A : Type 0} {S : Externals} {pool : List Transaction} {P : A → Type 0} (t : Transaction)
    (s : ChainState) (r : Reason) (a : A)
    → Memᴰ t pool
    → apply_transaction S t s s.next_height ≡ reject r
    → P a
    → Returns S pool P (or_raise r a)
unfolding or_raise
Returns-or_raise t s r a at e h = elim (Bool-cases (is_raise r)) [
  | inl raised ↦ rw raised (raises t s at raised e)
  | inr refused ↦ rw refused (returns h)
]
