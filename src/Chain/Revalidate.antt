-- ===== src/Chain/Revalidate.antt =====
-- Why the pending transactions still apply after a change of the main tip.
use unc_coin.Prelude.{
  String, ◌≡◌, ◌⊎◌, refl, ◌∙◌, sym, ap, Bool, true, false, ◌||◌, Option, some, List, [], ◌∷◌, ◌++◌,
  map, arith, str_eq, eq_iff, Bool-cases, inl, inr,
}
use unc_coin.Prelude.Int.{ℤ}
use unc_coin.Externals.{Externals}
use unc_coin.Transaction.Serialize.{transaction_hash}
use unc_coin.Transaction.{Transaction}
use unc_coin.Chain.State.{ChainState}
use unc_coin.Chain.Check.{Checked, pass, reject}
use unc_coin.Chain.Apply.{apply_transaction}
use mathlib.Core.List.{Memᴰ}
use unc_coin.Chain.Raise.{Returns, returns, Returns-bind, Returns-or_raise, AreIn, AreIn-same}
use unc_coin.Chain.Pending.{apply_pending, apply_pending-snoc}
use unc_coin.Chain.Reconcile.{has_id, Kept, kept_if, keep_one, keep_valid, start_kept, kept_of}

-- No id twice.
abbrev pub IsDistinct : List String → Type 0
unfolding has_id
IsDistinct [] = Unit
IsDistinct (i ∷ ids) = (has_id i ids ≡ false) × IsDistinct ids

has_id-cons : (h i : String) (ids : List String) → has_id h (i ∷ ids) ≡ (has_id h ids || str_eq i h)
unfolding has_id
has_id-cons h i ids = ground arith

or-cases : (a b : Bool) → (a || b) ≡ true → (a ≡ true) ⊎ (b ≡ true)
or-cases true b e = inl refl
or-cases false b e = inr e

has_id-snoc :
    (h i : String) (ids : List String) → has_id h (ids ++ i ∷ []) ≡ (has_id h ids || str_eq i h)
unfolding has_id
has_id-snoc h i [] = ground arith
has_id-snoc h i (j ∷ ids) = ground (arith, has_id-snoc h i ids)

IsDistinct-snoc :
    (i : String) (ids : List String)
    → IsDistinct ids
    → has_id i ids ≡ false
    → IsDistinct (ids ++ i ∷ [])
unfolding has_id
IsDistinct-snoc i [] distinct new = (refl, tt)
IsDistinct-snoc i (j ∷ ids) (apart, distinct) new = (
  rw (has_id-snoc j i ids, apart) (ground (arith, new, eq_iff i j, eq_iff j i)),
  IsDistinct-snoc i ids distinct (ground (arith, new)),
)

-- What the loop keeps, from a state on: the transactions kept apply in order to it and lead to the
-- state of the loop, under different ids, which are the ids seen, and none of the ids of the branch.
record Holds (S : Externals) (base : ChainState) (current_ids : List String) (k : Kept)
    : Type 0 where
  applied : apply_pending S k.valid base ≡ pass k.state
  seen : (h : String) → has_id h k.seen_ids ≡ has_id h (map (transaction_hash S) k.valid)
  distinct : IsDistinct (map (transaction_hash S) k.valid)
  new :
      (h : String)
      → has_id h (map (transaction_hash S) k.valid) ≡ true
      → has_id h current_ids ≡ false

module _ (S : Externals) (base : ChainState) (current_ids : List String)
    (pool : List Transaction) where
  ids-snoc :
      (ts : List Transaction) (t : Transaction)
      → map (transaction_hash S) (ts ++ t ∷ [])
        ≡ map (transaction_hash S) ts ++ transaction_hash S t ∷ []
  ids-snoc [] t = refl
  ids-snoc (u ∷ ts) t = ap (λ l. transaction_hash S u ∷ l) (ids-snoc ts t)

  kept-Holds :
      (t : Transaction) (k : Kept) (c : Checked (ChainState × Option ℤ))
      → Memᴰ t pool
      → apply_transaction S t k.state k.state.next_height ≡ c
      → has_id (transaction_hash S t) k.seen_ids ≡ false
      → has_id (transaction_hash S t) current_ids ≡ false
      → Holds S base current_ids k
      → Returns S pool (Holds S base current_ids) (kept_if (transaction_hash S t) t c k)
  unfolding kept_if
  kept-Holds t k (reject r) at found unseen absent h = Returns-or_raise t k.state r k at found h
  kept-Holds t k (pass x) at found unseen absent h =
      let id = transaction_hash S t in
      let ids = map (transaction_hash S) k.valid in
      returns (record {
        applied = apply_pending-snoc S k.valid t base k.state h.applied found;
        seen =
            λ i. rw (ids-snoc, has_id-snoc i id ids, sym (h.seen i)) (has_id-cons i id k.seen_ids);
        distinct = rw ids-snoc (IsDistinct-snoc id ids h.distinct (sym (h.seen id) ∙ unseen));
        new = λ i e. elim (or-cases _ _ (rw (ids-snoc, has_id-snoc i id ids) at e)) [
          | inl old ↦ h.new i old
          | inr same ↦ rw (sym ((eq_iff id i).0 same)) absent
        ];
      })

  keep_one-Holds :
      (t : Transaction) (k : Kept)
      → Memᴰ t pool
      → Holds S base current_ids k
      → Returns S pool (Holds S base current_ids) (keep_one S current_ids t k)
  unfolding keep_one
  keep_one-Holds t k at h = elim (Bool-cases (has_id (transaction_hash S t) k.seen_ids)) [
    | inl seen ↦ rw seen (returns h)
    | inr unseen ↦ elim (Bool-cases (has_id (transaction_hash S t) current_ids)) [
      | inl there ↦ rw (unseen, there) (returns h)
      | inr absent ↦
          rw (unseen, absent)
            (kept-Holds t k (apply_transaction S t k.state k.state.next_height) at refl unseen
              absent h)
    ]
  ]

  keep_valid-Holds :
      (ts : List Transaction) (k : Kept)
      → AreIn pool ts
      → Holds S base current_ids k
      → Returns S pool (Holds S base current_ids) (keep_valid S current_ids ts k)
  unfolding keep_valid
  keep_valid-Holds [] k at h = returns h
  keep_valid-Holds (t ∷ ts) k (at, rest) h =
      Returns-bind (keep_one-Holds t k at h) λ q hq. keep_valid-Holds ts q rest hq

  start-Holds : Holds S base current_ids (start_kept base)
  unfolding apply_pending has_id
  start-Holds = record { applied = refl; seen = λ i. refl; distinct = tt; new = λ i e. cc }

module _ (S : Externals) (base : ChainState) (current_ids : List String) where
  -- A list of pending transactions that applies in order to the canonical state, under different ids
  -- and none of the ids of the branch.
  pub record IsValid (pending : List Transaction) : Type 0 where
    pub final : ChainState
    pub applied : apply_pending S pending base ≡ pass final
    pub distinct : IsDistinct (map (transaction_hash S) pending)
    pub absent :
        (h : String)
        → has_id h (map (transaction_hash S) pending) ≡ true
        → has_id h current_ids ≡ false

  Holds-IsValid : (k : Kept) → Holds S base current_ids k → IsValid k.valid
  Holds-IsValid k h = record {
    final = k.state;
    applied = h.applied;
    distinct = h.distinct;
    absent = h.new;
  }

  pub kept_of-IsValid :
      (canonical : Option ChainState) (candidates : List Transaction)
      → canonical ≡ some base
      → (c : Checked (List Transaction)) × (kept_of S current_ids canonical candidates ≡ some c)
        × Returns S candidates IsValid c
  unfolding kept_of
  kept_of-IsValid canonical [] e =
      (pass [], refl, returns (Holds-IsValid (start_kept base) (start-Holds S base current_ids [])))
  kept_of-IsValid canonical (t ∷ ts) e =
      let pool = t ∷ ts in
      let start = start-Holds S base current_ids pool in
      let kept =
        keep_valid-Holds S base current_ids pool pool (start_kept base) (AreIn-same pool) start in
      (_, rw e refl, Returns-bind kept λ k h. returns (Holds-IsValid k h))
