-- ===== src/Chain/Accept.antt =====
-- What an accepted transaction, of a wallet or a mining reward, does to the money and the nonces.
use unc_coin.Prelude.{ℕ, suc, ◌≡◌, refl, true, false, Option, none, arith, str_eq, eq_refl}
use unc_coin.Prelude.Int.{ℤ, pos, negsuc, ◌+ℤ◌, ◌≤ℤ◌, ltb_ℤ, le_of_ltb, pos_of_ltb}
use unc_coin.Dict.{lookup_or, lookup_or-insert}
use unc_coin.Dict.Sum.{total, total-bump}
use unc_coin.Externals.{Externals}
use unc_coin.Transaction.{Transaction, Kind}
use unc_coin.Chain.State.{ChainState}
use unc_coin.Chain.Check.{
  pass, reject, Ensures, passes, rejects, Ensures-refuse_if, Ensures-require, Ensures-eq,
  refuse_if-eq-pass, require-eq-pass, >>=-eq-pass, fee_negative, sender_empty, nonce_mismatch,
  reward_receiver_empty, reward_amount_not_positive,
}
use unc_coin.Chain.Validate.{is_reward, check_authenticity}
use unc_coin.Chain.Apply.{apply_kind, apply_signed, apply_reward, apply_transaction, is_nonce}
use unc_coin.Chain.Balances.{IsSolvent, bump-IsSolvent}
use unc_coin.Chain.Spend.{
  Spends, apply_transfer-Spends, apply_commit-Spends, apply_reveal-Spends, apply_authorize-Spends,
  apply_deploy-Spends,
}
use unc_coin.Chain.Call.{apply_execute-Spends}

apply_kind-Spends :
    (S : Externals) (k : Kind) (t : Transaction) (s : ChainState) (nonce height : ℕ)
    → pos 0 ≤ℤ t.fee
    → Ensures (Spends t nonce s) (apply_kind S k t s nonce height)
unfolding apply_kind
apply_kind-Spends S Kind.transfer t s nonce height h = apply_transfer-Spends t nonce s h
apply_kind-Spends S Kind.commit t s nonce height h = apply_commit-Spends t nonce s h
apply_kind-Spends S Kind.reveal t s nonce height h = apply_reveal-Spends t nonce s h S
apply_kind-Spends S Kind.authorize t s nonce height h = apply_authorize-Spends t nonce s h height
apply_kind-Spends S Kind.deploy t s nonce height h = apply_deploy-Spends t nonce s h S
apply_kind-Spends S Kind.execute t s nonce height h = apply_execute-Spends S t nonce height s h
apply_kind-Spends S (Kind.other name) t s nonce height h = rejects

-- The nonce that the state expects next from the sender of a transaction.
abbrev pub nonce_of : Transaction → ChainState → ℕ
nonce_of t s = lookup_or t.sender 0 s.nonces

-- What a mining reward does: its amount is new money, and nothing is charged.
pub record Rewards (t : Transaction) (s : ChainState) (r : ChainState × Option ℤ) : Type 0 where
  pub unreported : r.1 ≡ none
  pub positive : pos 1 ≤ℤ t.amount
  pub nonces : r.0.nonces ≡ s.nonces
  pub height : r.0.next_height ≡ s.next_height
  pub supply : total r.0.balances ≡ total s.balances +ℤ t.amount
  pub solvent : IsSolvent s.balances → IsSolvent r.0.balances

apply_reward-Rewards : (t : Transaction) (s : ChainState) → Ensures (Rewards t s) (apply_reward t s)
unfolding apply_reward
apply_reward-Rewards t s = Ensures-refuse_if (str_eq t.receiver "") reward_receiver_empty λ _.
    Ensures-require (ltb_ℤ (pos 0) t.amount) reward_amount_not_positive λ positive.
      let p = pos_of_ltb t.amount positive in
      passes (record {
        unreported = refl;
        positive = p;
        nonces = refl;
        height = refl;
        supply = total-bump t.receiver t.amount s.balances;
        solvent = bump-IsSolvent t.receiver t.amount s.balances (omega arith);
      })

module _ (S : Externals) (t : Transaction) (s : ChainState) (height : ℕ) where
  signed-Spends : pos 0 ≤ℤ t.fee → Ensures (Spends t (nonce_of t s) s) (apply_signed S t s height)
  unfolding apply_signed
  signed-Spends h = Ensures-refuse_if (str_eq t.sender "") sender_empty λ _.
      Ensures-require (is_nonce t.nonce (nonce_of t s)) nonce_mismatch
        λ _. apply_kind-Spends S t.kind t s (nonce_of t s) height h

  -- An accepted transaction of a wallet raises the sender's nonce by one and no other; the fee
  -- that it reports for the miner is at least 0 and at most the declared fee, and is exactly what
  -- the sum of all balances goes down by; a state in which nobody is overdrawn leads to another.
  pub apply_transaction-Spends :
      {r : ChainState × Option ℤ}
      → is_reward t ≡ false
      → apply_transaction S t s height ≡ pass r
      → Spends t (nonce_of t s) s r
  unfolding apply_transaction
  apply_transaction-Spends wallet h =
      let (_, _, h1) = >>=-eq-pass (check_authenticity S t) _ h in
      let (nonneg, h2) = refuse_if-eq-pass (ltb_ℤ t.fee (pos 0)) fee_negative _ h1 in
      Ensures-eq (signed-Spends (le_of_ltb t.fee (pos 0) nonneg)) (rw wallet at h2)

  -- An accepted mining reward has a positive amount, which is exactly what the sum of all balances
  -- goes up by; it changes no nonce, reports no fee, and nobody is overdrawn by it.
  pub apply_transaction-Rewards :
      {r : ChainState × Option ℤ}
      → is_reward t ≡ true
      → apply_transaction S t s height ≡ pass r
      → Rewards t s r
  unfolding apply_transaction
  apply_transaction-Rewards reward h =
      let (_, _, h1) = >>=-eq-pass (check_authenticity S t) _ h in
      let (nonneg, h2) = refuse_if-eq-pass (ltb_ℤ t.fee (pos 0)) fee_negative _ h1 in
      Ensures-eq (apply_reward-Rewards t s) (rw reward at h2)

is_nonce_next : (n : ℤ) (m : ℕ) → is_nonce n m ≡ true → is_nonce n (suc m) ≡ false
is_nonce_next (pos n) m h = ground (arith, h)
is_nonce_next (negsuc n) m h = refl

-- A transaction of a wallet that has been accepted is refused for its nonce when it is applied
-- again to the state that it led to, at any height.
pub apply_transaction_replay :
    (S : Externals) (t : Transaction) (s : ChainState) (height later : ℕ)
    {r : ChainState × Option ℤ}
    → is_reward t ≡ false
    → apply_transaction S t s height ≡ pass r
    → apply_transaction S t r.0 later ≡ reject nonce_mismatch
unfolding apply_transaction apply_signed
apply_transaction_replay S t s height later {r} wallet h =
    let next : lookup_or t.sender 0 r.0.nonces ≡ suc (nonce_of t s) =
      rw ((apply_transaction-Spends S t s height wallet h).nonces, lookup_or-insert, eq_refl)
        refl in
    let (_, passed, h1) = >>=-eq-pass (check_authenticity S t) _ h in
    let (nonneg, h2) = refuse_if-eq-pass (ltb_ℤ t.fee (pos 0)) fee_negative _ h1 in
    let h3 = rw wallet at h2 in
    let (named, h4) = refuse_if-eq-pass (str_eq t.sender "") sender_empty _ h3 in
    let (fits, _) = require-eq-pass (is_nonce t.nonce (nonce_of t s)) nonce_mismatch _ h4 in
    rw (passed, nonneg, wallet, named, next, is_nonce_next t.nonce (nonce_of t s) fits) refl
