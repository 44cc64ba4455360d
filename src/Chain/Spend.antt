-- ===== src/Chain/Spend.antt =====
-- What a transaction of a wallet does to the money, for every kind but `execute`.
use unc_coin.Prelude.{ℕ, suc, ◌≡◌, refl, false, Option, some, arith, str_eq}
use unc_coin.Prelude.Int.{ℤ, pos, ◌+ℤ◌, ◌≤ℤ◌, ltb_ℤ, int_laws, le_of_ltb, pos_of_ltb}
use unc_coin.Dict.{insert}
use unc_coin.Dict.Sum.{get0, total, total-bump}
use unc_coin.Externals.{Externals}
use unc_coin.Transaction.{Transaction}
use unc_coin.Chain.State.{ChainState}
use unc_coin.Chain.Check.{
  Ensures, passes, Ensures-bind, Ensures-refuse_if, Ensures-require, balance_too_low,
  receiver_empty, amount_not_positive,
}
use unc_coin.Chain.Validate.{check_commit, check_reveal, check_authorize, check_deploy}
use unc_coin.Chain.Execute.{debit}
use unc_coin.Chain.Apply.{
  charge, apply_transfer, apply_commit, apply_reveal, apply_authorize, apply_deploy,
}
use unc_coin.Chain.Balances.{IsSolvent, total-debit, debit-IsSolvent, bump-IsSolvent}

-- The sender's nonce has gone up by one and no other; the reported fee, which is at most the
-- declared one, has left the balances and nothing else has; nobody is overdrawn by it.
pub record Spends (t : Transaction) (nonce : ℕ) (s : ChainState) (r : ChainState × Option ℤ)
    : Type 0 where
  pub fee : ℤ
  pub reported : r.1 ≡ some fee
  pub fee_nonneg : pos 0 ≤ℤ fee
  pub fee_bounded : fee ≤ℤ t.fee
  pub nonces : r.0.nonces ≡ insert t.sender (suc nonce) s.nonces
  pub height : r.0.next_height ≡ s.next_height
  pub supply : total r.0.balances +ℤ fee ≡ total s.balances
  pub solvent : IsSolvent s.balances → IsSolvent r.0.balances

module _ (t : Transaction) (nonce : ℕ) (s : ChainState) where
  -- A new state that agrees with `charge` on the nonces, the balances and the height.
  charged-Spends :
      (r : ChainState)
      → pos 0 ≤ℤ t.fee
      → ltb_ℤ (get0 t.sender s.balances) t.fee ≡ false
      → r.nonces ≡ insert t.sender (suc nonce) s.nonces
      → r.balances ≡ debit t.sender t.fee s.balances
      → r.next_height ≡ s.next_height
      → Spends t nonce s (r, some t.fee)
  charged-Spends r nonneg covered n b h = record {
    fee = t.fee;
    reported = refl;
    fee_nonneg = nonneg;
    fee_bounded = omega arith;
    nonces = n;
    height = h;
    supply = rw (b, total-debit) (omega int_laws);
    solvent = λ ok. rw b (
        debit-IsSolvent t.sender t.fee s.balances
          (le_of_ltb (get0 t.sender s.balances) t.fee covered) ok);
  }

  module _ (nonneg : pos 0 ≤ℤ t.fee) where
    pub apply_commit-Spends : Ensures (Spends t nonce s) (apply_commit t s nonce)
    unfolding apply_commit charge
    apply_commit-Spends = Ensures-bind (check_commit t s) λ checked _.
        Ensures-refuse_if (ltb_ℤ (get0 t.sender s.balances) t.fee) balance_too_low
          λ covered. passes (charged-Spends _ nonneg covered refl refl refl)

    pub apply_transfer-Spends : Ensures (Spends t nonce s) (apply_transfer t s nonce)
    unfolding apply_transfer charge
    apply_transfer-Spends = Ensures-refuse_if (str_eq t.receiver "") receiver_empty λ _.
        Ensures-require (ltb_ℤ (pos 0) t.amount) amount_not_positive λ positive.
          Ensures-refuse_if (ltb_ℤ (get0 t.sender s.balances) (t.amount +ℤ t.fee)) balance_too_low
            λ covered. passes (record {
              fee = t.fee;
              reported = refl;
              fee_nonneg = nonneg;
              fee_bounded = omega arith;
              nonces = refl;
              height = refl;
              supply = rw (total-bump, total-debit) (omega int_laws);
              solvent = λ ok.
                  let p = pos_of_ltb t.amount positive in
                  bump-IsSolvent t.receiver t.amount _ (omega arith) (
                    debit-IsSolvent t.sender (t.amount +ℤ t.fee) s.balances
                      (le_of_ltb (get0 t.sender s.balances) (t.amount +ℤ t.fee) covered) ok);
            })

    pub apply_reveal-Spends :
        (S : Externals) → Ensures (Spends t nonce s) (apply_reveal S t s nonce)
    unfolding apply_reveal charge
    apply_reveal-Spends S = Ensures-bind (check_reveal S t s) λ checked _.
        Ensures-refuse_if (ltb_ℤ (get0 t.sender s.balances) t.fee) balance_too_low
          λ covered. passes (charged-Spends _ nonneg covered refl refl refl)

    pub apply_authorize-Spends :
        (height : ℕ) → Ensures (Spends t nonce s) (apply_authorize t s nonce height)
    unfolding apply_authorize charge
    apply_authorize-Spends height = Ensures-bind (check_authorize t s) λ checked _.
        Ensures-refuse_if (ltb_ℤ (get0 t.sender s.balances) t.fee) balance_too_low
          λ covered. passes (charged-Spends _ nonneg covered refl refl refl)

    pub apply_deploy-Spends :
        (S : Externals) → Ensures (Spends t nonce s) (apply_deploy S t s nonce)
    unfolding apply_deploy charge
    apply_deploy-Spends S = Ensures-bind (check_deploy S t s) λ checked _.
        Ensures-refuse_if (ltb_ℤ (get0 t.sender s.balances) t.fee) balance_too_low
          λ covered. passes (charged-Spends _ nonneg covered refl refl refl)
