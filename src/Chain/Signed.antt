-- ===== src/Chain/Signed.antt =====
-- What the signature of a transaction covers.
use unc_coin.Prelude.{ℕ, String, true, false, Option, some, ◌≡◌, ◌∙◌, ap, refl, str_eq}
use unc_coin.Value.{Fields}
use unc_coin.Externals.{Externals}
use unc_coin.Transaction.{Transaction, Kind}
use unc_coin.Transaction.Serialize.{signing_payload}
use unc_coin.Wallet.{verify_signature_with_public_key}
use unc_coin.Randomness.{address_from_public_key}
use unc_coin.Chain.Check.{
  pass, need, >>=-eq-pass, require-eq-pass, some_of_need, good_of_require, signature_missing,
  sender_key_mismatch, signature_invalid, value_error,
}
use unc_coin.Chain.State.{ChainState}
use unc_coin.Chain.Apply.{apply_transaction}
use unc_coin.Prelude.Int.{ℤ}
use unc_coin.Chain.Validate.{is_reward, check_authenticity}

-- A transaction that carries the signature of its sender on its signing payload.
pub record IsSigned (X : Externals) (t : Transaction) : Type 0 where
  pub key : ℕ × ℕ
  pub signature : String
  pub key_given : t.sender_public_key ≡ some key
  pub signature_given : t.signature ≡ some signature
  pub owner : str_eq t.sender (address_from_public_key X key) ≡ true
  pub verified : verify_signature_with_public_key X (signing_payload X t) signature key ≡ some true

check_authenticity-IsSigned :
    (X : Externals) (t : Transaction)
    → is_reward t ≡ false
    → check_authenticity X t ≡ pass tt
    → IsSigned X t
unfolding check_authenticity
check_authenticity-IsSigned X t wallet h =
    let (key, key_given, h1) =
      >>=-eq-pass (need t.sender_public_key signature_missing) _ (rw wallet at h) in
    let (signature, signature_given, h2) = >>=-eq-pass (need t.signature signature_missing) _ h1 in
    let (owner, h3) =
      require-eq-pass (str_eq t.sender (address_from_public_key X key)) sender_key_mismatch _ h2 in
    let checked = verify_signature_with_public_key X (signing_payload X t) signature key in
    let (valid, readable, h4) = >>=-eq-pass (need checked value_error) _ h3 in
    let good = good_of_require valid signature_invalid h4 in
    record {
      key = key;
      signature = signature;
      key_given = some_of_need _ signature_missing key_given;
      signature_given = some_of_need _ signature_missing signature_given;
      owner = owner;
      verified = some_of_need checked value_error readable ∙ ap some good;
    }

-- An accepted transaction of a wallet carries a signature of its signing payload, which is verified
-- with a key that its sender is the address of.
pub apply_transaction-IsSigned :
    (X : Externals) (t : Transaction) (s : ChainState) (height : ℕ) {r : ChainState × Option ℤ}
    → is_reward t ≡ false
    → apply_transaction X t s height ≡ pass r
    → IsSigned X t
unfolding apply_transaction
apply_transaction-IsSigned X t s height wallet h =
    let (_, passed, _) = >>=-eq-pass (check_authenticity X t) _ h in
    check_authenticity-IsSigned X t wallet passed

-- The signature of a transaction of version 1 covers neither its kind nor its payload: with
-- another kind and another payload it passes the authenticity check exactly as before.
pub check_authenticity_legacy :
    (X : Externals) (t : Transaction) (kind : Kind) (payload : Fields)
    → t.version ≡ 1
    → check_authenticity X (record t { kind = kind; payload = payload }) ≡ check_authenticity X t
unfolding check_authenticity signing_payload
check_authenticity_legacy X t kind payload legacy = rw legacy refl
