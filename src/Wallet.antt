-- ===== src/Wallet.antt =====
-- Signatures, wallet/wallet.py.
use unc_coin.Prelude.{ℕ, ◌-◌, ◌%◌, ◌^◌, String, Bool, Option, none, some, ◌==◌, if◌then◌else◌}
use unc_coin.Prelude.Int.{ℤ, pos, negsuc}
use unc_coin.Text.{parse_int}
use unc_coin.Externals.{Externals}

-- `n % m` of a modulus that is not 0: at least 0, also for a negative `n`.
unfoldable mod_ℤ : ℤ → ℕ → ℕ
mod_ℤ (pos n) m = n % m
mod_ℤ (negsuc n) m = (m - 1) - n % m

-- `pow(n, exponent, modulus)`; `none` is the `ValueError` for a modulus of 0.
unfoldable pub pow_mod : ℤ → ℕ → ℕ → Option ℕ
unfolding mod_ℤ
pow_mod n exponent modulus =
    if modulus == 0 then none else some ((mod_ℤ n modulus ^ exponent) % modulus)

abbrev is_digest : ℕ → Option ℕ → Option Bool
is_digest digest none = none
is_digest digest (some verified) = some (digest == verified)

abbrev power_of : ℕ → ℕ → Option ℤ → Option ℕ
unfolding pow_mod
power_of exponent modulus none = none
power_of exponent modulus (some n) = pow_mod n exponent modulus

-- `Wallet.verify_signature_with_public_key`; `none` is a `ValueError`: the signature is no
-- hexadecimal number, or the modulus is 0.
unfoldable pub verify_signature_with_public_key : Externals → String → String → ℕ × ℕ → Option Bool
unfolding parse_int power_of
verify_signature_with_public_key X message signature (exponent, modulus) =
    is_digest (X.sha256 message) (power_of exponent modulus (parse_int 16 signature))
