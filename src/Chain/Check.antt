-- ===== src/Chain/Check.antt =====
-- Refusals as values: one reason for each message of the transaction and block checks.
use unc_coin.Prelude.{◌≡◌, refl, Bool, true, false, Option, none, some, if◌then◌else◌}

pub data Reason : Type 0 where
  reward_signed signature_missing sender_key_mismatch signature_invalid : Reason
  fee_negative sender_empty nonce_mismatch balance_too_low unsupported_kind : Reason
  reward_receiver_empty reward_amount_not_positive : Reason
  receiver_empty amount_not_positive receiver_not_empty amount_not_zero amount_negative : Reason
  request_id_invalid request_id_too_long commitment_hash_invalid commitment_exists : Reason
  seed_missing seed_invalid salt_invalid salt_too_long no_commitment reveal_exists : Reason
  seed_mismatch : Reason
  contract_address_invalid contract_address_mismatch code_hash_invalid : Reason
  code_hash_mismatch scope_invalid already_deployed program_missing program_invalid : Reason
  metadata_invalid address_not_derived metadata_request_ids_invalid : Reason
  gas_limit_invalid gas_limit_negative gas_price_invalid gas_price_negative : Reason
  fee_below_fuel undeployed_contract inline_authorizations no_result : Reason
  too_many_transactions genesis_has_reward reward_missing several_rewards : Reason
  reward_not_first reward_fee_not_zero reward_amount_mismatch : Reason
  hash_mismatch proof_of_work_too_weak : Reason
  genesis_invalid another_genesis missing_parent_state height_mismatch : Reason
  value_error : Reason

pub data Checked (A : Type 0) : Type 0 where
  pass : A → Checked A
  reject : Reason → Checked A

infixl 5 ◌>>=◌ ◌>>◌
abbrev pub ◌>>=◌ : {A B : Type 0} → Checked A → (A → Checked B) → Checked B
pass a >>= f = f a
reject r >>= f = reject r

abbrev pub ◌>>◌ : {B : Type 0} → Checked (Unit {0}) → Checked B → Checked B
m >> k = m >>= λ _. k

-- `if bad: return reason`
abbrev pub refuse_if : Bool → Reason → Checked (Unit {0})
refuse_if true r = reject r
refuse_if false r = pass tt

-- `if not good: return reason`
abbrev pub require : Bool → Reason → Checked (Unit {0})
require true r = pass tt
require false r = reject r

-- A value, or the reason where there is none.
abbrev pub need : {A : Type 0} → Option A → Reason → Checked A
need none r = reject r
need (some a) r = pass a

-- Inversion of a chain that passes.
pub >>=-eq-pass :
    {A B : Type 0} (m : Checked A) (f : A → Checked B) {b : B}
    → (m >>= f) ≡ pass b
    → (a : A) × (m ≡ pass a) × (f a ≡ pass b)
>>=-eq-pass (pass a) f h = (a, refl, h)
>>=-eq-pass (reject r) f h = cc

pub refuse_if-eq-pass :
    {B : Type 0} (c : Bool) (r : Reason) (k : Checked B) {b : B}
    → (refuse_if c r >> k) ≡ pass b
    → (c ≡ false) × (k ≡ pass b)
refuse_if-eq-pass true r k h = cc
refuse_if-eq-pass false r k h = (refl, h)

pub require-eq-pass :
    {B : Type 0} (c : Bool) (r : Reason) (k : Checked B) {b : B}
    → (require c r >> k) ≡ pass b
    → (c ≡ true) × (k ≡ pass b)
require-eq-pass true r k h = (refl, h)
require-eq-pass false r k h = cc

-- `P` holds of what is passed.
pub data Ensures {A : Type 0} (P : A → Type 0) : Checked A → Type 0 where
  passes : {a : A} → P a → Ensures P (pass a)
  rejects : {r : Reason} → Ensures P (reject r)

pub Ensures-bind :
    {A B : Type 0} {P : B → Type 0} {f : A → Checked B} (m : Checked A)
    → ((a : A) → m ≡ pass a → Ensures P (f a))
    → Ensures P (m >>= f)
Ensures-bind (pass a) k = k a refl
Ensures-bind (reject r) k = rejects

pub Ensures-refuse_if :
    {B : Type 0} {P : B → Type 0} {k : Checked B} (c : Bool) (r : Reason)
    → (c ≡ false → Ensures P k)
    → Ensures P (refuse_if c r >> k)
Ensures-refuse_if true r h = rejects
Ensures-refuse_if false r h = h refl

pub Ensures-require :
    {B : Type 0} {P : B → Type 0} {k : Checked B} (c : Bool) (r : Reason)
    → (c ≡ true → Ensures P k)
    → Ensures P (require c r >> k)
Ensures-require true r h = h refl
Ensures-require false r h = rejects

pub Ensures-need :
    {A B : Type 0} {P : B → Type 0} {f : A → Checked B} (o : Option A) (r : Reason)
    → ((a : A) → o ≡ some a → Ensures P (f a))
    → Ensures P (need o r >>= f)
Ensures-need none r h = rejects
Ensures-need (some a) r h = h a refl

pub Ensures-if :
    {A : Type 0} {P : A → Type 0} {m n : Checked A} (c : Bool)
    → (c ≡ true → Ensures P m)
    → (c ≡ false → Ensures P n)
    → Ensures P (if c then m else n)
Ensures-if true h k = h refl
Ensures-if false h k = k refl

pub Ensures-map :
    {A : Type 0} {P Q : A → Type 0} {m : Checked A}
    → ((a : A) → P a → Q a)
    → Ensures P m
    → Ensures Q m
Ensures-map f (passes {a} h) = passes (f a h)
Ensures-map f rejects = rejects

Ensures-pass : {A : Type 0} {P : A → Type 0} {a : A} → Ensures P (pass a) → P a
Ensures-pass (passes h) = h

pub Ensures-eq :
    {A : Type 0} {P : A → Type 0} {m : Checked A} {a : A} → Ensures P m → m ≡ pass a → P a
Ensures-eq {P} h e = Ensures-pass (rw e at h)

pub some_of_need : {A : Type 0} {a : A} (o : Option A) (r : Reason) → need o r ≡ pass a → o ≡ some a
some_of_need none r h = cc
some_of_need (some b) r h = cc

pub good_of_require : (good : Bool) (r : Reason) → require good r ≡ pass tt → good ≡ true
good_of_require true r h = refl
good_of_require false r h = cc
