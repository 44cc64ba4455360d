-- ===== src/Chain/Forecast.antt =====
-- What the balance and the nonce that the pending transactions leave are good for.
use unc_coin.Prelude.{
  ℕ, suc, String, ◌≡◌, refl, sym, ap, ◌∙◌, ◌++◌, true, false, Option, none, some, List, [], ◌∷◌,
  arith, str_eq, eq_refl, Bool-cases, inl, inr, if◌then◌else◌,
}
use unc_coin.Prelude.Int.{ℤ, pos, negsuc, ltb_ℤ, ◌≤ℤ◌}
use unc_coin.Dict.{lookup, lookup_or, lookup_or-insert}
use unc_coin.Externals.{Externals}
use unc_coin.Transaction.{Transaction}
use unc_coin.Chain.State.{ChainState, empty_state}
use unc_coin.Chain.Check.{
  Checked, pass, reject, need, value_error, some_of_need, ◌>>=◌, >>=-eq-pass, refuse_if-eq-pass,
  require-eq-pass, fee_negative, sender_empty, nonce_mismatch,
}
use unc_coin.Chain.Validate.{is_reward, check_authenticity}
use unc_coin.Chain.Apply.{apply_transaction, apply_signed, is_nonce}
use unc_coin.Chain.Balances.{IsSolvent}
use unc_coin.Chain.Accept.{nonce_of, apply_transaction-Spends, apply_transaction-Rewards}
use unc_coin.Chain.Store.{Blockchain}
use unc_coin.Chain.Ancestor.{stored_state}
use unc_coin.Chain.Branch.{or_main_tip}
use unc_coin.Chain.Reconcile.{state_of_tip}
use unc_coin.Chain.Reorganize.{IsHead, resolved-IsHead}
use unc_coin.Chain.Pending.{apply_pending, add_transaction, apply_pending-snoc}
use unc_coin.Chain.Block.{Rules}
use mathlib.Core.List.{Memᴰ}
use unc_coin.Chain.Raise.{Returns, returns, Returns-or_raise, AreIn, AreIn-same}
use unc_coin.Chain.Issue.{IsSound}
use unc_coin.Chain.Query.{
  get_state_for_tip, available_in, get_available_balance, get_next_nonce, add_pending,
}

is_nonce-eq : (n : ℤ) (m : ℕ) → is_nonce n m ≡ true → n ≡ pos m
is_nonce-eq (pos n) m h = let e : n ≡ m = ground (arith, h) in rw e refl
is_nonce-eq (negsuc n) m h = cc

abbrev pub AtLeastZero : ℤ → Type 0
AtLeastZero b = pos 0 ≤ℤ b

state_of_tip-same :
    (chain : Blockchain) (pending : List Transaction) (tip : Option String)
    → state_of_tip (record chain { pending_transactions = pending }) tip ≡ state_of_tip chain tip
unfolding state_of_tip
state_of_tip-same chain pending none = refl
state_of_tip-same chain pending (some t) = refl

get_state_for_tip-same :
    (chain : Blockchain) (pending : List Transaction) (tip : Option String)
    → get_state_for_tip (record chain { pending_transactions = pending }) tip
      ≡ get_state_for_tip chain tip
unfolding get_state_for_tip
get_state_for_tip-same chain pending none = state_of_tip-same chain pending chain.main_tip_hash
get_state_for_tip-same chain pending (some t) = state_of_tip-same chain pending (some t)

module _ (S : Externals) where
  apply_transaction-IsSolvent :
      (t : Transaction) (s : ChainState) (height : ℕ) {r : ChainState × Option ℤ}
      → apply_transaction S t s height ≡ pass r
      → IsSolvent s.balances
      → IsSolvent r.0.balances
  apply_transaction-IsSolvent t s height h = elim (Bool-cases (is_reward t)) [
    | inl reward ↦ (apply_transaction-Rewards S t s height reward h).solvent
    | inr wallet ↦ (apply_transaction-Spends S t s height wallet h).solvent
  ]

  -- What a pending list that starts with a transaction leaves.
  available-after :
      (pool ts : List Transaction) (t : Transaction) (s : ChainState) (address : String)
      (c : Checked (ChainState × Option ℤ))
      → Memᴰ t pool
      → apply_transaction S t s s.next_height ≡ c
      → ((x : ChainState × Option ℤ)
          → c ≡ pass x
          → Returns S pool AtLeastZero (available_in address (apply_pending S ts x.0)))
      → Returns S pool AtLeastZero (available_in address (c >>= λ x. apply_pending S ts x.0))
  unfolding available_in
  available-after pool ts t s address (pass x) at e h = h x refl
  available-after pool ts t s address (reject r) at e h =
      Returns-or_raise t s r (pos 0) at e (omega arith)

  available-Returns :
      (pool ts : List Transaction) (s : ChainState) (address : String)
      → AreIn pool ts
      → IsSolvent s.balances
      → Returns S pool AtLeastZero (available_in address (apply_pending S ts s))
  unfolding available_in apply_pending
  available-Returns pool [] s address within solvent = returns (solvent address)
  available-Returns pool (t ∷ ts) s address (at, rest) solvent =
      let c = apply_transaction S t s s.next_height in
      available-after pool ts t s address c at refl λ x e.
        available-Returns pool ts x.0 address rest
          (apply_transaction-IsSolvent t s s.next_height e solvent)

  -- The nonce of an accepted wallet transaction is the next one of its sender.
  accepted_nonce :
      (t : Transaction) (s : ChainState) (height : ℕ) {r : ChainState × Option ℤ}
      → is_reward t ≡ false
      → apply_transaction S t s height ≡ pass r
      → t.nonce ≡ pos (lookup_or t.sender 0 s.nonces)
  unfolding apply_transaction apply_signed
  accepted_nonce t s height wallet h =
      let (_, passed, h1) = >>=-eq-pass (check_authenticity S t) _ h in
      let (nonneg, h2) = refuse_if-eq-pass (ltb_ℤ t.fee (pos 0)) fee_negative _ h1 in
      let h3 = rw wallet at h2 in
      let (named, h4) = refuse_if-eq-pass (str_eq t.sender "") sender_empty _ h3 in
      let (fits, _) = require-eq-pass (is_nonce t.nonce (nonce_of t s)) nonce_mismatch _ h4 in
      is_nonce-eq t.nonce _ fits

  -- The nonces behind an accepted wallet transaction.
  moved_nonce :
      (t : Transaction) (s : ChainState) (height : ℕ) {r : ChainState × Option ℤ} (a : String)
      → is_reward t ≡ false
      → apply_transaction S t s height ≡ pass r
      → lookup_or a 0 r.0.nonces
        ≡ (if str_eq t.sender a then suc (nonce_of t s) else lookup_or a 0 s.nonces)
  moved_nonce t s height a wallet h =
      rw ((apply_transaction-Spends S t s height wallet h).nonces, lookup_or-insert) refl

  -- The forecast of the nonces of a chain before and behind a new pending transaction.
  pub record IsNext (t : Transaction) (before after : Blockchain) (tip : Option String)
      : Type 0 where
    pub nonce : ℕ
    pub fits : t.nonce ≡ pos nonce
    pub own : get_next_nonce S before t.sender tip ≡ pass nonce
    pub own_after : get_next_nonce S after t.sender tip ≡ pass (suc nonce)
    pub others :
        (a : String)
        → str_eq t.sender a ≡ false
        → get_next_nonce S after a tip ≡ get_next_nonce S before a tip

  forecast :
      (chain : Blockchain) (tip : Option String) (a : String) (s m : ChainState)
      → get_state_for_tip chain tip ≡ some s
      → apply_pending S chain.pending_transactions s ≡ pass m
      → get_next_nonce S chain a tip ≡ pass (lookup_or a 0 m.nonces)
  unfolding get_next_nonce
  forecast chain tip a s m found applied = rw (found, applied) refl

  snoc-IsNext :
      (t : Transaction) (chain : Blockchain) (tip : Option String) (s m : ChainState)
      {r : ChainState × Option ℤ}
      → is_reward t ≡ false
      → get_state_for_tip chain tip ≡ some s
      → apply_pending S chain.pending_transactions s ≡ pass m
      → apply_transaction S t m m.next_height ≡ pass r
      → IsNext t chain
          (record chain { pending_transactions = chain.pending_transactions ++ t ∷ [] })
          tip
  snoc-IsNext t chain tip s m {r} wallet found applied one =
      let pending = chain.pending_transactions ++ t ∷ [] in
      let found' = get_state_for_tip-same chain pending tip ∙ found in
      let applied' = apply_pending-snoc S chain.pending_transactions t s m applied one in
      let before = λ (a : String). forecast chain tip a s m found applied in
      let after = λ (a : String).
        forecast (record chain { pending_transactions = pending }) tip a s r.0 found' applied' in
      let moved = λ (a : String). moved_nonce t m m.next_height a wallet one in
      record {
        nonce = nonce_of t m;
        fits = accepted_nonce t m m.next_height wallet one;
        own = before t.sender;
        own_after = after t.sender ∙ ap pass (moved t.sender ∙ rw eq_refl refl);
        others = λ a other. after a ∙ ap pass (moved a ∙ rw other refl) ∙ sym (before a);
      }

  -- A transaction that is added to the pending ones carries the nonce that `get_next_nonce` forecasts
  -- for its sender; behind it the forecast is one more for its sender and unchanged for others.
  pub add_pending-IsNext :
      (t : Transaction) (chain : Blockchain) (tip : Option String) {chain' : Blockchain}
      → add_pending S t chain tip ≡ pass chain'
      → IsNext t chain chain' tip
  unfolding add_pending add_transaction
  add_pending-IsNext t chain tip {chain'} h =
      let (s, tip_found, h1) = >>=-eq-pass (need (get_state_for_tip chain tip) value_error) _ h in
      let (pending, added, h2) =
        >>=-eq-pass (add_transaction S t chain.pending_transactions s) _ h1 in
      let (wallet, h3) = refuse_if-eq-pass (is_reward t) value_error _ added in
      let (m, applied, h4) = >>=-eq-pass (apply_pending S chain.pending_transactions s) _ h3 in
      let (r, one, h5) = >>=-eq-pass (apply_transaction S t m m.next_height) _ h4 in
      let same : record chain { pending_transactions = chain.pending_transactions ++ t ∷ [] }
          ≡ chain' =
        cc in
      rw⁻¹ same
        (snoc-IsNext t chain tip s m wallet (some_of_need _ value_error tip_found) applied one)

module _ (R : Rules) (chain : Blockchain) (sound : IsSound R chain) where
  state_total :
      (tip : Option String)
      → IsHead chain tip
      → (s : ChainState) × (state_of_tip chain tip ≡ some s) × IsSolvent s.balances
  unfolding state_of_tip lookup_or lookup
  state_total none head = (empty_state, refl, λ a. omega arith)
  state_total (some t) head =
      let (s, found) = stored_state R chain sound.linked t head in
      (s, found, (sound.issued t s found).solvent)

  -- On a sound store the available balance of an address is at least 0, at the main tip and at
  -- every stored block, and only the application of a pending transaction to some state can raise a
  -- `ValueError` in its place.
  pub get_available_balance_nonneg :
      (address : String) (tip : Option String)
      → IsHead chain tip
      → (c : Checked ℤ) × (get_available_balance R.externals chain address tip ≡ some c)
        × Returns R.externals chain.pending_transactions AtLeastZero c
  unfolding get_available_balance get_state_for_tip
  get_available_balance_nonneg address tip head =
      let (s, found, solvent) =
        state_total (or_main_tip chain tip) (resolved-IsHead R chain sound tip head) in
      let pool = chain.pending_transactions in
      (
        _,
        rw found refl,
        available-Returns R.externals pool pool s address (AreIn-same pool) solvent,
      )
