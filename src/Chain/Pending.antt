-- ===== src/Chain/Pending.antt =====
-- The pending transactions: `add_transaction` of core/blockchain.py.
use unc_coin.Prelude.{◌≡◌, refl, false, Option, List, [], ◌∷◌, ◌++◌}
use unc_coin.Prelude.Int.{ℤ}
use unc_coin.Externals.{Externals}
use unc_coin.Transaction.{Transaction}
use unc_coin.Chain.State.{ChainState}
use unc_coin.Chain.Check.{
  Checked, pass, ◌>>=◌, ◌>>◌, refuse_if, value_error, >>=-eq-pass, refuse_if-eq-pass,
}
use unc_coin.Chain.Validate.{is_reward}
use unc_coin.Chain.Apply.{apply_transaction}

-- The loop over the pending transactions, on a copy of the tip's state.
unfoldable pub apply_pending : Externals → List Transaction → ChainState → Checked ChainState
unfolding apply_transaction
apply_pending S [] state = pass state
apply_pending S (t ∷ ts) state = do
  (state', fee) ← apply_transaction S t state state.next_height
  apply_pending S ts state'

-- `add_transaction` on the pending transactions and the tip's state; hands on the new pending
-- transactions.
unfoldable pub add_transaction :
    Externals → Transaction → List Transaction → ChainState → Checked (List Transaction)
unfolding is_reward apply_pending apply_transaction
add_transaction S t pending tip_state = do
  refuse_if (is_reward t) value_error
  state ← apply_pending S pending tip_state
  (state', fee) ← apply_transaction S t state state.next_height
  pass (pending ++ t ∷ [])

pub apply_pending-snoc :
    (S : Externals) (ts : List Transaction) (t : Transaction) (s m : ChainState)
    {r : ChainState × Option ℤ}
    → apply_pending S ts s ≡ pass m
    → apply_transaction S t m m.next_height ≡ pass r
    → apply_pending S (ts ++ t ∷ []) s ≡ pass r.0
unfolding apply_pending
apply_pending-snoc S [] t s m h k = let e : s ≡ m = cc in rw (e, k) refl
apply_pending-snoc S (u ∷ ts) t s m h k =
    let (x, one, rest) = >>=-eq-pass (apply_transaction S u s s.next_height) _ h in
    rw one (apply_pending-snoc S ts t x.0 m rest k)

-- A transaction that is added is no mining reward, and the pending transactions with it at their
-- end apply in order to the state of the tip.
pub add_transaction_lem :
    (S : Externals) (t : Transaction) (pending : List Transaction) (tip_state : ChainState)
    {pending' : List Transaction}
    → add_transaction S t pending tip_state ≡ pass pending'
    → (is_reward t ≡ false)
      × (pending' ≡ pending ++ t ∷ [])
      × (state : ChainState) × (apply_pending S pending' tip_state ≡ pass state)
unfolding add_transaction
add_transaction_lem S t pending tip_state {pending'} h =
    let (wallet, h1) = refuse_if-eq-pass (is_reward t) value_error _ h in
    let (m, applied, h2) = >>=-eq-pass (apply_pending S pending tip_state) _ h1 in
    let (r, one, h3) = >>=-eq-pass (apply_transaction S t m m.next_height) _ h2 in
    let e : pending' ≡ pending ++ t ∷ [] = cc in
    (wallet, e, r.0, rw e (apply_pending-snoc S pending t tip_state m applied one))
