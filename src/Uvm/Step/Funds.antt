-- ===== src/Uvm/Step/Funds.antt =====
-- TRANSFER_FROM (core/uvm.py).
use unc_coin.Prelude.{
  ℕ, ◌*◌, String, Bool, not, ◌||◌, Option, none, List, [], ◌∷◌, ◌++◌, str_eq, if◌then◌else◌,
}
use unc_coin.Prelude.Int.{ℤ, pos, ◌-ℤ◌, ltb_ℤ}
use unc_coin.Value.{Value}
use unc_coin.Dict.{insert}
use unc_coin.Dict.Sum.{get0, bump}
use unc_coin.Authorization.{is_request_authorized}
use unc_coin.Externals.{Externals}
use unc_coin.Uvm.Machine.{
  Exec, ok, err, fault, Ledger, pure, ◌>>=◌, ◌>>◌, pop_word, not_authorized, amount_not_positive,
  balance_too_low,
}
use unc_coin.Uvm.Context.{Context, three_operands, key_operand, account_operand}

-- The writes of TRANSFER_FROM.
unfoldable pub move_funds : String → String → String → ℤ → Ledger → Ledger
unfolding insert bump
move_funds source receiver request_id amount l =
    let debited = insert source (get0 source l.balances -ℤ amount) l.balances in
    let changed = insert source (get0 source l.balance_changes -ℤ amount) l.balance_changes in
    record {
      balances = bump receiver amount debited;
      balance_changes = bump receiver amount changed;
      transfers =
          l.transfers
          ++ record {
            source = source;
            receiver = receiver;
            amount = amount;
            request_id = request_id;
          }
            ∷ [];
    }

-- `source` may spend without leave, or has given leave for this request.
unfoldable pub may_spend : Context → String → String → Bool
unfolding is_request_authorized
may_spend ctx source request_id =
    str_eq source ctx.tx_sender
    || str_eq source ctx.contract_address
    || is_request_authorized ctx.authorization_index source request_id

unfoldable pub transfer_funds : Context → String → String → String → ℤ → Exec (Unit {0})
unfolding move_funds may_spend
transfer_funds ctx source receiver request_id amount s =
    if not (ltb_ℤ (pos 0) amount)
    then (err (fault amount_not_positive), s)
    else if not (may_spend ctx source request_id)
    then (err (fault not_authorized), s)
    else if ltb_ℤ (get0 source s.ledger.balances) amount
    then (err (fault balance_too_low), s)
    else (ok tt, record s { ledger = move_funds source receiver request_id amount s.ledger })

unfoldable pub exec_transfer_from : Externals → Context → List Value → Exec (Option ℕ)
exec_transfer_from X ctx operands = do
  (first, second, third) ← three_operands operands
  source ← account_operand ctx first
  receiver ← account_operand ctx second
  request_id ← key_operand third
  value ← pop_word
  transfer_funds ctx source receiver request_id (pos (value * X.units))
  pure none
