-- ===== src/Ledger/Balanced/Withdrawal.antt =====
-- A withdrawal is never refused for a journal that does not balance, whether the network fee came out
-- lower or higher than the one that was held.
use backend_showcase.Prelude.{◌≡◌, ◌∙◌, Bool, true, false, if◌then◌else◌}
use backend_showcase.Prelude.Int.{pos, ◌+ℤ◌, int_laws}
use backend_showcase.Decimal.{Decimal}
use backend_showcase.Decimal.Exact.{IsExact, units}
use backend_showcase.Ledger.Action.Quiet.{Quiet, Ensures, Quiet-bind, Quiet-knowing}
use backend_showcase.Ledger.Account.{Account}
use backend_showcase.Ledger.Journal.{Journal}
use backend_showcase.Ledger.Journal.Net.{net}
use backend_showcase.Ledger.Database.{Database}
use backend_showcase.Ledger.Services.Balance.{Balance}
use backend_showcase.Ledger.Services.Quiet.{
  find_or_create_account-Quiet, find_balance-Quiet, update_balance-Quiet,
}
use backend_showcase.Ledger.Balanced.{Quiet-journal, save-Quiet, add_on-Ensures}
use backend_showcase.Ledger.Balanced.Entries.{
  withdraw_entries-Ensures, IsLeft, give_back_rest-Ensures, pay_difference-Ensures,
}
use backend_showcase.Ledger.Payments.{
  PaymentOrder, PaymentTransaction, give_back_rest, pay_difference, withdraw_amount,
}

module _ {S D : Type 0} ⦃dec : Decimal D⦄ ⦃exact : IsExact dec⦄ (db : Database S D) where
  difference-Ensures :
      (lower : Bool) (held amount : D) (o : PaymentOrder) (u : PaymentTransaction D) (a : Account)
      (b : Balance D) (j : Journal D)
      → net j.entries ≡ units held
      → Ensures (IsLeft db amount) (
          if lower
          then give_back_rest db (dec.sub held amount) a b j
          else pay_difference db (dec.sub amount held) o u b j)
  difference-Ensures true held amount o u a b j h = give_back_rest-Ensures db held amount a b j h
  difference-Ensures false held amount o u a b j h = pay_difference-Ensures db held amount o u b j h

  pub withdraw_amount-Quiet :
      (o : PaymentOrder) (t u : PaymentTransaction D) → Quiet (withdraw_amount db o t u)
  unfolding withdraw_amount
  withdraw_amount-Quiet o t u =
      let held = dec.add t.original_amount t.network_fee in
      let amount = dec.add t.original_amount u.network_fee in
      Quiet-bind _ _ (find_or_create_account-Quiet db _) (λ user.
        Quiet-bind _ _ (find_or_create_account-Quiet db _) (λ fees.
          Quiet-bind _ _ (find_or_create_account-Quiet db _) (λ usd.
            Quiet-bind _ _ (find_or_create_account-Quiet db _) (λ hold.
              Quiet-bind _ _ (find_balance-Quiet db _) (λ b.
                Quiet-knowing (λ (j : Journal D). net j.entries ≡ pos 0 +ℤ units held) _ _
                  (add_on-Ensures hold held false true _ _ _)
                  (λ j h.
                    Quiet-knowing (IsLeft db amount) _ _
                      (difference-Ensures _ held amount o u user b j (h ∙ omega int_laws))
                      (λ p left.
                        Quiet-journal _ _ (withdraw_entries-Ensures o t u usd fees p.1 left)
                          (λ k even.
                            Quiet-bind _ _ (save-Quiet db k even)
                              (λ saved. update_balance-Quiet db _ _)))))))))
