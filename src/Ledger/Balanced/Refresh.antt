-- ===== src/Ledger/Balanced/Refresh.antt =====
-- The refresh of the balances and the creation of accounts are never refused for a journal that does
-- not balance.
use backend_showcase.Prelude.{
  refl, String, Bool-cases, inl, inr, Option, none, some, List, [], ◌∷◌, arith, str_eq,
}
use backend_showcase.Decimal.{Decimal}
use backend_showcase.Ledger.Result.{Result, ok, err}
use backend_showcase.Ledger.Action.Quiet.{
  IsQuiet, Quiet, Quiet-lift, Quiet-bind, Quiet-pure, Quiet-in_transaction, quiet_rules,
}
use backend_showcase.Ledger.Entry.{Entry}
use backend_showcase.Ledger.Database.{Database}
use backend_showcase.Ledger.Services.Balance.{Balance}
use backend_showcase.Ledger.Services.Account.{create_each}
use backend_showcase.Ledger.Services.Entry.{map_entry, map_entries, mark_entries_as_read}
use backend_showcase.Ledger.Services.Refresh.{
  Balances, apply_entry, current_balance, refresh_entries, refresh_unread, refresh_found,
  refresh_balances,
}
use backend_showcase.Ledger.Services.Quiet.{
  chain-IsQuiet, copy-IsQuiet, new_entry-IsQuiet, find_or_create_account-Quiet, find_balance-Quiet,
  update_balance-Quiet,
}

module _ {D : Type 0} ⦃dec : Decimal D⦄ where
  map_entry-IsQuiet : (e : Entry D) → IsQuiet (map_entry e)
  unfolding map_entry
  map_entry-IsQuiet e = elim (Bool-cases (str_eq e.account_id "")) [
    | inl missing ↦ rw (missing, IsQuiet) refl
    | inr there ↦ rw there (new_entry-IsQuiet _)
  ]

  map_entries-IsQuiet : (es : List (Entry D)) → IsQuiet (map_entries es)
  unfolding map_entries
  map_entries-IsQuiet [] = tt
  map_entries-IsQuiet (e ∷ es) =
      chain-IsQuiet (map_entry e) _ (map_entry-IsQuiet e)
        (λ entry. chain-IsQuiet (map_entries es) _ (map_entries-IsQuiet es) (λ _. tt))

  apply_entry-IsQuiet : (e : Entry D) (b : Balance D) → IsQuiet (apply_entry e b)
  unfolding apply_entry
  apply_entry-IsQuiet e b = ground arith

module _ {S D : Type 0} ⦃dec : Decimal D⦄ (db : Database S D) where
  current_balance-Quiet : (id : String) (b : Option (Balance D)) → Quiet (current_balance db id b)
  unfolding current_balance
  current_balance-Quiet id none = find_balance-Quiet db id
  current_balance-Quiet id (some b) = Quiet-pure b

  refresh_entries-Quiet : (es : List (Entry D)) (m : Balances D) → Quiet (refresh_entries db es m)
  unfolding refresh_entries
  refresh_entries-Quiet [] m = Quiet-pure m
  refresh_entries-Quiet (e ∷ es) m = Quiet-bind _ _ (current_balance-Quiet e.account_id _) (λ last.
      Quiet-bind _ _ (Quiet-lift _ (apply_entry-IsQuiet e last)) (λ current.
        Quiet-bind _ _ (Quiet-lift _ (copy-IsQuiet current)) (λ copied.
          Quiet-bind _ _ (update_balance-Quiet db copied _) (λ _. refresh_entries-Quiet es _))))

  refresh_unread-Quiet : (es : List (Entry D)) → Quiet (refresh_unread db es)
  unfolding refresh_unread mark_entries_as_read
  refresh_unread-Quiet es = search (quiet_rules, refresh_entries-Quiet)

  refresh_found-Quiet : (r : Result (List (Entry D))) → Quiet (refresh_found db r)
  unfolding refresh_found
  refresh_found-Quiet (err e) = Quiet-pure []
  refresh_found-Quiet (ok []) = Quiet-pure []
  refresh_found-Quiet (ok (e ∷ es)) = Quiet-in_transaction _ (refresh_unread-Quiet _)

  pub refresh_balances-Quiet : Quiet (refresh_balances db)
  unfolding refresh_balances
  refresh_balances-Quiet = record { never = λ s. (refresh_found-Quiet _).never _ }

  pub create_each-Quiet : (names : List String) → Quiet (create_each db names)
  unfolding create_each
  create_each-Quiet [] = Quiet-pure tt
  create_each-Quiet (name ∷ names) =
      Quiet-bind _ _ (find_or_create_account-Quiet db name) (λ _. create_each-Quiet names)
