-- ===== src/Ledger/Services/Quiet.antt =====
-- No service but `save` refuses anything for a journal that does not balance.
use backend_showcase.Prelude.{refl, String, Option, none, some, List, arith}
use backend_showcase.Decimal.{Decimal}
use backend_showcase.Ledger.Result.{Result, ok, err}
use backend_showcase.Ledger.Action.Quiet.{Quiet, IsQuiet, Quiet-throw, Quiet-lift, quiet_rules}
use backend_showcase.Ledger.Account.{Account, validate, new_account}
use backend_showcase.Ledger.Entry.{Entry, new_entry}
use backend_showcase.Ledger.Journal.{Journal}
use backend_showcase.Ledger.Database.{Database, BalanceRow, CreateAccount}
use backend_showcase.Ledger.Services.Balance.{
  Balance, map_account, new_balance, balance_of_row, map_balance, copy, find_account_by_id,
  find_balance_by_account_id, existing_row, no_row, account_of, account_or_find, create_balance,
  update_balance, update_balance_by_account_id,
}
use backend_showcase.Ledger.Services.Account.{
  found_parent, or_create, find_account, create_row, create_account, parent_of, create_missing,
  find_or_create_account,
}

validate-IsQuiet : (a : Account) → IsQuiet (validate a)
unfolding validate
validate-IsQuiet a = ground arith

module _ {A B : Type 0} where
  pub chain-IsQuiet :
      (r : Result A) (f : A → Result B)
      → IsQuiet r
      → ((a : A) → IsQuiet (f a))
      → IsQuiet (elim r [ ok a ↦ f a | err e ↦ err e ])
  chain-IsQuiet (ok a) f h kf = kf a
  chain-IsQuiet (err e) f h kf = h

pub new_account-IsQuiet : (a : Account) → IsQuiet (new_account a)
unfolding new_account
new_account-IsQuiet a = chain-IsQuiet (validate a) (λ _. ok a) (validate-IsQuiet a) (λ _. tt)

map_account-IsQuiet : (row : Option Account) → IsQuiet (map_account row)
unfolding map_account
map_account-IsQuiet none = tt
map_account-IsQuiet (some row) =
    chain-IsQuiet (new_account row) (λ a. ok (some a)) (new_account-IsQuiet row) (λ _. tt)

module _ {D : Type 0} where
  new_balance-IsQuiet : (b : Balance D) → IsQuiet (new_balance b)
  unfolding new_balance
  new_balance-IsQuiet b = ground arith

  balance_of_row-IsQuiet :
      (row : BalanceRow D) (r : Result (Option Account))
      → IsQuiet r
      → IsQuiet (balance_of_row row r)
  unfolding balance_of_row
  balance_of_row-IsQuiet row (err e) h = h
  balance_of_row-IsQuiet row (ok account) h = new_balance-IsQuiet _

module _ {D : Type 0} ⦃dec : Decimal D⦄ where
  map_balance-IsQuiet :
      (row : Option (BalanceRow D)) (a : Option Account) → IsQuiet (map_balance row a)
  unfolding map_balance
  map_balance-IsQuiet none none = refl
  map_balance-IsQuiet none (some account) = new_balance-IsQuiet _
  map_balance-IsQuiet (some row) none =
      balance_of_row-IsQuiet row (map_account row.account) (map_account-IsQuiet row.account)
  map_balance-IsQuiet (some row) (some account) = balance_of_row-IsQuiet row (ok (some account)) tt

  pub copy-IsQuiet : (b : Balance D) → IsQuiet (copy b)
  unfolding copy
  copy-IsQuiet b = new_balance-IsQuiet _

  pub new_entry-IsQuiet : (e : Entry D) → IsQuiet (new_entry e)
  unfolding new_entry
  new_entry-IsQuiet e = ground arith

module _ {S D : Type 0} ⦃dec : Decimal D⦄ (db : Database S D) where
  existing_row-Quiet : (id : String) → Quiet (existing_row db id)
  unfolding existing_row
  existing_row-Quiet id = record { never = λ s. ground arith }

  no_row-Quiet : (id : String) → Quiet (no_row db id)
  unfolding no_row
  no_row-Quiet id = record { never = λ s. ground arith }

  create_row-Quiet : (p : CreateAccount) → Quiet (create_row db p)
  unfolding create_row
  create_row-Quiet p = record { never = λ s. ground arith }

  ruleset row_rules = (
    quiet_rules, Quiet-lift, map_account-IsQuiet, map_balance-IsQuiet, copy-IsQuiet,
    new_account-IsQuiet, existing_row-Quiet, no_row-Quiet, create_row-Quiet,
  )

  find_account_by_id-Quiet : (id : String) → Quiet (find_account_by_id db id)
  unfolding find_account_by_id
  find_account_by_id-Quiet id = search row_rules

  pub update_balance-Quiet :
      (b : Balance D) (j : Option (Journal D)) → Quiet (update_balance db b j)
  unfolding update_balance
  update_balance-Quiet b j = search row_rules depth 9

  pub update_balance_by_account_id-Quiet :
      (id : String) (x : D) (j : Option (Journal D))
      → Quiet (update_balance_by_account_id db id x j)
  unfolding update_balance_by_account_id
  update_balance_by_account_id-Quiet id x j = search row_rules depth 9

  account_or_find-Quiet : (id : String) (a : Option Account) → Quiet (account_or_find db id a)
  unfolding account_or_find
  account_or_find-Quiet id none = find_account_by_id-Quiet id
  account_or_find-Quiet id (some account) = search row_rules

  account_of-Quiet : (id : String) (row : Option (BalanceRow D)) → Quiet (account_of db id row)
  unfolding account_of
  account_of-Quiet id none = find_account_by_id-Quiet id
  account_of-Quiet id (some row) = account_or_find-Quiet id row.account

  pub find_balance-Quiet : (id : String) → Quiet (find_balance_by_account_id db id)
  unfolding find_balance_by_account_id
  find_balance-Quiet id = search (row_rules, account_of-Quiet) depth 9

  create_balance-Quiet : (id : String) (j : Option (Journal D)) → Quiet (create_balance db id j)
  unfolding create_balance
  create_balance-Quiet id j = search row_rules

  find_account-Quiet : (name : String) → Quiet (find_account db name)
  unfolding find_account
  find_account-Quiet name = search row_rules

  create_account-Quiet : (p : CreateAccount) → Quiet (create_account db p)
  unfolding create_account
  create_account-Quiet p = search (row_rules, create_balance-Quiet)

  found_parent-Quiet : (name : String) (a : Option Account) → Quiet (found_parent db name a)
  unfolding found_parent
  found_parent-Quiet name none = Quiet-throw _ refl
  found_parent-Quiet name (some parent) = search row_rules

  parent_of-Quiet : (path : List String) → Quiet (parent_of db path)
  unfolding parent_of
  parent_of-Quiet path = search (row_rules, find_account-Quiet, found_parent-Quiet)

  create_missing-Quiet : (name : String) → Quiet (create_missing db name)
  unfolding create_missing
  create_missing-Quiet name = search (row_rules, parent_of-Quiet, create_account-Quiet)

  or_create-Quiet : (name : String) (a : Option Account) → Quiet (or_create db name a)
  unfolding or_create
  or_create-Quiet name none = create_missing-Quiet name
  or_create-Quiet name (some account) = search row_rules

  pub find_or_create_account-Quiet : (name : String) → Quiet (find_or_create_account db name)
  unfolding find_or_create_account
  find_or_create_account-Quiet name = search (row_rules, find_account-Quiet, or_create-Quiet)
