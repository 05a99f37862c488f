-- ===== src/Ledger/Services/Facts.antt =====
-- What the services do where the rows that they look for are there.
use backend_showcase.Prelude.{String, false, Option, none, some, ◌≡◌, arith, if◌then◌else◌, str_eq}
use mathlib.Core.Option
use backend_showcase.Decimal.{Decimal}
use backend_showcase.Ledger.Result.{ok}
use backend_showcase.Ledger.Action.{◌>>=◌}
use backend_showcase.Ledger.Account.{Account, validate, new_account}
use backend_showcase.Ledger.Journal.{Journal}
use backend_showcase.Ledger.Database.{Database, BalanceRow}
use backend_showcase.Ledger.Database.Laws.{KeepsBalances, with_amount}
use backend_showcase.Ledger.Services.Balance.{
  Balance, map_account, map_balance, balance_of_row, new_balance, account_of, account_or_find,
  find_balance_by_account_id, existing_row, update_balance, journal_id_of,
}
use backend_showcase.Ledger.Services.Account.{find_account, or_create, find_or_create_account}

-- An account that is in the table under this name, as its constructor accepts it.
pub record HasAccount {S D : Type 0} (db : Database S D) (name : String) (account : Account) (s : S)
    : Type 0 where
  pub found : db.account_find_first name s ≡ some account
  pub is_valid : validate account ≡ ok tt
  pub has_id : str_eq account.id "" ≡ false

-- The balance row of an account.
pub record HasRow {S D : Type 0} (db : Database S D) (account : Account) (row : BalanceRow D)
    (s : S) : Type 0 where
  pub row_found : db.balance_find_first account.id s ≡ some row
  pub row_account : row.account ≡ some account
  pub row_account_id : row.account_id ≡ account.id

-- the entity of a row, with its account
abbrev pub balance_of_account : {D : Type 0} → BalanceRow D → Account → Balance D
balance_of_account row account = record {
  id = some row.id;
  amount = row.amount;
  account_id = row.account_id;
  account = some account;
}

-- The entity that `updateBalance` returns, and the state it leaves.
abbrev pub updated_balance : {D : Type 0} → BalanceRow D → D → Balance D
updated_balance row amount = record {
  id = some row.id;
  amount = amount;
  account_id = row.account_id;
  account = none;
}

abbrev pub updated_state :
    {S D : Type 0} (db : Database S D) → String → D → Option (Journal D) → S → S
updated_state db id amount journal s =
    db.history_create id amount (journal_id_of journal) (db.balance_update id amount s)

map_account_of_valid :
    (account : Account) → validate account ≡ ok tt → map_account (some account) ≡ ok (some account)
unfolding map_account new_account
map_account_of_valid account h = rw (h, map_account, new_account)

module _ {S D : Type 0} ⦃dec : Decimal D⦄ (db : Database S D) where
  find_account_of_existing :
      (name : String) (account : Account) (s : S)
      → HasAccount db name account s
      → find_account db name s ≡ (ok (some account), s)
  unfolding find_account ◌>>=◌
  find_account_of_existing name account s h = rw (h.found, map_account_of_valid account h.is_valid)

  pub find_or_create_of_existing :
      (name : String) (account : Account) (s : S)
      → HasAccount db name account s
      → find_or_create_account db name s ≡ (ok account, s)
  unfolding find_or_create_account or_create ◌>>=◌
  find_or_create_of_existing name account s h = rw (find_account_of_existing name account s h)

  account_of_row :
      (name : String) (account : Account) (row : BalanceRow D) (s : S)
      → HasAccount db name account s
      → row.account ≡ some account
      → account_of db account.id (some row) s ≡ (ok (some account), s)
  unfolding account_of account_or_find ◌>>=◌
  account_of_row name account row s h e =
      rw (e, account_or_find, map_account_of_valid account h.is_valid)

  map_row :
      (account : Account) (row : BalanceRow D)
      → str_eq account.id "" ≡ false
      → row.account_id ≡ account.id
      → map_balance (some row) (some account) ≡ ok (balance_of_account row account)
  unfolding map_balance balance_of_row new_balance
  map_row account row h e = ground arith

  pub find_balance_of_row :
      (name : String) (account : Account) (row : BalanceRow D) (s : S)
      → HasAccount db name account s
      → HasRow db account row s
      → find_balance_by_account_id db account.id s ≡ (ok (balance_of_account row account), s)
  unfolding find_balance_by_account_id ◌>>=◌
  find_balance_of_row name account row s h r = rw (
    r.row_found,
    account_of_row name account row s h r.row_account,
    map_row account row h.has_id r.row_account_id,
  )

  map_updated :
      (row : BalanceRow D) (amount : D)
      → str_eq row.account_id "" ≡ false
      → map_balance (some (record row { amount = amount; account = none })) none
        ≡ ok (updated_balance row amount)
  unfolding map_balance map_account balance_of_row new_balance
  map_updated row amount h = ground arith

  existing_row_of_row :
      (id : String) (row : BalanceRow D) (s : S)
      → db.balance_find_first id s ≡ some row
      → existing_row db id s ≡ (ok row, s)
  unfolding existing_row
  existing_row_of_row id row s e = rw (e, existing_row)

  pub update_balance_of_row :
      (b : Balance D) (journal : Option (Journal D)) (row : BalanceRow D) (s : S)
      → db.balance_find_first b.account_id s ≡ some row
      → str_eq row.account_id "" ≡ false
      → update_balance db b journal s
        ≡ (ok (updated_balance row b.amount), updated_state db b.account_id b.amount journal s)
  unfolding update_balance ◌>>=◌
  update_balance_of_row b journal row s e h =
      rw (existing_row_of_row b.account_id row s e, map_updated row b.amount h)

module _ {S D : Type 0} (db : Database S D) (frame : KeepsBalances db) where
  pub balance-updated_state :
      (k id : String) (amount : D) (journal : Option (Journal D)) (s : S)
      → db.balance_find_first k (updated_state db id amount journal s) ≡ (
          if str_eq k id
          then Option.map (with_amount amount) (db.balance_find_first k s)
          else db.balance_find_first k s)
  balance-updated_state k id amount journal s =
      rw (frame.balance-history_create, frame.balance-balance_update)
