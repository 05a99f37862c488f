-- ===== src/Ledger/Books/Services.antt =====
-- The services keep the books: only `save` adds entries, and only those of a balanced journal.
use backend_showcase.Prelude.{ℕ, String, Option, none, some, List, arith}
use backend_showcase.Decimal.{Decimal}
use backend_showcase.Ledger.Action.{Action, write}
use backend_showcase.Ledger.Action.Keeps.{Keeps, Keeps-write, keeps_rules}
use backend_showcase.Ledger.Account.{Account}
use backend_showcase.Ledger.Journal.{Journal}
use backend_showcase.Ledger.Database.{Database, BalanceRow, CreateAccount, Posting}
use backend_showcase.Ledger.Database.Laws.{IsAppendOnly}
use backend_showcase.Ledger.Services.Balance.{
  Balance, find_account_by_id, find_balance_by_account_id, existing_row, no_row, account_of,
  account_or_find, create_balance, update_balance, update_balance_by_account_id,
}
use backend_showcase.Ledger.Services.Account.{
  found_parent, or_create, find_account, create_row, create_account, parent_of, create_missing,
  find_or_create_account,
}
use backend_showcase.Ledger.Services.Entry.{mark_entries_as_read, find_unread_entries}

-- Every service but `save` leaves the rows of `Entry` alone, so it keeps what holds of them.
module _ {S D : Type 0} ⦃dec : Decimal D⦄ (db : Database S D) (log : IsAppendOnly db)
    (P : List (Posting D) → Type 0) where
  abbrev pub KeepsRows : {A : Type 0} → Action S A → Type 0
  KeepsRows m = Keeps (λ s. P (db.postings s)) m

  create_balance_row-KeepsRows :
      (id : String) (x : D) → KeepsRows (write (λ s. (tt, db.balance_create id x s)))
  create_balance_row-KeepsRows id x =
      Keeps-write _ (λ s h. rw (log.postings-balance_create id x s) h)

  update_row-KeepsRows :
      (id : String) (x : D) → KeepsRows (write (λ s. (tt, db.balance_update id x s)))
  update_row-KeepsRows id x = Keeps-write _ (λ s h. rw (log.postings-balance_update id x s) h)

  increment_row-KeepsRows :
      (id : String) (x : D) → KeepsRows (write (λ s. (tt, db.balance_increment id x s)))
  increment_row-KeepsRows id x = Keeps-write _ (λ s h. rw (log.postings-balance_increment id x s) h)

  history_row-KeepsRows :
      (id : String) (x : D) (j : Option String)
      → KeepsRows (write (λ s. (tt, db.history_create id x j s)))
  history_row-KeepsRows id x j = Keeps-write _ (λ s h. rw (log.postings-history_create id x j s) h)

  journal_row-KeepsRows : (name : String) → KeepsRows (write (db.journal_create name))
  journal_row-KeepsRows name = Keeps-write _ (λ s h. rw (log.postings-journal_create name s) h)

  pub mark_entries_as_read-KeepsRows : (ids : List String) → KeepsRows (mark_entries_as_read db ids)
  unfolding mark_entries_as_read
  mark_entries_as_read-KeepsRows ids =
      Keeps-write _ (λ s h. rw (log.postings-entry_mark_read ids s) h)

  existing_row-KeepsRows : (id : String) → KeepsRows (existing_row db id)
  unfolding existing_row
  existing_row-KeepsRows id = record { after = λ s h. ground arith }

  ruleset row_rules = (
    keeps_rules, create_balance_row-KeepsRows, update_row-KeepsRows, increment_row-KeepsRows,
    history_row-KeepsRows, journal_row-KeepsRows, existing_row-KeepsRows,
  )

  pub find_account_by_id-KeepsRows : (id : String) → KeepsRows (find_account_by_id db id)
  unfolding find_account_by_id
  find_account_by_id-KeepsRows id = search row_rules

  pub update_balance-KeepsRows :
      (b : Balance D) (j : Option (Journal D)) → KeepsRows (update_balance db b j)
  unfolding update_balance
  update_balance-KeepsRows b j = search row_rules

  pub update_balance_by_account_id-KeepsRows :
      (id : String) (x : D) (j : Option (Journal D))
      → KeepsRows (update_balance_by_account_id db id x j)
  unfolding update_balance_by_account_id
  update_balance_by_account_id-KeepsRows id x j = search row_rules depth 9

  pub account_or_find-KeepsRows :
      (id : String) (a : Option Account) → KeepsRows (account_or_find db id a)
  unfolding account_or_find
  account_or_find-KeepsRows id none = find_account_by_id-KeepsRows id
  account_or_find-KeepsRows id (some account) = search row_rules

  pub account_of-KeepsRows :
      (id : String) (row : Option (BalanceRow D)) → KeepsRows (account_of db id row)
  unfolding account_of
  account_of-KeepsRows id none = find_account_by_id-KeepsRows id
  account_of-KeepsRows id (some row) = account_or_find-KeepsRows id row.account

  pub find_balance_by_account_id-KeepsRows :
      (id : String) → KeepsRows (find_balance_by_account_id db id)
  unfolding find_balance_by_account_id
  find_balance_by_account_id-KeepsRows id = search (row_rules, account_of-KeepsRows)

  no_row-KeepsRows : (id : String) → KeepsRows (no_row db id)
  unfolding no_row
  no_row-KeepsRows id = record { after = λ s h. ground arith }

  pub create_balance-KeepsRows :
      (id : String) (j : Option (Journal D)) → KeepsRows (create_balance db id j)
  unfolding create_balance
  create_balance-KeepsRows id j = search (row_rules, no_row-KeepsRows)

  pub find_account-KeepsRows : (name : String) → KeepsRows (find_account db name)
  unfolding find_account
  find_account-KeepsRows name = search row_rules

  create_row-KeepsRows : (p : CreateAccount) → KeepsRows (create_row db p)
  unfolding create_row
  create_row-KeepsRows p = record { after = λ s h. ground (arith, log.postings-account_create p s) }

  create_account-KeepsRows : (p : CreateAccount) → KeepsRows (create_account db p)
  unfolding create_account
  create_account-KeepsRows p = search (row_rules, create_row-KeepsRows, create_balance-KeepsRows)

  found_parent-KeepsRows : (name : String) (a : Option Account) → KeepsRows (found_parent db name a)
  unfolding found_parent
  found_parent-KeepsRows name none = search row_rules
  found_parent-KeepsRows name (some parent) = search row_rules

  parent_of-KeepsRows : (path : List String) → KeepsRows (parent_of db path)
  unfolding parent_of
  parent_of-KeepsRows path = search (row_rules, find_account-KeepsRows, found_parent-KeepsRows)

  create_missing-KeepsRows : (name : String) → KeepsRows (create_missing db name)
  unfolding create_missing
  create_missing-KeepsRows name = search (row_rules, parent_of-KeepsRows, create_account-KeepsRows)

  or_create-KeepsRows : (name : String) (a : Option Account) → KeepsRows (or_create db name a)
  unfolding or_create
  or_create-KeepsRows name none = create_missing-KeepsRows name
  or_create-KeepsRows name (some account) = search row_rules

  pub find_or_create_account-KeepsRows :
      (name : String) → KeepsRows (find_or_create_account db name)
  unfolding find_or_create_account
  find_or_create_account-KeepsRows name =
      search (row_rules, find_account-KeepsRows, or_create-KeepsRows)

  pub find_unread_entries-KeepsRows :
      (names : List String) (take : ℕ) → KeepsRows (find_unread_entries db names take)
  unfolding find_unread_entries
  find_unread_entries-KeepsRows names take = search row_rules
