-- ===== src/Ledger/Database.antt =====
-- The interface of the Prisma client, over the tables of tools/prisma/schema.prisma: a service
-- outside the repository, so its queries and writes are fields of a record, over a state that
-- only they read. A query and a write see the same state whether they go by the client or by a
-- transaction. Lost connections and foreign keys are not modelled; a write that meets a missing
-- row or a unique column is made only after the model has looked (Ledger.Services).
pub mod Laws
use backend_showcase.Prelude.{ℕ, String, Bool, Option, List}
use backend_showcase.Ledger.Account.{Account}
use backend_showcase.Ledger.Entry.{Entry, EntryMeta, EntryType}

-- the data of `account.create`
pub record CreateAccount : Type 0 where
  pub name : String
  pub full_name : String
  pub parent_id : Option String
  pub is_credit_plus : Bool

-- a row of `Balance`, with the account where the query includes it
pub record BalanceRow (D : Type 0) : Type 0 where
  pub id : String
  pub amount : D
  pub account_id : String
  pub account : Option Account

-- the data of `entry.createMany`
pub record EntryRow (D : Type 0) : Type 0 where
  pub amount : D
  pub is_credit : Bool
  pub account_id : String
  pub details : String
  pub type : EntryType
  pub journal_id : Option String
  pub meta : EntryMeta D
  pub is_read : Bool

-- what the books are made of: the columns of an entry that are never updated
pub record Posting (D : Type 0) : Type 0 where
  pub is_credit : Bool
  pub amount : D
  pub account_id : String
  pub journal_id : Option String

abbrev pub posting : {D : Type 0} → EntryRow D → Posting D
posting row = record {
  is_credit = row.is_credit;
  amount = row.amount;
  account_id = row.account_id;
  journal_id = row.journal_id;
}

pub record Database (S D : Type 0) : Type 0 where
  -- `account.findFirst`, by full name and by id
  pub account_find_first : String → S → Option Account
  pub account_find_by_id : String → S → Option Account
  pub account_create : CreateAccount → S → Account × S
  -- `balance.findFirst` by account id, with the account
  pub balance_find_first : String → S → Option (BalanceRow D)
  pub balance_create : String → D → S → S
  -- `balance.update` of the row with this account id, to an amount and by an increment
  pub balance_update : String → D → S → S
  pub balance_increment : String → D → S → S
  -- `balanceHistory.create`: account id, amount, journal id
  pub history_create : String → D → Option String → S → S
  -- `journal.create` gives the new id
  pub journal_create : String → S → String × S
  pub entry_create_many : List (EntryRow D) → S → S
  -- `entry.findMany`: the unread entries of the accounts whose full name starts with one of these
  pub entry_find_unread : List String → ℕ → S → List (Entry D)
  pub entry_mark_read : List String → S → S
  -- the rows of `Entry`, in the order of their creation
  pub postings : S → List (Posting D)
