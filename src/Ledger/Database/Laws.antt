-- ===== src/Ledger/Database/Laws.antt =====
-- What the code relies on of Prisma: a write changes its own table, and there only the row that
-- it names.
use backend_showcase.Prelude.{String, Option, List, ◌++◌, map, ◌≡◌, if◌then◌else◌, str_eq}
use mathlib.Core.Option
use backend_showcase.Ledger.Database.{Database, CreateAccount, BalanceRow, EntryRow, posting}

abbrev pub with_amount : {D : Type 0} → D → BalanceRow D → BalanceRow D
with_amount amount row = record row { amount = amount }

-- The rows of `Entry` are only ever added, by `createMany`.
pub record IsAppendOnly {S D : Type 0} (db : Database S D) : Type 0 where
  pub postings-account_create :
      (p : CreateAccount) (s : S) → db.postings (db.account_create p s).1 ≡ db.postings s
  pub postings-balance_create :
      (id : String) (x : D) (s : S) → db.postings (db.balance_create id x s) ≡ db.postings s
  pub postings-balance_update :
      (id : String) (x : D) (s : S) → db.postings (db.balance_update id x s) ≡ db.postings s
  pub postings-balance_increment :
      (id : String) (x : D) (s : S) → db.postings (db.balance_increment id x s) ≡ db.postings s
  pub postings-history_create :
      (id : String) (x : D) (j : Option String) (s : S)
      → db.postings (db.history_create id x j s) ≡ db.postings s
  pub postings-journal_create :
      (name : String) (s : S) → db.postings (db.journal_create name s).1 ≡ db.postings s
  pub postings-entry_mark_read :
      (ids : List String) (s : S) → db.postings (db.entry_mark_read ids s) ≡ db.postings s
  pub postings-entry_create_many :
      (rows : List (EntryRow D)) (s : S)
      → db.postings (db.entry_create_many rows s) ≡ db.postings s ++ map posting rows

-- A balance changes only by a write of the table `Balance` to the row of its account.
pub record KeepsBalances {S D : Type 0} (db : Database S D) : Type 0 where
  pub balance-history_create :
      (k id : String) (x : D) (j : Option String) (s : S)
      → db.balance_find_first k (db.history_create id x j s) ≡ db.balance_find_first k s
  pub balance-journal_create :
      (k name : String) (s : S)
      → db.balance_find_first k (db.journal_create name s).1 ≡ db.balance_find_first k s
  pub balance-entry_create_many :
      (k : String) (rows : List (EntryRow D)) (s : S)
      → db.balance_find_first k (db.entry_create_many rows s) ≡ db.balance_find_first k s
  pub balance-entry_mark_read :
      (k : String) (ids : List String) (s : S)
      → db.balance_find_first k (db.entry_mark_read ids s) ≡ db.balance_find_first k s
  pub balance-balance_update :
      (k id : String) (x : D) (s : S)
      → db.balance_find_first k (db.balance_update id x s) ≡ (
          if str_eq k id
          then Option.map (with_amount x) (db.balance_find_first k s)
          else db.balance_find_first k s)
