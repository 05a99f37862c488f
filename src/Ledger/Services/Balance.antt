-- ===== src/Ledger/Services/Balance.antt =====
-- libs/ledger-package/src/internal-services/balance.service.ts and entities/balance.entity.ts: the
-- balances of the accounts. The times of creation are left out.
use backend_showcase.Prelude.{String, Option, none, some, if◌then◌else◌, str_eq}
use backend_showcase.Decimal.{Decimal}
use backend_showcase.Ledger.Result.{
  account_not_provided, record_not_found, unique_constraint, null_dereference, Result, ok, err,
}
use backend_showcase.Ledger.Action.{Action, lift, query, write, ◌>>=◌, ◌>>◌}
use backend_showcase.Ledger.Account.{Account, new_account}
use backend_showcase.Ledger.Database.{Database, BalanceRow}
use backend_showcase.Ledger.Journal.{Journal}

-- `LedgerBalanceEntityProps`
pub record Balance (D : Type 0) : Type 0 where
  pub id : Option String
  pub amount : D
  pub account_id : String
  pub account : Option Account

-- `AccountService.mapOrmEntityToDomainEntity`
unfoldable pub map_account : Option Account → Result (Option Account)
map_account none = ok none
map_account (some row) = elim (new_account row) [ ok account ↦ ok (some account) | err e ↦ err e ]

abbrev pub journal_id_of : {D : Type 0} → Option (Journal D) → Option String
journal_id_of none = none
journal_id_of (some journal) = journal.id

module _ {D : Type 0} where
  -- The constructor.
  unfoldable pub new_balance : Balance D → Result (Balance D)
  new_balance props = if str_eq props.account_id "" then err account_not_provided else ok props

  -- `new LedgerBalanceEntity` of a row, once its account is known.
  unfoldable pub balance_of_row : BalanceRow D → Result (Option Account) → Result (Balance D)
  balance_of_row row (err e) = err e
  balance_of_row row (ok account) = new_balance (record {
    id = some row.id;
    amount = row.amount;
    account_id = row.account_id;
    account = account;
  })

module _ {D : Type 0} ⦃dec : Decimal D⦄ where
  -- `mapOrmEntityToDomainEntity` of a row that may be missing, with an account that may be given.
  unfoldable pub map_balance : Option (BalanceRow D) → Option Account → Result (Balance D)
  map_balance none none = err null_dereference
  map_balance none (some account) =
      new_balance (record {
        id = none;
        amount = dec.from_ℕ 0;
        account_id = account.id;
        account = some account;
      })
  map_balance (some row) none = balance_of_row row (map_account row.account)
  map_balance (some row) (some account) = balance_of_row row (ok (some account))

  -- `copy`: the amount goes through a double
  unfoldable pub copy : Balance D → Result (Balance D)
  copy balance = new_balance (record balance { amount = dec.to_number balance.amount })

  -- `add` and `sub`
  unfoldable pub add_amount : D → Balance D → Balance D
  add_amount amount balance = record balance { amount = dec.add balance.amount amount }

  unfoldable pub sub_amount : D → Balance D → Balance D
  sub_amount amount balance = record balance { amount = dec.sub balance.amount amount }

module _ {S D : Type 0} ⦃dec : Decimal D⦄ (db : Database S D) where
  -- `AccountService.findAccountById`
  unfoldable pub find_account_by_id : String → Action S (Option Account)
  find_account_by_id id = do lift (map_account (← query (db.account_find_by_id id)))

  unfoldable pub account_or_find : String → Option Account → Action S (Option Account)
  account_or_find id none = find_account_by_id id
  account_or_find id (some account) = lift (map_account (some account))

  -- the account of a row that was found, or the account with this id
  unfoldable pub account_of : String → Option (BalanceRow D) → Action S (Option Account)
  account_of id none = find_account_by_id id
  account_of id (some row) = account_or_find id row.account

  unfoldable pub find_balance_by_account_id : String → Action S (Balance D)
  find_balance_by_account_id id = do
    row ← query (db.balance_find_first id)
    account ← account_of id row
    lift (map_balance row account)

  -- the row that a write needs, or Prisma's exception
  unfoldable pub existing_row : String → Action S (BalanceRow D)
  existing_row id s = elim (db.balance_find_first id s) [
    | none ↦ (err record_not_found, s)
    | some row ↦ (ok row, s)
  ]

  unfoldable pub no_row : String → Action S (Unit {0})
  no_row id s = elim (db.balance_find_first id s) [
    | none ↦ (ok tt, s)
    | some row ↦ (err unique_constraint, s)
  ]

  unfoldable pub create_balance : String → Option (Journal D) → Action S (Unit {0})
  create_balance account_id journal = do
    no_row account_id
    write (λ s. (tt, db.balance_create account_id (dec.from_ℕ 0) s))
    write (λ s. (tt, db.history_create account_id (dec.from_ℕ 0) (journal_id_of journal) s))

  -- The two writes of the `Promise.all`, in its order; the row comes back without its account.
  unfoldable pub update_balance : Balance D → Option (Journal D) → Action S (Balance D)
  update_balance balance journal = do
    row ← existing_row balance.account_id
    write (λ s. (tt, db.balance_update balance.account_id balance.amount s))
    write (λ s. (tt, db.history_create balance.account_id balance.amount (journal_id_of journal) s))
    lift (map_balance (some (record row { amount = balance.amount; account = none })) none)

  unfoldable pub update_balance_by_account_id :
      String → D → Option (Journal D) → Action S (Balance D)
  update_balance_by_account_id account_id amount journal = do
    existing_row account_id
    write (λ s. (tt, db.balance_increment account_id amount s))
    updated ← existing_row account_id
    write (λ s. (tt, db.history_create updated.account_id updated.amount (journal_id_of journal) s))
    lift (map_balance (some (record updated { account = none })) none)
