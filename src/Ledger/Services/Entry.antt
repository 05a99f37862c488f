-- ===== src/Ledger/Services/Entry.antt =====
-- libs/ledger-package/src/internal-services/entry.service.ts: the entries of the journals.
use backend_showcase.Prelude.{false, ℕ, String, none, List, [], ◌∷◌, map, if◌then◌else◌, str_eq}
use backend_showcase.Decimal.{Decimal}
use backend_showcase.Ledger.Result.{account_not_provided, Result, ok, err}
use backend_showcase.Ledger.Action.{Action, pure, lift, query, write, ◌>>=◌, ◌>>◌}
use backend_showcase.Ledger.Entry.{Entry, new_entry}
use backend_showcase.Ledger.Database.{Database, EntryRow}

-- the data of `createMany`
abbrev pub entry_row : {D : Type 0} → Entry D → EntryRow D
entry_row entry = record {
  amount = entry.amount;
  is_credit = entry.is_credit;
  account_id = entry.account_id;
  details = entry.details;
  type = entry.type;
  journal_id = entry.journal_id;
  meta = entry.meta;
  is_read = entry.is_read;
}

module _ {D : Type 0} ⦃dec : Decimal D⦄ where
  -- `mapOrmEntityToDomainEntity` of a row, without the mark that it was read
  unfoldable pub map_entry : Entry D → Result (Entry D)
  map_entry row =
      if str_eq row.account_id ""
      then err account_not_provided
      else new_entry (record row { is_read = false; account = none })

  unfoldable pub map_entries : List (Entry D) → Result (List (Entry D))
  map_entries [] = ok []
  map_entries (row ∷ rows) = elim (map_entry row) [
    | err e ↦ err e
    | ok entry ↦ elim (map_entries rows) [ err e ↦ err e | ok entries ↦ ok (entry ∷ entries) ]
  ]

module _ {S D : Type 0} ⦃dec : Decimal D⦄ (db : Database S D) where
  unfoldable pub save_multiple : List (Entry D) → Action S (List (Entry D))
  save_multiple entries = do
    write (λ s. (tt, db.entry_create_many (map entry_row entries) s))
    pure entries

  unfoldable pub mark_entries_as_read : List String → Action S (Unit {0})
  mark_entries_as_read ids = write (λ s. (tt, db.entry_mark_read ids s))

  unfoldable pub find_unread_entries : List String → ℕ → Action S (List (Entry D))
  find_unread_entries account_whitelist take = do
    lift (map_entries (← query (db.entry_find_unread account_whitelist take)))
