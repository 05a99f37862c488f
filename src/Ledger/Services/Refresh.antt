-- ===== src/Ledger/Services/Refresh.antt =====
-- `BalanceService.refreshBalances`: the unread entries are booked on the balances of their accounts.
use backend_showcase.Prelude.{
  String, Option, none, some, List, [], ◌∷◌, map, or_else, if◌then◌else◌, str_eq,
}
use backend_showcase.Decimal.{Decimal}
use backend_showcase.Ledger.Result.{null_dereference, Result, ok, err}
use backend_showcase.Ledger.Action.{Action, pure, lift, in_transaction, ◌>>=◌, ◌>>◌}
use backend_showcase.Ledger.Names.{resolve_account_name, liabilities, user_balance}
use backend_showcase.Ledger.Entry.{Entry}
use backend_showcase.Ledger.Journal.{Journal}
use backend_showcase.Ledger.Database.{Database}
use backend_showcase.Ledger.Services.Balance.{
  Balance, copy, add_amount, sub_amount, find_balance_by_account_id, update_balance,
}
use backend_showcase.Ledger.Services.Entry.{find_unread_entries, mark_entries_as_read}

-- `Map<string, LedgerBalanceEntity>`, in the order of insertion
abbrev pub Balances : Type 0 → Type 0
Balances D = List (String × Balance D)

module _ {D : Type 0} where
  unfoldable pub get : String → Balances D → Option (Balance D)
  get k [] = none
  get k ((j, b) ∷ m) = if str_eq j k then some b else get k m

  -- `set`, and the change of an entry in place
  unfoldable pub put : String → Balance D → Balances D → Balances D
  put k b [] = (k, b) ∷ []
  put k b ((j, c) ∷ m) = if str_eq j k then (k, b) ∷ m else (j, c) ∷ put k b m

module _ {D : Type 0} ⦃dec : Decimal D⦄ where
  -- A credit adds to an account whose credits count up, and takes from any other; a debit the
  -- other way round.
  unfoldable pub apply_entry : Entry D → Balance D → Result (Balance D)
  apply_entry entry balance = elim balance.account [
    | none ↦ err null_dereference
    | some account ↦ ok (
        if entry.is_credit
        then if account.is_credit_plus
          then add_amount entry.amount balance
          else sub_amount entry.amount balance
        else if account.is_credit_plus
        then sub_amount entry.amount balance
        else add_amount entry.amount balance)
  ]

  abbrev pub journal_of_entry : Entry D → Journal D
  journal_of_entry entry = record { id = entry.journal_id; name = ""; entries = [] }

module _ {S D : Type 0} ⦃dec : Decimal D⦄ (db : Database S D) where
  unfoldable pub current_balance : String → Option (Balance D) → Action S (Balance D)
  current_balance id none = find_balance_by_account_id db id
  current_balance id (some balance) = pure balance

  -- The loop over the unread entries. A balance is read once and then kept in the map; what is
  -- written after each entry is a copy of it.
  unfoldable pub refresh_entries : List (Entry D) → Balances D → Action S (Balances D)
  refresh_entries [] balances = pure balances
  refresh_entries (entry ∷ entries) balances = do
    last ← current_balance entry.account_id (get entry.account_id balances)
    current ← lift (apply_entry entry last)
    copied ← lift (copy current)
    update_balance db copied (some (journal_of_entry entry))
    refresh_entries entries (put entry.account_id current balances)

  -- the callback of the transaction
  unfoldable pub refresh_unread : List (Entry D) → Action S (Balances D)
  refresh_unread entries = do
    balances ← refresh_entries entries []
    mark_entries_as_read db (map (λ (e : Entry D). or_else e.id "") entries)
    pure balances

  -- The result of the query: its exception is caught and no balance was refreshed, and that of the
  -- transaction is not, since the transaction is returned without `await`.
  unfoldable pub refresh_found : Result (List (Entry D)) → Action S (Balances D)
  refresh_found (err e) = pure []
  refresh_found (ok []) = pure []
  refresh_found (ok (entry ∷ entries)) = in_transaction (refresh_unread (entry ∷ entries))

  unfoldable pub refresh_balances : Action S (Balances D)
  refresh_balances s =
      let (found, s') =
        find_unread_entries db (resolve_account_name (liabilities ∷ user_balance ∷ []) ∷ []) 100
          s in
      refresh_found found s'
