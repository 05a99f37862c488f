-- ===== src/Ledger/Games/X1000.antt =====
-- `GameLedgerService.createLedgerEntriesForBTCx1000`: the journal that resolves the one bet of an
-- x1000 game against the funds of the platform.
use backend_showcase.Prelude.{Bool, true, false, String, ◌∷◌, [], if◌then◌else◌, ◌+s◌}
use backend_showcase.Decimal.{Decimal, greater_than}
use backend_showcase.Ledger.Action.{Action, lift, ◌>>=◌, pure}
use backend_showcase.Ledger.Names.{resolve_account_name, income, funds, x1000}
use backend_showcase.Ledger.Account.{Account}
use backend_showcase.Ledger.Entry.{EntryMeta, EntryType, GameType, new_entry}
use backend_showcase.Ledger.Journal.{Journal, add_entry}
use backend_showcase.Ledger.Database.{Database}
use backend_showcase.Ledger.Services.Account.{find_or_create_account}
use backend_showcase.Ledger.Services.Journal.{save}
use backend_showcase.Ledger.Games.Bets.{user_account_name, bets_account_name, new_journal, entry_on}
use backend_showcase.Ledger.Games.Settlement.{SettledBet}

module _ {S D : Type 0} ⦃dec : Decimal D⦄ where
  -- an entry on an account that is at hand
  unfoldable pub add_on :
      Account → D → Bool → Bool → EntryType → EntryMeta D → Journal D → Action S (Journal D)
  add_on account amount is_credit is_read type meta journal = do
    entry ← lift (new_entry (entry_on account amount is_credit is_read type meta))
    pure (add_entry journal entry)

  -- The bet won: its amount and the profit from the funds make up the outcome.
  unfoldable pub resolve_won :
      String → SettledBet D → Account → Account → Account → Journal D → Action S (Journal D)
  resolve_won game_id b user_account funds_account bets_account journal = do
    closed ←
        add_on bets_account b.amount false false EntryType.game_resolve
          (EntryMeta.game_resolve GameType.x1000 game_id) journal
    funded ←
        add_on funds_account b.pnl false false EntryType.user_won
          (EntryMeta.user_won GameType.x1000 game_id b.id) closed
    add_on user_account b.outcome true false EntryType.user_won
        (EntryMeta.user_won GameType.x1000 game_id b.id) funded

  -- The bet lost: its amount goes to the funds.
  unfoldable pub resolve_lost :
      String → SettledBet D → Account → Account → Account → Journal D → Action S (Journal D)
  resolve_lost game_id b user_account funds_account bets_account journal = do
    closed ←
        add_on bets_account b.amount false false EntryType.game_resolve
          (EntryMeta.game_resolve GameType.x1000 game_id) journal
    lost ←
        add_on user_account (dec.from_ℕ 0) false true EntryType.user_lose
          (EntryMeta.user_lose (dec.to_number b.amount) GameType.x1000 game_id b.id) closed
    add_on funds_account b.amount true false EntryType.user_lose
        (EntryMeta.user_lose (dec.to_number b.amount) GameType.x1000 game_id b.id) lost

module _ {S D : Type 0} ⦃dec : Decimal D⦄ (db : Database S D) where
  unfoldable pub create_ledger_entries_for_btc_x1000 : String → SettledBet D → Action S (Journal D)
  create_ledger_entries_for_btc_x1000 game_id b = do
    let opened = new_journal (
        "Game BTC x1000 Resolve with 1 bets for "
        +s dec.to_string (dec.to_number b.amount)
        +s " usd")
    user_account ← find_or_create_account db (user_account_name b.owner_id)
    funds_account ← find_or_create_account db (resolve_account_name (income ∷ funds ∷ x1000 ∷ []))
    bets_account ← find_or_create_account db (bets_account_name game_id)
    journal ←
        if greater_than b.outcome (dec.from_ℕ 0)
        then resolve_won game_id b user_account funds_account bets_account opened
        else resolve_lost game_id b user_account funds_account bets_account opened
    save db journal
