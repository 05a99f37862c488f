-- ===== src/Ledger/Games/Bets.antt =====
-- `GameLedgerService.createBet`, `payBetFee` and `createGameAccount`.
pub mod Effect
use backend_showcase.Prelude.{String, Bool, true, false, none, some, [], ◌∷◌, if◌then◌else◌, ◌+s◌}
use backend_showcase.Decimal.{Decimal}
use backend_showcase.Ledger.Result.{not_enough_balance, Result, ok, err}
use backend_showcase.Ledger.Action.{Action, pure, throw, lift, ◌>>=◌, ◌>>◌}
use backend_showcase.Ledger.Names
use backend_showcase.Ledger.Names.{
  resolve_account_name, liabilities, income, user_balance, bets, fee,
}
use backend_showcase.Ledger.Account.{Account}
use backend_showcase.Ledger.Entry.{Entry, EntryMeta, EntryType, GameType, new_entry}
use backend_showcase.Ledger.Journal.{Journal, add_entry}
use backend_showcase.Ledger.Database.{Database}
use backend_showcase.Ledger.Services.Balance.{
  Balance, find_balance_by_account_id, update_balance, sub_amount,
}
use backend_showcase.Ledger.Services.Account.{find_or_create_account}
use backend_showcase.Ledger.Services.Journal.{save}

-- the account of a user's balance, and the account of the bets of a game
abbrev pub user_account_name : String → String
user_account_name user_id = resolve_account_name (liabilities ∷ user_balance ∷ user_id ∷ [])

abbrev pub bets_account_name : String → String
bets_account_name game_id = resolve_account_name (liabilities ∷ bets ∷ game_id ∷ [])

module _ {D : Type 0} where
  -- `new LedgerJournalEntity({ entries: [], name })`
  abbrev pub new_journal : String → Journal D
  new_journal name = record { id = none; name = name; entries = [] }

  -- the props of an entry on an account, with no details given
  abbrev pub entry_on : Account → D → Bool → Bool → EntryType → EntryMeta D → Entry D
  entry_on account amount is_credit is_read type meta = record {
    id = none;
    is_credit = is_credit;
    amount = amount;
    meta = meta;
    type = type;
    details = "";
    account_id = account.id;
    is_read = is_read;
    journal_id = none;
    account = some account;
  }

module _ {D : Type 0} ⦃dec : Decimal D⦄ where
  -- The journal of two entries that takes an amount from a user's account to another one.
  unfoldable pub transfer_journal :
      String → Account → Account → D → EntryType → EntryMeta D → Result (Journal D)
  transfer_journal name user_account to_account amount type meta =
      elim (new_entry (entry_on user_account amount false true type meta)) [
        | err e ↦ err e
        | ok from_user ↦ elim (new_entry (entry_on to_account amount true false type meta)) [
          | err e ↦ err e
          | ok to ↦ ok (add_entry (add_entry (new_journal name) from_user) to)
        ]
      ]

module _ {S D : Type 0} ⦃dec : Decimal D⦄ (db : Database S D) where
  -- The check of both methods. The balance is never missing: finding it threw if it was.
  unfoldable pub check_enough : Balance D → D → Action S (Unit {0})
  check_enough balance amount =
      if dec.less_than balance.amount amount then throw not_enough_balance else pure tt

  -- Both methods save the journal, take the amount off the balance in memory and write it.
  unfoldable pub charge : Balance D → D → Journal D → Action S (Balance D)
  charge balance amount journal = do
    saved ← save db journal
    update_balance db (sub_amount amount balance) (some saved)
    pure (sub_amount amount balance)

  unfoldable pub create_bet : String → D → String → String → GameType → Action S (Balance D)
  create_bet user_id amount game_id bet_id game_type = do
    user_account ← find_or_create_account db (user_account_name user_id)
    balance ← find_balance_by_account_id db user_account.id
    check_enough balance amount
    game_account ← find_or_create_account db (bets_account_name game_id)
    journal ← lift (
        transfer_journal ("User creates bet " +s dec.to_string (dec.to_number amount) +s " usd")
          user_account game_account amount EntryType.user_add_bet
          (EntryMeta.user_add_bet game_type game_id bet_id))
    charge balance amount journal

  unfoldable pub pay_bet_fee : String → D → String → Action S (Balance D)
  pay_bet_fee user_id amount game_id = do
    user_account ← find_or_create_account db (user_account_name user_id)
    balance ← find_balance_by_account_id db user_account.id
    check_enough balance amount
    income_account ←
        find_or_create_account db (resolve_account_name (income ∷ fee ∷ Names.Fees.x1000 ∷ []))
    journal ← lift (
        transfer_journal ("User pays bet fee " +s dec.to_string (dec.to_number amount) +s " usd")
          user_account income_account amount EntryType.hourly_fee (EntryMeta.hourly_fee game_id))
    charge balance amount journal

  unfoldable pub create_game_account : String → Action S Account
  create_game_account game_id = find_or_create_account db (bets_account_name game_id)
