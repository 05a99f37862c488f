-- ===== src/Ledger/Payments.antt =====
-- libs/ledger-package/src/external-services/paymentLedger.service.ts: deposits, and withdrawals that
-- are first held, then paid out or given back. Each runs in its caller's database transaction.
use backend_showcase.Prelude.{true, false, String, some, ◌∷◌, [], if◌then◌else◌, ◌+s◌}
use backend_showcase.Decimal.{Decimal, greater_than}
use backend_showcase.Ledger.Result.{not_enough_balance}
use backend_showcase.Ledger.Action.{Action, pure, throw, ◌>>=◌, ◌>>◌}
use backend_showcase.Ledger.Names
use backend_showcase.Ledger.Names.{
  resolve_account_name, assets, liabilities, income, outcome, usd, user_balance, hold, fee,
  network_fee, withdraw,
}
use backend_showcase.Ledger.Account.{Account}
use backend_showcase.Ledger.Entry.{EntryMeta, EntryType}
use backend_showcase.Ledger.Journal.{Journal}
use backend_showcase.Ledger.Database.{Database}
use backend_showcase.Ledger.Services.Balance.{
  Balance, find_balance_by_account_id, update_balance, add_amount, sub_amount,
}
use backend_showcase.Ledger.Services.Account.{find_or_create_account}
use backend_showcase.Ledger.Services.Journal.{save}
use backend_showcase.Ledger.Games.Bets.{user_account_name, new_journal}
use backend_showcase.Ledger.Games.X1000.{add_on}

-- the columns of `PaymentOrder` that are read
pub record PaymentOrder : Type 0 where
  pub id : String
  pub owner_id : String

-- the columns of `PaymentTransaction` that are read, all of them with `!`
pub record PaymentTransaction (D : Type 0) : Type 0 where
  pub amount : D
  pub original_amount : D
  pub platform_fee : D
  pub network_fee : D
  pub currency : String

-- the account of what a user's withdrawals hold
abbrev pub hold_account_name : String → String
hold_account_name user_id = resolve_account_name (liabilities ∷ user_balance ∷ user_id ∷ hold ∷ [])

abbrev pub usd_account_name : String
usd_account_name = resolve_account_name (assets ∷ usd ∷ [])

module _ {S D : Type 0} ⦃dec : Decimal D⦄ where
  unfoldable pub deposit_entries :
      PaymentOrder → PaymentTransaction D → Account → Account → Account → Action S (Journal D)
  deposit_entries order transaction usd_account user_account fee_account = do
    let meta =
        EntryMeta.user_deposit transaction.currency (dec.to_number transaction.original_amount)
          order.id
    let opened =
        new_journal
          ("User deposited " +s dec.to_string (dec.to_number transaction.amount) +s " " +s usd)
    received ←
        add_on usd_account (dec.add transaction.amount transaction.platform_fee) false false
          EntryType.user_deposit meta opened
    credited ← add_on user_account transaction.amount true true EntryType.user_deposit meta received
    add_on fee_account transaction.platform_fee true false EntryType.user_deposit meta credited

  unfoldable pub hold_entries : D → Account → Account → Action S (Journal D)
  hold_entries amount hold_account user_account = do
    let meta = EntryMeta.hold (dec.to_number amount)
    let opened = new_journal (dec.to_string (dec.to_number amount) +s " was holded for withdraw")
    held ← add_on hold_account amount true true EntryType.hold meta opened
    add_on user_account amount false true EntryType.hold meta held

  unfoldable pub unhold_entries : D → Account → Account → Action S (Journal D)
  unhold_entries amount hold_account user_account = do
    let meta = EntryMeta.unhold (dec.to_number amount)
    let opened = new_journal (dec.to_string (dec.to_number amount) +s " was unholded")
    released ← add_on hold_account amount false true EntryType.unhold meta opened
    add_on user_account amount true true EntryType.unhold meta released

  -- the three entries that `withdraw` ends with
  unfoldable pub withdraw_entries :
      PaymentOrder
      → PaymentTransaction D
      → PaymentTransaction D
      → Account
      → Account
      → Journal D
      → Action S (Journal D)
  withdraw_entries order current updated usd_account fee_account journal = do
    let meta = EntryMeta.user_withdraw current.currency (dec.to_number updated.amount) order.id
    network ←
        add_on usd_account updated.network_fee true false EntryType.network_fee
          (EntryMeta.network_fee (dec.to_number updated.network_fee) order.id) journal
    paid ←
        add_on usd_account (dec.sub current.original_amount current.platform_fee) true false
          EntryType.user_withdraw meta network
    add_on fee_account current.platform_fee true false EntryType.user_withdraw meta paid

module _ {S D : Type 0} ⦃dec : Decimal D⦄ (db : Database S D) where
  unfoldable pub deposit : PaymentOrder → PaymentTransaction D → Action S (Balance D)
  deposit order transaction = do
    usd_account ← find_or_create_account db usd_account_name
    user_account ← find_or_create_account db (user_account_name order.owner_id)
    balance ← find_balance_by_account_id db user_account.id
    fee_account ←
        find_or_create_account db (resolve_account_name (income ∷ fee ∷ Names.Fees.deposit ∷ []))
    journal ← deposit_entries order transaction usd_account user_account fee_account
    saved ← save db journal
    update_balance db (add_amount transaction.amount balance) (some saved)
    pure (add_amount transaction.amount balance)

  unfoldable pub hold_amount : PaymentOrder → PaymentTransaction D → Action S (Balance D)
  hold_amount order transaction = do
    let amount = dec.add transaction.original_amount transaction.network_fee
    user_account ← find_or_create_account db (user_account_name order.owner_id)
    balance ← find_balance_by_account_id db user_account.id
    if dec.less_than balance.amount amount then throw not_enough_balance else pure tt
    hold_account ← find_or_create_account db (hold_account_name order.owner_id)
    journal ← hold_entries amount hold_account user_account
    saved ← save db journal
    update_balance db (sub_amount amount balance) (some saved)

  unfoldable pub unhold_amount : PaymentOrder → PaymentTransaction D → Action S (Balance D)
  unhold_amount order transaction = do
    let amount = dec.add transaction.original_amount transaction.network_fee
    user_account ← find_or_create_account db (user_account_name order.owner_id)
    balance ← find_balance_by_account_id db user_account.id
    hold_account ← find_or_create_account db (hold_account_name order.owner_id)
    journal ← unhold_entries amount hold_account user_account
    saved ← save db journal
    update_balance db (add_amount amount balance) (some saved)

  -- The held amount is worth more than the payout: the rest goes back to the user, and the balance
  -- in memory follows.
  unfoldable pub give_back_rest :
      D → Account → Balance D → Journal D → Action S (Balance D × Journal D)
  give_back_rest rest user_account balance journal = do
    returned ←
        add_on user_account rest true true EntryType.unhold (EntryMeta.unhold (dec.to_number rest))
          journal
    pure (add_amount rest balance, returned)

  -- The payout costs as much or more: the platform pays the difference.
  unfoldable pub pay_difference :
      D
      → PaymentOrder
      → PaymentTransaction D
      → Balance D
      → Journal D
      → Action S (Balance D × Journal D)
  pay_difference difference order updated balance journal = do
    fee_account ←
        find_or_create_account db (resolve_account_name (outcome ∷ network_fee ∷ withdraw ∷ []))
    paid ←
        add_on fee_account difference false false EntryType.network_fee
          (EntryMeta.network_fee (dec.to_number updated.network_fee) order.id) journal
    pure (balance, paid)

  unfoldable pub withdraw_amount :
      PaymentOrder → PaymentTransaction D → PaymentTransaction D → Action S (Balance D)
  withdraw_amount order current updated = do
    let held_amount = dec.add current.original_amount current.network_fee
    let amount = dec.add current.original_amount updated.network_fee
    user_account ← find_or_create_account db (user_account_name order.owner_id)
    fee_account ←
        find_or_create_account db (resolve_account_name (income ∷ fee ∷ Names.Fees.withdraw ∷ []))
    usd_account ← find_or_create_account db usd_account_name
    hold_account ← find_or_create_account db (hold_account_name order.owner_id)
    balance ← find_balance_by_account_id db user_account.id
    released ←
        add_on hold_account held_amount false true EntryType.unhold
          (EntryMeta.unhold (dec.to_number held_amount))
          (new_journal (
            "Withdraw " +s dec.to_string (dec.to_number updated.amount) +s " " +s current.currency))
    both ←
        if greater_than (dec.sub held_amount amount) (dec.from_ℕ 0)
        then give_back_rest (dec.sub held_amount amount) user_account balance released
        else pay_difference (dec.sub amount held_amount) order updated balance released
    journal ← withdraw_entries order current updated usd_account fee_account both.1
    saved ← save db journal
    update_balance db both.0 (some saved)
