-- ===== src/Ledger/Rewards.antt =====
-- libs/ledger-package/src/external-services/rewardLedger.service.ts: a reward is paid to a user.
use backend_showcase.Prelude.{true, false, String, some, ◌∷◌, []}
use backend_showcase.Decimal.{Decimal}
use backend_showcase.Ledger.Action.{Action, pure, ◌>>=◌, ◌>>◌}
use backend_showcase.Ledger.Names.{resolve_account_name, outcome, bonus}
use backend_showcase.Ledger.Account.{Account}
use backend_showcase.Ledger.Entry.{EntryMeta, EntryType}
use backend_showcase.Ledger.Journal.{Journal}
use backend_showcase.Ledger.Database.{Database}
use backend_showcase.Ledger.Services.Balance.{
  Balance, find_balance_by_account_id, update_balance, add_amount,
}
use backend_showcase.Ledger.Services.Account.{find_or_create_account}
use backend_showcase.Ledger.Services.Journal.{save}
use backend_showcase.Ledger.Games.Bets.{user_account_name, new_journal}
use backend_showcase.Ledger.Games.X1000.{add_on}

module _ {S D : Type 0} ⦃dec : Decimal D⦄ where
  unfoldable pub reward_entries : String → D → Account → Account → Action S (Journal D)
  reward_entries reason reward bonus_account user_account = do
    let meta = EntryMeta.bonus reason (dec.to_number reward)
    spent ← add_on bonus_account reward false false EntryType.bonus meta (new_journal reason)
    add_on user_account reward true true EntryType.bonus meta spent

module _ {S D : Type 0} ⦃dec : Decimal D⦄ (db : Database S D) where
  unfoldable pub add_reward_to_user_balance : String → D → String → Action S (Balance D)
  add_reward_to_user_balance user_id reward reason = do
    user_account ← find_or_create_account db (user_account_name user_id)
    bonus_account ← find_or_create_account db (resolve_account_name (outcome ∷ bonus ∷ []))
    balance ← find_balance_by_account_id db user_account.id
    journal ← reward_entries reason reward bonus_account user_account
    saved ← save db journal
    update_balance db (add_amount reward balance) (some saved)
    pure (add_amount reward balance)
