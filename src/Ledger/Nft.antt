-- ===== src/Ledger/Nft.antt =====
-- libs/ledger-package/src/external-services/nftLedger.service.ts: the value of an NFT is added to a
-- user's balance, or taken off it.
use backend_showcase.Prelude.{Bool, true, false, not, String, some, ◌∷◌, [], if◌then◌else◌}
use backend_showcase.Decimal.{Decimal}
use backend_showcase.Ledger.Action.{Action, pure, ◌>>=◌, ◌>>◌}
use backend_showcase.Ledger.Names.{resolve_account_name, outcome, bonus}
use backend_showcase.Ledger.Account.{Account}
use backend_showcase.Ledger.Entry.{EntryMeta, EntryType}
use backend_showcase.Ledger.Journal.{Journal}
use backend_showcase.Ledger.Database.{Database}
use backend_showcase.Ledger.Services.Balance.{
  Balance, find_balance_by_account_id, update_balance, add_amount, sub_amount,
}
use backend_showcase.Ledger.Services.Account.{find_or_create_account}
use backend_showcase.Ledger.Services.Journal.{save}
use backend_showcase.Ledger.Games.Bets.{user_account_name, new_journal}
use backend_showcase.Ledger.Games.X1000.{add_on}

abbrev entry_type : Bool → EntryType
entry_type is_add = if is_add then EntryType.bonus else EntryType.bonus_removed

module _ {D : Type 0} ⦃dec : Decimal D⦄ where
  abbrev entry_meta : Bool → String → D → EntryMeta D
  entry_meta is_add reason value =
      if is_add
      then EntryMeta.bonus reason (dec.to_number value)
      else EntryMeta.bonus_removed reason (dec.to_number value)

module _ {S D : Type 0} ⦃dec : Decimal D⦄ where
  unfoldable pub nft_entries : String → D → Bool → Account → Account → Action S (Journal D)
  nft_entries reason value is_add bonus_account user_account = do
    let meta = entry_meta is_add reason value
    spent ←
        add_on bonus_account value (not is_add) false (entry_type is_add) meta (new_journal reason)
    add_on user_account value is_add true (entry_type is_add) meta spent

module _ {S D : Type 0} ⦃dec : Decimal D⦄ (db : Database S D) where
  unfoldable pub change_nft_balance : String → D → String → Bool → Action S (Balance D)
  change_nft_balance user_id value reason is_add = do
    user_account ← find_or_create_account db (user_account_name user_id)
    bonus_account ← find_or_create_account db (resolve_account_name (outcome ∷ bonus ∷ []))
    balance ← find_balance_by_account_id db user_account.id
    journal ← nft_entries reason value is_add bonus_account user_account
    saved ← save db journal
    let changed = if is_add then add_amount value balance else sub_amount value balance
    update_balance db changed (some saved)
    pure changed

  unfoldable pub add_nft_balance : String → D → String → Action S (Balance D)
  add_nft_balance user_id value reason = change_nft_balance user_id value reason true

  unfoldable pub remove_nft_balance : String → D → String → Action S (Balance D)
  remove_nft_balance user_id value reason = change_nft_balance user_id value reason false
