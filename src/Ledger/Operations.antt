-- ===== src/Ledger/Operations.antt =====
-- Every operation of the ledger keeps the books, whether it returns or throws.
use backend_showcase.Prelude.{String, Bool, Option, none, some, List, [], ◌∷◌}
use backend_showcase.Decimal.{Decimal}
use backend_showcase.Decimal.Exact.{IsExact}
use backend_showcase.Ledger.Action.{Action}
use backend_showcase.Ledger.Action.Keeps.{Keeps, Keeps-bind, keeps_rules}
use backend_showcase.Ledger.Account.{Account}
use backend_showcase.Ledger.Entry.{Entry, EntryMeta, EntryType, GameType}
use backend_showcase.Ledger.Journal.{Journal}
use backend_showcase.Ledger.Database.{Database}
use backend_showcase.Ledger.Database.Laws.{IsAppendOnly}
use backend_showcase.Ledger.Services.Balance.{Balance, find_balance_by_account_id, update_balance}
use backend_showcase.Ledger.Services.Account.{find_or_create_account}
use backend_showcase.Ledger.Services.Journal.{save}
use backend_showcase.Ledger.Books.{IsBooked}
use backend_showcase.Ledger.Books.Services.{
  find_or_create_account-KeepsRows, find_balance_by_account_id-KeepsRows, update_balance-KeepsRows,
}
use backend_showcase.Ledger.Books.Saving.{save-KeepsBooks}
use backend_showcase.Ledger.Games.Bets.{create_bet, pay_bet_fee, check_enough, charge}
use backend_showcase.Ledger.Games.Settlement.{
  SettledBet, GameResult, GameTitle, add_to, add_rejects, add_winners, add_losers, refund, pay_out,
  settle, create_ledger_entries,
}
use backend_showcase.Ledger.Games.X1000.{
  add_on, resolve_won, resolve_lost, create_ledger_entries_for_btc_x1000,
}
use backend_showcase.Ledger.Payments.{
  PaymentOrder, PaymentTransaction, deposit_entries, hold_entries, unhold_entries, withdraw_entries,
  deposit, hold_amount, unhold_amount, give_back_rest, pay_difference, withdraw_amount,
}
use backend_showcase.Ledger.Services.Account.{create_each}
use backend_showcase.Ledger.Services.Refresh.{
  Balances, current_balance, refresh_entries, refresh_unread, refresh_found, refresh_balances,
}
use backend_showcase.Ledger.Nft.{nft_entries, change_nft_balance}
use backend_showcase.Ledger.Result.{Result, ok, err}
use backend_showcase.Ledger.Books.Services.{
  mark_entries_as_read-KeepsRows, find_unread_entries-KeepsRows,
}
use backend_showcase.Ledger.Services.Entry.{mark_entries_as_read}
use backend_showcase.Ledger.Rewards.{reward_entries, add_reward_to_user_balance}

module _ {S D : Type 0} ⦃dec : Decimal D⦄ ⦃exact : IsExact dec⦄ (db : Database S D)
    (log : IsAppendOnly db) where
  abbrev pub KeepsBooks : {A : Type 0} → Action S A → Type 0
  KeepsBooks m = Keeps (λ s. IsBooked (db.postings s)) m

  pub find_or_create_account-KeepsBooks :
      (name : String) → KeepsBooks (find_or_create_account db name)
  find_or_create_account-KeepsBooks = find_or_create_account-KeepsRows db log IsBooked

  find_balance-KeepsBooks : (id : String) → KeepsBooks (find_balance_by_account_id db id)
  find_balance-KeepsBooks = find_balance_by_account_id-KeepsRows db log IsBooked

  update_balance-KeepsBooks :
      (b : Balance D) (j : Option (Journal D)) → KeepsBooks (update_balance db b j)
  update_balance-KeepsBooks = update_balance-KeepsRows db log IsBooked

  saving-KeepsBooks : (j : Journal D) → KeepsBooks (save db j)
  saving-KeepsBooks = save-KeepsBooks db log

  ruleset books_rules = (
    keeps_rules, find_or_create_account-KeepsBooks, find_balance-KeepsBooks,
    update_balance-KeepsBooks, saving-KeepsBooks,
  )

  check_enough-KeepsBooks : (b : Balance D) (x : D) → KeepsBooks (check_enough db b x)
  unfolding check_enough
  check_enough-KeepsBooks b x = search books_rules

  charge-KeepsBooks : (b : Balance D) (x : D) (j : Journal D) → KeepsBooks (charge db b x j)
  unfolding charge
  charge-KeepsBooks b x j = search books_rules

  pub create_bet-KeepsBooks :
      (user_id : String) (x : D) (game_id bet_id : String) (t : GameType)
      → KeepsBooks (create_bet db user_id x game_id bet_id t)
  unfolding create_bet
  create_bet-KeepsBooks user_id x game_id bet_id t =
      search (books_rules, check_enough-KeepsBooks, charge-KeepsBooks) depth 9

  pub pay_bet_fee-KeepsBooks :
      (user_id : String) (x : D) (game_id : String) → KeepsBooks (pay_bet_fee db user_id x game_id)
  unfolding pay_bet_fee
  pay_bet_fee-KeepsBooks user_id x game_id =
      search (books_rules, check_enough-KeepsBooks, charge-KeepsBooks) depth 9

  add_to-KeepsBooks :
      (name : String) (x : D) (c r : Bool) (t : EntryType) (m : EntryMeta D) (j : Journal D)
      → KeepsBooks (add_to db name x c r t m j)
  unfolding add_to
  add_to-KeepsBooks name x c r t m j = search books_rules

  module _ (t : GameType) (game_id : String) where
    add_rejects-KeepsBooks :
        (bs : List (SettledBet D)) (j : Journal D) → KeepsBooks (add_rejects db t game_id bs j)
    unfolding add_rejects
    add_rejects-KeepsBooks [] j = search books_rules
    add_rejects-KeepsBooks (b ∷ bs) j =
        search (books_rules, add_to-KeepsBooks, add_rejects-KeepsBooks bs)

    add_winners-KeepsBooks :
        (bs : List (SettledBet D)) (x : D) (j : Journal D)
        → KeepsBooks (add_winners db t game_id bs x j)
    unfolding add_winners
    add_winners-KeepsBooks [] x j = search books_rules
    add_winners-KeepsBooks (b ∷ bs) x j =
        search (books_rules, add_to-KeepsBooks, add_winners-KeepsBooks bs)

    add_losers-KeepsBooks :
        (bs : List (SettledBet D)) (j : Journal D) → KeepsBooks (add_losers db t game_id bs j)
    unfolding add_losers
    add_losers-KeepsBooks [] j = search books_rules
    add_losers-KeepsBooks (b ∷ bs) j =
        search (books_rules, add_to-KeepsBooks, add_losers-KeepsBooks bs)

  refund-KeepsBooks :
      (g : GameTitle) (r : GameResult D) (j : Journal D) → KeepsBooks (refund db g r j)
  unfolding refund
  refund-KeepsBooks g r j = search (books_rules, add_rejects-KeepsBooks)

  pay_out-KeepsBooks :
      (g : GameTitle) (r : GameResult D) (j : Journal D) → KeepsBooks (pay_out db g r j)
  unfolding pay_out
  pay_out-KeepsBooks g r j =
      search (books_rules, add_winners-KeepsBooks, add_losers-KeepsBooks, add_to-KeepsBooks)

  settle-KeepsBooks : (g : GameTitle) (r : GameResult D) → KeepsBooks (settle db g r)
  unfolding settle
  settle-KeepsBooks g r =
      search (books_rules, add_to-KeepsBooks, refund-KeepsBooks, pay_out-KeepsBooks)

  pub create_ledger_entries-KeepsBooks :
      (g : GameTitle) (r : GameResult D) → KeepsBooks (create_ledger_entries db g r)
  unfolding create_ledger_entries
  create_ledger_entries-KeepsBooks g r = search (books_rules, settle-KeepsBooks)

  add_on-KeepsBooks :
      (a : Account) (x : D) (c r : Bool) (t : EntryType) (m : EntryMeta D) (j : Journal D)
      → KeepsBooks (add_on a x c r t m j)
  unfolding add_on
  add_on-KeepsBooks a x c r t m j = search books_rules

  module _ (game_id : String) (b : SettledBet D) (u f g : Account) (j : Journal D) where
    resolve_won-KeepsBooks : KeepsBooks (resolve_won game_id b u f g j)
    unfolding resolve_won
    resolve_won-KeepsBooks = search (books_rules, add_on-KeepsBooks)

    resolve_lost-KeepsBooks : KeepsBooks (resolve_lost game_id b u f g j)
    unfolding resolve_lost
    resolve_lost-KeepsBooks = search (books_rules, add_on-KeepsBooks)

  pub btc_x1000-KeepsBooks :
      (game_id : String) (b : SettledBet D)
      → KeepsBooks (create_ledger_entries_for_btc_x1000 db game_id b)
  unfolding create_ledger_entries_for_btc_x1000
  btc_x1000-KeepsBooks game_id b =
      search (books_rules, resolve_won-KeepsBooks, resolve_lost-KeepsBooks) depth 9

  module _ (order : PaymentOrder) (transaction : PaymentTransaction D) where
    pub deposit-KeepsBooks : KeepsBooks (deposit db order transaction)
    unfolding deposit deposit_entries
    deposit-KeepsBooks = search (books_rules, add_on-KeepsBooks) depth 12

    pub hold_amount-KeepsBooks : KeepsBooks (hold_amount db order transaction)
    unfolding hold_amount hold_entries
    hold_amount-KeepsBooks = search (books_rules, add_on-KeepsBooks) depth 12

    pub unhold_amount-KeepsBooks : KeepsBooks (unhold_amount db order transaction)
    unfolding unhold_amount unhold_entries
    unhold_amount-KeepsBooks = search (books_rules, add_on-KeepsBooks) depth 12

    pub withdraw_amount-KeepsBooks :
        (updated : PaymentTransaction D) → KeepsBooks (withdraw_amount db order transaction updated)
    unfolding withdraw_amount withdraw_entries give_back_rest pay_difference
    withdraw_amount-KeepsBooks updated = search (books_rules, add_on-KeepsBooks) depth 16

  pub add_reward-KeepsBooks :
      (user_id : String) (x : D) (reason : String)
      → KeepsBooks (add_reward_to_user_balance db user_id x reason)
  unfolding add_reward_to_user_balance reward_entries
  add_reward-KeepsBooks user_id x reason = search (books_rules, add_on-KeepsBooks) depth 12

  pub change_nft-KeepsBooks :
      (user_id : String) (x : D) (reason : String) (is_add : Bool)
      → KeepsBooks (change_nft_balance db user_id x reason is_add)
  unfolding change_nft_balance nft_entries
  change_nft-KeepsBooks user_id x reason is_add = search (books_rules, add_on-KeepsBooks) depth 12

  mark_read-KeepsBooks : (ids : List String) → KeepsBooks (mark_entries_as_read db ids)
  mark_read-KeepsBooks = mark_entries_as_read-KeepsRows db log IsBooked

  current_balance-KeepsBooks :
      (id : String) (b : Option (Balance D)) → KeepsBooks (current_balance db id b)
  unfolding current_balance
  current_balance-KeepsBooks id none = find_balance-KeepsBooks id
  current_balance-KeepsBooks id (some b) = search books_rules

  refresh_entries-KeepsBooks :
      (es : List (Entry D)) (m : Balances D) → KeepsBooks (refresh_entries db es m)
  unfolding refresh_entries
  refresh_entries-KeepsBooks [] m = search books_rules
  refresh_entries-KeepsBooks (e ∷ es) m =
      search (books_rules, current_balance-KeepsBooks, refresh_entries-KeepsBooks es) depth 9

  refresh_unread-KeepsBooks : (es : List (Entry D)) → KeepsBooks (refresh_unread db es)
  unfolding refresh_unread
  refresh_unread-KeepsBooks es =
      search (books_rules, refresh_entries-KeepsBooks, mark_read-KeepsBooks)

  refresh_found-KeepsBooks : (r : Result (List (Entry D))) → KeepsBooks (refresh_found db r)
  unfolding refresh_found
  refresh_found-KeepsBooks (err e) = search books_rules
  refresh_found-KeepsBooks (ok []) = search books_rules
  refresh_found-KeepsBooks (ok (e ∷ es)) = search (books_rules, refresh_unread-KeepsBooks)

  pub refresh_balances-KeepsBooks : KeepsBooks (refresh_balances db)
  unfolding refresh_balances
  refresh_balances-KeepsBooks = record {
    after = λ s h.
        (refresh_found-KeepsBooks _).after _
          ((find_unread_entries-KeepsRows db log IsBooked _ _).after s h);
  }

  pub create_each-KeepsBooks : (names : List String) → KeepsBooks (create_each db names)
  unfolding create_each
  create_each-KeepsBooks [] = search books_rules
  create_each-KeepsBooks (name ∷ names) =
      Keeps-bind _ _ (find_or_create_account-KeepsBooks name) (λ _. create_each-KeepsBooks names)

  pub ruleset operation_rules = (
    create_bet-KeepsBooks, pay_bet_fee-KeepsBooks, find_or_create_account-KeepsBooks,
    create_ledger_entries-KeepsBooks, btc_x1000-KeepsBooks, deposit-KeepsBooks,
    hold_amount-KeepsBooks, unhold_amount-KeepsBooks, withdraw_amount-KeepsBooks,
    add_reward-KeepsBooks, change_nft-KeepsBooks, refresh_balances-KeepsBooks,
    create_each-KeepsBooks,
  )
