-- ===== src/Ledger/History.antt =====
-- The ledger as the rest of the system sees it: any sequence of its operations, each run by its
-- caller in a database transaction that is committed, or rolled back when something throws.
pub mod Reachable
use backend_showcase.Prelude.{String, List, ◌≡◌}
use backend_showcase.Decimal.{Decimal}
use backend_showcase.Ledger.Action.{Action, pure, ◌>>=◌, ◌>>◌}
use backend_showcase.Ledger.Entry.{GameType}
use backend_showcase.Ledger.Database.{Database}
use backend_showcase.Ledger.Services.Account
use backend_showcase.Ledger.Services.Refresh
use backend_showcase.Ledger.Games.Bets
use backend_showcase.Ledger.Games.Settlement
use backend_showcase.Ledger.Games.Settlement.{SettledBet, GameResult}
use backend_showcase.Ledger.Games.X1000
use backend_showcase.Ledger.GamesRewards
use backend_showcase.Ledger.GamesRewards.{ClosedGame, StoredBet}
use backend_showcase.Ledger.Payments
use backend_showcase.Ledger.Payments.{PaymentOrder, PaymentTransaction}
use backend_showcase.Ledger.Rewards
use backend_showcase.Ledger.Nft

pub data Command (D : Type 0) : Type 0 where
  create_bet : (user_id : String) (amount : D) (game_id bet_id : String) (t : GameType) → Command D
  pay_bet_fee : (user_id : String) (amount : D) (game_id : String) → Command D
  create_game_account : (game_id : String) → Command D
  resolve_bulls_eye resolve_one_vs_one resolve_setup resolve_up_down : GameResult D → Command D
  resolve_x1000 : (game_id : String) (bet : SettledBet D) → Command D
  deposit hold unhold : PaymentOrder → PaymentTransaction D → Command D
  withdraw : PaymentOrder → (current updated : PaymentTransaction D) → Command D
  add_reward add_nft remove_nft : (user_id : String) (amount : D) (reason : String) → Command D
  refresh_balances create_system_accounts : Command D
  reward_up_down reward_one_vs_one reward_bulls_eye reward_setups reward_x1000 :
      ClosedGame D → List (StoredBet D) → Command D

module _ {S D : Type 0} ⦃dec : Decimal D⦄ (db : Database S D) where
  abbrev quiet : {A : Type 0} → Action S A → Action S (Unit {0})
  quiet m = do m; pure tt

  unfoldable pub perform : Command D → Action S (Unit {0})
  perform (Command.create_bet u x g b t) = quiet (Bets.create_bet db u x g b t)
  perform (Command.pay_bet_fee u x g) = quiet (Bets.pay_bet_fee db u x g)
  perform (Command.create_game_account g) = quiet (Bets.create_game_account db g)
  perform (Command.resolve_bulls_eye r) =
      quiet (Settlement.create_ledger_entries_for_bulls_eye db r)
  perform (Command.resolve_one_vs_one r) =
      quiet (Settlement.create_ledger_entries_for_one_vs_one db r)
  perform (Command.resolve_setup r) = quiet (Settlement.create_ledger_entries_for_setup db r)
  perform (Command.resolve_up_down r) = quiet (Settlement.create_ledger_entries_for_up_down db r)
  perform (Command.resolve_x1000 g b) = quiet (X1000.create_ledger_entries_for_btc_x1000 db g b)
  perform (Command.deposit o t) = quiet (Payments.deposit db o t)
  perform (Command.hold o t) = quiet (Payments.hold_amount db o t)
  perform (Command.unhold o t) = quiet (Payments.unhold_amount db o t)
  perform (Command.withdraw o t u) = quiet (Payments.withdraw_amount db o t u)
  perform (Command.add_reward u x r) = quiet (Rewards.add_reward_to_user_balance db u x r)
  perform (Command.add_nft u x r) = quiet (Nft.add_nft_balance db u x r)
  perform (Command.remove_nft u x r) = quiet (Nft.remove_nft_balance db u x r)
  perform Command.refresh_balances = quiet (Refresh.refresh_balances db)
  perform Command.create_system_accounts = Account.create_system_accounts db
  perform (Command.reward_up_down g bs) = quiet (GamesRewards.give_rewards_for_up_down db g bs)
  perform (Command.reward_one_vs_one g bs) =
      quiet (GamesRewards.give_rewards_for_one_vs_one db g bs)
  perform (Command.reward_bulls_eye g bs) = quiet (GamesRewards.give_rewards_for_bulls_eye db g bs)
  perform (Command.reward_setups g bs) = quiet (GamesRewards.give_rewards_for_setups db g bs)
  perform (Command.reward_x1000 g bs) = quiet (GamesRewards.give_rewards_for_x1000_game db g bs)

  -- What a transaction may leave behind: all of it if it is committed, whether or not the operation
  -- threw; or, if it is rolled back, the accounts that the operation found or created outside of it.
  pub data Step : S → S → Type 0 where
    committed : (c : Command D) (s t : S) → (perform c s).1 ≡ t → Step s t
    rolled_back :
        (names : List String) (s t : S) → (Account.create_each db names s).1 ≡ t → Step s t

  pub data Reach (s : S) : S → Type 0 where
    start : Reach s s
    step : {t u : S} → Reach s t → Step t u → Reach s u
