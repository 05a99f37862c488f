-- ===== src/Ledger/GamesRewards/Books.antt =====
-- The settlement of a closed game keeps the books, whether it returns or throws.
use backend_showcase.Prelude.{String, Option, none, some, List, [], ◌∷◌}
use backend_showcase.Decimal.{Decimal}
use backend_showcase.Decimal.Exact.{IsExact}
use backend_showcase.Ledger.Action.{Action}
use backend_showcase.Ledger.Action.Keeps.{Keeps-bind, keeps_rules}
use backend_showcase.Ledger.Journal.{Journal}
use backend_showcase.Ledger.Database.{Database}
use backend_showcase.Ledger.Database.Laws.{IsAppendOnly}
use backend_showcase.Ledger.Books.{IsBooked}
use backend_showcase.Ledger.Books.Services.{update_balance_by_account_id-KeepsRows}
use backend_showcase.Ledger.Operations.{KeepsBooks, operation_rules}
use backend_showcase.Ledger.Games.Settlement.{
  create_ledger_entries_for_bulls_eye, create_ledger_entries_for_one_vs_one,
  create_ledger_entries_for_setup, create_ledger_entries_for_up_down,
}
use backend_showcase.Ledger.GamesRewards.{
  ClosedGame, StoredBet, Updates, update_each, update_users_balances, update_if_saved, give_rewards,
  give_rewards_for_up_down, give_rewards_for_one_vs_one, give_rewards_for_bulls_eye,
  give_rewards_for_setups, settle_x1000, give_rewards_for_x1000_game,
}

module _ {S D : Type 0} ⦃dec : Decimal D⦄ ⦃exact : IsExact dec⦄ (db : Database S D)
    (log : IsAppendOnly db) where
  update_each-KeepsBooks :
      (updates : Updates D) (journal : Journal D)
      → KeepsBooks db log (update_each db updates journal)
  unfolding update_each
  update_each-KeepsBooks [] journal = search keeps_rules
  update_each-KeepsBooks ((id, x) ∷ updates) journal =
      Keeps-bind _ _ (update_balance_by_account_id-KeepsRows db log IsBooked id x (some journal))
        (λ _. Keeps-bind _ _ (update_each-KeepsBooks updates journal) (λ _. search keeps_rules))

  update_users_balances-KeepsBooks :
      (journal : Journal D) → KeepsBooks db log (update_users_balances db journal)
  unfolding update_users_balances
  update_users_balances-KeepsBooks journal = search (keeps_rules, update_each-KeepsBooks)

  update_if_saved-KeepsBooks :
      (saved : Option (Journal D)) → KeepsBooks db log (update_if_saved db saved)
  unfolding update_if_saved
  update_if_saved-KeepsBooks none = search keeps_rules
  update_if_saved-KeepsBooks (some journal) = update_users_balances-KeepsBooks journal

  give_rewards-KeepsBooks :
      (game : ClosedGame D) (settlement : Action S (Option (Journal D)))
      → KeepsBooks db log settlement
      → KeepsBooks db log (give_rewards db game settlement)
  unfolding give_rewards
  give_rewards-KeepsBooks game settlement h = search (keeps_rules, update_if_saved-KeepsBooks)

  settle_x1000-KeepsBooks :
      (game_id : String) (bets : List (StoredBet D))
      → KeepsBooks db log (settle_x1000 db game_id bets)
  unfolding settle_x1000
  settle_x1000-KeepsBooks game_id [] = search keeps_rules
  settle_x1000-KeepsBooks game_id (b ∷ bets) = search (keeps_rules, operation_rules)

  module _ (game : ClosedGame D) (bets : List (StoredBet D)) where
    pub up_down-KeepsBooks : KeepsBooks db log (give_rewards_for_up_down db game bets)
    unfolding give_rewards_for_up_down create_ledger_entries_for_up_down
    up_down-KeepsBooks = search (give_rewards-KeepsBooks, operation_rules)

    pub one_vs_one-KeepsBooks : KeepsBooks db log (give_rewards_for_one_vs_one db game bets)
    unfolding give_rewards_for_one_vs_one create_ledger_entries_for_one_vs_one
    one_vs_one-KeepsBooks = search (give_rewards-KeepsBooks, operation_rules)

    pub bulls_eye-KeepsBooks : KeepsBooks db log (give_rewards_for_bulls_eye db game bets)
    unfolding give_rewards_for_bulls_eye create_ledger_entries_for_bulls_eye
    bulls_eye-KeepsBooks = search (give_rewards-KeepsBooks, operation_rules)

    pub setups-KeepsBooks : KeepsBooks db log (give_rewards_for_setups db game bets)
    unfolding give_rewards_for_setups create_ledger_entries_for_setup
    setups-KeepsBooks = search (give_rewards-KeepsBooks, operation_rules)

    pub x1000_game-KeepsBooks : KeepsBooks db log (give_rewards_for_x1000_game db game bets)
    unfolding give_rewards_for_x1000_game
    x1000_game-KeepsBooks = search (give_rewards-KeepsBooks, settle_x1000-KeepsBooks)

  pub ruleset rewards_rules = (
    up_down-KeepsBooks, one_vs_one-KeepsBooks, bulls_eye-KeepsBooks, setups-KeepsBooks,
    x1000_game-KeepsBooks,
  )
