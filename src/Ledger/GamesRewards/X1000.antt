-- ===== src/Ledger/GamesRewards/X1000.antt =====
-- An x1000 game from its result (libs/core/src/games-helpers/x1000.helpers.ts) to the ledger
-- (apps/ledger/src/modules/games-rewards/gamesRewards.service.ts).
use backend_showcase.Prelude.{ap, String, ◌≡◌, ◌≢◌, refl, ◌∙◌, Option, none, some, [], ◌∷◌, false}
use backend_showcase.Decimal.{Decimal, greater_than}
use backend_showcase.Decimal.Exact.{IsExact}
use backend_showcase.Ledger.Result.{err, journal_is_not_balanced}
use backend_showcase.Ledger.Action.{pure, ◌>>=◌}
use backend_showcase.Ledger.Database.{Database}
use backend_showcase.Ledger.GamesRewards.{
  ClosedGame, StoredBet, settle_x1000, give_rewards_for_x1000_game,
}
use backend_showcase.Ledger.Games.X1000.{resolve_lost, create_ledger_entries_for_btc_x1000}
use backend_showcase.Games.Bet.{BetResult}
use backend_showcase.Ledger.GamesRewards.{give_rewards}
use backend_showcase.Ledger.History.{Command, perform}
use backend_showcase.Ledger.Balanced.Commands.{perform-never_unbalanced}
use backend_showcase.Games.X1000.{X1000Bet, ResolvedBet, reject_unpriced, resolve_x1000}
use backend_showcase.Games.X1000.MadeUp.{resolve_x1000-outcome}

module _ {D : Type 0} ⦃dec : Decimal D⦄ where
  -- the row of a resolved bet, as the settlement reads it
  abbrev pub row_of_resolved : ResolvedBet D → StoredBet D
  row_of_resolved r = record {
    result = r.result;
    bet = record {
      id = r.bet.id;
      owner_id = r.bet.owner_id;
      amount = r.bet.amount;
      outcome = r.outcome;
      pnl = r.pnl;
      fee = r.fee;
    };
  }

module _ {S D : Type 0} ⦃dec : Decimal D⦄ ⦃exact : IsExact dec⦄ (db : Database S D) where
  -- When the rewards are given for the row of an x1000 bet as `getX1000GameResult` resolved it, with
  -- or without prices, the journal is never refused as unbalanced.
  pub x1000-never_unbalanced :
      (fee : D) (bet : X1000Bet D) (start_price end_price : Option D) (game : ClosedGame D) (s : S)
      → (perform db
          (Command.reward_x1000 game
            (row_of_resolved (resolve_x1000 fee bet start_price end_price) ∷ []))
          s).0
        ≢ err journal_is_not_balanced
  x1000-never_unbalanced fee bet start_price end_price game s =
      perform-never_unbalanced db
        (Command.reward_x1000 game
          (row_of_resolved (resolve_x1000 fee bet start_price end_price) ∷ []))
        (resolve_x1000-outcome fee bet start_price end_price) s

module _ {S D : Type 0} ⦃dec : Decimal D⦄ ⦃exact : IsExact dec⦄ (db : Database S D) where
  -- the row of a bet that lost all of its amount
  abbrev pub row_of_loss : X1000Bet D → StoredBet D
  row_of_loss bet = record {
    result = BetResult.loss;
    bet = record {
      id = bet.id;
      owner_id = bet.owner_id;
      amount = bet.amount;
      outcome = dec.from_ℕ 0;
      pnl = dec.negated bet.amount;
      fee = bet.fee;
    };
  }

  nothing_won : greater_than (dec.from_ℕ 0) (dec.from_ℕ 0) ≡ false
  nothing_won = exact.less_than-eq (dec.from_ℕ 0) (dec.from_ℕ 0) ∙ rw exact.units-zero refl

  settled_as_loss :
      (game_id : String) (bet : X1000Bet D)
      → create_ledger_entries_for_btc_x1000 db game_id (row_of_resolved (reject_unpriced bet)).bet
        ≡ create_ledger_entries_for_btc_x1000 db game_id (row_of_loss bet).bet
  unfolding create_ledger_entries_for_btc_x1000 resolve_lost reject_unpriced
  settled_as_loss game_id bet = rw nothing_won refl

  rewarded_as_loss :
      (game : ClosedGame D) (bet : X1000Bet D) (s : S)
      → give_rewards_for_x1000_game db game (row_of_resolved (reject_unpriced bet) ∷ []) s
        ≡ give_rewards_for_x1000_game db game (row_of_loss bet ∷ []) s
  unfolding give_rewards_for_x1000_game settle_x1000
  rewarded_as_loss game bet s =
      ap (λ settlement. give_rewards db game (settlement >>= λ journal. pure (some journal)) s)
        (settled_as_loss game.id bet)

  -- The rewards of an x1000 game without an end price, whose bet `getX1000GameResult` rejects, are
  -- those of a bet that lost all of its amount: in every state the same result and the same writes.
  pub x1000-reject_is_loss :
      (fee : D) (bet : X1000Bet D) (start_price : Option D) (game : ClosedGame D) (s : S)
      → ((resolve_x1000 fee bet start_price none).result ≡ BetResult.reject)
        × (give_rewards_for_x1000_game db game
              (row_of_resolved (resolve_x1000 fee bet start_price none) ∷ [])
              s
            ≡ give_rewards_for_x1000_game db game (row_of_loss bet ∷ []) s)
  unfolding resolve_x1000 reject_unpriced
  x1000-reject_is_loss fee bet none game s = (refl, rewarded_as_loss game bet s)
  x1000-reject_is_loss fee bet (some start_price) game s = (refl, rewarded_as_loss game bet s)
