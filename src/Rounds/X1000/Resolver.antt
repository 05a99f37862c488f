-- ===== src/Rounds/X1000/Resolver.antt =====
-- apps/x1000-worker/src/module/game/cron-jobs/x1000GamesResolver.worker.ts, when no other run of it is
-- at work.
use backend_showcase.Prelude.{take, String, some, List, [], ◌∷◌, map, filter, str_eq, if◌then◌else◌}
use backend_showcase.Decimal.{Decimal}
use backend_showcase.Ledger.Result.{Result, ok, err}
use backend_showcase.Ledger.Action.{Action, in_transaction, ◌>>=◌}
use backend_showcase.Ledger.GamesRewards.{GameState}
use backend_showcase.Games.X1000.{X1000Bet, X1000Game, ResolvedBet, get_x1000_game_result}
use backend_showcase.Rounds.Repository.{is_game_in_pending}
use backend_showcase.Rounds.X1000.{
  X1000Row, X1000BetRow, X1000Tables, update_x1000_game, update_x1000_bet,
}

module _ {D : Type 0} where
  abbrev pub x1000_bets_of : String → List (X1000BetRow D) → List (X1000Bet D)
  x1000_bets_of game_id [] = []
  x1000_bets_of game_id (row ∷ rows) =
      if str_eq row.game_id game_id
      then row.bet ∷ x1000_bets_of game_id rows
      else x1000_bets_of game_id rows

  -- a game with its bets, as `getX1000GameResult` reads it
  abbrev pub with_x1000_bets : List (X1000BetRow D) → X1000Row D → String × X1000Game D
  with_x1000_bets rows g = (
    g.id,
    record { start_price = g.start_price; end_price = g.end_price; bets = x1000_bets_of g.id rows },
  )

  -- the columns of the bet that are set
  abbrev pub with_resolved : ResolvedBet D → X1000BetRow D → X1000BetRow D
  with_resolved resolved row = record row {
    result = resolved.result;
    bet = record row.bet { fee = resolved.fee; multiplier = resolved.bet.multiplier };
    pnl = some resolved.pnl;
    outcome = some resolved.outcome;
    roi = some resolved.roi;
  }

  abbrev pub close_row : X1000Row D → X1000Row D
  close_row g = record g { state = GameState.close }

module _ {S D : Type 0} (db : X1000Tables S D) where
  unfoldable pub close_x1000 : String → ResolvedBet D → Action S (Unit {0})
  close_x1000 game_id resolved = in_transaction (do
    closed ← update_x1000_game db game_id close_row
    update_x1000_bet db resolved.bet.id (with_resolved resolved))

  abbrev pub close_result : String → Result (ResolvedBet D) → Action S (Unit {0})
  close_result game_id (err e) s = (err e, s)
  close_result game_id (ok resolved) s = close_x1000 game_id resolved s

  -- the games that a run finds: `take: 10`
  abbrev pub found_pending : S → List (String × X1000Game D)
  found_pending s =
      map (with_x1000_bets (db.bets s))
        (take 10 (filter (λ (g : X1000Row D). is_game_in_pending g.state) (db.games s)))

module _ {S D : Type 0} ⦃dec : Decimal D⦄ (db : X1000Tables S D) (platform_fee : D) where
  -- the loop over the games that were found, which the first error ends
  unfoldable pub close_found : List (String × X1000Game D) → Action S (Unit {0})
  close_found [] s = (ok tt, s)
  close_found ((id, game) ∷ games) s =
      (close_result db id (get_x1000_game_result game platform_fee) >>= λ closed. close_found games)
        s

  -- `hanlde`
  unfoldable pub handle : S → S
  handle s = (close_found (found_pending db s) s).1
