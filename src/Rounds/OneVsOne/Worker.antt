-- ===== src/Rounds/OneVsOne/Worker.antt =====
-- apps/one-vs-one-worker/src/game: workers/oneVsOneGame.worker.ts, oneVsOne.finalizier.ts and
-- cron-jobs/oneVsOneGame.close.cron.ts. The price of the price service is an argument; the events that
-- are published are left out.
use backend_showcase.Prelude.{
  take, ℕ, String, Bool, true, not, ◌&&◌, Option, none, some, List, [], ◌∷◌, ◌++◌, map, filter, ltb,
  length, if◌then◌else◌, str_eq,
}
use backend_showcase.Decimal.{Decimal}
use backend_showcase.Ledger.Result.{Result, ok, err, null_dereference, record_not_found}
use backend_showcase.Ledger.Action.{Action, in_transaction, ◌>>=◌}
use backend_showcase.Ledger.GamesRewards.{GameState}
use backend_showcase.Games.Bet.{GameBet, BetResult}
use backend_showcase.Games.OneVsOne.{OneVsOneGame, OneVsOneResults, get_one_vs_one_game_results}
use backend_showcase.Rounds.Tables.{BetRow, bets_of, set_bets, set_bet, has_bet, is_listed}
use backend_showcase.Rounds.Repository.{
  is_game_open, is_game_in_pending, is_active, is_bet_open, with_result, with_outcome,
}
use backend_showcase.Rounds.OneVsOne.{Duel, DuelTables, update_duel}

-- The jobs of the games, of which each has at most one.
pub data DuelJob : Type 0 where
  at_stop_bets at_end : String → DuelJob

abbrev pub is_job_of : String → DuelJob → Bool
is_job_of id (at_stop_bets game_id) = str_eq game_id id
is_job_of id (at_end game_id) = str_eq game_id id

-- The worker: the database, the current games and the jobs.
pub record DuelWorker (S D : Type 0) : Type 0 where
  pub tables : S
  pub current_games : List (Duel D)
  pub jobs : List DuelJob

module _ {D : Type 0} where
  abbrev pub without_game : String → List (Duel D) → List (Duel D)
  without_game id games = filter (λ (g : Duel D). not (str_eq g.id id)) games

  abbrev pub current : String → List (Duel D) → Option (Duel D)
  current id [] = none
  current id (g ∷ games) = if str_eq g.id id then some g else current id games

  -- the open bets of a game
  abbrev pub count_open : String → List (BetRow D) → ℕ
  count_open game_id rows =
      length (filter (λ (row : BetRow D). str_eq row.0 game_id && is_bet_open row.1.result) rows)

module _ {S D : Type 0} where
  -- `registGame`
  unfoldable pub regist_duel : Duel D → DuelWorker S D → DuelWorker S D
  regist_duel game w = record w {
    current_games = game ∷ without_game game.id w.current_games;
    jobs =
        (if is_game_open game.state then at_stop_bets game.id else at_end game.id)
        ∷ filter (λ j. not (is_job_of game.id j)) w.jobs;
  }

  -- `unregistGame`
  unfoldable pub unregist_duel : Duel D → DuelWorker S D → DuelWorker S D
  unregist_duel game w = record w {
    current_games = without_game game.id w.current_games;
    jobs = filter (λ j. not (is_job_of game.id j)) w.jobs;
  }

  abbrev by_state : Duel D → GameState → DuelWorker S D → Option (DuelWorker S D)
  by_state game GameState.pending w = some (unregist_duel game w)
  by_state game GameState.in_progress w = some (regist_duel game w)
  by_state game GameState.open_game w = some (regist_duel game w)
  by_state game GameState.close w = some w
  by_state game GameState.draft w = none

  -- `onOneVsOneGameChanged`, which throws for any other state
  unfoldable pub on_duel_changed : Duel D → DuelWorker S D → Option (DuelWorker S D)
  on_duel_changed game w = by_state game game.state w

  unfoldable pub regist_all : List (Duel D) → DuelWorker S D → DuelWorker S D
  regist_all [] w = w
  regist_all (game ∷ games) w = regist_all games (regist_duel game w)

module _ {S D : Type 0} (db : DuelTables S D) where
  -- `startAllOpenGamesAfterReboot`
  unfoldable pub start_all_open_games_after_reboot : DuelWorker S D → DuelWorker S D
  start_all_open_games_after_reboot w =
      regist_all (filter (λ (g : Duel D). is_active g.state) (db.games w.tables)) w

  -- both writes of a move of a game and its bets
  unfoldable pub move_duel :
      String
      → (GameState → Bool)
      → (Duel D → Duel D)
      → (BetResult → Bool)
      → BetResult
      → Action S (Unit {0})
  move_duel id allowed f from to = in_transaction (do
    moved ← update_duel db id allowed f
    (λ s. (ok tt, db.write_bets (set_bets id from (with_result to) (db.bets s)) s)))

  -- A job for a game that is not current is only logged.
  abbrev pub finalize_current : String → D → Option (Duel D) → Action S (Unit {0})
  finalize_current id price none s = (ok tt, s)
  finalize_current id price (some game) s =
      move_duel id is_active (λ g. record g { state = GameState.pending; end_price = some price })
        (λ _. true) BetResult.pending s

  -- `finalize`
  unfoldable pub finalize_duel : String → D → DuelWorker S D → Result (Unit {0}) × S
  finalize_duel id price w = finalize_current id price (current id w.current_games) w.tables

  abbrev pub check_current : String → Option (Duel D) → Action S (Unit {0})
  check_current id none s = (ok tt, s)
  check_current id (some game) s =
      let is_ready = ltb 1 (count_open id (db.bets s)) in
      move_duel id is_game_open
        (λ g. record g { state = if is_ready then GameState.in_progress else GameState.pending })
        is_bet_open (if is_ready then BetResult.in_progress else BetResult.pending) s

  -- `checkAfterStopBetsAtTime`
  unfoldable pub check_duel_after_stop : String → DuelWorker S D → Result (Unit {0}) × S
  check_duel_after_stop id w = check_current id (current id w.current_games) w.tables

  -- `bet1vs1.update` of the bet with the id of a resolved one, which may be `undefined`
  unfoldable pub close_duel_bet : Option (GameBet D) → Action S (Unit {0})
  close_duel_bet none s = (err null_dereference, s)
  close_duel_bet (some bet) s =
      if has_bet bet.id (λ _. true) (db.bets s)
      then (ok tt, db.write_bets (set_bet bet.id (with_outcome bet) (db.bets s)) s)
      else (err record_not_found, s)

  unfoldable pub close_duel_bets : List (Option (GameBet D)) → Action S (Unit {0})
  close_duel_bets [] s = (ok tt, s)
  close_duel_bets (b ∷ bets) s = (close_duel_bet b >>= λ closed. close_duel_bets bets) s

  -- the transaction of `resolveGame`
  unfoldable pub close_duel : String → OneVsOneResults D → Action S (Unit {0})
  close_duel id r = in_transaction (do
    closed ← update_duel db id (λ _. true) (λ g. record g { state = GameState.close })
    close_duel_bets (map (λ b. some b) r.losers ++ (r.rejects ++ map (λ b. some b) r.winners)))

module _ {D : Type 0} where
  -- the first pending game with one of these ids
  abbrev pub find_pending : List String → List (Duel D) → Option (Duel D)
  find_pending ids [] = none
  find_pending ids (g ∷ games) =
      if is_listed g.id ids && is_game_in_pending g.state then some g else find_pending ids games

  -- the ids that the cron job takes up: `take: 10`
  abbrev pub pending_ids : List (Duel D) → List String
  pending_ids games =
      map (λ (g : Duel D). g.id)
        (take 10 (filter (λ (g : Duel D). is_game_in_pending g.state) games))

  -- a game with its bets, as `getOneVsOneGameResults` reads it
  abbrev pub with_duel_bets : Duel D → List (GameBet D) → OneVsOneGame D
  with_duel_bets game bets = record {
    start_price = game.start_price;
    end_price = game.end_price;
    is_exact = game.is_exact;
    bets = bets;
  }

module _ {S D : Type 0} ⦃dec : Decimal D⦄ (db : DuelTables S D) (platform_fee : D) where
  abbrev pub close_by : String → Result (OneVsOneResults D) → Action S (Unit {0})
  close_by id (err e) s = (err e, s)
  close_by id (ok r) s = close_duel db id r s

  abbrev pub resolve_duel_found : Option (Duel D) → Action S (Unit {0})
  resolve_duel_found none s = (ok tt, s)
  resolve_duel_found (some game) s =
      close_by game.id
        (get_one_vs_one_game_results (with_duel_bets game (bets_of game.id (db.bets s)))
          platform_fee)
        s

  -- `resolveGame`
  unfoldable pub resolve_duel : List String → Action S (Unit {0})
  resolve_duel ids s = resolve_duel_found (find_pending ids (db.games s)) s

  -- `hanlde` of the cron job, when no other run of it is at work
  unfoldable pub handle_duels : S → S
  handle_duels s = (resolve_duel (pending_ids (db.games s)) s).1
