-- ===== src/Tests/Rounds.antt =====
-- The rounds of games on the tables in memory.
use mathlib.Core.List.{mem-cons_self}
use backend_showcase.Prelude.{String, true, some, [], ◌∷◌, ◌≡◌, refl}
use backend_showcase.Prelude.Int.{ℤ, pos}
use backend_showcase.Ledger.Result.{ok}
use backend_showcase.Ledger.Action.{Action}
use backend_showcase.Ledger.GamesRewards.{GameState}
use backend_showcase.Games.Bet.{BetResult, Results}
use backend_showcase.Games.BullsEye.{WinnerCoefficients, get_bulls_eye_game_result}
use backend_showcase.Rounds.Tables.{Round, find_game, find_bets}
use backend_showcase.Rounds.Repository.{with_outcome}
use backend_showcase.Rounds.Closing.{set_outcomes}
use backend_showcase.Rounds.Worker.{Worker, done, publish}
use backend_showcase.Rounds.Worker.Startup.{
  IsStarted, up_down_parked, bulls_eye_parked, up_down_start-IsStarted, bulls_eye_start-IsStarted,
}
use backend_showcase.Rounds.UpDown.Worker.{
  Settings, new_game, start_up_down_game_callback, finish_up_down_game_callback,
}
use backend_showcase.Rounds.UpDown.Finalizer.{resolve_game}
use backend_showcase.Rounds.UpDown.Closed.{
  closed, resolved_of, resolve_game-closes, resolve_game-late,
}
use backend_showcase.Rounds.UpDown.Life.{
  started, finished, final, up_down_round-closes, finish-reopens,
}
use backend_showcase.Rounds.BullsEye.Worker.{
  new_bulls_eye_game, game_config, start_bulls_eye_game_callback, finish_bulls_eye_game_callback,
}
use backend_showcase.Rounds.BullsEye.Finalizer.{Rates, with_bets, resolve_bulls_eye_game}
use backend_showcase.Rounds.BullsEye.Closed.{closed_for}
use backend_showcase.Rounds.BullsEye
use backend_showcase.Rounds.UpDown
use backend_showcase.Rounds.BullsEye.Life.{bulls_eye_round-closes}
use backend_showcase.Rounds.BullsEye.Life
use backend_showcase.Rounds.Setup.Heap.{HeapItem, SetupGamesHeap}
use backend_showcase.Rounds.Setup.Order.{IsForward}
use backend_showcase.Rounds.Setup.Worker.{SetupWorker}
use backend_showcase.Rounds.Setup.Steps.{
  perform_setup, start, then_step, ReachSetup-IsForward, price_changed, resolve,
}
use backend_showcase.Tests.Whole.{whole, whole-IsExact}
use backend_showcase.Tests.Store.{
  Rows, store, store-IsStore, round_in, rows_in, worker_in, both_bets, two_ids,
}

abbrev waiting : Worker Rows ℤ
waiting = worker_in GameState.open_game BetResult.open_bet BetResult.open_bet

abbrev pending : Worker Rows ℤ
pending = worker_in GameState.pending BetResult.pending BetResult.pending

abbrev one_late : Worker Rows ℤ
one_late = worker_in GameState.pending BetResult.open_bet BetResult.pending

abbrev over : Worker Rows ℤ
over = worker_in GameState.close BetResult.won BetResult.loss

up_down_round-closes_example :
    (w1 : Worker Rows ℤ) × (w2 : Worker Rows ℤ) × (w3 : Worker Rows ℤ)
    × (start_up_down_game_callback store "g" (some (pos 100)) waiting ≡ (done, w1))
    × (finish_up_down_game_callback store "g" (some (pos 100)) (some (pos 110)) w1 ≡ (done, w2))
    × (resolve_game store (pos 1) "g" w2 ≡ (done, w3))
    × (find_game store "g" w3.tables
        ≡ some (final (pos 100) (pos 110) (round_in GameState.open_game)))
    × (w3.published
        ≡ final (pos 100) (pos 110) (round_in GameState.open_game)
          ∷ finished (some (pos 110)) (some true) (started (pos 100) (round_in GameState.open_game))
          ∷ started (pos 100) (round_in GameState.open_game)
          ∷ [])
up_down_round-closes_example =
    up_down_round-closes store store-IsStore (pos 1) "g" (pos 100) (pos 110)
      (round_in GameState.open_game) waiting refl refl refl refl two_ids (both_bets _ refl refl)

resolve_game-closes_example :
    (t : Rows) × (resolve_game store (pos 1) "g" pending
      ≡ (done, publish (closed (round_in GameState.pending)) t pending))
    × (find_game store "g" t ≡ some (closed (round_in GameState.pending)))
    × (t.bets
        ≡ set_outcomes with_outcome
            (resolved_of store (pos 1) "g" (round_in GameState.pending) pending.tables)
            pending.tables.bets)
resolve_game-closes_example =
    resolve_game-closes store store-IsStore (pos 1) "g" (round_in GameState.pending) pending refl
      refl two_ids (both_bets _ refl refl)

resolve_game-late_example : resolve_game store (pos 1) "g" one_late ≡ (done, one_late)
resolve_game-late_example =
    resolve_game-late store store-IsStore (pos 1) "g" (round_in GameState.pending) one_late "a" refl
      refl two_ids mem-cons_self refl

finish-reopens_example :
    (v : Worker Rows ℤ) × (g : Round ℤ) × (finish_up_down_game_callback store "g"
        (some (pos 100))
        (some (pos 110))
        over
      ≡ (done, v))
    × (find_game store "g" v.tables ≡ some g)
    × (g.state ≡ GameState.pending)
    × (resolve_game store (pos 1) "g" v ≡ (done, v))
finish-reopens_example =
    finish-reopens store store-IsStore (pos 1) "g" (pos 100) (pos 110) (round_in GameState.close)
      over "a" refl refl two_ids mem-cons_self refl

abbrev settings : Settings
settings = record { asset = "BTC"; timeframe_seconds = 60 }

abbrev make_account : String → Action Rows (Unit {0})
make_account id s = (ok tt, s)

up_down_start-IsStarted_example :
    IsStarted store up_down_parked
      (new_game store settings 5)
      make_account
      waiting
      (UpDown.Worker.on_module_init store settings 5 make_account waiting)
up_down_start-IsStarted_example =
    up_down_start-IsStarted store store-IsStore settings 5 make_account waiting (λ id s. refl)

bulls_eye_start-IsStarted_example :
    IsStarted store bulls_eye_parked
      (new_bulls_eye_game store game_config 5)
      make_account
      waiting
      (BullsEye.Worker.on_module_init store game_config 5 make_account waiting)
bulls_eye_start-IsStarted_example =
    bulls_eye_start-IsStarted store store-IsStore game_config 5 make_account waiting (λ id s. refl)

-- the first place takes the pool
abbrev winner_takes_all : WinnerCoefficients ℤ
winner_takes_all = record {
  first_place = pos 1;
  second_place = pos 0;
  third_place = pos 0;
  first_of_two = pos 1;
  second_of_two = pos 0;
}

abbrev rates : Rates ℤ
rates = record {
  platform_fee = pos 1;
  accuracy_level = pos 1;
  exact_winner_coefficients = winner_takes_all;
  default_winner_coefficients = winner_takes_all;
}

bulls_eye_round-closes_example :
    (w1 : Worker Rows ℤ) × (w2 : Worker Rows ℤ) × (w3 : Worker Rows ℤ) × (r : Results ℤ)
    × (start_bulls_eye_game_callback store "g" (some (pos 100)) waiting ≡ (done, w1))
    × (finish_bulls_eye_game_callback store "g" (some (pos 100)) (some (pos 110)) w1 ≡ (done, w2))
    × (resolve_bulls_eye_game store rates "g" w2 ≡ (done, w3))
    × (get_bulls_eye_game_result (
          with_bets rates
            (Life.finished (some (pos 110)) (Life.started (pos 100) (round_in GameState.open_game)))
            (find_bets store "g" w2.tables))
        ≡ ok r)
    × (find_game store "g" w3.tables
        ≡ some (
            closed_for r (
              Life.finished
                (some (pos 110))
                (Life.started (pos 100) (round_in GameState.open_game)))))
    × (w3.published
        ≡ closed_for r
            (Life.finished (some (pos 110)) (Life.started (pos 100) (round_in GameState.open_game)))
          ∷ Life.finished (some (pos 110)) (Life.started (pos 100) (round_in GameState.open_game))
          ∷ Life.started (pos 100) (round_in GameState.open_game)
          ∷ [])
bulls_eye_round-closes_example =
    bulls_eye_round-closes store store-IsStore rates "g" (pos 100) (pos 110)
      (round_in GameState.open_game) waiting refl refl refl refl two_ids (both_bets _ refl refl)
      ((pos 105, refl), ((pos 90, refl), tt))

abbrev item : HeapItem ℤ
item = record {
  game_id = "g";
  is_long = true;
  take_profit = pos 120;
  stop_loss = pos 80;
  start_at_timestamp = 0;
  end_at_timestamp = 20;
}

abbrev heap : SetupGamesHeap ℤ
heap = record { asset_id = "BTC"; heap = item ∷ record item { game_id = "h" } ∷ [] }

abbrev setups : SetupWorker Rows ℤ
setups = record {
  tables = rows_in GameState.open_game BetResult.open_bet BetResult.open_bet;
  heaps = heap ∷ [];
  published = [];
  jobs = [];
}

-- The price reaches the setup, and the finalizer resolves it.
ReachSetup-IsForward_example :
    IsForward store setups.tables
      (perform_setup store
        (resolve (pos 1) "g")
        (perform_setup store (price_changed "BTC" (pos 130) 7) setups)).tables
ReachSetup-IsForward_example =
    ReachSetup-IsForward store store-IsStore
      (then_step (then_step start (price_changed "BTC" (pos 130) 7)) (resolve (pos 1) "g"))
