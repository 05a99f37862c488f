-- ===== src/Rounds/Setup/Worker.antt =====
-- apps/setups-worker/src/modules/game-worker/setupGame.worker.ts. The prices that the price service
-- gives are arguments. A price is handled whole before the next one.
use backend_showcase.Prelude.{
  ℕ, String, Bool, false, not, ◌||◌, ◌==◌, Option, none, some, List, [], ◌∷◌, filter, if◌then◌else◌,
  str_eq,
}
use backend_showcase.Decimal.{Decimal}
use backend_showcase.Ledger.Result.{Result, ok, err, record_not_found}
use backend_showcase.Rounds.Tables.{Round, Tables}
use backend_showcase.Rounds.Repository.{is_game_open, is_game_close, is_game_in_pending, is_active}
use backend_showcase.Rounds.Setup.{
  move_game_to_in_progress_state, move_game_to_pending_state, get_bets_count_by_game_id,
}
use backend_showcase.Rounds.Setup.Heap.{
  HeapItem, SetupGamesHeap, add_game, delete_games, get_games_by_price,
}

-- The jobs of a game, each with what it needs to be scheduled again.
pub data SetupJob : Type 0 where
  completion : String → String → ℕ → SetupJob
  stop_bets : String → ℕ → SetupJob

-- the worker: the database, the heaps of the assets, the events that were published and the jobs
pub record SetupWorker (S D : Type 0) : Type 0 where
  pub tables : S
  pub heaps : List (SetupGamesHeap D)
  pub published : List (Round D)
  pub jobs : List SetupJob

-- `game:setup:…` and `game:setup:stopbets:…` of the game
abbrev pub is_completion_of : String → SetupJob → Bool
is_completion_of id (completion asset_id game_id end_at) = str_eq game_id id
is_completion_of id (stop_bets game_id at) = false

abbrev pub is_stop_bets_of : String → SetupJob → Bool
is_stop_bets_of id (completion asset_id game_id end_at) = false
is_stop_bets_of id (stop_bets game_id at) = str_eq game_id id

-- A job takes the place of the one with its name.
unfoldable pub schedule_game_completion : String → String → ℕ → List SetupJob → List SetupJob
schedule_game_completion asset_id game_id end_at jobs =
    completion asset_id game_id end_at ∷ filter (λ j. not (is_completion_of game_id j)) jobs

unfoldable pub schedule_game_stop_bets_at_event : String → ℕ → List SetupJob → List SetupJob
schedule_game_stop_bets_at_event game_id at jobs =
    stop_bets game_id at ∷ filter (λ j. not (is_stop_bets_of game_id j)) jobs

unfoldable pub clear_all_scheduling : String → List SetupJob → List SetupJob
clear_all_scheduling game_id jobs =
    filter (λ j. not (is_completion_of game_id j || is_stop_bets_of game_id j)) jobs

module _ {D : Type 0} where
  -- A heap that is not there is made.
  unfoldable pub get_setup_game_heap : String → List (SetupGamesHeap D) → SetupGamesHeap D
  get_setup_game_heap asset_id [] = record { asset_id = asset_id; heap = [] }
  get_setup_game_heap asset_id (h ∷ heaps) =
      if str_eq h.asset_id asset_id then h else get_setup_game_heap asset_id heaps

  unfoldable pub set_setup_game_heap :
      SetupGamesHeap D → List (SetupGamesHeap D) → List (SetupGamesHeap D)
  set_setup_game_heap h [] = h ∷ []
  set_setup_game_heap h (k ∷ heaps) =
      if str_eq k.asset_id h.asset_id then h ∷ heaps else k ∷ set_setup_game_heap h heaps

module _ {D : Type 0} ⦃dec : Decimal D⦄ where
  -- The limits are numbers in the heap.
  abbrev pub item_of : Round D → HeapItem D
  item_of game = record {
    game_id = game.id;
    is_long = game.is_long;
    take_profit = dec.to_number game.take_profit;
    stop_loss = dec.to_number game.stop_loss;
    start_at_timestamp = game.start_at;
    end_at_timestamp = game.end_at;
  }

  unfoldable pub add_to_heap : Round D → List (SetupGamesHeap D) → List (SetupGamesHeap D)
  add_to_heap game heaps =
      set_setup_game_heap (add_game (item_of game) (get_setup_game_heap game.asset_id heaps)) heaps

module _ {D : Type 0} where
  unfoldable pub delete_from_heap : Round D → List (SetupGamesHeap D) → List (SetupGamesHeap D)
  delete_from_heap game heaps =
      set_setup_game_heap (delete_games (game.id ∷ []) (get_setup_game_heap game.asset_id heaps))
        heaps

module _ {S D : Type 0} where
  abbrev pub publish_setup : Round D → S → SetupWorker S D → SetupWorker S D
  publish_setup g s w = record w { tables = s; published = g ∷ w.published }

  abbrev pub drop_finished : Round D → SetupWorker S D → SetupWorker S D
  drop_finished event w =
      if is_game_close event.state || is_game_in_pending event.state
      then record w { heaps = delete_from_heap event w.heaps }
      else w

module _ {S D : Type 0} ⦃dec : Decimal D⦄ where
  abbrev pub take_open : Round D → SetupWorker S D → SetupWorker S D
  take_open event w =
      if is_game_open event.state
      then record w {
        heaps = add_to_heap event w.heaps;
        jobs = schedule_game_stop_bets_at_event event.id event.stop_bets_at w.jobs;
      }
      else w

  unfoldable pub on_game_changed : Round D → SetupWorker S D → SetupWorker S D
  on_game_changed event w = take_open event (drop_finished event w)

module _ {S D : Type 0} ⦃dec : Decimal D⦄ (db : Tables S D) where
  -- Any error is only logged.
  abbrev pub after_price : String → SetupWorker S D → Result (Round D) × S → SetupWorker S D
  after_price game_id w (ok g, s) = record (publish_setup g s w) {
    jobs = clear_all_scheduling game_id w.jobs;
  }
  after_price game_id w (err e, s) = record w { tables = s }

  -- the loop over the games that the price has reached
  unfoldable pub end_games_at : D → List (HeapItem D) → SetupWorker S D → SetupWorker S D
  end_games_at price [] w = w
  end_games_at price (item ∷ items) w = end_games_at price items (
      after_price item.game_id w (move_game_to_pending_state db item.game_id (some price) w.tables))

  unfoldable pub handle_price_changed_event : String → D → ℕ → SetupWorker S D → SetupWorker S D
  handle_price_changed_event asset_id price timestamp w =
      let heap = get_setup_game_heap asset_id w.heaps in
      end_games_at price (get_games_by_price price timestamp heap)
        (record w { heaps = set_setup_game_heap heap w.heaps })

  -- The job is scheduled again after an error, unless the game was not found.
  abbrev pub after_end :
      String → String → ℕ → SetupWorker S D → Result (Round D) × S → SetupWorker S D
  after_end asset_id game_id end_at w (ok g, s) = publish_setup g s w
  after_end asset_id game_id end_at w (err record_not_found, s) = record w { tables = s }
  after_end asset_id game_id end_at w (err e, s) = record w {
    tables = s;
    jobs = schedule_game_completion asset_id game_id end_at w.jobs;
  }

  -- `finalize`, with the price of the asset, if the price service gives one
  unfoldable pub finalize : String → String → ℕ → Option D → SetupWorker S D → SetupWorker S D
  finalize asset_id game_id end_at none w = record w {
    jobs = schedule_game_completion asset_id game_id end_at w.jobs;
  }
  finalize asset_id game_id end_at (some price) w =
      after_end asset_id game_id end_at w
        (move_game_to_pending_state db game_id (some price) w.tables)

  abbrev pub after_stop :
      String
      → ℕ
      → (Round D → List SetupJob → List SetupJob)
      → SetupWorker S D
      → Result (Round D) × S
      → SetupWorker S D
  after_stop game_id at plan w (ok g, s) = record (publish_setup g s w) { jobs = plan g w.jobs }
  after_stop game_id at plan w (err record_not_found, s) = record w { tables = s }
  after_stop game_id at plan w (err e, s) = record w {
    tables = s;
    jobs = schedule_game_stop_bets_at_event game_id at w.jobs;
  }

  -- A game without bets is over when the bets stop.
  unfoldable pub check_after_stop_bets_at_time : String → ℕ → SetupWorker S D → SetupWorker S D
  check_after_stop_bets_at_time game_id at w =
      if get_bets_count_by_game_id db game_id w.tables == 0
      then after_stop game_id at (λ g jobs. jobs) w
          (move_game_to_pending_state db game_id none w.tables)
      else after_stop game_id at (λ g jobs. schedule_game_completion g.asset_id g.id g.end_at jobs)
          w (move_game_to_in_progress_state db game_id w.tables)

  abbrev pub get_active_games : S → List (Round D)
  get_active_games s = filter (λ (g : Round D). is_active g.state) (db.games s)

  abbrev relaunch : Round D → List SetupJob → List SetupJob
  relaunch game jobs =
      if is_game_open game.state
      then schedule_game_stop_bets_at_event game.id game.stop_bets_at jobs
      else schedule_game_completion game.asset_id game.id game.end_at jobs

  unfoldable pub relaunch_all : List (Round D) → SetupWorker S D → SetupWorker S D
  relaunch_all [] w = w
  relaunch_all (game ∷ games) w =
      relaunch_all games
        (record w { heaps = add_to_heap game w.heaps; jobs = relaunch game w.jobs })

  -- A new process begins without heaps and jobs.
  unfoldable pub restart_games_after_reboot : SetupWorker S D → SetupWorker S D
  restart_games_after_reboot w =
      relaunch_all (get_active_games w.tables) (record w { heaps = []; jobs = [] })
