-- ===== src/Rounds/Worker.antt =====
-- What the workers of the Up/Down and of the Bulls-Eye games have in common
-- (apps/up-down-worker/src/modules/game-worker/upDownGame.worker.ts and
-- apps/bulls-eye-worker/src/modules/game-worker/bullsEyeGame.worker.ts). The price that the price
-- service gives is an argument; the cache and the stream of events are left out.
pub mod Parked
pub mod Startup
use backend_showcase.Prelude.{
  ℕ, ◌+◌, ◌*◌, filter, String, Bool, true, false, Option, none, some, List, [], ◌∷◌, if◌then◌else◌,
}
use backend_showcase.Decimal.{Decimal}
use backend_showcase.Ledger.Result.{
  LedgerError, Result, ok, err, record_not_found, unique_constraint,
}
use backend_showcase.Ledger.Action.{Action, pure, in_transaction, ◌>>=◌}
use backend_showcase.Ledger.GamesRewards.{GameState}
use backend_showcase.Rounds.Tables.{Round, Tables, is_taken}
use backend_showcase.Rounds.Repository.{is_active}

-- what a worker schedules; a job of a name replaces the one that has it
pub data Job (D : Type 0) : Type 0 where
  start_game : String → Job D
  finish_game : String → Option D → Job D

-- how a handler ends: `process.exit(1)` restarts the application
pub data Handled : Type 0 where
  done exited : Handled
  thrown : LedgerError → Handled

-- The worker: the database, the events that were published, the latest first, and the jobs.
pub record Worker (S D : Type 0) : Type 0 where
  pub tables : S
  pub published : List (Round D)
  pub jobs : List (Job D)

-- The migrations put a unique index on the states OPEN and INPROGRESS of both tables.
abbrev pub has_unique_index : GameState → Bool
has_unique_index state = is_active state

module _ {D : Type 0} where
  -- the jobs without those of this name
  unfoldable pub without_start : List (Job D) → List (Job D)
  without_start [] = []
  without_start (start_game id ∷ jobs) = without_start jobs
  without_start (finish_game id price ∷ jobs) = finish_game id price ∷ without_start jobs

  unfoldable pub without_finish : List (Job D) → List (Job D)
  without_finish [] = []
  without_finish (finish_game id price ∷ jobs) = without_finish jobs
  without_finish (start_game id ∷ jobs) = start_game id ∷ without_finish jobs

module _ {D : Type 0} ⦃dec : Decimal D⦄ where
  -- `Boolean(startPrice)`: a start price of 0 counts as none.
  unfoldable pub start_price_set : Option D → Option D
  start_price_set none = none
  start_price_set (some start_price) =
      if dec.equals start_price (dec.from_ℕ 0) then none else some start_price

  -- the data of a new game, whose bets stop and which ends so many milliseconds from now
  abbrev pub new_game_at : String → ℕ → ℕ → ℕ → String → Round D
  new_game_at asset now open_for lasts id = record {
    id = id;
    state = GameState.open_game;
    asset_id = asset;
    start_at = now;
    stop_bets_at = now + open_for;
    end_at = now + lasts;
    start_price = none;
    end_price = none;
    is_up = none;
    winner_id = none;
    winner_bet_id = none;
    take_profit = dec.from_ℕ 0;
    stop_loss = dec.from_ℕ 0;
    is_long = false;
    owner_id = "";
    result = none;
    owner_profit = none;
  }

module _ {S D : Type 0} where
  -- what follows a move: the event of the moved game is published
  abbrev pub publish : Round D → S → Worker S D → Worker S D
  publish g s w = record w { tables = s; published = g ∷ w.published }

  -- A row that is not found is only logged; with any other error the application restarts.
  unfoldable pub after_move : Worker S D → Result (Round D) × S → Handled × Worker S D
  after_move w (ok g, s) = (done, publish g s w)
  after_move w (err record_not_found, s) = (done, record w { tables = s })
  after_move w (err e, s) = (exited, record w { tables = s })

  abbrev pub if_done :
      Handled × Worker S D → (Worker S D → Handled × Worker S D) → Handled × Worker S D
  if_done (done, w) next = next w
  if_done (exited, w) next = (exited, w)
  if_done (thrown e, w) next = (thrown e, w)

  abbrev pub or_exit : Handled × Worker S D → Handled × Worker S D
  or_exit (done, w) = (done, w)
  or_exit (exited, w) = (exited, w)
  or_exit (thrown e, w) = (exited, w)

  -- When the application starts, a game that is not found is an error like any other.
  abbrev pub after_first_move : Worker S D → Result (Round D) × S → Handled × Worker S D
  after_first_move w (ok g, s) = (done, publish g s w)
  after_first_move w (err e, s) = (thrown e, record w { tables = s })

  -- A second game in one of the states of the unique index is not an error.
  abbrev pub after_create : Worker S D → Result (Round D) × S → Handled × Worker S D
  after_create w (ok g, s) = (done, publish g s w)
  after_create w (err unique_constraint, s) = (done, record w { tables = s })
  after_create w (err e, s) = (thrown e, record w { tables = s })

  -- the three tests of the state of an event
  abbrev pub on_changed :
      (Worker S D → Handled × Worker S D) → Round D → GameState → Worker S D → Handled × Worker S D
  on_changed on_closed event GameState.open_game w =
      (done, record w { jobs = start_game event.id ∷ without_start w.jobs })
  on_changed on_closed event GameState.in_progress w =
      (done, record w { jobs = finish_game event.id event.start_price ∷ without_finish w.jobs })
  on_changed on_closed event GameState.close w = on_closed w
  on_changed on_closed event GameState.pending w = (done, w)
  on_changed on_closed event GameState.draft w = (done, w)

  -- the loop over the active games when the application starts, with the move of the repository
  unfoldable pub move_all :
      (String → Action S (Round D)) → List (Round D) → Worker S D → Handled × Worker S D
  move_all move [] w = (done, w)
  move_all move (game ∷ games) w =
      if_done (after_first_move w (move game.id w.tables)) (move_all move games)

module _ {S D : Type 0} (db : Tables S D) where
  abbrev create_row : (String → Round D) → Action S (Round D)
  create_row game s =
      if is_taken GameState.open_game (db.new_id s) (db.games s)
      then (err unique_constraint, s)
      else (ok (game (db.new_id s)), db.write_games (game (db.new_id s) ∷ db.games s) s)

  -- `createGame` in its transaction, with the ledger's `createGameAccount`
  unfoldable pub create_game :
      (String → Round D) → (String → Action S (Unit {0})) → Action S (Round D)
  create_game game create_account =
      in_transaction (do g ← create_row game; created ← create_account g.id; pure g)

  -- `getActiveGames`
  abbrev pub get_active_games : S → List (Round D)
  get_active_games s = filter (λ (g : Round D). is_active g.state) (db.games s)
