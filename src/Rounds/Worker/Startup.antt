-- ===== src/Rounds/Worker/Startup.antt =====
-- What the workers of the Up/Down and of the Bulls-Eye games do when they start (`onModuleInit` of
-- apps/up-down-worker and apps/bulls-eye-worker).
use backend_showcase.Prelude.{ℕ, ◌≡◌, ◌⊎◌, inl, inr, refl, sym, ap, ◌∙◌, String, true, none, ◌∷◌}
use backend_showcase.Decimal.{Decimal}
use backend_showcase.Ledger.Result.{LedgerError, Result, ok, err, unique_constraint}
use backend_showcase.Ledger.Action.{Action, pure, in_transaction, resume, roll_back, ◌>>=◌}
use backend_showcase.Ledger.GamesRewards.{GameState}
use backend_showcase.Games.Bet.{BetResult}
use backend_showcase.Rounds.Tables.{Round, Tables, IsStore}
use backend_showcase.Rounds.Moves.{move_lem}
use backend_showcase.Rounds.Repository.{is_bet_active, any_state}
use backend_showcase.Rounds.Worker.{
  has_unique_index, Handled, done, exited, or_exit, Worker, after_create, create_game,
}
use backend_showcase.Rounds.Worker.Parked.{none_active, none_active-taken, parked, move_all-parked}
use backend_showcase.Rounds.UpDown
use backend_showcase.Rounds.UpDown.Worker.{Settings, new_game, on_up_down_game_closed}
use backend_showcase.Rounds.BullsEye
use backend_showcase.Rounds.BullsEye.Worker.{
  BullsEyeSettings, new_bulls_eye_game, on_bulls_eye_game_closed,
}

module _ {S D : Type 0} (db : Tables S D) where
  -- The ledger leaves the games alone.
  abbrev pub LeavesGames : (String → Action S (Unit {0})) → Type 0
  LeavesGames create_account = (id : String) (s : S) → db.games (create_account id s).1 ≡ db.games s

  -- what the ledger does for a new game, once its row is written
  abbrev pub account_of :
      (String → Round D) → (String → Action S (Unit {0})) → S → Result (Unit {0}) × S
  account_of game create_account s =
      create_account (game (db.new_id s)).id (db.write_games (game (db.new_id s) ∷ db.games s) s)

  -- The new game is written before the others and published; or the ledger has thrown and neither is
  -- done: then the application restarts, unless the error is the one of a unique index.
  abbrev pub IsOpened :
      (String → Round D)
      → (String → Action S (Unit {0}))
      → Worker S D
      → Handled × Worker S D
      → Type 0
  IsOpened game create_account p r =
      (((account_of game create_account p.tables).0 ≡ ok tt)
        × (r.0 ≡ done)
        × (db.games r.1.tables ≡ game (db.new_id p.tables) ∷ db.games p.tables)
        × (r.1.published ≡ game (db.new_id p.tables) ∷ p.published))
      ⊎ ((e : LedgerError) × ((account_of game create_account p.tables).0 ≡ err e)
          × (r.1 ≡ p)
          × ((r.0 ≡ exited) ⊎ (e ≡ unique_constraint)))

  -- A worker is started: every game that has the id of an active one is changed by `park` and the
  -- others are not, so that no game is active, and then a new game is opened.
  abbrev pub IsStarted :
      (Round D → Round D)
      → (String → Round D)
      → (String → Action S (Unit {0}))
      → Worker S D
      → Handled × Worker S D
      → Type 0
  IsStarted park game create_account w r =
      (p : Worker S D) × (db.games p.tables ≡ parked park (db.games w.tables))
      × (none_active (db.games p.tables) ≡ true)
      × IsOpened game create_account p r

opening :
    {S D : Type 0} (db : Tables S D) (store : IsStore db) (game : String → Round D)
    (create_account : String → Action S (Unit {0})) (p : Worker S D)
    → db.games (account_of db game create_account p.tables).1
      ≡ game (db.new_id p.tables) ∷ db.games p.tables
    → (r : Result (Unit {0}) × S) → account_of db game create_account p.tables ≡ r
    → IsOpened db game create_account p (
        or_exit (
          after_create p
            (roll_back p.tables (resume r.0 (λ created. pure (game (db.new_id p.tables))) r.1))))
unfolding ◌>>=◌
opening db store game create_account p rows (ok made, t) same =
    inl (ap (λ r. r.0) same, refl, sym (ap (λ r. db.games r.1) same) ∙ rows, refl)
opening db store game create_account p rows (err unique_constraint, t) same =
    inr (unique_constraint, ap (λ r. r.0) same, refl, inr refl)
opening db store game create_account p rows (err e, t) same =
    inr (e, ap (λ r. r.0) same, refl, inl refl)

module _ {S D : Type 0} (db : Tables S D) (store : IsStore db) where
  create_game-IsOpened :
      (game : String → Round D) (create_account : String → Action S (Unit {0})) (p : Worker S D)
      → LeavesGames db create_account
      → none_active (db.games p.tables) ≡ true
      → IsOpened db game create_account p
          (or_exit (after_create p (create_game db game create_account p.tables)))
  unfolding create_game in_transaction ◌>>=◌
  create_game-IsOpened game create_account p leaves idle =
      let s = p.tables in
      let g = game (db.new_id s) in
      let free = none_active-taken GameState.open_game (db.new_id s) (db.games s) idle refl in
      rw free (
        opening db store game create_account p
          (leaves g.id (db.write_games (g ∷ db.games s) s)
            ∙ store.games-write_games (g ∷ db.games s) s)
          (account_of db game create_account s) refl)

-- the changes of the games that are parked
abbrev pub up_down_parked : {D : Type 0} → Round D → Round D
up_down_parked g = record g { state = GameState.pending; end_price = none; is_up = none }

abbrev pub bulls_eye_parked : {D : Type 0} → Round D → Round D
bulls_eye_parked g = record g { state = GameState.pending; end_price = none }

module _ {S D : Type 0} ⦃dec : Decimal D⦄ (db : Tables S D) (store : IsStore db) where
  -- When the application of the Up/Down games starts, exactly the games that have the id of an open
  -- game or one in progress are taken to the state PENDING, without end price and side; then no game is
  -- active. After that a new game is opened: when the ledger makes its account, it is written before
  -- the others, its event is published last and the application goes on; when the ledger throws, no
  -- game is written and the application restarts, unless the error is the one of a unique index. (The
  -- ledger leaves the games alone.)
  pub up_down_start-IsStarted :
      (settings : Settings) (now : ℕ) (create_account : String → Action S (Unit {0}))
      (w : Worker S D)
      → LeavesGames db create_account
      → IsStarted db up_down_parked
          (new_game db settings now)
          create_account
          w
          (UpDown.Worker.on_module_init db settings now create_account w)
  unfolding UpDown.Worker.on_module_init UpDown.Worker.move_all_open_games_to_pending_state
      UpDown.Worker.on_up_down_game_closed UpDown.move_game_to_pending_state
  up_down_start-IsStarted settings now create_account w leaves =
      let (p, moved, idle, rows_left) =
        move_all-parked db (λ id. UpDown.move_game_to_pending_state db id none none) up_down_parked
          w (λ g. refl) (λ g. refl) (λ g. refl)
          (λ id g s found.
            let (t, ok_moved, there, games, rows) =
              move_lem db store has_unique_index id is_bet_active BetResult.pending any_state
                up_down_parked g s (λ g. refl) found refl refl in
            (t, ok_moved, games)) in
      (
        p,
        rows_left,
        idle,
        rw moved
            (create_game-IsOpened db store (new_game db settings now) create_account p leaves idle),
      )

  -- When the application of the Bulls-Eye games starts, the same holds of its games, of which no side is
  -- stored.
  pub bulls_eye_start-IsStarted :
      (settings : BullsEyeSettings) (now : ℕ) (create_account : String → Action S (Unit {0}))
      (w : Worker S D)
      → LeavesGames db create_account
      → IsStarted db bulls_eye_parked
          (new_bulls_eye_game db settings now)
          create_account
          w
          (BullsEye.Worker.on_module_init db settings now create_account w)
  unfolding BullsEye.Worker.on_module_init BullsEye.Worker.move_all_open_games_to_pending_state
      BullsEye.Worker.on_bulls_eye_game_closed BullsEye.move_game_to_pending_state
  bulls_eye_start-IsStarted settings now create_account w leaves =
      let (p, moved, idle, rows_left) =
        move_all-parked db (λ id. BullsEye.move_game_to_pending_state db id none) bulls_eye_parked w
          (λ g. refl) (λ g. refl) (λ g. refl)
          (λ id g s found.
            let (t, ok_moved, there, games, rows) =
              move_lem db store has_unique_index id is_bet_active BetResult.pending any_state
                bulls_eye_parked g s (λ g. refl) found refl refl in
            (t, ok_moved, games)) in
      (
        p,
        rows_left,
        idle,
        rw moved (
            create_game-IsOpened db store (new_bulls_eye_game db settings now) create_account p
              leaves idle),
      )
