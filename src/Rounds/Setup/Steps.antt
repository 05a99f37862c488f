-- ===== src/Rounds/Setup/Steps.antt =====
-- Everything that the worker and the finalizer of the setups do, as steps in any order
-- (apps/setups-worker/src/modules).
use backend_showcase.Prelude.{
  ℕ, ◌≡◌, refl, ◌∙◌, ap, String, Option, none, some, List, [], ◌∷◌, inl, inr, Bool-cases, arith,
  ◌==◌,
}
use backend_showcase.Decimal.{Decimal}
use backend_showcase.Ledger.Result.{Result, ok, err, record_not_found}
use backend_showcase.Ledger.Action.{in_transaction, resume, ◌>>=◌}
use backend_showcase.Games.Bet.{GameBet}
use backend_showcase.Games.Setup.{get_setup_game_result}
use backend_showcase.Rounds.Tables.{
  Round, Tables, IsStore, find_game, find_bets, has_bet, update_bet,
}
use backend_showcase.Rounds.Repository.{is_bet_pending, with_outcome, move_bet_to_close_state}
use backend_showcase.Rounds.Setup.{
  move_game_to_pending_state, move_game_to_close_state, get_pending_game_by_id,
  get_bets_count_by_game_id, pending_only, close_unseen, with_bets, close_with, finalize_game,
  no_unique_index,
}
use backend_showcase.Rounds.Setup.Heap.{HeapItem}
use backend_showcase.Rounds.Setup.Worker.{
  SetupJob, SetupWorker, after_price, after_end, after_stop, on_game_changed, end_games_at,
  handle_price_changed_event, finalize, check_after_stop_bets_at_time, relaunch_all,
  restart_games_after_reboot,
}
use backend_showcase.Rounds.Setup.Order.{
  IsForward, IsForward-trans, same_games, transaction-IsForward, update_game-IsForward,
  pending_rank, to_in_progress-IsForward, to_pending-IsForward,
}

-- A step, with what comes from outside: events, prices and times.
pub data SetupStep (D : Type 0) : Type 0 where
  game_changed : Round D → SetupStep D
  price_changed : String → D → ℕ → SetupStep D
  completion_job : String → String → ℕ → Option D → SetupStep D
  stop_bets_job : String → ℕ → SetupStep D
  resolve : D → String → SetupStep D
  reboot : SetupStep D

module _ {S D : Type 0} ⦃dec : Decimal D⦄ (db : Tables S D) where
  -- Whether the finalizer returns or throws, the worker goes on with the database.
  unfoldable pub perform_setup : SetupStep D → SetupWorker S D → SetupWorker S D
  perform_setup (game_changed event) w = on_game_changed event w
  perform_setup (price_changed asset_id price timestamp) w =
      handle_price_changed_event db asset_id price timestamp w
  perform_setup (completion_job asset_id game_id end_at price) w =
      finalize db asset_id game_id end_at price w
  perform_setup (stop_bets_job game_id at) w = check_after_stop_bets_at_time db game_id at w
  perform_setup (resolve platform_fee game_id) w = record w {
    tables = (finalize_game db platform_fee game_id w.tables).1;
  }
  perform_setup reboot w = restart_games_after_reboot db w

  pub data ReachSetup (w : SetupWorker S D) : SetupWorker S D → Type 0 where
    start : ReachSetup w w
    then_step :
        {v : SetupWorker S D}
        → ReachSetup w v
        → (c : SetupStep D) → ReachSetup w (perform_setup c v)

module _ {S D : Type 0} ⦃dec : Decimal D⦄ (db : Tables S D) (store : IsStore db) where
  stays : (s : S) → IsForward db s s
  stays s j = omega arith

  move_bet-games :
      (b : GameBet D) (s : S)
      → db.games (move_bet_to_close_state db with_outcome b s).1 ≡ db.games s
  unfolding move_bet_to_close_state update_bet
  move_bet-games b s = elim (Bool-cases (has_bet b.id is_bet_pending (db.bets s))) [
    | inl found ↦ rw found (store.games-write_bets _ s)
    | inr missing ↦ rw missing refl
  ]

  close_unseen-games :
      (bets : List (GameBet D)) (s : S) → db.games (close_unseen db bets s) ≡ db.games s
  unfolding close_unseen
  close_unseen-games [] s = refl
  close_unseen-games (b ∷ bets) s =
      close_unseen-games bets (move_bet_to_close_state db with_outcome b s).1 ∙ move_bet-games b s

  close_with-IsForward :
      (fee : D) (id : String) (game : Round D) (s : S)
      → IsForward db s
          (in_transaction
            (close_with db id (get_setup_game_result (with_bets fee game (find_bets db id s))))
            s).1
  unfolding move_game_to_close_state
  close_with-IsForward fee id game s = transaction-IsForward db store _ s (
      IsForward-trans db store s _ _ (same_games db store s _ (close_unseen-games _ s)) (
        update_game-IsForward db store no_unique_index id _ _ _ (λ g. refl)
          (λ g h. pending_rank g.state h)))

  finalize_game-IsForward :
      (fee : D) (id : String) (s : S) → IsForward db s (finalize_game db fee id s).1
  unfolding finalize_game get_pending_game_by_id ◌>>=◌
  finalize_game-IsForward fee id s = resumed (pending_only db (find_game db id s))
    where
      resumed :
          (r : Result (Round D))
          → IsForward db s
              (resume r
                (λ game t.
                  in_transaction
                    (close_with db id
                      (get_setup_game_result (with_bets fee game (find_bets db id t))))
                    t)
                s).1
      resumed (ok game) = close_with-IsForward fee id game s
      resumed (err e) = stays s

module _ {S D : Type 0} ⦃dec : Decimal D⦄ (db : Tables S D) where
  after_price-tables :
      (id : String) (w : SetupWorker S D) (r : Result (Round D) × S)
      → (after_price db id w r).tables ≡ r.1
  after_price-tables id w (ok g, s) = refl
  after_price-tables id w (err e, s) = refl

  after_end-tables :
      (asset_id id : String) (end_at : ℕ) (w : SetupWorker S D) (r : Result (Round D) × S)
      → (after_end db asset_id id end_at w r).tables ≡ r.1
  after_end-tables asset_id id end_at w (ok g, s) = refl
  after_end-tables asset_id id end_at w (err record_not_found, s) = refl
  after_end-tables asset_id id end_at w (err e, s) = refl

  after_stop-tables :
      (id : String) (at : ℕ) (plan : Round D → List SetupJob → List SetupJob) (w : SetupWorker S D)
      (r : Result (Round D) × S)
      → (after_stop db id at plan w r).tables ≡ r.1
  after_stop-tables id at plan w (ok g, s) = refl
  after_stop-tables id at plan w (err record_not_found, s) = refl
  after_stop-tables id at plan w (err e, s) = refl

  relaunch_all-tables :
      (games : List (Round D)) (w : SetupWorker S D) → (relaunch_all db games w).tables ≡ w.tables
  unfolding relaunch_all
  relaunch_all-tables [] w = refl
  relaunch_all-tables (game ∷ games) w = relaunch_all-tables games _

  on_game_changed-tables :
      (event : Round D) (w : SetupWorker S D) → (on_game_changed event w).tables ≡ w.tables
  unfolding on_game_changed
  on_game_changed-tables event w = ground arith

module _ {S D : Type 0} ⦃dec : Decimal D⦄ (db : Tables S D) (store : IsStore db) where
  end_games_at-IsForward :
      (price : D) (items : List (HeapItem D)) (w : SetupWorker S D)
      → IsForward db w.tables (end_games_at db price items w).tables
  unfolding end_games_at
  end_games_at-IsForward price [] w = stays db store w.tables
  end_games_at-IsForward price (item ∷ items) w =
      let r = move_game_to_pending_state db item.game_id (some price) w.tables in
      IsForward-trans db store w.tables (after_price db item.game_id w r).tables _
        (rw (after_price-tables db item.game_id w r)
          (to_pending-IsForward db store item.game_id (some price) w.tables))
        (end_games_at-IsForward price items (after_price db item.game_id w r))

  perform_setup-IsForward :
      (c : SetupStep D) (w : SetupWorker S D) → IsForward db w.tables (perform_setup db c w).tables
  unfolding perform_setup handle_price_changed_event finalize check_after_stop_bets_at_time
      restart_games_after_reboot
  perform_setup-IsForward (game_changed event) w =
      same_games db store w.tables _ (ap db.games (on_game_changed-tables db event w))
  perform_setup-IsForward (price_changed asset_id price timestamp) w =
      end_games_at-IsForward price _ _
  perform_setup-IsForward (completion_job asset_id id end_at none) w = stays db store w.tables
  perform_setup-IsForward (completion_job asset_id id end_at (some price)) w =
      rw (after_end-tables db asset_id id end_at w _)
        (to_pending-IsForward db store id (some price) w.tables)
  perform_setup-IsForward (stop_bets_job id at) w =
      elim (Bool-cases (get_bets_count_by_game_id db id w.tables == 0)) [
        | inl no_bets ↦
            rw no_bets (
              rw (after_stop-tables db id at _ w _)
                (to_pending-IsForward db store id none w.tables))
        | inr bets ↦
            rw bets (
              rw (after_stop-tables db id at _ w _) (to_in_progress-IsForward db store id w.tables))
      ]
  perform_setup-IsForward (resolve fee id) w = finalize_game-IsForward db store fee id w.tables
  perform_setup-IsForward reboot w =
      same_games db store w.tables _
        (ap db.games (relaunch_all-tables db _ (record w { heaps = []; jobs = [] })))

  -- Whatever the worker and the finalizer of the setups do, in whatever order events, prices, jobs and
  -- reboots come, no setup is taken back: its state is never before one that it had, in the order
  -- DRAFT, OPEN, INPROGRESS, PENDING, CLOSE.
  pub ReachSetup-IsForward :
      {w v : SetupWorker S D} → ReachSetup db w v → IsForward db w.tables v.tables
  ReachSetup-IsForward start = stays db store _
  ReachSetup-IsForward (then_step {v} reached c) =
      IsForward-trans db store _ _ _ (ReachSetup-IsForward reached) (perform_setup-IsForward c v)
