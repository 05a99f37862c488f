-- ===== src/Rounds/BullsEye/Closed.antt =====
-- How a Bulls-Eye game is closed
-- (apps/bulls-eye-worker/src/modules/games-finalizer/bullsEyeGamesResolver.service.ts).
use mathlib.Core.List.{Nodup}
use mathlib.Core.List.Perm
use backend_showcase.Prelude.{◌≡◌, refl, ◌∙◌, ap, String, true, some}
use backend_showcase.Decimal.{Decimal}
use backend_showcase.Ledger.Result.{ok}
use backend_showcase.Ledger.Action.{roll_back, in_transaction, bind_of_ok}
use backend_showcase.Ledger.GamesRewards.{GameState}
use backend_showcase.Games.Bet.{Results}
use backend_showcase.Games.BullsEye.{get_bulls_eye_game_result}
use backend_showcase.Games.BullsEye.Prizes.{ArePriced, get_bulls_eye_game_result-Perm}
use backend_showcase.Games.UpDown.Partition.{ids}
use backend_showcase.Rounds.Tables.{Round, Tables, IsStore, find_game, find_bets, find_row, set_row}
use backend_showcase.Rounds.Tables.Rows.{update_game-ok, find_game-write_games}
use backend_showcase.Rounds.Repository.{is_game_in_pending, close_each}
use backend_showcase.Rounds.Closing.{AllPending, set_outcomes, close_each-AreClosed}
use backend_showcase.Rounds.Worker.{has_unique_index, done, Worker, after_move, publish}
use backend_showcase.Rounds.UpDown.Closed.{resolved_bets-Perm}
use backend_showcase.Rounds.BullsEye.{with_place, move_game_to_close_state}
use backend_showcase.Rounds.BullsEye.Finalizer.{
  Rates, with_bets, resolved_bets, winner_id_of, winner_bet_id_of, close_bulls_eye_game,
  close_resolved, resolve_bulls_eye_found, resolve_bulls_eye_game,
}

module _ {D : Type 0} where
  abbrev pub closed_for : Results D → Round D → Round D
  closed_for r game = record game {
    state = GameState.close;
    winner_id = winner_id_of r.winners;
    winner_bet_id = winner_bet_id_of r.winners;
  }

module _ {S D : Type 0} ⦃dec : Decimal D⦄ (db : Tables S D) (store : IsStore db) where
  close_bulls_eye-closes :
      (id : String) (game : Round D) (r : Results D) (s : S)
      → find_game db id s ≡ some game
      → is_game_in_pending game.state ≡ true
      → Nodup (ids (resolved_bets r))
      → AllPending (resolved_bets r) (db.bets s)
      → (t : S) × (close_bulls_eye_game db id r s ≡ (ok (closed_for r game), t))
        × (find_game db id t ≡ some (closed_for r game))
        × (db.bets t ≡ set_outcomes with_place (resolved_bets r) (db.bets s))
  unfolding close_bulls_eye_game in_transaction move_game_to_close_state
  close_bulls_eye-closes id game r s found pending distinct all_pending =
      let rs = resolved_bets r in
      let (returns, moved, kept) =
        close_each-AreClosed db store with_place (λ r b. refl) rs s distinct all_pending in
      let mid = (close_each db with_place rs s).1 in
      let there : find_game db id mid ≡ some game = ap (find_row id) kept ∙ found in
      let all_moved : close_each db with_place rs s ≡ (ok tt, mid) = ap (λ x. (x, mid)) returns in
      let updated =
        update_game-ok db has_unique_index id is_game_in_pending (closed_for r) game mid there
          pending refl in
      (
        db.write_games (set_row id (closed_for r) (db.games mid)) mid,
        ap (roll_back s) (
            bind_of_ok (close_each db with_place rs)
              (λ done_all.
                move_game_to_close_state db id (winner_id_of r.winners)
                  (winner_bet_id_of r.winners))
              s all_moved
            ∙ updated),
        find_game-write_games db store id (closed_for r) game mid (λ g. refl) there,
        store.bets-write_games _ mid ∙ moved,
      )

  -- A pending Bulls-Eye game whose bets are pending and have prices, each with its own id, is closed:
  -- its results exist, the handler returns, the game has the state CLOSE and the owner and the id of
  -- the first winning bet, every bet has the columns that the results give it, its place among them,
  -- the other bets are as they were, and the closed game is published.
  pub resolve_bulls_eye_game-closes :
      (rates : Rates D) (id : String) (game : Round D) (w : Worker S D)
      → find_game db id w.tables ≡ some game
      → is_game_in_pending game.state ≡ true
      → Nodup (ids (find_bets db id w.tables))
      → AllPending (find_bets db id w.tables) (db.bets w.tables)
      → ArePriced (find_bets db id w.tables)
      → (r : Results D) × (t : S) × (get_bulls_eye_game_result
            (with_bets rates game (find_bets db id w.tables))
          ≡ ok r)
        × (resolve_bulls_eye_game db rates id w ≡ (done, publish (closed_for r game) t w))
        × (find_game db id t ≡ some (closed_for r game))
        × (db.bets t ≡ set_outcomes with_place (resolved_bets r) (db.bets w.tables))
  unfolding resolve_bulls_eye_game after_move
  resolve_bulls_eye_game-closes rates id game w found pending distinct all_pending all_priced =
      let (r, results, perm) =
        get_bulls_eye_game_result-Perm (with_bets rates game (find_bets db id w.tables))
          all_priced in
      let same = Perm.trans (Perm.map (λ b. b.id) (resolved_bets-Perm r)) perm in
      let (t, returns, there, moved) =
        close_bulls_eye-closes id game r w.tables found pending
          (Perm.nodup (Perm.symm same) distinct) (λ x m. all_pending x ((Perm.mem_iff same).0 m)) in
      (
        r,
        t,
        results,
        ap (resolve_bulls_eye_found db rates id w) found
            ∙ rw pending (ap (close_resolved db id w) results ∙ ap (after_move w) returns),
        there,
        moved,
      )
