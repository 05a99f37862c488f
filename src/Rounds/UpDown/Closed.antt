-- ===== src/Rounds/UpDown/Closed.antt =====
-- How an Up/Down game is closed
-- (apps/up-down-worker/src/modules/games-finalizer/upDownGamesResolver.service.ts).
use mathlib.Core.List.{Mem, Nodup, Perm, perm_append_comm, append_assoc}
use mathlib.Core.List.Perm
use backend_showcase.Prelude.{◌≡◌, refl, ◌∙◌, ap, String, true, false, some, List, ◌++◌}
use backend_showcase.Decimal.{Decimal}
use backend_showcase.Ledger.Result.{ok, err, record_not_found}
use backend_showcase.Ledger.Action.{in_transaction, roll_back, bind_of_ok, bind_of_err}
use backend_showcase.Ledger.GamesRewards.{GameState}
use backend_showcase.Games.Bet.{GameBet, Results}
use backend_showcase.Games.UpDown.{get_up_down_game_results}
use backend_showcase.Games.UpDown.Partition.{ids, all_bets, get_up_down_game_results-Perm}
use backend_showcase.Rounds.Tables.{
  Round, Tables, IsStore, find_game, find_bets, find_row, set_row, has_bet,
}
use backend_showcase.Rounds.Tables.Rows.{update_game-ok, find_game-write_games}
use backend_showcase.Rounds.Repository.{
  is_game_in_pending, is_bet_pending, with_outcome, close_each,
}
use backend_showcase.Rounds.Closing.{
  AllPending, set_outcomes, close_each-AreClosed, close_each-late,
}
use backend_showcase.Rounds.UpDown.{move_game_to_close_state}
use backend_showcase.Rounds.Worker.{done, Worker, after_move, publish, has_unique_index}
use backend_showcase.Rounds.UpDown.Finalizer.{
  with_bets, resolved_bets, close_game, resolve_found, resolve_game,
}

module _ {D : Type 0} where
  abbrev pub closed : Round D → Round D
  closed game = record game { state = GameState.close }

  pub resolved_bets-Perm : (r : Results D) → Perm (resolved_bets r) (all_bets r)
  resolved_bets-Perm r =
      rw (← append_assoc r.losers r.rejects r.winners)
        (perm_append_comm (r.losers ++ r.rejects) r.winners)

module _ {S D : Type 0} ⦃dec : Decimal D⦄ (db : Tables S D) (fee : D) where
  -- the bets of a game with their results, in the order in which they are moved
  abbrev pub resolved_of : String → Round D → S → List (GameBet D)
  resolved_of id game s =
      resolved_bets (get_up_down_game_results (with_bets game (find_bets db id s)) fee)

  resolved_of-Perm :
      (id : String) (game : Round D) (s : S)
      → Perm (ids (resolved_of id game s)) (ids (find_bets db id s))
  resolved_of-Perm id game s =
      Perm.trans
        (Perm.map (λ b. b.id)
          (resolved_bets-Perm (get_up_down_game_results (with_bets game (find_bets db id s)) fee)))
        (get_up_down_game_results-Perm (with_bets game (find_bets db id s)) fee)

module _ {S D : Type 0} ⦃dec : Decimal D⦄ (db : Tables S D) (store : IsStore db) (fee : D) where
  close_game-closes :
      (id : String) (game : Round D) (rs : List (GameBet D)) (s : S)
      → find_game db id s ≡ some game
      → is_game_in_pending game.state ≡ true
      → Nodup (ids rs)
      → AllPending rs (db.bets s)
      → (t : S) × (close_game db id rs s ≡ (ok (closed game), t))
        × (find_game db id t ≡ some (closed game))
        × (db.bets t ≡ set_outcomes with_outcome rs (db.bets s))
  unfolding close_game in_transaction move_game_to_close_state
  close_game-closes id game rs s found pending distinct all_pending =
      let (returns, moved, kept) =
        close_each-AreClosed db store with_outcome (λ r b. refl) rs s distinct all_pending in
      let mid = (close_each db with_outcome rs s).1 in
      let there : find_game db id mid ≡ some game = ap (find_row id) kept ∙ found in
      let all_moved : close_each db with_outcome rs s ≡ (ok tt, mid) = ap (λ r. (r, mid)) returns in
      let updated =
        update_game-ok db has_unique_index id is_game_in_pending closed game mid there pending
          refl in
      (
        db.write_games (set_row id closed (db.games mid)) mid,
        ap (roll_back s) (
            bind_of_ok (close_each db with_outcome rs) (λ done_all. move_game_to_close_state db id)
              s all_moved
            ∙ updated),
        find_game-write_games db store id closed game mid (λ g. refl) there,
        store.bets-write_games _ mid ∙ moved,
      )

  -- A pending game whose bets are pending, each with its own id, is closed: the handler returns, the
  -- game has the state CLOSE, every bet has the columns that the results of the game give it, the
  -- other bets are as they were, and the closed game is published.
  pub resolve_game-closes :
      (id : String) (game : Round D) (w : Worker S D)
      → find_game db id w.tables ≡ some game
      → is_game_in_pending game.state ≡ true
      → Nodup (ids (find_bets db id w.tables))
      → AllPending (find_bets db id w.tables) (db.bets w.tables)
      → (t : S) × (resolve_game db fee id w ≡ (done, publish (closed game) t w))
        × (find_game db id t ≡ some (closed game))
        × (db.bets t
            ≡ set_outcomes with_outcome (resolved_of db fee id game w.tables) (db.bets w.tables))
  unfolding resolve_game after_move
  resolve_game-closes id game w found pending distinct all_pending =
      let perm = resolved_of-Perm db fee id game w.tables in
      let rs = resolved_of db fee id game w.tables in
      let (t, returns, there, moved) =
        close_game-closes id game rs w.tables found pending (Perm.nodup (Perm.symm perm) distinct)
          (λ x m. all_pending x ((Perm.mem_iff perm).0 m)) in
      (
        t,
        ap (resolve_found db fee id w) found ∙ rw pending (ap (after_move w) returns),
        there,
        moved,
      )

  -- If one bet of a pending game is not pending, the game is not resolved: the database is as it was,
  -- nothing is published, and the handler returns without an error.
  pub resolve_game-late :
      (id : String) (game : Round D) (w : Worker S D) (late : String)
      → find_game db id w.tables ≡ some game
      → is_game_in_pending game.state ≡ true
      → Nodup (ids (find_bets db id w.tables))
      → Mem late (ids (find_bets db id w.tables))
      → has_bet late is_bet_pending (db.bets w.tables) ≡ false
      → resolve_game db fee id w ≡ (done, w)
  unfolding resolve_game after_move close_game in_transaction
  resolve_game-late id game w late found pending distinct m not_pending =
      let perm = resolved_of-Perm db fee id game w.tables in
      let rs = resolved_of db fee id game w.tables in
      let mid = (close_each db with_outcome rs w.tables).1 in
      let thrown =
        close_each-late db store with_outcome (λ r b. refl) rs w.tables
          (Perm.nodup (Perm.symm perm) distinct) late ((Perm.mem_iff perm).1 m) not_pending in
      let all_thrown : close_each db with_outcome rs w.tables ≡ (err record_not_found, mid) =
        ap (λ r. (r, mid)) thrown in
      ap (resolve_found db fee id w) found
      ∙ rw pending (
          ap (λ r. after_move w (roll_back w.tables r))
            (bind_of_err (close_each db with_outcome rs)
              (λ done_all. move_game_to_close_state db id) w.tables all_thrown))
