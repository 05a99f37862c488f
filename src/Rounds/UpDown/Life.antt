-- ===== src/Rounds/UpDown/Life.antt =====
-- A whole round of an Up/Down game (apps/up-down-worker/src/modules).
use mathlib.Core.List.{Mem, Nodup}
use mathlib.Core.Path.{subst}
use backend_showcase.Prelude.{
  ◌≡◌, refl, sym, ◌∙◌, ap, String, Bool, true, false, Option, some, List, [], ◌∷◌, arith,
}
use backend_showcase.Decimal.{Decimal, greater_than}
use backend_showcase.Ledger.GamesRewards.{GameState}
use backend_showcase.Games.Bet.{BetResult}
use backend_showcase.Games.UpDown.Partition.{ids}
use backend_showcase.Rounds.Tables.{
  Round, Tables, IsStore, is_taken, find_game, find_bets, bets_of, BetRow, has_bet, set_bets,
}
use backend_showcase.Rounds.Moves.{
  AreBets, has_bet_of-has_bet, AreBets-set_bets, ids_after, move_lem,
}
use backend_showcase.Rounds.Repository.{
  is_game_open, is_bet_open, is_bet_active, is_bet_pending, any_state, with_result,
}
use backend_showcase.Rounds.UpDown.{move_game_to_in_progress_state, move_game_to_pending_state}
use backend_showcase.Rounds.Worker.{
  done, Worker, after_move, publish, has_unique_index, start_price_set,
}
use backend_showcase.Rounds.UpDown.Worker.{
  start_up_down_game_callback, finish_with, finish_up_down_game_callback,
}
use backend_showcase.Rounds.UpDown.Finalizer.{resolve_game}
use backend_showcase.Rounds.UpDown.Closed.{closed, resolve_game-closes, resolve_game-late}

-- a bet with its result
abbrev pub is_bet_settled : BetResult → Bool
is_bet_settled BetResult.won = true
is_bet_settled BetResult.loss = true
is_bet_settled BetResult.reject = true
is_bet_settled _ = false

settled_differs :
    (r : BetResult)
    → is_bet_settled r ≡ true
    → (is_bet_active r ≡ false) × (is_bet_pending r ≡ false)
settled_differs r h = ground arith

module _ {D : Type 0} where
  settled_stays :
      (game_id late : String) (rows : List (BetRow D))
      → has_bet late is_bet_settled rows ≡ true
      → has_bet late is_bet_pending
          (set_bets game_id is_bet_active (with_result BetResult.pending) rows)
        ≡ false
  settled_stays game_id late [] h = refl
  settled_stays game_id late (row ∷ rows) h =
      ground (arith, settled_differs row.1.result, settled_stays game_id late rows)

  abbrev pub started : D → Round D → Round D
  started price game = record game { state = GameState.in_progress; start_price = some price }

  abbrev pub finished : Option D → Option Bool → Round D → Round D
  finished price is_up game = record game {
    state = GameState.pending;
    end_price = price;
    is_up = is_up;
  }

module _ {D : Type 0} ⦃dec : Decimal D⦄ where
  abbrev pub final : D → D → Round D → Round D
  final start_price end_price game = closed (
      finished (some end_price) (some (greater_than (dec.to_number end_price) start_price))
        (started start_price game))

module _ {S D : Type 0} ⦃dec : Decimal D⦄ (db : Tables S D) (store : IsStore db) where
  start-moves :
      (id : String) (price : D) (game : Round D) (w : Worker S D)
      → find_game db id w.tables ≡ some game
      → is_game_open game.state ≡ true
      → is_taken GameState.in_progress id (db.games w.tables) ≡ false
      → AreBets id is_bet_open (db.bets w.tables)
      → (t : S) × (start_up_down_game_callback db id (some price) w
          ≡ (done, publish (started price game) t w))
        × (find_game db id t ≡ some (started price game))
        × AreBets id is_bet_active (db.bets t)
        × (ids (find_bets db id t) ≡ ids (find_bets db id w.tables))
  unfolding start_up_down_game_callback after_move move_game_to_in_progress_state
  start-moves id price game w found opened free bets =
      let (t, moved, there, games, rows) =
        move_lem db store has_unique_index id is_bet_open BetResult.in_progress is_game_open
          (started price) game w.tables (λ g. refl) found opened free in
      (
        t,
        ap (after_move w) moved,
        there,
        rw rows (
            AreBets-set_bets id is_bet_open is_bet_active BetResult.in_progress (db.bets w.tables)
              refl bets),
        ap (λ l. ids (bets_of id l)) rows
            ∙ ids_after id is_bet_open BetResult.in_progress (db.bets w.tables),
      )

  finish-moves :
      (id : String) (start_price price : D) (game : Round D) (w : Worker S D)
      → find_game db id w.tables ≡ some game
      → dec.equals start_price (dec.from_ℕ 0) ≡ false
      → AreBets id is_bet_active (db.bets w.tables)
      → (t : S) × (finish_up_down_game_callback db id (some start_price) (some price) w ≡ (
        done,
        publish
            (finished (some price) (some (greater_than (dec.to_number price) start_price)) game)
            t
            w,
      ))
        × (find_game db id t
            ≡ some (
                finished (some price) (some (greater_than (dec.to_number price) start_price)) game))
        × AreBets id is_bet_pending (db.bets t)
        × (ids (find_bets db id t) ≡ ids (find_bets db id w.tables))
  unfolding finish_up_down_game_callback start_price_set finish_with after_move
      move_game_to_pending_state
  finish-moves id start_price price game w found nonzero bets =
      let (t, moved, there, games, rows) =
        move_lem db store has_unique_index id is_bet_active BetResult.pending any_state
          (finished (some price) (some (greater_than (dec.to_number price) start_price))) game
          w.tables (λ g. refl) found refl refl in
      (
        t,
        rw nonzero (ap (after_move w) moved),
        there,
        rw rows (
            AreBets-set_bets id is_bet_active is_bet_pending BetResult.pending (db.bets w.tables)
              refl bets),
        ap (λ l. ids (bets_of id l)) rows
            ∙ ids_after id is_bet_active BetResult.pending (db.bets w.tables),
      )

  -- A game that is open, while no other is in progress, with only open bets, each with its own id, is
  -- closed by the two jobs and the handler of the event of the second: with a start price that is not
  -- 0 and an end price all three return, the game ends in the state CLOSE with both prices and the
  -- side that has won, and the games in the three states are published one after the other.
  pub up_down_round-closes :
      (platform_fee : D) (id : String) (start_price end_price : D) (game : Round D) (w : Worker S D)
      → find_game db id w.tables ≡ some game
      → is_game_open game.state ≡ true
      → is_taken GameState.in_progress id (db.games w.tables) ≡ false
      → dec.equals start_price (dec.from_ℕ 0) ≡ false
      → Nodup (ids (find_bets db id w.tables))
      → AreBets id is_bet_open (db.bets w.tables)
      → (w1 : Worker S D) × (w2 : Worker S D) × (w3 : Worker S D) × (start_up_down_game_callback db
            id
            (some start_price)
            w
          ≡ (done, w1))
        × (finish_up_down_game_callback db id (some start_price) (some end_price) w1 ≡ (done, w2))
        × (resolve_game db platform_fee id w2 ≡ (done, w3))
        × (find_game db id w3.tables ≡ some (final start_price end_price game))
        × (w3.published
            ≡ final start_price end_price game
              ∷ finished
                  (some end_price)
                  (some (greater_than (dec.to_number end_price) start_price))
                  (started start_price game)
              ∷ started start_price game
              ∷ w.published)
  up_down_round-closes platform_fee id start_price end_price game w found opened free nonzero
        distinct bets =
      let (t1, moved1, there1, bets1, ids1) =
        start-moves id start_price game w found opened free bets in
      let game1 = started start_price game in
      let w1 = publish game1 t1 w in
      let (t2, moved2, there2, bets2, ids2) =
        finish-moves id start_price end_price game1 w1 there1 nonzero bets1 in
      let game2 =
        finished (some end_price) (some (greater_than (dec.to_number end_price) start_price))
          game1 in
      let w2 = publish game2 t2 w1 in
      let distinct2 : Nodup (ids (find_bets db id t2)) =
        subst (λ l. Nodup l) (sym (ids2 ∙ ids1)) distinct in
      let (t3, moved3, there3, rows3) =
        resolve_game-closes db store platform_fee id game2 w2 there2 refl distinct2
          (λ x m. has_bet_of-has_bet id x is_bet_pending (db.bets t2) (bets2 x m)) in
      (w1, w2, publish (closed game2) t3 w2, moved1, moved2, moved3, there3, refl)

  -- Whatever the state of a game is, CLOSE included, the job that ends it takes it to the state PENDING,
  -- and if one of its bets has its result already, the finalizer then returns without closing it: the
  -- database is as the job left it.
  pub finish-reopens :
      (platform_fee : D) (id : String) (start_price price : D) (game : Round D) (w : Worker S D)
      (late : String)
      → find_game db id w.tables ≡ some game
      → dec.equals start_price (dec.from_ℕ 0) ≡ false
      → Nodup (ids (find_bets db id w.tables))
      → Mem late (ids (find_bets db id w.tables))
      → has_bet late is_bet_settled (db.bets w.tables) ≡ true
      → (v : Worker S D) × (g : Round D) × (finish_up_down_game_callback db id
            (some start_price)
            (some price)
            w
          ≡ (done, v))
        × (find_game db id v.tables ≡ some g)
        × (g.state ≡ GameState.pending)
        × (resolve_game db platform_fee id v ≡ (done, v))
  unfolding finish_up_down_game_callback start_price_set finish_with after_move
      move_game_to_pending_state
  finish-reopens platform_fee id start_price price game w late found nonzero distinct m settled =
      let game2 =
        finished (some price) (some (greater_than (dec.to_number price) start_price)) game in
      let (t, moved, there, games, rows) =
        move_lem db store has_unique_index id is_bet_active BetResult.pending any_state
          (finished (some price) (some (greater_than (dec.to_number price) start_price))) game
          w.tables (λ g. refl) found refl refl in
      let same : ids (find_bets db id t) ≡ ids (find_bets db id w.tables) =
        ap (λ l. ids (bets_of id l)) rows
        ∙ ids_after id is_bet_active BetResult.pending (db.bets w.tables) in
      let v = publish game2 t w in
      (
        v,
        game2,
        rw nonzero (ap (after_move w) moved),
        there,
        refl,
        resolve_game-late db store platform_fee id game2 v late there refl
            (subst (λ l. Nodup l) (sym same) distinct) (subst (λ l. Mem late l) (sym same) m)
            (rw rows (settled_stays id late (db.bets w.tables) settled)),
      )
