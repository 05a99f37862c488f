-- ===== src/Rounds/BullsEye/Life.antt =====
-- A whole round of a Bulls-Eye game (apps/bulls-eye-worker/src/modules).
use mathlib.Core.List.{Nodup}
use mathlib.Core.Path.{subst}
use backend_showcase.Prelude.{
  ◌≡◌, refl, sym, ◌∙◌, ap, String, Bool, true, false, Option, some, List, [], ◌∷◌, inl, inr,
  Bool-cases, str_eq,
}
use backend_showcase.Decimal.{Decimal}
use backend_showcase.Ledger.Result.{ok}
use backend_showcase.Ledger.GamesRewards.{GameState}
use backend_showcase.Games.Bet.{BetResult, Results}
use backend_showcase.Games.BullsEye.{get_bulls_eye_game_result}
use backend_showcase.Games.BullsEye.Prizes.{ArePriced}
use backend_showcase.Games.UpDown.Partition.{ids}
use backend_showcase.Rounds.Tables.{
  Round, Tables, IsStore, BetRow, is_taken, find_game, find_bets, bets_of, set_bets,
}
use backend_showcase.Rounds.Moves.{
  AreBets, has_bet_of-has_bet, AreBets-set_bets, ids_after, move_lem,
}
use backend_showcase.Rounds.Repository.{
  is_game_open, is_bet_open, is_bet_active, is_bet_pending, any_state, with_result,
}
use backend_showcase.Rounds.Worker.{
  has_unique_index, done, Worker, after_move, publish, start_price_set,
}
use backend_showcase.Rounds.BullsEye.{move_game_to_in_progress_state, move_game_to_pending_state}
use backend_showcase.Rounds.BullsEye.Worker.{
  start_bulls_eye_game_callback, finish_bulls_eye_with, finish_bulls_eye_game_callback,
}
use backend_showcase.Rounds.BullsEye.Finalizer.{Rates, with_bets, resolve_bulls_eye_game}
use backend_showcase.Rounds.BullsEye.Closed.{closed_for, resolve_bulls_eye_game-closes}

module _ {D : Type 0} where
  ArePriced-set_bets :
      (id : String) (from : BetResult → Bool) (to : BetResult) (rows : List (BetRow D))
      → ArePriced (bets_of id rows)
      → ArePriced (bets_of id (set_bets id from (with_result to) rows))
  ArePriced-set_bets id from to [] h = h
  ArePriced-set_bets id from to (row ∷ rows) h = elim (Bool-cases (str_eq row.0 id)) [
    | inl this ↦ elim (Bool-cases (from row.1.result)) [
      | inl moved ↦
          rw (this, moved)
            (let both : ArePriced (row.1 ∷ bets_of id rows) = rw this at h in
              (both.0, ArePriced-set_bets id from to rows both.1))
      | inr stays ↦
          rw (this, stays)
            (let both : ArePriced (row.1 ∷ bets_of id rows) = rw this at h in
              (both.0, ArePriced-set_bets id from to rows both.1))
    ]
    | inr other ↦ rw other (ArePriced-set_bets id from to rows (rw other at h))
  ]

  abbrev pub started : D → Round D → Round D
  started price game = record game { state = GameState.in_progress; start_price = some price }

  abbrev pub finished : Option D → Round D → Round D
  finished price game = record game { state = GameState.pending; end_price = price }

module _ {S D : Type 0} (db : Tables S D) where
  -- the bets of a game after a move: all with results of this kind, the same ids, and prices
  abbrev AreMoved : String → (BetResult → Bool) → S → S → Type 0
  AreMoved id allowed s t =
      AreBets id allowed (db.bets t)
      × (ids (find_bets db id t) ≡ ids (find_bets db id s))
      × ArePriced (find_bets db id t)

module _ {S D : Type 0} ⦃dec : Decimal D⦄ (db : Tables S D) (store : IsStore db) where
  moved_bets :
      (id : String) (from after : BetResult → Bool) (to : BetResult) (s t : S)
      → after to ≡ true
      → AreBets id from (db.bets s)
      → ArePriced (find_bets db id s)
      → db.bets t ≡ set_bets id from (with_result to) (db.bets s)
      → AreMoved db id after s t
  moved_bets id from after to s t counts bets all_priced rows = (
    rw rows (AreBets-set_bets id from after to (db.bets s) counts bets),
    ap (λ l. ids (bets_of id l)) rows ∙ ids_after id from to (db.bets s),
    rw rows (ArePriced-set_bets id from to (db.bets s) all_priced),
  )

  start-moves :
      (id : String) (price : D) (game : Round D) (w : Worker S D)
      → find_game db id w.tables ≡ some game
      → is_game_open game.state ≡ true
      → is_taken GameState.in_progress id (db.games w.tables) ≡ false
      → AreBets id is_bet_open (db.bets w.tables)
      → ArePriced (find_bets db id w.tables)
      → (t : S) × (start_bulls_eye_game_callback db id (some price) w
          ≡ (done, publish (started price game) t w))
        × (find_game db id t ≡ some (started price game))
        × AreMoved db id is_bet_active w.tables t
  unfolding start_bulls_eye_game_callback after_move move_game_to_in_progress_state
  start-moves id price game w found opened free bets all_priced =
      let (t, moved, there, games, rows) =
        move_lem db store has_unique_index id is_bet_open BetResult.in_progress is_game_open
          (started price) game w.tables (λ g. refl) found opened free in
      (
        t,
        ap (after_move w) moved,
        there,
        moved_bets id is_bet_open is_bet_active BetResult.in_progress w.tables t refl bets
            all_priced rows,
      )

  finish-moves :
      (id : String) (start_price price : D) (game : Round D) (w : Worker S D)
      → find_game db id w.tables ≡ some game
      → dec.equals start_price (dec.from_ℕ 0) ≡ false
      → AreBets id is_bet_active (db.bets w.tables)
      → ArePriced (find_bets db id w.tables)
      → (t : S) × (finish_bulls_eye_game_callback db id (some start_price) (some price) w
          ≡ (done, publish (finished (some price) game) t w))
        × (find_game db id t ≡ some (finished (some price) game))
        × AreMoved db id is_bet_pending w.tables t
  unfolding finish_bulls_eye_game_callback start_price_set finish_bulls_eye_with after_move
      move_game_to_pending_state
  finish-moves id start_price price game w found nonzero bets all_priced =
      let (t, moved, there, games, rows) =
        move_lem db store has_unique_index id is_bet_active BetResult.pending any_state
          (finished (some price)) game w.tables (λ g. refl) found refl refl in
      (
        t,
        rw nonzero (ap (after_move w) moved),
        there,
        moved_bets id is_bet_active is_bet_pending BetResult.pending w.tables t refl bets all_priced
            rows,
      )

  -- A Bulls-Eye game that is open, while no other is in progress, with only open bets that have
  -- prices, each with its own id, is closed by the two jobs and the handler of the event of the
  -- second: with a start price that is not 0 and an end price all three return, the results exist,
  -- the game ends in the state CLOSE with both prices and the first winner of the results, and the
  -- games in the three states are published one after the other.
  pub bulls_eye_round-closes :
      (rates : Rates D) (id : String) (start_price end_price : D) (game : Round D) (w : Worker S D)
      → find_game db id w.tables ≡ some game
      → is_game_open game.state ≡ true
      → is_taken GameState.in_progress id (db.games w.tables) ≡ false
      → dec.equals start_price (dec.from_ℕ 0) ≡ false
      → Nodup (ids (find_bets db id w.tables))
      → AreBets id is_bet_open (db.bets w.tables)
      → ArePriced (find_bets db id w.tables)
      → (w1 : Worker S D) × (w2 : Worker S D) × (w3 : Worker S D) × (r : Results D)
        × (start_bulls_eye_game_callback db id (some start_price) w ≡ (done, w1))
        × (finish_bulls_eye_game_callback db id (some start_price) (some end_price) w1 ≡ (done, w2))
        × (resolve_bulls_eye_game db rates id w2 ≡ (done, w3))
        × (get_bulls_eye_game_result (
              with_bets rates
                (finished (some end_price) (started start_price game))
                (find_bets db id w2.tables))
            ≡ ok r)
        × (find_game db id w3.tables
            ≡ some (closed_for r (finished (some end_price) (started start_price game))))
        × (w3.published
            ≡ closed_for r (finished (some end_price) (started start_price game))
              ∷ finished (some end_price) (started start_price game)
              ∷ started start_price game
              ∷ w.published)
  bulls_eye_round-closes rates id start_price end_price game w found opened free nonzero distinct
        bets all_priced =
      let (t1, moved1, there1, (bets1, ids1, priced1)) =
        start-moves id start_price game w found opened free bets all_priced in
      let game1 = started start_price game in
      let w1 = publish game1 t1 w in
      let (t2, moved2, there2, (bets2, ids2, priced2)) =
        finish-moves id start_price end_price game1 w1 there1 nonzero bets1 priced1 in
      let game2 = finished (some end_price) game1 in
      let w2 = publish game2 t2 w1 in
      let distinct2 : Nodup (ids (find_bets db id t2)) =
        subst (λ l. Nodup l) (sym (ids2 ∙ ids1)) distinct in
      let (r, t3, results, moved3, there3, rows3) =
        resolve_bulls_eye_game-closes db store rates id game2 w2 there2 refl distinct2
          (λ x m. has_bet_of-has_bet id x is_bet_pending (db.bets t2) (bets2 x m)) priced2 in
      (w1, w2, publish (closed_for r game2) t3 w2, r, moved1, moved2, moved3, results, there3, refl)
