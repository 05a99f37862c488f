-- ===== src/Rounds/Moves.antt =====
-- What a move of a game and its bets to the next state does to the rows (`moveGameToInProgressState`
-- and `moveGameToPendingState` of the repositories of the workers).
use mathlib.Core.List.{Mem}
use mathlib.Core.Path.{subst}
use backend_showcase.Prelude.{
  ◌≡◌, refl, ◌∙◌, ap, String, Bool, true, false, ◌&&◌, some, List, [], ◌∷◌, inl, inr, Bool-cases,
  arith, if◌then◌else◌, str_eq,
}
use backend_showcase.Ledger.Result.{ok}
use backend_showcase.Ledger.Action.{in_transaction, roll_back}
use backend_showcase.Ledger.GamesRewards.{GameState}
use backend_showcase.Games.Bet.{BetResult}
use backend_showcase.Games.UpDown.Partition.{ids}
use backend_showcase.Rounds.Tables.{
  Round, Tables, IsStore, BetRow, find_row, set_row, set_bets, has_bet, bets_of, is_taken,
  find_game, update_many,
}
use backend_showcase.Rounds.Tables.Rows.{KeepsId, update_game-ok, find_game-write_games}
use backend_showcase.Rounds.Repository.{with_result, move_bets_and_game}

module _ {D : Type 0} where
  -- whether the bet with this id is one of the game, with one of these results
  abbrev pub has_bet_of : String → String → (BetResult → Bool) → List (BetRow D) → Bool
  has_bet_of game_id id allowed [] = false
  has_bet_of game_id id allowed (row ∷ rows) =
      if str_eq row.1.id id
      then str_eq row.0 game_id && allowed row.1.result
      else has_bet_of game_id id allowed rows

  -- all bets of the game, by their ids
  abbrev pub AreBets : String → (BetResult → Bool) → List (BetRow D) → Type 0
  AreBets game_id allowed rows =
      (x : String) → Mem x (ids (bets_of game_id rows)) → has_bet_of game_id x allowed rows ≡ true

  pub has_bet_of-has_bet :
      (game_id x : String) (allowed : BetResult → Bool) (rows : List (BetRow D))
      → has_bet_of game_id x allowed rows ≡ true
      → has_bet x allowed rows ≡ true
  has_bet_of-has_bet game_id x allowed [] h = h
  has_bet_of-has_bet game_id x allowed (row ∷ rows) h =
      ground (arith, has_bet_of-has_bet game_id x allowed rows)

  ids-set_bets :
      (game_id : String) (from : BetResult → Bool) (to : BetResult) (rows : List (BetRow D))
      → ids (bets_of game_id (set_bets game_id from (with_result to) rows))
        ≡ ids (bets_of game_id rows)
  ids-set_bets game_id from to [] = refl
  ids-set_bets game_id from to (row ∷ rows) = elim (Bool-cases (str_eq row.0 game_id)) [
    | inl this ↦ elim (Bool-cases (from row.1.result)) [
      | inl moved ↦ simp (this, moved, ids-set_bets game_id from to rows)
      | inr stays ↦ simp (this, stays, ids-set_bets game_id from to rows)
    ]
    | inr other ↦ simp (other, ids-set_bets game_id from to rows)
  ]

  has_bet_of-set_bets :
      (game_id x : String) (from after : BetResult → Bool) (to : BetResult) (rows : List (BetRow D))
      → after to ≡ true
      → has_bet_of game_id x from rows ≡ true
      → has_bet_of game_id x after (set_bets game_id from (with_result to) rows) ≡ true
  has_bet_of-set_bets game_id x from after to [] counts h = h
  has_bet_of-set_bets game_id x from after to (row ∷ rows) counts h =
      ground (arith, has_bet_of-set_bets game_id x from after to rows counts)

  -- After the move of the bets from some results all bets of the game have the new one.
  pub AreBets-set_bets :
      (game_id : String) (from after : BetResult → Bool) (to : BetResult) (rows : List (BetRow D))
      → after to ≡ true
      → AreBets game_id from rows
      → AreBets game_id after (set_bets game_id from (with_result to) rows)
  AreBets-set_bets game_id from after to rows counts all x m =
      has_bet_of-set_bets game_id x from after to rows counts
        (all x (subst (λ l. Mem x l) (ids-set_bets game_id from to rows) m))

  pub ids_after :
      (game_id : String) (from : BetResult → Bool) (to : BetResult) (rows : List (BetRow D))
      → ids (bets_of game_id (set_bets game_id from (with_result to) rows))
        ≡ ids (bets_of game_id rows)
  ids_after = ids-set_bets

module _ {S D : Type 0} (db : Tables S D) (store : IsStore db) where
  -- The move of a game in one of the allowed states, with its bets, when no unique index stands in
  -- the way.
  pub move_lem :
      (unique : GameState → Bool) (id : String) (from : BetResult → Bool) (to : BetResult)
      (allowed : GameState → Bool) (f : Round D → Round D) (g : Round D) (s : S)
      → KeepsId f
      → find_game db id s ≡ some g
      → allowed g.state ≡ true
      → (unique (f g).state && is_taken (f g).state id (db.games s)) ≡ false
      → (t : S) × (in_transaction (move_bets_and_game db unique id from to allowed f) s
          ≡ (ok (f g), t))
        × (find_game db id t ≡ some (f g))
        × (db.games t ≡ set_row id f (db.games s))
        × (db.bets t ≡ set_bets id from (with_result to) (db.bets s))
  unfolding in_transaction move_bets_and_game update_many
  move_lem unique id from to allowed f g s keeps found may free =
      let mid = db.write_bets (set_bets id from (with_result to) (db.bets s)) s in
      let games = store.games-write_bets (set_bets id from (with_result to) (db.bets s)) s in
      let there : find_game db id mid ≡ some g = ap (find_row id) games ∙ found in
      let free_there : (unique (f g).state && is_taken (f g).state id (db.games mid)) ≡ false =
        ap (λ rows. unique (f g).state && is_taken (f g).state id rows) games ∙ free in
      (
        db.write_games (set_row id f (db.games mid)) mid,
        ap (roll_back s) (update_game-ok db unique id allowed f g mid there may free_there),
        find_game-write_games db store id f g mid keeps there,
        store.games-write_games _ mid ∙ ap (set_row id f) games,
        store.bets-write_games _ mid ∙ store.bets-write_bets _ s,
      )
