-- ===== src/Rounds/X1000/Rows.antt =====
-- What the service of x1000 games keeps and is given: the tables `GameX1000` and `BetX1000` of
-- tools/prisma/schema.prisma, and the parameters and answers of the requests of apps/x1000.
use backend_showcase.Prelude.{
  ℕ, suc, String, Bool, true, false, ◌&&◌, ◌||◌, ◌≡◌, Option, none, some, List, [], ◌∷◌, map,
  if◌then◌else◌, str_eq,
}
use backend_showcase.Ledger.Result.{LedgerError, ok, err, record_not_found}
use backend_showcase.Ledger.Action.{Action}
use backend_showcase.Ledger.GamesRewards.{GameState}
use backend_showcase.Games.Bet.{BetResult, FeeType}
use backend_showcase.Games.X1000.{X1000Bet}

-- The columns of `GameX1000` that are read or set.
pub record X1000Row (D : Type 0) : Type 0 where
  pub id : String
  pub owner_id : String
  pub state : GameState
  pub start_price : Option D
  pub end_price : Option D

-- The columns of `BetX1000`: those of the results, and the others.
pub record X1000BetRow (D : Type 0) : Type 0 where
  pub game_id : String
  pub bet : X1000Bet D
  pub result : BetResult
  pub start_price : D
  pub end_price : Option D
  pub take_profit : Option D
  pub stop_loss : Option D
  pub burn_price : Option D
  pub roi : Option D
  pub outcome : Option D
  pub pnl : Option D

-- The rows of the two tables, for whatever state the database has.
pub record X1000Tables (S D : Type 0) : Type 0 where
  pub games : S → List (X1000Row D)
  pub bets : S → List (X1000BetRow D)
  pub write_games : List (X1000Row D) → S → S
  pub write_bets : List (X1000BetRow D) → S → S
  -- `@default(uuid())`
  pub new_id : S → String

-- What is written is read, and leaves the other table alone.
pub record IsX1000Store {S D : Type 0} (db : X1000Tables S D) : Type 0 where
  pub games-write_games :
      (rows : List (X1000Row D)) (s : S) → db.games (db.write_games rows s) ≡ rows
  pub bets-write_games :
      (rows : List (X1000Row D)) (s : S) → db.bets (db.write_games rows s) ≡ db.bets s
  pub games-write_bets :
      (rows : List (X1000BetRow D)) (s : S) → db.games (db.write_bets rows s) ≡ db.games s
  pub bets-write_bets :
      (rows : List (X1000BetRow D)) (s : S) → db.bets (db.write_bets rows s) ≡ rows

-- `CreateBetParams`
pub record CreateBetParams (D : Type 0) : Type 0 where
  pub user_id : String
  pub multiplier : D
  pub amount : D
  pub is_long : Bool
  pub take_profit : Option D
  pub stop_loss : Option D
  pub fee_type : FeeType

-- why a request is refused
pub data Refusal : Type 0 where
  too_many_games invalid_take_profit invalid_stop_loss bet_not_found : Refusal
  failed : LedgerError → Refusal

pub data Answer (A : Type 0) : Type 0 where
  accepted : A → Answer A
  refused : Refusal → Answer A

abbrev pub is_in_progress : BetResult → Bool
is_in_progress BetResult.in_progress = true
is_in_progress _ = false

-- `result: { in: [INPROGRESS, OPEN] }`
abbrev pub is_opened : BetResult → Bool
is_opened BetResult.in_progress = true
is_opened BetResult.open_bet = true
is_opened _ = false

module _ {D : Type 0} where
  -- the open bets of a user
  abbrev pub count_opened : String → List (X1000BetRow D) → ℕ
  count_opened user_id [] = 0
  count_opened user_id (row ∷ rows) =
      if str_eq row.bet.owner_id user_id && is_opened row.result
      then suc (count_opened user_id rows)
      else count_opened user_id rows

  -- the first bet of a game that is in progress
  abbrev pub find_in_progress : String → List (X1000BetRow D) → Option (X1000BetRow D)
  find_in_progress game_id [] = none
  find_in_progress game_id (row ∷ rows) =
      if str_eq row.game_id game_id && is_in_progress row.result
      then some row
      else find_in_progress game_id rows

  abbrev pub has_game : String → List (X1000Row D) → Bool
  has_game id [] = false
  has_game id (g ∷ rows) = str_eq g.id id || has_game id rows

  abbrev pub find_x1000 : String → List (X1000Row D) → Option (X1000Row D)
  find_x1000 id [] = none
  find_x1000 id (g ∷ rows) = if str_eq g.id id then some g else find_x1000 id rows

  abbrev pub has_x1000_bet : String → List (X1000BetRow D) → Bool
  has_x1000_bet id [] = false
  has_x1000_bet id (row ∷ rows) = str_eq row.bet.id id || has_x1000_bet id rows

module _ {S D : Type 0} (db : X1000Tables S D) where
  -- `gameX1000.update` and `betX1000.update` of the row with this id
  unfoldable pub update_x1000_game : String → (X1000Row D → X1000Row D) → Action S (Unit {0})
  update_x1000_game id f s =
      if has_game id (db.games s)
      then (
        ok tt,
        db.write_games (map (λ (g : X1000Row D). if str_eq g.id id then f g else g) (db.games s)) s,
      )
      else (err record_not_found, s)

  unfoldable pub update_x1000_bet : String → (X1000BetRow D → X1000BetRow D) → Action S (Unit {0})
  update_x1000_bet id f s =
      if has_x1000_bet id (db.bets s)
      then (
        ok tt,
        db.write_bets
            (map (λ (row : X1000BetRow D). if str_eq row.bet.id id then f row else row) (db.bets s))
            s,
      )
      else (err record_not_found, s)
