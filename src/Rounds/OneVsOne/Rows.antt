-- ===== src/Rounds/OneVsOne/Rows.antt =====
-- What the services of 1vs1 games keep and are given: the tables `Game1vs1` and `Bet1vs1` of
-- tools/prisma/schema.prisma, and the parameters and answers of the requests of apps/one-vs-one.
use backend_showcase.Prelude.{
  ℕ, suc, String, Bool, true, false, not, ◌&&◌, ◌≡◌, Option, none, some, List, [], ◌∷◌, map,
  if◌then◌else◌, str_eq,
}
use backend_showcase.Ledger.Result.{LedgerError, Result, ok, err, record_not_found}
use backend_showcase.Ledger.Action.{Action}
use backend_showcase.Ledger.GamesRewards.{GameState}
use backend_showcase.Rounds.Tables.{BetRow}
use backend_showcase.Rounds.Repository.{is_active}

-- `DirectionEnum`
pub data Direction : Type 0 where
  up down : Direction

-- The columns of `Game1vs1` that are read or set.
pub record Duel (D : Type 0) : Type 0 where
  pub id : String
  pub asset_id : String
  pub owner_id : String
  pub opponent_id : Option String
  pub state : GameState
  pub is_exact : Bool
  pub is_private : Bool
  pub direction : Option Direction
  pub start_price : D
  pub end_price : Option D
  -- times in milliseconds
  pub start_at : ℕ
  pub stop_bets_at : ℕ
  pub end_at : ℕ

-- The rows of the two tables, for whatever state the database has.
pub record DuelTables (S D : Type 0) : Type 0 where
  pub games : S → List (Duel D)
  pub bets : S → List (BetRow D)
  pub write_games : List (Duel D) → S → S
  pub write_bets : List (BetRow D) → S → S
  -- `@default(uuid())`
  pub new_id : S → String

-- What is written is read, and leaves the other table alone.
pub record IsDuelStore {S D : Type 0} (db : DuelTables S D) : Type 0 where
  pub games-write_games : (rows : List (Duel D)) (s : S) → db.games (db.write_games rows s) ≡ rows
  pub bets-write_games :
      (rows : List (Duel D)) (s : S) → db.bets (db.write_games rows s) ≡ db.bets s
  pub games-write_bets :
      (rows : List (BetRow D)) (s : S) → db.games (db.write_bets rows s) ≡ db.games s
  pub bets-write_bets : (rows : List (BetRow D)) (s : S) → db.bets (db.write_bets rows s) ≡ rows

-- `CreateOneVsOneGameParams`
pub record CreateDuelParams (D : Type 0) : Type 0 where
  pub owner_id : String
  pub asset_id : String
  -- in seconds
  pub timeframe : ℕ
  pub is_private : Bool
  pub is_exact : Bool
  pub direction : Option Direction
  pub opponent_id : Option String
  pub bet_amount : D
  pub bet_price : Option D

-- `AddOneVsOneBetParams`
pub record AddDuelBetParams (D : Type 0) : Type 0 where
  pub user_id : String
  pub game_id : String
  pub price : Option D

-- why a request is refused
pub data DuelRefusal : Type 0 where
  too_many_duels not_found enough_participants already_started : DuelRefusal
  incorrect_price own_game not_an_opponent cannot_be_rejected : DuelRefusal
  duel_failed : LedgerError → DuelRefusal

pub data DuelAnswer (A : Type 0) : Type 0 where
  granted : A → DuelAnswer A
  denied : DuelRefusal → DuelAnswer A

-- `createBet` of the ledger: user, amount, game and bet
abbrev pub ChargeDuel : Type 0 → Type 0 → Type 0
ChargeDuel S D = String → D → String → String → Action S (Unit {0})

abbrev pub is_up_direction : Option Direction → Bool
is_up_direction none = false
is_up_direction (some Direction.up) = true
is_up_direction (some Direction.down) = false

abbrev pub is_user : Option String → String → Bool
is_user none user = false
is_user (some id) user = str_eq id user

abbrev pub is_other : Option String → String → Bool
is_other none user = false
is_other (some id) user = not (str_eq id user)

module _ {S : Type 0} where
  abbrev pub duel_answer : Result (Unit {0}) × S → DuelAnswer (Unit {0}) × S
  duel_answer (ok done, s) = (granted done, s)
  duel_answer (err e, s) = (denied (duel_failed e), s)

module _ {D : Type 0} where
  abbrev pub count_active : String → List (Duel D) → ℕ
  count_active owner_id [] = 0
  count_active owner_id (g ∷ rows) =
      if str_eq g.owner_id owner_id && is_active g.state
      then suc (count_active owner_id rows)
      else count_active owner_id rows

  abbrev pub find_duel : String → List (Duel D) → Option (Duel D)
  find_duel id [] = none
  find_duel id (g ∷ rows) = if str_eq g.id id then some g else find_duel id rows

  -- whether there is a game with this id and one of these states
  abbrev pub has_duel : String → (GameState → Bool) → List (Duel D) → Bool
  has_duel id allowed [] = false
  has_duel id allowed (g ∷ rows) =
      if str_eq g.id id then allowed g.state else has_duel id allowed rows

  abbrev pub set_duel : String → (Duel D → Duel D) → List (Duel D) → List (Duel D)
  set_duel id f rows = map (λ (g : Duel D). if str_eq g.id id then f g else g) rows

module _ {S D : Type 0} (db : DuelTables S D) where
  -- `game1vs1.update` of the game with this id, if its state is one of these
  unfoldable pub update_duel : String → (GameState → Bool) → (Duel D → Duel D) → Action S (Unit {0})
  update_duel id allowed f s =
      if has_duel id allowed (db.games s)
      then (ok tt, db.write_games (set_duel id f (db.games s)) s)
      else (err record_not_found, s)
