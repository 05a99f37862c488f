-- ===== src/Rounds/Tables.antt =====
-- The tables of a game and its bets (tools/prisma/schema.prisma: GameUpDown, GameBullseye and
-- GameSetup with their bets), as the Prisma client reads and writes them. `update` and `updateMany`
-- are as documented: `update` throws if no row meets its `where`, or if a unique index would be met.
pub mod Rows
use backend_showcase.Prelude.{
  ℕ, ◌≡◌, String, Bool, true, false, not, ◌&&◌, ◌||◌, Option, none, some, List, [], ◌∷◌, map,
  if◌then◌else◌, str_eq,
}
use backend_showcase.Ledger.Result.{ok, err, record_not_found, unique_constraint}
use backend_showcase.Ledger.Action.{Action}
use backend_showcase.Ledger.GamesRewards.{GameState}
use backend_showcase.Games.Bet.{GameBet, BetResult}
use backend_showcase.Games.Setup.{SetupResult}

-- The columns of the tables of games that the workers read or set.
pub record Round (D : Type 0) : Type 0 where
  pub id : String
  pub state : GameState
  pub asset_id : String
  -- times in milliseconds
  pub start_at : ℕ
  pub stop_bets_at : ℕ
  pub end_at : ℕ
  pub start_price : Option D
  pub end_price : Option D
  -- GameUpDown
  pub is_up : Option Bool
  -- GameBullseye
  pub winner_id : Option String
  pub winner_bet_id : Option String
  -- GameSetup
  pub take_profit : D
  pub stop_loss : D
  pub is_long : Bool
  pub owner_id : String
  pub result : Option SetupResult
  pub owner_profit : Option D

-- a bet with the id of its game
abbrev pub BetRow : Type 0 → Type 0
BetRow D = String × GameBet D

-- The rows of the two tables, for whatever state the database has.
pub record Tables (S D : Type 0) : Type 0 where
  pub games : S → List (Round D)
  pub bets : S → List (BetRow D)
  pub write_games : List (Round D) → S → S
  pub write_bets : List (BetRow D) → S → S
  -- `@default(uuid())`
  pub new_id : S → String

-- What is written is read, and leaves the other table alone.
pub record IsStore {S D : Type 0} (db : Tables S D) : Type 0 where
  pub games-write_games : (rows : List (Round D)) (s : S) → db.games (db.write_games rows s) ≡ rows
  pub bets-write_games :
      (rows : List (Round D)) (s : S) → db.bets (db.write_games rows s) ≡ db.bets s
  pub games-write_bets :
      (rows : List (BetRow D)) (s : S) → db.games (db.write_bets rows s) ≡ db.games s
  pub bets-write_bets : (rows : List (BetRow D)) (s : S) → db.bets (db.write_bets rows s) ≡ rows

abbrev pub same_state : GameState → GameState → Bool
same_state GameState.draft GameState.draft = true
same_state GameState.open_game GameState.open_game = true
same_state GameState.in_progress GameState.in_progress = true
same_state GameState.pending GameState.pending = true
same_state GameState.close GameState.close = true
same_state _ _ = false

-- whether a text is in a list
abbrev pub is_listed : String → List String → Bool
is_listed id [] = false
is_listed id (x ∷ xs) = str_eq x id || is_listed id xs

module _ {D : Type 0} where
  -- the game with this id
  abbrev pub find_row : String → List (Round D) → Option (Round D)
  find_row id [] = none
  find_row id (g ∷ rows) = if str_eq g.id id then some g else find_row id rows

  abbrev pub set_row : String → (Round D → Round D) → List (Round D) → List (Round D)
  set_row id f rows = map (λ (g : Round D). if str_eq g.id id then f g else g) rows

  -- whether another game than this one has this state
  abbrev pub is_taken : GameState → String → List (Round D) → Bool
  is_taken state id [] = false
  is_taken state id (g ∷ rows) =
      (not (str_eq g.id id) && same_state g.state state) || is_taken state id rows

  -- whether the bet with this id has one of these results
  abbrev pub has_bet : String → (BetResult → Bool) → List (BetRow D) → Bool
  has_bet id allowed [] = false
  has_bet id allowed (row ∷ rows) =
      if str_eq row.1.id id then allowed row.1.result else has_bet id allowed rows

  abbrev pub set_bet : String → (GameBet D → GameBet D) → List (BetRow D) → List (BetRow D)
  set_bet id f rows =
      map (λ (row : BetRow D). (row.0, if str_eq row.1.id id then f row.1 else row.1)) rows

  -- the rows of the bets of a game, those with one of these results changed
  abbrev pub set_bets :
      String → (BetResult → Bool) → (GameBet D → GameBet D) → List (BetRow D) → List (BetRow D)
  set_bets game_id allowed f rows =
      map
        (λ (row : BetRow D).
          (row.0, if str_eq row.0 game_id && allowed row.1.result then f row.1 else row.1))
        rows

  abbrev pub bets_of : String → List (BetRow D) → List (GameBet D)
  bets_of game_id [] = []
  bets_of game_id (row ∷ rows) =
      if str_eq row.0 game_id then row.1 ∷ bets_of game_id rows else bets_of game_id rows

module _ {S D : Type 0} (db : Tables S D) where
  abbrev pub find_game : String → S → Option (Round D)
  find_game id s = find_row id (db.games s)

  -- `include: { bets: true }`
  abbrev pub find_bets : String → S → List (GameBet D)
  find_bets game_id s = bets_of game_id (db.bets s)

  abbrev pub update_row :
      (GameState → Bool)
      → String
      → (GameState → Bool)
      → (Round D → Round D)
      → Option (Round D)
      → Action S (Round D)
  update_row unique id allowed f none s = (err record_not_found, s)
  update_row unique id allowed f (some g) s =
      if allowed g.state
      then if unique (f g).state && is_taken (f g).state id (db.games s)
        then (err unique_constraint, s)
        else (ok (f g), db.write_games (set_row id f (db.games s)) s)
      else (err record_not_found, s)

  -- `game….update` of the game with this id, if its state is one of these, where a unique index is on
  -- some states
  unfoldable pub update_game :
      (GameState → Bool) → String → (GameState → Bool) → (Round D → Round D) → Action S (Round D)
  update_game unique id allowed f s = update_row unique id allowed f (find_game id s) s

  -- `bet….update` of the bet with this id, if its result is one of these
  unfoldable pub update_bet :
      String → (BetResult → Bool) → (GameBet D → GameBet D) → Action S (Unit {0})
  update_bet id allowed f s =
      if has_bet id allowed (db.bets s)
      then (ok tt, db.write_bets (set_bet id f (db.bets s)) s)
      else (err record_not_found, s)

  -- `bet….updateMany` of the bets of a game whose result is one of these
  unfoldable pub update_many : String → (BetResult → Bool) → (GameBet D → GameBet D) → S → S
  update_many game_id allowed f s = db.write_bets (set_bets game_id allowed f (db.bets s)) s
