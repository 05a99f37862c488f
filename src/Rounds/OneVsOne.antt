-- ===== src/Rounds/OneVsOne.antt =====
-- apps/one-vs-one/src/module: game/oneVsOneGame.service.ts and bets/oneVsOneBets.service.ts. The price
-- that the price service gives, the time and the operations of the ledger are arguments.
pub mod Rows
pub mod Worker
pub mod Pairs
pub mod Requests
pub mod Race
pub mod Steps
unfoldable pub use Rows.*
use backend_showcase.Prelude.{
  ℕ, suc, ◌+◌, ◌*◌, ◌/◌, String, Bool, true, false, not, ◌&&◌, ◌||◌, ◌≡◌, Option, none, some, List,
  [], ◌∷◌, ◌++◌, map, ltb, length, if◌then◌else◌, str_eq,
}
use backend_showcase.Decimal.{Decimal}
use backend_showcase.Ledger.Result.{
  LedgerError, Result, ok, err, record_not_found, null_dereference,
}
use backend_showcase.Ledger.Action.{Action, pure, in_transaction, ◌>>=◌}
use backend_showcase.Ledger.GamesRewards.{GameState}
use backend_showcase.Games.Bet.{GameBet, BetResult}
use backend_showcase.Rounds.Tables.{BetRow, bets_of, set_bets}
use backend_showcase.Rounds.Repository.{is_game_open, is_active, with_result}

module _ {D : Type 0} ⦃dec : Decimal D⦄ where
  -- `price || undefined`
  unfoldable pub given_price : Option D → Option D
  given_price none = none
  given_price (some price) = if dec.equals price (dec.from_ℕ 0) then none else some price

  abbrev is_missing : Option D → Bool
  is_missing none = true
  is_missing (some price) = false

  -- `validateGame`
  unfoldable pub validate_game :
      Duel D → List (GameBet D) → AddDuelBetParams D → ℕ → Option DuelRefusal
  validate_game game bets params now =
      if ltb 1 (length bets)
      then some enough_participants
      else if not (is_game_open game.state) || ltb game.stop_bets_at now
      then some already_started
      else if game.is_exact && is_missing (given_price params.price)
      then some incorrect_price
      else if str_eq params.user_id game.owner_id
      then some own_game
      else if is_other game.opponent_id params.user_id
      then some not_an_opponent
      else none

  abbrev pub open_bet_of : String → String → D → Option D → Option Bool → GameBet D
  open_bet_of id owner_id amount price is_up = record {
    id = id;
    owner_id = owner_id;
    amount = amount;
    is_up = is_up;
    price = price;
    created_at = 0;
    result = BetResult.open_bet;
    fee = none;
    pnl = none;
    outcome = none;
    multiplier = dec.from_ℕ 0;
    price_result = none;
    is_exact = false;
    place = none;
  }

  abbrev pub new_duel : CreateDuelParams D → D → ℕ → String → Duel D
  new_duel params price now id = record {
    id = id;
    asset_id = params.asset_id;
    owner_id = params.owner_id;
    opponent_id = params.opponent_id;
    state = GameState.open_game;
    is_exact = params.is_exact;
    is_private = params.is_private;
    direction = params.direction;
    start_price = price;
    end_price = none;
    start_at = now;
    stop_bets_at = now + (1000 * params.timeframe) / 3;
    end_at = now + 1000 * params.timeframe;
  }

module _ {S D : Type 0} ⦃dec : Decimal D⦄ (db : DuelTables S D) (charge : ChargeDuel S D) where
  abbrev pub insert_bet : String → (String → GameBet D) → Action S (GameBet D)
  insert_bet game_id bet s =
      (ok (bet (db.new_id s)), db.write_bets (db.bets s ++ (game_id, bet (db.new_id s)) ∷ []) s)

  abbrev pub insert_duel : (String → Duel D) → Action S (Duel D)
  insert_duel game s = (ok (game (db.new_id s)), db.write_games (game (db.new_id s) ∷ db.games s) s)

  -- the transaction of `createGame`
  unfoldable pub open_duel : CreateDuelParams D → D → ℕ → Action S (Unit {0})
  open_duel params price now = in_transaction (do
    game ← insert_duel (new_duel params price now)
    bet ← insert_bet game.id (λ id.
        open_bet_of id params.owner_id params.bet_amount params.bet_price
          (some (is_up_direction params.direction)))
    charge game.owner_id params.bet_amount game.id bet.id)

  -- `createGame` of the game service, where `COUNT_MAX_OPEN_GAMES_IN_TIME` is 3
  unfoldable pub create_duel : CreateDuelParams D → D → ℕ → S → DuelAnswer (Unit {0}) × S
  create_duel params price now s =
      if ltb (count_active params.owner_id (db.games s)) 3
      then duel_answer (open_duel params price now s)
      else (denied too_many_duels, s)

  -- the transaction of `addBet`, by the game and the bets that were found before
  abbrev pub accept_with : Duel D → AddDuelBetParams D → GameBet D → Action S (Unit {0})
  accept_with game params owner_bet = do
    moved ←
        update_duel db game.id (λ _. true)
          (λ g. record g { opponent_id = some params.user_id; state = GameState.in_progress })
    bet ← insert_bet game.id (λ id.
        open_bet_of id params.user_id owner_bet.amount (given_price params.price)
          (if game.is_exact then none else some (not (is_up_direction game.direction))))
    charge params.user_id owner_bet.amount game.id bet.id

  abbrev pub accept_found : Duel D → AddDuelBetParams D → List (GameBet D) → Action S (Unit {0})
  accept_found game params [] s = (err null_dereference, s)
  accept_found game params (owner_bet ∷ bets) s = accept_with game params owner_bet s

  unfoldable pub accept_duel : Duel D → List (GameBet D) → AddDuelBetParams D → Action S (Unit {0})
  accept_duel game bets params = in_transaction (accept_found game params bets)

  abbrev pub accept_valid :
      Duel D
      → List (GameBet D)
      → AddDuelBetParams D
      → Option DuelRefusal
      → S
      → DuelAnswer (Unit {0}) × S
  accept_valid game bets params (some refusal) s = (denied refusal, s)
  accept_valid game bets params none s = duel_answer (accept_duel game bets params s)

  abbrev pub add_found : AddDuelBetParams D → ℕ → Option (Duel D) → S → DuelAnswer (Unit {0}) × S
  add_found params now none s = (denied not_found, s)
  add_found params now (some game) s =
      let bets = bets_of game.id (db.bets s) in
      accept_valid game bets params (validate_game game bets params now) s

  -- `addBet` of the service of bets
  unfoldable pub add_duel_bet : AddDuelBetParams D → ℕ → S → DuelAnswer (Unit {0}) × S
  add_duel_bet params now s = add_found params now (find_duel params.game_id (db.games s)) s

module _ {S D : Type 0} (db : DuelTables S D) where
  -- the transaction of `rejectGame`
  unfoldable pub close_rejected : String → String → Action S (Unit {0})
  close_rejected game_id user_id = in_transaction (do
    moved ←
        update_duel db game_id (λ _. true)
          (λ g. record g { state = GameState.pending; opponent_id = some user_id })
    (λ s. (
      ok tt,
      db.write_bets (set_bets game_id (λ _. true) (with_result BetResult.pending) (db.bets s)) s,
    )))

  abbrev pub reject_found : String → Option (Duel D) → S → DuelAnswer (Unit {0}) × S
  reject_found user_id none s = (denied not_found, s)
  reject_found user_id (some game) s =
      if is_user game.opponent_id user_id || str_eq game.owner_id user_id
      then if is_game_open game.state
        then duel_answer (close_rejected game.id user_id s)
        else (denied cannot_be_rejected, s)
      else (denied not_found, s)

  -- `rejectGame`
  unfoldable pub reject_duel : String → String → S → DuelAnswer (Unit {0}) × S
  reject_duel user_id game_id s = reject_found user_id (find_duel game_id (db.games s)) s
