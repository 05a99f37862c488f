-- ===== src/Rounds/OneVsOne/Requests.antt =====
-- That a request to the services of 1vs1 games (apps/one-vs-one/src/module) adds no third bet.
use backend_showcase.Prelude.{
  ℕ, ◌≤◌, ◌≡◌, refl, ◌∙◌, ap, String, true, not, Option, none, some, List, [], ◌∷◌, ◌++◌, length,
  ◌||◌, inl, inr, Bool-cases, arith, ltb, if◌then◌else◌, str_eq,
}
use backend_showcase.Decimal.{Decimal}
use backend_showcase.Ledger.Result.{Result, ok, err}
use backend_showcase.Ledger.Action.{in_transaction, roll_back, ◌>>=◌}
use backend_showcase.Ledger.GamesRewards.{GameState}
use backend_showcase.Games.Bet.{GameBet}
use backend_showcase.Rounds.Tables.{BetRow, bets_of}
use backend_showcase.Rounds.Repository.{is_game_open}
use backend_showcase.Rounds.OneVsOne.{
  Duel, DuelTables, IsDuelStore, CreateDuelParams, AddDuelBetParams, DuelRefusal, ChargeDuel,
  has_duel, update_duel, set_duel, duel_answer, open_duel, create_duel, count_active, validate_game,
  accept_with, accept_duel, accept_valid, add_found, reject_found, is_user, open_bet_of,
  is_up_direction, new_duel, given_price,
}
use backend_showcase.Rounds.OneVsOne.Pairs.{AtMostTwo-append, ArePairs, close_rejected-Keeps}

module _ {S D : Type 0} (db : DuelTables S D) (charge : ChargeDuel S D) where
  -- The ledger leaves the bets alone.
  abbrev pub IsOutside : Type 0
  IsOutside =
      (user : String) (amount : D) (game_id bet_id : String) (s : S)
      → db.bets (charge user amount game_id bet_id s).1 ≡ db.bets s

module _ {D : Type 0} ⦃dec : Decimal D⦄ where
  -- A game that is validated has at most one bet.
  pub validated :
      (game : Duel D) (bets : List (GameBet D)) (params : AddDuelBetParams D) (now : ℕ)
      → validate_game game bets params now ≡ none
      → length bets ≤ 1
  unfolding validate_game
  validated game bets params now valid = ground (arith, valid)

module _ {S D : Type 0} ⦃dec : Decimal D⦄ (db : DuelTables S D) (store : IsDuelStore db)
    (charge : ChargeDuel S D) where
  rolled-ArePairs :
      {A : Type 0} (s : S) (r : Result A × S)
      → ArePairs db s
      → ArePairs db r.1
      → ArePairs db (roll_back s r).1
  rolled-ArePairs s (ok a, t) before after = after
  rolled-ArePairs s (err e, t) before after = before

  answered-ArePairs : (r : Result (Unit {0}) × S) → ArePairs db r.1 → ArePairs db (duel_answer r).1
  answered-ArePairs (ok a, t) after = after
  answered-ArePairs (err e, t) after = after

  -- an insertion of a bet of a game with at most one, and the charge of its owner
  charged-ArePairs :
      IsOutside db charge
      → (user : String) (amount : D) (game_id bet_id : String) (bet : GameBet D) (t s : S)
      → db.bets s ≡ db.bets t ++ (game_id, bet) ∷ []
      → length (bets_of game_id (db.bets t)) ≤ 1
      → ArePairs db t
      → ArePairs db (charge user amount game_id bet_id s).1
  charged-ArePairs outside user amount game_id bet_id bet t s inserted one two =
      rw (outside user amount game_id bet_id s ∙ inserted)
        (AtMostTwo-append game_id bet (db.bets t) one two)

  -- the same, of a bet that is inserted in a state with the bets of `t`
  inserted-ArePairs :
      IsOutside db charge
      → (user : String) (amount : D) (game_id bet_id : String) (bet : GameBet D) (t s : S)
      → db.bets s ≡ db.bets t
      → length (bets_of game_id (db.bets t)) ≤ 1
      → ArePairs db t
      → ArePairs db
          (charge user amount game_id bet_id (db.write_bets (db.bets s ++ (game_id, bet) ∷ []) s)).1
  inserted-ArePairs outside user amount game_id bet_id bet t s same one two =
      charged-ArePairs outside user amount game_id bet_id bet t
        (db.write_bets (db.bets s ++ (game_id, bet) ∷ []) s)
        (store.bets-write_bets (db.bets s ++ (game_id, bet) ∷ []) s
          ∙ ap (λ (l : List (BetRow D)). l ++ (game_id, bet) ∷ []) same)
        one two

  open_duel-ArePairs :
      IsOutside db charge
      → (params : CreateDuelParams D) (price : D) (now : ℕ) (s : S)
      → bets_of (db.new_id s) (db.bets s) ≡ []
      → ArePairs db s
      → ArePairs db (open_duel db charge params price now s).1
  unfolding open_duel in_transaction ◌>>=◌
  open_duel-ArePairs outside params price now s fresh two =
      let game : Duel D = new_duel params price now (db.new_id s) in
      let t : S = db.write_games (game ∷ db.games s) s in
      rolled-ArePairs s _ two (
        inserted-ArePairs outside params.owner_id params.bet_amount (db.new_id s) (db.new_id t)
          (open_bet_of (db.new_id t) params.owner_id params.bet_amount params.bet_price
            (some (is_up_direction params.direction)))
          s t (store.bets-write_games (game ∷ db.games s) s) (rw fresh (omega arith)) two)

  accept-ArePairs :
      IsOutside db charge
      → (game : Duel D) (params : AddDuelBetParams D) (owner_bet : GameBet D) (s : S)
      → length (bets_of game.id (db.bets s)) ≤ 1
      → ArePairs db s
      → ArePairs db (accept_with db charge game params owner_bet s).1
  unfolding update_duel ◌>>=◌
  accept-ArePairs outside game params owner_bet s one two =
      elim (Bool-cases (has_duel game.id (λ _. true) (db.games s))) [
        | inr missing ↦ rw missing two
        | inl found ↦ rw found (
            let rows : List (Duel D) =
              set_duel game.id
                (λ g. record g { opponent_id = some params.user_id; state = GameState.in_progress })
                (db.games s) in
            let t : S = db.write_games rows s in
            inserted-ArePairs outside params.user_id owner_bet.amount game.id (db.new_id t)
              (open_bet_of (db.new_id t) params.user_id owner_bet.amount (given_price params.price)
                (if game.is_exact then none else some (not (is_up_direction game.direction))))
              s t (store.bets-write_games rows s) one two)
      ]

  accept_found-ArePairs :
      IsOutside db charge
      → (game : Duel D) (params : AddDuelBetParams D) (bets : List (GameBet D)) (s : S)
      → length (bets_of game.id (db.bets s)) ≤ 1
      → ArePairs db s
      → ArePairs db (accept_duel db charge game bets params s).1
  unfolding accept_duel in_transaction
  accept_found-ArePairs outside game params [] s one two = two
  accept_found-ArePairs outside game params (bet ∷ bets) s one two =
      rolled-ArePairs s _ two (accept-ArePairs outside game params bet s one two)

  pub add-ArePairs :
      IsOutside db charge
      → (params : AddDuelBetParams D) (now : ℕ) (o : Option (Duel D)) (s : S) → ArePairs db s
      → ArePairs db (add_found db charge params now o s).1
  add-ArePairs outside params now none s two = two
  add-ArePairs outside params now (some game) s two =
      by_validation (validate_game game (bets_of game.id (db.bets s)) params now) refl
    where
      by_validation :
          (v : Option DuelRefusal)
          → validate_game game (bets_of game.id (db.bets s)) params now ≡ v
          → ArePairs db (accept_valid db charge game (bets_of game.id (db.bets s)) params v s).1
      by_validation (some refusal) same = two
      by_validation none same = answered-ArePairs _ (
          accept_found-ArePairs outside game params (bets_of game.id (db.bets s)) s
            (validated game (bets_of game.id (db.bets s)) params now same) two)

  pub create-ArePairs :
      IsOutside db charge
      → (params : CreateDuelParams D) (price : D) (now : ℕ) (s : S)
      → bets_of (db.new_id s) (db.bets s) ≡ []
      → ArePairs db s
      → ArePairs db (create_duel db charge params price now s).1
  unfolding create_duel
  create-ArePairs outside params price now s fresh two =
      elim (Bool-cases (ltb (count_active params.owner_id (db.games s)) 3)) [
        | inl few ↦
            rw few (answered-ArePairs _ (open_duel-ArePairs outside params price now s fresh two))
        | inr many ↦ rw many two
      ]

  pub reject-ArePairs :
      (user_id : String) (o : Option (Duel D)) (s : S)
      → ArePairs db s
      → ArePairs db (reject_found db user_id o s).1
  reject-ArePairs user_id none s two = two
  reject-ArePairs user_id (some game) s two =
      let closed =
        answered-ArePairs _ ((close_rejected-Keeps db store game.id user_id).after s two) in
      elim (Bool-cases (is_user game.opponent_id user_id || str_eq game.owner_id user_id)) [
        | inr other ↦ rw other two
        | inl may ↦ rw may (elim (Bool-cases (is_game_open game.state)) [
          | inr other ↦ rw other two
          | inl open_state ↦ rw open_state closed
        ])
      ]
