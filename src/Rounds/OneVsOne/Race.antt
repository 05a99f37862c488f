-- ===== src/Rounds/OneVsOne/Race.antt =====
-- Two acceptances of one game that are validated before either transaction starts
-- (addBet of apps/one-vs-one/src/module/bets/oneVsOneBets.service.ts).
use backend_showcase.Prelude.{◌≡◌, String, Bool, true, false, List, [], ◌∷◌, ◌++◌, str_eq}
use backend_showcase.Decimal.{Decimal}
use backend_showcase.Ledger.Result.{Result, ok}
use backend_showcase.Games.Bet.{GameBet}
use backend_showcase.Rounds.Tables.{BetRow}
use backend_showcase.Rounds.OneVsOne.{Duel, DuelTables, IsDuelStore, ChargeDuel, has_duel}

module _ {S D : Type 0} (db : DuelTables S D) (charge : ChargeDuel S D)
    (can_pay : String → D → S → Bool) where
  -- A charge succeeds for a user who can pay it. Neither it nor a write of the tables changes what
  -- another user can pay, and it leaves the games and the bets alone.
  pub record IsWallet : Type 0 where
    pub paid :
        (user : String) (amount : D) (game_id bet_id : String) (s : S)
        → can_pay user amount s ≡ true
        → (charge user amount game_id bet_id s).0 ≡ ok tt
    pub can_pay-paid :
        (user other : String) (amount amount2 : D) (game_id bet_id : String) (s : S)
        → str_eq user other ≡ false
        → can_pay other amount2 (charge user amount game_id bet_id s).1 ≡ can_pay other amount2 s
    pub can_pay-write_games :
        (user : String) (amount : D) (rows : List (Duel D)) (s : S)
        → can_pay user amount (db.write_games rows s) ≡ can_pay user amount s
    pub can_pay-write_bets :
        (user : String) (amount : D) (rows : List (BetRow D)) (s : S)
        → can_pay user amount (db.write_bets rows s) ≡ can_pay user amount s
    pub bets-paid :
        (user : String) (amount : D) (game_id bet_id : String) (s : S)
        → db.bets (charge user amount game_id bet_id s).1 ≡ db.bets s
    pub games-paid :
        (user : String) (amount : D) (game_id bet_id : String) (s : S)
        → db.games (charge user amount game_id bet_id s).1 ≡ db.games s

module _ {S D : Type 0} ⦃dec : Decimal D⦄ (db : DuelTables S D) (store : IsDuelStore db)
    (charge : ChargeDuel S D) (can_pay : String → D → S → Bool) where
  -- The acceptance commits: the game is still there, it has one bet more, and what other users can
  -- pay is the same.
  abbrev IsJoined : Duel D → String → S → Result (Unit {0}) × S → Type 0
  IsJoined game user s r =
      (r.0 ≡ ok tt)
      × ((bet : GameBet D) × (db.bets r.1 ≡ db.bets s ++ (game.id, bet) ∷ []))
      × (has_duel game.id (λ _. true) (db.games r.1) ≡ true)
      × ((other : String) (amount : D)
          → str_eq user other ≡ false
          → can_pay other amount r.1 ≡ can_pay other amount s)
