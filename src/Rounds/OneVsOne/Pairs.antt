-- ===== src/Rounds/OneVsOne/Pairs.antt =====
-- That a move of a 1vs1 game adds no bets (apps/one-vs-one and apps/one-vs-one-worker).
use backend_showcase.Prelude.{
  ◌++◌, suc, false, ◌≤◌, ◌≡◌, refl, String, Bool, true, Option, none, some, List, [], ◌∷◌, map,
  length, inl, inr, Bool-cases, arith, str_eq, str_eq_iff,
}
use backend_showcase.Decimal.{Decimal}
use backend_showcase.Ledger.Result.{Result, ok, err}
use backend_showcase.Ledger.Action.Keeps.{Keeps, Keeps-bind, Keeps-in_transaction}
use backend_showcase.Ledger.GamesRewards.{GameState}
use backend_showcase.Games.Bet.{GameBet, BetResult}
use backend_showcase.Games.OneVsOne.{OneVsOneResults, get_one_vs_one_game_results}
use backend_showcase.Rounds.Tables.{BetRow, bets_of, has_bet}
use backend_showcase.Rounds.Repository.{is_game_open, is_active, is_bet_open}
use backend_showcase.Rounds.OneVsOne.{
  Duel, DuelTables, IsDuelStore, has_duel, update_duel, close_rejected,
}
use backend_showcase.Rounds.OneVsOne.Worker.{
  move_duel, finalize_current, check_current, close_duel_bet, close_duel_bets, close_duel, close_by,
  resolve_duel_found, with_duel_bets,
}

module _ {D : Type 0} where
  -- no game has more than two bets
  abbrev pub AtMostTwo : List (BetRow D) → Type 0
  AtMostTwo rows = (id : String) → length (bets_of id rows) ≤ 2

  count_after :
      (id : String) (f : BetRow D → GameBet D) (rows : List (BetRow D))
      → length (bets_of id (map (λ (row : BetRow D). (row.0, f row)) rows))
        ≡ length (bets_of id rows)
  count_after id f [] = refl
  count_after id f (row ∷ rows) = elim (Bool-cases (str_eq row.0 id)) [
    | inl this ↦ simp (this, count_after id f rows)
    | inr other ↦ simp (other, count_after id f rows)
  ]

  pub AtMostTwo-map :
      (f : BetRow D → GameBet D) (rows : List (BetRow D))
      → AtMostTwo rows
      → AtMostTwo (map (λ (row : BetRow D). (row.0, f row)) rows)
  AtMostTwo-map f rows two id = rw (count_after id f rows) (two id)

  -- the bets of a game after one more of it, and after one of another game
  pub count_one_more :
      (id : String) (bet : GameBet D) (rows : List (BetRow D))
      → length (bets_of id (rows ++ (id, bet) ∷ [])) ≡ suc (length (bets_of id rows))
  count_one_more id bet [] = simp ((str_eq_iff id id).1 refl)
  count_one_more id bet (row ∷ rows) = elim (Bool-cases (str_eq row.0 id)) [
    | inl this ↦ simp (this, count_one_more id bet rows)
    | inr other ↦ simp (other, count_one_more id bet rows)
  ]

  count_other :
      (id game_id : String) (bet : GameBet D) (rows : List (BetRow D))
      → str_eq game_id id ≡ false
      → length (bets_of id (rows ++ (game_id, bet) ∷ [])) ≡ length (bets_of id rows)
  count_other id game_id bet [] differs = simp differs
  count_other id game_id bet (row ∷ rows) differs = elim (Bool-cases (str_eq row.0 id)) [
    | inl this ↦ simp (this, count_other id game_id bet rows differs)
    | inr other ↦ simp (other, count_other id game_id bet rows differs)
  ]

  pub AtMostTwo-append :
      (game_id : String) (bet : GameBet D) (rows : List (BetRow D))
      → length (bets_of game_id rows) ≤ 1
      → AtMostTwo rows
      → AtMostTwo (rows ++ (game_id, bet) ∷ [])
  AtMostTwo-append game_id bet rows one two id = elim (Bool-cases (str_eq game_id id)) [
    | inr other ↦ rw (count_other id game_id bet rows other) (two id)
    | inl this ↦
        let same : game_id ≡ id = (str_eq_iff game_id id).0 this in
        rw (← same) (rw (count_one_more game_id bet rows) (omega (arith, one)))
  ]

module _ {S D : Type 0} (db : DuelTables S D) where
  -- no game of the database has more than two bets
  abbrev pub ArePairs : S → Type 0
  ArePairs s = AtMostTwo (db.bets s)

module _ {S D : Type 0} (db : DuelTables S D) (store : IsDuelStore db) where
  update_duel-Keeps :
      (id : String) (allowed : GameState → Bool) (f : Duel D → Duel D)
      → Keeps (ArePairs db) (update_duel db id allowed f)
  unfolding update_duel
  update_duel-Keeps id allowed f = record {
    after = λ s two. elim (Bool-cases (has_duel id allowed (db.games s))) [
      | inl may ↦ rw may (rw (store.bets-write_games _ s) two)
      | inr refused ↦ rw refused two
    ];
  }

  write_bets-Keeps :
      (f : BetRow D → GameBet D) (s : S)
      → ArePairs db s
      → ArePairs db (db.write_bets (map (λ (row : BetRow D). (row.0, f row)) (db.bets s)) s)
  write_bets-Keeps f s two =
      rw (store.bets-write_bets (map (λ (row : BetRow D). (row.0, f row)) (db.bets s)) s)
        (AtMostTwo-map f (db.bets s) two)

  pub move_duel-Keeps :
      (id : String) (allowed : GameState → Bool) (f : Duel D → Duel D) (from : BetResult → Bool)
      (to : BetResult)
      → Keeps (ArePairs db) (move_duel db id allowed f from to)
  unfolding move_duel
  move_duel-Keeps id allowed f from to = Keeps-in_transaction _ (
      Keeps-bind _ _ (update_duel-Keeps id allowed f)
        (λ moved. record { after = λ s two. write_bets-Keeps _ s two }))

  pub close_rejected-Keeps :
      (game_id user_id : String) → Keeps (ArePairs db) (close_rejected db game_id user_id)
  unfolding close_rejected
  close_rejected-Keeps game_id user_id = Keeps-in_transaction _ (
      Keeps-bind _ _ (update_duel-Keeps game_id _ _)
        (λ moved. record { after = λ s two. write_bets-Keeps _ s two }))

  close_duel_bet-Keeps : (o : Option (GameBet D)) → Keeps (ArePairs db) (close_duel_bet db o)
  unfolding close_duel_bet
  close_duel_bet-Keeps none = record { after = λ s two. two }
  close_duel_bet-Keeps (some bet) = record {
    after = λ s two. elim (Bool-cases (has_bet bet.id (λ _. true) (db.bets s))) [
      | inl found ↦ rw found (write_bets-Keeps _ s two)
      | inr missing ↦ rw missing two
    ];
  }

  close_duel_bets-Keeps :
      (bets : List (Option (GameBet D))) → Keeps (ArePairs db) (close_duel_bets db bets)
  unfolding close_duel_bets
  close_duel_bets-Keeps [] = record { after = λ s two. two }
  close_duel_bets-Keeps (b ∷ bets) =
      Keeps-bind _ _ (close_duel_bet-Keeps b) (λ closed. close_duel_bets-Keeps bets)

  close_duel-Keeps :
      (id : String) (r : OneVsOneResults D) → Keeps (ArePairs db) (close_duel db id r)
  unfolding close_duel
  close_duel-Keeps id r =
      Keeps-in_transaction _
        (Keeps-bind _ _ (update_duel-Keeps id _ _) (λ closed. close_duel_bets-Keeps _))

  pub finalize-ArePairs :
      (id : String) (price : D) (o : Option (Duel D)) (s : S)
      → ArePairs db s
      → ArePairs db (finalize_current db id price o s).1
  finalize-ArePairs id price none s two = two
  finalize-ArePairs id price (some game) s two =
      (move_duel-Keeps id is_active _ (λ _. true) BetResult.pending).after s two

  pub check-ArePairs :
      (id : String) (o : Option (Duel D)) (s : S)
      → ArePairs db s
      → ArePairs db (check_current db id o s).1
  check-ArePairs id none s two = two
  check-ArePairs id (some game) s two =
      (move_duel-Keeps id is_game_open _ is_bet_open _).after s two

module _ {S D : Type 0} ⦃dec : Decimal D⦄ (db : DuelTables S D) (store : IsDuelStore db)
    (platform_fee : D) where
  pub resolve-ArePairs :
      (o : Option (Duel D)) (s : S)
      → ArePairs db s
      → ArePairs db (resolve_duel_found db platform_fee o s).1
  resolve-ArePairs none s two = two
  resolve-ArePairs (some game) s two =
      closed (
        get_one_vs_one_game_results (with_duel_bets game (bets_of game.id (db.bets s)))
          platform_fee)
    where
      closed :
          (r : Result (OneVsOneResults D)) → ArePairs db (close_by db platform_fee game.id r s).1
      closed (err e) = two
      closed (ok r) = (close_duel-Keeps db store game.id r).after s two
