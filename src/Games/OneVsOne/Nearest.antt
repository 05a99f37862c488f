-- ===== src/Games/OneVsOne/Nearest.antt =====
-- Who wins a 1vs1 game that goes by the nearest price (`getOneVsOneGameResults` of
-- libs/core/src/games-helpers/one-vs-one.helper.ts).
use backend_showcase.Prelude.{
  ◌≡◌, ◌⊎◌, refl, sym, ap, ◌∙◌, true, false, some, [], ◌∷◌, map, inl, inr, Bool-cases,
}
use backend_showcase.Prelude.Int.{ℤ, ◌-ℤ◌, ltb_ℤ, abs_ℤ}
use backend_showcase.Decimal.{Decimal}
use backend_showcase.Decimal.Exact.{IsExact, units}
use backend_showcase.Ledger.Result.{ok}
use backend_showcase.Games.Bet.{GameBet}
use backend_showcase.Games.OneVsOne.{
  OneVsOneGame, OneVsOneResults, decided, decided_by, win_bet, lose_bet, is_nearer, first_wins,
  resolve_with, resolve_at, get_one_vs_one_game_results,
}

-- the distance of two whole numbers
abbrev pub distance : ℤ → ℤ → ℤ
distance a b = abs_ℤ (a -ℤ b)

module _ {D : Type 0} where
  -- one winner and one loser
  abbrev pub IsWonBy : GameBet D → GameBet D → OneVsOneResults D → Type 0
  IsWonBy winner loser r =
      (map (λ b. b.id) r.winners ≡ winner.id ∷ [])
      × (map (λ b. b.id) r.losers ≡ loser.id ∷ [])
      × (r.rejects ≡ [])

module _ {D : Type 0} ⦃dec : Decimal D⦄ ⦃exact : IsExact dec⦄ where
  is_nearer-distance :
      (end_price price1 price2 : D)
      → is_nearer end_price price1 price2
        ≡ ltb_ℤ
            (distance (units price1) (units end_price))
            (distance (units price2) (units end_price))
  unfolding is_nearer
  is_nearer-distance end_price price1 price2 =
      exact.less_than-eq (dec.abs (dec.sub price1 end_price)) (dec.abs (dec.sub price2 end_price))
      ∙ rw
          (
            exact.units-abs (dec.sub price1 end_price),
            exact.units-abs (dec.sub price2 end_price),
            exact.units-sub price1 end_price,
            exact.units-sub price2 end_price,
          )
          refl

  first_wins-nearest :
      (game : OneVsOneGame D) (end_price price1 price2 : D) (player1 player2 : GameBet D)
      → game.is_exact ≡ true
      → player1.price ≡ some price1
      → player2.price ≡ some price2
      → first_wins game end_price player1 player2 ≡ ok (is_nearer end_price price1 price2)
  unfolding first_wins
  first_wins-nearest game end_price price1 price2 player1 player2 nearest priced1 priced2 =
      rw (nearest, priced1, priced2) refl

  -- A game that goes by the nearest price, that has ended and in which both bets have a price is won by
  -- the first bet if its price is nearer to the end price than the other, and else, at equal
  -- distances too, by the second; the other bet loses and none is rejected.
  pub get_one_vs_one_game_results-nearest :
      (game : OneVsOneGame D) (platform_fee end_price price1 price2 : D)
      (player1 player2 : GameBet D)
      → game.bets ≡ player1 ∷ player2 ∷ []
      → game.end_price ≡ some end_price
      → game.is_exact ≡ true
      → player1.price ≡ some price1
      → player2.price ≡ some price2
      → (r : OneVsOneResults D) × (get_one_vs_one_game_results game platform_fee ≡ ok r)
        × (((ltb_ℤ
                  (distance (units price1) (units end_price))
                  (distance (units price2) (units end_price))
                ≡ true)
              × IsWonBy player1 player2 r)
            ⊎ ((ltb_ℤ
                    (distance (units price1) (units end_price))
                    (distance (units price2) (units end_price))
                  ≡ false)
                × IsWonBy player2 player1 r))
  unfolding get_one_vs_one_game_results resolve_at resolve_with decided_by decided win_bet lose_bet
  get_one_vs_one_game_results-nearest game platform_fee end_price price1 price2 player1 player2 two
        closed nearest priced1 priced2 =
      let e = is_nearer-distance end_price price1 price2 in
      let who =
        first_wins-nearest game end_price price1 price2 player1 player2 nearest priced1 priced2 in
      let run =
        ap (resolve_at game platform_fee) closed
        ∙ ap (resolve_with game platform_fee end_price) two
        ∙ ap (decided_by platform_fee player1 player2) who in
      elim (Bool-cases (is_nearer end_price price1 price2)) [
        | inl first ↦ (
          decided platform_fee player1 player2,
          run ∙ ap (λ b. decided_by platform_fee player1 player2 (ok b)) first,
          inl (sym e ∙ first, (refl, refl, refl)),
        )
        | inr second ↦ (
          decided platform_fee player2 player1,
          run ∙ ap (λ b. decided_by platform_fee player1 player2 (ok b)) second,
          inr (sym e ∙ second, (refl, refl, refl)),
        )
      ]
