-- ===== src/Games/OneVsOne/Conserved.antt =====
-- What `getOneVsOneGameResults` (libs/core/src/games-helpers/one-vs-one.helper.ts) pays out of the
-- two amounts that were bet.
use backend_showcase.Prelude.{
  ◌≡◌, refl, ◌∙◌, ap, Bool, true, Option, none, some, [], ◌∷◌, ◌++◌, map, ◌⊎◌, inl, inr, Bool-cases,
}
use backend_showcase.Prelude.Int.{◌+ℤ◌}
use backend_showcase.Decimal.{Decimal}
use backend_showcase.Decimal.Exact.{IsExact, units, zero_parts, exact_laws}
use backend_showcase.Decimal.Sum.{sum_units}
use backend_showcase.Ledger.Result.{ok}
use backend_showcase.Games.Bet.{GameBet}
use backend_showcase.Games.OneVsOne.{
  OneVsOneGame, OneVsOneResults, win_bet, lose_bet, decided, first_wins, decided_by, resolve_with,
  resolve_at, get_one_vs_one_game_results,
}

module _ {D : Type 0} where
  -- both players have named a price
  abbrev pub IsPriced : GameBet D → Type 0
  IsPriced bet = (price : D) × (bet.price ≡ some price)

module _ {D : Type 0} ⦃dec : Decimal D⦄ where
  -- an amount that the source reads as 0 when it is not set
  abbrev pub or_zero : Option D → D
  or_zero none = dec.from_ℕ 0
  or_zero (some x) = x

  -- What a bet brings to its owner and to the platform.
  abbrev pub paid : GameBet D → D
  paid bet = dec.add (or_zero bet.outcome) (or_zero bet.fee)

  abbrev pub staked : GameBet D → D
  staked bet = bet.amount

  first_wins-total :
      (game : OneVsOneGame D) (end_price : D) (player1 player2 : GameBet D)
      → (game.is_exact ≡ true → IsPriced player1 × IsPriced player2)
      → (b : Bool) × (first_wins game end_price player1 player2 ≡ ok b)
  unfolding first_wins
  first_wins-total game end_price player1 player2 priced = elim (Bool-cases game.is_exact) [
    | inl by_price ↦ let ((p1, e1), (p2, e2)) = priced by_price in rw (by_price, e1, e2) (_, refl)
    | inr by_side ↦ rw by_side (_, refl)
  ]

module _ {D : Type 0} ⦃dec : Decimal D⦄ ⦃exact : IsExact dec⦄ where
  -- Won by one bet over the other, with nothing rejected and all that was bet paid out.
  abbrev pub IsWonOver : OneVsOneResults D → GameBet D → GameBet D → Type 0
  IsWonOver r winner loser =
      (map (λ b. b.id) r.winners ≡ winner.id ∷ [])
      × (map (λ b. b.id) r.losers ≡ loser.id ∷ [])
      × (r.rejects ≡ [])
      × (sum_units (map paid (r.winners ++ r.losers)) ≡ units winner.amount +ℤ units loser.amount)

  decided-IsWonOver :
      (fee : D) (winner loser : GameBet D) → IsWonOver (decided fee winner loser) winner loser
  unfolding decided win_bet lose_bet
  decided-IsWonOver fee winner loser = (refl, refl, refl, omega (exact_laws, zero_parts exact))

  -- which bet the game is decided for
  pub get_one_vs_one_game_results-decided :
      (game : OneVsOneGame D) (platform_fee end_price : D) (player1 player2 : GameBet D)
      → game.bets ≡ player1 ∷ player2 ∷ []
      → game.end_price ≡ some end_price
      → (game.is_exact ≡ true → IsPriced player1 × IsPriced player2)
      → (get_one_vs_one_game_results game platform_fee ≡ ok (decided platform_fee player1 player2))
        ⊎ (get_one_vs_one_game_results game platform_fee
            ≡ ok (decided platform_fee player2 player1))
  unfolding get_one_vs_one_game_results resolve_at resolve_with decided_by
  get_one_vs_one_game_results-decided game platform_fee end_price player1 player2 two closed
        priced =
      let (b, known) = first_wins-total game end_price player1 player2 priced in
      let by_result = decided_by platform_fee player1 player2 in
      let reached =
        ap (resolve_at game platform_fee) closed
        ∙ ap (resolve_with game platform_fee end_price) two in
      elim (Bool-cases b) [
        | inl first ↦ inl (reached ∙ ap by_result (known ∙ ap ok first))
        | inr second ↦ inr (reached ∙ ap by_result (known ∙ ap ok second))
      ]

  -- A game of two bets with an end price, where both players have named a price if the game goes by
  -- the nearest price, is decided: one of the two bets wins over the other, nothing is rejected,
  -- and the outcomes and the fees of the two bets are together, in the smallest unit, exactly the
  -- two amounts that were bet.
  pub get_one_vs_one_game_results_lem :
      (game : OneVsOneGame D) (platform_fee end_price : D) (player1 player2 : GameBet D)
      → game.bets ≡ player1 ∷ player2 ∷ []
      → game.end_price ≡ some end_price
      → (game.is_exact ≡ true → IsPriced player1 × IsPriced player2)
      → (r : OneVsOneResults D) × (get_one_vs_one_game_results game platform_fee ≡ ok r)
        × (IsWonOver r player1 player2 ⊎ IsWonOver r player2 player1)
  get_one_vs_one_game_results_lem game platform_fee end_price player1 player2 two closed priced =
      elim (get_one_vs_one_game_results-decided game platform_fee end_price player1 player2 two
        closed priced) [
          | inl first ↦ (_, first, inl (decided-IsWonOver platform_fee player1 player2))
          | inr second ↦ (_, second, inr (decided-IsWonOver platform_fee player2 player1))
        ]
