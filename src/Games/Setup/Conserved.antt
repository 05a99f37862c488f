-- ===== src/Games/Setup/Conserved.antt =====
-- What a setup that is not rejected pays out of the amounts that were bet.
use backend_showcase.Prelude.{◌≡◌, refl, ap, Bool, false, some, List, [], ◌∷◌, ◌++◌, map}
use backend_showcase.Prelude.Int.{pos, ◌+ℤ◌}
use backend_showcase.Decimal.{Decimal}
use backend_showcase.Decimal.Exact.{IsExact, units, zero_parts, exact_laws}
use backend_showcase.Games.Bet.{GameBet}
use backend_showcase.Games.OneVsOne.{lose_bet}
use backend_showcase.Games.UpDown.{win_share}
use backend_showcase.Games.UpDown.Conserved.{
  staked_by, paid_to, won_by, paid_to-won, paid_to-append, staked_by-filter,
}
use backend_showcase.Games.Setup.{
  SetupGame, SetupResults, is_winner, winning_side, losing_side, lose_setup_bet, winner_pool,
  loser_pool, shared_pool, is_game_rejected, get_price_direction_result, split_setup, resolve_setup,
  get_setup_game_result,
}

module _ {D : Type 0} ⦃dec : Decimal D⦄ ⦃exact : IsExact dec⦄ where
  -- All that is paid to the bets, and what of it the winners get.
  abbrev pub IsPaidOut : SetupGame D → Bool → SetupResults D → Type 0
  IsPaidOut game direction r =
      (paid_to (r.winners ++ (r.losers ++ r.rejects)) +ℤ staked_by (losing_side direction game.bets)
        ≡ staked_by game.bets
          +ℤ won_by (winner_pool direction game.bets) (shared_pool game direction)
              (winning_side direction game.bets))
      × (units (shared_pool game direction) +ℤ units r.influencer.outcome
          ≡ units (loser_pool direction game.bets))

  paid_to-lost_setup : (losing : List (GameBet D)) → paid_to (map lose_setup_bet losing) ≡ pos 0
  unfolding lose_setup_bet lose_bet
  paid_to-lost_setup [] = refl
  paid_to-lost_setup (b ∷ losing) =
      rw (paid_to-lost_setup losing) (omega (exact_laws, zero_parts exact))

  split_setup-IsPaidOut :
      (game : SetupGame D) (direction : Bool)
      → IsPaidOut game direction (split_setup game direction)
  unfolding split_setup
  split_setup-IsPaidOut game direction =
      let winning = winning_side direction game.bets in
      let losing = losing_side direction game.bets in
      let w = winner_pool direction game.bets in
      let shared = shared_pool game direction in
      (
        rw
            (
              paid_to-append (map (win_share game.platform_fee w shared) winning)
                  (map lose_setup_bet losing ++ []),
              paid_to-won game.platform_fee w shared winning,
              paid_to-append (map lose_setup_bet losing) [],
              paid_to-lost_setup losing,
              staked_by-filter (is_winner direction) game.bets,
            )
            (omega exact_laws),
        omega exact_laws,
      )

  -- When a setup with an end price is not rejected, the outcomes and the fees of all bets and the
  -- amounts of the losers are together, in the smallest unit, the amounts of all bets and the shares
  -- of the winners; what the winners share and the outcome of the influencer are together exactly
  -- the pool of the losers.
  pub get_setup_game_result-IsPaidOut :
      (game : SetupGame D) (end_price : D)
      → game.end_price ≡ some end_price
      → is_game_rejected game end_price ≡ false
      → IsPaidOut game
          (get_price_direction_result game.is_long end_price game.take_profit game.stop_loss)
          (get_setup_game_result game)
  unfolding get_setup_game_result resolve_setup
  get_setup_game_result-IsPaidOut game end_price closed live =
      rw (ap (resolve_setup game) closed, live) (split_setup-IsPaidOut game _)
