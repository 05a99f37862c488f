-- ===== src/Games/UpDown/Partition.antt =====
-- What `getUpDownGameResults` (apps/up-down-worker/src/modules/games-finalizer/
-- getUpDownGameResult.helper.ts) makes of the bets.
use mathlib.Core.List.Perm
use mathlib.Core.List.{Perm, perm_middle, perm_append_comm}
use backend_showcase.Prelude.{
  ◌≡◌, refl, ◌∙◌, ap, String, Option, none, some, List, [], ◌∷◌, ◌++◌, map, inl, inr, Bool-cases,
}
use backend_showcase.Decimal.{Decimal}
use backend_showcase.Decimal.Sum.{total}
use backend_showcase.Games.Bet.{GameBet, Results}
use backend_showcase.Games.OneVsOne.{truthy, reject_bet, lose_bet}
use backend_showcase.Games.UpDown.{
  UpDownGame, win_share, split_pools, reject_all, is_void, split_sides, resolve_prices, bets_up,
  bets_down, get_up_down_game_results, amount_of,
}

module _ {D : Type 0} where
  abbrev pub ids : List (GameBet D) → List String
  ids bets = map (λ b. b.id) bets

  abbrev pub all_bets : Results D → List (GameBet D)
  all_bets r = r.winners ++ (r.losers ++ r.rejects)

  sides-Perm :
      (bets : List (GameBet D)) → Perm (ids (bets_up bets) ++ ids (bets_down bets)) (ids bets)
  sides-Perm [] = Perm.refl []
  sides-Perm (b ∷ bets) = elim (Bool-cases (truthy b.is_up)) [
    | inl up ↦ rw up (Perm.cons b.id (sides-Perm bets))
    | inr down ↦ rw down (
        Perm.trans (perm_middle (ids (bets_up bets)) (ids (bets_down bets)))
          (Perm.cons b.id (sides-Perm bets)))
  ]

module _ {D : Type 0} ⦃dec : Decimal D⦄ where
  ids-reject : (bets : List (GameBet D)) → ids (map reject_bet bets) ≡ ids bets
  unfolding reject_bet
  ids-reject [] = refl
  ids-reject (b ∷ bets) = ap (λ l. b.id ∷ l) (ids-reject bets)

  ids-won :
      (fee winner_pool lost_pool : D) (winning rest : List (GameBet D))
      → ids (map (win_share fee winner_pool lost_pool) winning ++ rest) ≡ ids winning ++ ids rest
  unfolding win_share
  ids-won fee winner_pool lost_pool [] rest = refl
  ids-won fee winner_pool lost_pool (b ∷ winning) rest =
      ap (λ l. b.id ∷ l) (ids-won fee winner_pool lost_pool winning rest)

  ids-lost : (losing : List (GameBet D)) → ids (map lose_bet losing ++ []) ≡ ids losing
  unfolding lose_bet
  ids-lost [] = refl
  ids-lost (b ∷ losing) = ap (λ l. b.id ∷ l) (ids-lost losing)

  ids-split_pools :
      (fee : D) (winning losing : List (GameBet D))
      → ids (all_bets (split_pools fee winning losing)) ≡ ids winning ++ ids losing
  unfolding split_pools
  ids-split_pools fee winning losing =
      ids-won fee (total (map amount_of winning)) (total (map amount_of losing)) winning
        (map lose_bet losing ++ [])
      ∙ ap (λ l. ids winning ++ l) (ids-lost losing)

  split_sides-Perm :
      (fee : D) (game : UpDownGame D) → Perm (ids (all_bets (split_sides fee game))) (ids game.bets)
  unfolding split_sides
  split_sides-Perm fee game = elim (Bool-cases (truthy game.is_up)) [
    | inl up ↦
        rw (up, ids-split_pools fee (bets_up game.bets) (bets_down game.bets))
          (sides-Perm game.bets)
    | inr down ↦
        rw (down, ids-split_pools fee (bets_down game.bets) (bets_up game.bets))
          (Perm.trans (perm_append_comm (ids (bets_down game.bets)) (ids (bets_up game.bets)))
            (sides-Perm game.bets))
  ]

  reject_all-Perm : (bets : List (GameBet D)) → Perm (ids (all_bets (reject_all bets))) (ids bets)
  unfolding reject_all
  reject_all-Perm bets = rw (ids-reject bets) (Perm.refl (ids bets))

  resolve_prices-Perm :
      (game : UpDownGame D) (fee : D) (end_price start_price : Option D)
      → Perm (ids (all_bets (resolve_prices game fee end_price start_price))) (ids game.bets)
  unfolding resolve_prices
  resolve_prices-Perm game fee none start_price = reject_all-Perm game.bets
  resolve_prices-Perm game fee (some end_price) none = reject_all-Perm game.bets
  resolve_prices-Perm game fee (some end_price) (some start_price) =
      elim (Bool-cases (is_void start_price end_price game.bets)) [
        | inl void ↦ rw void (reject_all-Perm game.bets)
        | inr live ↦ rw live (split_sides-Perm fee game)
      ]

  -- Every bet of the game is, under its id, in exactly one place of the winners, the losers and the
  -- rejected bets, whatever the prices are.
  pub get_up_down_game_results-Perm :
      (game : UpDownGame D) (platform_fee : D)
      → Perm (ids (all_bets (get_up_down_game_results game platform_fee))) (ids game.bets)
  unfolding get_up_down_game_results
  get_up_down_game_results-Perm game platform_fee =
      resolve_prices-Perm game platform_fee game.end_price game.start_price
