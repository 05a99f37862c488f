-- ===== src/Games/UpDown/Conserved.antt =====
-- What `getUpDownGameResults` (apps/up-down-worker/src/modules/games-finalizer/
-- getUpDownGameResult.helper.ts) pays out of the amounts that were bet.

use backend_showcase.Prelude.{
  ◌≡◌, refl, ◌∙◌, ap, true, false, some, List, [], ◌∷◌, ◌++◌, map, filter, Bool, not, ◌⊎◌, inl, inr,
  Bool-cases, if◌then◌else◌,
}
use backend_showcase.Prelude.Int.{ℤ, pos, ◌+ℤ◌}
use backend_showcase.Decimal.{Decimal}
use backend_showcase.Decimal.Exact.{IsExact, zero_parts, exact_laws}
use backend_showcase.Decimal.Sum.{total, sum_units}
use backend_showcase.Games.Bet.{GameBet}
use backend_showcase.Games.OneVsOne.{truthy, reject_bet, lose_bet}
use backend_showcase.Games.OneVsOne.Conserved.{paid, staked}
use backend_showcase.Games.UpDown.Partition.{all_bets}
use backend_showcase.Games.UpDown.{
  UpDownGame, win_share, split_pools, reject_all, is_void, split_sides, resolve_prices, bets_up,
  bets_down, get_up_down_game_results, amount_of,
}

module _ {D : Type 0} ⦃dec : Decimal D⦄ ⦃exact : IsExact dec⦄ where
  abbrev pub staked_by : List (GameBet D) → ℤ
  staked_by bets = sum_units (map staked bets)

  abbrev pub paid_to : List (GameBet D) → ℤ
  paid_to bets = sum_units (map paid bets)

  -- What the winners win of the pool of the losers, before the fee.
  abbrev pub won_by : D → D → List (GameBet D) → ℤ
  won_by winner_pool lost_pool winning =
      sum_units (map (λ b. dec.mul lost_pool (dec.div b.amount winner_pool)) winning)

  pub paid_to-won :
      (fee winner_pool lost_pool : D) (winning : List (GameBet D))
      → paid_to (map (win_share fee winner_pool lost_pool) winning)
        ≡ staked_by winning +ℤ won_by winner_pool lost_pool winning
  unfolding win_share
  paid_to-won fee winner_pool lost_pool [] = omega exact_laws
  paid_to-won fee winner_pool lost_pool (b ∷ winning) =
      rw (paid_to-won fee winner_pool lost_pool winning) (omega exact_laws)

  paid_to-lost : (losing : List (GameBet D)) → paid_to (map lose_bet losing) ≡ pos 0
  unfolding lose_bet
  paid_to-lost [] = refl
  paid_to-lost (b ∷ losing) = rw (paid_to-lost losing) (omega (exact_laws, zero_parts exact))

  paid_to-rejected : (bets : List (GameBet D)) → paid_to (map reject_bet bets) ≡ pos 0
  unfolding reject_bet
  paid_to-rejected [] = refl
  paid_to-rejected (b ∷ bets) = rw (paid_to-rejected bets) (omega (exact_laws, zero_parts exact))

  pub paid_to-append : (xs ys : List (GameBet D)) → paid_to (xs ++ ys) ≡ paid_to xs +ℤ paid_to ys
  paid_to-append [] ys = omega exact_laws
  paid_to-append (b ∷ xs) ys = rw (paid_to-append xs ys) (omega exact_laws)

  pub staked_by-filter :
      (p : GameBet D → Bool) (bets : List (GameBet D))
      → staked_by bets ≡ staked_by (filter p bets) +ℤ staked_by (filter (λ b. not (p b)) bets)
  staked_by-filter p [] = omega exact_laws
  staked_by-filter p (b ∷ bets) = elim (Bool-cases (p b)) [
    | inl holds ↦ rw (holds, staked_by-filter p bets) (omega exact_laws)
    | inr other ↦ rw (other, staked_by-filter p bets) (omega exact_laws)
  ]

  staked_by-sides :
      (bets : List (GameBet D))
      → staked_by bets ≡ staked_by (bets_up bets) +ℤ staked_by (bets_down bets)
  staked_by-sides = staked_by-filter (λ b. truthy b.is_up)

  -- the winners' pool, the losers' pool and what is won of it, for two sides of a game
  abbrev pub won_from : List (GameBet D) → List (GameBet D) → ℤ
  won_from winning losing =
      won_by (total (map amount_of winning)) (total (map amount_of losing)) winning

  paid_to-split_pools :
      (fee : D) (winning losing : List (GameBet D))
      → paid_to (all_bets (split_pools fee winning losing))
        ≡ staked_by winning +ℤ won_from winning losing
  unfolding split_pools
  paid_to-split_pools fee winning losing =
      let w = total (map amount_of winning) in
      let l = total (map amount_of losing) in
      paid_to-append (map (win_share fee w l) winning) (map lose_bet losing ++ [])
      ∙ rw
          (
            paid_to-won fee w l winning,
            paid_to-append (map lose_bet losing) [],
            paid_to-lost losing,
          )
          (omega exact_laws)

  -- the bets on the side that won, and those on the other side
  abbrev pub winning_bets : UpDownGame D → List (GameBet D)
  winning_bets game = if truthy game.is_up then bets_up game.bets else bets_down game.bets

  abbrev pub losing_bets : UpDownGame D → List (GameBet D)
  losing_bets game = if truthy game.is_up then bets_down game.bets else bets_up game.bets

  paid_to-split_sides :
      (fee : D) (game : UpDownGame D)
      → paid_to (all_bets (split_sides fee game)) +ℤ staked_by (losing_bets game)
        ≡ staked_by game.bets +ℤ won_from (winning_bets game) (losing_bets game)
  unfolding split_sides
  paid_to-split_sides fee game = elim (Bool-cases (truthy game.is_up)) [
    | inl up ↦
        rw
          (
            up,
            paid_to-split_pools fee (bets_up game.bets) (bets_down game.bets),
            staked_by-sides game.bets,
          )
          (omega exact_laws)
    | inr down ↦
        rw
          (
            down,
            paid_to-split_pools fee (bets_down game.bets) (bets_up game.bets),
            staked_by-sides game.bets,
          )
          (omega exact_laws)
  ]

  resolve_known :
      (game : UpDownGame D) (fee end_price start_price : D)
      → game.end_price ≡ some end_price
      → game.start_price ≡ some start_price
      → get_up_down_game_results game fee ≡ (
          if is_void start_price end_price game.bets
          then reject_all game.bets
          else split_sides fee game)
  unfolding get_up_down_game_results resolve_prices
  resolve_known game fee end_price start_price closed begun =
      ap (λ price. resolve_prices game fee price game.start_price) closed
      ∙ ap (resolve_prices game fee (some end_price)) begun

  paid_to-reject_all : (bets : List (GameBet D)) → paid_to (all_bets (reject_all bets)) ≡ pos 0
  unfolding reject_all
  paid_to-reject_all bets = paid_to-rejected bets

  reject_all-rejects : (bets : List (GameBet D)) → (reject_all bets).rejects ≡ map reject_bet bets
  unfolding reject_all
  reject_all-rejects bets = refl

  -- Whatever a game with both prices pays: if the prices are equal, or all bets are on one side,
  -- nothing is paid (the bets are given back); otherwise the outcomes and the fees of all bets and
  -- the amounts of the losers are together, in the smallest unit, the amounts of all bets and the
  -- shares of the winners in the pool of the losers: what is paid differs from what was bet by the
  -- rounding of those shares alone.
  pub get_up_down_game_results-paid_to :
      (game : UpDownGame D) (platform_fee end_price start_price : D)
      → game.end_price ≡ some end_price
      → game.start_price ≡ some start_price
      → let r = get_up_down_game_results game platform_fee in
        (is_void start_price end_price game.bets ≡ true
          × (paid_to (all_bets r) ≡ pos 0)
          × (r.rejects ≡ map reject_bet game.bets))
        ⊎ (is_void start_price end_price game.bets ≡ false
            × (paid_to (all_bets r) +ℤ staked_by (losing_bets game)
                ≡ staked_by game.bets +ℤ won_from (winning_bets game) (losing_bets game)))
  get_up_down_game_results-paid_to game platform_fee end_price start_price closed begun =
      let resolved = resolve_known game platform_fee end_price start_price closed begun in
      elim (Bool-cases (is_void start_price end_price game.bets)) [
        | inl void ↦ inl (
          void,
          rw (resolved, void, paid_to-reject_all game.bets) refl,
          rw (resolved, void) (reject_all-rejects game.bets),
        )
        | inr live ↦ inr (live, rw (resolved, live) (paid_to-split_sides platform_fee game))
      ]
