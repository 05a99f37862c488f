-- ===== src/Tests/Games.antt =====
-- The results of games on whole numbers.
use mathlib.Core.List.{Perm}
use backend_showcase.Prelude.{
  ◌⊎◌, false, ℕ, String, Bool, true, false, none, some, [], ◌∷◌, map, ◌≡◌, ◌⊎◌, refl,
}
use backend_showcase.Prelude.Int.{ℤ, pos, ◌+ℤ◌, ltb_ℤ}
use backend_showcase.Ledger.Result.{ok}
use backend_showcase.Games.Bet.{GameBet, BetResult}
use backend_showcase.Games.OneVsOne.{
  OneVsOneGame, OneVsOneResults, get_one_vs_one_game_results, reject_bet,
}
use backend_showcase.Games.OneVsOne.Conserved.{IsWonOver, get_one_vs_one_game_results_lem}
use backend_showcase.Games.OneVsOne.Nearest.{distance, IsWonBy, get_one_vs_one_game_results-nearest}
use backend_showcase.Games.UpDown.{UpDownGame, is_void, get_up_down_game_results}
use backend_showcase.Games.UpDown.Partition.{ids, all_bets, get_up_down_game_results-Perm}
use backend_showcase.Games.UpDown.Conserved.{
  staked_by, paid_to, won_from, winning_bets, losing_bets, get_up_down_game_results-paid_to,
}
use backend_showcase.Games.Setup.{
  SetupGame, get_setup_game_result, is_game_rejected, is_between, get_price_direction_result,
}
use backend_showcase.Games.Setup.Direction.{IsJust, get_setup_game_result-IsJust}
use backend_showcase.Games.Setup.Conserved.{IsPaidOut, get_setup_game_result-IsPaidOut}
use backend_showcase.Tests.Whole.{whole, whole-IsExact}

abbrev bet_of : String → ℕ → Bool → ℕ → GameBet ℤ
bet_of id amount is_up price = record {
  id = id;
  owner_id = id;
  amount = pos amount;
  is_up = some is_up;
  price = some (pos price);
  created_at = 0;
  result = BetResult.in_progress;
  fee = none;
  pnl = none;
  outcome = none;
  multiplier = pos 0;
  price_result = none;
  is_exact = false;
  place = none;
}

abbrev duel : OneVsOneGame ℤ
duel = record {
  start_price = pos 100;
  end_price = some (pos 110);
  is_exact = true;
  bets = bet_of "a" 10 true 105 ∷ bet_of "b" 10 false 90 ∷ [];
}

get_one_vs_one_game_results_lem_example :
    (r : OneVsOneResults ℤ) × (get_one_vs_one_game_results duel (pos 1) ≡ ok r)
    × (IsWonOver r (bet_of "a" 10 true 105) (bet_of "b" 10 false 90)
        ⊎ IsWonOver r (bet_of "b" 10 false 90) (bet_of "a" 10 true 105))
get_one_vs_one_game_results_lem_example =
    get_one_vs_one_game_results_lem duel (pos 1) (pos 110) (bet_of "a" 10 true 105)
      (bet_of "b" 10 false 90) refl refl (λ _. ((pos 105, refl), (pos 90, refl)))

abbrev up_down : UpDownGame ℤ
up_down = record {
  start_price = some (pos 100);
  end_price = some (pos 110);
  is_up = some true;
  bets = bet_of "a" 10 true 0 ∷ bet_of "b" 5 false 0 ∷ bet_of "c" 10 true 0 ∷ [];
}

get_up_down_game_results-Perm_example :
    Perm (ids (all_bets (get_up_down_game_results up_down (pos 1)))) ("a" ∷ "b" ∷ "c" ∷ [])
get_up_down_game_results-Perm_example = get_up_down_game_results-Perm up_down (pos 1)

get_up_down_game_results-paid_to_example :
    (is_void (pos 100) (pos 110) up_down.bets ≡ true
      × (paid_to (all_bets (get_up_down_game_results up_down (pos 1))) ≡ pos 0)
      × ((get_up_down_game_results up_down (pos 1)).rejects ≡ map reject_bet up_down.bets))
    ⊎ (is_void (pos 100) (pos 110) up_down.bets ≡ false
        × (paid_to (all_bets (get_up_down_game_results up_down (pos 1)))
              +ℤ staked_by (losing_bets up_down)
            ≡ staked_by up_down.bets +ℤ won_from (winning_bets up_down) (losing_bets up_down)))
get_up_down_game_results-paid_to_example =
    get_up_down_game_results-paid_to up_down (pos 1) (pos 110) (pos 100) refl refl

-- a short setup at its stop loss
abbrev short : SetupGame ℤ
short = record {
  owner_id = "owner";
  id = "setup";
  end_price = some (pos 120);
  take_profit = pos 80;
  stop_loss = pos 120;
  platform_fee = pos 1;
  bets = bet_of "a" 10 true 0 ∷ bet_of "b" 5 false 0 ∷ [];
  is_long = false;
}

get_setup_game_result-IsJust_example : IsJust short (pos 120) (get_setup_game_result short).result
get_setup_game_result-IsJust_example = get_setup_game_result-IsJust short (pos 120) refl

short_is_live : is_game_rejected short (pos 120) ≡ false
unfolding is_game_rejected is_between
short_is_live = refl

get_setup_game_result-IsPaidOut_example :
    IsPaidOut short
      (get_price_direction_result false (pos 120) (pos 80) (pos 120))
      (get_setup_game_result short)
get_setup_game_result-IsPaidOut_example =
    get_setup_game_result-IsPaidOut short (pos 120) refl short_is_live

-- The second price is the nearer one.
abbrev nearest : OneVsOneGame ℤ
nearest = record {
  start_price = pos 100;
  end_price = some (pos 90);
  is_exact = true;
  bets = bet_of "a" 10 false 70 ∷ bet_of "b" 10 true 95 ∷ [];
}

get_one_vs_one_game_results-nearest_example :
    (r : OneVsOneResults ℤ) × (get_one_vs_one_game_results nearest (pos 1) ≡ ok r)
    × (((ltb_ℤ (distance (pos 70) (pos 90)) (distance (pos 95) (pos 90)) ≡ true)
          × IsWonBy (bet_of "a" 10 false 70) (bet_of "b" 10 true 95) r)
        ⊎ ((ltb_ℤ (distance (pos 70) (pos 90)) (distance (pos 95) (pos 90)) ≡ false)
            × IsWonBy (bet_of "b" 10 true 95) (bet_of "a" 10 false 70) r))
get_one_vs_one_game_results-nearest_example =
    get_one_vs_one_game_results-nearest nearest (pos 1) (pos 90) (pos 70) (pos 95)
      (bet_of "a" 10 false 70) (bet_of "b" 10 true 95) refl refl refl refl refl
