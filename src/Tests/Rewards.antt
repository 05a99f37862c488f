-- ===== src/Tests/Rewards.antt =====
-- The settlement of closed games on whole numbers and the memory.
use backend_showcase.Prelude.{String, true, false, none, List, [], ◌∷◌, ◌≡◌, ◌≢◌, some, refl}
use backend_showcase.Prelude.Int.{ℤ, pos}
use backend_showcase.Ledger.Result.{ok, err, journal_is_not_balanced}
use backend_showcase.Ledger.Account.{Account}
use backend_showcase.Ledger.Entry.{Entry, EntryType, EntryMeta}
use backend_showcase.Ledger.Games.Bets.{entry_on}
use backend_showcase.Ledger.GamesRewards.{Updates, update_of, collect_updates}
use backend_showcase.Ledger.GamesRewards.Update.{changes_on, collect_updates_lem}
use backend_showcase.Ledger.GamesRewards.{ClosedGame, GameState}
use backend_showcase.Ledger.GamesRewards.{give_rewards_for_x1000_game}
use backend_showcase.Ledger.GamesRewards.X1000.{
  row_of_resolved, row_of_loss, x1000-never_unbalanced, x1000-reject_is_loss,
}
use backend_showcase.Games.X1000.{X1000Bet, resolve_x1000}
use backend_showcase.Ledger.GamesRewards.OneVsOne.{rows_of_results, one_vs_one-never_unbalanced}
use backend_showcase.Ledger.GamesRewards.OneVsOne.{stored}
use backend_showcase.Ledger.GamesRewards.BullsEye.{AddsUp, pool_of, bulls_eye-never_unbalanced}
use backend_showcase.Games.Bet.{Results}
use backend_showcase.Games.BullsEye.{
  BullsEyeGame, WinnerCoefficients, coefficients, get_bulls_eye_game_result,
}
use backend_showcase.Games.BullsEye.Prizes.{get_bulls_eye_game_result-Perm}
use backend_showcase.Games.UpDown.Partition.{ids, all_bets}
use backend_showcase.Decimal.Sum.{total, sum_from}
use backend_showcase.Prelude.Int.{◌*ℤ◌, ◌+ℤ◌}
use backend_showcase.Prelude.{Bool, map}
use mathlib.Core.List.{Perm}
use backend_showcase.Games.X1000.{
  X1000Game, ResolvedBet, get_x1000_game_result, minus_hundred, is_pnl_fee,
}
use backend_showcase.Games.X1000.Bounds.{get_x1000_game_result_lem}
use backend_showcase.Decimal.{greater_than}
use backend_showcase.Prelude.Int.{◌≤ℤ◌}
use backend_showcase.Prelude.{◌⊎◌}
use backend_showcase.Ledger.History.{Command, perform}
use backend_showcase.Games.Bet.{GameBet, BetResult, FeeType}
use backend_showcase.Games.OneVsOne.{OneVsOneGame, OneVsOneResults, get_one_vs_one_game_results}
use backend_showcase.Tests.Memory.{Memory, memory}
use backend_showcase.Tests.Whole.{whole, whole-IsExact}

abbrev winner : Account
winner = record {
  id = "w";
  name = "w";
  full_name = "Liabilities:userBalance:w";
  parent_id = none;
  is_credit_plus = true;
}

abbrev won : List (Entry ℤ)
won =
    entry_on winner (pos 30) true false EntryType.user_won (EntryMeta.hold (pos 30))
    ∷ entry_on winner (pos 5) false false EntryType.hold (EntryMeta.hold (pos 5))
    ∷ []

collect_updates_lem_example :
    (updates : Updates ℤ) × (collect_updates won [] ≡ ok updates)
    × ((id : String) → whole-IsExact.units (update_of id updates) ≡ changes_on id won)
collect_updates_lem_example = collect_updates_lem won ((winner, refl), ((winner, refl), tt))

abbrev bet_of : String → ℤ → GameBet ℤ
bet_of id price = record {
  id = id;
  owner_id = id;
  amount = pos 10;
  is_up = none;
  price = some price;
  created_at = 0;
  result = BetResult.in_progress;
  fee = none;
  pnl = none;
  outcome = none;
  multiplier = pos 0;
  price_result = none;
  is_exact = true;
  place = none;
}

abbrev duel : OneVsOneGame ℤ
duel = record {
  start_price = pos 100;
  end_price = some (pos 110);
  is_exact = true;
  bets = bet_of "a" (pos 105) ∷ bet_of "b" (pos 90) ∷ [];
}

abbrev closed_duel : ClosedGame ℤ
closed_duel = record { id = "g"; state = GameState.close; owner_id = "a"; owner_profit = none }

one_vs_one-never_unbalanced_example :
    (r : OneVsOneResults ℤ) × (get_one_vs_one_game_results duel (pos 1) ≡ ok r)
    × ((s : Memory)
        → (perform memory (Command.reward_one_vs_one closed_duel (rows_of_results r)) s).0
          ≢ err journal_is_not_balanced)
one_vs_one-never_unbalanced_example =
    one_vs_one-never_unbalanced memory duel (pos 1) (pos 110) (bet_of "a" (pos 105))
      (bet_of "b" (pos 90)) closed_duel refl refl (λ _. ((pos 105, refl), (pos 90, refl)))

abbrev leveraged : X1000Bet ℤ
leveraged = record {
  id = "x";
  owner_id = "w";
  amount = pos 10;
  multiplier = pos 2;
  is_long = true;
  fee_type = FeeType.pnl_fee;
  fee = none;
}

abbrev no_rows : Memory
no_rows = record { accounts = []; balances = []; journals = 0; entries = [] }

x1000-never_unbalanced_example :
    (perform memory
      (Command.reward_x1000 closed_duel
        (row_of_resolved (resolve_x1000 (pos 0) leveraged (some (pos 10)) (some (pos 20))) ∷ []))
      no_rows).0
    ≢ err journal_is_not_balanced
x1000-never_unbalanced_example =
    x1000-never_unbalanced memory (pos 0) leveraged (some (pos 10)) (some (pos 20)) closed_duel
      no_rows

x1000-reject_is_loss_example :
    ((resolve_x1000 (pos 0) leveraged (some (pos 10)) none).result ≡ BetResult.reject)
    × (give_rewards_for_x1000_game memory closed_duel
          (row_of_resolved (resolve_x1000 (pos 0) leveraged (some (pos 10)) none) ∷ [])
          no_rows
        ≡ give_rewards_for_x1000_game memory closed_duel
            (row_of_loss memory leveraged ∷ [])
            no_rows)
x1000-reject_is_loss_example =
    x1000-reject_is_loss memory (pos 0) leveraged (some (pos 10)) closed_duel no_rows

-- the first place takes the pool
abbrev winner_takes_all : WinnerCoefficients ℤ
winner_takes_all = record {
  first_place = pos 1;
  second_place = pos 0;
  third_place = pos 0;
  first_of_two = pos 1;
  second_of_two = pos 0;
}

abbrev bullseye : BullsEyeGame ℤ
bullseye = record {
  bets =
      bet_of "a" (pos 105) ∷ bet_of "b" (pos 90) ∷ bet_of "c" (pos 111) ∷ bet_of "d" (pos 70) ∷ [];
  end_price = some (pos 110);
  accuracy_level = pos 1;
  platform_fee = pos 1;
  exact_winner_coefficients = winner_takes_all;
  default_winner_coefficients = winner_takes_all;
}

bullseye-AddsUp : (b : Bool) → AddsUp (coefficients bullseye b) (pool_of bullseye)
unfolding total sum_from ◌*ℤ◌ ◌+ℤ◌
bullseye-AddsUp true = (refl, refl)
bullseye-AddsUp false = (refl, refl)

bulls_eye-never_unbalanced_example :
    (r : Results ℤ) × (get_bulls_eye_game_result bullseye ≡ ok r)
    × ((s : Memory)
        → (perform memory (Command.reward_bulls_eye closed_duel (map stored (all_bets r))) s).0
          ≢ err journal_is_not_balanced)
bulls_eye-never_unbalanced_example =
    bulls_eye-never_unbalanced memory bullseye closed_duel
      ((pos 105, refl), ((pos 90, refl), ((pos 111, refl), ((pos 70, refl), tt)))) bullseye-AddsUp

get_bulls_eye_game_result-Perm_example :
    (r : Results ℤ) × (get_bulls_eye_game_result bullseye ≡ ok r)
    × Perm (ids (all_bets r)) ("a" ∷ "b" ∷ "c" ∷ "d" ∷ [])
get_bulls_eye_game_result-Perm_example =
    get_bulls_eye_game_result-Perm bullseye
      ((pos 105, refl), ((pos 90, refl), ((pos 111, refl), ((pos 70, refl), tt))))

abbrev leveraged_game : X1000Game ℤ
leveraged_game = record {
  start_price = some (pos 10);
  end_price = some (pos 20);
  bets = leveraged ∷ [];
}

get_x1000_game_result_lem_example :
    (r : ResolvedBet ℤ) × (get_x1000_game_result leveraged_game (pos 1) ≡ ok r)
    × (minus_hundred ≤ℤ r.roi)
    × (r.outcome ≡ pos 10 +ℤ r.pnl)
    × ((is_pnl_fee leveraged.fee_type ≡ false)
        ⊎ ((greater_than r.roi (pos 0) ≡ true) ⊎ (r.fee ≡ some (pos 0))))
get_x1000_game_result_lem_example =
    get_x1000_game_result_lem leveraged_game (pos 1) (pos 10) (pos 20) leveraged [] refl refl refl
