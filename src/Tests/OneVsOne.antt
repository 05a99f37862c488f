-- ===== src/Tests/OneVsOne.antt =====
-- 1vs1 games on tables in memory.
use backend_showcase.Prelude.{
  true, false, Bool, not, ◌&&◌, if◌then◌else◌, Bool-cases, inl, inr, none, some, List, [], ◌∷◌, ◌+◌,
  ◌≡◌, refl, arith, show_ℕ, length, String,
}
use backend_showcase.Prelude.Int.{ℤ, pos, ltb_ℤ}
use backend_showcase.Ledger.Result.{Result, ok, err, not_enough_balance}
use backend_showcase.Ledger.Action.{in_transaction, ◌>>=◌}
use backend_showcase.Ledger.GamesRewards.{GameState}
use backend_showcase.Games.Bet.{GameBet}
use backend_showcase.Rounds.Tables.{is_listed, BetRow}
use backend_showcase.Rounds.OneVsOne.{
  Duel, DuelTables, IsDuelStore, Direction, CreateDuelParams, AddDuelBetParams, ChargeDuel,
  accept_duel, open_bet_of, create_duel, open_duel,
}
use backend_showcase.Rounds.OneVsOne.Pairs.{ArePairs}
use backend_showcase.Rounds.OneVsOne.Requests.{IsOutside}
use backend_showcase.Rounds.OneVsOne.Steps.{
  DuelStep, create, accept, cron_job, perform_duel, start, then_step, ReachDuel-ArePairs,
}
use backend_showcase.Tests.Whole.{whole}

pub record DuelRows : Type 0 where
  pub games : List (Duel ℤ)
  pub bets : List (BetRow ℤ)
  -- who has paid
  pub spent : List String

abbrev store : DuelTables DuelRows ℤ
store = record {
  games = λ s. s.games;
  bets = λ s. s.bets;
  write_games = λ rows s. record s { games = rows };
  write_bets = λ rows s. record s { bets = rows };
  new_id = λ s. show_ℕ (length s.games + length s.bets);
}

store-IsDuelStore : IsDuelStore store
store-IsDuelStore = record {
  games-write_games = λ rows s. refl;
  bets-write_games = λ rows s. refl;
  games-write_bets = λ rows s. refl;
  bets-write_bets = λ rows s. refl;
}

-- Everyone can pay once, up to 100.
abbrev can_pay : String → ℤ → DuelRows → Bool
can_pay user amount s = ltb_ℤ amount (pos 101) && not (is_listed user s.spent)

abbrev charge : ChargeDuel DuelRows ℤ
charge user amount game_id bet_id s =
    if can_pay user amount s
    then (ok tt, record s { spent = user ∷ s.spent })
    else (err not_enough_balance, s)

charge-IsOutside : IsOutside store charge
charge-IsOutside user amount game_id bet_id s = elim (Bool-cases (can_pay user amount s)) [
  | inl rich ↦ rw rich refl
  | inr poor ↦ rw poor refl
]

abbrev params : CreateDuelParams ℤ
params = record {
  owner_id = "u";
  asset_id = "BTC";
  timeframe = 300;
  is_private = false;
  is_exact = false;
  direction = some Direction.up;
  opponent_id = none;
  bet_amount = pos 10;
  bet_price = none;
}

abbrev accepted_by : String → AddDuelBetParams ℤ
accepted_by user_id = record { user_id = user_id; game_id = "0"; price = none }

abbrev empty_rows : DuelRows
empty_rows = record { games = []; bets = []; spent = [] }

abbrev game : Duel ℤ
game = record {
  id = "0";
  asset_id = "BTC";
  owner_id = "u";
  opponent_id = none;
  state = GameState.open_game;
  is_exact = false;
  is_private = false;
  direction = some Direction.up;
  start_price = pos 100;
  end_price = none;
  start_at = 7;
  stop_bets_at = 100007;
  end_at = 300007;
}

abbrev owner_bet : GameBet ℤ
owner_bet = open_bet_of "1" "u" (pos 10) none (some true)

abbrev opened : DuelRows
opened = record { games = game ∷ []; bets = ("0", owner_bet) ∷ []; spent = "u" ∷ [] }

abbrev step : DuelStep ℤ → DuelRows → DuelRows
step c s = perform_duel store (pos 1) charge c s

opened_by_create : step (create params (pos 100) 7) empty_rows ≡ opened
unfolding perform_duel create_duel open_duel in_transaction ◌>>=◌ show_ℕ
opened_by_create = refl

no_bets-ArePairs : ArePairs store empty_rows
no_bets-ArePairs id = omega arith

ReachDuel-ArePairs_example : ArePairs store (
    step cron_job (step (accept (accepted_by "v") 8) (step (create params (pos 100) 7) empty_rows)))
ReachDuel-ArePairs_example =
    ReachDuel-ArePairs store store-IsDuelStore (pos 1) charge charge-IsOutside empty_rows
      (step cron_job
        (step (accept (accepted_by "v") 8) (step (create params (pos 100) 7) empty_rows)))
      (then_step
        (then_step (then_step start (create params (pos 100) 7) refl) (accept (accepted_by "v") 8)
          tt)
        cron_job tt)
      no_bets-ArePairs

abbrev accept_by : String → DuelRows → Result (Unit {0}) × DuelRows
accept_by user_id s = accept_duel store charge game (owner_bet ∷ []) (accepted_by user_id) s
