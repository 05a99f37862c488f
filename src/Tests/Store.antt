-- ===== src/Tests/Store.antt =====
-- The tables of games and bets in memory.
use mathlib.Core.Bool.{Bool-set}
use mathlib.Core.Logic.Or
use mathlib.Core.List.{Mem, Nodup, Nodup-nil, Nodup-cons, mem-cons, not-mem-nil}
use backend_showcase.Prelude.{
  ℕ, String, Bool, true, false, none, some, List, [], ◌∷◌, ◌≡◌, ◌≢◌, refl, ◌∙◌, ap, arith, show_ℕ,
  str_eq, str_eq_iff, length,
}
use backend_showcase.Prelude.Int.{ℤ, pos}
use backend_showcase.Games.Bet.{GameBet, BetResult}
use backend_showcase.Ledger.GamesRewards.{GameState}
use backend_showcase.Rounds.Tables.{Round, Tables, IsStore, BetRow}
use backend_showcase.Rounds.Worker.{Worker}

pub record Rows : Type 0 where
  pub games : List (Round ℤ)
  pub bets : List (BetRow ℤ)

abbrev pub store : Tables Rows ℤ
store = record {
  games = λ s. s.games;
  bets = λ s. s.bets;
  write_games = λ rows s. record s { games = rows };
  write_bets = λ rows s. record s { bets = rows };
  new_id = λ s. show_ℕ (length s.games);
}

pub store-IsStore : IsStore store
store-IsStore = record {
  games-write_games = λ rows s. refl;
  bets-write_games = λ rows s. refl;
  games-write_bets = λ rows s. refl;
  bets-write_bets = λ rows s. refl;
}

abbrev pub round_in : GameState → Round ℤ
round_in state = record {
  id = "g";
  state = state;
  asset_id = "BTC";
  start_at = 0;
  stop_bets_at = 10;
  end_at = 20;
  start_price = none;
  end_price = none;
  is_up = none;
  winner_id = none;
  winner_bet_id = none;
  take_profit = pos 120;
  stop_loss = pos 80;
  is_long = true;
  owner_id = "o";
  result = none;
  owner_profit = none;
}

abbrev pub bet_in : BetResult → String → Bool → ℕ → GameBet ℤ
bet_in result id is_up price = record {
  id = id;
  owner_id = id;
  amount = pos 10;
  is_up = some is_up;
  price = some (pos price);
  created_at = 0;
  result = result;
  fee = none;
  pnl = none;
  outcome = none;
  multiplier = pos 0;
  price_result = none;
  is_exact = false;
  place = none;
}

-- a game with two bets
abbrev pub rows_in : GameState → BetResult → BetResult → Rows
rows_in state first second = record {
  games = round_in state ∷ [];
  bets = ("g", bet_in first "a" true 105) ∷ ("g", bet_in second "b" false 90) ∷ [];
}

abbrev pub worker_in : GameState → BetResult → BetResult → Worker Rows ℤ
worker_in state first second = record {
  tables = rows_in state first second;
  published = [];
  jobs = [];
}

abbrev pub two_bets : List String
two_bets = "a" ∷ "b" ∷ []

-- What holds of both bets.
pub both_bets :
    (p : String → Bool)
    → p "a" ≡ true
    → p "b" ≡ true
    → (x : String) → Mem x ("a" ∷ "b" ∷ [])
    → p x ≡ true
both_bets p pa pb x m =
    Or.elim (Bool-set (p x) true) (mem-cons.0 m) (λ e. ap p e ∙ pa)
      (λ n.
        Or.elim (Bool-set (p x) true) (mem-cons.0 n) (λ e. ap p e ∙ pb)
          (λ none_left. absurd (not-mem-nil none_left)))

differ : (a b : String) → str_eq a b ≡ false → a ≢ b
differ a b unequal e = ground (arith, str_eq_iff a b)

pub two_ids : Nodup two_bets
two_ids = Nodup-cons.1 (
  (λ m. Or.elim (λ x y. absurd x) (mem-cons.0 m) (differ "a" "b" refl) not-mem-nil),
  Nodup-cons.1 (not-mem-nil, Nodup-nil),
)
