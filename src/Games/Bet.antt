-- ===== src/Games/Bet.antt =====
-- The columns of the tables of bets (tools/prisma/schema.prisma) that the results of the games read
-- or set.
use backend_showcase.Prelude.{ℕ, String, Bool, Option, List}

-- `BetResultEnum`
pub data BetResult : Type 0 where
  won loss reject pending in_progress open_bet : BetResult

-- `FeeTypeEnum`
pub data FeeType : Type 0 where
  pnl_fee flat_fee : FeeType

pub record GameBet (D : Type 0) : Type 0 where
  pub id : String
  pub owner_id : String
  pub amount : D
  pub is_up : Option Bool
  pub price : Option D
  -- the time of creation, in milliseconds
  pub created_at : ℕ
  pub result : BetResult
  pub fee : Option D
  pub pnl : Option D
  pub outcome : Option D
  pub multiplier : D
  pub price_result : Option D
  pub is_exact : Bool
  pub place : Option ℕ

pub record Results (D : Type 0) : Type 0 where
  pub winners : List (GameBet D)
  pub losers : List (GameBet D)
  pub rejects : List (GameBet D)
