-- ===== src/Rounds/Setup/Heap.antt =====
-- apps/setups-worker/src/modules/game-worker/setupGamesHeap.helper.ts: the setups of an asset that wait
-- for their price.
pub mod Decided
use backend_showcase.Prelude.{
  ℕ, String, Bool, true, false, not, ◌&&◌, ◌||◌, Option, none, some, List, [], ◌∷◌, ◌++◌, filter,
  ltb, if◌then◌else◌, str_eq,
}
use backend_showcase.Decimal.{Decimal}
use backend_showcase.Rounds.Tables.{is_listed}

-- `SetupGamesHeapItem`
pub record HeapItem (D : Type 0) : Type 0 where
  pub game_id : String
  pub is_long : Bool
  pub take_profit : D
  pub stop_loss : D
  pub start_at_timestamp : ℕ
  pub end_at_timestamp : ℕ

-- `SetupGamesHeapByAsset`
pub record SetupGamesHeap (D : Type 0) : Type 0 where
  pub asset_id : String
  pub heap : List (HeapItem D)

module _ {D : Type 0} where
  unfoldable pub add_game : HeapItem D → SetupGamesHeap D → SetupGamesHeap D
  add_game game h = record h { heap = h.heap ++ game ∷ [] }

  unfoldable pub add_games : List (HeapItem D) → SetupGamesHeap D → SetupGamesHeap D
  add_games games h = record h { heap = h.heap ++ games }

  unfoldable pub delete_old_games : ℕ → SetupGamesHeap D → SetupGamesHeap D
  delete_old_games current_time h = record h {
    heap = filter (λ (g : HeapItem D). ltb current_time g.end_at_timestamp) h.heap;
  }

  unfoldable pub delete_games : List String → SetupGamesHeap D → SetupGamesHeap D
  delete_games games_ids h = record h {
    heap = filter (λ (g : HeapItem D). not (is_listed g.game_id games_ids)) h.heap;
  }

module _ {D : Type 0} ⦃dec : Decimal D⦄ where
  unfoldable pub is_reached : Bool → D → D → D → Bool
  is_reached is_long take_profit stop_loss asset_price =
      if is_long
      then dec.less_than take_profit asset_price || dec.less_than asset_price stop_loss
      else dec.less_than stop_loss asset_price || dec.less_than asset_price take_profit

  unfoldable pub is_due : D → ℕ → HeapItem D → Bool
  unfolding is_reached
  is_due asset_price timestamp game =
      if ltb timestamp game.start_at_timestamp || ltb game.end_at_timestamp timestamp
      then false
      else is_reached game.is_long game.take_profit game.stop_loss asset_price

  unfoldable pub get_games_by_price : D → ℕ → SetupGamesHeap D → List (HeapItem D)
  get_games_by_price asset_price timestamp h = filter (is_due asset_price timestamp) h.heap
