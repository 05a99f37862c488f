-- ===== src/Rounds/Setup/Order.antt =====
-- That the worker of the setups never takes a game back
-- (apps/setups-worker/src/infrastructure/database/repositories/setup.repository.ts).
use backend_showcase.Prelude.{
  ℕ, ◌≤◌, ◌≡◌, refl, String, Bool, true, Option, none, some, List, inl, inr, Bool-cases, arith,
  str_eq, str_eq_iff,
}
use backend_showcase.Ledger.Result.{Result, ok, err}
use backend_showcase.Ledger.Action.{Action, in_transaction, roll_back}
use backend_showcase.Ledger.GamesRewards.{GameState}
use backend_showcase.Games.Bet.{BetResult}
use backend_showcase.Rounds.Tables.{
  Round, Tables, IsStore, find_row, set_row, find_game, update_game, update_many,
}
use backend_showcase.Rounds.Tables.Rows.{
  KeepsId, find_row-set_row, find_row-set_row_other, update_game-cases,
}
use backend_showcase.Rounds.Repository.{
  is_game_open, is_game_in_pending, is_active, move_bets_and_game,
}
use backend_showcase.Rounds.Setup.{
  no_unique_index, move_game_to_in_progress_state, move_game_to_pending_state,
}

-- how far a game is
abbrev pub rank : GameState → ℕ
rank GameState.draft = 0
rank GameState.open_game = 1
rank GameState.in_progress = 2
rank GameState.pending = 3
rank GameState.close = 4

open_rank : (state : GameState) → is_game_open state ≡ true → rank state ≤ 2
open_rank state h = ground arith

active_rank : (state : GameState) → is_active state ≡ true → rank state ≤ 3
active_rank state h = ground arith

pub pending_rank : (state : GameState) → is_game_in_pending state ≡ true → rank state ≤ 4
pending_rank state h = ground arith

module _ {S D : Type 0} (db : Tables S D) where
  abbrev pub rank_of : Option (Round D) → ℕ
  rank_of none = 0
  rank_of (some g) = rank g.state

  -- how far the game with an id is, 0 without such a game
  abbrev pub rank_at : String → S → ℕ
  rank_at id s = rank_of (find_game db id s)

  -- No game is taken back.
  abbrev pub IsForward : S → S → Type 0
  IsForward s s' = (j : String) → rank_at j s ≤ rank_at j s'

module _ {S D : Type 0} (db : Tables S D) (store : IsStore db) where
  set_row-rank :
      (id j : String) (f : Round D → Round D) (g : Round D) (rows : List (Round D))
      → KeepsId f
      → find_row id rows ≡ some g
      → rank g.state ≤ rank (f g).state
      → rank_of db (find_row j rows) ≤ rank_of db (find_row j (set_row id f rows))
  set_row-rank id j f g rows keeps found up = elim (Bool-cases (str_eq id j)) [
    | inr other ↦ rw (find_row-set_row_other id j f keeps other rows) (omega arith)
    | inl this ↦
        let same : id ≡ j = (str_eq_iff id j).0 this in
        rw (← same) (rw (find_row-set_row id f keeps rows, found) up)
  ]

  pub update_game-IsForward :
      (unique : GameState → Bool) (id : String) (allowed : GameState → Bool) (f : Round D → Round D)
      (s : S)
      → KeepsId f
      → ((g : Round D) → allowed g.state ≡ true → rank g.state ≤ rank (f g).state)
      → IsForward db s (update_game db unique id allowed f s).1
  update_game-IsForward unique id allowed f s keeps up j =
      elim (update_game-cases db unique id allowed f s) [
        | inl (same, thrown) ↦ rw same (omega arith)
        | inr (g, found, may, moved) ↦ rw moved (
            rw (store.games-write_games (set_row id f (db.games s)) s)
              (set_row-rank id j f g (db.games s) keeps found (up g may)))
      ]

  pub IsForward-trans : (a b c : S) → IsForward db a b → IsForward db b c → IsForward db a c
  IsForward-trans a b c h k j = omega (arith, h j, k j)

  pub same_games : (s t : S) → db.games t ≡ db.games s → IsForward db s t
  same_games s t e j = rw e (omega arith)

  -- what is rolled back is where it was
  pub transaction-IsForward :
      (m : Action S (Round D)) (s : S)
      → IsForward db s (m s).1
      → IsForward db s (in_transaction m s).1
  unfolding in_transaction
  transaction-IsForward m s forward = rolled (m s) forward
    where
      rolled : (r : Result (Round D) × S) → IsForward db s r.1 → IsForward db s (roll_back s r).1
      rolled (ok g, s') h j = h j
      rolled (err e, s') h j = omega arith

  move-IsForward :
      (id : String) (from : BetResult → Bool) (to : BetResult) (allowed : GameState → Bool)
      (f : Round D → Round D) (s : S)
      → KeepsId f
      → ((g : Round D) → allowed g.state ≡ true → rank g.state ≤ rank (f g).state)
      → IsForward db s
          (in_transaction (move_bets_and_game db no_unique_index id from to allowed f) s).1
  unfolding move_bets_and_game update_many
  move-IsForward id from to allowed f s keeps up = transaction-IsForward _ s (
      IsForward-trans s _ _ (same_games s _ (store.games-write_bets _ s))
        (update_game-IsForward no_unique_index id allowed f _ keeps up))

  pub to_in_progress-IsForward :
      (id : String) (s : S) → IsForward db s (move_game_to_in_progress_state db id s).1
  unfolding move_game_to_in_progress_state
  to_in_progress-IsForward id s =
      move-IsForward id _ _ _ _ s (λ g. refl) (λ g h. open_rank g.state h)

  pub to_pending-IsForward :
      (id : String) (price : Option D) (s : S)
      → IsForward db s (move_game_to_pending_state db id price s).1
  unfolding move_game_to_pending_state
  to_pending-IsForward id price s =
      move-IsForward id _ _ _ _ s (λ g. refl) (λ g h. active_rank g.state h)
