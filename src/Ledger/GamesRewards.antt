-- ===== src/Ledger/GamesRewards.antt =====
-- apps/ledger/src/modules/games-rewards/gamesRewards.service.ts: when a game is closed, its bets are
-- settled in the ledger, and the balances of the users are changed by the entries of the journal.
-- The rows of the bets come as an argument. The database transaction around a settlement is a step
-- of Ledger.History; the events that are published after it are left out.
pub mod Update
pub mod Books
pub mod OneVsOne
pub mod X1000
pub mod BullsEye
use backend_showcase.Prelude.{
  String, Bool, true, false, not, ◌&&◌, Option, none, some, List, [], ◌∷◌, ◌++◌, map, length, ltb,
  if◌then◌else◌, str_eq, starts_with,
}
use backend_showcase.Decimal.{Decimal}
use backend_showcase.Ledger.Result.{entry_account_not_provided, null_dereference, Result, ok, err}
use backend_showcase.Ledger.Action.{Action, pure, throw, lift, ◌>>=◌}
use backend_showcase.Ledger.Names.{resolve_account_name, liabilities, user_balance}
use backend_showcase.Ledger.Account.{Account}
use backend_showcase.Ledger.Entry.{Entry}
use backend_showcase.Ledger.Journal.{Journal}
use backend_showcase.Ledger.Database.{Database}
use backend_showcase.Ledger.Services.Balance.{Balance, update_balance_by_account_id}
use backend_showcase.Ledger.Games.Settlement.{
  SettledBet, GameResult, create_ledger_entries_for_bulls_eye, create_ledger_entries_for_one_vs_one,
  create_ledger_entries_for_setup, create_ledger_entries_for_up_down,
}
use backend_showcase.Ledger.Games.X1000.{create_ledger_entries_for_btc_x1000}
use backend_showcase.Games.Bet.{BetResult}

-- `GameStateEnum`
pub data GameState : Type 0 where
  draft open_game in_progress pending close : GameState

-- The columns of a game that the service reads.
pub record ClosedGame (D : Type 0) : Type 0 where
  pub id : String
  pub state : GameState
  pub owner_id : String
  pub owner_profit : Option D

-- a row of a table of bets
pub record StoredBet (D : Type 0) : Type 0 where
  pub result : BetResult
  pub bet : SettledBet D

abbrev pub is_closed : GameState → Bool
is_closed close = true
is_closed _ = false

abbrev pub is_loss : BetResult → Bool
is_loss BetResult.loss = true
is_loss _ = false

abbrev pub is_won : BetResult → Bool
is_won BetResult.won = true
is_won _ = false

abbrev pub is_reject : BetResult → Bool
is_reject BetResult.reject = true
is_reject _ = false

module _ {D : Type 0} where
  unfoldable pub bets_with : (BetResult → Bool) → List (StoredBet D) → List (SettledBet D)
  bets_with p [] = []
  bets_with p (b ∷ bets) = if p b.result then b.bet ∷ bets_with p bets else bets_with p bets

  -- `getGameResults`, with the id of the game
  unfoldable pub get_game_results : String → List (StoredBet D) → GameResult D
  get_game_results game_id bets = record {
    winners = bets_with is_won bets;
    losers = bets_with is_loss bets;
    rejects = bets_with is_reject bets;
    game_id = game_id;
  }

-- `Map<string, Decimal>`, in the order of insertion
abbrev pub Updates : Type 0 → Type 0
Updates D = List (String × D)

module _ {D : Type 0} ⦃dec : Decimal D⦄ where
  -- `get(id) ?? new Decimal(0)`
  unfoldable pub update_of : String → Updates D → D
  update_of id [] = dec.from_ℕ 0
  update_of id ((k, x) ∷ updates) = if str_eq k id then x else update_of id updates

  unfoldable pub set_update : String → D → Updates D → Updates D
  set_update id x [] = (id, x) ∷ []
  set_update id x ((k, y) ∷ updates) =
      if str_eq k id then (k, x) ∷ updates else (k, y) ∷ set_update id x updates

  unfoldable pub changed : Entry D → Account → D → D
  changed entry account current =
      if entry.is_credit
      then if account.is_credit_plus
        then dec.add current entry.amount
        else dec.sub current entry.amount
      else if account.is_credit_plus
      then dec.sub current entry.amount
      else dec.add current entry.amount

  -- an unread entry on the balance of a user
  unfoldable pub is_for_user : Entry D → Account → Bool
  is_for_user entry account =
      starts_with account.full_name (resolve_account_name (liabilities ∷ user_balance ∷ []))
      && not entry.is_read

  -- the loop over the entries of the journal
  unfoldable pub collect_updates : List (Entry D) → Updates D → Result (Updates D)
  collect_updates [] updates = ok updates
  collect_updates (entry ∷ entries) updates = elim entry.account [
    | none ↦ err entry_account_not_provided
    | some account ↦ collect_updates entries (
        if is_for_user entry account
        then set_update entry.account_id
            (changed entry account (update_of entry.account_id updates)) updates
        else updates)
  ]

  -- The owner of a setup that was not rejected is paid as one more winner, by a bet with no id (here
  -- the empty text).
  abbrev owner_bet : ClosedGame D → D → SettledBet D
  owner_bet game profit = record {
    id = "";
    owner_id = game.owner_id;
    amount = dec.from_ℕ 0;
    outcome = profit;
    pnl = profit;
    fee = some (dec.from_ℕ 0);
  }

  abbrev profit_of : Option D → D
  profit_of none = dec.from_ℕ 0
  profit_of (some profit) = profit

  unfoldable pub add_owner : ClosedGame D → GameResult D → GameResult D
  add_owner game results = if ltb 0 (length results.rejects) then results else record results {
    winners = results.winners ++ (owner_bet game (profit_of game.owner_profit) ∷ []);
  }

module _ {S D : Type 0} ⦃dec : Decimal D⦄ (db : Database S D) where
  unfoldable pub update_each : Updates D → Journal D → Action S (List (Balance D))
  update_each [] journal = pure []
  update_each ((id, x) ∷ updates) journal = do
    balance ← update_balance_by_account_id db id x (some journal)
    balances ← update_each updates journal
    pure (balance ∷ balances)

  unfoldable pub update_users_balances : Journal D → Action S (List (Balance D))
  update_users_balances journal = do
    updates ← lift (collect_updates journal.entries [])
    update_each updates journal

  unfoldable pub update_if_saved : Option (Journal D) → Action S (List (Balance D))
  update_if_saved none = pure []
  update_if_saved (some journal) = update_users_balances journal

  -- a closed game's journal, and then the balances
  unfoldable pub give_rewards :
      ClosedGame D → Action S (Option (Journal D)) → Action S (List (Balance D))
  give_rewards game settlement =
      if is_closed game.state then (do saved ← settlement; update_if_saved saved) else pure []

  module _ (game : ClosedGame D) (bets : List (StoredBet D)) where
    unfoldable pub give_rewards_for_up_down : Action S (List (Balance D))
    give_rewards_for_up_down =
        give_rewards game (create_ledger_entries_for_up_down db (get_game_results game.id bets))

    unfoldable pub give_rewards_for_one_vs_one : Action S (List (Balance D))
    give_rewards_for_one_vs_one =
        give_rewards game (create_ledger_entries_for_one_vs_one db (get_game_results game.id bets))

    unfoldable pub give_rewards_for_bulls_eye : Action S (List (Balance D))
    give_rewards_for_bulls_eye =
        give_rewards game (create_ledger_entries_for_bulls_eye db (get_game_results game.id bets))

    unfoldable pub give_rewards_for_setups : Action S (List (Balance D))
    give_rewards_for_setups =
        give_rewards game
          (create_ledger_entries_for_setup db (add_owner game (get_game_results game.id bets)))

  -- `const [bet] = …`: without a bet, reading `bet.amount` throws.
  unfoldable pub settle_x1000 : String → List (StoredBet D) → Action S (Option (Journal D))
  settle_x1000 game_id [] = throw null_dereference
  settle_x1000 game_id (b ∷ bets) = do
    journal ← create_ledger_entries_for_btc_x1000 db game_id b.bet
    pure (some journal)

  unfoldable pub give_rewards_for_x1000_game :
      ClosedGame D → List (StoredBet D) → Action S (List (Balance D))
  give_rewards_for_x1000_game game bets = give_rewards game (settle_x1000 game.id bets)
