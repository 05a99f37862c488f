-- ===== src/Ledger/Games/Settlement.antt =====
-- `GameLedgerService.createLedgerEntriesFor…`: the journal that resolves a game. The four methods
-- for games with a pool are one text but for the names of the game, so they are four instances of
-- one definition here.
use backend_showcase.Prelude.{
  ◌+◌, String, Bool, true, false, Option, none, some, List, [], ◌∷◌, ◌++◌, map, length, ltb,
  if◌then◌else◌, ◌+s◌, show_ℕ,
}
use backend_showcase.Decimal.{Decimal}
use backend_showcase.Decimal.Sum.{total}
use backend_showcase.Ledger.Action.{Action, pure, lift, ◌>>=◌, ◌>>◌}
use backend_showcase.Ledger.Names
use backend_showcase.Ledger.Names.{resolve_account_name, income, fee, funds, x1000}
use backend_showcase.Ledger.Entry.{EntryMeta, EntryType, GameType, new_entry}
use backend_showcase.Ledger.Journal.{Journal, add_entry}
use backend_showcase.Ledger.Database.{Database}
use backend_showcase.Ledger.Services.Account.{find_or_create_account}
use backend_showcase.Ledger.Services.Journal.{save}
use backend_showcase.Ledger.Games.Bets.{user_account_name, bets_account_name, new_journal, entry_on}

-- The columns of `Bet` that the settlement reads. `outcome` and `pnl` are read with `!`: they are
-- set once the result of the game is known.
pub record SettledBet (D : Type 0) : Type 0 where
  pub id : String
  pub owner_id : String
  pub amount : D
  pub outcome : D
  pub pnl : D
  pub fee : Option D

pub record GameResult (D : Type 0) : Type 0 where
  pub winners : List (SettledBet D)
  pub losers : List (SettledBet D)
  pub rejects : List (SettledBet D)
  pub game_id : String

-- What differs between the four methods: the title in the journal's name, the type of the game,
-- and the account under `Income:fee` that gets the commission.
pub record GameTitle : Type 0 where
  pub title : String
  pub game_type : GameType
  pub fees_account : String

abbrev pub is_nonempty : {A : Type 0} → List A → Bool
is_nonempty xs = ltb 0 (length xs)

module _ {D : Type 0} ⦃dec : Decimal D⦄ where
  -- the reduce over `winners.concat(losers).concat(rejects)`
  unfoldable pub total_amount : GameResult D → D
  total_amount r =
      total (map (λ (b : SettledBet D). b.amount) ((r.winners ++ r.losers) ++ r.rejects))

  -- `if (bet.fee) commissionAmount = commissionAmount.add(bet.fee)`
  abbrev pub add_fee : D → Option D → D
  add_fee commission none = commission
  add_fee commission (some x) = dec.add commission x

  unfoldable pub journal_name : GameTitle → GameResult D → String
  journal_name g r =
      if is_nonempty r.rejects
      then "Game "
        +s g.title
        +s " Resolve with "
        +s show_ℕ (length r.rejects)
        +s " rejected bets for "
        +s dec.to_string (dec.to_number (total_amount r))
        +s " usd"
      else "Game "
        +s g.title
        +s " Resolve with "
        +s show_ℕ (length r.winners + length r.losers)
        +s " bets for "
        +s dec.to_string (dec.to_number (total_amount r))
        +s " usd"

module _ {S D : Type 0} ⦃dec : Decimal D⦄ (db : Database S D) where
  -- One entry: the account is found or created, and the entry is added to the journal.
  unfoldable pub add_to :
      String → D → Bool → Bool → EntryType → EntryMeta D → Journal D → Action S (Journal D)
  add_to account_name amount is_credit is_read type meta journal = do
    account ← find_or_create_account db account_name
    entry ← lift (new_entry (entry_on account amount is_credit is_read type meta))
    pure (add_entry journal entry)

  module _ (game_type : GameType) (game_id : String) where
    unfoldable pub add_rejects : List (SettledBet D) → Journal D → Action S (Journal D)
    add_rejects [] journal = pure journal
    add_rejects (b ∷ rejects) journal = do
      next ←
          add_to (user_account_name b.owner_id) b.amount true false EntryType.user_rejected_bet
            (EntryMeta.user_rejected_bet game_type game_id b.id) journal
      add_rejects rejects next

    -- the loop over the winners, with the commission so far
    unfoldable pub add_winners : List (SettledBet D) → D → Journal D → Action S (D × Journal D)
    add_winners [] commission journal = pure (commission, journal)
    add_winners (b ∷ winners) commission journal = do
      next ←
          add_to (user_account_name b.owner_id) b.outcome true false EntryType.user_won
            (EntryMeta.user_won game_type game_id b.id) journal
      add_winners winners (add_fee commission b.fee) next

    unfoldable pub add_losers : List (SettledBet D) → Journal D → Action S (Journal D)
    add_losers [] journal = pure journal
    add_losers (b ∷ losers) journal = do
      next ←
          add_to (user_account_name b.owner_id) (dec.from_ℕ 0) false true EntryType.user_lose
            (EntryMeta.user_lose (dec.to_number b.amount) game_type game_id b.id) journal
      add_losers losers next

  -- The branch with rejected bets: only these are paid back. The account of the fees is found or
  -- created in this branch too.
  unfoldable pub refund : GameTitle → GameResult D → Journal D → Action S (Journal D)
  refund g r journal = do
    refunded ← add_rejects g.game_type r.game_id r.rejects journal
    find_or_create_account db (resolve_account_name (income ∷ fee ∷ g.fees_account ∷ []))
    pure refunded

  -- The branch without: winners, losers and the commission.
  unfoldable pub pay_out : GameTitle → GameResult D → Journal D → Action S (Journal D)
  pay_out g r journal = do
    paid ← add_winners g.game_type r.game_id r.winners (dec.from_ℕ 0) journal
    settled ← add_losers g.game_type r.game_id r.losers paid.1
    add_to (resolve_account_name (income ∷ fee ∷ g.fees_account ∷ [])) paid.0 true false
        EntryType.game_resolve (EntryMeta.game_resolve g.game_type r.game_id) settled

  unfoldable pub settle : GameTitle → GameResult D → Action S (Journal D)
  settle g r = do
    opened ←
        add_to (bets_account_name r.game_id) (total_amount r) false false EntryType.game_resolve
          (EntryMeta.game_resolve g.game_type r.game_id) (new_journal (journal_name g r))
    journal ← if is_nonempty r.rejects then refund g r opened else pay_out g r opened
    save db journal

  unfoldable pub create_ledger_entries : GameTitle → GameResult D → Action S (Option (Journal D))
  create_ledger_entries g r =
      if ltb 0 (length r.winners + length r.losers + length r.rejects)
      then (do journal ← settle g r; pure (some journal))
      else pure none

  -- The commission of this game goes to the account of the setup games.
  unfoldable pub create_ledger_entries_for_bulls_eye : GameResult D → Action S (Option (Journal D))
  create_ledger_entries_for_bulls_eye = create_ledger_entries (record {
    title = "Bulls-Eye";
    game_type = GameType.bullseye;
    fees_account = Names.Fees.setup;
  })

  unfoldable pub create_ledger_entries_for_one_vs_one : GameResult D → Action S (Option (Journal D))
  create_ledger_entries_for_one_vs_one = create_ledger_entries (record {
    title = "1vs1";
    game_type = GameType.one_vs_one;
    fees_account = Names.Fees.one_vs_one;
  })

  unfoldable pub create_ledger_entries_for_setup : GameResult D → Action S (Option (Journal D))
  create_ledger_entries_for_setup =
      create_ledger_entries
        (record { title = "Setup"; game_type = GameType.setup; fees_account = Names.Fees.setup })

  unfoldable pub create_ledger_entries_for_up_down : GameResult D → Action S (Option (Journal D))
  create_ledger_entries_for_up_down =
      create_ledger_entries
        (record { title = "UpDown"; game_type = GameType.updown; fees_account = Names.Fees.updown })
