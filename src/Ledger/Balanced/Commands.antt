-- ===== src/Ledger/Balanced/Commands.antt =====
-- Which commands of the ledger may be refused for a journal that does not balance: the resolutions of
-- games whose bets do not bring what was bet, and no others.
use backend_showcase.Prelude.{
  ◌≡◌, ◌≢◌, refl, String, true, false, Option, none, some, List, [], ◌∷◌, arith,
}
use mathlib.Core.Path.{subst}
use backend_showcase.Decimal.{Decimal}
use backend_showcase.Decimal.Exact.{IsExact}
use backend_showcase.Ledger.Result.{
  LedgerError, Result, err, journal_is_not_balanced, entry_account_not_provided,
}
use backend_showcase.Ledger.Action.{Action}
use backend_showcase.Ledger.Action.Quiet.{
  is_unbalanced, IsQuiet, Quiet, Quiet-lift, Quiet-bind, Quiet-if, Quiet-pure, Quiet-throw,
  quiet_rules,
}
use backend_showcase.Ledger.Entry.{Entry}
use backend_showcase.Ledger.Journal.{Journal}
use backend_showcase.Ledger.Database.{Database}
use backend_showcase.Ledger.Services.Account.{create_system_accounts}
use backend_showcase.Ledger.Services.Quiet.{
  find_or_create_account-Quiet, update_balance_by_account_id-Quiet,
}
use backend_showcase.Ledger.Games.Bets.{create_game_account}
use backend_showcase.Ledger.Games.Settlement.{
  create_ledger_entries_for_bulls_eye, create_ledger_entries_for_one_vs_one,
  create_ledger_entries_for_setup, create_ledger_entries_for_up_down,
}
use backend_showcase.Ledger.Nft.{add_nft_balance, remove_nft_balance}
use backend_showcase.Ledger.GamesRewards.{
  ClosedGame, StoredBet, Updates, get_game_results, add_owner, collect_updates, update_each,
  update_users_balances, update_if_saved, give_rewards, give_rewards_for_up_down,
  give_rewards_for_one_vs_one, give_rewards_for_bulls_eye, give_rewards_for_setups, settle_x1000,
  give_rewards_for_x1000_game,
}
use backend_showcase.Ledger.History.{Command, perform}
use backend_showcase.Ledger.Balanced.Settlement.{IsFair, create_ledger_entries-Quiet}
use backend_showcase.Ledger.Balanced.Operations.{
  create_bet-Quiet, pay_bet_fee-Quiet, deposit-Quiet, hold_amount-Quiet, unhold_amount-Quiet,
  add_reward-Quiet, change_nft-Quiet, IsMadeUp, btc_x1000-Quiet,
}
use backend_showcase.Ledger.Balanced.Withdrawal.{withdraw_amount-Quiet}
use backend_showcase.Ledger.Balanced.Refresh.{refresh_balances-Quiet, create_each-Quiet}

module _ {A B : Type 0} where
  option-IsQuiet :
      (o : Option A) (e : LedgerError) (f : A → Result B)
      → is_unbalanced e ≡ false
      → ((a : A) → IsQuiet (f a))
      → IsQuiet (elim o [ none ↦ err e | some a ↦ f a ])
  option-IsQuiet none e f h k = h
  option-IsQuiet (some a) e f h k = k a

module _ {A : Type 0} where
  quiet_differs : (r : Result A) → IsQuiet r → r ≢ err journal_is_not_balanced
  quiet_differs r h e = absurd_of (subst IsQuiet e h)
    where
      absurd_of : true ≡ false → ⊥
      absurd_of q = ground arith

module _ {D : Type 0} ⦃dec : Decimal D⦄ where
  collect_updates-IsQuiet : (es : List (Entry D)) (m : Updates D) → IsQuiet (collect_updates es m)
  unfolding collect_updates
  collect_updates-IsQuiet [] m = tt
  collect_updates-IsQuiet (e ∷ es) m =
      option-IsQuiet e.account entry_account_not_provided _ refl (λ a. collect_updates-IsQuiet es _)

module _ {S D : Type 0} ⦃dec : Decimal D⦄ (db : Database S D) where
  update_each-Quiet :
      (updates : Updates D) (journal : Journal D) → Quiet (update_each db updates journal)
  unfolding update_each
  update_each-Quiet [] journal = Quiet-pure []
  update_each-Quiet ((id, x) ∷ updates) journal =
      Quiet-bind _ _ (update_balance_by_account_id-Quiet db id x _)
        (λ b. Quiet-bind _ _ (update_each-Quiet updates journal) (λ bs. Quiet-pure _))

  update_users_balances-Quiet : (journal : Journal D) → Quiet (update_users_balances db journal)
  unfolding update_users_balances
  update_users_balances-Quiet journal =
      Quiet-bind _ _ (Quiet-lift _ (collect_updates-IsQuiet journal.entries []))
        (λ updates. update_each-Quiet updates journal)

  update_if_saved-Quiet : (saved : Option (Journal D)) → Quiet (update_if_saved db saved)
  unfolding update_if_saved
  update_if_saved-Quiet none = Quiet-pure []
  update_if_saved-Quiet (some journal) = update_users_balances-Quiet journal

  give_rewards-Quiet :
      (game : ClosedGame D) (settlement : Action S (Option (Journal D)))
      → Quiet settlement
      → Quiet (give_rewards db game settlement)
  unfolding give_rewards
  give_rewards-Quiet game settlement h =
      Quiet-if _ _ _ (Quiet-bind _ _ h update_if_saved-Quiet) (Quiet-pure [])

module _ {S D : Type 0} ⦃dec : Decimal D⦄ ⦃exact : IsExact dec⦄ (db : Database S D) where
  abbrev pub IsFirstMadeUp : List (StoredBet D) → Type 0
  IsFirstMadeUp [] = Unit
  IsFirstMadeUp (b ∷ bets) = IsMadeUp db b.bet

  settle_x1000-Quiet :
      (game_id : String) (bets : List (StoredBet D))
      → IsFirstMadeUp bets
      → Quiet (settle_x1000 db game_id bets)
  unfolding settle_x1000
  settle_x1000-Quiet game_id [] h = Quiet-throw _ refl
  settle_x1000-Quiet game_id (b ∷ bets) h =
      Quiet-bind _ _ (btc_x1000-Quiet db game_id b.bet h) (λ j. Quiet-pure _)

  -- Whether the bets that a command settles bring what was bet. Other commands settle none.
  abbrev pub IsFairCommand : Command D → Type 0
  IsFairCommand (Command.resolve_bulls_eye r) = IsFair r
  IsFairCommand (Command.resolve_one_vs_one r) = IsFair r
  IsFairCommand (Command.resolve_setup r) = IsFair r
  IsFairCommand (Command.resolve_up_down r) = IsFair r
  IsFairCommand (Command.resolve_x1000 g b) = IsMadeUp db b
  IsFairCommand (Command.reward_up_down g bs) = IsFair (get_game_results g.id bs)
  IsFairCommand (Command.reward_one_vs_one g bs) = IsFair (get_game_results g.id bs)
  IsFairCommand (Command.reward_bulls_eye g bs) = IsFair (get_game_results g.id bs)
  IsFairCommand (Command.reward_setups g bs) = IsFair (add_owner g (get_game_results g.id bs))
  IsFairCommand (Command.reward_x1000 g bs) = IsFirstMadeUp bs
  IsFairCommand _ = Unit

  ruleset command_rules = (
    create_bet-Quiet, pay_bet_fee-Quiet, find_or_create_account-Quiet, create_ledger_entries-Quiet,
    btc_x1000-Quiet, deposit-Quiet, hold_amount-Quiet, unhold_amount-Quiet, withdraw_amount-Quiet,
    add_reward-Quiet, change_nft-Quiet, refresh_balances-Quiet, create_each-Quiet,
    give_rewards-Quiet, settle_x1000-Quiet,
  )

  perform-Quiet : (c : Command D) → IsFairCommand c → Quiet (perform db c)
  unfolding perform create_game_account create_ledger_entries_for_bulls_eye
      create_ledger_entries_for_one_vs_one create_ledger_entries_for_setup
      create_ledger_entries_for_up_down add_nft_balance remove_nft_balance create_system_accounts
      give_rewards_for_up_down give_rewards_for_one_vs_one give_rewards_for_bulls_eye
      give_rewards_for_setups give_rewards_for_x1000_game
  perform-Quiet (Command.create_bet u x g b t) h = search (quiet_rules, command_rules)
  perform-Quiet _ h = search (quiet_rules, command_rules)

  -- No command throws `JournalIsNotBalancedError`, in whatever state it runs, unless it resolves a
  -- game whose bets do not bring what was bet. For the games with a pool the bets bring what was bet
  -- if the rejected bets are all bets, or if none is rejected and the outcomes and the fees of the
  -- winners are together all amounts; a won x1000 bet does if its outcome is its amount and profit.
  pub perform-never_unbalanced :
      (c : Command D) → IsFairCommand c → (s : S) → (perform db c s).0 ≢ err journal_is_not_balanced
  perform-never_unbalanced c fair s = quiet_differs _ ((perform-Quiet c fair).never s)
