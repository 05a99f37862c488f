-- ===== src/Ledger/Balanced/Operations.antt =====
-- Bets, fees, payments, rewards and NFT bonuses are never refused for a journal that does not balance.
use backend_showcase.Prelude.{◌≡◌, refl, String, Bool, true, false, if◌then◌else◌}
use backend_showcase.Prelude.Int.{◌+ℤ◌}
use backend_showcase.Decimal.{Decimal, greater_than}
use backend_showcase.Decimal.Exact.{IsExact, units, exact_laws}
use backend_showcase.Ledger.Result.{Result, ok, err, not_enough_balance}
use backend_showcase.Ledger.Action.{lift}
use backend_showcase.Ledger.Action.Quiet.{
  Allowed, Quiet, Ensures, Ensures-lift, Quiet-throw, Quiet-bind, Quiet-if, Quiet-pure, quiet_rules,
}
use backend_showcase.Ledger.Account.{Account}
use backend_showcase.Ledger.Entry.{EntryMeta, EntryType, GameType}
use backend_showcase.Ledger.Journal.{Journal, add_entry}
use backend_showcase.Ledger.Database.{Database}
use backend_showcase.Ledger.Services.Balance.{Balance}
use backend_showcase.Ledger.Services.Quiet.{
  find_or_create_account-Quiet, find_balance-Quiet, update_balance-Quiet,
}
use backend_showcase.Ledger.Balanced.{new_entry-Allowed, IsOf, IsEven, Quiet-journal, save-Quiet}
use backend_showcase.Ledger.Balanced.Entries.{
  hold_entries-Ensures, unhold_entries-Ensures, reward_entries-Ensures, nft_entries-Ensures,
  deposit_entries-Ensures, resolve_lost-Ensures, resolve_won-Ensures,
}
use backend_showcase.Ledger.Games.Bets.{
  entry_on, new_journal, transfer_journal, check_enough, charge, create_bet, pay_bet_fee,
}
use backend_showcase.Ledger.Games.Settlement.{SettledBet}
use backend_showcase.Ledger.Games.X1000.{
  resolve_won, resolve_lost, create_ledger_entries_for_btc_x1000,
}
use backend_showcase.Ledger.Payments.{
  PaymentOrder, PaymentTransaction, deposit, hold_amount, unhold_amount,
}
use backend_showcase.Ledger.Rewards.{add_reward_to_user_balance}
use backend_showcase.Ledger.Nft.{change_nft_balance}

module _ {A B : Type 0} (P : A → Type 0) (Q : B → Type 0) where
  chain-Allowed :
      (r : Result A) (f : A → Result B)
      → Allowed P r
      → ((a : A) → P a → Allowed Q (f a))
      → Allowed Q (elim r [ ok a ↦ f a | err e ↦ err e ])
  chain-Allowed (ok a) f h k = k a h
  chain-Allowed (err e) f h k = h

module _ {D : Type 0} ⦃dec : Decimal D⦄ ⦃exact : IsExact dec⦄ where
  transfer_journal-Allowed :
      (name : String) (from to : Account) (x : D) (t : EntryType) (m : EntryMeta D)
      → Allowed IsEven (transfer_journal name from to x t m)
  unfolding transfer_journal add_entry
  transfer_journal-Allowed name from to x t m =
      chain-Allowed (IsOf false x) IsEven _ _ (new_entry-Allowed (entry_on from x false true t m))
        (λ e h.
          chain-Allowed (IsOf true x) IsEven _ _ (new_entry-Allowed (entry_on to x true false t m))
            (λ e' h'. rw (h, h') (omega exact_laws)))

module _ {S D : Type 0} ⦃dec : Decimal D⦄ ⦃exact : IsExact dec⦄ (db : Database S D) where
  ruleset service_rules = (
    quiet_rules, Quiet-journal, save-Quiet, find_or_create_account-Quiet, find_balance-Quiet,
    update_balance-Quiet,
  )

  check_enough-Quiet : (b : Balance D) (x : D) → Quiet (check_enough db b x)
  unfolding check_enough
  check_enough-Quiet b x = Quiet-if _ _ _ (Quiet-throw _ refl) (Quiet-pure tt)

  charge-Quiet : (b : Balance D) (x : D) (j : Journal D) → IsEven j → Quiet (charge db b x j)
  unfolding charge
  charge-Quiet b x j even =
      Quiet-bind _ _ (save-Quiet db j even)
        (λ k. Quiet-bind _ _ (update_balance-Quiet db _ _) (λ _. Quiet-pure _))

  transfer-Ensures :
      (name : String) (from to : Account) (x : D) (t : EntryType) (m : EntryMeta D)
      → Ensures {S = S} IsEven (lift (transfer_journal name from to x t m))
  transfer-Ensures name from to x t m =
      Ensures-lift IsEven _ (transfer_journal-Allowed name from to x t m)

  pub create_bet-Quiet :
      (u : String) (x : D) (g b : String) (t : GameType) → Quiet (create_bet db u x g b t)
  unfolding create_bet
  create_bet-Quiet u x g b t =
      search (service_rules, check_enough-Quiet, transfer-Ensures, charge-Quiet) depth 12

  pub pay_bet_fee-Quiet : (u : String) (x : D) (g : String) → Quiet (pay_bet_fee db u x g)
  unfolding pay_bet_fee
  pay_bet_fee-Quiet u x g =
      search (service_rules, check_enough-Quiet, transfer-Ensures, charge-Quiet) depth 12

  module _ (o : PaymentOrder) (t : PaymentTransaction D) where
    pub deposit-Quiet : Quiet (deposit db o t)
    unfolding deposit
    deposit-Quiet = search (service_rules, deposit_entries-Ensures) depth 12

    pub hold_amount-Quiet : Quiet (hold_amount db o t)
    unfolding hold_amount
    hold_amount-Quiet =
        search (service_rules, hold_entries-Ensures, Quiet-throw not_enough_balance refl) depth 12

    pub unhold_amount-Quiet : Quiet (unhold_amount db o t)
    unfolding unhold_amount
    unhold_amount-Quiet = search (service_rules, unhold_entries-Ensures) depth 12

  pub add_reward-Quiet :
      (u : String) (x : D) (reason : String) → Quiet (add_reward_to_user_balance db u x reason)
  unfolding add_reward_to_user_balance
  add_reward-Quiet u x reason = search (service_rules, reward_entries-Ensures) depth 12

  pub change_nft-Quiet :
      (u : String) (x : D) (reason : String) (is_add : Bool)
      → Quiet (change_nft_balance db u x reason is_add)
  unfolding change_nft_balance
  change_nft-Quiet u x reason is_add = search (service_rules, nft_entries-Ensures) depth 12

  -- the outcome of a won x1000 bet is its amount and the profit
  abbrev pub IsMadeUp : SettledBet D → Type 0
  IsMadeUp b =
      greater_than b.outcome (dec.from_ℕ 0) ≡ true → units b.outcome ≡ units b.amount +ℤ units b.pnl

  x1000_entries-Ensures :
      (won : Bool) (game_id : String) (b : SettledBet D) (u f g : Account) (name : String)
      → (won ≡ true → units b.outcome ≡ units b.amount +ℤ units b.pnl)
      → Ensures {S = S} IsEven (
          if won
          then resolve_won game_id b u f g (new_journal name)
          else resolve_lost game_id b u f g (new_journal name))
  x1000_entries-Ensures true game_id b u f g name h =
      resolve_won-Ensures game_id b u f g name (h refl)
  x1000_entries-Ensures false game_id b u f g name h = resolve_lost-Ensures game_id b u f g name

  pub btc_x1000-Quiet :
      (game_id : String) (b : SettledBet D)
      → IsMadeUp b
      → Quiet (create_ledger_entries_for_btc_x1000 db game_id b)
  unfolding create_ledger_entries_for_btc_x1000
  btc_x1000-Quiet game_id b made_up = Quiet-bind _ _ (find_or_create_account-Quiet db _) (λ u.
      Quiet-bind _ _ (find_or_create_account-Quiet db _) (λ f.
        Quiet-bind _ _ (find_or_create_account-Quiet db _) (λ g.
          Quiet-journal _ _ (x1000_entries-Ensures _ game_id b u f g _ made_up)
            (λ j even. save-Quiet db j even))))
