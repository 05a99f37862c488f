-- ===== src/Ledger/History/Reachable.antt =====
-- What holds of the books in every state that the ledger reaches.
use backend_showcase.Prelude.{[], ◌≡◌, ◌+◌, ◌*◌, ◌≤◌, length}
use backend_showcase.Prelude.Int.{pos_part, neg_part}
use backend_showcase.Decimal.{Decimal}
use backend_showcase.Decimal.Exact.{IsExact, units}
use backend_showcase.Ledger.Action.Keeps.{keeps_rules}
use backend_showcase.Ledger.Database.{Database}
use backend_showcase.Ledger.Database.Laws.{IsAppendOnly}
use backend_showcase.Ledger.Books.{balance_of, IsBooked, blank, trial_balance}
use backend_showcase.Ledger.Services.Account.{create_system_accounts}
use backend_showcase.Ledger.Games.Bets.{create_game_account}
use backend_showcase.Ledger.Games.Settlement.{
  create_ledger_entries_for_bulls_eye, create_ledger_entries_for_one_vs_one,
  create_ledger_entries_for_setup, create_ledger_entries_for_up_down,
}
use backend_showcase.Ledger.Nft.{add_nft_balance, remove_nft_balance}
use backend_showcase.Ledger.Operations.{KeepsBooks, create_each-KeepsBooks, operation_rules}
use backend_showcase.Ledger.GamesRewards.Books.{rewards_rules}
use backend_showcase.Ledger.History.{
  Command, perform, Step, committed, rolled_back, Reach, start, step,
}

module _ {S D : Type 0} ⦃dec : Decimal D⦄ ⦃exact : IsExact dec⦄ (db : Database S D)
    (log : IsAppendOnly db) where
  perform-KeepsBooks : (c : Command D) → KeepsBooks db log (perform db c)
  unfolding perform create_game_account create_ledger_entries_for_bulls_eye
      create_ledger_entries_for_one_vs_one create_ledger_entries_for_setup
      create_ledger_entries_for_up_down add_nft_balance remove_nft_balance create_system_accounts
  perform-KeepsBooks (Command.create_bet u x g b t) =
      search (keeps_rules, operation_rules, rewards_rules)
  perform-KeepsBooks _ = search (keeps_rules, operation_rules, rewards_rules)

  Step-IsBooked : {s t : S} → Step db s t → IsBooked (db.postings s) → IsBooked (db.postings t)
  Step-IsBooked (committed c s t e) h = rw (← e) ((perform-KeepsBooks c).after s h)
  Step-IsBooked (rolled_back names s t e) h =
      rw (← e) ((create_each-KeepsBooks db log names).after s h)

  pub Reach-IsBooked :
      {s t : S} → Reach db s t → IsBooked (db.postings s) → IsBooked (db.postings t)
  Reach-IsBooked start h = h
  Reach-IsBooked (step r st) h = Step-IsBooked st (Reach-IsBooked r h)

  -- Whatever operations run from a ledger with no entries, in whatever order, and whether they
  -- return, throw or are rolled back, the rows of `Entry` are journals one after the other, each
  -- under one journal id and balanced within the tolerance; and all debits differ
  -- from all credits by at most the tolerance for each row.
  pub Reach-books :
      {s t : S}
      → Reach db s t
      → db.postings s ≡ []
      → IsBooked (db.postings t)
        × (pos_part (balance_of (db.postings t))
            ≤ neg_part (balance_of (db.postings t))
              + length (db.postings t) * pos_part (units dec.tolerance))
        × (neg_part (balance_of (db.postings t))
            ≤ pos_part (balance_of (db.postings t))
              + length (db.postings t) * pos_part (units dec.tolerance))
  Reach-books {s} r e =
      let booked = Reach-IsBooked r (blank (db.postings s) e) in
      (booked, (trial_balance booked).0, (trial_balance booked).1)
