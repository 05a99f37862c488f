-- ===== src/Ledger/Games/Bets/Effect.antt =====
-- What `createBet` does: to the balance of the user, to all other balances and to the books.
use backend_showcase.Prelude.{
  String, Bool, true, false, none, some, List, [], ◌∷◌, ◌++◌, ◌≡◌, refl, sym, ◌∙◌, arith, str_eq,
  str_eq-refl, ◌+s◌,
}
use mathlib.Core.Path.{subst}
use backend_showcase.Prelude.Int.{pos, abs_ℤ}
use backend_showcase.Decimal.{Decimal}
use backend_showcase.Decimal.Exact.{IsExact, exact_laws}
use backend_showcase.Ledger.Result.{ok, err, not_enough_balance}
use backend_showcase.Ledger.Action.{bind_of_ok, bind_of_err, lift_of_ok, ◌>>=◌}
use backend_showcase.Ledger.Account.{Account}
use backend_showcase.Ledger.Entry.{
  Entry, EntryMeta, EntryType, GameType, new_entry, generate_details,
}
use backend_showcase.Ledger.Journal.{Journal, add_entry, check_is_balanced, set_id}
use backend_showcase.Ledger.Journal.Net.{net, check_is_balanced_lem}
use backend_showcase.Ledger.Database.{Database, BalanceRow, Posting}
use backend_showcase.Ledger.Database.Laws.{IsAppendOnly, KeepsBalances, with_amount}
use backend_showcase.Ledger.Services.Balance.{Balance, sub_amount}
use backend_showcase.Ledger.Services.Facts.{
  HasAccount, HasRow, balance_of_account, updated_state, find_or_create_of_existing,
  find_balance_of_row, update_balance_of_row, balance-updated_state,
}
use backend_showcase.Ledger.Books.Saving.{
  saved_state, save_of_balanced, postings-saved_state, rows_of,
}
use backend_showcase.Ledger.Games.Bets.{
  user_account_name, bets_account_name, entry_on, transfer_journal, check_enough, charge,
  create_bet,
}

module _ {S D : Type 0} ⦃dec : Decimal D⦄ (db : Database S D) where
  check_enough_fails :
      (b : Balance D) (x : D) (s : S)
      → dec.less_than b.amount x ≡ true
      → check_enough db b x s ≡ (err not_enough_balance, s)
  unfolding check_enough ◌>>=◌
  check_enough_fails b x s h = rw h

  check_enough_passes :
      (b : Balance D) (x : D) (s : S)
      → dec.less_than b.amount x ≡ false
      → check_enough db b x s ≡ (ok tt, s)
  unfolding check_enough ◌>>=◌
  check_enough_passes b x s h = rw h

  -- If the user's account is stored under a valid name and its balance has a row, a bet of more than
  -- the balance is refused by an exception, and the state is unchanged.
  pub create_bet-insufficient :
      (user_id : String) (x : D) (game_id bet_id : String) (t : GameType) (user : Account)
      (row : BalanceRow D) (s : S)
      → HasAccount db (user_account_name user_id) user s
      → HasRow db user row s
      → dec.less_than row.amount x ≡ true
      → create_bet db user_id x game_id bet_id t s ≡ (err not_enough_balance, s)
  unfolding create_bet
  create_bet-insufficient user_id x game_id bet_id t user row s h r less =
      bind_of_ok _ _ s (find_or_create_of_existing db _ user s h)
      ∙ bind_of_ok _ _ s (find_balance_of_row db _ user row s h r)
      ∙ bind_of_err _ _ s (check_enough_fails (balance_of_account row user) x s less)

module _ {D : Type 0} ⦃dec : Decimal D⦄ where
  -- an entry with its generated details
  abbrev pub entry_made : Account → D → Bool → Bool → EntryType → EntryMeta D → Entry D
  entry_made account x is_credit is_read t m = record (entry_on account x is_credit is_read t m) {
    details = generate_details m;
  }

  abbrev pub transfer_made : String → Account → Account → D → EntryType → EntryMeta D → Journal D
  transfer_made name from to x t m = record {
    id = none;
    name = name;
    entries = entry_made from x false true t m ∷ entry_made to x true false t m ∷ [];
  }

  -- the journal of a bet
  abbrev pub bet_journal : D → String → String → GameType → Account → Account → Journal D
  bet_journal x game_id bet_id t user game =
      transfer_made ("User creates bet " +s dec.to_string (dec.to_number x) +s " usd") user game x
        EntryType.user_add_bet (EntryMeta.user_add_bet t game_id bet_id)

  pub new_entry_of_id :
      (account : Account) (x : D) (is_credit is_read : Bool) (t : EntryType) (m : EntryMeta D)
      → str_eq account.id "" ≡ false
      → new_entry (entry_on account x is_credit is_read t m)
        ≡ ok (entry_made account x is_credit is_read t m)
  unfolding new_entry
  new_entry_of_id account x is_credit is_read t m h = rw (h, new_entry)

  pub transfer_journal_of_ids :
      (name : String) (from to : Account) (x : D) (t : EntryType) (m : EntryMeta D)
      → str_eq from.id "" ≡ false
      → str_eq to.id "" ≡ false
      → transfer_journal name from to x t m ≡ ok (transfer_made name from to x t m)
  unfolding transfer_journal add_entry
  transfer_journal_of_ids name from to x t m hf ht = rw (
    new_entry_of_id from x false true t m hf,
    new_entry_of_id to x true false t m ht,
    transfer_journal,
  )

module _ {D : Type 0} ⦃dec : Decimal D⦄ ⦃exact : IsExact dec⦄ where
  net-transfer_made :
      (name : String) (from to : Account) (x : D) (t : EntryType) (m : EntryMeta D)
      → net (transfer_made name from to x t m).entries ≡ pos 0
  net-transfer_made name from to x t m = omega exact_laws

  pub transfer_made_balanced :
      (name : String) (from to : Account) (x : D) (t : EntryType) (m : EntryMeta D)
      → check_is_balanced (transfer_made name from to x t m) ≡ true
  transfer_made_balanced name from to x t m =
      rw (check_is_balanced_lem, net-transfer_made name from to x t m)
        (unfold abs_ℤ in ground (arith, exact.units-tolerance))

-- What a charge of an account leaves: the row of the account holds the difference, the rows of all
-- other accounts and of the books are as they were, but for the entries that were added.
pub record IsCharged {S D : Type 0} ⦃dec : Decimal D⦄ (db : Database S D) (id : String) (x : D)
    (row : BalanceRow D) (added : List (Posting D)) (s s' : S) : Type 0 where
  pub own_row : db.balance_find_first id s' ≡ some (with_amount (dec.sub row.amount x) row)
  pub other_rows :
      (k : String) → str_eq k id ≡ false → db.balance_find_first k s' ≡ db.balance_find_first k s
  pub books : db.postings s' ≡ db.postings s ++ added

module _ {S D : Type 0} ⦃dec : Decimal D⦄ ⦃exact : IsExact dec⦄ (db : Database S D)
    (log : IsAppendOnly db) (frame : KeepsBalances db) where
  balance-saved_state :
      (k : String) (j : Journal D) (s : S)
      → db.balance_find_first k (saved_state db j s) ≡ db.balance_find_first k s
  balance-saved_state k j s = rw (frame.balance-entry_create_many, frame.balance-journal_create)

  -- what holds of the id of the account holds of the id in its row
  at_own_id :
      (user : Account) (row : BalanceRow D) (s : S)
      → HasRow db user row s
      → (P : String → Type 0) → P user.id
      → P row.account_id
  at_own_id user row s r P = subst P (sym r.row_account_id)

  row_of_own_id :
      (user : Account) (row : BalanceRow D) (s : S)
      → HasRow db user row s
      → db.balance_find_first row.account_id s ≡ some row
  row_of_own_id user row s r =
      at_own_id user row s r (λ i. db.balance_find_first i s ≡ some row) r.row_found

  -- the state after a charge
  abbrev charged_state : Journal D → Account → BalanceRow D → D → S → S
  charged_state j user row x s =
      updated_state db row.account_id (dec.sub row.amount x)
        (some (set_id (db.journal_create j.name s).0 j)) (saved_state db j s)

  charge_of_row :
      (j : Journal D) (user : Account) (row : BalanceRow D) (x : D) (s : S)
      → str_eq user.id "" ≡ false
      → HasRow db user row s
      → check_is_balanced j ≡ true
      → charge db (balance_of_account row user) x j s
        ≡ (ok (sub_amount x (balance_of_account row user)), charged_state j user row x s)
  unfolding charge sub_amount ◌>>=◌
  charge_of_row j user row x s id r balanced = rw (
    save_of_balanced db j s balanced,
    update_balance_of_row db (sub_amount x (balance_of_account row user))
        (some (set_id (db.journal_create j.name s).0 j)) row (saved_state db j s)
        (balance-saved_state row.account_id j s ∙ row_of_own_id user row s r)
        (at_own_id user row s r (λ i. str_eq i "" ≡ false) id),
  )

  charged_state-IsCharged :
      (j : Journal D) (user : Account) (row : BalanceRow D) (x : D) (s : S)
      → HasRow db user row s
      → IsCharged db user.id x row
          (rows_of (db.journal_create j.name s).0 j)
          s
          (charged_state j user row x s)
  charged_state-IsCharged j user row x s r = record {
    own_row =
        balance-updated_state db frame user.id row.account_id _
          (some (set_id (db.journal_create j.name s).0 j)) _
        ∙ rw (
          at_own_id user row s r (λ i. str_eq user.id i ≡ true) (str_eq-refl user.id),
          balance-saved_state user.id j s,
          r.row_found,
        );
    other_rows = λ k ne.
        balance-updated_state db frame k row.account_id _
          (some (set_id (db.journal_create j.name s).0 j)) _
        ∙ rw (at_own_id user row s r (λ i. str_eq k i ≡ false) ne) (balance-saved_state k j s);
    books =
        rw (log.postings-history_create, log.postings-balance_update)
          (postings-saved_state db log j s);
  }

  -- If the accounts of the user and of the game's bets are stored under valid names and the user's
  -- balance has a row that covers the amount, `createBet` returns the balance less the amount, writes
  -- that balance and no other, and adds to the books a debit of the user's account and a credit of
  -- the account of the game's bets, both of the amount and under the id of the new journal.
  pub create_bet_lem :
      (user_id : String) (x : D) (game_id bet_id : String) (t : GameType) (user game : Account)
      (row : BalanceRow D) (s : S)
      → HasAccount db (user_account_name user_id) user s
      → HasRow db user row s
      → HasAccount db (bets_account_name game_id) game s
      → dec.less_than row.amount x ≡ false
      → let j = bet_journal x game_id bet_id t user game in
        let id = (db.journal_create j.name s).0 in
        let (result, s') = create_bet db user_id x game_id bet_id t s in
        (result ≡ ok (sub_amount x (balance_of_account row user)))
        × IsCharged db user.id x row
            (record { is_credit = false; amount = x; account_id = user.id; journal_id = some id }
              ∷ record { is_credit = true; amount = x; account_id = game.id; journal_id = some id }
              ∷ [])
            s
            s'
  unfolding create_bet set_id
  create_bet_lem user_id x game_id bet_id t user game row s h r g covered =
      rw steps
        (refl, charged_state-IsCharged (bet_journal x game_id bet_id t user game) user row x s r)
    where
      steps : create_bet db user_id x game_id bet_id t s ≡ (
        ok (sub_amount x (balance_of_account row user)),
        charged_state (bet_journal x game_id bet_id t user game) user row x s,
      )
      steps =
          bind_of_ok _ _ s (find_or_create_of_existing db _ user s h)
          ∙ bind_of_ok _ _ s (find_balance_of_row db _ user row s h r)
          ∙ bind_of_ok _ _ s (check_enough_passes db (balance_of_account row user) x s covered)
          ∙ bind_of_ok _ _ s (find_or_create_of_existing db _ game s g)
          ∙ bind_of_ok _ _ s
              (lift_of_ok _ s (transfer_journal_of_ids _ user game x _ _ h.has_id g.has_id))
          ∙ charge_of_row (bet_journal x game_id bet_id t user game) user row x s h.has_id r
              (transfer_made_balanced _ user game x _ _)
