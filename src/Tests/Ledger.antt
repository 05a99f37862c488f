-- ===== src/Tests/Ledger.antt =====
-- The ledger on the memory.
use backend_showcase.Prelude.{
  ◌+◌, ◌*◌, ◌≤◌, true, false, none, some, [], ◌∷◌, ◌++◌, ◌≡◌, ◌≢◌, ◌⊎◌, refl, length, arith,
}
use backend_showcase.Prelude.Int.{ℤ, pos, negsuc, ◌+ℤ◌, pos_part, neg_part, ◌≤ℤ◌, leb_ℤ, abs_ℤ}
use backend_showcase.Ledger.Result.{ok, err, not_enough_balance, journal_is_not_balanced}
use backend_showcase.Ledger.Names.{resolve_account_name, get_path_from_full_name}
use backend_showcase.Ledger.Names.Path.{resolve-get_path, get_path-resolve}
use backend_showcase.Ledger.Account.{Account, validate}
use backend_showcase.Ledger.Entry.{EntryMeta, EntryType, GameType}
use backend_showcase.Ledger.Journal.{Journal, set_id, check_is_balanced}
use backend_showcase.Ledger.Journal.Net.{net, check_is_balanced_lem}
use backend_showcase.Ledger.Database.{BalanceRow}
use backend_showcase.Ledger.Books.{balance_of, IsBooked}
use backend_showcase.Ledger.Books.Saving.{saved_state, rows_of, save_lem}
use backend_showcase.Ledger.Services.Balance.{sub_amount}
use backend_showcase.Ledger.Services.Journal.{save}
use backend_showcase.Ledger.Services.Facts.{HasAccount, HasRow, balance_of_account}
use backend_showcase.Ledger.Games.Bets.{user_account_name, bets_account_name, entry_on, create_bet}
use backend_showcase.Ledger.Games.Bets.Effect.{
  bet_journal, IsCharged, create_bet-insufficient, create_bet_lem,
}
use backend_showcase.Ledger.Games.Settlement.{GameResult}
use backend_showcase.Ledger.Balanced.Settlement.{IsFair}
use backend_showcase.Ledger.Balanced.Commands.{perform-never_unbalanced}
use backend_showcase.Ledger.History
use backend_showcase.Ledger.History.{Command, Reach, perform}
use backend_showcase.Ledger.History.Reachable.{Reach-books}
use backend_showcase.Tests.Whole.{whole, whole-IsExact}
use backend_showcase.Tests.Memory.{Memory, memory, memory-IsAppendOnly, memory-KeepsBalances}

abbrev user : Account
user = record {
  id = "Liabilities:userBalance:u";
  name = "u";
  full_name = "Liabilities:userBalance:u";
  parent_id = none;
  is_credit_plus = true;
}

abbrev game : Account
game = record {
  id = "Liabilities:bets:g";
  name = "g";
  full_name = "Liabilities:bets:g";
  parent_id = none;
  is_credit_plus = true;
}

abbrev row : BalanceRow ℤ
row = record {
  id = "b";
  amount = pos 100;
  account_id = "Liabilities:userBalance:u";
  account = some user;
}

abbrev tables : Memory
tables = record { accounts = user ∷ game ∷ []; balances = row ∷ []; journals = 7; entries = [] }

user_found : HasAccount memory (user_account_name "u") user tables
unfolding resolve_account_name validate
user_found = record { found = refl; is_valid = refl; has_id = refl }

game_found : HasAccount memory (bets_account_name "g") game tables
unfolding resolve_account_name validate
game_found = record { found = refl; is_valid = refl; has_id = refl }

row_found : HasRow memory user row tables
row_found = record { row_found = refl; row_account = refl; row_account_id = refl }

create_bet-insufficient_example :
    create_bet memory "u" (pos 101) "g" "b1" GameType.setup tables
    ≡ (err not_enough_balance, tables)
create_bet-insufficient_example =
    create_bet-insufficient memory "u" (pos 101) "g" "b1" GameType.setup user row tables user_found
      row_found refl

create_bet_lem_example :
    let j = bet_journal (pos 40) "g" "b1" GameType.setup user game in
    let id = (memory.journal_create j.name tables).0 in
    let (result, s') = create_bet memory "u" (pos 40) "g" "b1" GameType.setup tables in
    (result ≡ ok (sub_amount (pos 40) (balance_of_account row user)))
    × IsCharged memory user.id
        (pos 40)
        row
        (record { is_credit = false; amount = pos 40; account_id = user.id; journal_id = some id }
          ∷ record { is_credit = true; amount = pos 40; account_id = game.id; journal_id = some id }
          ∷ [])
        tables
        s'
create_bet_lem_example =
    create_bet_lem memory memory-IsAppendOnly memory-KeepsBalances "u" (pos 40) "g" "b1"
      GameType.setup user game row tables user_found row_found game_found refl

resolve-get_path_example :
    resolve_account_name (get_path_from_full_name "Income:fee:1vs1") ≡ "Income:fee:1vs1"
resolve-get_path_example = resolve-get_path "Income:fee:1vs1"

get_path-resolve_example :
    get_path_from_full_name (resolve_account_name ("Income" ∷ "fee" ∷ [])) ≡ "Income" ∷ "fee" ∷ []
get_path-resolve_example =
    get_path-resolve ("Income" ∷ "fee" ∷ []) (λ e. ground arith) (omega arith)

abbrev after_bet : Memory
after_bet = (perform memory (Command.create_bet "u" (pos 40) "g" "b1" GameType.setup) tables).1

run_to_bet : Reach memory tables after_bet
run_to_bet = History.step History.start (
    History.committed (Command.create_bet "u" (pos 40) "g" "b1" GameType.setup) tables after_bet
      refl)

Reach-books_example :
    IsBooked (memory.postings after_bet)
    × (pos_part (balance_of (memory.postings after_bet))
        ≤ neg_part (balance_of (memory.postings after_bet))
          + length (memory.postings after_bet) * 0)
    × (neg_part (balance_of (memory.postings after_bet))
        ≤ pos_part (balance_of (memory.postings after_bet))
          + length (memory.postings after_bet) * 0)
Reach-books_example = Reach-books memory memory-IsAppendOnly run_to_bet refl

-- a journal with a debit and no credit
abbrev lopsided : Journal ℤ
lopsided = record {
  id = none;
  name = "lopsided";
  entries = entry_on user (pos 5) false true EntryType.hold (EntryMeta.hold (pos 5)) ∷ [];
}

check_is_balanced_lem_example :
    check_is_balanced lopsided ≡ leb_ℤ (abs_ℤ (net lopsided.entries)) (pos 0)
check_is_balanced_lem_example = check_is_balanced_lem lopsided

save_lem_example :
    (abs_ℤ (net lopsided.entries) ≤ℤ pos 0)
      × (save memory lopsided tables ≡ (
        ok (set_id (memory.journal_create "lopsided" tables).0 lopsided),
        saved_state memory lopsided tables,
      ))
      × (memory.postings (save memory lopsided tables).1
          ≡ memory.postings tables ++ rows_of (memory.journal_create "lopsided" tables).0 lopsided)
    ⊎ (¬ (abs_ℤ (net lopsided.entries) ≤ℤ pos 0))
      × (save memory lopsided tables ≡ (err journal_is_not_balanced, tables))
save_lem_example = save_lem memory memory-IsAppendOnly lopsided tables

-- an Up/Down game: one winner, one loser, and a fee
abbrev settled : GameResult ℤ
settled = record {
  winners =
      record {
        id = "b1";
        owner_id = "u";
        amount = pos 10;
        outcome = pos 17;
        pnl = pos 7;
        fee = some (pos 3);
      }
      ∷ [];
  losers =
      record {
        id = "b2";
        owner_id = "v";
        amount = pos 10;
        outcome = pos 0;
        pnl = negsuc 9;
        fee = some (pos 0);
      }
      ∷ [];
  rejects = [];
  game_id = "g";
}

settled_fairly : IsFair settled
unfolding ◌+ℤ◌
settled_fairly = refl

perform-never_unbalanced_example :
    (perform memory (Command.resolve_up_down settled) tables).0 ≢ err journal_is_not_balanced
perform-never_unbalanced_example =
    perform-never_unbalanced memory (Command.resolve_up_down settled) settled_fairly tables
