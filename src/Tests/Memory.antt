-- ===== src/Tests/Memory.antt =====
-- The tables in memory.
use mathlib.Core.Option
use backend_showcase.Prelude.{
  ℕ, suc, String, true, not, Option, none, some, List, [], ◌∷◌, ◌++◌, map, filter, ◌≡◌, refl, ap,
  arith, if◌then◌else◌, str_eq, str_eq_iff, show_ℕ,
}
use backend_showcase.Prelude.Int.{ℤ, ◌+ℤ◌}
use backend_showcase.Ledger.Account.{Account}
use backend_showcase.Ledger.Entry.{Entry}
use backend_showcase.Ledger.Database.{Database, CreateAccount, BalanceRow, EntryRow, posting}
use backend_showcase.Ledger.Database.Laws.{IsAppendOnly, KeepsBalances, with_amount}

pub record Memory : Type 0 where
  pub accounts : List Account
  pub balances : List (BalanceRow ℤ)
  pub journals : ℕ
  pub entries : List (EntryRow ℤ)

abbrev pub find_by : {A : Type 0} → (A → String) → String → List A → Option A
find_by key k [] = none
find_by key k (x ∷ xs) = if str_eq (key x) k then some x else find_by key k xs

-- the account of a name gets the name for its id
abbrev pub account_of_params : CreateAccount → Account
account_of_params p = record {
  id = p.full_name;
  name = p.name;
  full_name = p.full_name;
  parent_id = p.parent_id;
  is_credit_plus = p.is_credit_plus;
}

abbrev pub change_amount : (ℤ → ℤ) → String → List (BalanceRow ℤ) → List (BalanceRow ℤ)
change_amount f id [] = []
change_amount f id (row ∷ rows) =
    (if str_eq row.account_id id then record row { amount = f row.amount } else row)
    ∷ change_amount f id rows

abbrev pub entry_of_row : EntryRow ℤ → Entry ℤ
entry_of_row row = record {
  id = some "";
  is_credit = row.is_credit;
  amount = row.amount;
  meta = row.meta;
  type = row.type;
  details = row.details;
  account_id = row.account_id;
  is_read = row.is_read;
  journal_id = row.journal_id;
  account = none;
}

abbrev pub mark_row : EntryRow ℤ → EntryRow ℤ
mark_row row = record row { is_read = true }

abbrev pub memory : Database Memory ℤ
memory = record {
  account_find_first = λ name s. find_by (λ (a : Account). a.full_name) name s.accounts;
  account_find_by_id = λ id s. find_by (λ (a : Account). a.id) id s.accounts;
  account_create =
      λ p s. (account_of_params p, record s { accounts = s.accounts ++ account_of_params p ∷ [] });
  balance_find_first = λ id s. find_by (λ (r : BalanceRow ℤ). r.account_id) id s.balances;
  balance_create = λ id x s. record s {
    balances =
        s.balances
        ++ record {
          id = id;
          amount = x;
          account_id = id;
          account = find_by (λ (a : Account). a.id) id s.accounts;
        }
          ∷ [];
  };
  balance_update = λ id x s. record s { balances = change_amount (λ _. x) id s.balances };
  balance_increment = λ id x s. record s { balances = change_amount (λ a. a +ℤ x) id s.balances };
  history_create = λ id x j s. s;
  journal_create = λ name s. (show_ℕ s.journals, record s { journals = suc s.journals });
  entry_create_many = λ rows s. record s { entries = s.entries ++ rows };
  entry_find_unread =
      λ names take s. map entry_of_row (filter (λ (r : EntryRow ℤ). not r.is_read) s.entries);
  entry_mark_read = λ ids s. record s { entries = map mark_row s.entries };
  postings = λ s. map posting s.entries;
}

map-mark_row : (rows : List (EntryRow ℤ)) → map posting (map mark_row rows) ≡ map posting rows
map-mark_row [] = refl
map-mark_row (r ∷ rows) = ap (λ ps. posting r ∷ ps) (map-mark_row rows)

map-append_rows :
    (xs ys : List (EntryRow ℤ)) → map posting (xs ++ ys) ≡ map posting xs ++ map posting ys
map-append_rows [] ys = refl
map-append_rows (x ∷ xs) ys = ap (λ ps. posting x ∷ ps) (map-append_rows xs ys)

pub memory-IsAppendOnly : IsAppendOnly memory
memory-IsAppendOnly = record {
  postings-account_create = λ p s. refl;
  postings-balance_create = λ id x s. refl;
  postings-balance_update = λ id x s. refl;
  postings-balance_increment = λ id x s. refl;
  postings-history_create = λ id x j s. refl;
  postings-journal_create = λ name s. refl;
  postings-entry_mark_read = λ ids s. map-mark_row s.entries;
  postings-entry_create_many = λ rows s. map-append_rows s.entries rows;
}

find-change_amount :
    (k id : String) (x : ℤ) (rows : List (BalanceRow ℤ))
    → find_by (λ (r : BalanceRow ℤ). r.account_id) k (change_amount (λ _. x) id rows) ≡ (
        if str_eq k id
        then Option.map (with_amount x) (find_by (λ (r : BalanceRow ℤ). r.account_id) k rows)
        else find_by (λ (r : BalanceRow ℤ). r.account_id) k rows)
find-change_amount k id x [] = ground arith
find-change_amount k id x (r ∷ rows) = ground (
  arith,
  find-change_amount k id x rows,
  str_eq_iff k id,
  str_eq_iff r.account_id id,
  str_eq_iff r.account_id k,
)

pub memory-KeepsBalances : KeepsBalances memory
memory-KeepsBalances = record {
  balance-history_create = λ k id x j s. refl;
  balance-journal_create = λ k name s. refl;
  balance-entry_create_many = λ k rows s. refl;
  balance-entry_mark_read = λ k ids s. refl;
  balance-balance_update = λ k id x s. find-change_amount k id x s.balances;
}
