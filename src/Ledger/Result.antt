-- ===== src/Ledger/Result.antt =====
-- libs/ledger-package/src/errors: the exceptions of the package, and results that may be one.
use backend_showcase.Prelude.{String, Option, none, some}

-- `PossibleIncorrectAccountNameErrors`
pub data NameError : Type 0 where
  account_name_size_exceeded : NameError
  name_must_be_string : NameError
  cannot_be_empty : NameError
  incorrect_name : NameError
  name_and_fullname_is_not_equal : NameError

pub data LedgerError : Type 0 where
  account_name_is_not_correct : NameError → LedgerError
  account_not_provided : LedgerError
  -- `Account not provided for entry...`
  entry_account_not_provided : LedgerError
  parent_account_not_found : String → LedgerError
  journal_is_not_balanced : LedgerError
  not_enough_balance : LedgerError
  -- `Ledger Account not found with ID …`
  account_not_found : LedgerError
  -- what Prisma throws when `update` finds no row, and when `create` meets a unique column
  record_not_found : LedgerError
  unique_constraint : LedgerError
  -- reading a property of `null` or `undefined`
  null_dereference : LedgerError

pub data Result (A : Type 0) : Type 0 where
  ok : A → Result A
  err : LedgerError → Result A

-- `undefined` or `null` where the source goes on with `!`.
abbrev pub or_err {ℓ} : {A : Type 0} {C : Type ℓ} → Option A → (A → C) → C → C
or_err none f c = c
or_err (some a) f c = f a
