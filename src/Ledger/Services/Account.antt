-- ===== src/Ledger/Services/Account.antt =====
-- libs/ledger-package/src/internal-services/account.service.ts: finding and creating accounts.
use backend_showcase.Prelude.{
  String, Bool, true, false, ◌||◌, Option, none, some, List, [], ◌∷◌, length, last_or, init, ltb,
  if◌then◌else◌, starts_with, str_eq,
}
use backend_showcase.Decimal.{Decimal}
use backend_showcase.Ledger.Result.{parent_account_not_found, unique_constraint, ok, err}
use backend_showcase.Ledger.Action.{Action, pure, throw, lift, query, ◌>>=◌, ◌>>◌}
use backend_showcase.Ledger.Names.{
  resolve_account_name, get_path_from_full_name, ledger_system_accounts, liabilities, income,
  user_balance,
}
use backend_showcase.Ledger.Account.{Account, new_account}
use backend_showcase.Ledger.Database.{Database, CreateAccount}
use backend_showcase.Ledger.Services.Balance.{map_account, create_balance}

-- `determineIsCreditPlus`
unfoldable pub determine_is_credit_plus : String → Bool
determine_is_credit_plus full_name =
    if starts_with full_name liabilities || starts_with full_name income then true else false

-- whether an account of this name has a balance row
unfoldable pub has_balance : String → Bool
has_balance full_name =
    starts_with full_name (resolve_account_name (liabilities ∷ user_balance ∷ []))

-- the parent that `create` connects, if the id is truthy
abbrev connected : Option String → Option String
connected none = none
connected (some id) = if str_eq id "" then none else some id

module _ {S D : Type 0} ⦃dec : Decimal D⦄ (db : Database S D) where
  unfoldable pub find_account : String → Action S (Option Account)
  find_account full_name = do lift (map_account (← query (db.account_find_first full_name)))

  -- `account.create`, where the full name is unique
  unfoldable pub create_row : CreateAccount → Action S Account
  create_row params s = elim (db.account_find_first params.full_name s) [
    | some row ↦ (err unique_constraint, s)
    | none ↦ let (row, s') = db.account_create params s in (ok row, s')
  ]

  -- `createAccount`
  unfoldable pub create_account : CreateAccount → Action S Account
  create_account params = do
    account ← create_row (record params { parent_id = connected params.parent_id })
    if has_balance params.full_name then create_balance db account.id none else pure tt
    pure account

  unfoldable pub found_parent : String → Option Account → Action S (Option String)
  found_parent full_name none = throw (parent_account_not_found full_name)
  found_parent full_name (some parent) = pure (some parent.id)

  -- the id of the parent, which must exist for a name of more than one segment
  unfoldable pub parent_of : List String → Action S (Option String)
  parent_of path =
      if ltb 1 (length path)
      then (do
        parent ← find_account (resolve_account_name (init path))
        found_parent (resolve_account_name (init path)) parent)
      else pure none

  -- the part of `findOrCreateAccount` for a name that is not there yet
  unfoldable pub create_missing : String → Action S Account
  create_missing full_name = do
    parent_id ← parent_of (get_path_from_full_name full_name)
    account ← create_account (record {
      name = last_or "" (get_path_from_full_name full_name);
      full_name = full_name;
      parent_id = parent_id;
      is_credit_plus = determine_is_credit_plus full_name;
    })
    lift (new_account account)

  unfoldable pub or_create : String → Option Account → Action S Account
  or_create full_name (some account) = pure account
  or_create full_name none = create_missing full_name

  unfoldable pub find_or_create_account : String → Action S Account
  find_or_create_account full_name = do
    exist_account ← find_account full_name
    or_create full_name exist_account

  unfoldable pub create_each : List String → Action S (Unit {0})
  create_each [] = pure tt
  create_each (name ∷ names) = do find_or_create_account name; create_each names

  -- `createIfNotExistSystemAccounts`
  unfoldable pub create_system_accounts : Action S (Unit {0})
  create_system_accounts = create_each ledger_system_accounts
