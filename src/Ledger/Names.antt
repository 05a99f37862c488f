-- ===== src/Ledger/Names.antt =====
-- libs/ledger-package/src/core: the names of the accounts.
pub mod Fees
pub mod Path
use Prim.Native.Char.{code}
use Prim.Native.String
use backend_showcase.Prelude.{String, List, [], ◌∷◌, ◌==◌, if◌then◌else◌, ◌+s◌}

-- `path.join(':')`
unfoldable pub resolve_account_name : List String → String
resolve_account_name [] = ""
resolve_account_name (name ∷ []) = name
resolve_account_name (name ∷ next ∷ path) = name +s ":" +s resolve_account_name (next ∷ path)

abbrev on_first : (String → String) → List String → List String
on_first f [] = []
on_first f (name ∷ path) = f name ∷ path

-- `fullName.split(':')`
unfoldable pub get_path_from_full_name : String → List String
get_path_from_full_name String.[] = "" ∷ []
get_path_from_full_name (String.◌∷◌ c s) =
    let path = get_path_from_full_name s in
    if code c == b':' then "" ∷ path else on_first (String.◌∷◌ c) path

-- `AccountNames` and the enums of the second and third levels.
abbrev pub assets : String
assets = "Assets"

abbrev pub liabilities : String
liabilities = "Liabilities"

abbrev pub income : String
income = "Income"

abbrev pub outcome : String
outcome = "Outcome"

-- `AssetsAccounts`, `LiabilitiesAccounts`, `UserBalanceAccouns`
abbrev pub usd : String
usd = "usd"

abbrev pub bets : String
bets = "bets"

abbrev pub user_balance : String
user_balance = "userBalance"

abbrev pub hold : String
hold = "hold"

-- `IncomeAccounts`, `OutcomeAccounts`, `FundsAccounts`, `NetworkFeeAccounts`
abbrev pub funds : String
funds = "funds"

abbrev pub fee : String
fee = "fee"

abbrev pub network_fee : String
network_fee = "networkFee"

abbrev pub bonus : String
bonus = "bonus"

abbrev pub x1000 : String
x1000 = "x1000"

abbrev pub withdraw : String
withdraw = "withdraw"

-- `ledgerSystemAccounts`
unfoldable pub ledger_system_accounts : List String
ledger_system_accounts =
    assets
    ∷ income
    ∷ outcome
    ∷ liabilities
    ∷ resolve_account_name (liabilities ∷ user_balance ∷ [])
    ∷ resolve_account_name (assets ∷ usd ∷ [])
    ∷ resolve_account_name (income ∷ funds ∷ [])
    ∷ resolve_account_name (income ∷ funds ∷ x1000 ∷ [])
    ∷ resolve_account_name (liabilities ∷ bets ∷ [])
    ∷ resolve_account_name (income ∷ fee ∷ [])
    ∷ resolve_account_name (outcome ∷ network_fee ∷ [])
    ∷ resolve_account_name (outcome ∷ bonus ∷ [])
    ∷ resolve_account_name (outcome ∷ network_fee ∷ withdraw ∷ [])
    ∷ resolve_account_name (income ∷ fee ∷ Fees.deposit ∷ [])
    ∷ resolve_account_name (income ∷ fee ∷ Fees.bullseye ∷ [])
    ∷ resolve_account_name (income ∷ fee ∷ Fees.one_vs_one ∷ [])
    ∷ resolve_account_name (income ∷ fee ∷ Fees.setup ∷ [])
    ∷ resolve_account_name (income ∷ fee ∷ Fees.updown ∷ [])
    ∷ resolve_account_name (income ∷ fee ∷ Fees.withdraw ∷ [])
    ∷ resolve_account_name (income ∷ fee ∷ Fees.hourly ∷ [])
    ∷ resolve_account_name (income ∷ fee ∷ Fees.flat_fee ∷ [])
    ∷ resolve_account_name (income ∷ fee ∷ Fees.x1000 ∷ [])
    ∷ []
