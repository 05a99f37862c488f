-- ===== src/Ledger/Names/Fees.antt =====
-- libs/ledger-package/src/core/enums.ts: `FeesAccounts`, the accounts under `Income:fee`.
use backend_showcase.Prelude.{String}

abbrev pub deposit : String
deposit = "deposit"

abbrev pub withdraw : String
withdraw = "withdraw"

abbrev pub one_vs_one : String
one_vs_one = "1vs1"

abbrev pub setup : String
setup = "setup"

abbrev pub updown : String
updown = "updown"

abbrev pub bullseye : String
bullseye = "bullseye"

abbrev pub x1000 : String
x1000 = "x1000"

abbrev pub flat_fee : String
flat_fee = "flatFee"

abbrev pub hourly : String
hourly = "hourly"
