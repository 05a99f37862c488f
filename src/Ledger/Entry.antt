-- ===== src/Ledger/Entry.antt =====
-- libs/ledger-package/src/entities/entry.entity.ts
use backend_showcase.Prelude.{String, Bool, Option, if◌then◌else◌, ◌+s◌, str_eq}
use backend_showcase.Decimal.{Decimal}
use backend_showcase.Ledger.Result.{account_not_provided, Result, ok, err}
use backend_showcase.Ledger.Account.{Account}

-- `GameTypeEnum` of the database schema
pub data GameType : Type 0 where
  one_vs_one setup bullseye updown x1000 : GameType

-- `EntryType` of the database schema
pub data EntryType : Type 0 where
  network_fee hold unhold bonus bonus_removed user_deposit user_withdraw : EntryType
  hourly_fee user_add_bet game_resolve user_rejected_bet user_won user_lose not_defined : EntryType

-- `EntryMeta`: one constructor for each member of the union. A number is the decimal it stands for.
pub data EntryMeta (D : Type 0) : Type 0 where
  game_resolve : (game_type : GameType) (game_id : String) → EntryMeta D
  hourly_fee : (game_id : String) → EntryMeta D
  user_add_bet : (game_type : GameType) (game_id bet_id : String) → EntryMeta D
  user_deposit : (currency : String) (amount : D) (order_id : String) → EntryMeta D
  network_fee : (fee_amount : D) (order_id : String) → EntryMeta D
  user_withdraw : (currency : String) (amount : D) (order_id : String) → EntryMeta D
  bonus : (reason : String) (amount : D) → EntryMeta D
  bonus_removed : (reason : String) (amount : D) → EntryMeta D
  user_lose : (lose_amount : D) (game_type : GameType) (game_id bet_id : String) → EntryMeta D
  user_rejected_bet : (game_type : GameType) (game_id bet_id : String) → EntryMeta D
  user_won : (game_type : GameType) (game_id bet_id : String) → EntryMeta D
  not_defined : (game_id bet_id : String) → EntryMeta D
  hold : (hold_amount : D) → EntryMeta D
  unhold : (unhold_amount : D) → EntryMeta D

-- `LedgerEntryEntityProps`, without the time of creation, which the database fills. `details` is
-- the empty text where the props have none.
pub record Entry (D : Type 0) : Type 0 where
  pub id : Option String
  pub is_credit : Bool
  pub amount : D
  pub meta : EntryMeta D
  pub type : EntryType
  pub details : String
  pub account_id : String
  pub is_read : Bool
  pub journal_id : Option String
  pub account : Option Account

abbrev resolve_details : GameType → String → String
resolve_details bullseye game_id = "Bulls-Eye game " +s game_id +s " resolved"
resolve_details one_vs_one game_id = "1 vs 1 game " +s game_id +s " resolved"
resolve_details updown game_id = "Up/Down game " +s game_id +s " resolved"
resolve_details setup game_id = "Setup game " +s game_id +s " resolved"
resolve_details x1000 game_id = "X1000 game " +s game_id +s " resolved"

abbrev game_title : GameType → String
game_title bullseye = "Bulls-Eye"
game_title one_vs_one = "1 vs 1"
game_title updown = "Up/Down"
game_title setup = "Setup"
game_title x1000 = "X1000"

module _ {D : Type 0} ⦃dec : Decimal D⦄ where
  -- `generateDetails`, a switch on the type of the meta
  unfoldable pub generate_details : EntryMeta D → String
  generate_details (game_resolve game_type game_id) = resolve_details game_type game_id
  generate_details (user_rejected_bet game_type game_id bet_id) =
      game_title game_type +s " game rejected"
  generate_details (user_won game_type game_id bet_id) = game_title game_type
  generate_details (not_defined game_id bet_id) = "No details"
  generate_details (user_deposit currency amount order_id) =
      "Deposit " +s dec.to_string amount +s " " +s currency
  generate_details (user_withdraw currency amount order_id) =
      "Withdrawal " +s dec.to_string amount +s " " +s currency
  generate_details (hold amount) = "Holded"
  generate_details (unhold amount) = "Unholded"
  generate_details (network_fee amount order_id) = "Network fee"
  generate_details (hourly_fee game_id) = "Hourly fee"
  generate_details (user_add_bet game_type game_id bet_id) = game_title game_type +s " game created"
  generate_details (user_lose amount game_type game_id bet_id) = game_title game_type
  generate_details (bonus reason amount) = reason
  generate_details (bonus_removed reason amount) = reason

  -- The constructor: the details are generated if none are given, and an entry with no account
  -- is refused.
  unfoldable pub new_entry : Entry D → Result (Entry D)
  new_entry props =
      let details =
        if str_eq props.details "" then generate_details props.meta else props.details in
      if str_eq props.account_id ""
      then err account_not_provided
      else ok (record props { details = details })
