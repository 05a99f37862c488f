-- ===== src/Ledger.antt =====
-- libs/ledger-package: the double-entry ledger. Its entities, its services and the ledger
-- operations of the games and of the payments.
pub mod Result
pub mod Action
pub mod Names
pub mod Account
pub mod Entry
pub mod Journal
pub mod Database
pub mod Books
pub mod Services
pub mod Games
pub mod Payments
pub mod Rewards
pub mod Nft
pub mod Operations
pub mod GamesRewards
pub mod Balanced
pub mod History
