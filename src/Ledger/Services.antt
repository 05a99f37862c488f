-- ===== src/Ledger/Services.antt =====
-- libs/ledger-package/src/internal-services: the services that the ledger operations go by.
pub mod Balance
pub mod Account
pub mod Entry
pub mod Journal
pub mod Refresh
pub mod Facts
pub mod Quiet
