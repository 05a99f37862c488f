-- ===== src/Ledger/Games.antt =====
-- libs/ledger-package/src/external-services/gameLedger.service.ts: bets, fees on bets and the
-- settlement of a game. Each method runs in its caller's database transaction.
pub mod Bets
pub mod Settlement
pub mod X1000
