-- ===== src/Tests.antt =====
-- Whole numbers as decimals and a database in memory, which show that what the model assumes of
-- decimal.js and of Prisma can hold together; runs of the model on them; and the theorems at
-- concrete inputs.
mod Whole
mod Memory
mod Ledger
mod Games
mod Rewards
mod Store
mod Rounds
mod X1000
mod OneVsOne
mod Coarse
