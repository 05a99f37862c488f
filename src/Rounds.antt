-- ===== src/Rounds.antt =====
-- The rounds of the games: how a game goes from open to closed in the workers of the games, and what
-- they do when it is late.
pub mod Tables
pub mod Repository
pub mod Moves
pub mod Closing
pub mod Worker
pub mod UpDown
pub mod Setup
pub mod BullsEye
pub mod X1000
pub mod OneVsOne
