-- ===== src/Games.antt =====
-- The results of the games: who won, who lost, whose bets are given back, and what each bet brings.
pub mod Bet
pub mod OneVsOne
pub mod UpDown
pub mod Setup
pub mod X1000
pub mod BullsEye
