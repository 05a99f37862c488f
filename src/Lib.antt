-- ===== src/Lib.antt =====
-- The money of the platform: its double-entry ledger, the rounds and the results of its games, and the
-- settlement of closed games in the ledger.
--
-- The parts and how they interact. A worker takes its games from one state to the next, by events,
-- prices and scheduled jobs. When a game has ended, the finalizer of the worker computes the results of a closed game (which bets won,
-- lost or are given back, and what each brings) and stores them in the rows of the bets. The ledger
-- service then writes one journal for the game (a debit of the account of its bets, a credit for each
-- winner and for the platform's commission) and changes the balances of the users by the entries of
-- that journal. Bets, payments, rewards and NFT bonuses write journals of their own. A journal is
-- saved only if it balances; every entry is a row of the table `Entry`; the table `Balance` has the
-- current balance of each user's account.
--
-- Which file models which code:
--   Prelude        shared names, numbers, lists and texts; no code of the repository
--   Decimal        decimal.js, a dependency: an interface (Decimal), what the code relies on of it
--                  (Decimal.Exact) and the loops that add up decimals (Decimal.Sum)
--   Ledger.Result, Ledger.Action
--                  libs/ledger-package/src/errors, and asynchronous methods as functions from a state
--                  to a result and a state
--   Ledger.Names   libs/ledger-package/src/core: resolveAccountName, getPathFromFullName, the enums
--                  and the list of system accounts
--   Ledger.Account, Ledger.Entry, Ledger.Journal
--                  libs/ledger-package/src/entities: a function for each method, of the same name
--   Ledger.Database
--                  the Prisma client over tools/prisma/schema.prisma, a dependency: an interface, and
--                  in Ledger.Database.Laws what is relied on
--   Ledger.Services
--                  libs/ledger-package/src/internal-services: the services of accounts, entries,
--                  balances (with refreshBalances in Refresh) and journals
--   Ledger.Games   libs/ledger-package/src/external-services/gameLedger.service.ts: bets and fees
--                  (Bets), the journals that resolve games with a pool (Settlement: one definition with
--                  four instances, since the four methods are one text but for names) and x1000 games
--   Ledger.Payments, Ledger.Rewards, Ledger.Nft
--                  libs/ledger-package/src/external-services: paymentLedger, rewardLedger and
--                  nftLedger.service.ts
--   Ledger.GamesRewards
--                  apps/ledger/src/modules/games-rewards/gamesRewards.service.ts
--   Ledger.Books, Ledger.Operations, Ledger.History
--                  what the rows of `Entry` are as books, that the operations keep them so, and the
--                  ledger as a step relation: any operation, committed or rolled back
--   Ledger.Balanced
--                  what the journals of all operations add up to, and which of them `save` can refuse
--   Games          libs/core/src/games-helpers/one-vs-one.helper.ts (OneVsOne), apps/up-down-worker
--                  (UpDown), apps/setups-worker (Setup) and apps/bulls-eye-worker (BullsEye), each the
--                  helper of its games finalizer, and libs/core/src/games-helpers/x1000.helpers.ts (X1000)
--   Rounds         the workers of the games: their tables of games and bets (Tables), what their
--                  repositories have in common (Repository), what the workers of Up/Down and
--                  Bulls-Eye games have in common (Worker), and for each of apps/up-down-worker
--                  (UpDown), apps/bulls-eye-worker (BullsEye) and apps/setups-worker (Setup) the
--                  repository, the worker and the finalizer; and X1000 for apps/x1000 and
--                  apps/x1000-worker (the bets, Worker for prices and hourly fees, Resolver) and
--                  OneVsOne for apps/one-vs-one and apps/one-vs-one-worker (creation, acceptance and
--                  rejection of a game, Worker for the jobs and the finalizer). The other files are
--                  what is proved of them: OneVsOne.Pairs, Requests and Steps of any sequence of what
--                  is done with 1vs1 games, Race of two acceptances at the same time, Moves and
--                  Closing of the moves, Closed and Life of a round, Startup of the start of the
--                  application, X1000.Answers, Placed, Ended, Limits, Triggered and Closed of what becomes of an x1000
--                  bet, X1000.Steps of any sequence of what is done with them, Heap.Decided of the
--                  waiting setups, Order and Steps of any sequence of what the worker of the setups
--                  does
--   Tests          whole numbers as decimals, a database in memory, and the theorems at examples
--
-- State: the database is one value of an arbitrary type that only the fields of the interface read and
-- change; an operation takes it and gives it back beside its result. What a method writes before it
-- throws stays written, until the database transaction around it is rolled back (Ledger.History).
-- A rollback takes the whole database back: accounts that `findOrCreateAccount` makes without the
-- transaction that runs stay in the program, with a balance of 0 and without entries, and not in the
-- model.
-- Entities and bets that the source changes in place are returned changed. A JavaScript number is the
-- decimal that it stands for, and `Number(x)` is an operation of the interface of decimals.
--
-- Bounds: `show_ℕ n` has `n + 1` rounds, and a number has no more digits than that; all other
-- recursion is structural. Amounts are compared in the smallest unit, where sums, differences and
-- comparisons are taken as exact, which they are for values with at most the 20 digits of the columns;
-- products and quotients are any values, and where a sum has a quotient with more digits, the identities
-- hold up to its rounding.
--
-- Not modelled: lost connections, foreign keys and concurrent transactions; the events, logs and
-- metrics; times of creation; queries that only read for a view; the rounding of decimal
-- columns; the caches and streams of the workers; the scheduler and the price service, whose calls and
-- answers are arguments of the handlers; the services that make setups, Up/Down and Bulls-Eye games and
-- place their bets, and all that is not about money.
pub mod Prelude
pub mod Decimal
pub mod Ledger
pub mod Games
pub mod Rounds
mod Tests
