-- ===== src/Rounds/OneVsOne/Steps.antt =====
-- Everything that the services and the worker of 1vs1 games do, as steps in any order
-- (apps/one-vs-one and apps/one-vs-one-worker).
use backend_showcase.Prelude.{ℕ, ◌≡◌, String, List, []}
use backend_showcase.Decimal.{Decimal}
use backend_showcase.Rounds.Tables.{bets_of}
use backend_showcase.Rounds.OneVsOne.{
  Duel, DuelTables, IsDuelStore, CreateDuelParams, AddDuelBetParams, ChargeDuel, find_duel,
  create_duel, add_duel_bet, reject_duel,
}
use backend_showcase.Rounds.OneVsOne.Worker.{
  current, finalize_duel, check_duel_after_stop, resolve_duel, handle_duels, find_pending,
  pending_ids,
}
use backend_showcase.Rounds.OneVsOne.Requests.{
  IsOutside, create-ArePairs, add-ArePairs, reject-ArePairs,
}
use backend_showcase.Rounds.OneVsOne.Pairs.{
  ArePairs, finalize-ArePairs, check-ArePairs, resolve-ArePairs,
}

-- A step, with what comes from outside: requests, times, prices and the worker's jobs.
pub data DuelStep (D : Type 0) : Type 0 where
  create : CreateDuelParams D → D → ℕ → DuelStep D
  accept : AddDuelBetParams D → ℕ → DuelStep D
  reject : String → String → DuelStep D
  stop_bets_job : List (Duel D) → String → DuelStep D
  end_job : List (Duel D) → String → D → DuelStep D
  cron_job : DuelStep D

module _ {S D : Type 0} (db : DuelTables S D) where
  -- The id that a creation takes is the id of no game that has bets.
  abbrev pub IsFresh : DuelStep D → S → Type 0
  IsFresh (create params price now) s = bets_of (db.new_id s) (db.bets s) ≡ []
  IsFresh (accept params now) s = Unit {0}
  IsFresh (reject user_id game_id) s = Unit {0}
  IsFresh (stop_bets_job games id) s = Unit {0}
  IsFresh (end_job games id price) s = Unit {0}
  IsFresh cron_job s = Unit {0}

module _ {S D : Type 0} ⦃dec : Decimal D⦄ (db : DuelTables S D) (platform_fee : D)
    (charge : ChargeDuel S D) where
  -- A job runs with the games that the worker holds.
  unfoldable pub perform_duel : DuelStep D → S → S
  perform_duel (create params price now) s = (create_duel db charge params price now s).1
  perform_duel (accept params now) s = (add_duel_bet db charge params now s).1
  perform_duel (reject user_id game_id) s = (reject_duel db user_id game_id s).1
  perform_duel (stop_bets_job games id) s =
      (check_duel_after_stop db id (record { tables = s; current_games = games; jobs = [] })).1
  perform_duel (end_job games id price) s =
      (finalize_duel db id price (record { tables = s; current_games = games; jobs = [] })).1
  perform_duel cron_job s = handle_duels db platform_fee s

  pub data ReachDuel (s : S) : S → Type 0 where
    start : ReachDuel s s
    then_step :
        {t : S} → ReachDuel s t → (c : DuelStep D) → IsFresh db c t → ReachDuel s (perform_duel c t)

module _ {S D : Type 0} ⦃dec : Decimal D⦄ (db : DuelTables S D) (store : IsDuelStore db)
    (platform_fee : D) (charge : ChargeDuel S D) where
  perform-ArePairs :
      IsOutside db charge
      → (c : DuelStep D) (s : S) → IsFresh db c s
      → ArePairs db s
      → ArePairs db (perform_duel db platform_fee charge c s)
  unfolding perform_duel add_duel_bet reject_duel check_duel_after_stop finalize_duel handle_duels
      resolve_duel
  perform-ArePairs outside (create params price now) s fresh two =
      create-ArePairs db store charge outside params price now s fresh two
  perform-ArePairs outside (accept params now) s fresh two =
      add-ArePairs db store charge outside params now (find_duel params.game_id (db.games s)) s two
  perform-ArePairs outside (reject user_id game_id) s fresh two =
      reject-ArePairs db store charge user_id (find_duel game_id (db.games s)) s two
  perform-ArePairs outside (stop_bets_job games id) s fresh two =
      check-ArePairs db store id (current id games) s two
  perform-ArePairs outside (end_job games id price) s fresh two =
      finalize-ArePairs db store id price (current id games) s two
  perform-ArePairs outside cron_job s fresh two =
      resolve-ArePairs db store platform_fee (find_pending (pending_ids (db.games s)) (db.games s))
        s two

  -- When no game has more than two bets and every request is handled before the next one, no game
  -- ever has more than two, whatever is created, accepted, rejected, stopped, ended and resolved, in
  -- any order, if the ledger leaves the bets alone and every creation takes the id of no game with
  -- bets.
  pub ReachDuel-ArePairs :
      IsOutside db charge
      → (s t : S) → ReachDuel db platform_fee charge s t
      → ArePairs db s
      → ArePairs db t
  ReachDuel-ArePairs outside s t start two = two
  ReachDuel-ArePairs outside s t (then_step r c fresh) two =
      perform-ArePairs outside c _ fresh (ReachDuel-ArePairs outside s _ r two)
