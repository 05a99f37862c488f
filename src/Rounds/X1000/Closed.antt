-- ===== src/Rounds/X1000/Closed.antt =====
-- What a run of the resolver does (apps/x1000-worker/src/module/game/cron-jobs/
-- x1000GamesResolver.worker.ts).
use backend_showcase.Prelude.{
  ◌≡◌, ◌⊎◌, refl, ◌∙◌, ap, String, true, false, Option, none, some, List, [], ◌∷◌, map, inl, inr,
  Bool-cases, if◌then◌else◌, str_eq,
}
use backend_showcase.Decimal.{Decimal}
use backend_showcase.Ledger.Result.{Result, ok}
use backend_showcase.Ledger.Action.{in_transaction, roll_back, bind_of_ok}
use backend_showcase.Games.X1000.{
  X1000Bet, X1000Game, ResolvedBet, get_x1000_game_result, resolve_x1000, resolve_priced,
  reject_unpriced,
}
use backend_showcase.Rounds.X1000.{
  X1000BetRow, X1000Tables, IsX1000Store, has_game, has_x1000_bet, update_x1000_game,
  update_x1000_bet,
}
use backend_showcase.Rounds.X1000.Resolver.{
  with_resolved, close_row, close_x1000, close_result, close_found, found_pending, handle,
}
use backend_showcase.Rounds.X1000.Ended.{update_x1000_bet-ok, update_x1000_game-ok}
use backend_showcase.Rounds.X1000.Ready.{
  is_closed, all_closed, close_in, is_closed-close_in, closed_by, has_game-close_in,
  has_x1000_bet-map, IsReady, AreReady, found_ids, all_have_bets, all_in-same, pending-AreReady,
}

module _ {D : Type 0} ⦃dec : Decimal D⦄ where
  resolve-bet :
      (fee : D) (bet : X1000Bet D) (start_price end_price : Option D)
      → (resolve_x1000 fee bet start_price end_price).bet ≡ bet
  unfolding resolve_x1000 resolve_priced reject_unpriced
  resolve-bet fee bet none end_price = refl
  resolve-bet fee bet (some start_price) none = refl
  resolve-bet fee bet (some start_price) (some end_price) = refl

  get_result-bet :
      (fee : D) (game : X1000Game D) (bet : X1000Bet D) (rest : List (X1000Bet D))
      → game.bets ≡ bet ∷ rest
      → (resolved : ResolvedBet D) × (get_x1000_game_result game fee ≡ ok resolved)
        × (resolved.bet ≡ bet)
  unfolding get_x1000_game_result
  get_result-bet fee game bet rest e = (
    resolve_x1000 fee bet game.start_price game.end_price,
    ap (λ bets. get_x1000_game_result (record game { bets = bets }) fee) e,
    resolve-bet fee bet game.start_price game.end_price,
  )

module _ {S D : Type 0} ⦃dec : Decimal D⦄ (db : X1000Tables S D) (store : IsX1000Store db)
    (platform_fee : D) where
  -- the bet of a game is set to its result
  abbrev set_result : ResolvedBet D → List (X1000BetRow D) → List (X1000BetRow D)
  set_result resolved rows =
      map
        (λ (row : X1000BetRow D).
          if str_eq row.bet.id resolved.bet.id then with_resolved resolved row else row)
        rows

  close_one :
      (id : String) (game : X1000Game D) (s : S)
      → IsReady (db.games s) (db.bets s) (id, game)
      → (t : S) × (resolved : ResolvedBet D) × (close_result db id
            (get_x1000_game_result game platform_fee)
            s
          ≡ (ok tt, t))
        × (db.games t ≡ close_in id (db.games s))
        × (db.bets t ≡ set_result resolved (db.bets s))
  unfolding close_x1000 in_transaction
  close_one id game s (bet, rest, first, is_game, is_bet) =
      let (resolved, result, same) = get_result-bet platform_fee game bet rest first in
      let s1 = db.write_games (close_in id (db.games s)) s in
      let bets = store.bets-write_games (close_in id (db.games s)) s in
      let there : has_x1000_bet resolved.bet.id (db.bets s1) ≡ true =
        ap (has_x1000_bet resolved.bet.id) bets
        ∙ ap (λ (b : X1000Bet D). has_x1000_bet b.id (db.bets s)) same
        ∙ is_bet in
      let both =
        bind_of_ok (update_x1000_game db id close_row)
          (λ closed. update_x1000_bet db resolved.bet.id (with_resolved resolved)) s
          (update_x1000_game-ok db id close_row s is_game)
        ∙ update_x1000_bet-ok db resolved.bet.id (with_resolved resolved) s1 there in
      (
        db.write_bets (set_result resolved (db.bets s1)) s1,
        resolved,
        ap (λ r. close_result db id r s) result ∙ ap (roll_back s) both,
        store.games-write_bets _ s1 ∙ store.games-write_games _ s,
        store.bets-write_bets _ s1 ∙ ap (set_result resolved) bets,
      )

  stays_ready :
      (id : String) (resolved : ResolvedBet D) (found : List (String × X1000Game D)) (s t : S)
      → db.games t ≡ close_in id (db.games s)
      → db.bets t ≡ set_result resolved (db.bets s)
      → AreReady (db.games s) (db.bets s) found
      → AreReady (db.games t) (db.bets t) found
  stays_ready id resolved [] s t games bets ready = tt
  stays_ready id resolved ((j, game) ∷ found) s t games bets
        ((bet, rest, first, is_game, is_bet), others) =
      (
        (
          bet,
          rest,
          first,
          ap (has_game j) games ∙ has_game-close_in id j (db.games s) ∙ is_game,
          ap (has_x1000_bet bet.id) bets
              ∙ has_x1000_bet-map resolved.bet.id bet.id (with_resolved resolved) (db.bets s)
                  (λ row. refl)
              ∙ is_bet,
        ),
        stays_ready id resolved found s t games bets others,
      )

  -- the loop returns with the games closed, and none of the closed ones opened
  abbrev AreDone : List (String × X1000Game D) → S → Type 0
  AreDone found s =
      (t : S) × (close_found db platform_fee found s ≡ (ok tt, t))
      × (all_closed (found_ids found) (db.games t) ≡ true)
      × ((j : String) → is_closed j (db.games s) ≡ true → is_closed j (db.games t) ≡ true)

  close_found-AreDone :
      (found : List (String × X1000Game D)) (s : S)
      → AreReady (db.games s) (db.bets s) found
      → AreDone found s
  unfolding close_found
  close_found-AreDone [] s ready = (s, refl, refl, λ j h. h)
  close_found-AreDone ((id, game) ∷ found) s (ready, others) =
      let (t, resolved, moved, games, bets) = close_one id game s ready in
      let (u, rest, closed, keeps) =
        close_found-AreDone found t (stays_ready id resolved found s t games bets others) in
      let (bet, rest_bets, first, is_game, is_bet) = ready in
      let this : is_closed id (db.games t) ≡ true =
        ap (is_closed id) games ∙ closed_by id (db.games s) is_game in
      (
        u,
        bind_of_ok (close_result db id (get_x1000_game_result game platform_fee))
              (λ done_one. close_found db platform_fee found) s moved
            ∙ rest,
        rw (keeps id this) closed,
        λ j h. keeps j (ap (is_closed j) games ∙ is_closed-close_in id j (db.games s) h),
      )

  -- When every pending game has a bet, a run of the resolver closes the pending games that it finds,
  -- which are the first ten, and a game that was closed stays so.
  pub handle-all_closed :
      (id : String) (s : S)
      → all_have_bets (db.bets s) (db.games s) ≡ true
      → (all_closed (found_ids (found_pending db s)) (db.games (handle db platform_fee s)) ≡ true)
        × ((is_closed id (db.games s) ≡ false)
            ⊎ (is_closed id (db.games (handle db platform_fee s)) ≡ true))
  unfolding handle
  handle-all_closed id s have =
      let (t, returned, closed, keeps) = close_found-AreDone (found_pending db s) s (
        pending-AreReady 10 (db.bets s) (db.games s) (db.games s) (all_in-same (db.games s))
          have) in
      (
        ap
              (λ (r : Result (Unit {0}) × S).
                all_closed (found_ids (found_pending db s)) (db.games r.1))
              returned
            ∙ closed,
        elim (Bool-cases (is_closed id (db.games s))) [
          | inr not_yet ↦ inl not_yet
          | inl over ↦ inr (
              ap (λ (r : Result (Unit {0}) × S). is_closed id (db.games r.1)) returned
              ∙ keeps id over)
        ],
      )
