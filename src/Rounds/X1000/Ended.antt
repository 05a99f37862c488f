-- ===== src/Rounds/X1000/Ended.antt =====
-- What `cashOut` (apps/x1000/src/module/game/services/x1000Bets.service.ts) does.
use backend_showcase.Prelude.{
  ◌≡◌, refl, sym, ◌∙◌, ap, String, true, ◌&&◌, Option, none, some, List, [], ◌∷◌, map, inl, inr,
  Bool-cases, arith, if◌then◌else◌, str_eq, str_eq_iff,
}
use backend_showcase.Decimal.{Decimal}
use backend_showcase.Ledger.Result.{ok}
use backend_showcase.Ledger.Action.{in_transaction, roll_back, bind_of_ok}
use backend_showcase.Rounds.X1000.{
  X1000Row, X1000BetRow, X1000Tables, IsX1000Store, accepted, is_in_progress, find_in_progress,
  has_game, find_x1000, has_x1000_bet, update_x1000_game, update_x1000_bet, take_out,
  cash_out_found, cashed_out, cash_out,
}
use backend_showcase.Rounds.X1000.Worker.{end_bet, end_game}

module _ {D : Type 0} where
  abbrev row_or : X1000BetRow D → Option (X1000BetRow D) → X1000BetRow D
  row_or row none = row
  row_or row (some r) = r

  found-row : (row found : X1000BetRow D) → some row ≡ some found → row ≡ found
  found-row row found e = ap (row_or row) e

  found-has_x1000_bet :
      (game_id : String) (rows : List (X1000BetRow D)) (found : X1000BetRow D)
      → find_in_progress game_id rows ≡ some found
      → has_x1000_bet found.bet.id rows ≡ true
  found-has_x1000_bet game_id [] found h = absurd (ground arith)
  found-has_x1000_bet game_id (row ∷ rows) found h =
      elim (Bool-cases (str_eq row.game_id game_id && is_in_progress row.result)) [
        | inl this ↦
            let same : row.bet.id ≡ found.bet.id =
              ap (λ r. r.bet.id) (found-row row found (rw this at h)) in
            rw ((str_eq_iff row.bet.id found.bet.id).1 same) refl
        | inr other ↦
            let rest = found-has_x1000_bet game_id rows found (rw other at h) in
            ground (arith, rest)
      ]

  found-game :
      (game_id : String) (rows : List (X1000BetRow D)) (found : X1000BetRow D)
      → find_in_progress game_id rows ≡ some found
      → found.game_id ≡ game_id
  found-game game_id [] found h = absurd (ground arith)
  found-game game_id (row ∷ rows) found h =
      elim (Bool-cases (str_eq row.game_id game_id && is_in_progress row.result)) [
        | inl this ↦
            ap (λ r. r.game_id) (sym (found-row row found (rw this at h)))
            ∙ (str_eq_iff row.game_id game_id).0 (ground arith)
        | inr other ↦ found-game game_id rows found (rw other at h)
      ]

  abbrev pub change_game : (X1000Row D → X1000Row D) → Option (X1000Row D) → Option (X1000Row D)
  change_game f none = none
  change_game f (some g) = some (f g)

  find_x1000-map :
      (id : String) (f : X1000Row D → X1000Row D) (rows : List (X1000Row D))
      → ((g : X1000Row D) → (f g).id ≡ g.id)
      → find_x1000 id (map (λ (g : X1000Row D). if str_eq g.id id then f g else g) rows)
        ≡ change_game f (find_x1000 id rows)
  find_x1000-map id f [] keeps = refl
  find_x1000-map id f (g ∷ rows) keeps = elim (Bool-cases (str_eq g.id id)) [
    | inl this ↦ simp (this, keeps g)
    | inr other ↦ simp (other, find_x1000-map id f rows keeps)
  ]

  found_x1000-has_game :
      (id : String) (rows : List (X1000Row D)) (g : X1000Row D)
      → find_x1000 id rows ≡ some g
      → has_game id rows ≡ true
  found_x1000-has_game id [] g h = absurd (ground arith)
  found_x1000-has_game id (row ∷ rows) g h = elim (Bool-cases (str_eq row.id id)) [
    | inl this ↦ rw this refl
    | inr other ↦ rw other (found_x1000-has_game id rows g (rw other at h))
  ]

module _ {S D : Type 0} (db : X1000Tables S D) where
  pub update_x1000_bet-ok :
      (id : String) (f : X1000BetRow D → X1000BetRow D) (s : S)
      → has_x1000_bet id (db.bets s) ≡ true
      → update_x1000_bet db id f s ≡ (
        ok tt,
        db.write_bets
            (map (λ (row : X1000BetRow D). if str_eq row.bet.id id then f row else row) (db.bets s))
            s,
      )
  unfolding update_x1000_bet
  update_x1000_bet-ok id f s there = rw there refl

  pub update_x1000_game-ok :
      (id : String) (f : X1000Row D → X1000Row D) (s : S)
      → has_game id (db.games s) ≡ true
      → update_x1000_game db id f s ≡ (
        ok tt,
        db.write_games (map (λ (g : X1000Row D). if str_eq g.id id then f g else g) (db.games s)) s,
      )
  unfolding update_x1000_game
  update_x1000_game-ok id f s there = rw there refl

module _ {S D : Type 0} ⦃dec : Decimal D⦄ (db : X1000Tables S D) (store : IsX1000Store db) where
  -- A bet in progress of a game is ended at the current price by a request of any user, whether or not the
  -- bet is theirs: the request is accepted, the game has the state PENDING and this end price, so has the
  -- bet, and the other bets are as they were.
  pub cash_out-any_user :
      (user_id game_id : String) (price : D) (found : X1000BetRow D) (game : X1000Row D) (s : S)
      → find_in_progress game_id (db.bets s) ≡ some found
      → find_x1000 game_id (db.games s) ≡ some game
      → (t : S) × (cash_out db user_id game_id price s ≡ (accepted tt, t))
        × (find_x1000 game_id (db.games t) ≡ some (end_game price game))
        × (db.bets t
            ≡ map
                (λ (row : X1000BetRow D).
                  if str_eq row.bet.id found.bet.id then end_bet price row else row)
                (db.bets s))
  unfolding cash_out take_out in_transaction
  cash_out-any_user user_id game_id price found game s is_bet is_game =
      let s1 =
        db.write_bets
          (map
            (λ (row : X1000BetRow D).
              if str_eq row.bet.id found.bet.id then end_bet price row else row)
            (db.bets s))
          s in
      let end_at : String → List (X1000Row D) → List (X1000Row D) =
        λ id rows. map (λ (g : X1000Row D). if str_eq g.id id then end_game price g else g) rows in
      let kept : db.games s1 ≡ db.games s = store.games-write_bets _ s in
      let same : found.game_id ≡ game_id = found-game game_id (db.bets s) found is_bet in
      let there : has_game found.game_id (db.games s1) ≡ true =
        ap (has_game found.game_id) kept
        ∙ ap (λ id. has_game id (db.games s)) same
        ∙ found_x1000-has_game game_id (db.games s) game is_game in
      let first =
        update_x1000_bet-ok db found.bet.id (end_bet price) s
          (found-has_x1000_bet game_id (db.bets s) found is_bet) in
      let second = update_x1000_game-ok db found.game_id (end_game price) s1 there in
      let both =
        bind_of_ok (update_x1000_bet db found.bet.id (end_bet price))
          (λ moved. update_x1000_game db found.game_id (end_game price)) s first
        ∙ second in
      (
        db.write_games (end_at found.game_id (db.games s1)) s1,
        ap (λ o. cash_out_found db price o s) is_bet ∙ ap (λ r. cashed_out db (roll_back s r)) both,
        ap (find_x1000 game_id) (store.games-write_games _ s1)
            ∙ ap (λ l. find_x1000 game_id (end_at found.game_id l)) kept
            ∙ ap (λ id. find_x1000 game_id (end_at id (db.games s))) same
            ∙ find_x1000-map game_id (end_game price) (db.games s) (λ g. refl)
            ∙ ap (change_game (end_game price)) is_game,
        store.bets-write_games _ s1 ∙ store.bets-write_bets _ s,
      )
