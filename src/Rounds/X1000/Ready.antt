-- ===== src/Rounds/X1000/Ready.antt =====
-- The pending x1000 games that a run of the resolver finds (apps/x1000-worker/src/module/game/cron-jobs/
-- x1000GamesResolver.worker.ts).
use backend_showcase.Prelude.{
  take, ℕ, zero, suc, ◌≡◌, refl, String, Bool, true, false, not, ◌&&◌, ◌||◌, List, [], ◌∷◌, map,
  filter, inl, inr, Bool-cases, arith, if◌then◌else◌, str_eq, str_eq-refl,
}
use backend_showcase.Games.X1000.{X1000Bet, X1000Game}
use backend_showcase.Rounds.Repository.{is_game_close, is_game_in_pending}
use backend_showcase.Rounds.X1000.{X1000Row, X1000BetRow, has_game, has_x1000_bet}
use backend_showcase.Rounds.X1000.Resolver.{x1000_bets_of, with_x1000_bets, close_row}

module _ {D : Type 0} where
  -- whether the game with this id is closed
  abbrev pub is_closed : String → List (X1000Row D) → Bool
  is_closed id [] = false
  is_closed id (g ∷ rows) = if str_eq g.id id then is_game_close g.state else is_closed id rows

  -- all games with these ids are closed
  abbrev pub all_closed : List String → List (X1000Row D) → Bool
  all_closed [] rows = true
  all_closed (id ∷ ids) rows = is_closed id rows && all_closed ids rows

  abbrev pub close_in : String → List (X1000Row D) → List (X1000Row D)
  close_in id rows = map (λ (g : X1000Row D). if str_eq g.id id then close_row g else g) rows

  pub is_closed-close_in :
      (id j : String) (rows : List (X1000Row D))
      → is_closed j rows ≡ true
      → is_closed j (close_in id rows) ≡ true
  is_closed-close_in id j [] h = h
  is_closed-close_in id j (g ∷ rows) h = ground (arith, is_closed-close_in id j rows)

  pub closed_by :
      (id : String) (rows : List (X1000Row D))
      → has_game id rows ≡ true
      → is_closed id (close_in id rows) ≡ true
  closed_by id [] h = absurd (ground arith)
  closed_by id (g ∷ rows) h = ground (arith, closed_by id rows)

  pub has_game-close_in :
      (id j : String) (rows : List (X1000Row D)) → has_game j (close_in id rows) ≡ has_game j rows
  has_game-close_in id j [] = refl
  has_game-close_in id j (g ∷ rows) = elim (Bool-cases (str_eq g.id id)) [
    | inl this ↦ simp (this, has_game-close_in id j rows)
    | inr other ↦ simp (other, has_game-close_in id j rows)
  ]

  pub has_x1000_bet-map :
      (id j : String) (f : X1000BetRow D → X1000BetRow D) (rows : List (X1000BetRow D))
      → ((row : X1000BetRow D) → (f row).bet.id ≡ row.bet.id)
      → has_x1000_bet j
          (map (λ (row : X1000BetRow D). if str_eq row.bet.id id then f row else row) rows)
        ≡ has_x1000_bet j rows
  has_x1000_bet-map id j f [] keeps = refl
  has_x1000_bet-map id j f (row ∷ rows) keeps = elim (Bool-cases (str_eq row.bet.id id)) [
    | inl this ↦ simp (this, keeps row, has_x1000_bet-map id j f rows keeps)
    | inr other ↦ simp (other, has_x1000_bet-map id j f rows keeps)
  ]

  -- a game with a bet, both in the tables
  abbrev pub IsReady : List (X1000Row D) → List (X1000BetRow D) → String × X1000Game D → Type 0
  IsReady games bets found =
      (bet : X1000Bet D) × (rest : List (X1000Bet D)) × (found.1.bets ≡ bet ∷ rest)
      × (has_game found.0 games ≡ true)
      × (has_x1000_bet bet.id bets ≡ true)

  abbrev pub AreReady :
      List (X1000Row D) → List (X1000BetRow D) → List (String × X1000Game D) → Type 0
  AreReady games bets [] = Unit
  AreReady games bets (found ∷ others) = IsReady games bets found × AreReady games bets others

  abbrev pub found_ids : List (String × X1000Game D) → List String
  found_ids found = map (λ (p : String × X1000Game D). p.0) found

  -- whether a game has a bet
  abbrev pub has_row : String → List (X1000BetRow D) → Bool
  has_row game_id [] = false
  has_row game_id (row ∷ rows) = str_eq row.game_id game_id || has_row game_id rows

  -- every pending game has a bet
  abbrev pub all_have_bets : List (X1000BetRow D) → List (X1000Row D) → Bool
  all_have_bets bets [] = true
  all_have_bets bets (g ∷ games) =
      (not (is_game_in_pending g.state) || has_row g.id bets) && all_have_bets bets games

  abbrev pub all_in : List (X1000Row D) → List (X1000Row D) → Bool
  all_in [] games = true
  all_in (g ∷ rows) games = has_game g.id games && all_in rows games

  all_in-cons :
      (g : X1000Row D) (rows games : List (X1000Row D))
      → all_in rows games ≡ true
      → all_in rows (g ∷ games) ≡ true
  all_in-cons g [] games h = refl
  all_in-cons g (r ∷ rows) games h = ground (arith, all_in-cons g rows games)

  pub all_in-same : (rows : List (X1000Row D)) → all_in rows rows ≡ true
  all_in-same [] = refl
  all_in-same (g ∷ rows) = simp (str_eq-refl g.id, all_in-cons g rows rows (all_in-same rows))

  has_row-first :
      (id : String) (bets : List (X1000BetRow D))
      → has_row id bets ≡ true
      → (bet : X1000Bet D) × (rest : List (X1000Bet D)) × (x1000_bets_of id bets ≡ bet ∷ rest)
        × (has_x1000_bet bet.id bets ≡ true)
  has_row-first id [] h = absurd (ground arith)
  has_row-first id (row ∷ bets) h = elim (Bool-cases (str_eq row.game_id id)) [
    | inl this ↦ (row.bet, x1000_bets_of id bets, rw this refl, rw (str_eq-refl row.bet.id) refl)
    | inr other ↦
        let (bet, rest, first, there) = has_row-first id bets (rw other at h) in
        (bet, rest, rw other first, ground (arith, there))
  ]

  pub pending-AreReady :
      (n : ℕ) (bets : List (X1000BetRow D)) (rows games : List (X1000Row D))
      → all_in rows games ≡ true
      → all_have_bets bets rows ≡ true
      → AreReady games bets (
          map
            (with_x1000_bets bets)
            (take n (filter (λ (g : X1000Row D). is_game_in_pending g.state) rows)))
  pending-AreReady zero bets rows games present have = tt
  pending-AreReady (suc n) bets [] games present have = tt
  pending-AreReady (suc n) bets (g ∷ rows) games present have =
      elim (Bool-cases (is_game_in_pending g.state)) [
        | inl pending ↦
            let (bet, rest, first, there) = has_row-first g.id bets (ground arith) in
            rw pending (
              (bet, rest, first, ground arith, there),
              pending-AreReady n bets rows games (ground arith) (ground arith),
            )
        | inr other ↦
            rw other (pending-AreReady (suc n) bets rows games (ground arith) (ground arith))
      ]
