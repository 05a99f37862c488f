-- ===== src/Rounds/X1000/Triggered.antt =====
-- What a price does to the x1000 bets (apps/x1000-worker/src/module/game/workers/x1000Prices.worker.ts).
use backend_showcase.Prelude.{
  ◌≡◌, ◌⊎◌, refl, sym, ◌∙◌, ap, String, Bool, true, false, not, ◌&&◌, ◌||◌, List, [], ◌∷◌, some,
  map, filter, if◌then◌else◌, inl, inr, Bool-cases, arith, str_eq, str_eq_iff, str_eq-refl,
}
use backend_showcase.Decimal.{Decimal}
use backend_showcase.Decimal.Exact.{IsExact}
use backend_showcase.Ledger.GamesRewards.{GameState}
use backend_showcase.Games.Bet.{BetResult}
use backend_showcase.Rounds.Tables.{is_listed}
use backend_showcase.Rounds.X1000.{X1000Row, X1000BetRow, X1000Tables, IsX1000Store}
use backend_showcase.Rounds.X1000.Limits.{
  all_inside, bets_in, games_in, false_of_not, true_of_not, triggered-is_inside, test-triggered,
}
use backend_showcase.Rounds.X1000.Worker.{
  is_triggered, end_bet, end_bets, end_game, end_games, games_of, game_asset, end_triggered,
  on_asset_price_changed,
}

module _ {A : Type 0} (key : A → String) (f : A → A) (keeps : (a : A) → key (f a) ≡ key a) where
  -- the rows of a key, and the change of all rows with one of some keys
  abbrev pub rows_of : String → List A → List A
  rows_of id rows = filter (λ (a : A). str_eq (key a) id) rows

  abbrev change_listed : List String → List A → List A
  change_listed ids rows = map (λ (a : A). if is_listed (key a) ids then f a else a) rows

  rows_of-listed :
      (ids : List String) (id : String) (rows : List A)
      → is_listed id ids ≡ true
      → rows_of id (change_listed ids rows) ≡ map f (rows_of id rows)
  rows_of-listed ids id [] listed = refl
  rows_of-listed ids id (a ∷ rows) listed = elim (Bool-cases (str_eq (key a) id)) [
    | inl this ↦
        let too : is_listed (key a) ids ≡ true =
          ap (λ k. is_listed k ids) ((str_eq_iff (key a) id).0 this) ∙ listed in
        simp (this, too, keeps a, rows_of-listed ids id rows listed)
    | inr differs ↦ elim (Bool-cases (is_listed (key a) ids)) [
      | inl also ↦ simp (differs, also, keeps a, rows_of-listed ids id rows listed)
      | inr unlisted ↦ simp (differs, unlisted, rows_of-listed ids id rows listed)
    ]
  ]

  rows_of-others :
      (ids : List String) (id : String) (rows : List A)
      → is_listed id ids ≡ false
      → rows_of id (change_listed ids rows) ≡ rows_of id rows
  rows_of-others ids id [] other = refl
  rows_of-others ids id (a ∷ rows) other = elim (Bool-cases (str_eq (key a) id)) [
    | inl this ↦
        let unlisted : is_listed (key a) ids ≡ false =
          ap (λ k. is_listed k ids) ((str_eq_iff (key a) id).0 this) ∙ other in
        simp (this, unlisted, rows_of-others ids id rows other)
    | inr differs ↦ elim (Bool-cases (is_listed (key a) ids)) [
      | inl listed ↦ simp (differs, listed, keeps a, rows_of-others ids id rows other)
      | inr unlisted ↦ simp (differs, unlisted, rows_of-others ids id rows other)
    ]
  ]

module _ {D : Type 0} ⦃dec : Decimal D⦄ where
  -- whether a bet in progress is to end at this price
  abbrev pub any_triggered : D → List (X1000BetRow D) → Bool
  any_triggered price [] = false
  any_triggered price (row ∷ rows) = is_triggered price row || any_triggered price rows

  -- the games of the bets that are to end at this price
  abbrev pub triggered_games : D → List (X1000BetRow D) → List String
  triggered_games price rows = games_of (filter (is_triggered price) rows)

  -- every bet that is to end is of one of these games
  abbrev all_among : D → List String → List (X1000BetRow D) → Bool
  all_among price ids [] = true
  all_among price ids (row ∷ rows) =
      (not (is_triggered price row) || is_listed row.game_id ids) && all_among price ids rows

  all_among-cons :
      (price : D) (id : String) (ids : List String) (rows : List (X1000BetRow D))
      → all_among price ids rows ≡ true
      → all_among price (id ∷ ids) rows ≡ true
  all_among-cons price id ids [] h = refl
  all_among-cons price id ids (row ∷ rows) h = ground (arith, all_among-cons price id ids rows)

  all_among-filter :
      (price : D) (rows : List (X1000BetRow D))
      → all_among price (triggered_games price rows) rows ≡ true
  all_among-filter price [] = refl
  all_among-filter price (row ∷ rows) = elim (Bool-cases (is_triggered price row)) [
    | inl hit ↦
        let ids = triggered_games price rows in
        let kept : triggered_games price (row ∷ rows) ≡ row.game_id ∷ ids = rw hit refl in
        let rest = all_among-cons price row.game_id ids rows (all_among-filter price rows) in
        ap (λ l. all_among price l (row ∷ rows)) kept ∙ simp (hit, str_eq-refl row.game_id, rest)
    | inr stays ↦
        let left : triggered_games price (row ∷ rows) ≡ triggered_games price rows =
          rw stays refl in
        ap (λ l. all_among price l (row ∷ rows)) left ∙ simp (stays, all_among-filter price rows)
  ]

  ended_is_still :
      (price : D) (row : X1000BetRow D) → is_triggered price (end_bet price row) ≡ false
  unfolding is_triggered
  ended_is_still price row = refl

  end_bets-none :
      (price : D) (ids : List String) (rows : List (X1000BetRow D))
      → all_among price ids rows ≡ true
      → any_triggered price (end_bets price ids rows) ≡ false
  end_bets-none price ids [] h = refl
  end_bets-none price ids (row ∷ rows) h = elim (Bool-cases (is_listed row.game_id ids)) [
    | inl listed ↦
        rw listed (rw (ended_is_still price row) (end_bets-none price ids rows (ground arith)))
    | inr other ↦ rw other (
        let still : is_triggered price row ≡ false = ground arith in
        rw still (end_bets-none price ids rows (ground arith)))
  ]

  end_no_bets : (price : D) (rows : List (X1000BetRow D)) → end_bets price [] rows ≡ rows
  end_no_bets price [] = refl
  end_no_bets price (row ∷ rows) = ap (λ l. row ∷ l) (end_no_bets price rows)

  end_no_games : (price : D) (rows : List (X1000Row D)) → end_games price [] rows ≡ rows
  end_no_games price [] = refl
  end_no_games price (g ∷ rows) = ap (λ l. g ∷ l) (end_no_games price rows)

module _ {D : Type 0} ⦃dec : Decimal D⦄ (exact : IsExact dec) where
  -- The games that the worker ends are those of which a bet in progress is not inside its limits.
  triggered_games-all_inside :
      (price : D) (id : String) (rows : List (X1000BetRow D))
      → is_listed id (triggered_games price rows)
        ≡ not (all_inside exact (exact.units price) (bets_in id rows))
  triggered_games-all_inside price id [] = refl
  triggered_games-all_inside price id (row ∷ rows) =
      let ids = triggered_games price rows in
      let more = triggered_games-all_inside price id rows in
      let test = test-triggered exact price row in
      elim (Bool-cases (is_triggered price row)) [
        | inl hit ↦
            let kept : triggered_games price (row ∷ rows) ≡ row.game_id ∷ ids = rw hit refl in
            let outside = test ∙ ap not hit in
            elim (Bool-cases (str_eq row.game_id id)) [
              | inl this ↦ ap (is_listed id) kept ∙ simp (this, outside)
              | inr differs ↦ ap (is_listed id) kept ∙ simp (differs, more)
            ]
        | inr stays ↦
            let left : triggered_games price (row ∷ rows) ≡ ids = rw stays refl in
            let inside = test ∙ ap not stays in
            elim (Bool-cases (str_eq row.game_id id)) [
              | inl this ↦ ap (is_listed id) left ∙ simp (this, inside, more)
              | inr differs ↦ ap (is_listed id) left ∙ simp (differs, more)
            ]
      ]

  none_triggered-all_inside :
      (price : D) (rows : List (X1000BetRow D))
      → any_triggered price rows ≡ false
      → all_inside exact (exact.units price) rows ≡ true
  none_triggered-all_inside price [] h = refl
  none_triggered-all_inside price (row ∷ rows) h =
      ground (arith, none_triggered-all_inside price rows, triggered-is_inside exact price row)

module _ {S D : Type 0} ⦃dec : Decimal D⦄ (db : X1000Tables S D) (store : IsX1000Store db) where
  pub end_triggered-bets :
      (price : D) (ids : List String) (s : S)
      → db.bets (end_triggered db price ids s) ≡ end_bets price ids (db.bets s)
  end_triggered-bets price [] s = sym (end_no_bets price (db.bets s))
  end_triggered-bets price (id ∷ ids) s = store.bets-write_games _ _ ∙ store.bets-write_bets _ s

  end_triggered-games :
      (price : D) (ids : List String) (s : S)
      → db.games (end_triggered db price ids s) ≡ end_games price ids (db.games s)
  end_triggered-games price [] s = sym (end_no_games price (db.games s))
  end_triggered-games price (id ∷ ids) s =
      store.games-write_games _ _ ∙ ap (end_games price (id ∷ ids)) (store.games-write_bets _ s)

module _ {S D : Type 0} (db : X1000Tables S D) where
  -- A game and its bets end at this price together.
  abbrev pub IsEndedAt : D → String → S → S → Type 0
  IsEndedAt price id s t =
      (bets_in id (db.bets t)
        ≡ map
            (λ (row : X1000BetRow D). record row {
              result = BetResult.pending;
              end_price = some price;
            })
            (bets_in id (db.bets s)))
      × (games_in id (db.games t)
          ≡ map (λ (g : X1000Row D). record g { state = GameState.pending; end_price = some price })
              (games_in id (db.games s)))

  -- A game and its bets are the same as before.
  abbrev pub IsLeft : String → S → S → Type 0
  IsLeft id s t =
      (bets_in id (db.bets t) ≡ bets_in id (db.bets s))
      × (games_in id (db.games t) ≡ games_in id (db.games s))

module _ {S D : Type 0} ⦃dec : Decimal D⦄ (db : X1000Tables S D) (store : IsX1000Store db)
    (exact : IsExact dec) where
  -- After a price of the asset every x1000 bet that is still in progress has it strictly between its
  -- limits: a long bet below its take profit and above its stop loss and burn price, a short bet the
  -- other way round. If a bet in progress of a game had not, the game and all its bets are pending
  -- with this end price; otherwise the game and its bets are the same as before.
  pub on_asset_price_changed-all_inside :
      (price : D) (id : String) (s : S)
      → (all_inside exact
            (exact.units price)
            (db.bets (on_asset_price_changed db game_asset price s))
          ≡ true)
        × (((all_inside exact (exact.units price) (bets_in id (db.bets s)) ≡ false)
              × IsEndedAt db price id s (on_asset_price_changed db game_asset price s))
            ⊎ ((all_inside exact (exact.units price) (bets_in id (db.bets s)) ≡ true)
                × IsLeft db id s (on_asset_price_changed db game_asset price s)))
  unfolding on_asset_price_changed
  on_asset_price_changed-all_inside price id s =
      let ids = triggered_games price (db.bets s) in
      let after = end_triggered-bets db store price ids s in
      let games_after = end_triggered-games db store price ids s in
      let named = triggered_games-all_inside exact price id (db.bets s) in
      (
        ap (all_inside exact (exact.units price)) after
            ∙ none_triggered-all_inside exact price _
                (end_bets-none price ids (db.bets s) (all_among-filter price (db.bets s))),
        elim (Bool-cases (is_listed id ids)) [
          | inl listed ↦ inl (
            false_of_not _ (sym named ∙ listed),
            (
              ap (bets_in id) after
                  ∙ rows_of-listed (λ row. row.game_id) (end_bet price) (λ row. refl) ids id
                      (db.bets s) listed,
              ap (games_in id) games_after
                  ∙ rows_of-listed (λ g. g.id) (end_game price) (λ g. refl) ids id (db.games s)
                      listed,
            ),
          )
          | inr other ↦ inr (
            true_of_not _ (sym named ∙ other),
            (
              ap (bets_in id) after
                  ∙ rows_of-others (λ row. row.game_id) (end_bet price) (λ row. refl) ids id
                      (db.bets s) other,
              ap (games_in id) games_after
                  ∙ rows_of-others (λ g. g.id) (end_game price) (λ g. refl) ids id (db.games s)
                      other,
            ),
          )
        ],
      )
