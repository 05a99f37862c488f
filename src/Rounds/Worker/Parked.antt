-- ===== src/Rounds/Worker/Parked.antt =====
-- What the loop over the active games does when a worker starts
-- (`moveAllOpenGamesToPendingState` of apps/up-down-worker and apps/bulls-eye-worker).
use backend_showcase.Prelude.{
  ◌≡◌, refl, sym, ◌∙◌, ap, if◌then◌else◌, String, Bool, true, false, not, ◌&&◌, ◌||◌, some, List,
  [], ◌∷◌, map, filter, inl, inr, Bool-cases, arith, str_eq, str_eq_iff, str_eq-refl,
}
use backend_showcase.Ledger.Result.{ok}
use backend_showcase.Ledger.Action.{Action}
use backend_showcase.Ledger.GamesRewards.{GameState}
use backend_showcase.Rounds.Tables.{
  Round, Tables, find_row, set_row, find_game, is_taken, is_listed, same_state,
}
use backend_showcase.Rounds.Tables.Rows.{KeepsId}
use backend_showcase.Rounds.Repository.{is_active}
use backend_showcase.Rounds.Worker.{done, Worker, publish, move_all, get_active_games}

differs_from_active :
    (state other : GameState)
    → is_active state ≡ true
    → is_active other ≡ false
    → same_state other state ≡ false
differs_from_active state other a b = ground arith

module _ {D : Type 0} where
  abbrev pub ids_of : List (Round D) → List String
  ids_of games = map (λ (g : Round D). g.id) games

  -- no game is open or in progress
  abbrev pub none_active : List (Round D) → Bool
  none_active [] = true
  none_active (g ∷ rows) = not (is_active g.state) && none_active rows

  -- every active game has one of these ids
  abbrev pub active_among : List String → List (Round D) → Bool
  active_among ids [] = true
  active_among ids (g ∷ rows) =
      (not (is_active g.state) || is_listed g.id ids) && active_among ids rows

  abbrev pub is_there : String → List (Round D) → Bool
  is_there id [] = false
  is_there id (g ∷ rows) = str_eq g.id id || is_there id rows

  -- there is a game with each of these ids
  abbrev pub all_there : List String → List (Round D) → Bool
  all_there [] rows = true
  all_there (id ∷ ids) rows = is_there id rows && all_there ids rows

  pub none_active-taken :
      (state : GameState) (id : String) (rows : List (Round D))
      → none_active rows ≡ true
      → is_active state ≡ true
      → is_taken state id rows ≡ false
  none_active-taken state id [] h a = refl
  none_active-taken state id (g ∷ rows) h a =
      ground (arith, none_active-taken state id rows, differs_from_active state g.state a)

  active_among-none :
      (rows : List (Round D)) → active_among [] rows ≡ true → none_active rows ≡ true
  active_among-none [] h = refl
  active_among-none (g ∷ rows) h = ground (arith, active_among-none rows)

  active_among-cons :
      (id : String) (ids : List String) (rows : List (Round D))
      → active_among ids rows ≡ true
      → active_among (id ∷ ids) rows ≡ true
  active_among-cons id ids [] h = refl
  active_among-cons id ids (g ∷ rows) h = ground (arith, active_among-cons id ids rows)

  active_among-filter :
      (rows : List (Round D))
      → active_among (ids_of (filter (λ (g : Round D). is_active g.state) rows)) rows ≡ true
  active_among-filter [] = refl
  active_among-filter (g ∷ rows) = elim (Bool-cases (is_active g.state)) [
    | inl active ↦
        let ids = ids_of (filter (λ (g : Round D). is_active g.state) rows) in
        let kept : ids_of (filter (λ (g : Round D). is_active g.state) (g ∷ rows)) ≡ g.id ∷ ids =
          rw active refl in
        let rest = active_among-cons g.id ids rows (active_among-filter rows) in
        ap (λ l. active_among l (g ∷ rows)) kept ∙ simp (active, str_eq-refl g.id, rest)
    | inr still ↦
        let ids = ids_of (filter (λ (g : Round D). is_active g.state) rows) in
        let left : ids_of (filter (λ (g : Round D). is_active g.state) (g ∷ rows)) ≡ ids =
          rw still refl in
        ap (λ l. active_among l (g ∷ rows)) left ∙ simp (still, active_among-filter rows)
  ]

  active_among-set_row :
      (id : String) (ids : List String) (f : Round D → Round D) (rows : List (Round D))
      → ((g : Round D) → is_active (f g).state ≡ false)
      → active_among (id ∷ ids) rows ≡ true
      → active_among ids (set_row id f rows) ≡ true
  active_among-set_row id ids f [] parks h = refl
  active_among-set_row id ids f (g ∷ rows) parks h = ground (
    arith,
    active_among-set_row id ids f rows parks,
    parks g,
    str_eq_iff g.id id,
    str_eq_iff id g.id,
  )

  is_there-set_row :
      (id j : String) (f : Round D → Round D) (rows : List (Round D))
      → KeepsId f
      → is_there j (set_row id f rows) ≡ is_there j rows
  is_there-set_row id j f [] keeps = refl
  is_there-set_row id j f (g ∷ rows) keeps = elim (Bool-cases (str_eq g.id id)) [
    | inl this ↦ simp (this, keeps g, is_there-set_row id j f rows keeps)
    | inr other ↦ simp (other, is_there-set_row id j f rows keeps)
  ]

  all_there-set_row :
      (id : String) (ids : List String) (f : Round D → Round D) (rows : List (Round D))
      → KeepsId f
      → all_there ids (set_row id f rows) ≡ all_there ids rows
  all_there-set_row id [] f rows keeps = refl
  all_there-set_row id (j ∷ ids) f rows keeps =
      simp (is_there-set_row id j f rows keeps, all_there-set_row id ids f rows keeps)

  is_there-found :
      (id : String) (rows : List (Round D))
      → is_there id rows ≡ true
      → (g : Round D) × (find_row id rows ≡ some g)
  is_there-found id [] h = absurd (ground arith)
  is_there-found id (g ∷ rows) h = elim (Bool-cases (str_eq g.id id)) [
    | inl this ↦ rw this (g, refl)
    | inr other ↦ rw other (is_there-found id rows (ground arith))
  ]

  all_there-cons :
      (g : Round D) (ids : List String) (rows : List (Round D))
      → all_there ids rows ≡ true
      → all_there ids (g ∷ rows) ≡ true
  all_there-cons g [] rows h = refl
  all_there-cons g (id ∷ ids) rows h = ground (arith, all_there-cons g ids rows)

  all_there-filter :
      (p : Round D → Bool) (rows : List (Round D)) → all_there (ids_of (filter p rows)) rows ≡ true
  all_there-filter p [] = refl
  all_there-filter p (g ∷ rows) = elim (Bool-cases (p g)) [
    | inl kept ↦ rw kept (
        rw (str_eq-refl g.id)
          (all_there-cons g (ids_of (filter p rows)) rows (all_there-filter p rows)))
    | inr dropped ↦
        rw dropped (all_there-cons g (ids_of (filter p rows)) rows (all_there-filter p rows))
  ]

module _ {D : Type 0} (f : Round D → Round D) where
  -- the games with one of these ids changed, and the others as they were
  abbrev change_listed : List String → List (Round D) → List (Round D)
  change_listed ids rows = map (λ (g : Round D). if is_listed g.id ids then f g else g) rows

  -- The change of every game that has the id of an active one.
  abbrev pub parked : List (Round D) → List (Round D)
  parked rows = change_listed (ids_of (filter (λ (g : Round D). is_active g.state) rows)) rows

  change_none : (rows : List (Round D)) → change_listed [] rows ≡ rows
  change_none [] = refl
  change_none (g ∷ rows) = ap (λ l. g ∷ l) (change_none rows)

  change_listed-set_row :
      (id : String) (ids : List String) (rows : List (Round D))
      → KeepsId f
      → ((g : Round D) → f (f g) ≡ f g)
      → change_listed ids (set_row id f rows) ≡ change_listed (id ∷ ids) rows
  change_listed-set_row id ids [] keeps again = refl
  change_listed-set_row id ids (g ∷ rows) keeps again =
      let rest = change_listed-set_row id ids rows keeps again in
      elim (Bool-cases (str_eq g.id id)) [
        | inr other ↦
            let back : str_eq id g.id ≡ false =
              ground (arith, other, str_eq_iff g.id id, str_eq_iff id g.id) in
            simp (other, back, rest)
        | inl this ↦
            let back : str_eq id g.id ≡ true =
              ground (arith, this, str_eq_iff g.id id, str_eq_iff id g.id) in
            elim (Bool-cases (is_listed g.id ids)) [
              | inl listed ↦ simp (this, back, keeps g, listed, again g, rest)
              | inr unlisted ↦ simp (this, back, keeps g, unlisted, rest)
            ]
      ]

module _ {S D : Type 0} (db : Tables S D) where
  -- a move that takes whatever game has the id out of the active states
  abbrev pub IsParking : (String → Action S (Round D)) → (Round D → Round D) → Type 0
  IsParking move f =
      (id : String) (g : Round D) (s : S)
      → find_game db id s ≡ some g
      → (t : S) × (move id s ≡ (ok (f g), t)) × (db.games t ≡ set_row id f (db.games s))

  park_each :
      (move : String → Action S (Round D)) (f : Round D → Round D) (games : List (Round D))
      (w : Worker S D)
      → KeepsId f
      → ((g : Round D) → is_active (f g).state ≡ false)
      → ((g : Round D) → f (f g) ≡ f g)
      → IsParking move f
      → all_there (ids_of games) (db.games w.tables) ≡ true
      → active_among (ids_of games) (db.games w.tables) ≡ true
      → (v : Worker S D) × (move_all move games w ≡ (done, v))
        × (none_active (db.games v.tables) ≡ true)
        × (db.games v.tables ≡ change_listed f (ids_of games) (db.games w.tables))
  unfolding move_all
  park_each move f [] w keeps parks again moves found active = (
    w,
    refl,
    active_among-none (db.games w.tables) active,
    sym (change_none f (db.games w.tables)),
  )
  park_each move f (game ∷ games) w keeps parks again moves found active =
      let rows = db.games w.tables in
      let (g, here) = is_there-found game.id rows (ground arith) in
      let (t, moved, after) = moves game.id g w.tables here in
      let (v, rest, none_left, rows_left) =
        park_each move f games (publish (f g) t w) keeps parks again moves
          (ap (all_there (ids_of games)) after
            ∙ all_there-set_row game.id (ids_of games) f rows keeps
            ∙ ground arith)
          (ap (active_among (ids_of games)) after
            ∙ active_among-set_row game.id (ids_of games) f rows parks active) in
      (
        v,
        rw moved rest,
        none_left,
        rows_left
            ∙ ap (change_listed f (ids_of games)) after
            ∙ change_listed-set_row f game.id (ids_of games) rows keeps again,
      )

  -- The loop returns, no game is active then, and the games that were are changed.
  pub move_all-parked :
      (move : String → Action S (Round D)) (f : Round D → Round D) (w : Worker S D)
      → KeepsId f
      → ((g : Round D) → is_active (f g).state ≡ false)
      → ((g : Round D) → f (f g) ≡ f g)
      → IsParking move f
      → (v : Worker S D) × (move_all move (get_active_games db w.tables) w ≡ (done, v))
        × (none_active (db.games v.tables) ≡ true)
        × (db.games v.tables ≡ parked f (db.games w.tables))
  move_all-parked move f w keeps parks again moves =
      park_each move f (get_active_games db w.tables) w keeps parks again moves
        (all_there-filter (λ g. is_active g.state) (db.games w.tables))
        (active_among-filter (db.games w.tables))
