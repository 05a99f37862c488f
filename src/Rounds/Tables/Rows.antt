-- ===== src/Rounds/Tables/Rows.antt =====
-- What an update of the game with an id does to the rows.
use backend_showcase.Prelude.{
  ◌≡◌, ◌⊎◌, refl, ◌∙◌, ap, String, Bool, true, false, ◌&&◌, Option, none, some, List, [], ◌∷◌, inl,
  inr, Bool-cases, str_eq, str_eq_iff,
}
use backend_showcase.Ledger.Result.{LedgerError, Result, ok, err}
use backend_showcase.Ledger.GamesRewards.{GameState}
use backend_showcase.Rounds.Tables.{
  Round, Tables, IsStore, find_row, set_row, find_game, is_taken, update_row, update_game,
}

module _ {D : Type 0} where
  abbrev pub change_row : (Round D → Round D) → Option (Round D) → Option (Round D)
  change_row f none = none
  change_row f (some g) = some (f g)

  -- a change that leaves the id alone
  abbrev pub KeepsId : (Round D → Round D) → Type 0
  KeepsId f = (g : Round D) → (f g).id ≡ g.id

  pub find_row-set_row :
      (id : String) (f : Round D → Round D)
      → KeepsId f
      → (rows : List (Round D)) → find_row id (set_row id f rows) ≡ change_row f (find_row id rows)
  find_row-set_row id f keeps [] = refl
  find_row-set_row id f keeps (g ∷ rows) = elim (Bool-cases (str_eq g.id id)) [
    | inl this ↦ simp (this, keeps g)
    | inr other ↦ simp (other, find_row-set_row id f keeps rows)
  ]

  pub find_row-set_row_other :
      (id j : String) (f : Round D → Round D)
      → KeepsId f
      → str_eq id j ≡ false
      → (rows : List (Round D)) → find_row j (set_row id f rows) ≡ find_row j rows
  find_row-set_row_other id j f keeps differ [] = refl
  find_row-set_row_other id j f keeps differ (g ∷ rows) = elim (Bool-cases (str_eq g.id id)) [
    | inl this ↦
        let is_id : g.id ≡ id = (str_eq_iff g.id id).0 this in
        let skipped : str_eq g.id j ≡ false = ap (λ k. str_eq k j) is_id ∙ differ in
        let skipped_after : str_eq (f g).id j ≡ false = ap (λ k. str_eq k j) (keeps g) ∙ skipped in
        simp (this, skipped, skipped_after, find_row-set_row_other id j f keeps differ rows)
    | inr other ↦ simp (other, find_row-set_row_other id j f keeps differ rows)
  ]

module _ {S D : Type 0} where
  -- an operation that threw and wrote nothing
  abbrev pub IsRefused : S → Result (Round D) × S → Type 0
  IsRefused s r = (r.1 ≡ s) × ((e : LedgerError) × (r.0 ≡ err e))

module _ {S D : Type 0} (db : Tables S D) where
  -- an operation that changed the game with an id, whose state is one of these
  abbrev pub IsMoved :
      String → (GameState → Bool) → (Round D → Round D) → S → Result (Round D) × S → Type 0
  IsMoved id allowed f s r =
      (g : Round D) × (find_game db id s ≡ some g)
      × (allowed g.state ≡ true)
      × (r ≡ (ok (f g), db.write_games (set_row id f (db.games s)) s))

  row_cases :
      (unique : GameState → Bool) (id : String) (allowed : GameState → Bool) (f : Round D → Round D)
      (s : S) (o : Option (Round D))
      → find_game db id s ≡ o
      → IsRefused s (update_row db unique id allowed f o s)
        ⊎ IsMoved id allowed f s (update_row db unique id allowed f o s)
  row_cases unique id allowed f s none found = inl (refl, (_, refl))
  row_cases unique id allowed f s (some g) found = elim (Bool-cases (allowed g.state)) [
    | inr refused ↦ rw refused (inl (refl, (_, refl)))
    | inl may ↦ elim (Bool-cases (unique (f g).state && is_taken (f g).state id (db.games s))) [
      | inl taken ↦ rw (may, taken) (inl (refl, (_, refl)))
      | inr free ↦ rw (may, free) (inr (g, found, may, refl))
    ]
  ]

  -- An update is refused, or it changes a game in one of the allowed states.
  pub update_game-cases :
      (unique : GameState → Bool) (id : String) (allowed : GameState → Bool) (f : Round D → Round D)
      (s : S)
      → IsRefused s (update_game db unique id allowed f s)
        ⊎ IsMoved id allowed f s (update_game db unique id allowed f s)
  unfolding update_game
  update_game-cases unique id allowed f s = row_cases unique id allowed f s (find_game db id s) refl

  pub update_game-ok :
      (unique : GameState → Bool) (id : String) (allowed : GameState → Bool) (f : Round D → Round D)
      (g : Round D) (s : S)
      → find_game db id s ≡ some g
      → allowed g.state ≡ true
      → (unique (f g).state && is_taken (f g).state id (db.games s)) ≡ false
      → update_game db unique id allowed f s
        ≡ (ok (f g), db.write_games (set_row id f (db.games s)) s)
  unfolding update_game
  update_game-ok unique id allowed f g s found may free =
      ap (λ o. update_row db unique id allowed f o s) found ∙ rw (may, free) refl

module _ {S D : Type 0} (db : Tables S D) (store : IsStore db) where
  -- the game after the update
  pub find_game-write_games :
      (id : String) (f : Round D → Round D) (g : Round D) (s : S)
      → KeepsId f
      → find_game db id s ≡ some g
      → find_game db id (db.write_games (set_row id f (db.games s)) s) ≡ some (f g)
  find_game-write_games id f g s keeps found =
      ap (find_row id) (store.games-write_games (set_row id f (db.games s)) s)
      ∙ find_row-set_row id f keeps (db.games s)
      ∙ ap (change_row f) found
