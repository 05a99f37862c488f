-- ===== src/Rounds/X1000/Single.antt =====
-- That no user has two open x1000 bets (`addBet` of
-- apps/x1000/src/module/game/services/x1000Bets.service.ts), whatever is done with the bets.
use backend_showcase.Prelude.{
  ◌≤◌, ◌≡◌, ◌⊎◌, refl, String, Bool, false, List, [], ◌∷◌, map, inl, inr, Bool-cases, arith,
  if◌then◌else◌, str_eq,
}
use backend_showcase.Ledger.Result.{Result, ok, err}
use backend_showcase.Ledger.Action.{Action, in_transaction, resume, roll_back, ◌>>=◌}
use backend_showcase.Rounds.X1000.{
  X1000Row, X1000BetRow, X1000Tables, IsX1000Store, is_opened, count_opened, has_x1000_bet,
  has_game, update_x1000_game, update_x1000_bet,
}

module _ {D : Type 0} where
  -- a change that opens no bet and leaves its owner
  abbrev pub NeverOpens : (X1000BetRow D → X1000BetRow D) → Type 0
  NeverOpens f =
      (row : X1000BetRow D)
      → ((f row).bet.owner_id ≡ row.bet.owner_id)
        × ((is_opened (f row).result ≡ false) ⊎ (f row ≡ row))

  pub NeverOpens-if :
      (p : X1000BetRow D → Bool) (f : X1000BetRow D → X1000BetRow D)
      → NeverOpens f
      → NeverOpens (λ row. if p row then f row else row)
  NeverOpens-if p f quiet row = elim (Bool-cases (p row)) [
    | inl this ↦ rw this (quiet row)
    | inr other ↦ rw other (refl, inr refl)
  ]

  pub count_opened-map :
      (user : String) (f : X1000BetRow D → X1000BetRow D) (rows : List (X1000BetRow D))
      → NeverOpens f
      → count_opened user (map f rows) ≤ count_opened user rows
  count_opened-map user f [] quiet = omega arith
  count_opened-map user f (row ∷ rows) quiet =
      let rest = count_opened-map user f rows quiet in
      elim (quiet row).1 [
        | inl closed ↦ ground (arith, rest, closed)
        | inr same ↦ rw same (ground (arith, rest))
      ]

module _ {S D : Type 0} (db : X1000Tables S D) where
  -- No user has more open bets than before.
  abbrev pub IsQuieter : S → S → Type 0
  IsQuieter s t = (user : String) → count_opened user (db.bets t) ≤ count_opened user (db.bets s)

  -- No user has two open bets.
  abbrev pub IsSingle : S → Type 0
  IsSingle s = (user : String) → count_opened user (db.bets s) ≤ 1

  pub IsQuieter-trans : (a b c : S) → IsQuieter a b → IsQuieter b c → IsQuieter a c
  IsQuieter-trans a b c h k user = omega (arith, h user, k user)

  pub IsQuieter-refl : (s : S) → IsQuieter s s
  IsQuieter-refl s user = omega arith

  pub IsQuieter-same : (s t : S) → db.bets t ≡ db.bets s → IsQuieter s t
  IsQuieter-same s t e user = rw e (omega arith)

  pub IsQuieter-map :
      (f : X1000BetRow D → X1000BetRow D) (s t : S)
      → NeverOpens f
      → db.bets t ≡ map f (db.bets s)
      → IsQuieter s t
  IsQuieter-map f s t quiet e user = rw e (count_opened-map user f (db.bets s) quiet)

module _ {S D A : Type 0} (db : X1000Tables S D) where
  -- a method that opens no bet, whether it returns or throws
  abbrev pub StaysQuiet : Action S A → Type 0
  StaysQuiet m = (s : S) → IsQuieter db s (m s).1

  pub transaction-StaysQuiet : (m : Action S A) → StaysQuiet m → StaysQuiet (in_transaction m)
  unfolding in_transaction
  transaction-StaysQuiet m quiet s = rolled (m s) (quiet s)
    where
      rolled : (r : Result A × S) → IsQuieter db s r.1 → IsQuieter db s (roll_back s r).1
      rolled (ok a, t) h = h
      rolled (err e, t) h = IsQuieter-refl db s

module _ {S D A B : Type 0} (db : X1000Tables S D) where
  pub bind-StaysQuiet :
      (m : Action S A) (f : A → Action S B)
      → StaysQuiet db m
      → ((a : A) → StaysQuiet db (f a))
      → StaysQuiet db (m >>= f)
  unfolding ◌>>=◌
  bind-StaysQuiet m f first rest s = resumed (m s) (first s)
    where
      resumed : (r : Result A × S) → IsQuieter db s r.1 → IsQuieter db s (resume r.0 f r.1).1
      resumed (ok a, t) h = IsQuieter-trans db s t _ h (rest a t)
      resumed (err e, t) h = h

module _ {S D : Type 0} (db : X1000Tables S D) (store : IsX1000Store db) where
  pub update_bet-StaysQuiet :
      (id : String) (f : X1000BetRow D → X1000BetRow D)
      → NeverOpens f
      → StaysQuiet db (update_x1000_bet db id f)
  unfolding update_x1000_bet
  update_bet-StaysQuiet id f quiet s = elim (Bool-cases (has_x1000_bet id (db.bets s))) [
    | inr missing ↦ rw missing (IsQuieter-refl db s)
    | inl found ↦ rw found (
        IsQuieter-map db (λ row. if str_eq row.bet.id id then f row else row) s _
          (NeverOpens-if (λ row. str_eq row.bet.id id) f quiet) (store.bets-write_bets _ s))
  ]

  pub update_game-StaysQuiet :
      (id : String) (f : X1000Row D → X1000Row D) → StaysQuiet db (update_x1000_game db id f)
  unfolding update_x1000_game
  update_game-StaysQuiet id f s = elim (Bool-cases (has_game id (db.games s))) [
    | inr missing ↦ rw missing (IsQuieter-refl db s)
    | inl found ↦ rw found (IsQuieter-same db s _ (store.bets-write_games _ s))
  ]
