-- ===== src/Rounds/Closing.antt =====
-- What the moves of resolved bets to their results do to the rows (`moveBetToCloseState` of the
-- repositories of the workers).
use mathlib.Core.List.{
  Mem, Mem-prop, not-mem-nil, Nodup, Nodup-cons, mem-cons, mem-cons_self, mem-cons_of_mem,
}
use mathlib.Core.Logic.Or
use mathlib.Core.Path.{subst}
use backend_showcase.Prelude.{
  ◌≡◌, ◌≢◌, refl, sym, ◌∙◌, ap, String, true, false, List, [], ◌∷◌, map, inl, inr, Bool-cases,
  arith, if◌then◌else◌, str_eq, str_eq_iff,
}
use backend_showcase.Ledger.Result.{Result, ok, err, record_not_found}
use backend_showcase.Ledger.Action.{◌>>=◌}
use backend_showcase.Games.Bet.{GameBet}
use backend_showcase.Games.UpDown.Partition.{ids}
use backend_showcase.Rounds.Tables.{Tables, IsStore, BetRow, set_bet, has_bet, update_bet}
use backend_showcase.Rounds.Repository.{is_bet_pending, move_bet_to_close_state, close_each}

both_differ : true ≢ false
both_differ e = ground arith

module _ {D : Type 0} where
  differ_of_fresh :
      (id x : String) (rs : List (GameBet D))
      → ¬ Mem id (ids rs)
      → Mem x (ids rs)
      → str_eq id x ≡ false
  differ_of_fresh id x rs fresh m = elim (Bool-cases (str_eq id x)) [
    | inl same ↦ absurd (fresh (subst (λ k. Mem k (ids rs)) (sym ((str_eq_iff id x).0 same)) m))
    | inr differ ↦ differ
  ]

  -- the bets of these ids are pending
  abbrev pub AllPending : List (GameBet D) → List (BetRow D) → Type 0
  AllPending rs rows = (x : String) → Mem x (ids rs) → has_bet x is_bet_pending rows ≡ true

  same_rows : (rows : List (BetRow D)) → map (λ (row : BetRow D). (row.0, row.1)) rows ≡ rows
  same_rows [] = refl
  same_rows (row ∷ rows) = ap (λ l. row ∷ l) (same_rows rows)

module _ {D : Type 0} (set : GameBet D → GameBet D → GameBet D) where
  -- what a bet becomes by the resolved bets: the columns of the one with its id
  abbrev pub outcome_of : List (GameBet D) → GameBet D → GameBet D
  outcome_of [] b = b
  outcome_of (r ∷ rs) b = if str_eq b.id r.id then set r b else outcome_of rs b

  abbrev pub set_outcomes : List (GameBet D) → List (BetRow D) → List (BetRow D)
  set_outcomes rs rows = map (λ (row : BetRow D). (row.0, outcome_of rs row.1)) rows

  abbrev pub KeepsBetId : Type 0
  KeepsBetId = (r b : GameBet D) → (set r b).id ≡ b.id

  has_bet-set_bet :
      KeepsBetId
      → (r : GameBet D) (x : String) → str_eq r.id x ≡ false
      → (rows : List (BetRow D))
      → has_bet x is_bet_pending (set_bet r.id (set r) rows) ≡ has_bet x is_bet_pending rows
  has_bet-set_bet keeps r x differ [] = refl
  has_bet-set_bet keeps r x differ (row ∷ rows) = elim (Bool-cases (str_eq row.1.id r.id)) [
    | inl this ↦
        let is_id : row.1.id ≡ r.id = (str_eq_iff row.1.id r.id).0 this in
        let skipped : str_eq row.1.id x ≡ false = ap (λ k. str_eq k x) is_id ∙ differ in
        let skipped_after : str_eq (set r row.1).id x ≡ false =
          ap (λ k. str_eq k x) (keeps r row.1) ∙ skipped in
        simp (this, skipped, skipped_after, has_bet-set_bet keeps r x differ rows)
    | inr other ↦ simp (other, has_bet-set_bet keeps r x differ rows)
  ]

  outcome_of_absent :
      (c : GameBet D) (rs : List (GameBet D)) → ¬ Mem c.id (ids rs) → outcome_of rs c ≡ c
  outcome_of_absent c [] fresh = refl
  outcome_of_absent c (r ∷ rs) fresh = elim (Bool-cases (str_eq c.id r.id)) [
    | inl same ↦ absurd (
        fresh
          (subst (λ k. Mem k (r.id ∷ ids rs)) (sym ((str_eq_iff c.id r.id).0 same)) mem-cons_self))
    | inr differ ↦ rw differ (outcome_of_absent c rs (λ m. fresh (mem-cons_of_mem r.id m)))
  ]

  outcome_of_first :
      KeepsBetId
      → (r : GameBet D) (rs : List (GameBet D)) → ¬ Mem r.id (ids rs)
      → (b : GameBet D)
      → outcome_of rs (if str_eq b.id r.id then set r b else b) ≡ outcome_of (r ∷ rs) b
  outcome_of_first keeps r rs fresh b = elim (Bool-cases (str_eq b.id r.id)) [
    | inl same ↦
        let is_id : (set r b).id ≡ r.id = keeps r b ∙ (str_eq_iff b.id r.id).0 same in
        rw same (outcome_of_absent (set r b) rs (λ m. fresh (subst (λ k. Mem k (ids rs)) is_id m)))
    | inr differ ↦ rw differ refl
  ]

  set_outcomes_first :
      KeepsBetId
      → (r : GameBet D) (rs : List (GameBet D)) → ¬ Mem r.id (ids rs)
      → (rows : List (BetRow D))
      → set_outcomes rs (set_bet r.id (set r) rows) ≡ set_outcomes (r ∷ rs) rows
  set_outcomes_first keeps r rs fresh [] = refl
  set_outcomes_first keeps r rs fresh (row ∷ rows) =
      let first = outcome_of_first keeps r rs fresh row.1 in
      let rest = set_outcomes_first keeps r rs fresh rows in
      ap (λ b. (row.0, b) ∷ set_outcomes rs (set_bet r.id (set r) rows)) first
      ∙ ap (λ l. (row.0, outcome_of (r ∷ rs) row.1) ∷ l) rest

module _ {S D : Type 0} (db : Tables S D) (store : IsStore db)
    (set : GameBet D → GameBet D → GameBet D) where
  -- the state after all moves
  abbrev pub AreClosed : List (GameBet D) → S → Result (Unit {0}) × S → Type 0
  AreClosed rs s r =
      (r.0 ≡ ok tt) × (db.bets r.1 ≡ set_outcomes set rs (db.bets s)) × (db.games r.1 ≡ db.games s)

  -- If the bets of all resolved bets are pending, under different ids, all of them are moved.
  pub close_each-AreClosed :
      KeepsBetId set
      → (rs : List (GameBet D)) (s : S) → Nodup (ids rs)
      → AllPending rs (db.bets s)
      → AreClosed rs s (close_each db set rs s)
  unfolding close_each move_bet_to_close_state update_bet ◌>>=◌
  close_each-AreClosed keeps [] s distinct all_pending = (refl, sym (same_rows (db.bets s)), refl)
  close_each-AreClosed keeps (r ∷ rs) s distinct all_pending =
      let (fresh, others) = Nodup-cons.0 distinct in
      let next = db.write_bets (set_bet r.id (set r) (db.bets s)) s in
      let written = store.bets-write_bets (set_bet r.id (set r) (db.bets s)) s in
      let still : AllPending rs (db.bets next) = λ x m. rw written (
        has_bet-set_bet set keeps r x (differ_of_fresh r.id x rs fresh m) (db.bets s)
        ∙ all_pending x (mem-cons_of_mem r.id m)) in
      let (returns, moved, kept) = close_each-AreClosed keeps rs next others still in
      rw (all_pending r.id mem-cons_self) (
        returns,
        moved
            ∙ ap (set_outcomes set rs) written
            ∙ set_outcomes_first set keeps r rs fresh (db.bets s),
        kept ∙ store.games-write_bets _ s,
      )

  -- If a resolved bet is not pending, the moves throw.
  pub close_each-late :
      KeepsBetId set
      → (rs : List (GameBet D)) (s : S) → Nodup (ids rs)
      → (late : String) → Mem late (ids rs)
      → has_bet late is_bet_pending (db.bets s) ≡ false
      → (close_each db set rs s).0 ≡ err record_not_found
  unfolding close_each move_bet_to_close_state update_bet ◌>>=◌
  close_each-late keeps [] s distinct late m not_pending = absurd (not-mem-nil m)
  close_each-late keeps (r ∷ rs) s distinct late m not_pending =
      let (fresh, others) = Nodup-cons.0 distinct in
      let next = db.write_bets (set_bet r.id (set r) (db.bets s)) s in
      let written = store.bets-write_bets (set_bet r.id (set r) (db.bets s)) s in
      elim (Bool-cases (has_bet r.id is_bet_pending (db.bets s))) [
        | inr this ↦ rw this refl
        | inl found ↦
            let later =
              Or.elim Mem-prop (mem-cons.0 m)
                (λ e. absurd (
                  both_differ (
                    sym found
                    ∙ ap (λ k. has_bet k is_bet_pending (db.bets s)) (sym e)
                    ∙ not_pending)))
                (λ n. n) in
            rw found (
              close_each-late keeps rs next others late later (
                rw written (
                  has_bet-set_bet set keeps r late (differ_of_fresh r.id late rs fresh later)
                    (db.bets s)
                  ∙ not_pending)))
      ]
