-- ===== src/Rounds/X1000/Answers.antt =====
-- The answers of `addBet` (apps/x1000/src/module/game/services/x1000Bets.service.ts), each with its
-- condition, in terms of the tables and the ledger.
use backend_showcase.Prelude.{◌≡◌, ◌⊎◌, true, String, false, none, some, ◌∷◌, ltb}
use backend_showcase.Decimal.{Decimal}
use backend_showcase.Ledger.Result.{LedgerError, Result, ok, err}
use backend_showcase.Rounds.X1000.{
  X1000Row, X1000BetRow, X1000Tables, CreateBetParams, Answer, Refusal, accepted, ChargeBet,
  check_add_x1000_bet_params, new_x1000_game, new_x1000_bet, get_fee_amount, refused,
  too_many_games, failed, count_opened,
}
use backend_showcase.Rounds.X1000.Worker.{PayFee, is_burned, is_triggered}

module _ {S D : Type 0} (db : X1000Tables S D) (charge_bet : ChargeBet S D)
    (pay_fee : PayFee S D) where
  -- The ledger leaves the bets alone.
  abbrev pub LeavesBets : Type 0
  LeavesBets =
      ((user : String) (amount : D) (game_id bet_id : String) (s : S)
        → db.bets (charge_bet user amount game_id bet_id s).1 ≡ db.bets s)
      × ((user : String) (amount : D) (game_id : String) (s : S)
          → db.bets (pay_fee user amount game_id s).1 ≡ db.bets s)

module _ {S D : Type 0} ⦃dec : Decimal D⦄ (db : X1000Tables S D) (flat_fee : D) where
  -- the rows that `addBet` writes
  abbrev pub game_placed : CreateBetParams D → D → S → X1000Row D
  game_placed params start_price s = new_x1000_game params start_price (db.new_id s)

  abbrev pub with_game : CreateBetParams D → D → S → S
  with_game params start_price s = db.write_games (game_placed params start_price s ∷ db.games s) s

  abbrev pub bet_placed : CreateBetParams D → D → S → X1000BetRow D
  bet_placed params start_price s =
      new_x1000_bet flat_fee params start_price (db.new_id s)
        (db.new_id (with_game params start_price s))

  abbrev pub IsPlaced : CreateBetParams D → D → S → Result (X1000Row D) × S → Type 0
  IsPlaced params price s r =
      ((e : LedgerError) × (r ≡ (err e, s)))
      ⊎ ((t : S) × (r ≡ (ok (game_placed params price s), t))
          × (db.bets t ≡ bet_placed params price s ∷ db.bets s))

module _ {S D : Type 0} ⦃dec : Decimal D⦄ (db : X1000Tables S D) (flat_fee : D)
    (charge_bet : ChargeBet S D) where
  -- what the ledger does with the amount and the fee, once both rows are written
  abbrev pub charge_of : CreateBetParams D → D → S → Result (Unit {0}) × S
  charge_of params price s =
      let mid = with_game db flat_fee params price s in
      let row = bet_placed db flat_fee params price s in
      charge_bet params.user_id
        (dec.add (get_fee_amount flat_fee params.amount params.multiplier params.fee_type)
          params.amount)
        row.game_id row.bet.id (db.write_bets (row ∷ db.bets mid) mid)

  -- The user has no open bet, and the limits are on the right sides of the price.
  abbrev pub IsAllowed : CreateBetParams D → D → S → Type 0
  IsAllowed params price s =
      (ltb (count_opened params.user_id (db.bets s)) 1 ≡ true)
      × (check_add_x1000_bet_params params price ≡ none)

  -- The request is refused with the error of the ledger, and no game and no bet is written.
  abbrev pub IsUnpaid : LedgerError → S → Answer (X1000Row D) × S → Type 0
  IsUnpaid e s a =
      (a.0 ≡ refused (failed e)) × (db.games a.1 ≡ db.games s) × (db.bets a.1 ≡ db.bets s)

  -- The state is the one that the ledger leaves, the bet is written before the others, and a price
  -- equal to its start price ends it only if it burns it.
  abbrev pub IsAccepted : CreateBetParams D → D → S → Answer (X1000Row D) × S → Type 0
  IsAccepted params price s a =
      (a ≡ (accepted (game_placed db flat_fee params price s), (charge_of params price s).1))
      × (db.bets a.1 ≡ bet_placed db flat_fee params price s ∷ db.bets s)
      × (is_triggered price (bet_placed db flat_fee params price s)
          ≡ is_burned price (bet_placed db flat_fee params price s))

  -- the four answers to a request, each with the condition under which it is given
  abbrev pub IsAnswered : CreateBetParams D → D → S → Answer (X1000Row D) × S → Type 0
  IsAnswered params price s a =
      ((ltb (count_opened params.user_id (db.bets s)) 1 ≡ false)
        × (a ≡ (refused too_many_games, s)))
      ⊎ (((reason : Refusal) × (ltb (count_opened params.user_id (db.bets s)) 1 ≡ true)
            × (check_add_x1000_bet_params params price ≡ some reason)
            × (a ≡ (refused reason, s)))
          ⊎ (((e : LedgerError) × IsAllowed params price s
                × ((charge_of params price s).0 ≡ err e)
                × IsUnpaid e s a)
              ⊎ (IsAllowed params price s
                  × ((charge_of params price s).0 ≡ ok tt)
                  × IsAccepted params price s a)))
