-- ===== src/Rounds/X1000/Placed.antt =====
-- What `addBet` (apps/x1000/src/module/game/services/x1000Bets.service.ts) writes.
use backend_showcase.Prelude.{
  ◌≡◌, refl, sym, true, ◌∙◌, ap, String, Bool, false, Option, none, some, ◌∷◌, inl, inr, Bool-cases,
  arith, ltb, if◌then◌else◌,
}
use backend_showcase.Decimal.{Decimal, greater_than_or_equal_to}
use backend_showcase.Ledger.Result.{Result, ok, err}
use backend_showcase.Ledger.Action.{pure, in_transaction, resume, roll_back, ◌>>=◌}
use backend_showcase.Rounds.X1000.{
  X1000Tables, IsX1000Store, CreateBetParams, Refusal, accepted, invalid_take_profit,
  invalid_stop_loss, ChargeBet, is_set_and, check_add_x1000_bet_params, new_x1000_bet, place,
  place_checked, add_bet, answer_of, refused, too_many_games, count_opened,
}
use backend_showcase.Rounds.X1000.Answers.{
  LeavesBets, game_placed, with_game, bet_placed, IsPlaced, charge_of, IsAllowed, IsAnswered,
}
use backend_showcase.Rounds.X1000.Worker.{
  PayFee, leaves_range, is_burned, is_triggered, is_at_most, is_at_least,
}

-- no error
unrefused :
    (bad_profit bad_loss : Bool)
    → (if bad_loss
        then some invalid_stop_loss
        else if bad_profit
        then some invalid_take_profit
        else none)
      ≡ none
    → (bad_profit ≡ false) × (bad_loss ≡ false)
unrefused bad_profit bad_loss h = ground arith

module _ {D : Type 0} ⦃dec : Decimal D⦄ where
  -- a limit that is not there, or not 0
  abbrev pub IsGiven : Option D → Type 0
  IsGiven none = Unit
  IsGiven (some x) = dec.equals x (dec.from_ℕ 0) ≡ false

  at_most-unset :
      (o : Option D) (price : D)
      → IsGiven o
      → is_set_and o (λ x. dec.less_than_or_equal_to x price) ≡ false
      → is_at_most o price ≡ false
  unfolding is_set_and is_at_most
  at_most-unset none price given unset = refl
  at_most-unset (some x) price given unset = ground arith

  at_least-unset :
      (o : Option D) (price : D)
      → IsGiven o
      → is_set_and o (λ x. greater_than_or_equal_to x price) ≡ false
      → is_at_least o price ≡ false
  unfolding is_set_and is_at_least
  at_least-unset none price given unset = refl
  at_least-unset (some x) price given unset = ground arith

  placed-inside :
      (flat_fee : D) (params : CreateBetParams D) (price : D) (game_id id : String)
      → IsGiven params.take_profit
      → IsGiven params.stop_loss
      → check_add_x1000_bet_params params price ≡ none
      → leaves_range price (new_x1000_bet flat_fee params price game_id id) ≡ false
  unfolding leaves_range check_add_x1000_bet_params
  placed-inside flat_fee params price game_id id profit loss checked =
      let (no_profit, no_loss) = unrefused _ _ checked in
      elim (Bool-cases params.is_long) [
        | inl long ↦ rw long (
            rw
              (
                at_most-unset params.take_profit price profit (rw long at no_profit),
                at_least-unset params.stop_loss price loss (rw long at no_loss),
              )
              refl)
        | inr short ↦ rw short (
            rw
              (
                at_least-unset params.take_profit price profit (rw short at no_profit),
                at_most-unset params.stop_loss price loss (rw short at no_loss),
              )
              refl)
      ]

module _ {S D : Type 0} ⦃dec : Decimal D⦄ (db : X1000Tables S D) (store : IsX1000Store db)
    (flat_fee : D) (charge_bet : ChargeBet S D) where
  -- the transaction, by what the ledger does in it
  pub place-charge_of :
      (params : CreateBetParams D) (price : D) (s : S)
      → place db flat_fee charge_bet params price s
        ≡ roll_back s (
            resume
              (charge_of db flat_fee charge_bet params price s).0
              (λ charged. pure (game_placed db flat_fee params price s))
              (charge_of db flat_fee charge_bet params price s).1)
  unfolding place in_transaction ◌>>=◌
  place-charge_of params price s = refl

  answered :
      (params : CreateBetParams D) (price : D) (s : S)
      → IsAllowed db flat_fee charge_bet params price s
      → (db.bets (charge_of db flat_fee charge_bet params price s).1
          ≡ bet_placed db flat_fee params price s ∷ db.bets s)
      → (is_triggered price (bet_placed db flat_fee params price s)
          ≡ is_burned price (bet_placed db flat_fee params price s))
      → (r : Result (Unit {0}) × S) → charge_of db flat_fee charge_bet params price s ≡ r
      → IsAnswered db flat_fee charge_bet params price s (
          answer_of db flat_fee charge_bet (
            roll_back s
              (resume r.0 (λ charged. pure (game_placed db flat_fee params price s)) r.1)))
  unfolding ◌>>=◌
  answered params price s allowed rows inside (ok done, t) charged =
      let accepted_there =
        ap (λ t. (accepted (game_placed db flat_fee params price s), t))
          (sym (ap (λ r. r.1) charged)) in
      inr (
        inr (
          inr (
            allowed,
            ap (λ r. r.0) charged,
            (accepted_there, sym (ap (λ r. db.bets r.1) charged) ∙ rows, inside),
          )))
  answered params price s allowed rows inside (err e, t) charged =
      inr (inr (inl (e, allowed, ap (λ r. r.0) charged, (refl, refl, refl))))

  -- `addBet` when no bet of the user is open, and when one is
  add_bet-none_open :
      (params : CreateBetParams D) (current_price : D) (s : S)
      → ltb (count_opened params.user_id (db.bets s)) 1 ≡ true
      → add_bet db flat_fee charge_bet params current_price s
        ≡ place_checked db flat_fee charge_bet params
            (dec.to_number current_price)
            (check_add_x1000_bet_params params (dec.to_number current_price))
            s
  unfolding add_bet
  add_bet-none_open params current_price s none_open = rw none_open refl

  add_bet-one_open :
      (params : CreateBetParams D) (current_price : D) (s : S)
      → ltb (count_opened params.user_id (db.bets s)) 1 ≡ false
      → add_bet db flat_fee charge_bet params current_price s ≡ (refused too_many_games, s)
  unfolding add_bet
  add_bet-one_open params current_price s one_open = rw one_open refl

module _ {S D : Type 0} ⦃dec : Decimal D⦄ (db : X1000Tables S D) (store : IsX1000Store db)
    (flat_fee : D) (charge_bet : ChargeBet S D) (pay_fee : PayFee S D) where
  charge_of-bets :
      LeavesBets db charge_bet pay_fee
      → (params : CreateBetParams D) (price : D) (s : S)
      → db.bets (charge_of db flat_fee charge_bet params price s).1
        ≡ bet_placed db flat_fee params price s ∷ db.bets s
  charge_of-bets leaves params price s =
      let mid = with_game db flat_fee params price s in
      let row = bet_placed db flat_fee params price s in
      leaves.0 _ _ _ _ (db.write_bets (row ∷ db.bets mid) mid)
      ∙ store.bets-write_bets (row ∷ db.bets mid) mid
      ∙ ap (λ l. row ∷ l)
          (store.bets-write_games (game_placed db flat_fee params price s ∷ db.games s) s)

  -- Nothing is written, or the row of the bet.
  pub place-cases :
      LeavesBets db charge_bet pay_fee
      → (params : CreateBetParams D) (price : D) (s : S)
      → IsPlaced db flat_fee params price s (place db flat_fee charge_bet params price s)
  unfolding ◌>>=◌
  place-cases leaves params price s =
      rw (place-charge_of db store flat_fee charge_bet params price s) (
        by_charge (charge_of db flat_fee charge_bet params price s)
          (charge_of-bets leaves params price s))
    where
      by_charge :
          (r : Result (Unit {0}) × S)
          → db.bets r.1 ≡ bet_placed db flat_fee params price s ∷ db.bets s
          → IsPlaced db flat_fee params price s (
              roll_back s
                (resume r.0 (λ charged. pure (game_placed db flat_fee params price s)) r.1))
      by_charge (ok done, t) rows = inr (t, refl, rows)
      by_charge (err e, t) rows = inl (e, refl)

  -- A request for a bet whose limits are not 0 has one of four answers, if the ledger leaves the bets
  -- alone. It is refused, with the database as it was, because the user has an open bet; or, when
  -- there is none, because a limit is on the wrong side of the current price; or, when both tests are
  -- passed and the ledger throws at the charge, with this error and the games and bets as they were.
  -- When both tests are passed and the ledger charges the user, it is accepted: the state is what the
  -- ledger leaves, the bet is written before the others, and at the price at which it starts it does
  -- not reach its limits, so that this price ends it only by its burn price.
  pub add_bet_lem :
      (params : CreateBetParams D) (current_price : D) (s : S)
      → LeavesBets db charge_bet pay_fee
      → IsGiven params.take_profit
      → IsGiven params.stop_loss
      → IsAnswered db flat_fee charge_bet params
          (dec.to_number current_price)
          s
          (add_bet db flat_fee charge_bet params current_price s)
  unfolding is_triggered
  add_bet_lem params current_price s leaves profit loss =
      elim (Bool-cases (ltb (count_opened params.user_id (db.bets s)) 1)) [
        | inr many ↦
            inl (many, add_bet-one_open db store flat_fee charge_bet params current_price s many)
        | inl none_open ↦
            rw (add_bet-none_open db store flat_fee charge_bet params current_price s none_open) (
              by_check none_open (check_add_x1000_bet_params params (dec.to_number current_price))
                refl)
      ]
    where
      by_check :
          ltb (count_opened params.user_id (db.bets s)) 1 ≡ true
          → (refusal : Option Refusal)
          → check_add_x1000_bet_params params (dec.to_number current_price) ≡ refusal
          → IsAnswered db flat_fee charge_bet params
              (dec.to_number current_price)
              s
              (place_checked db flat_fee charge_bet params (dec.to_number current_price) refusal s)
      by_check none_open (some reason) checked = inr (inl (reason, none_open, checked, refl))
      by_check none_open none checked =
          let price = dec.to_number current_price in
          let inside =
            placed-inside flat_fee params price (db.new_id s)
              (db.new_id (with_game db flat_fee params price s)) profit loss checked in
          rw (place-charge_of db store flat_fee charge_bet params price s) (
            answered db store flat_fee charge_bet params price s (none_open, checked)
              (charge_of-bets leaves params price s) (rw inside refl)
              (charge_of db flat_fee charge_bet params price s) refl)
