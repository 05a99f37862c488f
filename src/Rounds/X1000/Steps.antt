-- ===== src/Rounds/X1000/Steps.antt =====
-- Everything that the service and the workers of x1000 games do with the bets, as steps in any order
-- (apps/x1000 and apps/x1000-worker).
use backend_showcase.Prelude.{
  ◌≡◌, sym, ◌∙◌, ap, String, true, Option, none, some, [], inl, inr, Bool-cases, arith, ltb, str_eq,
  str_eq_iff,
}
use backend_showcase.Decimal.{Decimal}
use backend_showcase.Rounds.X1000.{
  X1000Tables, IsX1000Store, CreateBetParams, Refusal, ChargeBet, count_opened, place_checked,
  check_add_x1000_bet_params, add_bet, cash_out,
}
use backend_showcase.Rounds.X1000.Worker.{PayFee, on_asset_price_changed, take_commission_from_bet}
use backend_showcase.Rounds.X1000.Resolver.{found_pending, handle}
use backend_showcase.Rounds.X1000.Placed.{place-cases}
use backend_showcase.Rounds.X1000.Answers.{LeavesBets}
use backend_showcase.Rounds.X1000.Single.{IsSingle}
use backend_showcase.Rounds.X1000.Quiet.{cash_out-quiet, price-quiet, close_found-quiet, fee-quiet}

-- A step, with what comes from outside: requests, prices and jobs.
pub data X1000Step (D : Type 0) : Type 0 where
  add : CreateBetParams D → D → X1000Step D
  take_cash : String → String → D → X1000Step D
  price_changed : String → D → X1000Step D
  resolve : X1000Step D
  take_fee : String → X1000Step D

module _ {S D : Type 0} ⦃dec : Decimal D⦄ (db : X1000Tables S D)
    (flat_fee hourly_fee platform_fee : D) (charge_bet : ChargeBet S D) (pay_fee : PayFee S D) where
  unfoldable pub perform_x1000 : X1000Step D → S → S
  perform_x1000 (add params price) s = (add_bet db flat_fee charge_bet params price s).1
  perform_x1000 (take_cash user_id game_id price) s = (cash_out db user_id game_id price s).1
  perform_x1000 (price_changed asset_id price) s = on_asset_price_changed db asset_id price s
  perform_x1000 resolve s = handle db platform_fee s
  perform_x1000 (take_fee game_id) s =
      (take_commission_from_bet db hourly_fee pay_fee game_id [] s).tables

  pub data ReachX1000 (s : S) : S → Type 0 where
    start : ReachX1000 s s
    then_step : {t : S} → ReachX1000 s t → (c : X1000Step D) → ReachX1000 s (perform_x1000 c t)

module _ {S D : Type 0} ⦃dec : Decimal D⦄ (db : X1000Tables S D) (store : IsX1000Store db)
    (flat_fee hourly_fee platform_fee : D) (charge_bet : ChargeBet S D) (pay_fee : PayFee S D) where
  add_bet-IsSingle :
      LeavesBets db charge_bet pay_fee
      → (params : CreateBetParams D) (price : D) (s : S) → IsSingle db s
      → IsSingle db (add_bet db flat_fee charge_bet params price s).1
  unfolding add_bet
  add_bet-IsSingle leaves params price s single =
      elim (Bool-cases (ltb (count_opened params.user_id (db.bets s)) 1)) [
        | inr many ↦ rw many single
        | inl none_open ↦ rw none_open (
            by_check (dec.to_number price) (check_add_x1000_bet_params params (dec.to_number price))
              none_open)
      ]
    where
      by_check :
          (start_price : D) (refusal : Option Refusal)
          → ltb (count_opened params.user_id (db.bets s)) 1 ≡ true
          → IsSingle db (place_checked db flat_fee charge_bet params start_price refusal s).1
      by_check start_price (some refusal) none_open user = single user
      by_check start_price none none_open user =
          elim (place-cases db store flat_fee charge_bet pay_fee leaves params start_price s) [
            | inl (e, thrown) ↦ rw thrown (single user)
            | inr (t, returned, rows) ↦ rw returned (
                rw rows (elim (Bool-cases (str_eq params.user_id user)) [
                  | inl this ↦ rw this (
                      let same = (str_eq_iff params.user_id user).0 this in
                      let none_left : ltb (count_opened user (db.bets s)) 1 ≡ true =
                        ap (λ k. ltb (count_opened k (db.bets s)) 1) (sym same) ∙ none_open in
                      ground arith)
                  | inr other ↦ rw other (single user)
                ]))
          ]

  perform-IsSingle :
      LeavesBets db charge_bet pay_fee
      → (c : X1000Step D) (s : S) → IsSingle db s
      → IsSingle db (perform_x1000 db flat_fee hourly_fee platform_fee charge_bet pay_fee c s)
  unfolding perform_x1000 handle
  perform-IsSingle leaves (add params price) s single user =
      add_bet-IsSingle leaves params price s single user
  perform-IsSingle leaves (take_cash user_id game_id price) s single user = omega (
    arith,
    cash_out-quiet db store flat_fee hourly_fee platform_fee charge_bet pay_fee user_id game_id
        price s user,
    single user,
  )
  perform-IsSingle leaves (price_changed asset_id price) s single user = omega (
    arith,
    price-quiet db store flat_fee hourly_fee platform_fee charge_bet pay_fee asset_id price s user,
    single user,
  )
  perform-IsSingle leaves resolve s single user = omega (
    arith,
    close_found-quiet db store flat_fee hourly_fee platform_fee charge_bet pay_fee
        (found_pending db s) s user,
    single user,
  )
  perform-IsSingle leaves (take_fee game_id) s single user = omega (
    arith,
    fee-quiet db store flat_fee hourly_fee platform_fee charge_bet pay_fee leaves game_id s user,
    single user,
  )

  -- If the ledger leaves the bets alone, then from a database where no user has two open bets, whatever
  -- requests, prices, hourly fees and runs of the resolver come, each handled before the next, no user
  -- ever has two open bets.
  pub ReachX1000-IsSingle :
      {s t : S}
      → LeavesBets db charge_bet pay_fee
      → IsSingle db s
      → ReachX1000 db flat_fee hourly_fee platform_fee charge_bet pay_fee s t
      → IsSingle db t
  ReachX1000-IsSingle leaves single start = single
  ReachX1000-IsSingle leaves single (then_step {t} reached c) =
      perform-IsSingle leaves c t (ReachX1000-IsSingle leaves single reached)
