-- ===== src/Rounds/X1000/Quiet.antt =====
-- That the workers of x1000 games, and `cashOut`, open no bets (apps/x1000 and apps/x1000-worker).
use backend_showcase.Prelude.{
  ◌≡◌, refl, String, false, Option, none, some, List, [], ◌∷◌, filter, inl, inr, Bool-cases, arith,
  str_eq,
}
use backend_showcase.Decimal.{Decimal}
use backend_showcase.Ledger.Result.{Result, ok, err}
use backend_showcase.Games.Bet.{BetResult}
use backend_showcase.Games.X1000.{
  X1000Bet, X1000Game, ResolvedBet, get_x1000_game_result, resolve_x1000, resolve_priced,
  reject_unpriced,
}
use backend_showcase.Rounds.Tables.{is_listed}
use backend_showcase.Rounds.X1000.{
  X1000BetRow, X1000Tables, IsX1000Store, ChargeBet, is_opened, find_in_progress, take_out,
  cash_out_found, cash_out, cashed_out,
}
use backend_showcase.Rounds.X1000.Worker.{
  PayFee, is_triggered, end_bet, on_asset_price_changed, game_asset, games_of, cancel, cancel_bets,
  take_commission_of, take_commission_from_bet, after_cancel, after_fee,
}
use backend_showcase.Rounds.X1000.Resolver.{
  with_resolved, close_row, close_x1000, close_result, close_found,
}
use backend_showcase.Rounds.X1000.Triggered.{end_triggered-bets}
use backend_showcase.Rounds.X1000.Answers.{LeavesBets}
use backend_showcase.Rounds.X1000.Single.{
  NeverOpens-if, IsQuieter, StaysQuiet, IsQuieter-trans, IsQuieter-refl, IsQuieter-same,
  IsQuieter-map, transaction-StaysQuiet, bind-StaysQuiet, update_bet-StaysQuiet,
  update_game-StaysQuiet,
}

module _ {D : Type 0} ⦃dec : Decimal D⦄ where
  -- a result that opens no bet
  abbrev Closes : Result (ResolvedBet D) → Type 0
  Closes (err e) = Unit
  Closes (ok resolved) = is_opened resolved.result ≡ false

  resolve-closed :
      (fee : D) (bet : X1000Bet D) (start_price end_price : Option D)
      → is_opened (resolve_x1000 fee bet start_price end_price).result ≡ false
  unfolding resolve_x1000 resolve_priced reject_unpriced
  resolve-closed fee bet none end_price = refl
  resolve-closed fee bet (some start_price) none = refl
  resolve-closed fee bet (some start_price) (some end_price) = ground arith

  get_result-Closes : (fee : D) (game : X1000Game D) → Closes (get_x1000_game_result game fee)
  unfolding get_x1000_game_result
  get_result-Closes fee game = by_bets game.bets
    where
      by_bets :
          (bets : List (X1000Bet D))
          → Closes (get_x1000_game_result (record game { bets = bets }) fee)
      by_bets [] = tt
      by_bets (bet ∷ bets) = resolve-closed fee bet game.start_price game.end_price

module _ {S D : Type 0} ⦃dec : Decimal D⦄ (db : X1000Tables S D) (store : IsX1000Store db)
    (flat_fee hourly_fee platform_fee : D) (charge_bet : ChargeBet S D) (pay_fee : PayFee S D) where
  pub cash_out-quiet :
      (user game_id : String) (price : D) (s : S)
      → IsQuieter db s (cash_out db user game_id price s).1
  unfolding cash_out take_out
  cash_out-quiet user game_id price s = by_bet (find_in_progress game_id (db.bets s))
    where
      answered :
          (r : Result (Unit {0}) × S) → IsQuieter db s r.1 → IsQuieter db s (cashed_out db r).1
      answered (ok done, t) h = h
      answered (err e, t) h = h

      by_bet : (o : Option (X1000BetRow D)) → IsQuieter db s (cash_out_found db price o s).1
      by_bet none = IsQuieter-refl db s
      by_bet (some found) = answered (take_out db price found s) (
          transaction-StaysQuiet db _
            (bind-StaysQuiet db _ _
              (update_bet-StaysQuiet db store found.bet.id _ (λ row. (refl, inl refl)))
              (λ moved. update_game-StaysQuiet db store found.game_id _))
            s)

  pub price-quiet :
      (asset_id : String) (price : D) (s : S)
      → IsQuieter db s (on_asset_price_changed db asset_id price s)
  unfolding on_asset_price_changed
  price-quiet asset_id price s = elim (Bool-cases (str_eq asset_id game_asset)) [
    | inr other ↦ rw other (IsQuieter-refl db s)
    | inl this ↦ rw this (
        let ids = games_of (filter (is_triggered price) (db.bets s)) in
        IsQuieter-map db _ s _
          (NeverOpens-if (λ row. is_listed row.game_id ids) (end_bet price)
            (λ row. (refl, inl refl)))
          (end_triggered-bets db store price ids s))
  ]

  close_result-quiet :
      (id : String) (r : Result (ResolvedBet D)) → Closes r → StaysQuiet db (close_result db id r)
  unfolding close_x1000
  close_result-quiet id (err e) closes s = IsQuieter-refl db s
  close_result-quiet id (ok resolved) closes s =
      transaction-StaysQuiet db _
        (bind-StaysQuiet db _ _ (update_game-StaysQuiet db store id close_row) (λ closed.
          update_bet-StaysQuiet db store resolved.bet.id (with_resolved resolved)
            (λ row. (refl, inl closes))))
        s

  pub close_found-quiet :
      (games : List (String × X1000Game D)) → StaysQuiet db (close_found db platform_fee games)
  unfolding close_found
  close_found-quiet [] s = IsQuieter-refl db s
  close_found-quiet ((id, game) ∷ games) s =
      bind-StaysQuiet db _ _
        (close_result-quiet id (get_x1000_game_result game platform_fee)
          (get_result-Closes platform_fee game))
        (λ closed. close_found-quiet games) s

  cancel-quiet : (game_id : String) → StaysQuiet db (cancel db game_id)
  unfolding cancel
  cancel-quiet game_id = transaction-StaysQuiet db _ (λ s.
      IsQuieter-trans db s (db.write_bets (cancel_bets game_id (db.bets s)) s) _
        (IsQuieter-map db _ s _
          (NeverOpens-if (λ row. str_eq row.game_id game_id)
            (λ row. record row { result = BetResult.pending }) (λ row. (refl, inl refl)))
          (store.bets-write_bets _ s))
        (update_game-StaysQuiet db store game_id _ _))

  pub fee-quiet :
      LeavesBets db charge_bet pay_fee
      → (game_id : String) (s : S)
      → IsQuieter db s (take_commission_from_bet db hourly_fee pay_fee game_id [] s).tables
  unfolding take_commission_from_bet
  fee-quiet leaves game_id s = by_bet (find_in_progress game_id (db.bets s))
    where
      cancelled :
          (r : Result (Unit {0}) × S)
          → IsQuieter db s r.1
          → IsQuieter db s (after_cancel db game_id [] r).tables
      cancelled (ok done, t) h = h
      cancelled (err e, t) h = h

      paid :
          (r : Result (Unit {0}) × S)
          → IsQuieter db s r.1
          → IsQuieter db s (after_fee db game_id [] r).tables
      paid (ok done, t) h = h
      paid (err e, t) h =
          cancelled (cancel db game_id t) (IsQuieter-trans db s t _ h (cancel-quiet game_id t))

      by_bet :
          (o : Option (X1000BetRow D))
          → IsQuieter db s (take_commission_of db hourly_fee pay_fee game_id [] o s).tables
      by_bet none = IsQuieter-refl db s
      by_bet (some row) = paid _ (
          transaction-StaysQuiet db
            (pay_fee row.bet.owner_id (dec.mul row.bet.amount hourly_fee) row.game_id)
            (λ t. IsQuieter-same db t _ (leaves.1 _ _ _ t)) s)
