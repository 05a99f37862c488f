-- ===== src/Rounds/Setup/Heap/Decided.antt =====
-- What a setup that the heap selects at a price is resolved as
-- (apps/setups-worker/src/modules/games-finalizer/getSetupGameResult.helper.ts).
use mathlib.Core.Path.{subst}
use backend_showcase.Prelude.{
  ℕ, Bool, true, false, ◌||◌, ◌≡◌, ◌≢◌, refl, sym, ◌∙◌, some, List, inl, inr, Bool-cases, arith,
}
use backend_showcase.Prelude.Int.{ℤ, ltb_ℤ, ◌≤ℤ◌}
use backend_showcase.Decimal.{Decimal}
use backend_showcase.Decimal.Exact.{IsExact, units}
use backend_showcase.Games.Bet.{GameBet}
use backend_showcase.Games.UpDown.{all_same_side}
use backend_showcase.Games.Setup.{SetupResult, get_setup_game_result}
use backend_showcase.Games.Setup.Direction.{IsReached, get_setup_game_result-IsJust}
use backend_showcase.Ledger.GamesRewards.{GameState}
use backend_showcase.Rounds.Tables.{Round}
use backend_showcase.Rounds.Setup.{with_bets}
use backend_showcase.Rounds.Setup.Worker.{item_of}
use backend_showcase.Rounds.Setup.Heap.{HeapItem, is_reached, is_due}

-- the test of the heap by the units of the prices
reached : Bool → ℤ → ℤ → ℤ → Bool
reached true e profit stop = ltb_ℤ profit e || ltb_ℤ e stop
reached false e profit stop = ltb_ℤ stop e || ltb_ℤ e profit

not_above : (a b : ℤ) → ltb_ℤ a b ≡ false → b ≤ℤ a
not_above a b h = ground arith

not_both : (a b : ℤ) → ltb_ℤ a b ≡ true → b ≤ℤ a → ⊥
not_both a b h back = ground arith

either_of :
    (a b c d : Bool)
    → (a || b) ≡ true
    → (a ≡ true → c ≡ true)
    → (b ≡ true → d ≡ true)
    → (c || d) ≡ true
either_of true b c d h left right = rw (left refl) refl
either_of false b c d h left right = rw (right h) (ground arith)

both_differ : true ≢ false
both_differ e = ground arith

reached-not_rejected :
    (long : Bool) (e profit stop : ℤ)
    → reached long e profit stop ≡ true
    → IsReached long SetupResult.rejected e profit stop
    → ⊥
unfolding reached
reached-not_rejected true e profit stop h r = ground arith
reached-not_rejected false e profit stop h r = ground arith

module _ {D : Type 0} where
  -- The setup as it is stored when the price ends it.
  abbrev pub ended_at : D → Round D → Round D
  ended_at price game = record game { state = GameState.pending; end_price = some price }

module _ {D : Type 0} {dec : Decimal D} (exact : IsExact dec) where
  -- The conversion to a double keeps the order.
  abbrev pub IsMonotone : Type 0
  IsMonotone =
      (a b : D)
      → exact.units a ≤ℤ exact.units b
      → exact.units (dec.to_number a) ≤ℤ exact.units (dec.to_number b)

module _ {D : Type 0} ⦃dec : Decimal D⦄ ⦃exact : IsExact dec⦄ where
  is_reached-units :
      (long : Bool) (e profit stop : D)
      → is_reached long profit stop e ≡ reached long (units e) (units profit) (units stop)
  unfolding is_reached reached
  is_reached-units true e profit stop =
      rw (exact.less_than-eq profit e, exact.less_than-eq e stop) refl
  is_reached-units false e profit stop =
      rw (exact.less_than-eq stop e, exact.less_than-eq e profit) refl

  due-reached :
      (price : D) (t : ℕ) (item : HeapItem D)
      → is_due price t item ≡ true
      → is_reached item.is_long item.take_profit item.stop_loss price ≡ true
  unfolding is_due
  due-reached price t item due = ground arith

  -- A double that is beyond the double of a decimal is beyond the decimal.
  above_number :
      IsMonotone exact
      → (price x : D) → dec.to_number price ≡ price
      → ltb_ℤ (units (dec.to_number x)) (units price) ≡ true
      → ltb_ℤ (units x) (units price) ≡ true
  above_number monotone price x double above = elim (Bool-cases (ltb_ℤ (units x) (units price))) [
    | inl beyond ↦ beyond
    | inr short ↦
        let back : units price ≤ℤ units (dec.to_number x) =
          subst (λ p. units p ≤ℤ units (dec.to_number x)) double
            (monotone price x (not_above (units x) (units price) short)) in
        absurd (not_both (units (dec.to_number x)) (units price) above back)
  ]

  below_number :
      IsMonotone exact
      → (price x : D) → dec.to_number price ≡ price
      → ltb_ℤ (units price) (units (dec.to_number x)) ≡ true
      → ltb_ℤ (units price) (units x) ≡ true
  below_number monotone price x double below = elim (Bool-cases (ltb_ℤ (units price) (units x))) [
    | inl beyond ↦ beyond
    | inr short ↦
        let back : units (dec.to_number x) ≤ℤ units price =
          subst (λ p. units (dec.to_number x) ≤ℤ units p) double
            (monotone x price (not_above (units price) (units x) short)) in
        absurd (not_both (units price) (units (dec.to_number x)) below back)
  ]

  reached-number :
      IsMonotone exact
      → (long : Bool) (price profit stop : D) → dec.to_number price ≡ price
      → reached long (units price) (units (dec.to_number profit)) (units (dec.to_number stop))
        ≡ true
      → reached long (units price) (units profit) (units stop) ≡ true
  unfolding reached
  reached-number monotone true price profit stop double hit =
      either_of _ _ _ _ hit (above_number monotone price profit double)
        (below_number monotone price stop double)
  reached-number monotone false price profit stop double hit =
      either_of _ _ _ _ hit (above_number monotone price stop double)
        (below_number monotone price profit double)

  -- A setup that waits in the heap, where its limits are doubles, and that the heap selects at a double
  -- as the price, is not rejected by its results, which go by its limits as they are stored, if it has
  -- bets on both sides. (The conversion to a double keeps the order.)
  pub get_games_by_price-decided :
      (price : D) (timestamp : ℕ) (game : Round D) (platform_fee : D) (bets : List (GameBet D))
      → IsMonotone exact
      → dec.to_number price ≡ price
      → is_due price timestamp (item_of game) ≡ true
      → all_same_side bets ≡ false
      → (get_setup_game_result (with_bets platform_fee (ended_at price game) bets)).result
        ≢ SetupResult.rejected
  get_games_by_price-decided price timestamp game platform_fee bets monotone double due both =
      let setup = with_bets platform_fee (ended_at price game) bets in
      let hit = reached-number monotone game.is_long price game.take_profit game.stop_loss double (
        sym (
          is_reached-units game.is_long price (dec.to_number game.take_profit)
            (dec.to_number game.stop_loss))
        ∙ due-reached price timestamp (item_of game) due) in
      elim (get_setup_game_result-IsJust setup price refl) [
        | inl (same, rejected) ↦ absurd (both_differ (sym same ∙ both))
        | inr just ↦ λ rejected.
            reached-not_rejected game.is_long (units price) (units game.take_profit)
              (units game.stop_loss) hit (rw rejected at just)
      ]
