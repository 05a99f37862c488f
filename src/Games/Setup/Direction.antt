-- ===== src/Games/Setup/Direction.antt =====
-- Which end of its range a setup has reached when it is resolved.
use backend_showcase.Prelude.{
  ◌≡◌, refl, sym, ◌∙◌, ap, Bool, true, false, ◌&&◌, ◌||◌, some, ◌⊎◌, inl, inr, Bool-cases, arith,
  if◌then◌else◌,
}
use backend_showcase.Prelude.Int.{ℤ, ◌≤ℤ◌, ltb_ℤ, leb_ℤ, eq_of_parts}
use backend_showcase.Decimal.{Decimal}
use backend_showcase.Decimal.Exact.{IsExact, units}
use backend_showcase.Games.UpDown.{all_same_side}
use backend_showcase.Games.Setup.{
  SetupGame, SetupResult, get_price_direction_result, is_between, is_game_rejected, rejected_setup,
  split_setup, resolve_setup, get_setup_game_result,
}

-- What each result says of the prices, in the smallest unit: end price, take profit, stop loss.
abbrev pub IsReached : Bool → SetupResult → ℤ → ℤ → ℤ → Type 0
IsReached true SetupResult.took_profit e profit stop = profit ≤ℤ e
IsReached true SetupResult.lost_stop e profit stop = e ≤ℤ stop
IsReached true SetupResult.rejected e profit stop = (¬ (profit ≤ℤ e)) × (¬ (e ≤ℤ stop))
IsReached false SetupResult.took_profit e profit stop = (e ≤ℤ profit) ⊎ (e ≡ stop)
IsReached false SetupResult.lost_stop e profit stop = ¬ (e ≤ℤ stop)
IsReached false SetupResult.rejected e profit stop = (¬ (e ≤ℤ profit)) × (¬ (stop ≤ℤ e))

-- the same, by the tests on the units
between : Bool → ℤ → ℤ → ℤ → Bool
between true e profit stop = ltb_ℤ e profit && ltb_ℤ stop e
between false e profit stop = ltb_ℤ profit e && ltb_ℤ e stop

direction : Bool → ℤ → ℤ → ℤ → Bool
direction true e profit stop = leb_ℤ profit e
direction false e profit stop = leb_ℤ e stop

between-IsReached :
    (long : Bool) (e profit stop : ℤ)
    → between long e profit stop ≡ true
    → IsReached long SetupResult.rejected e profit stop
unfolding between
between-IsReached true e profit stop h = ground arith
between-IsReached false e profit stop h = ground arith

direction-IsReached :
    (long : Bool) (e profit stop : ℤ) (b : Bool)
    → between long e profit stop ≡ false
    → direction long e profit stop ≡ b
    → IsReached long (if b then SetupResult.took_profit else SetupResult.lost_stop) e profit stop
unfolding between direction
direction-IsReached true e profit stop true h d = ground arith
direction-IsReached true e profit stop false h d = ground arith
direction-IsReached false e profit stop true h d = elim (Bool-cases (leb_ℤ e profit)) [
  | inl below ↦ inl (ground arith)
  | inr above ↦ inr (eq_of_parts e stop (ground arith))
]
direction-IsReached false e profit stop false h d = ground arith

or_false : (b : Bool) → (b || false) ≡ b
or_false true = refl
or_false false = refl

module _ {D : Type 0} ⦃dec : Decimal D⦄ ⦃exact : IsExact dec⦄ where
  is_between-units :
      (long : Bool) (e profit stop : D)
      → is_between long e profit stop ≡ between long (units e) (units profit) (units stop)
  unfolding is_between between
  is_between-units true e profit stop =
      rw (exact.less_than-eq e profit, exact.less_than-eq stop e) refl
  is_between-units false e profit stop =
      rw (exact.less_than-eq profit e, exact.less_than-eq e stop) refl

  direction-units :
      (long : Bool) (e profit stop : D)
      → get_price_direction_result long e profit stop
        ≡ direction long (units e) (units profit) (units stop)
  unfolding get_price_direction_result direction
  direction-units true e profit stop =
      rw (exact.less_than_or_equal_to-eq profit e) (or_false (leb_ℤ (units profit) (units e)))
  direction-units false e profit stop = rw (exact.less_than_or_equal_to-eq e stop) refl

  -- The result of a game that has an end price says where the price is.
  abbrev pub IsJust : SetupGame D → D → SetupResult → Type 0
  IsJust game end_price result =
      ((all_same_side game.bets ≡ true) × (result ≡ SetupResult.rejected))
      ⊎ IsReached game.is_long result (units end_price) (units game.take_profit)
          (units game.stop_loss)

  split_setup-result :
      (game : SetupGame D) (b : Bool)
      → (split_setup game b).result ≡ (if b then SetupResult.took_profit else SetupResult.lost_stop)
  unfolding split_setup
  split_setup-result game b = refl

  rejected_setup-result : (game : SetupGame D) → (rejected_setup game).result ≡ SetupResult.rejected
  unfolding rejected_setup
  rejected_setup-result game = refl

  resolve_setup-IsJust :
      (game : SetupGame D) (end_price : D)
      → IsJust game end_price (resolve_setup game (some end_price)).result
  unfolding resolve_setup is_game_rejected
  resolve_setup-IsJust game end_price =
      let at = is_between-units game.is_long end_price game.take_profit game.stop_loss in
      let to = direction-units game.is_long end_price game.take_profit game.stop_loss in
      elim (Bool-cases (all_same_side game.bets)) [
        | inl same ↦ inl (same, rw same (rejected_setup-result game))
        | inr mixed ↦
            elim (Bool-cases (is_between game.is_long end_price game.take_profit game.stop_loss)) [
              | inl inside ↦ inr (
                  rw (mixed, inside, rejected_setup-result game)
                    (between-IsReached game.is_long (units end_price) (units game.take_profit)
                      (units game.stop_loss) (sym at ∙ inside)))
              | inr outside ↦ inr (
                  rw (mixed, outside, split_setup-result game _)
                    (direction-IsReached game.is_long (units end_price) (units game.take_profit)
                      (units game.stop_loss) _ (sym at ∙ outside) (sym to)))
            ]
      ]

  -- The result of a setup with an end price says which end of its range the price has reached: it is
  -- rejected if all bets are on one side or the price is strictly inside the range; a long setup
  -- takes the profit with a price from the take profit up and loses with one from the stop loss
  -- down; a short setup takes the profit with a price from the take profit down or exactly at the
  -- stop loss, and loses with a price above the stop loss.
  pub get_setup_game_result-IsJust :
      (game : SetupGame D) (end_price : D)
      → game.end_price ≡ some end_price
      → IsJust game end_price (get_setup_game_result game).result
  unfolding get_setup_game_result
  get_setup_game_result-IsJust game end_price closed =
      rw (ap (resolve_setup game) closed) (resolve_setup-IsJust game end_price)
