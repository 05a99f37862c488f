-- ===== src/Ledger/GamesRewards/BullsEye.antt =====
-- A Bulls-Eye game from its results (apps/bulls-eye-worker/src/modules/games-finalizer/
-- getBullsEyeGameResult.helper.ts) to the ledger
-- (apps/ledger/src/modules/games-rewards/gamesRewards.service.ts).
use backend_showcase.Prelude.{
  ◌≡◌, ◌≢◌, refl, sym, ◌∙◌, ap, String, Bool, true, false, Option, none, some, List, [], ◌∷◌, ◌++◌,
  map, inl, inr, Bool-cases, ℕ, length, ltb, suc, arith, if◌then◌else◌,
}
use backend_showcase.Prelude.Int.{ℤ, pos, pos_part, neg_part, ◌+ℤ◌, int_laws}
use backend_showcase.Decimal.{Decimal}
use backend_showcase.Decimal.Exact.{IsExact, units, zero_parts, exact_laws}
use backend_showcase.Decimal.Sum.{total, sum_units, units-total}
use backend_showcase.Ledger.Result.{Result, ok, err, journal_is_not_balanced}
use backend_showcase.Ledger.Database.{Database}
use backend_showcase.Ledger.GamesRewards.{
  ClosedGame, StoredBet, bets_with, get_game_results, is_won, is_loss, is_reject,
}
use backend_showcase.Ledger.GamesRewards.OneVsOne.{stored}
use backend_showcase.Ledger.Games.Settlement.{SettledBet, is_nonempty}
use backend_showcase.Ledger.History.{Command, perform}
use backend_showcase.Ledger.Balanced.Settlement.{IsFair, amounts_of}
use backend_showcase.Ledger.Balanced.Commands.{perform-never_unbalanced}
use backend_showcase.Games.Bet.{GameBet, Results}
use backend_showcase.Games.OneVsOne.{lose_bet}
use backend_showcase.Games.UpDown.{amount_of}
use backend_showcase.Games.UpDown.Partition.{all_bets}
use backend_showcase.Games.BullsEye.{
  BullsEyeGame, WinnerCoefficients, Priced, insert_by, sort_by, is_closer, is_earlier, award, miss,
  miss_from, award_places, award_priced, coefficients, resolve_bullseye, reject_bullseye,
  reject_bullseye_bet, find_bulls_eye_game_winner, get_bulls_eye_game_result, is_exact_price,
}
use backend_showcase.Games.BullsEye.Prizes.{ArePriced, with_prices-ok, unpriced}

length_positive : (n : ℕ) → ltb 0 (suc n) ≡ true
length_positive n = ground arith

parts : {a b : ℤ} → a ≡ b → (pos_part a ≡ pos_part b) × (neg_part a ≡ neg_part b)
parts e = (ap pos_part e, ap neg_part e)

module _ {A : Type 0} (before : A → A → Bool) where
  length-insert_by : (x : A) (xs : List A) → length (insert_by before x xs) ≡ suc (length xs)
  unfolding insert_by
  length-insert_by x [] = refl
  length-insert_by x (y ∷ ys) = elim (Bool-cases (before y x)) [
    | inl goes ↦ rw goes (ap suc (length-insert_by x ys))
    | inr stays ↦ rw stays refl
  ]

  pub length-sort_by : (xs : List A) → length (sort_by before xs) ≡ length xs
  unfolding sort_by
  length-sort_by [] = refl
  length-sort_by (x ∷ xs) = length-insert_by x (sort_by before xs) ∙ ap suc (length-sort_by xs)

module _ {D : Type 0} ⦃dec : Decimal D⦄ where
  length-winner :
      (end_price : D) (priced : List (Priced D))
      → length (find_bulls_eye_game_winner end_price priced) ≡ length priced
  unfolding find_bulls_eye_game_winner
  length-winner end_price priced =
      length-sort_by (is_closer end_price) (sort_by is_earlier priced)
      ∙ length-sort_by is_earlier priced

module _ {D : Type 0} ⦃dec : Decimal D⦄ ⦃exact : IsExact dec⦄ where
  -- the amounts of bets with prices
  abbrev stakes : List (Priced D) → ℤ
  stakes [] = pos 0
  stakes (p ∷ ps) = units p.1.amount +ℤ stakes ps

  stakes-insert_by :
      (before : Priced D → Priced D → Bool) (x : Priced D) (xs : List (Priced D))
      → stakes (insert_by before x xs) ≡ units x.1.amount +ℤ stakes xs
  unfolding insert_by
  stakes-insert_by before x [] = refl
  stakes-insert_by before x (y ∷ ys) = elim (Bool-cases (before y x)) [
    | inl goes ↦ rw goes (rw (stakes-insert_by before x ys) (omega int_laws))
    | inr stays ↦ rw stays refl
  ]

  stakes-sort_by :
      (before : Priced D → Priced D → Bool) (xs : List (Priced D))
      → stakes (sort_by before xs) ≡ stakes xs
  unfolding sort_by
  stakes-sort_by before [] = refl
  stakes-sort_by before (x ∷ xs) =
      stakes-insert_by before x (sort_by before xs)
      ∙ ap (λ n. units x.1.amount +ℤ n) (stakes-sort_by before xs)

  amounts_of-append :
      (xs ys : List (SettledBet D)) → amounts_of (xs ++ ys) ≡ amounts_of xs +ℤ amounts_of ys
  amounts_of-append [] ys = omega int_laws
  amounts_of-append (x ∷ xs) ys = rw (amounts_of-append xs ys) (omega int_laws)

  -- the losers as the settlement sees them
  abbrev lost_rows : D → ℕ → List (Priced D) → List (StoredBet D)
  lost_rows end_price place losers = map stored (miss_from end_price place losers ++ [])

  lost_rows-won :
      (end_price : D) (place : ℕ) (losers : List (Priced D))
      → bets_with is_won (lost_rows end_price place losers) ≡ []
  unfolding miss_from miss lose_bet bets_with
  lost_rows-won end_price place [] = refl
  lost_rows-won end_price place ((price, b) ∷ losers) = lost_rows-won end_price (suc place) losers

  lost_rows-reject :
      (end_price : D) (place : ℕ) (losers : List (Priced D))
      → bets_with is_reject (lost_rows end_price place losers) ≡ []
  unfolding miss_from miss lose_bet bets_with
  lost_rows-reject end_price place [] = refl
  lost_rows-reject end_price place ((price, b) ∷ losers) =
      lost_rows-reject end_price (suc place) losers

  lost_rows-loss :
      (end_price : D) (place : ℕ) (losers : List (Priced D))
      → amounts_of (bets_with is_loss (lost_rows end_price place losers)) ≡ stakes losers
  unfolding miss_from miss lose_bet bets_with
  lost_rows-loss end_price place [] = refl
  lost_rows-loss end_price place ((price, b) ∷ losers) =
      ap (λ n. units b.amount +ℤ n) (lost_rows-loss end_price (suc place) losers)

  stakes-unpriced :
      (priced : List (Priced D)) → stakes priced ≡ sum_units (map amount_of (unpriced priced))
  stakes-unpriced [] = refl
  stakes-unpriced (p ∷ priced) = ap (λ n. units p.1.amount +ℤ n) (stakes-unpriced priced)

  stakes-winner :
      (end_price : D) (priced : List (Priced D))
      → stakes (find_bulls_eye_game_winner end_price priced) ≡ stakes priced
  unfolding find_bulls_eye_game_winner
  stakes-winner end_price priced =
      stakes-sort_by (is_closer end_price) (sort_by is_earlier priced)
      ∙ stakes-sort_by is_earlier priced

  -- the prizes of a table out of a pool are the pool, for three winners and for two
  abbrev pub AddsUp : WinnerCoefficients D → D → Type 0
  AddsUp c pool =
      (units (dec.mul pool c.first_place)
          +ℤ (units (dec.mul pool c.second_place) +ℤ units (dec.mul pool c.third_place))
        ≡ units pool)
      × (units (dec.mul pool c.first_of_two) +ℤ units (dec.mul pool c.second_of_two) ≡ units pool)

  award_places-IsFair :
      (id : String) (game : BullsEyeGame D) (end_price pool : D) (ordered : List (Priced D))
      → ((b : Bool) → AddsUp (coefficients game b) pool)
      → stakes ordered ≡ units pool
      → ltb (length ordered) 2 ≡ false
      → IsFair
          (get_game_results id (map stored (all_bets (award_places game end_price pool ordered))))
  unfolding get_game_results bets_with award_places award
  award_places-IsFair id game end_price pool [] adds_up whole_pool enough = ground arith
  award_places-IsFair id game end_price pool (p ∷ []) adds_up whole_pool enough = ground arith
  award_places-IsFair id game end_price pool ((price, first) ∷ p2 ∷ []) adds_up whole_pool enough =
      let (three, two) = adds_up (is_exact_price price end_price game.accuracy_level) in
      omega (exact_laws, zero_parts exact, parts whole_pool, parts two)
  award_places-IsFair id game end_price pool ((price, first) ∷ p2 ∷ p3 ∷ losers) adds_up whole_pool
        enough =
      let (three, two) = adds_up (is_exact_price price end_price game.accuracy_level) in
      rw (lost_rows-won end_price 4 losers, lost_rows-reject end_price 4 losers)
        (omega (
          exact_laws,
          zero_parts exact,
          parts whole_pool,
          parts three,
          parts (amounts_of-append (bets_with is_loss (lost_rows end_price 4 losers)) []),
          parts (lost_rows-loss end_price 4 losers),
        ))

  abbrev rejected_rows : List (GameBet D) → List (StoredBet D)
  rejected_rows bets = map stored (map reject_bullseye_bet bets)

  rejected_rows-won : (bets : List (GameBet D)) → bets_with is_won (rejected_rows bets) ≡ []
  unfolding reject_bullseye_bet bets_with
  rejected_rows-won [] = refl
  rejected_rows-won (b ∷ bets) = rejected_rows-won bets

  rejected_rows-loss : (bets : List (GameBet D)) → bets_with is_loss (rejected_rows bets) ≡ []
  unfolding reject_bullseye_bet bets_with
  rejected_rows-loss [] = refl
  rejected_rows-loss (b ∷ bets) = rejected_rows-loss bets

  only_rejects :
      (rs : List (SettledBet D))
      → amounts_of rs ≡ (if is_nonempty rs then amounts_of rs else pos 0 +ℤ pos 0)
  only_rejects [] = omega int_laws
  only_rejects (b ∷ rs) = rw (length_positive (length rs)) refl

  reject_bullseye-IsFair :
      (id : String) (bets : List (GameBet D))
      → IsFair (get_game_results id (map stored (all_bets (reject_bullseye bets))))
  unfolding get_game_results reject_bullseye
  reject_bullseye-IsFair id bets =
      rw (rejected_rows-won bets, rejected_rows-loss bets)
        (only_rejects (bets_with is_reject (rejected_rows bets)))

  -- the pool of a game
  abbrev pub pool_of : BullsEyeGame D → D
  pool_of game = total (map amount_of game.bets)

  -- The game has results, and what they bring is what was bet.
  abbrev IsSettled : String → Result (Results D) → Type 0
  IsSettled id result =
      (r : Results D) × (result ≡ ok r) × IsFair (get_game_results id (map stored (all_bets r)))

  resolve_bullseye-IsSettled :
      (id : String) (game : BullsEyeGame D) (end_price : Option D)
      → ArePriced game.bets
      → ((b : Bool) → AddsUp (coefficients game b) (pool_of game))
      → IsSettled id (resolve_bullseye game end_price)
  unfolding resolve_bullseye award_priced
  resolve_bullseye-IsSettled id game none all_priced adds_up =
      (reject_bullseye game.bets, refl, reject_bullseye-IsFair id game.bets)
  resolve_bullseye-IsSettled id game (some end_price) all_priced adds_up =
      elim (Bool-cases (ltb (length game.bets) 2)) [
        | inl few ↦ rw few (reject_bullseye game.bets, refl, reject_bullseye-IsFair id game.bets)
        | inr enough ↦
            let (priced, e, same, len) = with_prices-ok game.bets all_priced in
            rw enough (
              award_places game end_price (pool_of game)
                  (find_bulls_eye_game_winner end_price priced),
              ap (award_priced game end_price) e,
              award_places-IsFair id game end_price (pool_of game)
                  (find_bulls_eye_game_winner end_price priced) adds_up
                  (stakes-winner end_price priced
                    ∙ stakes-unpriced priced
                    ∙ ap (λ l. sum_units (map amount_of l)) same
                    ∙ sym (units-total (map amount_of game.bets)))
                  (ap (λ n. ltb n 2) (length-winner end_price priced ∙ len) ∙ enough),
            )
      ]

module _ {S D : Type 0} ⦃dec : Decimal D⦄ ⦃exact : IsExact dec⦄ (db : Database S D) where
  -- If every bet of a Bulls-Eye game has a price and the prizes of both tables of coefficients are
  -- together the pool, the game has results, with or without an end price and for any number of
  -- bets, and when the rewards are given for the rows of its bets the journal is never refused as
  -- unbalanced.
  pub bulls_eye-never_unbalanced :
      (game : BullsEyeGame D) (closed_game : ClosedGame D)
      → ArePriced game.bets
      → ((b : Bool) → AddsUp (coefficients game b) (pool_of game))
      → (r : Results D) × (get_bulls_eye_game_result game ≡ ok r)
        × ((s : S)
            → (perform db (Command.reward_bulls_eye closed_game (map stored (all_bets r))) s).0
              ≢ err journal_is_not_balanced)
  unfolding get_bulls_eye_game_result
  bulls_eye-never_unbalanced game closed_game all_priced adds_up =
      let (r, known, fair) =
        resolve_bullseye-IsSettled closed_game.id game game.end_price all_priced adds_up in
      (
        r,
        known,
        perform-never_unbalanced db (Command.reward_bulls_eye closed_game (map stored (all_bets r)))
            fair,
      )
