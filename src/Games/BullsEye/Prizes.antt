-- ===== src/Games/BullsEye/Prizes.antt =====
-- What `getBullsEyeGameResult` (apps/bulls-eye-worker/src/modules/games-finalizer/
-- getBullsEyeGameResult.helper.ts) makes of the bets.
use mathlib.Core.List.Perm
use mathlib.Core.List.{Perm}
use backend_showcase.Prelude.{
  ◌≡◌, refl, ◌∙◌, ap, String, Bool, Option, none, some, List, [], ◌∷◌, ◌++◌, map, inl, inr,
  Bool-cases, ℕ, length, ltb, suc,
}
use backend_showcase.Decimal.{Decimal}
use backend_showcase.Decimal.Sum.{total}
use backend_showcase.Ledger.Result.{Result, ok}
use backend_showcase.Games.Bet.{GameBet, Results}
use backend_showcase.Games.OneVsOne.{lose_bet}
use backend_showcase.Games.OneVsOne.Conserved.{IsPriced}
use backend_showcase.Games.UpDown.{amount_of}
use backend_showcase.Games.UpDown.Partition.{ids, all_bets}
use backend_showcase.Games.BullsEye.{
  BullsEyeGame, Priced, attach, with_prices, reject_bullseye, reject_bullseye_bet, insert_by,
  sort_by, is_closer, is_earlier, find_bulls_eye_game_winner, award, miss, miss_from, award_places,
  award_priced, resolve_bullseye, get_bulls_eye_game_result,
}

insert_by-Perm :
    {A : Type 0} (before : A → A → Bool) (x : A) (xs : List A)
    → Perm (insert_by before x xs) (x ∷ xs)
unfolding insert_by
insert_by-Perm before x [] = Perm.refl (x ∷ [])
insert_by-Perm before x (y ∷ ys) = elim (Bool-cases (before y x)) [
  | inl goes ↦ rw goes (Perm.trans (Perm.cons y (insert_by-Perm before x ys)) (Perm.swap x y ys))
  | inr stays ↦ rw stays (Perm.refl (x ∷ y ∷ ys))
]

pub sort_by-Perm : {A : Type 0} (before : A → A → Bool) (xs : List A) → Perm (sort_by before xs) xs
unfolding sort_by
sort_by-Perm before [] = Perm.refl []
sort_by-Perm before (x ∷ xs) =
    Perm.trans (insert_by-Perm before x (sort_by before xs)) (Perm.cons x (sort_by-Perm before xs))

module _ {D : Type 0} where
  abbrev pub unpriced : List (Priced D) → List (GameBet D)
  unpriced priced = map (λ p. p.1) priced

  -- every bet has a price
  abbrev pub ArePriced : List (GameBet D) → Type 0
  ArePriced [] = Unit
  ArePriced (b ∷ bets) = IsPriced b × ArePriced bets

  abbrev priced_ids : List (Priced D) → List String
  priced_ids priced = map (λ p. p.1.id) priced

  priced_ids-unpriced : (priced : List (Priced D)) → priced_ids priced ≡ ids (unpriced priced)
  priced_ids-unpriced [] = refl
  priced_ids-unpriced (p ∷ priced) = ap (λ l. p.1.id ∷ l) (priced_ids-unpriced priced)

module _ {D : Type 0} ⦃dec : Decimal D⦄ where
  pub with_prices-ok :
      (bets : List (GameBet D))
      → ArePriced bets
      → (priced : List (Priced D)) × (with_prices bets ≡ ok priced)
        × (unpriced priced ≡ bets)
        × (length priced ≡ length bets)
  unfolding with_prices
  with_prices-ok [] all_priced = ([], refl, refl, refl)
  with_prices-ok (b ∷ bets) ((price, known), all_priced) =
      let (priced, e, same, len) = with_prices-ok bets all_priced in
      (
        (price, b) ∷ priced,
        ap (λ o. attach b o (with_prices bets)) known ∙ ap (attach b (some price)) e,
        ap (λ l. b ∷ l) same,
        ap suc len,
      )

  find_winner-Perm :
      (end_price : D) (priced : List (Priced D))
      → Perm (find_bulls_eye_game_winner end_price priced) priced
  unfolding find_bulls_eye_game_winner
  find_winner-Perm end_price priced =
      Perm.trans (sort_by-Perm (is_closer end_price) (sort_by is_earlier priced))
        (sort_by-Perm is_earlier priced)

  ids-miss_from :
      (end_price : D) (place : ℕ) (losers : List (Priced D))
      → ids (miss_from end_price place losers ++ []) ≡ priced_ids losers
  unfolding miss_from miss lose_bet
  ids-miss_from end_price place [] = refl
  ids-miss_from end_price place ((price, b) ∷ losers) =
      ap (λ l. b.id ∷ l) (ids-miss_from end_price (suc place) losers)

  ids-award_places :
      (game : BullsEyeGame D) (end_price pool : D) (ordered : List (Priced D))
      → ids (all_bets (award_places game end_price pool ordered)) ≡ priced_ids ordered
  unfolding award_places award
  ids-award_places game end_price pool [] = refl
  ids-award_places game end_price pool (p1 ∷ []) = refl
  ids-award_places game end_price pool (p1 ∷ p2 ∷ []) = refl
  ids-award_places game end_price pool (p1 ∷ p2 ∷ p3 ∷ losers) =
      ap (λ l. p1.1.id ∷ p2.1.id ∷ p3.1.id ∷ l) (ids-miss_from end_price 4 losers)

  ids-reject_bullseye : (bets : List (GameBet D)) → ids (all_bets (reject_bullseye bets)) ≡ ids bets
  unfolding reject_bullseye reject_bullseye_bet
  ids-reject_bullseye [] = refl
  ids-reject_bullseye (b ∷ bets) = ap (λ l. b.id ∷ l) (ids-reject_bullseye bets)

  -- what `award_places` makes of the bets in the order of their distances
  abbrev awarded : BullsEyeGame D → D → List (Priced D) → Results D
  awarded game end_price priced =
      award_places game end_price (total (map amount_of game.bets))
        (find_bulls_eye_game_winner end_price priced)

  awarded-Perm :
      (game : BullsEyeGame D) (end_price : D) (priced : List (Priced D))
      → priced_ids priced ≡ ids game.bets
      → Perm (ids (all_bets (awarded game end_price priced))) (ids game.bets)
  awarded-Perm game end_price priced same = rw (← same) (
      rw
        (ids-award_places game end_price (total (map amount_of game.bets))
          (find_bulls_eye_game_winner end_price priced))
        (Perm.map (λ p. p.1.id) (find_winner-Perm end_price priced)))

  abbrev IsPartition : BullsEyeGame D → Result (Results D) → Type 0
  IsPartition game result =
      (r : Results D) × (result ≡ ok r) × Perm (ids (all_bets r)) (ids game.bets)

  rejected-Perm : (game : BullsEyeGame D) → IsPartition game (ok (reject_bullseye game.bets))
  rejected-Perm game = (
    reject_bullseye game.bets,
    refl,
    rw (ids-reject_bullseye game.bets) (Perm.refl (ids game.bets)),
  )

  resolve_bullseye-Perm :
      (game : BullsEyeGame D) (end_price : Option D)
      → ArePriced game.bets
      → IsPartition game (resolve_bullseye game end_price)
  unfolding resolve_bullseye award_priced
  resolve_bullseye-Perm game none all_priced = rejected-Perm game
  resolve_bullseye-Perm game (some end_price) all_priced =
      elim (Bool-cases (ltb (length game.bets) 2)) [
        | inl few ↦ rw few (rejected-Perm game)
        | inr enough ↦
            let (priced, e, same, len) = with_prices-ok game.bets all_priced in
            rw enough (
              awarded game end_price priced,
              ap (award_priced game end_price) e,
              awarded-Perm game end_price priced (priced_ids-unpriced priced ∙ ap ids same),
            )
      ]

  -- If every bet of a Bulls-Eye game has a price, the game has results, with or without an end price,
  -- and every bet is, under its id, in exactly one place of the winners, the losers and the rejected
  -- bets.
  pub get_bulls_eye_game_result-Perm :
      (game : BullsEyeGame D)
      → ArePriced game.bets
      → (r : Results D) × (get_bulls_eye_game_result game ≡ ok r)
        × Perm (ids (all_bets r)) (ids game.bets)
  unfolding get_bulls_eye_game_result
  get_bulls_eye_game_result-Perm game all_priced =
      resolve_bullseye-Perm game game.end_price all_priced
