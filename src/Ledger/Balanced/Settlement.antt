-- ===== src/Ledger/Balanced/Settlement.antt =====
-- When the journal that resolves a game with a pool is even.
use backend_showcase.Prelude.{
  ◌≡◌, refl, ap, ◌∙◌, String, Bool, true, false, Option, none, some, List, [], ◌∷◌, ◌++◌, map,
  if◌then◌else◌,
}
use backend_showcase.Prelude.Int.{ℤ, pos, ◌+ℤ◌, ◌-ℤ◌, int_laws}
use backend_showcase.Decimal.{Decimal}
use backend_showcase.Decimal.Exact.{IsExact, units, zero_parts, exact_laws}
use backend_showcase.Decimal.Sum.{sum_units, units-total}
use backend_showcase.Ledger.Action.Quiet.{
  Quiet, Ensures, Ensures-pure, Ensures-lift, Ensures-bind, Ensures-map, Ensures-after,
  Quiet-knowing, Quiet-if, Quiet-pure, Quiet-bind,
}
use backend_showcase.Ledger.Entry.{EntryMeta, EntryType, GameType}
use backend_showcase.Ledger.Journal.{Journal}
use backend_showcase.Ledger.Journal.Net.{net, net-add_entry}
use backend_showcase.Ledger.Database.{Database}
use backend_showcase.Ledger.Services.Quiet.{find_or_create_account-Quiet}
use backend_showcase.Ledger.Games.Bets.{entry_on, new_journal}
use backend_showcase.Ledger.Games.Settlement.{
  SettledBet, GameResult, GameTitle, is_nonempty, total_amount, add_fee, add_to, add_rejects,
  add_winners, add_losers, refund, pay_out, settle, create_ledger_entries, journal_name,
}
use backend_showcase.Ledger.Balanced.{IsEven, IsWith, IsOf, new_entry-Allowed, save-Quiet}

-- One credit more, before those that are counted.
credit_next :
    (l rest x : ℤ) {k j : ℤ} → l +ℤ rest ≡ k → k ≡ j +ℤ (pos 0 -ℤ x) → l +ℤ (x +ℤ rest) ≡ j
credit_next l rest x {k} {j} h h' = swap ∙ ap (λ n. n +ℤ x) h ∙ ap (λ n. n +ℤ x) h' ∙ omega int_laws
  where
    swap : l +ℤ (x +ℤ rest) ≡ (l +ℤ rest) +ℤ x
    swap = omega int_laws

take_away : (k x y : ℤ) → k +ℤ x ≡ x +ℤ y → k ≡ y
take_away k x y h = there ∙ ap (λ n. n -ℤ x) h ∙ omega int_laws
  where
    there : k ≡ (k +ℤ x) -ℤ x
    there = omega int_laws

module _ {D : Type 0} ⦃dec : Decimal D⦄ ⦃exact : IsExact dec⦄ where
  abbrev pub amounts_of : List (SettledBet D) → ℤ
  amounts_of bets = sum_units (map (λ (b : SettledBet D). b.amount) bets)

  abbrev pub outcomes_of : List (SettledBet D) → ℤ
  outcomes_of bets = sum_units (map (λ (b : SettledBet D). b.outcome) bets)

  abbrev pub fee_units : Option D → ℤ
  fee_units none = pos 0
  fee_units (some x) = units x

  abbrev pub fees_of : List (SettledBet D) → ℤ
  fees_of [] = pos 0
  fees_of (b ∷ bets) = fee_units b.fee +ℤ fees_of bets

  -- What the bets of a game bring is what was bet: the rejected bets are all bets if there are any,
  -- and otherwise the outcomes and fees of the winners are all amounts.
  abbrev pub IsFair : GameResult D → Type 0
  IsFair r = amounts_of ((r.winners ++ r.losers) ++ r.rejects) ≡ (
      if is_nonempty r.rejects
      then amounts_of r.rejects
      else outcomes_of r.winners +ℤ fees_of r.winners)

  units-add_fee : (c : D) (fee : Option D) → units (add_fee c fee) ≡ units c +ℤ fee_units fee
  units-add_fee c none = omega exact_laws
  units-add_fee c (some x) = omega exact_laws

module _ {S D : Type 0} ⦃dec : Decimal D⦄ ⦃exact : IsExact dec⦄ (db : Database S D) where
  add_to-Ensures :
      (name : String) (x : D) (c r : Bool) (t : EntryType) (m : EntryMeta D) (j : Journal D)
      → Ensures (IsWith c x j) (add_to db name x c r t m j)
  unfolding add_to
  add_to-Ensures name x c r t m j =
      Ensures-after (IsWith c x j) _ _ (find_or_create_account-Quiet db name) (λ a.
        Ensures-bind (IsOf c x) (IsWith c x j) _ _
          (Ensures-lift _ _ (new_entry-Allowed (entry_on a x c r t m)))
          (λ e h. Ensures-pure _ _ (net-add_entry j e ∙ ap (λ n. net j.entries +ℤ n) h)))

  module _ (t : GameType) (game_id : String) where
    add_rejects-Ensures :
        (bets : List (SettledBet D)) (j : Journal D)
        → Ensures
            (λ (k : Journal D). net k.entries +ℤ amounts_of bets ≡ net j.entries)
            (add_rejects db t game_id bets j)
    unfolding add_rejects
    add_rejects-Ensures [] j = Ensures-pure _ _ (omega exact_laws)
    add_rejects-Ensures (b ∷ bets) j =
        Ensures-bind (IsWith true b.amount j) _ _ _ (add_to-Ensures _ b.amount true false _ _ j)
          (λ k h.
            Ensures-map (λ (l : Journal D). net l.entries +ℤ amounts_of bets ≡ net k.entries) _ _
              (add_rejects-Ensures bets k)
              (λ l h'. credit_next (net l.entries) (amounts_of bets) (units b.amount) h' h))

    -- what the loop over the winners gives: the commission and the journal
    abbrev IsPaid : List (SettledBet D) → D → Journal D → D × Journal D → Type 0
    IsPaid winners c j p =
        (net p.1.entries +ℤ outcomes_of winners ≡ net j.entries)
        × (units p.0 ≡ units c +ℤ fees_of winners)

    add_winners-Ensures :
        (winners : List (SettledBet D)) (c : D) (j : Journal D)
        → Ensures (IsPaid winners c j) (add_winners db t game_id winners c j)
    unfolding add_winners
    add_winners-Ensures [] c j = Ensures-pure _ _ (omega exact_laws, omega exact_laws)
    add_winners-Ensures (b ∷ winners) c j =
        Ensures-bind (IsWith true b.outcome j) _ _ _ (add_to-Ensures _ b.outcome true false _ _ j)
          (λ k h.
            Ensures-map (IsPaid winners (add_fee c b.fee) k) (IsPaid (b ∷ winners) c j) _
              (add_winners-Ensures winners (add_fee c b.fee) k)
              (λ p paid. (
                credit_next (net p.1.entries) (outcomes_of winners) (units b.outcome) paid.0 h,
                paid.1 ∙ ap (λ n. n +ℤ fees_of winners) (units-add_fee c b.fee) ∙ omega exact_laws,
              )))

    add_losers-Ensures :
        (losers : List (SettledBet D)) (j : Journal D)
        → Ensures
            (λ (k : Journal D). net k.entries ≡ net j.entries)
            (add_losers db t game_id losers j)
    unfolding add_losers
    add_losers-Ensures [] j = Ensures-pure _ _ refl
    add_losers-Ensures (b ∷ losers) j =
        Ensures-bind (IsWith false (dec.from_ℕ 0) j) _ _ _
          (add_to-Ensures _ (dec.from_ℕ 0) false true _ _ j)
          (λ k h.
            Ensures-map (λ (l : Journal D). net l.entries ≡ net k.entries) _ _
              (add_losers-Ensures losers k) (λ l h'. h' ∙ h ∙ omega (exact_laws, zero_parts exact)))

  pay_out-Ensures :
      (g : GameTitle) (r : GameResult D) (j : Journal D)
      → net j.entries ≡ outcomes_of r.winners +ℤ fees_of r.winners
      → Ensures IsEven (pay_out db g r j)
  unfolding pay_out
  pay_out-Ensures g r j fair =
      Ensures-bind (IsPaid g.game_type r.game_id r.winners (dec.from_ℕ 0) j) IsEven _ _
        (add_winners-Ensures g.game_type r.game_id r.winners (dec.from_ℕ 0) j)
        (λ p paid.
          Ensures-bind (λ (k : Journal D). net k.entries ≡ net p.1.entries) IsEven _ _
            (add_losers-Ensures g.game_type r.game_id r.losers p.1)
            (λ k same.
              Ensures-map (IsWith true p.0 k) IsEven _ (add_to-Ensures _ p.0 true false _ _ k)
                (λ l h.
                  h
                  ∙ ap (λ n. n +ℤ (pos 0 -ℤ units p.0))
                      (same
                        ∙ take_away (net p.1.entries) (outcomes_of r.winners) (fees_of r.winners)
                            (paid.0 ∙ fair))
                  ∙ ap (λ n. fees_of r.winners +ℤ (pos 0 -ℤ n)) paid.1
                  ∙ omega (exact_laws, zero_parts exact))))

  refund-Ensures :
      (g : GameTitle) (r : GameResult D) (j : Journal D)
      → net j.entries ≡ amounts_of r.rejects
      → Ensures IsEven (refund db g r j)
  unfolding refund
  refund-Ensures g r j fair =
      Ensures-bind (λ (k : Journal D). net k.entries +ℤ amounts_of r.rejects ≡ net j.entries) IsEven
        _ _ (add_rejects-Ensures g.game_type r.game_id r.rejects j)
        (λ k h. Ensures-after IsEven _ _ (find_or_create_account-Quiet db _) (λ _.
          Ensures-pure _ _
            (take_away (net k.entries) (amounts_of r.rejects) (pos 0) (h ∙ fair ∙ omega int_laws))))

  -- the branches of a settlement, on a journal that has the debit of all amounts
  branches-Ensures :
      (b : Bool) (g : GameTitle) (r : GameResult D) (j : Journal D)
      → net j.entries
        ≡ (if b then amounts_of r.rejects else outcomes_of r.winners +ℤ fees_of r.winners)
      → Ensures IsEven (if b then refund db g r j else pay_out db g r j)
  branches-Ensures true g r j fair = refund-Ensures g r j fair
  branches-Ensures false g r j fair = pay_out-Ensures g r j fair

  opened_with :
      (r : GameResult D) (name : String) (j : Journal D)
      → IsWith false (total_amount r) (new_journal name) j
      → net j.entries ≡ amounts_of ((r.winners ++ r.losers) ++ r.rejects)
  unfolding total_amount
  opened_with r name j h = h ∙ omega int_laws ∙ units-total _

  settle-Quiet : (g : GameTitle) (r : GameResult D) → IsFair r → Quiet (settle db g r)
  unfolding settle
  settle-Quiet g r fair =
      Quiet-knowing (IsWith false (total_amount r) (new_journal (journal_name g r))) _ _
        (add_to-Ensures _ (total_amount r) false false _ _ _)
        (λ j opened.
          Quiet-knowing IsEven _ _
            (branches-Ensures (is_nonempty r.rejects) g r j
              (opened_with r (journal_name g r) j opened ∙ fair))
            (λ k even. save-Quiet db k even))

  pub create_ledger_entries-Quiet :
      (g : GameTitle) (r : GameResult D) → IsFair r → Quiet (create_ledger_entries db g r)
  unfolding create_ledger_entries
  create_ledger_entries-Quiet g r fair =
      Quiet-if _ _ _ (Quiet-bind _ _ (settle-Quiet g r fair) (λ j. Quiet-pure _)) (Quiet-pure none)
