-- ===== src/Ledger/Balanced/Entries.antt =====
-- The journals of payments, rewards, NFT bonuses and x1000 games are even.
use backend_showcase.Prelude.{◌≡◌, ◌∙◌, String, Bool, true, false}
use backend_showcase.Prelude.Int.{pos, ◌+ℤ◌}
use backend_showcase.Decimal.{Decimal}
use backend_showcase.Decimal.Exact.{IsExact, units, zero_parts, exact_laws}
use backend_showcase.Ledger.Action.Quiet.{
  Ensures, Ensures-pure, Ensures-bind, Ensures-map, Ensures-after,
}
use backend_showcase.Ledger.Account.{Account}
use backend_showcase.Ledger.Journal.{Journal}
use backend_showcase.Ledger.Journal.Net.{signed, net}
use backend_showcase.Ledger.Games.Bets.{new_journal}
use backend_showcase.Ledger.Database.{Database}
use backend_showcase.Ledger.Services.Balance.{Balance}
use backend_showcase.Ledger.Services.Quiet.{find_or_create_account-Quiet}
use backend_showcase.Ledger.Games.Settlement.{SettledBet}
use backend_showcase.Ledger.Games.X1000.{resolve_lost, resolve_won}
use backend_showcase.Ledger.Balanced.{IsEven, IsWith, add_on-Ensures, two_entries-Ensures}
use backend_showcase.Ledger.Payments.{
  PaymentOrder, PaymentTransaction, deposit_entries, hold_entries, unhold_entries, withdraw_entries,
  give_back_rest, pay_difference,
}
use backend_showcase.Ledger.Rewards.{reward_entries}
use backend_showcase.Ledger.Nft.{nft_entries}

module _ {S D : Type 0} ⦃dec : Decimal D⦄ ⦃exact : IsExact dec⦄ where
  pub hold_entries-Ensures : (x : D) (a b : Account) → Ensures {S = S} IsEven (hold_entries x a b)
  unfolding hold_entries
  hold_entries-Ensures x a b = two_entries-Ensures a b x true true true _ _ _ _ _

  pub unhold_entries-Ensures :
      (x : D) (a b : Account) → Ensures {S = S} IsEven (unhold_entries x a b)
  unfolding unhold_entries
  unhold_entries-Ensures x a b = two_entries-Ensures a b x false true true _ _ _ _ _

  pub reward_entries-Ensures :
      (reason : String) (x : D) (a b : Account)
      → Ensures {S = S} IsEven (reward_entries reason x a b)
  unfolding reward_entries
  reward_entries-Ensures reason x a b = two_entries-Ensures a b x false false true _ _ _ _ _

  pub nft_entries-Ensures :
      (reason : String) (x : D) (is_add : Bool) (a b : Account)
      → Ensures {S = S} IsEven (nft_entries reason x is_add a b)
  unfolding nft_entries
  nft_entries-Ensures reason x true a b = two_entries-Ensures a b x false false true _ _ _ _ _
  nft_entries-Ensures reason x false a b = two_entries-Ensures a b x true false true _ _ _ _ _

  pub deposit_entries-Ensures :
      (o : PaymentOrder) (t : PaymentTransaction D) (a b c : Account)
      → Ensures {S = S} IsEven (deposit_entries o t a b c)
  unfolding deposit_entries
  deposit_entries-Ensures o t a b c =
      Ensures-bind
        (λ (j : Journal D). net j.entries ≡ pos 0 +ℤ signed false (dec.add t.amount t.platform_fee))
        IsEven _ _ (add_on-Ensures a _ false false _ _ _)
        (λ j h.
          Ensures-bind (IsWith true t.amount j) IsEven _ _ (add_on-Ensures b _ true true _ _ _)
            (λ k h'.
              Ensures-map (IsWith true t.platform_fee k) IsEven _
                (add_on-Ensures c _ true false _ _ _)
                (λ l h''. rw (h'', h', h) (omega exact_laws))))

  -- what is paid out of a journal that is left with the whole amount of a withdrawal
  pub withdraw_entries-Ensures :
      (o : PaymentOrder) (t u : PaymentTransaction D) (a b : Account) (j : Journal D)
      → net j.entries ≡ units (dec.add t.original_amount u.network_fee)
      → Ensures {S = S} IsEven (withdraw_entries o t u a b j)
  unfolding withdraw_entries
  withdraw_entries-Ensures o t u a b j left =
      Ensures-bind (IsWith true u.network_fee j) IsEven _ _ (add_on-Ensures a _ true false _ _ _)
        (λ k h.
          Ensures-bind (IsWith true (dec.sub t.original_amount t.platform_fee) k) IsEven _ _
            (add_on-Ensures a _ true false _ _ _)
            (λ l h'.
              Ensures-map (IsWith true t.platform_fee l) IsEven _
                (add_on-Ensures b _ true false _ _ _)
                (λ n h''. rw (h'', h', h, left) (omega exact_laws))))

  module _ (game_id : String) (b : SettledBet D) (u f g : Account) (name : String) where
    pub resolve_lost-Ensures :
        Ensures {S = S} IsEven (resolve_lost game_id b u f g (new_journal name))
    unfolding resolve_lost
    resolve_lost-Ensures =
        Ensures-bind (IsWith false b.amount (new_journal name)) IsEven _ _
          (add_on-Ensures g _ false false _ _ _)
          (λ j h.
            Ensures-bind (IsWith false (dec.from_ℕ 0) j) IsEven _ _
              (add_on-Ensures u _ false true _ _ _)
              (λ k h'.
                Ensures-map (IsWith true b.amount k) IsEven _ (add_on-Ensures f _ true false _ _ _)
                  (λ l h''. rw (h'', h', h) (omega (exact_laws, zero_parts exact)))))

    pub resolve_won-Ensures :
        units b.outcome ≡ units b.amount +ℤ units b.pnl
        → Ensures {S = S} IsEven (resolve_won game_id b u f g (new_journal name))
    unfolding resolve_won
    resolve_won-Ensures made_up =
        Ensures-bind (IsWith false b.amount (new_journal name)) IsEven _ _
          (add_on-Ensures g _ false false _ _ _)
          (λ j h.
            Ensures-bind (IsWith false b.pnl j) IsEven _ _ (add_on-Ensures f _ false false _ _ _)
              (λ k h'.
                Ensures-map (IsWith true b.outcome k) IsEven _ (add_on-Ensures u _ true false _ _ _)
                  (λ l h''. rw (h'', h', h, made_up) (omega exact_laws))))

module _ {S D : Type 0} ⦃dec : Decimal D⦄ ⦃exact : IsExact dec⦄ (db : Database S D) where
  -- The difference of a withdrawal evens out what was held, whichever way it goes.
  abbrev pub IsLeft : D → Balance D × Journal D → Type 0
  IsLeft amount p = net p.1.entries ≡ units amount

  pub give_back_rest-Ensures :
      (held amount : D) (a : Account) (b : Balance D) (j : Journal D)
      → net j.entries ≡ units held
      → Ensures {S = S} (IsLeft amount) (give_back_rest db (dec.sub held amount) a b j)
  unfolding give_back_rest
  give_back_rest-Ensures held amount a b j is_held =
      Ensures-bind (IsWith true (dec.sub held amount) j) (IsLeft amount) _ _
        (add_on-Ensures a _ true true _ _ _)
        (λ k h. Ensures-pure _ _ (h ∙ rw is_held (omega exact_laws)))

  pub pay_difference-Ensures :
      (held amount : D) (o : PaymentOrder) (u : PaymentTransaction D) (b : Balance D)
      (j : Journal D)
      → net j.entries ≡ units held
      → Ensures (IsLeft amount) (pay_difference db (dec.sub amount held) o u b j)
  unfolding pay_difference
  pay_difference-Ensures held amount o u b j is_held =
      Ensures-after (IsLeft amount) _ _ (find_or_create_account-Quiet db _) (λ a.
        Ensures-bind (IsWith false (dec.sub amount held) j) (IsLeft amount) _ _
          (add_on-Ensures a _ false false _ _ _)
          (λ k h. Ensures-pure _ _ (h ∙ rw is_held (omega exact_laws))))
