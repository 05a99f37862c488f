-- ===== src/Ledger/Balanced.antt =====
-- What the steps that build a journal add to its debits less its credits, and when `save` accepts it.
pub mod Entries
pub mod Settlement
pub mod Operations
pub mod Withdrawal
pub mod Refresh
pub mod Commands
use backend_showcase.Prelude.{
  ◌≡◌, refl, ap, ◌∙◌, String, Bool, not, true, false, Option, none, some, List, [], ◌∷◌, arith, inl,
  inr, Bool-cases, str_eq,
}
use backend_showcase.Prelude.Int.{ℤ, pos, ◌+ℤ◌, ◌≤ℤ◌, abs_ℤ, leb_ℤ}
use backend_showcase.Decimal.{Decimal}
use backend_showcase.Decimal.Exact.{IsExact, units, exact_laws}
use backend_showcase.Ledger.Result.{Result, ok, err}
use backend_showcase.Ledger.Action.{Action, pure, lift, ◌>>=◌}
use backend_showcase.Ledger.Action.Quiet.{
  Allowed, Quiet, Ensures, Ensures-pure, Ensures-lift, Ensures-bind, Ensures-map, Quiet-knowing,
}
use backend_showcase.Ledger.Account.{Account}
use backend_showcase.Ledger.Entry.{Entry, EntryMeta, EntryType, new_entry}
use backend_showcase.Ledger.Journal.{Journal, add_entry, check_is_balanced}
use backend_showcase.Ledger.Journal.Net.{signed, net, net-add_entry, check_is_balanced_lem}
use backend_showcase.Ledger.Database.{Database}
use backend_showcase.Ledger.Services.Journal.{save}
use backend_showcase.Ledger.Books.Saving.{save_of_balanced}
use backend_showcase.Ledger.Games.Bets.{entry_on, transfer_journal, new_journal}
use backend_showcase.Ledger.Games.X1000.{add_on}

module _ {D : Type 0} ⦃dec : Decimal D⦄ ⦃exact : IsExact dec⦄ where
  -- a journal whose debits are its credits
  abbrev pub IsEven : Journal D → Type 0
  IsEven j = net j.entries ≡ pos 0

  -- a journal with one entry more than another
  abbrev pub IsWith : Bool → D → Journal D → Journal D → Type 0
  IsWith is_credit x j next = net next.entries ≡ net j.entries +ℤ signed is_credit x

  abbrev pub IsOf : Bool → D → Entry D → Type 0
  IsOf is_credit x e = signed e.is_credit e.amount ≡ signed is_credit x

  both_sides : (c : Bool) (x : D) → (pos 0 +ℤ signed c x) +ℤ signed (not c) x ≡ pos 0
  both_sides true x = omega exact_laws
  both_sides false x = omega exact_laws

  pub new_entry-Allowed : (e : Entry D) → Allowed (IsOf e.is_credit e.amount) (new_entry e)
  unfolding new_entry
  new_entry-Allowed e = elim (Bool-cases (str_eq e.account_id "")) [
    | inl missing ↦ rw missing refl
    | inr there ↦ rw there refl
  ]

  pub check_is_balanced-IsEven : (j : Journal D) → IsEven j → check_is_balanced j ≡ true
  check_is_balanced-IsEven j even =
      check_is_balanced_lem j ∙ rw even (unfold abs_ℤ in ground (arith, exact.units-tolerance))

module _ {S D : Type 0} ⦃dec : Decimal D⦄ ⦃exact : IsExact dec⦄ where
  pub add_on-Ensures :
      (account : Account) (x : D) (is_credit is_read : Bool) (t : EntryType) (m : EntryMeta D)
      (j : Journal D)
      → Ensures {S = S} (IsWith is_credit x j) (add_on account x is_credit is_read t m j)
  unfolding add_on
  add_on-Ensures account x is_credit is_read t m j =
      Ensures-bind (IsOf is_credit x) (IsWith is_credit x j) _ _
        (Ensures-lift _ _ (new_entry-Allowed (entry_on account x is_credit is_read t m)))
        (λ e h. Ensures-pure _ _ (net-add_entry j e ∙ ap (λ n. net j.entries +ℤ n) h))

module _ {S D : Type 0} ⦃dec : Decimal D⦄ ⦃exact : IsExact dec⦄ where
  -- An amount on one side of an account, and then on the other side of another one.
  pub two_entries-Ensures :
      (from to : Account) (x : D) (c r r' : Bool) (t t' : EntryType) (m m' : EntryMeta D)
      (name : String)
      → Ensures {S = S} IsEven
          (add_on from x c r t m (new_journal name) >>= λ j. add_on to x (not c) r' t' m' j)
  two_entries-Ensures from to x c r r' t t' m m' name =
      Ensures-bind (IsWith c x (new_journal name)) IsEven _ _
        (add_on-Ensures from x c r t m (new_journal name))
        (λ j h.
          Ensures-map (IsWith (not c) x j) IsEven _ (add_on-Ensures to x (not c) r' t' m' j)
            (λ k h'. h' ∙ ap (λ n. n +ℤ signed (not c) x) h ∙ both_sides c x))

  -- A step that builds an even journal, and a rest that may use that it is even.
  pub Quiet-journal :
      {B : Type 0} (m : Action S (Journal D)) (f : Journal D → Action S B)
      → Ensures IsEven m
      → ((j : Journal D) → IsEven j → Quiet (f j))
      → Quiet (m >>= f)
  Quiet-journal m f h k = Quiet-knowing IsEven m f h k

module _ {S D : Type 0} ⦃dec : Decimal D⦄ ⦃exact : IsExact dec⦄ (db : Database S D) where
  pub save-Quiet : (j : Journal D) → IsEven j → Quiet (save db j)
  save-Quiet j even = record {
    never = λ s. rw (save_of_balanced db j s (check_is_balanced-IsEven j even)) tt;
  }
