-- ===== src/Ledger/Books/Saving.antt =====
-- `JournalService.save`: what it adds to the rows of `Entry`, and when it refuses.
use backend_showcase.Prelude.{
  String, true, false, Option, List, [], ◌∷◌, ◌++◌, map, ◌≡◌, refl, ap, arith, ◌⊎◌, inl, inr,
  Bool-cases, some, All,
}
use backend_showcase.Prelude.Int.{◌+ℤ◌, ◌≤ℤ◌, abs_ℤ}
use mathlib.Core.List.{append-nil}
use backend_showcase.Decimal.{Decimal}
use backend_showcase.Decimal.Exact.{IsExact, units}
use backend_showcase.Ledger.Result.{ok, err, journal_is_not_balanced}
use backend_showcase.Ledger.Action.{◌>>=◌}
use backend_showcase.Ledger.Action.Keeps.{Keeps}
use backend_showcase.Ledger.Entry.{Entry}
use backend_showcase.Ledger.Journal.{Journal, set_id, check_is_balanced}
use backend_showcase.Ledger.Journal.Net.{net, signed, check_is_balanced_lem}
use backend_showcase.Ledger.Database.{Database, Posting, posting}
use backend_showcase.Ledger.Database.Laws.{IsAppendOnly}
use backend_showcase.Ledger.Services.Entry.{entry_row, save_multiple}
use backend_showcase.Ledger.Services.Journal.{save_balanced, save}
use backend_showcase.Ledger.Books.{balance_of, post, IsBooked}

-- The rows that a journal becomes, under the id that the database gave it.
abbrev pub rows_of : {D : Type 0} → String → Journal D → List (Posting D)
rows_of id journal = map (λ e. posting (entry_row e)) (set_id id journal).entries

module _ {S D : Type 0} ⦃dec : Decimal D⦄ (db : Database S D) where
  -- the state after the journal has been saved
  abbrev pub saved_state : Journal D → S → S
  saved_state journal s =
      let (id, s') = db.journal_create journal.name s in
      db.entry_create_many (map entry_row (set_id id journal).entries) s'

  pub save_of_balanced :
      (journal : Journal D) (s : S)
      → check_is_balanced journal ≡ true
      → save db journal s
        ≡ (ok (set_id (db.journal_create journal.name s).0 journal), saved_state journal s)
  unfolding save save_balanced save_multiple ◌>>=◌
  save_of_balanced journal s h = rw h

  pub save_of_unbalanced :
      (journal : Journal D) (s : S)
      → check_is_balanced journal ≡ false
      → save db journal s ≡ (err journal_is_not_balanced, s)
  unfolding save ◌>>=◌
  save_of_unbalanced journal s h = rw h

map-map :
    {A B C : Type 0} (g : B → C) (f : A → B) (xs : List A)
    → map g (map f xs) ≡ map (λ x. g (f x)) xs
map-map g f [] = refl
map-map g f (x ∷ xs) = ap (λ ys. g (f x) ∷ ys) (map-map g f xs)

module _ {S D : Type 0} ⦃dec : Decimal D⦄ (db : Database S D) (log : IsAppendOnly db) where
  pub postings-saved_state :
      (journal : Journal D) (s : S)
      → db.postings (saved_state db journal s)
        ≡ db.postings s ++ rows_of (db.journal_create journal.name s).0 journal
  postings-saved_state journal s =
      rw (log.postings-entry_create_many, log.postings-journal_create, map-map)

module _ {S D : Type 0} ⦃dec : Decimal D⦄ ⦃exact : IsExact dec⦄ (db : Database S D)
    (log : IsAppendOnly db) where
  balance_of-rows :
      (id : String) (es : List (Entry D))
      → balance_of (
          map
            (λ e. posting (entry_row e))
            (map (λ (e : Entry D). record e { journal_id = some id }) es))
        ≡ net es
  balance_of-rows id [] = refl
  balance_of-rows id (e ∷ es) = ap (λ n. signed e.is_credit e.amount +ℤ n) (balance_of-rows id es)

  pub balance_of-rows_of :
      (id : String) (journal : Journal D) → balance_of (rows_of id journal) ≡ net journal.entries
  unfolding set_id
  balance_of-rows_of id journal = balance_of-rows id journal.entries

  -- `save` of a journal whose debits and credits differ by at most the tolerance returns it under the
  -- new id and adds its entries, in their order and with that id, to the rows of `Entry`; any other
  -- journal is refused by an exception with the state unchanged.
  pub save_lem :
      (journal : Journal D) (s : S)
      → (abs_ℤ (net journal.entries) ≤ℤ units dec.tolerance)
          × (save db journal s ≡ (
            ok (set_id (db.journal_create journal.name s).0 journal),
            saved_state db journal s,
          ))
          × (db.postings (save db journal s).1
              ≡ db.postings s ++ rows_of (db.journal_create journal.name s).0 journal)
        ⊎ (¬ (abs_ℤ (net journal.entries) ≤ℤ units dec.tolerance))
          × (save db journal s ≡ (err journal_is_not_balanced, s))
  save_lem journal s = elim (Bool-cases (check_is_balanced journal)) [
    | inl balanced ↦ inl (
      ground (arith, check_is_balanced_lem journal),
      save_of_balanced db journal s balanced,
      rw (save_of_balanced db journal s balanced) (postings-saved_state db log journal s),
    )
    | inr not_balanced ↦ inr (
      λ h. ground (arith, check_is_balanced_lem journal),
      save_of_unbalanced db journal s not_balanced,
    )
  ]

  rows_of-one_journal :
      (id : String) (es : List (Entry D))
      → All
          (λ (p : Posting D). p.journal_id ≡ some id)
          (map
            (λ e. posting (entry_row e))
            (map (λ (e : Entry D). record e { journal_id = some id }) es))
  rows_of-one_journal id [] = tt
  rows_of-one_journal id (e ∷ es) = (refl, rows_of-one_journal id es)

  -- Saving a journal that is balanced: one more journal, or nothing if it has no entries.
  IsBooked-append :
      (id : String) (ps : List (Posting D)) (name : String) (jid : Option String)
      (es : List (Entry D))
      → IsBooked ps
      → abs_ℤ (net es) ≤ℤ units dec.tolerance
      → IsBooked (ps ++ rows_of id (record { id = jid; name = name; entries = es }))
  unfolding set_id
  IsBooked-append id ps name jid [] h b = rw append-nil h
  IsBooked-append id ps name jid (e ∷ es) h b =
      post id ps _ _ h
        (record {
          has_rows = omega arith;
          one_journal = (refl, rows_of-one_journal id es);
          is_balanced = rw (balance_of-rows id (e ∷ es)) b;
        })
        refl

  pub save-KeepsBooks :
      (journal : Journal D) → Keeps (λ s. IsBooked (db.postings s)) (save db journal)
  save-KeepsBooks journal = record {
    after = λ s h. elim (save_lem journal s) [
      | inl saved ↦
          rw saved.2
            (IsBooked-append _ (db.postings s) journal.name journal.id journal.entries h saved.0)
      | inr refused ↦ rw refused.1 h
    ];
  }
