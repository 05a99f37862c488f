-- ===== src/Ledger/Journal.antt =====
-- libs/ledger-package/src/entities/journal.entity.ts
pub mod Net
use backend_showcase.Prelude.{String, Bool, not, Option, some, List, [], ◌∷◌, ◌++◌, map, filter}
use backend_showcase.Decimal.{Decimal}
use backend_showcase.Decimal.Sum.{total}
use backend_showcase.Ledger.Entry.{Entry}

pub record Journal (D : Type 0) : Type 0 where
  pub id : Option String
  pub name : String
  pub entries : List (Entry D)

module _ {D : Type 0} where
  unfoldable pub add_entry : Journal D → Entry D → Journal D
  add_entry journal entry = record journal { entries = journal.entries ++ entry ∷ [] }

  -- `setId`: the entries get the id of the journal
  unfoldable pub set_id : String → Journal D → Journal D
  set_id id journal = record journal {
    id = some id;
    entries = map (λ (e : Entry D). record e { journal_id = some id }) journal.entries;
  }

module _ {D : Type 0} ⦃dec : Decimal D⦄ where
  unfoldable pub credit_amount : Journal D → D
  credit_amount journal =
      total
        (map (λ (e : Entry D). e.amount) (filter (λ (e : Entry D). e.is_credit) journal.entries))

  unfoldable pub debit_amount : Journal D → D
  debit_amount journal =
      total (
        map (λ (e : Entry D). e.amount) (filter (λ (e : Entry D). not e.is_credit) journal.entries))

  unfoldable pub check_is_balanced : Journal D → Bool
  check_is_balanced journal =
      dec.less_than_or_equal_to (dec.abs (dec.sub (debit_amount journal) (credit_amount journal)))
        dec.tolerance
