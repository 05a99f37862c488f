-- ===== src/Ledger/Services/Journal.antt =====
-- libs/ledger-package/src/internal-services/journal.service.ts: a journal is saved if it balances.
use backend_showcase.Prelude.{not, if◌then◌else◌}
use backend_showcase.Decimal.{Decimal}
use backend_showcase.Ledger.Result.{journal_is_not_balanced}
use backend_showcase.Ledger.Action.{Action, pure, throw, write, ◌>>=◌, ◌>>◌}
use backend_showcase.Ledger.Journal.{Journal, set_id, check_is_balanced}
use backend_showcase.Ledger.Database.{Database}
use backend_showcase.Ledger.Services.Entry.{save_multiple}

module _ {S D : Type 0} ⦃dec : Decimal D⦄ (db : Database S D) where
  -- the part of `save` behind its check
  unfoldable pub save_balanced : Journal D → Action S (Journal D)
  save_balanced journal = do
    id ← write (db.journal_create journal.name)
    let saved = set_id id journal
    save_multiple db saved.entries
    pure saved

  unfoldable pub save : Journal D → Action S (Journal D)
  save journal =
      if not (check_is_balanced journal)
      then throw journal_is_not_balanced
      else save_balanced journal
