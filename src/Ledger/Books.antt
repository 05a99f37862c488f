-- ===== src/Ledger/Books.antt =====
-- The books: the rows of `Entry` are made of journals, each of which balances within the tolerance.
use backend_showcase.Prelude.{
  ℕ, ◌+◌, ◌*◌, ◌≤◌, String, some, List, [], ◌∷◌, ◌++◌, ◌≡◌, length, length-append, All, arith,
}
use backend_showcase.Prelude.Int.{ℤ, pos, pos_part, neg_part, ◌+ℤ◌, ◌≤ℤ◌, abs_ℤ}
use backend_showcase.Decimal.{Decimal}
use backend_showcase.Decimal.Exact.{IsExact, units, exact_laws}
use backend_showcase.Ledger.Database.{Posting}
use backend_showcase.Ledger.Journal.Net.{signed}
pub mod Services
pub mod Saving

mul_ge : (n t : ℕ) → 1 ≤ n → t ≤ n * t
mul_ge n t h = grind arith

module _ {D : Type 0} ⦃dec : Decimal D⦄ ⦃exact : IsExact dec⦄ where
  -- the debits less the credits of some rows
  abbrev pub balance_of : List (Posting D) → ℤ
  balance_of [] = pos 0
  balance_of (p ∷ ps) = signed p.is_credit p.amount +ℤ balance_of ps

  pub balance_of-append :
      (ps qs : List (Posting D)) → balance_of (ps ++ qs) ≡ balance_of ps +ℤ balance_of qs
  balance_of-append [] qs = omega exact_laws
  balance_of-append (p ∷ ps) qs = rw (balance_of-append ps qs) (omega exact_laws)

  -- the rows of one journal: all under its id, and balanced within the tolerance
  pub record IsJournal (id : String) (ps : List (Posting D)) : Type 0 where
    pub has_rows : 1 ≤ length ps
    pub one_journal : All (λ (p : Posting D). p.journal_id ≡ some id) ps
    pub is_balanced : abs_ℤ (balance_of ps) ≤ℤ units dec.tolerance

  -- rows that journals added, one after the other
  pub data IsBooked : List (Posting D) → Type 0 where
    blank : (ps : List (Posting D)) → ps ≡ [] → IsBooked ps
    post :
        (id : String) (ps qs rs : List (Posting D))
        → IsBooked ps
        → IsJournal id qs
        → rs ≡ ps ++ qs
        → IsBooked rs

  -- The debits and the credits of all rows differ by at most the tolerance for each row.
  pub trial_balance :
      {ps : List (Posting D)}
      → IsBooked ps
      → (pos_part (balance_of ps)
          ≤ neg_part (balance_of ps) + length ps * pos_part (units dec.tolerance))
        × (neg_part (balance_of ps)
            ≤ pos_part (balance_of ps) + length ps * pos_part (units dec.tolerance))
  trial_balance (blank ps e) = rw e (omega arith)
  trial_balance (post id ps qs rs h b e) =
      let ih = trial_balance h in
      let rows : 1 ≤ length qs = b.has_rows in
      let scaled = mul_ge (length qs) (pos_part (units dec.tolerance)) rows in
      let close : abs_ℤ (balance_of qs) ≤ℤ units dec.tolerance = b.is_balanced in
      rw (e, balance_of-append, length-append) (omega exact_laws)
