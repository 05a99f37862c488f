-- ===== src/Ledger/Journal/Net.antt =====
-- What `checkIsBalanced` computes: the debits less the credits of a journal, entry by entry.
use backend_showcase.Prelude.{
  Bool, true, false, not, List, [], ◌∷◌, ◌++◌, map, filter, ◌≡◌, refl, if◌then◌else◌,
}
use backend_showcase.Prelude.Int.{ℤ, pos, ◌+ℤ◌, ◌-ℤ◌, leb_ℤ, abs_ℤ}
use backend_showcase.Decimal.{Decimal}
use backend_showcase.Decimal.Exact.{IsExact, units, exact_laws}
use backend_showcase.Decimal.Sum.{sum_units, units-total}
use backend_showcase.Ledger.Entry.{Entry}
use backend_showcase.Ledger.Journal.{
  Journal, add_entry, credit_amount, debit_amount, check_is_balanced,
}

module _ {D : Type 0} ⦃dec : Decimal D⦄ ⦃exact : IsExact dec⦄ where
  -- a debit counts up, a credit counts down
  abbrev pub signed : Bool → D → ℤ
  signed true amount = pos 0 -ℤ units amount
  signed false amount = units amount

  abbrev pub net : List (Entry D) → ℤ
  net [] = pos 0
  net (e ∷ es) = signed e.is_credit e.amount +ℤ net es

  pub net-append : (es fs : List (Entry D)) → net (es ++ fs) ≡ net es +ℤ net fs
  net-append [] fs = omega exact_laws
  net-append (e ∷ es) fs = rw (net-append es fs) (omega exact_laws)

  abbrev amounts : (Entry D → Bool) → List (Entry D) → List D
  amounts p es = map (λ (e : Entry D). e.amount) (filter p es)

  net_cons :
      (b : Bool) (x : D) (n d c : ℤ)
      → n ≡ d -ℤ c
      → signed b x +ℤ n ≡ (if not b then units x +ℤ d else d) -ℤ (if b then units x +ℤ c else c)
  net_cons true x n d c h = rw h (omega exact_laws)
  net_cons false x n d c h = rw h (omega exact_laws)

  sum_if :
      (b : Bool) (x : D) (xs : List D)
      → sum_units (if b then x ∷ xs else xs) ≡ (if b then units x +ℤ sum_units xs else sum_units xs)
  sum_if true x xs = refl
  sum_if false x xs = refl

  map_if :
      (b : Bool) (e : Entry D) (es : List (Entry D))
      → map (λ (e : Entry D). e.amount) (if b then e ∷ es else es) ≡ (
          if b
          then e.amount ∷ map (λ (e : Entry D). e.amount) es
          else map (λ (e : Entry D). e.amount) es)
  map_if true e es = refl
  map_if false e es = refl

  net-filter :
      (es : List (Entry D))
      → net es
        ≡ sum_units (amounts (λ (e : Entry D). not e.is_credit) es)
          -ℤ sum_units (amounts (λ (e : Entry D). e.is_credit) es)
  net-filter [] = omega exact_laws
  net-filter (e ∷ es) =
      rw (map_if (not e.is_credit) e _, map_if e.is_credit e _, sum_if, sum_if)
        (net_cons e.is_credit e.amount _ _ _ (net-filter es))

  pub debit-sub-credit :
      (j : Journal D) → units (dec.sub (debit_amount j) (credit_amount j)) ≡ net j.entries
  unfolding debit_amount credit_amount
  debit-sub-credit j = rw (exact.units-sub, units-total, units-total, net-filter j.entries)

  -- A journal passes the check exactly when the signed sum of its entries in the smallest unit, its
  -- debits less its credits, is within the tolerance of zero.
  pub check_is_balanced_lem :
      (j : Journal D) → check_is_balanced j ≡ leb_ℤ (abs_ℤ (net j.entries)) (units dec.tolerance)
  unfolding check_is_balanced
  check_is_balanced_lem j = rw (exact.less_than_or_equal_to-eq, exact.units-abs, debit-sub-credit j)

  pub net-add_entry :
      (j : Journal D) (e : Entry D)
      → net (add_entry j e).entries ≡ net j.entries +ℤ signed e.is_credit e.amount
  unfolding add_entry
  net-add_entry j e = rw (net-append j.entries (e ∷ [])) (omega exact_laws)
