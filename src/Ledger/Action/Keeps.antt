-- ===== src/Ledger/Action/Keeps.antt =====
-- Invariants of actions: an action keeps `P` if `P` holds after it, whether it returned or threw,
-- wherever it held before. One rule for each way to build an action.
use backend_showcase.Prelude.{Bool, true, false, Option, none, some, if◌then◌else◌}
use backend_showcase.Ledger.Result.{LedgerError, Result, ok, err, or_err}
use backend_showcase.Ledger.Action.{
  Action, pure, throw, lift, query, write, resume, roll_back, in_transaction, ◌>>=◌,
}

pub record Keeps {S A : Type 0} (P : S → Type 0) (m : Action S A) : Type 0 where
  pub after : (s : S) → P s → P (m s).1

module _ {S A : Type 0} {P : S → Type 0} where
  pub Keeps-pure : (a : A) → Keeps P (pure a)
  unfolding pure
  Keeps-pure a = record { after = λ s h. h }

  pub Keeps-throw : (e : LedgerError) → Keeps P (throw {A = A} e)
  unfolding throw
  Keeps-throw e = record { after = λ s h. h }

  pub Keeps-lift : (r : Result A) → Keeps P (lift r)
  unfolding lift
  Keeps-lift r = record { after = λ s h. h }

  pub Keeps-query : (f : S → A) → Keeps P (query f)
  unfolding query
  Keeps-query f = record { after = λ s h. h }

  pub Keeps-write : (f : S → A × S) → ((s : S) → P s → P (f s).1) → Keeps P (write f)
  unfolding write
  Keeps-write f kf = record { after = kf }

  pub Keeps-if :
      (b : Bool) (m n : Action S A) → Keeps P m → Keeps P n → Keeps P (if b then m else n)
  Keeps-if true m n km kn = km
  Keeps-if false m n km kn = kn

  pub Keeps-or_err :
      {B : Type 0} (o : Option B) (f : B → Action S A) (m : Action S A)
      → ((b : B) → Keeps P (f b))
      → Keeps P m
      → Keeps P (or_err o f m)
  Keeps-or_err none f m kf km = km
  Keeps-or_err (some b) f m kf km = kf b

module _ {S A B : Type 0} {P : S → Type 0} where
  Keeps-resume :
      (r : Result A) (f : A → Action S B) (s : S)
      → ((a : A) → Keeps P (f a))
      → P s
      → P (resume r f s).1
  Keeps-resume (ok a) f s kf h = (kf a).after s h
  Keeps-resume (err e) f s kf h = h

  pub Keeps-bind :
      (m : Action S A) (f : A → Action S B)
      → Keeps P m
      → ((a : A) → Keeps P (f a))
      → Keeps P (m >>= f)
  unfolding ◌>>=◌
  Keeps-bind m f km kf = record { after = λ s h. Keeps-resume (m s).0 f (m s).1 kf (km.after s h) }

module _ {S A : Type 0} {P : S → Type 0} where
  pub Keeps-in_transaction : (m : Action S A) → Keeps P m → Keeps P (in_transaction m)
  unfolding in_transaction
  Keeps-in_transaction m km = record { after = λ s h. kept s h (m s) (km.after s h) }
    where
      kept : (s : S) → P s → (r : Result A × S) → P r.1 → P (roll_back s r).1
      kept s h (ok a, s') h' = h'
      kept s h (err e, s') h' = h

pub ruleset keeps_rules = (
  Keeps-pure, Keeps-throw, Keeps-lift, Keeps-query, Keeps-if, Keeps-or_err, Keeps-bind,
  Keeps-in_transaction,
)
