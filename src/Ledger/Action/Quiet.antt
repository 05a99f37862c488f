-- ===== src/Ledger/Action/Quiet.antt =====
-- Actions that are never refused for a journal that does not balance. One rule for each way to build
-- an action, and rules for what an action returns.
use backend_showcase.Prelude.{◌≡◌, Bool, true, false, Option, none, some, if◌then◌else◌}
use backend_showcase.Ledger.Result.{LedgerError, journal_is_not_balanced, Result, ok, err, or_err}
use backend_showcase.Ledger.Action.{
  Action, pure, throw, lift, query, write, resume, roll_back, in_transaction, ◌>>=◌,
}

abbrev pub is_unbalanced : LedgerError → Bool
is_unbalanced journal_is_not_balanced = true
is_unbalanced _ = false

module _ {A : Type 0} where
  -- What an action may give: a value with a property, or some other exception.
  abbrev pub Allowed : (A → Type 0) → Result A → Type 0
  Allowed Q (ok a) = Q a
  Allowed Q (err e) = is_unbalanced e ≡ false

  abbrev pub IsQuiet : Result A → Type 0
  IsQuiet r = Allowed (λ _. Unit) r

  IsQuiet-Allowed : (Q : A → Type 0) (r : Result A) → Allowed Q r → IsQuiet r
  IsQuiet-Allowed Q (ok a) h = tt
  IsQuiet-Allowed Q (err e) h = h

  Allowed-map :
      (P Q : A → Type 0) (r : Result A) → ((a : A) → P a → Q a) → Allowed P r → Allowed Q r
  Allowed-map P Q (ok a) k h = k a h
  Allowed-map P Q (err e) k h = h

pub record Quiet {S A : Type 0} (m : Action S A) : Type 0 where
  pub never : (s : S) → IsQuiet (m s).0

pub record Ensures {S A : Type 0} (Q : A → Type 0) (m : Action S A) : Type 0 where
  pub gives : (s : S) → Allowed Q (m s).0

module _ {S A : Type 0} where
  pub Quiet-pure : (a : A) → Quiet {S = S} (pure a)
  unfolding pure
  Quiet-pure a = record { never = λ s. tt }

  pub Quiet-throw : (e : LedgerError) → is_unbalanced e ≡ false → Quiet {S = S} {A = A} (throw e)
  unfolding throw
  Quiet-throw e h = record { never = λ s. h }

  pub Quiet-lift : (r : Result A) → IsQuiet r → Quiet {S = S} (lift r)
  unfolding lift
  Quiet-lift r h = record { never = λ s. h }

  pub Quiet-query : (f : S → A) → Quiet (query f)
  unfolding query
  Quiet-query f = record { never = λ s. tt }

  pub Quiet-write : (f : S → A × S) → Quiet (write f)
  unfolding write
  Quiet-write f = record { never = λ s. tt }

  pub Quiet-if : (b : Bool) (m n : Action S A) → Quiet m → Quiet n → Quiet (if b then m else n)
  Quiet-if true m n km kn = km
  Quiet-if false m n km kn = kn

  pub Quiet-or_err :
      {B : Type 0} (o : Option B) (f : B → Action S A) (m : Action S A)
      → ((b : B) → Quiet (f b))
      → Quiet m
      → Quiet (or_err o f m)
  Quiet-or_err none f m kf km = km
  Quiet-or_err (some b) f m kf km = kf b

  pub Quiet-Ensures : (Q : A → Type 0) (m : Action S A) → Ensures Q m → Quiet m
  Quiet-Ensures Q m h = record { never = λ s. IsQuiet-Allowed Q (m s).0 (h.gives s) }

  pub Ensures-pure : (Q : A → Type 0) (a : A) → Q a → Ensures {S = S} Q (pure a)
  unfolding pure
  Ensures-pure Q a h = record { gives = λ s. h }

  pub Ensures-lift : (Q : A → Type 0) (r : Result A) → Allowed Q r → Ensures {S = S} Q (lift r)
  unfolding lift
  Ensures-lift Q r h = record { gives = λ s. h }

  pub Ensures-map :
      (P Q : A → Type 0) (m : Action S A) → Ensures P m → ((a : A) → P a → Q a) → Ensures Q m
  Ensures-map P Q m h k = record { gives = λ s. Allowed-map P Q (m s).0 k (h.gives s) }

  pub Quiet-in_transaction : (m : Action S A) → Quiet m → Quiet (in_transaction m)
  unfolding in_transaction
  Quiet-in_transaction m km = record { never = λ s. kept s (m s) (km.never s) }
    where
      kept : (s : S) (r : Result A × S) → IsQuiet r.0 → IsQuiet (roll_back s r).0
      kept s (ok a, s') h = h
      kept s (err e, s') h = h

module _ {S A B : Type 0} where
  Quiet-resume :
      (r : Result A) (f : A → Action S B) (s : S)
      → IsQuiet r
      → ((a : A) → Quiet (f a))
      → IsQuiet (resume r f s).0
  Quiet-resume (ok a) f s h kf = (kf a).never s
  Quiet-resume (err e) f s h kf = h

  pub Quiet-bind :
      (m : Action S A) (f : A → Action S B) → Quiet m → ((a : A) → Quiet (f a)) → Quiet (m >>= f)
  unfolding ◌>>=◌
  Quiet-bind m f km kf = record { never = λ s. Quiet-resume (m s).0 f (m s).1 (km.never s) kf }

  Ensures-resume :
      (P : A → Type 0) (Q : B → Type 0) (r : Result A) (f : A → Action S B) (s : S)
      → Allowed P r
      → ((a : A) → P a → Ensures Q (f a))
      → Allowed Q (resume r f s).0
  Ensures-resume P Q (ok a) f s h kf = (kf a h).gives s
  Ensures-resume P Q (err e) f s h kf = h

  -- The rest of a block may use what a step ensures.
  pub Ensures-bind :
      (P : A → Type 0) (Q : B → Type 0) (m : Action S A) (f : A → Action S B)
      → Ensures P m
      → ((a : A) → P a → Ensures Q (f a))
      → Ensures Q (m >>= f)
  unfolding ◌>>=◌
  Ensures-bind P Q m f km kf = record {
    gives = λ s. Ensures-resume P Q (m s).0 f (m s).1 (km.gives s) kf;
  }

  Ensures-resume_after :
      (Q : B → Type 0) (r : Result A) (f : A → Action S B) (s : S)
      → IsQuiet r
      → ((a : A) → Ensures Q (f a))
      → Allowed Q (resume r f s).0
  Ensures-resume_after Q (ok a) f s h kf = (kf a).gives s
  Ensures-resume_after Q (err e) f s h kf = h

  pub Ensures-after :
      (Q : B → Type 0) (m : Action S A) (f : A → Action S B)
      → Quiet m
      → ((a : A) → Ensures Q (f a))
      → Ensures Q (m >>= f)
  unfolding ◌>>=◌
  Ensures-after Q m f km kf = record {
    gives = λ s. Ensures-resume_after Q (m s).0 f (m s).1 (km.never s) kf;
  }

  Quiet-resume_knowing :
      (P : A → Type 0) (r : Result A) (f : A → Action S B) (s : S)
      → Allowed P r
      → ((a : A) → P a → Quiet (f a))
      → IsQuiet (resume r f s).0
  Quiet-resume_knowing P (ok a) f s h kf = (kf a h).never s
  Quiet-resume_knowing P (err e) f s h kf = h

  pub Quiet-knowing :
      (P : A → Type 0) (m : Action S A) (f : A → Action S B)
      → Ensures P m
      → ((a : A) → P a → Quiet (f a))
      → Quiet (m >>= f)
  unfolding ◌>>=◌
  Quiet-knowing P m f km kf = record {
    never = λ s. Quiet-resume_knowing P (m s).0 f (m s).1 (km.gives s) kf;
  }

pub ruleset quiet_rules = (
  Quiet-pure, Quiet-throw, Quiet-query, Quiet-write, Quiet-if, Quiet-or_err, Quiet-bind,
  Quiet-in_transaction,
)
