-- ===== src/Ledger/Action.antt =====
-- An asynchronous method of a service: it may throw, and what it wrote before stays written until
-- the caller's database transaction rolls it back, so the state comes back beside an error too.
pub mod Keeps
pub mod Quiet
use backend_showcase.Prelude.{◌≡◌}
use backend_showcase.Ledger.Result.{LedgerError, Result, ok, err}

abbrev pub Action : Type 0 → Type 0 → Type 0
Action S A = S → Result A × S

module _ {S A : Type 0} where
  pub pure : A → Action S A
  pure a s = (ok a, s)

  pub throw : LedgerError → Action S A
  throw e s = (err e, s)

  -- a constructor or a pure helper that may throw
  pub lift : Result A → Action S A
  lift r s = (r, s)

  -- a query
  pub query : (S → A) → Action S A
  query f s = (ok (f s), s)

  -- a write that returns a row
  pub write : (S → A × S) → Action S A
  write f s = let (a, s') = f s in (ok a, s')

module _ {S A : Type 0} where
  -- `prisma.$transaction(...)`: what a callback that throws has written is rolled back, and with it
  -- the accounts that it made outside the transaction, which the program keeps.
  abbrev pub roll_back : S → Result A × S → Result A × S
  roll_back s (ok a, s') = (ok a, s')
  roll_back s (err e, s') = (err e, s)

  unfoldable pub in_transaction : Action S A → Action S A
  in_transaction m s = roll_back s (m s)

module _ {S A B : Type 0} where
  abbrev pub resume : Result A → (A → Action S B) → Action S B
  resume (ok a) f s = f a s
  resume (err e) f s = (err e, s)

  infixl 10 ◌>>=◌ ◌>>◌
  unfoldable pub ◌>>=◌ : Action S A → (A → Action S B) → Action S B
  unfolding pure throw lift query write
  ◌>>=◌ m f s = let (r, s') = m s in resume r f s'

  abbrev pub ◌>>◌ : Action S A → Action S B → Action S B
  m >> k = m >>= λ _. k

  -- A step that is known to return leaves the rest of the block.
  pub bind_of_ok :
      (m : Action S A) (f : A → Action S B) (s : S) {a : A} {s' : S}
      → m s ≡ (ok a, s')
      → (m >>= f) s ≡ f a s'
  unfolding ◌>>=◌
  bind_of_ok m f s e = rw e

  -- A step that is known to throw ends the block.
  pub bind_of_err :
      (m : Action S A) (f : A → Action S B) (s : S) {e : LedgerError} {s' : S}
      → m s ≡ (err e, s')
      → (m >>= f) s ≡ (err e, s')
  unfolding ◌>>=◌
  bind_of_err m f s h = rw h

module _ {S A : Type 0} where
  pub lift_of_ok : (r : Result A) (s : S) {a : A} → r ≡ ok a → lift r s ≡ (ok a, s)
  unfolding lift
  lift_of_ok r s e = rw e
