-- ===== src/Ledger/GamesRewards/Update.antt =====
-- What `updateUsersBalances` adds to each balance.
use backend_showcase.Prelude.{
  ◌≡◌, refl, sym, ◌∙◌, ap, String, Bool, true, false, Option, none, some, List, [], ◌∷◌, All, inl,
  inr, Bool-cases, if◌then◌else◌, str_eq, str_eq_iff, str_eq-refl,
}
use backend_showcase.Prelude.Int.{ℤ, pos, ◌+ℤ◌, ◌-ℤ◌}
use backend_showcase.Decimal.{Decimal}
use backend_showcase.Decimal.Exact.{IsExact, units, zero_parts, exact_laws}
use backend_showcase.Ledger.Result.{ok}
use backend_showcase.Ledger.Account.{Account}
use backend_showcase.Ledger.Entry.{Entry}
use backend_showcase.Ledger.GamesRewards.{
  Updates, update_of, set_update, changed, is_for_user, collect_updates,
}

module _ {D : Type 0} ⦃dec : Decimal D⦄ where
  update_of-set_update_same :
      (id : String) (x : D) (m : Updates D) → update_of id (set_update id x m) ≡ x
  unfolding update_of set_update
  update_of-set_update_same id x [] = rw (str_eq-refl id) refl
  update_of-set_update_same id x ((k, y) ∷ m) = elim (Bool-cases (str_eq k id)) [
    | inl found ↦ rw (found, found) refl
    | inr other ↦ rw (other, other) (update_of-set_update_same id x m)
  ]

  update_of-set_update_other :
      (id j : String) (x : D) (m : Updates D)
      → str_eq id j ≡ false
      → update_of j (set_update id x m) ≡ update_of j m
  unfolding update_of set_update
  update_of-set_update_other id j x [] other = rw other refl
  update_of-set_update_other id j x ((k, y) ∷ m) other = elim (Bool-cases (str_eq k id)) [
    | inl found ↦ rw (found, (str_eq_iff k id).0 found, other) refl
    | inr differs ↦
        rw differs
          (ap (λ z. if str_eq k j then y else z) (update_of-set_update_other id j x m other))
  ]

-- what an entry does to the balance of an account whose credits count up, or down
abbrev pub signed_change : Bool → Bool → ℤ → ℤ
signed_change true true x = x
signed_change true false x = pos 0 -ℤ x
signed_change false true x = pos 0 -ℤ x
signed_change false false x = x

module _ {D : Type 0} ⦃dec : Decimal D⦄ ⦃exact : IsExact dec⦄ where
  abbrev pub change_by : Entry D → Account → ℤ
  change_by e account = signed_change e.is_credit account.is_credit_plus (units e.amount)

  -- The part of an entry in the change of the balance with this account id: only an unread entry
  -- on this account counts, and only if it is the account of a user's balance.
  abbrev pub change_on : String → Entry D → Option Account → ℤ
  change_on id e none = pos 0
  change_on id e (some account) =
      if is_for_user e account
      then if str_eq e.account_id id then change_by e account else pos 0
      else pos 0

  abbrev pub changes_on : String → List (Entry D) → ℤ
  changes_on id [] = pos 0
  changes_on id (e ∷ entries) = change_on id e e.account +ℤ changes_on id entries

  units-changed :
      (e : Entry D) (account : Account) (current : D)
      → units (changed e account current) ≡ units current +ℤ change_by e account
  unfolding changed
  units-changed e account current = elim (Bool-cases e.is_credit) [
    | inl credit ↦ elim (Bool-cases account.is_credit_plus) [
      | inl up ↦ rw (credit, up) (omega exact_laws)
      | inr down ↦ rw (credit, down) (omega exact_laws)
    ]
    | inr debit ↦ elim (Bool-cases account.is_credit_plus) [
      | inl up ↦ rw (debit, up) (omega exact_laws)
      | inr down ↦ rw (debit, down) (omega exact_laws)
    ]
  ]

  abbrev next_updates : Entry D → Account → Updates D → Updates D
  next_updates e account m =
      if is_for_user e account
      then set_update e.account_id (changed e account (update_of e.account_id m)) m
      else m

  units-next_updates :
      (e : Entry D) (account : Account) (m : Updates D) (id : String)
      → units (update_of id (next_updates e account m))
        ≡ units (update_of id m) +ℤ change_on id e (some account)
  units-next_updates e account m id = elim (Bool-cases (is_for_user e account)) [
    | inl counts ↦ elim (Bool-cases (str_eq e.account_id id)) [
      | inl same ↦
          let changed_here = changed e account (update_of e.account_id m) in
          rw (counts, same)
            (ap (λ k. units (update_of k (set_update e.account_id changed_here m)))
                (sym ((str_eq_iff e.account_id id).0 same))
              ∙ ap units (update_of-set_update_same e.account_id changed_here m)
              ∙ units-changed e account (update_of e.account_id m)
              ∙ ap (λ k. units (update_of k m) +ℤ change_by e account)
                  ((str_eq_iff e.account_id id).0 same))
      | inr other ↦
          rw (counts, other)
            (ap units (
                update_of-set_update_other e.account_id id
                  (changed e account (update_of e.account_id m)) m other)
              ∙ omega exact_laws)
    ]
    | inr ignored ↦ rw ignored (omega exact_laws)
  ]

  abbrev pub HasAccount : Entry D → Type 0
  HasAccount e = (account : Account) × (e.account ≡ some account)

  collect_updates-from :
      (entries : List (Entry D)) (m : Updates D)
      → All HasAccount entries
      → (r : Updates D) × (collect_updates entries m ≡ ok r)
        × ((id : String) → units (update_of id r) ≡ units (update_of id m) +ℤ changes_on id entries)
  unfolding collect_updates is_for_user changed
  collect_updates-from [] m _ = (m, refl, λ id. omega exact_laws)
  collect_updates-from (e ∷ entries) m ((account, known), rest) =
      let (r, run, adds) = collect_updates-from entries (next_updates e account m) rest in
      (
        r,
        rw known run,
        λ id. adds id ∙ rw (units-next_updates e account m id, known) (omega exact_laws),
      )

  -- If every entry of a journal has its account, `updateUsersBalances` collects its updates without
  -- an exception, and what it adds to the balance with any account id is, in the smallest unit, the
  -- sum over the unread entries on this account of the amounts, signed by whether the side of the
  -- entry is the side on which the account counts up, where only accounts of users' balances count.
  pub collect_updates_lem :
      (entries : List (Entry D))
      → All HasAccount entries
      → (updates : Updates D) × (collect_updates entries [] ≡ ok updates)
        × ((id : String) → units (update_of id updates) ≡ changes_on id entries)
  unfolding update_of
  collect_updates_lem entries known =
      let (updates, run, adds) = collect_updates-from entries [] known in
      (updates, run, λ id. adds id ∙ omega (exact_laws, zero_parts exact))
