-- ===== src/Utils/Accounts.antt =====
-- What an update of accounts.db does to the account that each customer reads.
use banking_management_syste.Base.{
  ℕ, ◌≡◌, Bool, true, false, ◌&&◌, Option, none, some, ◌⊎◌, inl, inr, List, arith, Bool-cases,
  Option-cases, ◌==◌, if◌then◌else◌, refl,
}
use banking_management_syste.Store.{pure, read_record}
use banking_management_syste.Store.Rows.{
  revise, Kept, changed, revise-none, revise-some, read-revise,
}
use banking_management_syste.Store.Laws.{atomic_update-pure}
use banking_management_syste.Model.{World, Account, accounts_db}
use banking_management_syste.Utils.{account_key, read_account, atomic_update_account}

abbrev pub is_some : {A : Type 0} → Option A → Bool
is_some none = false
is_some (some a) = true

module _ {F : Type 0} where
  abbrev pub account_of : ℕ → World F → Option (Account F)
  unfolding read_account
  account_of k w = (read_account k w).0

  -- The account as the modifier would leave it; none if it is missing or the modifier aborts.
  abbrev pub modified : ℕ → (Account F → Option (Account F)) → World F → Option (Account F)
  unfolding read_account
  modified k f w = elim (account_of k w) [ none ↦ none | some a ↦ f a ]

  pub modified_lem :
      (k : ℕ) (f : Account F → Option (Account F)) (w : World F)
      → modified k f w ≡ elim (account_of k w) [ none ↦ none | some a ↦ f a ]
  unfolding read_account
  modified_lem k f w = refl

  abbrev pub update : ℕ → (Account F → Option (Account F)) → World F → Bool × World F
  update k f = atomic_update_account k (λ a. pure (f a))

  -- How an update ends: with the revised records written, or with nothing changed.
  abbrev pub Updates : ℕ → (Account F → Option (Account F)) → World F → Bool × World F → Type 0
  Updates k f w r =
      ((b : Account F) × (rs : List (Account F)) × (rs' : List (Account F)) × (w.accounts.rows
          ≡ some rs)
        × (modified k f w ≡ some b)
        × (revise account_key k f rs ≡ some rs')
        × (w.accounts.accepts ≡ true)
        × (r ≡ (true, record w { accounts = record (w.accounts) { rows = some rs' } })))
      ⊎ ((r ≡ (false, w)) × (w.accounts.accepts && is_some (modified k f w) ≡ false))

  pub update-Updates :
      (k : ℕ) (f : Account F → Option (Account F)) (w : World F) → Updates k f w (update k f w)
  unfolding atomic_update_account read_account read_record
  update-Updates k f w = elim (Option-cases w.accounts.rows) [
    | inl e ↦ inr (ground (arith, atomic_update-pure accounts_db account_key k f w), ground arith)
    | inr (rs, e) ↦ elim (Option-cases (changed account_key k f rs)) [
      | inl m ↦ inr (
        ground (
          arith,
          atomic_update-pure accounts_db account_key k f w,
          revise-none account_key k f rs m,
        ),
        ground arith,
      )
      | inr (b, m) ↦
          let (rs', q) = revise-some account_key k f rs m in
          elim (Bool-cases w.accounts.accepts) [
            | inl a ↦ inl (
              b,
              rs,
              rs',
              e,
              ground arith,
              q,
              a,
              ground (arith, atomic_update-pure accounts_db account_key k f w),
            )
            | inr a ↦
                inr (ground (arith, atomic_update-pure accounts_db account_key k f w), ground arith)
          ]
    ]
  ]

  module _ (k : ℕ) (f : Account F → Option (Account F)) (w : World F) where
    -- An update succeeds exactly if the account is there, the modifier agrees and the file accepts
    -- the write.
    pub update-done : (update k f w).0 ≡ w.accounts.accepts && is_some (modified k f w)
    update-done = ground (arith, update-Updates k f w)

    -- The account reads as modified, every other account as before.
    pub update-account_of :
        (j : ℕ)
        → ((a : Account F) → Kept account_key a (f a))
        → account_of j (update k f w).1
          ≡ (if (update k f w).0 && (j == k) then modified k f w else account_of j w)
    unfolding read_account read_record
    update-account_of j keep = elim (update-Updates k f w) [
      | inl (b, rs, rs', e, m, q, a, r) ↦
          ground (arith, read-revise account_key j k f rs rs' keep q)
      | inr (r, h) ↦ ground arith
    ]
