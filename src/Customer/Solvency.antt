-- ===== src/Customer/Solvency.antt =====
-- Balances below zero, under withdrawals and transfers, for finite amounts.
use banking_management_syste.Base.{
  ℕ, ◌≡◌, List, [], ◌∷◌, All, Option, some, none, true, false, arith, ◌==◌, Bool-cases,
  Option-cases, inl, inr, sym,
}
use mathlib.Core.Path.{subst}
use banking_management_syste.Store.{contents, append_record}
use banking_management_syste.Store.Rows.{revise}
use banking_management_syste.Model.{World, Account, Double}
use banking_management_syste.Utils.{account_key, append_transaction, read_account}
use banking_management_syste.Utils.Accounts.{account_of, update, update-done, update-Updates}
use banking_management_syste.Customer.{
  deposit_modifier, withdraw_modifier, withdraw_money, withdraw_failed, transfer_funds,
  transfer_check, transfer_credit,
}
use banking_management_syste.Customer.Transfer.{
  debited, stopped, refused, went_through, creditable, transfer_check_lem,
}
use banking_management_syste.Customer.Totals.{check_refuse-accounts}

-- Laws of doubles: a finite amount can be taken from a balance that is at least 0 and not below it, the
-- balance being finite or infinite, and an amount that is finite and not at most 0 can be added.
pub record IsOrdered {F : Type 0} (o : Double F) (IsFinite : F → Type 0) : Type 0 where
  pub sub_nonneg :
      (b x : F)
      → IsFinite x
      → o.le o.zero b ≡ true
      → o.lt b x ≡ false
      → o.le o.zero (o.sub b x) ≡ true
  pub add_nonneg :
      (b x : F)
      → IsFinite x
      → o.le o.zero b ≡ true
      → o.le x o.zero ≡ false
      → o.le o.zero (o.add b x) ≡ true

module _ {F : Type 0} ⦃o : Double F⦄ where
  -- Every balance compares as at least 0.
  abbrev pub IsSolvent : World F → Type 0
  IsSolvent w = All (λ a. o.le o.zero a.balance ≡ true) (contents w.accounts)

  revise-All :
      (P : Account F → Type 0) (k : ℕ) (f : Account F → Option (Account F))
      → ((a b : Account F) → P a → f a ≡ some b → P b)
      → (rs rs' : List (Account F)) → revise account_key k f rs ≡ some rs'
      → All P rs
      → All P rs'
  unfolding revise
  revise-All P k f keep [] rs' e h = absurd (ground arith)
  revise-All P k f keep (r ∷ rs) rs' e h = elim (Bool-cases (r.user_id == k)) [
    | inl here ↦ elim (Option-cases (f r)) [
      | inl n ↦ absurd (ground arith)
      | inr (b, q) ↦
          let done : b ∷ rs ≡ rs' = ground arith in subst (All P) done (keep r b h.0 q, h.1)
    ]
    | inr there ↦ elim (Option-cases (revise account_key k f rs)) [
      | inl n ↦ absurd (ground arith)
      | inr (t, q) ↦
          let done : r ∷ t ≡ rs' = ground arith in
          subst (All P) done (h.0, revise-All P k f keep rs t q h.1)
    ]
  ]

  update-IsSolvent :
      (k : ℕ) (f : Account F → Option (Account F)) (w : World F)
      → ((a b : Account F)
          → o.le o.zero a.balance ≡ true
          → f a ≡ some b
          → o.le o.zero b.balance ≡ true)
      → IsSolvent w
      → IsSolvent (update k f w).1
  update-IsSolvent k f w keep h = elim (update-Updates k f w) [
    | inr (e, n) ↦
        let same : contents w.accounts ≡ contents (update k f w).1.accounts = ground arith in
        subst (All (λ a. o.le o.zero a.balance ≡ true)) same h
    | inl (b, rs, rs', r, m, q, acc, e) ↦
        let old : contents w.accounts ≡ rs = ground arith in
        let new : rs' ≡ contents (update k f w).1.accounts = ground arith in
        subst (All (λ a. o.le o.zero a.balance ≡ true)) new (
          revise-All (λ a. o.le o.zero a.balance ≡ true) k f keep rs rs' (ground arith)
            (subst (All (λ a. o.le o.zero a.balance ≡ true)) old h))
  ]

  module _ (IsFinite : F → Type 0) (ord : IsOrdered o IsFinite) where
    open ord use {sub_nonneg, add_nonneg}

    withdraw_modifier-nonneg :
        (x : F) (a b : Account F)
        → IsFinite x
        → o.le o.zero a.balance ≡ true
        → withdraw_modifier x a ≡ some b
        → o.le o.zero b.balance ≡ true
    unfolding withdraw_modifier
    withdraw_modifier-nonneg x a b finite h e = ground (arith, sub_nonneg a.balance x finite)

    deposit_modifier-nonneg :
        (x : F)
        → IsFinite x
        → o.le x o.zero ≡ false
        → (a b : Account F) → o.le o.zero a.balance ≡ true
        → deposit_modifier x a ≡ some b
        → o.le o.zero b.balance ≡ true
    unfolding deposit_modifier
    deposit_modifier-nonneg x finite p a b h e = ground (arith, add_nonneg a.balance x finite)

    -- A withdrawal of a finite amount leaves every balance at least 0, if every balance was.
    pub withdraw_money-IsSolvent :
        (k : ℕ) (x : F) (now : ℕ) (w : World F)
        → IsFinite x
        → IsSolvent w
        → IsSolvent (withdraw_money k x now w).1
    unfolding withdraw_money withdraw_failed append_transaction append_record read_account
    withdraw_money-IsSolvent k x now w finite h = elim (Bool-cases (o.le x o.zero)) [
      | inl bad ↦
          let same : w.accounts ≡ (withdraw_money k x now w).1.accounts = ground arith in
          subst (λ t. All (λ a. o.le o.zero a.balance ≡ true) (contents t)) same h
      | inr good ↦
          let same : (update k (withdraw_modifier x) w).1.accounts
              ≡ (withdraw_money k x now w).1.accounts =
            ground (arith, update-Updates k (withdraw_modifier x) w) in
          subst (λ t. All (λ a. o.le o.zero a.balance ≡ true) (contents t)) same
            (update-IsSolvent k (withdraw_modifier x) w
              (λ a b. withdraw_modifier-nonneg x a b finite) h)
    ]

    transfer_credit-accounts :
        (s d : ℕ) (x : F) (now : ℕ) (v : World F)
        → (update d (deposit_modifier x) v).0 ≡ true
        → (update d (deposit_modifier x) v).1.accounts ≡ (transfer_credit s d x now v).1.accounts
    unfolding transfer_credit append_transaction append_record
    transfer_credit-accounts s d x now v done = ground arith

    -- A transfer of a finite amount leaves every balance at least 0, if every balance was. The laws of
    -- doubles that it needs are those of finite amounts; a balance may be infinite.
    pub transfer_funds-IsSolvent :
        (s d : ℕ) (x : F) (now : ℕ) (w : World F)
        → IsFinite x
        → IsSolvent w
        → IsSolvent (transfer_funds s d x now w).1
    unfolding debited
    transfer_funds-IsSolvent s d x now w finite h = elim (Bool-cases (transfer_check s d x w).0) [
      | inr stop ↦ rw (stopped s d x now s w stop) (
          subst (λ t. All (λ a. o.le o.zero a.balance ≡ true) (contents t))
            (sym (check_refuse-accounts s d x none w).0) h)
      | inl go ↦ elim (Bool-cases (update s (withdraw_modifier x) w).0) [
        | inr fails ↦
            let e : update s (withdraw_modifier x) w ≡ (false, w) =
              ground (arith, update-Updates s (withdraw_modifier x) w) in
            rw (refused s d x now s w go e) (
              subst (λ t. All (λ a. o.le o.zero a.balance ≡ true) (contents t))
                (sym (check_refuse-accounts s d x (account_of s w) w).1) h)
        | inl done ↦
            let v = debited s x w in
            let positive : o.le x o.zero ≡ false = ground (arith, transfer_check_lem s d x s w) in
            let paid : (update d (deposit_modifier x) v).0 ≡ true =
              ground
                (arith, creditable s d x now s w go done, update-done d (deposit_modifier x) v) in
            rw (went_through s d x now s w go done) (
              subst (λ t. All (λ a. o.le o.zero a.balance ≡ true) (contents t))
                (transfer_credit-accounts s d x now v paid)
                (update-IsSolvent d (deposit_modifier x) v
                  (deposit_modifier-nonneg x finite positive)
                  (update-IsSolvent s (withdraw_modifier x) w
                    (λ a b. withdraw_modifier-nonneg x a b finite) h)))
      ]
    ]
