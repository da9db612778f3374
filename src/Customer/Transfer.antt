-- ===== src/Customer/Transfer.antt =====
-- Transfers: alone, and among other requests that reach the files between the locked steps.
use banking_management_syste.Base.{
  ℕ, ◌≡◌, Bool, false, not, ◌&&◌, some, List, arith, ◌==◌, if◌then◌else◌, true, Option, inl, inr,
  Bool-cases, ap,
}
use banking_management_syste.Base.Text.{codes}
use banking_management_syste.Store.{Table, contents, append_record}
use banking_management_syste.Model.{World, Account, Txn, Double}
use banking_management_syste.Utils.{append_transaction, read_account}
use banking_management_syste.Utils.Accounts.{
  account_of, modified, update, update-done, update-account_of, update-Updates, is_some,
}
use banking_management_syste.Customer.{
  deposit_modifier, withdraw_modifier, entry, transfer_funds, transfer_check, transfer_debit,
  transfer_credit, transfer_refused,
}
use banking_management_syste.Customer.Money.{
  deposit_modifier-Kept, withdraw_modifier-Kept, logged, raised, lowered, deposit_modifier-raised,
  withdraw_modifier-lowered,
}
use mathlib.Core.Path.{subst₂}

-- A change of an account; none if it is refused.
abbrev Change : Type 0 → Type 0
Change F = Account F → Option (Account F)

module _ {F : Type 0} ⦃o : Double F⦄ where
  -- The log after both entries of a transfer.
  abbrev pub logged_twice : ℕ → ℕ → F → ℕ → Table (Txn F) → List (Txn F)
  logged_twice s d x now t =
      logged (entry s d x now (codes "transfer_in"))
        (record t { rows = some (logged (entry s d x now (codes "transfer_out")) t) })

  -- The conditions of a transfer from `s` to `d`, by a change of each account.
  abbrev may_transfer : Change F → Change F → ℕ → ℕ → F → World F → Bool
  may_transfer up down s d x w =
      not (s == d)
      && (not (o.le x o.zero)
          && (is_some (modified d up w) && (w.accounts.accepts && is_some (modified s down w))))

  abbrev pub transferable : ℕ → ℕ → F → World F → Bool
  transferable s d x w = may_transfer (deposit_modifier x) (withdraw_modifier x) s d x w

  abbrev Moves : Change F → Change F → ℕ → ℕ → F → ℕ → ℕ → World F → Bool × World F → Type 0
  Moves up down s d x now j w (r, w') =
      (r ≡ may_transfer up down s d x w)
      × (account_of j w' ≡ (
          if r
          then (if j == s
              then modified s down w
              else if j == d
              then modified d up w
              else account_of j w)
          else account_of j w))
      × (contents w'.transactions
          ≡ (if r then logged_twice s d x now w.transactions else contents w.transactions))
      × (w'.users ≡ w.users)
      × (w'.loans ≡ w.loans)
      × (w'.feedback ≡ w.feedback)
      × (w'.transactions ≡ (if r then w'.transactions else w.transactions))

  abbrev pub Transfers : ℕ → ℕ → F → ℕ → ℕ → World F → Bool × World F → Type 0
  Transfers s d x now j w r = Moves (raised x) (lowered x) s d x now j w r

  -- The credit of a recipient who is there and active, with the log.
  abbrev pub Credits : ℕ → ℕ → F → ℕ → ℕ → World F → Bool × World F → Type 0
  Credits s d x now j v (r, v') =
      (r ≡ true)
      × (account_of j v' ≡ (if j == d then modified d (deposit_modifier x) v else account_of j v))
      × (contents v'.transactions ≡ logged_twice s d x now v.transactions)
      × (v'.users ≡ v.users)
      × (v'.loans ≡ v.loans)
      × (v'.feedback ≡ v.feedback)

  transfer_credit-Credits :
      (s d : ℕ) (x : F) (now : ℕ) (j : ℕ) (v : World F)
      → v.accounts.accepts && is_some (modified d (deposit_modifier x) v) ≡ true
      → Credits s d x now j v (transfer_credit s d x now v)
  unfolding transfer_credit append_transaction append_record read_account
  transfer_credit-Credits s d x now j v h = ground (
    arith,
    update-Updates d (deposit_modifier x) v,
    update-account_of d (deposit_modifier x) v j (deposit_modifier-Kept x),
  )

  -- The files, and the account that `j` reads, are as they were.
  abbrev pub Untouched : ℕ → World F → World F → Type 0
  Untouched j w w' =
      (account_of j w' ≡ account_of j w)
      × (w'.transactions ≡ w.transactions)
      × (w'.users ≡ w.users)
      × (w'.loans ≡ w.loans)
      × (w'.feedback ≡ w.feedback)

  -- The check passes exactly if the accounts differ, the amount is positive and the recipient can be
  -- credited; it touches only the response.
  pub transfer_check_lem :
      (s d : ℕ) (x : F) (j : ℕ) (w : World F)
      → let (r, w') = transfer_check s d x w in
        (r ≡ not (s == d) && (not (o.le x o.zero) && is_some (modified d (deposit_modifier x) w)))
        × Untouched j w w'
        × (r ≡ true → w' ≡ w)
  unfolding transfer_check read_account deposit_modifier
  transfer_check_lem s d x j w = ground arith

  pub transfer_refused_lem :
      (x : F) (a : Option (Account F)) (j : ℕ) (w : World F)
      → let (r, w') = transfer_refused x a w in (r ≡ false) × Untouched j w w'
  unfolding transfer_refused read_account
  transfer_refused_lem x a j w = ground arith

  -- The files once the sender has been debited.
  unfoldable pub debited : ℕ → F → World F → World F
  debited s x w = (update s (withdraw_modifier x) w).1

  module _ (s d : ℕ) (x : F) (now : ℕ) (j : ℕ) (w : World F) where
    -- A debited sender changes nothing that the credit of another account depends on.
    pub debited_lem :
        (s == d) ≡ false
        → (update s (withdraw_modifier x) w).0 ≡ true
        → ((debited s x w).accounts.accepts ≡ w.accounts.accepts)
          × (modified d (deposit_modifier x) (debited s x w) ≡ modified d (deposit_modifier x) w)
          × (account_of j (debited s x w)
              ≡ (if j == s then modified s (withdraw_modifier x) w else account_of j w))
          × ((debited s x w).transactions ≡ w.transactions)
          × ((debited s x w).users ≡ w.users)
          × ((debited s x w).loans ≡ w.loans)
          × ((debited s x w).feedback ≡ w.feedback)
    unfolding debited read_account
    debited_lem ne h = ground (
      arith,
      update-Updates s (withdraw_modifier x) w,
      update-account_of s (withdraw_modifier x) w d (withdraw_modifier-Kept x),
      update-account_of s (withdraw_modifier x) w j (withdraw_modifier-Kept x),
    )

    -- A transfer stops after the check, after a refused debit, or ends with the credit.
    pub stopped :
        (transfer_check s d x w).0 ≡ false
        → transfer_funds s d x now w ≡ (false, (transfer_check s d x w).1)
    unfolding transfer_funds
    stopped h = ground arith

    pub refused :
        (transfer_check s d x w).0 ≡ true
        → update s (withdraw_modifier x) w ≡ (false, w)
        → transfer_funds s d x now w ≡ transfer_refused x (account_of s w) w
    unfolding transfer_funds transfer_debit read_account
    refused h e = ground (arith, transfer_check_lem s d x j w)

    pub went_through :
        (transfer_check s d x w).0 ≡ true
        → (update s (withdraw_modifier x) w).0 ≡ true
        → transfer_funds s d x now w ≡ transfer_credit s d x now (debited s x w)
    unfolding transfer_funds transfer_debit debited
    went_through h e = ground (arith, transfer_check_lem s d x j w)

    -- After the check and the debit the recipient can be credited.
    pub creditable :
        (transfer_check s d x w).0 ≡ true
        → (update s (withdraw_modifier x) w).0 ≡ true
        → (debited s x w).accounts.accepts
            && is_some (modified d (deposit_modifier x) (debited s x w))
          ≡ true
    creditable go done =
        let ne : (s == d) ≡ false = ground (arith, transfer_check_lem s d x j w) in
        let facts = debited_lem ne done in
        ground (arith, transfer_check_lem s d x j w, update-done s (withdraw_modifier x) w)

    transfer_funds-Moves :
        Moves (deposit_modifier x) (withdraw_modifier x) s d x now j w (transfer_funds s d x now w)
    transfer_funds-Moves = elim (Bool-cases (transfer_check s d x w).0) [
      | inr stop ↦ rw (stopped stop) (ground (arith, transfer_check_lem s d x j w))
      | inl go ↦ elim (update-Updates s (withdraw_modifier x) w) [
        | inr (e, no_debit) ↦ rw (refused go e) (
            ground
              (arith, transfer_check_lem s d x j w, transfer_refused_lem x (account_of s w) j w))
        | inl (b, rs, rs', h, m, q, a, e) ↦
            let done : (update s (withdraw_modifier x) w).0 ≡ true = ap (λ r. r.0) e in
            let ne : (s == d) ≡ false = ground (arith, transfer_check_lem s d x j w) in
            let facts = debited_lem ne done in
            let credits =
              transfer_credit-Credits s d x now j (debited s x w) (creditable go done) in
            rw (went_through go done) (ground (arith, transfer_check_lem s d x j w))
      ]
    ]

    -- A transfer succeeds exactly between different accounts, for an amount that does not compare as
    -- at most 0 (a NaN does not), to an existing active recipient, from an existing active sender
    -- whose balance does not compare as below it, if the accounts file accepts writes. It then moves
    -- the amount between the two accounts, leaves every other account, and logs two entries if the
    -- transactions file accepts them, none if it does not; a failed transfer changes no account and
    -- logs nothing.
    pub transfer_funds-Transfers : Transfers s d x now j w (transfer_funds s d x now w)
    transfer_funds-Transfers =
        subst₂ (λ up down. Moves up down s d x now j w (transfer_funds s d x now w))
          (deposit_modifier-raised x) (withdraw_modifier-lowered x) transfer_funds-Moves
