-- ===== src/Customer/Rollback.antt =====
-- Transfers whose recipient goes away between the debit and the credit: the rollback.
use banking_management_syste.Base.{
  ℕ, ◌≡◌, Bool, true, false, ◌&&◌, some, [], arith, ◌==◌, if◌then◌else◌, none,
}
use banking_management_syste.Model.{World, Account, Double, is_active, format}
use banking_management_syste.Utils.{read_account}
use banking_management_syste.Utils.Accounts.{
  account_of, modified_lem, modified, update-done, update-account_of, update-Updates, is_some,
}
use banking_management_syste.Customer.{
  deposit_modifier, withdraw_modifier, transfer_among, transfer_debit, transfer_credit,
}
use banking_management_syste.Customer.Money.{deposit_modifier-Kept, raised, deposit_modifier-raised}
use banking_management_syste.Customer.Transfer.{debited, transferable, transfer_check_lem}

module _ {F : Type 0} ⦃o : Double F⦄ where
  abbrev pub RollsBack : ℕ → F → ℕ → World F → Bool × World F → Type 0
  RollsBack s x j v (r, v') =
      (r ≡ false)
      × (account_of j v' ≡ (
          if v.accounts.accepts && is_some (modified s (raised x) v) && (j == s)
          then modified s (raised x) v
          else account_of j v))
      × (v'.transactions ≡ v.transactions)

  transfer_credit-RollsBack :
      (s d : ℕ) (x : F) (now : ℕ) (j : ℕ) (v : World F)
      → v.accounts.accepts && is_some (modified d (raised x) v) ≡ false
      → RollsBack s x j v (transfer_credit s d x now v)
  unfolding transfer_credit read_account
  transfer_credit-RollsBack s d x now j v h =
      let v₁ = record v {
        resp =
            some (format "CRITICAL ERROR: Transfer failed after withdrawal. Contact support." []);
      } in
      ground (
        arith,
        deposit_modifier-raised x,
        update-Updates d (deposit_modifier x) v,
        update-done d (deposit_modifier x) v,
        update-Updates s (deposit_modifier x) v₁,
        update-done s (deposit_modifier x) v₁,
        update-account_of s (deposit_modifier x) v₁ j (deposit_modifier-Kept x),
      )

  -- The files when the credit begins: after the debit, and what other requests did since.
  abbrev pub before_credit : (World F → World F) → ℕ → F → World F → World F
  before_credit meanwhile s x w = meanwhile (debited s x w)

  module _ (meanwhile : World F → World F) (s d : ℕ) (x : F) (now : ℕ) (w : World F)
      (ready : transferable s d x w ≡ true) where
    reaches_credit :
        transfer_among (λ v. v) meanwhile s d x now w
        ≡ transfer_credit s d x now (before_credit meanwhile s x w)
    unfolding transfer_among transfer_debit debited
    reaches_credit =
        ground (arith, transfer_check_lem s d x s w, update-done s (withdraw_modifier x) w)

    -- If other requests have made the recipient's account inactive by the time of the credit, or the
    -- accounts file no longer accepts writes, an otherwise good transfer fails and logs nothing. The
    -- amount goes back to the sender exactly if the sender is still active and the file accepts the
    -- write; no other account is changed after the debit.
    pub transfer_among-RollsBack :
        (j : ℕ)
        → (before_credit meanwhile s x w).accounts.accepts
            && is_some (modified d (raised x) (before_credit meanwhile s x w))
          ≡ false
        → RollsBack s x j
            (before_credit meanwhile s x w)
            (transfer_among (λ v. v) meanwhile s d x now w)
    transfer_among-RollsBack j h =
        rw reaches_credit (transfer_credit-RollsBack s d x now j (before_credit meanwhile s x w) h)

    -- If other requests have made both accounts inactive by the time of the credit, the failed
    -- transfer has taken the amount from the sender for good: the account reads as after the debit
    -- and those requests.
    pub transfer_among_loses :
        (a b : Account F)
        → account_of s (before_credit meanwhile s x w) ≡ some a
        → account_of d (before_credit meanwhile s x w) ≡ some b
        → is_active a.active ≡ false
        → is_active b.active ≡ false
        → let (r, w') = transfer_among (λ v. v) meanwhile s d x now w in
          (r ≡ false)
          × (account_of s w' ≡ some a)
          × (account_of d w' ≡ some b)
          × (w'.transactions ≡ (before_credit meanwhile s x w).transactions)
    transfer_among_loses a b ha hb ia ib =
        let gone : modified d (raised x) (before_credit meanwhile s x w) ≡ none =
          ground (arith, modified_lem d (raised x) (before_credit meanwhile s x w)) in
        let stuck : modified s (raised x) (before_credit meanwhile s x w) ≡ none =
          ground (arith, modified_lem s (raised x) (before_credit meanwhile s x w)) in
        let fails : (before_credit meanwhile s x w).accounts.accepts
              && is_some (modified d (raised x) (before_credit meanwhile s x w))
            ≡ false =
          ground arith in
        let sender = transfer_credit-RollsBack s d x now s (before_credit meanwhile s x w) fails in
        let recipient =
          transfer_credit-RollsBack s d x now d (before_credit meanwhile s x w) fails in
        rw reaches_credit (ground arith)
