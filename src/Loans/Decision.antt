-- ===== src/Loans/Decision.antt =====
-- Approving and rejecting a loan: what is recorded, and what is paid.
use banking_management_syste.Base.{
  ℕ, ◌≡◌, Bool, ◌&&◌, Option, none, some, arith, ◌==◌, if◌then◌else◌, inl, inr,
}
use banking_management_syste.Base.Text.{Text, codes, streq}
use banking_management_syste.Store.{read_record, contents, append_record}
use banking_management_syste.Store.Rows.{read-overwrite, read-key}
use banking_management_syste.Store.Laws.{atomic_update-Updated}
use banking_management_syste.Model.{
  World, Loan, Account, Double, loans_db, approved, rejected, is_assigned,
}
use banking_management_syste.Utils.{loan_key, read_account, atomic_update_loan, append_transaction}
use banking_management_syste.Utils.Accounts.{
  is_some, account_of, modified, update-Updates, update-account_of,
}
use banking_management_syste.Customer.{deposit_modifier, entry}
use banking_management_syste.Customer.Money.{
  deposit_modifier-Kept, logged, raised, deposit_modifier-raised,
}
use banking_management_syste.Employee.{
  approve_loan, approve_reject_loan_modifier, approve_reject_loan,
}
use banking_management_syste.Loans.{loan_of}

module _ {F : Type 0} ⦃o : Double F⦄ where
  -- The borrower's account as the payment would leave it; none if it cannot be paid into.
  abbrev pub paid_in : Loan F → World F → Option (Account F)
  paid_in l w = modified l.user_id (raised l.amount) w

  abbrev pub payable : Loan F → World F → Bool
  payable l w = w.accounts.accepts && is_some (paid_in l w)

  -- Whether the employee may decide on the loan.
  abbrev pub decidable : ℕ → Loan F → Bool
  decidable emp_id l = is_assigned l.status && (l.assigned_to == emp_id)

  -- Whether the decision pays the loan out.
  abbrev pub pays : Text → ℕ → World F → Loan F → Bool
  pays action emp_id w l = decidable emp_id l && (streq action (codes "approve") && payable l w)

  -- The loan as decided; none if the decision is refused.
  abbrev pub decision : Text → ℕ → ℕ → World F → Loan F → Option (Loan F)
  decision action emp_id now w l =
      if decidable emp_id l
      then (if streq action (codes "approve")
          then (if payable l w
              then some (record l { status = approved; processed_at = now })
              else none)
          else if streq action (codes "reject")
          then some (record l { status = rejected; processed_at = now })
          else none)
      else none

  -- The payment of an approved loan.
  abbrev Paid : Bool → Loan F → ℕ → ℕ → World F → World F → Type 0
  Paid b l now j w w' =
      (account_of j w' ≡ (if b && (j == l.user_id) then paid_in l w else account_of j w))
      × (contents w'.transactions ≡ (
          if b
          then logged (entry 0 l.user_id l.amount now (codes "loan_deposit")) w.transactions
          else contents w.transactions))
      × (w'.loans ≡ w.loans)
      × (w'.users ≡ w.users)
      × (w'.feedback ≡ w.feedback)

  approve_loan_lem :
      (action : Text) (now j : ℕ) (l : Loan F) (w : World F)
      → let (r, w') = approve_loan action now l w in
        (r ≡ (
          if payable l w then some (record l { status = approved; processed_at = now }) else none))
        × Paid (payable l w) l now j w w'
  unfolding approve_loan append_transaction append_record read_account deposit_modifier
  approve_loan_lem action now j l w = ground (
    arith,
    deposit_modifier-raised l.amount,
    update-Updates l.user_id (deposit_modifier l.amount) w,
    update-account_of l.user_id (deposit_modifier l.amount) w j (deposit_modifier-Kept l.amount),
  )

  approve_reject_loan_modifier_lem :
      (action : Text) (emp_id now j : ℕ) (l : Loan F) (w : World F)
      → let (r, w') = approve_reject_loan_modifier action emp_id now l w in
        (r ≡ decision action emp_id now w l) × Paid (pays action emp_id w l) l now j w w'
  unfolding approve_reject_loan_modifier read_account
  approve_reject_loan_modifier_lem action emp_id now j l w =
      ground (arith, approve_loan_lem action now j l w)

  abbrev pub decided_loan : Text → ℕ → ℕ → ℕ → World F → Option (Loan F)
  decided_loan action emp_id now k w = elim (loan_of k w) [
    | none ↦ none
    | some l ↦ decision action emp_id now w l
  ]

  -- The loan whose payment a decision makes; none if it makes none.
  abbrev pub paid_loan : Text → ℕ → ℕ → World F → Option (Loan F)
  paid_loan action emp_id k w = elim (loan_of k w) [
    | none ↦ none
    | some l ↦ if pays action emp_id w l then some l else none
  ]

  -- What a decision on loan `k` does, at any loan or account `j`.
  abbrev pub Decides : Text → ℕ → ℕ → ℕ → ℕ → World F → Bool × World F → Type 0
  Decides action emp_id now k j w (r, w') =
      (r ≡ w.loans.accepts && is_some (decided_loan action emp_id now k w))
      × (loan_of j w' ≡ (if r && (j == k) then decided_loan action emp_id now k w else loan_of j w))
      × (account_of j w' ≡ elim (paid_loan action emp_id k w) [
        | none ↦ account_of j w
        | some l ↦ if j == l.user_id then paid_in l w else account_of j w
      ])
      × (contents w'.transactions ≡ elim (paid_loan action emp_id k w) [
        | none ↦ contents w.transactions
        | some l ↦ logged (entry 0 l.user_id l.amount now (codes "loan_deposit")) w.transactions
      ])
      × (w'.users ≡ w.users)
      × (w'.feedback ≡ w.feedback)

  -- A decision is recorded exactly for an assigned loan, by the employee it is assigned to, with the
  -- action approve if the borrower's account can be paid into or the action reject, if the loans file
  -- accepts the write. An approval pays the amount into that account, and logs it if the transactions
  -- file accepts the entry, also where the loans file then does not accept the write. No other loan or
  -- account changes.
  pub approve_reject_loan-Decides :
      (action : Text) (emp_id now k j : ℕ) (w : World F)
      → Decides action emp_id now k j w (approve_reject_loan k action emp_id now w)
  unfolding approve_reject_loan atomic_update_loan read_account read_record
  approve_reject_loan-Decides action emp_id now k j w =
      elim (atomic_update-Updated loans_db loan_key k
        (approve_reject_loan_modifier action emp_id now) w
        (λ a. ground (arith, approve_reject_loan_modifier_lem action emp_id now j a w))) [
          | inl (n, e) ↦ ground arith
          | inr (inl (a, q, (z, e))) ↦
              ground (arith, approve_reject_loan_modifier_lem action emp_id now j a w)
          | inr (inr (inl (a, b, q, z, failed, e))) ↦
              ground (arith, approve_reject_loan_modifier_lem action emp_id now j a w)
          | inr (inr (inr (a, b, rs, rs', q, z, r, v, ok, e))) ↦ ground (
            arith,
            approve_reject_loan_modifier_lem action emp_id now j a w,
            read-overwrite loan_key j k b rs rs',
            read-key loan_key k rs a,
          )
        ]
