-- ===== src/Loans/Payment.antt =====
-- How often a loan is paid out.
use banking_management_syste.Base.{
  ℕ, Bool-cases, ◌==◌, ap, ◌∙◌, ◌≡◌, inl, inr, true, false, some, arith, Option-cases,
}
use banking_management_syste.Base.Text.{Text, codes}
use banking_management_syste.Store.{contents, read_record, append_record}
use banking_management_syste.Model.{World, Loan, Double, is_assigned, is_pending}
use banking_management_syste.Utils.Accounts.{account_of}
use banking_management_syste.Employee.{approve_reject_loan}
use banking_management_syste.Loans.{loan_of, assign_loan_to_employee_lem}
use banking_management_syste.Loans.Life.{application, next_loan}
use banking_management_syste.Customer.{apply_loan}
use banking_management_syste.Manager.{assign_loan_to_employee}
use banking_management_syste.Store.Rows.{read-append}
use banking_management_syste.Utils.{loan_key, append_loan}
use mathlib.Core.Path.{subst}
use banking_management_syste.Loans.Decision.{decision, paid_in, pays, approve_reject_loan-Decides}

module _ {F : Type 0} ⦃o : Double F⦄ where
  -- A decided loan is no longer assigned.
  decision-not_assigned :
      (action : Text) (emp_id now : ℕ) (w : World F) (l b : Loan F)
      → decision action emp_id now w l ≡ some b
      → is_assigned b.status ≡ false
  decision-not_assigned action emp_id now w l b h = ground arith

  -- A decided loan is not pending either.
  decision-not_pending :
      (action : Text) (emp_id now : ℕ) (w : World F) (l b : Loan F)
      → decision action emp_id now w l ≡ some b
      → is_pending b.status ≡ false
  decision-not_pending action emp_id now w l b h = ground arith

  -- What can happen to the loans file: an application, an assignment or a decision, of any loan with
  -- any arguments; and anything that leaves that file as it is.
  pub data LoanStep : World F → World F → Type 0 where
    applies :
        {w w' : World F} (user_id : ℕ) (amount : F) (now : ℕ)
        → (apply_loan user_id amount now w).1 ≡ w'
        → LoanStep w w'
    assigns :
        {w w' : World F} (loan_id emp_id : ℕ)
        → (assign_loan_to_employee loan_id emp_id w).1 ≡ w'
        → LoanStep w w'
    decides :
        {w w' : World F} (loan_id : ℕ) (action : Text) (emp_id now : ℕ)
        → (approve_reject_loan loan_id action emp_id now w).1 ≡ w'
        → LoanStep w w'
    elsewhere : {w w' : World F} → w'.loans ≡ w.loans → LoanStep w w'

  -- Any number of such steps.
  pub data Later : World F → World F → Type 0 where
    at_once : {w : World F} → Later w w
    after : {w w₁ w' : World F} → LoanStep w w₁ → Later w₁ w' → Later w w'

  -- The loan is there, and neither pending nor assigned.
  abbrev Settled : ℕ → World F → Type 0
  Settled k w =
      (l : Loan F) × (loan_of k w ≡ some l)
      × (is_pending l.status ≡ false)
      × (is_assigned l.status ≡ false)

  apply_loan-Settled :
      (user_id : ℕ) (amount : F) (now k : ℕ) (w : World F)
      → Settled k w
      → Settled k (apply_loan user_id amount now w).1
  unfolding apply_loan append_loan append_record read_record
  apply_loan-Settled user_id amount now k w (l, e, p, a) = (
    l,
    ground (
      arith,
      e,
      read-append loan_key k (contents w.loans) (application user_id amount now (next_loan w)),
    ),
    p,
    a,
  )

  LoanStep-Settled : (k : ℕ) (w w' : World F) → LoanStep w w' → Settled k w → Settled k w'
  LoanStep-Settled k w w' (applies user_id amount now e) h =
      subst (Settled k) e (apply_loan-Settled user_id amount now k w h)
  LoanStep-Settled k w w' (assigns loan_id emp_id e) (l, q, p, a) = subst (Settled k) e (
    l,
    elim (Bool-cases (k == loan_id)) [
      | inr c ↦ ground (arith, assign_loan_to_employee_lem loan_id emp_id k w)
      | inl c ↦
          let same : k ≡ loan_id = ground arith in
          let none_then : loan_of loan_id w ≡ some l = subst (λ n. loan_of n w ≡ some l) same q in
          ground (arith, none_then, assign_loan_to_employee_lem loan_id emp_id k w)
    ],
    p,
    a,
  )
  LoanStep-Settled k w w' (decides loan_id action emp_id now e) (l, q, p, a) = subst (Settled k) e (
    l,
    elim (Bool-cases (k == loan_id)) [
      | inr c ↦ ground (arith, approve_reject_loan-Decides action emp_id now loan_id k w)
      | inl c ↦
          let same : k ≡ loan_id = ground arith in
          let there : loan_of loan_id w ≡ some l = subst (λ n. loan_of n w ≡ some l) same q in
          ground (arith, there, approve_reject_loan-Decides action emp_id now loan_id k w)
    ],
    p,
    a,
  )
  LoanStep-Settled k w w' (elsewhere e) (l, q, p, a) = (l, ap (read_record loan_key k) e ∙ q, p, a)

  Later-Settled : (k : ℕ) (w w' : World F) → Later w w' → Settled k w → Settled k w'
  Later-Settled k w w' at_once h = h
  Later-Settled k w w' (after {w₁ = w₁} step rest) h =
      Later-Settled k w₁ w' rest (LoanStep-Settled k w w₁ step h)

  approve_reject_loan-Settled :
      (action : Text) (emp_id now k : ℕ) (w : World F)
      → (approve_reject_loan k action emp_id now w).0 ≡ true
      → Settled k (approve_reject_loan k action emp_id now w).1
  approve_reject_loan-Settled action emp_id now k w done = elim (Option-cases (loan_of k w)) [
    | inl n ↦ absurd (ground (arith, approve_reject_loan-Decides action emp_id now k k w))
    | inr (l, e) ↦ elim (Option-cases (decision action emp_id now w l)) [
      | inl n ↦ absurd (ground (arith, approve_reject_loan-Decides action emp_id now k k w))
      | inr (b, q) ↦ (
        b,
        ground (arith, approve_reject_loan-Decides action emp_id now k k w),
        decision-not_pending action emp_id now w l b q,
        decision-not_assigned action emp_id now w l b q,
      )
    ]
  ]

  -- Once a decision on a loan has been recorded, every later decision on it is refused, whoever makes
  -- it and whatever applications, assignments, decisions and changes of other files there have been in
  -- between: it changes no account and logs nothing.
  pub approve_reject_loan_once :
      (action : Text) (emp_id now k : ℕ) (w w' : World F)
      → (approve_reject_loan k action emp_id now w).0 ≡ true
      → Later (approve_reject_loan k action emp_id now w).1 w'
      → (action' : Text) (emp_id' now' j : ℕ)
      → let (r, w'') = approve_reject_loan k action' emp_id' now' w' in
        (r ≡ false)
        × (account_of j w'' ≡ account_of j w')
        × (contents w''.transactions ≡ contents w'.transactions)
  approve_reject_loan_once action emp_id now k w w' done later action' emp_id' now' j =
      let (l, e, p, a) =
        Later-Settled k (approve_reject_loan k action emp_id now w).1 w' later
          (approve_reject_loan-Settled action emp_id now k w done) in
      ground (arith, e, a, approve_reject_loan-Decides action' emp_id' now' k j w')

  -- If the loans file does not accept the write, an approval that pays is reported as failed and
  -- leaves the loan assigned, but the borrower keeps the money.
  pub approve_unrecorded :
      (emp_id now k : ℕ) (w : World F) (l : Loan F)
      → w.loans.accepts ≡ false
      → loan_of k w ≡ some l
      → pays (codes "approve") emp_id w l ≡ true
      → let (r, w') = approve_reject_loan k (codes "approve") emp_id now w in
        (r ≡ false) × (loan_of k w' ≡ some l) × (account_of l.user_id w' ≡ paid_in l w)
  approve_unrecorded emp_id now k w l broken e p = ground (
    arith,
    approve_reject_loan-Decides (codes "approve") emp_id now k k w,
    approve_reject_loan-Decides (codes "approve") emp_id now k l.user_id w,
  )
