-- ===== src/Loans.antt =====
-- The life of a loan through src/customer_module.c, src/manager_module.c and src/employee_module.c:
-- applied for, assigned, approved or rejected.
pub mod Decision
pub mod Payment
pub mod Life
use banking_management_syste.Base.{
  ℕ, ◌≡◌, Bool, false, Option, none, some, List, ◌==◌, if◌then◌else◌, inl, inr, ◌&&◌, arith,
}
use banking_management_syste.Base.Text.{Text}
use banking_management_syste.Store.{Table, read_record, contents, atomic_update}
use banking_management_syste.Store.Rows.{
  read-overwrite, read-key, revise, read_loop, Kept, read-revise, read-append,
}
use banking_management_syste.Store.Laws.{Updated, atomic_update-Updated}
use banking_management_syste.Model.{
  World, Loan, User, Role, loans_db, pending, assigned, is_pending, is_employee, Arg, say,
}
use banking_management_syste.Utils.Accounts.{is_some}
use banking_management_syste.Utils.{loan_key, user_key, read_loan, read_user, atomic_update_loan}
use banking_management_syste.Manager.{assign_loan_modifier, assign_loan_to_employee, say_if_silent}

module _ {F : Type 0} where
  abbrev pub loan_of : ℕ → World F → Option (Loan F)
  loan_of k w = read_record loan_key k w.loans

  abbrev pub user_of : ℕ → World F → Option User
  user_of k w = read_record user_key k w.users

  -- Whether the user is there as an employee.
  abbrev pub employs : ℕ → World F → Bool
  employs emp_id w = elim (user_of emp_id w) [ none ↦ false | some u ↦ is_employee u.role ]

  -- The assigned loan; none if the loan is missing or not pending, or the employee is not there.
  abbrev pub assignable : ℕ → ℕ → World F → Option (Loan F)
  assignable k emp_id w = elim (loan_of k w) [
    | none ↦ none
    | some l ↦
        if is_pending l.status && employs emp_id w
        then some (record l { assigned_to = emp_id; status = assigned })
        else none
  ]

  pub assign_loan_modifier_lem :
      (emp_id : ℕ) (l : Loan F) (w : World F)
      → let (r, w') = assign_loan_modifier emp_id l w in
        (r ≡ (
          if is_pending l.status && employs emp_id w
          then some (record l { assigned_to = emp_id; status = assigned })
          else none))
        × (w' ≡ record w { resp = w'.resp })
  unfolding assign_loan_modifier read_user
  assign_loan_modifier_lem emp_id l w = ground arith

  -- An assignment succeeds exactly for a pending loan, a user who is an employee, and a loans file
  -- that accepts the write. It then gives that loan to the employee, and leaves every other loan;
  -- a failed one changes no loan. No other file changes.
  pub assign_loan_to_employee_lem :
      (k emp_id j : ℕ) (w : World F)
      → let (r, w') = assign_loan_to_employee k emp_id w in
        (r ≡ w.loans.accepts && is_some (assignable k emp_id w))
        × (loan_of j w' ≡ (if r && (j == k) then assignable k emp_id w else loan_of j w))
        × (w' ≡ record w { loans = w'.loans; resp = w'.resp })
  unfolding assign_loan_to_employee atomic_update_loan read_record
  assign_loan_to_employee_lem k emp_id j w =
      elim (atomic_update-Updated loans_db loan_key k (assign_loan_modifier emp_id) w
        (λ a. ground (arith, assign_loan_modifier_lem emp_id a w))) [
          | inl (n, e) ↦ ground arith
          | inr (inl (a, q, (z, e))) ↦ ground (arith, assign_loan_modifier_lem emp_id a w)
          | inr (inr (inl (a, b, q, z, failed, e))) ↦
              ground (arith, assign_loan_modifier_lem emp_id a w)
          | inr (inr (inr (a, b, rs, rs', q, z, r, v, ok, e))) ↦ ground (
            arith,
            assign_loan_modifier_lem emp_id a w,
            read-overwrite loan_key j k b rs rs',
            read-key loan_key k rs a,
          )
        ]
