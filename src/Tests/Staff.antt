-- ===== src/Tests/Staff.antt =====
-- Tests and witnesses of loans and users.
use banking_management_syste.Base.{
  ◌&&◌, if◌then◌else◌, none, ◌≡◌, refl, ℕ, some, [], ◌∷◌, false, ◌==◌,
}
use banking_management_syste.Base.Int.{ℤ, pos, ◌+ℤ◌}
use banking_management_syste.Base.Text.{codes, streq}
use banking_management_syste.Store.{read_record, atomic_update, append_record}
use banking_management_syste.Store.Rows.{find_offset_from, read_loop}
use banking_management_syste.Model.{World, Loan, LoanStatus, pending, assigned, active}
use banking_management_syste.Utils.{
  read_account, atomic_update_loan, atomic_update_account, read_user, append_transaction,
}
use banking_management_syste.Loans.{loan_of, assign_loan_to_employee_lem}
use banking_management_syste.Loans.Decision.{Decides, approve_reject_loan-Decides, paid_in}
use banking_management_syste.Loans.Payment.{
  assigns, after, at_once, approve_reject_loan_once, approve_unrecorded,
}
use banking_management_syste.Utils.Accounts.{account_of}
use banking_management_syste.Employee.{
  approve_reject_loan, approve_loan, approve_reject_loan_modifier,
}
use banking_management_syste.Customer.{deposit_modifier}
use banking_management_syste.Customer.{apply_loan}
use banking_management_syste.Loans.Life.{apply_loan-paid}
use banking_management_syste.Manager.Reviews.{with_status, set_account_status_lem}
use banking_management_syste.Manager.{
  set_account_status, assign_loan_modifier, assign_loan_to_employee,
}
use banking_management_syste.Tests.{cents, bank, stored, purse}

abbrev pub home_loan : LoanStatus → ℕ → Loan ℤ
home_loan status emp_id = record {
  loan_id = 1;
  user_id = 1005;
  amount = pos 900;
  status = status;
  assigned_to = emp_id;
  applied_at = 3;
  processed_at = 0;
  remarks = [];
}

abbrev applied : World ℤ
applied = record bank { loans = stored (home_loan pending 0 ∷ []) }

abbrev in_review : World ℤ
in_review = record bank { loans = stored (home_loan assigned 1003 ∷ []) }

-- The disk of the loans file is full.
abbrev in_review_full : World ℤ
in_review_full = record bank {
  loans = record { rows = some (home_loan assigned 1003 ∷ []); accepts = false };
}

assign_loan_to_employee_lem_example :
    loan_of 1 (assign_loan_to_employee 1 1003 applied).1 ≡ some (home_loan assigned 1003)
unfolding assign_loan_to_employee atomic_update_loan atomic_update find_offset_from
    assign_loan_modifier read_user read_record read_loop
assign_loan_to_employee_lem_example = (assign_loan_to_employee_lem 1 1003 1 applied).1

approve_run :
    account_of 1005 (approve_reject_loan 1 (codes "approve") 1003 8 in_review).1
    ≡ some (purse 1005 (pos 1400) active)
unfolding approve_reject_loan approve_loan approve_reject_loan_modifier atomic_update_loan
    atomic_update_account atomic_update find_offset_from deposit_modifier append_transaction
    append_record read_account read_record read_loop streq ◌+ℤ◌
approve_run = refl

approve_reject_loan-Decides_example :
    Decides
      (codes "approve")
      1003
      8
      1
      1005
      in_review
      (approve_reject_loan 1 (codes "approve") 1003 8 in_review)
approve_reject_loan-Decides_example =
    approve_reject_loan-Decides (codes "approve") 1003 8 1 1005 in_review

-- The approved loan is handed to the manager for a new assignment, in vain, and then decided again.
abbrev reassigned : World ℤ
reassigned =
    (assign_loan_to_employee 1 1003 (approve_reject_loan 1 (codes "approve") 1003 8 in_review).1).1

approve_reject_loan_once_example :
    (approve_reject_loan 1 (codes "reject") 1003 9 reassigned).0 ≡ false
unfolding approve_reject_loan approve_loan approve_reject_loan_modifier atomic_update_loan
    atomic_update_account atomic_update find_offset_from deposit_modifier append_transaction
    append_record read_account read_record read_loop streq
approve_reject_loan_once_example =
    (approve_reject_loan_once (codes "approve") 1003 8 1 in_review reassigned refl
      (after (assigns 1 1003 refl) at_once) (codes "reject") 1003 9 1005).0

approve_unrecorded_example :
    account_of 1005 (approve_reject_loan 1 (codes "approve") 1003 8 in_review_full).1
    ≡ paid_in (home_loan assigned 1003) in_review_full
unfolding read_account read_record read_loop streq deposit_modifier
approve_unrecorded_example =
    (approve_unrecorded 1003 8 1 in_review_full (home_loan assigned 1003) refl refl refl).2

set_account_status_lem_example : account_of 1006 (set_account_status 1005 0 bank).1 ≡ (
    if (set_account_status 1005 0 bank).0 && (1006 == 1005)
    then elim (account_of 1005 bank) [ none ↦ none | some a ↦ some (with_status 0 a) ]
    else account_of 1006 bank)
set_account_status_lem_example = (set_account_status_lem 1005 0 1006 bank).1

apply_loan-paid_example :
    account_of 1005
      (approve_reject_loan 1
        (codes "approve")
        1003
        8
        (assign_loan_to_employee 1 1003 (apply_loan 1005 (pos 900) 3 bank).1).1).1
    ≡ some (purse 1005 (pos 1400) active)
unfolding read_account read_user read_record read_loop ◌+ℤ◌
apply_loan-paid_example =
    (apply_loan-paid 1005 1003 3 8 (pos 900) bank (purse 1005 (pos 500) active) tt refl refl refl
      refl refl refl).2
