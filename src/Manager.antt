-- ===== src/Manager.antt =====
-- src/manager_module.c: account status, loan assignment, pending loans and feedback review.
pub mod Reviews
use banking_management_syste.Base.{
  ℕ, ◌+◌, Bool, true, false, not, ◌&&◌, Option, none, some, List, [], ◌∷◌, ◌++◌, ◌==◌,
  if◌then◌else◌,
}
use Prim.Native.String.{String}
use banking_management_syste.Base.Text.{Text, codes, strncpy, strncat}
use banking_management_syste.Store.{M, pure, ◌>>=◌, ◌>>◌}
use banking_management_syste.Model.{
  World, Account, Loan, Feedback, format, listing, num, str, say, active, inactive, assigned,
  is_pending, is_employee,
}
use banking_management_syste.Listing.{Printf, list_rows, max_msg_len}
use banking_management_syste.Utils.{read_user, atomic_update_account, atomic_update_loan}
use banking_management_syste.Customer.Views.{listed}

-- `if (resp_msg[0] == '\0') snprintf(...)`
abbrev pub say_if_silent : {F : Type 0} → String → M (World F) (Unit {0})
say_if_silent text w = elim w.resp [ none ↦ say text [] w | some m ↦ (tt, w) ]

module _ {F : Type 0} where
  unfoldable pub set_status_modifier : ℕ → Account F → Option (Account F)
  set_status_modifier status acc =
      some (record acc { active = if status == 1 then active else inactive })

  unfoldable pub set_account_status : ℕ → ℕ → M (World F) Bool
  set_account_status cust_id status = do
    done ← atomic_update_account cust_id (λ acc. pure (set_status_modifier status acc))
    if done
        then (do
          say "Account %u Status Updated to: %s"
              (num cust_id ∷ str (if status == 1 then codes "ACTIVE" else codes "INACTIVE") ∷ [])
          pure true)
        else (do say "Account Status Update Failed (Account not found)" []; pure false)

  unfoldable pub assign_loan_modifier : ℕ → Loan F → M (World F) (Option (Loan F))
  assign_loan_modifier emp_id loan =
      if not (is_pending loan.status)
      then say "Loan is not pending, cannot assign." [] >> pure none
      else do
        emp ← read_user emp_id
        if elim emp [ none ↦ false | some u ↦ is_employee u.role ]
            then (do
              say "Loan %llu Assigned to Employee %u" (num loan.loan_id ∷ num emp_id ∷ [])
              pure (some (record loan { assigned_to = emp_id; status = assigned })))
            else (do
              say "Employee ID %u not found or is not an employee." (num emp_id ∷ [])
              pure none)

  unfoldable pub assign_loan_to_employee : ℕ → ℕ → M (World F) Bool
  assign_loan_to_employee loan_id emp_id = do
    done ← atomic_update_loan loan_id (assign_loan_modifier emp_id)
    if done then pure true else (do
      say_if_silent "Loan Assignment Failed (Loan not found or concurrency error)"
      pure false)

abbrev pub pending_header : Text
pending_header =
    codes "--- Non-Assigned (Pending) Loans ---\n"
    ++ (codes "ID   | User ID | Amount\n" ++ codes "---- | ------- | --------\n")

-- The loop of `review_feedbacks`: each unreviewed record is listed, marked in place and counted.
-- The result of the write is not looked at.
unfoldable pub review_loop :
    (Feedback → Text) → Bool → List Feedback → Text × ℕ → List Feedback × (Text × ℕ)
review_loop row accepts [] acc = ([], acc)
review_loop row accepts (b ∷ bs) (buf, count) =
    let (bs', acc) = review_loop row accepts bs (
      if b.reviewed
      then (buf, count)
      else (strncat max_msg_len buf (strncpy 600 (row b)), count + 1)) in
    ((if not b.reviewed && accepts then record b { reviewed = true } else b) ∷ bs', acc)

module _ {F : Type 0} ⦃p : Printf F⦄ where
  unfoldable pub view_non_assigned_loans : M (World F) Bool
  view_non_assigned_loans w = elim w.loans.rows [
    | none ↦ (false, record w { resp = some (format "No loans file found" []) })
    | some loans ↦
        listed (format "No non-assigned loans found." [])
          (list_rows (λ l. is_pending l.status) (λ l. strncpy 256 (p.pending_row l)) loans
            (pending_header, false))
          w
  ]

  unfoldable pub review_feedbacks : M (World F) Bool
  review_feedbacks w = elim w.feedback.rows [
    | none ↦ (false, record w { resp = some (format "No feedback file found" []) })
    | some bs ↦
        let (bs', (buf, count)) =
          review_loop p.review_row w.feedback.accepts bs
            (codes "--- Unreviewed Feedback ---\n", 0) in
        (
          true,
          record w {
            feedback = record (w.feedback) { rows = some bs' };
            resp = some (
                if count == 0
                then format "No new feedback found to review." []
                else listing (strncat max_msg_len buf (strncpy 100 (p.reviewed_row count))));
          },
        )
  ]
