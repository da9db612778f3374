-- ===== src/Employee.antt =====
-- src/employee_module.c: new customers, changes of their details, loan decisions and the staff's
-- listings. `now` is time(NULL).
use banking_management_syste.Base.{
  ℕ, ◌%◌, Bool, true, false, not, ◌&&◌, Option, none, some, List, [], ◌∷◌, ◌++◌, ◌==◌,
  if◌then◌else◌, length,
}
use banking_management_syste.Base.Text.{Text, codes, streq, strncpy, strncat}
use banking_management_syste.Store.{M, pure, ◌>>=◌, ◌>>◌}
use banking_management_syste.Model.{
  World, Account, Loan, Txn, User, Double, Arg, format, num, str, say, active, customer, approved,
  rejected, is_pending, is_assigned, is_active, is_customer,
}
use banking_management_syste.Listing.{Printf, list_rows, list_backwards, max_msg_len}
use banking_management_syste.Utils.{
  Crypt, read_user, read_account, write_user, write_account, append_transaction, atomic_update_user,
  atomic_update_account, atomic_update_loan, check_uniqueness, generate_new_user_id,
  generate_password_hash,
}
use banking_management_syste.Customer.{deposit_modifier, entry}
use banking_management_syste.Customer.Views.{
  listed, status_map, is_relevant, txn_text, history_columns, history_rule,
}
use banking_management_syste.Manager.{say_if_silent}

-- The new details of a user, as the request gives them.
pub record Details : Type 0 where
  pub first_name : Text
  pub last_name : Text
  pub age : ℕ
  pub address : Text
  pub email : Text
  pub phone : Text

-- The six assignments of `modify_customer_modifier` and `modify_user_modifier`: the age is cut to a
-- byte, the texts to their fields.
unfoldable pub assign_details : Details → User → User
assign_details d user = record user {
  first_name = strncpy 64 d.first_name;
  last_name = strncpy 64 d.last_name;
  age = d.age % 256;
  address = strncpy 256 d.address;
  email = strncpy 64 d.email;
  phone = strncpy 16 d.phone;
}

abbrev pub details_args : {F : Type 0} → User → List (Arg F)
details_args u =
    num u.user_id
    ∷ str u.first_name
    ∷ str u.last_name
    ∷ num u.age
    ∷ str u.address
    ∷ str u.email
    ∷ str u.phone
    ∷ []

module _ {F : Type 0} ⦃o : Double F⦄ where
  -- What the decision writes at its end.
  abbrev pub decided : Loan F → ℕ → Text → M (World F) (Option (Loan F))
  decided loan now action = do
    say "Loan ID %llu Decision Recorded: %s" (num loan.loan_id ∷ str action ∷ [])
    pure (some (record loan { processed_at = now }))

  -- The credit of an approved loan.
  unfoldable pub approve_loan : Text → ℕ → Loan F → M (World F) (Option (Loan F))
  approve_loan action now loan = do
    cust_acc ← read_account loan.user_id
    if elim cust_acc [ none ↦ false | some acc ↦ is_active acc.active ]
        then (do
          done ← atomic_update_account loan.user_id (λ acc. pure (deposit_modifier loan.amount acc))
          if done
              then (do
                append_transaction (entry 0 loan.user_id loan.amount now (codes "loan_deposit"))
                decided (record loan { status = approved }) now action)
              else (do
                say "Loan Decision Failed: Approved, but failed to deposit funds." []
                pure none))
        else (do
          say "Loan Approval Failed: Customer account is inactive or not found." []
          pure none)

  unfoldable pub approve_reject_loan_modifier :
      Text → ℕ → ℕ → Loan F → M (World F) (Option (Loan F))
  unfolding approve_loan
  approve_reject_loan_modifier action emp_id now loan =
      if not (is_assigned loan.status)
      then say "Loan not assigned to an employee or already processed." [] >> pure none
      else if not (loan.assigned_to == emp_id)
      then say "Loan not assigned to you." [] >> pure none
      else if streq action (codes "approve")
      then approve_loan action now loan
      else if streq action (codes "reject")
      then decided (record loan { status = rejected }) now action
      else say "Invalid action. Use 'approve' or 'reject'." [] >> pure none

  unfoldable pub approve_reject_loan : ℕ → Text → ℕ → ℕ → M (World F) Bool
  approve_reject_loan loan_id action emp_id now = do
    done ← atomic_update_loan loan_id (approve_reject_loan_modifier action emp_id now)
    if done then pure true else (do
      say_if_silent "Loan Decision Failed (Loan not found or concurrency error)"
      pure false)

  -- The caller has filled in the names, the age, the address, the email and the phone of `user`; the
  -- account record is overwritten whole.
  unfoldable pub add_new_customer : Crypt → User → Text → Text → ℕ → M (World F) Bool
  add_new_customer crypt user username password now = do
    unique ← check_uniqueness username user.email user.phone 0
    if unique
        then (do
          user_id ← generate_new_user_id
          let user' = record user {
            user_id = user_id;
            role = customer;
            active = active;
            created_at = now;
            username = strncpy 64 username;
            password_hash = generate_password_hash crypt password 128;
          }
          let acc : Account F = record {
            account_id = user_id;
            user_id = user_id;
            balance = o.zero;
            active = active;
          }
          user_written ← write_user user'
          account_written ← (if user_written then write_account acc else pure false)
          if account_written
              then (do
                say "Customer Added (ID: %u, Username: %s)" (num user_id ∷ str user'.username ∷ [])
                pure true)
              else (do say "Customer Add Failed (Persistence Error)" []; pure false))
        else pure false

module _ {F : Type 0} where
  unfoldable pub modify_customer_modifier : Details → User → M (World F) (Option User)
  unfolding assign_details
  modify_customer_modifier d user =
      if not (is_customer user.role)
      then say "Cannot modify non-customer user." [] >> pure none
      else do
        unique ← check_uniqueness user.username d.email d.phone user.user_id
        if unique
            then (do
              say
                  "Customer Modified (ID: %u).\nNew Details:\nName: %s %s\nAge: %d\nAddress: %s\nEmail: %s\nPhone: %s"
                  (details_args (assign_details d user))
              pure (some (assign_details d user)))
            else pure none

  unfoldable pub modify_customer : ℕ → Details → M (World F) Bool
  modify_customer user_id d = do
    done ← atomic_update_user user_id (modify_customer_modifier d)
    if done then pure true else (do
      say_if_silent "Customer Modification Failed (User not found or concurrency error)"
      pure false)

abbrev pub assigned_header : Text
assigned_header =
    codes "ID   | User ID | Amount   | Status\n" ++ codes "---- | ------- | -------- | --------\n"

abbrev pub process_header : Text
process_header =
    codes "--- Pending Loan Applications (Unassigned) ---\n"
    ++ (codes "ID   | User ID | Amount\n" ++ codes "---- | ------- | --------\n")

-- The employee's history shows the account on the other side of each entry.
abbrev pub sides : {F : Type 0} → Txn F → ℕ × ℕ
sides tx = (tx.from_account, tx.to_account)

module _ {F : Type 0} ⦃p : Printf F⦄ where
  unfoldable pub view_assigned_loans : ℕ → M (World F) Bool
  view_assigned_loans emp_id w = elim w.loans.rows [
    | none ↦ (false, record w { resp = some (format "No loans file found" []) })
    | some loans ↦
        listed (format "No loan applications currently assigned to you." [])
          (list_rows (λ l. (l.assigned_to == emp_id) && is_assigned l.status)
            (λ l. strncpy 256 (p.assigned_row l (status_map l.status))) loans
            (assigned_header, false))
          w
  ]

  unfoldable pub process_loans : M (World F) Bool
  process_loans w = elim w.loans.rows [
    | none ↦ (false, record w { resp = some (format "No loans file found" []) })
    | some loans ↦
        listed (format "No pending loan applications available to process." [])
          (list_rows (λ l. is_pending l.status) (λ l. strncpy 256 (p.pending_row l)) loans
            (process_header, false))
          w
  ]

  -- The first header line is formatted with the customer's number.
  unfoldable pub view_customer_transactions : (ℕ → Text) → ℕ → M (World F) Bool
  view_customer_transactions title cust_id = do
    user ← read_user cust_id
    if elim user [ none ↦ false | some u ↦ is_customer u.role ]
        then (λ w. elim w.transactions.rows [
          | none ↦ (
            false,
            record w {
              resp =
                  some (format "No transaction history found for customer %u" (num cust_id ∷ []));
            },
          )
          | some txs ↦
              listed (format "No transaction history found for customer %u." (num cust_id ∷ []))
                (list_backwards (is_relevant sides cust_id) (txn_text sides cust_id) txs
                  (length txs)
                  (
                    strncat max_msg_len
                        (strncat max_msg_len (strncpy max_msg_len (title cust_id)) history_columns)
                        history_rule,
                    false,
                  ))
                w
        ])
        else (say "Customer ID %u not found." (num cust_id ∷ []) >> pure false)
