-- ===== src/Inspector.antt =====
-- src/db_inspector.c: the program that prints the five files. What it prints is a list of formats with
-- their arguments, a floating-point number as the text that %.2f gives. That text, `ctime` and `access`
-- are the C library's, parameters.
pub mod Laws
use Prim.Native.String.{String}
use banking_management_syste.Base.{
  ℕ, suc, Bool, true, false, Option, none, some, List, [], ◌∷◌, ◌++◌, ◌==◌, if◌then◌else◌, take,
  ◌%◌, not, set,
}
use banking_management_syste.Base.Text.{Text, codes}
use banking_management_syste.Store.{Table}
use banking_management_syste.Model.{
  World, Message, Arg, format, num, str, dbl, User, Account, Txn, Loan, Feedback, Role, customer,
  employee, manager, admin, Status, active, inactive, LoanStatus, pending, assigned, approved,
  rejected,
}
use banking_management_syste.Client.Input.{cut_newline}

unfoldable pub get_role_str : Role → Text
get_role_str customer = codes "CUSTOMER"
get_role_str employee = codes "EMPLOYEE"
get_role_str manager = codes "MANAGER"
get_role_str admin = codes "ADMIN"

unfoldable pub get_loan_status_str : LoanStatus → Text
get_loan_status_str pending = codes "PENDING"
get_loan_status_str assigned = codes "ASSIGNED"
get_loan_status_str approved = codes "APPROVED"
get_loan_status_str rejected = codes "REJECTED"

-- The enumerations of include/server.h as %d prints them.
abbrev role_code : Role → ℕ
role_code customer = 0
role_code employee = 1
role_code manager = 2
role_code admin = 3

abbrev loan_code : LoanStatus → ℕ
loan_code pending = 0
loan_code assigned = 1
loan_code approved = 2
loan_code rejected = 3

abbrev pub status_text : Status → Text
status_text active = codes "ACTIVE"
status_text inactive = codes "INACTIVE"

abbrev pub Output : Type 0 → Type 0
Output F = List (Message F)

module _ {F : Type 0} where
  abbrev pub printf : String → List (Arg F) → Output F
  printf text args = format text args ∷ []

  -- The three lines above a file, of which the middle one names the file.
  abbrev pub title : String → String → Output F
  title text file =
      printf "\n==========================================\n" []
      ++ printf text (str (codes file) ∷ [])
      ++ printf "==========================================\n" []

  -- The loop of every dump: a title with the number of the record, counted up from `count`, and its
  -- lines.
  unfoldable pub dump : {A : Type 0} → String → (A → Output F) → ℕ → List A → Output F
  dump heading show count [] = []
  dump heading show count (r ∷ rs) =
      printf heading (num count ∷ []) ++ show r ++ dump heading show (suc count) rs

  -- A file that does not open gives a message instead.
  unfoldable pub print_file :
      {A : Type 0} → String → String → String → String → (A → Output F) → Table A → Output F
  unfolding dump
  print_file text file failure heading show t =
      title text file ++ elim t.rows [ none ↦ printf failure [] | some rs ↦ dump heading show 1 rs ]

  module _ (ctime : ℕ → Text) where
    unfoldable pub print_timestamp : ℕ → String → Output F
    print_timestamp t label =
        if t == 0
        then printf "%s: (not set)\n" (str (codes label) ∷ [])
        else printf "%s: %s\n" (str (codes label) ∷ str (cut_newline (take 63 (ctime t))) ∷ [])

    unfoldable pub user_lines : User → Output F
    unfolding get_role_str print_timestamp
    user_lines u =
        printf "  User ID:      %u\n" (num u.user_id ∷ [])
        ++ printf "  Username:     %s\n" (str u.username ∷ [])
        ++ printf "  Password Hash:%s\n" (str u.password_hash ∷ [])
        ++ printf "  Role:         %s (%d)\n"
            (str (get_role_str u.role) ∷ num (role_code u.role) ∷ [])
        ++ printf "  Name:         %s %s\n" (str u.first_name ∷ str u.last_name ∷ [])
        ++ printf "  Age:          %u\n" (num u.age ∷ [])
        ++ printf "  Address:      %s\n" (str u.address ∷ [])
        ++ printf "  Email:        %s\n" (str u.email ∷ [])
        ++ printf "  Phone:        %s\n" (str u.phone ∷ [])
        ++ printf "  User Status:  %s\n" (str (status_text u.active) ∷ [])
        ++ print_timestamp u.created_at "  Created At"

    unfoldable pub print_users : Table User → Output F
    unfolding print_file user_lines
    print_users =
        print_file "  DUMPING USERS (from %s)\n" "./db/users.db" "Could not open users.db"
          "\n--- User Record %d ---\n" user_lines

  module _ (two_digits : F → Text) where
    unfoldable pub account_lines : Account F → Output F
    account_lines acc =
        printf "  Account ID:   %u\n" (num acc.account_id ∷ [])
        ++ printf "  User ID:      %u\n" (num acc.user_id ∷ [])
        ++ printf "  Balance:      %.2f\n" (str (two_digits acc.balance) ∷ [])
        ++ printf "  Acct Status:  %s\n" (str (status_text acc.active) ∷ [])

    unfoldable pub print_accounts : Table (Account F) → Output F
    unfolding print_file account_lines
    print_accounts =
        print_file "  DUMPING ACCOUNTS (from %s)\n" "./db/accounts.db" "Could not open accounts.db"
          "\n--- Account Record %d ---\n" account_lines

  module _ (two_digits : F → Text) (ctime : ℕ → Text) where
    unfoldable pub transaction_lines : Txn F → Output F
    unfolding print_timestamp
    transaction_lines tx =
        printf "  Txn ID:       %llu\n" (num tx.txn_id ∷ [])
        ++ printf "  From Acct:    %u\n" (num tx.from_account ∷ [])
        ++ printf "  To Acct:      %u\n" (num tx.to_account ∷ [])
        ++ printf "  Amount:       %.2f\n" (str (two_digits tx.amount) ∷ [])
        ++ printf "  Narration:    %s\n" (str tx.narration ∷ [])
        ++ print_timestamp ctime tx.timestamp "  Timestamp"

    unfoldable pub print_transactions : Table (Txn F) → Output F
    unfolding print_file transaction_lines
    print_transactions =
        print_file "  DUMPING TRANSACTIONS (from %s)\n" "./db/transactions.db"
          "Could not open transactions.db" "\n--- Transaction Record %d ---\n" transaction_lines

    unfoldable pub loan_lines : Loan F → Output F
    unfolding get_loan_status_str print_timestamp
    loan_lines loan =
        printf "  Loan ID:      %llu\n" (num loan.loan_id ∷ [])
        ++ printf "  User ID:      %u\n" (num loan.user_id ∷ [])
        ++ printf "  Amount:       %.2f\n" (str (two_digits loan.amount) ∷ [])
        ++ printf "  Status:       %s (%d)\n"
            (str (get_loan_status_str loan.status) ∷ num (loan_code loan.status) ∷ [])
        ++ printf "  Assigned To:  %u\n" (num loan.assigned_to ∷ [])
        ++ printf "  Remarks:      %s\n" (str loan.remarks ∷ [])
        ++ print_timestamp ctime loan.applied_at "  Applied At"
        ++ print_timestamp ctime loan.processed_at "  Processed At"

    unfoldable pub print_loans : Table (Loan F) → Output F
    unfolding print_file loan_lines
    print_loans =
        print_file "  DUMPING LOANS (from %s)\n" "./db/loans.db" "Could not open loans.db"
          "\n--- Loan Record %d ---\n" loan_lines

    unfoldable pub feedback_lines : Feedback → Output F
    unfolding print_timestamp
    feedback_lines fb =
        printf "  Feedback ID:  %llu\n" (num fb.fb_id ∷ [])
        ++ printf "  User ID:      %u\n" (num fb.user_id ∷ [])
        ++ printf "  Reviewed:     %s\n"
            (str (if fb.reviewed then codes "YES" else codes "NO") ∷ [])
        ++ printf "  Message:      %s\n" (str fb.message ∷ [])
        ++ printf "  Action Taken: %s\n" (str fb.action_taken ∷ [])
        ++ print_timestamp ctime fb.submitted_at "  Submitted At"

    unfoldable pub print_feedback : Table Feedback → Output F
    unfolding print_file feedback_lines
    print_feedback =
        print_file "  DUMPING FEEDBACK (from %s)\n" "./db/feedback.db" "Could not open feedback.db"
          "\n--- Feedback Record %d ---\n" feedback_lines

    -- `main`, given whether the directory of the files is there: the exit status, and what is printed.
    unfoldable pub inspect : Bool → World F → ℕ × Output F
    unfolding print_users print_accounts
    inspect false w = (
      1,
      printf "--- [Database Inspector Utility] ---\n" []
          ++ printf "Error: DB directory '%s' not found.\n" (str (codes "./db") ∷ [])
          ++ printf "Are you running this from your project's root directory?\n" [],
    )
    inspect true w = (
      0,
      printf "--- [Database Inspector Utility] ---\n" []
          ++ print_users ctime w.users
          ++ print_accounts two_digits w.accounts
          ++ print_transactions w.transactions
          ++ print_loans w.loans
          ++ print_feedback w.feedback
          ++ printf "\n--- [Inspection Complete] ---\n" [],
    )
