-- ===== src/Client/Routed/Choices.antt =====
-- What the menus of src/client.c make src/server.c do: from a choice and what is then typed to the
-- function that is called.
use banking_management_syste.Base.{ℕ, ◌^◌, ◌≤◌, ◌<◌, ◌≡◌, Option, some, [], ◌∷◌, arith, length}
use banking_management_syste.Base.Text.{Text, codes}
use banking_management_syste.Base.Decimal.{decimal}
use banking_management_syste.Model.{World, Double}
use banking_management_syste.Store.{M}
use banking_management_syste.Listing.{Printf}
use banking_management_syste.Customer.{
  transfer_funds, change_password, view_balance, deposit_money, withdraw_money, apply_loan,
  add_feedback, view_personal_details,
}
use banking_management_syste.Customer.Views.{
  view_loan_status, view_feedback_status, view_transaction_history,
}
use banking_management_syste.Employee.{
  approve_reject_loan, view_assigned_loans, process_loans, view_customer_transactions,
}
use banking_management_syste.Manager.{
  set_account_status, view_non_assigned_loans, assign_loan_to_employee, review_feedbacks,
}
use banking_management_syste.Admin.{change_user_role}
use banking_management_syste.Server.{Request}
use banking_management_syste.Server.Routes.{Libc, run}
use banking_management_syste.Client.Input.{clear_stdin}
use banking_management_syste.Client.Validators.{
  validate_not_empty, validate_credential, max_password_len, max_role_str,
}
use banking_management_syste.Client.Terminal.{
  Terminal, Term, prompt, join, read_account_number, read_valid_double,
}
use banking_management_syste.Client.Payload.{IsWord, length-decimal}
use banking_management_syste.Client.Served.{length-join}
use banking_management_syste.Client.Customer.{customer_choice}
use banking_management_syste.Client.Employee.{employee_choice}
use banking_management_syste.Client.Manager.{manager_choice}
use banking_management_syste.Client.Admin.{admin_choice, ask_role}

pub approve-IsWord : IsWord (codes "approve")
approve-IsWord = ground arith

pub reject-IsWord : IsWord (codes "reject")
reject-IsWord = ground arith

pub fits_two :
    (n : ℕ) (v : Text) → n < 2 ^ 32 → length v ≤ 1000 → length (join (decimal n ∷ v ∷ [])) ≤ 1023
fits_two n v h k = omega (arith, length-join (decimal n) v [], length-decimal n h)

pub fits_three :
    (n m : ℕ) (v : Text)
    → n < 2 ^ 32
    → m < 2 ^ 32
    → length v ≤ 1000
    → length (join (decimal n ∷ decimal m ∷ v ∷ [])) ≤ 1023
fits_three n m v h k b = omega (
  arith,
  length-join (decimal n) (decimal m) (v ∷ []),
  length-join (decimal m) v [],
  length-decimal n h,
  length-decimal m k,
)

pub fits_decision :
    (n m : ℕ) (v : Text)
    → n < 2 ^ 32
    → m < 2 ^ 32
    → length v ≤ 31
    → length (join (decimal n ∷ v ∷ decimal m ∷ [])) ≤ 1023
fits_decision n m v h k b = omega (
  arith,
  length-join (decimal n) v (decimal m ∷ []),
  length-join v (decimal m) [],
  length-decimal n h,
  length-decimal m k,
)

module _ {F : Type 0} ⦃o : Double F⦄ ⦃p : Printf F⦄ (lib : Libc F) (t : Terminal F)
    (reads_back : F → Type 0) (now user_id : ℕ) where
  abbrev print_double : F → Text
  print_double = t.print_double

  -- What a choice of a menu means for the user `user_id`, once the prompts have read what was typed: one
  -- constructor for each choice but the logout and those with a person's details. Numbers fit 32
  -- bits, or 31 for the balance, amounts are read back as printed, and words have no white space and fit the router's
  -- buffers; a feedback is any text.
  pub data Wants : Term (Option Request) → Text → M (World F) ℕ → Text → Type 0 where
    deposits :
        {x : F} {input rest : Text}
        → user_id < 2 ^ 32
        → reads_back x
        → length (print_double x) ≤ 1000
        → read_valid_double t input ≡ some (x, rest)
        → Wants (customer_choice t user_id 2) input (run (deposit_money user_id x now)) (rest)
    withdraws :
        {x : F} {input rest : Text}
        → user_id < 2 ^ 32
        → reads_back x
        → length (print_double x) ≤ 1000
        → read_valid_double t input ≡ some (x, rest)
        → Wants (customer_choice t user_id 3) input (run (withdraw_money user_id x now)) (rest)
    applies :
        {x : F} {input rest : Text}
        → user_id < 2 ^ 32
        → reads_back x
        → length (print_double x) ≤ 1000
        → read_valid_double t input ≡ some (x, rest)
        → Wants (customer_choice t user_id 5) input (run (apply_loan user_id x now)) (rest)
    transfers :
        {to_id : ℕ} {x : F} {input mid rest : Text}
        → user_id < 2 ^ 32
        → to_id < 2 ^ 32
        → reads_back x
        → length (print_double x) ≤ 1000
        → read_account_number t input ≡ some (to_id, mid)
        → read_valid_double t mid ≡ some (x, rest)
        → Wants
            (customer_choice t user_id 4)
            input
            (run (transfer_funds user_id to_id x now))
            (rest)
    gives_feedback :
        {text input rest : Text}
        → user_id < 2 ^ 32
        → length text ≤ 511
        → prompt t 512 validate_not_empty input ≡ some (text, rest)
        → Wants (customer_choice t user_id 7) input (run (add_feedback user_id text now)) (rest)
    views_balance :
        {input : Text}
        → user_id < 2 ^ 31
        → Wants (customer_choice t user_id 1) input (run (view_balance user_id)) (input)
    views_loans :
        {input : Text}
        → user_id < 2 ^ 32
        → Wants (customer_choice t user_id 6) input (run (view_loan_status user_id)) (input)
    views_feedback :
        {input : Text}
        → user_id < 2 ^ 32
        → Wants (customer_choice t user_id 8) input (run (view_feedback_status user_id)) (input)
    views_history :
        {input : Text}
        → user_id < 2 ^ 32
        → Wants (customer_choice t user_id 9) input (run (view_transaction_history user_id)) (input)
    views_details :
        {input : Text}
        → user_id < 2 ^ 32
        → Wants (customer_choice t user_id 10) input (run (view_personal_details user_id)) (input)
    customer_password :
        {newpass input rest : Text}
        → user_id < 2 ^ 32
        → IsWord newpass
        → length newpass ≤ 127
        → prompt t max_password_len validate_credential input ≡ some (newpass, rest)
        → Wants
            (customer_choice t user_id 11)
            input
            (run (change_password lib.crypt user_id newpass))
            (rest)
    employee_password :
        {newpass input rest : Text}
        → user_id < 2 ^ 32
        → IsWord newpass
        → length newpass ≤ 127
        → prompt t max_password_len validate_credential input ≡ some (newpass, rest)
        → Wants
            (employee_choice t user_id 7)
            input
            (run (change_password lib.crypt user_id newpass))
            (rest)
    manager_password :
        {newpass input rest : Text}
        → user_id < 2 ^ 32
        → IsWord newpass
        → length newpass ≤ 127
        → prompt t max_password_len validate_credential input ≡ some (newpass, rest)
        → Wants
            (manager_choice t user_id 5)
            input
            (run (change_password lib.crypt user_id newpass))
            (rest)
    admin_password :
        {newpass input rest : Text}
        → user_id < 2 ^ 32
        → IsWord newpass
        → length newpass ≤ 127
        → prompt t max_password_len validate_credential input ≡ some (newpass, rest)
        → Wants
            (admin_choice t user_id 4)
            input
            (run (change_password lib.crypt user_id newpass))
            (rest)
    processes :
        {input : Text} → Wants (employee_choice t user_id 3) input (run process_loans) (input)
    approves :
        {loan : ℕ} {input mid rest : Text}
        → user_id < 2 ^ 32
        → loan < 2 ^ 32
        → t.scan_llu input ≡ (some loan, mid)
        → t.scan_int mid ≡ (some 1, rest)
        → Wants
            (employee_choice t user_id 4)
            input
            (run (approve_reject_loan loan (codes "approve") user_id now))
            (clear_stdin rest)
    rejects :
        {loan : ℕ} {input mid rest : Text}
        → user_id < 2 ^ 32
        → loan < 2 ^ 32
        → t.scan_llu input ≡ (some loan, mid)
        → t.scan_int mid ≡ (some 0, rest)
        → Wants
            (employee_choice t user_id 4)
            input
            (run (approve_reject_loan loan (codes "reject") user_id now))
            (clear_stdin rest)
    views_assigned :
        {input : Text}
        → user_id < 2 ^ 32
        → Wants (employee_choice t user_id 5) input (run (view_assigned_loans user_id)) (input)
    views_transactions :
        {n : ℕ} {input rest : Text}
        → n < 2 ^ 32
        → read_account_number t input ≡ some (n, rest)
        → Wants
            (employee_choice t user_id 6)
            input
            (run (view_customer_transactions lib.history_title n))
            (rest)
    sets_status :
        {n status : ℕ} {input mid rest : Text}
        → n < 2 ^ 32
        → status < 2 ^ 32
        → read_account_number t input ≡ some (n, mid)
        → t.scan_int mid ≡ (some status, rest)
        → Wants
            (manager_choice t user_id 1)
            input
            (run (set_account_status n status))
            (clear_stdin rest)
    views_pending :
        {input : Text}
        → Wants (manager_choice t user_id 2) input (run view_non_assigned_loans) (input)
    assigns :
        {loan n : ℕ} {input mid rest : Text}
        → loan < 2 ^ 32
        → n < 2 ^ 32
        → t.scan_int input ≡ (some loan, mid)
        → t.scan_int mid ≡ (some n, rest)
        → Wants
            (manager_choice t user_id 3)
            input
            (run (assign_loan_to_employee loan n))
            (clear_stdin rest)
    reviews :
        {input : Text} → Wants (manager_choice t user_id 4) input (run review_feedbacks) (input)
    changes_role :
        {n : ℕ} {role input mid rest : Text}
        → n < 2 ^ 32
        → IsWord role
        → length role ≤ 31
        → t.scan_int input ≡ (some n, mid)
        → prompt t max_role_str validate_credential (clear_stdin mid) ≡ some (role, rest)
        → Wants (ask_role t) input (run (change_user_role n role)) (rest)
