-- ===== src/Server/Routes.antt =====
-- The routes of src/server.c that act on the database: how a request's operation and payload select
-- and feed a module's function.
use Prim.Native.String.{String}
use banking_management_syste.Base.{
  ℕ, ◌%◌, Option, none, some, List, [], ◌∷◌, ◌==◌, if◌then◌else◌, get_elem?, take, ◌+◌, length,
}
use banking_management_syste.Base.Text.{Text, codes, streq}
use banking_management_syste.Store.{M, pure, ◌>>◌}
use banking_management_syste.Model.{World, Double, User, customer, active, say}
use banking_management_syste.Listing.{Printf}
use banking_management_syste.Utils.{Crypt}
use banking_management_syste.Customer.{
  change_password, view_balance, deposit_money, withdraw_money, transfer_funds, apply_loan,
  add_feedback, view_personal_details,
}
use banking_management_syste.Customer.Views.{
  view_loan_status, view_feedback_status, view_transaction_history,
}
use banking_management_syste.Employee.{
  Details, add_new_customer, modify_customer, approve_reject_loan, view_assigned_loans,
  process_loans, view_customer_transactions,
}
use banking_management_syste.Manager.{
  set_account_status, view_non_assigned_loans, assign_loan_to_employee, review_feedbacks,
}
use banking_management_syste.Admin.{add_employee, modify_user, list_all_users, change_user_role}

pub data Op : Type 0 where
  login logout change_passwd balance deposit withdraw transfer apply view_loan feedback : Op
  view_feedback view_transactions view_details add_customer modify_cust process decide : Op
  view_assigned view_cust_transactions set_status view_non_assigned assign review add_staff : Op
  modify_usr list_users change_role unknown : Op

-- The chain of `strcmp(op, ...)`.
unfoldable pub op_in : List (Text × Op) → Text → Op
op_in [] op = unknown
op_in ((name, o) ∷ table) op = if streq op name then o else op_in table op

abbrev pub op_table : List (Text × Op)
op_table =
    (codes "LOGIN", login)
    ∷ (codes "LOGOUT", logout)
    ∷ (codes "CHANGE_PASSWORD", change_passwd)
    ∷ (codes "VIEW_BALANCE", balance)
    ∷ (codes "DEPOSIT", deposit)
    ∷ (codes "WITHDRAW", withdraw)
    ∷ (codes "TRANSFER", transfer)
    ∷ (codes "APPLY_LOAN", apply)
    ∷ (codes "VIEW_LOAN", view_loan)
    ∷ (codes "ADD_FEEDBACK", feedback)
    ∷ (codes "VIEW_FEEDBACK", view_feedback)
    ∷ (codes "VIEW_TRANSACTIONS", view_transactions)
    ∷ (codes "VIEW_DETAILS", view_details)
    ∷ (codes "ADD_CUSTOMER", add_customer)
    ∷ (codes "MODIFY_CUSTOMER", modify_cust)
    ∷ (codes "PROCESS_LOANS", process)
    ∷ (codes "APPROVE_REJECT_LOAN", decide)
    ∷ (codes "VIEW_ASSIGNED_LOANS", view_assigned)
    ∷ (codes "VIEW_CUST_TRANSACTIONS", view_cust_transactions)
    ∷ (codes "SET_ACCOUNT_STATUS", set_status)
    ∷ (codes "VIEW_NON_ASSIGNED_LOANS", view_non_assigned)
    ∷ (codes "ASSIGN_LOAN", assign)
    ∷ (codes "REVIEW_FEEDBACK", review)
    ∷ (codes "ADD_EMPLOYEE", add_staff)
    ∷ (codes "MODIFY_USER", modify_usr)
    ∷ (codes "LIST_USERS", list_users)
    ∷ (codes "CHANGE_ROLE", change_role)
    ∷ []

unfoldable pub op_of : Text → Op
unfolding op_in
op_of = op_in op_table

-- The conversions %u or %d or %llu, %lf and %s, and a converted value; an integer is its bit pattern.
pub data Conv : Type 0 where
  u d llu lf s : Conv

pub data Val (F : Type 0) : Type 0 where
  word : ℕ → Val F
  float : F → Val F
  chars : Text → Val F

-- `sscanf` gives the values converted, as many as it returns. The last three are what a local
-- variable holds that no conversion has set.
pub record Libc (F : Type 0) : Type 0 where
  pub scanf : List Conv → Text → List (Val F)
  pub crypt : Crypt
  pub history_title : ℕ → Text
  pub unset_word : ℕ
  pub unset_float : F
  pub unset_chars : Text

module _ {F : Type 0} (c : Libc F) where
  abbrev pub word_at : List (Val F) → ℕ → ℕ
  word_at vals i = elim (get_elem? vals i) [ some (word n) ↦ n | _ ↦ c.unset_word ]

  abbrev pub float_at : List (Val F) → ℕ → F
  float_at vals i = elim (get_elem? vals i) [ some (float x) ↦ x | _ ↦ c.unset_float ]

  abbrev pub text_at : List (Val F) → ℕ → Text
  text_at vals i = elim (get_elem? vals i) [ some (chars t) ↦ t | _ ↦ c.unset_chars ]

-- What follows the first blank; none if there is none.
unfoldable pub after_blank : Text → Option Text
after_blank [] = none
after_blank (b ∷ t) = if b == b' ' then some t else after_blank t

-- The fields of a new customer before `add_new_customer` sets the others.
abbrev pub blank_user : Details → User
blank_user det = record {
  user_id = 0;
  username = [];
  password_hash = [];
  role = customer;
  first_name = take 63 det.first_name;
  last_name = take 63 det.last_name;
  age = det.age % 256;
  address = take 255 det.address;
  email = take 63 det.email;
  phone = take 15 det.phone;
  active = active;
  created_at = 0;
}

module _ {F : Type 0} where
  -- A route that answers a request it cannot read, with status code 1.
  abbrev pub invalid : String → M (World F) ℕ
  invalid text = say text [] >> pure 1

  -- The status code stays 0, whatever the function returns.
  abbrev pub run : {A : Type 0} → M (World F) A → M (World F) ℕ
  run m = m >> pure 0

-- The details in a payload, from the position of the first name; the age stands at `age`.
abbrev details_at : {F : Type 0} → Libc F → List (Val F) → ℕ → ℕ → ℕ → Details
details_at c vals names age rest = record {
  first_name = text_at c vals names;
  last_name = text_at c vals (names + 1);
  age = word_at c vals age;
  address = text_at c vals rest;
  email = text_at c vals (rest + 1);
  phone = text_at c vals (rest + 2);
}

module _ {F : Type 0} ⦃o : Double F⦄ ⦃p : Printf F⦄ (c : Libc F) (now : ℕ) where
  -- The branches of the router but for LOGIN and LOGOUT: the status code, and what the module's
  -- function does. TRANSFER, ADD_FEEDBACK, ADD_CUSTOMER, MODIFY_CUSTOMER, ADD_EMPLOYEE and
  -- MODIFY_USER look at how many values the payload gave.
  unfoldable pub serve : Op → Text → M (World F) ℕ
  serve change_passwd payload =
      let vals = c.scanf (u ∷ s ∷ []) payload in
      run (change_password c.crypt (word_at c vals 0) (text_at c vals 1))
  serve balance payload =
      let vals = c.scanf (u ∷ []) payload in run (view_balance (word_at c vals 0))
  serve deposit payload =
      let vals = c.scanf (u ∷ lf ∷ []) payload in
      run (deposit_money (word_at c vals 0) (float_at c vals 1) now)
  serve withdraw payload =
      let vals = c.scanf (u ∷ lf ∷ []) payload in
      run (withdraw_money (word_at c vals 0) (float_at c vals 1) now)
  serve transfer payload =
      let vals = c.scanf (u ∷ u ∷ lf ∷ []) payload in
      if length vals == 3
      then run (transfer_funds (word_at c vals 0) (word_at c vals 1) (float_at c vals 2) now)
      else invalid "TRANSFER: Invalid payload format."
  serve apply payload =
      let vals = c.scanf (u ∷ lf ∷ []) payload in
      run (apply_loan (word_at c vals 0) (float_at c vals 1) now)
  serve view_loan payload =
      let vals = c.scanf (u ∷ []) payload in run (view_loan_status (word_at c vals 0))
  serve feedback payload =
      let vals = c.scanf (u ∷ []) payload in
      if length vals == 1
      then elim (after_blank payload) [
        | none ↦ run (add_feedback (word_at c vals 0) [] now)
        | some msg ↦ run (add_feedback (word_at c vals 0) msg now)
      ]
      else invalid "ADD_FEEDBACK: Invalid payload format."
  serve view_feedback payload =
      let vals = c.scanf (u ∷ []) payload in run (view_feedback_status (word_at c vals 0))
  serve view_transactions payload =
      let vals = c.scanf (u ∷ []) payload in run (view_transaction_history (word_at c vals 0))
  serve view_details payload =
      let vals = c.scanf (u ∷ []) payload in run (view_personal_details (word_at c vals 0))
  serve add_customer payload =
      let vals = c.scanf (s ∷ s ∷ d ∷ s ∷ s ∷ s ∷ s ∷ s ∷ []) payload in
      if length vals == 8
      then run (
          add_new_customer c.crypt (blank_user (details_at c vals 0 2 3)) (text_at c vals 6)
            (text_at c vals 7) now)
      else invalid "ADD_CUSTOMER: Invalid payload format."
  serve modify_cust payload =
      let vals = c.scanf (u ∷ d ∷ s ∷ s ∷ s ∷ s ∷ s ∷ []) payload in
      if length vals == 7
      then run (modify_customer (word_at c vals 0) (details_at c vals 2 1 4))
      else invalid "MODIFY_CUSTOMER: Invalid payload format."
  serve process payload = run process_loans
  serve decide payload =
      let vals = c.scanf (llu ∷ s ∷ u ∷ []) payload in
      run (approve_reject_loan (word_at c vals 0) (text_at c vals 1) (word_at c vals 2) now)
  serve view_assigned payload =
      let vals = c.scanf (u ∷ []) payload in run (view_assigned_loans (word_at c vals 0))
  serve view_cust_transactions payload =
      let vals = c.scanf (u ∷ []) payload in
      run (view_customer_transactions c.history_title (word_at c vals 0))
  serve set_status payload =
      let vals = c.scanf (u ∷ u ∷ []) payload in
      run (set_account_status (word_at c vals 0) (word_at c vals 1))
  serve view_non_assigned payload = run view_non_assigned_loans
  serve assign payload =
      let vals = c.scanf (u ∷ u ∷ []) payload in
      run (assign_loan_to_employee (word_at c vals 0) (word_at c vals 1))
  serve review payload = run review_feedbacks
  serve add_staff payload =
      let vals = c.scanf (s ∷ s ∷ d ∷ s ∷ s ∷ s ∷ s ∷ s ∷ s ∷ []) payload in
      if length vals == 9
      then run (
          add_employee c.crypt
            (record {
              first_name = text_at c vals 0;
              last_name = text_at c vals 1;
              age = word_at c vals 2;
              address = text_at c vals 3;
              email = text_at c vals 5;
              phone = text_at c vals 6;
            })
            (text_at c vals 4) (text_at c vals 7) (text_at c vals 8) now)
      else invalid "ADD_EMPLOYEE: Invalid payload format."
  serve modify_usr payload =
      let vals = c.scanf (u ∷ d ∷ s ∷ s ∷ s ∷ s ∷ s ∷ []) payload in
      if length vals == 6
      then run (modify_user (word_at c vals 0) (details_at c vals 2 1 4))
      else invalid "MODIFY_USER: Invalid payload format."
  serve list_users payload = run list_all_users
  serve change_role payload =
      let vals = c.scanf (u ∷ s ∷ []) payload in
      run (change_user_role (word_at c vals 0) (text_at c vals 1))
  serve other payload = run (say "Unknown command" [])
