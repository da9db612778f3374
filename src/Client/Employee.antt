-- ===== src/Client/Employee.antt =====
-- `employee_menu` of src/client.c: what a choice asks for, and the request that it sends. The choice 8
-- leaves the menu.
use banking_management_syste.Base.{ℕ, Option, none, some, List, [], ◌∷◌, ◌==◌, if◌then◌else◌}
use banking_management_syste.Base.Text.{Text, codes}
use banking_management_syste.Base.Decimal.{decimal, signed}
use banking_management_syste.Model.{Double}
use banking_management_syste.Server.{Request}
use banking_management_syste.Employee.{Details}
use banking_management_syste.Client.Validators.{
  validate_name_part, validate_address, validate_email, validate_phone, validate_credential,
  max_fname_len, max_addr_len, max_email_len, max_phone_len, max_username_len, max_password_len,
}
use banking_management_syste.Client.Terminal.{
  prompt, Terminal, Term, pure, ◌>>=◌, ◌>>◌, clear, request, read_int, read_llu,
  read_account_number,
}
use banking_management_syste.Client.Customer.{ask_password}

-- The fields of ADD_CUSTOMER, and those that MODIFY_CUSTOMER and MODIFY_USER have after the number.
abbrev pub customer_fields : Details → Text → Text → List Text
customer_fields det username password =
    det.first_name
    ∷ det.last_name
    ∷ signed det.age
    ∷ det.address
    ∷ det.email
    ∷ det.phone
    ∷ username
    ∷ password
    ∷ []

abbrev pub modify_fields : ℕ → Details → List Text
modify_fields user_id det =
    decimal user_id
    ∷ signed det.age
    ∷ det.first_name
    ∷ det.last_name
    ∷ det.address
    ∷ det.email
    ∷ det.phone
    ∷ []

module _ {F : Type 0} (t : Terminal F) where
  -- The six prompts for a person's details, which three choices share.
  unfoldable pub ask_details : Term Details
  ask_details = do
    fname ← prompt t max_fname_len validate_name_part
    lname ← prompt t max_fname_len validate_name_part
    age ← read_int t
    clear
    address ← prompt t max_addr_len validate_address
    email ← prompt t max_email_len validate_email
    phone ← prompt t max_phone_len validate_phone
    pure (record {
      first_name = fname;
      last_name = lname;
      age = age;
      address = address;
      email = email;
      phone = phone;
    })

  unfoldable pub ask_new_customer : Term (Option Request)
  unfolding ask_details
  ask_new_customer = do
    det ← ask_details
    username ← prompt t max_username_len validate_credential
    password ← prompt t max_password_len validate_credential
    pure (some (request "ADD_CUSTOMER" (customer_fields det username password)))

  abbrev ask_modify_customer : Term (Option Request)
  unfolding ask_details
  ask_modify_customer = do
    cust_id ← read_account_number t
    det ← ask_details
    pure (some (request "MODIFY_CUSTOMER" (modify_fields cust_id det)))

  abbrev ask_decision : ℕ → Term (Option Request)
  ask_decision user_id = do
    loan_id ← read_llu t
    action_code ← read_int t
    clear
    if action_code == 1
        then pure (
            some (
              request "APPROVE_REJECT_LOAN"
                (decimal loan_id ∷ codes "approve" ∷ decimal user_id ∷ [])))
        else if action_code == 0
        then pure (
            some (
              request "APPROVE_REJECT_LOAN"
                (decimal loan_id ∷ codes "reject" ∷ decimal user_id ∷ [])))
        else pure none

  abbrev ask_transactions : Term (Option Request)
  ask_transactions = do
    cust_id ← read_account_number t
    pure (some (request "VIEW_CUST_TRANSACTIONS" (decimal cust_id ∷ [])))

  unfoldable pub employee_choice : ⦃o : Double F⦄ → ℕ → ℕ → Term (Option Request)
  unfolding ask_new_customer ask_modify_customer
  employee_choice user_id choice =
      if choice == 1
      then ask_new_customer
      else if choice == 2
      then ask_modify_customer
      else if choice == 3
      then pure (some (request "PROCESS_LOANS" []))
      else if choice == 4
      then ask_decision user_id
      else if choice == 5
      then pure (some (request "VIEW_ASSIGNED_LOANS" (decimal user_id ∷ [])))
      else if choice == 6
      then ask_transactions
      else if choice == 7
      then ask_password t user_id
      else if choice == 8
      then pure (some (request "LOGOUT" []))
      else pure none
