-- ===== src/Client/Admin.antt =====
-- The choices of `admin_menu` of src/client.c that send one request. The choice 3 stands with the
-- menus, since it sends two; the choice 5 leaves the menu.
pub mod Staff
use banking_management_syste.Base.{ℕ, not, Option, none, some, [], ◌∷◌, ◌==◌, if◌then◌else◌, List}
use banking_management_syste.Base.Text.{Text, codes, streq}
use banking_management_syste.Base.Decimal.{decimal, signed}
use banking_management_syste.Model.{Double}
use banking_management_syste.Server.{Request}
use banking_management_syste.Client.Input.{read_validated_string}
use banking_management_syste.Client.Validators.{
  validate_name_part, validate_address, validate_email, validate_phone, validate_credential,
  max_fname_len, max_addr_len, max_email_len, max_phone_len, max_username_len, max_password_len,
  max_role_str,
}
use banking_management_syste.Client.Terminal.{
  prompt, Terminal, Term, pure, ◌>>=◌, ◌>>◌, clear, request, read_int,
}
use banking_management_syste.Client.Customer.{ask_password}
use banking_management_syste.Employee.{Details}
use banking_management_syste.Client.Employee.{ask_details, modify_fields}

-- snprintf's fields for ADD_EMPLOYEE.
abbrev pub employee_fields : Details → Text → Text → Text → List Text
employee_fields det role username password =
    det.first_name
    ∷ det.last_name
    ∷ signed det.age
    ∷ det.address
    ∷ role
    ∷ det.email
    ∷ det.phone
    ∷ username
    ∷ password
    ∷ []

module _ {F : Type 0} (t : Terminal F) where
  -- strcmp(role, "customer") is not 0 for every other role.
  unfoldable pub ask_new_employee : Term (Option Request)
  ask_new_employee = do
    fname ← prompt t max_fname_len validate_name_part
    lname ← prompt t max_fname_len validate_name_part
    age ← read_int t
    clear
    address ← prompt t max_addr_len validate_address
    role ← prompt t max_role_str validate_credential
    if not (streq role (codes "customer")) then pure none else (do
      email ← prompt t max_email_len validate_email
      phone ← prompt t max_phone_len validate_phone
      username ← prompt t max_username_len validate_credential
      password ← prompt t max_password_len validate_credential
      pure (
          some (
            request "ADD_EMPLOYEE" (
              employee_fields
                (record {
                  first_name = fname;
                  last_name = lname;
                  age = age;
                  address = address;
                  email = email;
                  phone = phone;
                })
                role username password))))

  abbrev ask_modify_user : Term (Option Request)
  unfolding ask_details
  ask_modify_user = do
    target_id ← read_int t
    clear
    det ← ask_details t
    pure (some (request "MODIFY_USER" (modify_fields target_id det)))

  -- The choice 3 after the list of users has come.
  unfoldable pub ask_role : Term (Option Request)
  ask_role = do
    target_id ← read_int t
    clear
    role ← prompt t max_role_str validate_credential
    pure (some (request "CHANGE_ROLE" (decimal target_id ∷ role ∷ [])))

  unfoldable pub admin_choice : ⦃o : Double F⦄ → ℕ → ℕ → Term (Option Request)
  unfolding ask_new_employee ask_modify_user
  admin_choice user_id choice =
      if choice == 1
      then ask_new_employee
      else if choice == 2
      then ask_modify_user
      else if choice == 4
      then ask_password t user_id
      else if choice == 5
      then pure (some (request "LOGOUT" []))
      else pure none
