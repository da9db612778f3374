-- ===== src/Tests/Typed.antt =====
-- Tests and witnesses of the prompts of the client and of the payloads that it sends.
use banking_management_syste.Base.{◌≤◌, ◌≡◌, refl, some, [], ◌∷◌, ◌++◌, arith, length}
use banking_management_syste.Base.Int.{ℤ, pos}
use banking_management_syste.Base.Text.{Text, codes, streq}
use banking_management_syste.Base.Decimal.{digits, decimal, signed}
use banking_management_syste.Employee.{Details, add_new_customer}
use banking_management_syste.Server.Routes.{Libc, op_of, serve, run, invalid}
use banking_management_syste.Client.Input.{
  fgets_chars, cut_newline, read_rounds, read_validated_string, clear_stdin,
}
use banking_management_syste.Client.Input.Prompts.{
  Answers, read_validated_string_iff, read_validated_string-splits,
}
use banking_management_syste.Client.Validators.{
  contains, all_digits, validate_not_empty, validate_name_part, validate_address, validate_email,
  validate_phone, validate_credential,
}
use banking_management_syste.Client.Terminal.{join, request}
use banking_management_syste.Client.Employee.{customer_fields, modify_fields}
use banking_management_syste.Client.Admin.{ask_new_employee, employee_fields}
use banking_management_syste.Client.Admin.Staff.{ask_new_employee-customer}
use banking_management_syste.Client.Served.{
  typed_user, FitsUser, IsAccepted, customer_fields-fits, add_customer-served, add_customer-misread,
  modify_user-refused,
}
use banking_management_syste.Tests.{cents, bank}
use banking_management_syste.Tests.Router.{short}
use banking_management_syste.Tests.Keyboard.{console, scan_number, leading}
use banking_management_syste.Tests.Scanner.{
  scan, scan-IsScanf, visible, visible-one_line, visible_word, visible_word-IsWord, print_cents,
  NotNegative, value_from,
}

abbrev pub libc : Libc ℤ
libc = record {
  scanf = scan;
  crypt = λ password salt. some password;
  history_title = λ n. codes "History";
  unset_word = 0;
  unset_float = pos 0;
  unset_chars = [];
}

-- An empty line, then a name.
abbrev answers : Text
answers = 10 ∷ codes "asha" ++ 10 ∷ []

read_validated_string_iff_example : Answers 64 validate_not_empty [] answers (codes "asha") []
unfolding read_validated_string read_rounds fgets_chars cut_newline validate_not_empty
read_validated_string_iff_example =
    (read_validated_string_iff [] 64 validate_not_empty answers (codes "asha") [] (omega arith)).0
      refl

read_validated_string-splits_example :
    read_validated_string [] 4 validate_not_empty (codes "ashaRao" ++ 10 ∷ [])
    ≡ some (codes "ash", codes "aRao" ++ 10 ∷ [])
unfolding validate_not_empty visible
read_validated_string-splits_example =
    read_validated_string-splits [] 4 validate_not_empty b'a' (codes "shaRao") []
      (visible-one_line (codes "ashaRao") refl) (omega arith) refl

abbrev asha : Details
asha = record {
  first_name = codes "Asha";
  last_name = codes "Rao";
  age = 41;
  address = codes "Mumbai";
  email = codes "asha@bank.com";
  phone = codes "9876543210";
}

asha-IsAccepted : IsAccepted asha
unfolding validate_name_part validate_address validate_email validate_phone validate_not_empty
    contains all_digits
asha-IsAccepted = record {
  first_ok = refl;
  last_ok = refl;
  age_ok = omega arith;
  address_ok = refl;
  email_ok = refl;
  phone_ok = refl;
}

asha-FitsUser : FitsUser asha
asha-FitsUser = record {
  first_fits = omega arith;
  last_fits = omega arith;
  age_fits = omega arith;
  address_fits = omega arith;
  email_fits = omega arith;
  phone_fits = omega arith;
}

customer_fields-fits_example :
    length (join (customer_fields asha (codes "asha") (codes "secret"))) ≤ 598
unfolding validate_credential validate_not_empty contains
customer_fields-fits_example =
    customer_fields-fits asha (codes "asha") (codes "secret") asha-IsAccepted refl refl

add_customer-served_example :
    let req = request "ADD_CUSTOMER" (customer_fields asha (codes "asha") (codes "secret")) in
    serve libc 7 (op_of req.op) req.payload
    ≡ run (add_new_customer libc.crypt (typed_user asha) (codes "asha") (codes "secret") 7)
unfolding validate_credential validate_not_empty contains visible_word visible
add_customer-served_example =
    add_customer-served libc print_cents NotNegative scan-IsScanf 7 asha (codes "asha")
      (codes "secret") asha-IsAccepted asha-FitsUser refl refl
      (visible_word-IsWord (asha.first_name) refl) (visible_word-IsWord (asha.last_name) refl)
      (visible_word-IsWord (asha.address) refl) (visible_word-IsWord (asha.email) refl)
      (visible_word-IsWord (asha.phone) refl) (visible_word-IsWord (codes "asha") refl)
      (visible_word-IsWord (codes "secret") refl)

-- An address that is written with a space.
abbrev spaced : Details
spaced = record asha { email = codes "asha rao@bank.com" }

spaced-IsAccepted : IsAccepted spaced
unfolding validate_email validate_not_empty contains
spaced-IsAccepted = record {
  first_ok = asha-IsAccepted.first_ok;
  last_ok = asha-IsAccepted.last_ok;
  age_ok = asha-IsAccepted.age_ok;
  address_ok = asha-IsAccepted.address_ok;
  email_ok = refl;
  phone_ok = asha-IsAccepted.phone_ok;
}

split-FitsUser : FitsUser (record spaced { email = codes "asha"; phone = codes "rao@bank.com" })
split-FitsUser = record {
  first_fits = omega arith;
  last_fits = omega arith;
  age_fits = omega arith;
  address_fits = omega arith;
  email_fits = omega arith;
  phone_fits = omega arith;
}

add_customer-misread_example :
    let req = request "ADD_CUSTOMER" (customer_fields spaced (codes "asha") (codes "secret")) in
    serve libc 7 (op_of req.op) req.payload
    ≡ run (
        add_new_customer libc.crypt
          (typed_user (record asha { email = codes "asha"; phone = codes "rao@bank.com" }))
          (codes "9876543210")
          (codes "asha")
          7)
unfolding validate_credential validate_not_empty contains visible_word visible
add_customer-misread_example =
    add_customer-misread libc print_cents NotNegative scan-IsScanf 7 spaced (codes "asha")
      (codes "rao@bank.com") (codes "asha") (codes "secret") refl spaced-IsAccepted split-FitsUser
      refl refl (visible_word-IsWord (asha.first_name) refl)
      (visible_word-IsWord (asha.last_name) refl) (visible_word-IsWord (asha.address) refl)
      (visible_word-IsWord (codes "asha") refl) (visible_word-IsWord (codes "rao@bank.com") refl)
      (visible_word-IsWord (asha.phone) refl) (visible_word-IsWord (codes "asha") refl)

modify_user-refused_example :
    let req = request "MODIFY_USER" (modify_fields 1003 asha) in
    serve libc 7 (op_of req.op) req.payload bank
    ≡ invalid "MODIFY_USER: Invalid payload format." bank
unfolding visible_word visible
modify_user-refused_example =
    modify_user-refused libc print_cents NotNegative scan-IsScanf 7 1003 asha bank (omega arith)
      asha-IsAccepted (visible_word-IsWord (asha.first_name) refl)
      (visible_word-IsWord (asha.last_name) refl) (visible_word-IsWord (asha.address) refl)
      (visible_word-IsWord (asha.email) refl) (visible_word-IsWord (asha.phone) refl)

-- A new member of staff as typed, in the role of a customer.
abbrev typed_staff : Text
typed_staff = codes "Asha\nRao\n41\nMumbai\ncustomer\nasha@bank.com\n9876543210\nasha\nsecret\n"

ask_new_employee-customer_example :
    (det : Details) × (username : Text) × (password : Text) × (request "ADD_EMPLOYEE"
        (employee_fields asha (codes "customer") (codes "asha") (codes "secret"))
      ≡ request "ADD_EMPLOYEE" (employee_fields det (codes "customer") username password))
unfolding ask_new_employee read_validated_string read_rounds fgets_chars cut_newline clear_stdin
    validate_name_part validate_address validate_email validate_phone validate_credential
    validate_not_empty contains all_digits signed decimal digits streq console scan_number leading
    value_from
ask_new_employee-customer_example =
    ask_new_employee-customer console typed_staff []
      (request "ADD_EMPLOYEE"
        (employee_fields asha (codes "customer") (codes "asha") (codes "secret")))
      refl
