-- ===== src/Tests/People.antt =====
-- Tests and witnesses of new users and of changes to users.
use banking_management_syste.Base.{◌≡◌, refl, some, [], ◌∷◌, ◌++◌, arith, All}
use banking_management_syste.Base.Int.{ℤ}
use banking_management_syste.Base.Text.{codes, streq}
use banking_management_syste.Model.{World, customer, admin}
use banking_management_syste.Utils.{
  Crypt, check_uniqueness, find_clash, generate_new_user_id, write_user, write_account,
}
use banking_management_syste.Employee.{Details, add_new_customer}
use banking_management_syste.Admin.{add_employee, change_user_role}
use banking_management_syste.Customer.{change_password}
use banking_management_syste.Users.{streq→ne, Unlike}
use banking_management_syste.Users.Login.{
  Hashes, login_answer, login_user_lem, change_password-login_user,
}
use banking_management_syste.Store.{read_record, atomic_update, write_record, contents}
use banking_management_syste.Store.Rows.{read_loop, find_offset_from}
use banking_management_syste.Utils.{
  login_user, logged_in, read_account, role_name, atomic_update_user,
}
use banking_management_syste.Customer.{change_pass_modifier}
use banking_management_syste.Users.Creation.{IsValid, add_employee-IsValid}
use banking_management_syste.Users.Customers.{add_new_customer-IsValid, add_new_customer_lem}
use banking_management_syste.Users.Changes.{
  Changes, changed_user, promoted, change_user_role-Changes,
}
use banking_management_syste.Tests.{cents, bank, stored, person}

-- A hash that shows the salt and the password.
abbrev plain : Crypt
plain salt password = some (salt ++ password)

abbrev asha : Details
asha = record {
  first_name = codes "Asha";
  last_name = codes "Rao";
  age = 41;
  address = codes "Mumbai";
  email = codes "asha@bank";
  phone = codes "555";
}

-- An administrator and a customer under consecutive identifiers.
abbrev young : World ℤ
young = record bank {
  users = stored (person 1001 "siddhesh" admin ∷ person 1002 "priya" customer ∷ []);
}

young-IsValid : IsValid young
unfolding streq
young-IsValid = (
  (refl, (refl, tt)),
  (((streq→ne _ _ refl, streq→ne _ _ refl, streq→ne _ _ refl), tt), (tt, tt)),
)

add_employee-IsValid_example :
    IsValid (add_employee plain asha (codes "manager") (codes "asha") (codes "pw") 9 young).1
add_employee-IsValid_example =
    add_employee-IsValid plain asha (codes "manager") (codes "asha") (codes "pw") 9 young
      (omega arith, omega arith, omega arith) (omega arith) young-IsValid

add_new_customer-IsValid_example :
    IsValid
      (add_new_customer plain (person 0 "rohan" customer) (codes "rohan") (codes "pw") 9 young).1
add_new_customer-IsValid_example =
    add_new_customer-IsValid plain (person 0 "rohan" customer) (codes "rohan") (codes "pw") 9 young
      (omega arith) (omega arith) young-IsValid

add_new_customer_lem_example :
    All (Unlike (codes "rohan") (codes "rohan") (codes "rohan")) (contents young.users)
unfolding add_new_customer check_uniqueness find_clash generate_new_user_id streq write_user
    write_account write_record find_offset_from
add_new_customer_lem_example =
    (add_new_customer_lem plain (person 0 "rohan" customer) (codes "rohan") (codes "pw") 9 1003
        young young-IsValid.0 (omega arith)).0.0
      refl

change_user_role-Changes_example :
    Changes 1003
      (changed_user 1003 (promoted (codes "manager")) bank)
      1003
      bank
      (change_user_role 1003 (codes "manager") bank)
change_user_role-Changes_example = change_user_role-Changes 1003 1003 (codes "manager") bank

-- A hash that is the same under every salt, as long as the password is short.
abbrev constant : Crypt
constant password salt = some password

constant-Hashes : Hashes constant (codes "new")
constant-Hashes = record { hashed = codes "new"; fresh = refl; again = refl; fits = omega arith }

login_user_lem_example :
    login_user constant (codes "priya") (codes "wrong") young
    ≡ login_answer constant (codes "wrong") (person 1002 "priya" customer) young
unfolding read_record read_loop
login_user_lem_example =
    login_user_lem constant (codes "wrong") 1002 (person 1002 "priya" customer) young
      young-IsValid.1 refl

change_password-login_user_example :
    login_user constant
      (codes "priya")
      (codes "new")
      (change_password constant 1002 (codes "new") young).1
    ≡ logged_in 1002 (codes "customer") (codes "priya")
unfolding read_record read_loop read_account role_name change_password change_pass_modifier
    atomic_update_user atomic_update find_offset_from
change_password-login_user_example =
    change_password-login_user constant (codes "new") 1002 (person 1002 "priya" customer) young
      constant-Hashes young-IsValid.1 refl refl refl refl
