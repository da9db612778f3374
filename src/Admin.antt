-- ===== src/Admin.antt =====
-- src/admin_module.c: staff, details and roles. `now` is time(NULL).
use banking_management_syste.Base.{
  ℕ, ◌+◌, ◌-◌, ◌%◌, Bool, true, false, Option, none, some, List, [], ◌∷◌, ◌++◌, ltb, if◌then◌else◌,
  length, take,
}
use banking_management_syste.Base.Text.{Text, codes, streq, strncpy}
use banking_management_syste.Store.{M, pure, ◌>>=◌, ◌>>◌}
use banking_management_syste.Model.{
  World, User, Role, format, listing, num, str, say, active, customer, employee, manager, admin,
  is_customer, is_admin,
}
use banking_management_syste.Listing.{Printf, max_msg_len}
use banking_management_syste.Utils.{
  Crypt, write_user, atomic_update_user, check_uniqueness, generate_new_user_id,
  generate_password_hash,
}
use banking_management_syste.Employee.{Details, assign_details, details_args}
use banking_management_syste.Manager.{say_if_silent}

abbrev pub role_str_for_list : Role → Text
role_str_for_list customer = codes "CUSTOMER"
role_str_for_list employee = codes "EMPLOYEE"
role_str_for_list manager = codes "MANAGER"
role_str_for_list admin = codes "ADMIN"

-- The roles that `change_role_modifier` accepts, and those that `add_employee` accepts.
unfoldable pub new_role : Text → Option Role
new_role role_str =
    if streq role_str (codes "employee")
    then some employee
    else if streq role_str (codes "manager")
    then some manager
    else none

unfoldable pub staff_role : Text → Option Role
staff_role role_str =
    if streq role_str (codes "employee")
    then some employee
    else if streq role_str (codes "manager")
    then some manager
    else if streq role_str (codes "admin")
    then some admin
    else none

-- The record of a new member of staff, over a cleared record.
abbrev pub new_staff : Details → Text → Text → Role → ℕ → ℕ → User
new_staff d username hash role user_id now = record {
  user_id = user_id;
  username = strncpy 64 username;
  password_hash = hash;
  role = role;
  first_name = strncpy 64 d.first_name;
  last_name = strncpy 64 d.last_name;
  age = d.age % 256;
  address = strncpy 256 d.address;
  email = strncpy 64 d.email;
  phone = strncpy 16 d.phone;
  active = active;
  created_at = now;
}

module _ {F : Type 0} where
  unfoldable pub modify_user_modifier : Details → User → M (World F) (Option User)
  unfolding assign_details
  modify_user_modifier d user = do
    unique ← check_uniqueness user.username d.email d.phone user.user_id
    if unique
        then (do
          say
              "User Modified (ID: %u).\nNew Details:\nName: %s %s\nAge: %d\nAddress: %s\nEmail: %s\nPhone: %s"
              (details_args (assign_details d user))
          pure (some (assign_details d user)))
        else pure none

  -- Any failure leaves the same message.
  unfoldable pub modify_user : ℕ → Details → M (World F) Bool
  modify_user user_id d = do
    done ← atomic_update_user user_id (modify_user_modifier d)
    if done then pure true else (do
      say "User Modification Failed (User not found or concurrency error)" []
      pure false)

  unfoldable pub change_role_modifier : Text → User → M (World F) (Option User)
  change_role_modifier role_str user =
      if is_customer user.role
      then say "Error: Cannot change the role of a customer user." [] >> pure none
      else if is_admin user.role
      then say "Error: Cannot modify the role of an Administrator (ID: %u)." (num user.user_id ∷ [])
        >> pure none
      else elim (new_role role_str) [
        | none ↦ say "Invalid role. Must be 'employee', or 'manager'." [] >> pure none
        | some role ↦
            say "User %u Role Updated to %s" (num user.user_id ∷ str role_str ∷ [])
            >> pure (some (record user { role = role }))
      ]

  unfoldable pub change_user_role : ℕ → Text → M (World F) Bool
  change_user_role user_id role_str = do
    done ← atomic_update_user user_id (change_role_modifier role_str)
    if done then pure true else (do
      say_if_silent "Role Update Failed (User not found or concurrency error)"
      pure false)

  unfoldable pub add_employee : Crypt → Details → Text → Text → Text → ℕ → M (World F) Bool
  add_employee crypt d role_str username password now = do
    unique ← check_uniqueness username d.email d.phone 0
    if unique
        then (do
          user_id ← generate_new_user_id
          elim (staff_role role_str) [
            | none ↦ say "Invalid role. Must be 'employee' or 'manager'" [] >> pure false
            | some role ↦ (do
              written ← write_user (
                  new_staff d username (generate_password_hash crypt password 128) role user_id now)
              if written
                  then (do
                    say "Employee Added (ID: %u, Role: %s)" (num user_id ∷ str role_str ∷ [])
                    pure true)
                  else (say "Employee Add Failed (Write Error)" [] >> pure false))
          ])
        else pure false

abbrev pub users_header : Text
users_header =
    codes "--- User List ---\n"
    ++ (codes "ID   | Username        | Role\n" ++ codes "---- | --------------- | --------\n")

-- The loop of `list_all_users` over the rows that are not administrators', with the length of the
-- text so far: a row that does not fit is replaced by a notice and ends the loop, without `found`.
unfoldable pub users_loop : (User → Text) → List User → Text × ℕ × Bool → Text × Bool
users_loop row [] (buf, current_len, found) = (buf, found)
users_loop row (u ∷ us) (buf, current_len, found) =
    let text = strncpy 256 (row u) in
    let cut = buf ++ take (max_msg_len - current_len - 1) (codes "... (list truncated) ...\n") in
    let skip = users_loop row us (buf, current_len, found) in
    let rest =
      users_loop row us
        (buf ++ take (max_msg_len - current_len - 1) text, current_len + length text, true) in
    if is_admin u.role
    then skip
    else if ltb (current_len + length text) max_msg_len
    then rest
    else (cut, found)

unfoldable pub list_all_users : {F : Type 0} ⦃p : Printf F⦄ → M (World F) Bool
list_all_users ⦃p⦄ w = elim w.users.rows [
  | none ↦ (false, record w { resp = some (format "Failed to open user database" []) })
  | some us ↦
      let (buf, found) =
        users_loop (λ u. p.user_row u (role_str_for_list u.role)) us
          (users_header, length users_header, false) in
      (
        true,
        record w {
          resp = some (if found then listing buf else format "No customers or employees found." []);
        },
      )
]
