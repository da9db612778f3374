-- ===== src/Bootstrap/Fresh.antt =====
-- What a run of src/bootstrap.c over empty files leaves.
use banking_management_syste.Base.{
  ℕ, ◌≡◌, refl, Bool, true, false, Option, none, some, List, [], ◌∷◌, arith, map,
}
use Prim.Native.String.{String}
use banking_management_syste.Base.Text.{Text, codes, streq}
use banking_management_syste.Store.Rows.{find_offset_from}
use banking_management_syste.Store.{contents, write_record}
use banking_management_syste.Model.{World, Double, User, Role, customer, employee, manager, admin}
use banking_management_syste.Utils.{
  Crypt, generate_password_hash, check_uniqueness, find_clash, generate_new_user_id, write_user,
  write_account,
}
use banking_management_syste.Admin.{staff_role, add_employee}
use banking_management_syste.Bootstrap.{success_count, bootstrap}
use banking_management_syste.Employee.{add_new_customer}

-- What tells the users apart, and how their passwords are stored.
abbrev pub known_by : User → ℕ × Role × Text × Text
known_by u = (u.user_id, u.role, u.username, u.password_hash)

abbrev hashed : Crypt → String → Text
hashed crypt password = generate_password_hash crypt (codes password) 128

abbrev pub six_users : Crypt → List (ℕ × Role × Text × Text)
six_users crypt =
    (1001, admin, codes "siddhesh", hashed crypt "adminpass")
    ∷ (1002, manager, codes "manasi", hashed crypt "managerpass")
    ∷ (1003, employee, codes "prakash", hashed crypt "employeepass")
    ∷ (1004, employee, codes "smita", hashed crypt "employeepass")
    ∷ (1005, customer, codes "priya", hashed crypt "priyapass")
    ∷ (1006, customer, codes "rohan", hashed crypt "rohanpass")
    ∷ []

-- What is shown as usernames and passwords.
abbrev pub shown_six : List (Text × Text)
shown_six =
    (codes "siddhesh", codes "adminpass")
    ∷ (codes "manasi", codes "managerpass")
    ∷ (codes "prakash", codes "employeepass")
    ∷ (codes "smita", codes "employeepass")
    ∷ (codes "priya", codes "customerpass")
    ∷ (codes "rohan", codes "customerpass")
    ∷ []

module _ {F : Type 0} ⦃o : Double F⦄ (crypt : Crypt) where
  abbrev FirstRun : (ℕ → ℕ) → World F → Type 0
  FirstRun now w =
      let ((status, count, shown), w') = bootstrap crypt now true w in
      (count ≡ 6) × (shown ≡ shown_six) × (map known_by (contents w'.users) ≡ six_users crypt)

  from_files :
      (now : ℕ → ℕ) (rows : Option (List User)) (accepts : Bool) (w : World F)
      → accepts ≡ true
      → contents (record { rows = rows; accepts = accepts }) ≡ []
      → FirstRun now (record w { users = record { rows = rows; accepts = accepts } })
  unfolding bootstrap success_count add_employee add_new_customer check_uniqueness find_clash streq
      generate_new_user_id write_user write_account write_record find_offset_from staff_role
  from_files now none true w h empty = (refl, refl, refl)
  from_files now (some []) true w h empty = (refl, refl, refl)
  from_files now (some (u ∷ us)) accepts w h empty = absurd (ground arith)
  from_files now rows false w h empty = absurd (ground arith)

  -- A run over an empty users file that can be written adds all six: the administrator, the manager,
  -- two employees and two customers, numbered from 1001, with the hashes of their passwords. What it then shows are
  -- these passwords for the staff, but customerpass for both customers, who are stored with the hashes
  -- of priyapass and rohanpass.
  pub bootstrap-fresh :
      (now : ℕ → ℕ) (w : World F)
      → w.users.accepts ≡ true
      → contents w.users ≡ []
      → let ((status, count, shown), w') = bootstrap crypt now true w in
        (count ≡ 6) × (shown ≡ shown_six) × (map known_by (contents w'.users) ≡ six_users crypt)
  bootstrap-fresh now w writable empty =
      from_files now w.users.rows w.users.accepts w writable empty
