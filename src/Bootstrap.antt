-- ===== src/Bootstrap.antt =====
-- src/bootstrap.c: the program that fills an empty bank with its first staff and customers. `mkdir` is
-- the operating system's, a parameter: whether the directory is there afterwards. The files are not
-- locked against the server.
pub mod Adders
pub mod Fresh
pub mod Runs
use Prim.Native.String.{String}
use banking_management_syste.Base.{ℕ, suc, Bool, true, false, List, [], ◌∷◌, ◌==◌, if◌then◌else◌}
use banking_management_syste.Base.Text.{Text, codes}
use banking_management_syste.Store.{M, pure, ◌>>=◌}
use banking_management_syste.Model.{World, Double, User}
use banking_management_syste.Utils.{Crypt}
use banking_management_syste.Employee.{Details, add_new_customer}
use banking_management_syste.Admin.{add_employee}
use banking_management_syste.Server.Routes.{blank_user}

module _ {F : Type 0} where
  -- The calls one after another, and how many of them succeed.
  unfoldable pub success_count : List (M (World F) Bool) → M (World F) ℕ
  success_count [] = pure 0
  success_count (add ∷ adds) = do
    success ← add
    count ← success_count adds
    pure (if success then suc count else count)

abbrev details : String → String → ℕ → String → String → String → Details
details first_name last_name age address email phone = record {
  first_name = codes first_name;
  last_name = codes last_name;
  age = age;
  address = codes address;
  email = codes email;
  phone = codes phone;
}

abbrev pub siddhesh : Details
siddhesh = details "Siddhesh" "Abhang" 35 "Pune_HQ" "siddhesh@bank.com" "9876543210"

abbrev pub manasi : Details
manasi = details "Manasi" "Joshi" 45 "Mumbai_Office" "manasi@bank.com" "9876543211"

abbrev pub prakash : Details
prakash = details "Prakash" "Kadam" 28 "Teller_Desk" "prakash@bank.com" "9876543212"

abbrev pub smita : Details
smita = details "Smita" "Pawar" 31 "Loan_Dept" "smita@bank.com" "9876543213"

abbrev pub priya : Details
priya = details "Priya" "Sawant" 30 "1_Main_Street_Nagpur" "priya@guest.com" "9000000001"

abbrev pub rohan : Details
rohan = details "Rohan" "Deshmukh" 25 "2_Bank_Road_Pune" "rohan@guest.com" "9000000002"

-- The table of default credentials: usernames and passwords.
abbrev pub default_credentials : List (Text × Text)
default_credentials =
    (codes "siddhesh", codes "adminpass")
    ∷ (codes "manasi", codes "managerpass")
    ∷ (codes "prakash", codes "employeepass")
    ∷ (codes "smita", codes "employeepass")
    ∷ (codes "priya", codes "customerpass")
    ∷ (codes "rohan", codes "customerpass")
    ∷ []

module _ {F : Type 0} ⦃o : Double F⦄ (crypt : Crypt) (now : ℕ → ℕ) where
  -- The six calls; the first is made at the time `now 1`.
  abbrev pub initial_users : List (M (World F) Bool)
  initial_users =
      add_employee crypt siddhesh (codes "admin") (codes "siddhesh") (codes "adminpass") (now 1)
      ∷ add_employee crypt manasi (codes "manager") (codes "manasi") (codes "managerpass") (now 2)
      ∷ add_employee crypt prakash (codes "employee") (codes "prakash") (codes "employeepass")
          (now 3)
      ∷ add_employee crypt smita (codes "employee") (codes "smita") (codes "employeepass") (now 4)
      ∷ add_new_customer crypt (blank_user priya) (codes "priya") (codes "priyapass") (now 5)
      ∷ add_new_customer crypt (blank_user rohan) (codes "rohan") (codes "rohanpass") (now 6)
      ∷ []

  -- The exit status, the number of users created, and the credentials shown.
  unfoldable pub bootstrap : Bool → M (World F) (ℕ × ℕ × List (Text × Text))
  unfolding success_count
  bootstrap false = pure (1, 0, [])
  bootstrap true = do
    count ← success_count initial_users
    pure (0, count, if count == 6 then default_credentials else [])
