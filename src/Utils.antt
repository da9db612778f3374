-- ===== src/Utils.antt =====
-- src/utils.c: the persistence functions at each file, identifiers, uniqueness of credentials,
-- password hashes and the login. `crypt` is the C library's, a parameter.
use banking_management_syste.Base.{
  ℕ, ◌+◌, ◌%◌, ◌^◌, Bool, true, false, not, ◌||◌, Option, none, some, List, [], ◌∷◌, ◌==◌,
  if◌then◌else◌, length,
}
pub mod Accounts
use banking_management_syste.Base.Text.{Text, streq, strncpy, codes}
use banking_management_syste.Store.{
  M, pure, ◌>>=◌, ◌>>◌, contents, find_offset, read_record, write_record, append_record,
  atomic_update,
}
use banking_management_syste.Model.{
  User, Account, Txn, Loan, Feedback, Role, customer, employee, manager, admin, World, Message, Arg,
  format, str, is_active, users_db, accounts_db, loans_db,
}

abbrev pub user_key : User → ℕ
user_key u = u.user_id

abbrev pub feedback_key : Feedback → ℕ
feedback_key b = b.fb_id

abbrev pub u32 : ℕ → ℕ
u32 n = n % 2 ^ 32

module _ {F : Type 0} where
  abbrev pub account_key : Account F → ℕ
  account_key a = a.user_id

  abbrev pub loan_key : Loan F → ℕ
  loan_key l = l.loan_id

  unfoldable pub read_user : ℕ → M (World F) (Option User)
  read_user user_id w = (read_record user_key user_id w.users, w)

  unfoldable pub write_user : User → M (World F) Bool
  write_user u w = (true, record w { users = write_record user_key u w.users })

  unfoldable pub read_account : ℕ → M (World F) (Option (Account F))
  read_account user_id w = (read_record account_key user_id w.accounts, w)

  unfoldable pub write_account : Account F → M (World F) Bool
  write_account acc w = (true, record w { accounts = write_record account_key acc w.accounts })

  unfoldable pub read_loan : ℕ → M (World F) (Option (Loan F))
  read_loan loan_id w = (read_record loan_key loan_id w.loans, w)

  unfoldable pub write_loan : Loan F → M (World F) Bool
  write_loan loan w = (true, record w { loans = write_record loan_key loan w.loans })

  unfoldable pub read_feedback : ℕ → M (World F) (Option Feedback)
  read_feedback fb_id w = (read_record feedback_key fb_id w.feedback, w)

  unfoldable pub write_feedback : Feedback → M (World F) Bool
  write_feedback fb w = (true, record w { feedback = write_record feedback_key fb w.feedback })

  -- The append functions return 1 whether or not the write succeeded; the id is left in the record.
  unfoldable pub append_transaction : Txn F → M (World F) Bool
  append_transaction tx w =
      let (_, t) = append_record (λ n r. record r { txn_id = n }) tx w.transactions in
      (true, record w { transactions = t })

  unfoldable pub append_loan : Loan F → M (World F) (Bool × Loan F)
  append_loan loan w =
      let (loan', t) = append_record (λ n r. record r { loan_id = n }) loan w.loans in
      ((true, loan'), record w { loans = t })

  unfoldable pub append_feedback : Feedback → M (World F) (Bool × Feedback)
  append_feedback fb w =
      let (fb', t) = append_record (λ n r. record r { fb_id = n }) fb w.feedback in
      ((true, fb'), record w { feedback = t })

  unfoldable pub find_user_offset : ℕ → World F → Option ℕ
  find_user_offset user_id w = find_offset user_key user_id w.users

  unfoldable pub find_account_offset : ℕ → World F → Option ℕ
  find_account_offset user_id w = find_offset account_key user_id w.accounts

  unfoldable pub find_loan_offset : ℕ → World F → Option ℕ
  find_loan_offset loan_id w = find_offset loan_key loan_id w.loans

  unfoldable pub atomic_update_user : ℕ → (User → M (World F) (Option User)) → M (World F) Bool
  atomic_update_user = atomic_update users_db user_key

  unfoldable pub atomic_update_account :
      ℕ → (Account F → M (World F) (Option (Account F))) → M (World F) Bool
  atomic_update_account = atomic_update accounts_db account_key

  unfoldable pub atomic_update_loan :
      ℕ → (Loan F → M (World F) (Option (Loan F))) → M (World F) Bool
  atomic_update_loan = atomic_update loans_db loan_key

  -- The file is created if it is missing; the sum is an `int`.
  unfoldable pub generate_new_user_id : M (World F) ℕ
  generate_new_user_id w = (
    u32 (1001 + length (contents w.users)),
    record w { users = record (w.users) { rows = some (contents w.users) } },
  )

  -- The loop of `check_uniqueness`: the message of the first clash.
  unfoldable pub find_clash : Text → Text → Text → ℕ → List User → Option (Message F)
  find_clash username email phone current [] = none
  find_clash username email phone current (u ∷ us) =
      let rest = find_clash username email phone current us in
      if u.user_id == current
      then rest
      else if streq u.username username
      then some (format "Error: Username '%s' already exists." (str username ∷ []))
      else if streq u.email email
      then some (format "Error: Email '%s' already exists." (str email ∷ []))
      else if streq u.phone phone
      then some (format "Error: Phone '%s' already exists." (str phone ∷ []))
      else rest

  unfoldable pub check_uniqueness : Text → Text → Text → ℕ → M (World F) Bool
  check_uniqueness username email phone current w = elim w.users.rows [
    | none ↦ (true, w)
    | some us ↦ elim (find_clash username email phone current us) [
      | none ↦ (true, w)
      | some m ↦ (false, record w { resp = some m })
    ]
  ]

-- crypt(password, salt), null on failure
abbrev pub Crypt : Type 0
Crypt = Text → Text → Option Text

unfoldable pub generate_password_hash : Crypt → Text → ℕ → Text
generate_password_hash crypt password hash_size = elim (crypt password (codes "$6$IIITB$")) [
  | none ↦ strncpy hash_size (codes "HASH_FAILED")
  | some hashed ↦ strncpy hash_size hashed
]

unfoldable pub verify_password : Crypt → Text → Text → Bool
verify_password crypt password hash = elim (crypt password hash) [
  | none ↦ false
  | some verified ↦ streq verified hash
]

unfoldable pub role_name : Role → Text
role_name customer = codes "customer"
role_name employee = codes "employee"
role_name manager = codes "manager"
role_name admin = codes "admin"

-- The result of `login_user`: 0, 2, or 1 with what it writes through its pointers.
pub data LoginResult : Type 0 where
  refused deactivated : LoginResult
  logged_in : ℕ → Text → Text → LoginResult

module _ {F : Type 0} where
  unfoldable pub login_found : Crypt → Text → User → World F → LoginResult
  unfolding read_account
  login_found crypt password u w =
      if verify_password crypt password u.password_hash
      then (if not (is_active u.active) || elim (read_account u.user_id w).0 [
        | none ↦ false
        | some acc ↦ not (is_active acc.active)
      ]
          then deactivated
          else logged_in u.user_id (role_name u.role) (strncpy 64 u.first_name))
      else refused

  -- Only the first user of that name is looked at.
  unfoldable pub login_loop : Crypt → Text → Text → List User → World F → LoginResult
  login_loop crypt username password [] w = refused
  login_loop crypt username password (u ∷ us) w =
      if streq u.username username
      then login_found crypt password u w
      else login_loop crypt username password us w

  unfoldable pub login_user : Crypt → Text → Text → World F → LoginResult
  login_user crypt username password w = elim w.users.rows [
    | none ↦ refused
    | some us ↦ login_loop crypt username password us w
  ]
