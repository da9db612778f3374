-- ===== src/Model.antt =====
-- The records, the files and the response buffer of include/server.h. Identifiers, counts and
-- times are natural numbers, a C `int` is its 32-bit pattern, and a character array is the text in
-- it. An amount of money is a C `double`: its type and operations are parameters.
use Prim.Native.String.{String}
use banking_management_syste.Base.{ℕ, Bool, Option, some, List, true, false}
use banking_management_syste.Base.Text.{Text}
use banking_management_syste.Store.{Table, M, Place}

-- The operations of `double` that the program uses.
pub record Double (F : Type 0) : Type 0 where
  pub zero : F
  pub add : F → F → F
  pub sub : F → F → F
  pub lt : F → F → Bool
  pub le : F → F → Bool

pub data Role : Type 0 where
  customer employee manager admin : Role

pub data Status : Type 0 where
  inactive active : Status

pub data LoanStatus : Type 0 where
  pending assigned approved rejected : LoanStatus

pub record User : Type 0 where
  pub user_id : ℕ
  pub username : Text
  pub password_hash : Text
  pub role : Role
  pub first_name : Text
  pub last_name : Text
  pub age : ℕ
  pub address : Text
  pub email : Text
  pub phone : Text
  pub active : Status
  pub created_at : ℕ

pub record Account (F : Type 0) : Type 0 where
  pub account_id : ℕ
  pub user_id : ℕ
  pub balance : F
  pub active : Status

pub record Txn (F : Type 0) : Type 0 where
  pub txn_id : ℕ
  pub from_account : ℕ
  pub to_account : ℕ
  pub amount : F
  pub timestamp : ℕ
  pub narration : Text

pub record Loan (F : Type 0) : Type 0 where
  pub loan_id : ℕ
  pub user_id : ℕ
  pub amount : F
  pub status : LoanStatus
  pub assigned_to : ℕ
  pub applied_at : ℕ
  pub processed_at : ℕ
  pub remarks : Text

pub record Feedback : Type 0 where
  pub fb_id : ℕ
  pub user_id : ℕ
  pub message : Text
  pub reviewed : Bool
  pub action_taken : Text
  pub submitted_at : ℕ

-- The arguments of `snprintf`, and what the response buffer holds: a formatted message, kept as its
-- format and arguments, or the text that a listing has put together.
pub data Arg (F : Type 0) : Type 0 where
  dbl : F → Arg F
  num : ℕ → Arg F
  str : Text → Arg F

pub data Message (F : Type 0) : Type 0 where
  format : String → List (Arg F) → Message F
  listing : Text → Message F

-- The five files, and the response buffer: none if its first byte is NUL.
pub record World (F : Type 0) : Type 0 where
  pub users : Table User
  pub accounts : Table (Account F)
  pub transactions : Table (Txn F)
  pub loans : Table (Loan F)
  pub feedback : Table Feedback
  pub resp : Option (Message F)

-- snprintf(resp_msg, resp_sz, format, arguments)
abbrev pub say : {F : Type 0} → String → List (Arg F) → M (World F) (Unit {0})
say text args w = (tt, record w { resp = some (format text args) })

abbrev pub is_active : Status → Bool
is_active inactive = false
is_active active = true

module _ {F : Type 0} where
  abbrev pub users_db : Place (World F) User
  users_db = record { get = λ w. w.users; put = λ t w. record w { users = t } }

  abbrev pub accounts_db : Place (World F) (Account F)
  accounts_db = record { get = λ w. w.accounts; put = λ t w. record w { accounts = t } }

  abbrev pub loans_db : Place (World F) (Loan F)
  loans_db = record { get = λ w. w.loans; put = λ t w. record w { loans = t } }

-- The role tests and the role names, as the code writes them.
abbrev pub is_customer : Role → Bool
is_customer customer = true
is_customer _ = false

abbrev pub is_employee : Role → Bool
is_employee employee = true
is_employee _ = false

abbrev pub is_admin : Role → Bool
is_admin admin = true
is_admin _ = false

abbrev pub is_pending : LoanStatus → Bool
is_pending pending = true
is_pending _ = false

abbrev pub is_assigned : LoanStatus → Bool
is_assigned assigned = true
is_assigned _ = false
