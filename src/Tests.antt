-- ===== src/Tests.antt =====
-- Small files on which the tests and the witnesses run, amounts being whole cents.
mod Money
mod Totals
mod Staff
mod Seats
mod People
mod Races
mod Router
mod Scanner
mod Keyboard
mod Tools
mod Typed
mod Console
use banking_management_syste.Base.{ℕ, zero, true, none, some, List, [], ◌∷◌}
use Prim.Native.String.{String}
use banking_management_syste.Base.Int.{ℤ, pos, ◌+ℤ◌, ◌-ℤ◌, ltb_ℤ, leb_ℤ}
use banking_management_syste.Base.Text.{Text, codes}
use banking_management_syste.Store.{Table}
use banking_management_syste.Model.{
  Double, User, Account, Txn, Loan, Feedback, Role, customer, employee, manager, admin, World,
  active, inactive, Status, pending, assigned,
}

instance abbrev cents : Double ℤ
cents = record { zero = pos 0; add = ◌+ℤ◌; sub = ◌-ℤ◌; lt = ltb_ℤ; le = leb_ℤ }

abbrev person : ℕ → String → Role → User
person user_id name role = record {
  user_id = user_id;
  username = codes name;
  password_hash = codes name;
  role = role;
  first_name = codes name;
  last_name = codes name;
  age = 30;
  address = codes "Pune";
  email = codes name;
  phone = codes name;
  active = active;
  created_at = 0;
}

abbrev purse : ℕ → ℤ → Status → Account ℤ
purse user_id balance status = record {
  account_id = user_id;
  user_id = user_id;
  balance = balance;
  active = status;
}

abbrev stored : {A : Type 0} → List A → Table A
stored rs = record { rows = some rs; accepts = true }

-- A bank with one of each role and two customers, 1005 with 500 and 1006 with 200.
abbrev bank : World ℤ
bank = record {
  users = stored (
      person 1001 "siddhesh" admin
      ∷ person 1002 "manasi" manager
      ∷ person 1003 "prakash" employee
      ∷ person 1005 "priya" customer
      ∷ person 1006 "rohan" customer
      ∷ []);
  accounts = stored (purse 1005 (pos 500) active ∷ purse 1006 (pos 200) active ∷ []);
  transactions = stored [];
  loans = stored [];
  feedback = stored [];
  resp = none;
}
