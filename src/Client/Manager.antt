-- ===== src/Client/Manager.antt =====
-- `manager_menu` of src/client.c: what a choice asks for, and the request that it sends. The choice 6
-- leaves the menu.
use banking_management_syste.Base.{ℕ, Option, none, some, [], ◌∷◌, ◌==◌, if◌then◌else◌}
use banking_management_syste.Base.Decimal.{decimal}
use banking_management_syste.Model.{Double}
use banking_management_syste.Server.{Request}
use banking_management_syste.Client.Terminal.{
  Terminal, Term, pure, ◌>>=◌, ◌>>◌, clear, request, read_int, read_account_number,
}
use banking_management_syste.Client.Customer.{ask_password}

module _ {F : Type 0} (t : Terminal F) where
  abbrev ask_status : Term (Option Request)
  ask_status = do
    cust_id ← read_account_number t
    status ← read_int t
    clear
    pure (some (request "SET_ACCOUNT_STATUS" (decimal cust_id ∷ decimal status ∷ [])))

  abbrev ask_assignment : Term (Option Request)
  ask_assignment = do
    loan_id ← read_int t
    emp_id ← read_int t
    clear
    pure (some (request "ASSIGN_LOAN" (decimal loan_id ∷ decimal emp_id ∷ [])))

  unfoldable pub manager_choice : ⦃o : Double F⦄ → ℕ → ℕ → Term (Option Request)
  manager_choice user_id choice =
      if choice == 1
      then ask_status
      else if choice == 2
      then pure (some (request "VIEW_NON_ASSIGNED_LOANS" []))
      else if choice == 3
      then ask_assignment
      else if choice == 4
      then pure (some (request "REVIEW_FEEDBACK" []))
      else if choice == 5
      then ask_password t user_id
      else if choice == 6
      then pure (some (request "LOGOUT" []))
      else pure none
