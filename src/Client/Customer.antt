-- ===== src/Client/Customer.antt =====
-- `customer_menu` of src/client.c: what a choice asks for, and the request that it sends; none where
-- the menu is shown again at once. The choice 12 leaves the menu.
use Prim.Native.String.{String}
use banking_management_syste.Base.{ℕ, Option, none, some, List, [], ◌∷◌, ◌==◌, if◌then◌else◌}
use banking_management_syste.Base.Text.{Text}
use banking_management_syste.Base.Decimal.{decimal, signed}
use banking_management_syste.Model.{Double}
use banking_management_syste.Server.{Request}
use banking_management_syste.Client.Validators.{
  validate_not_empty, validate_credential, max_password_len,
}
use banking_management_syste.Client.Terminal.{
  prompt, Terminal, Term, pure, ◌>>=◌, request, read_account_number, read_valid_double,
}

module _ {F : Type 0} ⦃o : Double F⦄ (t : Terminal F) where
  abbrev send : String → List Text → Term (Option Request)
  send op fields = pure (some (request op fields))

  -- The choices 2, 3 and 5.
  abbrev ask_amount : String → ℕ → Term (Option Request)
  ask_amount op user_id = do
    amount ← read_valid_double t
    send op (decimal user_id ∷ t.print_double amount ∷ [])

  abbrev ask_transfer : ℕ → Term (Option Request)
  ask_transfer user_id = do
    to_id ← read_account_number t
    amount ← read_valid_double t
    send "TRANSFER" (decimal user_id ∷ decimal to_id ∷ t.print_double amount ∷ [])

  -- The choice of a new password, which every menu has.
  abbrev pub ask_password : ℕ → Term (Option Request)
  ask_password user_id = do
    newpass ← prompt t max_password_len validate_credential
    send "CHANGE_PASSWORD" (decimal user_id ∷ newpass ∷ [])

  abbrev ask_feedback : ℕ → Term (Option Request)
  ask_feedback user_id = do
    feedback ← prompt t 512 validate_not_empty
    send "ADD_FEEDBACK" (decimal user_id ∷ feedback ∷ [])

  unfoldable pub customer_choice : ℕ → ℕ → Term (Option Request)
  customer_choice user_id choice =
      if choice == 1
      then send "VIEW_BALANCE" (signed user_id ∷ [])
      else if choice == 2
      then ask_amount "DEPOSIT" user_id
      else if choice == 3
      then ask_amount "WITHDRAW" user_id
      else if choice == 4
      then ask_transfer user_id
      else if choice == 5
      then ask_amount "APPLY_LOAN" user_id
      else if choice == 6
      then send "VIEW_LOAN" (decimal user_id ∷ [])
      else if choice == 7
      then ask_feedback user_id
      else if choice == 8
      then send "VIEW_FEEDBACK" (decimal user_id ∷ [])
      else if choice == 9
      then send "VIEW_TRANSACTIONS" (decimal user_id ∷ [])
      else if choice == 10
      then send "VIEW_DETAILS" (decimal user_id ∷ [])
      else if choice == 11
      then ask_password user_id
      else if choice == 12
      then send "LOGOUT" []
      else pure none
