-- ===== src/Client/Menus.antt =====
-- The menus of src/client.c as dialogues: the input, and the other end of the socket with its state.
pub mod Rounds
use banking_management_syste.Base.{
  ℕ, zero, suc, ◌-◌, Bool, true, false, Option, none, some, [], ◌∷◌, ◌==◌, if◌then◌else◌, length,
}
use banking_management_syste.Base.Text.{Text, codes}
use banking_management_syste.Base.Int.{ℤ, pos, negsuc}
use banking_management_syste.Model.{Double}
use banking_management_syste.Server.{Request}
use banking_management_syste.Client.Input.{clear_stdin}
use banking_management_syste.Client.Terminal.{Terminal, Term, request}
use banking_management_syste.Client.Customer.{customer_choice}
use banking_management_syste.Client.Employee.{employee_choice}
use banking_management_syste.Client.Manager.{manager_choice}
use banking_management_syste.Client.Admin.{admin_choice, ask_role}

pub record Response : Type 0 where
  pub status_code : ℤ
  pub message : Text

-- The socket: whether a request has been written, and the response read, none on an error or at the end
-- of the connection.
pub record Link (S : Type 0) : Type 0 where
  pub write : Request → S → Bool × S
  pub read : S → Option Response × S

abbrev pub minus_one : ℤ
minus_one = negsuc 0

abbrev pub is_minus_one : ℤ → Bool
is_minus_one (negsuc n) = n == 0
is_minus_one (pos n) = false

abbrev pub is_zero : ℤ → Bool
is_zero (pos n) = n == 0
is_zero (negsuc n) = false

-- From the input and the state of the other end to a value and both; none at the end of the input.
abbrev pub Dialogue : Type 0 → Type 0 → Type 0
Dialogue S A = Text → S → Option (A × Text × S)

abbrev pub lift : {S A : Type 0} → Term A → Dialogue S A
lift m input s = elim (m input) [ none ↦ none | some (a, rest) ↦ some (a, rest, s) ]

module _ {S : Type 0} (link : Link S) where
  unfoldable pub send_request_and_get_response : Request → S → Response × S
  send_request_and_get_response req s =
      let (written, s₁) = link.write req s in
      let (got, s₂) = link.read s₁ in
      elim written [
        | false ↦ (
          record { status_code = minus_one; message = codes "Connection to server lost (write)." },
          s₁,
        )
        | true ↦ elim got [
          | some resp ↦ (resp, s₂)
          | none ↦ (
            record { status_code = minus_one; message = codes "Connection to server lost (read)." },
            s₂,
          )
        ]
      ]

  module _ {F : Type 0} ⦃o : Double F⦄ (t : Terminal F) where
    -- The loop of every menu: a choice that is no number is dropped, a choice without a request shows
    -- the menu again, and a lost connection or the last choice leaves it.
    unfoldable pub menu_rounds :
        ℕ → ℕ → (ℕ → Dialogue S (Option Request)) → Text → S → Option (Text × S)
    menu_rounds zero last choose input s = none
    menu_rounds (suc fuel) last choose [] s = none
    menu_rounds (suc fuel) last choose (c ∷ input) s =
        let (n, rest) = t.scan_int (c ∷ input) in
        elim n [
          | none ↦ menu_rounds fuel last choose (clear_stdin rest) s
          | some choice ↦ elim (choose choice (clear_stdin rest) s) [
            | none ↦ none
            | some (none, rest₁, s₁) ↦ menu_rounds fuel last choose rest₁ s₁
            | some (some req, rest₁, s₁) ↦
                let (resp, s₂) = send_request_and_get_response req s₁ in
                elim (is_minus_one resp.status_code) [
                  | true ↦ some (rest₁, s₂)
                  | false ↦ elim (choice == last) [
                    | true ↦ some (rest₁, s₂)
                    | false ↦ menu_rounds fuel last choose rest₁ s₂
                  ]
                ]
          ]
        ]

    unfoldable pub customer_menu : ℕ → Text → S → Option (Text × S)
    customer_menu user_id input s =
        menu_rounds (suc (length input)) 12 (λ choice. lift (customer_choice t user_id choice))
          input s

    unfoldable pub employee_menu : ℕ → Text → S → Option (Text × S)
    employee_menu user_id input s =
        menu_rounds (suc (length input)) 8 (λ choice. lift (employee_choice t user_id choice)) input
          s

    unfoldable pub manager_menu : ℕ → Text → S → Option (Text × S)
    manager_menu user_id input s =
        menu_rounds (suc (length input)) 6 (λ choice. lift (manager_choice t user_id choice)) input
          s

    -- The choice 3 shows the users first, and goes on only if that succeeds.
    unfoldable pub admin_dialogue : ℕ → ℕ → Dialogue S (Option Request)
    admin_dialogue user_id choice input s =
        let (resp, s₁) = send_request_and_get_response (request "LIST_USERS" []) s in
        elim (choice == 3) [
          | true ↦ elim (is_zero resp.status_code) [
            | true ↦ lift (ask_role t) input s₁
            | false ↦ some (none, input, s₁)
          ]
          | false ↦ lift (admin_choice t user_id choice) input s
        ]

    unfoldable pub admin_menu : ℕ → Text → S → Option (Text × S)
    unfolding admin_dialogue
    admin_menu user_id input s = menu_rounds (suc (length input)) 5 (admin_dialogue user_id) input s
