-- ===== src/Client/Main.antt =====
-- `main` of src/client.c once it is connected: the choice of a role, the login, and the menu of the role.
pub mod Rounds
use banking_management_syste.Base.{
  ℕ, ◌≡◌, ◌⊎◌, ◌↔◌, inl, inr, arith, Bool-cases, refl, zero, suc, Bool, true, false, not, ◌&&◌,
  ◌||◌, Option, none, some, [], ◌∷◌, ◌==◌, if◌then◌else◌, length,
}
use banking_management_syste.Base.Text.{Text, codes, streq, streq→eq}
use banking_management_syste.Model.{Double}
use banking_management_syste.Client.Input.{clear_stdin, read_validated_string}
use banking_management_syste.Client.Validators.{
  validate_credential, max_username_len, max_password_len,
}
use banking_management_syste.Client.Terminal.{prompt, Terminal, request}
use banking_management_syste.Client.Menus.{
  Response, Link, Dialogue, send_request_and_get_response, customer_menu, employee_menu,
  manager_menu, admin_menu,
}

-- Whether the role is that of the choice.
unfoldable pub valid_role : ℕ → Text → Bool
valid_role choice role =
    ((choice == 1) && streq role (codes "customer"))
    || (((choice == 2) && streq role (codes "employee"))
        || (((choice == 3) && streq role (codes "manager"))
            || ((choice == 4) && streq role (codes "admin"))))

-- The role that a choice of the first menu stands for.
abbrev pub Chosen : ℕ → Text → Type 0
Chosen choice role =
    ((choice ≡ 1) × (role ≡ codes "customer"))
    ⊎ ((choice ≡ 2) × (role ≡ codes "employee"))
    ⊎ ((choice ≡ 3) × (role ≡ codes "manager"))
    ⊎ ((choice ≡ 4) × (role ≡ codes "admin"))

pub valid_role_iff :
    (choice : ℕ) (role : Text) → (valid_role choice role ≡ true) ↔ Chosen choice role
unfolding valid_role streq
valid_role_iff choice role = (forth, back)
  where
    forth : valid_role choice role ≡ true → Chosen choice role
    forth h = elim (Bool-cases ((choice == 1) && streq role (codes "customer"))) [
      | inl e ↦ inl (ground arith, streq→eq role (codes "customer") (ground arith))
      | inr e ↦ elim (Bool-cases ((choice == 2) && streq role (codes "employee"))) [
        | inl e' ↦ inr (inl (ground arith, streq→eq role (codes "employee") (ground arith)))
        | inr e' ↦ elim (Bool-cases ((choice == 3) && streq role (codes "manager"))) [
          | inl e'' ↦ inr (inr (inl (ground arith, streq→eq role (codes "manager") (ground arith))))
          | inr e'' ↦ inr (inr (inr (ground arith, streq→eq role (codes "admin") (ground arith))))
        ]
      ]
    ]

    back : Chosen choice role → valid_role choice role ≡ true
    back (inl (c, r)) = rw (c, r) refl
    back (inr (inl (c, r))) = rw (c, r) refl
    back (inr (inr (inl (c, r)))) = rw (c, r) refl
    back (inr (inr (inr (c, r)))) = rw (c, r) refl

-- Who has logged in: the number and the role.
pub record Who : Type 0 where
  pub user_id : ℕ
  pub role : Text

module _ {S : Type 0} (link : Link S) {F : Type 0} (t : Terminal F) where
  -- One attempt to log in after a choice from 1 to 4: none if it fails.
  unfoldable pub login_attempt : ℕ → Dialogue S (Option Who)
  login_attempt choice input s = elim (prompt t max_username_len validate_credential input) [
    | none ↦ none
    | some (username, rest) ↦ elim (prompt t max_password_len validate_credential rest) [
      | none ↦ none
      | some (password, rest₁) ↦
          let (resp, s₁) =
            send_request_and_get_response link (request "LOGIN" (username ∷ password ∷ [])) s in
          elim (t.scan_success resp.message) [
            | none ↦ some (none, rest₁, s₁)
            | some (user_id, role, name) ↦ some (
              if valid_role choice role
                  then some (record { user_id = user_id; role = role })
                  else none,
              rest₁,
              s₁,
            )
          ]
    ]
  ]

  -- The menu of the role; without a number or with an unknown role there is none.
  unfoldable pub dispatch : ⦃o : Double F⦄ → Who → Text → S → Option (Text × S)
  dispatch who input s =
      if who.user_id == 0
      then some (input, s)
      else if streq who.role (codes "customer")
      then customer_menu link t who.user_id input s
      else if streq who.role (codes "employee")
      then employee_menu link t who.user_id input s
      else if streq who.role (codes "manager")
      then manager_menu link t who.user_id input s
      else if streq who.role (codes "admin")
      then admin_menu link t who.user_id input s
      else some (input, s)

  -- Both loops of `main` in one: after a failed login and after a menu the choice of a role comes
  -- again, and the choice 5 ends the client.
  unfoldable pub main_rounds : ⦃o : Double F⦄ → ℕ → Text → S → Option (Text × S)
  main_rounds zero input s = none
  main_rounds (suc fuel) [] s = none
  main_rounds (suc fuel) (c ∷ input) s =
      let (n, rest) = t.scan_int (c ∷ input) in
      elim n [
        | none ↦ main_rounds fuel (clear_stdin rest) s
        | some choice ↦ elim (choice == 5) [
          | true ↦ some (clear_stdin rest, s)
          | false ↦ elim (login_attempt choice (clear_stdin rest) s) [
            | none ↦ none
            | some (none, rest₁, s₁) ↦ main_rounds fuel rest₁ s₁
            | some (some who, rest₁, s₁) ↦ elim (dispatch who rest₁ s₁) [
              | none ↦ none
              | some (rest₂, s₂) ↦ main_rounds fuel rest₂ s₂
            ]
          ]
        ]
      ]

  unfoldable pub client_main : ⦃o : Double F⦄ → Text → S → Option (Text × S)
  client_main input s = main_rounds (suc (length input)) input s
