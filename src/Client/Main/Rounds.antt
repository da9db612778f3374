-- ===== src/Client/Main/Rounds.antt =====
-- The loop of the client's `main` against its fuel.
use banking_management_syste.Base.{
  ℕ, zero, suc, ◌≤◌, ◌<◌, ◌≡◌, refl, some, [], ◌∷◌, arith, length, Option-cases, inl, inr,
}
use banking_management_syste.Base.Text.{Text}
use banking_management_syste.Model.{Double}
use banking_management_syste.Client.Input.{
  Validator, read_rounds, read_validated_string, clear_stdin, read_validated_string, Validator,
}
use banking_management_syste.Client.Validators.{
  validate_credential, max_username_len, max_password_len,
}
use banking_management_syste.Client.Terminal.{double_rounds, read_valid_double, prompt, Terminal}
use banking_management_syste.Client.Shrinks.{
  double_rounds-same, IsScan, left_le, read_validated_string-Shrinks,
}
use banking_management_syste.Client.Menus.{
  Link, lift, menu_rounds, customer_menu, employee_menu, manager_menu, admin_menu, admin_dialogue,
}
use banking_management_syste.Client.Menus.Rounds.{Keeps, clear_lt, menus-le, menus-same}
use banking_management_syste.Client.Main.{Who, login_attempt, dispatch, main_rounds, client_main}
use banking_management_syste.Client.Customer.{customer_choice}
use banking_management_syste.Client.Employee.{employee_choice}
use banking_management_syste.Client.Manager.{manager_choice}
use banking_management_syste.Client.Input.Prompts.{read_rounds-same}

module _ {S : Type 0} (link : Link S) {F : Type 0} (t : Terminal F) where
  login_attempt-Keeps : (choice : ℕ) → Keeps (login_attempt link t choice)
  unfolding login_attempt
  login_attempt-Keeps choice input rest s s' a e =
      elim (Option-cases (prompt t max_username_len validate_credential input)) [
        | inl n ↦ absurd (ground arith)
        | inr ((username, mid), n) ↦
            elim (Option-cases (prompt t max_password_len validate_credential mid)) [
              | inl n' ↦ absurd (ground arith)
              | inr ((password, last), n') ↦ ground (
                arith,
                left_le
                    (read_validated_string-Shrinks (t.unset_text _) max_username_len
                      validate_credential)
                    input mid username n,
                left_le
                    (read_validated_string-Shrinks (t.unset_text _) max_password_len
                      validate_credential)
                    mid last password n',
              )
            ]
      ]

  module _ ⦃o : Double F⦄ (law : IsScan t) where
    dispatch-le :
        (who : Who) (input rest : Text) (s s' : S)
        → dispatch link t who input s ≡ some (rest, s')
        → length rest ≤ length input
    unfolding dispatch
    dispatch-le who input rest s s' e =
        ground (arith, menus-le link t law who.user_id input rest s s')

    main_rounds-same :
        (f g : ℕ) (input : Text) (s : S)
        → length input < f
        → length input < g
        → main_rounds link t f input s ≡ main_rounds link t g input s
    unfolding main_rounds
    main_rounds-same zero g input s h k = absurd (omega arith)
    main_rounds-same (suc f) zero input s h k = absurd (omega arith)
    main_rounds-same (suc f) (suc g) [] s h k = refl
    main_rounds-same (suc f) (suc g) (c ∷ input) s h k =
        let rest = clear_stdin (t.scan_int (c ∷ input)).1 in
        let less : length rest ≤ length input = clear_lt t law c input in
        elim (Option-cases (t.scan_int (c ∷ input)).0) [
          | inl n ↦ ground (arith, main_rounds-same f g rest s (omega arith) (omega arith))
          | inr (choice, n) ↦ elim (Option-cases (login_attempt link t choice rest s)) [
            | inl q ↦ ground arith
            | inr ((r, rest₁, s₁), q) ↦
                let kept : length rest₁ ≤ length rest =
                  login_attempt-Keeps choice rest rest₁ s s₁ r q in
                elim (Option-cases r) [
                  | inl e ↦
                      ground (arith, main_rounds-same f g rest₁ s₁ (omega arith) (omega arith))
                  | inr (who, e) ↦ elim (Option-cases (dispatch link t who rest₁ s₁)) [
                    | inl d ↦ ground arith
                    | inr ((rest₂, s₂), d) ↦
                        let left : length rest₂ ≤ length rest₁ =
                          dispatch-le who rest₁ rest₂ s₁ s₂ d in
                        ground (arith, main_rounds-same f g rest₂ s₂ (omega arith) (omega arith))
                  ]
                ]
          ]
        ]

    -- No loop of the client stops for want of rounds: with any number of rounds above the length of its
    -- input `main` does the same, and so does each menu, each prompt whose buffer is for at least one
    -- character, and the prompt for an amount; whatever the other end answers, if `scanf` takes the
    -- characters of a number that it reads and puts none back.
    pub client_main-enough :
        (fuel user_id : ℕ) (held : Text) (size : ℕ) (validator : Validator) (input : Text) (s : S)
        → length input < fuel
        → 2 ≤ size
        → (main_rounds link t fuel input s ≡ client_main link t input s)
          × (menu_rounds link t fuel 12 (λ n. lift (customer_choice t user_id n)) input s
              ≡ customer_menu link t user_id input s)
          × (menu_rounds link t fuel 8 (λ n. lift (employee_choice t user_id n)) input s
              ≡ employee_menu link t user_id input s)
          × (menu_rounds link t fuel 6 (λ n. lift (manager_choice t user_id n)) input s
              ≡ manager_menu link t user_id input s)
          × (menu_rounds link t fuel 5 (admin_dialogue link t user_id) input s
              ≡ admin_menu link t user_id input s)
          × (read_rounds fuel held size validator input
              ≡ read_validated_string held size validator input)
          × (double_rounds t fuel (t.unset_text 128) input ≡ read_valid_double t input)
    unfolding client_main read_validated_string read_valid_double
    client_main-enough fuel user_id held size validator input s h b =
        let enough : length input < suc (length input) = omega arith in
        let menus = menus-same link t law fuel user_id input s h in
        (
          main_rounds-same fuel (suc (length input)) input s h enough,
          menus.0,
          menus.1,
          menus.2,
          menus.3,
          read_rounds-same fuel (suc (length input)) held size validator input b h enough,
          double_rounds-same t fuel (suc (length input)) (t.unset_text 128) input h enough,
        )
