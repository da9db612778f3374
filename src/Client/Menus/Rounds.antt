-- ===== src/Client/Menus/Rounds.antt =====
-- The loops of the client's menus and of its `main` against their fuel: every round takes input.
use banking_management_syste.Base.{
  ℕ, zero, suc, ◌≤◌, ◌<◌, ◌≡◌, refl, Option, some, [], ◌∷◌, arith, length, Option-cases, inl, inr,
}
use banking_management_syste.Base.Text.{Text}
use banking_management_syste.Model.{Double}
use banking_management_syste.Server.{Request}
use banking_management_syste.Client.Input.{clear_stdin}
use banking_management_syste.Client.Terminal.{Terminal, Term, request}
use banking_management_syste.Client.Customer.{customer_choice}
use banking_management_syste.Client.Employee.{employee_choice}
use banking_management_syste.Client.Manager.{manager_choice}
use banking_management_syste.Client.Admin.{admin_choice, ask_role}
use banking_management_syste.Client.Shrinks.{
  IsScan, Shrinks, left_le, clear_stdin-le, clear_stdin-lt, customer_choice-Shrinks,
  employee_choice-Shrinks, manager_choice-Shrinks, admin_choice-Shrinks, ask_role-Shrinks,
}
use banking_management_syste.Client.Menus.{
  Link, Dialogue, lift, send_request_and_get_response, menu_rounds, customer_menu, employee_menu,
  manager_menu, admin_menu, admin_dialogue,
}

-- A dialogue that never leaves more input than it was given.
abbrev pub Keeps : {S A : Type 0} → Dialogue S A → Type 0
Keeps {S} {A} d =
    (input rest : Text) (s s' : S) (a : A)
    → d input s ≡ some (a, rest, s')
    → length rest ≤ length input

lift-Keeps : {S A : Type 0} (m : Term A) → Shrinks m → Keeps {S = S} (lift m)
lift-Keeps m h input rest s s' a e = elim (Option-cases (m input)) [
  | inl n ↦ absurd (ground arith)
  | inr ((b, mid), q) ↦ ground (arith, left_le h input mid b q)
]

pub clear_lt :
    {F : Type 0} (t : Terminal F)
    → IsScan t
    → (c : ℕ) (input : Text) → length (clear_stdin (t.scan_int (c ∷ input)).1) ≤ length input
clear_lt t law c input = go (t.scan_int (c ∷ input)).1 (law.int_keeps (c ∷ input))
  where
    go : (rest : Text) → length rest ≤ suc (length input) → length (clear_stdin rest) ≤ length input
    go [] h = omega (arith, clear_stdin-le [])
    go (d ∷ rest) h = omega (arith, clear_stdin-lt d rest)

module _ {S : Type 0} (link : Link S) {F : Type 0} ⦃o : Double F⦄ (t : Terminal F)
    (law : IsScan t) where
  module _ (last : ℕ) (choose : ℕ → Dialogue S (Option Request))
      (keeps : (n : ℕ) → Keeps (choose n)) where
    pub menu_rounds-same :
        (f g : ℕ) (input : Text) (s : S)
        → length input < f
        → length input < g
        → menu_rounds link t f last choose input s ≡ menu_rounds link t g last choose input s
    unfolding menu_rounds
    menu_rounds-same zero g input s h k = absurd (omega arith)
    menu_rounds-same (suc f) zero input s h k = absurd (omega arith)
    menu_rounds-same (suc f) (suc g) [] s h k = refl
    menu_rounds-same (suc f) (suc g) (c ∷ input) s h k =
        let rest = clear_stdin (t.scan_int (c ∷ input)).1 in
        let less : length rest ≤ length input = clear_lt t law c input in
        elim (Option-cases (t.scan_int (c ∷ input)).0) [
          | inl n ↦ ground (arith, menu_rounds-same f g rest s (omega arith) (omega arith))
          | inr (choice, n) ↦ elim (Option-cases (choose choice rest s)) [
            | inl q ↦ ground arith
            | inr ((r, rest₁, s₁), q) ↦
                let kept : length rest₁ ≤ length rest = keeps choice rest rest₁ s s₁ r q in
                elim (Option-cases r) [
                  | inl e ↦
                      ground (arith, menu_rounds-same f g rest₁ s₁ (omega arith) (omega arith))
                  | inr (req, e) ↦ ground (
                    arith,
                    menu_rounds-same f g rest₁ (send_request_and_get_response link req s₁).1
                        (omega arith) (omega arith),
                  )
                ]
          ]
        ]

    pub menu_rounds-le :
        (f : ℕ) (input rest : Text) (s s' : S)
        → menu_rounds link t f last choose input s ≡ some (rest, s')
        → length rest ≤ length input
    unfolding menu_rounds
    menu_rounds-le zero input rest s s' e = absurd (ground arith)
    menu_rounds-le (suc f) [] rest s s' e = absurd (ground arith)
    menu_rounds-le (suc f) (c ∷ input) rest s s' e =
        let mid = clear_stdin (t.scan_int (c ∷ input)).1 in
        let less : length mid ≤ length input = clear_lt t law c input in
        elim (Option-cases (t.scan_int (c ∷ input)).0) [
          | inl n ↦ ground (arith, menu_rounds-le f mid rest s s')
          | inr (choice, n) ↦ elim (Option-cases (choose choice mid s)) [
            | inl q ↦ absurd (ground arith)
            | inr ((r, rest₁, s₁), q) ↦
                let kept : length rest₁ ≤ length mid = keeps choice mid rest₁ s s₁ r q in
                elim (Option-cases r) [
                  | inl n' ↦ ground (arith, menu_rounds-le f rest₁ rest s₁ s')
                  | inr (req, n') ↦ ground (
                    arith,
                    menu_rounds-le f rest₁ rest (send_request_and_get_response link req s₁).1 s',
                  )
                ]
          ]
        ]

  admin_dialogue-Keeps : (user_id choice : ℕ) → Keeps (admin_dialogue link t user_id choice)
  unfolding admin_dialogue
  admin_dialogue-Keeps user_id choice input rest s s' a e =
      let s₁ = (send_request_and_get_response link (request "LIST_USERS" []) s).1 in
      ground (
        arith,
        lift-Keeps (ask_role t) (ask_role-Shrinks t law) input rest s₁ s' a,
        lift-Keeps (admin_choice t user_id choice) (admin_choice-Shrinks t law user_id choice) input
            rest s s' a,
      )

  -- A menu leaves no more input than it was given.
  pub menus-le :
      (user_id : ℕ) (input rest : Text) (s s' : S)
      → (customer_menu link t user_id input s ≡ some (rest, s') → length rest ≤ length input)
        × (employee_menu link t user_id input s ≡ some (rest, s') → length rest ≤ length input)
        × (manager_menu link t user_id input s ≡ some (rest, s') → length rest ≤ length input)
        × (admin_menu link t user_id input s ≡ some (rest, s') → length rest ≤ length input)
  unfolding customer_menu employee_menu manager_menu admin_menu
  menus-le user_id input rest s s' = (
    menu_rounds-le 12 (λ n. lift (customer_choice t user_id n))
        (λ n. lift-Keeps (customer_choice t user_id n) (customer_choice-Shrinks t law user_id n))
        (suc (length input)) input rest s s',
    menu_rounds-le 8 (λ n. lift (employee_choice t user_id n))
        (λ n. lift-Keeps (employee_choice t user_id n) (employee_choice-Shrinks t law user_id n))
        (suc (length input)) input rest s s',
    menu_rounds-le 6 (λ n. lift (manager_choice t user_id n))
        (λ n. lift-Keeps (manager_choice t user_id n) (manager_choice-Shrinks t law user_id n))
        (suc (length input)) input rest s s',
    menu_rounds-le 5 (admin_dialogue link t user_id) (admin_dialogue-Keeps user_id)
        (suc (length input)) input rest s s',
  )

  -- With any larger number of rounds a menu does the same.
  pub menus-same :
      (fuel user_id : ℕ) (input : Text) (s : S)
      → length input < fuel
      → (menu_rounds link t fuel 12 (λ n. lift (customer_choice t user_id n)) input s
          ≡ customer_menu link t user_id input s)
        × (menu_rounds link t fuel 8 (λ n. lift (employee_choice t user_id n)) input s
            ≡ employee_menu link t user_id input s)
        × (menu_rounds link t fuel 6 (λ n. lift (manager_choice t user_id n)) input s
            ≡ manager_menu link t user_id input s)
        × (menu_rounds link t fuel 5 (admin_dialogue link t user_id) input s
            ≡ admin_menu link t user_id input s)
  unfolding customer_menu employee_menu manager_menu admin_menu
  menus-same fuel user_id input s h =
      let enough : length input < suc (length input) = omega arith in
      (
        menu_rounds-same 12 (λ n. lift (customer_choice t user_id n))
            (λ n.
              lift-Keeps (customer_choice t user_id n) (customer_choice-Shrinks t law user_id n))
            fuel (suc (length input)) input s h enough,
        menu_rounds-same 8 (λ n. lift (employee_choice t user_id n))
            (λ n.
              lift-Keeps (employee_choice t user_id n) (employee_choice-Shrinks t law user_id n))
            fuel (suc (length input)) input s h enough,
        menu_rounds-same 6 (λ n. lift (manager_choice t user_id n))
            (λ n. lift-Keeps (manager_choice t user_id n) (manager_choice-Shrinks t law user_id n))
            fuel (suc (length input)) input s h enough,
        menu_rounds-same 5 (admin_dialogue link t user_id) (admin_dialogue-Keeps user_id) fuel
            (suc (length input)) input s h enough,
      )
