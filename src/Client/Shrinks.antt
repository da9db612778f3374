-- ===== src/Client/Shrinks.antt =====
-- Steps of the client's dialogue that never leave more input than they were given.
use banking_management_syste.Base.{
  ℕ, zero, suc, ◌≤◌, ◌<◌, ◌≡◌, Bool, true, false, some, [], ◌∷◌, arith, if◌then◌else◌, length,
  Option-cases, inl, inr, ◌-◌, refl,
}
use banking_management_syste.Base.Text.{Text}
use banking_management_syste.Model.{Double}
use banking_management_syste.Client.Input.{
  Validator, fgets, cut_newline, clear_stdin, read_rounds, read_validated_string,
}
use banking_management_syste.Client.Input.Prompts.{fgets_chars-shrinks, fgets-shrinks}
use banking_management_syste.Client.Terminal.{
  Terminal, Term, pure, ◌>>=◌, clear, read_int, read_llu, read_account_number, read_valid_double,
  double_rounds,
}
use banking_management_syste.Client.Customer.{customer_choice}
use banking_management_syste.Client.Employee.{employee_choice, ask_details, ask_new_customer}
use banking_management_syste.Client.Manager.{manager_choice}
use banking_management_syste.Client.Admin.{admin_choice, ask_new_employee, ask_role}

-- How `scanf` treats its input: a number takes at least one character, and nothing is put back.
pub record IsScan {F : Type 0} (t : Terminal F) : Type 0 where
  pub int_takes :
      (input : Text) (n : ℕ)
      → (t.scan_int input).0 ≡ some n
      → length (t.scan_int input).1 < length input
  pub int_keeps : (input : Text) → length (t.scan_int input).1 ≤ length input
  pub llu_keeps : (input : Text) → length (t.scan_llu input).1 ≤ length input

-- A data type, so that a proof can be searched for by the shape of the step.
pub data Shrinks {A : Type 0} (m : Term A) : Type 0 where
  shrinks :
      ((input rest : Text) (a : A) → m input ≡ some (a, rest) → length rest ≤ length input)
      → Shrinks m

pub left_le :
    {A : Type 0} {m : Term A}
    → Shrinks m
    → (input rest : Text) (a : A) → m input ≡ some (a, rest)
    → length rest ≤ length input
left_le (shrinks h) = h

pure-Shrinks : {A : Type 0} (a : A) → Shrinks (pure a)
pure-Shrinks a = shrinks (λ input rest b e. ground arith)

bind-Shrinks :
    {A B : Type 0} {m : Term A} {f : A → Term B}
    → Shrinks m
    → ((a : A) → Shrinks (f a))
    → Shrinks (m >>= f)
bind-Shrinks {m} {f} h k = shrinks λ input rest b e. elim (Option-cases (m input)) [
  | inl n ↦ absurd (ground arith)
  | inr ((a, mid), q) ↦
      let later : f a mid ≡ some (b, rest) = ground arith in
      omega (arith, left_le h input mid a q, left_le (k a) mid rest b later)
]

if-Shrinks :
    {A : Type 0} (b : Bool) {m n : Term A} → Shrinks m → Shrinks n → Shrinks (if b then m else n)
if-Shrinks true h k = h
if-Shrinks false h k = k

pub clear_stdin-le : (input : Text) → length (clear_stdin input) ≤ length input
unfolding clear_stdin
clear_stdin-le [] = omega arith
clear_stdin-le (c ∷ input) = ground (arith, clear_stdin-le input)

pub clear_stdin-lt : (c : ℕ) (input : Text) → length (clear_stdin (c ∷ input)) ≤ length input
unfolding clear_stdin
clear_stdin-lt c input = ground (arith, clear_stdin-le input)

clear-Shrinks : Shrinks clear
clear-Shrinks = shrinks (λ input rest a e. ground (arith, clear_stdin-le input))

read_rounds-le :
    (fuel : ℕ) (held : Text) (size : ℕ) (validator : Validator) (input rest buffer : Text)
    → read_rounds fuel held size validator input ≡ some (buffer, rest)
    → length rest ≤ length input
unfolding read_rounds
read_rounds-le zero held size validator input rest buffer e = absurd (ground arith)
read_rounds-le (suc fuel) held size validator [] rest buffer e = ground arith
read_rounds-le (suc fuel) held size validator (c ∷ input) rest buffer e = ground (
  arith,
  fgets_chars-shrinks (size - 1) (c ∷ input),
  read_rounds-le fuel (cut_newline (fgets size (c ∷ input)).0) size validator
      (fgets size (c ∷ input)).1 rest buffer,
)

pub read_validated_string-Shrinks :
    (held : Text) (size : ℕ) (validator : Validator)
    → Shrinks (read_validated_string held size validator)
unfolding read_validated_string
read_validated_string-Shrinks held size validator =
    shrinks
      (λ input rest a e. read_rounds-le (suc (length input)) held size validator input rest a e)

module _ {F : Type 0} (t : Terminal F) where
  module _ (law : IsScan t) where
    read_int-Shrinks : Shrinks (read_int t)
    read_int-Shrinks = shrinks (λ input rest a e. ground (arith, law.int_keeps input))

    read_llu-Shrinks : Shrinks (read_llu t)
    read_llu-Shrinks = shrinks (λ input rest a e. ground (arith, law.llu_keeps input))

  read_account_number-Shrinks : Shrinks (read_account_number t)
  read_account_number-Shrinks =
      bind-Shrinks (read_validated_string-Shrinks (t.unset_text 32) 32 _) (λ s. pure-Shrinks _)

  module _ ⦃o : Double F⦄ where
    double_rounds-le :
        (fuel : ℕ) (held input rest : Text) (x : F)
        → double_rounds t fuel held input ≡ some (x, rest)
        → length rest ≤ length input
    unfolding double_rounds
    double_rounds-le zero held input rest x e = absurd (ground arith)
    double_rounds-le (suc fuel) held [] rest x e = ground arith
    double_rounds-le (suc fuel) held (c ∷ input) rest x e = ground (
      arith,
      fgets_chars-shrinks 127 (c ∷ input),
      double_rounds-le fuel (cut_newline (fgets 128 (c ∷ input)).0) (fgets 128 (c ∷ input)).1 rest
          x,
    )

    pub double_rounds-same :
        (f g : ℕ) (held input : Text)
        → length input < f
        → length input < g
        → double_rounds t f held input ≡ double_rounds t g held input
    unfolding double_rounds
    double_rounds-same zero g held input h k = absurd (omega arith)
    double_rounds-same (suc f) zero held input h k = absurd (omega arith)
    double_rounds-same (suc f) (suc g) held [] h k = refl
    double_rounds-same (suc f) (suc g) held (c ∷ input) h k =
        let piece = fgets 128 (c ∷ input) in
        let less : length piece.1 ≤ length input = fgets-shrinks 128 c input (omega arith) in
        ground
          (arith, double_rounds-same f g (cut_newline piece.0) piece.1 (omega arith) (omega arith))

    read_valid_double-Shrinks : Shrinks (read_valid_double t)
    unfolding read_valid_double
    read_valid_double-Shrinks =
        shrinks (λ input rest a e.
          double_rounds-le (suc (length input)) (t.unset_text 128) input rest a e)

ruleset shrinking = (
  pure-Shrinks, bind-Shrinks, if-Shrinks, clear-Shrinks, read_validated_string-Shrinks,
  read_int-Shrinks, read_llu-Shrinks, read_account_number-Shrinks, read_valid_double-Shrinks,
)

module _ {F : Type 0} ⦃o : Double F⦄ (t : Terminal F) (law : IsScan t) where
  pub customer_choice-Shrinks : (user_id choice : ℕ) → Shrinks (customer_choice t user_id choice)
  unfolding customer_choice
  customer_choice-Shrinks user_id choice = search shrinking depth 40

  ask_details-Shrinks : Shrinks (ask_details t)
  unfolding ask_details
  ask_details-Shrinks = search shrinking depth 40

  pub employee_choice-Shrinks : (user_id choice : ℕ) → Shrinks (employee_choice t user_id choice)
  unfolding employee_choice ask_new_customer
  employee_choice-Shrinks user_id choice = search (shrinking, ask_details-Shrinks) depth 40

  pub manager_choice-Shrinks : (user_id choice : ℕ) → Shrinks (manager_choice t user_id choice)
  unfolding manager_choice
  manager_choice-Shrinks user_id choice = search shrinking depth 40

  pub ask_role-Shrinks : Shrinks (ask_role t)
  unfolding ask_role
  ask_role-Shrinks = search shrinking depth 40

  pub admin_choice-Shrinks : (user_id choice : ℕ) → Shrinks (admin_choice t user_id choice)
  unfolding admin_choice ask_new_employee
  admin_choice-Shrinks user_id choice = search (shrinking, ask_details-Shrinks) depth 40
