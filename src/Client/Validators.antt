-- ===== src/Client/Validators.antt =====
-- The validators of src/client.c. The first test that fails gives the message; a length in a message
-- is that of its constant.
use banking_management_syste.Base.{
  ℕ, ◌≤◌, ◌≡◌, ◌≢◌, ◌↔◌, refl, Bool, true, false, not, ◌&&◌, ◌||◌, none, some, [], ◌∷◌, arith, leb,
  ◌==◌, if◌then◌else◌, length, All,
}
use banking_management_syste.Base.Text.{Text}
use banking_management_syste.Client.Input.{Validator}

-- strchr(input, c) != NULL
unfoldable pub contains : ℕ → Text → Bool
contains c [] = false
contains c (b ∷ s) = (b == c) || contains c s

abbrev pub is_digit : ℕ → Bool
is_digit c = leb b'0' c && leb c b'9'

unfoldable pub all_digits : Text → Bool
all_digits [] = true
all_digits (c ∷ s) = is_digit c && all_digits s

-- Each constant of include/server.h with the byte for the NUL.
abbrev pub max_fname_len : ℕ
max_fname_len = 64

abbrev pub max_addr_len : ℕ
max_addr_len = 256

abbrev pub max_email_len : ℕ
max_email_len = 64

abbrev pub max_phone_len : ℕ
max_phone_len = 16

abbrev pub max_username_len : ℕ
max_username_len = 64

abbrev pub max_password_len : ℕ
max_password_len = 128

abbrev pub max_role_str : ℕ
max_role_str = 32

unfoldable pub validate_not_empty : Validator
validate_not_empty [] = some "Input cannot be empty"
validate_not_empty (c ∷ s) = none

unfoldable pub validate_name_part : Validator
unfolding validate_not_empty
validate_name_part input = elim (validate_not_empty input) [
  | some error_msg ↦ some error_msg
  | none ↦
      if leb max_fname_len (length input)
      then some "Input too long (max 63)"
      else if contains b' ' input
      then some "Input cannot contain spaces"
      else none
]

unfoldable pub validate_address : Validator
unfolding validate_not_empty
validate_address input = elim (validate_not_empty input) [
  | some error_msg ↦ some error_msg
  | none ↦
      if leb max_addr_len (length input)
      then some "Input too long (max 255)"
      else if contains b' ' input
      then some "Input cannot contain spaces (use '_' if needed)"
      else none
]

unfoldable pub validate_email : Validator
unfolding validate_not_empty
validate_email input = elim (validate_not_empty input) [
  | some error_msg ↦ some error_msg
  | none ↦
      if leb max_email_len (length input)
      then some "Email too long (max 63)"
      else if not (contains b'@' input) || not (contains b'.' input)
      then some "Invalid email format (must contain '@' and '.')"
      else none
]

unfoldable pub validate_phone : Validator
unfolding validate_not_empty
validate_phone input = elim (validate_not_empty input) [
  | some error_msg ↦ some error_msg
  | none ↦
      if not (length input == 10)
      then some "Phone must be exactly 10 digits"
      else if all_digits input
      then none
      else some "Phone must contain only digits"
]

unfoldable pub validate_credential : Validator
unfolding validate_not_empty
validate_credential input = elim (validate_not_empty input) [
  | some error_msg ↦ some error_msg
  | none ↦
      if leb max_username_len (length input)
      then some "Input too long"
      else if contains b' ' input
      then some "Input cannot contain spaces"
      else none
]

contains→All : (c : ℕ) (s : Text) → (contains c s ≡ false) ↔ All (λ b. b ≢ c) s
unfolding contains
contains→All c [] = ((λ h. tt), (λ h. refl))
contains→All c (b ∷ s) = ground (arith, contains→All c s)

all_digits-All : (s : Text) → (all_digits s ≡ true) ↔ All (λ b. (48 ≤ b) × (b ≤ 57)) s
unfolding all_digits
all_digits-All [] = ((λ h. tt), (λ h. refl))
all_digits-All (b ∷ s) = ground (arith, all_digits-All s)

-- A text without spaces that is not empty and has at most `n` bytes.
abbrev pub IsWordOf : ℕ → Text → Type 0
IsWordOf n s = (1 ≤ length s) × (length s ≤ n) × All (λ b. b ≢ b' ') s

-- The validators accept exactly these texts: a name part or a credential, a text of 1 to 63 bytes
-- without a space; an address, one of 1 to 255; an email, a text of 1 to 63 bytes with an at sign and
-- a full stop, spaces or not; a phone number, ten digits.
pub validators_lem :
    (input : Text)
    → ((validate_name_part input ≡ none) ↔ IsWordOf 63 input)
      × ((validate_credential input ≡ none) ↔ IsWordOf 63 input)
      × ((validate_address input ≡ none) ↔ IsWordOf 255 input)
      × ((validate_email input ≡ none) ↔ (
          (1 ≤ length input)
          × (length input ≤ 63)
          × (contains b'@' input ≡ true)
          × (contains b'.' input ≡ true)))
      × ((validate_phone input ≡ none)
          ↔ ((length input ≡ 10) × All (λ b. (48 ≤ b) × (b ≤ 57)) input))
unfolding validate_name_part validate_credential validate_address validate_email validate_phone
    validate_not_empty
validators_lem [] = ground (arith)
validators_lem (c ∷ s) = ground (arith, contains→All b' ' (c ∷ s), all_digits-All (c ∷ s))
