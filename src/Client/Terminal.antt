-- ===== src/Client/Terminal.antt =====
-- What the menus of src/client.c share: the C library's conversions, which are parameters, the reading
-- of numbers and account numbers, and the payload of a request.
use banking_management_syste.Base.{
  ℕ, zero, suc, ◌||◌, Option, none, some, List, [], ◌∷◌, ◌++◌, ◌==◌, if◌then◌else◌, length, take,
  drop,
}
use Prim.Native.String.{String}
use banking_management_syste.Base.Text.{Text, codes}
use banking_management_syste.Model.{Double}
use banking_management_syste.Client.Input.{
  Validator, fgets, cut_newline, clear_stdin, read_validated_string,
}
use banking_management_syste.Client.Validators.{validate_not_empty}
use banking_management_syste.Server.{Request}

-- scanf("%d") and scanf("%llu") on standard input, with the input that they leave, none where no number
-- stands there; strtod with what follows the number; atoi; snprintf's %lf; the conversions of the
-- answer to a login; and what a number and a buffer of a size hold that nothing has set.
pub record Terminal (F : Type 0) : Type 0 where
  pub scan_int : Text → Option ℕ × Text
  pub scan_llu : Text → Option ℕ × Text
  pub strtod : Text → Option (F × Text)
  pub atoi : Text → ℕ
  pub print_double : F → Text
  pub scan_success : Text → Option (ℕ × Text × Text)
  pub unset_word : ℕ
  pub unset_text : ℕ → Text

-- A step of the dialogue: from the input to a value and the input that is left.
abbrev pub Term : Type 0 → Type 0
Term A = Text → Option (A × Text)

module _ {A B : Type 0} where
  infixl 5 ◌>>=◌ ◌>>◌
  abbrev pub ◌>>=◌ : Term A → (A → Term B) → Term B
  ◌>>=◌ m f input = elim (m input) [ none ↦ none | some (a, rest) ↦ f a rest ]

  abbrev pub ◌>>◌ : Term A → Term B → Term B
  m >> k = m >>= λ _. k

abbrev pub pure : {A : Type 0} → A → Term A
pure a input = some (a, input)

-- clear_stdin() as a step.
abbrev pub clear : Term (Unit {0})
clear input = some (tt, clear_stdin input)

-- snprintf(payload, 1024, ...), the fields separated by spaces.
abbrev pub join : List Text → Text
join [] = []
join (w ∷ []) = w
join (w ∷ v ∷ ws) = w ++ b' ' ∷ join (v ∷ ws)

abbrev pub request : String → List Text → Request
request op fields = record { op = codes op; payload = take 1023 (join fields) }

-- Reads an account number: after a letter A the number starts at the third character.
abbrev pub account_number : (Text → ℕ) → Text → ℕ
account_number atoi [] = atoi []
account_number atoi (c ∷ s) = if (c == b'A') || (c == b'a') then atoi (drop 1 s) else atoi (c ∷ s)

module _ {F : Type 0} (t : Terminal F) where
  -- scanf("%d", &n) whose result the code does not look at.
  abbrev pub read_int : Term ℕ
  read_int input =
      let (n, rest) = t.scan_int input in some (elim n [ none ↦ t.unset_word | some m ↦ m ], rest)

  abbrev pub read_llu : Term ℕ
  read_llu input =
      let (n, rest) = t.scan_llu input in some (elim n [ none ↦ t.unset_word | some m ↦ m ], rest)

  -- A prompt with a local buffer.
  abbrev pub prompt : ℕ → Validator → Term Text
  prompt size validator = read_validated_string (t.unset_text size) size validator

  abbrev pub read_account_number : Term ℕ
  read_account_number = do
    acct_str ← prompt 32 validate_not_empty
    pure (account_number t.atoi acct_str)

  module _ ⦃o : Double F⦄ where
    -- The amount in a line; none if the line is empty, is not a number to its end, or if the number is
    -- not positive.
    unfoldable pub amount_of : Text → Option F
    amount_of [] = none
    amount_of (c ∷ s) = elim (t.strtod (c ∷ s)) [
      | none ↦ none
      | some (value, b ∷ endptr) ↦ none
      | some (value, []) ↦ if o.le value o.zero then none else some value
    ]

    -- `held` is what the buffer holds.
    unfoldable pub double_rounds : ℕ → Text → Term F
    double_rounds zero held input = none
    double_rounds (suc fuel) held [] = elim (amount_of (cut_newline held)) [
      | none ↦ none
      | some value ↦ some (value, [])
    ]
    double_rounds (suc fuel) held (c ∷ input) =
        let (line, rest) = fgets 128 (c ∷ input) in
        let buffer = cut_newline line in
        let again = double_rounds fuel buffer rest in
        elim (amount_of buffer) [ none ↦ again | some value ↦ some (value, rest) ]

    unfoldable pub read_valid_double : Term F
    unfolding double_rounds
    read_valid_double input = double_rounds (suc (length input)) (t.unset_text 128) input
