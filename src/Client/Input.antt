-- ===== src/Client/Input.antt =====
-- The input of src/client.c: `fgets`, `strcspn`, `clear_stdin` and the prompts that repeat until a
-- validator accepts. Standard input is the text that is still to be read. At its end `fgets` leaves the
-- buffer as it is, and the prompt looks at what the buffer holds; it has no result if it does not accept
-- that, since the program then asks again for ever.
pub mod Prompts
use Prim.Native.String.{String}
use banking_management_syste.Base.{
  ℕ, zero, suc, ◌+◌, ◌-◌, Bool, true, false, Option, none, some, List, [], ◌∷◌, ◌==◌, if◌then◌else◌,
  length,
}
use banking_management_syste.Base.Text.{Text}

abbrev pub newline : ℕ
newline = 10

-- At most `n` characters, up to and with a newline; what is read, and what is left.
unfoldable pub fgets_chars : ℕ → Text → Text × Text
fgets_chars zero input = ([], input)
fgets_chars (suc n) [] = ([], [])
fgets_chars (suc n) (c ∷ input) =
    let (line, rest) = fgets_chars n input in
    if c == newline then (c ∷ [], input) else (c ∷ line, rest)

-- fgets(buffer, size, stdin)
abbrev pub fgets : ℕ → Text → Text × Text
fgets size input = fgets_chars (size - 1) input

-- buffer[strcspn(buffer, "\n")] = 0
unfoldable pub cut_newline : Text → Text
cut_newline [] = []
cut_newline (c ∷ s) = let t = cut_newline s in if c == newline then [] else c ∷ t

-- Drops the rest of the line.
unfoldable pub clear_stdin : Text → Text
clear_stdin [] = []
clear_stdin (c ∷ input) = let rest = clear_stdin input in if c == newline then input else rest

-- A validator's result: none if it accepts, or its error message.
abbrev pub Validator : Type 0
Validator = Text → Option String

-- The prompt's rounds, as many as the fuel; `read_validated_string` has enough. `held` is what the
-- buffer holds.
unfoldable pub read_rounds : ℕ → Text → ℕ → Validator → Text → Option (Text × Text)
read_rounds zero held size validator input = none
read_rounds (suc fuel) held size validator [] =
    let buffer = cut_newline held in
    elim (validator buffer) [ none ↦ some (buffer, []) | some error_msg ↦ none ]
read_rounds (suc fuel) held size validator (c ∷ input) =
    let (line, rest) = fgets size (c ∷ input) in
    let buffer = cut_newline line in
    let again = read_rounds fuel buffer size validator rest in
    elim (validator buffer) [ none ↦ some (buffer, rest) | some error_msg ↦ again ]

unfoldable pub read_validated_string : Text → ℕ → Validator → Text → Option (Text × Text)
unfolding read_rounds
read_validated_string held size validator input =
    read_rounds (suc (length input)) held size validator input
