-- ===== src/Client/Input/Prompts.antt =====
-- Which answer a prompt of src/client.c ends with, and that it ends.
use banking_management_syste.Base.{
  ℕ, zero, suc, ◌-◌, ◌≤◌, ◌<◌, ◌≡◌, ◌≢◌, ◌↔◌, refl, none, some, [], ◌∷◌, ◌++◌, arith, length,
  Option-cases, inl, inr, take, All, drop, drop,
}
use mathlib.Core.Path.{subst}
use Prim.Native.String.{String}
use banking_management_syste.Base.Text.{Text}
use banking_management_syste.Client.Input.{
  newline, fgets_chars, fgets, cut_newline, Validator, read_rounds, read_validated_string,
}

-- The answers as the input falls into pieces: a line, or as much of it as the buffer holds. The first
-- piece that the validator accepts is the answer; where there is none the answer is what the buffer
-- then holds, the last piece or else what it held before, if the validator accepts that.
pub data Answers (size : ℕ) (validator : Validator) : Text → Text → Text → Text → Type 0 where
  at_end :
      {held buffer : Text}
      → cut_newline held ≡ buffer
      → validator buffer ≡ none
      → Answers size validator held [] buffer []
  accepted :
      {c : ℕ} {held input buffer left : Text}
      → cut_newline (fgets size (c ∷ input)).0 ≡ buffer
      → (fgets size (c ∷ input)).1 ≡ left
      → validator buffer ≡ none
      → Answers size validator held (c ∷ input) buffer left
  refused :
      {c : ℕ} {held input buffer left : Text} {error_msg : String}
      → validator (cut_newline (fgets size (c ∷ input)).0) ≡ some error_msg
      → Answers size validator
          (cut_newline (fgets size (c ∷ input)).0)
          (fgets size (c ∷ input)).1
          buffer
          left
      → Answers size validator held (c ∷ input) buffer left

pub fgets_chars-shrinks : (n : ℕ) (input : Text) → length (fgets_chars n input).1 ≤ length input
unfolding fgets_chars
fgets_chars-shrinks zero input = omega arith
fgets_chars-shrinks (suc n) [] = omega arith
fgets_chars-shrinks (suc n) (c ∷ input) = ground (arith, fgets_chars-shrinks n input)

-- A buffer for at least one character takes at least one.
pub fgets-shrinks :
    (size c : ℕ) (input : Text) → 2 ≤ size → length (fgets size (c ∷ input)).1 ≤ length input
unfolding fgets_chars
fgets-shrinks zero c input h = absurd (omega arith)
fgets-shrinks (suc zero) c input h = absurd (omega arith)
fgets-shrinks (suc (suc n)) c input h = ground (arith, fgets_chars-shrinks n input)

read_rounds-Answers :
    (fuel : ℕ) (held : Text) (size : ℕ) (validator : Validator) (input buffer left : Text)
    → read_rounds fuel held size validator input ≡ some (buffer, left)
    → Answers size validator held input buffer left
unfolding read_rounds
read_rounds-Answers zero held size validator input buffer left h = absurd (ground arith)
read_rounds-Answers (suc fuel) held size validator [] buffer left h =
    elim (Option-cases (validator (cut_newline held))) [
      | inl ok ↦
          let same : [] ≡ left = ground arith in
          subst (λ l. Answers size validator held [] buffer l) same
            (at_end (ground arith) (ground arith))
      | inr (e, no_good) ↦ absurd (ground arith)
    ]
read_rounds-Answers (suc fuel) held size validator (c ∷ input) buffer left h =
    elim (Option-cases (validator (cut_newline (fgets size (c ∷ input)).0))) [
      | inl ok ↦ accepted (ground arith) (ground arith) (ground arith)
      | inr (e, no_good) ↦ refused no_good (
          read_rounds-Answers fuel (cut_newline (fgets size (c ∷ input)).0) size validator
            (fgets size (c ∷ input)).1 buffer left (ground arith))
    ]

Answers-read_rounds :
    {size : ℕ} {validator : Validator} {held input buffer left : Text}
    → Answers size validator held input buffer left
    → 2 ≤ size
    → (fuel : ℕ) → length input < fuel
    → read_rounds fuel held size validator input ≡ some (buffer, left)
unfolding read_rounds
Answers-read_rounds (at_end p ok) h zero b = absurd (omega arith)
Answers-read_rounds (at_end p ok) h (suc fuel) b = ground arith
Answers-read_rounds (accepted p q ok) h zero b = absurd (omega arith)
Answers-read_rounds (accepted p q ok) h (suc fuel) b = ground arith
Answers-read_rounds (refused no_good a) h zero b = absurd (omega arith)
Answers-read_rounds {size} (refused {c} {held} {input} no_good a) h (suc fuel) b =
    let less : length (fgets size (c ∷ input)).1 < fuel =
      omega (arith, fgets-shrinks size c input h) in
    ground (arith, Answers-read_rounds a h fuel less)

-- A prompt with a buffer for at least one character ends with an answer exactly if the input has a
-- piece that its validator accepts, the answer being the first such piece, or else if the validator
-- accepts what the buffer holds at the end of the input, the answer being that: the prompt never runs
-- out of rounds.
pub read_validated_string_iff :
    (held : Text) (size : ℕ) (validator : Validator) (input buffer left : Text)
    → 2 ≤ size
    → (read_validated_string held size validator input ≡ some (buffer, left))
      ↔ Answers size validator held input buffer left
unfolding read_validated_string
read_validated_string_iff held size validator input buffer left h = (
  read_rounds-Answers (suc (length input)) held size validator input buffer left,
  λ a. Answers-read_rounds a h (suc (length input)) (omega arith),
)

pub read_rounds-same :
    (f g : ℕ) (held : Text) (size : ℕ) (validator : Validator) (input : Text)
    → 2 ≤ size
    → length input < f
    → length input < g
    → read_rounds f held size validator input ≡ read_rounds g held size validator input
unfolding read_rounds
read_rounds-same zero g held size validator input b h k = absurd (omega arith)
read_rounds-same (suc f) zero held size validator input b h k = absurd (omega arith)
read_rounds-same (suc f) (suc g) held size validator [] b h k = refl
read_rounds-same (suc f) (suc g) held size validator (c ∷ input) b h k =
    let piece = fgets size (c ∷ input) in
    let less : length piece.1 ≤ length input = fgets-shrinks size c input b in
    ground (
      arith,
      read_rounds-same f g (cut_newline piece.0) size validator piece.1 b (omega arith)
          (omega arith),
    )

fgets_chars-long :
    (n : ℕ) (text rest : Text)
    → All (λ c. c ≢ newline) text
    → n ≤ length text
    → fgets_chars n (text ++ rest) ≡ (take n text, drop n text ++ rest)
unfolding fgets_chars
fgets_chars-long zero text rest h b = refl
fgets_chars-long (suc n) [] rest h b = absurd (omega arith)
fgets_chars-long (suc n) (c ∷ text) rest h b =
    ground (arith, h.0, fgets_chars-long n text rest h.1 (omega arith))

fgets_chars-line :
    (n : ℕ) (text rest : Text)
    → All (λ c. c ≢ newline) text
    → length text < n
    → fgets_chars n (text ++ newline ∷ rest) ≡ (text ++ newline ∷ [], rest)
unfolding fgets_chars
fgets_chars-line zero text rest h b = absurd (omega arith)
fgets_chars-line (suc n) [] rest h b = ground arith
fgets_chars-line (suc n) (c ∷ text) rest h b =
    ground (arith, h.0, fgets_chars-line n text rest h.1 (omega arith))

cut_newline-text : (text : Text) → All (λ c. c ≢ newline) text → cut_newline text ≡ text
unfolding cut_newline
cut_newline-text [] h = refl
cut_newline-text (c ∷ text) h = ground (arith, h.0, cut_newline-text text h.1)

cut_newline-line :
    (text rest : Text) → All (λ c. c ≢ newline) text → cut_newline (text ++ newline ∷ rest) ≡ text
unfolding cut_newline
cut_newline-line [] rest h = ground arith
cut_newline-line (c ∷ text) rest h = ground (arith, h.0, cut_newline-line text rest h.1)

All-take :
    (n : ℕ) (text : Text) → All (λ c. c ≢ newline) text → All (λ c. c ≢ newline) (take n text)
All-take zero text h = tt
All-take (suc n) [] h = tt
All-take (suc n) (c ∷ text) h = (h.0, All-take n text h.1)

-- A line that fits its buffer and that the validator accepts is the answer.
pub read-line :
    (held : Text) (size : ℕ) (validator : Validator) (c : ℕ) (text rest : Text)
    → All (λ c. c ≢ newline) (c ∷ text)
    → suc (length text) < size - 1
    → validator (c ∷ text) ≡ none
    → read_validated_string held size validator (c ∷ text ++ newline ∷ rest) ≡ some (c ∷ text, rest)
unfolding read_validated_string read_rounds
read-line held size validator c text rest h fits ok =
    ground
      (arith, fgets_chars-line (size - 1) (c ∷ text) rest h fits, cut_newline-line (c ∷ text) [] h)

-- A line that is too long for its buffer is not refused as too long: if the validator accepts what
-- fills the buffer, that is the answer, and the rest of the line answers the next prompt.
pub read_validated_string-splits :
    (held : Text) (size : ℕ) (validator : Validator) (c : ℕ) (text rest : Text)
    → All (λ c. c ≢ newline) (c ∷ text)
    → size - 1 < suc (length text)
    → validator (take (size - 1) (c ∷ text)) ≡ none
    → read_validated_string held size validator (c ∷ text ++ newline ∷ rest)
      ≡ some (take (size - 1) (c ∷ text), drop (size - 1) (c ∷ text) ++ newline ∷ rest)
unfolding read_validated_string read_rounds
read_validated_string-splits held size validator c text rest h long ok = ground (
  arith,
  fgets_chars-long (size - 1) (c ∷ text) (newline ∷ rest) h (omega arith),
  cut_newline-text (take (size - 1) (c ∷ text)) (All-take (size - 1) (c ∷ text) h),
)
