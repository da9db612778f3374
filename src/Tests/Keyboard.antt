-- ===== src/Tests/Keyboard.antt =====
-- A terminal whose `scanf` keeps what is documented of it.
use banking_management_syste.Base.{
  ℕ, ◌+◌, ◌≤◌, Option, none, some, [], ◌∷◌, arith, ◌==◌, leb, ◌&&◌, if◌then◌else◌, length,
}
use banking_management_syste.Base.Int.{ℤ, pos}
use banking_management_syste.Base.Text.{Text}
use banking_management_syste.Client.Terminal.{Terminal}
use banking_management_syste.Client.Shrinks.{IsScan}
use banking_management_syste.Tests.Scanner.{value_from, print_cents}

-- The digits at the start, and what follows them.
unfoldable pub leading : Text → Text × Text
leading [] = ([], [])
leading (c ∷ t) =
    let (ds, rest) = leading t in if leb b'0' c && leb c b'9' then (c ∷ ds, rest) else ([], c ∷ t)

leading-le : (t : Text) → length (leading t).0 + length (leading t).1 ≤ length t
unfolding leading
leading-le [] = omega arith
leading-le (c ∷ t) = ground (arith, leading-le t)

unfoldable pub scan_number : Text → Option ℕ × Text
unfolding leading value_from
scan_number t =
    let (ds, rest) = leading t in
    elim ds [ [] ↦ (none, t) | c ∷ cs ↦ (some (value_from 0 (c ∷ cs)), rest) ]

-- What follows the first character `stop`.
unfoldable pub after : ℕ → Text → Text
after stop [] = []
after stop (c ∷ t) = let rest = after stop t in if c == stop then t else rest

unfoldable pub before : ℕ → Text → Text
before stop [] = []
before stop (c ∷ t) = let front = before stop t in if c == stop then [] else c ∷ front

unfoldable pub console : Terminal ℤ
unfolding scan_number after before
console = record {
  scan_int = scan_number;
  scan_llu = scan_number;
  strtod =
      λ t. let (n, rest) = scan_number t in elim n [ none ↦ none | some m ↦ some (pos m, rest) ];
  atoi = value_from 0;
  print_double = print_cents;
  scan_success = λ t.
      let args = after b' ' t in
      let (n, rest) = scan_number args in
      elim n [ none ↦ none | some m ↦ some (m, before b'|' (after b' ' rest), after b'|' rest) ];
  unset_word = 0;
  unset_text = λ size. [];
}

pub console-IsScan : IsScan console
unfolding console scan_number
console-IsScan = record {
  int_takes = λ input n e. ground (arith, leading-le input);
  int_keeps = λ input. ground (arith, leading-le input);
  llu_keeps = λ input. ground (arith, leading-le input);
}
