-- ===== src/Tests/Scanner.antt =====
-- A scanner of words and numbers that keeps what is documented of `sscanf`.
use banking_management_syste.Base.{
  ℕ, zero, suc, ◌+◌, ◌-◌, ◌*◌, ◌/◌, ◌%◌, ◌^◌, ◌<◌, ◌≡◌, ◌≢◌, refl, sym, ap, Bool, true, false, List,
  [], ◌∷◌, ◌++◌, arith, ◌==◌, ltb, ◌&&◌, if◌then◌else◌, All, ◌⊎◌, inr,
}
use mathlib.Core.Path.{subst}
use banking_management_syste.Base.Int.{ℤ, pos, negsuc}
use banking_management_syste.Base.Text.{Text}
use banking_management_syste.Base.Decimal.{digits, decimal, signed}
use banking_management_syste.Server.Routes.{Conv, Val, u, d, llu, lf, s, word, float, chars}
use banking_management_syste.Client.Input.{newline}
use banking_management_syste.Client.Payload.{
  IsWord, Shows, shown_word, shown_u, shown_d, shown_llu, shown_lf, IsScanf,
}

-- The number that decimal digits write, after the number `n`.
unfoldable pub value_from : ℕ → Text → ℕ
value_from n [] = n
value_from n (c ∷ t) = value_from (10 * n + (c - b'0')) t

value_append : (n c : ℕ) (t : Text) → value_from n (t ++ c ∷ []) ≡ 10 * value_from n t + (c - b'0')
unfolding value_from
value_append n c [] = refl
value_append n c (b ∷ t) = value_append (10 * n + (b - b'0')) c t

value-digits : (fuel n : ℕ) → n < 10 ^ fuel → value_from 0 (digits fuel n) ≡ n
unfolding value_from digits
value-digits zero n h = omega arith
value-digits (suc fuel) n h = ground (
  arith,
  value_append 0 (b'0' + n % 10) (digits fuel (n / 10)),
  value-digits fuel (n / 10) (omega arith),
)

power_enough : (n : ℕ) → n < 10 ^ suc n
power_enough zero = omega arith
power_enough (suc n) = omega (arith, power_enough n)

value-decimal : (n : ℕ) → value_from 0 (decimal n) ≡ n
unfolding decimal
value-decimal n = value-digits (suc n) n (power_enough n)

-- Not a space or a minus sign.
abbrev Plain : ℕ → Type 0
Plain c = (c ≢ b' ') × (c ≢ b'-')

All-append : (a b : Text) → All Plain a → All Plain b → All Plain (a ++ b)
All-append [] b h k = k
All-append (c ∷ a) b h k = (h.0, All-append a b h.1 k)

digits-All : (fuel n : ℕ) → All Plain (digits fuel n)
unfolding digits
digits-All zero n = tt
digits-All (suc fuel) n =
    ground
      (arith, All-append (digits fuel (n / 10)) ((b'0' + n % 10) ∷ []) (digits-All fuel (n / 10)))

decimal-All : (n : ℕ) → All Plain (decimal n)
unfolding decimal
decimal-All n = digits-All (suc n) n

-- The first word and what follows its space.
first_word : Text → Text × Text
first_word [] = ([], [])
first_word (c ∷ t) = let (w, rest) = first_word t in if c == b' ' then ([], t) else (c ∷ w, rest)

first_word-end : (w : Text) → All (λ c. c ≢ b' ') w → first_word w ≡ (w, [])
unfolding first_word
first_word-end [] h = refl
first_word-end (c ∷ w) h = ground (arith, h.0, first_word-end w h.1)

first_word-space :
    (w rest : Text) → All (λ c. c ≢ b' ') w → first_word (w ++ b' ' ∷ rest) ≡ (w, rest)
unfolding first_word
first_word-space [] rest h = ground arith
first_word-space (c ∷ w) rest h = ground (arith, h.0, first_word-space w rest h.1)

signed_value : Text → ℕ
unfolding value_from
signed_value [] = 0
signed_value (c ∷ t) = if c == b'-' then 2 ^ 32 - value_from 0 t else value_from 0 (c ∷ t)

signed_value-Plain : (t : Text) → All Plain t → signed_value t ≡ value_from 0 t
unfolding signed_value value_from
signed_value-Plain [] h = refl
signed_value-Plain (c ∷ t) h = ground (arith, h.0)

signed_value-minus : (m : ℕ) → signed_value (b'-' ∷ decimal m) ≡ 2 ^ 32 - value_from 0 (decimal m)
unfolding signed_value
signed_value-minus m = refl

signed_value-signed : (n : ℕ) → n < 2 ^ 32 → signed_value (signed n) ≡ n
unfolding signed
signed_value-signed n h = ground (
  arith,
  signed_value-Plain (decimal n) (decimal-All n),
  value-decimal n,
  signed_value-minus (2 ^ 32 - n),
  value-decimal (2 ^ 32 - n),
)

convert : Conv → Text → Val ℤ
unfolding signed_value
convert s w = chars w
convert u w = word (value_from 0 w)
convert llu w = word (value_from 0 w)
convert d w = word (signed_value w)
convert lf w = float (pos (value_from 0 w))

pub scan : List Conv → Text → List (Val ℤ)
unfolding convert first_word
scan [] text = []
scan (c ∷ cs) text = let (w, rest) = first_word text in convert c w ∷ scan cs rest

-- Amounts are printed, and read back, if they are not negative.
unfoldable pub print_cents : ℤ → Text
print_cents (pos n) = decimal n
print_cents (negsuc n) = b'-' ∷ decimal (suc n)

abbrev pub NotNegative : ℤ → Type 0
NotNegative x = (n : ℕ) × (x ≡ pos n)

unspaced : (t : Text) → All Plain t → All (λ c. c ≢ b' ') t
unspaced [] h = tt
unspaced (c ∷ t) h = (h.0.0, unspaced t h.1)

word-unspaced : (t : Text) → All (λ c. (c ≢ 32) × ((c < 9) ⊎ (13 < c))) t → All (λ c. c ≢ b' ') t
word-unspaced [] h = tt
word-unspaced (c ∷ t) h = (h.0.0, word-unspaced t h.1)

signed-unspaced : (n : ℕ) → All (λ c. c ≢ b' ') (signed n)
unfolding signed
signed-unspaced n = ground (
  arith,
  unspaced (decimal n) (decimal-All n),
  unspaced (decimal (2 ^ 32 - n)) (decimal-All (2 ^ 32 - n)),
)

convert_lem :
    {c : Conv} {v : Val ℤ} {text : Text}
    → Shows print_cents NotNegative c v text
    → All (λ c. c ≢ b' ') text × (convert c text ≡ v)
unfolding convert print_cents
convert_lem (shown_word {w} h) = (word-unspaced w h.1, refl)
convert_lem (shown_u {n} h) = (unspaced (decimal n) (decimal-All n), ap word (value-decimal n))
convert_lem (shown_llu {n} h) = (unspaced (decimal n) (decimal-All n), ap word (value-decimal n))
convert_lem (shown_d {n} h) = (signed-unspaced n, ap word (signed_value-signed n h))
convert_lem (shown_lf {x} (n, e)) =
    subst (λ x. All (λ c. c ≢ b' ') (print_cents x) × (convert lf (print_cents x) ≡ float x))
      (sym e) (unspaced (decimal n) (decimal-All n), ap (λ m. float (pos m)) (value-decimal n))

pub scan-IsScanf : IsScanf print_cents NotNegative scan
unfolding scan
scan-IsScanf = record {
  nothing = λ text. refl;
  at_end =
      λ c v text h. let (clean, same) = convert_lem h in rw (first_word-end text clean, same) refl;
  at_space = λ c cs v text rest h.
      let (clean, same) = convert_lem h in rw (first_word-space text rest clean, same) refl;
}

-- Texts of printable characters, none of them a space.
unfoldable pub visible : Text → Bool
visible [] = true
visible (c ∷ t) = let rest = visible t in ltb b' ' c && rest

pub visible-one_line : (t : Text) → visible t ≡ true → All (λ c. c ≢ newline) t
unfolding visible
visible-one_line [] h = tt
visible-one_line (c ∷ t) h = ((λ e. ground arith), visible-one_line t (ground arith))

visible-All : (t : Text) → visible t ≡ true → All (λ c. (c ≢ 32) × ((c < 9) ⊎ (13 < c))) t
unfolding visible
visible-All [] h = tt
visible-All (c ∷ t) h = (((λ e. ground arith), inr (ground arith)), visible-All t (ground arith))

unfoldable pub visible_word : Text → Bool
unfolding visible
visible_word [] = false
visible_word (c ∷ t) = visible (c ∷ t)

pub visible_word-IsWord : (t : Text) → visible_word t ≡ true → IsWord t
unfolding visible_word
visible_word-IsWord [] h = absurd (ground arith)
visible_word-IsWord (c ∷ t) h = (omega arith, visible-All (c ∷ t) h)
