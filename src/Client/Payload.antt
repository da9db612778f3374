-- ===== src/Client/Payload.antt =====
-- The payloads that src/client.c prints and src/server.c scans: what `snprintf` writes for a value, and
-- what `sscanf` is documented to do with it.
use banking_management_syste.Base.{
  ℕ, zero, suc, ◌+◌, ◌-◌, ◌/◌, ◌^◌, ◌≤◌, ◌<◌, ◌≡◌, ◌≢◌, ap, List, [], ◌∷◌, ◌++◌, arith, length,
  length-append, All, ◌%◌, ◌∙◌, ◌⊎◌,
}
use banking_management_syste.Base.Text.{Text}
use banking_management_syste.Base.Decimal.{digits, decimal, signed}
use banking_management_syste.Server.Routes.{Conv, Val, u, d, llu, lf, s, word, float, chars}
use banking_management_syste.Client.Terminal.{join}

-- isspace in the C locale.
abbrev pub IsSpace : ℕ → Type 0
IsSpace c = (c ≡ 32) ⊎ ((9 ≤ c) × (c ≤ 13))

-- A text that one %s reads whole.
abbrev pub IsWord : Text → Type 0
IsWord w = (1 ≤ length w) × All (λ c. (c ≢ 32) × ((c < 9) ⊎ (13 < c))) w

module _ {F : Type 0} (print_double : F → Text) (reads_back : F → Type 0) where
  -- What `snprintf` writes for a value, where the conversion reads that value back.
  pub data Shows : Conv → Val F → Text → Type 0 where
    shown_word : {w : Text} → IsWord w → Shows s (chars w) w
    shown_u : {n : ℕ} → n < 2 ^ 32 → Shows u (word n) (decimal n)
    shown_d : {n : ℕ} → n < 2 ^ 32 → Shows d (word n) (signed n)
    shown_llu : {n : ℕ} → n < 2 ^ 64 → Shows llu (word n) (decimal n)
    shown_lf : {x : F} → reads_back x → Shows lf (float x) (print_double x)

  -- `sscanf` with conversions that are separated by spaces: it reads a printed value whole, up to a
  -- space or the end, and goes on behind the space.
  pub record IsScanf (scanf : List Conv → Text → List (Val F)) : Type 0 where
    pub nothing : (text : Text) → scanf [] text ≡ []
    pub at_end :
        (c : Conv) (v : Val F) (text : Text) → Shows c v text → scanf (c ∷ []) text ≡ v ∷ []
    pub at_space :
        (c : Conv) (cs : List Conv) (v : Val F) (text rest : Text)
        → Shows c v text
        → scanf (c ∷ cs) (text ++ b' ' ∷ rest) ≡ v ∷ scanf cs rest

  -- The texts of several values.
  pub data ShowAll : List Conv → List (Val F) → List Text → Type 0 where
    last :
        {c : Conv} {v : Val F} {text : Text}
        → Shows c v text
        → ShowAll (c ∷ []) (v ∷ []) (text ∷ [])
    more :
        {c : Conv} {cs : List Conv} {v : Val F} {vs : List (Val F)} {text next : Text}
        {texts : List Text}
        → Shows c v text
        → ShowAll cs vs (next ∷ texts)
        → ShowAll (c ∷ cs) (v ∷ vs) (text ∷ next ∷ texts)
    -- Texts behind the last conversion are not read.
    unread :
        {c : Conv} {v : Val F} {text next : Text} {texts : List Text}
        → Shows c v text
        → ShowAll (c ∷ []) (v ∷ []) (text ∷ next ∷ texts)

  -- The conversions read back the printed values.
  pub scanf-join :
      {scanf : List Conv → Text → List (Val F)} {cs : List Conv} {vs : List (Val F)}
      {texts : List Text}
      → IsScanf scanf
      → ShowAll cs vs texts
      → scanf cs (join texts) ≡ vs
  scanf-join law (last {c} {v} {text} h) = law.at_end c v text h
  scanf-join law (more {c} {cs} {v} {vs} {text} {next} {texts} h more_texts) =
      law.at_space c cs v text (join (next ∷ texts)) h ∙ ap (◌∷◌ v) (scanf-join law more_texts)
  scanf-join law (unread {c} {v} {text} {next} {texts} h) =
      law.at_space c [] v text (join (next ∷ texts)) h
      ∙ ap (◌∷◌ v) (law.nothing (join (next ∷ texts)))

-- The number of digits.
pub length-digits : (k fuel n : ℕ) → n < 10 ^ k → 1 ≤ k → length (digits fuel n) ≤ k
unfolding digits
length-digits k zero n h p = omega arith
length-digits zero (suc fuel) n h p = absurd (omega arith)
length-digits (suc zero) (suc fuel) n h p = ground arith
length-digits (suc (suc k)) (suc fuel) n h p =
    let small : n / 10 < 10 ^ suc k = omega arith in
    ground (
      arith,
      length-append (digits fuel (n / 10)) ((b'0' + n % 10) ∷ []),
      length-digits (suc k) fuel (n / 10) small (omega arith),
    )

pub length-signed : (n : ℕ) → n < 2 ^ 32 → length (signed n) ≤ 11
unfolding signed decimal
length-signed n h = ground (
  arith,
  length-digits 10 (suc n) n (omega arith) (omega arith),
  length-digits 10 (suc (2 ^ 32 - n)) (2 ^ 32 - n),
)

pub length-decimal : (n : ℕ) → n < 2 ^ 32 → length (decimal n) ≤ 10
unfolding decimal
length-decimal n h = length-digits 10 (suc n) n (omega arith) (omega arith)
