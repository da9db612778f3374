-- ===== src/Base/Text.antt =====
-- C strings as their bytes before the NUL: `strcmp(a, b) == 0`, `strncpy` into a field of a given
-- size whose last byte is NUL, and `strncat` into a buffer.
use Prim.Native.Nat.{ℕ, ◌-◌}
use Prim.Native.Char.{code}
use Prim.Native.String.{String}
use mathlib.Core.Path.{◌≡◌, refl}
use mathlib.Core.Bool.{Bool, true, false, ◌&&◌}
use mathlib.Core.List.{List, [], ◌∷◌, ◌++◌}
use native.Mathlib.Omega.{arith}
use banking_management_syste.Base.Tests.{◌==◌}
use banking_management_syste.Base.Lists.{length, take}

abbrev pub Text : Type 0
Text = List ℕ

abbrev pub codes : String → Text
codes String.[] = []
codes (String.◌∷◌ c s) = code c ∷ codes s

-- strcmp(a, b) == 0
unfoldable pub streq : Text → Text → Bool
streq [] [] = true
streq [] (b ∷ bs) = false
streq (a ∷ as') [] = false
streq (a ∷ as') (b ∷ bs) = (a == b) && streq as' bs

pub streq→eq : (s t : Text) → streq s t ≡ true → s ≡ t
unfolding streq
streq→eq [] [] h = refl
streq→eq [] (b ∷ bs) h = cc
streq→eq (a ∷ as') [] h = cc
streq→eq (a ∷ as') (b ∷ bs) h = ground (arith, streq→eq as' bs)

pub streq_refl : (s : Text) → streq s s ≡ true
unfolding streq
streq_refl [] = refl
streq_refl (a ∷ s) = ground (arith, streq_refl s)

pub streq_comm : (s t : Text) → streq s t ≡ streq t s
unfolding streq
streq_comm [] [] = refl
streq_comm [] (b ∷ bs) = refl
streq_comm (a ∷ as') [] = refl
streq_comm (a ∷ as') (b ∷ bs) = ground (arith, streq_comm as' bs)

-- strncpy(field, s, size - 1): what the field then reads as.
abbrev pub strncpy : ℕ → Text → Text
strncpy size s = take (size - 1) s

-- strncat(buffer, s, size - strlen(buffer) - 1)
abbrev pub strncat : ℕ → Text → Text → Text
strncat size buffer s = buffer ++ take (size - length buffer - 1) s
