-- ===== src/Sessions/Laws.antt =====
-- Lemmas on the slots of the session table of src/server.c: how often a user occurs after a login, a
-- removal, and in a table that is full.
use banking_management_syste.Base.{
  ℕ, ◌+◌, ◌-◌, ◌≡◌, refl, ◌≢◌, ◌↔◌, inl, inr, false, none, some, List, [], ◌∷◌, arith, ◌==◌,
  if◌then◌else◌, Option-cases, length,
}
use banking_management_syste.Sessions.{is_logged_in, add_session, remove_active_session}

-- The number of slots that hold a user.
abbrev pub count : ℕ → List ℕ → ℕ
count u [] = 0
count u (s ∷ ss) = (if s == u then 1 else 0) + count u ss

pub is_logged_in_iff : (u : ℕ) (ss : List ℕ) → (is_logged_in u ss ≡ false) ↔ (count u ss ≡ 0)
unfolding is_logged_in
is_logged_in_iff u [] = ((λ h. refl), (λ h. refl))
is_logged_in_iff u (s ∷ ss) = ground (arith, is_logged_in_iff u ss)

pub count-add :
    (u v : ℕ) (ss ss' : List ℕ)
    → v ≢ 0
    → add_session u ss ≡ some ss'
    → count v ss' ≡ count v ss + (if u == v then 1 else 0)
unfolding add_session
count-add u v [] ss' h e = cc
count-add u v (s ∷ ss) ss' h e = elim (Option-cases (add_session u ss)) [
  | inl n ↦ ground arith
  | inr (t, r) ↦ ground (arith, count-add u v ss t h r)
]

pub count-remove :
    (u v : ℕ) (ss : List ℕ)
    → v ≢ 0
    → count v (remove_active_session u ss) ≡ count v ss - (if u == v then 1 else 0)
unfolding remove_active_session
count-remove u v [] h = omega arith
count-remove u v (s ∷ ss) h = ground (arith, count-remove u v ss h)

pub length-add : (u : ℕ) (ss ss' : List ℕ) → add_session u ss ≡ some ss' → length ss' ≡ length ss
unfolding add_session
length-add u [] ss' e = cc
length-add u (s ∷ ss) ss' e = elim (Option-cases (add_session u ss)) [
  | inl n ↦ ground arith
  | inr (t, r) ↦ ground (arith, length-add u ss t r)
]

pub length-remove : (u : ℕ) (ss : List ℕ) → length (remove_active_session u ss) ≡ length ss
unfolding remove_active_session
length-remove u [] = refl
length-remove u (s ∷ ss) = ground (arith, length-remove u ss)

-- Without a user, a removal changes nothing.
pub remove_active_session_zero : (ss : List ℕ) → remove_active_session 0 ss ≡ ss
unfolding remove_active_session
remove_active_session_zero [] = refl
remove_active_session_zero (s ∷ ss) = ground (arith, remove_active_session_zero ss)

-- A table finds no empty slot exactly if none holds 0.
pub add_session-none : (u : ℕ) (ss : List ℕ) → (add_session u ss ≡ none) ↔ (count 0 ss ≡ 0)
unfolding add_session
add_session-none u [] = ((λ h. refl), (λ h. refl))
add_session-none u (s ∷ ss) = ground (arith, add_session-none u ss)
