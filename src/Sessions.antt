-- ===== src/Sessions.antt =====
-- The table of active sessions of src/server.c: one slot for each logged-in user, 0 if it is empty.
-- Every access holds the mutex `db_lock`, so that each function here is one atomic step.
pub mod Laws
pub mod Leaks
pub mod History
use banking_management_syste.Base.{
  ℕ, zero, suc, Bool, false, ◌||◌, Option, none, some, List, [], ◌∷◌, ◌==◌, if◌then◌else◌,
}

abbrev pub max_sessions : ℕ
max_sessions = 100

-- Whether some slot holds the user.
unfoldable pub is_logged_in : ℕ → List ℕ → Bool
is_logged_in user_id [] = false
is_logged_in user_id (s ∷ ss) = (s == user_id) || is_logged_in user_id ss

-- The user takes the first empty slot; none if there is none.
unfoldable pub add_session : ℕ → List ℕ → Option (List ℕ)
add_session user_id [] = none
add_session user_id (s ∷ ss) =
    let rest = add_session user_id ss in
    if s == 0 then some (user_id ∷ ss) else elim rest [ none ↦ none | some ss' ↦ some (s ∷ ss') ]

unfoldable pub remove_active_session : ℕ → List ℕ → List ℕ
remove_active_session user_id [] = []
remove_active_session user_id (s ∷ ss) =
    if s == user_id then 0 ∷ ss else s ∷ remove_active_session user_id ss

-- The critical section of a login with good credentials: whether it is refused, the table, and the
-- user of this connection. Without an empty slot the connection's user stays as it was.
pub data Admission : Type 0 where
  already_logged_in : Admission
  admitted : List ℕ → ℕ → Admission

unfoldable pub admit : ℕ → ℕ → List ℕ → Admission
admit user_id current ss =
    if is_logged_in user_id ss then already_logged_in else elim (add_session user_id ss) [
      | none ↦ admitted ss current
      | some ss' ↦ admitted ss' user_id
    ]

unfoldable pub no_sessions : ℕ → List ℕ
no_sessions zero = []
no_sessions (suc n) = 0 ∷ no_sessions n
