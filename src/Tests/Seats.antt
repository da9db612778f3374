-- ===== src/Tests/Seats.antt =====
-- Tests and witnesses of the table of active sessions.
use banking_management_syste.Base.{◌≡◌, refl, List, [], ◌∷◌, true, arith}
use banking_management_syste.Sessions.{
  admit, already_logged_in, is_logged_in, add_session, no_sessions, remove_active_session,
}
use banking_management_syste.Sessions.History.{
  Sys, Event, logs_in, logs_out, drops, session_step, session_run, idle, IsSound,
  session_run-IsSound,
}
use banking_management_syste.Sessions.Leaks.{orphan_locked_out, second_login-IsOrphan}

-- Two customers come and go on two connections.
abbrev visits : List Event
visits =
    logs_in 4 1005 ∷ logs_in 5 1005 ∷ logs_in 5 1006 ∷ logs_out 4 ∷ drops 5 ∷ logs_in 6 1005 ∷ []

visits_run : is_logged_in 1005 (session_run visits idle).sessions ≡ true
unfolding session_run session_step admit is_logged_in add_session no_sessions remove_active_session
visits_run = refl

session_run-IsSound_example : IsSound (session_run visits idle)
session_run-IsSound_example = session_run-IsSound visits (
  (λ h. omega arith),
  ((λ h. omega arith), ((λ h. omega arith), (tt, (tt, ((λ h. omega arith), tt))))),
)

-- One connection logs in as 1005.
abbrev one_in : Sys
one_in = session_run (logs_in 4 1005 ∷ []) idle

one_in-IsSound : IsSound one_in
one_in-IsSound = session_run-IsSound (logs_in 4 1005 ∷ []) ((λ h. omega arith), tt)

orphan_locked_out_example :
    admit 1005 0
      (session_run (logs_out 4 ∷ drops 4 ∷ []) (session_step (logs_in 4 1006) one_in)).sessions
    ≡ already_logged_in
unfolding session_run session_step admit is_logged_in add_session no_sessions remove_active_session
orphan_locked_out_example =
    orphan_locked_out (logs_out 4 ∷ drops 4 ∷ []) (session_step (logs_in 4 1006) one_in) 1005 0
      (λ h. omega arith)
      (second_login-IsOrphan one_in 4 1005 1006 one_in-IsSound refl (λ h. omega arith)
        (λ h. omega arith) refl refl)
