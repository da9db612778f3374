-- ===== src/Sessions/History.antt =====
-- The sessions of all connections over any history of logins, logouts and disconnections, one critical
-- section of src/server.c after another.
use banking_management_syste.Base.{
  ℕ, zero, suc, ◌≤◌, ◌≡◌, refl, ◌≢◌, inl, inr, List, [], ◌∷◌, arith, ◌==◌, if◌then◌else◌,
  Bool-cases, Option-cases, All,
}
use banking_management_syste.Sessions.{
  is_logged_in, add_session, remove_active_session, Admission, already_logged_in, admitted, admit,
  no_sessions, max_sessions,
}
use banking_management_syste.Sessions.Laws.{count, is_logged_in_iff, count-add, count-remove}

-- The table, and the `current_userId` of each client thread.
pub record Sys : Type 0 where
  pub sessions : List ℕ
  pub current : ℕ → ℕ

abbrev pub assign : (ℕ → ℕ) → ℕ → ℕ → ℕ → ℕ
assign f c u c' = if c == c' then u else f c'

-- A login with good credentials, a logout, and a disconnection.
pub data Event : Type 0 where
  logs_in : ℕ → ℕ → Event
  logs_out : ℕ → Event
  drops : ℕ → Event

unfoldable pub entered : Sys → ℕ → Admission → Sys
entered y c already_logged_in = y
entered y c (admitted ss u) = record { sessions = ss; current = assign y.current c u }

unfoldable pub session_step : Event → Sys → Sys
unfolding entered
session_step (logs_in c u) y = entered y c (admit u (y.current c) y.sessions)
session_step (logs_out c) y = record {
  sessions = remove_active_session (y.current c) y.sessions;
  current = assign y.current c 0;
}
session_step (drops c) y = if y.current c == 0 then y else record {
  sessions = remove_active_session (y.current c) y.sessions;
  current = assign y.current c 0;
}

unfoldable pub session_run : List Event → Sys → Sys
session_run [] y = y
session_run (e ∷ es) y = session_run es (session_step e y)

-- No login is that of user 0, whose number marks an empty slot.
abbrev pub Proper : Event → Type 0
Proper (logs_in c u) = u ≢ 0
Proper _ = Unit

pub record IsSound (y : Sys) : Type 0 where
  -- No user holds two slots.
  pub single : (u : ℕ) → u ≢ 0 → count u y.sessions ≤ 1
  -- The user of a connection holds a slot.
  pub held : (c : ℕ) → y.current c ≢ 0 → count (y.current c) y.sessions ≡ 1
  -- No two connections have the same user.
  pub apart : (c c' : ℕ) → c ≢ c' → y.current c ≢ 0 → y.current c ≢ y.current c'

count-no_sessions : (u n : ℕ) → u ≢ 0 → count u (no_sessions n) ≡ 0
unfolding no_sessions
count-no_sessions u zero h = refl
count-no_sessions u (suc n) h = ground (arith, count-no_sessions u n h)

abbrev pub idle : Sys
idle = record { sessions = no_sessions max_sessions; current = λ c. 0 }

pub idle-IsSound : IsSound idle
idle-IsSound = record {
  single = λ u h. omega (arith, count-no_sessions u max_sessions h);
  held = λ c h. absurd (h refl);
  apart = λ c c' ne h. absurd (h refl);
}

-- A removal of the user of connection `c`, who then has none.
cleared-IsSound :
    (y : Sys) (c : ℕ)
    → IsSound y
    → IsSound (record {
      sessions = remove_active_session (y.current c) y.sessions;
      current = assign y.current c 0;
    })
cleared-IsSound y c v = record {
  single = λ u h. omega (arith, v.single u h, count-remove (y.current c) u y.sessions h);
  held = λ k h. elim (Bool-cases (c == k)) [
    | inl e ↦ absurd (h (ground arith))
    | inr e ↦
        ground (arith, v.held k, v.apart k c, count-remove (y.current c) (y.current k) y.sessions)
  ];
  apart = λ a b ne h. ground (arith, v.apart a b);
}

entered-IsSound :
    (y : Sys) (c u : ℕ)
    → u ≢ 0
    → IsSound y
    → IsSound (entered y c (admit u (y.current c) y.sessions))
unfolding entered admit
entered-IsSound y c u ne v = elim (Bool-cases (is_logged_in u y.sessions)) [
  | inl e ↦ rw (e, admit, entered) v
  | inr e ↦ elim (Option-cases (add_session u y.sessions)) [
    | inl n ↦
        rw (e, n, admit, entered)
          (record {
            single = v.single;
            held = λ k h. ground (arith, v.held k);
            apart = λ a b d h. ground (arith, v.apart a b);
          })
    | inr (ss, n) ↦
        rw (e, n, admit, entered)
          (record {
            single = λ w h. ground (
              arith,
              v.single w h,
              count-add u w y.sessions ss h n,
              is_logged_in_iff u y.sessions,
            );
            held = λ k h. ground (
              arith,
              v.held k,
              count-add u u y.sessions ss ne n,
              count-add u (y.current k) y.sessions ss,
              is_logged_in_iff u y.sessions,
            );
            apart = λ a b d h.
                ground (arith, v.apart a b, v.held a, v.held b, is_logged_in_iff u y.sessions);
          })
  ]
]

session_step-IsSound : (e : Event) (y : Sys) → Proper e → IsSound y → IsSound (session_step e y)
unfolding session_step
session_step-IsSound (logs_in c u) y ne v = entered-IsSound y c u ne v
session_step-IsSound (logs_out c) y ne v = cleared-IsSound y c v
session_step-IsSound (drops c) y ne v = elim (Bool-cases (y.current c == 0)) [
  | inl e ↦ rw e v
  | inr e ↦ rw e (cleared-IsSound y c v)
]

pub session_run-IsSound' :
    (es : List Event) (y : Sys) → All Proper es → IsSound y → IsSound (session_run es y)
unfolding session_run
session_run-IsSound' [] y h v = v
session_run-IsSound' (e ∷ es) y h v =
    session_run-IsSound' es (session_step e y) h.1 (session_step-IsSound e y h.0 v)

-- After any history of logins, logouts and disconnections that starts with an empty table, no user
-- holds two slots, the user of every connection holds one, and no two connections have the same
-- user.
pub session_run-IsSound : (es : List Event) → All Proper es → IsSound (session_run es idle)
session_run-IsSound es h = session_run-IsSound' es idle h idle-IsSound
