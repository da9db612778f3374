-- ===== src/Sessions/Leaks.antt =====
-- Slots that outlive the connection that took them, and logins without a slot.
use banking_management_syste.Base.{
  ℕ, ◌≡◌, sym, ap, ◌∙◌, ◌≢◌, inl, inr, true, some, List, [], ◌∷◌, arith, ◌==◌, Bool-cases,
  Option-cases, false,
}
use mathlib.Core.Bool.{false≢true}
use banking_management_syste.Sessions.{
  is_logged_in, add_session, remove_active_session, already_logged_in, admitted, admit,
}
use banking_management_syste.Sessions.Laws.{count, is_logged_in_iff, add_session-none}
use banking_management_syste.Sessions.History.{
  Sys, Event, logs_in, logs_out, drops, entered, session_step, session_run, IsSound, assign,
}

-- A user holds a slot, but no connection has that user.
pub record IsOrphan (u : ℕ) (y : Sys) : Type 0 where
  pub listed : is_logged_in u y.sessions ≡ true
  pub nobody : (c : ℕ) → y.current c ≢ u

is_logged_in-add :
    (u v : ℕ) (ss ss' : List ℕ)
    → u ≢ 0
    → add_session v ss ≡ some ss'
    → is_logged_in u ss ≡ true
    → is_logged_in u ss' ≡ true
unfolding is_logged_in add_session
is_logged_in-add u v [] ss' h e l = cc
is_logged_in-add u v (s ∷ ss) ss' h e l = elim (Option-cases (add_session v ss)) [
  | inl n ↦ ground arith
  | inr (t, n) ↦ ground (arith, is_logged_in-add u v ss t h n)
]

is_logged_in-remove :
    (u v : ℕ) (ss : List ℕ)
    → v ≢ u
    → is_logged_in u ss ≡ true
    → is_logged_in u (remove_active_session v ss) ≡ true
unfolding is_logged_in remove_active_session
is_logged_in-remove u v [] h l = cc
is_logged_in-remove u v (s ∷ ss) h l = ground (arith, is_logged_in-remove u v ss h)

entered-IsOrphan :
    (y : Sys) (c u v : ℕ)
    → u ≢ 0
    → IsOrphan u y
    → IsOrphan u (entered y c (admit v (y.current c) y.sessions))
unfolding entered admit
entered-IsOrphan y c u v ne h = elim (Bool-cases (is_logged_in v y.sessions)) [
  | inl e ↦ rw (e, admit, entered) h
  | inr e ↦ elim (Option-cases (add_session v y.sessions)) [
    | inl n ↦
        rw (e, n, admit, entered)
          (record { listed = h.listed; nobody = λ k. ground (arith, h.nobody k, h.nobody c) })
    | inr (ss, n) ↦
        rw (e, n, admit, entered)
          (record {
            listed = is_logged_in-add u v y.sessions ss ne n h.listed;
            nobody = λ k q. elim (Bool-cases (v == u)) [
              | inl same ↦
                  let w : v ≡ u = ground arith in
                  false≢true (sym e ∙ (ap (λ t. is_logged_in t y.sessions) w ∙ h.listed))
              | inr other ↦ ground (arith, h.nobody k)
            ];
          })
  ]
]

cleared-IsOrphan :
    (y : Sys) (c u : ℕ)
    → u ≢ 0
    → IsOrphan u y
    → IsOrphan u (record {
      sessions = remove_active_session (y.current c) y.sessions;
      current = assign y.current c 0;
    })
cleared-IsOrphan y c u ne h = record {
  listed = is_logged_in-remove u (y.current c) y.sessions (h.nobody c) h.listed;
  nobody = λ k. ground (arith, h.nobody k);
}

session_step-IsOrphan :
    (e : Event) (y : Sys) (u : ℕ) → u ≢ 0 → IsOrphan u y → IsOrphan u (session_step e y)
unfolding session_step
session_step-IsOrphan (logs_in c v) y u ne h = entered-IsOrphan y c u v ne h
session_step-IsOrphan (logs_out c) y u ne h = cleared-IsOrphan y c u ne h
session_step-IsOrphan (drops c) y u ne h = elim (Bool-cases (y.current c == 0)) [
  | inl e ↦ rw e h
  | inr e ↦ rw e (cleared-IsOrphan y c u ne h)
]

-- A user who holds a slot that no connection has is locked out for good: after any further history of
-- logins, logouts and disconnections every login of that user is refused as logged in elsewhere.
pub orphan_locked_out :
    (es : List Event) (y : Sys) (u current : ℕ)
    → u ≢ 0
    → IsOrphan u y
    → admit u current (session_run es y).sessions ≡ already_logged_in
unfolding session_run admit
orphan_locked_out [] y u current ne h = rw h.listed
orphan_locked_out (e ∷ es) y u current ne h =
    orphan_locked_out es (session_step e y) u current ne (session_step-IsOrphan e y u ne h)

-- A connection that is logged in as one user, and logs in as another without logging out, leaves the
-- slot of the first user to nobody.
pub second_login-IsOrphan :
    (y : Sys) (c u v : ℕ) {ss : List ℕ}
    → IsSound y
    → y.current c ≡ u
    → u ≢ 0
    → u ≢ v
    → is_logged_in v y.sessions ≡ false
    → add_session v y.sessions ≡ some ss
    → IsOrphan u (session_step (logs_in c v) y)
unfolding session_step entered admit
second_login-IsOrphan y c u v {ss} sound e ne other free slot =
    let one : count u y.sessions ≡ 1 = ground (arith, sound.held c) in
    let there : is_logged_in u y.sessions ≡ true = ground (arith, is_logged_in_iff u y.sessions) in
    rw (free, slot, admit, entered)
      (record {
        listed = is_logged_in-add u v y.sessions ss ne slot there;
        nobody = λ k. ground (arith, sound.apart c k);
      })

-- With no empty slot a login with good credentials is admitted without one, and so the same user is
-- admitted again, on any connection.
pub admit_untracked :
    (u current : ℕ) (ss : List ℕ)
    → count 0 ss ≡ 0
    → is_logged_in u ss ≡ false
    → admit u current ss ≡ admitted ss current
unfolding admit
admit_untracked u current ss full free = ground (arith, add_session-none u ss)
