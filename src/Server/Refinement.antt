-- ===== src/Server/Refinement.antt =====
-- The request loop of src/server.c against the histories of sessions: what a request does to the
-- session table and to the user of its connection.
use banking_management_syste.Base.{
  ℕ, ◌≡◌, List, [], ◌∷◌, refl, arith, ◌==◌, All, Bool-cases, none, ◌⊎◌, inl, inr, sym, Option-cases,
  ◌≢◌,
}
use banking_management_syste.Base.Text.{Text, streq}
use banking_management_syste.Model.{World, User, Double}
use banking_management_syste.Store.{contents}
use mathlib.Core.Path.{subst, fun_ext}
use banking_management_syste.Listing.{Printf}
use banking_management_syste.Utils.{
  Crypt, login_loop, login_found, LoginResult, refused, deactivated, logged_in, login_user,
}
use banking_management_syste.Sessions.{Admission, already_logged_in, admitted, admit}
use banking_management_syste.Sessions.History.{
  Sys, Event, logs_in, logs_out, drops, session_step, session_run, assign, entered, IsSound, Proper,
  session_run-IsSound',
}
use banking_management_syste.Server.{Server, Request, finish_login, handle, disconnect}
use banking_management_syste.Server.Routes.{Op, login, logout, op_of, Libc, Val, text_at, s}

Admission-cases :
    (a : Admission) → (a ≡ already_logged_in) ⊎ ((ss : List ℕ) × (v : ℕ) × (a ≡ admitted ss v))
Admission-cases already_logged_in = inl refl
Admission-cases (admitted ss v) = inr (ss, v, refl)

-- The event of a login's result.
abbrev login_events : ℕ → LoginResult → List Event
login_events c (logged_in u role name) = logs_in c u ∷ []
login_events c _ = []

-- Two views of the sessions agree.
abbrev pub Agree : Sys → Sys → Type 0
Agree y z = (y.sessions ≡ z.sessions) × ((k : ℕ) → y.current k ≡ z.current k)

Agree→eq : {y z : Sys} → Agree y z → z ≡ y
Agree→eq (p, q) = λ i. record { sessions = sym p i; current = sym (fun_ext q) i }

module _ {F : Type 0} ⦃o : Double F⦄ ⦃p : Printf F⦄ where
  -- Which event of the sessions a request on connection `c` is, if any.
  abbrev pub events_of : Libc F → ℕ → Request → World F → List Event
  events_of lib c req w = elim (op_of req.op) [
    | login ↦
        let vals = lib.scanf (s ∷ s ∷ []) req.payload in
        login_events c (login_user lib.crypt (text_at lib vals 0) (text_at lib vals 1) w)
    | logout ↦ logs_out c ∷ []
    | _ ↦ []
  ]

  -- The sessions of a server, over the users of all connections.
  abbrev pub sys : Server F → (ℕ → ℕ) → Sys
  sys srv current = record { sessions = srv.sessions; current = current }

  abbrev pub cleared : Server F → World F
  cleared srv = record (srv.world) { resp = none }

  finish_login-Agree :
      (r : LoginResult) (c : ℕ) (current : ℕ → ℕ) (srv : Server F)
      → let (u, srv') = finish_login r (current c) srv in
        Agree (sys srv' (assign current c u)) (session_run (login_events c r) (sys srv current))
  unfolding finish_login session_run session_step entered
  finish_login-Agree refused c current srv = (refl, λ k. ground arith)
  finish_login-Agree deactivated c current srv = (refl, λ k. ground arith)
  finish_login-Agree (logged_in u role name) c current srv =
      elim (Admission-cases (admit u (current c) srv.sessions)) [
        | inl e ↦ rw (e, finish_login, entered) (refl, λ k. ground arith)
        | inr (ss, v, e) ↦ rw (e, finish_login, entered) (refl, λ k. refl)
      ]

  -- A request changes the session table, and the user of its connection, exactly as its event does; a
  -- request that is neither a login with good credentials nor a logout changes neither.
  pub handle-Agree :
      (lib : Libc F) (now : ℕ) (req : Request) (c : ℕ) (current : ℕ → ℕ) (srv : Server F)
      → let (status, u, srv') = handle lib now req (current c) srv in
        Agree
          (sys srv' (assign current c u))
          (session_run (events_of lib c req (cleared srv)) (sys srv current))
  unfolding handle finish_login session_run session_step
  handle-Agree lib now req c current srv = go (op_of req.op) refl
    where
      go :
          (r : Op)
          → op_of req.op ≡ r
          → let (status, u, srv') = handle lib now req (current c) srv in
            Agree
              (sys srv' (assign current c u))
              (session_run (events_of lib c req (cleared srv)) (sys srv current))
      go login e =
          let vals = lib.scanf (s ∷ s ∷ []) req.payload in
          rw (handle, events_of, e)
            (finish_login-Agree
              (login_user lib.crypt (text_at lib vals 0) (text_at lib vals 1) (cleared srv)) c
              current (record srv { world = cleared srv }))
      go logout e = rw (handle, events_of, e) (refl, λ k. refl)
      go _ e = rw (handle, events_of, e) (refl, λ k. ground arith)

  -- A connection that ends changes the session table exactly as its event does.
  disconnect-Agree :
      (c : ℕ) (current : ℕ → ℕ) (srv : Server F)
      → Agree
          (sys (disconnect (current c) srv) (assign current c 0))
          (session_step (drops c) (sys srv current))
  unfolding disconnect session_step
  disconnect-Agree c current srv = elim (Bool-cases (current c == 0)) [
    | inl e ↦ rw (disconnect, session_step, e) (refl, λ k. ground arith)
    | inr e ↦ rw (disconnect, session_step, e) (refl, λ k. refl)
  ]

  -- A login names a user of the file.
  login_user-stored :
      (crypt : Crypt) (username password : Text) (w : World F)
      → (P : ℕ → Type 0) → All (λ a. P a.user_id) (contents w.users)
      → (u : ℕ) (role name : Text) → login_user crypt username password w ≡ logged_in u role name
      → P u
  unfolding login_user login_loop login_found
  login_user-stored crypt username password w P h u role name e = elim (Option-cases w.users.rows) [
    | inl n ↦ absurd (ground arith)
    | inr (us, n) ↦
        let k : contents w.users ≡ us = ground arith in
        go us (ground arith) (subst (λ vs. All (λ a. P a.user_id) vs) k h)
  ]
    where
      go :
          (us : List User)
          → login_loop crypt username password us w ≡ logged_in u role name
          → All (λ a. P a.user_id) us
          → P u
      go [] q a = absurd (ground arith)
      go (v ∷ us) q a = elim (Bool-cases (streq v.username username)) [
        | inl same ↦ subst P (ground arith) a.0
        | inr other ↦ go us (ground arith) a.1
      ]

  events_of-Proper :
      (lib : Libc F) (c : ℕ) (req : Request) (w : World F)
      → All (λ a. a.user_id ≢ 0) (contents w.users)
      → All Proper (events_of lib c req w)
  events_of-Proper lib c req w h = go (op_of req.op) refl
    where
      vals : List (Val F)
      vals = lib.scanf (s ∷ s ∷ []) req.payload

      proper :
          (r : LoginResult)
          → login_user lib.crypt (text_at lib vals 0) (text_at lib vals 1) w ≡ r
          → All Proper (login_events c r)
      proper refused e = tt
      proper deactivated e = tt
      proper (logged_in u role name) e = (
        login_user-stored lib.crypt (text_at lib vals 0) (text_at lib vals 1) w (λ n. n ≢ 0) h u
            role name e,
        tt,
      )

      go : (r : Op) → op_of req.op ≡ r → All Proper (events_of lib c req w)
      go login e =
          rw (events_of, e)
            (proper (login_user lib.crypt (text_at lib vals 0) (text_at lib vals 1) w) refl)
      go logout e = rw (events_of, e) (tt, tt)
      go _ e = rw (events_of, e) tt

  -- While no stored user has identifier 0, every request keeps the session table sound: no user holds
  -- two slots, the user of every connection holds one, and no two connections have the same user.
  pub handle-IsSound :
      (lib : Libc F) (now : ℕ) (req : Request) (c : ℕ) (current : ℕ → ℕ) (srv : Server F)
      → All (λ a. a.user_id ≢ 0) (contents srv.world.users)
      → IsSound (sys srv current)
      → let (status, u, srv') = handle lib now req (current c) srv in
        IsSound (sys srv' (assign current c u))
  handle-IsSound lib now req c current srv h v =
      subst IsSound (Agree→eq (handle-Agree lib now req c current srv)) (
        session_run-IsSound' (events_of lib c req (cleared srv)) (sys srv current)
          (events_of-Proper lib c req (cleared srv) h) v)

  -- Who is logged in on a connection, or whether anyone is, makes no difference to any request other
  -- than a login or logout: the answer, the files and the session table come out the same.
  pub handle_unchecked :
      (lib : Libc F) (now : ℕ) (req : Request) (u v : ℕ) (srv : Server F)
      → op_of req.op ≢ login
      → op_of req.op ≢ logout
      → let (status, u', srv') = handle lib now req u srv in
        let (status', v', srv'') = handle lib now req v srv in (status ≡ status') × (srv' ≡ srv'')
  unfolding handle
  handle_unchecked lib now req u v srv not_login not_logout = go (op_of req.op) refl
    where
      go :
          (r : Op)
          → op_of req.op ≡ r
          → ((handle lib now req u srv).0 ≡ (handle lib now req v srv).0)
            × ((handle lib now req u srv).2 ≡ (handle lib now req v srv).2)
      go login e = absurd (not_login e)
      go logout e = absurd (not_logout e)
      go _ e = rw (handle, e) (refl, refl)
