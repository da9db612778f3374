-- ===== src/Client/Online/Lockout.antt =====
-- What follows a login whose role is not the chosen one.
use banking_management_syste.Base.{
  ℕ, ◌≡◌, refl, ◌∙◌, true, false, none, some, List, [], ◌∷◌, arith, inl, inr, Option-cases,
}
use banking_management_syste.Base.Text.{Text, streq}
use banking_management_syste.Base.Int.{pos}
use banking_management_syste.Model.{Double, Message, format, num, str}
use banking_management_syste.Listing.{Printf}
use banking_management_syste.Utils.{logged_in, login_user}
use banking_management_syste.Sessions.{admit, is_logged_in, add_session}
use banking_management_syste.Server.{Server, handle, finish_login}
use banking_management_syste.Server.Routes.{op_of, op_in, Libc}
use banking_management_syste.Server.Refinement.{cleared}
use banking_management_syste.Client.Input.Prompts.{read-line}
use banking_management_syste.Client.Validators.{
  validate_credential, max_username_len, max_password_len,
}
use banking_management_syste.Client.Terminal.{Terminal, request}
use banking_management_syste.Client.Payload.{IsScanf}
use banking_management_syste.Client.Menus.{send_request_and_get_response}
use banking_management_syste.Client.Main.{valid_role, login_attempt}
use banking_management_syste.Client.Online.{
  Conn, line, IsCredential, signed_in, server_link, scanned_login, login_attempt_lem,
}

is_logged_in-added :
    (u : ℕ) (ss ss' : List ℕ) → add_session u ss ≡ some ss' → is_logged_in u ss' ≡ true
unfolding is_logged_in add_session
is_logged_in-added u [] ss' e = absurd (ground arith)
is_logged_in-added u (first ∷ ss) ss' e = elim (Option-cases (add_session u ss)) [
  | inl n ↦ ground arith
  | inr (t, n) ↦ ground (arith, is_logged_in-added u ss t n)
]

-- The connection after a login of a user who has a session already.
abbrev pub turned_away : {F : Type 0} → (Message F → Text) → Conn F → Conn F
turned_away {F} render c =
    let failure : Message F = format "FAILURE User is already logged in elsewhere." [] in
    record {
      server = record (c.server) { world = record (c.server.world) { resp = some failure } };
      current = c.current;
      answer = record { status_code = pos 0; message = render failure };
    }

module _ {F : Type 0} ⦃o : Double F⦄ ⦃p : Printf F⦄ (lib : Libc F) (render : Message F → Text)
    (now : ℕ) (print_double : F → Text) (reads_back : F → Type 0)
    (law : IsScanf print_double reads_back lib.scanf) where
  handle-refuses :
      (uc pc u current : ℕ) (username password role name : Text) (srv : Server F)
      → IsCredential uc username
      → IsCredential pc password
      → login_user lib.crypt (uc ∷ username) (pc ∷ password) (cleared srv) ≡ logged_in u role name
      → is_logged_in u srv.sessions ≡ true
      → handle lib now (request "LOGIN" ((uc ∷ username) ∷ (pc ∷ password) ∷ [])) current srv ≡ (
        0,
        current,
        record srv {
          world = record (srv.world) {
            resp = some (format "FAILURE User is already logged in elsewhere." []);
          };
        },
      )
  unfolding handle finish_login admit op_of op_in streq
  handle-refuses uc pc u current username password role name srv hu hp good inside =
      rw
        (
          scanned_login lib render now print_double reads_back law uc pc username password hu hp,
          good,
          finish_login,
          admit,
          inside,
        )
        refl

  send_request-refused :
      (uc pc u : ℕ) (username password role name : Text) (c : Conn F)
      → IsCredential uc username
      → IsCredential pc password
      → login_user lib.crypt (uc ∷ username) (pc ∷ password) (cleared (c.server))
        ≡ logged_in u role name
      → is_logged_in u c.server.sessions ≡ true
      → send_request_and_get_response
          (server_link lib render now)
          (request "LOGIN" ((uc ∷ username) ∷ (pc ∷ password) ∷ []))
          c
        ≡ ((turned_away render c).answer, turned_away render c)
  unfolding send_request_and_get_response server_link
  send_request-refused uc pc u username password role name c hu hp good inside =
      rw (handle-refuses uc pc u c.current username password role name (c.server) hu hp good inside)
        refl

  login_attempt-refused :
      (t : Terminal F) (choice uc pc u : ℕ) (username password role name rest : Text) (c : Conn F)
      → IsCredential uc username
      → IsCredential pc password
      → login_user lib.crypt (uc ∷ username) (pc ∷ password) (cleared (c.server))
        ≡ logged_in u role name
      → is_logged_in u c.server.sessions ≡ true
      → t.scan_success (render (format "FAILURE User is already logged in elsewhere." [])) ≡ none
      → login_attempt
          (server_link lib render now)
          t
          choice
          (line (uc ∷ username) (line (pc ∷ password) rest))
          c
        ≡ some (none, rest, turned_away render c)
  unfolding login_attempt
  login_attempt-refused t choice uc pc u username password role name rest c hu hp good inside
        failure =
      let sent = send_request-refused uc pc u username password role name c hu hp good inside in
      rw
        (
          login_attempt,
          read-line (t.unset_text max_username_len) max_username_len validate_credential uc username
              (line (pc ∷ password) rest) hu.one_line (omega (arith, hu.short)) hu.valid,
          read-line (t.unset_text max_password_len) max_password_len validate_credential pc password
              rest hp.one_line (omega (arith, hp.short)) hp.valid,
          sent,
          failure,
          sent,
        )
        refl

  -- A user who logs in under a role that is not the chosen one is locked out: the client reports a
  -- failed login, and the next attempt on the connection, with whatever choice of a role, fails too,
  -- since the server still has the session of the first. The name and the password are single words
  -- that fit their prompts, the user had no session, a slot was free, and the client tells the
  -- server's two answers apart.
  pub login_attempt-locks_out :
      (t : Terminal F) (choice second uc pc u : ℕ) (username password role name rest later : Text)
      (ss' : List ℕ) (c : Conn F)
      → IsCredential uc username
      → IsCredential pc password
      → login_user lib.crypt (uc ∷ username) (pc ∷ password) (cleared (c.server))
        ≡ logged_in u role name
      → is_logged_in u c.server.sessions ≡ false
      → add_session u c.server.sessions ≡ some ss'
      → t.scan_success (render (format "SUCCESS %d %s|%s" (num u ∷ str role ∷ str name ∷ [])))
        ≡ some (u, role, name)
      → t.scan_success (render (format "FAILURE User is already logged in elsewhere." [])) ≡ none
      → valid_role choice role ≡ false
      → let typed = λ (rest : Text). line (uc ∷ username) (line (pc ∷ password) rest) in
        let c' = signed_in render u role name ss' c in
        (login_attempt (server_link lib render now) t choice (typed rest) c ≡ some (none, rest, c'))
        × (login_attempt (server_link lib render now) t second (typed later) c'
            ≡ some (none, later, turned_away render c'))
  login_attempt-locks_out t choice second uc pc u username password role name rest later ss' c hu hp
        good out slot success failure wrong =
      (
        (login_attempt_lem lib render now print_double reads_back law t choice uc pc u username
              password role name rest ss' c hu hp good out slot success).0
            ∙ rw wrong refl,
        login_attempt-refused t second uc pc u username password role name later
            (signed_in render u role name ss' c) hu hp good
            (is_logged_in-added u c.server.sessions ss' slot) failure,
      )
