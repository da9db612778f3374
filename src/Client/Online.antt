-- ===== src/Client/Online.antt =====
-- The client of src/client.c connected to the server of src/server.c: what a login leaves on both sides.
pub mod Lockout
use banking_management_syste.Base.{
  ℕ, suc, ◌<◌, ◌≡◌, ◌≢◌, ◌↔◌, refl, ap, ◌∙◌, true, false, Option, none, some, List, [], ◌∷◌, ◌++◌,
  arith, if◌then◌else◌, length, take, take_all, length-append, All,
}
use banking_management_syste.Base.Text.{Text, streq}
use banking_management_syste.Base.Int.{pos}
use banking_management_syste.Model.{Double, Message, format, num, str}
use banking_management_syste.Listing.{Printf}
use banking_management_syste.Utils.{logged_in, login_user}
use banking_management_syste.Sessions.{admit, is_logged_in, add_session}
use banking_management_syste.Server.{Server, handle, finish_login}
use banking_management_syste.Server.Routes.{op_of, op_in, s, chars, Libc}
use banking_management_syste.Server.Refinement.{cleared}
use banking_management_syste.Client.Input.{newline}
use banking_management_syste.Client.Input.Prompts.{read-line}
use banking_management_syste.Client.Validators.{
  validate_credential, max_username_len, max_password_len,
}
use banking_management_syste.Client.Terminal.{Terminal, join, request}
use banking_management_syste.Client.Payload.{IsWord, shown_word, IsScanf, last, more, scanf-join}
use banking_management_syste.Client.Menus.{Response, Link, send_request_and_get_response}
use banking_management_syste.Client.Main.{valid_role, login_attempt, Chosen, valid_role_iff}

-- One connection: the server, the user of its thread, and the response that is on its way.
pub record Conn (F : Type 0) : Type 0 where
  pub server : Server F
  pub current : ℕ
  pub answer : Response

-- The texts of a formatted message are `snprintf`'s.
abbrev pub message_text : {F : Type 0} → (Message F → Text) → Option (Message F) → Text
message_text render none = []
message_text render (some m) = render m

-- The typed line of a prompt.
abbrev pub line : Text → Text → Text
line text rest = text ++ newline ∷ rest

-- An answer to the prompts for a username and a password that one %s reads whole.
pub record IsCredential (c : ℕ) (text : Text) : Type 0 where
  pub is_word : IsWord (c ∷ text)
  pub one_line : All (λ b. b ≢ newline) (c ∷ text)
  pub short : suc (length text) < 63
  pub valid : validate_credential (c ∷ text) ≡ none

-- The connection and the server after a login that took the table `ss'` of sessions.
abbrev pub signed_in :
    {F : Type 0} → (Message F → Text) → ℕ → Text → Text → List ℕ → Conn F → Conn F
signed_in {F} render u role name ss' c =
    let success : Message F = format "SUCCESS %d %s|%s" (num u ∷ str role ∷ str name ∷ []) in
    record {
      server = record (c.server) {
        world = record (c.server.world) { resp = some success };
        sessions = ss';
      };
      current = u;
      answer = record { status_code = pos 0; message = render success };
    }

module _ {F : Type 0} ⦃o : Double F⦄ ⦃p : Printf F⦄ (lib : Libc F) (render : Message F → Text)
    (now : ℕ) where
  -- A connection on which nothing is lost: a written request is handled, and its response is read.
  unfoldable pub server_link : Link (Conn F)
  server_link = record {
    write = λ req c.
        let (status, current', server') = handle lib now req c.current c.server in
        (
          true,
          record {
            server = server';
            current = current';
            answer = record {
              status_code = pos status;
              message = message_text render server'.world.resp;
            };
          },
        );
    read = λ c. (some c.answer, c);
  }

  module _ (print_double : F → Text) (reads_back : F → Type 0)
      (law : IsScanf print_double reads_back lib.scanf) where
    scanned_login :
        (uc pc : ℕ) (username password : Text)
        → IsCredential uc username
        → IsCredential pc password
        → lib.scanf (s ∷ s ∷ []) (take 1023 (join ((uc ∷ username) ∷ (pc ∷ password) ∷ [])))
          ≡ chars (uc ∷ username) ∷ chars (pc ∷ password) ∷ []
    scanned_login uc pc username password hu hp =
        ap (lib.scanf (s ∷ s ∷ [])) (
          take_all 1023 (join ((uc ∷ username) ∷ (pc ∷ password) ∷ [])) (
            omega
              (arith, hu.short, hp.short, length-append (uc ∷ username) (b' ' ∷ pc ∷ password))))
        ∙ scanf-join print_double reads_back law
            (more (shown_word hu.is_word) (last (shown_word hp.is_word)))

    handle-login :
        (uc pc u current : ℕ) (username password role name : Text) (ss' : List ℕ) (srv : Server F)
        → IsCredential uc username
        → IsCredential pc password
        → login_user lib.crypt (uc ∷ username) (pc ∷ password) (cleared srv) ≡ logged_in u role name
        → is_logged_in u srv.sessions ≡ false
        → add_session u srv.sessions ≡ some ss'
        → handle lib now (request "LOGIN" ((uc ∷ username) ∷ (pc ∷ password) ∷ [])) current srv ≡ (
          0,
          u,
          record srv {
            world = record (srv.world) {
              resp = some (format "SUCCESS %d %s|%s" (num u ∷ str role ∷ str name ∷ []));
            };
            sessions = ss';
          },
        )
    unfolding handle finish_login admit op_of op_in streq
    handle-login uc pc u current username password role name ss' srv hu hp good out slot =
        rw (scanned_login uc pc username password hu hp, good, finish_login, admit, out, slot) refl

    send_request-login :
        (uc pc u : ℕ) (username password role name : Text) (ss' : List ℕ) (c : Conn F)
        → IsCredential uc username
        → IsCredential pc password
        → login_user lib.crypt (uc ∷ username) (pc ∷ password) (cleared (c.server))
          ≡ logged_in u role name
        → is_logged_in u c.server.sessions ≡ false
        → add_session u c.server.sessions ≡ some ss'
        → send_request_and_get_response server_link
            (request "LOGIN" ((uc ∷ username) ∷ (pc ∷ password) ∷ []))
            c
          ≡ ((signed_in render u role name ss' c).answer, signed_in render u role name ss' c)
    unfolding send_request_and_get_response server_link
    send_request-login uc pc u username password role name ss' c hu hp good out slot =
        let e =
          handle-login uc pc u c.current username password role name ss' (c.server) hu hp good out
            slot in
        rw e refl

    -- A client chooses a role and types, as single words that fit their prompts, the name and the
    -- password of a user who has no session, where a slot is free, and it reads back the number, the
    -- role and the name in the server's answer. Then the server takes the slot and makes the user that
    -- of the connection, whatever role was chosen, while the client goes on as this user only if the
    -- role is the chosen one: 1 a customer, 2 an employee, 3 a manager, 4 an admin.
    pub login_attempt_lem :
        (t : Terminal F) (choice uc pc u : ℕ) (username password role name rest : Text)
        (ss' : List ℕ) (c : Conn F)
        → IsCredential uc username
        → IsCredential pc password
        → login_user lib.crypt (uc ∷ username) (pc ∷ password) (cleared (c.server))
          ≡ logged_in u role name
        → is_logged_in u c.server.sessions ≡ false
        → add_session u c.server.sessions ≡ some ss'
        → t.scan_success (render (format "SUCCESS %d %s|%s" (num u ∷ str role ∷ str name ∷ [])))
          ≡ some (u, role, name)
        → (login_attempt server_link t choice (line (uc ∷ username) (line (pc ∷ password) rest)) c
            ≡ some (
              if valid_role choice role then some (record { user_id = u; role = role }) else none,
              rest,
              signed_in render u role name ss' c,
            ))
          × ((valid_role choice role ≡ true) ↔ Chosen choice role)
    unfolding login_attempt
    login_attempt_lem t choice uc pc u username password role name rest ss' c hu hp good out slot
          shown =
        let sent =
          send_request-login uc pc u username password role name ss' c hu hp good out slot in
        (
          rw
              (
                login_attempt,
                read-line (t.unset_text max_username_len) max_username_len validate_credential uc
                    username (line (pc ∷ password) rest) hu.one_line (omega (arith, hu.short))
                    hu.valid,
                read-line (t.unset_text max_password_len) max_password_len validate_credential pc
                    password rest hp.one_line (omega (arith, hp.short)) hp.valid,
                sent,
                shown,
                sent,
              )
              refl,
          valid_role_iff choice role,
        )
