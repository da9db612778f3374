-- ===== src/Tests/Console.antt =====
-- Tests and witnesses of the client connected to the server.
use banking_management_syste.Base.{ℕ, ◌≡◌, refl, none, some, List, [], ◌∷◌, ◌++◌, arith}
use banking_management_syste.Base.Int.{ℤ, pos}
use banking_management_syste.Base.Text.{Text, codes, streq}
use banking_management_syste.Base.Decimal.{digits, decimal}
use banking_management_syste.Model.{Message, format, listing, num, str}
use banking_management_syste.Store.{read_record}
use banking_management_syste.Store.Rows.{read_loop}
use banking_management_syste.Utils.{
  login_user, login_loop, login_found, verify_password, role_name, read_account,
}
use banking_management_syste.Sessions.{is_logged_in, add_session, no_sessions}
use banking_management_syste.Server.{server_init}
use banking_management_syste.Client.Validators.{contains, validate_not_empty, validate_credential}
use banking_management_syste.Client.Main.{valid_role, login_attempt, main_rounds, client_main}
use banking_management_syste.Client.Main.Rounds.{client_main-enough}
use banking_management_syste.Client.Online.Lockout.{login_attempt-locks_out, turned_away}
use banking_management_syste.Client.Online.{
  Conn, IsCredential, line, login_attempt_lem, server_link, signed_in,
}
use banking_management_syste.Tests.{cents, bank}
use banking_management_syste.Tests.Router.{short}
use banking_management_syste.Tests.Keyboard.{
  console, console-IsScan, scan_number, leading, before, after,
}
use banking_management_syste.Tests.Scanner.{
  scan-IsScanf, visible, visible-one_line, visible_word, visible_word-IsWord, print_cents,
  NotNegative, value_from,
}
use banking_management_syste.Tests.Typed.{libc}

-- The text of a successful login; the other messages are not looked into.
abbrev shown : Message ℤ → Text
shown (format text (num u ∷ str role ∷ str name ∷ [])) =
    codes "SUCCESS " ++ decimal u ++ codes " " ++ role ++ codes "|" ++ name
shown (format text args) = codes text
shown (listing text) = text

abbrev fresh : Conn ℤ
unfolding server_init
fresh = record {
  server = server_init bank;
  current = 0;
  answer = record { status_code = pos 0; message = [] };
}

priya-IsCredential : IsCredential b'p' (codes "riya")
unfolding visible_word visible validate_credential validate_not_empty contains
priya-IsCredential = record {
  is_word = visible_word-IsWord (codes "priya") refl;
  one_line = visible-one_line (codes "priya") refl;
  short = omega arith;
  valid = refl;
}

-- Where the customer 1005 first takes the first slot.
abbrev one_slot : List ℕ
unfolding no_sessions
one_slot = 1005 ∷ no_sessions 99

login_attempt_lem_example :
    login_attempt
      (server_link libc shown 7)
      console
      2
      (line (codes "priya") (line (codes "priya") []))
      fresh
    ≡ some (none, [], signed_in shown 1005 (codes "customer") (codes "priya") one_slot fresh)
unfolding login_user login_loop login_found verify_password role_name read_account read_record
    read_loop is_logged_in add_session no_sessions server_init console scan_number leading
    value_from before after decimal digits valid_role streq
login_attempt_lem_example =
    (login_attempt_lem libc shown 7 print_cents NotNegative scan-IsScanf console 2 b'p' b'p' 1005
      (codes "riya") (codes "riya") (codes "customer") (codes "priya") [] one_slot fresh
      priya-IsCredential priya-IsCredential refl refl refl refl).0

login_attempt-locks_out_example :
    let c' = signed_in shown 1005 (codes "customer") (codes "priya") one_slot fresh in
    login_attempt
      (server_link libc shown 7)
      console
      1
      (line (codes "priya") (line (codes "priya") []))
      c'
    ≡ some (none, [], turned_away shown c')
unfolding login_user login_loop login_found verify_password role_name read_account read_record
    read_loop is_logged_in add_session no_sessions server_init console scan_number leading
    value_from before after decimal digits valid_role streq
login_attempt-locks_out_example =
    (login_attempt-locks_out libc shown 7 print_cents NotNegative scan-IsScanf console 2 1 b'p' b'p'
      1005 (codes "riya") (codes "riya") (codes "customer") (codes "priya") [] [] one_slot fresh
      priya-IsCredential priya-IsCredential refl refl refl refl refl refl).1

-- A wrong choice of a role, and the end.
abbrev typed : Text
typed = codes "2\npriya\npriya\n5\n"

client_main-enough_example :
    main_rounds (server_link libc shown 7) console 40 typed fresh
    ≡ client_main (server_link libc shown 7) console typed fresh
client_main-enough_example =
    (client_main-enough (server_link libc shown 7) console console-IsScan 40 1005 [] 64
      validate_not_empty typed fresh (omega arith) (omega arith)).0
