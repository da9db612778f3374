-- ===== src/Tests/Router.antt =====
-- Tests and witnesses of the request router.
use banking_management_syste.Base.{◌≡◌, [], ◌∷◌, some}
use banking_management_syste.Base.Int.{ℤ, pos}
use banking_management_syste.Base.Text.{codes, streq}
use banking_management_syste.Listing.{Printf}
use banking_management_syste.Sessions.History.{session_run, assign}
use banking_management_syste.Server.{Server, Request, handle, server_init}
use banking_management_syste.Server.Routes.{op_of, op_in, Libc, chars}
use banking_management_syste.Server.Refinement.{
  Agree, sys, events_of, cleared, handle-Agree, handle_unchecked,
}
use banking_management_syste.Tests.{cents, bank}

-- Rows that show a part of their record.
instance abbrev pub short : Printf ℤ
short = record {
  loan_status_row = λ l status. status;
  feedback_row = λ b status. b.message;
  txn_row = λ kind amount other time. kind;
  pending_row = λ l. l.remarks;
  assigned_row = λ l status. status;
  review_row = λ b. b.message;
  reviewed_row = λ n. n ∷ [];
  user_row = λ u role. u.username;
}

-- A conversion that always reads the same name and password.
abbrev lib : Libc ℤ
lib = record {
  scanf = λ convs payload. chars (codes "priya") ∷ chars (codes "priya") ∷ [];
  crypt = λ password salt. some password;
  history_title = λ n. codes "History";
  unset_word = 0;
  unset_float = pos 0;
  unset_chars = [];
}

abbrev started : Server ℤ
unfolding server_init
started = server_init bank

abbrev sign_in : Request
sign_in = record { op = codes "LOGIN"; payload = codes "priya priya" }

abbrev withdraw_500 : Request
withdraw_500 = record { op = codes "WITHDRAW"; payload = codes "1005 500" }

handle-Agree_example :
    Agree
      (sys
        (handle lib 7 sign_in 0 started).2
        (assign (λ k. 0) 4 (handle lib 7 sign_in 0 started).1))
      (session_run (events_of lib 4 sign_in (cleared started)) (sys started (λ k. 0)))
handle-Agree_example = handle-Agree lib 7 sign_in 4 (λ k. 0) started

handle_unchecked_example :
    (handle lib 7 withdraw_500 0 started).2 ≡ (handle lib 7 withdraw_500 1003 started).2
unfolding op_of op_in streq
handle_unchecked_example =
    (handle_unchecked lib 7 withdraw_500 0 1003 started (λ e. cc) (λ e. cc)).1
