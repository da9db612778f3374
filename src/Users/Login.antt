-- ===== src/Users/Login.antt =====
-- Logins of src/utils.c against the users file, and passwords that have been changed.
use banking_management_syste.Base.{
  ℕ, ◌≡◌, ◌≢◌, ◌≤◌, List, [], ◌∷◌, All, some, none, true, false, ◌&&◌, arith, if◌then◌else◌,
  Bool-cases, Option-cases, length, take_all, sym, ap, ◌∙◌, ◌==◌, inl, inr, not, refl, take, Bool,
}
use mathlib.Core.Path.{subst}
use banking_management_syste.Base.Text.{Text, codes, streq, streq_refl, strncpy}
use banking_management_syste.Store.{contents, read_record}
use banking_management_syste.Store.Rows.{read_loop, revise}
use banking_management_syste.Store.Laws.{atomic_update-Updated}
use banking_management_syste.Model.{
  World, User, format, users_db, is_active, Role, customer, employee, manager, admin,
}
use banking_management_syste.Utils.{
  Crypt, atomic_update_user, LoginResult, refused, deactivated, logged_in, user_key, role_name,
  verify_password, generate_password_hash, login_found, login_loop, login_user, read_account,
}
use banking_management_syste.Utils.Accounts.{account_of}
use banking_management_syste.Customer.{change_pass_modifier, change_password}
use banking_management_syste.Loans.{user_of}
use banking_management_syste.Users.{streq-ne, Differ, Distinct}

-- What `crypt` is documented to do with a password: it hashes it under the salt of the program, and
-- gives the same hash again when that hash is its salt. The hash fits its field.
pub record Hashes (crypt : Crypt) (password : Text) : Type 0 where
  pub hashed : Text
  pub fresh : crypt password (codes "$6$IIITB$") ≡ some hashed
  pub again : crypt password hashed ≡ some hashed
  pub fits : length hashed ≤ 127

verify-hashed :
    (crypt : Crypt) (password : Text)
    → Hashes crypt password
    → verify_password crypt password (generate_password_hash crypt password 128) ≡ true
unfolding verify_password generate_password_hash
verify-hashed crypt password h =
    let e : take 127 h.hashed ≡ h.hashed = take_all 127 h.hashed h.fits in
    ground (arith, h.fresh, h.again, streq_refl h.hashed)

differs :
    (r u : User) (k : ℕ) (us : List User)
    → All (Differ r) us
    → read_loop user_key k us ≡ some u
    → r.username ≢ u.username
unfolding read_loop
differs r u k [] a e = absurd (ground arith)
differs r u k (v ∷ us) a e = elim (Bool-cases (v.user_id == k)) [
  | inl here ↦ let same : v ≡ u = ground arith in subst (λ t. r.username ≢ t.username) same a.0.0
  | inr there ↦ differs r u k us a.1 (ground arith)
]

abbrev rehashed : Crypt → Text → User → User
rehashed crypt password u = record u { password_hash = generate_password_hash crypt password 128 }

-- Whether `crypt`, salted with the stored hash, gives that hash again.
abbrev pub rehashes : Crypt → Text → User → Bool
rehashes crypt password u = elim (crypt password u.password_hash) [
  | none ↦ false
  | some hash ↦ streq hash u.password_hash
]

abbrev pub role_word : Role → Text
role_word customer = codes "customer"
role_word employee = codes "employee"
role_word manager = codes "manager"
role_word admin = codes "admin"

role_word_lem : (role : Role) → role_word role ≡ role_name role
unfolding role_name
role_word_lem role = ground arith

rehashes_lem :
    (crypt : Crypt) (password : Text) (u : User)
    → rehashes crypt password u ≡ verify_password crypt password u.password_hash
unfolding verify_password
rehashes_lem crypt password u = refl

module _ {F : Type 0} where
  -- The answer to a login of a stored user: refused unless the password hashes to the stored hash; else
  -- deactivated if the user, or an account of the user, is inactive; else the user's identifier, the
  -- word for the role, and the first name.
  abbrev pub login_answer : Crypt → Text → User → World F → LoginResult
  login_answer crypt password u w =
      if not (rehashes crypt password u)
      then refused
      else if is_active u.active
          && elim (account_of u.user_id w) [ none ↦ true | some acc ↦ is_active acc.active ]
      then logged_in u.user_id (role_word u.role) (strncpy 64 u.first_name)
      else deactivated

  login_found_lem :
      (crypt : Crypt) (password : Text) (u : User) (w : World F)
      → login_found crypt password u w ≡ login_answer crypt password u w
  unfolding login_found read_account verify_password role_name
  login_found_lem crypt password u w = ground arith

  login_loop-user :
      (crypt : Crypt) (password : Text) (k : ℕ) (u : User) (us : List User) (w : World F)
      → Distinct us
      → read_loop user_key k us ≡ some u
      → login_loop crypt u.username password us w ≡ login_found crypt password u w
  unfolding login_loop read_loop
  login_loop-user crypt password k u [] w d e = absurd (ground arith)
  login_loop-user crypt password k u (v ∷ us) w d e = elim (Bool-cases (v.user_id == k)) [
    | inl here ↦ let same : v ≡ u = ground arith in ground (arith, streq_refl u.username)
    | inr there ↦ ground (
      arith,
      login_loop-user crypt password k u us w d.1 (ground arith),
      streq-ne v.username u.username (differs v u k us d.0 (ground arith)),
    )
  ]

  -- Where no two users share a credential, a login with the name of a stored user is answered for that
  -- user: refused unless crypt, salted with the stored hash, gives that hash again for the password;
  -- else deactivated if the user or an account of the user is inactive; else with the user's own
  -- identifier, the word for the user's role, and the first name.
  pub login_user_lem :
      (crypt : Crypt) (password : Text) (k : ℕ) (u : User) (w : World F)
      → Distinct (contents w.users)
      → user_of k w ≡ some u
      → login_user crypt u.username password w ≡ login_answer crypt password u w
  unfolding login_user read_record
  login_user_lem crypt password k u w d e = elim (Option-cases w.users.rows) [
    | inl n ↦ absurd (ground arith)
    | inr (us, n) ↦
        let h : contents w.users ≡ us = ground arith in
        ground (
          arith,
          login_loop-user crypt password k u us w (subst Distinct h d) (ground arith),
          login_found_lem crypt password u w,
        )
  ]

  -- After a change of a record that keeps the name, a login with that name is answered for the new
  -- record.
  login_loop-revised :
      (crypt : Crypt) (password : Text) (k : ℕ) (u b : User) (us us' : List User) (w : World F)
      → Distinct us
      → b.username ≡ u.username
      → read_loop user_key k us ≡ some u
      → revise user_key k (λ _. some b) us ≡ some us'
      → login_loop crypt u.username password us' w ≡ login_found crypt password b w
  unfolding login_loop read_loop revise
  login_loop-revised crypt password k u b [] us' w d p e m = absurd (ground arith)
  login_loop-revised crypt password k u b (v ∷ us) us' w d p e m =
      elim (Bool-cases (v.user_id == k)) [
        | inl here ↦ ground (arith, streq_refl u.username)
        | inr there ↦ elim (Option-cases (revise user_key k (λ _. some b) us)) [
          | inl n ↦ absurd (ground arith)
          | inr (vs, n) ↦ ground (
            arith,
            login_loop-revised crypt password k u b us vs w d.1 p (ground arith) n,
            streq-ne v.username u.username (differs v u k us d.0 (ground arith)),
          )
        ]
      ]

  -- Where no two users share a credential, a change of password that succeeds lets that user log in
  -- with the new password, if neither the user nor an account of the user is inactive.
  pub change_password-login_user :
      (crypt : Crypt) (password : Text) (k : ℕ) (u : User) (w : World F)
      → Hashes crypt password
      → Distinct (contents w.users)
      → user_of k w ≡ some u
      → is_active u.active ≡ true
      → elim (account_of u.user_id w) [ none ↦ true | some acc ↦ is_active acc.active ] ≡ true
      → (change_password crypt k password w).0 ≡ true
      → login_user crypt u.username password (change_password crypt k password w).1
        ≡ logged_in u.user_id (role_name u.role) (strncpy 64 u.first_name)
  unfolding change_password change_pass_modifier atomic_update_user login_user read_record
      read_account
  change_password-login_user crypt password k u w h d e act acc done =
      elim (atomic_update-Updated users_db user_key k (change_pass_modifier crypt password) w
        (λ a. refl)) [
          | inl (n, q) ↦ absurd (ground arith)
          | inr (inl (a, q, (z, r))) ↦ absurd (ground arith)
          | inr (inr (inl (a, b, q, z, failed, r))) ↦ absurd (ground arith)
          | inr (inr (inr (a, b, rs, rs', q, z, v, m, ok, r))) ↦
              let s : contents w.users ≡ rs = ground arith in
              let mine : a ≡ u = ground arith in
              let changed : rehashed crypt password a ≡ b = ground arith in
              let same : b ≡ rehashed crypt password u =
                sym changed ∙ ap (rehashed crypt password) mine in
              let w' : World F = record w {
                users = record (w.users) { rows = some rs' };
                resp = some (format "Password changed successfully" []);
              } in
              let loop =
                login_loop-revised crypt password k u b rs rs' w' (subst Distinct s d)
                  (ground arith) (ground arith) m in
              let found = login_found_lem crypt password b w' in
              let out : (change_password crypt k password w).1 ≡ w' = ground (arith, changed) in
              let answer : login_user crypt u.username password w'
                  ≡ logged_in u.user_id (role_name u.role) (strncpy 64 u.first_name) =
                ground (
                  arith,
                  verify-hashed crypt password h,
                  rehashes_lem crypt password b,
                  role_word_lem u.role,
                  role_word_lem b.role,
                ) in
              ap (login_user crypt u.username password) out ∙ answer
        ]
