-- ===== src/Users/Customers.antt =====
-- New customers: the user record, the account, and the answer.
use banking_management_syste.Base.{
  ℕ, ◌↔◌, All, ◌∙◌, ◌≤◌, ◌≡◌, refl, sym, ◌⊎◌, inl, inr, Bool, true, false, ◌&&◌, some, [], ◌∷◌,
  ◌++◌, arith, ◌==◌, if◌then◌else◌, Bool-cases, length, take_all,
}
use mathlib.Core.Path.{subst}
use banking_management_syste.Base.Text.{Text, strncpy}
use banking_management_syste.Store.{contents}
use banking_management_syste.Store.Laws.{read-write}
use banking_management_syste.Model.{World, User, Double, Account, customer, active}
use banking_management_syste.Utils.{
  Crypt, account_key, generate_new_user_id, generate_password_hash, write_user, write_account,
  read_account,
}
use banking_management_syste.Utils.Accounts.{account_of}
use banking_management_syste.Employee.{add_new_customer}
use banking_management_syste.Users.{
  Unlike, unique-Unlike, NumberedFrom, unique, unique-Apart, check_uniqueness_lem,
}
use banking_management_syste.Users.Creation.{
  IsValid, ValidUsers, ValidUsers-append, HasRoom, next_id, u32-next_id, opened, write_record_new,
}

-- The record of a new customer, from what the caller has filled in.
abbrev pub new_customer : Crypt → User → Text → Text → ℕ → ℕ → User
new_customer crypt user username password now id = record user {
  user_id = id;
  role = customer;
  active = active;
  created_at = now;
  username = strncpy 64 username;
  password_hash = generate_password_hash crypt password 128;
}

module _ {F : Type 0} ⦃o : Double F⦄ where
  abbrev pub new_account : ℕ → Account F
  new_account id = record { account_id = id; user_id = id; balance = o.zero; active = active }

  pub add_new_customer-unique :
      (crypt : Crypt) (user : User) (username password : Text) (now j : ℕ) (w : World F)
      → NumberedFrom 1001 (contents w.users)
      → HasRoom w
      → let (r, w') = add_new_customer crypt user username password now w in
        (r ≡ unique username user.email user.phone 0 w)
        × (contents w'.users ≡ (
            if r && w.users.accepts
            then contents w.users ++ new_customer crypt user username password now (next_id w) ∷ []
            else contents w.users))
        × (account_of j w' ≡ (
            if r && (w.accounts.accepts && (j == next_id w))
            then some (new_account (next_id w))
            else account_of j w))
  unfolding add_new_customer generate_new_user_id write_user write_account read_account
  add_new_customer-unique crypt user username password now j w h room = ground (
    arith,
    check_uniqueness_lem username user.email user.phone 0 w,
    u32-next_id w room,
    write_record_new (new_customer crypt user username password now (next_id w)) (opened w) h refl,
    read-write account_key j (new_account (next_id w)) w.accounts,
  )

  -- Where the users are numbered from 1001 without gaps and an identifier is free, `add_new_customer`
  -- says yes exactly if no user has the name, the email or the phone, also where a file then does not
  -- accept the write. The user stands at the end of the users file under the next identifier if that
  -- file accepts the write; an active account with no money reads under the same identifier if the
  -- accounts file does; every other account reads as before.
  pub add_new_customer_lem :
      (crypt : Crypt) (user : User) (username password : Text) (now j : ℕ) (w : World F)
      → NumberedFrom 1001 (contents w.users)
      → HasRoom w
      → let (r, w') = add_new_customer crypt user username password now w in
        ((r ≡ true) ↔ All (Unlike username user.email user.phone) (contents w.users))
        × (contents w'.users ≡ (
            if r && w.users.accepts
            then contents w.users ++ new_customer crypt user username password now (next_id w) ∷ []
            else contents w.users))
        × (account_of j w' ≡ (
            if r && (w.accounts.accepts && (j == next_id w))
            then some (new_account (next_id w))
            else account_of j w))
  add_new_customer_lem crypt user username password now j w h room =
      let (r, us, accs) = add_new_customer-unique crypt user username password now j w h room in
      (
        (
          λ e. (unique-Unlike username user.email user.phone w h).0 (sym r ∙ e),
          λ a. r ∙ (unique-Unlike username user.email user.phone w h).1 a,
        ),
        us,
        accs,
      )

  -- Where an identifier is free, adding a customer whose username has at most 63 bytes keeps the users
  -- file valid: identifiers without gaps, and no shared credential.
  pub add_new_customer-IsValid :
      (crypt : Crypt) (user : User) (username password : Text) (now : ℕ) (w : World F)
      → length username ≤ 63
      → HasRoom w
      → IsValid w
      → IsValid (add_new_customer crypt user username password now w).1
  add_new_customer-IsValid crypt user username password now w fits room v =
      let (r, e, _) = add_new_customer-unique crypt user username password now 0 w v.0 room in
      subst ValidUsers (sym e) (go (Bool-cases _))
    where
      done : Bool
      done = (add_new_customer crypt user username password now w).0

      go :
          (done && w.users.accepts ≡ true) ⊎ (done && w.users.accepts ≡ false)
          → ValidUsers (
              if done && w.users.accepts
              then contents w.users
                ++ new_customer crypt user username password now (next_id w) ∷ []
              else contents w.users)
      go (inr c) = rw c v
      go (inl c) = rw c (
          ValidUsers-append (contents w.users)
            (new_customer crypt user username password now (next_id w)) username user.email
            user.phone v refl
            (unique-Apart username user.email user.phone 0 w (
              ground
                (arith, add_new_customer-unique crypt user username password now 0 w v.0 room)))
            (take_all 63 username fits) refl refl)
