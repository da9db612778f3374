-- ===== src/Bootstrap/Adders.antt =====
-- The calls of src/bootstrap.c that each add a user, by what they do to the users file.
use banking_management_syste.Base.{
  ℕ, ◌+◌, ◌≤◌, ◌<◌, ◌^◌, ◌≡◌, ◌≢◌, refl, sym, ◌∙◌, Bool, true, false, ◌&&◌, not, some, List, [],
  ◌∷◌, ◌++◌, arith, length, inl, inr, Option-cases, take_all,
}
use banking_management_syste.Base.Text.{Text, streq_refl}
use banking_management_syste.Store.{M, contents, write_record}
use banking_management_syste.Model.{World, Double, User, Role}
use banking_management_syste.Utils.{
  Crypt, check_uniqueness, find_clash, generate_password_hash, generate_new_user_id, write_user,
  write_account,
}
use banking_management_syste.Employee.{Details, add_new_customer}
use banking_management_syste.Admin.{add_employee, staff_role, new_staff}
use banking_management_syste.Users.{NumberedFrom, unique, check_uniqueness_lem}
use banking_management_syste.Utils.Accounts.{is_some}
use banking_management_syste.Users.Creation.{next_id, add_employee_lem}
use banking_management_syste.Users.Customers.{add_new_customer-unique, new_customer}

-- Whether some user has the name, the email or the phone.
abbrev pub taken : (F : Type 0) → Text → Text → Text → List User → Bool
taken F username email phone us = is_some (find_clash {F = F} username email phone 0 us)

pub taken-append :
    (F : Type 0) (username email phone : Text) (us vs : List User)
    → taken F username email phone us ≡ true
    → taken F username email phone (us ++ vs) ≡ true
unfolding find_clash
taken-append F username email phone [] vs h = absurd (ground arith)
taken-append F username email phone (u ∷ us) vs h =
    ground (arith, taken-append F username email phone us vs)

pub taken-new :
    (F : Type 0) (username email phone : Text) (us : List User) (v : User)
    → v.username ≡ username
    → v.user_id ≢ 0
    → taken F username email phone (us ++ v ∷ []) ≡ true
unfolding find_clash
taken-new F username email phone [] v e ne = ground (arith, streq_refl username)
taken-new F username email phone (u ∷ us) v e ne =
    ground (arith, taken-new F username email phone us v e ne)

and_true : (b : Bool) → b && true ≡ b
and_true b = ground arith

module _ {F : Type 0} where
  unique-taken :
      (username email phone : Text) (w : World F)
      → unique username email phone 0 w ≡ not (taken F username email phone (contents w.users))
  unfolding check_uniqueness find_clash
  unique-taken username email phone w = ground arith

  -- The files can be written, the users are numbered, and there is a number for each of `n` more.
  pub record IsReady (n : ℕ) (w : World F) : Type 0 where
    pub writable : w.users.accepts ≡ true
    pub numbered : NumberedFrom 1001 (contents w.users)
    pub room : 1001 + (length (contents w.users) + n) < 2 ^ 32

  -- What a call that adds a user does: nothing if one of the credentials is taken, and else the user
  -- stands at the end of the file under the next number.
  pub data IsAdder (username email phone : Text) (add : M (World F) Bool) : Type 0 where
    adder :
        ((w : World F)
          → IsReady 1 w
          → let (success, w') = add w in
            (success ≡ not (taken F username email phone (contents w.users)))
            × (w'.users.accepts ≡ true)
            × (success ≡ false
                → (contents w'.users ≡ contents w.users) × (w'.accounts ≡ w.accounts))
            × (success ≡ true
                → (v : User) × (contents w'.users ≡ contents w.users ++ v ∷ [])
                  × (v.username ≡ username)
                  × (v.user_id ≡ next_id w)))
        → IsAdder username email phone add

  add_employee-accepts :
      (crypt : Crypt) (det : Details) (role_str username password : Text) (now : ℕ) (w : World F)
      → (add_employee crypt det role_str username password now w).1.users.accepts ≡ w.users.accepts
  unfolding add_employee generate_new_user_id write_user write_record
  add_employee-accepts crypt det role_str username password now w =
      elim (Option-cases (staff_role role_str)) [
        | inl n ↦ ground (arith, check_uniqueness_lem username det.email det.phone 0 w)
        | inr (role, n) ↦ ground (arith, check_uniqueness_lem username det.email det.phone 0 w)
      ]

  -- Without room, or where the users file does not accept the write, still nothing is taken off.
  add_employee-refuses :
      (crypt : Crypt) (det : Details) (role_str username password : Text) (now : ℕ) (w : World F)
      → unique username det.email det.phone 0 w ≡ false
      → let w' = (add_employee crypt det role_str username password now w).1 in
        (contents w'.users ≡ contents w.users) × (w'.accounts ≡ w.accounts)
  unfolding add_employee
  add_employee-refuses crypt det role_str username password now w h =
      ground (arith, check_uniqueness_lem username det.email det.phone 0 w)

  add_new_customer-accepts :
      ⦃o : Double F⦄ (crypt : Crypt) (user : User) (username password : Text) (now : ℕ)
      (w : World F)
      → (add_new_customer crypt user username password now w).1.users.accepts ≡ w.users.accepts
  unfolding add_new_customer generate_new_user_id write_user write_account write_record
  add_new_customer-accepts crypt user username password now w =
      ground (arith, check_uniqueness_lem username user.email user.phone 0 w)

  add_new_customer-refuses :
      ⦃o : Double F⦄ (crypt : Crypt) (user : User) (username password : Text) (now : ℕ)
      (w : World F)
      → unique username user.email user.phone 0 w ≡ false
      → let w' = (add_new_customer crypt user username password now w).1 in
        (contents w'.users ≡ contents w.users) × (w'.accounts ≡ w.accounts)
  unfolding add_new_customer
  add_new_customer-refuses crypt user username password now w h =
      ground (arith, check_uniqueness_lem username user.email user.phone 0 w)

  pub add_employee-IsAdder :
      (crypt : Crypt) (det : Details) (role_str username password : Text) (now : ℕ) (role : Role)
      → staff_role role_str ≡ some role
      → length username ≤ 63
      → IsAdder username det.email det.phone (add_employee crypt det role_str username password now)
  add_employee-IsAdder crypt det role_str username password now role known fits = adder λ w ready.
      let (e, us, _) =
        add_employee_lem crypt det role_str username password now w ready.numbered
          (omega (arith, ready.room)) in
      let same = e ∙ rw known (and_true (unique username det.email det.phone 0 w)) in
      (
        same ∙ unique-taken username det.email det.phone w,
        add_employee-accepts crypt det role_str username password now w ∙ ready.writable,
        (λ failure.
            add_employee-refuses crypt det role_str username password now w (sym same ∙ failure)),
        λ success. (
          new_staff det username (generate_password_hash crypt password 128) role (next_id w) now,
          (let free : unique username det.email det.phone 0 w ≡ true = sym same ∙ success in
              us ∙ rw (known, free, ready.writable) refl),
          take_all 63 username fits,
          refl,
        ),
      )

  pub add_new_customer-IsAdder :
      ⦃o : Double F⦄ (crypt : Crypt) (user : User) (username password : Text) (now : ℕ)
      → length username ≤ 63
      → IsAdder username user.email user.phone (add_new_customer crypt user username password now)
  add_new_customer-IsAdder crypt user username password now fits = adder λ w ready.
      let (e, us, _) =
        add_new_customer-unique crypt user username password now 0 w ready.numbered
          (omega (arith, ready.room)) in
      (
        e ∙ unique-taken username user.email user.phone w,
        add_new_customer-accepts crypt user username password now w ∙ ready.writable,
        (λ failure. add_new_customer-refuses crypt user username password now w (sym e ∙ failure)),
        λ success. (
          new_customer crypt user username password now (next_id w),
          us ∙ rw (success, ready.writable) refl,
          take_all 63 username fits,
          refl,
        ),
      )
