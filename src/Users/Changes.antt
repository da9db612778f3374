-- ===== src/Users/Changes.antt =====
-- Changes of a user's record: passwords, details and roles.
use banking_management_syste.Base.{
  ℕ, ◌≡◌, inl, inr, Bool, ◌&&◌, ◌||◌, Option, none, some, arith, ◌==◌, if◌then◌else◌, refl,
}
use banking_management_syste.Base.Text.{Text, streq, codes}
use banking_management_syste.Store.{M, read_record}
use banking_management_syste.Store.Rows.{Kept, read-overwrite, read-key}
use banking_management_syste.Store.Laws.{atomic_update-Updated}
use banking_management_syste.Model.{World, User, users_db, is_customer, is_admin, employee, manager}
use banking_management_syste.Utils.{Crypt, user_key, atomic_update_user, generate_password_hash}
use banking_management_syste.Utils.Accounts.{is_some}
use banking_management_syste.Customer.{change_pass_modifier, change_password}
use banking_management_syste.Employee.{
  Details, assign_details, modify_customer_modifier, modify_customer,
}
use banking_management_syste.Admin.{
  new_role, change_role_modifier, change_user_role, modify_user_modifier, modify_user,
}
use banking_management_syste.Loans.{user_of}
use banking_management_syste.Users.{unique, check_uniqueness_lem}

-- The role that an administrator may give a member of staff.
abbrev pub promoted : Text → User → Option User
promoted role_str u =
    if is_customer u.role || is_admin u.role
    then none
    else if streq role_str (codes "employee")
    then some (record u { role = employee })
    else if streq role_str (codes "manager")
    then some (record u { role = manager })
    else none

module _ {F : Type 0} where
  -- What an operation that changes user `k` to `goal`, if it allows the change, does at user `j`.
  abbrev pub Changes : ℕ → Option User → ℕ → World F → Bool × World F → Type 0
  Changes k goal j w (r, w') =
      (r ≡ w.users.accepts && is_some goal)
      × (user_of j w' ≡ (if r && (j == k) then goal else user_of j w))
      × (w' ≡ record w { users = w'.users; resp = w'.resp })

  abbrev pub changed_user : ℕ → (User → Option User) → World F → Option User
  changed_user k f w = elim (user_of k w) [ none ↦ none | some u ↦ f u ]

  module _ (m : User → M (World F) (Option User)) (f : User → Option User) (w : World F)
      (result : (a : User) → (m a w).0 ≡ f a) (keeps : (a : User) → Kept user_key a (f a))
      (quiet : (a : User) → (m a w).1 ≡ record w { resp = (m a w).1.resp }) where
    update_user-Changes : (k j : ℕ) → Changes k (changed_user k f w) j w (atomic_update_user k m w)
    unfolding atomic_update_user read_record
    update_user-Changes k j =
        elim (atomic_update-Updated users_db user_key k m w (λ a. ground (arith, quiet a))) [
          | inl (n, e) ↦ ground arith
          | inr (inl (a, q, (z, e))) ↦ ground (arith, result a, quiet a)
          | inr (inr (inl (a, b, q, z, failed, e))) ↦ ground (arith, result a, quiet a)
          | inr (inr (inr (a, b, rs, rs', q, z, r, v, ok, e))) ↦ ground (
            arith,
            result a,
            quiet a,
            keeps a,
            read-overwrite user_key j k b rs rs',
            read-key user_key k rs a,
          )
        ]

  -- A change of role succeeds exactly for a user who is neither a customer nor an administrator, with
  -- the role employee or manager, if the users file accepts the write. It changes the role of that
  -- user alone, and no other file.
  pub change_user_role-Changes :
      (k j : ℕ) (role_str : Text) (w : World F)
      → Changes k (changed_user k (promoted role_str) w) j w (change_user_role k role_str w)
  unfolding change_user_role change_role_modifier new_role
  change_user_role-Changes k j role_str w = ground (
    arith,
    update_user-Changes (change_role_modifier role_str) (promoted role_str) w (λ a. ground arith)
        (λ a. ground arith) (λ a. ground arith) k j,
  )

  -- A change of password succeeds exactly for an existing user, if the users file accepts the write. It
  -- replaces the stored hash of that user alone, and no other file.
  pub change_password-Changes :
      (crypt : Crypt) (k j : ℕ) (newpass : Text) (w : World F)
      → Changes k
          (changed_user k
            (λ u. some (record u { password_hash = generate_password_hash crypt newpass 128 }))
            w)
          j
          w
          (change_password crypt k newpass w)
  unfolding change_password change_pass_modifier
  change_password-Changes crypt k j newpass w = ground (
    arith,
    update_user-Changes (change_pass_modifier crypt newpass)
        (λ u. some (record u { password_hash = generate_password_hash crypt newpass 128 })) w
        (λ a. refl) (λ a. refl) (λ a. refl) k j,
  )

  -- The customer with the new details; none for another role, or if another user has the name, the
  -- new email or the new phone.
  abbrev pub redetailed : Details → World F → User → Option User
  redetailed det w u =
      if is_customer u.role && unique u.username det.email det.phone u.user_id w
      then some (assign_details det u)
      else none

  -- A change of a customer's details succeeds exactly for an existing user who is a customer, if no
  -- other user has the name, the new email or the new phone, and if the users file accepts the write.
  -- It changes the details of that user alone, and no other file.
  pub modify_customer-Changes :
      (k j : ℕ) (det : Details) (w : World F)
      → Changes k (changed_user k (redetailed det w) w) j w (modify_customer k det w)
  unfolding modify_customer modify_customer_modifier assign_details
  modify_customer-Changes k j det w = ground (
    arith,
    update_user-Changes (modify_customer_modifier det) (redetailed det w) w
        (λ a. ground (arith, check_uniqueness_lem a.username det.email det.phone a.user_id w))
        (λ a. ground arith)
        (λ a. ground (arith, check_uniqueness_lem a.username det.email det.phone a.user_id w)) k j,
  )

  -- The same change by an administrator, of a user of any role.
  abbrev pub redetailed_any : Details → World F → User → Option User
  redetailed_any det w u =
      if unique u.username det.email det.phone u.user_id w
      then some (assign_details det u)
      else none

  -- A change of a user's details by an administrator succeeds exactly for an existing user, if no other
  -- user has the name, the new email or the new phone, and if the users file accepts the write. It
  -- changes the details of that user alone, and no other file.
  pub modify_user-Changes :
      (k j : ℕ) (det : Details) (w : World F)
      → Changes k (changed_user k (redetailed_any det w) w) j w (modify_user k det w)
  unfolding modify_user modify_user_modifier assign_details
  modify_user-Changes k j det w = ground (
    arith,
    update_user-Changes (modify_user_modifier det) (redetailed_any det w) w
        (λ a. ground (arith, check_uniqueness_lem a.username det.email det.phone a.user_id w))
        (λ a. ground arith)
        (λ a. ground (arith, check_uniqueness_lem a.username det.email det.phone a.user_id w)) k j,
  )
