-- ===== src/Users/Creation.antt =====
-- New users: staff and customers.
use banking_management_syste.Base.{
  ℕ, ◌+◌, ◌^◌, ◌<◌, ◌≡◌, inl, inr, ◌&&◌, none, some, [], ◌∷◌, ◌++◌, arith, if◌then◌else◌,
  Option-cases, length, refl, ◌≤◌, ◌∙◌, List, All, sym, ◌⊎◌, true, false, Option, Bool-cases,
  take_all,
}
use mathlib.Core.Path.{subst}
use banking_management_syste.Base.Text.{Text}
use banking_management_syste.Store.{Table, contents, write_record}
use banking_management_syste.Store.Rows.{find-none}
use banking_management_syste.Model.{World, User, Role}
use banking_management_syste.Utils.{
  Crypt, user_key, u32, generate_new_user_id, generate_password_hash, write_user,
}
use banking_management_syste.Utils.Accounts.{is_some}
use banking_management_syste.Employee.{Details}
use banking_management_syste.Admin.{staff_role, new_staff, add_employee}
use banking_management_syste.Users.{
  NumberedFrom, read-NumberedFrom, NumberedFrom-append, Differ, Distinct, Distinct-append, Apart,
  unique, unique-Apart, check_uniqueness_lem,
}

-- The identifiers run from 1001 without gaps, and no two users share a credential.
abbrev pub ValidUsers : List User → Type 0
ValidUsers us = NumberedFrom 1001 us × Distinct us

abbrev pub IsValid : {F : Type 0} → World F → Type 0
IsValid w = ValidUsers (contents w.users)

abbrev pub HasRoom : {F : Type 0} → World F → Type 0
HasRoom w = 1001 + length (contents w.users) < 2 ^ 32

-- A user with the next identifier is appended.
pub write_record_new :
    (u : User) (t : Table User)
    → NumberedFrom 1001 (contents t)
    → u.user_id ≡ 1001 + length (contents t)
    → contents (write_record user_key u t)
      ≡ (if t.accepts then contents t ++ u ∷ [] else contents t)
unfolding write_record
write_record_new u t h e = ground (
  arith,
  find-none user_key u.user_id (contents t),
  read-NumberedFrom 1001 (contents t) u.user_id h,
)

-- The texts of a new user fit their fields, so that nothing is cut off.
abbrev pub Fits : Text → Text → Text → Type 0
Fits username email phone = (length username ≤ 63) × (length email ≤ 63) × (length phone ≤ 15)

All-Differ :
    (n : ℕ) (us : List User) (v : User) (username email phone : Text)
    → NumberedFrom (n + 1) us
    → All (Apart username email phone 0) us
    → v.username ≡ username
    → v.email ≡ email
    → v.phone ≡ phone
    → All (λ u. Differ u v) us
All-Differ n [] v username email phone h a p q r = tt
All-Differ n (u ∷ us) v username email phone h ((inl z), a) p q r = absurd (omega (arith, h.0, z))
All-Differ n (u ∷ us) v username email phone h ((inr (x, y, z)), a) p q r = (
  ((λ e. x (e ∙ p)), (λ e. y (e ∙ q)), (λ e. z (e ∙ r))),
  All-Differ (n + 1) us v username email phone h.1 a p q r,
)

-- A new user with the next identifier and credentials that nobody has keeps the users valid.
pub ValidUsers-append :
    (us : List User) (v : User) (username email phone : Text)
    → ValidUsers us
    → v.user_id ≡ 1001 + length us
    → All (Apart username email phone 0) us
    → v.username ≡ username
    → v.email ≡ email
    → v.phone ≡ phone
    → ValidUsers (us ++ v ∷ [])
ValidUsers-append us v username email phone h e a p q r = (
  NumberedFrom-append 1001 us v h.0 e,
  Distinct-append us v h.1 (All-Differ 1000 us v username email phone h.0 a p q r),
)

module _ {F : Type 0} where
  -- The identifier that a new user gets.
  abbrev pub next_id : World F → ℕ
  next_id w = 1001 + length (contents w.users)

  pub u32-next_id : (w : World F) → HasRoom w → u32 (1001 + length (contents w.users)) ≡ next_id w
  u32-next_id w room = omega arith

  -- The users file after O_CREAT.
  abbrev pub opened : World F → Table User
  opened w = record (w.users) { rows = some (contents w.users) }

  -- `add_employee` says yes exactly if the role is one of the three and no user has the name, the
  -- email or the phone. The new record then stands at the end of the file under the next identifier,
  -- but is missing where the file did not accept the write.
  pub add_employee_lem :
      (crypt : Crypt) (det : Details) (role_str username password : Text) (now : ℕ) (w : World F)
      → NumberedFrom 1001 (contents w.users)
      → HasRoom w
      → let (r, w') = add_employee crypt det role_str username password now w in
        (r ≡ unique username det.email det.phone 0 w && is_some (staff_role role_str))
        × (contents w'.users ≡ elim (staff_role role_str) [
          | none ↦ contents w.users
          | some role ↦
              if unique username det.email det.phone 0 w && w.users.accepts
              then contents w.users
                ++ new_staff det username
                    (generate_password_hash crypt password 128)
                    role
                    (next_id w)
                    now
                  ∷ []
              else contents w.users
        ])
        × (w'.accounts ≡ w.accounts)
  unfolding add_employee generate_new_user_id write_user
  add_employee_lem crypt det role_str username password now w h room =
      elim (Option-cases (staff_role role_str)) [
        | inl e ↦ ground (arith, check_uniqueness_lem username det.email det.phone 0 w)
        | inr (role, e) ↦ ground (
          arith,
          check_uniqueness_lem username det.email det.phone 0 w,
          u32-next_id w room,
          write_record_new
              (new_staff det username (generate_password_hash crypt password 128) role (next_id w)
                now)
              (opened w) h refl,
        )
      ]

  -- Adding staff keeps the users file valid: identifiers without gaps, and no shared credential, if
  -- the new credentials fit their fields and the next identifier fits in 32 bits.
  pub add_employee-IsValid :
      (crypt : Crypt) (det : Details) (role_str username password : Text) (now : ℕ) (w : World F)
      → Fits username det.email det.phone
      → HasRoom w
      → IsValid w
      → IsValid (add_employee crypt det role_str username password now w).1
  add_employee-IsValid crypt det role_str username password now w (fu, fe, fp) room v =
      let (_, e, _) = add_employee_lem crypt det role_str username password now w v.0 room in
      subst ValidUsers (sym e) (go (staff_role role_str) (Bool-cases _))
    where
      new : Role → User
      new role =
          new_staff det username (generate_password_hash crypt password 128) role (next_id w) now

      go :
          (r : Option Role)
          → (unique username det.email det.phone 0 w && w.users.accepts ≡ true)
            ⊎ (unique username det.email det.phone 0 w && w.users.accepts ≡ false)
          → ValidUsers (elim r [
            | none ↦ contents w.users
            | some role ↦
                if unique username det.email det.phone 0 w && w.users.accepts
                then contents w.users ++ new role ∷ []
                else contents w.users
          ])
      go none c = v
      go (some role) (inr c) = rw c v
      go (some role) (inl c) = rw c (
          ValidUsers-append (contents w.users) (new role) username det.email det.phone v refl
            (unique-Apart username det.email det.phone 0 w (ground arith)) (take_all 63 username fu)
            (take_all 63 det.email fe) (take_all 15 det.phone fp))
