-- ===== src/Users.antt =====
-- The users file under src/employee_module.c and src/admin_module.c: fresh identifiers and distinct
-- credentials.
pub mod Creation
pub mod Changes
pub mod Customers
pub mod Login
use mathlib.Core.Path.{subst}
use banking_management_syste.Base.{
  ◌↔◌, ℕ, ◌+◌, ◌≤◌, ◌≡◌, refl, ◌≢◌, ◌⊎◌, Bool, false, none, List, [], ◌∷◌, ◌++◌, arith, length, All,
  inl, inr, true, ◌==◌, Bool-cases, Option-cases,
}
use banking_management_syste.Base.Text.{Text, streq, streq→eq, streq_refl, strncpy}
use banking_management_syste.Store.{Table, contents, write_record}
use banking_management_syste.Store.Rows.{find_offset_from, read_loop, find-none}
use banking_management_syste.Model.{World, User}
use banking_management_syste.Utils.{
  user_key, u32, find_clash, check_uniqueness, generate_new_user_id,
}
use banking_management_syste.Utils.Accounts.{is_some}

-- The users stand in the order of their identifiers, without gaps.
abbrev pub NumberedFrom : ℕ → List User → Type 0
NumberedFrom n [] = Unit
NumberedFrom n (u ∷ us) = (u.user_id ≡ n) × NumberedFrom (n + 1) us

pub read-NumberedFrom :
    (n : ℕ) (us : List User) (k : ℕ)
    → NumberedFrom n us
    → n + length us ≤ k
    → read_loop user_key k us ≡ none
unfolding read_loop
read-NumberedFrom n [] k h b = refl
read-NumberedFrom n (u ∷ us) k h b =
    ground (arith, read-NumberedFrom (n + 1) us k h.1 (omega arith))

pub NumberedFrom-append :
    (n : ℕ) (us : List User) (u : User)
    → NumberedFrom n us
    → u.user_id ≡ n + length us
    → NumberedFrom n (us ++ u ∷ [])
NumberedFrom-append n [] u h e = (omega arith, tt)
NumberedFrom-append n (v ∷ us) u h e = (h.0, NumberedFrom-append (n + 1) us u h.1 (omega arith))

-- Two users share no credential.
abbrev pub Differ : User → User → Type 0
Differ u v = (u.username ≢ v.username) × (u.email ≢ v.email) × (u.phone ≢ v.phone)

abbrev pub Distinct : List User → Type 0
Distinct [] = Unit
Distinct (u ∷ us) = All (Differ u) us × Distinct us

pub Distinct-append :
    (us : List User) (v : User) → Distinct us → All (λ u. Differ u v) us → Distinct (us ++ v ∷ [])
Distinct-append [] v d a = (tt, tt)
Distinct-append (u ∷ us) v d a = (extend us d.0, Distinct-append us v d.1 a.1)
  where
    extend : (vs : List User) → All (Differ u) vs → All (Differ u) (vs ++ v ∷ [])
    extend [] h = (a.0, tt)
    extend (w ∷ vs) h = (h.0, extend vs h.1)

-- A user other than `current` has neither the name nor the email nor the phone.
abbrev pub Apart : Text → Text → Text → ℕ → User → Type 0
Apart username email phone current u =
    (u.user_id ≡ current) ⊎ ((u.username ≢ username) × (u.email ≢ email) × (u.phone ≢ phone))

-- A user has neither the name nor the email nor the phone.
abbrev pub Unlike : Text → Text → Text → User → Type 0
Unlike username email phone u = (u.username ≢ username) × (u.email ≢ email) × (u.phone ≢ phone)

pub streq→ne : (s t : Text) → streq s t ≡ false → s ≢ t
streq→ne s t h e = cc (streq_refl s)

pub streq-ne : (s t : Text) → s ≢ t → streq s t ≡ false
streq-ne s t h = elim (Bool-cases (streq s t)) [ inl e ↦ absurd (h (streq→eq s t e)) | inr e ↦ e ]

-- A user of the file has a number of its own, which is not 0.
Apart-Unlike :
    (username email phone : Text) (n : ℕ) (us : List User)
    → 1 ≤ n
    → NumberedFrom n us
    → All (Apart username email phone 0) us
    → All (Unlike username email phone) us
Apart-Unlike username email phone n [] b h a = tt
Apart-Unlike username email phone n (u ∷ us) b (e, h) (inl z, a) = absurd (omega (arith, e, z))
Apart-Unlike username email phone n (u ∷ us) b (e, h) (inr d, a) =
    (d, Apart-Unlike username email phone (n + 1) us (omega arith) h a)

module _ {F : Type 0} where
  abbrev pub unique : Text → Text → Text → ℕ → World F → Bool
  unique username email phone current w = (check_uniqueness username email phone current w).0

  -- The search for a clash finds none only if every user is apart.
  find_clash-Apart :
      (username email phone : Text) (current : ℕ) (us : List User)
      → find_clash {F = F} username email phone current us ≡ none
      → All (Apart username email phone current) us
  unfolding find_clash
  find_clash-Apart username email phone current [] h = tt
  find_clash-Apart username email phone current (u ∷ us) h =
      elim (Bool-cases (u.user_id == current)) [
        | inl e ↦
            (inl (ground arith), find_clash-Apart username email phone current us (ground arith))
        | inr e ↦ (
          inr (
            streq→ne u.username username (ground arith),
            streq→ne u.email email (ground arith),
            streq→ne u.phone phone (ground arith),
          ),
          find_clash-Apart username email phone current us (ground arith),
        )
      ]

  pub unique-Apart :
      (username email phone : Text) (current : ℕ) (w : World F)
      → unique username email phone current w ≡ true
      → All (Apart username email phone current) (contents w.users)
  unfolding check_uniqueness
  unique-Apart username email phone current w h = elim (Option-cases w.users.rows) [
    | inl e ↦ rw e tt
    | inr (us, e) ↦ elim (Option-cases (find_clash {F = F} username email phone current us)) [
      | inl n ↦ rw e (find_clash-Apart username email phone current us n)
      | inr (m, n) ↦ absurd (ground arith)
    ]
  ]

  Unlike-find_clash :
      (username email phone : Text) (us : List User)
      → All (Unlike username email phone) us
      → find_clash {F = F} username email phone 0 us ≡ none
  unfolding find_clash
  Unlike-find_clash username email phone [] h = refl
  Unlike-find_clash username email phone (u ∷ us) h = ground (
    arith,
    streq-ne u.username username h.0.0,
    streq-ne u.email email h.0.1,
    streq-ne u.phone phone h.0.2,
    Unlike-find_clash username email phone us h.1,
  )

  -- A new user, who has no number yet, is told to be unique exactly if no numbered user shares a
  -- credential.
  pub unique-Unlike :
      (username email phone : Text) (w : World F)
      → NumberedFrom 1001 (contents w.users)
      → (unique username email phone 0 w ≡ true)
        ↔ All (Unlike username email phone) (contents w.users)
  unfolding check_uniqueness
  unique-Unlike username email phone w h = (
    λ e.
        Apart-Unlike username email phone 1001 (contents w.users) (omega arith) h
          (unique-Apart username email phone 0 w e),
    λ a. elim (Option-cases w.users.rows) [
      | inl e ↦ rw e refl
      | inr (us, e) ↦
          let same : contents w.users ≡ us = ground arith in
          ground (
            arith,
            e,
            Unlike-find_clash username email phone us
                (subst (All (Unlike username email phone)) same a),
          )
    ],
  )

  -- The check reads the users and touches only the response.
  pub check_uniqueness_lem :
      (username email phone : Text) (current : ℕ) (w : World F)
      → let w' = (check_uniqueness username email phone current w).1 in
        w' ≡ record w { resp = w'.resp }
  unfolding check_uniqueness
  check_uniqueness_lem username email phone current w = ground arith
