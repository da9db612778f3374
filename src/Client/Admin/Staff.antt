-- ===== src/Client/Admin/Staff.antt =====
-- New staff from the menu of src/client.c: which requests it sends, and what src/server.c makes of them.
use banking_management_syste.Base.{
  ℕ, ◌≤◌, ◌≡◌, refl, Bool, not, true, false, Option, none, some, [], ◌∷◌, arith, if◌then◌else◌,
  length, inl, inr, Option-cases,
}
use mathlib.Core.Path.{subst}
use banking_management_syste.Base.Text.{Text, codes, streq, streq→eq}
use banking_management_syste.Base.Decimal.{signed}
use banking_management_syste.Model.{World, Double}
use banking_management_syste.Listing.{Printf}
use banking_management_syste.Store.{contents}
use banking_management_syste.Utils.{Crypt, generate_new_user_id}
use banking_management_syste.Users.{check_uniqueness_lem}
use banking_management_syste.Employee.{Details}
use banking_management_syste.Admin.{add_employee, staff_role}
use banking_management_syste.Server.{Request}
use banking_management_syste.Server.Routes.{op_of, op_in, Libc, serve, run}
use banking_management_syste.Client.Validators.{
  validators_lem, max_addr_len, max_email_len, max_fname_len, max_password_len, max_phone_len,
  max_role_str, max_username_len, validate_address, validate_credential, validate_email,
  validate_name_part, validate_phone,
}
use banking_management_syste.Client.Terminal.{
  prompt, clear, read_int, Terminal, Term, pure, ◌>>=◌, request, join,
}
use banking_management_syste.Client.Admin.{employee_fields, ask_new_employee}
use banking_management_syste.Client.Payload.{IsWord, IsScanf, shown_word, shown_d, last, more}
use banking_management_syste.Client.Served.{IsAccepted, IsAccepted-lengths, length-join, scanned}

-- Every value that the step gives satisfies the predicate.
data Yields {A : Type 0} (P : A → Type 0) (m : Term A) : Type 0 where
  yields : ((input rest : Text) (a : A) → m input ≡ some (a, rest) → P a) → Yields P m

given :
    {A : Type 0} {P : A → Type 0} {m : Term A}
    → Yields P m
    → (input rest : Text) (a : A) → m input ≡ some (a, rest)
    → P a
given (yields h) = h

pure-Yields : {A : Type 0} {P : A → Type 0} (a : A) → P a → Yields P (pure a)
pure-Yields {P} a h = yields (λ input rest b e. let same : a ≡ b = ground arith in subst P same h)

bind-Yields :
    {A B : Type 0} {P : B → Type 0} (m : Term A) {f : A → Term B}
    → ((a : A) → Yields P (f a))
    → Yields P (m >>= f)
bind-Yields m {f} k = yields λ input rest b e. elim (Option-cases (m input)) [
  | inl n ↦ absurd (ground arith)
  | inr ((a, mid), q) ↦
      let later : f a mid ≡ some (b, rest) = ground arith in given (k a) mid rest b later
]

if_not-Yields :
    {A : Type 0} {P : A → Type 0} (b : Bool) {m n : Term A}
    → Yields P m
    → (b ≡ true → Yields P n)
    → Yields P (if not b then m else n)
if_not-Yields true h k = k refl
if_not-Yields false h k = h

-- A request, if there is one, is for a new member of staff in the role of a customer.
abbrev AsksCustomer : Option Request → Type 0
AsksCustomer none = Unit {0}
AsksCustomer (some req) =
    (det : Details) × (username : Text) × (password : Text) × (req
      ≡ request "ADD_EMPLOYEE" (employee_fields det (codes "customer") username password))

module _ {F : Type 0} (t : Terminal F) where
  ask_new_employee-Yields : Yields AsksCustomer (ask_new_employee t)
  unfolding ask_new_employee
  ask_new_employee-Yields = bind-Yields (prompt t max_fname_len validate_name_part) λ fname.
      bind-Yields (prompt t max_fname_len validate_name_part) λ lname.
        bind-Yields (read_int t) λ age. bind-Yields clear λ u.
          bind-Yields (prompt t max_addr_len validate_address) λ address.
            bind-Yields (prompt t max_role_str validate_credential) λ role.
              if_not-Yields (streq role (codes "customer")) (pure-Yields none tt) λ is.
                bind-Yields (prompt t max_email_len validate_email) λ email.
                  bind-Yields (prompt t max_phone_len validate_phone) λ phone.
                    bind-Yields (prompt t max_username_len validate_credential) λ username.
                      bind-Yields (prompt t max_password_len validate_credential) λ password.
                        let det : Details = record {
                          first_name = fname;
                          last_name = lname;
                          age = age;
                          address = address;
                          email = email;
                          phone = phone;
                        } in
                        pure-Yields
                          (some
                            (request "ADD_EMPLOYEE" (employee_fields det role username password)))
                          (det, username, password, rw (streq→eq role (codes "customer") is) refl)

  -- Whatever is typed, the only requests for a new member of staff that the client sends ask for the
  -- role of a customer.
  pub ask_new_employee-customer :
      (input rest : Text) (req : Request)
      → ask_new_employee t input ≡ some (some req, rest)
      → (det : Details) × (username : Text) × (password : Text) × (req
          ≡ request "ADD_EMPLOYEE" (employee_fields det (codes "customer") username password))
  ask_new_employee-customer input rest req e = given ask_new_employee-Yields input rest (some req) e

length-employee_fields :
    (det : Details) (role username password : Text)
    → IsAccepted det
    → validate_credential role ≡ none
    → validate_credential username ≡ none
    → validate_credential password ≡ none
    → length (join (employee_fields det role username password)) ≤ 662
length-employee_fields det role username password h hr hu hp = ground (
  arith,
  IsAccepted-lengths det h,
  validators_lem role,
  validators_lem username,
  validators_lem password,
  length-join det.first_name det.last_name
      (signed det.age ∷ det.address ∷ role ∷ det.email ∷ det.phone ∷ username ∷ password ∷ []),
  length-join det.last_name (signed det.age)
      (det.address ∷ role ∷ det.email ∷ det.phone ∷ username ∷ password ∷ []),
  length-join (signed det.age) det.address
      (role ∷ det.email ∷ det.phone ∷ username ∷ password ∷ []),
  length-join det.address role (det.email ∷ det.phone ∷ username ∷ password ∷ []),
  length-join role det.email (det.phone ∷ username ∷ password ∷ []),
  length-join det.email det.phone (username ∷ password ∷ []),
  length-join det.phone username (password ∷ []),
  length-join username password [],
)

module _ {F : Type 0} ⦃o : Double F⦄ ⦃p : Printf F⦄ (lib : Libc F) (print_double : F → Text)
    (reads_back : F → Type 0) (law : IsScanf print_double reads_back lib.scanf) (now : ℕ) where
  -- The request for a new member of staff, if the prompts accept the answers and no answer has white
  -- space, makes the server add the member of staff that was typed.
  pub add_employee-served :
      (det : Details) (role username password : Text)
      → IsAccepted det
      → validate_credential role ≡ none
      → validate_credential username ≡ none
      → validate_credential password ≡ none
      → IsWord det.first_name
      → IsWord det.last_name
      → IsWord det.address
      → IsWord role
      → IsWord det.email
      → IsWord det.phone
      → IsWord username
      → IsWord password
      → let req = request "ADD_EMPLOYEE" (employee_fields det role username password) in
        serve lib now (op_of req.op) req.payload
        ≡ run (add_employee lib.crypt det role username password now)
  unfolding serve op_of op_in streq
  add_employee-served det role username password h hr hu hp wf wl wa wr we wp wu ww =
      let vals =
        scanned lib print_double reads_back law now
          (omega (arith, length-employee_fields det role username password h hr hu hp))
          (more (shown_word wf) (
            more (shown_word wl) (
              more (shown_d h.age_ok) (
                more (shown_word wa) (
                  more (shown_word wr) (
                    more (shown_word we)
                      (more (shown_word wp) (more (shown_word wu) (last (shown_word ww)))))))))) in
      rw vals refl

-- Where the role is that of a customer the function for new staff adds nobody: it fails, and the users
-- stay as they were.
pub add_employee-refused :
    {F : Type 0} (crypt : Crypt) (det : Details) (username password : Text) (now : ℕ) (w : World F)
    → let (done, w') = add_employee crypt det (codes "customer") username password now w in
      (done ≡ false) × (contents w'.users ≡ contents w.users)
unfolding add_employee staff_role streq generate_new_user_id
add_employee-refused crypt det username password now w =
    ground (arith, check_uniqueness_lem username det.email det.phone 0 w)
