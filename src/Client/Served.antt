-- ===== src/Client/Served.antt =====
-- Requests of src/client.c as src/server.c reads them: which function is called, with what.
use banking_management_syste.Base.{
  ℕ, ◌+◌, ◌^◌, ◌≤◌, ◌<◌, ◌≡◌, refl, ap, ◌∙◌, none, List, [], ◌∷◌, ◌++◌, arith, length, take,
  take_all, length-append, ◌%◌,
}
use mathlib.Core.List.{append_assoc}
use banking_management_syste.Base.Text.{Text, streq}
use banking_management_syste.Base.Decimal.{decimal, signed}
use banking_management_syste.Model.{World, Double, User, customer, active}
use banking_management_syste.Listing.{Printf}
use banking_management_syste.Employee.{Details, add_new_customer}
use banking_management_syste.Server.Routes.{
  op_of, op_in, Conv, Val, d, s, Libc, blank_user, run, invalid, serve,
}
use banking_management_syste.Client.Validators.{
  validate_name_part, validate_address, validate_email, validate_phone, validate_credential,
  validators_lem,
}
use banking_management_syste.Client.Terminal.{join, request}
use banking_management_syste.Client.Employee.{customer_fields, modify_fields}
use banking_management_syste.Client.Payload.{
  IsWord, shown_word, shown_u, shown_d, IsScanf, ShowAll, last, more, unread, scanf-join,
  length-signed, length-decimal,
}

-- The answers that the prompts for a person's details accept.
pub record IsAccepted (det : Details) : Type 0 where
  pub first_ok : validate_name_part det.first_name ≡ none
  pub last_ok : validate_name_part det.last_name ≡ none
  pub age_ok : det.age < 2 ^ 32
  pub address_ok : validate_address det.address ≡ none
  pub email_ok : validate_email det.email ≡ none
  pub phone_ok : validate_phone det.phone ≡ none

-- The record that the server fills in before it adds a customer, with the answers as typed.
abbrev pub typed_user : Details → User
typed_user det = record {
  user_id = 0;
  username = [];
  password_hash = [];
  role = customer;
  first_name = det.first_name;
  last_name = det.last_name;
  age = det.age;
  address = det.address;
  email = det.email;
  phone = det.phone;
  active = active;
  created_at = 0;
}

-- Answers that the fields of a user hold with a final zero byte.
pub record FitsUser (det : Details) : Type 0 where
  pub first_fits : length det.first_name ≤ 62
  pub last_fits : length det.last_name ≤ 62
  pub age_fits : det.age ≤ 255
  pub address_fits : length det.address ≤ 254
  pub email_fits : length det.email ≤ 62
  pub phone_fits : length det.phone ≤ 14

blank_user-typed : (det : Details) → FitsUser det → blank_user det ≡ typed_user det
blank_user-typed det h =
    let small : det.age % 256 ≡ det.age = omega (arith, h.age_fits) in
    rw
      (
        take_all 63 det.first_name (omega (arith, h.first_fits)),
        take_all 63 det.last_name (omega (arith, h.last_fits)),
        small,
        take_all 255 det.address (omega (arith, h.address_fits)),
        take_all 63 det.email (omega (arith, h.email_fits)),
        take_all 15 det.phone (omega (arith, h.phone_fits)),
      )
      refl

-- The lengths of the accepted answers.
pub IsAccepted-lengths :
    (det : Details)
    → IsAccepted det
    → (length det.first_name ≤ 63)
      × (length det.last_name ≤ 63)
      × (length (signed det.age) ≤ 11)
      × (length det.address ≤ 255)
      × (length det.email ≤ 63)
      × (length det.phone ≤ 10)
IsAccepted-lengths det h = ground (
  arith,
  h.first_ok,
  h.last_ok,
  h.address_ok,
  h.email_ok,
  h.phone_ok,
  length-signed det.age h.age_ok,
  validators_lem det.first_name,
  validators_lem det.last_name,
  validators_lem det.address,
  validators_lem det.email,
  validators_lem det.phone,
)

pub length-join :
    (w v : Text) (ws : List Text)
    → length (join (w ∷ v ∷ ws)) ≡ length w + (length (join (v ∷ ws)) + 1)
length-join w v ws = omega (arith, length-append w (b' ' ∷ join (v ∷ ws)))

-- The payload of a new customer whose answers the prompts accept is never cut off: it has at most 598
-- bytes.
pub customer_fields-fits :
    (det : Details) (username password : Text)
    → IsAccepted det
    → validate_credential username ≡ none
    → validate_credential password ≡ none
    → length (join (customer_fields det username password)) ≤ 598
customer_fields-fits det username password h hu hp = ground (
  arith,
  IsAccepted-lengths det h,
  validators_lem username,
  validators_lem password,
  length-join det.first_name det.last_name
      (signed det.age ∷ det.address ∷ det.email ∷ det.phone ∷ username ∷ password ∷ []),
  length-join det.last_name (signed det.age)
      (det.address ∷ det.email ∷ det.phone ∷ username ∷ password ∷ []),
  length-join (signed det.age) det.address (det.email ∷ det.phone ∷ username ∷ password ∷ []),
  length-join det.address det.email (det.phone ∷ username ∷ password ∷ []),
  length-join det.email det.phone (username ∷ password ∷ []),
  length-join det.phone username (password ∷ []),
  length-join username password [],
)

modify_fields-fits :
    (user_id : ℕ) (det : Details)
    → user_id < 2 ^ 32
    → IsAccepted det
    → length (join (modify_fields user_id det)) ≤ 481
modify_fields-fits user_id det hi h = ground (
  arith,
  IsAccepted-lengths det h,
  length-decimal user_id hi,
  length-join (decimal user_id) (signed det.age)
      (det.first_name ∷ det.last_name ∷ det.address ∷ det.email ∷ det.phone ∷ []),
  length-join (signed det.age) det.first_name
      (det.last_name ∷ det.address ∷ det.email ∷ det.phone ∷ []),
  length-join det.first_name det.last_name (det.address ∷ det.email ∷ det.phone ∷ []),
  length-join det.last_name det.address (det.email ∷ det.phone ∷ []),
  length-join det.address det.email (det.phone ∷ []),
  length-join det.email det.phone [],
)

module _ {F : Type 0} ⦃o : Double F⦄ ⦃p : Printf F⦄ (lib : Libc F) (print_double : F → Text)
    (reads_back : F → Type 0) (law : IsScanf print_double reads_back lib.scanf) (now : ℕ) where
  -- What the server's conversions get from a request whose fields fit.
  pub scanned :
      {cs : List Conv} {vs : List (Val F)} {texts : List Text}
      → length (join texts) ≤ 1023
      → ShowAll print_double reads_back cs vs texts
      → lib.scanf cs (take 1023 (join texts)) ≡ vs
  scanned {cs} {vs} {texts} fits shown =
      ap (lib.scanf cs) (take_all 1023 (join texts) fits)
      ∙ scanf-join print_double reads_back law shown

  -- The request for a new customer makes the server call the function that adds a customer with exactly
  -- the details, the user name and the password that were typed, if the prompts accept the answers, no
  -- answer has white space, the age is at most 255, and each text leaves room for a final zero byte in
  -- its field.
  pub add_customer-served :
      (det : Details) (username password : Text)
      → IsAccepted det
      → FitsUser det
      → validate_credential username ≡ none
      → validate_credential password ≡ none
      → IsWord det.first_name
      → IsWord det.last_name
      → IsWord det.address
      → IsWord det.email
      → IsWord det.phone
      → IsWord username
      → IsWord password
      → let req = request "ADD_CUSTOMER" (customer_fields det username password) in
        serve lib now (op_of req.op) req.payload
        ≡ run (add_new_customer lib.crypt (typed_user det) username password now)
  unfolding serve op_of op_in streq
  add_customer-served det username password h f hu hp wf wl wa we wp wu ww =
      let vals = scanned (omega (arith, customer_fields-fits det username password h hu hp)) (
        more (shown_word wf) (
          more (shown_word wl) (
            more (shown_d h.age_ok) (
              more (shown_word wa) (
                more (shown_word we)
                  (more (shown_word wp) (more (shown_word wu) (last (shown_word ww))))))))) in
      rw (vals, blank_user-typed det f) refl

  -- Where the email that was typed is two words, which its prompt accepts if they have an at sign and a
  -- full stop, the server calls the function that adds a customer with the phone number for a user name,
  -- the user name for a password, the first word for an email and the second for a phone number. The
  -- other answers have no white space, the age is at most 255, and each text, the second word as a phone
  -- number, leaves room for a final zero byte in its field.
  pub add_customer-misread :
      (det : Details) (first second username password : Text)
      → det.email ≡ first ++ b' ' ∷ second
      → IsAccepted det
      → FitsUser (record det { email = first; phone = second })
      → validate_credential username ≡ none
      → validate_credential password ≡ none
      → IsWord det.first_name
      → IsWord det.last_name
      → IsWord det.address
      → IsWord first
      → IsWord second
      → IsWord det.phone
      → IsWord username
      → let req = request "ADD_CUSTOMER" (customer_fields det username password) in
        serve lib now (op_of req.op) req.payload
        ≡ run (
            add_new_customer lib.crypt
              (typed_user (record det { email = first; phone = second }))
              det.phone
              username
              now)
  unfolding serve op_of op_in streq
  add_customer-misread det first second username password split h f hu hp wf wl wa w1 w2 wp wu =
      let texts =
        det.first_name
        ∷ det.last_name
        ∷ signed det.age
        ∷ det.address
        ∷ first
        ∷ second
        ∷ det.phone
        ∷ username
        ∷ password
        ∷ [] in
      let same : join (customer_fields det username password) ≡ join texts =
        simp (split, append_assoc) in
      let fits : length (join texts) ≤ 1023 =
        omega (arith, ap length same, customer_fields-fits det username password h hu hp) in
      let vals =
        ap (λ t. lib.scanf (s ∷ s ∷ d ∷ s ∷ s ∷ s ∷ s ∷ s ∷ []) (take 1023 t)) same
        ∙ scanned fits (
            more (shown_word wf) (
              more (shown_word wl) (
                more (shown_d h.age_ok) (
                  more (shown_word wa) (
                    more (shown_word w1) (
                      more (shown_word w2) (
                        more (shown_word wp)
                          (unread {next = password} {texts = []} (shown_word wu))))))))) in
      rw (vals, blank_user-typed (record det { email = first; phone = second }) f) refl

  -- The request for a change of a user's details is refused by the server, whatever was typed, if no
  -- answer has white space: with status 1, and without a change to a file.
  pub modify_user-refused :
      (user_id : ℕ) (det : Details) (w : World F)
      → user_id < 2 ^ 32
      → IsAccepted det
      → IsWord det.first_name
      → IsWord det.last_name
      → IsWord det.address
      → IsWord det.email
      → IsWord det.phone
      → let req = request "MODIFY_USER" (modify_fields user_id det) in
        serve lib now (op_of req.op) req.payload w
        ≡ invalid "MODIFY_USER: Invalid payload format." w
  unfolding serve op_of op_in streq
  modify_user-refused user_id det w hi h wf wl wa we wp =
      let vals = scanned (omega (arith, modify_fields-fits user_id det hi h)) (
        more (shown_u hi) (
          more (shown_d h.age_ok) (
            more (shown_word wf) (
              more (shown_word wl)
                (more (shown_word wa) (more (shown_word we) (last (shown_word wp)))))))) in
      rw vals refl
