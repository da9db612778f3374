-- ===== src/Client/Routed.antt =====
-- The requests of the menus of src/client.c against the functions of the modules of src/ that they are
-- meant to call.
pub mod Choices
pub mod Calls
use banking_management_syste.Base.{
  ℕ, zero, suc, ◌/◌, ◌%◌, ◌+◌, ◌^◌, ◌≤◌, ◌<◌, ◌≡◌, ◌≢◌, refl, ap, ◌∙◌, some, List, [], ◌∷◌, ◌++◌,
  arith, length, take_all, All,
}
use Prim.Native.String.{String}
use banking_management_syste.Base.Text.{Text, streq}
use banking_management_syste.Base.Decimal.{digits, decimal, signed}
use banking_management_syste.Model.{World, Double}
use banking_management_syste.Store.{M}
use banking_management_syste.Listing.{Printf}
use banking_management_syste.Customer.{
  transfer_funds, change_password, view_balance, deposit_money, withdraw_money, apply_loan,
  add_feedback, view_personal_details,
}
use banking_management_syste.Customer.Views.{
  view_loan_status, view_feedback_status, view_transaction_history,
}
use banking_management_syste.Employee.{
  approve_reject_loan, view_assigned_loans, process_loans, view_customer_transactions,
}
use banking_management_syste.Manager.{
  set_account_status, view_non_assigned_loans, assign_loan_to_employee, review_feedbacks,
}
use banking_management_syste.Admin.{list_all_users, change_user_role}
use banking_management_syste.Server.Routes.{op_of, op_in, u, word, Libc, run, serve, after_blank}
use banking_management_syste.Client.Terminal.{join, request}
use banking_management_syste.Client.Payload.{
  IsWord, shown_word, shown_u, shown_llu, shown_lf, IsScanf, last, more,
}
use banking_management_syste.Client.Served.{scanned}

All-append :
    (a b : Text) → All (λ c. c ≢ b' ') a → All (λ c. c ≢ b' ') b → All (λ c. c ≢ b' ') (a ++ b)
All-append [] b h k = k
All-append (c ∷ a) b h k = (h.0, All-append a b h.1 k)

digits-All : (fuel n : ℕ) → All (λ c. c ≢ b' ') (digits fuel n)
unfolding digits
digits-All zero n = tt
digits-All (suc fuel) n =
    ground
      (arith, All-append (digits fuel (n / 10)) ((b'0' + n % 10) ∷ []) (digits-All fuel (n / 10)))

decimal-All : (n : ℕ) → All (λ c. c ≢ b' ') (decimal n)
unfolding decimal
decimal-All n = digits-All (suc n) n

signed-small : (n : ℕ) → n < 2 ^ 31 → signed n ≡ decimal n
unfolding signed
signed-small n h = ground (arith, h)

after_blank-word :
    (w rest : Text) → All (λ c. c ≢ b' ') w → after_blank (w ++ b' ' ∷ rest) ≡ some rest
unfolding after_blank
after_blank-word [] rest h = ground arith
after_blank-word (c ∷ w) rest h = ground (arith, h.0, after_blank-word w rest h.1)

module _ {F : Type 0} ⦃o : Double F⦄ ⦃p : Printf F⦄ (lib : Libc F) (print_double : F → Text)
    (reads_back : F → Type 0) (now : ℕ) where
  -- The operation and the fields of a request, and what it is meant to do: one constructor for each
  -- request of the menus but for the login, the logout and those with a person's details. Numbers fit
  -- their conversions, amounts are read back as printed, and words have no white space and fit the
  -- router's buffers; a feedback is any text.
  pub data Means : String → List Text → M (World F) ℕ → Type 0 where
    asks_balance :
        {n : ℕ} → n < 2 ^ 31 → Means "VIEW_BALANCE" (signed n ∷ []) (run (view_balance n))
    asks_deposit :
        {n : ℕ} {x : F}
        → n < 2 ^ 32
        → reads_back x
        → Means "DEPOSIT" (decimal n ∷ print_double x ∷ []) (run (deposit_money n x now))
    asks_withdraw :
        {n : ℕ} {x : F}
        → n < 2 ^ 32
        → reads_back x
        → Means "WITHDRAW" (decimal n ∷ print_double x ∷ []) (run (withdraw_money n x now))
    asks_transfer :
        {n to_id : ℕ} {x : F}
        → n < 2 ^ 32
        → to_id < 2 ^ 32
        → reads_back x
        → Means "TRANSFER"
            (decimal n ∷ decimal to_id ∷ print_double x ∷ [])
            (run (transfer_funds n to_id x now))
    asks_apply :
        {n : ℕ} {x : F}
        → n < 2 ^ 32
        → reads_back x
        → Means "APPLY_LOAN" (decimal n ∷ print_double x ∷ []) (run (apply_loan n x now))
    asks_loans :
        {n : ℕ} → n < 2 ^ 32 → Means "VIEW_LOAN" (decimal n ∷ []) (run (view_loan_status n))
    tells :
        {n : ℕ} {text : Text}
        → n < 2 ^ 32
        → Means "ADD_FEEDBACK" (decimal n ∷ text ∷ []) (run (add_feedback n text now))
    asks_feedback :
        {n : ℕ} → n < 2 ^ 32 → Means "VIEW_FEEDBACK" (decimal n ∷ []) (run (view_feedback_status n))
    asks_history :
        {n : ℕ}
        → n < 2 ^ 32
        → Means "VIEW_TRANSACTIONS" (decimal n ∷ []) (run (view_transaction_history n))
    asks_details :
        {n : ℕ} → n < 2 ^ 32 → Means "VIEW_DETAILS" (decimal n ∷ []) (run (view_personal_details n))
    asks_password :
        {n : ℕ} {newpass : Text}
        → n < 2 ^ 32
        → IsWord newpass
        → length newpass ≤ 127
        → Means "CHANGE_PASSWORD"
            (decimal n ∷ newpass ∷ [])
            (run (change_password lib.crypt n newpass))
    asks_process : Means "PROCESS_LOANS" [] (run process_loans)
    asks_decision :
        {loan n : ℕ} {action : Text}
        → loan < 2 ^ 64
        → IsWord action
        → length action ≤ 31
        → n < 2 ^ 32
        → Means "APPROVE_REJECT_LOAN"
            (decimal loan ∷ action ∷ decimal n ∷ [])
            (run (approve_reject_loan loan action n now))
    asks_assigned :
        {n : ℕ}
        → n < 2 ^ 32
        → Means "VIEW_ASSIGNED_LOANS" (decimal n ∷ []) (run (view_assigned_loans n))
    asks_transactions :
        {n : ℕ}
        → n < 2 ^ 32
        → Means "VIEW_CUST_TRANSACTIONS"
            (decimal n ∷ [])
            (run (view_customer_transactions lib.history_title n))
    asks_status :
        {n status : ℕ}
        → n < 2 ^ 32
        → status < 2 ^ 32
        → Means "SET_ACCOUNT_STATUS"
            (decimal n ∷ decimal status ∷ [])
            (run (set_account_status n status))
    asks_pending : Means "VIEW_NON_ASSIGNED_LOANS" [] (run view_non_assigned_loans)
    asks_assignment :
        {loan n : ℕ}
        → loan < 2 ^ 32
        → n < 2 ^ 32
        → Means "ASSIGN_LOAN" (decimal loan ∷ decimal n ∷ []) (run (assign_loan_to_employee loan n))
    asks_review : Means "REVIEW_FEEDBACK" [] (run review_feedbacks)
    asks_users : Means "LIST_USERS" [] (run list_all_users)
    asks_role :
        {n : ℕ} {role : Text}
        → n < 2 ^ 32
        → IsWord role
        → length role ≤ 31
        → Means "CHANGE_ROLE" (decimal n ∷ role ∷ []) (run (change_user_role n role))

  module _ (law : IsScanf print_double reads_back lib.scanf) where
    -- Every request of the menus but for the login, the logout and those with a person's details makes
    -- the server call the function that it is meant for, with the numbers, the amount and the words of
    -- the client, if its payload is not cut off, its numbers fit, its amount is read back as printed and
    -- its words have no white space and fit their buffers. The text of a feedback may have white space.
    pub request-Means :
        (op : String) (fields : List Text) (m : M (World F) ℕ)
        → Means op fields m
        → length (join fields) ≤ 1023
        → let req = request op fields in serve lib now (op_of req.op) req.payload ≡ m
    unfolding serve op_of op_in streq
    request-Means op fields m (asks_balance {n} h) fits =
        let same : signed n ≡ decimal n = signed-small n h in
        let fits' : length (join (decimal n ∷ [])) ≤ 1023 = omega (arith, fits, ap length same) in
        rw
          (
            same,
            scanned lib print_double reads_back law now fits' (last (shown_u (omega (arith, h)))),
          )
          refl
    request-Means op fields m (asks_deposit h b) fits =
        rw (scanned lib print_double reads_back law now fits (more (shown_u h) (last (shown_lf b))))
          refl
    request-Means op fields m (asks_withdraw h b) fits =
        rw (scanned lib print_double reads_back law now fits (more (shown_u h) (last (shown_lf b))))
          refl
    request-Means op fields m (asks_transfer h k b) fits =
        rw
          (scanned lib print_double reads_back law now fits
            (more (shown_u h) (more (shown_u k) (last (shown_lf b)))))
          refl
    request-Means op fields m (asks_apply h b) fits =
        rw (scanned lib print_double reads_back law now fits (more (shown_u h) (last (shown_lf b))))
          refl
    request-Means op fields m (asks_loans h) fits =
        rw (scanned lib print_double reads_back law now fits (last (shown_u h))) refl
    request-Means op fields m (tells {n} {text} h) fits =
        let vals : lib.scanf (u ∷ []) (decimal n ++ b' ' ∷ text) ≡ word n ∷ [] =
          law.at_space u [] (word n) (decimal n) text (shown_u h)
          ∙ ap (word n ∷◌) (law.nothing text) in
        let whole = take_all 1023 (join (decimal n ∷ text ∷ [])) fits in
        rw (whole, vals, after_blank-word (decimal n) text (decimal-All n), whole, vals) refl
    request-Means op fields m (asks_feedback h) fits =
        rw (scanned lib print_double reads_back law now fits (last (shown_u h))) refl
    request-Means op fields m (asks_history h) fits =
        rw (scanned lib print_double reads_back law now fits (last (shown_u h))) refl
    request-Means op fields m (asks_details h) fits =
        rw (scanned lib print_double reads_back law now fits (last (shown_u h))) refl
    request-Means op fields m (asks_password h w short) fits =
        rw
          (scanned lib print_double reads_back law now fits
            (more (shown_u h) (last (shown_word w))))
          refl
    request-Means op fields m asks_process fits = refl
    request-Means op fields m (asks_decision l w short h) fits =
        rw
          (scanned lib print_double reads_back law now fits
            (more (shown_llu l) (more (shown_word w) (last (shown_u h)))))
          refl
    request-Means op fields m (asks_assigned h) fits =
        rw (scanned lib print_double reads_back law now fits (last (shown_u h))) refl
    request-Means op fields m (asks_transactions h) fits =
        rw (scanned lib print_double reads_back law now fits (last (shown_u h))) refl
    request-Means op fields m (asks_status h k) fits =
        rw (scanned lib print_double reads_back law now fits (more (shown_u h) (last (shown_u k))))
          refl
    request-Means op fields m asks_pending fits = refl
    request-Means op fields m (asks_assignment h k) fits =
        rw (scanned lib print_double reads_back law now fits (more (shown_u h) (last (shown_u k))))
          refl
    request-Means op fields m asks_review fits = refl
    request-Means op fields m asks_users fits = refl
    request-Means op fields m (asks_role h w short) fits =
        rw
          (scanned lib print_double reads_back law now fits
            (more (shown_u h) (last (shown_word w))))
          refl
