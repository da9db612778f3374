-- ===== src/Loans/Life.antt =====
-- A loan from its application to its payment, through src/customer_module.c, src/manager_module.c and
-- src/employee_module.c.
use banking_management_syste.Base.{
  ℕ, ◌+◌, ◌≡◌, ◌≤◌, List, [], ◌∷◌, ◌++◌, some, none, true, false, ◌&&◌, not, arith, if◌then◌else◌,
  Bool-cases, length, refl, ◌==◌, inl, inr,
}
use mathlib.Core.Path.{subst, sym}
use banking_management_syste.Base.Text.{codes, streq_refl}
use banking_management_syste.Store.{contents, read_record, append_record}
use banking_management_syste.Store.Laws.{atomic_update-Updated}
use banking_management_syste.Store.Rows.{read_loop, read-append}
use banking_management_syste.Model.{
  loans_db, World, Loan, Account, Double, pending, assigned, approved, is_active,
}
use banking_management_syste.Utils.{read_account, loan_key, atomic_update_loan, append_loan}
use banking_management_syste.Utils.Accounts.{account_of}
use banking_management_syste.Customer.{apply_loan}
use banking_management_syste.Manager.{assign_loan_modifier, assign_loan_to_employee}
use banking_management_syste.Employee.{approve_reject_loan}
use banking_management_syste.Loans.{
  assign_loan_modifier_lem, loan_of, employs, assign_loan_to_employee_lem,
}
use banking_management_syste.Loans.Decision.{approve_reject_loan-Decides, paid_in}

module _ {F : Type 0} where
  -- The loans stand in the order of their numbers, without gaps.
  abbrev pub LoansFrom : ℕ → List (Loan F) → Type 0
  LoansFrom n [] = Unit
  LoansFrom n (l ∷ ls) = (l.loan_id ≡ n) × LoansFrom (n + 1) ls

  -- The number that a new loan gets.
  abbrev pub next_loan : World F → ℕ
  next_loan w = length (contents w.loans) + 1

  read-LoansFrom :
      (n k : ℕ) (ls : List (Loan F))
      → LoansFrom n ls
      → n + length ls ≤ k
      → read_loop loan_key k ls ≡ none
  unfolding read_loop
  read-LoansFrom n k [] h b = refl
  read-LoansFrom n k (l ∷ ls) h b = ground (arith, read-LoansFrom (n + 1) k ls h.1 (omega arith))

  LoansFrom-append :
      (n : ℕ) (ls : List (Loan F)) (l : Loan F)
      → LoansFrom n ls
      → l.loan_id ≡ n + length ls
      → LoansFrom n (ls ++ l ∷ [])
  LoansFrom-append n [] l h e = (omega arith, tt)
  LoansFrom-append n (m ∷ ls) l h e = (h.0, LoansFrom-append (n + 1) ls l h.1 (omega arith))

module _ {F : Type 0} ⦃o : Double F⦄ where
  -- A new application.
  abbrev pub application : ℕ → F → ℕ → ℕ → Loan F
  application user_id amount now id = record {
    loan_id = id;
    user_id = user_id;
    amount = amount;
    status = pending;
    assigned_to = 0;
    applied_at = now;
    processed_at = 0;
    remarks = [];
  }

  -- Where the loans are numbered from 1 without gaps, an application says yes exactly for a positive
  -- amount. The loan then stands, pending, under the next number if the loans file accepts the write;
  -- every other loan reads as before, and only the loans file changes.
  pub apply_loan_lem :
      (user_id : ℕ) (amount : F) (now j : ℕ) (w : World F)
      → LoansFrom 1 (contents w.loans)
      → let (r, w') = apply_loan user_id amount now w in
        (r ≡ not (o.le amount o.zero))
        × (loan_of j w' ≡ (
            if r && (w.loans.accepts && (j == next_loan w))
            then some (application user_id amount now (next_loan w))
            else loan_of j w))
        × (w' ≡ record w { loans = w'.loans; resp = w'.resp })
        × (w'.loans.accepts ≡ w.loans.accepts)
  unfolding apply_loan append_loan append_record read_record read_loop
  apply_loan_lem user_id amount now j w h = ground (
    arith,
    read-LoansFrom 1 (next_loan w) (contents w.loans) h,
    read-append loan_key j (contents w.loans) (application user_id amount now (next_loan w)),
  )

  assign-accepts :
      (k emp_id : ℕ) (w : World F)
      → (assign_loan_to_employee k emp_id w).1.loans.accepts ≡ w.loans.accepts
  unfolding assign_loan_to_employee atomic_update_loan
  assign-accepts k emp_id w =
      elim (atomic_update-Updated loans_db loan_key k (assign_loan_modifier emp_id) w
        (λ a. ground (arith, assign_loan_modifier_lem emp_id a w))) [
          | inl (n, e) ↦ ground arith
          | inr (inl (a, q, (z, e))) ↦ ground (arith, assign_loan_modifier_lem emp_id a w)
          | inr (inr (inl (a, b, q, z, failed, e))) ↦
              ground (arith, assign_loan_modifier_lem emp_id a w)
          | inr (inr (inr (a, b, rs, rs', q, z, r, v, ok, e))) ↦
              ground (arith, assign_loan_modifier_lem emp_id a w)
        ]

  -- An application keeps the loans numbered from 1 without gaps.
  pub apply_loan-LoansFrom :
      (user_id : ℕ) (amount : F) (now : ℕ) (w : World F)
      → LoansFrom 1 (contents w.loans)
      → LoansFrom 1 (contents (apply_loan user_id amount now w).1.loans)
  unfolding apply_loan append_loan append_record
  apply_loan-LoansFrom user_id amount now w h =
      elim (Bool-cases (not (o.le amount o.zero) && w.loans.accepts)) [
        | inr e ↦
            let same : contents (apply_loan user_id amount now w).1.loans ≡ contents w.loans =
              ground arith in
            subst (LoansFrom 1) (sym same) h
        | inl e ↦
            let l = application user_id amount now (next_loan w) in
            let more : contents (apply_loan user_id amount now w).1.loans
                ≡ contents w.loans ++ l ∷ [] =
              ground arith in
            subst (LoansFrom 1) (sym more) (LoansFrom-append 1 (contents w.loans) l h (omega arith))
      ]

  -- A customer with an active account who applies for an amount that does not compare as at most 0
  -- gets it: once the loan is assigned to an employee, and that employee approves it, the loan is
  -- recorded as approved and the amount has been added to the customer's balance, if the loans in the
  -- file are numbered from 1 and the loans and accounts files accept writes.
  pub apply_loan-paid :
      (user_id emp_id now now' : ℕ) (amount : F) (w : World F) (a : Account F)
      → LoansFrom 1 (contents w.loans)
      → o.le amount o.zero ≡ false
      → w.loans.accepts ≡ true
      → w.accounts.accepts ≡ true
      → employs emp_id w ≡ true
      → account_of user_id w ≡ some a
      → is_active a.active ≡ true
      → let k = next_loan w in
        let w₁ = (apply_loan user_id amount now w).1 in
        let w₂ = (assign_loan_to_employee k emp_id w₁).1 in
        let (r, w₃) = approve_reject_loan k (codes "approve") emp_id now' w₂ in
        (r ≡ true)
        × (loan_of k w₃
            ≡ some (record (application user_id amount now k) {
              status = approved;
              assigned_to = emp_id;
              processed_at = now';
            }))
        × (account_of user_id w₃ ≡ some (record a { balance = o.add a.balance amount }))
  unfolding read_record read_account
  apply_loan-paid user_id emp_id now now' amount w a h positive la aa em ac act =
      let k = next_loan w in
      let w₁ = (apply_loan user_id amount now w).1 in
      let w₂ = (assign_loan_to_employee k emp_id w₁).1 in
      let l = application user_id amount now k in
      let applied = apply_loan_lem user_id amount now k w h in
      let assigns = assign-accepts k emp_id w₁ in
      let there : loan_of k w₁ ≡ some l = ground arith in
      let given : loan_of k w₂ ≡ some (record l { assigned_to = emp_id; status = assigned }) =
        ground (arith, assign_loan_to_employee_lem k emp_id k w₁) in
      let purse : account_of user_id w₂ ≡ some a =
        ground (arith, assign_loan_to_employee_lem k emp_id k w₁) in
      let payable_now : paid_in l w₂ ≡ some (record a { balance = o.add a.balance amount }) =
        ground arith in
      let open_accounts : w₂.accounts.accepts ≡ true =
        ground (arith, assign_loan_to_employee_lem k emp_id k w₁) in
      ground (
        arith,
        streq_refl (codes "approve"),
        approve_reject_loan-Decides (codes "approve") emp_id now' k k w₂,
        approve_reject_loan-Decides (codes "approve") emp_id now' k user_id w₂,
      )
