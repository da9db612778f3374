-- ===== src/Customer/Views.antt =====
-- The listings of src/customer_module.c, and the classification of log entries that they share with
-- src/employee_module.c.
use banking_management_syste.Base.{
  ℕ, Bool, true, false, ◌&&◌, Option, none, some, [], ◌++◌, ◌==◌, if◌then◌else◌, length,
}
use banking_management_syste.Base.Text.{Text, codes, streq, strncpy}
use banking_management_syste.Store.{M}
use banking_management_syste.Model.{
  World, Txn, Message, format, listing, pending, LoanStatus, assigned, approved, rejected,
}
use banking_management_syste.Listing.{Printf, list_rows, list_backwards}

-- What a listing leaves in the response buffer: the text, or a notice if no row was kept.
abbrev pub listed : {F : Type 0} → Message F → Text × Bool → World F → Bool × World F
listed notice (buf, found) w =
    (true, record w { resp = some (if found then listing buf else notice) })

abbrev pub status_map : LoanStatus → Text
status_map pending = codes "PENDING"
status_map assigned = codes "ASSIGNED"
status_map approved = codes "APPROVED"
status_map rejected = codes "REJECTED"

-- The type column and the other account of an entry that concerns the user; none if it does not.
-- `other` says which account a deposit and a withdrawal show.
unfoldable pub classify : {F : Type 0} → (Txn F → ℕ × ℕ) → ℕ → Txn F → Option (Text × ℕ)
classify other user_id tx =
    if streq tx.narration (codes "deposit") && (tx.to_account == user_id)
    then some (codes "DEPOSIT", (other tx).0)
    else if streq tx.narration (codes "withdraw") && (tx.from_account == user_id)
    then some (codes "WITHDRAW", (other tx).1)
    else if streq tx.narration (codes "transfer_out") && (tx.from_account == user_id)
    then some (codes "TRANSFER_OUT", tx.to_account)
    else if streq tx.narration (codes "transfer_in") && (tx.to_account == user_id)
    then some (codes "TRANSFER_IN", tx.from_account)
    else if streq tx.narration (codes "loan_deposit") && (tx.to_account == user_id)
    then some (codes "LOAN_DEPOSIT", 0)
    else none

abbrev pub is_relevant : {F : Type 0} → (Txn F → ℕ × ℕ) → ℕ → Txn F → Bool
is_relevant other user_id tx = elim (classify other user_id tx) [ none ↦ false | some c ↦ true ]

-- The customer's history shows no other account for deposits and withdrawals.
abbrev pub no_other : {F : Type 0} → Txn F → ℕ × ℕ
no_other tx = (0, 0)

-- The two header lines of a history.
abbrev pub history_columns : Text
history_columns = codes "Type        | Amount   | Other Acct | Timestamp\n"

abbrev pub history_rule : Text
history_rule = codes "------------|----------|------------|-------------------\n"

module _ {F : Type 0} ⦃p : Printf F⦄ where
  abbrev pub txn_text : (Txn F → ℕ × ℕ) → ℕ → Txn F → Text
  txn_text other user_id tx = elim (classify other user_id tx) [
    | none ↦ []
    | some (type_str, other_id) ↦ strncpy 256 (p.txn_row type_str tx.amount other_id tx.timestamp)
  ]

  unfoldable pub view_loan_status : ℕ → M (World F) Bool
  view_loan_status user_id w = elim w.loans.rows [
    | none ↦ (false, record w { resp = some (format "No loan records found" []) })
    | some loans ↦
        listed (format "No loan applications found for your ID." [])
          (list_rows (λ l. l.user_id == user_id)
            (λ l. strncpy 512 (p.loan_status_row l (status_map l.status))) loans ([], false))
          w
  ]

  unfoldable pub view_feedback_status : ℕ → M (World F) Bool
  view_feedback_status user_id w = elim w.feedback.rows [
    | none ↦ (false, record w { resp = some (format "No feedback records found" []) })
    | some fbs ↦
        listed (format "No feedback submitted by your ID." [])
          (list_rows (λ b. b.user_id == user_id)
            (λ b.
              strncpy 512
                (p.feedback_row b (if b.reviewed then codes "REVIEWED" else codes "PENDING")))
            fbs ([], false))
          w
  ]

  unfoldable pub view_transaction_history : ℕ → M (World F) Bool
  view_transaction_history user_id w = elim w.transactions.rows [
    | none ↦ (false, record w { resp = some (format "No transaction history found" []) })
    | some txs ↦
        listed (format "No transaction history found for your ID." [])
          (list_backwards (is_relevant no_other user_id) (txn_text no_other user_id) txs
            (length txs) (history_columns ++ history_rule, false))
          w
  ]
