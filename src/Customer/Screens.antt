-- ===== src/Customer/Screens.antt =====
-- What a customer sees of loans, feedback and transactions, against the whole text of the rows.
use banking_management_syste.Base.{
  ℕ, ◌≡◌, List, some, true, false, Bool, [], ◌++◌, arith, if◌then◌else◌, refl, take, reverse, ◌==◌,
}
use banking_management_syste.Base.Text.{Text, strncpy}
use banking_management_syste.Model.{World, Loan, Txn, format, listing, Message}
use banking_management_syste.Listing.{Printf}
use banking_management_syste.Listing.Laws.{rows_text, any_kept, list_rows_lem, list_backwards_lem}
use banking_management_syste.Customer.Views.{
  status_map, view_loan_status, view_transaction_history, is_relevant, txn_text, no_other,
  history_columns, history_rule,
}

module _ {F : Type 0} ⦃p : Printf F⦄ where
  -- What a screen shows: the first 1023 bytes of the header and all rows after it, or the notice if
  -- there is no row.
  abbrev pub shown : {A : Type 0} → Text → (A → Bool) → (A → Text) → List A → Message F → Message F
  shown header keep row rs notice =
      if any_kept keep row rs then listing (take 1023 (header ++ rows_text keep row rs)) else notice

  -- The row of a loan, cut to the 511 bytes of the row buffer.
  abbrev pub loan_row : Loan F → Text
  loan_row l = strncpy 512 (p.loan_status_row l (status_map l.status))

  -- The list of loans shows the rows of all of the customer's loans, in the order of the file, cut to
  -- 1023 bytes, or a notice if there is none; it changes no file.
  pub view_loan_status_lem :
      (user_id : ℕ) (ls : List (Loan F)) (w : World F)
      → w.loans.rows ≡ some ls
      → view_loan_status user_id w ≡ (
        true,
        record w {
          resp = some (
              shown []
                (λ l. l.user_id == user_id)
                loan_row
                ls
                (format "No loan applications found for your ID." []));
        },
      )
  unfolding view_loan_status
  view_loan_status_lem user_id ls w e =
      ground (arith, list_rows_lem (λ l. l.user_id == user_id) loan_row ls [] false)

  -- The history shows the rows of all transactions that concern the customer, the last one first,
  -- under two header lines, cut to 1023 bytes, or a notice if there is none; it changes no file.
  pub view_transaction_history_lem :
      (user_id : ℕ) (txs : List (Txn F)) (w : World F)
      → w.transactions.rows ≡ some txs
      → view_transaction_history user_id w ≡ (
        true,
        record w {
          resp = some (
              shown
                (history_columns ++ history_rule)
                (is_relevant no_other user_id)
                (txn_text no_other user_id)
                (reverse txs)
                (format "No transaction history found for your ID." []));
        },
      )
  unfolding view_transaction_history
  view_transaction_history_lem user_id txs w e =
      let header : Text = history_columns ++ history_rule in
      let whole : take 1023 header ≡ header = refl in
      ground (
        arith,
        list_backwards_lem (is_relevant no_other user_id) (txn_text no_other user_id) txs
            (header, false),
        list_rows_lem (is_relevant no_other user_id) (txn_text no_other user_id) (reverse txs)
            header false,
      )
