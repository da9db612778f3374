-- ===== src/Listing.antt =====
-- The listings of every module: a loop over a file that appends one formatted row for each record
-- that it keeps to the response buffer of 1024 bytes. The formats of the rows are `snprintf`'s and
-- `strftime`'s, parameters; a row is cut to the size of its buffer.
pub mod Laws
use banking_management_syste.Base.{
  ℕ, zero, suc, Bool, true, none, some, List, [], ◌∷◌, if◌then◌else◌, get_elem?,
}
use banking_management_syste.Base.Text.{Text, strncat, codes, strncpy}
use banking_management_syste.Model.{User, Txn, Loan, Feedback}

abbrev pub max_msg_len : ℕ
max_msg_len = 1024

-- The formatted rows.
pub record Printf (F : Type 0) : Type 0 where
  pub loan_status_row : Loan F → Text → Text
  pub feedback_row : Feedback → Text → Text
  pub txn_row : Text → F → ℕ → ℕ → Text
  pub pending_row : Loan F → Text
  pub assigned_row : Loan F → Text → Text
  pub review_row : Feedback → Text
  pub reviewed_row : ℕ → Text
  pub user_row : User → Text → Text

module _ {A : Type 0} where
  -- `while (read(...)) if (keep) { snprintf(tmp, ...); strncat(...); found = 1; }`
  unfoldable pub list_rows : (A → Bool) → (A → Text) → List A → Text × Bool → Text × Bool
  list_rows keep row [] acc = acc
  list_rows keep row (r ∷ rs) (buf, found) =
      list_rows keep row rs
        (if keep r then (strncat max_msg_len buf (row r), true) else (buf, found))

  -- The loop that reads a file from its last record to its first: the argument counts the records
  -- that are left, and a failed read ends it.
  unfoldable pub list_backwards : (A → Bool) → (A → Text) → List A → ℕ → Text × Bool → Text × Bool
  list_backwards keep row rs zero acc = acc
  list_backwards keep row rs (suc i) (buf, found) = elim (get_elem? rs i) [
    | none ↦ (buf, found)
    | some r ↦
        list_backwards keep row rs i
          (if keep r then (strncat max_msg_len buf (row r), true) else (buf, found))
  ]
