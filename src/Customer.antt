-- ===== src/Customer.antt =====
-- src/customer_module.c: the operations of a customer that change state. `now` is time(NULL). The
-- listings are in Customer/Views.
pub mod Money
pub mod Transfer
pub mod Rollback
pub mod Totals
pub mod Views
pub mod Screens
pub mod Solvency
use banking_management_syste.Base.{
  ℕ, zero, ◌%◌, Bool, true, false, not, Option, none, some, [], ◌∷◌, if◌then◌else◌, ◌==◌,
}
use banking_management_syste.Base.Text.{Text, codes, strncpy}
use banking_management_syste.Store.{M, pure, ◌>>=◌, ◌>>◌}
use banking_management_syste.Model.{
  Double, Account, Txn, Loan, Feedback, User, World, Status, pending, is_active, Arg, dbl, num, str,
  say,
}
use banking_management_syste.Utils.{
  read_account, read_user, append_transaction, append_loan, append_feedback, atomic_update_account,
  atomic_update_user, generate_password_hash, Crypt,
}

module _ {F : Type 0} ⦃o : Double F⦄ where
  -- None is the modifier's 0: the record is not written back.
  unfoldable pub deposit_modifier : F → Account F → Option (Account F)
  deposit_modifier amount acc =
      if not (is_active acc.active)
      then none
      else some (record acc { balance = o.add acc.balance amount })

  unfoldable pub withdraw_modifier : F → Account F → Option (Account F)
  withdraw_modifier amount acc =
      if not (is_active acc.active)
      then none
      else if o.lt acc.balance amount
      then none
      else some (record acc { balance = o.sub acc.balance amount })

  -- An entry of the transaction log before it gets its id.
  abbrev pub entry : ℕ → ℕ → F → ℕ → Text → Txn F
  entry from to amount now narration = record {
    txn_id = 0;
    from_account = from;
    to_account = to;
    amount = amount;
    timestamp = now;
    narration = narration;
  }

  unfoldable pub deposit_failed : Option (Account F) → M (World F) Bool
  deposit_failed none = say "Deposit Failed: Account not found" [] >> pure false
  deposit_failed (some acc) =
      if not (is_active acc.active)
      then say "Deposit Failed: Account is inactive" [] >> pure false
      else say "Deposit Failed: Account not found" [] >> pure false

  unfoldable pub deposit_money : ℕ → F → ℕ → M (World F) Bool
  unfolding deposit_failed
  deposit_money user_id amount now =
      if o.le amount o.zero then say "Deposit amount must be positive." [] >> pure false else do
        done ← atomic_update_account user_id (λ acc. pure (deposit_modifier amount acc))
        if done
            then (do
              append_transaction (entry 0 user_id amount now (codes "deposit"))
              say "Deposit Successful: %.2lf" (dbl amount ∷ [])
              pure true)
            else (read_account user_id >>= deposit_failed)

  unfoldable pub withdraw_failed : F → Option (Account F) → M (World F) Bool
  withdraw_failed amount none = say "Withdrawal Failed: Account not found" [] >> pure false
  withdraw_failed amount (some acc) =
      if not (is_active acc.active)
      then say "Withdrawal Failed: Account is inactive" [] >> pure false
      else if o.lt acc.balance amount
      then say "Withdrawal Failed: Insufficient Balance (Current: %.2lf)" (dbl acc.balance ∷ [])
        >> pure false
      else say "Withdrawal Failed: Unexpected error" [] >> pure false

  unfoldable pub withdraw_money : ℕ → F → ℕ → M (World F) Bool
  unfolding withdraw_failed
  withdraw_money user_id amount now =
      if o.le amount o.zero then say "Withdrawal amount must be positive." [] >> pure false else do
        done ← atomic_update_account user_id (λ acc. pure (withdraw_modifier amount acc))
        if done
            then (do
              append_transaction (entry user_id 0 amount now (codes "withdraw"))
              say "Withdrawal Successful: %.2lf" (dbl amount ∷ [])
              pure true)
            else (read_account user_id >>= withdraw_failed amount)

  -- Why the sender could not be debited.
  unfoldable pub transfer_refused : F → Option (Account F) → M (World F) Bool
  transfer_refused amount none = say "Transfer Failed: Sender account not found" [] >> pure false
  transfer_refused amount (some acc) =
      if not (is_active acc.active)
      then say "Transfer Failed: Sender account is inactive" [] >> pure false
      else if o.lt acc.balance amount
      then say "Transfer Failed: Insufficient Balance (Current: %.2lf)" (dbl acc.balance ∷ [])
        >> pure false
      else say "Transfer Failed: Sender account error" [] >> pure false

  -- Step 1: the checks, and whether the recipient's account is there and active.
  unfoldable pub transfer_check : ℕ → ℕ → F → M (World F) Bool
  transfer_check from_id to_id amount =
      if from_id == to_id
      then say "Cannot transfer to the same account." [] >> pure false
      else if o.le amount o.zero
      then say "Transfer amount must be positive." [] >> pure false
      else do
        to_acc ← read_account to_id
        if elim to_acc [ none ↦ false | some acc ↦ is_active acc.active ] then pure true else (do
          say "Transfer Failed: Recipient account not found or is inactive" []
          pure false)

  -- Step 2: the debit.
  unfoldable pub transfer_debit : ℕ → F → M (World F) Bool
  transfer_debit from_id amount =
      atomic_update_account from_id (λ acc. pure (withdraw_modifier amount acc))

  -- Steps 3 and 4: the credit, with the rollback if it fails, and the log.
  unfoldable pub transfer_credit : ℕ → ℕ → F → ℕ → M (World F) Bool
  transfer_credit from_id to_id amount now = do
    done ← atomic_update_account to_id (λ acc. pure (deposit_modifier amount acc))
    if done
        then (do
          append_transaction (entry from_id to_id amount now (codes "transfer_out"))
          append_transaction (entry from_id to_id amount now (codes "transfer_in"))
          say "Transfer Successful: %.2lf from %u to %u" (dbl amount ∷ num from_id ∷ num to_id ∷ [])
          pure true)
        else (do
          say "CRITICAL ERROR: Transfer failed after withdrawal. Contact support." []
          atomic_update_account from_id (λ acc. pure (deposit_modifier amount acc))
          pure false)

  -- `transfer_funds`, where `between` and `meanwhile` are what the other clients' requests do to the
  -- files between its locked steps; the identity if there are none.
  unfoldable pub transfer_among :
      (World F → World F) → (World F → World F) → ℕ → ℕ → F → ℕ → M (World F) Bool
  transfer_among between meanwhile from_id to_id amount now = do
    checked ← transfer_check from_id to_id amount
    if checked
        then (do
          (λ w. (tt, between w))
          debited ← transfer_debit from_id amount
          if debited
              then (do (λ w. (tt, meanwhile w)); transfer_credit from_id to_id amount now)
              else (read_account from_id >>= transfer_refused amount))
        else pure false

  unfoldable pub transfer_funds : ℕ → ℕ → F → ℕ → M (World F) Bool
  unfolding transfer_among
  transfer_funds = transfer_among (λ w. w) (λ w. w)

  unfoldable pub apply_loan : ℕ → F → ℕ → M (World F) Bool
  apply_loan user_id amount now =
      if o.le amount o.zero then say "Loan amount must be positive." [] >> pure false else do
        (done, loan) ← append_loan (record {
          loan_id = 0;
          user_id = user_id;
          amount = amount;
          status = pending;
          assigned_to = 0;
          applied_at = now;
          processed_at = 0;
          remarks = [];
        })
        if done
            then (say "Loan Application Submitted (ID: %llu)" (num loan.loan_id ∷ []) >> pure true)
            else (say "Loan Apply Failed (Server Error)" [] >> pure false)

module _ {F : Type 0} where
  -- The message is cut to its field of 512 bytes.
  unfoldable pub add_feedback : ℕ → Text → ℕ → M (World F) Bool
  add_feedback user_id msg now = do
    (done, fb) ← append_feedback (record {
      fb_id = 0;
      user_id = user_id;
      message = strncpy 512 msg;
      reviewed = false;
      action_taken = [];
      submitted_at = now;
    })
    if done
        then (say "Feedback Submitted (ID: %llu). Thank you!" (num fb.fb_id ∷ []) >> pure true)
        else (say "Feedback submission failed." [] >> pure false)

  unfoldable pub change_pass_modifier : Crypt → Text → User → M (World F) (Option User)
  change_pass_modifier crypt newpass user = do
    let user' = record user { password_hash = generate_password_hash crypt newpass 128 }
    say "Password changed successfully" []
    pure (some user')

  unfoldable pub change_password : Crypt → ℕ → Text → M (World F) Bool
  unfolding change_pass_modifier
  change_password crypt user_id newpass = do
    done ← atomic_update_user user_id (change_pass_modifier crypt newpass)
    if done
        then pure true
        else (do say "Password change failed (User not found or concurrency error)" []; pure false)

  unfoldable pub view_balance : ℕ → M (World F) Bool
  view_balance user_id = do
    acc ← read_account user_id
    elim acc [
      | none ↦ say "Account not found" [] >> pure false
      | some a ↦
          say "Balance: %.2lf (Status: %s)" (
            dbl a.balance
            ∷ str (if is_active a.active then codes "Active" else codes "Inactive")
            ∷ [])
          >> pure true
    ]

  unfoldable pub view_personal_details : ℕ → M (World F) Bool
  view_personal_details user_id = do
    found ← read_user user_id
    elim found [
      | none ↦ say "Could not find user details." [] >> pure false
      | some u ↦
          say
            "--- Personal Details for %s ---\nAccount ID: AC%u\nName:       %s %s\nAge:        %u\nAddress:    %s\nEmail:      %s\nPhone:      %s\n"
            (str u.first_name
              ∷ num u.user_id
              ∷ str u.first_name
              ∷ str u.last_name
              ∷ num u.age
              ∷ str u.address
              ∷ str u.email
              ∷ str u.phone
              ∷ [])
          >> pure true
    ]
