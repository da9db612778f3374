-- ===== src/Customer/Money.antt =====
-- What deposits and withdrawals do to the accounts and to the transaction log, on every branch.
use banking_management_syste.Base.{
  ℕ, ◌+◌, ◌≡◌, not, ◌&&◌, List, [], ◌∷◌, ◌++◌, arith, if◌then◌else◌, length, ◌==◌, Bool, Option,
  none, some,
}
use banking_management_syste.Base.Text.{codes}
use banking_management_syste.Store.{Table, contents, append_record}
use banking_management_syste.Store.Rows.{Kept}
use banking_management_syste.Model.{World, Account, Txn, Double}
use banking_management_syste.Utils.{account_key, append_transaction, read_account}
use banking_management_syste.Utils.Accounts.{
  account_of, modified, update-account_of, update-Updates, is_some,
}
use banking_management_syste.Customer.{
  deposit_modifier, withdraw_modifier, deposit_money, withdraw_money, entry, deposit_failed,
  withdraw_failed, is_active,
}
use mathlib.Core.Path.{subst, fun_ext}

module _ {F : Type 0} where
  -- The log after an entry: the entry gets the next number, and is lost if the file does not accept
  -- the write.
  abbrev pub logged : Txn F → Table (Txn F) → List (Txn F)
  logged e t =
      if t.accepts
      then contents t ++ record e { txn_id = length (contents t) + 1 } ∷ []
      else contents t

  -- What a call with the guard `positive` that posts the change `f` to account `k` under the log
  -- entry `e` does, at any account `j`.
  abbrev pub Posts :
      Bool → ℕ → (Account F → Option (Account F)) → Txn F → ℕ → World F → Bool × World F → Type 0
  Posts positive k f e j w (r, w') =
      (r ≡ positive && (w.accounts.accepts && is_some (modified k f w)))
      × (account_of j w' ≡ (if r && (j == k) then modified k f w else account_of j w))
      × (contents w'.transactions
          ≡ (if r then logged e w.transactions else contents w.transactions))
      × (w'.users ≡ w.users)
      × (w'.loans ≡ w.loans)
      × (w'.feedback ≡ w.feedback)
      × (w'.accounts ≡ (if r then w'.accounts else w.accounts))
      × (w'.transactions ≡ (if r then w'.transactions else w.transactions))

module _ {F : Type 0} ⦃o : Double F⦄ where
  -- An active account with the amount added; none for an inactive one.
  abbrev pub raised : F → Account F → Option (Account F)
  raised x a = if is_active a.active then some (record a { balance = o.add a.balance x }) else none

  -- An active account whose balance is not below the amount, with the amount subtracted; otherwise
  -- none.
  abbrev pub lowered : F → Account F → Option (Account F)
  lowered x a =
      if is_active a.active && not (o.lt a.balance x)
      then some (record a { balance = o.sub a.balance x })
      else none

  pub deposit_modifier-raised : (x : F) → deposit_modifier x ≡ raised x
  unfolding deposit_modifier
  deposit_modifier-raised x = fun_ext (λ a. ground arith)

  pub withdraw_modifier-lowered : (x : F) → withdraw_modifier x ≡ lowered x
  unfolding withdraw_modifier
  withdraw_modifier-lowered x = fun_ext (λ a. ground arith)

  pub deposit_modifier-Kept : (x : F) (a : Account F) → Kept account_key a (deposit_modifier x a)
  unfolding deposit_modifier
  deposit_modifier-Kept x a = ground arith

  pub withdraw_modifier-Kept : (x : F) (a : Account F) → Kept account_key a (withdraw_modifier x a)
  unfolding withdraw_modifier
  withdraw_modifier-Kept x a = ground arith

  module _ (k : ℕ) (x : F) (now : ℕ) (j : ℕ) (w : World F) where
    deposit_money_lem :
        Posts
          (not (o.le x o.zero))
          k
          (deposit_modifier x)
          (entry 0 k x now (codes "deposit"))
          j
          w
          (deposit_money k x now w)
    unfolding deposit_money append_transaction deposit_failed append_record read_account
    deposit_money_lem = ground (
      arith,
      update-Updates k (deposit_modifier x) w,
      update-account_of k (deposit_modifier x) w j (deposit_modifier-Kept x),
    )

    -- A deposit succeeds exactly for an amount that does not compare as at most 0 (a NaN does not), an
    -- existing active account and an accounts file that accepts the write. It then adds the amount to
    -- that account, leaves every other account, and logs one entry if the transactions file accepts
    -- it, none if it does not; a failed deposit changes no account and logs nothing. No other file
    -- changes.
    pub deposit_money-Posts :
        Posts
          (not (o.le x o.zero))
          k
          (raised x)
          (entry 0 k x now (codes "deposit"))
          j
          w
          (deposit_money k x now w)
    deposit_money-Posts =
        subst
          (λ f.
            Posts (not (o.le x o.zero)) k f (entry 0 k x now (codes "deposit")) j w
              (deposit_money k x now w))
          (deposit_modifier-raised x) deposit_money_lem

    withdraw_money_lem :
        Posts
          (not (o.le x o.zero))
          k
          (withdraw_modifier x)
          (entry k 0 x now (codes "withdraw"))
          j
          w
          (withdraw_money k x now w)
    unfolding withdraw_money append_transaction withdraw_failed append_record read_account
    withdraw_money_lem = ground (
      arith,
      update-Updates k (withdraw_modifier x) w,
      update-account_of k (withdraw_modifier x) w j (withdraw_modifier-Kept x),
    )

    -- A withdrawal succeeds exactly for an amount that does not compare as at most 0, an existing
    -- active account whose balance does not compare as below it, and an accounts file that accepts
    -- the write; a NaN amount passes both comparisons. It then subtracts the amount from that
    -- account, leaves every other account, and logs one entry if the transactions file accepts it,
    -- none if it does not; a failed withdrawal changes no account and logs nothing. No other file
    -- changes.
    pub withdraw_money-Posts :
        Posts
          (not (o.le x o.zero))
          k
          (lowered x)
          (entry k 0 x now (codes "withdraw"))
          j
          w
          (withdraw_money k x now w)
    withdraw_money-Posts =
        subst
          (λ f.
            Posts (not (o.le x o.zero)) k f (entry k 0 x now (codes "withdraw")) j w
              (withdraw_money k x now w))
          (withdraw_modifier-lowered x) withdraw_money_lem
