-- ===== src/Customer/Totals.antt =====
-- The money in the bank: what each operation does to the sum of all balances, where the arithmetic
-- on amounts does not round.
use banking_management_syste.Base.{
  ℕ, ◌≡◌, inl, inr, true, Option, some, List, [], ◌∷◌, arith, ◌==◌, Bool-cases, Option-cases, sym,
  ap, ◌∙◌, if◌then◌else◌, ◌&&◌, none,
}
use banking_management_syste.Store.{contents, append_record, read_record}
use banking_management_syste.Store.Rows.{revise, read_loop}
use banking_management_syste.Model.{World, Account, Double}
use banking_management_syste.Utils.{account_key, read_account, append_transaction}
use banking_management_syste.Utils.Accounts.{
  update-done, account_of, modified, update, update-Updates, is_some,
}
use banking_management_syste.Customer.{
  transfer_check, transfer_refused, deposit_modifier, withdraw_modifier, deposit_money,
  withdraw_money, transfer_funds, transfer_credit, deposit_failed, withdraw_failed,
}
use banking_management_syste.Customer.Transfer.{creditable, stopped, refused, went_through, debited}

-- The laws of sums and differences that hold for doubles as long as no operation rounds, as for whole
-- amounts below 2^53.
pub record IsExact {F : Type 0} (o : Double F) : Type 0 where
  pub add_comm : (a b : F) → o.add a b ≡ o.add b a
  pub add_assoc : (a b c : F) → o.add (o.add a b) c ≡ o.add a (o.add b c)
  pub add_cancel : (a b c : F) → o.add a c ≡ o.add b c → a ≡ b
  pub sub_add : (a b : F) → o.add (o.sub a b) b ≡ a

module _ {F : Type 0} ⦃o : Double F⦄ where
  abbrev pub sum : List (Account F) → F
  sum [] = o.zero
  sum (a ∷ as') = o.add a.balance (sum as')

  abbrev pub total : World F → F
  total w = sum (contents w.accounts)

  -- A refused transfer leaves the accounts file.
  pub check_refuse-accounts :
      (s d : ℕ) (x : F) (a : Option (Account F)) (w : World F)
      → ((transfer_check s d x w).1.accounts ≡ w.accounts)
        × ((transfer_refused x a w).1.accounts ≡ w.accounts)
  unfolding transfer_check transfer_refused read_account
  check_refuse-accounts s d x a w = ground arith

  module _ (ex : IsExact o) where
    open ex use {add_comm, add_assoc, add_cancel, sub_add}

    shuffle : (a b c d e : F) → o.add b e ≡ o.add c d → o.add (o.add a b) e ≡ o.add (o.add a c) d
    shuffle a b c d e h = cc (add_assoc a b e, add_assoc a c d)

    swap_sum : (a b c : F) → o.add (o.add a b) c ≡ o.add (o.add c b) a
    swap_sum a b c = cc (add_comm a b, add_assoc b a c, add_comm a c, add_comm c b, add_assoc b c a)

    sum-revise :
        (k : ℕ) (f : Account F → Option (Account F)) (rs rs' : List (Account F)) {a b : Account F}
        → read_loop account_key k rs ≡ some a
        → f a ≡ some b
        → revise account_key k f rs ≡ some rs'
        → o.add (sum rs') a.balance ≡ o.add (sum rs) b.balance
    unfolding revise read_loop
    sum-revise k f [] rs' e h q = cc
    sum-revise k f (r ∷ rs) rs' {a} {b} e h q = elim (Bool-cases (r.user_id == k)) [
      | inl here ↦ ground (arith, swap_sum b.balance (sum rs) a.balance)
      | inr there ↦ elim (Option-cases (revise account_key k f rs)) [
        | inl n ↦ ground arith
        | inr (t, m) ↦ ground (
          arith,
          sum-revise k f rs t {a = a} {b = b},
          shuffle r.balance (sum t) (sum rs) b.balance a.balance,
        )
      ]
    ]

    -- What an update that succeeds does to the total.
    total-update :
        (k : ℕ) (f : Account F → Option (Account F)) (w : World F) {a b : Account F}
        → account_of k w ≡ some a
        → f a ≡ some b
        → (update k f w).0 ≡ true
        → o.add (total (update k f w).1) a.balance ≡ o.add (total w) b.balance
    unfolding read_account read_record
    total-update k f w {a} {b} e h done = elim (update-Updates k f w) [
      | inl (b', rs, rs', r, m, q, acc, u) ↦ ground (arith, sum-revise k f rs rs' {a = a} {b = b})
      | inr (u, n) ↦ ground arith
    ]

    credited : (t u a x : F) → o.add t a ≡ o.add u (o.add a x) → t ≡ o.add u x
    credited t u a x h =
        add_cancel t (o.add u x) a (h ∙ (ap (o.add u) (add_comm a x) ∙ sym (add_assoc u x a)))

    debited_sum : (t u a x : F) → o.add t a ≡ o.add u (o.sub a x) → o.add t x ≡ u
    debited_sum t u a x h = add_cancel (o.add t x) u a (
        cc (
          h,
          add_assoc t x a,
          add_comm x a,
          add_assoc t a x,
          add_assoc u (o.sub a x) x,
          sub_add a x,
        ))

    update_deposit-total :
        (k : ℕ) (x : F) (w : World F)
        → (update k (deposit_modifier x) w).0 ≡ true
        → total (update k (deposit_modifier x) w).1 ≡ o.add (total w) x
    unfolding deposit_modifier read_account
    update_deposit-total k x w done = elim (Option-cases (account_of k w)) [
      | inl n ↦ ground (arith, update-Updates k (deposit_modifier x) w)
      | inr (a, e) ↦
          let b = record a { balance = o.add a.balance x } in
          let f : deposit_modifier x a ≡ some b =
            ground (arith, update-Updates k (deposit_modifier x) w) in
          credited _ _ a.balance x (total-update k (deposit_modifier x) w e f done)
    ]

    update_withdraw-total :
        (k : ℕ) (x : F) (w : World F)
        → (update k (withdraw_modifier x) w).0 ≡ true
        → o.add (total (update k (withdraw_modifier x) w).1) x ≡ total w
    unfolding withdraw_modifier read_account
    update_withdraw-total k x w done = elim (Option-cases (account_of k w)) [
      | inl n ↦ ground (arith, update-Updates k (withdraw_modifier x) w)
      | inr (a, e) ↦
          let b = record a { balance = o.sub a.balance x } in
          let f : withdraw_modifier x a ≡ some b =
            ground (arith, update-Updates k (withdraw_modifier x) w) in
          debited_sum _ _ a.balance x (total-update k (withdraw_modifier x) w e f done)
    ]

    -- Where amounts do not round, a successful deposit raises the sum of all balances by its amount,
    -- and a failed one leaves it.
    pub total-deposit_money :
        (k : ℕ) (x : F) (now : ℕ) (w : World F)
        → let (r, w') = deposit_money k x now w in
          total w' ≡ (if r then o.add (total w) x else total w)
    unfolding deposit_money append_transaction deposit_failed append_record read_account
    total-deposit_money k x now w =
        ground (arith, update-Updates k (deposit_modifier x) w, update_deposit-total k x w)

    -- Where amounts do not round, a successful withdrawal lowers the sum of all balances by its
    -- amount, and a failed one leaves it.
    pub total-withdraw_money :
        (k : ℕ) (x : F) (now : ℕ) (w : World F)
        → let (r, w') = withdraw_money k x now w in
          (if r then o.add (total w') x else total w') ≡ total w
    unfolding withdraw_money append_transaction withdraw_failed append_record read_account
    total-withdraw_money k x now w =
        ground (arith, update-Updates k (withdraw_modifier x) w, update_withdraw-total k x w)

    -- A credit, or its rollback, and the total; the amount that the sender lost comes back either way.
    transfer_credit-total :
        (s d : ℕ) (x : F) (now : ℕ) (v : World F)
        → v.accounts.accepts && is_some (modified d (deposit_modifier x) v) ≡ true
        → total (transfer_credit s d x now v).1 ≡ o.add (total v) x
    unfolding transfer_credit append_transaction append_record
    transfer_credit-total s d x now v h = ground (
      arith,
      update-done d (deposit_modifier x) v,
      update-Updates d (deposit_modifier x) v,
      update_deposit-total d x v,
    )

    -- Where amounts do not round, a transfer leaves the sum of all balances as it is, whether it
    -- succeeds or fails.
    pub total-transfer_funds :
        (s d : ℕ) (x : F) (now : ℕ) (w : World F) → total (transfer_funds s d x now w).1 ≡ total w
    unfolding debited
    total-transfer_funds s d x now w = elim (Bool-cases (transfer_check s d x w).0) [
      | inr stop ↦
          rw (stopped s d x now s w stop) (ground (arith, check_refuse-accounts s d x none w))
      | inl go ↦ elim (update-Updates s (withdraw_modifier x) w) [
        | inr (e, no_debit) ↦
            rw (refused s d x now s w go e)
              (ground (arith, check_refuse-accounts s d x (account_of s w) w))
        | inl (b, rs, rs', h, m, q, a, e) ↦
            let done : (update s (withdraw_modifier x) w).0 ≡ true = ap (λ r. r.0) e in
            rw (went_through s d x now s w go done) (
              transfer_credit-total s d x now (debited s x w) (creditable s d x now s w go done)
              ∙ update_withdraw-total s x w done)
      ]
    ]
