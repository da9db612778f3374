-- ===== src/Tests/Money.antt =====
-- Tests and witnesses of the deposits, withdrawals and transfers.
use banking_management_syste.Base.{◌≡◌, true, refl, false, ◌&&◌, some, [], ◌∷◌, ◌==◌, if◌then◌else◌}
use banking_management_syste.Base.Int.{ℤ, pos, ◌+ℤ◌, ◌-ℤ◌}
use banking_management_syste.Base.Text.{codes}
use banking_management_syste.Model.{World, accounts_db, active, inactive}
use banking_management_syste.Store.Rows.{revise, find_offset_from, read_loop}
use banking_management_syste.Store.{append_record, read_record, atomic_update, pure}
use banking_management_syste.Store.Laws.{atomic_update-pure}
use banking_management_syste.Utils.{
  atomic_update_account, append_transaction, account_key, read_account,
}
use banking_management_syste.Utils.Accounts.{account_of, modified, update, update-account_of}
use banking_management_syste.Customer.{
  transfer_check, transfer_debit, transfer_credit, deposit_modifier, withdraw_modifier,
  deposit_money, withdraw_money, transfer_funds, transfer_among, entry,
}
use banking_management_syste.Customer.Money.{
  raised, lowered, Posts, deposit_money-Posts, withdraw_money-Posts, deposit_modifier-Kept,
}
use banking_management_syste.Customer.Transfer.{Transfers, transfer_funds-Transfers}
use banking_management_syste.Customer.Rollback.{
  RollsBack, before_credit, transfer_among-RollsBack, transfer_among_loses,
}
use banking_management_syste.Tests.{cents, bank, purse, stored}

-- A deposit, a withdrawal and a transfer, run.
deposit_run :
    account_of 1005 (deposit_money 1005 (pos 50) 7 bank).1 ≡ some (purse 1005 (pos 550) active)
unfolding deposit_money atomic_update_account atomic_update find_offset_from deposit_modifier
    append_transaction append_record read_account read_record read_loop ◌+ℤ◌
deposit_run = refl

withdraw_run : (withdraw_money 1006 (pos 201) 7 bank).0 ≡ false
unfolding withdraw_money atomic_update_account atomic_update find_offset_from withdraw_modifier
    read_account read_record read_loop
withdraw_run = refl

transfer_run :
    account_of 1006 (transfer_funds 1005 1006 (pos 70) 7 bank).1
    ≡ some (purse 1006 (pos 270) active)
unfolding transfer_funds transfer_check transfer_debit transfer_credit atomic_update_account
    atomic_update find_offset_from deposit_modifier withdraw_modifier append_transaction
    append_record read_account read_record read_loop ◌+ℤ◌ ◌-ℤ◌
transfer_run = refl

atomic_update-pure_example :
    atomic_update accounts_db account_key 1005 (λ a. pure (deposit_modifier (pos 5) a)) bank ≡ (
      true,
      record bank {
        accounts = stored (purse 1005 (pos 505) active ∷ purse 1006 (pos 200) active ∷ []);
      },
    )
unfolding deposit_modifier revise ◌+ℤ◌
atomic_update-pure_example =
    atomic_update-pure accounts_db account_key 1005 (deposit_modifier (pos 5)) bank

update-account_of_example : account_of 1006 (update 1005 (deposit_modifier (pos 5)) bank).1 ≡ (
    if (update 1005 (deposit_modifier (pos 5)) bank).0 && (1006 == 1005)
    then modified 1005 (deposit_modifier (pos 5)) bank
    else account_of 1006 bank)
update-account_of_example =
    update-account_of 1005 (deposit_modifier (pos 5)) bank 1006 (deposit_modifier-Kept (pos 5))

deposit_money-Posts_example :
    Posts true 1005
      (raised (pos 50))
      (entry 0 1005 (pos 50) 7 (codes "deposit"))
      1006
      bank
      (deposit_money 1005 (pos 50) 7 bank)
deposit_money-Posts_example = deposit_money-Posts 1005 (pos 50) 7 1006 bank

withdraw_money-Posts_example :
    Posts true 1005
      (lowered (pos 50))
      (entry 1005 0 (pos 50) 7 (codes "withdraw"))
      1005
      bank
      (withdraw_money 1005 (pos 50) 7 bank)
withdraw_money-Posts_example = withdraw_money-Posts 1005 (pos 50) 7 1005 bank

transfer_funds-Transfers_example :
    Transfers 1005 1006 (pos 70) 7 1006 bank (transfer_funds 1005 1006 (pos 70) 7 bank)
transfer_funds-Transfers_example = transfer_funds-Transfers 1005 1006 (pos 70) 7 1006 bank

-- What a manager's request does to the accounts while the transfer runs.
abbrev deactivate_recipient : World ℤ → World ℤ
deactivate_recipient w = record w {
  accounts = stored (purse 1005 (pos 430) active ∷ purse 1006 (pos 200) inactive ∷ []);
}

abbrev deactivate_both : World ℤ → World ℤ
deactivate_both w = record w {
  accounts = stored (purse 1005 (pos 430) inactive ∷ purse 1006 (pos 200) inactive ∷ []);
}

transfer_among-RollsBack_example :
    RollsBack 1005
      (pos 70)
      1005
      (before_credit deactivate_recipient 1005 (pos 70) bank)
      (transfer_among (λ v. v) deactivate_recipient 1005 1006 (pos 70) 7 bank)
unfolding read_account read_record read_loop deposit_modifier withdraw_modifier
transfer_among-RollsBack_example =
    transfer_among-RollsBack deactivate_recipient 1005 1006 (pos 70) 7 bank refl 1005 refl

transfer_among_loses_example :
    account_of 1005 (transfer_among (λ v. v) deactivate_both 1005 1006 (pos 70) 7 bank).1
    ≡ some (purse 1005 (pos 430) inactive)
unfolding read_account read_record read_loop deposit_modifier withdraw_modifier
transfer_among_loses_example =
    (transfer_among_loses deactivate_both 1005 1006 (pos 70) 7 bank refl
      (purse 1005 (pos 430) inactive) (purse 1006 (pos 200) inactive) refl refl refl refl).1
