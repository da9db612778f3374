-- ===== src/Tests/Totals.antt =====
-- Tests and witnesses of what deposits, withdrawals and transfers do to the sum of all balances.
use banking_management_syste.Base.{refl, arith, ◌≡◌}
use banking_management_syste.Base.Int.{pos, +ℤ_parts, -ℤ_parts, int_laws, eq_of_parts}
use banking_management_syste.Customer.{transfer_funds}
use banking_management_syste.Customer.Totals.{IsExact, total, total-transfer_funds}
use banking_management_syste.Customer.Solvency.{IsOrdered, IsSolvent, transfer_funds-IsSolvent}
use banking_management_syste.Tests.{cents, bank}

-- Whole cents do not round.
cents-IsExact : IsExact cents
cents-IsExact = record {
  add_comm = λ a b. eq_of_parts _ _ (omega int_laws);
  add_assoc = λ a b c. eq_of_parts _ _ (omega int_laws);
  add_cancel = λ a b c h. grind int_laws;
  sub_add = λ a b. eq_of_parts _ _ (omega int_laws);
}

total-transfer_funds_example : total (transfer_funds 1005 1006 (pos 70) 7 bank).1 ≡ total bank
total-transfer_funds_example = total-transfer_funds cents-IsExact 1005 1006 (pos 70) 7 bank

-- Whole cents are never NaN.
cents-IsOrdered : IsOrdered cents (λ x. Unit {0})
cents-IsOrdered = record {
  sub_nonneg = λ b x finite z h. ground (arith, -ℤ_parts b x);
  add_nonneg = λ b x finite h p. ground (arith, +ℤ_parts b x);
}

transfer_funds-IsSolvent_example : IsSolvent (transfer_funds 1005 1006 (pos 500) 7 bank).1
transfer_funds-IsSolvent_example =
    transfer_funds-IsSolvent (λ x. Unit {0}) cents-IsOrdered 1005 1006 (pos 500) 7 bank tt
      (refl, (refl, tt))
