-- ===== src/Tests/Tools.antt =====
-- Tests and witnesses of the bootstrap program and of the inspector.
use banking_management_syste.Base.{◌≡◌, refl, true, some, [], ◌∷◌, arith, map, false}
use banking_management_syste.Base.Int.{ℤ, pos}
use banking_management_syste.Store.{Table, contents}
use banking_management_syste.Model.{World, Account, active}
use banking_management_syste.Utils.{Crypt}
use banking_management_syste.Bootstrap.{bootstrap}
use banking_management_syste.Bootstrap.Fresh.{bootstrap-fresh, known_by, six_users}
use banking_management_syste.Bootstrap.Runs.{bootstrap-again}
use banking_management_syste.Inspector.{print_accounts, print_file}
use banking_management_syste.Inspector.Laws.{print_accounts-injective, seen_rows}
use banking_management_syste.Tests.Scanner.{print_cents}
use banking_management_syste.Tests.{cents, bank, purse, stored}

abbrev shown_password : Crypt
shown_password password salt = some password

abbrev empty : World ℤ
empty = record bank { users = stored []; accounts = stored [] }

bootstrap-again_example :
    (bootstrap shown_password (λ n. n) true (bootstrap shown_password (λ n. n) true empty).1).0.1
    ≡ 0
bootstrap-again_example =
    (bootstrap-again shown_password (λ n. n) (λ n. n) empty refl tt (omega arith)).0

bootstrap-fresh_example :
    map known_by (contents (bootstrap shown_password (λ n. n) true empty).1.users)
    ≡ six_users shown_password
bootstrap-fresh_example = (bootstrap-fresh shown_password (λ n. n) empty refl refl).2

-- The same account in a file that can be written and in one that cannot.
abbrev one_account : Table (Account ℤ)
one_account = stored (purse 1005 (pos 5) active ∷ [])

abbrev sealed : Table (Account ℤ)
sealed = record { rows = some (purse 1005 (pos 5) active ∷ []); accepts = false }

print_accounts-injective_example :
    seen_rows print_cents one_account.rows ≡ seen_rows print_cents sealed.rows
unfolding print_accounts print_file
print_accounts-injective_example = print_accounts-injective print_cents one_account sealed refl
