-- ===== src/Inspector/Laws.antt =====
-- What the dumps of src/db_inspector.c show of the files.
use banking_management_syste.Base.{
  ℕ, suc, ◌+◌, ◌≡◌, refl, ap, Option, none, some, List, [], ◌∷◌, ◌++◌, arith, length,
}
use mathlib.Core.List.{append_assoc, map}
use native.Mathlib.Numerals.{unary_clauses}
use Prim.Native.String.{String}
use banking_management_syste.Base.Text.{Text}
use banking_management_syste.Store.{Table}
use banking_management_syste.Model.{Account, format, num, User, Status, active, inactive}
use banking_management_syste.Inspector.{
  print_accounts, print_users, print_file, user_lines, title, account_lines, status_text, Output,
  printf, dump, Status, format, account_lines, Account, status_text,
}

module _ {F : Type 0} {A : Type 0} (heading : String) (show : A → Output F) where
  dump-append :
      (n : ℕ) (rs : List A) (r : A) (rest : List A)
      → dump heading show n (rs ++ r ∷ rest)
        ≡ dump heading show n rs
          ++ (format heading (num (n + length rs) ∷ []) ∷ show r
              ++ dump heading show (suc (n + length rs)) rest)
  unfolding dump
  dump-append n [] r rest = simp unary_clauses refl
  dump-append n (s ∷ rs) r rest =
      let e : suc n + length rs ≡ n + suc (length rs) = omega arith in
      rw (dump-append (suc n) rs r rest, e, append_assoc (show s) (dump heading show (suc n) rs) _)
        refl

status_text-injective : (s t : Status) → status_text s ≡ status_text t → s ≡ t
status_text-injective inactive inactive h = refl
status_text-injective active active h = refl
status_text-injective inactive active h = absurd (ground arith)
status_text-injective active inactive h = absurd (ground arith)

-- What the dump can show of an account: its numbers, its balance to two digits, and its status.
abbrev pub Seen : Type 0
Seen = ℕ × ℕ × Text × Status

module _ {F : Type 0} (two_digits : F → Text) where
  abbrev pub seen : Account F → Seen
  seen a = (a.account_id, a.user_id, two_digits a.balance, a.active)

  abbrev pub seen_rows : Option (List (Account F)) → Option (List Seen)
  seen_rows none = none
  seen_rows (some rs) = some (map seen rs)

  -- The lines of an account tell what they show.
  account_lines-injective :
      (a b : Account F) (xs ys : Output F)
      → account_lines two_digits a ++ xs ≡ account_lines two_digits b ++ ys
      → (seen a ≡ seen b) × (xs ≡ ys)
  unfolding account_lines
  account_lines-injective a b xs ys h =
      let id : a.account_id ≡ b.account_id = ground (arith, h) in
      let user : a.user_id ≡ b.user_id = ground (arith, h) in
      let balance : two_digits a.balance ≡ two_digits b.balance = ground (arith, h) in
      let status : status_text a.active ≡ status_text b.active = ground (arith, h) in
      let same = status_text-injective a.active b.active status in
      ((λ i. (id i, user i, balance i, same i)), ground (arith, h))

  dump-injective :
      (heading : String) (n : ℕ) (rs qs : List (Account F))
      → dump heading (account_lines two_digits) n rs ≡ dump heading (account_lines two_digits) n qs
      → map seen rs ≡ map seen qs
  unfolding dump account_lines
  dump-injective heading n [] [] h = refl
  dump-injective heading n [] (q ∷ qs) h = absurd (ground arith)
  dump-injective heading n (r ∷ rs) [] h = absurd (ground arith)
  dump-injective heading n (r ∷ rs) (q ∷ qs) h =
      let (same, rest) =
        account_lines-injective r q (dump heading (account_lines two_digits) (suc n) rs)
          (dump heading (account_lines two_digits) (suc n) qs) (ground (arith, h)) in
      let more = dump-injective heading (suc n) rs qs rest in λ i. same i ∷ more i

  abbrev account_dump : Option (List (Account F)) → Output F
  account_dump rows = elim rows [
    | none ↦ printf "Could not open accounts.db" []
    | some rs ↦ dump "\n--- Account Record %d ---\n" (account_lines two_digits) 1 rs
  ]

  -- The dump of the accounts tells whether the file opens and, of every account in it in order, the two
  -- numbers, the status, and the balance to two digits: two files with equal dumps agree in these.
  pub print_accounts-injective :
      (t s : Table (Account F))
      → print_accounts two_digits t ≡ print_accounts two_digits s
      → seen_rows t.rows ≡ seen_rows s.rows
  unfolding print_accounts print_file dump
  print_accounts-injective t s h = go t.rows s.rows (ground (arith, h))
    where
      go :
          (rows others : Option (List (Account F)))
          → account_dump rows ≡ account_dump others
          → seen_rows rows ≡ seen_rows others
      go none none e = refl
      go none (some []) e = absurd (ground (arith, e))
      go none (some (q ∷ qs)) e = absurd (ground (arith, e))
      go (some []) none e = absurd (ground (arith, e))
      go (some (r ∷ rs)) none e = absurd (ground (arith, e))
      go (some rs) (some qs) e = ap some (dump-injective _ 1 rs qs e)

module _ {F : Type 0} where
  module _ (ctime : ℕ → Text) where
    -- A user in the file is shown under its place in the file, between the users before and after it.
    pub print_users_lem :
        (t : Table User) (before after : List User) (u : User)
        → t.rows ≡ some (before ++ u ∷ after)
        → let heading : String = "\n--- User Record %d ---\n" in
          print_users ctime t
          ≡ title {F = F} "  DUMPING USERS (from %s)\n" "./db/users.db"
            ++ (dump heading (user_lines ctime) 1 before
                ++ (format heading (num (suc (length before)) ∷ [])
                    ∷ (user_lines ctime u
                        ++ dump heading (user_lines ctime) (suc (suc (length before))) after)))
    unfolding print_users print_file
    print_users_lem t before after u e =
        let n : 1 + length before ≡ suc (length before) = omega arith in
        rw (e, dump-append "\n--- User Record %d ---\n" (user_lines ctime) 1 before u after, n) refl
