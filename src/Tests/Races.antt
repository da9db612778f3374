-- ===== src/Tests/Races.antt =====
-- Tests and witnesses of locked updates by several threads.
use banking_management_syste.Base.{
  ℕ, ◌+◌, ◌≡◌, refl, Bool, true, Option, none, some, List, [], ◌∷◌, arith, ◌==◌, ◌*◌,
}
use banking_management_syste.Store.Rows.{find_offset_from}
use banking_management_syste.Locks.{IsFcntl, start, schedule}
use banking_management_syste.Locks.Serial.Runs.{writers, serial, count, wrote, schedule-IsSerial}
use banking_management_syste.Locks.Shared.{turns, schedule-loses}

-- Locks as they are documented.
grants : ℕ → Option ℕ → Bool
grants process none = true
grants process (some holder) = holder == process

grants-IsFcntl : IsFcntl grants
unfolding grants
grants-IsFcntl = record {
  unlocked = λ process. refl;
  own = λ process. ground arith;
  other = λ process holder h. ground arith;
}

-- Accounts as pairs of a number and a balance; thread 0 adds 5 and thread 1 adds 7.
abbrev Purse : Type 0
Purse = ℕ × ℕ

abbrev number : Purse → ℕ
number a = a.0

abbrev add_more : ℕ → Purse → Option Purse
add_more i (n, balance) = some (n, balance + (5 + 2 * i))

abbrev purses : List Purse
purses = (1005, 500) ∷ (1006, 200) ∷ []

schedule-loses_example :
    (schedule grants number (λ i. 1) (λ i. 1005) add_more turns (start purses)).rows
    ≡ (1005, 507) ∷ (1006, 200) ∷ []
unfolding find_offset_from
schedule-loses_example =
    (schedule-loses grants grants-IsFcntl number 1 (λ i. 1005) add_more purses 0 (1005, 500)
      (1005, 505) (1005, 507) refl refl refl refl refl).0

schedule-IsSerial_example :
    let s = schedule grants number (λ i. i) (λ i. 1005) add_more turns (start purses) in
    let order = writers grants number (λ i. i) (λ i. 1005) add_more turns (start purses) in
    (s.rows ≡ serial number (λ i. 1005) add_more order purses) × (count 1 order ≡ wrote (s.pc 1))
schedule-IsSerial_example =
    schedule-IsSerial grants number (λ i. i) (λ i. 1005) add_more grants-IsFcntl (λ i j e. e)
      (λ i a b e. ground arith) turns purses 1
