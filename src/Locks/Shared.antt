-- ===== src/Locks/Shared.antt =====
-- The locked updates of src/utils.c when the threads are of one process, as those of the server are.
use banking_management_syste.Base.{
  ℕ, zero, suc, ◌≡◌, refl, Bool, true, Option, some, List, [], ◌∷◌, arith, ◌==◌, get_elem?, set, ap,
}
use banking_management_syste.Store.Rows.{find_offset_from}
use banking_management_syste.Locks.{
  finished, IsFcntl, search_step, load_step, step_from, step, schedule, start,
}

set-set : {A : Type 0} (rs : List A) (i : ℕ) (a b : A) → set (set rs i a) i b ≡ set rs i b
set-set [] i a b = refl
set-set (r ∷ rs) zero a b = refl
set-set (r ∷ rs) (suc i) a b = ap (r ∷◌) (set-set rs i a b)

eq_same : (n : ℕ) → (n == n) ≡ true
eq_same n = ground arith

-- The two threads take turns.
abbrev pub turns : List ℕ
turns = 0 ∷ 1 ∷ 0 ∷ 1 ∷ 0 ∷ 1 ∷ 0 ∷ 1 ∷ 0 ∷ 1 ∷ []

module _ (grants : ℕ → Option ℕ → Bool) (law : IsFcntl grants) {A : Type 0} (key : A → ℕ)
    (process : ℕ) (target : ℕ → ℕ) (modifier : ℕ → A → Option A) where
  -- Two threads of one process that update the same record and take turns both succeed, since fcntl
  -- grants both the lock; but the file is as if only the second had run: the first update is lost.
  pub schedule-loses :
      (rows : List A) (offset : ℕ) (a b c : A)
      → find_offset_from key (target 0) rows 0 ≡ some offset
      → target 1 ≡ target 0
      → get_elem? rows offset ≡ some a
      → modifier 0 a ≡ some b
      → modifier 1 a ≡ some c
      → let s = schedule grants key (λ i. process) target modifier turns (start rows) in
        (s.rows ≡ set rows offset c) × (s.pc 0 ≡ finished true) × (s.pc 1 ≡ finished true)
  unfolding schedule step step_from search_step load_step
  schedule-loses rows offset a b c found same read first second =
      rw
        (
          found,
          same,
          found,
          law.unlocked process,
          eq_same offset,
          law.own process,
          read,
          first,
          second,
        )
        (set-set rows offset b c, refl, refl)
