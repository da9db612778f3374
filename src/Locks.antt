-- ===== src/Locks.antt =====
-- The `atomic_update_*` functions of src/utils.c as the steps of several threads on one file, with the
-- fcntl locks between them. A lock is documented to belong to a process: which process a thread is of
-- is a parameter, and so is when fcntl grants one. The modifiers are functions of the record.
pub mod Serial
pub mod Shared
use banking_management_syste.Base.{
  ℕ, zero, suc, Bool, true, false, ◌&&◌, Option, none, some, List, [], ◌∷◌, ◌≡◌, ◌≢◌, ◌==◌,
  if◌then◌else◌, get_elem?, set, length,
}
use banking_management_syste.Store.Rows.{find_offset_from}

-- Where a thread stands in its call: before the search; with the offset; with the lock of the record;
-- with the changed record, before it writes; with the result, before it unlocks; and at the end.
pub data Pc (A : Type 0) : Type 0 where
  searching : Pc A
  located : ℕ → Pc A
  locked : ℕ → Pc A
  loaded : ℕ → A → Pc A
  closing : Bool → Pc A
  finished : Bool → Pc A

-- Which process has the lock of the record at an offset.
abbrev pub Locks : Type 0
Locks = ℕ → Option ℕ

abbrev pub no_locks : Locks
no_locks offset = none

-- What fcntl is documented to do with a request for a lock, by who has it: it grants the lock if nobody
-- has it or if the process itself has it, and waits if another process has it.
pub record IsFcntl (grants : ℕ → Option ℕ → Bool) : Type 0 where
  pub unlocked : (process : ℕ) → grants process none ≡ true
  pub own : (process : ℕ) → grants process (some process) ≡ true
  pub other : (process holder : ℕ) → holder ≢ process → grants process (some holder) ≡ false

abbrev pub lock_record : ℕ → ℕ → Locks → Locks
lock_record process offset locks k = if k == offset then some process else locks k

abbrev drop_lock : ℕ → Option ℕ → Option ℕ
drop_lock process none = none
drop_lock process (some other) = if other == process then none else some other

-- `close` drops all locks that the process has on the file.
abbrev pub close : ℕ → Locks → Locks
close process locks k = drop_lock process (locks k)

-- The file, its locks, and the threads.
pub record File (A : Type 0) : Type 0 where
  pub rows : List A
  pub locks : Locks
  pub pc : ℕ → Pc A

abbrev pub put : {A : Type 0} → ℕ → Pc A → (ℕ → Pc A) → ℕ → Pc A
put i p pc k = if k == i then p else pc k

module _ (grants : ℕ → Option ℕ → Bool) {A : Type 0} (key : A → ℕ) (process target : ℕ → ℕ)
    (modifier : ℕ → A → Option A) where
  -- The search opens the file for reading and asks for a lock for writing, which fcntl refuses on such
  -- a descriptor; the code ignores that, so the search never waits. Its `close` drops the locks that
  -- the process has.
  unfoldable pub search_step : ℕ → File A → File A
  search_step i s =
      let p : Pc A = elim (find_offset_from key (target i) s.rows 0) [
        | none ↦ finished false
        | some offset ↦ located offset
      ] in
      record { rows = s.rows; locks = close (process i) s.locks; pc = put i p s.pc }

  unfoldable pub load_step : ℕ → ℕ → File A → File A
  load_step i offset s =
      let p : Pc A = elim (get_elem? s.rows offset) [
        | none ↦ closing false
        | some tmp ↦ elim (modifier i tmp) [ none ↦ closing false | some tmp' ↦ loaded offset tmp' ]
      ] in
      record s { pc = put i p s.pc }

  -- The next step of thread `i` from where it stands; a thread waits while its lock is not granted.
  unfoldable pub step_from : Pc A → ℕ → File A → File A
  unfolding search_step load_step
  step_from searching i s = search_step i s
  step_from (located offset) i s =
      if grants (process i) (s.locks offset)
      then record s {
        locks = lock_record (process i) offset s.locks;
        pc = put i (locked offset) s.pc;
      }
      else s
  step_from (locked offset) i s = load_step i offset s
  step_from (loaded offset tmp) i s = record s {
    rows = set s.rows offset tmp;
    pc = put i (closing true) s.pc;
  }
  step_from (closing success) i s = record s {
    locks = close (process i) s.locks;
    pc = put i (finished success) s.pc;
  }
  step_from (finished success) i s = s

  unfoldable pub step : ℕ → File A → File A
  unfolding step_from
  step i s = step_from (s.pc i) i s

  -- The threads of a schedule, one step each.
  unfoldable pub schedule : List ℕ → File A → File A
  schedule [] s = s
  schedule (i ∷ is) s = schedule is (step i s)

abbrev pub start : {A : Type 0} → List A → File A
start rs = record { rows = rs; locks = no_locks; pc = λ i. searching }
