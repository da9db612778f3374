-- ===== src/Locks/Serial/Runs.antt =====
-- Whole schedules of the locked updates against updates one after another.
use banking_management_syste.Base.{
  ℕ, suc, ◌+◌, ◌≡◌, refl, sym, ap, ◌∙◌, Bool, true, Option, some, List, [], ◌∷◌, ◌++◌, arith, ◌==◌,
  if◌then◌else◌,
}
use banking_management_syste.Locks.{
  IsFcntl, Pc, searching, located, locked, loaded, closing, finished, File, search_step, load_step,
  step_from, step, schedule, start,
}
use banking_management_syste.Locks.Serial.{AllKnow, update, step_from-AllKnow}

module _ {A : Type 0} where
  -- The thread, if its next step writes.
  abbrev writes : Pc A → ℕ → List ℕ
  writes (loaded offset tmp) i = i ∷ []
  writes _ i = []

  -- 1 if the thread has written.
  abbrev pub wrote : Pc A → ℕ
  wrote (closing true) = 1
  wrote (finished true) = 1
  wrote _ = 0

unfoldable pub count : ℕ → List ℕ → ℕ
count i [] = 0
count i (j ∷ js) = if i == j then suc (count i js) else count i js

count_append : (i : ℕ) (js ks : List ℕ) → count i (js ++ ks) ≡ count i js + count i ks
unfolding count
count_append i [] ks = omega arith
count_append i (j ∷ js) ks = ground (arith, count_append i js ks)

module _ {A : Type 0} (key : A → ℕ) (target : ℕ → ℕ) (modifier : ℕ → A → Option A) where
  -- The updates of the threads one after another.
  unfoldable pub serial : List ℕ → List A → List A
  serial [] rows = rows
  serial (i ∷ is) rows = serial is (update key target modifier i rows)

  serial_append :
      (is js : List ℕ) (rows : List A) → serial (is ++ js) rows ≡ serial js (serial is rows)
  unfolding serial
  serial_append [] js rows = refl
  serial_append (i ∷ is) js rows = serial_append is js (update key target modifier i rows)

module _ (grants : ℕ → Option ℕ → Bool) {A : Type 0} (key : A → ℕ) (process target : ℕ → ℕ)
    (modifier : ℕ → A → Option A) where
  -- The threads that write in a schedule, in the order of their writes.
  unfoldable pub writers : List ℕ → File A → List ℕ
  writers [] s = []
  writers (i ∷ is) s = writes (s.pc i) i ++ writers is (step grants key process target modifier i s)

  step_from-wrote :
      (i j : ℕ) (s : File A) (p : Pc A)
      → s.pc i ≡ p
      → wrote ((step_from grants key process target modifier p i s).pc j)
        ≡ wrote (s.pc j) + count j (writes p i)
  unfolding step_from search_step load_step count
  step_from-wrote i j s searching e = ground (arith, ap wrote e)
  step_from-wrote i j s (located offset) e = ground (arith, ap wrote e)
  step_from-wrote i j s (locked offset) e = ground (arith, ap wrote e)
  step_from-wrote i j s (loaded offset tmp) e = ground (arith, ap wrote e)
  step_from-wrote i j s (closing success) e = ground (arith, ap wrote e)
  step_from-wrote i j s (finished success) e = ground (arith, ap wrote e)

  schedule-wrote :
      (is : List ℕ) (j : ℕ) (s : File A)
      → wrote ((schedule grants key process target modifier is s).pc j)
        ≡ wrote (s.pc j) + count j (writers is s)
  unfolding schedule writers step count
  schedule-wrote [] j s = omega arith
  schedule-wrote (i ∷ is) j s = omega (
    arith,
    schedule-wrote is j (step grants key process target modifier i s),
    step_from-wrote i j s (s.pc i) refl,
    count_append j (writes (s.pc i) i) (writers is (step grants key process target modifier i s)),
  )

  module _ (law : IsFcntl grants) (apart : (i j : ℕ) → process i ≡ process j → i ≡ j)
      (kept : (i : ℕ) (a b : A) → modifier i a ≡ some b → key b ≡ key a) where
    step_from-serial :
        (i : ℕ) (s : File A) (p : Pc A)
        → s.pc i ≡ p
        → AllKnow grants key process target modifier s
        → let s' = step_from grants key process target modifier p i s in
          AllKnow grants key process target modifier s'
          × (s'.rows ≡ serial key target modifier (writes p i) s.rows)
    unfolding serial
    step_from-serial i s searching e h =
        step_from-AllKnow grants key process target modifier law apart kept i s searching e h
    step_from-serial i s (located offset) e h =
        step_from-AllKnow grants key process target modifier law apart kept i s (located offset) e h
    step_from-serial i s (locked offset) e h =
        step_from-AllKnow grants key process target modifier law apart kept i s (locked offset) e h
    step_from-serial i s (loaded offset tmp) e h =
        step_from-AllKnow grants key process target modifier law apart kept i s (loaded offset tmp)
          e h
    step_from-serial i s (closing success) e h =
        step_from-AllKnow grants key process target modifier law apart kept i s (closing success) e
          h
    step_from-serial i s (finished success) e h =
        step_from-AllKnow grants key process target modifier law apart kept i s (finished success) e
          h

    schedule-serial :
        (is : List ℕ) (s : File A)
        → AllKnow grants key process target modifier s
        → (schedule grants key process target modifier is s).rows
          ≡ serial key target modifier (writers is s) s.rows
    unfolding schedule writers step serial
    schedule-serial [] s h = refl
    schedule-serial (i ∷ is) s h =
        let (h', e) = step_from-serial i s (s.pc i) refl h in
        let s' = step grants key process target modifier i s in
        schedule-serial is s' h'
        ∙ ap (serial key target modifier (writers is s')) e
        ∙ sym (serial_append key target modifier (writes (s.pc i) i) (writers is s') s.rows)

    -- Where every thread is a process of its own and no modifier changes a key, every schedule of
    -- locked updates leaves the file as the updates that have written leave it, run whole one after
    -- another in the order of their writes; and each thread is among these once if it has written, and
    -- else never. So no update is lost.
    pub schedule-IsSerial :
        (is : List ℕ) (rows : List A) (i : ℕ)
        → let s = schedule grants key process target modifier is (start rows) in
          let order = writers is (start rows) in
          (s.rows ≡ serial key target modifier order rows) × (count i order ≡ wrote (s.pc i))
    schedule-IsSerial is rows i =
        (schedule-serial is (start rows) (λ j. tt), omega (arith, schedule-wrote is i (start rows)))
