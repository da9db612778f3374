-- ===== src/Locks/Serial.antt =====
-- The locked updates of src/utils.c when every thread is a process of its own: whatever the schedule,
-- they change the file as updates do that run one after another.
pub mod Runs
use banking_management_syste.Base.{
  ℕ, zero, suc, ◌+◌, ◌≡◌, ◌≢◌, refl, sym, ap, ◌∙◌, Bool, true, false, Option, none, some, List, [],
  ◌∷◌, ◌++◌, arith, ◌==◌, if◌then◌else◌, get_elem?, set, length, inl, inr, Bool-cases, Option-cases,
}
use mathlib.Core.Path.{subst}
use banking_management_syste.Store.Rows.{find_offset_from, revise, two_pass, two_pass-eq-revise}
use banking_management_syste.Locks.{
  Pc, searching, located, locked, loaded, closing, finished, Locks, no_locks, IsFcntl, lock_record,
  close, File, put, search_step, load_step, step_from, step, schedule, start,
}

get_elem?-set :
    {A : Type 0} (rs : List A) (i j : ℕ) (a : A) → i ≢ j → get_elem? (set rs i a) j ≡ get_elem? rs j
get_elem?-set [] i j a h = refl
get_elem?-set (r ∷ rs) zero zero a h = absurd (h refl)
get_elem?-set (r ∷ rs) zero (suc j) a h = refl
get_elem?-set (r ∷ rs) (suc i) zero a h = refl
get_elem?-set (r ∷ rs) (suc i) (suc j) a h = get_elem?-set rs i j a (λ e. h (ap suc e))

find_offset_from-set :
    {A : Type 0} (key : A → ℕ) (k : ℕ) (rs : List A) (pos i : ℕ) (a b : A)
    → get_elem? rs i ≡ some a
    → key b ≡ key a
    → find_offset_from key k (set rs i b) pos ≡ find_offset_from key k rs pos
unfolding find_offset_from
find_offset_from-set key k [] pos i a b h e = refl
find_offset_from-set key k (r ∷ rs) pos zero a b h e = ground (arith, h)
find_offset_from-set key k (r ∷ rs) pos (suc i) a b h e =
    ground (arith, find_offset_from-set key k rs (pos + 1) i a b h e)

-- The whole update of a thread at once.
abbrev pub update : {A : Type 0} → (A → ℕ) → (ℕ → ℕ) → (ℕ → A → Option A) → ℕ → List A → List A
update key target modifier i rows = elim (revise key (target i) (modifier i) rows) [
  | none ↦ rows
  | some rs ↦ rs
]

module _ (grants : ℕ → Option ℕ → Bool) {A : Type 0} (key : A → ℕ) (process target : ℕ → ℕ)
    (modifier : ℕ → A → Option A) where
  -- What a thread has found out still holds of the file, and it has the lock it asked for.
  abbrev pub Knows : List A → Locks → ℕ → Pc A → Type 0
  Knows rows locks i searching = Unit {0}
  Knows rows locks i (located offset) = find_offset_from key (target i) rows 0 ≡ some offset
  Knows rows locks i (locked offset) =
      (find_offset_from key (target i) rows 0 ≡ some offset) × (locks offset ≡ some (process i))
  Knows rows locks i (loaded offset tmp) =
      (find_offset_from key (target i) rows 0 ≡ some offset)
      × (locks offset ≡ some (process i))
      × (a : A) × (get_elem? rows offset ≡ some a)
      × (modifier i a ≡ some tmp)
  Knows rows locks i (closing success) = Unit {0}
  Knows rows locks i (finished success) = Unit {0}

  -- Locks that are not this thread's may change.
  Knows-locks :
      (rows : List A) (locks locks' : Locks) (i : ℕ) (p : Pc A)
      → ((offset : ℕ) → locks offset ≡ some (process i) → locks' offset ≡ some (process i))
      → Knows rows locks i p
      → Knows rows locks' i p
  Knows-locks rows locks locks' i searching h k = tt
  Knows-locks rows locks locks' i (located offset) h k = k
  Knows-locks rows locks locks' i (locked offset) h k = (k.0, h offset k.1)
  Knows-locks rows locks locks' i (loaded offset tmp) h (f, l, a, g, m) = (f, h offset l, a, g, m)
  Knows-locks rows locks locks' i (closing success) h k = tt
  Knows-locks rows locks locks' i (finished success) h k = tt

  -- A record whose lock this thread has not may change, but not its key.
  Knows-rows :
      (rows : List A) (locks : Locks) (i : ℕ) (p : Pc A) (offset : ℕ) (a b : A)
      → get_elem? rows offset ≡ some a
      → key b ≡ key a
      → locks offset ≢ some (process i)
      → Knows rows locks i p
      → Knows (set rows offset b) locks i p
  Knows-rows rows locks i searching offset a b g e n k = tt
  Knows-rows rows locks i (located o) offset a b g e n k =
      find_offset_from-set key (target i) rows 0 offset a b g e ∙ k
  Knows-rows rows locks i (locked o) offset a b g e n k =
      (find_offset_from-set key (target i) rows 0 offset a b g e ∙ k.0, k.1)
  Knows-rows rows locks i (loaded o tmp) offset a b g e n (f, l, c, h, m) = (
    find_offset_from-set key (target i) rows 0 offset a b g e ∙ f,
    l,
    c,
    get_elem?-set rows offset o b (λ s. n (ap locks s ∙ l)) ∙ h,
    m,
  )
  Knows-rows rows locks i (closing success) offset a b g e n k = tt
  Knows-rows rows locks i (finished success) offset a b g e n k = tt

  abbrev pub AllKnow : File A → Type 0
  AllKnow s = (j : ℕ) → Knows s.rows s.locks j (s.pc j)

  spread :
      (i : ℕ) (p : Pc A) (rows : List A) (locks : Locks) (pc : ℕ → Pc A)
      → Knows rows locks i p
      → ((j : ℕ) → j ≢ i → Knows rows locks j (pc j))
      → (j : ℕ) → Knows rows locks j (put i p pc j)
  spread i p rows locks pc own others j = elim (Bool-cases (j == i)) [
    | inl e ↦ let same : i ≡ j = ground arith in rw e (subst (λ k. Knows rows locks k p) same own)
    | inr e ↦ rw e (others j (λ q. ground arith))
  ]

  update-loaded :
      (rows : List A) (locks : Locks) (i offset : ℕ) (tmp : A)
      → Knows rows locks i (loaded offset tmp)
      → update key target modifier i rows ≡ set rows offset tmp
  update-loaded rows locks i offset tmp (f, l, a, g, m) =
      let rest : Option (List A) → List A = λ r. elim r [ none ↦ rows | some rs ↦ rs ] in
      let two : two_pass key (target i) (modifier i) rows ≡ some (set rows offset tmp) =
        ground (arith, f, g, m) in
      ap rest (sym (two_pass-eq-revise key (target i) (modifier i) rows) ∙ two)

  module _ (law : IsFcntl grants) (apart : (i j : ℕ) → process i ≡ process j → i ≡ j)
      (kept : (i : ℕ) (a b : A) → modifier i a ≡ some b → key b ≡ key a) where
    close-others :
        (i j : ℕ) (locks : Locks) (offset : ℕ)
        → j ≢ i
        → locks offset ≡ some (process j)
        → close (process i) locks offset ≡ some (process j)
    close-others i j locks offset n h = ground (arith, apart j i)

    lock_record-others :
        (i j o : ℕ) (locks : Locks) (offset : ℕ)
        → j ≢ i
        → grants (process i) (locks o) ≡ true
        → locks offset ≡ some (process j)
        → lock_record (process i) o locks offset ≡ some (process j)
    lock_record-others i j o locks offset n free h =
        ground (arith, law.other (process i) (process j) (λ e. n (apart j i e)))

    -- What a step keeps, and what it does to the file.
    abbrev pub Stepped : ℕ → File A → Pc A → File A → Type 0
    Stepped i s (loaded offset tmp) s' =
        AllKnow s' × (s'.rows ≡ update key target modifier i s.rows)
    Stepped i s _ s' = AllKnow s' × (s'.rows ≡ s.rows)

    search_step-AllKnow :
        (i : ℕ) (s : File A)
        → AllKnow s
        → let s' = search_step grants key process target modifier i s in
          AllKnow s' × (s'.rows ≡ s.rows)
    unfolding search_step
    search_step-AllKnow i s h = elim (Option-cases (find_offset_from key (target i) s.rows 0)) [
      | inl n ↦ rw n (
        spread i (finished false) s.rows (close (process i) s.locks) s.pc tt (λ j q.
            Knows-locks s.rows s.locks (close (process i) s.locks) j (s.pc j)
              (λ o. close-others i j s.locks o q) (h j)),
        refl,
      )
      | inr (o, n) ↦ rw n (
        spread i (located o) s.rows (close (process i) s.locks) s.pc n (λ j q.
            Knows-locks s.rows s.locks (close (process i) s.locks) j (s.pc j)
              (λ o. close-others i j s.locks o q) (h j)),
        refl,
      )
    ]

    load_step-AllKnow :
        (i offset : ℕ) (s : File A)
        → AllKnow s
        → Knows s.rows s.locks i (locked offset)
        → let s' = load_step grants key process target modifier i offset s in
          AllKnow s' × (s'.rows ≡ s.rows)
    unfolding load_step
    load_step-AllKnow i offset s h (f, l) =
        let others = λ (j : ℕ) (q : j ≢ i). h j in
        elim (Option-cases (get_elem? s.rows offset)) [
          | inl e ↦ rw e (spread i (closing false) s.rows s.locks s.pc tt others, refl)
          | inr (a, e) ↦ elim (Option-cases (modifier i a)) [
            | inl m ↦ rw (e, m) (spread i (closing false) s.rows s.locks s.pc tt others, refl)
            | inr (b, m) ↦
                rw (e, m)
                  (spread i (loaded offset b) s.rows s.locks s.pc (f, l, a, e, m) others, refl)
          ]
        ]

    pub step_from-AllKnow :
        (i : ℕ) (s : File A) (p : Pc A)
        → s.pc i ≡ p
        → AllKnow s
        → Stepped i s p (step_from grants key process target modifier p i s)
    unfolding step_from
    step_from-AllKnow i s searching e h = (search_step-AllKnow i s h)
    step_from-AllKnow i s (located offset) e h =
        let mine : Knows s.rows s.locks i (located offset) =
          subst (Knows s.rows s.locks i) e (h i) in
        elim (Bool-cases (grants (process i) (s.locks offset))) [
          | inr free ↦ rw free (h, refl)
          | inl free ↦ rw free (
            spread i (locked offset) s.rows (lock_record (process i) offset s.locks) s.pc
                (mine, ground arith)
                (λ j q.
                  Knows-locks s.rows s.locks (lock_record (process i) offset s.locks) j (s.pc j)
                    (λ o. lock_record-others i j offset s.locks o q free) (h j)),
            refl,
          )
        ]
    step_from-AllKnow i s (locked offset) e h =
        (load_step-AllKnow i offset s h (subst (Knows s.rows s.locks i) e (h i)))
    step_from-AllKnow i s (loaded offset tmp) e h =
        let mine : Knows s.rows s.locks i (loaded offset tmp) =
          subst (Knows s.rows s.locks i) e (h i) in
        let (f, l, a, g, m) = mine in
        (
          spread i (closing true) (set s.rows offset tmp) s.locks s.pc tt (λ j q.
              Knows-rows s.rows s.locks j (s.pc j) offset a tmp g (kept i a tmp m)
                (λ held. q (apart j i (ground arith))) (h j)),
          sym (update-loaded s.rows s.locks i offset tmp mine),
        )
    step_from-AllKnow i s (closing success) e h = (
      spread i (finished success) s.rows (close (process i) s.locks) s.pc tt (λ j q.
          Knows-locks s.rows s.locks (close (process i) s.locks) j (s.pc j)
            (λ o. close-others i j s.locks o q) (h j)),
      refl,
    )
    step_from-AllKnow i s (finished success) e h = (h, refl)
