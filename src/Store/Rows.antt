-- ===== src/Store/Rows.antt =====
-- The search loops of src/utils.c over the records of a file, and a search and update in one pass
-- that the two-pass update is compared with.
use banking_management_syste.Base.{
  ℕ, ◌+◌, ◌≡◌, refl, Option, none, some, List, [], ◌∷◌, ◌==◌, if◌then◌else◌, arith, suc, Bool-cases,
  false, get_elem?, set, Option-cases, inl, inr, ◌++◌, length, ◌↔◌,
}
use mathlib.Core.Option

module _ {A : Type 0} (key : A → ℕ) where
  -- `while (read(...)) { if (tmp.id == id) { found = offset; break; } offset += sizeof; }`
  unfoldable pub find_offset_from : ℕ → List A → ℕ → Option ℕ
  find_offset_from k [] pos = none
  find_offset_from k (r ∷ rs) pos = if key r == k then some pos else find_offset_from k rs (pos + 1)

  -- `while (read(...)) { if (tmp.id == id) { *out = tmp; found = 1; break; } }`
  unfoldable pub read_loop : ℕ → List A → Option A
  read_loop k [] = none
  read_loop k (r ∷ rs) = if key r == k then some r else read_loop k rs

  -- One pass: change the first record of the key, or none if there is none or the change aborts.
  unfoldable pub revise : ℕ → (A → Option A) → List A → Option (List A)
  revise k f [] = none
  revise k f (r ∷ rs) =
      if key r == k then Option.map (λ r'. r' ∷ rs) (f r) else Option.map (◌∷◌ r) (revise k f rs)

  find_offset_from_shift :
      (k : ℕ) (rs : List A) (pos : ℕ)
      → find_offset_from k rs pos ≡ Option.map (λ i. i + pos) (find_offset_from k rs 0)
  unfolding find_offset_from
  find_offset_from_shift k [] pos = refl
  find_offset_from_shift k (r ∷ rs) pos =
      ground (arith, find_offset_from_shift k rs (pos + 1), find_offset_from_shift k rs 1)

  -- The two passes: find the offset, then read, change and overwrite there.
  abbrev pub change_at : (A → Option A) → List A → ℕ → Option (List A)
  change_at f rs i = elim (get_elem? rs i) [
    | none ↦ none
    | some a ↦ elim (f a) [ none ↦ none | some b ↦ some (set rs i b) ]
  ]

  abbrev pub two_pass : ℕ → (A → Option A) → List A → Option (List A)
  two_pass k f rs = elim (find_offset_from k rs 0) [ none ↦ none | some i ↦ change_at f rs i ]

  change_at-cons :
      (f : A → Option A) (r : A) (rs : List A) (i : ℕ)
      → change_at f (r ∷ rs) (suc i) ≡ Option.map (◌∷◌ r) (change_at f rs i)
  change_at-cons f r rs i = ground arith

  two_pass-cons :
      (k : ℕ) (f : A → Option A) (r : A) (rs : List A)
      → (key r == k) ≡ false
      → two_pass k f (r ∷ rs) ≡ Option.map (◌∷◌ r) (two_pass k f rs)
  unfolding find_offset_from
  two_pass-cons k f r rs e = ground (arith, find_offset_from_shift k rs 1)

  pub two_pass-eq-revise :
      (k : ℕ) (f : A → Option A) (rs : List A) → two_pass k f rs ≡ revise k f rs
  unfolding revise find_offset_from
  two_pass-eq-revise k f [] = refl
  two_pass-eq-revise k f (r ∷ rs) =
      ground (arith, two_pass-cons k f r rs, two_pass-eq-revise k f rs)

  -- A change that leaves the key alone.
  abbrev pub Kept : A → Option A → Type 0
  Kept a none = Unit
  Kept a (some b) = key b ≡ key a

  abbrev pub changed : ℕ → (A → Option A) → List A → Option A
  changed k f rs = elim (read_loop k rs) [ none ↦ none | some a ↦ f a ]

  pub revise-none :
      (k : ℕ) (f : A → Option A) (rs : List A) → changed k f rs ≡ none → revise k f rs ≡ none
  unfolding revise read_loop
  revise-none k f [] h = refl
  revise-none k f (r ∷ rs) h = ground (arith, revise-none k f rs)

  pub revise-some :
      (k : ℕ) (f : A → Option A) (rs : List A) {b : A}
      → changed k f rs ≡ some b
      → (rs' : List A) × (revise k f rs ≡ some rs')
  unfolding revise read_loop
  revise-some k f [] h = cc
  revise-some k f (r ∷ rs) {b} h = elim (Bool-cases (key r == k)) [
    | inl e ↦ (b ∷ rs, ground arith)
    | inr e ↦ let (rs', q) = revise-some k f rs {b = b} (ground arith) in (r ∷ rs', ground arith)
  ]

  -- After a revision the key reads as changed, and every other key as before.
  pub read-revise :
      (j k : ℕ) (f : A → Option A) (rs rs' : List A)
      → ((a : A) → Kept a (f a))
      → revise k f rs ≡ some rs'
      → read_loop j rs' ≡ (if j == k then changed k f rs else read_loop j rs)
  unfolding revise read_loop
  read-revise j k f [] rs' keep h = cc
  read-revise j k f (r ∷ rs) rs' keep h = elim (Option-cases (revise k f rs)) [
    | inl e ↦ ground (arith, keep r)
    | inr (t, e) ↦ ground (arith, keep r, read-revise j k f rs t keep e)
  ]

  pub length-revise :
      (k : ℕ) (f : A → Option A) (rs rs' : List A)
      → revise k f rs ≡ some rs'
      → length rs' ≡ length rs
  unfolding revise
  length-revise k f [] rs' h = cc
  length-revise k f (r ∷ rs) rs' h = elim (Option-cases (revise k f rs)) [
    | inl e ↦ ground arith
    | inr (t, e) ↦ ground (arith, length-revise k f rs t e)
  ]

  pub read-append :
      (j : ℕ) (rs : List A) (a : A)
      → read_loop j (rs ++ a ∷ [])
        ≡ elim (read_loop j rs) [ none ↦ if key a == j then some a else none | some b ↦ some b ]
  unfolding read_loop
  read-append j [] a = refl
  read-append j (r ∷ rs) a = ground (arith, read-append j rs a)

  -- A search finds an offset exactly if it finds a record.
  pub find-none : (k : ℕ) (rs : List A) → (find_offset_from k rs 0 ≡ none) ↔ (read_loop k rs ≡ none)
  unfolding find_offset_from read_loop
  find-none k [] = (λ h. refl, λ h. refl)
  find-none k (r ∷ rs) = ground (arith, find-none k rs, find_offset_from_shift k rs 1)

  pub read-key : (k : ℕ) (rs : List A) (a : A) → read_loop k rs ≡ some a → key a ≡ k
  unfolding read_loop
  read-key k [] a h = cc
  read-key k (r ∷ rs) a h = ground (arith, read-key k rs a)

  -- The offset that a search finds is where the record stands that a read finds.
  pub find-read :
      (k : ℕ) (rs : List A) (i : ℕ)
      → find_offset_from k rs 0 ≡ some i
      → get_elem? rs i ≡ read_loop k rs
  unfolding find_offset_from read_loop
  find-read k [] i h = cc
  find-read k (r ∷ rs) i h = elim (Option-cases (find_offset_from k rs 0)) [
    | inl n ↦ ground (arith, find_offset_from_shift k rs 1)
    | inr (j, e) ↦ ground (arith, find_offset_from_shift k rs 1, find-read k rs j e)
  ]

  pub set-revise :
      (k : ℕ) (rs : List A) (i : ℕ) (a b : A)
      → find_offset_from k rs 0 ≡ some i
      → read_loop k rs ≡ some a
      → revise k (λ _. some b) rs ≡ some (set rs i b)
  set-revise k rs i a b h e =
      ground (arith, find-read k rs i h, two_pass-eq-revise k (λ _. some b) rs)

  -- Reading after a record has been overwritten by one of the same key.
  pub read-overwrite :
      (j k : ℕ) (b : A) (rs rs' : List A)
      → key b ≡ k
      → revise k (λ _. some b) rs ≡ some rs'
      → read_loop j rs' ≡ (if j == k then some b else read_loop j rs)
  unfolding revise read_loop
  read-overwrite j k b [] rs' kb h = cc
  read-overwrite j k b (r ∷ rs) rs' kb h = elim (Option-cases (revise k (λ _. some b) rs)) [
    | inl e ↦ ground arith
    | inr (t, e) ↦ ground (arith, read-overwrite j k b rs t kb e)
  ]
