-- ===== src/Store/Laws.antt =====
-- The generic file operations against one-pass descriptions of the records.
use banking_management_syste.Base.{
  ℕ, Option, List, ◌≡◌, inl, inr, true, false, none, some, arith, if◌then◌else◌, Option-cases, ◌⊎◌,
  Bool, Bool-cases, set, refl, ◌&&◌, ◌==◌,
}
use banking_management_syste.Store.Rows.{
  read-append, read-overwrite, find_offset_from, read_loop, find-read, set-revise, find-none,
  revise, two_pass-eq-revise,
}
use banking_management_syste.Store.{
  Place, atomic_update, find_offset, modify_at, read_at, write_back, write_at, pure, M, read_record,
  write_record, Table, contents,
}

module _ {S A : Type 0} (p : Place S A) (key : A → ℕ) where
  -- What an update with a modifier that reads and writes only the record does.
  abbrev pub revised : ℕ → (A → Option A) → S → Option (List A)
  revised k f s = elim (p.get s).rows [ none ↦ none | some rs ↦ revise key k f rs ]

  -- For a modifier that is a function of the record alone, the two locked passes of an update do what
  -- one pass over the records does, and an update that finds no record, is aborted or cannot write
  -- leaves the whole state alone and says so.
  pub atomic_update-pure :
      (k : ℕ) (f : A → Option A) (s : S)
      → atomic_update p key k (λ a. pure (f a)) s ≡ elim (revised k f s) [
        | none ↦ (false, s)
        | some rs ↦
            if (p.get s).accepts
            then (true, p.put (record (p.get s) { rows = some rs }) s)
            else (false, s)
      ]
  unfolding atomic_update find_offset modify_at read_at write_back write_at
  atomic_update-pure k f s = elim (Option-cases (p.get s).rows) [
    | inl e ↦ ground arith
    | inr (rs, e) ↦ ground (arith, two_pass-eq-revise key k f rs)
  ]

  -- How an update with any modifier ends: no record, an aborted modifier, a file that does not accept
  -- the write, or the record replaced in the file as the modifier left it.
  abbrev pub Updated : ℕ → (A → M S (Option A)) → S → Bool × S → Type 0
  Updated k m s r =
      ((read_record key k (p.get s) ≡ none) × (r ≡ (false, s)))
      ⊎ ((a : A) × (read_record key k (p.get s) ≡ some a)
          × (((m a s).0 ≡ none) × (r ≡ (false, (m a s).1))))
      ⊎ ((a : A) × (b : A) × (read_record key k (p.get s) ≡ some a)
          × ((m a s).0 ≡ some b)
          × ((p.get (m a s).1).accepts ≡ false)
          × (r ≡ (false, (m a s).1)))
      ⊎ ((a : A) × (b : A) × (rs : List A) × (rs' : List A) × (read_record key k (p.get s) ≡ some a)
          × ((m a s).0 ≡ some b)
          × ((p.get s).rows ≡ some rs)
          × (revise key k (λ _. some b) rs ≡ some rs')
          × ((p.get (m a s).1).accepts ≡ true)
          × (r ≡ (true, p.put (record (p.get (m a s).1) { rows = some rs' }) (m a s).1)))

  -- An update ends in one of these ways, if the modifier leaves the records of the file alone.
  pub atomic_update-Updated :
      (k : ℕ) (m : A → M S (Option A)) (s : S)
      → ((a : A) → (p.get (m a s).1).rows ≡ (p.get s).rows)
      → Updated k m s (atomic_update p key k m s)
  unfolding atomic_update modify_at read_at write_back write_at read_record find_offset
  atomic_update-Updated k m s same = elim (Option-cases (p.get s).rows) [
    | inl e ↦ inl (ground arith, ground arith)
    | inr (rs, e) ↦ elim (Option-cases (read_loop key k rs)) [
      | inl n ↦ inl (ground arith, ground (arith, find-none key k rs))
      | inr (a, q) ↦ elim (Option-cases (find_offset_from key k rs 0)) [
        | inl n ↦ absurd (ground (arith, find-none key k rs))
        | inr (i, f) ↦ elim (Option-cases (m a s).0) [
          | inl z ↦ inr (inl (a, ground arith, (z, ground (arith, find-read key k rs i f))))
          | inr (b, z) ↦ elim (Bool-cases (p.get (m a s).1).accepts) [
            | inr no_write ↦ inr (
                inr (inl (a, b, ground arith, z, no_write, ground (arith, find-read key k rs i f))))
            | inl ok ↦ inr (
                inr (
                  inr (
                    a,
                    b,
                    rs,
                    set rs i b,
                    ground arith,
                    z,
                    e,
                    set-revise key k rs i a b f q,
                    ok,
                    ground (arith, find-read key k rs i f, same a),
                  )))
          ]
        ]
      ]
    ]
  ]

module _ {A : Type 0} (key : A → ℕ) where
  -- A record that has been written is the one that reads find under its key, whether it replaced an
  -- older one or was appended; other keys read as before. Where the file does not accept the write,
  -- all keys read as before.
  pub read-write :
      (j : ℕ) (a : A) (t : Table A)
      → read_record key j (write_record key a t)
        ≡ (if t.accepts && (j == key a) then some a else read_record key j t)
  unfolding read_record write_record read_loop
  read-write j a t = elim (Option-cases (find_offset_from key (key a) (contents t) 0)) [
    | inl e ↦ ground (arith, find-none key (key a) (contents t), read-append key j (contents t) a)
    | inr (i, e) ↦ elim (Option-cases (read_loop key (key a) (contents t))) [
      | inl n ↦ absurd (ground (arith, find-none key (key a) (contents t)))
      | inr (b, r) ↦ ground (
        arith,
        read-overwrite key j (key a) a (contents t) (set (contents t) i a) refl
            (set-revise key (key a) (contents t) i b a e r),
      )
    ]
  ]
