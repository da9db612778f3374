-- ===== src/Store.antt =====
-- The database files of src/utils.c, generically. A file is the sequence of its records, or none
-- if it does not exist; `accepts` says whether a `write` to it stores the whole record. An offset
-- counts records. The whole-file locks and record locks leave no trace in a sequential run.
pub mod Rows
pub mod Laws
use banking_management_syste.Base.{
  ℕ, ◌+◌, ◌≡◌, Bool, true, false, Option, none, some, List, [], ◌∷◌, ◌++◌, ◌==◌, if◌then◌else◌,
  length, get_elem?, set,
}
use Rows.{find_offset_from, read_loop}

pub record Table (A : Type 0) : Type 0 where
  pub rows : Option (List A)
  pub accepts : Bool

-- A C function that changes the files and the response buffer.
abbrev pub M : Type 0 → Type 0 → Type 0
M S A = S → A × S

module _ {S : Type 0} where
  abbrev pub pure : {A : Type 0} → A → M S A
  pure a s = (a, s)

  infixl 5 ◌>>=◌ ◌>>◌
  abbrev pub ◌>>=◌ : {A B : Type 0} → M S A → (A → M S B) → M S B
  ◌>>=◌ m f s = let (a, s') = m s in f a s'

  abbrev pub ◌>>◌ : {A B : Type 0} → M S A → M S B → M S B
  m >> k = m >>= λ _. k

-- Where a file stands in the state.
pub record Place (S A : Type 0) : Type 0 where
  pub get : S → Table A
  pub put : Table A → S → S

-- The records that a descriptor opened with O_CREAT sees.
abbrev pub contents : {A : Type 0} → Table A → List A
contents t = elim t.rows [ none ↦ [] | some rs ↦ rs ]

module _ {A : Type 0} (key : A → ℕ) where
  -- The `find_*_offset` functions; none is -1, also where the file does not open.
  unfoldable pub find_offset : ℕ → Table A → Option ℕ
  find_offset k t = elim t.rows [ none ↦ none | some rs ↦ find_offset_from key k rs 0 ]

  -- The `read_*` functions.
  unfoldable pub read_record : ℕ → Table A → Option A
  read_record k t = elim t.rows [ none ↦ none | some rs ↦ read_loop key k rs ]

  -- The `write_*` functions where their file opens, but for their result, which is then 1: overwrite
  -- the record of the same key, or append.
  unfoldable pub write_record : A → Table A → Table A
  write_record a t = record t {
    rows = some (
        if t.accepts
        then elim (find_offset_from key (key a) (contents t) 0) [
          | none ↦ contents t ++ a ∷ []
          | some pos ↦ set (contents t) pos a
        ]
        else contents t);
  }

-- The `append_*` functions: the record gets the number of records so far plus one as its id, which
-- the caller reads from it afterwards.
unfoldable pub append_record : {A : Type 0} → (ℕ → A → A) → A → Table A → A × Table A
append_record stamp a t =
    let a' = stamp (length (contents t) + 1) a in
    (a', record t { rows = some (if t.accepts then contents t ++ a' ∷ [] else contents t) })

-- read at an offset, and write at an offset inside the file
read_at : {A : Type 0} → ℕ → Table A → Option A
read_at offset t = elim t.rows [ none ↦ none | some rs ↦ get_elem? rs offset ]

write_at : {A : Type 0} → ℕ → A → Table A → Table A
write_at offset a t = record t {
  rows = elim t.rows [ none ↦ none | some rs ↦ some (set rs offset a) ];
}

module _ {S A : Type 0} (p : Place S A) where
  -- A modifier returns the changed record, or none to abort.
  write_back : ℕ → Option A → M S Bool
  unfolding write_at
  write_back offset none s = (false, s)
  write_back offset (some tmp) s =
      if (p.get s).accepts then (true, p.put (write_at offset tmp (p.get s)) s) else (false, s)

  modify_at : ℕ → (A → M S (Option A)) → M S Bool
  unfolding read_at write_back
  modify_at offset modifier s = elim (read_at offset (p.get s)) [
    | none ↦ (false, s)
    | some tmp ↦ let (r, s') = modifier tmp s in write_back offset r s'
  ]

  -- The `atomic_update_*` functions.
  unfoldable pub atomic_update : (A → ℕ) → ℕ → (A → M S (Option A)) → M S Bool
  unfolding find_offset modify_at
  atomic_update key k modifier s = elim (find_offset key k (p.get s)) [
    | none ↦ (false, s)
    | some offset ↦ modify_at offset modifier s
  ]
