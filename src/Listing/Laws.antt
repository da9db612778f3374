-- ===== src/Listing/Laws.antt =====
-- What the listing loops put into the buffer, against the whole text of the kept rows.
use banking_management_syste.Base.{
  ℕ, zero, suc, ◌-◌, ◌≡◌, refl, Bool, false, ◌||◌, List, [], ◌∷◌, ◌++◌, if◌then◌else◌, length, take,
  ◌≤◌, ◌<◌, sym, ap, ◌∙◌, inl, inr, true, none, some, reverse, arith, Bool-cases, Option-cases,
  get_elem?,
}
use banking_management_syste.Base.Text.{Text, strncat}
use mathlib.Core.List.{reverse-cons, append-nil, append_assoc}
use native.Mathlib.Nat.{suc-sub-suc}
use banking_management_syste.Listing.{list_rows, list_backwards, max_msg_len}

module _ {A : Type 0} (keep : A → Bool) (row : A → Text) where
  -- The text of all kept rows, and whether there is one.
  abbrev pub rows_text : List A → Text
  rows_text [] = []
  rows_text (r ∷ rs) = (if keep r then row r else []) ++ rows_text rs

  abbrev pub any_kept : List A → Bool
  any_kept [] = false
  any_kept (r ∷ rs) = keep r || any_kept rs

take-append_take :
    (n : ℕ) (a b : Text) → take n a ++ take (n - length (take n a)) b ≡ take n (a ++ b)
take-append_take zero a b = refl
take-append_take (suc n) [] b = let e : suc n - 0 ≡ suc n = omega arith in rw e
take-append_take (suc n) (x ∷ a) b = rw suc-sub-suc (ap (◌∷◌ x) (take-append_take n a b))

-- Appending to a buffer that holds the first 1023 bytes of a text gives those of the longer text.
strncat-take : (a s : Text) → strncat max_msg_len (take 1023 a) s ≡ take 1023 (a ++ s)
strncat-take a s =
    let e : max_msg_len - length (take 1023 a) - 1 ≡ 1023 - length (take 1023 a) = omega arith in
    rw e (take-append_take 1023 a s)

or_true : (b : Bool) → (b || true) ≡ true
or_true true = refl
or_true false = refl

or_false : (b : Bool) → (b || false) ≡ b
or_false true = refl
or_false false = refl

module _ {A : Type 0} (keep : A → Bool) (row : A → Text) where
  -- A listing that starts from the first 1023 bytes of a text ends with the first 1023 bytes of that
  -- text and all kept rows after it, and finds a row exactly if one is kept.
  pub list_rows_lem :
      (rs : List A) (a : Text) (found : Bool)
      → list_rows keep row rs (take 1023 a, found)
        ≡ (take 1023 (a ++ rows_text keep row rs), found || any_kept keep row rs)
  unfolding list_rows
  list_rows_lem [] a found = cc (append-nil a, or_false found)
  list_rows_lem (r ∷ rs) a found = elim (Bool-cases (keep r)) [
    | inl e ↦
        rw (e, strncat-take a (row r), list_rows_lem rs (a ++ row r) true) cc
          (append_assoc a (row r) (rows_text keep row rs), or_true found)
    | inr e ↦ rw (e, list_rows_lem rs a found)
  ]

  backwards : ℕ → List A → List A
  backwards zero rs = []
  backwards (suc i) rs = elim (get_elem? rs i) [ none ↦ [] | some r ↦ r ∷ backwards i rs ]

  list_backwards-backwards :
      (rs : List A) (i : ℕ) (acc : Text × Bool)
      → list_backwards keep row rs i acc ≡ list_rows keep row (backwards i rs) acc
  unfolding list_backwards list_rows backwards
  list_backwards-backwards rs zero acc = refl
  list_backwards-backwards rs (suc i) (buf, found) = elim (Option-cases (get_elem? rs i)) [
    | inl e ↦ ground arith
    | inr (r, e) ↦ ground (
      arith,
      list_backwards-backwards rs i (buf, found),
      list_backwards-backwards rs i (strncat max_msg_len buf (row r), true),
    )
  ]

  get_elem?-some : (i : ℕ) (xs : List A) → i < length xs → (r : A) × (get_elem? xs i ≡ some r)
  get_elem?-some i [] h = elim h [ ]
  get_elem?-some zero (x ∷ xs) h = (x, refl)
  get_elem?-some (suc i) (x ∷ xs) h = get_elem?-some i xs (omega arith)

  backwards-cons :
      (i : ℕ) (x : A) (xs : List A)
      → i ≤ length xs
      → backwards (suc i) (x ∷ xs) ≡ backwards i xs ++ x ∷ []
  unfolding backwards
  backwards-cons zero x xs h = refl
  backwards-cons (suc i) x xs h =
      let (r, e) = get_elem?-some i xs h in ground (arith, backwards-cons i x xs (omega arith))

  backwards-reverse : (xs : List A) → backwards (length xs) xs ≡ reverse xs
  unfolding backwards
  backwards-reverse [] = refl
  backwards-reverse (x ∷ xs) =
      backwards-cons (length xs) x xs (omega arith)
      ∙ (ap (λ ys. ys ++ x ∷ []) (backwards-reverse xs) ∙ sym (reverse-cons x xs))

  -- The backward loop lists the records last to first.
  pub list_backwards_lem :
      (rs : List A) (acc : Text × Bool)
      → list_backwards keep row rs (length rs) acc ≡ list_rows keep row (reverse rs) acc
  list_backwards_lem rs acc =
      list_backwards-backwards rs (length rs) acc
      ∙ ap (λ ys. list_rows keep row ys acc) (backwards-reverse rs)
