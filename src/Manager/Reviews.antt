-- ===== src/Manager/Reviews.antt =====
-- Reviews of feedback, and account status, of src/manager_module.c.
use banking_management_syste.Base.{
  ℕ, ◌+◌, ◌≡◌, List, [], ◌∷◌, some, none, true, Bool, ◌&&◌, arith, if◌then◌else◌, refl, ◌==◌, ◌↔◌,
}
use banking_management_syste.Base.Text.{Text, codes, strncpy, strncat}
use banking_management_syste.Model.{World, Feedback, Account, active, inactive, format}
use banking_management_syste.Listing.{Printf, max_msg_len}
use banking_management_syste.Utils.{read_account}
use banking_management_syste.Utils.Accounts.{account_of, update-Updates, update-account_of, is_some}
use banking_management_syste.Manager.{
  set_status_modifier, set_account_status, review_loop, review_feedbacks,
}

-- Every record marked as reviewed.
abbrev pub all_reviewed : List Feedback → List Feedback
all_reviewed [] = []
all_reviewed (b ∷ bs) = record b { reviewed = true } ∷ all_reviewed bs

-- The records that a review lists.
abbrev pub unreviewed : List Feedback → List Feedback
unreviewed [] = []
unreviewed (b ∷ bs) = if b.reviewed then unreviewed bs else b ∷ unreviewed bs

abbrev pub count : List Feedback → ℕ
count [] = 0
count (b ∷ bs) = count bs + 1

mark_self : (b : Feedback) → b.reviewed ≡ true → record b { reviewed = true } ≡ b
mark_self b h = ground arith

review_loop-marks :
    (row : Feedback → Text) (bs : List Feedback) (acc : Text × ℕ)
    → (review_loop row true bs acc).0 ≡ all_reviewed bs
unfolding review_loop
review_loop-marks row [] acc = refl
review_loop-marks row (b ∷ bs) (buf, n) = ground (
  arith,
  mark_self b,
  review_loop-marks row bs (buf, n),
  review_loop-marks row bs (strncat max_msg_len buf (strncpy 600 (row b)), n + 1),
)

review_loop-count :
    (row : Feedback → Text) (accepts : Bool) (bs : List Feedback) (buf : Text) (n : ℕ)
    → (review_loop row accepts bs (buf, n)).1.1 ≡ n + count (unreviewed bs)
unfolding review_loop
review_loop-count row accepts [] buf n = omega arith
review_loop-count row accepts (b ∷ bs) buf n = ground (
  arith,
  review_loop-count row accepts bs buf n,
  review_loop-count row accepts bs (strncat max_msg_len buf (strncpy 600 (row b))) (n + 1),
)

unreviewed-all_reviewed : (bs : List Feedback) → unreviewed (all_reviewed bs) ≡ []
unreviewed-all_reviewed [] = refl
unreviewed-all_reviewed (b ∷ bs) = unreviewed-all_reviewed bs

module _ {F : Type 0} ⦃p : Printf F⦄ where
  -- A review of an existing feedback file that accepts writes marks every record as reviewed and
  -- changes nothing else in it, and no other file; it answers that there is nothing new exactly if
  -- every record was reviewed before.
  pub review_feedbacks_lem :
      (w : World F) (bs : List Feedback)
      → w.feedback.rows ≡ some bs
      → w.feedback.accepts ≡ true
      → let (r, w') = review_feedbacks w in
        (r ≡ true)
        × (w' ≡ record w {
          feedback = record { rows = some (all_reviewed bs); accepts = true };
          resp = w'.resp;
        })
        × ((w'.resp ≡ some (format "No new feedback found to review." [])) ↔ (unreviewed bs ≡ []))
  unfolding review_feedbacks
  review_feedbacks_lem w bs e ok = ground (
    arith,
    review_loop-marks p.review_row bs (codes "--- Unreviewed Feedback ---\n", 0),
    review_loop-count p.review_row true bs (codes "--- Unreviewed Feedback ---\n") 0,
  )

module _ {F : Type 0} where
  abbrev pub with_status : ℕ → Account F → Account F
  with_status status a = record a { active = if status == 1 then active else inactive }

  -- A change of status succeeds exactly for an existing account, if the accounts file accepts the
  -- write. It makes that account active for the status 1 and inactive for any other, keeps its
  -- balance, and changes no other account and no other file.
  pub set_account_status_lem :
      (k status j : ℕ) (w : World F)
      → let (r, w') = set_account_status k status w in
        (r ≡ w.accounts.accepts && is_some (account_of k w))
        × (account_of j w' ≡ (
            if r && (j == k)
            then elim (account_of k w) [ none ↦ none | some a ↦ some (with_status status a) ]
            else account_of j w))
        × (w' ≡ record w { accounts = w'.accounts; resp = w'.resp })
  unfolding set_account_status set_status_modifier read_account
  set_account_status_lem k status j w = ground (
    arith,
    update-Updates k (set_status_modifier status) w,
    update-account_of k (set_status_modifier status) w j (λ a. refl),
  )
