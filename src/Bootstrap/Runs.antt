-- ===== src/Bootstrap/Runs.antt =====
-- What the runs of src/bootstrap.c leave in the files.
use banking_management_syste.Base.{
  ℕ, suc, ◌+◌, ◌<◌, ◌^◌, ◌≡◌, refl, sym, ap, ◌∙◌, Bool, true, false, not, List, [], ◌∷◌, arith,
  length, length-append, All, inl, inr, Bool-cases,
}
use mathlib.Core.Path.{subst}
use banking_management_syste.Base.Text.{Text, codes, streq}
use banking_management_syste.Store.{M, contents}
use banking_management_syste.Model.{World, Double, employee, manager, admin}
use banking_management_syste.Utils.{Crypt}
use banking_management_syste.Admin.{staff_role}
use banking_management_syste.Users.{NumberedFrom, NumberedFrom-append}
use banking_management_syste.Bootstrap.{
  success_count, initial_users, bootstrap, siddhesh, manasi, prakash, smita, priya, rohan,
}
use banking_management_syste.Bootstrap.Adders.{
  taken, taken-append, taken-new, IsReady, IsAdder, adder, add_employee-IsAdder,
  add_new_customer-IsAdder,
}

module _ {F : Type 0} where
  -- Each call is for its own username, email and phone.
  data Adders : List (Text × Text × Text) → List (M (World F) Bool) → Type 0 where
    no_more : Adders [] []
    one_more :
        {username email phone : Text} {creds : List (Text × Text × Text)} {add : M (World F) Bool}
        {adds : List (M (World F) Bool)}
        → IsAdder username email phone add
        → Adders creds adds
        → Adders ((username, email, phone) ∷ creds) (add ∷ adds)

  abbrev AllTaken : List (Text × Text × Text) → World F → Type 0
  AllTaken creds w =
      All (λ (username, email, phone). taken F username email phone (contents w.users) ≡ true) creds

  -- After a call there is room for one user less, and its credentials are taken, as are those that
  -- were.
  IsAdder-step :
      {username email phone : Text} {add : M (World F) Bool} {n : ℕ} {w : World F}
      → IsAdder username email phone add
      → IsReady (suc n) w
      → let w' = (add w).1 in
        IsReady n w'
        × (taken F username email phone (contents w'.users) ≡ true)
        × ((a b c : Text)
            → taken F a b c (contents w.users) ≡ true
            → taken F a b c (contents w'.users) ≡ true)
  IsAdder-step {username} {email} {phone} {add} {n} {w} (adder does) ready =
      let now : IsReady 1 w = record {
        writable = ready.writable;
        numbered = ready.numbered;
        room = omega (arith, ready.room);
      } in
      let (success, writable, refused, done) = does w now in
      elim (Bool-cases (add w).0) [
        | inl added ↦
            let (v, us, name, id) = done added in
            (
              record {
                writable = writable;
                numbered =
                    subst (NumberedFrom 1001) (sym us)
                      (NumberedFrom-append 1001 (contents w.users) v ready.numbered id);
                room =
                    omega
                      (arith, ap length us, length-append (contents w.users) (v ∷ []), ready.room);
              },
              subst (λ t. taken F username email phone t ≡ true) (sym us)
                  (taken-new F username email phone (contents w.users) v name (omega (arith, id))),
              λ a b c h.
                  subst (λ t. taken F a b c t ≡ true) (sym us)
                    (taken-append F a b c (contents w.users) (v ∷ []) h),
            )
        | inr failed ↦
            let (us, _) = refused failed in
            let keep : (a b c : Text)
                → taken F a b c (contents w.users) ≡ true
                → taken F a b c (contents (add w).1.users) ≡ true =
              λ a b c h. subst (λ t. taken F a b c t ≡ true) (sym us) h in
            (
              record {
                writable = writable;
                numbered = subst (NumberedFrom 1001) (sym us) ready.numbered;
                room = omega (arith, ap length us, ready.room);
              },
              keep username email phone (ground (arith, success, failed)),
              keep,
            )
      ]

  -- Where the credentials of all calls are taken, the calls fail and change neither file.
  success_count-taken :
      {creds : List (Text × Text × Text)} {adds : List (M (World F) Bool)}
      → Adders creds adds
      → (w : World F) → IsReady 1 w
      → AllTaken creds w
      → let (count, w') = success_count adds w in
        (count ≡ 0) × (contents w'.users ≡ contents w.users) × (w'.accounts ≡ w.accounts)
  unfolding success_count
  success_count-taken no_more w ready all = (refl, refl, refl)
  success_count-taken (one_more {username} {email} {phone} {creds} {add} {adds} (adder does) rest) w
        ready all =
      let (success, writable, refused, done) = does w ready in
      let failed : (add w).0 ≡ false = success ∙ ap not all.0 in
      let (us, accounts) = refused failed in
      let (count, us', accounts') =
        success_count-taken rest (add w).1
          (record {
            writable = writable;
            numbered = subst (NumberedFrom 1001) (sym us) ready.numbered;
            room = omega (arith, ap length us, ready.room);
          })
          (subst
            (λ t. All (λ (username, email, phone). taken F username email phone t ≡ true) creds)
            (sym us) all.1) in
      (rw failed count, us' ∙ us, accounts' ∙ accounts)

  -- After the calls the credentials of each are taken.
  success_count-fills :
      {creds : List (Text × Text × Text)} {adds : List (M (World F) Bool)}
      → Adders creds adds
      → (w : World F) → IsReady (suc (length adds)) w
      → let w' = (success_count adds w).1 in
        IsReady 1 w'
        × AllTaken creds w'
        × ((a b c : Text)
            → taken F a b c (contents w.users) ≡ true
            → taken F a b c (contents w'.users) ≡ true)
  unfolding success_count
  success_count-fills no_more w ready = (ready, tt, λ a b c h. h)
  success_count-fills (one_more {username} {email} {phone} {creds} {add} {adds} does rest) w ready =
      let (ready', own, keeps) = IsAdder-step {n = suc (length adds)} does ready in
      let (ready'', all, keeps') = success_count-fills rest (add w).1 ready' in
      (ready'', (keeps' username email phone own, all), λ a b c h. keeps' a b c (keeps a b c h))

abbrev initial_credentials : List (Text × Text × Text)
initial_credentials =
    (codes "siddhesh", siddhesh.email, siddhesh.phone)
    ∷ (codes "manasi", manasi.email, manasi.phone)
    ∷ (codes "prakash", prakash.email, prakash.phone)
    ∷ (codes "smita", smita.email, smita.phone)
    ∷ (codes "priya", priya.email, priya.phone)
    ∷ (codes "rohan", rohan.email, rohan.phone)
    ∷ []

module _ {F : Type 0} ⦃o : Double F⦄ (crypt : Crypt) where
  initial-Adders : (now : ℕ → ℕ) → Adders {F = F} initial_credentials (initial_users crypt now)
  unfolding staff_role streq
  initial-Adders now =
      one_more (add_employee-IsAdder crypt siddhesh _ _ _ _ admin refl (omega arith)) (
        one_more (add_employee-IsAdder crypt manasi _ _ _ _ manager refl (omega arith)) (
          one_more (add_employee-IsAdder crypt prakash _ _ _ _ employee refl (omega arith)) (
            one_more (add_employee-IsAdder crypt smita _ _ _ _ employee refl (omega arith)) (
              one_more (add_new_customer-IsAdder crypt _ _ _ _ (omega arith))
                (one_more (add_new_customer-IsAdder crypt _ _ _ _ (omega arith)) no_more)))))

  -- A second run of the program, at any later times, adds nobody and shows no credentials, and leaves
  -- the users and the accounts as the first run left them, whatever the files held before, if the
  -- users in them are numbered, there are numbers for seven more, and the users file can be written.
  pub bootstrap-again :
      (now later : ℕ → ℕ) (w : World F)
      → w.users.accepts ≡ true
      → NumberedFrom 1001 (contents w.users)
      → 1001 + (length (contents w.users) + 7) < 2 ^ 32
      → let w' = (bootstrap crypt now true w).1 in
        let ((status, count, shown), w'') = bootstrap crypt later true w' in
        (count ≡ 0)
        × (shown ≡ [])
        × (contents w''.users ≡ contents w'.users)
        × (w''.accounts ≡ w'.accounts)
  unfolding bootstrap
  bootstrap-again now later w writable numbered room =
      let (ready, all, keeps) =
        success_count-fills (initial-Adders now) w
          (record { writable = writable; numbered = numbered; room = room }) in
      let (none_added, us, accounts) =
        success_count-taken (initial-Adders later) (success_count (initial_users crypt now) w).1
          ready all in
      (none_added, rw none_added refl, us, accounts)
