-- ===== src/Auth/Lockout.antt =====
-- The lockout of `login` (routers/auth.py): what wrong guesses do to an account, and what a locked
-- account answers.
use karibu.Prelude.{
  ℕ, ◌+◌, ◌*◌, ◌<◌, ◌≡◌, ◌≢◌, inl, inr, refl, sym, ap, ◌∙◌, String, Bool, true, false, ◌&&◌, some,
  List, [], ◌∷◌, arith, leb, if◌then◌else◌, select, select_all, update, length, strip, All,
  All-mono, All-update, Bool-cases, Option-cases,
}
use mathlib.Core.Path.{subst}
use karibu.Api.{Result, ok, err, invalid_credentials, too_many_attempts}
use karibu.Access.{User}
use karibu.Accounts.{Accounts, is_user, HasUserIds}
use karibu.Passwords.{Unicode}
use karibu.Auth.{
  Crypto, LockoutSettings, matches, fail_login, is_locked, admit, signed_in, count_failure,
  on_match, try_candidates, login,
}
use karibu.Auth.Rows.{
  select-none_of, update-none_of, list-cases, select-update_by, HasUserIds-update, HasUserIds-same,
  select-select_all,
}

module _ (py : Unicode) (lib : Crypto) (s : LockoutSettings) where
  -- No account that the identifier finds has the password.
  abbrev pub IsWrong : String → List User → String × ℕ → Type 0
  IsWrong identifier us guess =
      All
        (λ (u : User).
          (matches py (strip identifier) u && lib.verify guess.0 u.password_hash) ≡ false)
        us

  abbrev verified : String → User → Bool
  verified password u = lib.verify password u.password_hash

  -- sign-ins in a row under one identifier, each with a password and a time
  abbrev pub guess : String → List (String × ℕ) → Accounts → Accounts
  guess identifier [] db = db
  guess identifier (g ∷ gs) db = guess identifier gs (login py lib s identifier g.0 g.1 db).0

  -- A wrong guess counts against each account of the identifier.
  pub login-wrong :
      (identifier : String) (g : String × ℕ) (db : Accounts)
      → IsWrong identifier db.users g
      → login py lib s identifier g.0 g.1 db
        ≡ (count_failure py s (strip identifier) g.1 db, err invalid_credentials)
  unfolding login try_candidates on_match count_failure
  login-wrong identifier g db h =
      let key = strip identifier in
      let found = select-none_of (matches py key) (verified g.0) db.users h in
      elim (list-cases (select_all (matches py key) db.users)) [
        | inl e ↦ rw (e, update-none_of (matches py key) (fail_login s g.1) db.users e) refl
        | inr (c, cs, e) ↦ rw e (rw (rw e at found) refl)
      ]

  fail_login-same : (now : ℕ) (c : User) → (fail_login s now c).id ≡ c.id
  unfolding fail_login
  fail_login-same now c = refl

  -- An account after the guesses that were counted against it.
  abbrev pub failed : List (String × ℕ) → User → User
  failed [] u = u
  failed (g ∷ gs) u = failed gs (fail_login s g.1 u)

  abbrev last_at : List (String × ℕ) → ℕ
  last_at [] = 0
  last_at (g ∷ []) = g.1
  last_at (g ∷ h ∷ gs) = last_at (h ∷ gs)

  -- As many guesses as are left lock the account from the last of them.
  failed-locked :
      (gs : List (String × ℕ)) (u : User)
      → 0 < length gs
      → u.failed_logins + length gs ≡ s.threshold
      → (failed gs u).locked_until ≡ some (last_at gs + s.minutes * 60)
  unfolding fail_login
  failed-locked [] u some_left count = absurd (omega arith)
  failed-locked (g ∷ []) u some_left count = ground arith
  failed-locked (g ∷ h ∷ gs) u some_left count =
      let open_yet : leb s.threshold (u.failed_logins + 1) ≡ false = ground arith in
      let count_next : (fail_login s g.1 u).failed_logins ≡ u.failed_logins + 1 =
        rw open_yet refl in
      failed-locked (h ∷ gs) (fail_login s g.1 u) (omega arith) (omega arith)

  -- A wrong guess changes neither identifiers nor passwords.
  IsWrong-failed :
      (identifier : String) (now : ℕ) (g : String × ℕ) (us : List User)
      → IsWrong identifier us g
      → IsWrong identifier (update (matches py (strip identifier)) (fail_login s now) us) g
  unfolding fail_login matches
  IsWrong-failed identifier now g us h =
      All-update _ _ (matches py (strip identifier)) (fail_login s now) us (λ x p _. p) (λ x p _. p)
        h

  guess-users :
      (identifier : String) (g : String × ℕ) (gs : List (String × ℕ)) (db : Accounts)
      → IsWrong identifier db.users g
      → guess identifier (g ∷ gs) db
        ≡ guess identifier gs (count_failure py s (strip identifier) g.1 db)
  guess-users identifier g gs db h =
      ap (λ (r : Accounts × Result User). guess identifier gs r.0) (login-wrong identifier g db h)

  -- An account of the identifier after wrong guesses; ids stay apart.
  pub guess-failed :
      (identifier : String) (gs : List (String × ℕ)) (k : ℕ) (u : User) (db : Accounts)
      → HasUserIds db.users
      → select (is_user k) db.users ≡ some u
      → matches py (strip identifier) u ≡ true
      → All (IsWrong identifier db.users) gs
      → HasUserIds (guess identifier gs db).users
        × (select (is_user k) (guess identifier gs db).users ≡ some (failed gs u))
  unfolding count_failure matches fail_login
  guess-failed identifier [] k u db ids found own wrong = (ids, found)
  guess-failed identifier (g ∷ gs) k u db ids found own wrong =
      let key = strip identifier in
      let next = count_failure py s key g.1 db in
      let rest =
        guess-failed identifier gs k (fail_login s g.1 u) next
          (HasUserIds-update (matches py key) (fail_login s g.1) db.users (fail_login-same g.1) ids)
          (select-update_by k (matches py key) (fail_login s g.1) db.users u (fail_login-same g.1)
            own found)
          own
          (All-mono (IsWrong identifier db.users) (IsWrong identifier next.users) gs
            (λ x w. IsWrong-failed identifier g.1 x db.users w) wrong.1) in
      subst
        (λ (d : Accounts).
          HasUserIds d.users × (select (is_user k) d.users ≡ some (failed gs (fail_login s g.1 u))))
        (sym (guess-users identifier g gs db wrong.0)) rest

  admit-locked : (now : ℕ) (u : User) → is_locked now u ≡ true → admit now u ≡ err too_many_attempts
  unfolding admit
  admit-locked now u locked = rw locked refl

  admit-same : (now : ℕ) (u row : User) → admit now u ≡ ok row → row.id ≡ u.id
  unfolding admit
  admit-same now u row h = ground arith

  signed_in-eq-ok :
      (first : Result User) (row : User) (db : Accounts)
      → (signed_in first db).1 ≡ ok row
      → first ≡ ok row
  unfolding signed_in
  signed_in-eq-ok (ok r) row db h = h
  signed_in-eq-ok (err e) row db h = h

  -- A sign-in that ends well is of an account whose password matched.
  pub try-eq-ok :
      (key password : String) (now : ℕ) (row : User) (db : Accounts) (cs : List User)
      → (try_candidates py lib s key password now db cs).1 ≡ ok row
      → (u : User) × (select (verified password) cs ≡ some u) × (admit now u ≡ ok row)
  unfolding try_candidates on_match signed_in
  try-eq-ok key password now row db [] done = absurd (cc)
  try-eq-ok key password now row db (c ∷ cs) done =
      elim (Option-cases (select (verified password) (c ∷ cs))) [
        | inl none_of ↦ absurd (let refused = rw none_of at done in cc)
        | inr (u, found) ↦ (u, found, signed_in-eq-ok (admit now u) row db (rw found at done))
      ]

  -- Nobody signs in to a locked account.
  pub login-locked :
      (identifier password : String) (now k : ℕ) (u row : User) (db : Accounts)
      → HasUserIds db.users
      → select (is_user k) db.users ≡ some u
      → is_locked now u ≡ true
      → (login py lib s identifier password now db).1 ≡ ok row
      → row.id ≢ k
  unfolding login
  login-locked identifier password now k u row db ids found locked done at_k =
      let key = strip identifier in
      let (v, matched, admitted) =
        try-eq-ok key password now row db (select_all (matches py key) db.users) done in
      let seen = select-select_all (matches py key) (verified password) db.users v matched in
      let own : v.id ≡ k = sym (admit-same now v row admitted) ∙ at_k in
      let same = HasUserIds-same db.users _ k u v ids found seen own in
      let refused = admit-locked now u locked in let opened = rw same at admitted in absurd (cc)

  -- While the one account of an identifier is locked, a sign-in is answered with too many attempts
  -- when the password is right and with invalid credentials when it is wrong.
  pub login-locked_answers :
      (identifier password : String) (now : ℕ) (u : User) (db : Accounts)
      → select_all (matches py (strip identifier)) db.users ≡ u ∷ []
      → is_locked now u ≡ true
      → (login py lib s identifier password now db).1
        ≡ err
            (if lib.verify password u.password_hash then too_many_attempts else invalid_credentials)
  unfolding login try_candidates on_match signed_in
  login-locked_answers identifier password now u db only locked =
      rw only (elim (Bool-cases (lib.verify password u.password_hash)) [
        | inl right ↦ rw (right, admit-locked now u locked) refl
        | inr wrong ↦ rw wrong refl
      ])

  locked_before :
      (now : ℕ) (u : User) (t : ℕ) → u.locked_until ≡ some t → now < t → is_locked now u ≡ true
  unfolding is_locked
  locked_before now u t until early = ground arith

  -- When wrong passwords are tried under an identifier of an account, as many as it has left
  -- before the threshold and none of them that of another account of the identifier, nobody signs
  -- in to that account, with any identifier and password, before the minutes of the lockout have
  -- passed since the last of them; no two users share an id.
  pub guesses_lock_out :
      (identifier : String) (gs : List (String × ℕ)) (k : ℕ) (u : User) (db : Accounts)
      (any_name any_password : String) (now : ℕ) (row : User)
      → HasUserIds db.users
      → select (is_user k) db.users ≡ some u
      → matches py (strip identifier) u ≡ true
      → All (IsWrong identifier db.users) gs
      → 0 < length gs
      → u.failed_logins + length gs ≡ s.threshold
      → now < last_at gs + s.minutes * 60
      → (login py lib s any_name any_password now (guess identifier gs db)).1 ≡ ok row
      → row.id ≢ k
  guesses_lock_out identifier gs k u db any_name any_password now row ids found own wrong some_left
        count early done =
      let (ids', found') = guess-failed identifier gs k u db ids found own wrong in
      let until = failed-locked gs u some_left count in
      login-locked any_name any_password now k (failed gs u) row (guess identifier gs db) ids'
        found' (locked_before now (failed gs u) (last_at gs + s.minutes * 60) until early) done
