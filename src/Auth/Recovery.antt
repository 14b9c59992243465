-- ===== src/Auth/Recovery.antt =====
-- A forgotten password (routers/auth.py): the link, its one use, and the sign-in that follows.
use karibu.Prelude.{
  ℕ, ◌+◌, ◌≤◌, ◌≡◌, ◌≢◌, inl, inr, refl, sym, ap, String, Bool, true, false, none, some, List, [],
  ◌∷◌, arith, ltb, ◌==◌, if◌then◌else◌, select, select_all, update, strip, All, All-select,
  Bool-cases, is_empty, is_some,
}
use karibu.Prelude.{eq_iff}
use mathlib.Core.Path.{subst}
use karibu.Api.{ok, err, invalid_link, weak_password}
use karibu.Access.{User}
use karibu.Accounts.{password_reset, Accounts, is_user, HasUserIds}
use karibu.Passwords.{Unicode, password_problem}
use karibu.Auth.{
  Crypto, LockoutSettings, is_text, matches, is_locked, admit, clear_lockout, signed_in, on_match,
  try_candidates, login, hash_link_token, verify_link_token, ask_row, ask_reset, forgot_password,
  reset_by_link, holds_reset, reset_password, record_change,
}
use karibu.Auth.Rows.{update-absent, select_all-head}

-- The one row of a listing is what a narrower query finds.
select-only :
    (test wide : User → Bool) (us : List User) (u : User)
    → ((x : User) → wide x ≡ false → test x ≡ false)
    → select_all wide us ≡ u ∷ []
    → test u ≡ true
    → select test us ≡ some u
select-only test wide [] u narrow only t = absurd (cc)
select-only test wide (x ∷ xs) u narrow only t = elim (Bool-cases (wide x)) [
  | inl e ↦
      let same : x ≡ u = ground arith in
      subst (λ z. (if test z then some z else select test xs) ≡ some u) (sym same) (rw t refl)
  | inr e ↦ rw (narrow x e) (select-only test wide xs u narrow (rw e at only) t)
]

select-by_id :
    (test : User → Bool) (us : List User) (v : User)
    → HasUserIds us
    → select test us ≡ some v
    → select (is_user v.id) us ≡ some v
select-by_id test [] v ids h = absurd (cc)
select-by_id test (x ∷ xs) v ids h = elim (Bool-cases (test x)) [
  | inl e ↦
      let same : x ≡ v = ground arith in
      let own : (x.id == v.id) ≡ true = rw same (ground arith) in rw own (ap some same)
  | inr e ↦
      let rest = rw e at h in
      let apart = All-select (λ (y : User). y.id ≢ x.id) test xs v ids.0 rest in
      let other : (x.id == v.id) ≡ false = ground arith in
      rw other (select-by_id test xs v ids.1 rest)
]

-- Queries after one row was written back.
module _ (test : User → Bool) (k : ℕ) (s : User) where
  select-written :
      (us : List User) (u : User)
      → select test us ≡ none
      → select (is_user k) us ≡ some u
      → test s ≡ true
      → select test (update (is_user k) (λ _. s) us) ≡ some s
  select-written [] u none_of found t = absurd (cc)
  select-written (x ∷ xs) u none_of found t = elim (Bool-cases (x.id == k)) [
    | inl e ↦ rw (e, t) refl
    | inr e ↦
        let off : test x ≡ false = ground arith in
        rw (e, off) (select-written xs u (rw off at none_of) (rw e at found) t)
  ]

  select-unwritten :
      (us : List User)
      → select test us ≡ none
      → test s ≡ false
      → select test (update (is_user k) (λ _. s) us) ≡ none
  select-unwritten [] none_of t = refl
  select-unwritten (x ∷ xs) none_of t =
      let off : test x ≡ false = ground arith in
      let rest = select-unwritten xs (rw off at none_of) t in
      elim (Bool-cases (x.id == k)) [ inl e ↦ rw (e, t) rest | inr e ↦ rw (e, off) rest ]

update-update :
    (k : ℕ) (s r : User) (us : List User)
    → r.id ≡ k
    → update (is_user k) (λ _. s) (update (is_user k) (λ _. r) us) ≡ update (is_user k) (λ _. s) us
update-update k s r [] own = refl
update-update k s r (x ∷ xs) own = elim (Bool-cases (x.id == k)) [
  | inl e ↦
      let at_k : (r.id == k) ≡ true = ground arith in rw (e, at_k, update-update k s r xs own) refl
  | inr e ↦ rw (e, e, update-update k s r xs own) refl
]

select_all-written :
    (test : User → Bool) (s : User) (us : List User) (u : User)
    → HasUserIds us
    → select_all test us ≡ u ∷ []
    → test s ≡ true
    → select_all test (update (is_user u.id) (λ _. s) us) ≡ s ∷ []
select_all-written test s [] u ids only t = absurd (cc)
select_all-written test s (x ∷ xs) u ids only t = elim (Bool-cases (test x)) [
  | inl e ↦
      let same : x ≡ u = ground arith in
      let none_of : select_all test xs ≡ [] = ground arith in
      let apart = subst (λ (z : User). All (λ (y : User). y.id ≢ z.id) xs) same ids.0 in
      let own : (x.id == u.id) ≡ true = rw same (ground arith) in
      rw (own, update-absent u.id s xs apart, t, none_of) refl
  | inr e ↦
      let rest = rw e at only in
      let found = select-only test test xs u (λ y h. h) rest (select_all-head test xs u [] rest) in
      let apart = All-select (λ (y : User). y.id ≢ x.id) test xs u ids.0 found in
      let other : (x.id == u.id) ≡ false = ground arith in
      rw (other, e) (select_all-written test s xs u ids.1 rest t)
]

-- What `reset_password` does with the account that holds the link.
reset-held :
    (py : Unicode) (lib : Crypto) (token password : String) (password_hash now : ℕ) (u : User)
    (db : Accounts)
    → select (holds_reset (hash_link_token lib token)) db.users ≡ some u
    → u.reset_token ≡ some (hash_link_token lib token)
    → (t : ℕ) × (u.reset_token_expires ≡ some t) × (now ≤ t)
    → is_empty token ≡ false
    → u.is_active ≡ true
    → password_problem py password ≡ none
    → reset_password py lib token password password_hash now db
      ≡ ok (record_change password_reset (reset_by_link password_hash u) db)
unfolding reset_password verify_link_token
reset-held py lib token password password_hash now u db found held (t, until, early) given active
      fine =
    let same : (hash_link_token lib token == hash_link_token lib token) ≡ true = ground arith in
    let not_over : ltb t now ≡ false = ground arith in
    rw (fine, found, held, given, same, until, not_over, active) refl

-- A link that no account holds.
reset-lost :
    (py : Unicode) (lib : Crypto) (token password : String) (password_hash now : ℕ) (db : Accounts)
    → select (holds_reset (hash_link_token lib token)) db.users ≡ none
    → reset_password py lib token password password_hash now db
      ≡ err (if is_some (password_problem py password) then weak_password else invalid_link)
unfolding reset_password
reset-lost py lib token password password_hash now db lost =
    elim (Bool-cases (is_some (password_problem py password))) [
      | inl e ↦ rw e refl
      | inr e ↦ rw (e, lost) refl
    ]

admit-ok :
    (now : ℕ) (u : User)
    → u.locked_until ≡ none
    → u.is_active ≡ true
    → u.email_confirmed ≡ true
    → admit now u ≡ ok (clear_lockout u)
unfolding admit is_locked
admit-ok now u unlocked active confirmed = ground arith

-- The sign-in of the one account of an identifier, with its password and nothing against it.
login-only :
    (py : Unicode) (lib : Crypto) (s : LockoutSettings) (identifier password : String) (now : ℕ)
    (u : User) (db : Accounts)
    → select_all (matches py (strip identifier)) db.users ≡ u ∷ []
    → lib.verify password u.password_hash ≡ true
    → u.locked_until ≡ none
    → u.is_active ≡ true
    → u.email_confirmed ≡ true
    → (login py lib s identifier password now db).1 ≡ ok (clear_lockout u)
unfolding login try_candidates on_match signed_in
login-only py lib s identifier password now u db only right unlocked active confirmed =
    rw (only, right, admit-ok now u unlocked active confirmed) refl

-- The rows after the link was asked for and used.
module _ (py : Unicode) (email : String) (h password_hash t0 : ℕ) (u : User) (db : Accounts)
    (ids : HasUserIds db.users) (only : select_all (matches py (strip email)) db.users ≡ u ∷ [])
    (own : u.email ≡ some (py.lower (strip email))) (active : u.is_active ≡ true)
    (fresh : select (holds_reset h) db.users ≡ none) where
  abbrev linked : User
  linked = ask_row h t0 u

  abbrev renewed : User
  unfolding reset_by_link ask_row
  renewed = reset_by_link password_hash linked

  abbrev written : Accounts
  written = record_change password_reset renewed (forgot_password py email h t0 db)

  by_email : select (λ (v : User). is_text v.email (py.lower (strip email))) db.users ≡ some u
  unfolding matches
  by_email =
      select-only (λ (v : User). is_text v.email (py.lower (strip email)))
        (matches py (strip email)) db.users u (λ x off. ground arith) only
        (rw own ((eq_iff _ _).1 refl))

  asked-users :
      (forgot_password py email h t0 db).users ≡ update (is_user u.id) (λ _. linked) db.users
  unfolding forgot_password ask_reset
  asked-users = rw (by_email, active) refl

  by_id : select (is_user u.id) db.users ≡ some u
  by_id = select-by_id _ db.users u ids by_email

  asked-holds : select (holds_reset h) (forgot_password py email h t0 db).users ≡ some linked
  unfolding ask_row
  asked-holds =
      rw asked-users
        (select-written (holds_reset h) u.id linked db.users u fresh by_id (ground arith))

  written-users : written.users ≡ update (is_user u.id) (λ _. renewed) db.users
  unfolding record_change reset_by_link ask_row
  written-users = rw asked-users (update-update u.id renewed linked db.users refl)

  written-only : select_all (matches py (strip email)) written.users ≡ renewed ∷ []
  unfolding matches reset_by_link ask_row
  written-only = rw written-users (
      select_all-written (matches py (strip email)) renewed db.users u ids only
        (select_all-head (matches py (strip email)) db.users u [] only))

  written-lost : select (holds_reset h) written.users ≡ none
  unfolding reset_by_link renewed
  written-lost =
      rw written-users (select-unwritten (holds_reset h) u.id renewed db.users fresh refl)

-- The active account that alone has an e-mail, after a forgotten password, sets a new password
-- that has no problem with the link, within the hour, under a link that no account held, and then
-- signs in with it at any time, with its token version raised by one; the same link is refused
-- from then on. No two users share an id, the token is not empty, and the hash is one of the new
-- password.
pub forgotten_password_recovered :
    (py : Unicode) (lib : Crypto) (s : LockoutSettings) (email token password again : String)
    (password_hash again_hash t0 t1 t2 t3 : ℕ) (u : User) (db : Accounts)
    → HasUserIds db.users
    → select_all (matches py (strip email)) db.users ≡ u ∷ []
    → u.email ≡ some (py.lower (strip email))
    → u.is_active ≡ true
    → select (holds_reset (hash_link_token lib token)) db.users ≡ none
    → is_empty token ≡ false
    → t1 ≤ t0 + 3600
    → password_problem py password ≡ none
    → lib.verify password password_hash ≡ true
    → (db' : Accounts) × (reset_password py lib token password password_hash t1
          (forgot_password py email (hash_link_token lib token) t0 db)
        ≡ ok db')
      × (row : User) × ((login py lib s email password t2 db').1 ≡ ok row)
      × (row.id ≡ u.id)
      × (row.token_version ≡ u.token_version + 1)
      × (reset_password py lib token again again_hash t3 db'
          ≡ err (if is_some (password_problem py again) then weak_password else invalid_link))
unfolding renewed reset_by_link ask_row clear_lockout
forgotten_password_recovered py lib s email token password again password_hash again_hash t0 t1 t2
      t3 u db ids only own active fresh given early fine right =
    let h = hash_link_token lib token in
    let asked = forgot_password py email h t0 db in
    let db' = written py email h password_hash t0 u db ids only own active fresh in
    (
      db',
      reset-held py lib token password password_hash t1 (ask_row h t0 u) asked
          (asked-holds py email h password_hash t0 u db ids only own active fresh) refl
          (t0 + 3600, refl, early) given active fine,
      clear_lockout (renewed py email h password_hash t0 u db ids only own active fresh),
      login-only py lib s email password t2
          (renewed py email h password_hash t0 u db ids only own active fresh) db'
          (written-only py email h password_hash t0 u db ids only own active fresh) right refl
          active refl,
      refl,
      refl,
      reset-lost py lib token again again_hash t3 db'
          (written-lost py email h password_hash t0 u db ids only own active fresh),
    )
