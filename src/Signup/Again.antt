-- ===== src/Signup/Again.antt =====
-- A signup that is sent twice (routers/auth.py, `register`).
use karibu.Prelude.{
  ℕ, ◌+◌, ◌*◌, ◌≡◌, refl, String, Bool, true, false, none, some, List, [], ◌∷◌, arith, ltb, select,
  update, is_some, strip, eq_iff, ==_iff, select-append_none, length, select-rewritten,
}
use karibu.Api.{ok, weak_password, raise_if-eq-ok, ok-injective}
use karibu.Access.{User}
use karibu.Accounts.{is_user}
use karibu.Passwords.{Unicode, password_problem}
use karibu.Auth.{Crypto, is_text}
use karibu.Billing.{Settings, days, start_trial}
use karibu.Subscription.{Subscription, has_access}
use karibu.Admin.{Platform, subscription_of}
use karibu.Signup.{
  RegisterRequest, Draws, set_confirmation_token, new_manager, open_restaurant, resend, register,
}

abbrev emailed : String → User → Bool
emailed email u = is_text u.email email

length-update :
    (test : User → Bool) (f : User → User) (us : List User) → length (update test f us) ≡ length us
length-update test f [] = refl
length-update test f (u ∷ us) = omega (arith, length-update test f us)

-- The account of an e-mail waits for the link of the later draw, and keeps the id and the password
-- of the earlier one.
abbrev pub HasLink : Platform → String → Draws → Draws → ℕ → Type 0
HasLink p email d e expires =
    (row : User) × (select (emailed email) p.billing.users ≡ some row)
    × (row.id ≡ d.user_id)
    × (row.password_hash ≡ d.password_hash)
    × (row.email_confirmed ≡ false)
    × (row.email_token ≡ some e.token_hash)
    × (row.email_token_expires ≡ some expires)

-- The manager that a signup opens, with the link not followed yet.
abbrev waiting : RegisterRequest → String → Draws → ℕ → ℕ → User
waiting body email d hours now =
    set_confirmation_token hours d.token_hash now (new_manager body email d)

-- The second request, once the rows of the first are there.
again :
    (py : Unicode) (lib : Crypto) (s : Settings) (hours : ℕ) (body : RegisterRequest) (d e : Draws)
    (now later : ℕ) (p : Platform)
    → select (emailed (py.lower (strip body.email))) p.billing.users
      ≡ some (waiting body (py.lower (strip body.email)) d hours now)
    → lib.verify body.password d.password_hash ≡ true
    → is_some (password_problem py body.password) ≡ false
    → (p'' : Platform) × (register py lib s hours body e later p ≡ ok p'')
      × (p''.billing.subscriptions ≡ p.billing.subscriptions)
      × (p''.billing.restaurants ≡ p.billing.restaurants)
      × (length p''.billing.users ≡ length p.billing.users)
      × HasLink p'' (py.lower (strip body.email)) d e (later + hours * 3600)
unfolding register resend new_manager set_confirmation_token
again py lib s hours body d e now later p found verifies sound =
    let email = py.lower (strip body.email) in
    let old = waiting body email d hours now in
    let row = set_confirmation_token hours e.token_hash later old in
    rw (sound, found, verifies)
      (
        _,
        refl,
        refl,
        refl,
        length-update (is_user d.user_id) (λ _. row) p.billing.users,
        (
          row,
          select-rewritten (emailed email) (is_user d.user_id) row old p.billing.users found
              ((==_iff d.user_id d.user_id).1 refl) ((eq_iff email email).1 refl),
          refl,
          refl,
          refl,
          refl,
          refl,
        ),
      )

trial_open :
    (s : Settings) (hours : ℕ) (body : RegisterRequest) (email : String) (d : Draws) (now at : ℕ)
    (p : Platform)
    → select (subscription_of d.restaurant_id) p.billing.subscriptions ≡ none
    → (sub : Subscription) × (select
          (subscription_of d.restaurant_id)
          (open_restaurant s hours body email d now p).billing.subscriptions
        ≡ some sub)
      × (has_access sub at ≡ ltb at (now + days s.trial_days))
unfolding open_restaurant start_trial has_access
trial_open s hours body email d now at p vacant = (
  _,
  select-append_none (subscription_of d.restaurant_id) p.billing.subscriptions _ vacant
      (ground arith),
  refl,
)

manager_found :
    (s : Settings) (hours : ℕ) (body : RegisterRequest) (email : String) (d : Draws) (now : ℕ)
    (p : Platform)
    → select (emailed email) p.billing.users ≡ none
    → select (emailed email) (open_restaurant s hours body email d now p).billing.users
      ≡ some (waiting body email d hours now)
unfolding open_restaurant new_manager set_confirmation_token
manager_found s hours body email d now p fresh =
    select-append_none (emailed email) p.billing.users (waiting body email d hours now) fresh
      ((eq_iff email email).1 refl)

-- A signup that is accepted, under an e-mail that no account has and an id that no subscription is
-- of, opens a trial that gives access exactly for its days; sent again before the link is
-- followed, whatever it draws, it opens no second account, restaurant or subscription, and the
-- account of the e-mail, with the id and the password of the first, waits for the link of the
-- second request, for as many hours again. The stored hash is one of the password.
pub register_twice :
    (py : Unicode) (lib : Crypto) (s : Settings) (hours : ℕ) (body : RegisterRequest) (d e : Draws)
    (now later at : ℕ) (p p' : Platform)
    → select (emailed (py.lower (strip body.email))) p.billing.users ≡ none
    → select (subscription_of d.restaurant_id) p.billing.subscriptions ≡ none
    → lib.verify body.password d.password_hash ≡ true
    → register py lib s hours body d now p ≡ ok p'
    → ((sub : Subscription) × (select (subscription_of d.restaurant_id) p'.billing.subscriptions
          ≡ some sub)
        × (has_access sub at ≡ ltb at (now + days s.trial_days)))
      × ((p'' : Platform) × (register py lib s hours body e later p' ≡ ok p'')
          × (p''.billing.subscriptions ≡ p'.billing.subscriptions)
          × (p''.billing.restaurants ≡ p'.billing.restaurants)
          × (length p''.billing.users ≡ length p'.billing.users)
          × HasLink p'' (py.lower (strip body.email)) d e (later + hours * 3600))
unfolding register
register_twice py lib s hours body d e now later at p p' fresh vacant verifies done =
    let email = py.lower (strip body.email) in
    let (sound, rest) =
      raise_if-eq-ok (is_some (password_problem py body.password)) weak_password _ done in
    let opened : open_restaurant s hours body email d now p ≡ p' =
      ok-injective (rw fresh at rest) in
    (
      rw (← opened) (trial_open s hours body email d now at p vacant),
      again py lib s hours body d e now later p'
          (rw (← opened) (manager_found s hours body email d now p fresh)) verifies sound,
    )
