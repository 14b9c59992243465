-- ===== src/Staff/Hiring.antt =====
-- What `create_staff` (routers/staff.py) adds, and that sign-in identifiers stay distinct.
use karibu.Prelude.{
  ℕ, ◌<◌, ◌≡◌, refl, sym, ap, String, Bool, true, false, ◌&&◌, ◌||◌, List, [], ◌∷◌, ◌++◌, arith,
  select, is_some, All, Option, some,
}
use karibu.Api.{ok, err, bind-eq-ok, raise_if-eq-ok, ok-injective, ApiError, not_an_admin}
use karibu.Access.{
  User, UserRole, rank, get_current_user, require_roles, require_subscription,
  require_platform_admin,
}
use karibu.Subscription.{Subscription}
use karibu.Access.Laws.{behind_guard}
use karibu.Accounts.{Accounts}
use karibu.Staff.{
  StaffCreate, assert_may_assign, given_text, is_given, has_email, has_phone, new_staff,
  given_email, create_staff,
}

-- A later account `v` has no identifier that the account `u` signs in with.
abbrev pub IsApart : User → User → Type 0
IsApart u v =
    ((is_given v.email && has_email v.email u) ≡ false)
    × ((is_given v.phone && has_phone v.restaurant_id v.phone u) ≡ false)

-- No two accounts share an e-mail, and no two of one restaurant share a phone.
abbrev pub HasIdentifiers : List User → Type 0
HasIdentifiers [] = Unit
HasIdentifiers (u ∷ us) = All (IsApart u) us × HasIdentifiers us

HasIdentifiers-snoc :
    (us : List User) (v : User)
    → HasIdentifiers us
    → All (λ u. IsApart u v) us
    → HasIdentifiers (us ++ v ∷ [])
HasIdentifiers-snoc [] v h apart = (tt, tt)
HasIdentifiers-snoc (u ∷ us) v h apart = (All-snoc us h.0, HasIdentifiers-snoc us v h.1 apart.1)
  where
    All-snoc : (xs : List User) → All (IsApart u) xs → All (IsApart u) (xs ++ v ∷ [])
    All-snoc [] k = (apart.0, tt)
    All-snoc (x ∷ xs) k = (k.0, All-snoc xs k.1)

-- Rows that no query finds.
none_selected :
    (b : Bool) (test : User → Bool) (us : List User)
    → (b && is_some (select test us)) ≡ false
    → All (λ u. (b && test u) ≡ false) us
none_selected b test [] h = tt
none_selected b test (u ∷ us) h = (ground arith, none_selected b test us (ground arith))

zip-IsApart :
    (v : User) (us : List User)
    → All (λ u. (is_given v.email && has_email v.email u) ≡ false) us
    → All (λ u. (is_given v.phone && has_phone v.restaurant_id v.phone u) ≡ false) us
    → All (λ u. IsApart u v) us
zip-IsApart v [] h k = tt
zip-IsApart v (u ∷ us) h k = ((h.0, k.0), zip-IsApart v us h.1 k.1)

-- What `create_staff` has checked when it ends well, and the row that it adds.
module _ (lower : String → String) (body : StaffCreate) (user : User) (key code_hash : ℕ)
    (db db' : Accounts) (done : create_staff lower body user key code_hash db ≡ ok db') where
  hired :
      (role : UserRole) × (assert_may_assign user body.role ≡ ok role)
      × ((is_given (given_email lower body.email) || is_given (given_text body.phone)) ≡ true)
      × ((is_given (given_email lower body.email)
            && is_some (select (has_email (given_email lower body.email)) db.users))
          ≡ false)
      × ((is_given (given_text body.phone)
            && is_some (select (has_phone user.restaurant_id (given_text body.phone)) db.users))
          ≡ false)
      × (db'.users
          ≡ db.users
            ++ new_staff body role
                (given_email lower body.email)
                (given_text body.phone)
                user
                key
                code_hash
              ∷ [])
  unfolding create_staff
  hired =
      let (inner, _, _) = behind_guard user _ done in
      let (role, assigned, rest) = bind-eq-ok (assert_may_assign user body.role) _ inner in
      let (reachable, rest1) = raise_if-eq-ok _ _ _ rest in
      let (no_email, rest2) =
        raise_if-eq-ok
          (is_given (given_email lower body.email)
            && is_some (select (has_email (given_email lower body.email)) db.users))
          _ _ rest1 in
      let (no_phone, same) =
        raise_if-eq-ok
          (is_given (given_text body.phone)
            && is_some (select (has_phone user.restaurant_id (given_text body.phone)) db.users))
          _ _ rest2 in
      (
        role,
        assigned,
        ground arith,
        no_email,
        no_phone,
        sym (ap (λ (d : Accounts). d.users) (ok-injective same)),
      )

may_assign-below :
    (user : User) (text : String) (role : UserRole)
    → assert_may_assign user text ≡ ok role
    → rank role < rank user.role
unfolding assert_may_assign
may_assign-below user text role h = ground arith

-- Creating an account, when accepted, adds one row, of a rank below the caller, in the restaurant
-- of the caller and with an e-mail or a phone to sign in with; the guard of roles and the guard of
-- a subscription send the new account to change its password first, that of platform
-- administrators refuses it, and that of a session alone lets it in.
pub create_staff_below :
    (lower : String → String) (body : StaffCreate) (user : User) (key code_hash : ℕ)
    (allowed : List UserRole) (sub : Option Subscription) (now : ℕ) (db db' : Accounts)
    → create_staff lower body user key code_hash db ≡ ok db'
    → (u : User) × (db'.users ≡ db.users ++ u ∷ [])
      × (rank u.role < rank user.role)
      × (u.restaurant_id ≡ user.restaurant_id)
      × ((is_given u.email || is_given u.phone) ≡ true)
      × (require_roles allowed u ≡ err ApiError.must_change_password)
      × (require_subscription sub now u ≡ err ApiError.must_change_password)
      × (require_platform_admin u ≡ err not_an_admin)
      × (get_current_user (some u) (some u.token_version) ≡ ok u)
unfolding new_staff require_roles require_subscription require_platform_admin get_current_user
create_staff_below lower body user key code_hash allowed sub now db db' done =
    let (role, assigned, reachable, _, _, added) =
      hired lower body user key code_hash db db' done in
    (
      new_staff body role (given_email lower body.email) (given_text body.phone) user key code_hash,
      added,
      may_assign-below user body.role role assigned,
      refl,
      reachable,
      refl,
      refl,
      refl,
      ground arith,
    )

-- Creating an account keeps the sign-in identifiers distinct: no later account has an e-mail that
-- is not empty of an earlier one, nor a phone that is not empty of an earlier one of its
-- restaurant.
pub create_staff-HasIdentifiers :
    (lower : String → String) (body : StaffCreate) (user : User) (key code_hash : ℕ)
    (db db' : Accounts)
    → HasIdentifiers db.users
    → create_staff lower body user key code_hash db ≡ ok db'
    → HasIdentifiers db'.users
unfolding new_staff
create_staff-HasIdentifiers lower body user key code_hash db db' h done =
    let (role, _, _, no_email, no_phone, added) = hired lower body user key code_hash db db' done in
    let u =
      new_staff body role (given_email lower body.email) (given_text body.phone) user key
        code_hash in
    rw added (
      HasIdentifiers-snoc db.users u h (
        zip-IsApart u db.users
          (none_selected (is_given u.email) (has_email u.email) db.users no_email)
          (none_selected (is_given u.phone) (has_phone u.restaurant_id u.phone) db.users no_phone)))
