-- ===== src/Staff/Sessions.antt =====
-- Deactivating an account and resetting a password (routers/staff.py) end its sessions, as the guards
-- of core/dependencies.py see them.
use karibu.Prelude.{
  ℕ, ◌<◌, ◌≡◌, refl, sym, ap, true, false, Option, some, List, arith, ◌==◌, leb, select,
  select-test, update,
}
use karibu.Api.{
  ok, err, or_raise-eq-ok, raise_if-eq-ok, ok-injective, account_disabled, session_expired,
  ApiError,
}
use karibu.Access.{User, UserRole, rank, get_current_user, require_roles, require_subscription}
use karibu.Subscription.{Subscription}
use karibu.Access.Laws.{behind_guard}
use karibu.Accounts.{Accounts, is_user, HasUserIds, select-saved_user}
use karibu.Staff.{
  StaffUpdate, works_at, get_staff, edit_staff, update_staff, reset_row, reset_staff_password,
}
use karibu.Staff.Rank.{works_at-by_id, update_staff-eq-ok}

-- A row that was found under its key and written back is found again.
saved_found :
    (key rid : ℕ) (staff s : User) (db db' : Accounts)
    → HasUserIds db.users
    → select (works_at key rid) db.users ≡ some staff
    → s.id ≡ staff.id
    → db'.users ≡ update (is_user staff.id) (λ _. s) db.users
    → select (is_user key) db'.users ≡ some s
saved_found key rid staff s db db' ids found same written =
    let at_key = select-test (works_at key rid) db.users staff found in
    let own : staff.id ≡ key = ground arith in
    let stored = works_at-by_id key rid db.users staff ids found in
    let saved = select-saved_user key staff.id s db.users same in
    rw written (ground (arith, saved, stored, own))

-- Deactivating an active account, where no two users share an id and the update is accepted, ends
-- its sessions: the guard refuses its token as of a disabled account, and would refuse it as
-- expired if the account were made active again.
pub update_staff_ends_sessions :
    (key : ℕ) (body : StaffUpdate) (user staff : User) (tv : ℕ) (db db' : Accounts)
    → HasUserIds db.users
    → get_staff db user key ≡ ok staff
    → staff.is_active ≡ true
    → body.is_active ≡ some false
    → update_staff key body user db ≡ ok db'
    → (row : User) × (select (is_user key) db'.users ≡ some row)
      × (get_current_user (some row) (some tv) ≡ err account_disabled)
      × (get_current_user (some (record row { is_active = true })) (some staff.token_version)
          ≡ err session_expired)
unfolding get_staff edit_staff get_current_user
update_staff_ends_sessions key body user staff tv db db' ids found active off done =
    let e = update_staff-eq-ok key body user db db' done in
    let seen = e.found in
    let same : e.staff ≡ staff = ground arith in
    let active' : e.staff.is_active ≡ true = rw same active in
    (
      edit_staff body e.role e.staff,
      saved_found key user.restaurant_id e.staff (edit_staff body e.role e.staff) db db' ids e.found
          refl e.written,
      ground arith,
      rw (← same) (ground arith),
    )

-- A password reset that is accepted, where no two users share an id, is of an account below the
-- rank of the caller; the stored row has the new password, the tokens from before are refused as
-- expired, even if the account is active, and the guards of roles and of a subscription ask for a
-- change of password first.
pub reset_ends_sessions :
    (key code_hash : ℕ) (user staff : User) (allowed : List UserRole) (sub : Option Subscription)
    (now : ℕ) (db db' : Accounts)
    → HasUserIds db.users
    → get_staff db user key ≡ ok staff
    → reset_staff_password key user code_hash db ≡ ok db'
    → (row : User) × (select (is_user key) db'.users ≡ some row)
      × (rank row.role < rank user.role)
      × (row.password_hash ≡ code_hash)
      × (get_current_user (some (record row { is_active = true })) (some staff.token_version)
          ≡ err session_expired)
      × (require_roles allowed row ≡ err ApiError.must_change_password)
      × (require_subscription sub now row ≡ err ApiError.must_change_password)
unfolding get_staff reset_staff_password reset_row get_current_user require_roles
    require_subscription
reset_ends_sessions key code_hash user staff allowed sub now db db' ids found done =
    let (inner, _, _) = behind_guard user _ done in
    let (s, seen, rest) =
      or_raise-eq-ok (select (works_at key user.restaurant_id) db.users) _ _ inner in
    let (_, rest1) = raise_if-eq-ok (s.id == user.id) _ _ rest in
    let (below, written) = raise_if-eq-ok (leb (rank user.role) (rank s.role)) _ _ rest1 in
    let same : s ≡ staff = ground arith in
    (
      reset_row code_hash s,
      saved_found key user.restaurant_id s (reset_row code_hash s) db db' ids seen refl
          (sym (ap (λ (d : Accounts). d.users) (ok-injective written))),
      ground (arith, below),
      refl,
      rw (← same) (ground arith),
      refl,
      refl,
    )
