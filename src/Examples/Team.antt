-- ===== src/Examples/Team.antt =====
-- Examples of the theorems about staff accounts (routers/staff.py).
use karibu.Prelude.{
  ℕ, ◌<◌, ◌≡◌, ◌≢◌, ◌⊎◌, refl, String, true, false, ◌||◌, none, some, List, [], ◌∷◌, ◌++◌, arith,
  select,
}
use karibu.Api.{ok, not_an_admin, err, after, ApiError, account_disabled, session_expired}
use karibu.Access.{
  User, UserRole, rank, get_current_user, require_roles, require_subscription,
  require_platform_admin, managers,
}
use karibu.Accounts.{Accounts, is_user}
use karibu.Staff.{
  StaffCreate, StaffUpdate, is_given, create_staff, update_staff, reset_staff_password,
}
use karibu.Staff.Rank.{update_staff_by_rank}
use karibu.Staff.Sessions.{update_staff_ends_sessions, reset_ends_sessions}
use karibu.Staff.Hiring.{HasIdentifiers, create_staff_below, create_staff-HasIdentifiers}
use karibu.Examples.{boss, waiter}

-- the waiter signs in by phone
abbrev jane : User
jane = record waiter { email = none; phone = some "0722000001" }

abbrev team : Accounts
team = record { users = boss ∷ jane ∷ []; audits = [] }

abbrev promotion : StaffUpdate
promotion = record { full_name = none; role = some "cashier"; is_active = none }

abbrev dismissal : StaffUpdate
dismissal = record { full_name = none; role = none; is_active = some false }

abbrev cashier_in : StaffCreate
cashier_in = record {
  full_name = "Otieno";
  role = "cashier";
  email = none;
  phone = some "0722000002";
}

-- the handlers, with their code open
edited : StaffUpdate → Accounts
unfolding update_staff require_roles karibu.Staff.get_staff karibu.Staff.changes_role
    karibu.Staff.assigned_role karibu.Staff.assert_may_assign karibu.Access.parse_role
    karibu.Staff.edit_staff
edited body = after (update_staff 2 body boss) team

hired : Accounts
unfolding create_staff require_roles karibu.Staff.assert_may_assign karibu.Access.parse_role
    karibu.Staff.given_email karibu.Staff.given_text karibu.Prelude.strip karibu.Staff.new_staff
hired = after (create_staff (λ s. s) cashier_in boss 3 9) team

update_staff_by_rank_example :
    let row = record jane { role = UserRole.cashier } in
    ((row.role ≡ UserRole.waiter) ⊎ (rank row.role < rank UserRole.manager))
    × ((jane.restaurant_id ≡ boss.restaurant_id) ⊎ (row ≡ jane))
    × ((jane.id ≢ boss.id) ⊎ (row.role ≡ UserRole.waiter))
    × ((jane.id ≢ boss.id) ⊎ (jane.is_active ≡ false) ⊎ (row.is_active ≡ true))
unfolding edited
update_staff_by_rank_example =
    update_staff_by_rank 2 promotion boss team _ 2 jane _ (omega arith) refl refl refl

update_staff_ends_sessions_example :
    (row : User) × (select (is_user 2) (after (update_staff 2 dismissal boss) team).users
      ≡ some row)
    × (get_current_user (some row) (some 4) ≡ err account_disabled)
    × (get_current_user (some (record row { is_active = true })) (some 4) ≡ err session_expired)
unfolding edited
update_staff_ends_sessions_example =
    update_staff_ends_sessions 2 dismissal boss jane 4 team _ (omega arith) refl refl refl refl

reset_ends_sessions_example :
    (row : User) × (select (is_user 2) (after (reset_staff_password 2 boss 77) team).users
      ≡ some row)
    × (rank row.role < rank UserRole.manager)
    × (row.password_hash ≡ 77)
    × (get_current_user (some (record row { is_active = true })) (some 4) ≡ err session_expired)
    × (require_roles managers row ≡ err ApiError.must_change_password)
    × (require_subscription none 0 row ≡ err ApiError.must_change_password)
unfolding reset_staff_password require_roles karibu.Staff.get_staff
reset_ends_sessions_example =
    reset_ends_sessions 2 77 boss jane managers none 0 team _ (omega arith) refl refl

create_staff_below_example :
    (u : User) × ((after (create_staff (λ s. s) cashier_in boss 3 9) team).users
      ≡ team.users ++ u ∷ [])
    × (rank u.role < rank UserRole.manager)
    × (u.restaurant_id ≡ 1)
    × ((is_given u.email || is_given u.phone) ≡ true)
    × (require_roles managers u ≡ err ApiError.must_change_password)
    × (require_subscription none 0 u ≡ err ApiError.must_change_password)
    × (require_platform_admin u ≡ err not_an_admin)
    × (get_current_user (some u) (some u.token_version) ≡ ok u)
unfolding hired
create_staff_below_example =
    create_staff_below (λ s. s) cashier_in boss 3 9 managers none 0 team _ refl

create_staff-HasIdentifiers_example :
    HasIdentifiers (after (create_staff (λ s. s) cashier_in boss 3 9) team).users
unfolding hired
create_staff-HasIdentifiers_example =
    create_staff-HasIdentifiers (λ s. s) cashier_in boss 3 9 team _ (((refl, refl), tt), (tt, tt))
      refl
