-- ===== src/Staff/Rank.antt =====
-- `update_staff` (routers/staff.py) by rank and by restaurant.
use karibu.Prelude.{
  ℕ, ◌<◌, ◌≡◌, ◌≢◌, ◌⊎◌, inl, inr, refl, sym, ap, true, false, ◌&&◌, some, List, [], ◌∷◌, arith,
  ◌==◌, select, select-test, update, All-select, Bool-cases, ==_iff,
}
use karibu.Api.{ok, bind-eq-ok, or_raise-eq-ok, raise_if-eq-ok, ok-injective}
use karibu.Access.{User, UserRole, rank}
use karibu.Access.Laws.{behind_guard}
use karibu.Accounts.{Accounts, is_user, HasUserIds, select-saved_user}
use karibu.Staff.{
  StaffUpdate, works_at, get_staff, assert_may_assign, changes_role, is_false, assigned_role,
  edit_staff, update_staff,
}

-- The row that a query for an id and a restaurant finds is the row of the id.
pub works_at-by_id :
    (key rid : ℕ) (us : List User) (s : User)
    → HasUserIds us
    → select (works_at key rid) us ≡ some s
    → select (is_user key) us ≡ some s
works_at-by_id key rid [] s ids h = cc
works_at-by_id key rid (u ∷ us) s ids h = elim (Bool-cases (works_at key rid u)) [
  | inl here ↦ ground arith
  | inr there ↦
      let rest : select (works_at key rid) us ≡ some s = ground arith in
      let apart = All-select (λ (v : User). v.id ≢ u.id) (works_at key rid) us s ids.0 rest in
      let at_key = select-test (works_at key rid) us s rest in
      ground (arith, works_at-by_id key rid us s ids.1 rest, apart)
]

-- What `update_staff` has read and checked when it ends well, and what it writes.
pub record Edits (key : ℕ) (body : StaffUpdate) (user : User) (db db' : Accounts) : Type 0 where
  pub staff : User
  pub role : UserRole
  pub found : select (works_at key user.restaurant_id) db.users ≡ some staff
  pub not_self_off : (staff.id == user.id && is_false body.is_active) ≡ false
  pub not_self_role : (staff.id == user.id && changes_role body staff) ≡ false
  pub assigned : assigned_role body user staff ≡ ok role
  pub written : db'.users ≡ update (is_user staff.id) (λ _. edit_staff body role staff) db.users

pub update_staff-eq-ok :
    (key : ℕ) (body : StaffUpdate) (user : User) (db db' : Accounts)
    → update_staff key body user db ≡ ok db'
    → Edits key body user db db'
unfolding update_staff get_staff
update_staff-eq-ok key body user db db' done =
    let (inner, _, _) = behind_guard user _ done in
    let (staff, found, rest) =
      or_raise-eq-ok (select (works_at key user.restaurant_id) db.users) _ _ inner in
    let (off, rest1) = raise_if-eq-ok _ _ _ rest in
    let (self, rest2) = raise_if-eq-ok (staff.id == user.id && changes_role body staff) _ _ rest1 in
    let (role, assigned, same) = bind-eq-ok (assigned_role body user staff) _ rest2 in
    record {
      staff = staff;
      role = role;
      found = found;
      not_self_off = off;
      not_self_role = self;
      assigned = assigned;
      written = sym (ap (λ (d : Accounts). d.users) (ok-injective same));
    }

-- A role that was assigned is the old one, or lies below the caller's.
assigned_role-below :
    (body : StaffUpdate) (user staff : User) (role : UserRole)
    → assigned_role body user staff ≡ ok role
    → (role ≡ staff.role) ⊎ (rank role < rank user.role)
unfolding assigned_role assert_may_assign
assigned_role-below body user staff role h = ground arith

-- Where the request changes no role, the role is the old one.
assigned_role-same :
    (body : StaffUpdate) (user staff : User) (role : UserRole)
    → changes_role body staff ≡ false
    → assigned_role body user staff ≡ ok role
    → role ≡ staff.role
unfolding assigned_role changes_role
assigned_role-same body user staff role same h = ground arith

-- The rows that an accepted request wrote: of the id asked for, or the old one.
pub edited_or_same :
    (key : ℕ) (body : StaffUpdate) (user : User) (db db' : Accounts) (k : ℕ) (u u' : User)
    → HasUserIds db.users
    → (e : Edits key body user db db') → select (is_user k) db.users ≡ some u
    → select (is_user k) db'.users ≡ some u'
    → ((k ≡ e.staff.id) × (u ≡ e.staff) × (u' ≡ edit_staff body e.role e.staff)) ⊎ (u' ≡ u)
unfolding edit_staff
edited_or_same key body user db db' k u u' ids e before after =
    let at_key = select-test (works_at key user.restaurant_id) db.users e.staff e.found in
    let own : e.staff.id ≡ key = ground arith in
    let stored = works_at-by_id key user.restaurant_id db.users e.staff ids e.found in
    let saved = select-saved_user k e.staff.id (edit_staff body e.role e.staff) db.users refl in
    let after' = rw e.written at after in
    elim (Bool-cases (k == e.staff.id)) [
      | inl here ↦
          let same : k ≡ e.staff.id = (==_iff k e.staff.id).0 here in
          let row : u ≡ e.staff = cc (stored, before, same, own) in
          inl (same, row, ground (arith, saved, after', before))
      | inr there ↦ inr (ground (arith, saved, after', before))
    ]

-- What the request makes of the row that it edits.
edited_by_rank :
    (key : ℕ) (body : StaffUpdate) (user : User) (db db' : Accounts)
    (e : Edits key body user db db')
    → let u' = edit_staff body e.role e.staff in
      ((u'.role ≡ e.staff.role) ⊎ (rank u'.role < rank user.role))
      × ((e.staff.restaurant_id ≡ user.restaurant_id) ⊎ (u' ≡ e.staff))
      × ((e.staff.id ≢ user.id) ⊎ (u'.role ≡ e.staff.role))
      × ((e.staff.id ≢ user.id) ⊎ (e.staff.is_active ≡ false) ⊎ (u'.is_active ≡ true))
unfolding edit_staff
edited_by_rank key body user db db' e =
    let at_key = select-test (works_at key user.restaurant_id) db.users e.staff e.found in
    let below = assigned_role-below body user e.staff e.role e.assigned in
    let same = assigned_role-same body user e.staff e.role in
    let off = e.not_self_off in
    let self = e.not_self_role in
    let assigned = e.assigned in
    (
      below,
      inl (ground arith),
      elim (Bool-cases (e.staff.id == user.id)) [
        | inl mine ↦ inr (same (rw mine at self) assigned)
        | inr other ↦ inl (ground arith)
      ],
      elim (Bool-cases (e.staff.id == user.id)) [
        | inl mine ↦ inr (ground arith)
        | inr other ↦ inl (ground arith)
      ],
    )

-- An update of staff that is accepted, where no two users share an id, leaves the role of each
-- user as it was or below the rank of the caller, changes no row of another restaurant, and leaves
-- the caller the role they had and, if active, active.
pub update_staff_by_rank :
    (key : ℕ) (body : StaffUpdate) (user : User) (db db' : Accounts) (k : ℕ) (u u' : User)
    → HasUserIds db.users
    → update_staff key body user db ≡ ok db'
    → select (is_user k) db.users ≡ some u
    → select (is_user k) db'.users ≡ some u'
    → ((u'.role ≡ u.role) ⊎ (rank u'.role < rank user.role))
      × ((u.restaurant_id ≡ user.restaurant_id) ⊎ (u' ≡ u))
      × ((k ≢ user.id) ⊎ (u'.role ≡ u.role))
      × ((k ≢ user.id) ⊎ (u.is_active ≡ false) ⊎ (u'.is_active ≡ true))
update_staff_by_rank key body user db db' k u u' ids done before after =
    let e = update_staff-eq-ok key body user db db' done in
    elim (edited_or_same key body user db db' k u u' ids e before after) [
      | inl (same, row, edited) ↦ rw (same, row, edited) (edited_by_rank key body user db db' e)
      | inr kept ↦ rw kept (inl refl, inr refl, inr refl, inr (ground arith))
    ]
