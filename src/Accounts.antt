-- ===== src/Accounts.antt =====
-- The rows of users and of the audit log (models/user.py, models/audit.py), as routers/staff.py,
-- routers/auth.py and routers/admin.py write them. An audit row is kept without its texts and the
-- address of the request.
use karibu.Prelude.{
  ℕ, ◌≡◌, ◌≢◌, String, Bool, Option, none, some, List, [], ◌∷◌, arith, ◌==◌, if◌then◌else◌, select,
  update, All,
}
use karibu.Access.{User}

-- the actions of `AuditAction` that these handlers write
pub data AuditAction : Type 0 where
  user_login email_confirmed password_changed password_reset : AuditAction
  staff_created staff_deactivated user_registered : AuditAction
  admin_trial_extended admin_month_comped admin_suspended admin_reactivated : AuditAction

pub record AuditLog : Type 0 where
  pub action : AuditAction
  pub actor_id : Option ℕ
  pub actor_email : Option String
  pub restaurant_id : ℕ

pub record Accounts : Type 0 where
  pub users : List User
  pub audits : List AuditLog

abbrev pub is_user : ℕ → User → Bool
is_user key u = u.id == key

-- Ids are primary keys: no two users share one.
abbrev pub HasUserIds : List User → Type 0
HasUserIds [] = Unit
HasUserIds (u ∷ us) = All (λ (v : User). v.id ≢ u.id) us × HasUserIds us

-- What a query by id finds once the row `k` was written back as `s`.
pub select-saved_user :
    (j k : ℕ) (s : User) (us : List User)
    → s.id ≡ k
    → select (is_user j) (update (is_user k) (λ _. s) us) ≡ (
        if j == k
        then (elim (select (is_user j) us) [ none ↦ none | some _ ↦ some s ])
        else select (is_user j) us)
select-saved_user j k s [] same = ground arith
select-saved_user j k s (u ∷ us) same = ground (arith, select-saved_user j k s us same)
