-- ===== src/Access/Laws.antt =====
-- What the guards of core/dependencies.py let through.
use karibu.Prelude.{ℕ, ◌≡◌, ◌↔◌, true, false, some, List, arith}
use mathlib.Core.Path.{subst}
use karibu.Api.{Result, ok, ◌>>=◌, bind-eq-ok}
use karibu.Access.{User, UserRole, get_current_user, require_roles, managers}

-- A token with a version whose user is found opens a session exactly when the user is active and
-- has the version of the token; the session is for that user.
pub get_current_user-ok_iff :
    (row : User) (tv : ℕ) (u : User)
    → (get_current_user (some row) (some tv) ≡ ok u)
      ↔ ((u ≡ row) × (row.is_active ≡ true) × (tv ≡ row.token_version))
unfolding get_current_user
get_current_user-ok_iff row tv u = ground arith

-- The guard of a route for managers passes exactly the managers who need not change their
-- password, and hands them on unchanged.
pub require_roles-managers_iff :
    (user u : User)
    → (require_roles managers user ≡ ok u)
      ↔ ((u ≡ user) × (user.role ≡ UserRole.manager) × (user.must_change_password ≡ false))
unfolding require_roles
require_roles-managers_iff user u = ground arith

-- The guard hands its caller on unchanged.
pub require_roles-same :
    (allowed : List UserRole) (user u : User) → require_roles allowed user ≡ ok u → u ≡ user
unfolding require_roles
require_roles-same allowed user u h = ground arith

-- A handler behind the guard that ended well ran for the caller, who is a manager.
pub behind_guard {ℓ} :
    {A : Type ℓ} (user : User) (k : User → Result A) {r : A}
    → (require_roles managers user >>= k) ≡ ok r
    → (k user ≡ ok r) × (user.role ≡ UserRole.manager) × (user.must_change_password ≡ false)
behind_guard user k {r} h =
    let (u, passed, rest) = bind-eq-ok (require_roles managers user) k h in
    let same = require_roles-same managers user u passed in
    let (_, role, settled) = (require_roles-managers_iff user u).0 passed in
    (subst (λ v. k v ≡ ok r) same rest, role, settled)
