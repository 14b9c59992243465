-- ===== src/Admin/Actions.antt =====
-- What the actions of the operator (routers/admin.py) leave behind.
use karibu.Prelude.{
  ℕ, ◌≡◌, ◌≢◌, refl, sym, ap, ◌∙◌, Bool, true, false, some, List, [], ◌∷◌, ◌++◌, arith, select,
  update, select-test, All, All-select, Bool-cases, inl, inr,
}
use mathlib.Core.Path.{subst}
use karibu.Api.{
  ok, bind-eq-ok, or_raise-eq-ok, ◌>>=◌, ok-injective, unknown_restaurant, no_subscription,
}
use karibu.Access.{User, require_platform_admin}
use karibu.Accounts.{AuditAction, AuditLog}
use karibu.Subscription.{Subscription}
use karibu.Billing.{Restaurant, is_restaurant, is_subscription}
use karibu.Admin.{
  Platform, subscription_of, get_sub_or_404, record_audit, commit, from_now, with_trial,
  extend_trial, with_period, comp_month, as_suspended, suspend, reactivate, AdminAction, extends,
  comps, suspends, reactivates, target, handle_admin,
}

-- Ids are primary keys: no two subscriptions share one.
abbrev pub HasSubscriptionIds : List Subscription → Type 0
HasSubscriptionIds [] = Unit
HasSubscriptionIds (s ∷ ss) = All (λ (t : Subscription). t.id ≢ s.id) ss × HasSubscriptionIds ss

-- What an action that was accepted has read and done.
pub record Acts (a : AdminAction) (admin : User) (f : Subscription → Subscription) (p p' : Platform)
    : Type 0 where
  pub restaurant : Restaurant
  pub sub : Subscription
  pub action : AuditAction
  pub on : Bool
  pub operates : admin.is_platform_admin ≡ true
  pub found_restaurant : select (is_restaurant (target a)) p.billing.restaurants ≡ some restaurant
  pub found : select (subscription_of (target a)) p.billing.subscriptions ≡ some sub
  pub written : commit action on (f sub) restaurant admin p ≡ p'

operator_lem :
    (admin u : User)
    → require_platform_admin admin ≡ ok u
    → (u ≡ admin) × (admin.is_platform_admin ≡ true)
unfolding require_platform_admin
operator_lem admin u h = ground arith

-- The guard and the two queries, which every action starts with.
module _ (a : AdminAction) (admin : User) (p p' : Platform) (action : AuditAction) (on : Bool)
    (f : Subscription → Subscription) where
  pub acts :
      (require_platform_admin admin >>= λ operator. get_sub_or_404 p.billing (target a) >>= λ found.
      ok (commit action on (f found.1) found.0 operator p))
        ≡ ok p'
      → Acts a admin f p p'
  unfolding get_sub_or_404
  acts done =
      let (u, passed, rest) = bind-eq-ok (require_platform_admin admin) _ done in
      let (same_user, operates) = operator_lem admin u passed in
      let ((r, s), found, same) = bind-eq-ok (get_sub_or_404 p.billing (target a)) _ rest in
      let (r', has_r, rest1) =
        or_raise-eq-ok (select (is_restaurant (target a)) p.billing.restaurants) unknown_restaurant
          _ found in
      let (s', has_s, both) =
        or_raise-eq-ok (select (subscription_of (target a)) p.billing.subscriptions) no_subscription
          _ rest1 in
      let pairs = ok-injective both in
      record {
        restaurant = r;
        sub = s;
        action = action;
        on = on;
        operates = operates;
        found_restaurant = has_r ∙ ap (λ (e : Restaurant × Subscription). some e.0) pairs;
        found = has_s ∙ ap (λ (e : Restaurant × Subscription). some e.1) pairs;
        written =
            ap (λ (who : User). commit action on (f s) r who p) (sym same_user) ∙ ok-injective same;
      }

-- The subscription that the action edits stays under its id and its restaurant.
abbrev Keeps : (Subscription → Subscription) → Type 0
Keeps f = (s : Subscription) → ((f s).id ≡ s.id) × ((f s).restaurant_id ≡ s.restaurant_id)

handle_admin-eq-ok :
    (a : AdminAction) (admin : User) (now : ℕ) (p p' : Platform)
    → handle_admin a admin now p ≡ ok p'
    → (f : Subscription → Subscription) × Keeps f × Acts a admin f p p'
unfolding handle_admin extend_trial comp_month suspend reactivate with_trial with_period
    as_suspended
handle_admin-eq-ok (extends rid n) admin now p p' done =
    (_, λ s. (refl, refl), acts (extends rid n) admin p p' _ true (with_trial n now) done)
handle_admin-eq-ok (comps rid) admin now p p' done = (
  _,
  λ s. (refl, refl),
  acts (comps rid) admin p p' _ true (λ s. with_period (from_now s.current_period_end now) now s)
      done,
)
handle_admin-eq-ok (suspends rid) admin now p p' done =
    (_, λ s. (refl, refl), acts (suspends rid) admin p p' _ false as_suspended done)
handle_admin-eq-ok (reactivates rid) admin now p p' done =
    (_, λ s. (refl, refl), acts (reactivates rid) admin p p' _ true (with_period now now) done)

-- No row of the id is written.
update_absent :
    (key : ℕ) (s' : Subscription) (ss : List Subscription)
    → All (λ (t : Subscription). t.id ≢ key) ss
    → update (is_subscription key) (λ _. s') ss ≡ ss
update_absent key s' [] h = refl
update_absent key s' (t ∷ ss) h =
    let other : is_subscription key t ≡ false = ground (arith, h.0) in
    rw other (ap (λ rest. t ∷ rest) (update_absent key s' ss h.1))

others_kept :
    (rid other : ℕ) (s s' : Subscription) (ss : List Subscription)
    → HasSubscriptionIds ss
    → select (subscription_of rid) ss ≡ some s
    → s'.restaurant_id ≡ rid
    → other ≢ rid
    → select (subscription_of other) (update (is_subscription s.id) (λ _. s') ss)
      ≡ select (subscription_of other) ss
others_kept rid other s s' [] ids found home ne = refl
others_kept rid other s s' (t ∷ ss) ids found home ne = elim (Bool-cases (subscription_of rid t)) [
  | inl own ↦
      let same : t ≡ s = ground arith in
      let hit : is_subscription s.id t ≡ true = ground arith in
      let away : subscription_of other s' ≡ false = ground arith in
      let gone : subscription_of other t ≡ false = ground arith in
      rw
        (
          hit,
          away,
          gone,
          update_absent s.id s' ss
              (subst (λ (k : Subscription). All (λ (x : Subscription). x.id ≢ k.id) ss) same ids.0),
        )
        refl
  | inr not_own ↦
      let later = rw not_own at found in
      let ne_id : s.id ≢ t.id =
        All-select (λ (x : Subscription). x.id ≢ t.id) (subscription_of rid) ss s ids.0 later in
      let miss : is_subscription s.id t ≡ false = ground (arith, ne_id) in
      let rest = others_kept rid other s s' ss ids.1 later home ne in rw (miss, rest) refl
]

-- An action of the operator that is accepted, where no two subscriptions share an id, is of a
-- platform administrator, adds one row to the audit log, which names them and the restaurant, and
-- leaves the subscription of every other restaurant as it was.
pub handle_admin_audited :
    (a : AdminAction) (admin : User) (now other : ℕ) (p p' : Platform)
    → HasSubscriptionIds p.billing.subscriptions
    → other ≢ target a
    → handle_admin a admin now p ≡ ok p'
    → (admin.is_platform_admin ≡ true)
      × ((row : AuditLog) × (p'.audits ≡ p.audits ++ row ∷ [])
          × (row.actor_id ≡ some admin.id)
          × (row.restaurant_id ≡ target a))
      × (select (subscription_of other) p'.billing.subscriptions
          ≡ select (subscription_of other) p.billing.subscriptions)
unfolding record_audit
handle_admin_audited a admin now other p p' ids ne done =
    let (f, keeps, acted) = handle_admin-eq-ok a admin now p p' done in
    let here =
      select-test (is_restaurant (target a)) p.billing.restaurants acted.restaurant
        acted.found_restaurant in
    let home =
      select-test (subscription_of (target a)) p.billing.subscriptions acted.sub acted.found in
    let (same_id, same_home) = keeps acted.sub in
    (
      acted.operates,
      (_, ap (λ (q : Platform). q.audits) (sym acted.written), refl, ground arith),
      subst
          (λ (q : Platform).
            select (subscription_of other) q.billing.subscriptions
            ≡ select (subscription_of other) p.billing.subscriptions)
          acted.written
          (rw same_id (
            others_kept (target a) other acted.sub (f acted.sub) p.billing.subscriptions ids
              acted.found (ground arith) ne)),
    )
