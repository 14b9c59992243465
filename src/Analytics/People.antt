-- ===== src/Analytics/People.antt =====
-- routers/analytics.py: `accountability`, who is carrying unpaid money. A name that is empty or
-- missing is "Unattributed"; amounts are in cents.
use karibu.Prelude.{
  ℕ, ◌+◌, ◌-◌, ◌*◌, String, Bool, ◌&&◌, ◌||◌, not, Option, none, some, List, [], ◌∷◌, leb, ltb,
  ◌==◌, str_eq, if◌then◌else◌, select, select_all, sum_of, sum_ℤ, order_by,
}
use karibu.Prelude.Int.{ℤ, pos, ◌-ℤ◌, ltb_ℤ, pos_part}
use karibu.Api.{Result, ok, ◌>>=◌}
use karibu.Access.{User, require_roles, managers}
use karibu.Order.{Order, amount_paid_cents, is_cancelled}
use karibu.Debt.{Debt, is_outstanding, outstanding_cents}
use karibu.Db.{Db}

-- the dict of one person
pub record Person : Type 0 where
  pub name : String
  pub orders_served : ℕ
  pub sales : ℕ
  pub unpaid_orders : ℕ
  pub unpaid_value : ℕ
  pub credit_given : ℕ
  pub credit_outstanding : ℕ

abbrev pub blank : String → Person
blank name = record {
  name = name;
  orders_served = 0;
  sales = 0;
  unpaid_orders = 0;
  unpaid_value = 0;
  credit_given = 0;
  credit_outstanding = 0;
}

-- `name or "Unattributed"`
abbrev pub slot_key : Option String → String
slot_key none = "Unattributed"
slot_key (some name) = if str_eq name "" then "Unattributed" else name

-- `slot(name)`, with what is then done to the row
unfoldable pub slot : String → (Person → Person) → List Person → List Person
slot key f [] = f (blank key) ∷ []
slot key f (p ∷ ps) = let rest = slot key f ps in if str_eq p.name key then f p ∷ ps else p ∷ rest

-- the full name of a user, where there is one
unfoldable pub name_of : List User → Option ℕ → Option String
name_of users none = none
name_of users (some key) = elim (select (λ (u : User). u.id == key) users) [
  | none ↦ none
  | some u ↦ some u.full_name
]

-- what an outstanding debt adds to the sum of its order
unfoldable pub credit_on : ℕ → ℕ → Debt → ℤ
credit_on rid key d =
    if (d.restaurant_id == rid && is_outstanding d.status) && d.order_id == key
    then pos d.amount_cents -ℤ pos d.paid_cents
    else pos 0

-- `credit_on_order`: what the outstanding debts of an order come to
unfoldable pub credit_on_order : ℕ → List Debt → ℕ → ℤ
credit_on_order rid debts key = sum_ℤ (credit_on rid key) debts

unfoldable pub shortfall : ℕ → List Debt → Order → ℤ
unfolding credit_on_order
shortfall rid debts o =
    (pos o.total_cents -ℤ pos (amount_paid_cents o)) -ℤ credit_on_order rid debts o.id

-- the body of the loop over the orders, on the row of the server
unfoldable pub served : ℤ → Order → Person → Person
served short o row =
    let unpaid = ltb_ℤ (pos 0) short in
    record row {
      orders_served = row.orders_served + 1;
      sales = row.sales + amount_paid_cents o;
      unpaid_orders = if unpaid then row.unpaid_orders + 1 else row.unpaid_orders;
      unpaid_value = if unpaid then row.unpaid_value + pos_part short else row.unpaid_value;
    }

unfoldable pub add_orders : ℕ → List User → List Debt → List Order → List Person → List Person
unfolding name_of
add_orders rid users debts [] people = people
add_orders rid users debts (o ∷ os) people =
    add_orders rid users debts os
      (slot (slot_key (name_of users o.server_id)) (served (shortfall rid debts o) o) people)

-- the body of the loop over the debts, on the row of who authorised the credit
unfoldable pub credited : Debt → Person → Person
credited d row = record row {
  credit_given = row.credit_given + 1;
  credit_outstanding = row.credit_outstanding + outstanding_cents d;
}

-- who recorded the debt, or who served its order
unfoldable pub creditor : List User → List Order → Debt → Option String
unfolding name_of
creditor users orders d = elim (name_of users d.recorded_by_id) [
  | some name ↦ some name
  | none ↦ (elim (select (λ (o : Order). o.id == d.order_id) orders) [
    | none ↦ none
    | some o ↦ name_of users o.server_id
  ])
]

unfoldable pub add_debts : List User → List Order → List Debt → List Person → List Person
unfolding creditor
add_debts users orders [] people = people
add_debts users orders (d ∷ ds) people =
    add_debts users orders ds (slot (slot_key (creditor users orders d)) (credited d) people)

-- the key of the sort, in descending order
abbrev pub precedes : Person → Person → Bool
precedes p q =
    ltb q.credit_outstanding p.credit_outstanding
    || (p.credit_outstanding == q.credit_outstanding && leb q.unpaid_value p.unpaid_value)

abbrev pub listed : ℕ → ℕ → Order → Bool
listed rid since o =
    (o.restaurant_id == rid && leb since o.created_at) && not (is_cancelled o.status)

abbrev pub listed_debt : ℕ → ℕ → Debt → Bool
listed_debt rid since d = d.restaurant_id == rid && leb since d.created_at_idx

pub record Accountability : Type 0 where
  pub staff : List Person
  pub total_unpaid : ℕ
  pub total_credit_outstanding : ℕ

-- `accountability`; `users` is the table of users
unfoldable pub accountability : ℕ → ℕ → List User → User → Db → Result Accountability
accountability days now users user db = do
  caller ← require_roles managers user
  let rid = caller.restaurant_id
  let since = now - days * 86400
  let orders = select_all (listed rid since) db.orders
  let debts = select_all (listed_debt rid since) db.debts
  let people = add_debts users db.orders debts (add_orders rid users db.debts orders [])
  let rows = order_by precedes people
  ok (record {
    staff = rows;
    total_unpaid = sum_of (λ (p : Person). p.unpaid_value) rows;
    total_credit_outstanding = sum_of (λ (p : Person). p.credit_outstanding) rows;
  })
