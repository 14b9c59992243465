-- ===== src/Analytics/Totals.antt =====
-- The columns of `accountability` (routers/analytics.py) over all people.
use karibu.Prelude.{
  ℕ, ◌+◌, ◌-◌, ◌*◌, ◌≡◌, refl, ap, ◌∙◌, String, Bool, List, [], ◌∷◌, arith, inl, inr, str_eq,
  select_all, sum_of, sum_ℤ, sum_of-order_by, All, All-mono, All-select_all, Bool-cases,
}
use mathlib.Core.Path.{subst}
use karibu.Prelude.Int.{ℤ, pos, negsuc, ◌+ℤ◌, ◌-ℤ◌, ◌≤ℤ◌, pos_part, int_laws, parts_of_eq}
use karibu.Api.{ok, ok-injective}
use karibu.Access.{User}
use karibu.Access.Laws.{behind_guard}
use karibu.Order.{Order, amount_paid_cents}
use karibu.Debt.{Debt, outstanding_cents}
use karibu.Db.{Db}
use karibu.Sales.{owed, owed_on}
use karibu.Sales.Owed.{IsSound, IsRepaid, IsCovered}
use karibu.Analytics.People.{
  Person, blank, slot, slot_key, name_of, creditor, credit_on, credit_on_order, shortfall, served,
  add_orders, credited, add_debts, precedes, listed, listed_debt, Accountability, accountability,
}

-- A row that a loop adds to, whoever's it is.
sum_of-slot :
    (g : Person → ℕ) (f : Person → Person) (key : String) (n : ℕ) (ps : List Person)
    → g (blank key) ≡ 0
    → ((p : Person) → g (f p) ≡ g p + n)
    → sum_of g (slot key f ps) ≡ sum_of g ps + n
unfolding slot
sum_of-slot g f key n [] fresh adds = omega (arith, adds (blank key))
sum_of-slot g f key n (p ∷ ps) fresh adds = elim (Bool-cases (str_eq p.name key)) [
  | inl own ↦ rw own (omega (arith, adds p))
  | inr other ↦ rw other (omega (arith, sum_of-slot g f key n ps fresh adds))
]

abbrev pub sales_of : Person → ℕ
sales_of p = p.sales

abbrev unpaid_of : Person → ℕ
unpaid_of p = p.unpaid_value

abbrev credit_of : Person → ℕ
credit_of p = p.credit_outstanding

unpaid_of-served :
    (short : ℤ) (o : Order) (p : Person)
    → unpaid_of (served short o p) ≡ unpaid_of p + pos_part short
unfolding served
unpaid_of-served short o p = ground arith

module _ (rid : ℕ) (users : List User) (debts : List Debt) where
  add_orders-sums :
      (os : List Order) (people : List Person)
      → (sum_of sales_of (add_orders rid users debts os people)
          ≡ sum_of sales_of people + sum_of amount_paid_cents os)
        × (sum_of unpaid_of (add_orders rid users debts os people)
            ≡ sum_of unpaid_of people + sum_of (λ (o : Order). pos_part (shortfall rid debts o)) os)
        × (sum_of credit_of (add_orders rid users debts os people) ≡ sum_of credit_of people)
  unfolding add_orders served
  add_orders-sums [] people = (omega arith, omega arith, refl)
  add_orders-sums (o ∷ os) people =
      let step = served (shortfall rid debts o) o in
      let key = slot_key (name_of users o.server_id) in
      let (sales, unpaid, credit) = add_orders-sums os (slot key step people) in
      (
        omega (
          arith,
          sales,
          sum_of-slot sales_of step key (amount_paid_cents o) people refl (λ p. refl),
        ),
        omega (
          arith,
          unpaid,
          sum_of-slot unpaid_of step key (pos_part (shortfall rid debts o)) people refl
              (unpaid_of-served (shortfall rid debts o) o),
        ),
        omega (arith, credit, sum_of-slot credit_of step key 0 people refl (λ p. omega arith)),
      )

  add_debts-sums :
      (orders : List Order) (ds : List Debt) (people : List Person)
      → (sum_of sales_of (add_debts users orders ds people) ≡ sum_of sales_of people)
        × (sum_of unpaid_of (add_debts users orders ds people) ≡ sum_of unpaid_of people)
        × (sum_of credit_of (add_debts users orders ds people)
            ≡ sum_of credit_of people + sum_of outstanding_cents ds)
  unfolding add_debts credited
  add_debts-sums orders [] people = (refl, refl, omega arith)
  add_debts-sums orders (d ∷ ds) people =
      let key = slot_key (creditor users orders d) in
      let (sales, unpaid, credit) = add_debts-sums orders ds (slot key (credited d) people) in
      (
        omega
            (arith, sales, sum_of-slot sales_of (credited d) key 0 people refl (λ p. omega arith)),
        omega (
          arith,
          unpaid,
          sum_of-slot unpaid_of (credited d) key 0 people refl (λ p. omega arith),
        ),
        omega (
          arith,
          credit,
          sum_of-slot credit_of (credited d) key (outstanding_cents d) people refl (λ p. refl),
        ),
      )

module _ (rid : ℕ) where
  -- What is on credit is within what is owed.
  credit_on-owed_on : (key : ℕ) (d : Debt) → IsRepaid d → credit_on rid key d ≤ℤ owed_on key d
  unfolding credit_on owed_on ◌-ℤ◌
  credit_on-owed_on key d h = ground arith

  credit_on_order-owed :
      (key : ℕ) (ds : List Debt) → All IsRepaid ds → credit_on_order rid ds key ≤ℤ owed key ds
  unfolding credit_on_order owed
  credit_on_order-owed key [] h = omega arith
  credit_on_order-owed key (d ∷ ds) h =
      let rest = credit_on_order-owed key ds h.1 in
      let first = credit_on-owed_on key d h.0 in omega (int_laws, rest, first)

made_up :
    (t p : ℕ) (c : ℤ)
    → pos p +ℤ c ≤ℤ pos t
    → pos (p + pos_part ((pos t -ℤ pos p) -ℤ c)) +ℤ c ≡ pos t
unfolding ◌+ℤ◌ ◌-ℤ◌
made_up t p (pos c) h = ground arith
made_up t p (negsuc c) h = ground arith

module _ (rid : ℕ) (debts : List Debt) where
  -- Payments, credit and what is unpaid make up the orders.
  columns :
      (os : List Order)
      → All
          (λ (o : Order).
            pos (amount_paid_cents o) +ℤ credit_on_order rid debts o.id ≤ℤ pos o.total_cents)
          os
      → pos (
            sum_of amount_paid_cents os
            + sum_of (λ (o : Order). pos_part (shortfall rid debts o)) os)
          +ℤ sum_ℤ (λ (o : Order). credit_on_order rid debts o.id) os
        ≡ pos (sum_of (λ (o : Order). o.total_cents) os)
  unfolding shortfall
  columns [] h = omega int_laws
  columns (o ∷ os) h =
      let rest = columns os h.1 in
      let head = made_up o.total_cents (amount_paid_cents o) (credit_on_order rid debts o.id) h.0 in
      omega (int_laws, parts_of_eq _ _ rest, parts_of_eq _ _ head)

-- In sound books no listed order is owed more on credit than it has left.
all_fair :
    (rid : ℕ) (db : Db) (test : Order → Bool)
    → IsSound db
    → All
        (λ (o : Order).
          pos (amount_paid_cents o) +ℤ credit_on_order rid db.debts o.id ≤ℤ pos o.total_cents)
        (select_all test db.orders)
all_fair rid db test h = All-select_all _ test db.orders (
    All-mono (IsCovered db.debts) _ db.orders
      (λ o covered.
        let credit = credit_on_order-owed rid o.id db.debts h.repaid in
        omega (int_laws, covered, credit))
      h.covered)

-- In sound books, the sales and the unpaid value of all people, and the outstanding credit on the
-- orders listed, come to the totals of these orders, so that no money is reported twice; the
-- credit of all people comes to that of the debts listed.
pub accountability-adds_up :
    (days now : ℕ) (users : List User) (user : User) (db : Db) (r : Accountability)
    → IsSound db
    → accountability days now users user db ≡ ok r
    → (pos (sum_of sales_of r.staff + r.total_unpaid)
          +ℤ sum_ℤ
              (λ (o : Order). credit_on_order user.restaurant_id db.debts o.id)
              (select_all (listed user.restaurant_id (now - days * 86400)) db.orders)
        ≡ pos (
            sum_of
              (λ (o : Order). o.total_cents)
              (select_all (listed user.restaurant_id (now - days * 86400)) db.orders)))
      × (r.total_credit_outstanding
          ≡ sum_of outstanding_cents
              (select_all (listed_debt user.restaurant_id (now - days * 86400)) db.debts))
unfolding accountability
accountability-adds_up days now users user db r h done =
    let (inner, _, _) = behind_guard user _ done in
    let rid = user.restaurant_id in
    let os = select_all (listed rid (now - days * 86400)) db.orders in
    let ds = select_all (listed_debt rid (now - days * 86400)) db.debts in
    let served_by = add_orders rid users db.debts os [] in
    let people = add_debts users db.orders ds served_by in
    let (sales, unpaid, credit) = add_orders-sums rid users db.debts os [] in
    let (sales', unpaid', credit') = add_debts-sums rid users db.debts db.orders ds served_by in
    let total = columns rid db.debts os (all_fair rid db (listed rid (now - days * 86400)) h) in
    subst
      (λ (a : Accountability).
        (pos (sum_of sales_of a.staff + a.total_unpaid)
            +ℤ sum_ℤ (λ (o : Order). credit_on_order rid db.debts o.id) os
          ≡ pos (sum_of (λ (o : Order). o.total_cents) os))
        × (a.total_credit_outstanding ≡ sum_of outstanding_cents ds))
      (ok-injective inner)
      (
        ap (λ n. pos n +ℤ sum_ℤ (λ (o : Order). credit_on_order rid db.debts o.id) os)
              (omega (
                arith,
                sales,
                unpaid,
                sales',
                unpaid',
                sum_of-order_by sales_of precedes people,
                sum_of-order_by unpaid_of precedes people,
              ))
            ∙ total,
        omega (arith, credit, credit', sum_of-order_by credit_of precedes people),
      )
