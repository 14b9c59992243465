-- ===== src/Sales/Repayments.antt =====
-- `pay_debt` (routers/debts.py) turns a promise into a payment, cent for cent.
use mathlib.Core.Path.{subst}
use karibu.Prelude.{
  ℕ, ◌+◌, ◌≤◌, ◌≡◌, ◌≢◌, refl, sym, ap, ◌<◌, ◌∙◌, Bool, true, false, not, leb, ltb, none, some,
  List, arith, ◌==◌, if◌then◌else◌, select, select-test, update, All-update, All-select, ==_iff,
  Bool-cases, inl, inr, to_cents,
}
use karibu.Prelude.Int.{ℤ, pos, ◌+ℤ◌, ◌-ℤ◌, int_laws, parts_of_eq}
use karibu.Api.{ok, or_raise-eq-ok, raise_if-eq-ok, ok-injective}
use karibu.Access.{User}
use karibu.Order.{Order, amount_paid_cents, sync_payment_status, is_paid}
use karibu.Order.Money.{amount_paid_cents-append}
use karibu.Debt.{Debt, is_outstanding, outstanding_cents}
use karibu.Sales.{owed, complete_if, save_order}
use karibu.Sales.Debts.{DebtPaymentIn, pay_debt, reduce, with_repayment, in_books}
use karibu.Sales.Owed.{IsSound, IsCovered, IsRepaid, HasKeys-update, owed-update}
use karibu.Sales.Payments.{saved-IsCovered, saved-IsSynced, reduced-IsRepaid, reduced-owed}
use karibu.Sales.Collected.{collected, collected-save, collected-found, pick}
use karibu.Db.{Db, is_order, is_debt}

-- What `pay_debt` has read and checked when it ends well, and what it writes.
pub record Repays (key : ℕ) (body : DebtPaymentIn) (user : User) (now : ℕ) (db db' : Db)
    : Type 0 where
  pub debt : Debt
  pub order : Order
  pub debt_found : select (in_books key user.restaurant_id) db.debts ≡ some debt
  pub order_found : select (is_order debt.order_id) db.orders ≡ some order
  pub outstanding : is_outstanding debt.status ≡ true
  pub positive : leb (to_cents body.amount) 0 ≡ false
  pub fits : to_cents body.amount ≤ outstanding_cents debt
  pub written :
      record db {
        debts = update (is_debt debt.id) (λ _. reduce (to_cents body.amount) now debt) db.debts;
        orders =
            save_order
              (complete_if
                (is_paid (sync_payment_status (with_repayment body debt now order)).payment_status)
                (sync_payment_status (with_repayment body debt now order)))
              db.orders;
      }
      ≡ db'

still_owed : (s : Bool) → not s ≡ false → s ≡ true
still_owed s h = ground arith

within_debt : (a b : ℕ) → ltb a b ≡ false → b ≤ a
within_debt a b h = ground arith

pub pay_debt-eq-ok :
    (key : ℕ) (body : DebtPaymentIn) (user : User) (now : ℕ) (db db' : Db)
    → pay_debt key body user now db ≡ ok db'
    → Repays key body user now db db'
unfolding pay_debt
pay_debt-eq-ok key body user now db db' done =
    let (debt, debt_found, rest) =
      or_raise-eq-ok (select (in_books key user.restaurant_id) db.debts) _ _ done in
    let (out, rest1) = raise_if-eq-ok (not (is_outstanding debt.status)) _ _ rest in
    let (positive, rest2) = raise_if-eq-ok (leb (to_cents body.amount) 0) _ _ rest1 in
    let (fits, rest3) =
      raise_if-eq-ok (ltb (outstanding_cents debt) (to_cents body.amount)) _ _ rest2 in
    let (order, order_found, same) =
      or_raise-eq-ok (select (is_order debt.order_id) db.orders) _ _ rest3 in
    record {
      debt = debt;
      order = order;
      debt_found = debt_found;
      order_found = order_found;
      outstanding = still_owed (is_outstanding debt.status) out;
      positive = positive;
      fits = within_debt (outstanding_cents debt) (to_cents body.amount) fits;
      written = ok-injective same;
    }

id-reduce : (amount now : ℕ) (d : Debt) → (reduce amount now d).id ≡ d.id
unfolding reduce
id-reduce amount now d = ground arith

moved_by :
    (oid key n : ℕ) (s t : ℤ)
    → s +ℤ (if key == oid then pos n else pos 0) ≡ t
    → s ≡ (if oid == key then t -ℤ pos n else t)
moved_by oid key n s t h = elim (Bool-cases (key == oid)) [
  | inl here ↦
      rw (let turned : (oid == key) ≡ true = ground arith in turned)
        (omega (int_laws, parts_of_eq (s +ℤ pos n) t (rw here at h)))
  | inr there ↦
      rw (let turned : (oid == key) ≡ false = ground arith in turned)
        (omega (int_laws, parts_of_eq (s +ℤ pos 0) t (rw there at h)))
]

regroup : (a b c d e : ℤ) → a +ℤ b ≡ c +ℤ d → d +ℤ e ≡ b → a +ℤ e ≡ c
regroup a b c d e h k = omega (int_laws, parts_of_eq (a +ℤ b) (c +ℤ d) h, parts_of_eq (d +ℤ e) b k)

unshifted : (b : Bool) (n : ℕ) (s t : ℤ) → b ≡ false → s +ℤ (if b then pos n else pos 0) ≡ t → s ≡ t
unshifted b n s t off h = omega (int_laws, parts_of_eq (s +ℤ pos 0) t (rw off at h))

shifted_by :
    (b : Bool) (n : ℕ) (s t : ℤ) → b ≡ true → s +ℤ (if b then pos n else pos 0) ≡ t → s +ℤ pos n ≡ t
shifted_by b n s t on h = rw on at h

module _ (key : ℕ) (body : DebtPaymentIn) (user : User) (now : ℕ) (db db' : Db) (h : IsSound db)
    (r : Repays key body user now db db') where
  after_debts : List Debt
  after_debts = update (is_debt r.debt.id) (λ _. reduce (to_cents body.amount) now r.debt) db.debts

  debt_within : IsRepaid r.debt
  debt_within =
      All-select IsRepaid (in_books key user.restaurant_id) db.debts r.debt h.repaid r.debt_found

  same_order : r.order.id ≡ r.debt.order_id
  same_order =
      (==_iff r.order.id r.debt.order_id).0
        (select-test (is_order r.debt.order_id) db.orders r.order r.order_found)

  -- the sums of any order before and after
  owed_moves :
      (oid : ℕ)
      → owed oid after_debts
          +ℤ (if r.debt.order_id == oid then pos (to_cents body.amount) else pos 0)
        ≡ owed oid db.debts
  unfolding after_debts
  owed_moves oid =
      regroup _ _ _ _ _
        (owed-update oid key user.restaurant_id r.debt (reduce (to_cents body.amount) now r.debt)
          db.debts h.keys r.debt_found)
        (reduced-owed oid (to_cents body.amount) now r.debt r.outstanding debt_within.0 r.fits)

  owed_elsewhere : (oid : ℕ) → oid ≢ r.debt.order_id → owed oid after_debts ≡ owed oid db.debts
  owed_elsewhere oid ne = unshifted (r.debt.order_id == oid) _ _ _ (ground arith) (owed_moves oid)

  owed_here :
      owed r.debt.order_id after_debts +ℤ pos (to_cents body.amount) ≡ owed r.debt.order_id db.debts
  owed_here =
      shifted_by (r.debt.order_id == r.debt.order_id) _ _ _ (ground arith)
        (owed_moves r.debt.order_id)

  -- the order with its new payment
  paid_order : Order
  paid_order = with_repayment body r.debt now r.order

  order-IsCovered : IsCovered db.debts r.order
  order-IsCovered =
      All-select (IsCovered db.debts) (is_order r.debt.order_id) db.orders r.order h.covered
        r.order_found

  paid_more : amount_paid_cents paid_order ≡ amount_paid_cents r.order + to_cents body.amount
  unfolding paid_order with_repayment
  paid_more = amount_paid_cents-append r.order _

  -- Payments and promises on the order add up to what they were.
  order_conserved :
      pos (amount_paid_cents paid_order) +ℤ owed r.order.id after_debts
      ≡ pos (amount_paid_cents r.order) +ℤ owed r.order.id db.debts
  order_conserved =
      rw (paid_more, same_order)
        (omega (
          int_laws,
          parts_of_eq (owed r.debt.order_id after_debts +ℤ pos (to_cents body.amount))
              (owed r.debt.order_id db.debts) owed_here,
        ))

  paid_order-IsCovered : IsCovered after_debts paid_order
  unfolding paid_order with_repayment
  paid_order-IsCovered = rw order_conserved order-IsCovered

  repaid-IsSound : IsSound db'
  unfolding after_debts paid_order with_repayment
  repaid-IsSound = subst IsSound r.written (record {
    covered =
        saved-IsCovered db paid_order after_debts h paid_order-IsCovered
          (λ x ne. owed_elsewhere x.id (λ q. ne (q ∙ sym same_order)))
          (is_paid (sync_payment_status paid_order).payment_status);
    synced =
        saved-IsSynced db paid_order after_debts h paid_order-IsCovered
          (λ x ne. owed_elsewhere x.id (λ q. ne (q ∙ sym same_order)))
          (is_paid (sync_payment_status paid_order).payment_status);
    repaid =
        All-update IsRepaid IsRepaid (is_debt r.debt.id) _ db.debts
          (λ x px t. reduced-IsRepaid (to_cents body.amount) now r.debt r.fits debt_within)
          (λ x px t. px) h.repaid;
    keys =
        HasKeys-update r.debt (reduce (to_cents body.amount) now r.debt) db.debts
          (id-reduce (to_cents body.amount) now r.debt) h.keys;
  })

  -- the row of the order as it is written back
  saved_row : Order
  unfolding paid_order
  saved_row =
      complete_if (is_paid (sync_payment_status paid_order).payment_status)
        (sync_payment_status paid_order)

  saved_id : saved_row.id ≡ r.debt.order_id
  unfolding saved_row complete_if sync_payment_status with_repayment
  saved_id = same_order

  saved_amount : amount_paid_cents saved_row ≡ amount_paid_cents r.order + to_cents body.amount
  unfolding saved_row complete_if sync_payment_status amount_paid_cents
  saved_amount = paid_more

  collected_saved :
      (oid : ℕ)
      → collected oid (save_order saved_row db.orders) ≡ (
          if oid == r.debt.order_id
          then (elim (collected oid db.orders) [
            | none ↦ none
            | some _ ↦ some (amount_paid_cents saved_row)
          ])
          else collected oid db.orders)
  collected_saved oid =
      subst
        (λ k. collected oid (save_order saved_row db.orders) ≡ (
          if oid == k
          then (elim (collected oid db.orders) [
            | none ↦ none
            | some _ ↦ some (amount_paid_cents saved_row)
          ])
          else collected oid db.orders))
        saved_id (collected-save oid saved_row.id saved_row db.orders refl)

  -- payments of any order before and after
  collected_after :
      (oid : ℕ)
      → collected oid db'.orders ≡ (
          if oid == r.debt.order_id
          then some (amount_paid_cents r.order + to_cents body.amount)
          else collected oid db.orders)
  unfolding saved_row paid_order
  collected_after oid =
      subst
        (λ (d : Db). collected oid d.orders ≡ (
          if oid == r.debt.order_id
          then some (amount_paid_cents r.order + to_cents body.amount)
          else collected oid db.orders))
        r.written
        (collected_saved oid
          ∙ pick (oid == r.debt.order_id) (collected oid db.orders) (amount_paid_cents saved_row)
              (amount_paid_cents r.order + to_cents body.amount) (amount_paid_cents r.order)
              saved_amount
              (λ e.
                collected-found oid r.order db.orders
                  (rw (← (==_iff oid r.debt.order_id).0 e) at r.order_found)))

  owed_after :
      (oid : ℕ)
      → owed oid db'.debts ≡ (
          if oid == r.debt.order_id
          then owed oid db.debts -ℤ pos (to_cents body.amount)
          else owed oid db.debts)
  unfolding after_debts
  owed_after oid =
      subst
        (λ (d : Db). owed oid d.debts ≡ (
          if oid == r.debt.order_id
          then owed oid db.debts -ℤ pos (to_cents body.amount)
          else owed oid db.debts))
        r.written
        (moved_by oid r.debt.order_id (to_cents body.amount) (owed oid after_debts)
          (owed oid db.debts) (owed_moves oid))

-- A repayment that is accepted keeps the books sound.
pub pay_debt-IsSound :
    (key : ℕ) (body : DebtPaymentIn) (user : User) (now : ℕ) (db db' : Db)
    → IsSound db
    → pay_debt key body user now db ≡ ok db'
    → IsSound db'
pay_debt-IsSound key body user now db db' h done =
    repaid-IsSound key body user now db db' h (pay_debt-eq-ok key body user now db db' done)

-- In sound books, a repayment that is accepted is of a positive amount and moves exactly that
-- amount from what the order of the debt is owed to what it has collected; what every other order
-- is owed and has collected is left as it was.
pub pay_debt_moves :
    (key : ℕ) (body : DebtPaymentIn) (user : User) (now : ℕ) (db db' : Db) (debt : Debt)
    (before oid : ℕ)
    → IsSound db
    → select (in_books key user.restaurant_id) db.debts ≡ some debt
    → collected debt.order_id db.orders ≡ some before
    → pay_debt key body user now db ≡ ok db'
    → (0 < to_cents body.amount)
      × (collected oid db'.orders ≡ (
          if oid == debt.order_id
          then some (before + to_cents body.amount)
          else collected oid db.orders))
      × (owed oid db'.debts ≡ (
          if oid == debt.order_id
          then owed oid db.debts -ℤ pos (to_cents body.amount)
          else owed oid db.debts))
pay_debt_moves key body user now db db' debt before oid h found had done =
    let r = pay_debt-eq-ok key body user now db db' done in
    let same : r.debt ≡ debt = cc (r.debt_found) in
    let known : amount_paid_cents r.order ≡ before = cc (
      collected-found r.debt.order_id r.order db.orders r.order_found,
      ap (λ (d : Debt). collected d.order_id db.orders) same,
    ) in
    (
      ground (arith, r.positive),
      subst
          (λ (d : Debt). collected oid db'.orders ≡ (
            if oid == d.order_id
            then some (before + to_cents body.amount)
            else collected oid db.orders))
          same
          (subst
            (λ n. collected oid db'.orders ≡ (
              if oid == r.debt.order_id
              then some (n + to_cents body.amount)
              else collected oid db.orders))
            known (collected_after key body user now db db' h r oid)),
      subst
          (λ (d : Debt). owed oid db'.debts ≡ (
            if oid == d.order_id
            then owed oid db.debts -ℤ pos (to_cents body.amount)
            else owed oid db.debts))
          same (owed_after key body user now db db' h r oid),
    )
