-- ===== src/Receipts/Shared.antt =====
-- What a receipt link that was issued shows (routers/receipts.py).
use karibu.Prelude.{
  ℕ, ◌≡◌, refl, false, true, none, some, List, [], ◌∷◌, arith, select, select-test, All, Found,
  Found-some, Bool-cases, inl, inr, select-update_const,
}
use karibu.Api.{ok, order_not_found, or_raise-is_ok}
use karibu.Access.{User}
use karibu.Order.{Order, amount_paid_cents, balance_cents}
use karibu.Sales.{get_scoped_order, save_order, in_tenant}
use karibu.Db.{Db, is_order}
use karibu.Receipts.{with_token, issue_receipt, has_token, public_receipt, receipt_of}

-- The one order with a token, once it is written back.
select-marked :
    (token : ℕ) (o : Order) (os : List Order)
    → All (λ (x : Order). has_token token x ≡ false) os
    → Found (is_order o.id) os
    → select (has_token token) (save_order (with_token token o) os) ≡ some (with_token token o)
select-marked token o [] fresh h = absurd (cc)
select-marked token o (x ∷ xs) fresh h = elim (Bool-cases (is_order o.id x)) [
  | inl own ↦
      let marked : has_token token (with_token token o) ≡ true = ground arith in
      rw (own, marked) refl
  | inr other ↦ rw (other, fresh.0) (select-marked token o xs fresh.1 (rw other at h))
]

scoped_by_id :
    (key rid : ℕ) (os : List Order) (o : Order)
    → select (in_tenant key rid) os ≡ some o
    → Found (is_order o.id) os
scoped_by_id key rid [] o h = absurd (cc)
scoped_by_id key rid (x ∷ xs) o h = elim (Bool-cases (in_tenant key rid x)) [
  | inl own ↦ let same : x ≡ o = ground arith in rw same (ground arith)
  | inr other ↦ elim (Bool-cases (is_order o.id x)) [
    | inl e ↦ rw e refl
    | inr e ↦ rw e (scoped_by_id key rid xs o (rw other at h))
  ]
]

-- The first link to the receipt of an order, under a token that no order has, shows the receipt of
-- that order to anybody; asking again, by any user of the restaurant, gives the same link and
-- changes nothing.
pub issue_receipt_shared :
    (key token other : ℕ) (user again : User) (db : Db) (o : Order)
    → get_scoped_order db key user.restaurant_id ≡ ok o
    → o.receipt_token ≡ none
    → All (λ (x : Order). has_token token x ≡ false) db.orders
    → again.restaurant_id ≡ user.restaurant_id
    → (db' : Db) × (issue_receipt key user token db ≡ ok (token, db'))
      × (public_receipt token db' ≡ ok (receipt_of o))
      × (issue_receipt key again other db' ≡ ok (token, db'))
unfolding issue_receipt public_receipt get_scoped_order receipt_of amount_paid_cents balance_cents
issue_receipt_shared key token other user again db o found none_yet fresh same =
    let row : select (in_tenant key user.restaurant_id) db.orders ≡ some o =
      or_raise-is_ok (select (in_tenant key user.restaurant_id) db.orders) order_not_found found in
    let tested = select-test (in_tenant key user.restaurant_id) db.orders o row in
    let marked =
      select-marked token o db.orders fresh (scoped_by_id key user.restaurant_id db.orders o row) in
    let still : select (in_tenant key user.restaurant_id)
          (save_order (with_token token o) db.orders)
        ≡ some (with_token token o) =
      select-update_const (in_tenant key user.restaurant_id) (is_order o.id) (with_token token o)
        db.orders (λ x t. ground arith) (ground arith)
        (Found-some (in_tenant key user.restaurant_id) db.orders o row) in
    (
      record db { orders = save_order (with_token token o) db.orders },
      rw (row, none_yet) refl,
      rw marked refl,
      rw (same, still) refl,
    )
