-- ===== src/Sales/Payments.antt =====
-- `record_payment` (routers/orders.py) and `pay_debt` (routers/debts.py) keep the books sound.
use mathlib.Core.Path.{subst}
use karibu.Prelude.{
  ℕ, ◌+◌, ◌-◌, ◌≤◌, ◌≡◌, ◌≢◌, refl, sym, String, Bool, true, false, inl, Option, none, some, List,
  [], ◌∷◌, ◌++◌, arith, ◌==◌, if◌then◌else◌, select, All, All-update, All-append, All-select,
  to_cents, strip_or_none,
}
use karibu.Prelude.Int.{ℤ, pos, ◌+ℤ◌, ◌-ℤ◌, ◌≤ℤ◌, ltb_ℤ, int_laws}
use karibu.Api.{ok, or_raise-eq-ok, raise_if-eq-ok, ok-injective}
use karibu.Access.{User}
use karibu.Order.{
  Order, PaymentMethod, amount_paid_cents, sync_payment_status, balance_cents, parse_method,
}
use karibu.Order.Money.{amount_paid_cents-append}
use karibu.Debt.{Debt, is_outstanding, outstanding_cents}
use karibu.Sales.{
  OrderPaymentIn, owed, owed_on, save_order, settle, complete_if, remaining, record_payment,
  get_scoped_order, take_payment, new_debt, with_payment, in_tenant,
}
use karibu.Sales.Owed.{
  IsSound, IsCovered, IsSynced, IsRepaid, HasKeys, HasKeys-snoc, owed-snoc, owed_on-other,
  owed_on-own, owed_nonneg,
}
use karibu.Sales.Debts.{reduce}
use karibu.Db.{Db, is_order}

-- Saving an order whose payments were synced, together with new debts that concern only it.
module _ (db : Db) (o : Order) (debts : List Debt) (h : IsSound db) (within : IsCovered debts o)
    (others : (x : Order) → x.id ≢ o.id → owed x.id debts ≡ owed x.id db.debts) where
  pub saved-IsCovered :
      (test : Bool)
      → All (IsCovered debts) (save_order (complete_if test (sync_payment_status o)) db.orders)
  unfolding sync_payment_status complete_if amount_paid_cents
  saved-IsCovered test =
      All-update (IsCovered db.debts) (IsCovered debts) (is_order o.id)
        (λ _. complete_if test (sync_payment_status o)) db.orders (λ x px t. within)
        (λ x px t.
          subst (λ s. pos (amount_paid_cents x) +ℤ s ≤ℤ pos x.total_cents)
            (sym (others x (ground arith))) px)
        h.covered

  pub saved-IsSynced :
      (test : Bool) → All IsSynced (save_order (complete_if test (sync_payment_status o)) db.orders)
  unfolding sync_payment_status complete_if amount_paid_cents
  saved-IsSynced test =
      All-update IsSynced IsSynced (is_order o.id) (λ _. complete_if test (sync_payment_status o))
        db.orders (λ x px t. refl) (λ x px t. px) h.synced

  settle-IsSound : All IsRepaid debts → HasKeys debts → IsSound (settle o debts db)
  unfolding settle
  settle-IsSound repaid keys = record {
    covered = saved-IsCovered _;
    synced = saved-IsSynced _;
    repaid = repaid;
    keys = keys;
  }

not-ltb_ℤ : (a b : ℤ) → ltb_ℤ a b ≡ false → b ≤ℤ a
not-ltb_ℤ a b h = ground arith

-- What the cap of `record_payment` leaves room for.
cap :
    (total collected amount : ℕ) (s : ℤ)
    → pos 0 ≤ℤ s
    → pos collected +ℤ s ≤ℤ pos total
    → ltb_ℤ (pos (total - collected) -ℤ s) (pos amount) ≡ false
    → pos (collected + amount) +ℤ s ≤ℤ pos total
cap total collected amount s nonneg fits room =
    omega (int_laws, not-ltb_ℤ (pos (total - collected) -ℤ s) (pos amount) room)

-- A payment or a debt that is accepted keeps the books sound.
module _ (body : OrderPaymentIn) (user : User) (now new_id : ℕ) (order : Order) (db : Db)
    (h : IsSound db) (covered : IsCovered db.debts order)
    (room : ltb_ℤ (remaining order db.debts) (pos (to_cents body.amount)) ≡ false) where
  capped :
      pos (amount_paid_cents order + to_cents body.amount) +ℤ owed order.id db.debts
      ≤ℤ pos order.total_cents
  unfolding remaining balance_cents
  capped =
      cap order.total_cents (amount_paid_cents order) (to_cents body.amount)
        (owed order.id db.debts) (owed_nonneg order.id db.debts h.repaid) covered room

  paid-IsSound :
      (m : PaymentMethod) → IsSound (settle (with_payment m body user now order) db.debts db)
  unfolding with_payment
  paid-IsSound m =
      settle-IsSound db (with_payment m body user now order) db.debts h
        (rw (amount_paid_cents-append order _) capped) (λ x ne. refl) h.repaid h.keys

  promised-IsSound :
      (name : String)
      → All (λ (e : Debt). e.id ≢ new_id) db.debts
      → IsSound (settle order (db.debts ++ new_debt body order user name now new_id ∷ []) db)
  unfolding new_debt
  promised-IsSound name fresh =
      settle-IsSound db order (db.debts ++ new_debt body order user name now new_id ∷ []) h
        (rw
          (
            owed-snoc order.id db.debts (new_debt body order user name now new_id),
            owed_on-own (new_debt body order user name now new_id) refl,
          )
          (let c = capped in omega int_laws))
        (λ x ne.
          rw
            (
              owed-snoc x.id db.debts (new_debt body order user name now new_id),
              owed_on-other x.id (new_debt body order user name now new_id) (λ q. ne (sym q)),
            )
            (omega int_laws))
        (All-append IsRepaid db.debts _ h.repaid ((omega arith, inl refl), tt))
        (HasKeys-snoc db.debts (new_debt body order user name now new_id) h.keys fresh)

  take_payment-IsSound :
      (m : Option PaymentMethod) (db' : Db)
      → All (λ (e : Debt). e.id ≢ new_id) db.debts
      → take_payment m body order user now new_id db ≡ ok db'
      → IsSound db'
  unfolding take_payment
  take_payment-IsSound none db' fresh done = absurd (cc)
  take_payment-IsSound (some PaymentMethod.debt) db' fresh done =
      let (name, _, same) = or_raise-eq-ok (strip_or_none body.customer_name) _ _ done in
      subst IsSound (ok-injective same) (promised-IsSound name fresh)
  take_payment-IsSound (some PaymentMethod.cash) db' fresh done =
      subst IsSound (ok-injective done) (paid-IsSound PaymentMethod.cash)
  take_payment-IsSound (some PaymentMethod.mpesa) db' fresh done =
      subst IsSound (ok-injective done) (paid-IsSound PaymentMethod.mpesa)
  take_payment-IsSound (some PaymentMethod.card) db' fresh done =
      subst IsSound (ok-injective done) (paid-IsSound PaymentMethod.card)

-- Recording a payment, or a debt under a new id, keeps the books sound: for every order payments
-- and outstanding promises together stay within its total, the stored payment status is that of
-- its payments, no debt is repaid beyond its amount and a settled one is repaid whole, and no two
-- debts share an id.
pub record_payment-IsSound :
    (key : ℕ) (body : OrderPaymentIn) (user : User) (now new_id : ℕ) (db db' : Db)
    → IsSound db
    → All (λ (e : Debt). e.id ≢ new_id) db.debts
    → record_payment key body user now new_id db ≡ ok db'
    → IsSound db'
unfolding record_payment get_scoped_order
record_payment-IsSound key body user now new_id db db' h fresh done =
    let (order, found, rest) =
      or_raise-eq-ok (select (in_tenant key user.restaurant_id) db.orders) _ _ done in
    let (room, taken) = raise_if-eq-ok _ _ _ rest in
    take_payment-IsSound body user now new_id order db h
      (All-select (IsCovered db.debts) (in_tenant key user.restaurant_id) db.orders order h.covered
        found)
      room (parse_method body.method) db' fresh taken

pub reduced-IsRepaid :
    (amount now : ℕ) (d : Debt)
    → amount ≤ outstanding_cents d
    → IsRepaid d
    → IsRepaid (reduce amount now d)
unfolding reduce outstanding_cents
reduced-IsRepaid amount now d fits h = ground arith

-- What the debt loses, the order gains.
pub reduced-owed :
    (key amount now : ℕ) (d : Debt)
    → is_outstanding d.status ≡ true
    → d.paid_cents ≤ d.amount_cents
    → amount ≤ outstanding_cents d
    → owed_on key (reduce amount now d) +ℤ (if d.order_id == key then pos amount else pos 0)
      ≡ owed_on key d
unfolding reduce outstanding_cents owed_on ◌+ℤ◌ ◌-ℤ◌
reduced-owed key amount now d out within fits = ground arith
