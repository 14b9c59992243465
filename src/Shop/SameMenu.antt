-- ===== src/Shop/SameMenu.antt =====
-- The dishes across the requests of routers/orders.py, routers/debts.py and routers/stock.py.
use karibu.Prelude.{
  ℕ, ◌+◌, ◌≡◌, refl, sym, ap, ◌∙◌, String, not, ◌&&◌, Option, none, some, [], ◌∷◌, arith, ltb,
  select, strip_or_none,
}
use mathlib.Core.Path.{subst}
use karibu.Prelude.Int.{ℤ}
use karibu.Api.{ok, bind-eq-ok, or_raise-eq-ok, raise_if-eq-ok, ok-injective}
use karibu.Access.{User, is_manager}
use karibu.Access.Laws.{behind_guard}
use karibu.Order.{Order, PaymentMethod, parse_status, parse_method, is_paid, is_cancelled}
use karibu.Stock.Deduction.{Totals, move_item, move_all, apply_sale, reverse_sale}
use karibu.Stock.Routes.{
  StockItemCreate, StockItemUpdate, MovementCreate, RecipeSet, create_stock_item, update_stock_item,
  archive_stock_item, get_item, link_dish, is_dish,
}
use karibu.Stock.Movements.{record_movement, commit_movement}
use karibu.Stock.Keeps.{record_movement-eq-ok}
use karibu.Stock.Recipes.{set_recipe}
use karibu.Db.{Db}
use karibu.Sales.{
  OrderCreate, OrderPaymentIn, snapshot, create_order, update_status, record_payment, cancel_order,
  in_tenant, get_scoped_order, take_payment, settle,
}
use karibu.Sales.Debts.{DebtPaymentIn, pay_debt}
use karibu.Sales.Repayments.{pay_debt-eq-ok}

abbrev pub SameMenu : Db → Db → Type 0
SameMenu db db' = db'.menu_items ≡ db.menu_items

move_item-SameMenu :
    (sign : ℤ) (note : String) (uid : Option ℕ) (now mid : ℕ) (t : ℕ × ℕ) (db : Db)
    → SameMenu db (move_item sign note uid now mid t db)
unfolding move_item
move_item-SameMenu sign note uid now mid t db = ground arith

move_all-SameMenu :
    (sign : ℤ) (note : String) (uid : Option ℕ) (now mid : ℕ) (ts : Totals) (start db : Db)
    → SameMenu start db
    → SameMenu start (move_all sign note uid now mid ts db)
unfolding move_all
move_all-SameMenu sign note uid now mid [] start db h = h
move_all-SameMenu sign note uid now mid (t ∷ ts) start db h =
    move_all-SameMenu sign note uid now (mid + 1) ts start (move_item sign note uid now mid t db)
      (move_item-SameMenu sign note uid now mid t db ∙ h)

pub create_order-SameMenu :
    (body : OrderCreate) (user : User) (reference : String) (key mid now : ℕ) (db db' : Db)
    → create_order body user reference key mid now db ≡ ok db'
    → SameMenu db db'
unfolding create_order apply_sale
create_order-SameMenu body user reference key mid now db db' done =
    let (_, rest) = raise_if-eq-ok (ltb 0 body.discount && not (is_manager user.role)) _ _ done in
    let (items, _, same) =
      bind-eq-ok (snapshot db.menu_items user.restaurant_id body.items) _ rest in
    subst (SameMenu db) (ok-injective same) (move_all-SameMenu _ _ _ _ _ _ db _ refl)

pub cancel_order-SameMenu :
    (key : ℕ) (user : User) (now mid : ℕ) (db db' : Db)
    → cancel_order key user now mid db ≡ ok db'
    → SameMenu db db'
unfolding cancel_order get_scoped_order reverse_sale
cancel_order-SameMenu key user now mid db db' done =
    let (inner, _, _) = behind_guard user _ done in
    let (o, _, rest) =
      or_raise-eq-ok (select (in_tenant key user.restaurant_id) db.orders) _ _ inner in
    let (_, rest1) = raise_if-eq-ok (is_paid o.payment_status) _ _ rest in
    let (_, same) = raise_if-eq-ok (is_cancelled o.status) _ _ rest1 in
    subst (SameMenu db) (ok-injective same) (move_all-SameMenu _ _ _ _ _ _ db _ refl)

pub update_status-SameMenu :
    (key : ℕ) (text : String) (user : User) (db db' : Db)
    → update_status key text user db ≡ ok db'
    → SameMenu db db'
unfolding update_status get_scoped_order
update_status-SameMenu key text user db db' done =
    let (o, _, rest) =
      or_raise-eq-ok (select (in_tenant key user.restaurant_id) db.orders) _ _ done in
    let (s, _, same) = or_raise-eq-ok (parse_status text) _ _ rest in
    subst (SameMenu db) (ok-injective same) refl

take_payment-SameMenu :
    (m : Option PaymentMethod) (body : OrderPaymentIn) (o : Order) (user : User) (now new_id : ℕ)
    (db db' : Db)
    → take_payment m body o user now new_id db ≡ ok db'
    → SameMenu db db'
unfolding take_payment settle
take_payment-SameMenu none body o user now new_id db db' done = absurd (cc)
take_payment-SameMenu (some PaymentMethod.debt) body o user now new_id db db' done =
    let (name, _, same) = or_raise-eq-ok (strip_or_none body.customer_name) _ _ done in
    subst (SameMenu db) (ok-injective same) refl
take_payment-SameMenu (some PaymentMethod.mpesa) body o user now new_id db db' done =
    subst (SameMenu db) (ok-injective done) refl
take_payment-SameMenu (some PaymentMethod.cash) body o user now new_id db db' done =
    subst (SameMenu db) (ok-injective done) refl
take_payment-SameMenu (some PaymentMethod.card) body o user now new_id db db' done =
    subst (SameMenu db) (ok-injective done) refl

pub record_payment-SameMenu :
    (key : ℕ) (body : OrderPaymentIn) (user : User) (now new_id : ℕ) (db db' : Db)
    → record_payment key body user now new_id db ≡ ok db'
    → SameMenu db db'
unfolding record_payment get_scoped_order
record_payment-SameMenu key body user now new_id db db' done =
    let (o, _, rest) =
      or_raise-eq-ok (select (in_tenant key user.restaurant_id) db.orders) _ _ done in
    let (_, taken) = raise_if-eq-ok _ _ _ rest in
    take_payment-SameMenu (parse_method body.method) body o user now new_id db db' taken

pub pay_debt-SameMenu :
    (key : ℕ) (body : DebtPaymentIn) (user : User) (now : ℕ) (db db' : Db)
    → pay_debt key body user now db ≡ ok db'
    → SameMenu db db'
pay_debt-SameMenu key body user now db db' done =
    let r = pay_debt-eq-ok key body user now db db' done in
    sym (ap (λ (d : Db). d.menu_items) r.written)

pub create_stock_item-SameMenu :
    (body : StockItemCreate) (user : User) (key mid now : ℕ) (db db' : Db)
    → create_stock_item body user key mid now db ≡ ok db'
    → SameMenu db db'
unfolding create_stock_item
create_stock_item-SameMenu body user key mid now db db' done =
    let (inner, _, _) = behind_guard user _ done in
    let (linked, _, same) = bind-eq-ok (link_dish db user body key) _ inner in
    subst (SameMenu db) (ok-injective same) refl

pub set_recipe-SameMenu :
    (key : ℕ) (body : RecipeSet) (user : User) (db db' : Db)
    → set_recipe key body user db ≡ ok db'
    → SameMenu db db'
unfolding set_recipe
set_recipe-SameMenu key body user db db' done =
    let (inner, _, _) = behind_guard user _ done in
    let (item, _, rest) = bind-eq-ok (get_item db user key) _ inner in
    let (dish, _, same) =
      or_raise-eq-ok (select (is_dish body.menu_item_id user.restaurant_id) db.menu_items) _ _
        rest in
    subst (SameMenu db) (ok-injective same) refl

pub update_stock_item-SameMenu :
    (key : ℕ) (body : StockItemUpdate) (user : User) (db db' : Db)
    → update_stock_item key body user db ≡ ok db'
    → SameMenu db db'
unfolding update_stock_item
update_stock_item-SameMenu key body user db db' done =
    let (inner, _, _) = behind_guard user _ done in
    let (item, _, same) = bind-eq-ok (get_item db user key) _ inner in
    subst (SameMenu db) (ok-injective same) refl

pub archive_stock_item-SameMenu :
    (key : ℕ) (user : User) (db db' : Db)
    → archive_stock_item key user db ≡ ok db'
    → SameMenu db db'
unfolding archive_stock_item
archive_stock_item-SameMenu key user db db' done =
    let (inner, _, _) = behind_guard user _ done in
    let (item, _, same) = bind-eq-ok (get_item db user key) _ inner in
    subst (SameMenu db) (ok-injective same) refl

pub record_movement-SameMenu :
    (key : ℕ) (body : MovementCreate) (user : User) (what : String) (now mid eid : ℕ) (db db' : Db)
    → record_movement key body user what now mid eid db ≡ ok db'
    → SameMenu db db'
unfolding commit_movement
record_movement-SameMenu key body user what now mid eid db db' done =
    let (item, _, _, same) = record_movement-eq-ok key body user what now mid eid db db' done in
    ap (λ (d : Db). d.menu_items) same
