-- ===== src/Examples/Day.antt =====
-- A first day at the café: its menu is set up, stock comes in, an order is placed on credit and
-- repaid, and the dish is taken off the menu (Shop).
use karibu.Prelude.{◌≡◌, ◌≢◌, true, none, some, [], ◌∷◌, refl, arith}
use karibu.Prelude.Int.{pos}
use karibu.Api.{after, ok, err, already_removed}
use karibu.Access.{User}
use karibu.Db.{Db}
use karibu.Sales.{OrderCreate, OrderPaymentIn, create_order}
use karibu.Menu.{CategoryCreate, MenuItemCreate, add_category, add_item, drop_item, delete_item}
use karibu.Menu.Links.{IsLinked}
use karibu.Shop.Retiring.{now_on, after_that}
use karibu.Menu.History.{delete_item_retires}
use karibu.Sales.Debts.{DebtPaymentIn}
use karibu.Sales.Owed.{IsSound}
use karibu.Stock.Routes.{StockItemCreate}
use karibu.Stock.Ledger.{IsReconciled}
use karibu.Shop.{
  Request, no_rows, place, pay, repay, stock, on_menu, handle, Reach, opened, next, accepted,
}
use karibu.Shop.Invariant.{Reach-IsSound}
use karibu.Examples.{boss, waiter}

abbrev tea_leaves : StockItemCreate
tea_leaves = record {
  name = "Tea leaves";
  unit = "kg";
  quantity = 2000000;
  reorder_level = 0;
  unit_cost = none;
  supplier = none;
  note = none;
  menu_item_id = some 1;
  portions_per_unit = some 50000000;
}

abbrev two_teas_in : OrderCreate
two_teas_in = record {
  order_type = "dine_in";
  table_number = none;
  customer_name = none;
  notes = none;
  discount = 0;
  items = record { menu_item_id = 1; quantity = 2; modifiers = none } ∷ [];
}

abbrev credit : OrderPaymentIn
credit = record {
  method = "debt";
  amount = 10000000;
  reference = none;
  customer_name = some "Otieno";
  customer_phone = none;
  due_date = none;
}

abbrev half_back : DebtPaymentIn
half_back = record { amount = 5000000; method = "mpesa"; reference = none }

abbrev drinks_in : CategoryCreate
drinks_in = record { name = "Drinks"; icon = "cup"; sort_order = pos 0 }

abbrev tea_in : MenuItemCreate
tea_in = record {
  name = "Tea";
  price = 5000000;
  category_id = 1;
  description = none;
  image_url = none;
  prep_minutes = pos 15;
  is_available = true;
}

-- a request, with the code of its handler open
serve : Request → User → Db → Db
unfolding handle karibu.Stock.Routes.create_stock_item karibu.Access.require_roles
    karibu.Stock.Routes.link_dish karibu.Sales.owed karibu.Sales.create_order karibu.Sales.snapshot
    karibu.Stock.Deduction.apply_sale karibu.Stock.Deduction.move_all
    karibu.Stock.Deduction.lines_for karibu.Stock.Deduction.add_lines karibu.Order.recalculate
    karibu.Sales.new_order karibu.Stock.Deduction.add_recipes karibu.Stock.Deduction.add_recipe
    karibu.Stock.Deduction.is_live karibu.Stock.Routes.new_item karibu.Stock.Deduction.add_total
    karibu.Stock.Deduction.move_item karibu.Debt.outstanding_cents karibu.Order.amount_paid_cents
    karibu.Order.balance_cents karibu.Order.line_total_cents karibu.Order.parse_method
    karibu.Prelude.Int.◌+ℤ◌ karibu.Prelude.Int.◌-ℤ◌ karibu.Prelude.round_half_even
    karibu.Prelude.strip karibu.Sales.Debts.pay_debt karibu.Sales.Debts.reduce
    karibu.Sales.get_scoped_order karibu.Sales.new_debt karibu.Sales.owed_on
    karibu.Sales.record_payment karibu.Sales.remaining karibu.Sales.settle karibu.Sales.take_payment
    karibu.Stock.Routes.opening karibu.Stock.Routes.per_portion karibu.Menu.handle_menu
    karibu.Menu.create_category karibu.Menu.create_item karibu.Menu.get_scoped_category
    karibu.Menu.new_menu_item karibu.Menu.delete_item karibu.Menu.get_any_item
    karibu.Menu.remove_item karibu.Menu.times_ordered karibu.Menu.archived
serve r user db = after (handle r user) db

abbrev with_drinks : Db
with_drinks = after (handle (on_menu (add_category drinks_in 1)) boss) no_rows

abbrev with_tea : Db
with_tea = after (handle (on_menu (add_item tea_in 1)) boss) with_drinks

abbrev stocked : Db
stocked = after (handle (stock tea_leaves 1 1 10) boss) with_tea

abbrev placed : Db
placed = after (handle (place two_teas_in "ORD-1001" 1 2 20) waiter) stocked

abbrev on_credit : Db
on_credit = after (handle (pay 1 credit 30 1) waiter) placed

abbrev repaid : Db
repaid = after (handle (repay 1 half_back 40) waiter) on_credit

abbrev no_tea : Db
no_tea = after (handle (on_menu (drop_item 1)) boss) repaid

day : Reach no_tea
unfolding serve karibu.Order.sync_payment_status
day =
    next
      (next
        (next
          (next
            (next
              (next (next opened (accepted (on_menu (add_category drinks_in 1)) boss tt refl))
                (accepted (on_menu (add_item tea_in 1)) boss tt refl))
              (accepted (stock tea_leaves 1 1 10) boss (omega arith) refl))
            (accepted (place two_teas_in "ORD-1001" 1 2 20) waiter refl refl))
          (accepted (pay 1 credit 30 1) waiter tt refl))
        (accepted (repay 1 half_back 40) waiter tt refl))
      (accepted (on_menu (drop_item 1)) boss tt refl)

Reach-IsSound_example : IsSound no_tea × IsReconciled no_tea × IsLinked no_tea
Reach-IsSound_example = Reach-IsSound day

-- after the tea is off the menu, another dish is added
abbrev with_chai : Db
with_chai = after (handle (on_menu (add_item tea_in 2)) boss) no_tea

delete_item_retires_example :
    (no_tea.orders ≡ repaid.orders)
    × (delete_item 1 boss no_tea ≡ err already_removed)
    × (create_order two_teas_in waiter "ORD-1002" 2 3 50 with_chai ≢ ok no_rows)
    × (delete_item 1 waiter with_chai ≢ ok no_rows)
unfolding serve karibu.Order.sync_payment_status karibu.Sales.complete_if
    karibu.Sales.Debts.with_repayment karibu.Menu.times_ordered
delete_item_retires_example =
    delete_item_retires 1 boss repaid no_tea with_chai two_teas_in waiter waiter "ORD-1002" 2 3 50
      no_rows no_rows refl (after_that now_on (on_menu (add_item tea_in 2)) boss (omega arith) refl)
      refl
