-- ===== src/Shop/Invariant.antt =====
-- What every state of a restaurant has, however its requests were ordered.
use karibu.Prelude.{ℕ, ◌≡◌, refl, none, select}
use mathlib.Core.Path.{subst}
use karibu.Api.{ok, bind-eq-ok, or_raise-eq-ok, ok-injective, menu_item_not_found}
use karibu.Access.Laws.{behind_guard}
use karibu.Stock.Routes.{StockItemUpdate, RecipeSet, get_item, is_dish}
use karibu.Stock.Recipes.{set_recipe}
use karibu.Access.{User}
use karibu.Db.{Db}
use karibu.Shop.{
  Request, place, restatus, pay, cancel, repay, stock, edit, archive, move, link, on_menu, spend,
  handle, DrawsFresh, accepted, Reach, opened, next,
}
use karibu.Shop.Stocking.{
  SameBooks, SameBooks-IsSound, create_stock_item-SameBooks, update_stock_item-SameBooks,
  archive_stock_item-SameBooks, record_movement-SameBooks, set_recipe-SameBooks,
}
use karibu.Shop.Selling.{
  SameShelf, SameShelf-IsReconciled, create_order-IsReconciled, cancel_order-IsReconciled,
  update_status-SameShelf, record_payment-SameShelf, pay_debt-SameShelf,
}
use karibu.Menu.Links.{IsLinked}
use karibu.Menu.Apart.{MenuOnly, handle_menu-MenuOnly}
use karibu.Expenses.Requests.{ExpensesOnly, handle_expense-ExpensesOnly}
use karibu.Shop.Linking.{handle-IsLinked}
use karibu.Sales.Owed.{IsSound}
use karibu.Sales.Payments.{record_payment-IsSound}
use karibu.Sales.Repayments.{pay_debt-IsSound}
use karibu.Sales.Orders.{update_status-IsSound, cancel_order-IsSound}
use karibu.Sales.Placing.{create_order-IsSound}
use karibu.Stock.Ledger.{IsReconciled}
use karibu.Stock.Keeps.{record_movement-IsReconciled, edit-IsReconciled}
use karibu.Stock.Create.{create_stock_item-IsReconciled}
use mathlib.Core.Logic.{inl, inr}

-- The menu and the expenses are no part of the books and of the shelf.
menu-SameBooks : {db db' : Db} → MenuOnly db db' → SameBooks db db'
menu-SameBooks {db} m = subst (SameBooks db) m.rest (record { orders = refl; debts = refl })

menu-SameShelf : {db db' : Db} → MenuOnly db db' → SameShelf db db'
menu-SameShelf {db} m = subst (SameShelf db) m.rest (record { items = refl; movements = refl })

expenses-SameBooks : {db db' : Db} → ExpensesOnly db db' → SameBooks db db'
expenses-SameBooks {db} m = subst (SameBooks db) m.rest (record { orders = refl; debts = refl })

expenses-SameShelf : {db db' : Db} → ExpensesOnly db db' → SameShelf db db'
expenses-SameShelf {db} m = subst (SameShelf db) m.rest (record { items = refl; movements = refl })

handle-IsSound :
    (r : Request) (user : User) (db db' : Db)
    → DrawsFresh r db
    → IsSound db
    → handle r user db ≡ ok db'
    → IsSound db'
unfolding handle
handle-IsSound (place body ref key mid now) user db db' fresh h done =
    create_order-IsSound body user ref key mid now db db' h fresh done
handle-IsSound (restatus key text) user db db' fresh h done =
    update_status-IsSound key text user db db' h done
handle-IsSound (pay key body now new_id) user db db' fresh h done =
    record_payment-IsSound key body user now new_id db db' h fresh done
handle-IsSound (cancel key now mid) user db db' fresh h done =
    cancel_order-IsSound key user now mid db db' h done
handle-IsSound (repay key body now) user db db' fresh h done =
    pay_debt-IsSound key body user now db db' h done
handle-IsSound (stock body key mid now) user db db' fresh h done =
    SameBooks-IsSound (create_stock_item-SameBooks key user db db' body mid now done) h
handle-IsSound (edit key body) user db db' fresh h done =
    SameBooks-IsSound (update_stock_item-SameBooks key user db db' body done) h
handle-IsSound (archive key) user db db' fresh h done =
    SameBooks-IsSound (archive_stock_item-SameBooks key user db db' done) h
handle-IsSound (move key body what now mid eid) user db db' fresh h done =
    SameBooks-IsSound (record_movement-SameBooks key user db db' body what now mid eid done) h
handle-IsSound (link key body) user db db' fresh h done =
    SameBooks-IsSound (set_recipe-SameBooks key user db db' body done) h
handle-IsSound (on_menu r) user db db' fresh h done =
    SameBooks-IsSound (menu-SameBooks (handle_menu-MenuOnly r user db db' done)) h
handle-IsSound (spend r) user db db' fresh h done =
    SameBooks-IsSound (expenses-SameBooks (handle_expense-ExpensesOnly r user db db' done)) h

-- an edit that changes nothing; archiving reads none of it
abbrev no_edit : StockItemUpdate
no_edit = record {
  name = none;
  unit = none;
  reorder_level = none;
  unit_cost = none;
  supplier = none;
  note = none;
}

-- A recipe is no part of the ledger.
set_recipe-IsReconciled :
    (key : ℕ) (body : RecipeSet) (user : User) (db db' : Db)
    → IsReconciled db
    → set_recipe key body user db ≡ ok db'
    → IsReconciled db'
unfolding set_recipe
set_recipe-IsReconciled key body user db db' h done =
    let (inner, _, _) = behind_guard user _ done in
    let (item, _, rest) = bind-eq-ok (get_item db user key) _ inner in
    let (dish, _, same) =
      or_raise-eq-ok (select (is_dish body.menu_item_id user.restaurant_id) db.menu_items)
        menu_item_not_found _ rest in
    subst IsReconciled (ok-injective same) (record { tallies = h.tallies; balances = h.balances })

handle-IsReconciled :
    (r : Request) (user : User) (db db' : Db)
    → DrawsFresh r db
    → IsReconciled db
    → handle r user db ≡ ok db'
    → IsReconciled db'
unfolding handle
handle-IsReconciled (place body ref key mid now) user db db' fresh h done =
    create_order-IsReconciled body user ref key mid now db db' h done
handle-IsReconciled (restatus key text) user db db' fresh h done =
    SameShelf-IsReconciled (update_status-SameShelf key text user db db' done) h
handle-IsReconciled (pay key body now new_id) user db db' fresh h done =
    SameShelf-IsReconciled (record_payment-SameShelf key body user now new_id db db' done) h
handle-IsReconciled (cancel key now mid) user db db' fresh h done =
    cancel_order-IsReconciled key user now mid db db' h done
handle-IsReconciled (repay key body now) user db db' fresh h done =
    SameShelf-IsReconciled (pay_debt-SameShelf key body user now db db' done) h
handle-IsReconciled (stock body key mid now) user db db' fresh h done =
    (create_stock_item-IsReconciled body user key mid now db db' h fresh done).0
handle-IsReconciled (edit key body) user db db' fresh h done =
    (edit-IsReconciled key body user db db' h (inl done)).0
handle-IsReconciled (archive key) user db db' fresh h done =
    (edit-IsReconciled key no_edit user db db' h (inr done)).0
handle-IsReconciled (move key body what now mid eid) user db db' fresh h done =
    record_movement-IsReconciled key body user what now mid eid db db' h done
handle-IsReconciled (link key body) user db db' fresh h done =
    set_recipe-IsReconciled key body user db db' h done
handle-IsReconciled (on_menu r) user db db' fresh h done =
    SameShelf-IsReconciled (menu-SameShelf (handle_menu-MenuOnly r user db db' done)) h
handle-IsReconciled (spend r) user db db' fresh h done =
    SameShelf-IsReconciled (expenses-SameShelf (handle_expense-ExpensesOnly r user db db' done)) h

-- Every state that is reached from empty tables, by any accepted requests in any order, each by
-- any user and drawing fresh ids, has sound books and a reconciled ledger, and every line of an
-- order, every recipe line and every dish has the dish or the category that it names.
pub Reach-IsSound : {db : Db} → Reach db → IsSound db × IsReconciled db × IsLinked db
Reach-IsSound opened = (
  record { covered = tt; synced = tt; repaid = tt; keys = tt },
  record { tallies = tt; balances = tt },
  record { dishes = tt; categories = tt; recipes = tt },
)
Reach-IsSound (next {db} {db'} before (accepted r user fresh done)) =
    let (sound, reconciled, linked) = Reach-IsSound before in
    (
      handle-IsSound r user db db' fresh sound done,
      handle-IsReconciled r user db db' fresh reconciled done,
      handle-IsLinked r user db db' linked done,
    )
