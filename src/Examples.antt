-- ===== src/Examples.antt =====
-- Sample rows for the examples of the theorems: one tenant with a small café and its subscription.
pub mod Till
pub mod Shelf
pub mod Account
pub mod Day
pub mod Team
pub mod Books
pub mod Door
pub mod Figures
pub mod Operator
pub mod Newcomer
use karibu.Prelude.{ℕ, Bool, true, false, none, some, List, [], ◌∷◌}
use karibu.Prelude.Int.{pos}
use karibu.Access.{User, UserRole}
use karibu.Order.{Order, OrderItem, OrderStatus, PaymentStatus}
use karibu.Debt.{Debt, DebtStatus}
use karibu.Stock.{StockItem, StockMovement, MovementReason, RecipeLine, MenuItem, Category}
use karibu.Db.{Db}

abbrev pub staff : ℕ → UserRole → User
staff key role = record {
  id = key;
  full_name = "Asha";
  email = some "asha@karibu.test";
  phone = none;
  password_hash = 0;
  role = role;
  must_change_password = false;
  invited_by_id = none;
  is_active = true;
  restaurant_id = 1;
  token_version = 4;
  failed_logins = 0;
  locked_until = none;
  is_platform_admin = false;
  email_confirmed = true;
  email_token = none;
  email_token_expires = none;
  email_token_attempts = 0;
  reset_token = none;
  reset_token_expires = none;
}

abbrev pub boss : User
boss = staff 1 UserRole.manager

abbrev pub waiter : User
waiter = staff 2 UserRole.waiter

abbrev pub drinks : Category
drinks = record { id = 1; restaurant_id = 1; name = "Drinks"; icon = "cup"; sort_order = pos 0 }

abbrev pub tea : MenuItem
tea = record {
  id = 1;
  restaurant_id = 1;
  name = "Tea";
  price_cents = 500;
  category_id = 1;
  description = none;
  image_url = none;
  prep_minutes = pos 15;
  is_available = true;
  is_archived = false;
}

abbrev pub leaves : StockItem
leaves = record {
  id = 1;
  restaurant_id = 1;
  name = "Tea leaves";
  unit = "kg";
  quantity_milli = pos 1000;
  reorder_level_milli = 100;
  unit_cost_cents = some 40000;
  supplier = some "Kericho";
  note = none;
  is_archived = false;
}

abbrev pub delivery : StockMovement
delivery = record {
  id = 1;
  stock_item_id = 1;
  delta_milli = pos 1000;
  reason = MovementReason.received;
  note = none;
  balance_after_milli = pos 1000;
  total_cost_cents = some 40000;
  recorded_by_id = some 1;
  occurred_at = 10;
}

abbrev pub two_teas : OrderItem
two_teas = record {
  menu_item_id = 1;
  name_snapshot = "Tea";
  unit_price_cents = 500;
  quantity = 2;
  modifiers = none;
}

abbrev pub ticket : ℕ → Order
ticket key = record {
  id = key;
  reference = "A1B2C3";
  order_type = "dine_in";
  status = OrderStatus.served;
  payment_status = PaymentStatus.unpaid;
  table_number = some "4";
  customer_name = none;
  notes = none;
  subtotal_cents = 1000;
  tax_cents = 0;
  discount_cents = 0;
  total_cents = 1000;
  server_id = some 2;
  restaurant_id = 1;
  items = two_teas ∷ [];
  payments = [];
  receipt_token = none;
  created_at = 20;
}

-- Order 2 was given on credit.
abbrev pub promise : Debt
promise = record {
  id = 1;
  restaurant_id = 1;
  order_id = 2;
  customer_name = "Otieno";
  customer_phone = none;
  amount_cents = 1000;
  paid_cents = 0;
  due_date = none;
  status = DebtStatus.outstanding;
  settled_at = none;
  recorded_by_id = some 2;
  created_at_idx = 30;
}

abbrev pub cafe : Db
cafe = record {
  orders = ticket 1 ∷ ticket 2 ∷ [];
  debts = promise ∷ [];
  categories = drinks ∷ [];
  menu_items = tea ∷ [];
  stock_items = leaves ∷ [];
  movements = delivery ∷ [];
  recipes = record { menu_item_id = 1; stock_item_id = 1; quantity_milli = 5 } ∷ [];
  expenses = [];
}
