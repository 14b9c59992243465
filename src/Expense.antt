-- ===== src/Expense.antt =====
-- models/expense.py: money that goes out, paid at once or owed to a supplier.
use karibu.Prelude.{ℕ, String, Bool, Option, none, some, if◌then◌else◌, str_eq}

pub data ExpenseCategory : Type 0 where
  stock rent salaries utilities transport equipment licences marketing repairs other :
      ExpenseCategory

-- A category as a request spells it; `none` is a text outside `ExpenseCategory.ALL`.
unfoldable pub parse_category : String → Option ExpenseCategory
parse_category s =
    if str_eq s "stock"
    then some ExpenseCategory.stock
    else if str_eq s "rent"
    then some ExpenseCategory.rent
    else if str_eq s "salaries"
    then some ExpenseCategory.salaries
    else if str_eq s "utilities"
    then some ExpenseCategory.utilities
    else if str_eq s "transport"
    then some ExpenseCategory.transport
    else if str_eq s "equipment"
    then some ExpenseCategory.equipment
    else if str_eq s "licences"
    then some ExpenseCategory.licences
    else if str_eq s "marketing"
    then some ExpenseCategory.marketing
    else if str_eq s "repairs"
    then some ExpenseCategory.repairs
    else if str_eq s "other"
    then some ExpenseCategory.other
    else none

pub record Expense : Type 0 where
  pub id : ℕ
  pub restaurant_id : ℕ
  pub category : ExpenseCategory
  pub amount_cents : ℕ
  pub note : Option String
  pub payee : Option String
  pub method : String
  pub reference : Option String
  pub is_paid : Bool
  pub paid_at : Option ℕ
  pub due_date : Option ℕ
  pub stock_movement_id : Option ℕ
  pub spent_at : ℕ
  pub recorded_by_id : Option ℕ
