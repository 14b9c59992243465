-- ===== src/Examples/Books.antt =====
-- Examples of the theorems about expenses (routers/expenses.py).
use karibu.Prelude.{Option, ◌≡◌, refl, true, false, none, some, [], ◌∷◌, arith, select_all}
use karibu.Api.{ok, err, after, expense_already_paid}
use karibu.Access.{require_roles}
use karibu.Expense.{Expense, ExpenseCategory}
use karibu.Expenses.{
  ExpenseCreate, create_expense, delete_expense, mark_expense_paid, category_filter, base_rows,
  list_expenses, Figures, figures, scoped,
}
use karibu.Expenses.Reports.{IsExact, list_expenses-IsExact}
use karibu.Expenses.Effects.{Moves, mark_expense_paid-Moves}
use karibu.Expenses.Rows.{belongs_to}
use karibu.Expenses.Tenants.{settled, change_keeps_tenants}
use karibu.Db.{Db}
use karibu.Examples.{boss, cafe}

abbrev sacks : Expense
sacks = record {
  id = 1;
  restaurant_id = 1;
  category = ExpenseCategory.stock;
  amount_cents = 40000;
  note = none;
  payee = some "Kericho";
  method = "credit";
  reference = none;
  is_paid = false;
  paid_at = none;
  due_date = none;
  stock_movement_id = some 1;
  spent_at = 90000;
  recorded_by_id = some 1;
}

abbrev rent : Expense
rent = record sacks {
  id = 2;
  category = ExpenseCategory.rent;
  amount_cents = 900000;
  method = "bank";
  is_paid = true;
  stock_movement_id = none;
}

-- another restaurant's
abbrev theirs : Expense
theirs = record sacks { id = 3; restaurant_id = 2 }

abbrev spent : Db
spent = record cafe { expenses = sacks ∷ rent ∷ theirs ∷ [] }

abbrev charcoal : ExpenseCreate
charcoal = record {
  category = "utilities";
  amount = 350000000;
  note = some "charcoal";
  payee = none;
  method = "cash";
  reference = none;
  spent_at = none;
}

listed : Figures
unfolding karibu.Expenses.figures karibu.Expenses.base_rows karibu.Expenses.by_category
    karibu.Expenses.in_base karibu.Expenses.add_expenses karibu.Expenses.add_category
    karibu.Expenses.place
listed = figures (base_rows none 1 95000 boss spent)

listed_total : listed.total_cents ≡ 940000
unfolding listed
listed_total = refl

list_expenses-IsExact_example :
    (c : Option ExpenseCategory) × (category_filter none ≡ ok c)
    × IsExact ExpenseCategory.rent
        (base_rows c 1 95000 boss spent)
        (figures (base_rows none 1 95000 boss spent))
unfolding list_expenses category_filter require_roles
list_expenses-IsExact_example =
    list_expenses-IsExact none 1 95000 boss spent (figures (base_rows none 1 95000 boss spent))
      ExpenseCategory.rent refl

mark_expense_paid-Moves_example :
    (e : Expense) × (scoped spent 1 1 ≡ ok e)
    × Moves boss none 1 96000 e spent (after (mark_expense_paid 1 boss 95000) spent)
    × (mark_expense_paid 1 boss 97000 (after (mark_expense_paid 1 boss 95000) spent)
        ≡ err expense_already_paid)
unfolding mark_expense_paid require_roles scoped
mark_expense_paid-Moves_example =
    mark_expense_paid-Moves 1 95000 boss none 1 96000 97000 boss spent
      (after (mark_expense_paid 1 boss 95000) spent) (omega arith) refl

change_keeps_tenants_example :
    select_all (belongs_to 2) (after (mark_expense_paid 1 boss 95000) spent).expenses ≡ theirs ∷ []
unfolding mark_expense_paid require_roles scoped
change_keeps_tenants_example =
    change_keeps_tenants boss 2 spent (after (mark_expense_paid 1 boss 95000) spent) (omega arith)
      (omega arith) (settled 1 95000 refl)
