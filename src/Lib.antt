-- ===== src/Lib.antt =====
-- Karibu is the backend of a point of sale for restaurants: FastAPI handlers over a database, one
-- tenant for each restaurant. This library models its core, under karibu-backend/app/, and proves
-- what makes that core correct.
--
-- How a handler is modelled. Each request runs in a session of its own that is rolled back when the
-- handler raises, so a handler is a function from tables to a `Result` of new tables: `err` carries
-- the `APIError` and no state. A table is the list of its rows; `select`, `update` and `delete`
-- (Prelude/Table) are the queries that the code makes. What the code draws from outside is an
-- argument: the ids of new rows (uuid4), the time, random references, texts that are formatted from
-- floats, and what the Paystack gateway answers. Ids are numbers, since they are only compared;
-- times are whole seconds.
--
-- Amounts. A request carries floats; the code rounds each to cents or thousandths where it arrives.
-- The model has an exact decimal in millionths in its place, and Python's rounding half to even
-- (Prelude/Round). A float that is not the decimal it was written as may round the other way at a
-- tie, so the theorems speak of amounts from this conversion on. Quantities of stock are signed
-- (Prelude/Int).
--
-- The guards. `SubscribedUser` and `require_roles` run before a handler. The handlers take the user
-- that they passed; where a route depends on `require_roles`, the model of the handler calls it.
--
-- Which file models which part:
--   Api                core/security.py: `APIError`, and the result of a handler
--   Access             core/dependencies.py and models/user.py: roles and guards
--   Subscription       models/subscription.py
--   Order, Debt        models/order.py, models/debt.py
--   Stock, Expense     models/stock.py, recipe.py, menu.py, expense.py
--   Db                 the tables of the point of sale
--   Sales              routers/orders.py; Sales/Debts is routers/debts.py. Sales/Owed states the
--                      invariant of the books, `IsSound`; Payments, Repayments, Orders and Placing
--                      prove that the handlers keep it
--   Stock/Deduction    services/stock_deduction.py
--   Stock/Routes, Movements, Recipes   routers/stock.py. Stock/Ledger states when the ledger of
--                      movements is reconciled; Keeps and Create prove that every handler keeps
--                      it; OnHand, Restore, Effects and Consumption say what changes
--   Billing            services/billing.py: the rows, the periods, the outcomes of a payment;
--                      Billing/Charge is initiate_charge, Webhook is process_webhook, Reconcile is
--                      verify_charge_now and the sweep, Routes is routers/billing.py; the other
--                      children are theorems
--   Paystack           services/paystack.py: the phone number; Phone is its theorem
--   Expenses           routers/expenses.py; Reports, Effects and Tenants are its theorems,
--                      Rows their lemmas
--   Menu               routers/menu.py; Links states the foreign keys into the menu and Integrity
--                      that the handlers keep them; History is what becomes of a dish
--   Shop               every request of orders, debts, stock, menu and expenses that writes, and
--                      the states that sequences of them reach; Invariant is what all of these
--                      have, Retiring is what stays of a dish off the menu, and the other
--                      children are their parts
--   Receipts           routers/receipts.py
--   Clock              core/timezone.py
--   Analytics          routers/analytics.py: the dashboard; Reports is the sales report and its
--                      print, People the list of who carries unpaid money; Exact, Print, Today and
--                      Totals are theorems, Series their lemmas
--   Admin              routers/admin.py: what the operator of the platform writes; Actions and
--                      Terms are theorems
--   Signup             routers/auth.py: `register`; Again is its theorem
--   Accounts           models/audit.py, and the rows of users that Auth and Staff write
--   Passwords          core/passwords.py; Reached says which of its checks can fail
--   Auth               routers/auth.py and the link tokens of core/security.py; Lockout and Recovery
--                      are its theorems, Rows their lemmas
--   Staff              routers/staff.py; Rank, Hiring and Sessions are its theorems
--   Examples           sample rows, and each theorem at an input where its hypotheses hold
--
-- Orders and stock interact: create_order takes the ingredients of its lines off the shelf in the
-- same transaction, cancel_order gives them back, and a costed delivery writes an expense. A dish
-- that was ordered is archived in place of deleted, so that the lines of old orders keep it. The
-- figures of the analytics are read off the orders, payments and debts that these handlers write.
-- Billing has tables of its own and shares with the rest only the users and the guard of a
-- subscription, and the operator edits subscriptions beside it. Every billing operation runs alone,
-- as the row lock on the subscription makes it; the unique indexes of billing_charges are modelled
-- as the insertions that they refuse.
--
-- The wall clock of a restaurant is a constant offset east of UTC, as that of Nairobi is; a handler
-- reads the clock once, and a date is a number of days.
--
-- There is no fuel: every loop of the code is over a list, and is a recursion on it.
--
-- What is not modelled: listings and other views that write nothing (but for the figures of the
-- expenses and of the analytics) and the cache in front of the menu, the layout of prints and
-- exports, e-mail, rendering, migrations and scripts, configuration and start-up, the HTTP calls of
-- the Paystack client; of routers/auth.py the second confirmation link; the views of the operator
-- across restaurants. A text that the code cuts to 255 characters is kept whole.
-- An audit row is kept without its summary and the address of the request. Python's tests and
-- conversions of case are fields of `Unicode`; passlib and SHA-256 are fields of `Crypto`.
pub mod Prelude
pub mod Api
pub mod Subscription
pub mod Access
pub mod Accounts
pub mod Order
pub mod Debt
pub mod Stock
pub mod Expense
pub mod Db
pub mod Clock
pub mod Sales
pub mod Menu
pub mod Receipts
pub mod Admin
pub mod Signup
pub mod Analytics
pub mod Billing
pub mod Paystack
pub mod Expenses
pub mod Shop
pub mod Staff
pub mod Passwords
pub mod Auth
pub mod Examples
