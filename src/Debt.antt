-- ===== src/Debt.antt =====
-- models/debt.py: a customer's promise to pay, which is no payment.
use karibu.Prelude.{ℕ, ◌-◌, String, Bool, true, false, ◌&&◌, Option, none, some, ltb}

pub data DebtStatus : Type 0 where
  outstanding settled : DebtStatus

pub record Debt : Type 0 where
  pub id : ℕ
  pub restaurant_id : ℕ
  pub order_id : ℕ
  pub customer_name : String
  pub customer_phone : Option String
  pub amount_cents : ℕ
  pub paid_cents : ℕ
  pub due_date : Option ℕ
  pub status : DebtStatus
  pub settled_at : Option ℕ
  pub recorded_by_id : Option ℕ
  pub created_at_idx : ℕ

abbrev pub is_outstanding : DebtStatus → Bool
is_outstanding DebtStatus.outstanding = true
is_outstanding DebtStatus.settled = false

-- `Debt.outstanding_cents`; the maximum with 0 is the subtraction of ℕ
unfoldable pub outstanding_cents : Debt → ℕ
outstanding_cents d = d.amount_cents - d.paid_cents

abbrev past : Option ℕ → ℕ → Bool
past none now = false
past (some due) now = ltb due now

-- `Debt.is_overdue`, at the time `now`
unfoldable pub is_overdue : Debt → ℕ → Bool
is_overdue d now = is_outstanding d.status && past d.due_date now
