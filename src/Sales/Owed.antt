-- ===== src/Sales/Owed.antt =====
-- What an order is owed on credit, and the invariant of the books: no order collects, in payments
-- and promises together, more than its total.
use mathlib.Core.Path.{subst}
use karibu.Prelude.{
  ℕ, ◌≤◌, ◌≡◌, ◌≢◌, ◌⊎◌, refl, sym, ap, ◌∙◌, true, false, ◌&&◌, inl, inr, some, List, [], ◌∷◌, ◌++◌,
  arith, ◌==◌, select, update, All, All-update, All-append, All-select, sum_ℤ-append, ==_iff,
  Bool-cases,
}
use karibu.Prelude.Int.{ℤ, pos, ◌+ℤ◌, ◌-ℤ◌, ◌≤ℤ◌, int_laws}
use karibu.Order.{Order, amount_paid_cents, payment_status_of}
use karibu.Debt.{Debt, is_outstanding}
use karibu.Sales.{owed, owed_on}
use karibu.Sales.Debts.{in_books}
use karibu.Db.{Db, is_debt}

-- Ids are primary keys: no two debts share one.
abbrev pub HasKeys : List Debt → Type 0
HasKeys [] = Unit
HasKeys (d ∷ ds) = All (λ (e : Debt). e.id ≢ d.id) ds × HasKeys ds

-- Payments and outstanding promises stay within the total.
abbrev pub IsCovered : List Debt → Order → Type 0
IsCovered debts o = pos (amount_paid_cents o) +ℤ owed o.id debts ≤ℤ pos o.total_cents

-- The stored payment status is the one of the payments.
abbrev pub IsSynced : Order → Type 0
IsSynced o = o.payment_status ≡ payment_status_of (amount_paid_cents o) o.total_cents

-- A debt is repaid at most once over, and one that is settled has been repaid whole.
abbrev pub IsRepaid : Debt → Type 0
IsRepaid d =
    (d.paid_cents ≤ d.amount_cents)
    × ((is_outstanding d.status ≡ true) ⊎ (d.paid_cents ≡ d.amount_cents))

pub record IsSound (db : Db) : Type 0 where
  pub covered : All (IsCovered db.debts) db.orders
  pub synced : All IsSynced db.orders
  pub repaid : All IsRepaid db.debts
  pub keys : HasKeys db.debts

pub owed-snoc :
    (key : ℕ) (ds : List Debt) (d : Debt) → owed key (ds ++ d ∷ []) ≡ owed key ds +ℤ owed_on key d
unfolding owed
owed-snoc key ds d = rw (sum_ℤ-append (owed_on key) ds (d ∷ [])) (omega int_laws)

pub owed_on-other : (key : ℕ) (d : Debt) → d.order_id ≢ key → owed_on key d ≡ pos 0
unfolding owed_on
owed_on-other key d h = ground arith

pub owed_on-own :
    (d : Debt)
    → is_outstanding d.status ≡ true
    → owed_on d.order_id d ≡ pos d.amount_cents -ℤ pos d.paid_cents
unfolding owed_on
owed_on-own d h = ground arith

-- A row that no key names is not updated.
update_absent :
    (key : ℕ) (d' : Debt) (ds : List Debt)
    → All (λ (e : Debt). e.id ≢ key) ds
    → update (is_debt key) (λ _. d') ds ≡ ds
update_absent key d' [] h = refl
update_absent key d' (d ∷ ds) h = ground (arith, update_absent key d' ds h.1, h.0)

add_assoc : (a b c : ℤ) → (a +ℤ b) +ℤ c ≡ a +ℤ (b +ℤ c)
add_assoc a b c = omega int_laws

add_left : (x a b c d : ℤ) → a +ℤ b ≡ c +ℤ d → (x +ℤ a) +ℤ b ≡ (x +ℤ c) +ℤ d
add_left x a b c d h = add_assoc x a b ∙ ap (λ t. x +ℤ t) h ∙ sym (add_assoc x c d)

eq_self : (n : ℕ) → (n == n) ≡ true
eq_self n = ground arith

-- the two places where the row may stand
at_head :
    (oid : ℕ) (d d' : Debt) (ds : List Debt)
    → All (λ (e : Debt). e.id ≢ d.id) ds
    → owed oid (update (is_debt d.id) (λ _. d') (d ∷ ds)) +ℤ owed_on oid d
      ≡ owed oid (d ∷ ds) +ℤ owed_on oid d'
unfolding owed
at_head oid d d' ds h = rw (eq_self d.id, update_absent d.id d' ds h) (omega int_laws)

in_tail :
    (oid : ℕ) (d d' e : Debt) (ds : List Debt)
    → e.id ≢ d.id
    → owed oid (update (is_debt d.id) (λ _. d') ds) +ℤ owed_on oid d ≡ owed oid ds +ℤ owed_on oid d'
    → owed oid (update (is_debt d.id) (λ _. d') (e ∷ ds)) +ℤ owed_on oid d
      ≡ owed oid (e ∷ ds) +ℤ owed_on oid d'
unfolding owed
in_tail oid d d' e ds ne ih =
    let off : (e.id == d.id) ≡ false = ground arith in rw off (add_left (owed_on oid e) _ _ _ _ ih)

-- Writing back one debt moves the sum by the difference of what it adds.
pub owed-update :
    (oid key rid : ℕ) (d d' : Debt) (ds : List Debt)
    → HasKeys ds
    → select (in_books key rid) ds ≡ some d
    → owed oid (update (is_debt d.id) (λ _. d') ds) +ℤ owed_on oid d ≡ owed oid ds +ℤ owed_on oid d'
owed-update oid key rid d d' [] k h = absurd (cc)
owed-update oid key rid d d' (e ∷ ds) k h = elim (Bool-cases (in_books key rid e)) [
  | inl here ↦ let same : e ≡ d = ground arith in rw same (at_head oid d d' ds (rw same at k.0))
  | inr there ↦
      let rest : select (in_books key rid) ds ≡ some d = ground arith in
      let ne = All-select (λ (x : Debt). x.id ≢ e.id) (in_books key rid) ds d k.0 rest in
      in_tail oid d d' e ds (λ q. ne (sym q)) (owed-update oid key rid d d' ds k.1 rest)
]

-- A debt under a new id keeps the ids distinct.
pub HasKeys-snoc :
    (ds : List Debt) (d : Debt)
    → HasKeys ds
    → All (λ (e : Debt). e.id ≢ d.id) ds
    → HasKeys (ds ++ d ∷ [])
HasKeys-snoc [] d k fresh = (tt, tt)
HasKeys-snoc (e ∷ ds) d k fresh = (
  All-append (λ (x : Debt). x.id ≢ e.id) ds (d ∷ []) k.0 (λ q. fresh.0 (sym q), tt),
  HasKeys-snoc ds d k.1 fresh.1,
)

absent-update :
    (key : ℕ) (d d' : Debt) (ds : List Debt)
    → d'.id ≡ d.id
    → d.id ≢ key
    → All (λ (e : Debt). e.id ≢ key) ds
    → All (λ (e : Debt). e.id ≢ key) (update (is_debt d.id) (λ _. d') ds)
absent-update key d d' ds same ne h =
    All-update (λ (e : Debt). e.id ≢ key) (λ (e : Debt). e.id ≢ key) (is_debt d.id) (λ _. d') ds
      (λ x px t q. ne (sym same ∙ q)) (λ x px t. px) h

-- So does a debt that is written back under its own id.
pub HasKeys-update :
    (d d' : Debt) (ds : List Debt)
    → d'.id ≡ d.id
    → HasKeys ds
    → HasKeys (update (is_debt d.id) (λ _. d') ds)
HasKeys-update d d' [] same k = tt
HasKeys-update d d' (e ∷ ds) same k = elim (Bool-cases (e.id == d.id)) [
  | inl here ↦
      let others : All (λ (x : Debt). x.id ≢ d.id) ds =
        subst (λ n. All (λ (x : Debt). x.id ≢ n) ds) ((==_iff e.id d.id).0 here) k.0 in
      rw here (rw (update_absent d.id d' ds others, same) others, HasKeys-update d d' ds same k.1)
  | inr there ↦
      rw there (absent-update e.id d d' ds same (ground arith) k.0, HasKeys-update d d' ds same k.1)
]

-- Promises never add up to less than nothing.
pub owed_nonneg : (key : ℕ) (ds : List Debt) → All IsRepaid ds → pos 0 ≤ℤ owed key ds
unfolding owed owed_on
owed_nonneg key [] h = omega arith
owed_nonneg key (d ∷ ds) h =
    let rest = owed_nonneg key ds h.1 in
    elim (Bool-cases (d.order_id == key && is_outstanding d.status)) [
      | inl counted ↦ rw counted (let fits = h.0.0 in omega int_laws)
      | inr skipped ↦ rw skipped (omega int_laws)
    ]
