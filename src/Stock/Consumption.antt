-- ===== src/Stock/Consumption.antt =====
-- What `set_recipe` (routers/stock.py) makes a sale (services/stock_deduction.py) take off the shelf.
use karibu.Prelude.{
  ℕ, ◌*◌, ◌≡◌, refl, ap, ◌∙◌, Bool, true, false, ◌&&◌, Option, List, [], ◌∷◌, ◌++◌, arith, ◌==◌,
  leb, if◌then◌else◌, select, select-test, update, delete, is_some, sum_of, All, All-append,
  All-update, All-delete, Bool-cases, inl, inr,
}
use karibu.Prelude.Int.{negsuc}
use mathlib.Core.Path.{subst}
use karibu.Api.{ok, or_raise-eq-ok, bind-eq-ok, ok-injective, menu_item_not_found}
use karibu.Access.{User}
use karibu.Access.Laws.{behind_guard}
use karibu.Order.{Order, OrderItem}
use karibu.Stock.{RecipeLine}
use karibu.Stock.Routes.{RecipeSet, get_item, is_dish}
use karibu.Stock.Recipes.{recipe_milli, is_link, set_link, set_recipe}
use karibu.Stock.Deduction.{is_live, times, apply_sale}
use karibu.Stock.OnHand.{on_hand, shifted}
use karibu.Stock.Restore.{need_of, required, on_hand-apply_sale}
use karibu.Stock.Keeps.{get_item-row}
use karibu.Db.{Db}

-- The unique index of recipe lines (models/recipe.py): no two share the dish and the ingredient.
abbrev IsApart : RecipeLine → RecipeLine → Type 0
IsApart r s = is_link r.stock_item_id r.menu_item_id s ≡ false

abbrev pub HasOneLink : List RecipeLine → Type 0
HasOneLink [] = Unit
HasOneLink (r ∷ rs) = All (IsApart r) rs × HasOneLink rs

abbrev with_milli : ℕ → RecipeLine → RecipeLine
with_milli milli r = record r { quantity_milli = milli }

abbrev link_row : ℕ → ℕ → ℕ → RecipeLine
link_row item dish milli = record {
  menu_item_id = dish;
  stock_item_id = item;
  quantity_milli = milli;
}

-- The link of a pair is the only one.
none_after :
    (item dish : ℕ) (r : RecipeLine) (rs : List RecipeLine)
    → is_link item dish r ≡ true
    → All (IsApart r) rs
    → is_some (select (is_link item dish) rs) ≡ false
none_after item dish r [] own apart = refl
none_after item dish r (s ∷ rs) own apart =
    let rest = none_after item dish r rs own apart.1 in ground (arith, apart.0)

module _ (i : ℕ) (line : OrderItem) (item dish milli : ℕ) where
  -- What one line of a ticket takes of the item `i`, by the recipes.
  abbrev need : List RecipeLine → ℕ
  need = sum_of (need_of i line)

  need-delete :
      (rs : List RecipeLine)
      → need (delete (is_link item dish) rs)
        ≡ (if item == i && dish == line.menu_item_id then 0 else need rs)
  need-delete [] = ground arith
  need-delete (r ∷ rs) = ground (arith, need-delete rs)

  need-update :
      (rs : List RecipeLine)
      → HasOneLink rs
      → need (update (is_link item dish) (with_milli milli) rs) ≡ (
          if item == i && dish == line.menu_item_id
          then (if is_some (select (is_link item dish) rs) then milli * line.quantity else 0)
          else need rs)
  need-update [] one = ground arith
  need-update (r ∷ rs) one = elim (Bool-cases (is_link item dish r)) [
    | inl own ↦
        let single = none_after item dish r rs own one.0 in ground (arith, need-update rs one.1)
    | inr other ↦ ground (arith, need-update rs one.1)
  ]

  need-add :
      (rs : List RecipeLine)
      → is_some (select (is_link item dish) rs) ≡ false
      → need (rs ++ link_row item dish milli ∷ [])
        ≡ (if item == i && dish == line.menu_item_id then milli * line.quantity else need rs)
  need-add [] h = ground arith
  need-add (r ∷ rs) h = ground (arith, need-add rs)

  need-set_link :
      (rs : List RecipeLine)
      → HasOneLink rs
      → need (set_link item dish milli rs)
        ≡ (if item == i && dish == line.menu_item_id then milli * line.quantity else need rs)
  unfolding set_link
  need-set_link rs one = elim (Bool-cases (leb milli 0)) [
    | inl e ↦
        let zero : milli ≡ 0 = ground arith in
        let nothing : 0 * line.quantity ≡ 0 = omega arith in
        rw (set_link, e, zero, nothing) (need-delete rs)
    | inr e ↦ elim (Bool-cases (is_some (select (is_link item dish) rs))) [
      | inl f ↦ rw (set_link, e, f) (ground (arith, need-update rs one))
      | inr f ↦ rw (set_link, e, f) (need-add rs f)
    ]
  ]

HasOneLink-delete :
    (test : RecipeLine → Bool) (rs : List RecipeLine) → HasOneLink rs → HasOneLink (delete test rs)
HasOneLink-delete test [] one = tt
HasOneLink-delete test (r ∷ rs) one =
    let rest = HasOneLink-delete test rs one.1 in
    elim (Bool-cases (test r)) [
      | inl e ↦ rw e rest
      | inr e ↦ rw e (All-delete (IsApart r) (IsApart r) test rs (λ s k t. k) one.0, rest)
    ]

HasOneLink-update :
    (test : RecipeLine → Bool) (milli : ℕ) (rs : List RecipeLine)
    → HasOneLink rs
    → HasOneLink (update test (with_milli milli) rs)
HasOneLink-update test milli [] one = tt
HasOneLink-update test milli (r ∷ rs) one =
    let rest = HasOneLink-update test milli rs one.1 in
    let apart =
      All-update (IsApart r) (IsApart r) test (with_milli milli) rs (λ s k t. k) (λ s k t. k)
        one.0 in
    elim (Bool-cases (test r)) [ inl e ↦ rw e (apart, rest) | inr e ↦ rw e (apart, rest) ]

HasOneLink-add :
    (item dish milli : ℕ) (rs : List RecipeLine)
    → HasOneLink rs
    → is_some (select (is_link item dish) rs) ≡ false
    → HasOneLink (rs ++ link_row item dish milli ∷ [])
HasOneLink-add item dish milli [] one h = (tt, tt)
HasOneLink-add item dish milli (r ∷ rs) one h = (
  All-append (IsApart r) rs _ one.0 (ground arith, tt),
  HasOneLink-add item dish milli rs one.1 (ground arith),
)

HasOneLink-set_link :
    (item dish milli : ℕ) (rs : List RecipeLine)
    → HasOneLink rs
    → HasOneLink (set_link item dish milli rs)
unfolding set_link
HasOneLink-set_link item dish milli rs one = elim (Bool-cases (leb milli 0)) [
  | inl e ↦ rw (set_link, e) (HasOneLink-delete (is_link item dish) rs one)
  | inr e ↦ elim (Bool-cases (is_some (select (is_link item dish) rs))) [
    | inl f ↦ rw (set_link, e, f) (HasOneLink-update (is_link item dish) milli rs one)
    | inr f ↦ rw (set_link, e, f) (HasOneLink-add item dish milli rs one f)
  ]
]

-- What a ticket takes of an item, when one link is set to `milli`.
abbrev pub with_link : ℕ → ℕ → ℕ → ℕ → List RecipeLine → List OrderItem → ℕ
with_link i item dish milli rs = sum_of (λ (line : OrderItem).
    if item == i && dish == line.menu_item_id
    then milli * line.quantity
    else sum_of (need_of i line) rs)

required-set_link :
    (i item dish milli : ℕ) (rs : List RecipeLine) (lines : List OrderItem)
    → HasOneLink rs
    → required i (set_link item dish milli rs) lines ≡ with_link i item dish milli rs lines
required-set_link i item dish milli rs [] one = refl
required-set_link i item dish milli rs (line ∷ lines) one = omega (
  arith,
  need-set_link i line item dish milli rs one,
  required-set_link i item dish milli rs lines one,
)

-- After the recipe line of one ingredient and one dish is set, where no two recipe lines share
-- both, a sale takes off that ingredient, where it is tracked, the quantity of the request, zero
-- included, times the quantity of each line of the ticket that is of the dish, and what it took
-- before for the other lines; it takes of every other ingredient what it took before. Still no two
-- recipe lines share both.
pub apply_sale-set_recipe :
    (key : ℕ) (body : RecipeSet) (user : User) (order : Order) (taker : Option ℕ) (now new_id i : ℕ)
    (db db' : Db)
    → HasOneLink db.recipes
    → set_recipe key body user db ≡ ok db'
    → is_live db.stock_items i ≡ true
    → (on_hand i (apply_sale order taker now new_id db').stock_items
        ≡ shifted
            (times
              (negsuc 0)
              (with_link i key body.menu_item_id (recipe_milli body) db.recipes order.items))
            (on_hand i db.stock_items))
      × HasOneLink db'.recipes
unfolding set_recipe
apply_sale-set_recipe key body user order taker now new_id i db db' one done alive =
    let (inner, _, _) = behind_guard user _ done in
    let (item, found, rest) = bind-eq-ok (get_item db user key) _ inner in
    let (dish, dish_found, same) =
      or_raise-eq-ok (select (is_dish body.menu_item_id user.restaurant_id) db.menu_items)
        menu_item_not_found _ rest in
    let item_id : item.id ≡ key = (get_item-row db user key item found).1 in
    let tested =
      select-test (is_dish body.menu_item_id user.restaurant_id) db.menu_items dish dish_found in
    let dish_id : dish.id ≡ body.menu_item_id = ground arith in
    let milli = recipe_milli body in
    let rs = set_link key body.menu_item_id milli db.recipes in
    subst
      (λ (d : Db).
        (on_hand i (apply_sale order taker now new_id d).stock_items
          ≡ shifted
              (times (negsuc 0) (with_link i key body.menu_item_id milli db.recipes order.items))
              (on_hand i db.stock_items))
        × HasOneLink d.recipes)
      (ok-injective same)
      (
        rw (item_id, dish_id)
            (on_hand-apply_sale order taker now new_id i (record db { recipes = rs }) alive
              ∙ ap (λ n. shifted (times (negsuc 0) n) (on_hand i db.stock_items))
                  (required-set_link i key body.menu_item_id milli db.recipes order.items one)),
        HasOneLink-set_link item.id dish.id milli db.recipes one,
      )
