-- ===== src/Context/Assembler/Order.antt =====
-- The order against positional bias keeps the items.
use auditable_scientific_age.Prelude.{
  ℕ, zero, suc, ◌+◌, Bool, ◌&&◌, List, [], ◌∷◌, ◌++◌, keep_if, length, total, total-append, only,
  ◌/◌, ◌≡◌, refl, arith, ◌<◌,
}
use auditable_scientific_age.Context.Models.{ContextItem, is_system, is_user_message}
use auditable_scientific_age.Context.Assembler.{
  insert_at, alternate, is_rest, reorder_for_positional_bias,
}

abbrev pub is_both : ContextItem → Bool
is_both i = is_system i && is_user_message i

total-insert_at :
    (f : ContextItem → ℕ) (k : ℕ) (x : ContextItem) (ys : List ContextItem)
    → total f (insert_at k x ys) ≡ f x + total f ys
unfolding insert_at
total-insert_at f zero x ys = refl
total-insert_at f (suc k) x [] = refl
total-insert_at f (suc k) x (y ∷ ys) = omega (arith, total-insert_at f k x ys)

total-alternate :
    (f : ContextItem → ℕ) (base idx : ℕ) (rest result : List ContextItem)
    → total f (alternate base idx rest result) ≡ total f rest + total f result
unfolding alternate
total-alternate f base idx [] result = omega arith
total-alternate f base idx (x ∷ rest) result = ground (
  arith,
  total-alternate f base (idx + 1) rest (insert_at (base + idx / 2) x result),
  total-alternate f base (idx + 1) rest (result ++ x ∷ []),
  total-insert_at f (base + idx / 2) x result,
  total-append f result (x ∷ []),
)

-- System items, user messages and the rest, where an item that is both counts twice.
total-parts :
    (f : ContextItem → ℕ) (xs : List ContextItem)
    → total f (keep_if is_system xs)
        + total f (keep_if is_user_message xs)
        + total f (keep_if is_rest xs)
      ≡ total f xs + total (only is_both f) xs
total-parts f [] = omega arith
total-parts f (x ∷ xs) = ground (arith, total-parts f xs)

-- For every weight of the items, the reordered list weighs what the list does, and once more what
-- its items weigh that have a system priority and are user messages, when it has three or more.
pub total-reorder :
    (f : ContextItem → ℕ) (xs : List ContextItem)
    → 2 < length xs
    → total f (reorder_for_positional_bias xs) ≡ total f xs + total (only is_both f) xs
unfolding reorder_for_positional_bias
total-reorder f xs h =
    let system = keep_if is_system xs in
    let user = keep_if is_user_message xs in
    ground (
      arith,
      total-alternate f (length system + length user) 0 (keep_if is_rest xs) (system ++ user),
      total-append f system user,
      total-parts f xs,
    )
