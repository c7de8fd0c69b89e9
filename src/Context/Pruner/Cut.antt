-- ===== src/Context/Pruner/Cut.antt =====
-- What pruning keeps, how it counts, and when it bounds the number of items.
use auditable_scientific_age.Prelude.{
  ℕ, ◌+◌, ◌-◌, ◌≤◌, ◌<◌, Bool, not, List, [], ◌∷◌, ◌++◌, keep_if, length, total, total-append,
  length-eq-total, length-append, total-keep_if_split, total-take-le, only, length-take-le,
  length-keep_if_split, total-only-keep_if-not, ◌≡◌, refl, arith,
}
use auditable_scientific_age.Context.Models.{ContextItem, is_system, sort_by_priority, total-sort}
use auditable_scientific_age.Context.Pruner.{
  Limits, is_stale, cut_rest, must_keep, rest_kept, prune_with,
}

abbrev not_system : ContextItem → Bool
not_system i = not (is_system i)

length-sort : (xs : List ContextItem) → length (sort_by_priority xs) ≡ length xs
length-sort xs = omega (
  arith,
  length-eq-total {0} (sort_by_priority xs),
  length-eq-total {0} xs,
  total-sort (λ _. 1) xs,
)

total-cut_rest-le :
    (f : ContextItem → ℕ) (cutoff kept : ℕ) (xs : List ContextItem)
    → total f (cut_rest cutoff kept xs) ≤ total f xs
total-cut_rest-le f cutoff kept xs = ground (arith, total-take-le f (cutoff - kept) xs)

length-cut_rest-le :
    (cutoff kept : ℕ) (xs : List ContextItem)
    → kept < cutoff
    → kept + length (cut_rest cutoff kept xs) ≤ cutoff
length-cut_rest-le cutoff kept xs h = ground (arith, length-take-le {0} (cutoff - kept) xs)

-- The two parts are the sorted items, less what is cut.
total-parts-le :
    (f : ContextItem → ℕ) (l : Limits) (xs : List ContextItem)
    → total f (must_keep xs) + total f (rest_kept l xs) ≤ total f xs
unfolding must_keep rest_kept
total-parts-le f l xs = omega (
  arith,
  total-sort f xs,
  total-keep_if_split f is_system (sort_by_priority xs),
  total-cut_rest-le f l.max_items_before_low_priority_cut (length (must_keep xs))
      (keep_if not_system (sort_by_priority xs)),
)

total-cut :
    (f : ContextItem → ℕ) (l : Limits) (xs : List ContextItem)
    → total f (sort_by_priority (must_keep xs ++ rest_kept l xs))
      ≡ total f (must_keep xs) + total f (rest_kept l xs)
total-cut f l xs = omega (
  arith,
  total-sort f (must_keep xs ++ rest_kept l xs),
  total-append f (must_keep xs) (rest_kept l xs),
)

-- Pruning adds nothing.
pub total-prune_with-le :
    (f : ContextItem → ℕ) (l : Limits) (xs : List ContextItem)
    → total f (prune_with l xs).0 ≤ total f xs
unfolding prune_with
total-prune_with-le f l xs =
    let fresh = keep_if (λ i. not (is_stale l i)) xs in
    ground
      (arith, total-keep_if_split f (is_stale l) xs, total-cut f l fresh, total-parts-le f l fresh)

length-cut :
    (l : Limits) (xs : List ContextItem)
    → length (sort_by_priority (must_keep xs ++ rest_kept l xs))
      ≡ length (must_keep xs) + length (rest_kept l xs)
length-cut l xs = omega (
  arith,
  length-sort (must_keep xs ++ rest_kept l xs),
  length-append {0} (must_keep xs) (rest_kept l xs),
)

counted-le :
    (l : Limits) (xs : List ContextItem)
    → length (must_keep xs) + length (rest_kept l xs) ≤ length xs
counted-le l xs = omega (
  arith,
  length-eq-total {0} (must_keep xs),
  length-eq-total {0} (rest_kept l xs),
  length-eq-total {0} xs,
  total-parts-le (λ _. 1) l xs,
)

length-rest_kept-le :
    (l : Limits) (xs : List ContextItem)
    → length (must_keep xs) < l.max_items_before_low_priority_cut
    → length (must_keep xs) + length (rest_kept l xs) ≤ l.max_items_before_low_priority_cut
unfolding rest_kept
length-rest_kept-le l xs few =
    length-cut_rest-le l.max_items_before_low_priority_cut (length (must_keep xs))
      (keep_if not_system (sort_by_priority xs)) few

-- The number of retained items and the reported number of pruned items add up to the number of
-- items.
pub prune_with_count :
    (l : Limits) (xs : List ContextItem)
    → length (prune_with l xs).0 + (prune_with l xs).1 ≡ length xs
unfolding prune_with
prune_with_count l xs =
    let fresh = keep_if (λ i. not (is_stale l i)) xs in
    let cut = sort_by_priority (must_keep fresh ++ rest_kept l fresh) in
    let parts : length (must_keep fresh) + length (rest_kept l fresh) ≤ length fresh =
      counted-le l fresh in
    let both : length cut ≡ length (must_keep fresh) + length (rest_kept l fresh) =
      length-cut l fresh in
    ground (arith, parts, both, length-keep_if_split (is_stale l) xs)

-- Where fewer of the items that are not stale have a system priority than the limit on items, at
-- most as many items as the limit are retained.
prune_with_limit :
    (l : Limits) (xs : List ContextItem)
    → length (must_keep (keep_if (λ i. not (is_stale l i)) xs))
      < l.max_items_before_low_priority_cut
    → length (prune_with l xs).0 ≤ l.max_items_before_low_priority_cut
unfolding prune_with
prune_with_limit l xs few =
    let fresh = keep_if (λ i. not (is_stale l i)) xs in
    ground (arith, length-cut l fresh, length-rest_kept-le l fresh few)

-- An item with a system priority is not stale while the threshold is at most that priority.
total-fresh :
    (f : ContextItem → ℕ) (l : Limits) (xs : List ContextItem)
    → l.stale_priority_threshold ≤ 100
    → total (only is_system f) (keep_if (λ i. not (is_stale l i)) xs) ≡ total (only is_system f) xs
total-fresh f l [] h = refl
total-fresh f l (x ∷ xs) h = ground (arith, total-fresh f l xs h)

total-system_cut :
    (f : ContextItem → ℕ) (l : Limits) (xs : List ContextItem)
    → total (only is_system f) (sort_by_priority (must_keep xs ++ rest_kept l xs))
      ≡ total (only is_system f) xs
unfolding must_keep rest_kept
total-system_cut f l xs = omega (
  arith,
  total-cut (only is_system f) l xs,
  total-sort (only is_system f) xs,
  total-keep_if_split (only is_system f) is_system (sort_by_priority xs),
  total-only-keep_if-not f is_system (sort_by_priority xs),
  total-cut_rest-le (only is_system f) l.max_items_before_low_priority_cut (length (must_keep xs))
      (keep_if not_system (sort_by_priority xs)),
)

-- Pruning keeps every item with a system priority.
pub total-system_prune :
    (f : ContextItem → ℕ) (l : Limits) (xs : List ContextItem)
    → l.stale_priority_threshold ≤ 100
    → total (only is_system f) (prune_with l xs).0 ≡ total (only is_system f) xs
unfolding prune_with
total-system_prune f l xs h =
    ground
      (arith, total-system_cut f l (keep_if (λ i. not (is_stale l i)) xs), total-fresh f l xs h)
