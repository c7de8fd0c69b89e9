-- ===== src/Context/Assembler/Report.antt =====
-- The report and the bundle against the submitted items.
use auditable_scientific_age.Prelude.{
  ℕ, ◌+◌, ◌≤◌, false, List, [], ◌∷◌, length, length-eq-total, any, total, only, ◌≡◌, refl, arith,
}
use auditable_scientific_age.Context.Models.{ContextItem, is_system, sort_by_priority, total-sort}
use auditable_scientific_age.Context.Dedup.{deduplicate, total-dedup_from}
use auditable_scientific_age.Context.Pruner.{default_limits, prune}
use auditable_scientific_age.Context.Pruner.Cut.{
  total-prune_with-le, prune_with_count, total-system_prune,
}
use auditable_scientific_age.Context.Assembler.{
  tokens, nothing_yet, truncated, retained_order, budget_report, assemble,
}
use auditable_scientific_age.Context.Assembler.Order.{is_both, total-reorder}
use auditable_scientific_age.Context.Assembler.Cutoff.{
  total-truncate_from, IsWithin, truncate_from-IsWithin, truncate_from-system,
}

-- No submitted item is both a user message and of system priority.
abbrev pub IsSeparate : List ContextItem → Type 0
IsSeparate items = any is_both items ≡ false

IsSeparate-total :
    (f : ContextItem → ℕ) (items : List ContextItem)
    → IsSeparate items
    → total (only is_both f) items ≡ 0
IsSeparate-total f [] h = refl
IsSeparate-total f (x ∷ xs) h = ground (arith, IsSeparate-total f xs)

module _ (f : ContextItem → ℕ) (m : ℕ) (raw : List ContextItem) where
  total-deduplicate-le : total f (deduplicate raw) ≤ total f raw
  unfolding deduplicate
  total-deduplicate-le = total-dedup_from f [] raw

  -- The truncation splits the pruned items.
  total-truncated :
      total f (truncated m raw).retained + total f (truncated m raw).dropped
      ≡ total f (prune (deduplicate raw)).0
  unfolding truncated
  total-truncated = omega (
    arith,
    total-truncate_from f m (sort_by_priority (prune (deduplicate raw)).0) nothing_yet,
    total-sort f (prune (deduplicate raw)).0,
  )

  total-prune-le : total f (prune (deduplicate raw)).0 ≤ total f (deduplicate raw)
  unfolding prune
  total-prune-le = total-prune_with-le f default_limits (deduplicate raw)

  total-retained-le : total f (truncated m raw).retained ≤ total f raw
  total-retained-le = omega (arith, total-truncated, total-prune-le, total-deduplicate-le)

total-retained_order :
    (f : ContextItem → ℕ) (m : ℕ) (raw : List ContextItem)
    → IsSeparate raw
    → total f (retained_order (truncated m raw)) ≡ total f (truncated m raw).retained
unfolding retained_order
total-retained_order f m raw h = ground (
  arith,
  total-reorder f (truncated m raw).retained,
  total-retained-le (only is_both f) m raw,
  IsSeparate-total f raw h,
)

length-retained_order :
    (m : ℕ) (raw : List ContextItem)
    → IsSeparate raw
    → length (retained_order (truncated m raw)) ≡ length (truncated m raw).retained
length-retained_order m raw h = omega (
  arith,
  length-eq-total {0} (retained_order (truncated m raw)),
  length-eq-total {0} (truncated m raw).retained,
  total-retained_order (λ _. 1) m raw h,
)

truncated-IsWithin : (m : ℕ) (raw : List ContextItem) → IsWithin m (truncated m raw)
unfolding truncated
truncated-IsWithin m raw =
    truncate_from-IsWithin m (sort_by_priority (prune (deduplicate raw)).0) nothing_yet
      (record { counted = refl; budget = omega arith })

length-split :
    (m : ℕ) (raw : List ContextItem)
    → length (truncated m raw).retained + length (truncated m raw).dropped
      ≡ length (prune (deduplicate raw)).0
length-split m raw = omega (
  arith,
  length-eq-total {0} (truncated m raw).retained,
  length-eq-total {0} (truncated m raw).dropped,
  length-eq-total {0} (prune (deduplicate raw)).0,
  total-truncated (λ _. 1) m raw,
)

length-pruned :
    (raw : List ContextItem)
    → length (prune (deduplicate raw)).0 + (prune (deduplicate raw)).1 ≡ length (deduplicate raw)
unfolding prune
length-pruned raw = prune_with_count default_limits (deduplicate raw)

length-deduplicate-le : (raw : List ContextItem) → length (deduplicate raw) ≤ length raw
length-deduplicate-le raw = omega (
  arith,
  length-eq-total {0} (deduplicate raw),
  length-eq-total {0} raw,
  total-deduplicate-le (λ _. 1) 0 raw,
)

no_system_dropped :
    (f : ContextItem → ℕ) (m : ℕ) (raw : List ContextItem)
    → total (only is_system f) (truncated m raw).dropped ≡ 0
unfolding truncated
no_system_dropped f m raw =
    truncate_from-system f m (sort_by_priority (prune (deduplicate raw)).0) nothing_yet

system_pruned :
    (f : ContextItem → ℕ) (raw : List ContextItem)
    → total (only is_system f) (prune (deduplicate raw)).0
      ≡ total (only is_system f) (deduplicate raw)
unfolding prune
system_pruned f raw = total-system_prune f default_limits (deduplicate raw) (omega arith)

-- If no submitted item is both a user message and of priority 100 or more, the report adds up: the
-- pruned, the dropped and the retained items are those after deduplication, which are at most the
-- submitted ones; the token count is the sum of the estimates of the bundle's items, and goes over
-- the budget by at most the estimates of the items of priority 100 or more among them.
pub assemble_accounts :
    (m : ℕ) (raw : List ContextItem)
    → IsSeparate raw
    → let (bundle, report) = assemble m raw in
      (report.items_pruned + report.items_dropped_by_budget + report.items_retained
        ≡ report.items_after_dedup)
      × (report.items_after_dedup ≤ report.total_items_submitted)
      × (bundle.total_estimated_tokens ≡ total tokens bundle.items)
      × (bundle.total_estimated_tokens ≤ m + total (only is_system tokens) bundle.items)
unfolding assemble budget_report
assemble_accounts m raw h =
    let within = truncated-IsWithin m raw in
    (
      omega (arith, length-retained_order m raw h, length-split m raw, length-pruned raw),
      length-deduplicate-le raw,
      omega (arith, within.counted, total-retained_order tokens m raw h),
      omega (arith, within.budget, total-retained_order (only is_system tokens) m raw h),
    )

-- Under the same condition the items of priority 100 or more all come through pruning and the
-- budget: for every weight of the items, those in the bundle weigh what those after deduplication
-- do.
pub assemble_keeps_system :
    (f : ContextItem → ℕ) (m : ℕ) (raw : List ContextItem)
    → IsSeparate raw
    → total (only is_system f) (assemble m raw).0.items ≡ total (only is_system f) (deduplicate raw)
unfolding assemble
assemble_keeps_system f m raw h = omega (
  arith,
  total-retained_order (only is_system f) m raw h,
  total-truncated (only is_system f) m raw,
  no_system_dropped f m raw,
  system_pruned f raw,
)
