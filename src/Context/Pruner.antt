-- ===== src/Context/Pruner.antt =====
-- pruner.py. Its parameter `low_priority_cutoff` is read nowhere in the source, and is left out.
pub mod Cut
use auditable_scientific_age.Prelude.{
  ℕ, ◌+◌, ◌-◌, ◌≤◌, Bool, true, false, not, ◌&&◌, List, [], ◌∷◌, ◌++◌, keep_if, take, length, total,
  ltb, if◌then◌else◌, ◌≡◌, refl, arith,
}
use auditable_scientific_age.Context.Models.{ContextItem, is_system, sort_by_priority}

pub record Limits : Type 0 where
  pub max_age : ℕ
  pub stale_priority_threshold : ℕ
  pub max_items_before_low_priority_cut : ℕ

-- The default arguments.
abbrev pub default_limits : Limits
default_limits = record {
  max_age = 10;
  stale_priority_threshold = 60;
  max_items_before_low_priority_cut = 20;
}

-- Rule 1.
abbrev pub is_stale : Limits → ContextItem → Bool
is_stale l item = ltb l.max_age item.age_in_steps && ltb item.priority l.stale_priority_threshold

-- `rest[:extra_cut]` if the cut is positive, else all of `rest`
abbrev pub cut_rest : ℕ → ℕ → List ContextItem → List ContextItem
cut_rest cutoff kept rest = if ltb kept cutoff then take (cutoff - kept) rest else rest

-- Rule 2: what is kept of the items that rule 1 retains, sorted.
unfoldable pub must_keep : List ContextItem → List ContextItem
must_keep retained = keep_if is_system (sort_by_priority retained)

unfoldable pub rest_kept : Limits → List ContextItem → List ContextItem
rest_kept l retained =
    cut_rest l.max_items_before_low_priority_cut (length (must_keep retained))
      (keep_if (λ i. not (is_system i)) (sort_by_priority retained))

-- The retained items and the number of pruned ones, which the source counts as it goes.
unfoldable pub prune_with : Limits → List ContextItem → List ContextItem × ℕ
prune_with l items =
    let retained = keep_if (λ i. not (is_stale l i)) items in
    let stale_count = length (keep_if (is_stale l) items) in
    if ltb l.max_items_before_low_priority_cut (length retained)
    then (
      sort_by_priority (must_keep retained ++ rest_kept l retained),
      stale_count + (length retained - length (must_keep retained) - length (rest_kept l retained)),
    )
    else (retained, stale_count)

unfoldable pub prune : List ContextItem → List ContextItem × ℕ
prune items = prune_with default_limits items
