-- ===== src/Context/Assembler.antt =====
-- assembler.py.
pub mod Order
pub mod Cutoff
pub mod Report
use auditable_scientific_age.Prelude.{
  ℕ, zero, suc, ◌+◌, ◌*◌, ◌/◌, ◌%◌, ◌≤◌, String, Bool, true, false, not, ◌&&◌, ◌||◌, List, [], ◌∷◌,
  ◌++◌, keep_if, length, total, leb, ltb, nat_eq, max, if◌then◌else◌,
}
use auditable_scientific_age.Prelude.Dict.{Dict, get_or, insert}
use auditable_scientific_age.Context.Models.{
  ContextItem, ContextBundle, ContextBudgetReport, is_system, is_user_message, sort_by_priority,
}
use auditable_scientific_age.Context.Budget.{estimate_tokens}
use auditable_scientific_age.Context.Dedup.{deduplicate}
use auditable_scientific_age.Context.Pruner.{prune}

abbrev pub tokens : ContextItem → ℕ
tokens item = estimate_tokens item.content

-- What the truncation loop has built.
pub record Truncation : Type 0 where
  pub retained : List ContextItem
  pub dropped : List ContextItem
  pub current_tokens : ℕ

abbrev pub retain : ContextItem → Truncation → Truncation
retain item t = record t {
  retained = t.retained ++ item ∷ [];
  current_tokens = t.current_tokens + tokens item;
}

abbrev pub drop_item : ContextItem → Truncation → Truncation
drop_item item t = record t { dropped = t.dropped ++ item ∷ [] }

-- One round of the loop.
unfoldable pub truncate_one : ℕ → ContextItem → Truncation → Truncation
truncate_one max_tokens item t =
    if ltb max_tokens (t.current_tokens + tokens item)
    then (if is_system item then retain item t else drop_item item t)
    else retain item t

unfoldable pub truncate_from : ℕ → List ContextItem → Truncation → Truncation
unfolding truncate_one
truncate_from max_tokens [] t = t
truncate_from max_tokens (item ∷ items) t =
    truncate_from max_tokens items (truncate_one max_tokens item t)

abbrev pub nothing_yet : Truncation
nothing_yet = record { retained = []; dropped = []; current_tokens = 0 }

-- `xs.insert(k, x)`
unfoldable pub insert_at : ℕ → ContextItem → List ContextItem → List ContextItem
insert_at zero x ys = x ∷ ys
insert_at (suc k) x [] = x ∷ []
insert_at (suc k) x (y ∷ ys) = y ∷ insert_at k x ys

unfoldable pub alternate : ℕ → ℕ → List ContextItem → List ContextItem → List ContextItem
unfolding insert_at
alternate base idx [] result = result
alternate base idx (item ∷ rest) result =
    alternate base (idx + 1) rest
      (if nat_eq (idx % 2) 0 then insert_at (base + idx / 2) item result else result ++ item ∷ [])

-- An item of the list equals one of `system` exactly if it has a system priority itself, and one of
-- `user` exactly if it is a user message; so `i not in system and i not in user` reads as here.
abbrev pub is_rest : ContextItem → Bool
is_rest i = not (is_system i) && not (is_user_message i)

unfoldable pub reorder_for_positional_bias : List ContextItem → List ContextItem
unfolding alternate
reorder_for_positional_bias items =
    let system = keep_if is_system items in
    let user = keep_if is_user_message items in
    let rest = keep_if is_rest items in
    if leb (length items) 2
    then items
    else alternate (length system + length user) 0 rest (system ++ user)

-- `d[key] = d.get(key, 0) + 1`
abbrev count_key : String → Dict ℕ → Dict ℕ
count_key key d = insert key (get_or key 0 d + 1) d

unfoldable pub trust_dist : List ContextItem → Dict ℕ → Dict ℕ
trust_dist [] d = d
trust_dist (i ∷ items) d = trust_dist items (count_key i.trust_level d)

unfoldable pub kind_dist : List ContextItem → Dict ℕ → Dict ℕ
kind_dist [] d = d
kind_dist (i ∷ items) d = kind_dist items (count_key i.kind d)

-- The items after step 5.
unfoldable pub retained_order : Truncation → List ContextItem
retained_order t =
    if ltb 8 (length t.retained) then reorder_for_positional_bias t.retained else t.retained

unfoldable pub truncated : ℕ → List ContextItem → Truncation
truncated max_tokens raw_items =
    truncate_from max_tokens (sort_by_priority (prune (deduplicate raw_items)).0) nothing_yet

-- `utilization > 0.9` is read as `10 * current > 9 * max(max_tokens, 1)`.
unfoldable pub budget_report : ℕ → List ContextItem → Truncation → ContextBudgetReport
budget_report max_tokens raw_items t =
    let items = retained_order t in
    record {
      total_items_submitted = length raw_items;
      items_after_dedup = length (deduplicate raw_items);
      items_pruned = (prune (deduplicate raw_items)).1;
      items_dropped_by_budget = length t.dropped;
      items_retained = length items;
      estimated_tokens_used = t.current_tokens;
      max_tokens = max_tokens;
      utilization_ratio = (t.current_tokens, max max_tokens 1);
      lost_in_middle_warning =
          ltb (max max_tokens 1 * 9) (t.current_tokens * 10) && ltb 8 (length t.retained);
      trust_distribution = trust_dist items [];
      kind_distribution = kind_dist items [];
    }

unfoldable pub assemble : ℕ → List ContextItem → ContextBundle × ContextBudgetReport
assemble max_tokens raw_items =
    let t = truncated max_tokens raw_items in
    (
      record {
        items = retained_order t;
        total_estimated_tokens = t.current_tokens;
        max_tokens = max_tokens;
        dropped_items = t.dropped;
      },
      budget_report max_tokens raw_items t,
    )
