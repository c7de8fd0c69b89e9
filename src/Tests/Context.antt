-- ===== src/Tests/Context.antt =====
-- The assembly of sample items.
use auditable_scientific_age.Prelude.{
  ℕ, ◌+◌, ◌≤◌, String, List, [], ◌∷◌, total, only, ◌≡◌, refl, arith,
}
use auditable_scientific_age.Context.Models.{ContextItem, is_system}
use auditable_scientific_age.Context.Assembler.{tokens}
use auditable_scientific_age.Context.Dedup.{deduplicate}
use auditable_scientific_age.Context.Assembler.{assemble, reorder_for_positional_bias}
use auditable_scientific_age.Context.Assembler.Order.{total-reorder, is_both}
use auditable_scientific_age.Context.Assembler.Report.{assemble_accounts, assemble_keeps_system}

abbrev item : String → String → String → ℕ → ContextItem
item item_id kind content priority = record {
  item_id = item_id;
  kind = kind;
  content = content;
  priority = priority;
  trust_level = "system_trusted";
  age_in_steps = 0;
}

abbrev items : List ContextItem
items =
    item "i1" "system_instruction" "Obey the rules." 100
    ∷ item "i2" "user_message" "Fit the series." 95
    ∷ item "i3" "tool_result" "rmse 115" 40
    ∷ item "i4" "tool_result" "RMSE 115" 40
    ∷ []

assemble_accounts_example :
    let (bundle, report) = assemble 5 items in
    (report.items_pruned + report.items_dropped_by_budget + report.items_retained
      ≡ report.items_after_dedup)
    × (report.items_after_dedup ≤ report.total_items_submitted)
    × (bundle.total_estimated_tokens ≡ total tokens bundle.items)
    × (bundle.total_estimated_tokens ≤ 5 + total (only is_system tokens) bundle.items)
assemble_accounts_example = assemble_accounts 5 items refl

assemble_keeps_system_example :
    total (only is_system (λ i. 1)) (assemble 0 items).0.items
    ≡ total (only is_system (λ i. 1)) (deduplicate items)
assemble_keeps_system_example = assemble_keeps_system (λ i. 1) 0 items refl

total-reorder_example :
    total (λ i. 1) (reorder_for_positional_bias items)
    ≡ total (λ i. 1) items + total (only is_both (λ i. 1)) items
total-reorder_example = total-reorder (λ i. 1) items (omega arith)
