-- ===== src/Context/Models.antt =====
-- models.py. Priorities, ages and budgets are at least 0; the provenance, which nothing here reads,
-- is left out. The utilization ratio is kept as a fraction, unrounded.
use auditable_scientific_age.Prelude.{
  ℕ, ◌+◌, String, Bool, List, [], ◌∷◌, ◌≡◌, refl, leb, ◌==◌, if◌then◌else◌, total, arith,
}
use auditable_scientific_age.Prelude.Dict.{Dict}

pub record ContextItem : Type 0 where
  pub item_id : String
  pub kind : String
  pub content : String
  pub priority : ℕ
  pub trust_level : String
  pub age_in_steps : ℕ

pub record ContextBundle : Type 0 where
  pub items : List ContextItem
  pub total_estimated_tokens : ℕ
  pub max_tokens : ℕ
  pub dropped_items : List ContextItem

pub record ContextBudgetReport : Type 0 where
  pub total_items_submitted : ℕ
  pub items_after_dedup : ℕ
  pub items_pruned : ℕ
  pub items_dropped_by_budget : ℕ
  pub items_retained : ℕ
  pub estimated_tokens_used : ℕ
  pub max_tokens : ℕ
  -- numerator and denominator
  pub utilization_ratio : ℕ × ℕ
  pub lost_in_middle_warning : Bool
  pub trust_distribution : Dict ℕ
  pub kind_distribution : Dict ℕ

-- `priority >= 100`
abbrev pub is_system : ContextItem → Bool
is_system i = leb 100 i.priority

abbrev pub is_user_message : ContextItem → Bool
is_user_message i = i.kind == "user_message"

-- `list.sort(key=priority, reverse=True)`, which is stable
unfoldable pub insert_by_priority : ContextItem → List ContextItem → List ContextItem
insert_by_priority x [] = x ∷ []
insert_by_priority x (y ∷ ys) =
    if leb y.priority x.priority then x ∷ y ∷ ys else y ∷ insert_by_priority x ys

unfoldable pub sort_by_priority : List ContextItem → List ContextItem
unfolding insert_by_priority
sort_by_priority [] = []
sort_by_priority (x ∷ xs) = insert_by_priority x (sort_by_priority xs)

total-insert :
    (f : ContextItem → ℕ) (x : ContextItem) (ys : List ContextItem)
    → total f (insert_by_priority x ys) ≡ f x + total f ys
unfolding insert_by_priority
total-insert f x [] = refl
total-insert f x (y ∷ ys) = ground (arith, total-insert f x ys)

-- Sorting keeps every total, and so the items.
pub total-sort :
    (f : ContextItem → ℕ) (xs : List ContextItem) → total f (sort_by_priority xs) ≡ total f xs
unfolding sort_by_priority
total-sort f [] = refl
total-sort f (x ∷ xs) = omega (arith, total-insert f x (sort_by_priority xs), total-sort f xs)
