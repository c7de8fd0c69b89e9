-- ===== src/Context/Dedup.antt =====
-- dedup.py: the first item of each content, up to surrounding white space.
use auditable_scientific_age.Prelude.{
  ℕ, ◌≤◌, Bool, true, false, not, ◌||◌, ◌&&◌, List, [], ◌∷◌, total, if◌then◌else◌, ◌≡◌, refl, arith,
  inl, inr, Bool-cases,
}
use auditable_scientific_age.Prelude.Text.{Text, codes, strip, text_eq}
use auditable_scientific_age.Context.Models.{ContextItem}

abbrev pub normalized : ContextItem → Text
normalized item = strip (codes item.content)

-- `t in seen`
abbrev pub is_seen : Text → List Text → Bool
is_seen t [] = false
is_seen t (u ∷ seen) = text_eq u t || is_seen t seen

unfoldable pub dedup_from : List Text → List ContextItem → List ContextItem
dedup_from seen [] = []
dedup_from seen (item ∷ items) =
    let kept = item ∷ dedup_from (normalized item ∷ seen) items in
    let skipped = dedup_from seen items in if is_seen (normalized item) seen then skipped else kept

unfoldable pub deduplicate : List ContextItem → List ContextItem
unfolding dedup_from
deduplicate items = dedup_from [] items

-- No content occurs twice, nor among those seen before.
abbrev pub is_distinct_from : List Text → List ContextItem → Bool
is_distinct_from seen [] = true
is_distinct_from seen (item ∷ items) =
    not (is_seen (normalized item) seen) && is_distinct_from (normalized item ∷ seen) items

dedup_from-is_distinct :
    (seen : List Text) (items : List ContextItem)
    → is_distinct_from seen (dedup_from seen items) ≡ true
unfolding dedup_from
dedup_from-is_distinct seen [] = refl
dedup_from-is_distinct seen (item ∷ items) = elim (Bool-cases (is_seen (normalized item) seen)) [
  | inl old ↦ rw old (dedup_from-is_distinct seen items)
  | inr new ↦ rw (new, new) (dedup_from-is_distinct (normalized item ∷ seen) items)
]

pub total-dedup_from :
    (f : ContextItem → ℕ) (seen : List Text) (items : List ContextItem)
    → total f (dedup_from seen items) ≤ total f items
unfolding dedup_from
total-dedup_from f seen [] = omega arith
total-dedup_from f seen (item ∷ items) = elim (Bool-cases (is_seen (normalized item) seen)) [
  | inl old ↦ rw old (omega (arith, total-dedup_from f seen items))
  | inr new ↦ rw new (omega (arith, total-dedup_from f (normalized item ∷ seen) items))
]
