-- ===== src/Graph/Reducers.antt =====
-- reducers.py. The references of `reduce_artifact_refs` are dicts that may hold either identifier.
pub mod Unique
use auditable_scientific_age.Prelude.{
  ℕ, ◌+◌, String, Bool, false, Option, none, some, List, [], ◌∷◌, ◌++◌, map, length, nat_eq, ◌==◌,
  if◌then◌else◌,
}
use auditable_scientific_age.Prelude.Text.{str, ◌<>◌}
use auditable_scientific_age.Prelude.Dict.{is_in}

module _ {ℓ} {A : Type ℓ} where
  abbrev pub or_empty : Option (List A) → List A
  or_empty none = []
  or_empty (some xs) = xs

  unfoldable pub reduce_append : Option (List A) → Option (List A) → List A
  reduce_append left right = or_empty left ++ or_empty right

-- The loop over `right`. What has been seen is always what the result holds, so the set is the list.
unfoldable pub add_unseen : List String → List String → List String
add_unseen result [] = result
add_unseen result (item ∷ right) =
    add_unseen (if is_in item result then result else result ++ item ∷ []) right

unfoldable pub reduce_unique_str_list : Option (List String) → Option (List String) → List String
unfolding add_unseen
reduce_unique_str_list left right = add_unseen (or_empty left) (or_empty right)

pub record Ref : Type 0 where
  pub artifact_id : Option String
  pub job_id : Option String
  pub uri : String

-- The keys of the merged dict: texts, and the positions of entries of `left` with no identifier.
pub data Key : Type 0 where
  named : String → Key
  position : ℕ → Key

abbrev pub key_eq : Key → Key → Bool
key_eq (Key.named s) (Key.named t) = s == t
key_eq (Key.position m) (Key.position n) = nat_eq m n
key_eq _ _ = false

-- `m.get("artifact_id", m.get("job_id", default))`
abbrev pub key_or : Option String → Option String → Key → Key
key_or (some a) job default = Key.named a
key_or none (some j) default = Key.named j
key_or none none default = default

abbrev pub Table : Type 0
Table = List (Key × Ref)

-- `result[key] = item`
unfoldable pub upsert : Key → Ref → Table → Table
upsert key item [] = (key, item) ∷ []
upsert key item ((k, m) ∷ table) =
    if key_eq k key then (key, item) ∷ table else (k, m) ∷ upsert key item table

-- The comprehension over `enumerate(left)`.
table_from : ℕ → List Ref → Table → Table
unfolding upsert
table_from idx [] table = table
table_from idx (m ∷ left) table =
    table_from (idx + 1) left (upsert (key_or m.artifact_id m.job_id (Key.position idx)) m table)

-- The loop over `right`.
upsert_all : List Ref → Table → Table
unfolding upsert
upsert_all [] result = result
upsert_all (item ∷ right) result = upsert_all right (
    upsert (key_or item.artifact_id item.job_id (Key.named ("gen_" <> str (length result)))) item
      result)

unfoldable pub reduce_artifact_refs : Option (List Ref) → Option (List Ref) → List Ref
unfolding table_from upsert_all
reduce_artifact_refs left right =
    map (λ entry. entry.1) (upsert_all (or_empty right) (table_from 0 (or_empty left) []))
