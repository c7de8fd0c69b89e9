-- ===== src/Graph/Reducers/Unique.antt =====
-- What the reducer of unique text lists holds.
use auditable_scientific_age.Prelude.{
  String, Bool, true, false, not, ◌&&◌, ◌||◌, Option, List, [], ◌∷◌, ◌++◌, ◌≡◌, refl, arith,
  Bool-cases, inl, inr, eq_iff,
}
use auditable_scientific_age.Prelude.Dict.{is_in}
use auditable_scientific_age.Graph.Reducers.{or_empty, add_unseen, reduce_unique_str_list}

-- No text occurs twice.
abbrev pub is_distinct : List String → Bool
is_distinct [] = true
is_distinct (x ∷ xs) = not (is_in x xs) && is_distinct xs

is_in-append : (k : String) (xs ys : List String) → is_in k (xs ++ ys) ≡ (is_in k xs || is_in k ys)
is_in-append k [] ys = refl
is_in-append k (x ∷ xs) ys = ground (arith, is_in-append k xs ys)

is_distinct-append_one :
    (xs : List String) (y : String)
    → is_distinct xs ≡ true
    → is_in y xs ≡ false
    → is_distinct (xs ++ y ∷ []) ≡ true
is_distinct-append_one [] y h n = refl
is_distinct-append_one (x ∷ xs) y h n =
    ground
      (arith, h, n, eq_iff x y, eq_iff y x, is_in-append x xs (y ∷ []), is_distinct-append_one xs y)

is_in-add_unseen :
    (k : String) (result right : List String)
    → is_in k (add_unseen result right) ≡ (is_in k result || is_in k right)
unfolding add_unseen
is_in-add_unseen k result [] = ground arith
is_in-add_unseen k result (item ∷ right) = elim (Bool-cases (is_in item result)) [
  | inl e ↦ rw e (ground (arith, e, eq_iff item k, is_in-add_unseen k result right))
  | inr e ↦ rw e (
      ground
        (arith, is_in-add_unseen k (result ++ item ∷ []) right, is_in-append k result (item ∷ [])))
]

is_distinct-add_unseen :
    (result right : List String)
    → is_distinct result ≡ true
    → is_distinct (add_unseen result right) ≡ true
unfolding add_unseen
is_distinct-add_unseen result [] h = h
is_distinct-add_unseen result (item ∷ right) h = elim (Bool-cases (is_in item result)) [
  | inl e ↦ rw e (is_distinct-add_unseen result right h)
  | inr e ↦
      rw e (
        is_distinct-add_unseen (result ++ item ∷ []) right (is_distinct-append_one result item h e))
]

-- The merged list of a list without duplicates and an update has no duplicates, and holds exactly
-- the texts of either.
pub reduce_unique_str_list-is_distinct :
    (left right : Option (List String)) (k : String)
    → is_distinct (or_empty left) ≡ true
    → (is_distinct (reduce_unique_str_list left right) ≡ true)
      × (is_in k (reduce_unique_str_list left right)
          ≡ (is_in k (or_empty left) || is_in k (or_empty right)))
unfolding reduce_unique_str_list
reduce_unique_str_list-is_distinct left right k h = (
  is_distinct-add_unseen (or_empty left) (or_empty right) h,
  is_in-add_unseen k (or_empty left) (or_empty right),
)
