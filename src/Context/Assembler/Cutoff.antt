-- ===== src/Context/Assembler/Cutoff.antt =====
-- The truncation by the token budget.
use auditable_scientific_age.Prelude.{
  ℕ, ◌+◌, ◌≤◌, List, [], ◌∷◌, total, total-append, only, ◌≡◌, refl, arith,
}
use auditable_scientific_age.Context.Models.{ContextItem, is_system}
use auditable_scientific_age.Context.Assembler.{tokens, Truncation, truncate_one, truncate_from}

-- The loop splits what it is given.
pub total-truncate_from :
    (f : ContextItem → ℕ) (m : ℕ) (items : List ContextItem) (t : Truncation)
    → let r = truncate_from m items t in
      total f r.retained + total f r.dropped
      ≡ total f t.retained + total f t.dropped + total f items
unfolding truncate_from
total-truncate_from f m [] t = omega arith
total-truncate_from f m (x ∷ xs) t = ground (
  arith,
  total-truncate_from f m xs (truncate_one m x t),
  total-append f t.retained (x ∷ []),
  total-append f t.dropped (x ∷ []),
)

-- What holds of the lists and the count after each round.
pub record IsWithin (m : ℕ) (t : Truncation) : Type 0 where
  pub counted : t.current_tokens ≡ total tokens t.retained
  pub budget : t.current_tokens ≤ m + total (only is_system tokens) t.retained

truncate_one-IsWithin :
    (m : ℕ) (x : ContextItem) (t : Truncation) → IsWithin m t → IsWithin m (truncate_one m x t)
unfolding truncate_one
truncate_one-IsWithin m x t h = ground (
  arith,
  total-append tokens t.retained (x ∷ []),
  total-append (only is_system tokens) t.retained (x ∷ []),
)

pub truncate_from-IsWithin :
    (m : ℕ) (items : List ContextItem) (t : Truncation)
    → IsWithin m t
    → IsWithin m (truncate_from m items t)
unfolding truncate_from
truncate_from-IsWithin m [] t h = h
truncate_from-IsWithin m (x ∷ xs) t h =
    truncate_from-IsWithin m xs (truncate_one m x t) (truncate_one-IsWithin m x t h)

truncate_one-system :
    (f : ContextItem → ℕ) (m : ℕ) (x : ContextItem) (t : Truncation)
    → total (only is_system f) (truncate_one m x t).dropped ≡ total (only is_system f) t.dropped
unfolding truncate_one
truncate_one-system f m x t = ground (arith, total-append (only is_system f) t.dropped (x ∷ []))

-- No system item is dropped.
pub truncate_from-system :
    (f : ContextItem → ℕ) (m : ℕ) (items : List ContextItem) (t : Truncation)
    → total (only is_system f) (truncate_from m items t).dropped
      ≡ total (only is_system f) t.dropped
unfolding truncate_from
truncate_from-system f m [] t = refl
truncate_from-system f m (x ∷ xs) t =
    omega (arith, truncate_from-system f m xs (truncate_one m x t), truncate_one-system f m x t)
