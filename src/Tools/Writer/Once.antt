-- ===== src/Tools/Writer/Once.antt =====
-- How often an operation is committed.
use auditable_scientific_age.Prelude.{
  ℕ, String, Bool, true, not, ◌&&◌, List, [], ◌∷◌, any, total, if◌then◌else◌, ◌==◌, eq_iff, ◌≡◌,
  refl, arith, Bool-cases, inl, inr, ap,
}
use auditable_scientific_age.Prelude.Dict.{is_in}
use auditable_scientific_age.Tools.Writer.{
  IdempotentInput, IdempotentOutput, run_marker, run_markers,
}

-- The outputs that committed an operation.
abbrev pub commits : String → List (String × IdempotentOutput) → ℕ
commits k outputs = total (λ o. if o.0 == k && o.1.status == "committed" then 1 else 0) outputs

abbrev pub is_requested : String → List IdempotentInput → Bool
is_requested k inputs = any (λ args. args.operation_id == k) inputs

is_in_same : (j k : String) (seen : List String) → (j == k) ≡ true → is_in j seen ≡ is_in k seen
is_in_same j k seen h = let e : j ≡ k = ground (arith, h, eq_iff j k) in ap (λ i. is_in i seen) e

commits_lem :
    (k : String) (seen : List String) (inputs : List IdempotentInput)
    → commits k (run_markers seen inputs)
      ≡ (if is_requested k inputs && not (is_in k seen) then 1 else 0)
unfolding run_markers run_marker
commits_lem k seen [] = refl
commits_lem k seen (args ∷ rest) =
    let id = args.operation_id in
    elim (Bool-cases (is_in id seen)) [
      | inl old ↦ rw old (ground (arith, old, is_in_same id k seen, commits_lem k seen rest))
      | inr new ↦ rw new (ground (arith, new, is_in_same id k seen, commits_lem k (id ∷ seen) rest))
    ]

-- In any sequence of runs of a new tool, an operation is committed once if it is requested at all,
-- however often, and never otherwise.
pub run_markers-commits :
    (k : String) (inputs : List IdempotentInput)
    → commits k (run_markers [] inputs) ≡ (if is_requested k inputs then 1 else 0)
run_markers-commits k inputs = ground (arith, commits_lem k [] inputs)
