-- ===== src/Evals/Regression/Samples.antt =====
-- The data of one grader among all trials.
use auditable_scientific_age.Prelude.{
  ℕ, ◌≤◌, String, Bool, true, false, not, Option, none, some, List, [], ◌∷◌, ◌++◌, ◌||◌, length,
  total, total-append, length-append, all, if◌then◌else◌, ◌≡◌, refl, arith, ◌==◌, eq_iff,
  append_assoc, append-nil, sym, ap, ◌∙◌, subst, Bool-cases, inl, inr, nat_eq,
}
use auditable_scientific_age.Prelude.Dict.{Dict, get, get_or, insert, get-insert}
use auditable_scientific_age.Evals.Graders.{GraderResult}
use auditable_scientific_age.Evals.Trials.{TrialResult}
use auditable_scientific_age.Evals.Regression.{Sample, sample_of, add_results, grader_data}

-- The samples of one grader.
abbrev samples_in : String → TrialResult → List GraderResult → List Sample
samples_in h t [] = []
samples_in h t (g ∷ graders) =
    if g.grader_name == h then sample_of t g ∷ samples_in h t graders else samples_in h t graders

abbrev pub samples_of : String → List TrialResult → List Sample
samples_of h [] = []
samples_of h (t ∷ trials) = samples_in h t t.grader_results ++ samples_of h trials

-- An entry of the data with more samples behind it.
abbrev pub joined : Option (List Sample) → List Sample → Option (List Sample)
joined none [] = none
joined none (x ∷ xs) = some (x ∷ xs)
joined (some ys) xs = some (ys ++ xs)

joined_twice :
    (o : Option (List Sample)) (xs ys : List Sample) → joined (joined o xs) ys ≡ joined o (xs ++ ys)
joined_twice none [] ys = refl
joined_twice none (x ∷ xs) ys = refl
joined_twice (some zs) xs ys = rw (append_assoc zs xs ys) refl

get_or-joined :
    (o : Option (List Sample)) (x : Sample)
    → some (elim o [ none ↦ [] | some xs ↦ xs ] ++ x ∷ []) ≡ joined o (x ∷ [])
get_or-joined none x = refl
get_or-joined (some xs) x = refl

joined_nothing : (o : Option (List Sample)) → joined o [] ≡ o
joined_nothing none = refl
joined_nothing (some xs) = rw (append-nil xs) refl

get-insert_sample :
    (h k : String) (x : Sample) (d : Dict (List Sample))
    → get h (insert k (get_or k [] d ++ x ∷ []) d)
      ≡ joined (get h d) (if k == h then x ∷ [] else [])
get-insert_sample h k x d = elim (Bool-cases (k == h)) [
  | inl same ↦ rw (get-insert k h (get_or k [] d ++ x ∷ []) d) (
      rw same (
        subst (λ j. some (get_or k [] d ++ x ∷ []) ≡ joined (get j d) (x ∷ []))
          (ground (arith, same, eq_iff k h)) (get_or-joined (get k d) x)))
  | inr other ↦
      rw (get-insert k h (get_or k [] d ++ x ∷ []) d) (rw other (sym (joined_nothing (get h d))))
]

append_if :
    (b : Bool) (x : Sample) (xs : List Sample)
    → (if b then x ∷ [] else []) ++ xs ≡ (if b then x ∷ xs else xs)
append_if true x xs = refl
append_if false x xs = refl

get-add_results :
    (h : String) (t : TrialResult) (graders : List GraderResult) (d : Dict (List Sample))
    → get h (add_results t graders d) ≡ joined (get h d) (samples_in h t graders)
unfolding add_results
get-add_results h t [] d = sym (joined_nothing (get h d))
get-add_results h t (g ∷ graders) d =
    let x = sample_of t g in
    let k = g.grader_name in
    let one = if k == h then x ∷ [] else [] in
    get-add_results h t graders (insert k (get_or k [] d ++ x ∷ []) d)
    ∙ ap (λ o. joined o (samples_in h t graders)) (get-insert_sample h k x d)
    ∙ joined_twice (get h d) one (samples_in h t graders)
    ∙ ap (joined (get h d)) (append_if (k == h) x (samples_in h t graders))

pub get-grader_data :
    (h : String) (trials : List TrialResult) (d : Dict (List Sample))
    → get h (grader_data trials d) ≡ joined (get h d) (samples_of h trials)
unfolding grader_data
get-grader_data h [] d = sym (joined_nothing (get h d))
get-grader_data h (t ∷ trials) d =
    get-grader_data h trials (add_results t t.grader_results d)
    ∙ ap (λ o. joined o (samples_of h trials)) (get-add_results h t t.grader_results d)
    ∙ joined_twice (get h d) (samples_in h t t.grader_results) (samples_of h trials)

-- Every result of the grader passed.
abbrev pub passes : String → GraderResult → Bool
passes h g = not (g.grader_name == h) || g.passed

abbrev pub never_fails : String → List TrialResult → Bool
never_fails h trials = all (λ t. all (passes h) t.grader_results) trials

passed-length :
    (h : String) (t : TrialResult) (graders : List GraderResult)
    → (total (λ d. d.passed) (samples_in h t graders) ≤ length (samples_in h t graders))
      × (nat_eq (total (λ d. d.passed) (samples_in h t graders)) (length (samples_in h t graders))
          ≡ all (passes h) graders)
passed-length h t [] = (omega arith, refl)
passed-length h t (g ∷ graders) =
    let (bound, same) = passed-length h t graders in
    (ground (arith, bound), ground (arith, bound, same))

pub passed-length_of :
    (h : String) (trials : List TrialResult)
    → (total (λ d. d.passed) (samples_of h trials) ≤ length (samples_of h trials))
      × (nat_eq (total (λ d. d.passed) (samples_of h trials)) (length (samples_of h trials))
          ≡ never_fails h trials)
passed-length_of h [] = (omega arith, refl)
passed-length_of h (t ∷ trials) =
    let xs = samples_in h t t.grader_results in
    let (bound, same) = passed-length_of h trials in
    let (bound_in, same_in) = passed-length h t t.grader_results in
    let both = total-append (λ d. d.passed) xs (samples_of h trials) in
    let lengths = length-append xs (samples_of h trials) in
    (
      ground (arith, bound, bound_in, both, lengths),
      ground (arith, bound, bound_in, both, lengths, same, same_in),
    )

length-samples_in :
    (h : String) (t : TrialResult) (graders : List GraderResult)
    → length (samples_in h t graders) ≤ length graders
length-samples_in h t [] = omega arith
length-samples_in h t (g ∷ graders) = ground (arith, length-samples_in h t graders)

abbrev pub result_count : List TrialResult → ℕ
result_count trials = total (λ t. length t.grader_results) trials

pub length-samples_of :
    (h : String) (trials : List TrialResult) → length (samples_of h trials) ≤ result_count trials
length-samples_of h [] = omega arith
length-samples_of h (t ∷ trials) = omega (
  arith,
  length-samples_of h trials,
  length-samples_in h t t.grader_results,
  length-append (samples_in h t t.grader_results) (samples_of h trials),
)
