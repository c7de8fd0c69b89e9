-- ===== src/Evals/Regression/Gate.antt =====
-- What the release gate lets through.
use auditable_scientific_age.Prelude.{
  ℕ, ◌≤◌, ◌<◌, String, Bool, true, false, Option, none, some, List, [], ◌∷◌, ◌&&◌, length, total,
  all, leb, ◌≡◌, refl, arith, ◌==◌, eq_iff, sym, ap, ◌∙◌, subst, Bool-cases, inl, inr, nat_eq,
}
use auditable_scientific_age.Prelude.Dict.{Dict, get}
use auditable_scientific_age.Evals.Trials.{TrialResult}
use auditable_scientific_age.Evals.Regression.{
  Sample, MetricSummary, grader_data, aggregate_suite, summarize, summarize_all, check_metric,
  find_regression, first_of, scorecard, generate_report, hard_metrics_or_default,
}
use auditable_scientific_age.Evals.Regression.Samples.{
  samples_of, joined, get-grader_data, passed-length_of, length-samples_of, never_fails,
  result_count,
}

module _ (round4 round2 : ℕ → ℕ → ℕ) (percent : ℕ → String)
    (full : (n : ℕ) → 0 < n → round4 n n ≡ 10000)
    (below : (p n : ℕ) → p < n → n ≤ 10000 → round4 p n < 10000)
    (capped : (p n : ℕ) → p ≤ n → 0 < n → round4 p n ≤ 10000) where
  abbrev summary_of : String → Option (List Sample) → Option MetricSummary
  summary_of h none = none
  summary_of h (some xs) = some (summarize round4 round2 percent h xs)

  get-summarize_all :
      (h : String) (d : Dict (List Sample))
      → get h (summarize_all round4 round2 percent d) ≡ summary_of h (get h d)
  get-summarize_all h [] = refl
  get-summarize_all h ((name, xs) ∷ d) = elim (Bool-cases (name == h)) [
    | inl same ↦ rw same (
        subst
          (λ k.
            some (summarize round4 round2 percent k xs)
            ≡ some (summarize round4 round2 percent h xs))
          (sym (ground (arith, same, eq_iff name h))) refl)
    | inr other ↦ rw other (get-summarize_all h d)
  ]

  -- A rate that the gate accepts.
  abbrev is_full : Option MetricSummary → Bool
  is_full none = true
  is_full (some m) = leb 10000 m.pass_rate

  abbrev is_capped : Option MetricSummary → Bool
  is_capped none = true
  is_capped (some m) = leb m.pass_rate 10000

  abbrev is_none {ℓ} : {A : Type ℓ} → Option A → Bool
  is_none none = true
  is_none (some x) = false

  check_metric-is_full :
      (h : String) (base cand : Option MetricSummary)
      → is_capped base ≡ true
      → is_none (check_metric round4 round2 percent h base cand) ≡ is_full cand
  unfolding check_metric
  check_metric-is_full h base none cap = refl
  check_metric-is_full h none (some m) cap = ground arith
  check_metric-is_full h (some b) (some m) cap = ground (arith, cap)

  summary_of-samples :
      (h : String) (trials : List TrialResult) (xs : List Sample)
      → total (λ d. d.passed) xs ≤ length xs
      → is_capped (summary_of h (joined none xs)) ≡ true
  summary_of-samples h trials [] le = refl
  summary_of-samples h trials (x ∷ xs) le =
      ground (arith, capped (total (λ d. d.passed) (x ∷ xs)) (length (x ∷ xs)) le (omega arith))

  rate-nat_eq : (p n : ℕ) → p ≤ n → 0 < n → n ≤ 10000 → leb 10000 (round4 p n) ≡ nat_eq p n
  rate-nat_eq p n le pos small = elim (Bool-cases (nat_eq p n)) [
    | inl same ↦
        let e : n ≡ p = ground (arith, same) in
        rw same (subst (λ k. leb 10000 (round4 k n) ≡ true) e (ground (arith, full n pos)))
    | inr other ↦ ground (arith, other, below p n (ground (arith, le, other)) small)
  ]

  is_full-samples :
      (h : String) (xs : List Sample)
      → total (λ d. d.passed) xs ≤ length xs
      → length xs ≤ 10000
      → is_full (summary_of h (joined none xs)) ≡ nat_eq (total (λ d. d.passed) xs) (length xs)
  is_full-samples h [] le small = refl
  is_full-samples h (x ∷ xs) le small =
      rate-nat_eq (total (λ d. d.passed) (x ∷ xs)) (length (x ∷ xs)) le (omega arith) small

  get-aggregate_suite :
      (h : String) (trials : List TrialResult)
      → get h (aggregate_suite round4 round2 percent trials)
        ≡ summary_of h (joined none (samples_of h trials))
  unfolding aggregate_suite
  get-aggregate_suite h trials =
      get-summarize_all h (grader_data trials []) ∙ ap (summary_of h) (get-grader_data h trials [])

  is_none-first_of :
      (o later : Option String) → is_none (first_of o later) ≡ (is_none o && is_none later)
  is_none-first_of none later = refl
  is_none-first_of (some reason) later = refl

  base_is_capped :
      (h : String) (baseline : List TrialResult)
      → is_capped (get h (aggregate_suite round4 round2 percent baseline)) ≡ true
  base_is_capped h baseline =
      let (bound, same) = passed-length_of h baseline in
      rw (get-aggregate_suite h baseline)
        (summary_of-samples h baseline (samples_of h baseline) bound)

  is_full-never_fails :
      (h : String) (candidate : List TrialResult)
      → result_count candidate ≤ 10000
      → is_full (get h (aggregate_suite round4 round2 percent candidate)) ≡ never_fails h candidate
  is_full-never_fails h candidate small =
      let (bound, same) = passed-length_of h candidate in
      let fits : length (samples_of h candidate) ≤ 10000 =
        omega (arith, small, length-samples_of h candidate) in
      ap is_full (get-aggregate_suite h candidate)
      ∙ is_full-samples h (samples_of h candidate) bound fits
      ∙ same

  find_regression-never_fails :
      (metrics : List String) (baseline candidate : List TrialResult)
      → result_count candidate ≤ 10000
      → is_none (
          find_regression round4 round2 percent metrics
            (aggregate_suite round4 round2 percent baseline)
            (aggregate_suite round4 round2 percent candidate))
        ≡ all (λ h. never_fails h candidate) metrics
  unfolding find_regression
  find_regression-never_fails [] baseline candidate small = refl
  find_regression-never_fails (h ∷ metrics) baseline candidate small =
      let base = aggregate_suite round4 round2 percent baseline in
      let cand = aggregate_suite round4 round2 percent candidate in
      is_none-first_of (check_metric round4 round2 percent h (get h base) (get h cand))
        (find_regression round4 round2 percent metrics base cand)
      ∙ ground (
        arith,
        check_metric-is_full h (get h base) (get h cand) (base_is_capped h baseline),
        is_full-never_fails h candidate small,
        find_regression-never_fails metrics baseline candidate small,
      )

  scorecard-is_none :
      (o : Option String) (base cand : Dict MetricSummary)
      → (scorecard o base cand).is_improvement ≡ is_none o
  scorecard-is_none none base cand = refl
  scorecard-is_none (some reason) base cand = refl

  is_improvement_lem :
      (hard_metrics : List String) (baseline candidate : List TrialResult)
      → (generate_report round4 round2 percent hard_metrics baseline candidate).is_improvement
        ≡ is_none (
            find_regression round4 round2 percent
              (hard_metrics_or_default hard_metrics)
              (aggregate_suite round4 round2 percent baseline)
              (aggregate_suite round4 round2 percent candidate))
  unfolding generate_report
  is_improvement_lem hard_metrics baseline candidate =
      let base = aggregate_suite round4 round2 percent baseline in
      let cand = aggregate_suite round4 round2 percent candidate in
      scorecard-is_none
        (find_regression round4 round2 percent (hard_metrics_or_default hard_metrics) base cand)
        base cand

  -- With at most 10000 grader results in the candidate, where the rounded pass rate is then 100%
  -- exactly when all passed, the report calls the candidate an improvement exactly when every result
  -- of every hard grader in it passed, whatever the baseline did.
  pub generate_report-never_fails :
      (hard_metrics : List String) (baseline candidate : List TrialResult)
      → result_count candidate ≤ 10000
      → (generate_report round4 round2 percent hard_metrics baseline candidate).is_improvement
        ≡ all (λ h. never_fails h candidate) (hard_metrics_or_default hard_metrics)
  generate_report-never_fails hard_metrics baseline candidate small =
      is_improvement_lem hard_metrics baseline candidate
      ∙ find_regression-never_fails (hard_metrics_or_default hard_metrics) baseline candidate small
