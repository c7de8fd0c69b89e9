-- ===== src/Evals/Skills/Integrity.antt =====
-- What the skills gate lets through.
use auditable_scientific_age.Prelude.{
  ℕ, zero, suc, ◌+◌, ◌*◌, String, Bool, true, false, not, ◌&&◌, List, [], ◌∷◌, total, all,
  if◌then◌else◌, leb, ltb, ◌==◌, eq_iff, eq_refl, ◌≡◌, refl, arith, ◌∙◌, subst, inl, inr,
  Bool-cases,
}
use auditable_scientific_age.Prelude.Dict.{Dict, get_or, get_or-insert, is_in}
use auditable_scientific_age.Evals.Trials.{TrialResult, is_success}
use auditable_scientific_age.Evals.Skills.{
  keys, Tally, zeros, concerns, add_to, count_skill, count_trial, count_trials, judge,
  detail_passed, report_on, verify_skills_integrity,
}

-- The trials of a skill, and those that succeeded.
abbrev pub runs_of : String → List TrialResult → ℕ
runs_of name trials = total (λ t. if concerns name t then 1 else 0) trials

abbrev pub successes_of : String → List TrialResult → ℕ
successes_of name trials = total (λ t. if concerns name t && is_success t then 1 else 0) trials

-- The skill is covered, and its rate of success is at least the baseline's.
abbrev pub retains : List TrialResult → String × ℕ → Bool
retains trials (name, rate) =
    ltb 0 (runs_of name trials)
    && leb (rate * runs_of name trials) (successes_of name trials * 10000)

-- The keys of a dict are distinct.
abbrev pub is_distinct : List String → Bool
is_distinct [] = true
is_distinct (name ∷ names) = not (is_in name names) && is_distinct names

get_or-add_to :
    (h name : String) (n : ℕ) (d : Dict ℕ)
    → get_or h 0 (add_to name n d) ≡ get_or h 0 d + (if name == h then n else 0)
get_or-add_to h name n d = elim (Bool-cases (name == h)) [
  | inl same ↦
      let e : name ≡ h = ground (arith, same, eq_iff name h) in
      get_or-insert name h 0 (get_or name 0 d + n) d
      ∙ rw same (subst (λ k. get_or name 0 d + n ≡ get_or k 0 d + n) e refl)
  | inr other ↦ get_or-insert name h 0 (get_or name 0 d + n) d ∙ rw other (omega arith)
]

judge-retains :
    (rate score count : ℕ)
    → detail_passed (judge rate score count) ≡ (ltb 0 count && leb (rate * count) (score * 10000))
unfolding judge
judge-retains rate score zero = refl
judge-retains rate score (suc n) = ground arith

count_of : String → Tally → ℕ
count_of h t = get_or h 0 t.skill_counts

score_of : String → Tally → ℕ
score_of h t = get_or h 0 t.skill_scores

count_of-count_skill :
    (h name : String) (trial : TrialResult) (t : Tally)
    → count_of h (count_skill trial name t)
      ≡ count_of h t + (if name == h && concerns h trial then 1 else 0)
unfolding count_of count_skill
count_of-count_skill h name trial t =
    ground (arith, eq_iff name h, get_or-add_to h name 1 t.skill_counts)

score_of-count_skill :
    (h name : String) (trial : TrialResult) (t : Tally)
    → score_of h (count_skill trial name t)
      ≡ score_of h t + (if name == h && (concerns h trial && is_success trial) then 1 else 0)
unfolding score_of count_skill
score_of-count_skill h name trial t =
    ground (
      arith,
      eq_iff name h,
      get_or-add_to h name (if is_success trial then 1 else 0) t.skill_scores,
    )

-- One of the two counters of a skill, through both loops.
module _ (h : String) (f : Tally → ℕ) (counted : TrialResult → Bool)
    (f-count_skill : (name : String) (trial : TrialResult) (t : Tally)
      → f (count_skill trial name t) ≡ f t + (if name == h && counted trial then 1 else 0)) where
  f-count_trial :
      (trial : TrialResult) (names : List String) (t : Tally)
      → is_distinct names ≡ true
      → f (count_trial trial names t) ≡ f t + (if is_in h names && counted trial then 1 else 0)
  unfolding count_trial
  f-count_trial trial [] t distinct = omega arith
  f-count_trial trial (name ∷ names) t distinct = elim (Bool-cases (name == h)) [
    | inl same ↦
        let e : name ≡ h = ground (arith, same, eq_iff name h) in
        let out : is_in h names ≡ false =
          subst (λ k. is_in k names ≡ false) e (ground (arith, distinct)) in
        ground (
          arith,
          same,
          out,
          distinct,
          f-count_skill name trial t,
          f-count_trial trial names (count_skill trial name t) (ground (arith, distinct)),
        )
    | inr other ↦ ground (
      arith,
      other,
      distinct,
      f-count_skill name trial t,
      f-count_trial trial names (count_skill trial name t) (ground (arith, distinct)),
    )
  ]

  f-count_trials :
      (trials : List TrialResult) (names : List String) (t : Tally)
      → is_distinct names ≡ true
      → is_in h names ≡ true
      → f (count_trials trials names t)
        ≡ f t + total (λ trial. if counted trial then 1 else 0) trials
  unfolding count_trials
  f-count_trials [] names t distinct there = omega arith
  f-count_trials (trial ∷ trials) names t distinct there = ground (
    arith,
    there,
    f-count_trial trial names t distinct,
    f-count_trials trials names (count_trial trial names t) distinct there,
  )

get_or-zeros : (h : String) (names : List String) → get_or h 0 (zeros names) ≡ 0
get_or-zeros h [] = refl
get_or-zeros h (name ∷ names) = ground (arith, get_or-zeros h names)

abbrev all_zero : List String → Tally
all_zero names = record { skill_scores = zeros names; skill_counts = zeros names }

count_of-count_trials :
    (h : String) (trials : List TrialResult) (names : List String)
    → is_distinct names ≡ true
    → is_in h names ≡ true
    → count_of h (count_trials trials names (all_zero names)) ≡ runs_of h trials
unfolding count_of
count_of-count_trials h trials names distinct there = omega (
  arith,
  get_or-zeros h names,
  f-count_trials h (count_of h) (concerns h) (λ name trial t. count_of-count_skill h name trial t)
      trials names (all_zero names) distinct there,
)

score_of-count_trials :
    (h : String) (trials : List TrialResult) (names : List String)
    → is_distinct names ≡ true
    → is_in h names ≡ true
    → score_of h (count_trials trials names (all_zero names)) ≡ successes_of h trials
unfolding score_of
score_of-count_trials h trials names distinct there = omega (
  arith,
  get_or-zeros h names,
  f-count_trials h (score_of h) (λ t. concerns h t && is_success t)
      (λ name trial t. score_of-count_skill h name trial t) trials names (all_zero names) distinct
      there,
)

report_on-retains :
    (trials : List TrialResult) (names : List String) (baseline : Dict ℕ)
    → is_distinct names ≡ true
    → all (λ name. is_in name names) (keys baseline) ≡ true
    → (report_on baseline (count_trials trials names (all_zero names))).integrity_passed
      ≡ all (retains trials) baseline
unfolding report_on count_of score_of
report_on-retains trials names [] distinct there = refl
report_on-retains trials names ((name, rate) ∷ baseline) distinct there =
    let t = count_trials trials names (all_zero names) in
    let here : is_in name names ≡ true = ground (arith, there) in
    ground (
      arith,
      judge-retains rate (get_or name 0 t.skill_scores) (get_or name 0 t.skill_counts),
      count_of-count_trials name trials names distinct here,
      score_of-count_trials name trials names distinct here,
      report_on-retains trials names baseline distinct (ground (arith, there)),
    )

all-is_in_more :
    (x : String) (xs names : List String)
    → all (λ name. is_in name names) xs ≡ true
    → all (λ name. is_in name (x ∷ names)) xs ≡ true
all-is_in_more x [] names h = refl
all-is_in_more x (y ∷ xs) names h = ground (arith, h, all-is_in_more x xs names)

all-is_in : (names : List String) → all (λ name. is_in name names) names ≡ true
all-is_in [] = refl
all-is_in (x ∷ names) = ground (arith, eq_refl x, all-is_in_more x names names (all-is_in names))

-- For a baseline with distinct skills, the integrity check passes exactly when every skill has at
-- least one trial and its rate of successful trials is at least the baseline's.
pub verify_skills_integrity-retains :
    (baseline_skills : Dict ℕ) (trials : List TrialResult)
    → is_distinct (keys baseline_skills) ≡ true
    → (verify_skills_integrity baseline_skills trials).integrity_passed
      ≡ all (retains trials) baseline_skills
unfolding verify_skills_integrity
verify_skills_integrity-retains baseline_skills trials distinct =
    report_on-retains trials (keys baseline_skills) baseline_skills distinct
      (all-is_in (keys baseline_skills))
