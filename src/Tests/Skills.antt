-- ===== src/Tests/Skills.antt =====
-- A catalog of two skills, and a query that names neither.
use auditable_scientific_age.Prelude.{ℕ, ◌+◌, ◌/◌, String, List, [], ◌∷◌, ltb, refl}
use auditable_scientific_age.Retrieval.Fusion.{Scores}
use auditable_scientific_age.Skills.{SkillMetadata, skill_chunk, select_and_activate}
use auditable_scientific_age.Skills.Activation.{select_and_activate-Chooses, Chooses}

abbrev shares : Scores
shares = record {
  Score = ℕ;
  nothing = 0;
  share = λ rank. 1000000 / (60 + rank);
  plus = λ a b. a + b;
  is_above = λ a b. ltb b a;
  round6 = λ a. a;
  boost = λ a. a + 50000;
}

abbrev skill_of : String → String → SkillMetadata
skill_of name description = record {
  name = name;
  description = description;
  root_path = name;
  allowed_tools = "run_approved_script" ∷ [];
}

abbrev skills : List SkillMetadata
skills =
    skill_of "arima-diagnosis" "Check the orders of a model"
    ∷ skill_of "rolling-backtest" "Test a forecast on past windows"
    ∷ []

select_and_activate-Chooses_example :
    Chooses skills "How good is my forecast?"
      (skill_chunk (skill_of "rolling-backtest" "Test a forecast on past windows") ∷ [])
      (select_and_activate
        (λ path. "Read the data first.")
        shares
        skills
        "How good is my forecast?"
        (skill_chunk (skill_of "rolling-backtest" "Test a forecast on past windows") ∷ [])
        [])
select_and_activate-Chooses_example =
    select_and_activate-Chooses (λ path. "Read the data first.") shares skills
      "How good is my forecast?"
      (skill_chunk (skill_of "rolling-backtest" "Test a forecast on past windows") ∷ []) [] refl
      refl
