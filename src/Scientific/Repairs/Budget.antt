-- ===== src/Scientific/Repairs/Budget.antt =====
-- The budget and the audit trail of the repair engine.
use auditable_scientific_age.Prelude.{
  leb, not, ◌||◌, ℕ, ◌+◌, ◌≤◌, Bool, true, false, [], ◌∷◌, ◌++◌, length, ltb, ◌≡◌, refl, inl, inr,
  Bool-cases, arith, subst, sym, ◌∙◌, ltb→lt, length-append, if◌then◌else◌, Option, none, some,
}
use auditable_scientific_age.Prelude.Int.{ℤ}
use auditable_scientific_age.Scientific.Modelspec.{ModelSpec, Model}
use auditable_scientific_age.Scientific.Validators.{Diagnostic, Code}
use auditable_scientific_age.Scientific.Repairs.{
  RepairProposal, BoundedRepairEngine, RepairOutcome, current_attempt, contract_window, strategy,
  attempt_auto_repair,
}

-- One new entry, numbered by its place in the trail.
pub record IsExtension (e e' : BoundedRepairEngine) : Type 0 where
  pub proposal : RepairProposal
  pub appended : e'.repair_history ≡ e.repair_history ++ proposal ∷ []
  pub numbered : proposal.attempt_number ≡ length e.repair_history + 1
  pub same_budget : e'.max_attempts ≡ e.max_attempts

-- What an outcome says of the engine: only a repair changes it, by one entry.
abbrev pub Extends : BoundedRepairEngine → RepairOutcome → Type 0
Extends e (RepairOutcome.repaired spec e') = IsExtension e e'
Extends e RepairOutcome.refused = Unit {0}
Extends e RepairOutcome.type_error = Unit {0}

contract_window-Extends :
    (e : BoundedRepairEngine) (now : ℕ) (spec : ModelSpec) (rows : Option ℤ)
    → Extends e (contract_window e now spec rows)
unfolding contract_window
contract_window-Extends e now spec none = tt
contract_window-Extends e now spec (some rows) = record {
  proposal = _;
  appended = refl;
  numbered = refl;
  same_budget = refl;
}

strategy-Extends :
    (e : BoundedRepairEngine) (now : ℕ) (spec : ModelSpec) (d : Diagnostic) (c : Code) (m : Model)
    → Extends e (strategy e now spec d c m)
unfolding strategy
strategy-Extends e now spec d Code.arima_non_convergence (Model.arima m) = record {
  proposal = _;
  appended = refl;
  numbered = refl;
  same_budget = refl;
}
strategy-Extends e now spec d Code.insufficient_sample m = contract_window-Extends e now spec _
strategy-Extends e now spec d c m = tt

guarded-Extends :
    (e : BoundedRepairEngine) (exhausted repairable : Bool) (o : RepairOutcome)
    → Extends e o
    → Extends e (
        if exhausted
        then RepairOutcome.refused
        else if repairable
        then o
        else RepairOutcome.refused)
guarded-Extends e true repairable o h = tt
guarded-Extends e false true o h = h
guarded-Extends e false false o h = tt

refused≢repaired :
    {spec : ModelSpec} {e : BoundedRepairEngine}
    → RepairOutcome.refused ≡ RepairOutcome.repaired spec e
    → ⊥
refused≢repaired h = cc

-- A repair adds exactly one entry to the audit trail, numbered by its place, and leaves the budget
-- as it was.
pub attempt_auto_repair-Extends :
    (e : BoundedRepairEngine) (now : ℕ) (spec : ModelSpec) (d : Diagnostic)
    → Extends e (attempt_auto_repair e now spec d)
unfolding attempt_auto_repair
attempt_auto_repair-Extends e now spec d =
    guarded-Extends e (ltb e.max_attempts (current_attempt e)) d.repairable
      (strategy e now spec d d.code spec.model) (strategy-Extends e now spec d d.code spec.model)

-- When the trail is as long as the budget, or the diagnostic is not repairable, no repair is made,
-- whatever the diagnostic and the specification are.
pub attempt_auto_repair_refuses :
    (e : BoundedRepairEngine) (now : ℕ) (spec : ModelSpec) (d : Diagnostic)
    → (leb e.max_attempts (length e.repair_history) || not d.repairable) ≡ true
    → attempt_auto_repair e now spec d ≡ RepairOutcome.refused
unfolding attempt_auto_repair
attempt_auto_repair_refuses e now spec d spent = ground arith

IsExtension-length :
    {e e' : BoundedRepairEngine}
    → IsExtension e e'
    → length e'.repair_history ≡ length e.repair_history + 1
IsExtension-length {e} {e'} x =
    rw x.appended (omega (arith, length-append {0} e.repair_history (x.proposal ∷ [])))

-- After a repair the audit trail is longer by one, and no longer than the budget.
pub length-attempt_auto_repair :
    (e e' : BoundedRepairEngine) (now : ℕ) (spec spec' : ModelSpec) (d : Diagnostic)
    → attempt_auto_repair e now spec d ≡ RepairOutcome.repaired spec' e'
    → (length e'.repair_history ≡ length e.repair_history + 1)
      × (length e'.repair_history ≤ e.max_attempts)
length-attempt_auto_repair e e' now spec spec' d h =
    let grown : length e'.repair_history ≡ length e.repair_history + 1 =
      IsExtension-length (subst (Extends e) h (attempt_auto_repair-Extends e now spec d)) in
    elim (Bool-cases (ltb (length e.repair_history) e.max_attempts)) [
      | inl more ↦ (grown, omega (arith, ltb→lt _ _ more))
      | inr spent ↦
          absurd
            (refused≢repaired (sym (attempt_auto_repair_refuses e now spec d (ground arith)) ∙ h))
    ]
