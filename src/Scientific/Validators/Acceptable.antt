-- ===== src/Scientific/Validators/Acceptable.antt =====
-- When the domain validator finds nothing, against a description of an acceptable specification.
use auditable_scientific_age.Prelude.{
  ℕ, zero, suc, ◌+◌, ◌≤◌, String, false, not, ◌&&◌, Option, none, some, List, [], ◌∷◌, ◌++◌, ltb,
  ◌==◌, eq_iff, ◌≡◌, ◌↔◌, refl, inl, inr, ◌⊎◌, arith,
}
use auditable_scientific_age.Prelude.Int.{pos_part, neg_part}
use auditable_scientific_age.Scientific.Modelspec.{ModelSpec, Model, Component, frequency_name}
use auditable_scientific_age.Scientific.Validators.{
  Diagnostic, report_if, model_diagnostics, is_seasonal, is_unset, seasonal_period_missing,
  validate_against,
}

-- An enabled season has a period; the orders are not negative and their sum is at most 12.
abbrev pub ModelIsAcceptable : Model → Type 0
ModelIsAcceptable (Model.seasonal_naive n) = Unit {0}
ModelIsAcceptable (Model.ets m) =
    (m.seasonal ≡ Component.none) ⊎ ((n : ℕ) × (m.seasonal_period ≡ some (suc n)))
ModelIsAcceptable (Model.arima m) =
    (neg_part m.order.p ≡ 0)
    × (neg_part m.order.d ≡ 0)
    × (neg_part m.order.q ≡ 0)
    × (pos_part m.order.p + pos_part m.order.q ≤ 12)

pub record IsAcceptable (spec : ModelSpec) (rows : ℕ) (freq : String) : Type 0 where
  pub frequency : frequency_name spec.target.frequency ≡ freq
  pub model : ModelIsAcceptable spec.model
  pub sample : spec.backtest.initial_window + spec.backtest.horizon ≤ rows

ets-nil :
    (seasonal : Component) (period : Option ℕ)
    → (report_if (is_seasonal seasonal && is_unset period) seasonal_period_missing ≡ [])
      ↔ ((seasonal ≡ Component.none) ⊎ ((n : ℕ) × (period ≡ some (suc n))))
ets-nil Component.none period = ((λ h. inl refl), (λ h. refl))
ets-nil Component.additive none = ((λ h. cc), (λ h. ground arith))
ets-nil Component.additive (some zero) = ((λ h. cc), (λ h. ground arith))
ets-nil Component.additive (some (suc n)) = ((λ h. inr (n, refl)), (λ h. ground arith))

-- The three parts of an empty report.
nils : (xs ys zs : List Diagnostic) → xs ++ (ys ++ zs) ≡ [] → (xs ≡ []) × (ys ≡ []) × (zs ≡ [])
nils [] [] zs h = (refl, refl, h)
nils [] (y ∷ ys) zs h = cc
nils (x ∷ xs) ys zs h = cc

frequency_fits : (a b : String) (d : Diagnostic) → report_if (not (a == b)) d ≡ [] → a ≡ b
frequency_fits a b d h = ground (arith, eq_iff a b)

sample_fits :
    (rows needed : ℕ) (d : Diagnostic) → report_if (ltb rows needed) d ≡ [] → needed ≤ rows
sample_fits rows needed d h = ground arith

no_shortage : (rows needed : ℕ) → needed ≤ rows → ltb rows needed ≡ false
no_shortage rows needed h = ground arith

model_diagnostics-nil : (m : Model) → (model_diagnostics m ≡ []) ↔ ModelIsAcceptable m
unfolding model_diagnostics
model_diagnostics-nil (Model.seasonal_naive n) = ((λ h. tt), (λ h. refl))
model_diagnostics-nil (Model.ets m) = ets-nil m.seasonal m.seasonal_period
model_diagnostics-nil (Model.arima m) = ((λ h. ground arith), (λ h. ground arith))

-- Against an entry of the registry, the validator reports nothing exactly when the specification is
-- acceptable: it declares the dataset's frequency, its model is well-formed, and the initial window
-- and the horizon fit in the dataset's rows.
pub validate_against-nil_iff :
    (spec : ModelSpec) (rows : ℕ) (freq : String)
    → (validate_against spec (rows, freq) ≡ []) ↔ IsAcceptable spec rows freq
unfolding validate_against
validate_against-nil_iff spec rows freq =
    let both = model_diagnostics-nil spec.model in
    (
      (λ h.
          let parts = nils _ _ _ h in
          record {
            frequency = frequency_fits (frequency_name spec.target.frequency) freq _ parts.0;
            model = both.0 parts.1;
            sample = sample_fits rows _ _ parts.2;
          }),
      (λ a. rw (both.1 a.model, (eq_iff _ _).1 a.frequency, no_shortage rows _ a.sample)),
    )
