-- ===== src/Controller/Spec/Queries.antt =====
-- A specification that passes the check names the query of utilization.
use silver_leaf.Prelude.{
  true, false, none, ◌≡◌, ◌∙◌, ap, arith, str_eq, str_eq_iff, Bool-cases, inl, inr,
}
use silver_leaf.Go.Float.{Float, Format}
use silver_leaf.Api.{OptiScalerSpec}
use silver_leaf.Controller.Spec.{is_blank, target_error, validate_spec}

module _ {F : Type 0} ⦃fl : Float F⦄ ⦃format : Format F⦄ where
  validate_spec-target_error :
      (s : OptiScalerSpec F) → validate_spec s ≡ none → target_error s ≡ none
  unfolding validate_spec
  validate_spec-target_error s h = ground arith

  target_error-is_blank :
      (s : OptiScalerSpec F)
      → target_error s ≡ none
      → is_blank format.trim_space s.metric.utilization_query ≡ false
  unfolding target_error
  target_error-is_blank s h = ground arith

  -- Where trimming leaves the empty text empty, the query is not empty.
  pub validate_spec-utilization_query :
      (s : OptiScalerSpec F)
      → format.trim_space "" ≡ ""
      → validate_spec s ≡ none
      → str_eq s.metric.utilization_query "" ≡ false
  validate_spec-utilization_query s trim valid =
      elim (Bool-cases (str_eq s.metric.utilization_query "")) [
        | inr apart ↦ apart
        | inl same ↦
            let path = (str_eq_iff s.metric.utilization_query "").0 same in
            let blank : is_blank format.trim_space s.metric.utilization_query ≡ true =
              (str_eq_iff (format.trim_space s.metric.utilization_query) "").1
                (ap (λ t. format.trim_space t) path ∙ trim) in
            let filled = target_error-is_blank s (validate_spec-target_error s valid) in
            ground (arith, blank, filled)
      ]
