-- ===== src/Creations/Steps.antt =====
-- The steps that internal/biz/creations/usecase.go makes of a plan.
use ai_go.Common.{ℕ, suc, List, [], ◌∷◌, ◌≡◌, refl, if◌then◌else◌}
use ai_go.Common.Int.{pos}
use ai_go.Common.Text.{Text, length}
use ai_go.Common.Result.{ok}
use ai_go.Common.Clock.{Time}
use ai_go.Entitlement.{ProductOutput, GenerationRequest}
use ai_go.Creations.Plan.{
  StepPlan, CreationStep, validate_plan, new_steps, first_ready_step, is_ready,
}
use ai_go.Creations.Shapes.{
  Planned, from_text, from_image, animated, text_animated, validate_plan_iff,
}

-- How many steps may be submitted.
unfoldable pub ready_count : {Route : Type 0} → List (CreationStep Route) → ℕ
ready_count [] = 0
ready_count (step ∷ steps) =
    let rest = ready_count steps in if is_ready step.submit_status then suc rest else rest

module _ {Route : Type 0} (new_id : ℕ → Text) (route : ℕ → Route) (creation_id : Text)
    (now : Time) where
  -- What is made of an accepted plan.
  abbrev pub Started : List StepPlan → Type 0
  Started plan =
      let steps = new_steps new_id route creation_id now 0 plan in
      (step : CreationStep Route) × (first_ready_step steps ≡ ok step)
      × (step.id ≡ new_id 0)
      × (step.sequence ≡ pos 1)
      × (ready_count steps ≡ 1)
      × (length steps ≡ length plan)

  Planned-Started :
      {output : ProductOutput} (plan : List StepPlan) → Planned output plan → Started plan
  unfolding new_steps first_ready_step ready_count
  Planned-Started plan from_text = (_, refl, refl, refl, refl, refl)
  Planned-Started plan from_image = (_, refl, refl, refl, refl, refl)
  Planned-Started plan animated = (_, refl, refl, refl, refl, refl)
  Planned-Started plan text_animated = (_, refl, refl, refl, refl, refl)

  -- Of the steps made of an accepted plan, as many as it has, exactly one is ready, and it is the
  -- first: the step with sequence 1, which the submission event of the creation names.
  pub new_steps-Started :
      (product : GenerationRequest) (plan : List StepPlan)
      → validate_plan product plan ≡ ok tt
      → Started plan
  new_steps-Started product plan h = Planned-Started plan ((validate_plan_iff product plan).0 h)
