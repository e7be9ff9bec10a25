-- ===== src/Creations/Plan.antt =====
-- internal/biz/creations/model.go (`ValidatePlan`, `isInputDigest`) and usecase.go
-- (`quotaReservationFor`, the steps of `newCreationFacts`, `firstReadyStep`).
use ai_go.Common.{
  ℕ, suc, ◌+◌, ◌/◌, Bool, true, false, not, ◌&&◌, ◌||◌, List, [], ◌∷◌, leb, ◌==◌, if◌then◌else◌,
}
use ai_go.Common.Int.{ℤ, pos, negsuc, ◌-ℤ◌, eqb_ℤ, wrap32}
use ai_go.Common.Text.{Text, codes, is_empty, length}
use ai_go.Common.Result.{Result, ok, err}
use ai_go.Common.Clock.{Time}
use ai_go.Entitlement.{ProductOutput, image, video, GenerationRequest, DailyBenefits}
use ai_go.Ledger.Model.{QuotaReservation}

pub data Error : Type 0 where
  invalid_create_command invalid_step_plan : Error

-- `StepAtom`; every other string is `other_atom`.
pub data StepAtom : Type 0 where
  text_to_image image_edit image_to_video : StepAtom
  other_atom : Text → StepAtom

-- `StepSubmitStatus`, as far as a new step may have it.
pub data StepSubmitStatus : Type 0 where
  ready blocked : StepSubmitStatus
  other_submit_status : Text → StepSubmitStatus

pub record StepPlan : Type 0 where
  pub sequence : ℤ  -- int32
  pub atom : StepAtom

-- The loop of `hasContinuousSequences`, from an index on.
unfoldable pub are_continuous : ℕ → List StepPlan → Bool
are_continuous index [] = true
are_continuous index (step ∷ steps) =
    eqb_ℤ step.sequence (wrap32 (pos (index + 1))) && are_continuous (suc index) steps

unfoldable pub has_continuous_sequences : List StepPlan → Bool
has_continuous_sequences [] = false
has_continuous_sequences (step ∷ steps) = are_continuous 0 (step ∷ steps)

-- The `switch` on the product's output.
unfoldable pub is_allowed_plan : ProductOutput → List StepAtom → Bool
is_allowed_plan image (text_to_image ∷ []) = true
is_allowed_plan image (image_edit ∷ []) = true
is_allowed_plan video (image_to_video ∷ []) = true
is_allowed_plan video (text_to_image ∷ image_to_video ∷ []) = true
is_allowed_plan _ _ = false

abbrev pub atoms : List StepPlan → List StepAtom
atoms [] = []
atoms (step ∷ steps) = step.atom ∷ atoms steps

unfoldable pub validate_plan : GenerationRequest → List StepPlan → Result Error (Unit {0})
validate_plan product plan =
    if not (has_continuous_sequences plan)
    then err invalid_step_plan
    else if is_allowed_plan product.output (atoms plan)
    then ok tt
    else err invalid_step_plan

-- Division of an `int32` by a positive number, towards zero.
abbrev pub quotient : ℤ → ℕ → ℤ
quotient (pos n) d = pos (n / d)
quotient (negsuc n) d = pos 0 -ℤ pos (suc n / d)

-- The kind, the limit and the units of a product, and the reservation they make.
abbrev pub quota_of : Text → Text → ℤ → ℤ → QuotaReservation
quota_of kind date limit units = record {
  kind = kind;
  local_date = date;
  limit = limit;
  units = if eqb_ℤ limit (pos 0) then pos 0 else units;
}

unfoldable pub quota_for_output : ProductOutput → ℤ → DailyBenefits → Result Error QuotaReservation
quota_for_output image duration b =
    ok (quota_of (codes "vip_daily_image") b.local_date b.image_limit (pos 1))
quota_for_output video duration b =
    ok (quota_of (codes "vip_daily_video") b.local_date b.video_limit (quotient duration 5))
quota_for_output (ProductOutput.other t) duration b = err invalid_create_command

unfoldable pub quota_reservation_for :
    GenerationRequest → DailyBenefits → Result Error QuotaReservation
quota_reservation_for product b =
    if is_empty b.local_date
    then err invalid_create_command
    else quota_for_output product.output product.video.duration_seconds b

-- `isInputDigest`: 64 lower-case hexadecimal digits.
unfoldable pub are_hex_digits : Text → Bool
are_hex_digits [] = true
are_hex_digits (c ∷ cs) =
    ((leb b'0' c && leb c b'9') || (leb b'a' c && leb c b'f')) && are_hex_digits cs

unfoldable pub is_input_digest : Text → Bool
is_input_digest value = length value == 64 && are_hex_digits value

-- The IDs of new steps are drawn by google/uuid: `new_id` gives the one of each index. `Route` is
-- the frozen route of internal/biz/creations/execution_route.go.
pub record CreationStep (Route : Type 0) : Type 0 where
  pub id : Text
  pub creation_id : Text
  pub sequence : ℤ
  pub atom : StepAtom
  pub route : Route
  pub submit_status : StepSubmitStatus
  pub created_at : Time

abbrev pub is_ready : StepSubmitStatus → Bool
is_ready ready = true
is_ready _ = false

module _ {Route : Type 0} where
  -- The loop of `newCreationFacts`: the first step is ready, the others wait.
  unfoldable pub new_steps :
      (ℕ → Text) → (ℕ → Route) → Text → Time → ℕ → List StepPlan → List (CreationStep Route)
  new_steps new_id route creation_id now index [] = []
  new_steps new_id route creation_id now index (plan ∷ plans) =
      record {
        id = new_id index;
        creation_id = creation_id;
        sequence = plan.sequence;
        atom = plan.atom;
        route = route index;
        submit_status = if index == 0 then ready else blocked;
        created_at = now;
      }
      ∷ new_steps new_id route creation_id now (suc index) plans

  unfoldable pub first_ready_step : List (CreationStep Route) → Result Error (CreationStep Route)
  first_ready_step [] = err invalid_create_command
  first_ready_step (step ∷ steps) =
      let rest = first_ready_step steps in if is_ready step.submit_status then ok step else rest
