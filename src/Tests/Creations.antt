-- ===== src/Tests/Creations.antt =====
-- The theorems on creations at concrete inputs.
use ai_go.Common.{ℕ, true, List, [], ◌∷◌, ◌≡◌, refl, ◌↔◌, Option, some, arith}
use ai_go.Common.Int.{pos, wrap32}
use ai_go.Common.Text.{Text, codes, is_blank, eq_text}
use ai_go.Common.Result.{ok}
use ai_go.Common.Clock.{Time}
use ai_go.Entitlement.{
  video, SubscriptionSnapshot, active, yearly, UserSnapshot, GenerationRequest,
  evaluate_generation_at, evaluate_output, resolve_video_price, is_vip_at,
  requires_vip_video_capability, resolve_daily_benefits_at, load_stored_timezone, benefits_on,
}
use ai_go.Creations.Plan.{
  StepPlan, text_to_image, image_to_video, validate_plan, has_continuous_sequences, are_continuous,
  is_allowed_plan,
}
use ai_go.Creations.Shapes.{Planned, validate_plan_iff}
use ai_go.Creations.Quota.{Accepted, evaluate_generation_at-Accepted}
use ai_go.Creations.Steps.{Started, new_steps-Started}

abbrev subscription : SubscriptionSnapshot
subscription = record {
  status = active;
  billing_period = yearly;
  starts_at = 1;
  expires_at = 400_000_000_000_000;
  created_at = 1;
  updated_at = 1;
}

abbrev user : UserSnapshot
user = record { account_bound = true; timezone = codes "UTC"; subscription = some subscription }

abbrev product : GenerationRequest
product = record {
  output = video;
  video = record { duration_seconds = pos 15; enable_audio = true; reference_image_count = pos 2 };
}

abbrev plan : List StepPlan
plan =
    record { sequence = pos 1; atom = text_to_image }
    ∷ record { sequence = pos 2; atom = image_to_video }
    ∷ []

accepts : validate_plan product plan ≡ ok tt
unfolding validate_plan has_continuous_sequences are_continuous is_allowed_plan wrap32
accepts = refl

grants :
    evaluate_generation_at user product 172_800_000_000_000
    ≡ ok (record { price_diamonds = pos 150 })
unfolding evaluate_generation_at evaluate_output resolve_video_price is_vip_at
    requires_vip_video_capability
grants = refl

-- One location, in which every instant falls on one day.
abbrev the_location : Text → Option (Unit {0})
the_location name = some tt

abbrev one_day : Unit {0} → Time → Text
one_day l t = codes "2026-01-01"

resolves :
    resolve_daily_benefits_at the_location one_day user 172_800_000_000_000
    ≡ ok (benefits_on (codes "2026-01-01") (some subscription) 172_800_000_000_000)
unfolding resolve_daily_benefits_at load_stored_timezone is_blank eq_text
resolves = refl

validate_plan_iff_example : (validate_plan product plan ≡ ok tt) ↔ Planned video plan
validate_plan_iff_example = validate_plan_iff product plan

evaluate_generation_at-Accepted_example :
    Accepted product
      (benefits_on (codes "2026-01-01") (some subscription) 172_800_000_000_000)
      (codes "c1")
      (codes "ann")
      (pos 150)
      172_800_000_000_000
evaluate_generation_at-Accepted_example =
    evaluate_generation_at-Accepted the_location one_day user product 172_800_000_000_000
      (record { price_diamonds = pos 150 })
      (benefits_on (codes "2026-01-01") (some subscription) 172_800_000_000_000) (codes "c1")
      (codes "ann") (λ l e. absurd (cc)) (λ e. absurd (cc)) (λ e. absurd (cc)) (omega arith) grants
      resolves

abbrev id_at : ℕ → Text
id_at n = n ∷ []

new_steps-Started_example : Started id_at (λ n. n) (codes "c1") 5 plan
new_steps-Started_example = new_steps-Started id_at (λ n. n) (codes "c1") 5 product plan accepts
