-- ===== src/Tests/Rules.antt =====
-- The theorems on delays, entitlements and events at concrete inputs, and runs of those models.
use ai_go.Common.{
  ◌+◌, ◌*◌, ◌^◌, ◌≤◌, ◌≡◌, refl, ◌↔◌, inl, Bool, true, some, List, [], ◌∷◌, ◌++◌, min, arith,
}
use ai_go.Common.Int.{ℤ, pos, ◌≤ℤ◌}
use ai_go.Common.Text.{Text, codes, eq_text, length, has_prefix, after_prefix, is_trimmed}
use ai_go.Common.Result.{ok, err}
use ai_go.Worker.Backoff.{
  client_error, exponential_backoff, material_upload_backoff, submission_backoff,
}
use ai_go.Worker.Backoff.Bounds.{
  exponential_backoff-exact, material_upload_backoff-exact, submission_backoff_bounds,
}
use ai_go.Entitlement.{
  video, SubscriptionSnapshot, UserSnapshot, GenerationRequest, active, yearly,
  evaluate_generation_at,
}
use ai_go.Entitlement.Gates.{Granted, evaluate_generation_at_iff}
use ai_go.Outbox.Event.{
  Event, new_pending, pending, delivered, is_valid_step_id, are_step_characters, is_step_character,
  submission_event_id, is_valid_submission_event_id, generation_submission_event_prefix,
  is_valid_identifier, max_event_identifier_length, invalid_transition, generation_submission,
  no_reason,
}
use ai_go.Outbox.Identifiers.{is_valid_submission_event_id_iff, submission_event_id_injective}
use ai_go.Outbox.Lifecycle.{
  Call, dispatch, deliver, retry, call, calls, dispatches, IsSound, new_pending-calls-IsSound,
  calls_final, calls-attempts,
}

exponential_backoff-exact_example :
    exponential_backoff (pos 4) ≡ pos (min 300_000_000_000 (10_000_000_000 * 2 ^ 3))
exponential_backoff-exact_example = exponential_backoff-exact 3 (omega arith)

material_upload_backoff-exact_example :
    material_upload_backoff (pos 6) ≡ pos (min 300_000_000_000 (15_000_000_000 * 2 ^ 5))
material_upload_backoff-exact_example = material_upload_backoff-exact 5 (omega arith)

submission_backoff_bounds_example :
    (pos 1_000_000_000 ≤ℤ submission_backoff (pos 2) (client_error (pos 30_000_000_000)))
    × (submission_backoff (pos 2) (client_error (pos 30_000_000_000)) ≤ℤ pos 300_000_000_000)
    × ((r : ℤ)
        → client_error (pos 30_000_000_000) ≡ client_error r
        → r ≤ℤ pos 300_000_000_000
        → r ≤ℤ submission_backoff (pos 2) (client_error (pos 30_000_000_000)))
submission_backoff_bounds_example =
    submission_backoff_bounds (pos 2) (client_error (pos 30_000_000_000))

-- A yearly subscription, two days old.
abbrev subscription : SubscriptionSnapshot
subscription = record {
  status = active;
  billing_period = yearly;
  starts_at = 1;
  expires_at = 400_000_000_000_000;
  created_at = 1;
  updated_at = 1;
}

abbrev user : UserSnapshot
user = record { account_bound = true; timezone = codes "UTC"; subscription = some subscription }

abbrev long_video : GenerationRequest
long_video = record {
  output = video;
  video = record { duration_seconds = pos 15; enable_audio = true; reference_image_count = pos 2 };
}

evaluate_generation_at_iff_example :
    (evaluate_generation_at user long_video 172_800_000_000_000
      ≡ ok (record { price_diamonds = pos 150 }))
    ↔ ((user.account_bound ≡ true)
        × Granted (some subscription) 172_800_000_000_000 video long_video.video (pos 150))
evaluate_generation_at_iff_example =
    evaluate_generation_at_iff user long_video 172_800_000_000_000 (pos 150)

abbrev step : Text
step = codes "step_1"

step_valid : is_valid_step_id step ≡ true
unfolding is_valid_step_id are_step_characters is_step_character
step_valid = refl

is_valid_submission_event_id_iff_example :
    (is_valid_submission_event_id (codes "generation.submission:step_1") ≡ true) ↔ (
      (s : Text) × (is_valid_step_id s ≡ true)
      × (codes "generation.submission:step_1" ≡ generation_submission_event_prefix ++ s))
is_valid_submission_event_id_iff_example =
    is_valid_submission_event_id_iff (codes "generation.submission:step_1")

submission_event_id_injective_example :
    (is_valid_submission_event_id (submission_event_id step) ≡ true)
    × (length (submission_event_id step) ≤ max_event_identifier_length)
    × (submission_event_id step ≡ submission_event_id step → step ≡ step)
submission_event_id_injective_example =
    submission_event_id_injective step step step_valid step_valid

-- The only JSON document here.
abbrev json_valid : Text → Bool
json_valid = eq_text (codes "{}")

abbrev event : Event
event = record {
  id = codes "generation.submission:step_1";
  aggregate_id = codes "c1";
  event_type = generation_submission;
  payload = codes "{}";
  delivery_status = pending;
  attempt_count = pos 0;
  next_attempt_at = 5;
  lease_token = [];
  lease_until = 0;
  lease_owner = [];
  last_error = [];
  attention_reason = no_reason;
  redrive_started_at = 0;
  redrive_attempt_base = pos 0;
  redrive_count = pos 0;
  created_at = 5;
  updated_at = 5;
}

creates :
    new_pending json_valid (codes "generation.submission:step_1") (codes "c1") (codes "{}") 5
    ≡ ok event
unfolding new_pending has_prefix eq_text submission_event_id is_valid_step_id after_prefix
    are_step_characters is_trimmed
creates = refl

abbrev three_calls : List Call
three_calls =
    dispatch (codes "t") (codes "w") 9 6 ∷ retry 8 ∷ dispatch (codes "u") (codes "w") 12 9 ∷ []

new_pending-calls-IsSound_example : IsSound event (calls three_calls event)
new_pending-calls-IsSound_example =
    new_pending-calls-IsSound json_valid (codes "generation.submission:step_1") (codes "c1")
      (codes "{}") 5 three_calls creates

dispatched_twice : dispatches three_calls event ≡ 2
unfolding dispatches call is_trimmed is_valid_identifier
dispatched_twice = refl

calls-attempts_example :
    (calls three_calls event).attempt_count ≡ pos (0 + dispatches three_calls event)
calls-attempts_example = calls-attempts three_calls event 0 refl (rw dispatched_twice (omega arith))

abbrev done_event : Event
done_event = record event { delivery_status = delivered }

calls_final_example :
    (call (deliver 7) done_event ≡ err invalid_transition)
    × (calls three_calls done_event ≡ done_event)
calls_final_example = calls_final (deliver 7) three_calls done_event (inl refl)
