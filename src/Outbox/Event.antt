-- ===== src/Outbox/Event.antt =====
-- internal/biz/outbox/model.go: the event, its status, and the checks on its fields.
use ai_go.Common.{
  ℕ, ◌+◌, ◌*◌, Bool, true, false, not, ◌&&◌, ◌||◌, Option, none, some, [], ◌∷◌, ◌++◌, ◌==◌, leb,
  if◌then◌else◌,
}
use ai_go.Common.Int.{ℤ, pos, eqb_ℤ}
use ai_go.Common.Text.{Text, codes, eq_text, is_empty, length, has_prefix, after_prefix, is_trimmed}
use ai_go.Common.Result.{Result, ok, err, guard, ◌>>◌}
use ai_go.Common.Clock.{Time, zero_time, is_zero, hour}

pub data Error : Type 0 where
  invalid_event invalid_transition event_already_exists lease_conflict : Error
  invalid_redrive_command redrive_not_eligible redrive_conflict : Error
  database_error : Error

-- `EventType`; every other string is `other_type`.
pub data EventType : Type 0 where
  generation_submission : EventType
  other_type : Text → EventType

-- `DeliveryStatus`; every other string is `other_status`.
pub data DeliveryStatus : Type 0 where
  pending dispatching reconciling delivered failed needs_attention : DeliveryStatus
  other_status : Text → DeliveryStatus

-- `AttentionReason`; the empty string is `no_reason`.
pub data AttentionReason : Type 0 where
  no_reason material_upload_budget event_age : AttentionReason
  other_reason : Text → AttentionReason

pub record Event : Type 0 where
  pub id : Text
  pub aggregate_id : Text
  pub event_type : EventType
  pub payload : Text
  pub delivery_status : DeliveryStatus
  pub attempt_count : ℤ  -- int32
  pub next_attempt_at : Time
  pub lease_token : Text
  pub lease_until : Time
  pub lease_owner : Text
  pub last_error : Text
  pub attention_reason : AttentionReason
  pub redrive_started_at : Time
  pub redrive_attempt_base : ℤ  -- int32
  pub redrive_count : ℤ  -- int32
  pub created_at : Time
  pub updated_at : Time

abbrev pub generation_submission_event_prefix : Text
generation_submission_event_prefix = codes "generation.submission:"

abbrev pub max_event_identifier_length : ℕ
max_event_identifier_length = 512

abbrev pub max_payload_bytes : ℕ
max_payload_bytes = 1_048_576

abbrev pub material_upload_retry_budget : ℤ
material_upload_retry_budget = pos 5

abbrev pub max_event_age : ℕ
max_event_age = 24 * hour

abbrev pub max_redrive_count : ℤ
max_redrive_count = pos 2

abbrev pub requeue_last_error : Text
requeue_last_error = codes "outbox: retry_scheduled"

-- Comparisons of the string types with their constants.
abbrev pub is_pending : DeliveryStatus → Bool
is_pending pending = true
is_pending _ = false

abbrev pub is_dispatching : DeliveryStatus → Bool
is_dispatching dispatching = true
is_dispatching _ = false

abbrev pub is_reconciling : DeliveryStatus → Bool
is_reconciling reconciling = true
is_reconciling _ = false

abbrev pub is_needs_attention : DeliveryStatus → Bool
is_needs_attention needs_attention = true
is_needs_attention _ = false

abbrev pub is_generation_submission : EventType → Bool
is_generation_submission generation_submission = true
is_generation_submission (other_type t) = false

abbrev pub is_no_reason : AttentionReason → Bool
is_no_reason no_reason = true
is_no_reason _ = false

unfoldable pub valid_attention_reason : AttentionReason → Bool
valid_attention_reason material_upload_budget = true
valid_attention_reason event_age = true
valid_attention_reason _ = false

unfoldable pub is_valid_identifier : Text → Bool
is_valid_identifier value =
    not (is_empty value) && is_trimmed value && leb (length value) max_event_identifier_length

-- One byte of a step ID: `a`-`z`, `A`-`Z`, `0`-`9`, `-` or `_`.
unfoldable pub is_step_character : ℕ → Bool
is_step_character c =
    (leb b'a' c && leb c b'z')
    || (leb b'A' c && leb c b'Z')
    || (leb b'0' c && leb c b'9')
    || c == b'-'
    || c == b'_'

-- The loop of `isValidStepID`. It visits the first byte of each rune; the first byte that is not
-- ASCII begins a rune and fails, so that the loop accepts what a visit of every byte accepts.
unfoldable pub are_step_characters : Text → Bool
unfolding is_step_character
are_step_characters [] = true
are_step_characters (c ∷ cs) = is_step_character c && are_step_characters cs

unfoldable pub is_valid_step_id : Text → Bool
is_valid_step_id step =
    if is_empty step
      || not (
          leb (length step + length generation_submission_event_prefix) max_event_identifier_length)
    then false
    else are_step_characters step

unfoldable pub submission_event_id : Text → Text
submission_event_id step =
    if is_valid_step_id step then generation_submission_event_prefix ++ step else []

unfoldable pub is_valid_submission_event_id : Text → Bool
is_valid_submission_event_id id =
    if has_prefix generation_submission_event_prefix id
    then eq_text (submission_event_id (after_prefix generation_submission_event_prefix id)) id
    else false

-- `json.Valid` belongs to Go's encoding/json, and is a parameter.
module _ (json_valid : Text → Bool) where
  unfoldable pub validate_pending : Option Event → Result Error (Unit {0})
  unfolding is_valid_submission_event_id is_valid_identifier
  validate_pending none = err invalid_event
  validate_pending (some e) =
      guard
        (is_valid_submission_event_id e.id
          && is_valid_identifier e.aggregate_id
          && is_generation_submission e.event_type
          && is_pending e.delivery_status
          && eqb_ℤ e.attempt_count (pos 0)
          && not (is_empty e.payload)
          && leb (length e.payload) max_payload_bytes
          && json_valid e.payload
          && not (is_zero e.next_attempt_at)
          && is_empty e.lease_token
          && is_empty e.lease_owner
          && is_zero e.lease_until
          && is_empty e.last_error
          && is_no_reason e.attention_reason
          && not (is_zero e.created_at)
          && not (is_zero e.updated_at))
        invalid_event

  unfoldable pub new_pending : Text → Text → Text → Time → Result Error Event
  unfolding validate_pending
  new_pending id aggregate_id payload now = do
    let event : Event = record {
      id = id;
      aggregate_id = aggregate_id;
      event_type = generation_submission;
      payload = payload;
      delivery_status = pending;
      attempt_count = pos 0;
      next_attempt_at = now;
      lease_token = [];
      lease_until = zero_time;
      lease_owner = [];
      last_error = [];
      attention_reason = no_reason;
      redrive_started_at = zero_time;
      redrive_attempt_base = pos 0;
      redrive_count = pos 0;
      created_at = now;
      updated_at = now;
    }
    validate_pending (some event)
    ok event
