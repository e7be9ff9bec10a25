-- ===== src/Generation/Steps.antt =====
-- The documents, filters and updates of `ApplyProviderTerminal` in
-- internal/data/generation_callback_repository.go. A step leaves out the fields that no call here
-- reads or writes; a field that a filter tells from one that is missing is an `Option`.
use ai_go.Common.{Bool, true, false, ◌&&◌, Option, none, some, [], if◌then◌else◌}
use ai_go.Common.Int.{ℤ, pos, eqb_ℤ}
use ai_go.Common.Text.{Text, eq_text, is_empty}
use ai_go.Common.Result.{Result, ok, err}
use ai_go.Common.Clock.{Time, zero_time}
use ai_go.Mongo.{Collection, Reply, reply, no_reply}
use ai_go.Outbox.Event.{EventType, DeliveryStatus, AttentionReason}
use ai_go.Outbox.Documents.{OutboxEventDocument}
use ai_go.Outbox.Storage.{has_type, without_lease}
use ai_go.Generation.Identity.{
  Error, provider_terminal_conflict, provider_terminal_fence, store_error, ProviderTerminalStatus,
}
use ai_go.Generation.Terminal.{ProviderTerminalFact, ProviderTerminalSlot}

-- `providerTerminalStepDocument` with the fields of its filter.
pub record StepDocument : Type 0 where
  pub provider : Text
  pub account_ref : Text
  pub external_execution_id : Text
  pub atom : Text
  pub creation_id : Text
  pub intent_fence : Option ℤ  -- int32
  pub terminal_version : Option ℤ  -- int64
  pub terminal_status : ProviderTerminalStatus
  pub terminal_result_ref : Text
  pub terminal_digest : Text
  pub terminal_payload_digest : Text
  pub terminal_attempt_fence : Option ℤ  -- int64
  pub terminal_lease_token : Text
  pub terminal_confirmed_at : Time
  pub terminal_quarantined : Bool
  pub terminal_quarantine_reason : Text

pub record Database : Type 1 where
  pub steps : Collection Text StepDocument
  pub events : Collection Text OutboxEventDocument

pub record Tables (db : Database) : Type 0 where
  pub steps : Collection.Store db.steps
  pub events : Collection.Store db.events

-- The fields of the filter beside the ID.
abbrev pub is_step_of : ProviderTerminalFact → StepDocument → Bool
is_step_of fact d =
    eq_text d.provider fact.provider
    && eq_text d.account_ref fact.account_ref
    && eq_text d.external_execution_id fact.external_execution_id
    && eq_text d.atom fact.capability

-- A missing number decodes as 0.
abbrev pub or_zero : Option ℤ → ℤ
or_zero none = pos 0
or_zero (some n) = n

abbrev pub attempt_fence_of : StepDocument → ℤ
attempt_fence_of d =
    if eqb_ℤ (or_zero d.terminal_attempt_fence) (pos 0)
    then or_zero d.intent_fence
    else or_zero d.terminal_attempt_fence

abbrev pub slot_of : ProviderTerminalFact → StepDocument → ProviderTerminalSlot
slot_of fact d = record {
  provider = fact.provider;
  account_ref = fact.account_ref;
  step_id = fact.step_id;
  external_execution_id = fact.external_execution_id;
  capability = fact.capability;
  attempt_fence = attempt_fence_of d;
  lease_token = d.terminal_lease_token;
  terminal_version = or_zero d.terminal_version;
  status = d.terminal_status;
  result_ref = d.terminal_result_ref;
  terminal_digest = d.terminal_digest;
  payload_digest = d.terminal_payload_digest;
  confirmed_at = d.terminal_confirmed_at;
  quarantined = d.terminal_quarantined;
  quarantine_reason = d.terminal_quarantine_reason;
}

-- The checks behind the read of the step.
unfoldable pub slot_or_error :
    ProviderTerminalFact → StepDocument → Result Error (ProviderTerminalSlot × Text)
slot_or_error fact d =
    if eqb_ℤ (attempt_fence_of d) (pos 0)
    then err provider_terminal_fence
    else if is_empty d.creation_id
    then err provider_terminal_conflict
    else ok (slot_of fact d, d.creation_id)

-- `FindOne` by the ID and the fields of the filter.
unfoldable pub step_or_error :
    ProviderTerminalFact → Reply (Option StepDocument) → Result Error (ProviderTerminalSlot × Text)
step_or_error fact no_reply = err store_error
step_or_error fact (reply none) = err provider_terminal_conflict
step_or_error fact (reply (some d)) =
    if is_step_of fact d then slot_or_error fact d else err provider_terminal_conflict

-- The filter and the update of the compare-and-set.
abbrev pub is_equal_to : ℤ → Option ℤ → Bool
is_equal_to n none = false
is_equal_to n (some m) = eqb_ℤ m n

abbrev pub is_missing_or : ℤ → Option ℤ → Bool
is_missing_or n none = true
is_missing_or n (some m) = eqb_ℤ m n

abbrev pub may_commit : ProviderTerminalFact → ProviderTerminalSlot → StepDocument → Bool
may_commit fact slot d =
    is_step_of fact d
    && is_equal_to slot.terminal_version d.terminal_version
    && is_missing_or slot.attempt_fence d.terminal_attempt_fence

abbrev pub committed : ProviderTerminalFact → ProviderTerminalSlot → StepDocument → StepDocument
committed fact updated d = record d {
  terminal_version = some updated.terminal_version;
  terminal_status = updated.status;
  terminal_result_ref = fact.result_ref;
  terminal_digest = updated.terminal_digest;
  terminal_payload_digest = updated.payload_digest;
  terminal_attempt_fence = some updated.attempt_fence;
  terminal_confirmed_at = updated.confirmed_at;
  terminal_quarantined = false;
  terminal_quarantine_reason = [];
  terminal_lease_token =
      if is_empty updated.lease_token then d.terminal_lease_token else updated.lease_token;
}

abbrev pub quarantined_step : Text → StepDocument → StepDocument
quarantined_step reason d = record d {
  terminal_quarantined = true;
  terminal_quarantine_reason = reason;
}

-- The event that a schedule inserts, and the check of one that is there.
abbrev pub scheduled_event : Text → Text → Text → Text → Time → OutboxEventDocument
scheduled_event id creation_id event_type payload at = record {
  id = id;
  aggregate_id = creation_id;
  event_type = EventType.other_type event_type;
  payload = payload;
  delivery_status = DeliveryStatus.pending;
  attempt_count = pos 0;
  next_attempt_at = at;
  lease_token = [];
  lease_until = zero_time;
  lease_owner = [];
  last_error = [];
  attention_reason = AttentionReason.no_reason;
  redrive_started_at = zero_time;
  redrive_attempt_base = pos 0;
  redrive_count = pos 0;
  created_at = at;
  updated_at = at;
  job_id = [];
  terminal_version = pos 0;
}

abbrev pub is_same_event : Text → Text → Text → OutboxEventDocument → Bool
is_same_event creation_id event_type payload d =
    eq_text d.aggregate_id creation_id
    && has_type d.event_type (EventType.other_type event_type)
    && eq_text d.payload payload

abbrev pub delivered_event : ℤ → Time → OutboxEventDocument → OutboxEventDocument
delivered_event version at d = record (without_lease d) {
  delivery_status = DeliveryStatus.delivered;
  terminal_version = version;
  updated_at = at;
}
