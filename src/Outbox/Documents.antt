-- ===== src/Outbox/Documents.antt =====
-- internal/data/model/outbox.go and the conversions of internal/data/outbox_repository.go. A field
-- that is missing from a stored document reads as Go's zero value, and is not told from it.
use ai_go.Common.{if◌then◌else◌, []}
use ai_go.Common.Int.{ℤ, pos, ltb_ℤ}
use ai_go.Common.Text.{Text}
use ai_go.Common.Result.{Result, ok, err}
use ai_go.Common.Clock.{Time, stored_time}
use ai_go.Outbox.Event.{Event, EventType, DeliveryStatus, AttentionReason, Error, database_error}

pub record OutboxEventDocument : Type 0 where
  pub id : Text
  pub aggregate_id : Text
  pub event_type : EventType
  pub payload : Text
  pub delivery_status : DeliveryStatus
  pub attempt_count : ℤ  -- int32
  pub next_attempt_at : Time
  pub lease_token : Text
  pub lease_until : Time
  pub lease_owner : Text
  pub last_error : Text
  pub attention_reason : AttentionReason
  pub redrive_started_at : Time
  pub redrive_attempt_base : ℤ  -- int32
  pub redrive_count : ℤ  -- int32
  pub created_at : Time
  pub updated_at : Time
  pub job_id : Text
  pub terminal_version : ℤ

unfoldable pub new_outbox_event_document : Event → OutboxEventDocument
new_outbox_event_document e = record {
  id = e.id;
  aggregate_id = e.aggregate_id;
  event_type = e.event_type;
  payload = e.payload;
  delivery_status = e.delivery_status;
  attempt_count = e.attempt_count;
  next_attempt_at = stored_time e.next_attempt_at;
  lease_token = e.lease_token;
  lease_until = stored_time e.lease_until;
  lease_owner = e.lease_owner;
  last_error = e.last_error;
  attention_reason = e.attention_reason;
  redrive_started_at = stored_time e.redrive_started_at;
  redrive_attempt_base = e.redrive_attempt_base;
  redrive_count = e.redrive_count;
  created_at = stored_time e.created_at;
  updated_at = stored_time e.updated_at;
  job_id = [];
  terminal_version = pos 0;
}

unfoldable pub to_biz_outbox_event : OutboxEventDocument → Event
to_biz_outbox_event d = record {
  id = d.id;
  aggregate_id = d.aggregate_id;
  event_type = d.event_type;
  payload = d.payload;
  delivery_status = d.delivery_status;
  attempt_count = d.attempt_count;
  next_attempt_at = d.next_attempt_at;
  lease_token = d.lease_token;
  lease_until = d.lease_until;
  lease_owner = d.lease_owner;
  last_error = d.last_error;
  attention_reason = d.attention_reason;
  redrive_started_at = d.redrive_started_at;
  redrive_attempt_base = d.redrive_attempt_base;
  redrive_count = d.redrive_count;
  created_at = d.created_at;
  updated_at = d.updated_at;
}

-- `Decode`: an attempt count that the database has counted beyond an `int32` is an error.
unfoldable pub decode : OutboxEventDocument → Result Error Event
decode d =
    if ltb_ℤ (pos 2147483647) d.attempt_count
    then err database_error
    else ok (to_biz_outbox_event d)
