-- ===== src/Outbox/Transitions.antt =====
-- internal/biz/outbox/model.go: the methods that move an event through its states, and those
-- that judge its retry window. A method returns the event as it leaves it; on an error the event
-- is as it was. A `nil` receiver is `none`.
use ai_go.Common.{Bool, false, not, ◌&&◌, ◌||◌, Option, none, some, [], if◌then◌else◌}
use ai_go.Common.Int.{ℤ, pos, ◌+ℤ◌, leb_ℤ, ltb_ℤ, wrap32}
use ai_go.Common.Text.{Text}
use ai_go.Common.Result.{Result, ok, err, guard, ◌>>◌}
use ai_go.Common.Clock.{Time, zero_time, is_zero, after, sub_time}
use ai_go.Outbox.Event.{
  Error, invalid_event, invalid_transition, Event, AttentionReason, pending, dispatching, delivered,
  failed, needs_attention, is_pending, is_dispatching, is_reconciling, is_needs_attention,
  is_valid_identifier, valid_attention_reason, max_event_age, max_redrive_count, requeue_last_error,
}

unfoldable pub clear_lease : Event → Event
clear_lease e = record e { lease_token = []; lease_owner = []; lease_until = zero_time }

unfoldable pub mark_dispatching : Text → Text → Time → Time → Option Event → Result Error Event
mark_dispatching token owner until now none = err invalid_transition
mark_dispatching token owner until now (some e) = do
  guard (is_pending e.delivery_status || is_reconciling e.delivery_status) invalid_transition
  guard
      (is_valid_identifier token
        && is_valid_identifier owner
        && not (is_zero now)
        && after until now)
      invalid_event
  ok (record e {
    delivery_status = dispatching;
    lease_token = token;
    lease_owner = owner;
    lease_until = until;
    attempt_count = wrap32 (e.attempt_count +ℤ pos 1);
    updated_at = now;
  })

unfoldable pub mark_delivered : Time → Option Event → Result Error Event
unfolding clear_lease
mark_delivered now none = err invalid_transition
mark_delivered now (some e) = do
  guard (is_dispatching e.delivery_status) invalid_transition
  guard (not (is_zero now)) invalid_event
  ok (record (clear_lease e) { delivery_status = delivered; updated_at = now })

unfoldable pub mark_failed : Time → Option Event → Result Error Event
unfolding clear_lease
mark_failed now none = err invalid_transition
mark_failed now (some e) = do
  guard (is_dispatching e.delivery_status) invalid_transition
  guard (not (is_zero now)) invalid_event
  ok (record (clear_lease e) { delivery_status = failed; updated_at = now })

unfoldable pub mark_needs_attention : AttentionReason → Time → Option Event → Result Error Event
unfolding clear_lease
mark_needs_attention _ now none = err invalid_transition
mark_needs_attention reason now (some e) = do
  guard (is_dispatching e.delivery_status) invalid_transition
  guard (not (is_zero now) && valid_attention_reason reason) invalid_event
  ok (record (clear_lease e) {
    delivery_status = needs_attention;
    attention_reason = reason;
    updated_at = now;
  })

unfoldable pub requeue : Time → Option Event → Result Error Event
unfolding clear_lease
requeue next none = err invalid_transition
requeue next (some e) = do
  guard (is_dispatching e.delivery_status) invalid_transition
  guard (not (is_zero next)) invalid_event
  ok (record (clear_lease e) {
    delivery_status = pending;
    next_attempt_at = next;
    last_error = requeue_last_error;
    updated_at = next;
  })

unfoldable pub retry_budget_exhausted : ℤ → ℤ → Bool
retry_budget_exhausted attempt budget = ltb_ℤ (pos 0) budget && leb_ℤ budget attempt

unfoldable pub event_age_exceeded : Time → Time → Bool
event_age_exceeded created now =
    not (is_zero created) && not (is_zero now) && leb_ℤ (pos max_event_age) (sub_time now created)

unfoldable pub attention_window : Option Event → Time × ℤ
attention_window none = (zero_time, pos 0)
attention_window (some e) =
    if is_zero e.redrive_started_at
    then (e.created_at, pos 0)
    else if after e.redrive_started_at e.created_at
    then (e.redrive_started_at, e.redrive_attempt_base)
    else (e.created_at, e.redrive_attempt_base)

unfoldable pub redrive_eligible : Option Event → Bool
redrive_eligible none = false
redrive_eligible (some e) =
    is_needs_attention e.delivery_status && ltb_ℤ e.redrive_count max_redrive_count
