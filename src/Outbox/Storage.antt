-- ===== src/Outbox/Storage.antt =====
-- internal/data/outbox_repository.go: the outbox over a MongoDB collection whose key is `_id`.
-- Instants go to the database in whole milliseconds, in filters and updates alike.
-- `newOutboxLeaseToken` draws from crypto/rand: the token is an argument, `none` where that fails.
use ai_go.Common.{
  ℕ, List, Bool, true, false, not, ◌&&◌, ◌||◌, Option, none, some, [], ◌∷◌, leb, ltb,
}
use ai_go.Common.Int.{pos, ◌+ℤ◌, eqb_ℤ}
use ai_go.Common.Text.{Text, eq_text, is_empty}
use ai_go.Common.Result.{Result, ok, err}
use ai_go.Common.Action.{Action, raise, raise_if, lift, ◌>>=◌, ◌>>◌}
use ai_go.Common.Clock.{Time, zero_time, is_zero, after, stored_time}
use ai_go.Mongo.{Collection, FindAndUpdate, Reply, reply, no_reply}
use ai_go.Outbox.Event.{
  Event, EventType, generation_submission, DeliveryStatus, pending, dispatching, reconciling,
  delivered, failed, needs_attention, AttentionReason, no_reason, Error, invalid_event,
  event_already_exists, lease_conflict, invalid_redrive_command, redrive_not_eligible,
  redrive_conflict, database_error, is_valid_identifier, valid_attention_reason, validate_pending,
  requeue_last_error, is_needs_attention,
}
use ai_go.Outbox.Transitions.{redrive_eligible}
use ai_go.Outbox.Redrive.{RedriveCommand, invalid_redrive}
use ai_go.Outbox.Documents.{OutboxEventDocument, new_outbox_event_document, decode}

-- The two statuses under a lease, and the three that may be claimed.
abbrev pub is_in_flight : DeliveryStatus → Bool
is_in_flight dispatching = true
is_in_flight reconciling = true
is_in_flight _ = false

abbrev pub is_claimable : DeliveryStatus → Bool
is_claimable pending = true
is_claimable dispatching = true
is_claimable reconciling = true
is_claimable _ = false

-- `eventType == ""`, and the comparison of a stored type with a type.
abbrev pub is_any_type : EventType → Bool
is_any_type generation_submission = false
is_any_type (EventType.other_type t) = is_empty t

abbrev pub has_type : EventType → EventType → Bool
has_type generation_submission generation_submission = true
has_type (EventType.other_type a) (EventType.other_type b) = eq_text a b
has_type _ _ = false

-- The filter of `claim`.
unfoldable pub claim_filter : Text → EventType → Time → Text → OutboxEventDocument → Bool
claim_filter event_id event_type now id d =
    is_claimable d.delivery_status
    && leb d.next_attempt_at now
    && leb d.lease_until now
    && (is_any_type event_type || has_type d.event_type event_type)
    && (is_empty event_id || eq_text id event_id)

-- The sort by `next_attempt_at`, then `_id`.
unfoldable pub due_rank : OutboxEventDocument → List ℕ
due_rank d = d.next_attempt_at ∷ d.id

-- A takeover of an event that was being dispatched reconciles it.
abbrev pub claimed_status : DeliveryStatus → DeliveryStatus
claimed_status dispatching = reconciling
claimed_status _ = dispatching

unfoldable pub claim_update : Text → Text → Time → Time → OutboxEventDocument → OutboxEventDocument
claim_update worker token now until d = record d {
  delivery_status = claimed_status d.delivery_status;
  lease_token = token;
  lease_until = until;
  lease_owner = worker;
  updated_at = now;
  attempt_count = d.attempt_count +ℤ pos 1;
}

-- The filters and the updates of the calls that need the lease.
abbrev pub is_held_by : Text → OutboxEventDocument → Bool
is_held_by token d = eq_text d.lease_token token && is_in_flight d.delivery_status

abbrev pub is_live : Text → Time → OutboxEventDocument → Bool
is_live token now d = is_held_by token d && ltb now d.lease_until

abbrev pub extend_lease : Time → Time → OutboxEventDocument → OutboxEventDocument
extend_lease now until d = record d { lease_until = until; updated_at = now }

abbrev pub without_lease : OutboxEventDocument → OutboxEventDocument
without_lease d = record d { lease_token = []; lease_until = zero_time; lease_owner = [] }

abbrev pub requeue_update : Time → OutboxEventDocument → OutboxEventDocument
requeue_update next d = record (without_lease d) {
  delivery_status = pending;
  next_attempt_at = next;
  last_error = requeue_last_error;
  updated_at = next;
}

abbrev pub delivered_update : Time → OutboxEventDocument → OutboxEventDocument
delivered_update now d = record (without_lease d) { delivery_status = delivered; updated_at = now }

abbrev pub failed_update : Time → OutboxEventDocument → OutboxEventDocument
failed_update now d = record (without_lease d) { delivery_status = failed; updated_at = now }

abbrev pub attention_update : AttentionReason → Time → OutboxEventDocument → OutboxEventDocument
attention_update why now d = record (without_lease d) {
  delivery_status = needs_attention;
  attention_reason = why;
  updated_at = now;
}

abbrev pub redrive_filter : RedriveCommand → Text → OutboxEventDocument → Bool
redrive_filter c id d =
    eq_text id c.event_id
    && is_needs_attention d.delivery_status
    && eqb_ℤ d.redrive_count c.expected_redrive_count

abbrev pub redrive_update : Event → Time → OutboxEventDocument → OutboxEventDocument
redrive_update event at d = record d {
  delivery_status = pending;
  next_attempt_at = at;
  redrive_started_at = at;
  redrive_attempt_base = event.attempt_count;
  updated_at = at;
  redrive_count = d.redrive_count +ℤ pos 1;
  attention_reason = no_reason;
}

-- What the driver answered, as the methods return it.
abbrev pub answer_or : Error → Reply Bool → Result Error (Unit {0})
answer_or e (reply true) = ok tt
answer_or e (reply false) = err e
answer_or e no_reply = err database_error

abbrev pub found_event : Reply (Option OutboxEventDocument) → Result Error (Option Event)
found_event no_reply = err database_error
found_event (reply none) = ok none
found_event (reply (some d)) = continue_with (decode d)
  where
    continue_with : Result Error Event → Result Error (Option Event)
    continue_with (ok e) = ok (some e)
    continue_with (err e) = err e

abbrev pub event_or_conflict : Reply (Option OutboxEventDocument) → Result Error Event
event_or_conflict no_reply = err database_error
event_or_conflict (reply none) = err redrive_conflict
event_or_conflict (reply (some d)) = decode d

-- `json.Valid` is a parameter, as for the events.
module _ (json_valid : Text → Bool) (c : Collection Text OutboxEventDocument)
    (f : FindAndUpdate c) where
  unfoldable pub enqueue : Option Event → Action (Collection.Store c) Error (Unit {0})
  enqueue none = raise invalid_event
  enqueue (some e) = do
    lift (validate_pending json_valid (some e))
    λ s.
        let x = Collection.insert_one c e.id (new_outbox_event_document e) s in
        (answer_or event_already_exists x.0, x.1)

  -- The private `claim`.
  unfoldable pub claim_matching :
      Text
      → Text
      → EventType
      → Option Text
      → Time
      → Time
      → Action (Collection.Store c) Error (Option Event)
  claim_matching worker event_id event_type none now until = do
    raise_if (not (is_valid_identifier worker) || is_zero now || not (after until now))
        invalid_event
    raise database_error
  claim_matching worker event_id event_type (some token) now until = do
    raise_if (not (is_valid_identifier worker) || is_zero now || not (after until now))
        invalid_event
    λ s.
        let x =
          f.find_one_and_update (claim_filter event_id event_type (stored_time now)) due_rank
            (claim_update worker token (stored_time now) (stored_time until)) s in
        (found_event x.0, x.1)

  unfoldable pub claim :
      Text → Option Text → Time → Time → Action (Collection.Store c) Error (Option Event)
  claim worker token now until = claim_matching worker [] (EventType.other_type []) token now until

  unfoldable pub claim_by_type :
      Text
      → EventType
      → Option Text
      → Time
      → Time
      → Action (Collection.Store c) Error (Option Event)
  claim_by_type worker event_type token now until = do
    raise_if (is_any_type event_type) invalid_event
    claim_matching worker [] event_type token now until

  unfoldable pub claim_by_id_and_type :
      Text
      → Text
      → EventType
      → Option Text
      → Time
      → Time
      → Action (Collection.Store c) Error (Option Event)
  claim_by_id_and_type worker event_id event_type token now until = do
    raise_if (not (is_valid_identifier event_id) || is_any_type event_type) invalid_event
    claim_matching worker event_id event_type token now until

  -- `UpdateOne` and the check of `MatchedCount`.
  abbrev pub update_one :
      Text
      → (OutboxEventDocument → Bool)
      → (OutboxEventDocument → OutboxEventDocument)
      → Action (Collection.Store c) Error (Unit {0})
  update_one event_id p u s =
      let x = Collection.update_one c event_id p u s in (answer_or lease_conflict x.0, x.1)

  unfoldable pub renew_lease :
      Text → Text → Time → Time → Action (Collection.Store c) Error (Unit {0})
  renew_lease event_id token now until = do
    raise_if
        (not (is_valid_identifier event_id)
          || not (is_valid_identifier token)
          || is_zero now
          || not (after until now))
        invalid_event
    update_one event_id (is_live token (stored_time now))
        (extend_lease (stored_time now) (stored_time until))

  unfoldable pub update_claimed :
      Text
      → Text
      → (OutboxEventDocument → OutboxEventDocument)
      → Action (Collection.Store c) Error (Unit {0})
  update_claimed event_id token u = update_one event_id (is_held_by token) u

  unfoldable pub requeue : Text → Text → Time → Action (Collection.Store c) Error (Unit {0})
  requeue event_id token next = do
    raise_if (not (is_valid_identifier event_id) || not (is_valid_identifier token) || is_zero next)
        invalid_event
    update_claimed event_id token (requeue_update (stored_time next))

  unfoldable pub mark_delivered : Text → Text → Time → Action (Collection.Store c) Error (Unit {0})
  mark_delivered event_id token now = do
    raise_if (not (is_valid_identifier event_id) || not (is_valid_identifier token) || is_zero now)
        invalid_event
    update_claimed event_id token (delivered_update (stored_time now))

  unfoldable pub mark_failed : Text → Text → Time → Action (Collection.Store c) Error (Unit {0})
  mark_failed event_id token now = do
    raise_if (not (is_valid_identifier event_id) || not (is_valid_identifier token) || is_zero now)
        invalid_event
    update_claimed event_id token (failed_update (stored_time now))

  unfoldable pub mark_needs_attention :
      Text → Text → AttentionReason → Time → Action (Collection.Store c) Error (Unit {0})
  mark_needs_attention event_id token why now = do
    raise_if
        (not (is_valid_identifier event_id)
          || not (is_valid_identifier token)
          || not (valid_attention_reason why)
          || is_zero now)
        invalid_event
    update_claimed event_id token (attention_update why (stored_time now))

  unfoldable pub find_for_redrive : Text → Action (Collection.Store c) Error Event
  find_for_redrive event_id = do
    raise_if (not (is_valid_identifier event_id)) invalid_redrive_command
    λ s. (event_or_conflict (Collection.find_one c event_id s), s)

  -- `RedriveAttention` on the event that it reads.
  unfoldable pub redrive_found : RedriveCommand → Event → Action (Collection.Store c) Error Event
  redrive_found command event = do
    raise_if (not (is_needs_attention event.delivery_status)) redrive_not_eligible
    raise_if (not (eqb_ℤ event.redrive_count command.expected_redrive_count)) redrive_conflict
    raise_if (not (redrive_eligible (some event))) redrive_not_eligible
    λ s.
        let x =
          f.find_one_and_update (redrive_filter command) (λ d. [])
            (redrive_update event (stored_time command.at)) s in
        (event_or_conflict x.0, x.1)

  unfoldable pub redrive_attention : RedriveCommand → Action (Collection.Store c) Error Event
  redrive_attention command = do
    raise_if (invalid_redrive command) invalid_redrive_command
    event ← λ s. (event_or_conflict (Collection.find_one c command.event_id s), s)
    redrive_found command event
