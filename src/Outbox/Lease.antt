-- ===== src/Outbox/Lease.antt =====
-- The calls of internal/data/outbox_repository.go that need the lease of an event.
use ai_go.Common.{Bool, true, some, [], ◌<◌, ◌⊎◌, arith, ◌≡◌, refl, sym, ap, ◌∙◌, ◌≢◌}
use ai_go.Common.Text.{Text, eq_text_sound}
use ai_go.Common.Result.{ok}
use ai_go.Common.Action.{Action, guard-eq-ok}
use ai_go.Common.Clock.{Time, zero_time, stored_time}
use ai_go.Mongo.{Collection, FindAndUpdate, Reply, reply}
use ai_go.Outbox.Event.{
  Event, EventType, AttentionReason, DeliveryStatus, pending, dispatching, reconciling, delivered,
  failed, needs_attention, requeue_last_error, Error, lease_conflict, invalid_event,
}
use ai_go.Outbox.Documents.{OutboxEventDocument}
use ai_go.Outbox.Storage.{
  is_in_flight, is_held_by, is_live, extend_lease, requeue_update, delivered_update, failed_update,
  attention_update, claim_matching, renew_lease, update_claimed, update_one, answer_or, requeue,
  mark_delivered, mark_failed, mark_needs_attention,
}
use ai_go.Outbox.Claim.{IsKeyed, claim_matching-Claimed}

-- One of the calls that an event's lease holder makes.
pub data Settlement : Type 0 where
  renewal : Time → Time → Settlement
  requeuing : Time → Settlement
  delivery : Time → Settlement
  failure : Time → Settlement
  attention : AttentionReason → Time → Settlement

-- What each makes of a document, at the instants as they are stored.
unfoldable pub settled : Settlement → OutboxEventDocument → OutboxEventDocument
settled (renewal now until) d = record d {
  lease_until = stored_time until;
  updated_at = stored_time now;
}
settled (requeuing next) d = record d {
  delivery_status = pending;
  next_attempt_at = stored_time next;
  last_error = requeue_last_error;
  updated_at = stored_time next;
  lease_token = [];
  lease_until = zero_time;
  lease_owner = [];
}
settled (delivery now) d = record d {
  delivery_status = delivered;
  updated_at = stored_time now;
  lease_token = [];
  lease_until = zero_time;
  lease_owner = [];
}
settled (failure now) d = record d {
  delivery_status = failed;
  updated_at = stored_time now;
  lease_token = [];
  lease_until = zero_time;
  lease_owner = [];
}
settled (attention why now) d = record d {
  delivery_status = needs_attention;
  attention_reason = why;
  updated_at = stored_time now;
  lease_token = [];
  lease_until = zero_time;
  lease_owner = [];
}

-- A renewal comes before the lease expires.
abbrev pub IsInTime : Settlement → OutboxEventDocument → Type 0
IsInTime (renewal now until) d = stored_time now < d.lease_until
IsInTime _ d = Unit {0}

module _ (json_valid : Text → Bool) (c : Collection Text OutboxEventDocument)
    (f : FindAndUpdate c) where
  unfoldable pub settle : Settlement → Text → Text → Action (Collection.Store c) Error (Unit {0})
  settle (renewal now until) id token = renew_lease json_valid c f id token now until
  settle (requeuing next) id token = requeue json_valid c f id token next
  settle (delivery now) id token = mark_delivered json_valid c f id token now
  settle (failure now) id token = mark_failed json_valid c f id token now
  settle (attention why now) id token = mark_needs_attention json_valid c f id token why now

  -- The document under `id` was in flight under the token, and is settled by the call.
  pub record SettledBy (o : Settlement) (id token : Text) (s t : Collection.Store c) : Type 0 where
    pub old : OutboxEventDocument
    pub stored : Collection.get c s id ≡ some old
    pub holds : old.lease_token ≡ token
    pub in_flight : is_in_flight old.delivery_status ≡ true
    pub status : (old.delivery_status ≡ dispatching) ⊎ (old.delivery_status ≡ reconciling)
    pub in_time : IsInTime o old
    pub replaced : Collection.get c t id ≡ some (settled o old)
    pub others : (k : Text) → k ≢ id → Collection.get c t k ≡ Collection.get c s k

  answer_or-ok : (e : Error) (x : Reply Bool) → answer_or e x ≡ ok tt → x ≡ reply true
  answer_or-ok e x h = ground arith

  held-facts :
      (token : Text) (d : OutboxEventDocument)
      → is_held_by token d ≡ true
      → (d.lease_token ≡ token) × (is_in_flight d.delivery_status ≡ true)
  held-facts token d h = (eq_text_sound d.lease_token token (ground arith), ground arith)

  live-held :
      (token : Text) (now : Time) (d : OutboxEventDocument)
      → is_live token now d ≡ true
      → is_held_by token d ≡ true
  live-held token now d h = ground arith

  status-in_flight :
      (p : DeliveryStatus) → is_in_flight p ≡ true → (p ≡ dispatching) ⊎ (p ≡ reconciling)
  status-in_flight p h = ground arith

  live-in_time :
      (token : Text) (now : Time) (d : OutboxEventDocument)
      → is_live token now d ≡ true
      → now < d.lease_until
  live-in_time token now d h = ground arith

  update-SettledBy :
      (o : Settlement) (id token : Text) (p : OutboxEventDocument → Bool)
      (u : OutboxEventDocument → OutboxEventDocument) (s t : Collection.Store c)
      → ((d : OutboxEventDocument) → p d ≡ true → is_held_by token d ≡ true)
      → ((d : OutboxEventDocument) → p d ≡ true → IsInTime o d)
      → ((d : OutboxEventDocument) → u d ≡ settled o d)
      → update_one json_valid c f id p u s ≡ (ok tt, t)
      → SettledBy o id token s t
  update-SettledBy o id token p u s t held timely same h =
      let call = Collection.update_one c id p u s in
      let matched = answer_or-ok lease_conflict call.0 (λ i. (h i).0) in
      let (d, stored, passed, replaced, others) =
        Collection.update_one_matched c id p u s t (λ i. (matched i, (h i).1)) in
      let (holds, in_flight) = held-facts token d (held d passed) in
      record {
        old = d;
        stored = stored;
        holds = holds;
        in_flight = in_flight;
        status = status-in_flight d.delivery_status in_flight;
        in_time = timely d passed;
        replaced = replaced ∙ ap some (same d);
        others = others;
      }

  -- A renewal, a requeue, a delivery, a failure or a call for attention that succeeds was made with
  -- the lease token of an event in flight, and a renewal before the lease expired, by the
  -- milliseconds that the database compares. It gives the event the new expiry, or the new status
  -- without a lease, with the time and the reason of the call, and changes no other event.
  pub settle-SettledBy :
      (o : Settlement) (id token : Text) (s t : Collection.Store c)
      → settle o id token s ≡ (ok tt, t)
      → SettledBy o id token s t
  unfolding settle settled renew_lease requeue mark_delivered mark_failed mark_needs_attention
      update_claimed
  settle-SettledBy (renewal now until) id token s t h =
      let p = is_live token (stored_time now) in
      let u = extend_lease (stored_time now) (stored_time until) in
      update-SettledBy (renewal now until) id token p u s t (live-held token (stored_time now))
        (live-in_time token (stored_time now)) (λ d. refl)
        (guard-eq-ok _ invalid_event (update_one json_valid c f id p u) s h).1
  settle-SettledBy (requeuing next) id token s t h =
      let u = requeue_update (stored_time next) in
      update-SettledBy (requeuing next) id token (is_held_by token) u s t (λ d e. e) (λ d e. tt)
        (λ d. refl)
        (guard-eq-ok _ invalid_event (update_one json_valid c f id (is_held_by token) u) s h).1
  settle-SettledBy (delivery now) id token s t h =
      let u = delivered_update (stored_time now) in
      update-SettledBy (delivery now) id token (is_held_by token) u s t (λ d e. e) (λ d e. tt)
        (λ d. refl)
        (guard-eq-ok _ invalid_event (update_one json_valid c f id (is_held_by token) u) s h).1
  settle-SettledBy (failure now) id token s t h =
      let u = failed_update (stored_time now) in
      update-SettledBy (failure now) id token (is_held_by token) u s t (λ d e. e) (λ d e. tt)
        (λ d. refl)
        (guard-eq-ok _ invalid_event (update_one json_valid c f id (is_held_by token) u) s h).1
  settle-SettledBy (attention why now) id token s t h =
      let u = attention_update why (stored_time now) in
      update-SettledBy (attention why now) id token (is_held_by token) u s t (λ d e. e) (λ d e. tt)
        (λ d. refl)
        (guard-eq-ok _ invalid_event (update_one json_valid c f id (is_held_by token) u) s h).1

  token-of : (d d' : OutboxEventDocument) → some d ≡ some d' → d.lease_token ≡ d'.lease_token
  token-of d d' h = ground arith

  -- Once an event has been claimed under a new token, no call with another token succeeds on it: a
  -- worker whose lease was taken over can neither renew it nor settle the event.
  pub settle_stale :
      (worker event_id : Text) (event_type : EventType) (token : Text) (now until : Time)
      (e : Event) (o : Settlement) (stale : Text) (s t u : Collection.Store c)
      → IsKeyed json_valid c f s
      → claim_matching json_valid c f worker event_id event_type (some token) now until s
        ≡ (ok (some e), t)
      → stale ≢ token
      → settle o e.id stale t ≢ (ok tt, u)
  settle_stale worker event_id event_type token now until e o stale s t u keyed h other k =
      let (a, b, one) =
        claim_matching-Claimed json_valid c f worker event_id event_type token now until e s t h in
      let two = settle-SettledBy o e.id stale t u k in
      let id : e.id ≡ one.key = one.returned_id ∙ keyed one.key one.old one.stored in
      other (
        sym two.holds
        ∙ token-of two.old _ (sym two.stored ∙ ap (Collection.get c t) id ∙ one.leased))
