-- ===== src/Outbox/Claim.antt =====
-- What the claims of internal/data/outbox_repository.go hand out, and to whom.
use ai_go.Common.{
  ◌≤◌, ◌<◌, Bool, true, false, not, ◌||◌, Option, none, some, arith, ◌≡◌, refl, sym, ap, ◌∙◌, ◌≢◌,
  ◌⊎◌, inl, inr,
}
use ai_go.Common.Int.{pos, ◌+ℤ◌}
use ai_go.Common.Text.{Text, text-cases, text_before}
use ai_go.Common.Result.{ok, Result-cases}
use ai_go.Common.Action.{guard-eq-ok}
use ai_go.Common.Clock.{Time, is_zero, after, stored_time}
use ai_go.Mongo.{Collection, FindAndUpdate, Reply, reply, no_reply}
use ai_go.Outbox.Event.{
  Event, EventType, DeliveryStatus, dispatching, reconciling, invalid_event, is_valid_identifier,
}
use ai_go.Outbox.Documents.{OutboxEventDocument, to_biz_outbox_event, decode}
use ai_go.Outbox.Storage.{
  is_claimable, claim_filter, due_rank, claimed_status, claim_update, found_event, claim_matching,
}
use ai_go.Outbox.Waiting.{
  IsWaiting, filter-IsWaiting, IsWaiting-filter, due_rank-first, claimed_status-next,
  claim_update-is,
}

module _ (json_valid : Text → Bool) (c : Collection Text OutboxEventDocument)
    (f : FindAndUpdate c) where
  -- Every document stands under its own ID.
  abbrev pub IsKeyed : Collection.Store c → Type 0
  IsKeyed s = (k : Text) (d : OutboxEventDocument) → Collection.get c s k ≡ some d → d.id ≡ k

  -- The event `e` was claimed between two stores, at the instants as they are stored: of all events
  -- that may be taken it is the first, by its due time and then its ID; it now carries the claimer's
  -- lease and one more attempt, and is reconciling where it was being dispatched and else
  -- dispatching; and no other document has changed.
  pub record Claimed (worker event_id : Text) (event_type : EventType) (token : Text)
      (now until : Time) (e : Event) (s t : Collection.Store c) : Type 0 where
    pub key : Text
    pub old : OutboxEventDocument
    pub stored : Collection.get c s key ≡ some old
    pub was_open : is_claimable old.delivery_status ≡ true
    pub was_waiting : IsWaiting event_id event_type now key old
    pub first :
        (k : Text) (d : OutboxEventDocument)
        → Collection.get c s k ≡ some d
        → IsWaiting event_id event_type now k d
        → (old.next_attempt_at < d.next_attempt_at)
          ⊎ ((old.next_attempt_at ≡ d.next_attempt_at) × (text_before d.id old.id ≡ false))
    pub status : DeliveryStatus
    pub next_status :
        ((old.delivery_status ≡ dispatching) × (status ≡ reconciling))
        ⊎ ((old.delivery_status ≢ dispatching) × (status ≡ dispatching))
    pub returned :
        e
        ≡ to_biz_outbox_event (record old {
          delivery_status = status;
          lease_token = token;
          lease_until = until;
          lease_owner = worker;
          updated_at = now;
          attempt_count = old.attempt_count +ℤ pos 1;
        })
    pub returned_id : e.id ≡ old.id
    pub leased :
        Collection.get c t key
        ≡ some (record old {
          delivery_status = status;
          lease_token = token;
          lease_until = until;
          lease_owner = worker;
          updated_at = now;
          attempt_count = old.attempt_count +ℤ pos 1;
        })
    pub others : (k : Text) → k ≢ key → Collection.get c t k ≡ Collection.get c s k

  decode-ok : (d : OutboxEventDocument) (e : Event) → decode d ≡ ok e → e ≡ to_biz_outbox_event d
  unfolding decode
  decode-ok d e h = ground arith

  found_event-some :
      (x : Reply (Option OutboxEventDocument)) (e : Event)
      → found_event x ≡ ok (some e)
      → (d : OutboxEventDocument) × (x ≡ reply (some d)) × (decode d ≡ ok e)
  found_event-some no_reply e h = absurd (cc)
  found_event-some (reply none) e h = absurd (cc)
  found_event-some (reply (some d)) e h = elim (Result-cases (decode d)) [
    | inl (x, p) ↦ (d, refl, ground arith)
    | inr (x, p) ↦ absurd (ground arith)
  ]

  valid-worker :
      (worker : Text) (now until : Time)
      → (not (is_valid_identifier worker) || is_zero now || not (after until now)) ≡ false
      → is_valid_identifier worker ≡ true
  valid-worker worker now until h = ground arith

  after-now :
      (worker : Text) (now until : Time)
      → (not (is_valid_identifier worker) || is_zero now || not (after until now)) ≡ false
      → now < until
  after-now worker now until h = ground arith

  to_biz-id : (d : OutboxEventDocument) → (to_biz_outbox_event d).id ≡ d.id
  unfolding to_biz_outbox_event
  to_biz-id d = refl

  -- A claim that returns an event was made with a valid worker ID and an expiry after now. At the
  -- instants as they are stored, it takes an event that was open, due and under no live lease, of the
  -- type and ID asked for, the first such by its due time and ID; stores it under the claimer's lease
  -- with one more attempt, as reconciling if it was dispatching before and as dispatching else; and
  -- changes nothing else.
  pub claim_matching-Claimed :
      (worker event_id : Text) (event_type : EventType) (token : Text) (now until : Time)
      (e : Event) (s t : Collection.Store c)
      → claim_matching json_valid c f worker event_id event_type (some token) now until s
        ≡ (ok (some e), t)
      → (is_valid_identifier worker ≡ true)
        × (now < until)
        × Claimed worker event_id event_type token (stored_time now) (stored_time until) e s t
  unfolding claim_matching
  claim_matching-Claimed worker event_id event_type token now until e s t h =
      let at = stored_time now in
      let filter = claim_filter event_id event_type at in
      let update = claim_update worker token at (stored_time until) in
      let call = f.find_one_and_update filter due_rank update in
      let (good, h') =
        guard-eq-ok (not (is_valid_identifier worker) || is_zero now || not (after until now))
          invalid_event (λ u. (found_event (call u).0, (call u).1)) s h in
      let (d', e0, read) = found_event-some (call s).0 e (λ i. (h' i).0) in
      let (k, d, stored, accepted, updated, leased, others, first) =
        f.find_one_and_update_found filter due_rank update s t d' (λ i. (e0 i, (h' i).1)) in
      let (was_open, was_waiting) = filter-IsWaiting event_id event_type at k d accepted in
      let becomes = updated ∙ claim_update-is worker token at (stored_time until) d in
      let returned = decode-ok d' e read ∙ ap to_biz_outbox_event becomes in
      (
        valid-worker worker now until good,
        after-now worker now until good,
        record {
          key = k;
          old = d;
          stored = stored;
          was_open = was_open;
          was_waiting = was_waiting;
          first = λ j x there w.
              due_rank-first d x (first j x there (IsWaiting-filter event_id event_type at j x w));
          status = claimed_status d.delivery_status;
          next_status = claimed_status-next d.delivery_status;
          returned = returned;
          returned_id = ap (λ x. x.id) returned ∙ to_biz-id _;
          leased = leased ∙ ap some becomes;
          others = others;
        },
      )

  until-of : (d d' : OutboxEventDocument) → some d ≡ some d' → d.lease_until ≡ d'.lease_until
  until-of d d' h = ground arith

  -- Until the lease of a claimed event expires, by the milliseconds that the database compares, the
  -- next claim, by whichever worker, with whatever token and filter, cannot return that event.
  pub claim_leased :
      (worker event_id : Text) (event_type : EventType) (token : Text) (now until : Time)
      (e : Event) (worker' event_id' : Text) (event_type' : EventType) (token' : Text)
      (now' until' : Time) (e' : Event) (s t u : Collection.Store c)
      → IsKeyed s
      → claim_matching json_valid c f worker event_id event_type (some token) now until s
        ≡ (ok (some e), t)
      → stored_time now' < stored_time until
      → e'.id ≡ e.id
      → claim_matching json_valid c f worker' event_id' event_type' (some token') now' until' t
        ≢ (ok (some e'), u)
  claim_leased worker event_id event_type token now until e worker' event_id' event_type' token'
        now' until' e' s t u keyed h live same k =
      let (a, b, one) = claim_matching-Claimed worker event_id event_type token now until e s t h in
      let (a', b', two) =
        claim_matching-Claimed worker' event_id' event_type' token' now' until' e' t u k in
      let id : e.id ≡ one.key = one.returned_id ∙ keyed one.key one.old one.stored in
      elim (text-cases two.key one.key) [
        | inl key ↦
            let same_document = sym two.stored ∙ ap (Collection.get c t) key ∙ one.leased in
            let free : stored_time until ≤ stored_time now' =
              rw (until-of two.old _ same_document) at two.was_waiting.is_free in
            omega arith
        | inr other ↦ other (
            sym (keyed two.key two.old (sym (one.others two.key other) ∙ two.stored))
            ∙ sym two.returned_id
            ∙ same
            ∙ id)
      ]
