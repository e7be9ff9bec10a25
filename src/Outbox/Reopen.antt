-- ===== src/Outbox/Reopen.antt =====
-- What `RedriveAttention` of internal/data/outbox_repository.go does to an event.
use ai_go.Common.{
  Bool, true, false, not, Option, none, some, [], arith, ◌≡◌, refl, sym, ap, ◌∙◌, ◌≢◌,
}
use ai_go.Common.Int.{pos, ◌+ℤ◌, ◌<ℤ◌, int_laws}
use ai_go.Common.Text.{Text, eq_text_sound}
use ai_go.Common.Result.{ok}
use ai_go.Common.Action.{guard-eq-ok, >>=-eq-ok}
use ai_go.Common.Clock.{Time, stored_time}
use ai_go.Mongo.{Collection, FindAndUpdate, Reply, reply, no_reply}
use ai_go.Outbox.Event.{Event, pending, needs_attention}
use ai_go.Outbox.Documents.{OutboxEventDocument, to_biz_outbox_event, decode}
use ai_go.Outbox.Event.{
  needs_attention, is_needs_attention, max_redrive_count, redrive_conflict, redrive_not_eligible,
  invalid_redrive_command, no_reason,
}
use ai_go.Outbox.Transitions.{redrive_eligible}
use ai_go.Outbox.Redrive.{RedriveCommand, invalid_redrive}
use ai_go.Outbox.Storage.{
  redrive_filter, redrive_update, event_or_conflict, redrive_found, redrive_attention,
}
use ai_go.Common.Int.{eqb_ℤ}

module _ (json_valid : Text → Bool) (c : Collection Text OutboxEventDocument)
    (f : FindAndUpdate c) where
  -- The event that needed attention is pending again, in a new window that begins at its attempt
  -- count, and has one more redrive.
  pub record Reopened (command : RedriveCommand) (s t : Collection.Store c) : Type 0 where
    pub old : OutboxEventDocument
    pub stored : Collection.get c s command.event_id ≡ some old
    pub needed_attention : old.delivery_status ≡ needs_attention
    pub expected : old.redrive_count ≡ command.expected_redrive_count
    pub below_limit : old.redrive_count <ℤ max_redrive_count
    pub replaced :
        Collection.get c t command.event_id
        ≡ some (record old {
          delivery_status = pending;
          next_attempt_at = stored_time command.at;
          redrive_started_at = stored_time command.at;
          redrive_attempt_base = old.attempt_count;
          updated_at = stored_time command.at;
          redrive_count = old.redrive_count +ℤ pos 1;
          attention_reason = no_reason;
        })
    pub others : (k : Text) → k ≢ command.event_id → Collection.get c t k ≡ Collection.get c s k

  event_or_conflict-ok :
      (x : Reply (Option OutboxEventDocument)) (e : Event)
      → event_or_conflict x ≡ ok e
      → (d : OutboxEventDocument) × (x ≡ reply (some d)) × (decode d ≡ ok e)
  event_or_conflict-ok no_reply e h = absurd (cc)
  event_or_conflict-ok (reply none) e h = absurd (cc)
  event_or_conflict-ok (reply (some d)) e h = (d, refl, h)

  decode-event : (d : OutboxEventDocument) (e : Event) → decode d ≡ ok e → e ≡ to_biz_outbox_event d
  unfolding decode
  decode-event d e h = ground arith

  redrive_filter-facts :
      (command : RedriveCommand) (k : Text) (d : OutboxEventDocument)
      → redrive_filter command k d ≡ true
      → (k ≡ command.event_id)
        × (d.delivery_status ≡ needs_attention)
        × (d.redrive_count ≡ command.expected_redrive_count)
  redrive_filter-facts command k d h =
      (eq_text_sound k command.event_id (ground arith), ground arith, grind int_laws)

  eligible-below :
      (e : Event) → redrive_eligible (some e) ≡ true → e.redrive_count <ℤ max_redrive_count
  unfolding redrive_eligible
  eligible-below e h = ground arith

  not-false : (b : Bool) → not b ≡ false → b ≡ true
  not-false b h = ground arith

  below :
      (event : Event) (d : OutboxEventDocument)
      → event ≡ to_biz_outbox_event d
      → redrive_eligible (some event) ≡ true
      → d.redrive_count <ℤ max_redrive_count
  unfolding to_biz_outbox_event
  below event d same h = rw (ap (λ x. x.redrive_count) same) at (eligible-below event h)

  reopened :
      (d : OutboxEventDocument) (at : Time)
      → redrive_update (to_biz_outbox_event d) at d ≡ record d {
        delivery_status = pending;
        next_attempt_at = at;
        redrive_started_at = at;
        redrive_attempt_base = d.attempt_count;
        updated_at = at;
        redrive_count = d.redrive_count +ℤ pos 1;
        attention_reason = no_reason;
      }
  unfolding to_biz_outbox_event
  reopened d at = refl

  redrive_found-Reopened :
      (command : RedriveCommand) (d0 : OutboxEventDocument) (event e : Event)
      (s t : Collection.Store c)
      → Collection.get c s command.event_id ≡ some d0
      → event ≡ to_biz_outbox_event d0
      → redrive_found json_valid c f command event s ≡ (ok e, t)
      → Reopened command s t
  unfolding redrive_found
  redrive_found-Reopened command d0 event e s t read same h =
      let (a, h1) =
        guard-eq-ok (not (is_needs_attention event.delivery_status)) redrive_not_eligible _ s h in
      let (b, h2) =
        guard-eq-ok (not (eqb_ℤ event.redrive_count command.expected_redrive_count))
          redrive_conflict _ s h1 in
      let (d, h3) = guard-eq-ok (not (redrive_eligible (some event))) redrive_not_eligible _ s h2 in
      let call =
        f.find_one_and_update (redrive_filter command) (λ x. [])
          (redrive_update event (stored_time command.at)) s in
      let (d', found, decoded) = event_or_conflict-ok call.0 e (λ i. (h3 i).0) in
      let (k, old, stored, accepted, updated, replaced, others, first) =
        f.find_one_and_update_found (redrive_filter command) (λ x. [])
          (redrive_update event (stored_time command.at)) s t d' (λ i. (found i, (h3 i).1)) in
      let (key, status, count) = redrive_filter-facts command k old accepted in
      let same_document : old ≡ d0 =
        ground (arith, sym stored ∙ ap (Collection.get c s) key ∙ read) in
      let event_of : event ≡ to_biz_outbox_event old =
        same ∙ ap to_biz_outbox_event (sym same_document) in
      record {
        old = old;
        stored = ap (Collection.get c s) (sym key) ∙ stored;
        needed_attention = status;
        expected = count;
        below_limit = below event old event_of (not-false (redrive_eligible (some event)) d);
        replaced =
            ap (Collection.get c t) (sym key)
            ∙ replaced
            ∙ ap some updated
            ∙ ap (λ x. some (redrive_update x (stored_time command.at) old)) event_of
            ∙ ap some (reopened old (stored_time command.at));
        others = λ j ne. others j (λ e. ne (e ∙ key));
      }

  -- A redrive that succeeds found the event of its valid command in need of attention, redriven as
  -- often as the command says and fewer than two times; it makes it pending again with one more
  -- redrive and a window that starts at the attempts so far, leaves its payload, attempt count and
  -- creation time alone, and changes no other event.
  pub redrive_attention-Reopened :
      (command : RedriveCommand) (e : Event) (s t : Collection.Store c)
      → redrive_attention json_valid c f command s ≡ (ok e, t)
      → (invalid_redrive command ≡ false) × Reopened command s t
  unfolding redrive_attention
  redrive_attention-Reopened command e s t h =
      let (good, h') = guard-eq-ok (invalid_redrive command) invalid_redrive_command _ s h in
      let (event, u, read, k) =
        >>=-eq-ok (λ v. (event_or_conflict (Collection.find_one c command.event_id v), v))
          (redrive_found json_valid c f command) s h' in
      let (d, found, decoded) =
        event_or_conflict-ok (Collection.find_one c command.event_id s) event (λ i. (read i).0) in
      let stored = Collection.find_one_law c command.event_id s (some d) found in
      let unmoved : s ≡ u = λ i. (read i).1 in
      (
        good,
        redrive_found-Reopened command d event e s t (sym stored) (decode-event d event decoded)
            (rw (← unmoved) at k),
      )
