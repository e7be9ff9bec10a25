-- ===== src/Generation/Conclusion.antt =====
-- A conclusion of `ApplyProviderTerminal` in internal/data/generation_callback_repository.go, from the
-- compare-and-set on.
use mathlib.Core.Path.{subst}
use ai_go.Outbox.Event.{EventType}
use ai_go.Outbox.Storage.{has_type}
use ai_go.Outbox.Documents.{OutboxEventDocument}
use ai_go.Common.{true, ◌≡◌, ◌≢◌, ap, sym, ◌∙◌, ◌⊎◌, Option, none, some, arith}
use ai_go.Common.Int.{ℤ, pos, ◌+ℤ◌, wrap64}
use ai_go.Common.Text.{Text, eq_text_sound}
use ai_go.Common.Result.{ok}
use ai_go.Common.Action.{◌>>◌, pure, >>=-eq-ok}
use ai_go.Common.Case.{UnicodeCase}
use ai_go.Generation.Identity.{
  Error, ProviderTerminalStatus, no_status, completed, failed, cancelled, other_status,
  provider_inbox_recovery_event_id,
}
use ai_go.Generation.EventIds.{hand_off_id, hand_off_type, hand_off_id-ne-recovery}
use ai_go.Generation.ResultRef.{NetUrl}
use ai_go.Generation.Terminal.{ProviderTerminalFact, ProviderTerminalSlot, applied}
use ai_go.Generation.Apply.{Concludes}
use ai_go.Generation.Steps.{
  StepDocument, Database, Tables, slot_of, is_step_of, committed, scheduled_event, is_same_event,
}
use ai_go.Generation.Storage.{Codecs, hand_off, finalize_provider_reconciliation}
use ai_go.Generation.Writes.{StepBecomes, Scheduled, step_at}
use ai_go.Generation.Schedules.{finalize-ok}
use ai_go.Generation.Commit.{
  hand_off_payload, first_version, committed-concluded_step, Concluded, settlement-HandedOver,
  materialize-HandedOver,
}

-- Where the event of a hand-over comes from, by what was there before.
abbrev Origin :
    ProviderTerminalFact → Text → Text → OutboxEventDocument → Option OutboxEventDocument → Type 0
Origin fact creation_id payload event before =
    (before ≡ some event)
    ⊎ ((before ≡ none)
        × (event
            ≡ scheduled_event (hand_off_id fact.status fact.step_id) creation_id
                (hand_off_type fact.status) payload fact.observed_at))

pub some-injective : {A : Type 0} (a b : A) → some a ≡ some b → a ≡ b
some-injective a b h = ground arith

same_type_sound :
    (t : EventType) (event_type : Text)
    → has_type t (EventType.other_type event_type) ≡ true
    → t ≡ EventType.other_type event_type
same_type_sound EventType.generation_submission event_type h = absurd (cc)
same_type_sound (EventType.other_type x) event_type h =
    ap EventType.other_type (eq_text_sound x event_type h)

same_event-facts :
    (creation_id event_type payload : Text) (d : OutboxEventDocument)
    → is_same_event creation_id event_type payload d ≡ true
    → (d.aggregate_id ≡ creation_id)
      × (d.event_type ≡ EventType.other_type event_type)
      × (d.payload ≡ payload)
same_event-facts creation_id event_type payload d h = (
  eq_text_sound d.aggregate_id creation_id (ground arith),
  same_type_sound d.event_type event_type (ground arith),
  eq_text_sound d.payload payload (ground arith),
)

module _ (digest : Text → Text) (u : UnicodeCase) (net : NetUrl) (codecs : Codecs)
    (db : Database) where
  hand_off-HandedOver :
      (status : ProviderTerminalStatus) (fact : ProviderTerminalFact) (creation_id : Text)
      (s t : Tables db)
      → hand_off digest codecs db status fact creation_id (pos 1) s ≡ (ok tt, t)
      → (payload : Text) × (hand_off_payload digest codecs status fact creation_id (pos 1)
          ≡ ok payload)
        × Scheduled db s t
            (hand_off_id status fact.step_id)
            creation_id
            (hand_off_type status)
            payload
            fact.observed_at
  unfolding hand_off
  hand_off-HandedOver completed fact creation_id s t h =
      materialize-HandedOver digest u net codecs db fact creation_id s t h
  hand_off-HandedOver no_status fact creation_id s t h =
      settlement-HandedOver digest u net codecs db fact creation_id s t h
  hand_off-HandedOver failed fact creation_id s t h =
      settlement-HandedOver digest u net codecs db fact creation_id s t h
  hand_off-HandedOver cancelled fact creation_id s t h =
      settlement-HandedOver digest u net codecs db fact creation_id s t h
  hand_off-HandedOver (other_status _) fact creation_id s t h =
      settlement-HandedOver digest u net codecs db fact creation_id s t h

  pub committed-Concluded :
      (fact : ProviderTerminalFact) (old : StepDocument) (updated : ProviderTerminalSlot)
      (s m t : Tables db)
      → is_step_of fact old ≡ true
      → Concludes digest u net (slot_of fact old) fact updated
      → StepBecomes db s m fact.step_id old (committed fact updated old)
      → (hand_off digest codecs db updated.status fact old.creation_id updated.terminal_version
            >> (finalize_provider_reconciliation codecs db fact old.creation_id
                  updated.terminal_version
                >> pure applied))
          m
        ≡ (ok applied, t)
      → Concluded digest u net codecs db fact s t
  committed-Concluded fact old updated s m t is c b h =
      let hid = hand_off_id fact.status fact.step_id in
      let rid = provider_inbox_recovery_event_id fact.step_id in
      let status : updated.status ≡ fact.status = ap (λ x. x.status) c.result in
      let version : updated.terminal_version ≡ pos 1 =
        ap (λ x. x.terminal_version) c.result
        ∙ ap (λ v. wrap64 (v +ℤ pos 1)) c.version
        ∙ first_version in
      let hand = λ (st : ProviderTerminalStatus) (v : ℤ).
        hand_off digest codecs db st fact old.creation_id v in
      let finish = λ (v : ℤ).
        finalize_provider_reconciliation codecs db fact old.creation_id v
        >> pure {S = Tables db} {E = Error} applied in
      let h' : (hand fact.status (pos 1) >> finish (pos 1)) m ≡ (ok applied, t) =
        (λ i. (hand (sym status i) (sym version i) >> finish (sym version i)) m) ∙ h in
      let (x, n, handed, k) = >>=-eq-ok (hand fact.status (pos 1)) (λ y. finish (pos 1)) m h' in
      let (payload, marshalled, sch) =
        hand_off-HandedOver fact.status fact old.creation_id m n handed in
      let (y, o, finished, last) =
        >>=-eq-ok (finalize_provider_reconciliation codecs db fact old.creation_id (pos 1))
          (λ z. pure {S = Tables db} {E = Error} applied) n k in
      let fin =
        finalize-ok db codecs fact old.creation_id (pos 1) n t
          (finished ∙ (λ i. (ok tt, (last i).1))) in
      let apart : hid ≢ rid =
        hand_off_id-ne-recovery fact.status fact.step_id fact.step_id sch.named fin.named in
      let right =
        same_event-facts old.creation_id (hand_off_type fact.status) payload sch.event sch.same in
      let steps : step_at db t ≡ step_at db m = fin.same_steps ∙ sch.same_steps in
      record {
        old = old;
        stored = b.stored;
        step_of_fact = is;
        was_open = c.was_open;
        was_free = c.was_free;
        same_attempt = c.fence;
        concluded =
            ap (λ g. g fact.step_id) steps
            ∙ b.replaced
            ∙ ap (λ z. some (committed fact z old)) c.result
            ∙ ap some (committed-concluded_step fact old c.version c.fence);
        other_steps = λ j ne. ap (λ g. g j) steps ∙ b.others j ne;
        payload = payload;
        marshalled = marshalled;
        named = sch.named;
        event = sch.event;
        handed_over = fin.others hid apart ∙ sch.there;
        same_aggregate = right.0;
        same_type = right.1;
        same_payload = right.2;
        origin =
            subst (λ g. Origin fact old.creation_id payload sch.event (g hid)) b.same_events
              sch.origin;
        recovery_named = fin.named;
        recovery = fin.event;
        was_waiting =
            ap (λ g. g rid) (sym b.same_events)
            ∙ sym (sch.others rid (λ e. apart (sym e)))
            ∙ fin.stored;
        delivered = fin.replaced;
        other_events = λ j ne ne'. fin.others j ne' ∙ sch.others j ne ∙ ap (λ g. g j) b.same_events;
      }
