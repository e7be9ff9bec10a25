-- ===== src/Generation/Commit.antt =====
-- `ApplyProviderTerminal` of internal/data/generation_callback_repository.go, when it succeeds.
use ai_go.Common.{Bool, true, false, ◌≡◌, ◌≢◌, refl, ap, ◌∙◌, ◌⊎◌, none, some, [], if◌then◌else◌}
use ai_go.Common.Int.{ℤ, pos, ◌+ℤ◌, wrap64}
use ai_go.Common.Text.{Text, is_empty}
use ai_go.Common.Result.{Result, ok}
use ai_go.Common.Action.{Action, lift, >>=-eq-ok}
use ai_go.Common.Case.{UnicodeCase}
use ai_go.Common.Clock.{zero_time}
use ai_go.Outbox.Event.{EventType, DeliveryStatus, AttentionReason}
use ai_go.Outbox.Documents.{OutboxEventDocument}
use ai_go.Generation.Identity.{
  Error, ProviderTerminalStatus, no_status, completed, provider_inbox_recovery_event_id,
  provider_result_materialize_event_type, provider_terminal_settlement_event_type,
  provider_result_materialize_event_id, provider_terminal_settlement_event_id,
}
use ai_go.Generation.EventIds.{hand_off_id, hand_off_type}
use ai_go.Generation.ResultRef.{NetUrl}
use ai_go.Generation.Terminal.{ProviderTerminalFact, conclude}
use ai_go.Generation.Payloads.{
  marshal_provider_result_materialize_event_payload,
  marshal_provider_terminal_settlement_event_payload,
}
use ai_go.Generation.Steps.{
  StepDocument, Database, Tables, slot_of, is_step_of, or_zero, attempt_fence_of, committed,
}
use ai_go.Generation.Storage.{
  Codecs, materialize_payload, settlement_payload, or_conflict, schedule,
  schedule_provider_result_materialization, schedule_provider_terminal_settlement,
}
use ai_go.Generation.Writes.{Scheduled, step_at, event_at, or_conflict-ok}
use ai_go.Generation.Schedules.{schedule-ok}

module _ (digest : Text → Text) (codecs : Codecs) where
  abbrev pub hand_off_payload :
      ProviderTerminalStatus → ProviderTerminalFact → Text → ℤ → Result Error Text
  hand_off_payload completed fact creation_id version =
      marshal_provider_result_materialize_event_payload digest codecs.materialize (record {
        creation_id = creation_id;
        step_id = fact.step_id;
        provider = fact.provider;
        account_ref = fact.account_ref;
        job_id = fact.external_execution_id;
        capability = fact.capability;
        result_ref = fact.result_ref;
        terminal_version = version;
        terminal_digest = fact.terminal_digest;
      })
  hand_off_payload _ fact creation_id version =
      marshal_provider_terminal_settlement_event_payload digest codecs.settlement (record {
        creation_id = creation_id;
        step_id = fact.step_id;
        provider = fact.provider;
        account_ref = fact.account_ref;
        job_id = fact.external_execution_id;
        capability = fact.capability;
        status = fact.status;
        terminal_version = version;
        terminal_digest = fact.terminal_digest;
      })

-- A step with the conclusion of a fact.
abbrev pub concluded_step : ProviderTerminalFact → StepDocument → StepDocument
concluded_step fact d = record d {
  terminal_version = some (pos 1);
  terminal_status = fact.status;
  terminal_result_ref = fact.result_ref;
  terminal_digest = fact.terminal_digest;
  terminal_payload_digest = fact.payload_digest;
  terminal_attempt_fence = some fact.attempt_fence;
  terminal_confirmed_at = fact.observed_at;
  terminal_quarantined = false;
  terminal_quarantine_reason = [];
}

if_same : {A : Type 0} (b : Bool) (x : A) → (if b then x else x) ≡ x
if_same true x = refl
if_same false x = refl

pub first_version : wrap64 (pos 0 +ℤ pos 1) ≡ pos 1
unfolding wrap64 ◌+ℤ◌
first_version = refl

pub committed-concluded_step :
    (fact : ProviderTerminalFact) (d : StepDocument)
    → or_zero d.terminal_version ≡ pos 0
    → attempt_fence_of d ≡ fact.attempt_fence
    → committed fact (conclude (slot_of fact d) fact) d ≡ concluded_step fact d
committed-concluded_step fact d version fence =
    let one : wrap64 (or_zero d.terminal_version +ℤ pos 1) ≡ pos 1 =
      ap (λ v. wrap64 (v +ℤ pos 1)) version ∙ first_version in
    λ i. record (concluded_step fact d) {
      terminal_version = some (one i);
      terminal_attempt_fence = some (fence i);
      terminal_lease_token = if_same (is_empty d.terminal_lease_token) d.terminal_lease_token i;
    }

module _ (digest : Text → Text) (u : UnicodeCase) (net : NetUrl) (codecs : Codecs)
    (db : Database) where
  -- The hand-over of a conclusion.
  pub record HandedOver (s t : Tables db) (fact : ProviderTerminalFact) (creation_id : Text)
      : Type 0 where
    pub payload : Text
    pub marshalled :
        hand_off_payload digest codecs fact.status fact creation_id (pos 1) ≡ ok payload
    pub scheduled :
        Scheduled db s t
          (hand_off_id fact.status fact.step_id)
          creation_id
          (hand_off_type fact.status)
          payload
          fact.observed_at

  -- A step that had neither conclusion nor quarantine has that of the fact, for the attempt that
  -- the fact names; it is handed over by the one event of its conclusion; and its reconciling event
  -- is delivered. Nothing else changes.
  pub record Concluded (fact : ProviderTerminalFact) (s t : Tables db) : Type 0 where
    pub old : StepDocument
    pub stored : step_at db s fact.step_id ≡ some old
    pub step_of_fact : is_step_of fact old ≡ true
    pub was_open : old.terminal_status ≡ no_status
    pub was_free : old.terminal_quarantined ≡ false
    pub same_attempt : attempt_fence_of old ≡ fact.attempt_fence
    pub concluded : step_at db t fact.step_id ≡ some (concluded_step fact old)
    pub other_steps : (k : Text) → k ≢ fact.step_id → step_at db t k ≡ step_at db s k
    pub payload : Text
    pub marshalled :
        hand_off_payload digest codecs fact.status fact old.creation_id (pos 1) ≡ ok payload
    pub named : is_empty (hand_off_id fact.status fact.step_id) ≡ false
    pub event : OutboxEventDocument
    pub handed_over : event_at db t (hand_off_id fact.status fact.step_id) ≡ some event
    pub same_aggregate : event.aggregate_id ≡ old.creation_id
    pub same_type : event.event_type ≡ EventType.other_type (hand_off_type fact.status)
    pub same_payload : event.payload ≡ payload
    pub origin :
        (event_at db s (hand_off_id fact.status fact.step_id) ≡ some event)
        ⊎ ((event_at db s (hand_off_id fact.status fact.step_id) ≡ none)
            × (event ≡ record {
              id = hand_off_id fact.status fact.step_id;
              aggregate_id = old.creation_id;
              event_type = EventType.other_type (hand_off_type fact.status);
              payload = payload;
              delivery_status = DeliveryStatus.pending;
              attempt_count = pos 0;
              next_attempt_at = fact.observed_at;
              lease_token = [];
              lease_until = zero_time;
              lease_owner = [];
              last_error = [];
              attention_reason = AttentionReason.no_reason;
              redrive_started_at = zero_time;
              redrive_attempt_base = pos 0;
              redrive_count = pos 0;
              created_at = fact.observed_at;
              updated_at = fact.observed_at;
              job_id = [];
              terminal_version = pos 0;
            }))
    pub recovery_named : is_empty (provider_inbox_recovery_event_id fact.step_id) ≡ false
    pub recovery : OutboxEventDocument
    pub was_waiting : event_at db s (provider_inbox_recovery_event_id fact.step_id) ≡ some recovery
    pub delivered :
        event_at db t (provider_inbox_recovery_event_id fact.step_id)
        ≡ some (record recovery {
          delivery_status = DeliveryStatus.delivered;
          terminal_version = pos 1;
          updated_at = fact.observed_at;
          lease_token = [];
          lease_until = zero_time;
          lease_owner = [];
        })
    pub other_events :
        (k : Text)
        → k ≢ hand_off_id fact.status fact.step_id
        → k ≢ provider_inbox_recovery_event_id fact.step_id
        → event_at db t k ≡ event_at db s k

  pub settlement-HandedOver :
      (fact : ProviderTerminalFact) (creation_id : Text) (s t : Tables db)
      → schedule_provider_terminal_settlement digest codecs db fact creation_id (pos 1) s
        ≡ (ok tt, t)
      → (payload : Text) × (marshal_provider_terminal_settlement_event_payload digest
            codecs.settlement
            (settlement_payload fact creation_id (pos 1))
          ≡ ok payload)
        × Scheduled db s t
            (provider_terminal_settlement_event_id fact.step_id)
            creation_id
            provider_terminal_settlement_event_type
            payload
            fact.observed_at
  unfolding schedule_provider_terminal_settlement
  settlement-HandedOver fact creation_id s t h =
      let json =
        marshal_provider_terminal_settlement_event_payload digest codecs.settlement
          (settlement_payload fact creation_id (pos 1)) in
      let rest : Text → Action (Tables db) Error (Unit {0}) = λ payload.
        schedule db (provider_terminal_settlement_event_id fact.step_id) creation_id
          provider_terminal_settlement_event_type payload fact.observed_at in
      let (payload, m, made, k) = >>=-eq-ok (lift (or_conflict json)) rest s h in
      (
        payload,
        or_conflict-ok json payload (ap (λ x. x.0) made),
        schedule-ok db (provider_terminal_settlement_event_id fact.step_id) creation_id
            provider_terminal_settlement_event_type payload fact.observed_at s t
            (ap (rest payload) (ap (λ x. x.1) made) ∙ k),
      )

  pub materialize-HandedOver :
      (fact : ProviderTerminalFact) (creation_id : Text) (s t : Tables db)
      → schedule_provider_result_materialization digest codecs db fact creation_id (pos 1) s
        ≡ (ok tt, t)
      → (payload : Text) × (marshal_provider_result_materialize_event_payload digest
            codecs.materialize
            (materialize_payload fact creation_id (pos 1))
          ≡ ok payload)
        × Scheduled db s t
            (provider_result_materialize_event_id fact.step_id)
            creation_id
            provider_result_materialize_event_type
            payload
            fact.observed_at
  unfolding schedule_provider_result_materialization
  materialize-HandedOver fact creation_id s t h =
      let json =
        marshal_provider_result_materialize_event_payload digest codecs.materialize
          (materialize_payload fact creation_id (pos 1)) in
      let rest : Text → Action (Tables db) Error (Unit {0}) = λ payload.
        schedule db (provider_result_materialize_event_id fact.step_id) creation_id
          provider_result_materialize_event_type payload fact.observed_at in
      let (payload, m, made, k) = >>=-eq-ok (lift (or_conflict json)) rest s h in
      (
        payload,
        or_conflict-ok json payload (ap (λ x. x.0) made),
        schedule-ok db (provider_result_materialize_event_id fact.step_id) creation_id
            provider_result_materialize_event_type payload fact.observed_at s t
            (ap (rest payload) (ap (λ x. x.1) made) ∙ k),
      )
