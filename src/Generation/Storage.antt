-- ===== src/Generation/Storage.antt =====
-- internal/data/generation_callback_repository.go, `ApplyProviderTerminal` and what it calls: the
-- terminal slot of a creation step and its events, in MongoDB. The calls run in one transaction,
-- and the repository is wired.
use ai_go.Common.{ℕ, suc, zero, Bool, true, false, not, Option, none, some}
use ai_go.Common.Int.{ℤ}
use ai_go.Common.Text.{Text, is_empty}
use ai_go.Common.Result.{Result, ok, err}
use ai_go.Common.Action.{Action, pure, raise, raise_if, lift, ◌>>=◌, ◌>>◌}
use ai_go.Common.Clock.{Time}
use ai_go.Common.Case.{UnicodeCase}
use ai_go.Mongo.{Collection, Reply, reply, no_reply}
use ai_go.Outbox.Documents.{OutboxEventDocument}
use ai_go.Generation.Identity.{
  Error, invalid_provider_terminal, provider_terminal_conflict, provider_terminal_version,
  store_error, ProviderTerminalStatus, completed, provider_result_materialize_event_type,
  provider_terminal_settlement_event_type, provider_reconcile_event_type,
  provider_result_materialize_event_id, provider_terminal_settlement_event_id,
  provider_inbox_recovery_event_id,
}
use ai_go.Generation.ResultRef.{NetUrl}
use ai_go.Generation.Terminal.{
  ProviderTerminalFact, ProviderTerminalSlot, ProviderTerminalApplyResult, no_result, applied, noop,
  quarantined, Applied, invalid_fact, apply_provider_terminal,
}
use ai_go.Generation.Payloads.{
  Json, ProviderResultMaterializeEventPayload, ProviderTerminalSettlementEventPayload,
  ProviderReconcileEventPayload, marshal_provider_result_materialize_event_payload,
  marshal_provider_terminal_settlement_event_payload, marshal_provider_reconcile_event_payload,
}
use ai_go.Generation.Steps.{
  Database, Tables, step_or_error, may_commit, committed, is_equal_to, quarantined_step,
  scheduled_event, is_same_event, delivered_event,
}

abbrev pub provider_terminal_cas_attempts : ℕ
provider_terminal_cas_attempts = 3

-- What the driver answered, as the methods return it.
abbrev pub answer : {A : Type 0} → Reply A → Result Error A
answer no_reply = err store_error
answer (reply a) = ok a

abbrev pub answer_or : Error → Reply Bool → Result Error (Unit {0})
answer_or e no_reply = err store_error
answer_or e (reply true) = ok tt
answer_or e (reply false) = err e

-- An error of the payload is a conflict.
abbrev pub or_conflict : Result Error Text → Result Error Text
or_conflict (ok raw) = ok raw
or_conflict (err e) = err provider_terminal_conflict

-- The payload of a result, and that of a settlement.
abbrev pub materialize_payload :
    ProviderTerminalFact → Text → ℤ → ProviderResultMaterializeEventPayload
materialize_payload fact creation_id version = record {
  creation_id = creation_id;
  step_id = fact.step_id;
  provider = fact.provider;
  account_ref = fact.account_ref;
  job_id = fact.external_execution_id;
  capability = fact.capability;
  result_ref = fact.result_ref;
  terminal_version = version;
  terminal_digest = fact.terminal_digest;
}

abbrev pub settlement_payload :
    ProviderTerminalFact → Text → ℤ → ProviderTerminalSettlementEventPayload
settlement_payload fact creation_id version = record {
  creation_id = creation_id;
  step_id = fact.step_id;
  provider = fact.provider;
  account_ref = fact.account_ref;
  job_id = fact.external_execution_id;
  capability = fact.capability;
  status = fact.status;
  terminal_version = version;
  terminal_digest = fact.terminal_digest;
}

pub record Codecs : Type 0 where
  pub materialize : Json ProviderResultMaterializeEventPayload
  pub settlement : Json ProviderTerminalSettlementEventPayload
  pub reconcile : Json ProviderReconcileEventPayload

module _ (db : Database) where
  -- `InsertOne` and `UpdateOne` on the events.
  abbrev pub insert_event : Text → OutboxEventDocument → Action (Tables db) Error (Unit {0})
  insert_event id d s =
      let x = Collection.insert_one db.events id d s.events in
      (answer_or provider_terminal_conflict x.0, record s { events = x.1 })

  -- The event of a schedule: one that is there must be the same.
  abbrev pub insert_unless :
      Text
      → Text
      → Text
      → Text
      → Time
      → Option OutboxEventDocument
      → Action (Tables db) Error (Unit {0})
  insert_unless id creation_id event_type payload at none =
      insert_event id (scheduled_event id creation_id event_type payload at)
  insert_unless id creation_id event_type payload at (some d) =
      raise_if (not (is_same_event creation_id event_type payload d)) provider_terminal_conflict

  unfoldable pub schedule : Text → Text → Text → Text → Time → Action (Tables db) Error (Unit {0})
  schedule id creation_id event_type payload at = do
    raise_if (is_empty id) provider_terminal_conflict
    found ← λ s. (answer (Collection.find_one db.events id s.events), s)
    insert_unless id creation_id event_type payload at found

  unfoldable pub commit_provider_terminal :
      ProviderTerminalFact
      → ProviderTerminalSlot
      → ProviderTerminalSlot
      → Action (Tables db) Error Bool
  commit_provider_terminal fact slot updated s =
      let x =
        Collection.update_one db.steps fact.step_id (may_commit fact slot) (committed fact updated)
          s.steps in
      (answer x.0, record s { steps = x.1 })

  -- The private `quarantineProviderTerminal` of the repository.
  unfoldable pub quarantine_step : Text → ℤ → Text → Action (Tables db) Error (Unit {0})
  quarantine_step step_id version reason s =
      let x =
        Collection.update_one db.steps step_id (λ d. is_equal_to version d.terminal_version)
          (quarantined_step reason) s.steps in
      (answer_or provider_terminal_version x.0, record s { steps = x.1 })

  unfoldable pub read_provider_terminal_slot :
      ProviderTerminalFact → Action (Tables db) Error (ProviderTerminalSlot × Text)
  read_provider_terminal_slot fact s =
      (step_or_error fact (Collection.find_one db.steps fact.step_id s.steps), s)

module _ (codecs : Codecs) (db : Database) where
  unfoldable pub finalize_provider_reconciliation :
      ProviderTerminalFact → Text → ℤ → Action (Tables db) Error (Unit {0})
  finalize_provider_reconciliation fact creation_id version = do
    raise_if (is_empty (provider_inbox_recovery_event_id fact.step_id)) invalid_provider_terminal
    payload ← lift (
        or_conflict
          (marshal_provider_reconcile_event_payload codecs.reconcile creation_id fact.step_id))
    λ s.
        let x =
          Collection.update_one db.events (provider_inbox_recovery_event_id fact.step_id)
            (is_same_event creation_id provider_reconcile_event_type payload)
            (delivered_event version fact.observed_at) s.events in
        (answer_or provider_terminal_conflict x.0, record s { events = x.1 })

module _ (digest : Text → Text) (codecs : Codecs) (db : Database) where
  unfoldable pub schedule_provider_result_materialization :
      ProviderTerminalFact → Text → ℤ → Action (Tables db) Error (Unit {0})
  schedule_provider_result_materialization fact creation_id version = do
    payload ← lift (
        or_conflict (
          marshal_provider_result_materialize_event_payload digest codecs.materialize
            (materialize_payload fact creation_id version)))
    schedule db (provider_result_materialize_event_id fact.step_id) creation_id
        provider_result_materialize_event_type payload fact.observed_at

  unfoldable pub schedule_provider_terminal_settlement :
      ProviderTerminalFact → Text → ℤ → Action (Tables db) Error (Unit {0})
  schedule_provider_terminal_settlement fact creation_id version = do
    payload ← lift (
        or_conflict (
          marshal_provider_terminal_settlement_event_payload digest codecs.settlement
            (settlement_payload fact creation_id version)))
    schedule db (provider_terminal_settlement_event_id fact.step_id) creation_id
        provider_terminal_settlement_event_type payload fact.observed_at

  -- What follows a conclusion.
  unfoldable pub hand_off :
      ProviderTerminalStatus → ProviderTerminalFact → Text → ℤ → Action (Tables db) Error (Unit {0})
  hand_off completed fact creation_id version =
      schedule_provider_result_materialization fact creation_id version
  hand_off _ fact creation_id version =
      schedule_provider_terminal_settlement fact creation_id version

module _ (digest : Text → Text) (u : UnicodeCase) (net : NetUrl) (codecs : Codecs)
    (db : Database) where
  -- Behind the compare-and-set: another attempt where it missed, else the events.
  unfoldable pub after_commit :
      Action (Tables db) Error ProviderTerminalApplyResult
      → ProviderTerminalFact
      → Text
      → ProviderTerminalSlot
      → Bool
      → Action (Tables db) Error ProviderTerminalApplyResult
  after_commit again fact creation_id updated false = again
  after_commit again fact creation_id updated true = do
    hand_off digest codecs db updated.status fact creation_id updated.terminal_version
    finalize_provider_reconciliation codecs db fact creation_id updated.terminal_version
    pure applied

  unfoldable pub persist :
      Action (Tables db) Error ProviderTerminalApplyResult
      → ProviderTerminalFact
      → ProviderTerminalSlot
      → Text
      → Applied
      → Action (Tables db) Error ProviderTerminalApplyResult
  persist again fact slot creation_id (updated, noop, e) = pure noop
  persist again fact slot creation_id (updated, quarantined, e) = do
    quarantine_step db fact.step_id slot.terminal_version updated.quarantine_reason
    pure quarantined
  persist again fact slot creation_id (updated, applied, e) = do
    matched ← commit_provider_terminal db fact slot updated
    after_commit again fact creation_id updated matched
  persist again fact slot creation_id (updated, no_result, none) = pure no_result
  persist again fact slot creation_id (updated, no_result, some e) = raise e

  -- The loop, with the attempts that are left.
  unfoldable pub attempt_terminal :
      ℕ → ProviderTerminalFact → Action (Tables db) Error ProviderTerminalApplyResult
  attempt_terminal zero fact = raise provider_terminal_version
  attempt_terminal (suc attempts) fact = do
    read ← read_provider_terminal_slot db fact
    persist (attempt_terminal attempts fact) fact read.0 read.1
        (apply_provider_terminal digest u net (some read.0) fact)

  unfoldable pub store_provider_terminal :
      ProviderTerminalFact → Action (Tables db) Error ProviderTerminalApplyResult
  store_provider_terminal fact = do
    raise_if (invalid_fact digest fact) invalid_provider_terminal
    attempt_terminal provider_terminal_cas_attempts fact
