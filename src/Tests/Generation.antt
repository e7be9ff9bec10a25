-- ===== src/Tests/Generation.antt =====
-- Terminal facts over collections in memory: runs, and the theorems at concrete stores.
use ai_go.Common.{false, ◌≡◌, refl, none, some, [], ◌++◌, if◌then◌else◌}
use ai_go.Common.Int.{pos, wrap64, ◌+ℤ◌}
use ai_go.Common.Text.{
  Text, codes, eq_text, eq_text_sound, eq_text_refl, is_trimmed, starts_with_space, ends_with_space,
  is_space1, is_space2, is_space3,
}
use ai_go.Common.Case.{UnicodeCase}
use ai_go.Common.Result.{Result, ok}
use ai_go.Common.Clock.{zero_time}
use ai_go.Outbox.Event.{EventType, DeliveryStatus, AttentionReason}
use ai_go.Outbox.Documents.{OutboxEventDocument}
use ai_go.Generation.Identity.{
  store_error, Error, no_status, completed, failed, provider_terminal_identity,
  are_identity_characters, provider_inbox_digest, is_hex, valid_provider_result_ref, has_line_break,
  is_frozen_capability, provider_terminal_summary_digest, provider_result_materialize_event_id,
  provider_inbox_recovery_event_id,
}
use ai_go.Generation.ResultRef.{NetUrl, provider_result_refs_equivalent}
use ai_go.Generation.Terminal.{
  ProviderTerminalFact, ProviderTerminalApplyResult, applied, quarantined, invalid_fact,
  invalid_slot, same_provider_terminal_identity, apply_again, apply_first, apply_to,
  apply_provider_terminal, quarantine_provider_terminal,
}
use ai_go.Generation.Payloads.{
  valid_materialize, marshal_provider_result_materialize_event_payload,
  marshal_provider_reconcile_event_payload,
}
use ai_go.Generation.Steps.{StepDocument, Database, Tables, slot_or_error, step_or_error}
use ai_go.Generation.Storage.{
  Codecs, schedule, commit_provider_terminal, quarantine_step, read_provider_terminal_slot,
  finalize_provider_reconciliation, schedule_provider_result_materialization, hand_off,
  after_commit, persist, attempt_terminal, store_provider_terminal,
}
use ai_go.Generation.Outcome.{Outcome, store_provider_terminal-Outcome}
use ai_go.Generation.Writes.{step_at}
use ai_go.Generation.Ends.{EndsOnce}
use ai_go.Generation.OneEnd.{IsOneEnded, start, then_, Reaches-EndsOnce}
use ai_go.Tests.Memory.{memory, transaction}

abbrev in_memory : Database
in_memory = record {
  steps = memory eq_text eq_text_sound eq_text_refl;
  events = memory eq_text eq_text_sound eq_text_refl;
}

-- Every text has this digest.
abbrev pub constant_digest : Text → Text
constant_digest t = codes "0123456789abcdef0123456789abcdef0123456789abcdef0123456789abcdef"

abbrev ascii_only : UnicodeCase
ascii_only = record { map_lower = λ t. t; map_upper = λ t. t }

abbrev no_urls : NetUrl
no_urls = record { parse = λ t. none; encode = λ q. []; equal_fold = eq_text }

abbrev plain_codecs : Codecs
plain_codecs = record {
  materialize = record {
    marshal = λ p. some (p.creation_id ++ p.result_ref);
    unmarshal = λ t. none;
  };
  settlement = record { marshal = λ p. some p.creation_id; unmarshal = λ t. none };
  reconcile = record { marshal = λ p. some p.step_id; unmarshal = λ t. none };
}

abbrev step : StepDocument
step = record {
  provider = codes "polarstar";
  account_ref = codes "main";
  external_execution_id = codes "job-7";
  atom = codes "text_to_image";
  creation_id = codes "c1";
  intent_fence = some (pos 2);
  terminal_version = some (pos 0);
  terminal_status = no_status;
  terminal_result_ref = [];
  terminal_digest = [];
  terminal_payload_digest = [];
  terminal_attempt_fence = none;
  terminal_lease_token = [];
  terminal_confirmed_at = zero_time;
  terminal_quarantined = false;
  terminal_quarantine_reason = [];
}

abbrev waiting : OutboxEventDocument
waiting = record {
  id = codes "generation.reconcile:s1";
  aggregate_id = codes "c1";
  event_type = EventType.other_type (codes "generation.reconcile");
  payload = codes "s1";
  delivery_status = DeliveryStatus.pending;
  attempt_count = pos 0;
  next_attempt_at = 1;
  lease_token = [];
  lease_until = zero_time;
  lease_owner = [];
  last_error = [];
  attention_reason = AttentionReason.no_reason;
  redrive_started_at = zero_time;
  redrive_attempt_base = pos 0;
  redrive_count = pos 0;
  created_at = 1;
  updated_at = 1;
  job_id = [];
  terminal_version = pos 0;
}

abbrev first : Tables in_memory
first = record {
  steps = λ k. if eq_text k (codes "s1") then some step else none;
  events = λ k. if eq_text k (codes "generation.reconcile:s1") then some waiting else none;
}

abbrev done : ProviderTerminalFact
done = record {
  provider = codes "polarstar";
  account_ref = codes "main";
  step_id = codes "s1";
  external_execution_id = codes "job-7";
  capability = codes "text_to_image";
  status = completed;
  result_ref = codes "https://r/1.png";
  terminal_digest = constant_digest [];
  payload_digest = constant_digest [];
  attempt_fence = pos 2;
  lease_token = [];
  expected_version = pos 0;
  observed_at = 9;
}

abbrev late : ProviderTerminalFact
late = record done { status = failed; result_ref = []; observed_at = 11 }

abbrev run :
    ProviderTerminalFact
    → Tables in_memory
    → Result Error ProviderTerminalApplyResult × Tables in_memory
run fact s =
    (transaction {lost = store_error}).run
      (store_provider_terminal constant_digest ascii_only no_urls plain_codecs in_memory fact) s

abbrev second : Tables in_memory
second = (run done first).1

abbrev third : Tables in_memory
third = (run late second).1

first_is_applied :
    store_provider_terminal constant_digest ascii_only no_urls plain_codecs in_memory done first
    ≡ (ok applied, second)
unfolding store_provider_terminal attempt_terminal persist after_commit hand_off
    read_provider_terminal_slot commit_provider_terminal finalize_provider_reconciliation
    schedule_provider_result_materialization schedule invalid_fact invalid_slot
    apply_provider_terminal apply_to apply_first apply_again same_provider_terminal_identity
    provider_terminal_identity are_identity_characters provider_inbox_digest is_hex
    valid_provider_result_ref has_line_break is_frozen_capability provider_terminal_summary_digest
    provider_result_materialize_event_id provider_inbox_recovery_event_id valid_materialize
    marshal_provider_result_materialize_event_payload marshal_provider_reconcile_event_payload
    slot_or_error step_or_error eq_text is_trimmed starts_with_space ends_with_space is_space1
    is_space2 is_space3 wrap64 ◌+ℤ◌
first_is_applied = refl

late_is_quarantined : (run late second).0 ≡ ok quarantined
unfolding provider_result_refs_equivalent quarantine_provider_terminal quarantine_step
    store_provider_terminal attempt_terminal persist after_commit hand_off
    read_provider_terminal_slot commit_provider_terminal finalize_provider_reconciliation
    schedule_provider_result_materialization schedule invalid_fact invalid_slot
    apply_provider_terminal apply_to apply_first apply_again same_provider_terminal_identity
    provider_terminal_identity are_identity_characters provider_inbox_digest is_hex
    valid_provider_result_ref has_line_break is_frozen_capability provider_terminal_summary_digest
    provider_result_materialize_event_id provider_inbox_recovery_event_id valid_materialize
    marshal_provider_result_materialize_event_payload marshal_provider_reconcile_event_payload
    slot_or_error step_or_error eq_text is_trimmed starts_with_space ends_with_space is_space1
    is_space2 is_space3 wrap64 ◌+ℤ◌
late_is_quarantined = refl

store_provider_terminal-Outcome_example :
    (invalid_fact constant_digest done ≡ false)
    × Outcome constant_digest ascii_only no_urls plain_codecs in_memory done first second applied
store_provider_terminal-Outcome_example =
    store_provider_terminal-Outcome constant_digest ascii_only no_urls plain_codecs in_memory done
      first second applied first_is_applied

-- A failure that arrives behind the result.
Reaches-EndsOnce_example :
    (IsOneEnded in_memory first → IsOneEnded in_memory third)
    × ((k : Text) (d : StepDocument)
        → step_at in_memory first k ≡ some d
        → (d' : StepDocument) × (step_at in_memory third k ≡ some d') × EndsOnce d d')
Reaches-EndsOnce_example =
    Reaches-EndsOnce constant_digest ascii_only no_urls plain_codecs in_memory transaction first
      third
      (then_ {t = second} late (run late second).0
        (then_ {t = first} done (run done first).0 start refl) refl)
