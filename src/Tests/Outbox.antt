-- ===== src/Tests/Outbox.antt =====
-- The outbox over a collection of one event: runs, and the theorems on it.
use ai_go.Common.{◌<◌, Bool, true, false, ◌≡◌, refl, sym, ◌∙◌, ◌≢◌, some, arith, []}
use ai_go.Common.Int.{pos, ◌+ℤ◌}
use ai_go.Common.Text.{Text, codes, eq_text, is_trimmed}
use ai_go.Common.Result.{ok}
use ai_go.Common.Clock.{stored_time}
use ai_go.Outbox.Event.{
  generation_submission, pending, dispatching, needs_attention, no_reason, event_age,
  is_valid_identifier, valid_attention_reason,
}
use ai_go.Outbox.Redrive.{RedriveCommand, invalid_redrive, valid_redrive_text}
use ai_go.Outbox.Transitions.{redrive_eligible}
use ai_go.Outbox.Documents.{OutboxEventDocument, to_biz_outbox_event, decode}
use ai_go.Outbox.Storage.{
  claim_matching, claim_filter, claim_update, mark_needs_attention, update_claimed,
  redrive_attention, redrive_found,
}
use ai_go.Outbox.Claim.{Claimed, claim_matching-Claimed, claim_leased}
use ai_go.Outbox.Lease.{delivery, attention, settle, SettledBy, settle-SettledBy, settle_stale}
use ai_go.Outbox.Reopen.{Reopened, redrive_attention-Reopened}
use ai_go.Outbox.Evolves.{Evolves}
use ai_go.Outbox.Runs.{start, then_, claimed, settles, redriven, Run-Evolves}
use ai_go.Tests.Slot.{slot, slot_claims, lookup-some}

abbrev json_valid : Text → Bool
json_valid = eq_text (codes "{}")

abbrev id : Text
id = codes "generation.submission:s"

abbrev waiting : OutboxEventDocument
waiting = record {
  id = id;
  aggregate_id = codes "c1";
  event_type = generation_submission;
  payload = codes "{}";
  delivery_status = pending;
  attempt_count = pos 0;
  next_attempt_at = 5_000_000;
  lease_token = [];
  lease_until = 0;
  lease_owner = [];
  last_error = [];
  attention_reason = no_reason;
  redrive_started_at = 0;
  redrive_attempt_base = pos 0;
  redrive_count = pos 0;
  created_at = 5_000_000;
  updated_at = 5_000_000;
  job_id = [];
  terminal_version = pos 0;
}

abbrev leased : OutboxEventDocument
leased = record waiting {
  delivery_status = dispatching;
  lease_token = codes "t";
  lease_until = 16_000_000;
  lease_owner = codes "w";
  attempt_count = pos 1;
  updated_at = 6_000_000;
}

abbrev attended : OutboxEventDocument
attended = record waiting {
  delivery_status = needs_attention;
  attention_reason = event_age;
  attempt_count = pos 1;
  updated_at = 7_000_000;
}

abbrev opened_again : OutboxEventDocument
opened_again = record waiting {
  next_attempt_at = 8_000_000;
  redrive_started_at = 8_000_000;
  redrive_attempt_base = pos 1;
  redrive_count = pos 1;
  attempt_count = pos 1;
  updated_at = 8_000_000;
}

claims :
    claim_matching json_valid
      (slot id)
      (slot_claims id)
      (codes "w")
      []
      generation_submission
      (some (codes "t"))
      6_000_000
      16_000_000
      (some waiting)
    ≡ (ok (some (to_biz_outbox_event leased)), some leased)
unfolding claim_matching claim_filter claim_update decode to_biz_outbox_event is_valid_identifier
    is_trimmed eq_text ◌+ℤ◌ stored_time
claims = refl

attends :
    settle json_valid
      (slot id)
      (slot_claims id)
      (attention event_age 7_000_000)
      id
      (codes "t")
      (some leased)
    ≡ (ok tt, some attended)
unfolding settle mark_needs_attention update_claimed is_valid_identifier is_trimmed eq_text
    valid_attention_reason stored_time
attends = refl

abbrev command : RedriveCommand
command = record {
  event_id = id;
  expected_redrive_count = pos 0;
  actor_id = codes "ann";
  reason = codes "checked";
  key = codes "k1";
  at = 8_000_000;
}

redrives :
    redrive_attention json_valid (slot id) (slot_claims id) command (some attended)
    ≡ (ok (to_biz_outbox_event opened_again), some opened_again)
unfolding redrive_attention redrive_found invalid_redrive valid_redrive_text is_trimmed eq_text
    decode to_biz_outbox_event redrive_eligible ◌+ℤ◌ stored_time
redrives = refl

claims_again :
    claim_matching json_valid
      (slot id)
      (slot_claims id)
      (codes "w")
      []
      generation_submission
      (some (codes "u"))
      9_000_000
      19_000_000
      (some opened_again)
    ≡ (
      ok (
          some (
            to_biz_outbox_event
              (claim_update (codes "w") (codes "u") 9_000_000 19_000_000 opened_again))),
      some (claim_update (codes "w") (codes "u") 9_000_000 19_000_000 opened_again),
    )
unfolding claim_matching claim_filter claim_update decode to_biz_outbox_event is_valid_identifier
    is_trimmed eq_text ◌+ℤ◌ stored_time
claims_again = refl

keyed : (k : Text) (d : OutboxEventDocument) → (slot id).get (some waiting) k ≡ some d → d.id ≡ k
keyed k d h =
    let (at, same) = lookup-some id (some waiting) k d h in
    let e : waiting ≡ d = ground arith in (λ i. (sym e i).id) ∙ sym at

stored : (slot id).get (some waiting) id ≡ some waiting
unfolding eq_text
stored = refl

claim_matching-Claimed_example :
    (is_valid_identifier (codes "w") ≡ true)
    × (6_000_000 < 16_000_000)
    × Claimed json_valid
        (slot id)
        (slot_claims id)
        (codes "w")
        []
        generation_submission
        (codes "t")
        (stored_time 6_000_000)
        (stored_time 16_000_000)
        (to_biz_outbox_event leased)
        (some waiting)
        (some leased)
claim_matching-Claimed_example =
    claim_matching-Claimed json_valid (slot id) (slot_claims id) (codes "w") []
      generation_submission (codes "t") 6_000_000 16_000_000 (to_biz_outbox_event leased)
      (some waiting) (some leased) claims

later : stored_time 9_000_000 < stored_time 16_000_000
unfolding stored_time
later = omega arith

claim_leased_example :
    claim_matching json_valid
      (slot id)
      (slot_claims id)
      (codes "x")
      []
      generation_submission
      (some (codes "u"))
      9_000_000
      19_000_000
      (some leased)
    ≢ (ok (some (to_biz_outbox_event leased)), some leased)
claim_leased_example =
    claim_leased json_valid (slot id) (slot_claims id) (codes "w") [] generation_submission
      (codes "t") 6_000_000 16_000_000 (to_biz_outbox_event leased) (codes "x") []
      generation_submission (codes "u") 9_000_000 19_000_000 (to_biz_outbox_event leased)
      (some waiting) (some leased) (some leased) keyed claims later refl

settle-SettledBy_example :
    SettledBy json_valid
      (slot id)
      (slot_claims id)
      (attention event_age 7_000_000)
      id
      (codes "t")
      (some leased)
      (some attended)
settle-SettledBy_example =
    settle-SettledBy json_valid (slot id) (slot_claims id) (attention event_age 7_000_000) id
      (codes "t") (some leased) (some attended) attends

settle_stale_example :
    settle json_valid
      (slot id)
      (slot_claims id)
      (delivery 7_000_000)
      (to_biz_outbox_event leased).id
      (codes "old")
      (some leased)
    ≢ (ok tt, some leased)
settle_stale_example =
    settle_stale json_valid (slot id) (slot_claims id) (codes "w") [] generation_submission
      (codes "t") 6_000_000 16_000_000 (to_biz_outbox_event leased) (delivery 7_000_000)
      (codes "old") (some waiting) (some leased) (some leased) keyed claims (λ p. absurd (cc))

redrive_attention-Reopened_example :
    (invalid_redrive command ≡ false)
    × Reopened json_valid (slot id) (slot_claims id) command (some attended) (some opened_again)
redrive_attention-Reopened_example =
    redrive_attention-Reopened json_valid (slot id) (slot_claims id) command
      (to_biz_outbox_event opened_again) (some attended) (some opened_again) redrives

Run-Evolves_example :
    (d' : OutboxEventDocument) × ((slot id).get (some opened_again) id ≡ some d')
    × Evolves waiting d'
Run-Evolves_example =
    Run-Evolves json_valid (slot id) (slot_claims id) (some waiting) (some opened_again) id waiting
      (then_
        (then_
          (then_ start (
            claimed (codes "w") [] generation_submission (codes "t") 6_000_000 16_000_000
              (to_biz_outbox_event leased) claims))
          (settles (attention event_age 7_000_000) id (codes "t") attends))
        (redriven command (to_biz_outbox_event opened_again) redrives))
      stored
