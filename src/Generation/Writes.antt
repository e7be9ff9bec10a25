-- ===== src/Generation/Writes.antt =====
-- The calls behind `ApplyProviderTerminal` of internal/data/generation_callback_repository.go, one by
-- one: what each that succeeds has read and written.
use ai_go.Common.{Bool, true, false, ◌≡◌, ◌≢◌, refl, ap, sym, ◌⊎◌, Option, none, some, arith}
use ai_go.Common.Int.{ℤ}
use ai_go.Common.Text.{Text, is_empty}
use ai_go.Common.Result.{Result, ok, err}
use ai_go.Common.Clock.{Time}
use ai_go.Mongo.{Collection, Reply, reply, no_reply}
use ai_go.Outbox.Documents.{OutboxEventDocument}
use ai_go.Generation.Identity.{
  Error, provider_terminal_version, provider_reconcile_event_type, provider_inbox_recovery_event_id,
}
use ai_go.Generation.Terminal.{ProviderTerminalFact, ProviderTerminalSlot}
use ai_go.Generation.Payloads.{marshal_provider_reconcile_event_payload}
use ai_go.Generation.Steps.{
  StepDocument, Database, Tables, step_or_error, slot_or_error, slot_of, is_step_of, may_commit,
  committed, is_equal_to, quarantined_step, scheduled_event, is_same_event, delivered_event,
}
use ai_go.Generation.Storage.{
  Codecs, answer, answer_or, or_conflict, commit_provider_terminal, quarantine_step,
  read_provider_terminal_slot,
}

pub answer_or-ok : (e : Error) (x : Reply Bool) → answer_or e x ≡ ok tt → x ≡ reply true
answer_or-ok e no_reply h = absurd (cc)
answer_or-ok e (reply true) h = refl
answer_or-ok e (reply false) h = absurd (cc)

pub answer-ok : {A : Type 0} (x : Reply A) (a : A) → answer x ≡ ok a → x ≡ reply a
answer-ok no_reply a h = absurd (cc)
answer-ok (reply b) a h = cc

pub or_conflict-ok : (x : Result Error Text) (raw : Text) → or_conflict x ≡ ok raw → x ≡ ok raw
or_conflict-ok (ok r) raw h = h
or_conflict-ok (err e) raw h = absurd (cc)

step_or_error-ok :
    (fact : ProviderTerminalFact) (x : Reply (Option StepDocument))
    (r : ProviderTerminalSlot × Text)
    → step_or_error fact x ≡ ok r
    → (d : StepDocument) × (x ≡ reply (some d))
      × (is_step_of fact d ≡ true)
      × (r ≡ (slot_of fact d, d.creation_id))
unfolding step_or_error slot_or_error
step_or_error-ok fact no_reply r h = absurd (cc)
step_or_error-ok fact (reply none) r h = absurd (cc)
step_or_error-ok fact (reply (some d)) r h = (d, refl, ground arith, ground arith)

module _ (db : Database) where
  abbrev pub step_at : Tables db → Text → Option StepDocument
  step_at s k = Collection.get db.steps s.steps k

  abbrev pub event_at : Tables db → Text → Option OutboxEventDocument
  event_at s k = Collection.get db.events s.events k

  -- A call changes one step, and no event.
  pub record StepBecomes (s t : Tables db) (id : Text) (old new : StepDocument) : Type 0 where
    pub stored : step_at s id ≡ some old
    pub replaced : step_at t id ≡ some new
    pub others : (k : Text) → k ≢ id → step_at t k ≡ step_at s k
    pub same_events : event_at t ≡ event_at s

  -- The event of an ID is there with what it must have, new or from before.
  pub record Scheduled (s t : Tables db) (id creation_id event_type payload : Text) (at : Time)
      : Type 0 where
    pub named : is_empty id ≡ false
    pub event : OutboxEventDocument
    pub there : event_at t id ≡ some event
    pub same : is_same_event creation_id event_type payload event ≡ true
    pub origin :
        (event_at s id ≡ some event)
        ⊎ ((event_at s id ≡ none) × (event ≡ scheduled_event id creation_id event_type payload at))
    pub others : (k : Text) → k ≢ id → event_at t k ≡ event_at s k
    pub same_steps : step_at t ≡ step_at s

  -- The event that reconciles a step is delivered.
  pub record Finished (codecs : Codecs) (s t : Tables db) (fact : ProviderTerminalFact)
      (creation_id : Text) (version : ℤ) : Type 0 where
    pub named : is_empty (provider_inbox_recovery_event_id fact.step_id) ≡ false
    pub payload : Text
    pub marshalled :
        marshal_provider_reconcile_event_payload codecs.reconcile creation_id fact.step_id
        ≡ ok payload
    pub event : OutboxEventDocument
    pub stored : event_at s (provider_inbox_recovery_event_id fact.step_id) ≡ some event
    pub same : is_same_event creation_id provider_reconcile_event_type payload event ≡ true
    pub replaced :
        event_at t (provider_inbox_recovery_event_id fact.step_id)
        ≡ some (delivered_event version fact.observed_at event)
    pub others :
        (k : Text) → k ≢ provider_inbox_recovery_event_id fact.step_id → event_at t k ≡ event_at s k
    pub same_steps : step_at t ≡ step_at s

  pub read-ok :
      (fact : ProviderTerminalFact) (s t : Tables db) (r : ProviderTerminalSlot × Text)
      → read_provider_terminal_slot db fact s ≡ (ok r, t)
      → (t ≡ s)
        × ((d : StepDocument) × (step_at s fact.step_id ≡ some d)
            × (is_step_of fact d ≡ true)
            × (r ≡ (slot_of fact d, d.creation_id)))
  unfolding read_provider_terminal_slot
  read-ok fact s t r h =
      let (d, found, is, same) =
        step_or_error-ok fact (Collection.find_one db.steps fact.step_id s.steps) r
          (λ i. (h i).0) in
      (
        ap (λ x. x.1) (sym h),
        (d, sym (Collection.find_one_law db.steps fact.step_id s.steps (some d) found), is, same),
      )

  pub commit-matched :
      (fact : ProviderTerminalFact) (slot updated : ProviderTerminalSlot) (s t : Tables db)
      → commit_provider_terminal db fact slot updated s ≡ (ok true, t)
      → (d : StepDocument) × (may_commit fact slot d ≡ true)
        × StepBecomes s t fact.step_id d (committed fact updated d)
  unfolding commit_provider_terminal
  commit-matched fact slot updated s t h =
      let call =
        Collection.update_one db.steps fact.step_id (may_commit fact slot) (committed fact updated)
          s.steps in
      let matched = answer-ok call.0 true (λ i. (h i).0) in
      let (d, stored, accepted, replaced, others) =
        Collection.update_one_matched db.steps fact.step_id (may_commit fact slot)
          (committed fact updated) s.steps t.steps (λ i. (matched i, (h i).1.steps)) in
      (
        d,
        accepted,
        record {
          stored = stored;
          replaced = replaced;
          others = others;
          same_events = ap (λ x. Collection.get db.events x.1.events) (sym h);
        },
      )

  pub commit-unmatched :
      (fact : ProviderTerminalFact) (slot updated : ProviderTerminalSlot) (s t : Tables db)
      → commit_provider_terminal db fact slot updated s ≡ (ok false, t)
      → t ≡ s
  unfolding commit_provider_terminal
  commit-unmatched fact slot updated s t h =
      let call =
        Collection.update_one db.steps fact.step_id (may_commit fact slot) (committed fact updated)
          s.steps in
      let missed = answer-ok call.0 false (λ i. (h i).0) in
      let (same, none_) =
        Collection.update_one_unmatched db.steps fact.step_id (may_commit fact slot)
          (committed fact updated) s.steps t.steps (λ i. (missed i, (h i).1.steps)) in
      let events : t.events ≡ s.events = ap (λ x. x.1.events) (sym h) in
      λ i. record { steps = same i; events = events i }

  pub quarantine-ok :
      (id reason : Text) (version : ℤ) (s t : Tables db)
      → quarantine_step db id version reason s ≡ (ok tt, t)
      → (d : StepDocument) × StepBecomes s t id d (quarantined_step reason d)
  unfolding quarantine_step
  quarantine-ok id reason version s t h =
      let test = λ (d : StepDocument). is_equal_to version d.terminal_version in
      let call = Collection.update_one db.steps id test (quarantined_step reason) s.steps in
      let matched = answer_or-ok provider_terminal_version call.0 (λ i. (h i).0) in
      let (d, stored, accepted, replaced, others) =
        Collection.update_one_matched db.steps id test (quarantined_step reason) s.steps t.steps
          (λ i. (matched i, (h i).1.steps)) in
      (
        d,
        record {
          stored = stored;
          replaced = replaced;
          others = others;
          same_events = ap (λ x. Collection.get db.events x.1.events) (sym h);
        },
      )
