-- ===== src/Generation/Schedules.antt =====
-- The events that `ApplyProviderTerminal` of internal/data/generation_callback_repository.go
-- schedules and delivers.
use ai_go.Common.{false, not, ◌≡◌, refl, ap, sym, ◌∙◌, inl, inr, Option, none, some, arith}
use ai_go.Common.Int.{ℤ}
use ai_go.Common.Text.{Text, is_empty, eq_text_refl}
use ai_go.Common.Result.{ok}
use ai_go.Common.Action.{Action, lift, ◌>>=◌, >>=-eq-ok, guard-eq-ok, raise_if-eq-ok}
use ai_go.Common.Clock.{Time}
use ai_go.Mongo.{Collection}
use ai_go.Outbox.Documents.{OutboxEventDocument}
use ai_go.Generation.Identity.{
  Error, invalid_provider_terminal, provider_terminal_conflict, provider_reconcile_event_type,
  provider_inbox_recovery_event_id,
}
use ai_go.Generation.Terminal.{ProviderTerminalFact}
use ai_go.Generation.Payloads.{marshal_provider_reconcile_event_payload}
use ai_go.Generation.Steps.{Database, Tables, scheduled_event, is_same_event, delivered_event}
use ai_go.Generation.Storage.{
  Codecs, answer, answer_or, or_conflict, insert_unless, schedule, finalize_provider_reconciliation,
}
use ai_go.Generation.Writes.{
  answer_or-ok, answer-ok, or_conflict-ok, step_at, event_at, Scheduled, Finished,
}

module _ (db : Database) where
  insert_unless-ok :
      (id creation_id event_type payload : Text) (at : Time) (s t : Tables db)
      (found : Option OutboxEventDocument)
      → is_empty id ≡ false
      → event_at db s id ≡ found
      → insert_unless db id creation_id event_type payload at found s ≡ (ok tt, t)
      → Scheduled db s t id creation_id event_type payload at
  insert_unless-ok id creation_id event_type payload at s t none named absent h =
      let d = scheduled_event id creation_id event_type payload at in
      let call = Collection.insert_one db.events id d s.events in
      let inserted = answer_or-ok provider_terminal_conflict call.0 (λ i. (h i).0) in
      let (free, new, others) =
        Collection.insert_one_law db.events id d s.events t.events
          (λ i. (inserted i, (h i).1.events)) in
      record {
        named = named;
        event = d;
        there = new;
        same =
            ground (arith, eq_text_refl creation_id, eq_text_refl event_type, eq_text_refl payload);
        origin = inr (free, refl);
        others = others;
        same_steps = ap (λ x. Collection.get db.steps x.1.steps) (sym h);
      }
  insert_unless-ok id creation_id event_type payload at s t (some d) named there h =
      let (same, unmoved) =
        raise_if-eq-ok (not (is_same_event creation_id event_type payload d))
          provider_terminal_conflict s h in
      record {
        named = named;
        event = d;
        there = ap (λ x. event_at db x id) unmoved ∙ there;
        same = ground arith;
        origin = inl there;
        others = λ k ne. ap (λ x. event_at db x k) unmoved;
        same_steps = ap (step_at db) unmoved;
      }

  pub schedule-ok :
      (id creation_id event_type payload : Text) (at : Time) (s t : Tables db)
      → schedule db id creation_id event_type payload at s ≡ (ok tt, t)
      → Scheduled db s t id creation_id event_type payload at
  unfolding schedule
  schedule-ok id creation_id event_type payload at s t h =
      let find : Action (Tables db) Error (Option OutboxEventDocument) =
        λ x. (answer (Collection.find_one db.events id x.events), x) in
      let rest = insert_unless db id creation_id event_type payload at in
      let (named, h') = guard-eq-ok (is_empty id) provider_terminal_conflict (find >>= rest) s h in
      let (found, m, read, k) = >>=-eq-ok find rest s h' in
      let replied = answer-ok (Collection.find_one db.events id s.events) found (λ i. (read i).0) in
      let there = sym (Collection.find_one_law db.events id s.events found replied) in
      let unmoved : m ≡ s = ap (λ x. x.1) (sym read) in
      insert_unless-ok id creation_id event_type payload at s t found named there
        (ap (rest found) (sym unmoved) ∙ k)

  pub finalize-ok :
      (codecs : Codecs) (fact : ProviderTerminalFact) (creation_id : Text) (version : ℤ)
      (s t : Tables db)
      → finalize_provider_reconciliation codecs db fact creation_id version s ≡ (ok tt, t)
      → Finished db codecs s t fact creation_id version
  unfolding finalize_provider_reconciliation
  finalize-ok codecs fact creation_id version s t h =
      let id = provider_inbox_recovery_event_id fact.step_id in
      let json =
        marshal_provider_reconcile_event_payload codecs.reconcile creation_id fact.step_id in
      let write : Text → Action (Tables db) Error (Unit {0}) = λ payload x.
        let y =
          Collection.update_one db.events id
            (is_same_event creation_id provider_reconcile_event_type payload)
            (delivered_event version fact.observed_at) x.events in
        (answer_or provider_terminal_conflict y.0, record x { events = y.1 }) in
      let (named, h') =
        guard-eq-ok (is_empty id) invalid_provider_terminal (lift (or_conflict json) >>= write) s
          h in
      let (payload, m, made, k) = >>=-eq-ok (lift (or_conflict json)) write s h' in
      let unmoved : s ≡ m = ap (λ x. x.1) made in
      let k' : write payload s ≡ (ok tt, t) = ap (write payload) unmoved ∙ k in
      let test = is_same_event creation_id provider_reconcile_event_type payload in
      let change = delivered_event version fact.observed_at in
      let call = Collection.update_one db.events id test change s.events in
      let matched = answer_or-ok provider_terminal_conflict call.0 (λ i. (k' i).0) in
      let (event, stored, same, replaced, others) =
        Collection.update_one_matched db.events id test change s.events t.events
          (λ i. (matched i, (k' i).1.events)) in
      record {
        named = named;
        payload = payload;
        marshalled = or_conflict-ok json payload (ap (λ x. x.0) made);
        event = event;
        stored = stored;
        same = same;
        replaced = replaced;
        others = others;
        same_steps = ap (λ x. Collection.get db.steps x.1.steps) (sym k');
      }
