-- ===== src/Outbox/Runs.antt =====
-- Sequences of the calls of internal/data/outbox_repository.go, by any number of workers in any
-- order: what they may do to an event over time.
use ai_go.Common.{Bool, true, none, some, arith, ◌≡◌, refl, sym, ap, ◌∙◌, ◌≢◌, ◌⊎◌, inl, inr}
use ai_go.Common.Int.{pos, ◌+ℤ◌}
use ai_go.Common.Text.{Text, text-cases}
use ai_go.Common.Result.{ok}
use ai_go.Common.Action.{>>=-eq-ok}
use ai_go.Common.Clock.{Time, stored_time}
use ai_go.Mongo.{Collection, FindAndUpdate, Reply, reply}
use ai_go.Outbox.Event.{Event, EventType, delivered, failed, needs_attention, Error}
use ai_go.Outbox.Documents.{OutboxEventDocument}
use ai_go.Outbox.Storage.{claim_matching, answer_or}
use ai_go.Common.Action.{lift}
use ai_go.Outbox.Event.{max_redrive_count, event_already_exists, validate_pending}
use ai_go.Outbox.Redrive.{RedriveCommand}
use ai_go.Outbox.Documents.{new_outbox_event_document}
use ai_go.Outbox.Storage.{redrive_attention, enqueue}
use ai_go.Outbox.Claim.{claim_matching-Claimed}
use ai_go.Outbox.Lease.{Settlement, settled, settle, settle-SettledBy}
use ai_go.Outbox.Reopen.{Reopened, redrive_attention-Reopened}
use ai_go.Outbox.Evolves.{
  Evolves, le_refl, lt_suc, suc_le, lt_le, Evolves-refl, Evolves-trans, claim-Evolves,
  settled-Evolves,
}

none-some : {A : Type 0} {a : A} → none ≡ some a → ⊥
none-some h = cc

reply-true : (e : Error) (x : Reply Bool) → answer_or e x ≡ ok tt → x ≡ reply true
reply-true e x h = ground arith

other-status :
    (d : OutboxEventDocument)
    → d.delivery_status ≡ needs_attention
    → (d.delivery_status ≡ delivered) ⊎ (d.delivery_status ≡ failed)
    → ⊥
other-status d h k = ground arith

module _ (json_valid : Text → Bool) (c : Collection Text OutboxEventDocument)
    (f : FindAndUpdate c) where
  Reopened-Evolves :
      (command : RedriveCommand) (s t : Collection.Store c)
      → (r : Reopened json_valid c f command s t)
      → (d' : OutboxEventDocument) × (Collection.get c t command.event_id ≡ some d')
        × Evolves r.old d'
  Reopened-Evolves command s t r =
      let d = r.old in
      (
        _,
        r.replaced,
        record {
          same_id = refl;
          same_aggregate = refl;
          same_type = refl;
          same_payload = refl;
          same_created = refl;
          attempts = le_refl d.attempt_count;
          redrives = lt_le d.redrive_count (d.redrive_count +ℤ pos 1) (lt_suc d.redrive_count);
          limited = λ k. suc_le d.redrive_count max_redrive_count r.below_limit;
          final = λ k. absurd (other-status d r.needed_attention k);
          attended = λ k. inr (lt_suc d.redrive_count);
        },
      )

  -- One call that succeeds.
  pub data Step (s t : Collection.Store c) : Type 0 where
    enqueued : (e : Event) → enqueue json_valid c f (some e) s ≡ (ok tt, t) → Step s t
    claimed :
        (worker event_id : Text) (event_type : EventType) (token : Text) (now until : Time)
        (e : Event)
        → claim_matching json_valid c f worker event_id event_type (some token) now until s
          ≡ (ok (some e), t)
        → Step s t
    settles :
        (o : Settlement) (id token : Text)
        → settle json_valid c f o id token s ≡ (ok tt, t)
        → Step s t
    redriven :
        (command : RedriveCommand) (e : Event)
        → redrive_attention json_valid c f command s ≡ (ok e, t)
        → Step s t

  -- Any number of them.
  pub data Run (s : Collection.Store c) : Collection.Store c → Type 0 where
    start : Run s s
    then_ : {t u : Collection.Store c} → Run s t → Step t u → Run s u

  -- The document under a key after a call that changes one key.
  elsewhere :
      (s t : Collection.Store c) (key k : Text) (d old new : OutboxEventDocument)
      → Collection.get c s k ≡ some d
      → Collection.get c s key ≡ some old
      → Collection.get c t key ≡ some new
      → Evolves old new
      → ((j : Text) → j ≢ key → Collection.get c t j ≡ Collection.get c s j)
      → (d' : OutboxEventDocument) × (Collection.get c t k ≡ some d') × Evolves d d'
  elsewhere s t key k d old new stored before after_ evolves others = elim (text-cases k key) [
    | inr other ↦ (d, others k other ∙ stored, Evolves-refl d)
    | inl same ↦
        let p : d ≡ old = ground (arith, sym stored ∙ ap (Collection.get c s) same ∙ before) in
        (new, ap (Collection.get c t) same ∙ after_, rw p evolves)
  ]

  enqueue-elsewhere :
      (e : Event) (s t : Collection.Store c) (k : Text) (d : OutboxEventDocument)
      → enqueue json_valid c f (some e) s ≡ (ok tt, t)
      → Collection.get c s k ≡ some d
      → Collection.get c t k ≡ some d
  unfolding enqueue
  enqueue-elsewhere e s t k d h stored =
      let (u, v, checked, rest) =
        >>=-eq-ok (lift (validate_pending json_valid (some e)))
          (λ x v. (
            answer_or event_already_exists
                (Collection.insert_one c e.id (new_outbox_event_document e) v).0,
            (Collection.insert_one c e.id (new_outbox_event_document e) v).1,
          ))
          s h in
      let unmoved : s ≡ v = λ i. (checked i).1 in
      let call = Collection.insert_one c e.id (new_outbox_event_document e) s in
      let rest' : (answer_or event_already_exists call.0, call.1) ≡ (ok tt, t) =
        rw (← unmoved) at rest in
      let inserted = reply-true event_already_exists call.0 (λ i. (rest' i).0) in
      let (absent, new, others) =
        Collection.insert_one_law c e.id (new_outbox_event_document e) s t
          (λ i. (inserted i, (rest' i).1)) in
      elim (text-cases k e.id) [
        | inl same ↦ absurd (none-some (sym absent ∙ sym (ap (Collection.get c s) same) ∙ stored))
        | inr other ↦ others k other ∙ stored
      ]

  -- What a stored event becomes by one call that succeeds.
  Step-Evolves :
      (s t : Collection.Store c) (k : Text) (d : OutboxEventDocument)
      → Step s t
      → Collection.get c s k ≡ some d
      → (d' : OutboxEventDocument) × (Collection.get c t k ≡ some d') × Evolves d d'
  Step-Evolves s t k d (enqueued e h) stored =
      (d, enqueue-elsewhere e s t k d h stored, Evolves-refl d)
  Step-Evolves s t k d (claimed worker event_id event_type token now until e h) stored =
      let (a, b, r) =
        claim_matching-Claimed json_valid c f worker event_id event_type token now until e s t h in
      elsewhere s t r.key k d r.old _ stored r.stored r.leased
        (claim-Evolves worker token (stored_time now) (stored_time until) r.status r.old r.was_open)
        r.others
  Step-Evolves s t k d (settles o id token h) stored =
      let r = settle-SettledBy json_valid c f o id token s t h in
      elsewhere s t id k d r.old (settled o r.old) stored r.stored r.replaced
        (settled-Evolves o r.old r.in_flight) r.others
  Step-Evolves s t k d (redriven command e h) stored =
      let (a, r) = redrive_attention-Reopened json_valid c f command e s t h in
      let (d', replaced, evolves) = Reopened-Evolves command s t r in
      elsewhere s t command.event_id k d r.old d' stored r.stored replaced evolves r.others

  -- Whatever calls succeed, of however many workers and in whatever order, a stored event keeps its
  -- ID, aggregate, type, payload and creation time; its attempt and redrive counts never fall; the
  -- redrives stay within their limit of two; once delivered or failed it never changes; and once it
  -- needs attention nothing changes it but a redrive.
  pub Run-Evolves :
      (s t : Collection.Store c) (k : Text) (d : OutboxEventDocument)
      → Run s t
      → Collection.get c s k ≡ some d
      → (d' : OutboxEventDocument) × (Collection.get c t k ≡ some d') × Evolves d d'
  Run-Evolves s t k d start stored = (d, stored, Evolves-refl d)
  Run-Evolves s u k d (then_ {t} r step) stored =
      let (d', stored', evolves) = Run-Evolves s t k d r stored in
      let (d'', stored'', evolves') = Step-Evolves t u k d' step stored' in
      (d'', stored'', Evolves-trans evolves evolves')
