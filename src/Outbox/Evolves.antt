-- ===== src/Outbox/Evolves.antt =====
-- What the calls of internal/data/outbox_repository.go may make of an event over time, as a relation
-- between its documents.
use ai_go.Common.{true, arith, ◌≡◌, refl, ◌∙◌, ◌⊎◌, inl, inr}
use ai_go.Common.Int.{ℤ, pos, ◌+ℤ◌, ◌≤ℤ◌, ◌<ℤ◌, int_laws}
use ai_go.Common.Text.{Text}
use ai_go.Common.Clock.{Time}
use ai_go.Outbox.Event.{DeliveryStatus, delivered, failed, needs_attention}
use ai_go.Outbox.Documents.{OutboxEventDocument}
use ai_go.Outbox.Storage.{is_in_flight, is_claimable}
use ai_go.Outbox.Event.{max_redrive_count}
use ai_go.Outbox.Lease.{Settlement, renewal, requeuing, delivery, failure, attention, settled}

-- What may become of a stored event: its frozen facts stay, its counters do not fall, its redrives
-- stay within their limit, a delivered or failed event stays as it is, and an event that needs
-- attention moves by a redrive alone.
pub record Evolves (d d' : OutboxEventDocument) : Type 0 where
  pub same_id : d'.id ≡ d.id
  pub same_aggregate : d'.aggregate_id ≡ d.aggregate_id
  pub same_type : d'.event_type ≡ d.event_type
  pub same_payload : d'.payload ≡ d.payload
  pub same_created : d'.created_at ≡ d.created_at
  pub attempts : d.attempt_count ≤ℤ d'.attempt_count
  pub redrives : d.redrive_count ≤ℤ d'.redrive_count
  pub limited : d.redrive_count ≤ℤ max_redrive_count → d'.redrive_count ≤ℤ max_redrive_count
  pub final : (d.delivery_status ≡ delivered) ⊎ (d.delivery_status ≡ failed) → d' ≡ d
  pub attended :
      d.delivery_status ≡ needs_attention → (d' ≡ d) ⊎ (d.redrive_count <ℤ d'.redrive_count)

pub le_refl : (a : ℤ) → a ≤ℤ a
le_refl a = omega arith

le_trans : (a b c : ℤ) → a ≤ℤ b → b ≤ℤ c → a ≤ℤ c
le_trans a b c h k = omega arith

lt_le_trans : (a b c : ℤ) → a <ℤ b → b ≤ℤ c → a <ℤ c
lt_le_trans a b c h k = omega arith

pub lt_suc : (a : ℤ) → a <ℤ a +ℤ pos 1
lt_suc a = grind int_laws

pub suc_le : (a b : ℤ) → a <ℤ b → a +ℤ pos 1 ≤ℤ b
suc_le a b h = grind int_laws

pub lt_le : (a b : ℤ) → a <ℤ b → a ≤ℤ b
lt_le a b h = omega arith

pub Evolves-refl : (d : OutboxEventDocument) → Evolves d d
Evolves-refl d = record {
  same_id = refl;
  same_aggregate = refl;
  same_type = refl;
  same_payload = refl;
  same_created = refl;
  attempts = le_refl d.attempt_count;
  redrives = le_refl d.redrive_count;
  limited = λ h. h;
  final = λ h. refl;
  attended = λ h. inl refl;
}

pub Evolves-trans : {d e f : OutboxEventDocument} → Evolves d e → Evolves e f → Evolves d f
Evolves-trans {d} {e} {f} a b = record {
  same_id = b.same_id ∙ a.same_id;
  same_aggregate = b.same_aggregate ∙ a.same_aggregate;
  same_type = b.same_type ∙ a.same_type;
  same_payload = b.same_payload ∙ a.same_payload;
  same_created = b.same_created ∙ a.same_created;
  attempts = le_trans d.attempt_count e.attempt_count f.attempt_count a.attempts b.attempts;
  redrives = le_trans d.redrive_count e.redrive_count f.redrive_count a.redrives b.redrives;
  limited = λ h. b.limited (a.limited h);
  final = λ h. let same = a.final h in b.final (rw same h) ∙ same;
  attended = λ h. elim (a.attended h) [
    | inl same ↦ elim (b.attended (rw same h)) [
      | inl same' ↦ inl (same' ∙ same)
      | inr more ↦ inr (rw same at more)
    ]
    | inr more ↦ inr (lt_le_trans d.redrive_count e.redrive_count f.redrive_count more b.redrives)
  ];
}

-- An event in flight or open is not final.
pub claim-Evolves :
    (worker token : Text) (now until : Time) (status : DeliveryStatus) (d : OutboxEventDocument)
    → is_claimable d.delivery_status ≡ true
    → Evolves d (record d {
      delivery_status = status;
      lease_token = token;
      lease_until = until;
      lease_owner = worker;
      updated_at = now;
      attempt_count = d.attempt_count +ℤ pos 1;
    })
claim-Evolves worker token now until status d h = record {
  same_id = refl;
  same_aggregate = refl;
  same_type = refl;
  same_payload = refl;
  same_created = refl;
  attempts = lt_le d.attempt_count (d.attempt_count +ℤ pos 1) (lt_suc d.attempt_count);
  redrives = le_refl d.redrive_count;
  limited = λ k. k;
  final = λ k. absurd (ground arith);
  attended = λ k. absurd (ground arith);
}

settled-frozen :
    (o : Settlement) (d : OutboxEventDocument)
    → ((settled o d).id ≡ d.id)
      × ((settled o d).aggregate_id ≡ d.aggregate_id)
      × ((settled o d).event_type ≡ d.event_type)
      × ((settled o d).payload ≡ d.payload)
      × ((settled o d).created_at ≡ d.created_at)
      × ((settled o d).attempt_count ≡ d.attempt_count)
      × ((settled o d).redrive_count ≡ d.redrive_count)
unfolding settled
settled-frozen (renewal now until) d = (refl, refl, refl, refl, refl, refl, refl)
settled-frozen (requeuing next) d = (refl, refl, refl, refl, refl, refl, refl)
settled-frozen (delivery now) d = (refl, refl, refl, refl, refl, refl, refl)
settled-frozen (failure now) d = (refl, refl, refl, refl, refl, refl, refl)
settled-frozen (attention why now) d = (refl, refl, refl, refl, refl, refl, refl)

pub settled-Evolves :
    (o : Settlement) (d : OutboxEventDocument)
    → is_in_flight d.delivery_status ≡ true
    → Evolves d (settled o d)
settled-Evolves o d h =
    let (id, aggregate, type_, payload, created, attempts, redrives) = settled-frozen o d in
    record {
      same_id = id;
      same_aggregate = aggregate;
      same_type = type_;
      same_payload = payload;
      same_created = created;
      attempts = rw attempts (le_refl d.attempt_count);
      redrives = rw redrives (le_refl d.redrive_count);
      limited = λ k. rw redrives k;
      final = λ k. absurd (ground arith);
      attended = λ k. absurd (ground arith);
    }
