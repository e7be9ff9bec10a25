-- ===== src/Outbox/Waiting.antt =====
-- Which events the claims of internal/data/outbox_repository.go may take, and in which order.
use ai_go.Common.{
  ◌≤◌, ◌<◌, true, false, ◌||◌, [], ◌∷◌, arith, ◌≡◌, refl, ap, ◌∙◌, ◌≢◌, ◌⊎◌, inl, inr, leb,
}
use ai_go.Common.Int.{pos, ◌+ℤ◌}
use ai_go.Common.Text.{Text, eq_text, eq_text_refl, is_empty, eq_text_sound, text_before}
use ai_go.Common.Clock.{Time}
use ai_go.Outbox.Event.{
  EventType, generation_submission, DeliveryStatus, pending, dispatching, reconciling,
}
use ai_go.Outbox.Documents.{OutboxEventDocument}
use ai_go.Outbox.Storage.{
  is_claimable, is_any_type, has_type, claim_filter, due_rank, claimed_status, claim_update,
}

-- An event that a claim at `now` may take: open, due and under no live lease, of the type and the
-- ID asked for, where one is.
pub record IsWaiting (event_id : Text) (event_type : EventType) (now : Time) (key : Text)
    (d : OutboxEventDocument) : Type 0 where
  pub is_open :
      (d.delivery_status ≡ pending)
      ⊎ ((d.delivery_status ≡ dispatching) ⊎ (d.delivery_status ≡ reconciling))
  pub is_due : d.next_attempt_at ≤ now
  pub is_free : d.lease_until ≤ now
  pub of_type : (event_type ≡ EventType.other_type []) ⊎ (d.event_type ≡ event_type)
  pub of_id : (event_id ≡ []) ⊎ (key ≡ event_id)

open-status :
    (p : DeliveryStatus)
    → is_claimable p ≡ true
    → (p ≡ pending) ⊎ ((p ≡ dispatching) ⊎ (p ≡ reconciling))
open-status p h = ground arith

claimable-status :
    (p : DeliveryStatus)
    → (p ≡ pending) ⊎ ((p ≡ dispatching) ⊎ (p ≡ reconciling))
    → is_claimable p ≡ true
claimable-status p h = ground arith

type_sound :
    (event_type of_event : EventType)
    → (is_any_type event_type || has_type of_event event_type) ≡ true
    → (event_type ≡ EventType.other_type []) ⊎ (of_event ≡ event_type)
type_sound generation_submission generation_submission h = inr refl
type_sound generation_submission (EventType.other_type t) h = absurd (cc)
type_sound (EventType.other_type []) of_event h = inl refl
type_sound (EventType.other_type (x ∷ xs)) generation_submission h = absurd (cc)
type_sound (EventType.other_type (x ∷ xs)) (EventType.other_type t) h =
    inr (ap EventType.other_type (eq_text_sound t (x ∷ xs) h))

type_complete :
    (event_type of_event : EventType)
    → (event_type ≡ EventType.other_type []) ⊎ (of_event ≡ event_type)
    → (is_any_type event_type || has_type of_event event_type) ≡ true
type_complete event_type of_event (inl e) = ap (λ x. is_any_type x || has_type of_event x) e
type_complete generation_submission of_event (inr e) = ap (λ x. has_type x generation_submission) e
type_complete (EventType.other_type t) of_event (inr e) =
    ap (λ x. is_empty t || has_type x (EventType.other_type t)) e
    ∙ rw (eq_text_refl t) (ground arith)

id_sound :
    (event_id k : Text)
    → (is_empty event_id || eq_text k event_id) ≡ true
    → (event_id ≡ []) ⊎ (k ≡ event_id)
id_sound [] k h = inl refl
id_sound (x ∷ xs) k h = inr (eq_text_sound k (x ∷ xs) h)

id_complete :
    (event_id k : Text)
    → (event_id ≡ []) ⊎ (k ≡ event_id)
    → (is_empty event_id || eq_text k event_id) ≡ true
id_complete event_id k (inl e) = ap (λ x. is_empty x || eq_text k x) e
id_complete event_id k (inr e) =
    ap (λ x. is_empty event_id || eq_text x event_id) e ∙ rw (eq_text_refl event_id) (ground arith)

pub filter-IsWaiting :
    (event_id : Text) (event_type : EventType) (now : Time) (k : Text) (d : OutboxEventDocument)
    → claim_filter event_id event_type now k d ≡ true
    → (is_claimable d.delivery_status ≡ true) × IsWaiting event_id event_type now k d
unfolding claim_filter
filter-IsWaiting event_id event_type now k d h =
    let claimable : is_claimable d.delivery_status ≡ true = ground arith in
    (
      claimable,
      record {
        is_open = open-status d.delivery_status claimable;
        is_due = ground arith;
        is_free = ground arith;
        of_type = type_sound event_type d.event_type (ground arith);
        of_id = id_sound event_id k (ground arith);
      },
    )

pub IsWaiting-filter :
    (event_id : Text) (event_type : EventType) (now : Time) (k : Text) (d : OutboxEventDocument)
    → IsWaiting event_id event_type now k d
    → claim_filter event_id event_type now k d ≡ true
unfolding claim_filter
IsWaiting-filter event_id event_type now k d w =
    let due : leb d.next_attempt_at now ≡ true = (let h = w.is_due in ground arith) in
    let free : leb d.lease_until now ≡ true = (let h = w.is_free in ground arith) in
    rw
      (
        claimable-status d.delivery_status w.is_open,
        due,
        free,
        type_complete event_type d.event_type w.of_type,
        id_complete event_id k w.of_id,
      )
      refl

pub due_rank-first :
    (old d : OutboxEventDocument)
    → text_before (due_rank d) (due_rank old) ≡ false
    → (old.next_attempt_at < d.next_attempt_at)
      ⊎ ((old.next_attempt_at ≡ d.next_attempt_at) × (text_before d.id old.id ≡ false))
unfolding due_rank text_before
due_rank-first old d h = ground arith

pub claimed_status-next :
    (p : DeliveryStatus)
    → ((p ≡ dispatching) × (claimed_status p ≡ reconciling))
      ⊎ ((p ≢ dispatching) × (claimed_status p ≡ dispatching))
claimed_status-next p = ground arith

pub claim_update-is :
    (worker token : Text) (now until : Time) (d : OutboxEventDocument)
    → claim_update worker token now until d ≡ record d {
      delivery_status = claimed_status d.delivery_status;
      lease_token = token;
      lease_until = until;
      lease_owner = worker;
      updated_at = now;
      attempt_count = d.attempt_count +ℤ pos 1;
    }
unfolding claim_update
claim_update-is worker token now until d = refl
