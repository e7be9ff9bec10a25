-- ===== src/Outbox/Identifiers.antt =====
-- The IDs of submission events: `SubmissionEventID` and `isValidSubmissionEventID` of
-- internal/biz/outbox/model.go.
use ai_go.Common.{
  ◌+◌, ◌≤◌, ◌≡◌, sym, ap, ◌∙◌, ◌↔◌, inl, inr, true, false, [], ◌∷◌, ◌++◌, arith, Bool-cases,
}
use ai_go.Common.Text.{
  Text, length, eq_text_sound, eq_text_refl, has_prefix, after_prefix, has_prefix-append,
  after_prefix-append, eq_text,
}
use ai_go.Outbox.Event.{
  submission_event_id, is_valid_submission_event_id, is_valid_step_id,
  generation_submission_event_prefix, max_event_identifier_length,
}

submission_event_id-valid :
    (step : Text)
    → is_valid_step_id step ≡ true
    → submission_event_id step ≡ generation_submission_event_prefix ++ step
unfolding submission_event_id
submission_event_id-valid step h = rw h

submission_event_id-invalid :
    (step : Text) → is_valid_step_id step ≡ false → submission_event_id step ≡ []
unfolding submission_event_id
submission_event_id-invalid step h = rw h

prefix-length :
    (step : Text) → is_valid_step_id step ≡ true → length step + 22 ≤ max_event_identifier_length
unfolding is_valid_step_id
prefix-length step h = ground arith

-- What a prefixed ID with a matching rest is.
split_id :
    (id : Text)
    → has_prefix generation_submission_event_prefix id ≡ true
    → eq_text (submission_event_id (after_prefix generation_submission_event_prefix id)) id ≡ true
    → (step : Text) × (is_valid_step_id step ≡ true)
      × (id ≡ generation_submission_event_prefix ++ step)
split_id id p h =
    let step = after_prefix generation_submission_event_prefix id in
    let same = eq_text_sound (submission_event_id step) id h in
    elim (Bool-cases (is_valid_step_id step)) [
      | inl v ↦ (step, v, sym same ∙ submission_event_id-valid step v)
      | inr v ↦ absurd (no_prefix id (sym (submission_event_id-invalid step v) ∙ same) p)
    ]
  where
    no_prefix : (id : Text) → [] ≡ id → has_prefix generation_submission_event_prefix id ≡ true → ⊥
    no_prefix [] e p = unfold has_prefix in cc
    no_prefix (c ∷ r) e p = cc

-- A string is accepted as the ID of a submission event exactly when it is the fixed prefix before
-- a valid step ID.
pub is_valid_submission_event_id_iff :
    (id : Text)
    → (is_valid_submission_event_id id ≡ true) ↔ (
        (step : Text) × (is_valid_step_id step ≡ true)
        × (id ≡ generation_submission_event_prefix ++ step))
unfolding is_valid_submission_event_id
is_valid_submission_event_id_iff id = (
  λ h. elim (Bool-cases (has_prefix generation_submission_event_prefix id)) [
    | inl p ↦ split_id id p (rw p at h)
    | inr p ↦ absurd (cc (rw p at h))
  ],
  λ (step, v, e).
      rw
        (
          e,
          has_prefix-append generation_submission_event_prefix step,
          after_prefix-append generation_submission_event_prefix step,
          submission_event_id-valid step v,
        )
        (eq_text_refl (generation_submission_event_prefix ++ step)),
)

-- The event ID of every valid step ID is itself valid and at most 512 bytes long, and no two
-- valid steps share one.
pub submission_event_id_injective :
    (step other : Text)
    → is_valid_step_id step ≡ true
    → is_valid_step_id other ≡ true
    → (is_valid_submission_event_id (submission_event_id step) ≡ true)
      × (length (submission_event_id step) ≤ max_event_identifier_length)
      × (submission_event_id step ≡ submission_event_id other → step ≡ other)
submission_event_id_injective step other h k = (
  (is_valid_submission_event_id_iff (submission_event_id step)).1
      (step, h, submission_event_id-valid step h),
  rw (submission_event_id-valid step h) (omega (arith, prefix-length step h)),
  λ e.
      sym (after_prefix-append generation_submission_event_prefix step)
      ∙ ap (after_prefix generation_submission_event_prefix)
          (sym (submission_event_id-valid step h) ∙ e ∙ submission_event_id-valid other k)
      ∙ after_prefix-append generation_submission_event_prefix other,
)
