-- ===== src/Generation/EventIds.antt =====
-- The IDs of the events of internal/biz/generation: those of different sorts or steps differ.
use ai_go.Common.{
  ℕ, suc, zero, Bool, true, false, ◌≡◌, ◌≢◌, refl, ap, sym, ◌∙◌, arith, [], ◌∷◌, ◌++◌,
  if◌then◌else◌,
}
use ai_go.Common.Text.{Text, is_empty, after_prefix, after_prefix-append}
use ai_go.Generation.Identity.{
  ProviderTerminalStatus, no_status, completed, failed, cancelled, other_status,
  provider_terminal_identity, provider_reconcile_event_type, provider_inbox_recovery_event_id,
  provider_result_materialize_event_type, provider_terminal_settlement_event_type,
  provider_result_materialize_event_id, provider_terminal_settlement_event_id,
}

-- The event that a conclusion hands a step over by: to publish a result, or to settle a failure.
abbrev pub hand_off_id : ProviderTerminalStatus → Text → Text
hand_off_id completed step_id = provider_result_materialize_event_id step_id
hand_off_id _ step_id = provider_terminal_settlement_event_id step_id

abbrev pub hand_off_type : ProviderTerminalStatus → Text
hand_off_type completed = provider_result_materialize_event_type
hand_off_type _ = provider_terminal_settlement_event_type

-- An ID that is not empty is its type, a colon and its step.
named-id :
    (b : Bool) (event_type step_id : Text)
    → is_empty (if b then event_type ++ (b':' ∷ step_id) else []) ≡ false
    → (if b then event_type ++ (b':' ∷ step_id) else []) ≡ event_type ++ (b':' ∷ step_id)
named-id true event_type step_id h = refl
named-id false event_type step_id h = absurd (ground arith)

pub materialize-named :
    (k : Text)
    → is_empty (provider_result_materialize_event_id k) ≡ false
    → provider_result_materialize_event_id k ≡ provider_result_materialize_event_type ++ (b':' ∷ k)
unfolding provider_result_materialize_event_id
materialize-named k h =
    named-id (provider_terminal_identity k) provider_result_materialize_event_type k h

pub settlement-named :
    (k : Text)
    → is_empty (provider_terminal_settlement_event_id k) ≡ false
    → provider_terminal_settlement_event_id k
      ≡ provider_terminal_settlement_event_type ++ (b':' ∷ k)
unfolding provider_terminal_settlement_event_id
settlement-named k h =
    named-id (provider_terminal_identity k) provider_terminal_settlement_event_type k h

pub recovery-named :
    (k : Text)
    → is_empty (provider_inbox_recovery_event_id k) ≡ false
    → provider_inbox_recovery_event_id k ≡ provider_reconcile_event_type ++ (b':' ∷ k)
unfolding provider_inbox_recovery_event_id
recovery-named k h = named-id (provider_terminal_identity k) provider_reconcile_event_type k h

-- The types differ in the byte at 13 or 11.
abbrev byte_at : ℕ → Text → ℕ
byte_at n [] = 0
byte_at zero (c ∷ cs) = c
byte_at (suc n) (c ∷ cs) = byte_at n cs

pub materialize-ne-recovery :
    (j k : Text)
    → is_empty (provider_result_materialize_event_id j) ≡ false
    → is_empty (provider_inbox_recovery_event_id k) ≡ false
    → provider_result_materialize_event_id j ≢ provider_inbox_recovery_event_id k
materialize-ne-recovery j k h g same =
    absurd
      (ground (arith, ap (byte_at 13) (sym (materialize-named j h) ∙ same ∙ recovery-named k g)))

pub settlement-ne-recovery :
    (j k : Text)
    → is_empty (provider_terminal_settlement_event_id j) ≡ false
    → is_empty (provider_inbox_recovery_event_id k) ≡ false
    → provider_terminal_settlement_event_id j ≢ provider_inbox_recovery_event_id k
settlement-ne-recovery j k h g same =
    absurd
      (ground (arith, ap (byte_at 11) (sym (settlement-named j h) ∙ same ∙ recovery-named k g)))

pub materialize-ne-settlement :
    (j k : Text)
    → is_empty (provider_result_materialize_event_id j) ≡ false
    → is_empty (provider_terminal_settlement_event_id k) ≡ false
    → provider_result_materialize_event_id j ≢ provider_terminal_settlement_event_id k
materialize-ne-settlement j k h g same =
    absurd
      (ground (arith, ap (byte_at 11) (sym (materialize-named j h) ∙ same ∙ settlement-named k g)))

pub materialize-injective :
    (j k : Text)
    → is_empty (provider_result_materialize_event_id j) ≡ false
    → provider_result_materialize_event_id j ≡ provider_result_materialize_event_id k
    → j ≡ k
materialize-injective j k h same =
    let h' = sym (ap is_empty same) ∙ h in
    let p = provider_result_materialize_event_type in
    let both = sym (materialize-named j h) ∙ same ∙ materialize-named k h' in
    sym (after_prefix-append (p ++ (b':' ∷ [])) j)
    ∙ ap (after_prefix (p ++ (b':' ∷ []))) both
    ∙ after_prefix-append (p ++ (b':' ∷ [])) k

pub settlement-injective :
    (j k : Text)
    → is_empty (provider_terminal_settlement_event_id j) ≡ false
    → provider_terminal_settlement_event_id j ≡ provider_terminal_settlement_event_id k
    → j ≡ k
settlement-injective j k h same =
    let h' = sym (ap is_empty same) ∙ h in
    let p = provider_terminal_settlement_event_type in
    let both = sym (settlement-named j h) ∙ same ∙ settlement-named k h' in
    sym (after_prefix-append (p ++ (b':' ∷ [])) j)
    ∙ ap (after_prefix (p ++ (b':' ∷ []))) both
    ∙ after_prefix-append (p ++ (b':' ∷ [])) k

pub hand_off_id-ne-recovery :
    (status : ProviderTerminalStatus) (j k : Text)
    → is_empty (hand_off_id status j) ≡ false
    → is_empty (provider_inbox_recovery_event_id k) ≡ false
    → hand_off_id status j ≢ provider_inbox_recovery_event_id k
hand_off_id-ne-recovery completed = materialize-ne-recovery
hand_off_id-ne-recovery no_status = settlement-ne-recovery
hand_off_id-ne-recovery failed = settlement-ne-recovery
hand_off_id-ne-recovery cancelled = settlement-ne-recovery
hand_off_id-ne-recovery (other_status _) = settlement-ne-recovery

pub materialize-ne-hand_off :
    (status : ProviderTerminalStatus) (j k : Text)
    → is_empty (provider_result_materialize_event_id j) ≡ false
    → is_empty (hand_off_id status k) ≡ false
    → (status ≡ completed → j ≢ k)
    → provider_result_materialize_event_id j ≢ hand_off_id status k
materialize-ne-hand_off completed j k h g f = λ same. f refl (materialize-injective j k h same)
materialize-ne-hand_off no_status j k h g f = materialize-ne-settlement j k h g
materialize-ne-hand_off failed j k h g f = materialize-ne-settlement j k h g
materialize-ne-hand_off cancelled j k h g f = materialize-ne-settlement j k h g
materialize-ne-hand_off (other_status _) j k h g f = materialize-ne-settlement j k h g

pub settlement-ne-hand_off :
    (status : ProviderTerminalStatus) (j k : Text)
    → is_empty (provider_terminal_settlement_event_id j) ≡ false
    → is_empty (hand_off_id status k) ≡ false
    → (status ≢ completed → j ≢ k)
    → provider_terminal_settlement_event_id j ≢ hand_off_id status k
settlement-ne-hand_off completed j k h g f = λ same. materialize-ne-settlement k j g h (sym same)
settlement-ne-hand_off no_status j k h g f =
    λ same. f (λ e. absurd (cc)) (settlement-injective j k h same)
settlement-ne-hand_off failed j k h g f =
    λ same. f (λ e. absurd (cc)) (settlement-injective j k h same)
settlement-ne-hand_off cancelled j k h g f =
    λ same. f (λ e. absurd (cc)) (settlement-injective j k h same)
settlement-ne-hand_off (other_status _) j k h g f =
    λ same. f (λ e. absurd (cc)) (settlement-injective j k h same)
