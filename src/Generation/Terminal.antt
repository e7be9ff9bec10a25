-- ===== src/Generation/Terminal.antt =====
-- internal/biz/generation/provider_terminal.go: the terminal slot of a step, and what a fact makes of
-- it. `""` as a result is `no_result`.
use ai_go.Common.{Bool, true, false, not, ◌&&◌, ◌||◌, Option, none, some, [], if◌then◌else◌}
use ai_go.Common.Int.{ℤ, pos, ◌+ℤ◌, leb_ℤ, ltb_ℤ, eqb_ℤ, wrap64}
use ai_go.Common.Text.{Text, codes, eq_text, is_empty}
use ai_go.Common.Case.{UnicodeCase}
use ai_go.Common.Clock.{Time, zero_time, is_zero}
use ai_go.Generation.Identity.{
  Error, invalid_provider_terminal, provider_terminal_conflict, provider_terminal_fence,
  provider_terminal_version, ProviderTerminalStatus, no_status, completed, failed, cancelled,
  other_status, valid_provider_terminal_status, provider_terminal_identity, provider_inbox_digest,
  valid_provider_result_ref, provider_terminal_summary_digest,
}
use ai_go.Generation.ResultRef.{NetUrl, provider_result_refs_equivalent}

pub record ProviderTerminalFact : Type 0 where
  pub provider : Text
  pub account_ref : Text
  pub step_id : Text
  pub external_execution_id : Text
  pub capability : Text
  pub status : ProviderTerminalStatus
  pub result_ref : Text
  pub terminal_digest : Text
  pub payload_digest : Text
  pub attempt_fence : ℤ  -- int64
  pub lease_token : Text
  pub expected_version : ℤ  -- int64
  pub observed_at : Time

pub record ProviderTerminalSlot : Type 0 where
  pub provider : Text
  pub account_ref : Text
  pub step_id : Text
  pub external_execution_id : Text
  pub capability : Text
  pub attempt_fence : ℤ  -- int64
  pub lease_token : Text
  pub terminal_version : ℤ  -- int64
  pub status : ProviderTerminalStatus
  pub result_ref : Text
  pub terminal_digest : Text
  pub payload_digest : Text
  pub confirmed_at : Time
  pub quarantined : Bool
  pub quarantine_reason : Text

pub data ProviderTerminalApplyResult : Type 0 where
  no_result applied noop quarantined : ProviderTerminalApplyResult

-- `ProviderTerminalSlot{}`.
abbrev pub empty_slot : ProviderTerminalSlot
empty_slot = record {
  provider = [];
  account_ref = [];
  step_id = [];
  external_execution_id = [];
  capability = [];
  attempt_fence = pos 0;
  lease_token = [];
  terminal_version = pos 0;
  status = no_status;
  result_ref = [];
  terminal_digest = [];
  payload_digest = [];
  confirmed_at = zero_time;
  quarantined = false;
  quarantine_reason = [];
}

abbrev pub is_no_status : ProviderTerminalStatus → Bool
is_no_status no_status = true
is_no_status _ = false

abbrev pub same_status : ProviderTerminalStatus → ProviderTerminalStatus → Bool
same_status no_status no_status = true
same_status completed completed = true
same_status failed failed = true
same_status cancelled cancelled = true
same_status (other_status a) (other_status b) = eq_text a b
same_status _ _ = false

-- `reason.Error()` for the one reason that is used.
abbrev pub conflict_reason : Text
conflict_reason = codes "generation: provider terminal conflict"

unfoldable pub quarantine_provider_terminal : ProviderTerminalSlot → Text → ProviderTerminalSlot
quarantine_provider_terminal current reason = record current {
  quarantined = true;
  quarantine_reason = reason;
}

unfoldable pub same_provider_terminal_identity : ProviderTerminalSlot → ProviderTerminalFact → Bool
same_provider_terminal_identity slot fact =
    eq_text slot.provider fact.provider
    && eq_text slot.account_ref fact.account_ref
    && eq_text slot.step_id fact.step_id
    && eq_text slot.external_execution_id fact.external_execution_id
    && eq_text slot.capability fact.capability

abbrev invalid_lease : Text → Bool
invalid_lease token = not (is_empty token) && not (provider_terminal_identity token)

-- The second half of the slot's checks.
abbrev invalid_conclusion : Bool → ProviderTerminalSlot → Bool
invalid_conclusion true slot =
    not (eqb_ℤ slot.terminal_version (pos 0))
    || not (is_empty slot.terminal_digest)
    || not (is_empty slot.payload_digest)
invalid_conclusion false slot =
    not (valid_provider_terminal_status slot.status)
    || leb_ℤ slot.terminal_version (pos 0)
    || not (provider_inbox_digest slot.terminal_digest)
    || not (provider_inbox_digest slot.payload_digest)

unfoldable pub invalid_slot : ProviderTerminalSlot → Bool
invalid_slot slot =
    not (provider_terminal_identity slot.provider)
    || not (provider_terminal_identity slot.account_ref)
    || not (provider_terminal_identity slot.step_id)
    || not (provider_terminal_identity slot.external_execution_id)
    || not (provider_terminal_identity slot.capability)
    || leb_ℤ slot.attempt_fence (pos 0)
    || ltb_ℤ slot.terminal_version (pos 0)
    || (is_zero slot.confirmed_at && not (is_no_status slot.status))
    || invalid_lease slot.lease_token
    || invalid_conclusion (is_no_status slot.status) slot

module _ (digest : Text → Text) where
  -- The result locator and the digest that belong to a status.
  abbrev invalid_result : ProviderTerminalStatus → ProviderTerminalFact → Bool
  invalid_result completed fact =
      not (valid_provider_result_ref fact.result_ref)
      || not (
          eq_text fact.terminal_digest
            (provider_terminal_summary_digest digest fact.status fact.result_ref))
  invalid_result _ fact =
      not (is_empty fact.result_ref)
      || not (eq_text fact.terminal_digest (provider_terminal_summary_digest digest fact.status []))

  unfoldable pub invalid_fact : ProviderTerminalFact → Bool
  invalid_fact fact =
      not (provider_terminal_identity fact.provider)
      || not (provider_terminal_identity fact.account_ref)
      || not (provider_terminal_identity fact.step_id)
      || not (provider_terminal_identity fact.external_execution_id)
      || not (provider_terminal_identity fact.capability)
      || not (provider_inbox_digest fact.terminal_digest)
      || not (provider_inbox_digest fact.payload_digest)
      || leb_ℤ fact.attempt_fence (pos 0)
      || ltb_ℤ fact.expected_version (pos 0)
      || is_zero fact.observed_at
      || not (valid_provider_terminal_status fact.status)
      || invalid_result fact.status fact
      || invalid_lease fact.lease_token

abbrev pub new_slot : ProviderTerminalFact → ProviderTerminalSlot
new_slot incoming = record {
  provider = incoming.provider;
  account_ref = incoming.account_ref;
  step_id = incoming.step_id;
  external_execution_id = incoming.external_execution_id;
  capability = incoming.capability;
  attempt_fence = incoming.attempt_fence;
  lease_token = incoming.lease_token;
  terminal_version = pos 1;
  status = incoming.status;
  result_ref = incoming.result_ref;
  terminal_digest = incoming.terminal_digest;
  payload_digest = incoming.payload_digest;
  confirmed_at = incoming.observed_at;
  quarantined = false;
  quarantine_reason = [];
}

abbrev pub conclude : ProviderTerminalSlot → ProviderTerminalFact → ProviderTerminalSlot
conclude current incoming = record current {
  terminal_version = wrap64 (current.terminal_version +ℤ pos 1);
  status = incoming.status;
  result_ref = incoming.result_ref;
  terminal_digest = incoming.terminal_digest;
  payload_digest = incoming.payload_digest;
  confirmed_at = incoming.observed_at;
}

abbrev pub Applied : Type 0
Applied = ProviderTerminalSlot × ProviderTerminalApplyResult × Option Error

abbrev pub conflicting : ProviderTerminalSlot → Applied
conflicting current = (
  quarantine_provider_terminal current conflict_reason,
  quarantined,
  some provider_terminal_conflict,
)

module _ (digest : Text → Text) (u : UnicodeCase) (net : NetUrl) where
  -- A slot with a conclusion, and one without.
  unfoldable pub apply_again : ProviderTerminalSlot → ProviderTerminalFact → Applied
  apply_again current incoming =
      if same_status current.status incoming.status
        && provider_result_refs_equivalent u net current.result_ref incoming.result_ref
      then (current, noop, none)
      else conflicting current

  unfoldable pub apply_first : ProviderTerminalSlot → ProviderTerminalFact → Applied
  apply_first current incoming =
      if not (eqb_ℤ current.attempt_fence incoming.attempt_fence)
        || (not (is_empty current.lease_token)
            && not (eq_text current.lease_token incoming.lease_token))
      then (current, no_result, some provider_terminal_fence)
      else if not (eqb_ℤ incoming.expected_version current.terminal_version)
      then (current, no_result, some provider_terminal_version)
      else (conclude current incoming, applied, none)

  unfoldable pub apply_to : ProviderTerminalSlot → ProviderTerminalFact → Applied
  apply_to current incoming =
      if invalid_slot current
      then (empty_slot, no_result, some invalid_provider_terminal)
      else if current.quarantined
      then (current, quarantined, some provider_terminal_conflict)
      else if not (same_provider_terminal_identity current incoming)
      then conflicting current
      else if not (is_no_status current.status)
      then apply_again current incoming
      else apply_first current incoming

  unfoldable pub apply_provider_terminal :
      Option ProviderTerminalSlot → ProviderTerminalFact → Applied
  apply_provider_terminal existing incoming =
      if invalid_fact digest incoming
      then (empty_slot, no_result, some invalid_provider_terminal)
      else apply_existing existing incoming
    where
      apply_existing : Option ProviderTerminalSlot → ProviderTerminalFact → Applied
      apply_existing none incoming =
          if not (eqb_ℤ incoming.expected_version (pos 0))
          then (empty_slot, quarantined, some provider_terminal_version)
          else (new_slot incoming, applied, none)
      apply_existing (some current) incoming = apply_to current incoming
