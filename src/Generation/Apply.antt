-- ===== src/Generation/Apply.antt =====
-- `ApplyProviderTerminal` of internal/biz/generation/provider_terminal.go: what each result says of
-- the slot and the fact.
use ai_go.Common.{true, false, ◌≡◌, ◌≢◌, ◌⊎◌, Option, none, some, arith}
use ai_go.Common.Int.{pos, eqb_ℤ_sound}
use ai_go.Common.Text.{Text}
use ai_go.Common.Case.{UnicodeCase}
use ai_go.Generation.Identity.{Error, ProviderTerminalStatus, no_status}
use ai_go.Generation.ResultRef.{NetUrl, provider_result_refs_equivalent}
use ai_go.Generation.Terminal.{
  ProviderTerminalFact, ProviderTerminalSlot, no_result, applied, noop, quarantined, invalid_slot,
  conclude, is_no_status, same_status, conflict_reason, quarantine_provider_terminal,
  apply_provider_terminal, apply_to, apply_first, apply_again,
}

pub no_status_of : (x : ProviderTerminalStatus) → is_no_status x ≡ true → x ≡ no_status
no_status_of x h = ground arith

-- A slot without a conclusion has version 0.
version_zero :
    (slot : ProviderTerminalSlot)
    → invalid_slot slot ≡ false
    → is_no_status slot.status ≡ true
    → slot.terminal_version ≡ pos 0
unfolding invalid_slot
version_zero slot h k = ground (arith, eqb_ℤ_sound slot.terminal_version (pos 0))

module _ (digest : Text → Text) (u : UnicodeCase) (net : NetUrl) where
  -- What a fact that is applied tells of the slot.
  pub record Concludes (slot : ProviderTerminalSlot) (fact : ProviderTerminalFact)
      (updated : ProviderTerminalSlot) : Type 0 where
    pub was_open : slot.status ≡ no_status
    pub was_free : slot.quarantined ≡ false
    pub version : slot.terminal_version ≡ pos 0
    pub fence : slot.attempt_fence ≡ fact.attempt_fence
    pub result : updated ≡ conclude slot fact

  first-applied :
      (slot : ProviderTerminalSlot) (fact : ProviderTerminalFact) (updated : ProviderTerminalSlot)
      (e : Option Error)
      → apply_first digest u net slot fact ≡ (updated, applied, e)
      → (slot.attempt_fence ≡ fact.attempt_fence) × (updated ≡ conclude slot fact)
  unfolding apply_first
  first-applied slot fact updated e h =
      (ground (arith, eqb_ℤ_sound slot.attempt_fence fact.attempt_fence), ground arith)

  open-applied :
      (slot : ProviderTerminalSlot) (fact : ProviderTerminalFact) (updated : ProviderTerminalSlot)
      (e : Option Error)
      → apply_provider_terminal digest u net (some slot) fact ≡ (updated, applied, e)
      → (invalid_slot slot ≡ false)
        × (slot.quarantined ≡ false)
        × (is_no_status slot.status ≡ true)
        × (apply_first digest u net slot fact ≡ (updated, applied, e))
  unfolding apply_provider_terminal apply_to apply_again
  open-applied slot fact updated e h = (ground arith, ground arith, ground arith, ground arith)

  pub apply-applied :
      (slot : ProviderTerminalSlot) (fact : ProviderTerminalFact) (updated : ProviderTerminalSlot)
      (e : Option Error)
      → apply_provider_terminal digest u net (some slot) fact ≡ (updated, applied, e)
      → Concludes slot fact updated
  apply-applied slot fact updated e h =
      let (valid, free, opened, first) = open-applied slot fact updated e h in
      let (fence, result) = first-applied slot fact updated e first in
      record {
        was_open = no_status_of slot.status opened;
        was_free = free;
        version = version_zero slot valid opened;
        fence = fence;
        result = result;
      }

  pub apply-quarantined :
      (slot : ProviderTerminalSlot) (fact : ProviderTerminalFact) (updated : ProviderTerminalSlot)
      (e : Option Error)
      → apply_provider_terminal digest u net (some slot) fact ≡ (updated, quarantined, e)
      → ((slot.quarantined ≡ true) × (updated ≡ slot))
        ⊎ (updated ≡ quarantine_provider_terminal slot conflict_reason)
  unfolding apply_provider_terminal apply_to apply_again apply_first
  apply-quarantined slot fact updated e h = ground arith

  pub apply-noop :
      (slot : ProviderTerminalSlot) (fact : ProviderTerminalFact) (updated : ProviderTerminalSlot)
      (e : Option Error)
      → apply_provider_terminal digest u net (some slot) fact ≡ (updated, noop, e)
      → (is_no_status slot.status ≡ false)
        × (same_status slot.status fact.status ≡ true)
        × (provider_result_refs_equivalent u net slot.result_ref fact.result_ref ≡ true)
  unfolding apply_provider_terminal apply_to apply_again apply_first
  apply-noop slot fact updated e h = (ground arith, ground arith, ground arith)

  -- Without a result there is an error.
  pub apply-silent :
      (slot : ProviderTerminalSlot) (fact : ProviderTerminalFact) (updated : ProviderTerminalSlot)
      → apply_provider_terminal digest u net (some slot) fact ≢ (updated, no_result, none)
  unfolding apply_provider_terminal apply_to apply_again apply_first
  apply-silent slot fact updated h = ground arith
