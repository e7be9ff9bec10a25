-- ===== src/Generation/Outcome.antt =====
-- `ApplyProviderTerminal` of internal/data/generation_callback_repository.go: its three results.
use mathlib.Core.Path.{subst}
use ai_go.Common.{ℕ, suc, zero, Bool, true, false, ◌≡◌, refl, ap, sym, ◌∙◌, none, some, arith}
use ai_go.Common.Text.{Text}
use ai_go.Common.Result.{ok}
use ai_go.Common.Action.{Action, ◌>>◌, pure, >>=-eq-ok, guard-eq-ok}
use ai_go.Common.Case.{UnicodeCase}
use ai_go.Generation.Identity.{Error, invalid_provider_terminal}
use ai_go.Generation.ResultRef.{NetUrl, provider_result_refs_equivalent}
use ai_go.Generation.Terminal.{
  ProviderTerminalFact, ProviderTerminalSlot, ProviderTerminalApplyResult, no_result, applied, noop,
  quarantined, Applied, invalid_fact, is_no_status, same_status, apply_provider_terminal,
}
use ai_go.Generation.Apply.{Concludes, apply-applied, apply-noop, apply-silent}
use ai_go.Generation.Steps.{StepDocument, Database, Tables, slot_of, is_step_of, or_zero, committed}
use ai_go.Generation.Storage.{
  Codecs, hand_off, after_commit, persist, attempt_terminal, store_provider_terminal,
  read_provider_terminal_slot, commit_provider_terminal, quarantine_step,
  finalize_provider_reconciliation, provider_terminal_cas_attempts,
}
use ai_go.Generation.Writes.{
  StepBecomes, step_at, read-ok, commit-matched, commit-unmatched, quarantine-ok,
}
use ai_go.Generation.Commit.{Concluded}
use ai_go.Generation.Conclusion.{committed-Concluded, some-injective}

module _ (digest : Text → Text) (u : UnicodeCase) (net : NetUrl) (codecs : Codecs)
    (db : Database) where
  -- What a call that succeeds has done: it concluded the step; or the step has this very
  -- conclusion, and nothing changed; or it conflicts, and the step alone is quarantined.
  pub data Outcome (fact : ProviderTerminalFact) (s t : Tables db)
      : ProviderTerminalApplyResult → Type 0 where
    concluding : Concluded digest u net codecs db fact s t → Outcome fact s t applied
    repeating :
        (d : StepDocument)
        → step_at db s fact.step_id ≡ some d
        → is_step_of fact d ≡ true
        → is_no_status d.terminal_status ≡ false
        → same_status d.terminal_status fact.status ≡ true
        → provider_result_refs_equivalent u net d.terminal_result_ref fact.result_ref ≡ true
        → t ≡ s
        → Outcome fact s t noop
    conflicting :
        (d : StepDocument) (reason : Text)
        → is_step_of fact d ≡ true
        → StepBecomes db s t fact.step_id d
            (record d { terminal_quarantined = true; terminal_quarantine_reason = reason })
        → Outcome fact s t quarantined

  after_commit-Concluded :
      (again : Action (Tables db) Error ProviderTerminalApplyResult) (fact : ProviderTerminalFact)
      (d : StepDocument) (updated : ProviderTerminalSlot) (s m t : Tables db) (matched : Bool)
      (r : ProviderTerminalApplyResult)
      → ((r' : ProviderTerminalApplyResult) (t' : Tables db)
          → again s ≡ (ok r', t')
          → Outcome fact s t' r')
      → step_at db s fact.step_id ≡ some d
      → is_step_of fact d ≡ true
      → Concludes digest u net (slot_of fact d) fact updated
      → commit_provider_terminal db fact (slot_of fact d) updated s ≡ (ok matched, m)
      → after_commit digest u net codecs db again fact d.creation_id updated matched m ≡ (ok r, t)
      → Outcome fact s t r
  unfolding after_commit
  after_commit-Concluded again fact d updated s m t false r ih stored is c commit h =
      let back : m ≡ s = commit-unmatched db fact (slot_of fact d) updated s m commit in
      ih r t (ap again (sym back) ∙ h)
  after_commit-Concluded again fact d updated s m t true r ih stored is c commit h =
      let (old, accepted, b) = commit-matched db fact (slot_of fact d) updated s m commit in
      let same : old ≡ d = some-injective old d (sym b.stored ∙ stored) in
      let rest = λ (creation_id : Text).
        hand_off digest codecs db updated.status fact creation_id updated.terminal_version
        >> (finalize_provider_reconciliation codecs db fact creation_id updated.terminal_version
            >> pure {S = Tables db} {E = Error} applied) in
      let (z, n, handed, k) =
        >>=-eq-ok
          (hand_off digest codecs db updated.status fact d.creation_id updated.terminal_version)
          (λ y.
            finalize_provider_reconciliation codecs db fact d.creation_id updated.terminal_version
            >> pure {S = Tables db} {E = Error} applied)
          m h in
      let (w, o, finished, last) =
        >>=-eq-ok
          (finalize_provider_reconciliation codecs db fact d.creation_id updated.terminal_version)
          (λ y. pure {S = Tables db} {E = Error} applied) n k in
      let result : r ≡ applied = ground (arith, ap (λ x. x.0) last) in
      subst (Outcome fact s t) (sym result) (
        concluding (
          committed-Concluded digest u net codecs db fact d updated s m t is c
            (subst (λ x. StepBecomes db s m fact.step_id x (committed fact updated x)) same b)
            (h ∙ (λ i. (ok (result i), t)))))

  persist-Outcome :
      (again : Action (Tables db) Error ProviderTerminalApplyResult) (fact : ProviderTerminalFact)
      (d : StepDocument) (v : Applied) (s t : Tables db) (r : ProviderTerminalApplyResult)
      → ((r' : ProviderTerminalApplyResult) (t' : Tables db)
          → again s ≡ (ok r', t')
          → Outcome fact s t' r')
      → step_at db s fact.step_id ≡ some d
      → is_step_of fact d ≡ true
      → apply_provider_terminal digest u net (some (slot_of fact d)) fact ≡ v
      → persist digest u net codecs db again fact (slot_of fact d) d.creation_id v s ≡ (ok r, t)
      → Outcome fact s t r
  unfolding persist
  persist-Outcome again fact d (updated, noop, e) s t r ih stored is verdict h =
      let (old, status, ref) = apply-noop digest u net (slot_of fact d) fact updated e verdict in
      let result : r ≡ noop = ground (arith, ap (λ x. x.0) h) in
      subst (Outcome fact s t) (sym result)
        (repeating d stored is old status ref (sym (ap (λ x. x.1) h)))
  persist-Outcome again fact d (updated, quarantined, e) s t r ih stored is verdict h =
      let write =
        quarantine_step db fact.step_id (or_zero d.terminal_version) updated.quarantine_reason in
      let (x, m, wrote, k) =
        >>=-eq-ok write (λ y. pure {S = Tables db} {E = Error} quarantined) s h in
      let result : r ≡ quarantined = ground (arith, ap (λ y. y.0) k) in
      let (old, b) =
        quarantine-ok db fact.step_id updated.quarantine_reason (or_zero d.terminal_version) s t
          (wrote ∙ (λ i. (ok tt, (k i).1))) in
      let same : old ≡ d = some-injective old d (sym b.stored ∙ stored) in
      subst (Outcome fact s t) (sym result)
        (conflicting old updated.quarantine_reason (ap (is_step_of fact) same ∙ is) b)
  persist-Outcome again fact d (updated, applied, e) s t r ih stored is verdict h =
      let (matched, m, wrote, k) =
        >>=-eq-ok (commit_provider_terminal db fact (slot_of fact d) updated)
          (after_commit digest u net codecs db again fact d.creation_id updated) s h in
      after_commit-Concluded again fact d updated s m t matched r ih stored is
        (apply-applied digest u net (slot_of fact d) fact updated e verdict) wrote k
  persist-Outcome again fact d (updated, no_result, none) s t r ih stored is verdict h =
      absurd (apply-silent digest u net (slot_of fact d) fact updated verdict)
  persist-Outcome again fact d (updated, no_result, some e) s t r ih stored is verdict h =
      absurd (cc)

  attempt-Outcome :
      (attempts : ℕ) (fact : ProviderTerminalFact) (s t : Tables db)
      (r : ProviderTerminalApplyResult)
      → attempt_terminal digest u net codecs db attempts fact s ≡ (ok r, t)
      → Outcome fact s t r
  unfolding attempt_terminal
  attempt-Outcome zero fact s t r h = absurd (cc)
  attempt-Outcome (suc n) fact s t r h =
      let again = attempt_terminal digest u net codecs db n fact in
      let act : ProviderTerminalSlot × Text → Action (Tables db) Error ProviderTerminalApplyResult =
        λ x.
          persist digest u net codecs db again fact x.0 x.1
            (apply_provider_terminal digest u net (some x.0) fact) in
      let (x, m, read, k) = >>=-eq-ok (read_provider_terminal_slot db fact) act s h in
      let (back, (d, stored, is, same)) = read-ok db fact s m x read in
      persist-Outcome again fact d
        (apply_provider_terminal digest u net (some (slot_of fact d)) fact) s t r
        (λ r' t'. attempt-Outcome n fact s t' r') stored is refl
        ((λ i. act (sym same i) (sym back i)) ∙ k)

  -- A call that succeeds was made with a valid fact of a stored step, and either concludes that
  -- step, which had neither conclusion nor quarantine, for the attempt that the fact names, with
  -- version 1, the event that its status asks for and the payload of this conclusion, and the event
  -- that reconciles the step delivered; or the step has a conclusion with the same status and an
  -- equivalent result, and nothing changes; or the step is quarantined, and nothing else changes.
  pub store_provider_terminal-Outcome :
      (fact : ProviderTerminalFact) (s t : Tables db) (r : ProviderTerminalApplyResult)
      → store_provider_terminal digest u net codecs db fact s ≡ (ok r, t)
      → (invalid_fact digest fact ≡ false) × Outcome fact s t r
  unfolding store_provider_terminal
  store_provider_terminal-Outcome fact s t r h =
      let (valid, k) =
        guard-eq-ok (invalid_fact digest fact) invalid_provider_terminal
          (attempt_terminal digest u net codecs db provider_terminal_cas_attempts fact) s h in
      (valid, attempt-Outcome provider_terminal_cas_attempts fact s t r k)
