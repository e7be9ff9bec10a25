-- ===== src/Generation/Ends.antt =====
-- What becomes of a step by the calls of internal/data/generation_callback_repository.go that store a
-- terminal fact.
use mathlib.Core.Path.{subst}
use ai_go.Common.{true, false, ◌≡◌, ◌≢◌, refl, ap, sym, ◌∙◌, inl, inr, some, arith}
use ai_go.Common.Text.{Text, text-cases}
use ai_go.Common.Case.{UnicodeCase}
use ai_go.Generation.Identity.{no_status}
use ai_go.Generation.ResultRef.{NetUrl}
use ai_go.Generation.Terminal.{ProviderTerminalFact, ProviderTerminalApplyResult, is_no_status}
use ai_go.Generation.Steps.{StepDocument, Database, Tables, quarantined_step}
use ai_go.Generation.Storage.{Codecs}
use ai_go.Generation.Writes.{step_at}
use ai_go.Generation.Commit.{concluded_step}
use ai_go.Generation.Outcome.{Outcome, concluding, repeating, conflicting}

-- A step keeps its identity, a conclusion for good, and its quarantine.
pub record EndsOnce (d e : StepDocument) : Type 0 where
  pub same_creation : e.creation_id ≡ d.creation_id
  pub same_provider : e.provider ≡ d.provider
  pub same_account : e.account_ref ≡ d.account_ref
  pub same_task : e.external_execution_id ≡ d.external_execution_id
  pub same_atom : e.atom ≡ d.atom
  pub final :
      is_no_status d.terminal_status ≡ false
      → (e.terminal_status ≡ d.terminal_status)
        × (e.terminal_version ≡ d.terminal_version)
        × (e.terminal_result_ref ≡ d.terminal_result_ref)
        × (e.terminal_digest ≡ d.terminal_digest)
        × (e.terminal_payload_digest ≡ d.terminal_payload_digest)
        × (e.terminal_confirmed_at ≡ d.terminal_confirmed_at)
  pub stays : d.terminal_quarantined ≡ true → e.terminal_quarantined ≡ true

pub EndsOnce-refl : (d : StepDocument) → EndsOnce d d
EndsOnce-refl d = record {
  same_creation = refl;
  same_provider = refl;
  same_account = refl;
  same_task = refl;
  same_atom = refl;
  final = λ h. (refl, refl, refl, refl, refl, refl);
  stays = λ h. h;
}

pub EndsOnce-trans : {d e f : StepDocument} → EndsOnce d e → EndsOnce e f → EndsOnce d f
EndsOnce-trans a b = record {
  same_creation = b.same_creation ∙ a.same_creation;
  same_provider = b.same_provider ∙ a.same_provider;
  same_account = b.same_account ∙ a.same_account;
  same_task = b.same_task ∙ a.same_task;
  same_atom = b.same_atom ∙ a.same_atom;
  final = λ h.
      let (s, v, r, t, p, c) = a.final h in
      let (s', v', r', t', p', c') = b.final (ap is_no_status s ∙ h) in
      (s' ∙ s, v' ∙ v, r' ∙ r, t' ∙ t, p' ∙ p, c' ∙ c);
  stays = λ h. b.stays (a.stays h);
}

concluded_step-EndsOnce :
    (fact : ProviderTerminalFact) (d : StepDocument)
    → d.terminal_status ≡ no_status
    → d.terminal_quarantined ≡ false
    → EndsOnce d (concluded_step fact d)
concluded_step-EndsOnce fact d opened free = record {
  same_creation = refl;
  same_provider = refl;
  same_account = refl;
  same_task = refl;
  same_atom = refl;
  final = λ h. absurd (ground (arith, sym (ap is_no_status opened) ∙ h));
  stays = λ h. absurd (ground (arith, sym free ∙ h));
}

quarantined_step-EndsOnce :
    (reason : Text) (d : StepDocument) → EndsOnce d (quarantined_step reason d)
quarantined_step-EndsOnce reason d = record {
  same_creation = refl;
  same_provider = refl;
  same_account = refl;
  same_task = refl;
  same_atom = refl;
  final = λ h. (refl, refl, refl, refl, refl, refl);
  stays = λ h. refl;
}

pub some-eq : {A : Type 0} (a b : A) → some a ≡ some b → a ≡ b
some-eq a b h = ground arith

module _ (db : Database) where
  -- One step that changes, by its own lemma; the others stay.
  becomes-EndsOnce :
      (s t : Tables db) (id k : Text) (old new d : StepDocument)
      → step_at db s id ≡ some old
      → step_at db t id ≡ some new
      → ((j : Text) → j ≢ id → step_at db t j ≡ step_at db s j)
      → EndsOnce old new
      → step_at db s k ≡ some d
      → (d' : StepDocument) × (step_at db t k ≡ some d') × EndsOnce d d'
  becomes-EndsOnce s t id k old new d stored replaced others ends there = elim (text-cases k id) [
    | inl same ↦
        let it : old ≡ d = some-eq old d (sym stored ∙ ap (step_at db s) (sym same) ∙ there) in
        (new, ap (step_at db t) same ∙ replaced, subst (λ x. EndsOnce x new) it ends)
    | inr ne ↦ (d, others k ne ∙ there, EndsOnce-refl d)
  ]

module _ (digest : Text → Text) (u : UnicodeCase) (net : NetUrl) (codecs : Codecs)
    (db : Database) where
  pub Outcome-EndsOnce :
      (fact : ProviderTerminalFact) (s t : Tables db) (r : ProviderTerminalApplyResult) (k : Text)
      (d : StepDocument)
      → Outcome digest u net codecs db fact s t r
      → step_at db s k ≡ some d
      → (d' : StepDocument) × (step_at db t k ≡ some d') × EndsOnce d d'
  Outcome-EndsOnce fact s t r k d (concluding c) there =
      becomes-EndsOnce db s t fact.step_id k c.old (concluded_step fact c.old) d c.stored
        c.concluded c.other_steps (concluded_step-EndsOnce fact c.old c.was_open c.was_free) there
  Outcome-EndsOnce fact s t r k d (repeating x a b e f g same) there =
      (d, ap (λ y. step_at db y k) same ∙ there, EndsOnce-refl d)
  Outcome-EndsOnce fact s t r k d (conflicting old reason is b) there =
      becomes-EndsOnce db s t fact.step_id k old (quarantined_step reason old) d b.stored b.replaced
        b.others (quarantined_step-EndsOnce reason old) there
