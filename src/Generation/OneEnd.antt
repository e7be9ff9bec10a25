-- ===== src/Generation/OneEnd.antt =====
-- Terminal facts in any order, over internal/data/generation_callback_repository.go: what becomes of
-- a step, and which events it is handed over by.
use mathlib.Core.Path.{subst}
use ai_go.Common.{Bool, true, false, ◌≡◌, ◌≢◌, refl, ap, sym, ◌∙◌, ◌⊎◌, inl, inr, some, arith}
use ai_go.Common.Text.{Text, is_empty, text-cases}
use ai_go.Common.Result.{Result, ok, err}
use ai_go.Common.Case.{UnicodeCase}
use ai_go.Mongo.{Transaction}
use ai_go.Outbox.Documents.{OutboxEventDocument}
use ai_go.Generation.Identity.{
  store_error, Error, ProviderTerminalStatus, no_status, completed, failed, cancelled, other_status,
  valid_provider_terminal_status, provider_result_materialize_event_id,
  provider_terminal_settlement_event_id,
}
use ai_go.Generation.EventIds.{
  hand_off_id, materialize-ne-recovery, settlement-ne-recovery, materialize-ne-hand_off,
  settlement-ne-hand_off,
}
use ai_go.Generation.ResultRef.{NetUrl}
use ai_go.Generation.Terminal.{ProviderTerminalFact, ProviderTerminalApplyResult, invalid_fact}
use ai_go.Generation.Steps.{StepDocument, Database, Tables, quarantined_step}
use ai_go.Generation.Storage.{Codecs, store_provider_terminal}
use ai_go.Generation.Writes.{StepBecomes, step_at, event_at}
use ai_go.Generation.Commit.{concluded_step, Concluded}
use ai_go.Generation.Outcome.{
  Outcome, concluding, repeating, conflicting, store_provider_terminal-Outcome,
}
use ai_go.Generation.Ends.{EndsOnce, EndsOnce-refl, EndsOnce-trans, Outcome-EndsOnce, some-eq}

abbrev is_failure : ProviderTerminalStatus → Bool
is_failure failed = true
is_failure cancelled = true
is_failure _ = false

-- A fact that is valid has one of three statuses.
valid-status :
    (digest : Text → Text) (fact : ProviderTerminalFact)
    → invalid_fact digest fact ≡ false
    → (fact.status ≡ completed) ⊎ (is_failure fact.status ≡ true)
unfolding invalid_fact
valid-status digest fact h = three fact.status (ground arith)
  where
    three :
        (x : ProviderTerminalStatus)
        → valid_provider_terminal_status x ≡ true
        → (x ≡ completed) ⊎ (is_failure x ≡ true)
    three no_status g = absurd (ground arith)
    three completed g = inl refl
    three failed g = inr refl
    three cancelled g = inr refl
    three (other_status _) g = absurd (ground arith)

module _ (db : Database) where
  -- A result is published, and a reservation settled, for a step that ended so.
  pub record IsOneEnded (s : Tables db) : Type 0 where
    pub published :
        (k : Text) (d : StepDocument) (e : OutboxEventDocument)
        → is_empty (provider_result_materialize_event_id k) ≡ false
        → step_at db s k ≡ some d
        → event_at db s (provider_result_materialize_event_id k) ≡ some e
        → d.terminal_status ≡ completed
    pub settled :
        (k : Text) (d : StepDocument) (e : OutboxEventDocument)
        → is_empty (provider_terminal_settlement_event_id k) ≡ false
        → step_at db s k ≡ some d
        → event_at db s (provider_terminal_settlement_event_id k) ≡ some e
        → is_failure d.terminal_status ≡ true

  quarantine-before :
      (s t : Tables db) (id reason : Text) (old : StepDocument) (k : Text) (d : StepDocument)
      → StepBecomes db s t id old (quarantined_step reason old)
      → step_at db t k ≡ some d
      → (b : StepDocument) × (step_at db s k ≡ some b) × (d.terminal_status ≡ b.terminal_status)
  quarantine-before s t id reason old k d b there = elim (text-cases k id) [
    | inl same ↦
        let new : quarantined_step reason old ≡ d =
          some-eq (quarantined_step reason old) d
            (sym b.replaced ∙ ap (step_at db t) (sym same) ∙ there) in
        (old, ap (step_at db s) same ∙ b.stored, ap (λ x. x.terminal_status) (sym new))
    | inr ne ↦ (d, sym (b.others k ne) ∙ there, refl)
  ]

  quarantine-IsOneEnded :
      (s t : Tables db) (id reason : Text) (old : StepDocument)
      → StepBecomes db s t id old (quarantined_step reason old)
      → IsOneEnded s
      → IsOneEnded t
  quarantine-IsOneEnded s t id reason old b inv = record {
    published = λ k d e named there event.
        let (x, was, same) = quarantine-before s t id reason old k d b there in
        same
        ∙ inv.published k x e named was
            (ap (λ g. g (provider_result_materialize_event_id k)) (sym b.same_events) ∙ event);
    settled = λ k d e named there event.
        let (x, was, same) = quarantine-before s t id reason old k d b there in
        ap is_failure same
        ∙ inv.settled k x e named was
            (ap (λ g. g (provider_terminal_settlement_event_id k)) (sym b.same_events) ∙ event);
  }

module _ (digest : Text → Text) (u : UnicodeCase) (net : NetUrl) (codecs : Codecs)
    (db : Database) where
  Concluded-published :
      (fact : ProviderTerminalFact) (s t : Tables db)
      → (fact.status ≡ completed) ⊎ (is_failure fact.status ≡ true)
      → Concluded digest u net codecs db fact s t
      → IsOneEnded db s
      → (k : Text) (d : StepDocument) (e : OutboxEventDocument)
      → is_empty (provider_result_materialize_event_id k) ≡ false
      → step_at db t k ≡ some d
      → event_at db t (provider_result_materialize_event_id k) ≡ some e
      → d.terminal_status ≡ completed
  Concluded-published fact s t how c inv k d e named there event =
      let id = provider_result_materialize_event_id k in
      let before = λ (apart : id ≢ hand_off_id fact.status fact.step_id).
        sym
          (c.other_events id apart (materialize-ne-recovery k fact.step_id named c.recovery_named))
        ∙ event in
      elim (text-cases k fact.step_id) [
        | inr ne ↦
            inv.published k d e named (sym (c.other_steps k ne) ∙ there) (
              before
                (materialize-ne-hand_off fact.status k fact.step_id named c.named (λ done. ne)))
        | inl same ↦ elim how [
          | inl done ↦
              let new : concluded_step fact c.old ≡ d =
                some-eq (concluded_step fact c.old) d
                  (sym c.concluded ∙ ap (step_at db t) (sym same) ∙ there) in
              ap (λ x. x.terminal_status) (sym new) ∙ done
          | inr failure ↦
              let apart =
                materialize-ne-hand_off fact.status k fact.step_id named c.named
                  (λ done. absurd (ground (arith, ap is_failure (sym done) ∙ failure))) in
              let was : c.old.terminal_status ≡ completed =
                inv.published k c.old e named (ap (step_at db s) same ∙ c.stored) (before apart) in
              absurd (ground (arith, sym c.was_open ∙ was))
        ]
      ]

  Concluded-settled :
      (fact : ProviderTerminalFact) (s t : Tables db)
      → (fact.status ≡ completed) ⊎ (is_failure fact.status ≡ true)
      → Concluded digest u net codecs db fact s t
      → IsOneEnded db s
      → (k : Text) (d : StepDocument) (e : OutboxEventDocument)
      → is_empty (provider_terminal_settlement_event_id k) ≡ false
      → step_at db t k ≡ some d
      → event_at db t (provider_terminal_settlement_event_id k) ≡ some e
      → is_failure d.terminal_status ≡ true
  Concluded-settled fact s t how c inv k d e named there event =
      let id = provider_terminal_settlement_event_id k in
      let before = λ (apart : id ≢ hand_off_id fact.status fact.step_id).
        sym (c.other_events id apart (settlement-ne-recovery k fact.step_id named c.recovery_named))
        ∙ event in
      elim (text-cases k fact.step_id) [
        | inr ne ↦
            inv.settled k d e named (sym (c.other_steps k ne) ∙ there) (
              before
                (settlement-ne-hand_off fact.status k fact.step_id named c.named (λ other. ne)))
        | inl same ↦ elim how [
          | inr failure ↦
              let new : concluded_step fact c.old ≡ d =
                some-eq (concluded_step fact c.old) d
                  (sym c.concluded ∙ ap (step_at db t) (sym same) ∙ there) in
              ap (λ x. is_failure x.terminal_status) (sym new) ∙ failure
          | inl done ↦
              let apart =
                settlement-ne-hand_off fact.status k fact.step_id named c.named
                  (λ ne. absurd (ne done)) in
              let was : is_failure c.old.terminal_status ≡ true =
                inv.settled k c.old e named (ap (step_at db s) same ∙ c.stored) (before apart) in
              absurd (ground (arith, ap is_failure (sym c.was_open) ∙ was))
        ]
      ]

  Outcome-IsOneEnded :
      (fact : ProviderTerminalFact) (s t : Tables db) (r : ProviderTerminalApplyResult)
      → invalid_fact digest fact ≡ false
      → Outcome digest u net codecs db fact s t r
      → IsOneEnded db s
      → IsOneEnded db t
  Outcome-IsOneEnded fact s t r valid (concluding c) inv =
      let how = valid-status digest fact valid in
      record {
        published = Concluded-published fact s t how c inv;
        settled = Concluded-settled fact s t how c inv;
      }
  Outcome-IsOneEnded fact s t r valid (repeating x a b e f g same) inv =
      subst (IsOneEnded db) (sym same) inv
  Outcome-IsOneEnded fact s t r valid (conflicting old reason is b) inv =
      quarantine-IsOneEnded db s t fact.step_id reason old b inv

  -- What a sequence of transactions reaches, each of which stores a fact or fails.
  pub data Reaches (tx : Transaction (Tables db) Error store_error ProviderTerminalApplyResult)
      (s : Tables db) : Tables db → Type 0 where
    start : Reaches tx s s
    then_ :
        {t w : Tables db} (fact : ProviderTerminalFact)
        (r : Result Error ProviderTerminalApplyResult)
        → Reaches tx s t
        → tx.run (store_provider_terminal digest u net codecs db fact) t ≡ (r, w)
        → Reaches tx s w

  stored-keeps :
      (fact : ProviderTerminalFact) (s t : Tables db) (r : ProviderTerminalApplyResult)
      → store_provider_terminal digest u net codecs db fact s ≡ (ok r, t)
      → (IsOneEnded db s → IsOneEnded db t)
        × ((k : Text) (d : StepDocument)
            → step_at db s k ≡ some d
            → (d' : StepDocument) × (step_at db t k ≡ some d') × EndsOnce d d')
  stored-keeps fact s t r h =
      let (valid, o) = store_provider_terminal-Outcome digest u net codecs db fact s t r h in
      (
        Outcome-IsOneEnded fact s t r valid o,
        λ k d there. Outcome-EndsOnce digest u net codecs db fact s t r k d o there,
      )

  transaction-keeps :
      (tx : Transaction (Tables db) Error store_error ProviderTerminalApplyResult)
      (fact : ProviderTerminalFact) (s t : Tables db) (r : Result Error ProviderTerminalApplyResult)
      → tx.run (store_provider_terminal digest u net codecs db fact) s ≡ (r, t)
      → (IsOneEnded db s → IsOneEnded db t)
        × ((k : Text) (d : StepDocument)
            → step_at db s k ≡ some d
            → (d' : StepDocument) × (step_at db t k ≡ some d') × EndsOnce d d')
  transaction-keeps tx fact s t (ok r) h =
      stored-keeps fact s t r
        (tx.commits (store_provider_terminal digest u net codecs db fact) s t r h)
  transaction-keeps tx fact s t (err e) h =
      elim (tx.aborts (store_provider_terminal digest u net codecs db fact) s t e h) [
        | inl back ↦ (
          subst (IsOneEnded db) (sym back),
          λ k d there. (d, ap (λ x. step_at db x k) back ∙ there, EndsOnce-refl d),
        )
        | inr (lost, r, kept) ↦ stored-keeps fact s t r kept
      ]

  -- Whatever terminal facts arrive, in any order and however many, each stored or refused in its
  -- transaction: a stored step keeps its identity; once it has a conclusion its status, version,
  -- result, digests and time never change; a quarantine stays; and if every stored step with an
  -- event for publication is completed, and every one with an event for settlement failed or
  -- cancelled, so it still is, so that no step has both.
  pub Reaches-EndsOnce :
      (tx : Transaction (Tables db) Error store_error ProviderTerminalApplyResult) (s t : Tables db)
      → Reaches tx s t
      → (IsOneEnded db s → IsOneEnded db t)
        × ((k : Text) (d : StepDocument)
            → step_at db s k ≡ some d
            → (d' : StepDocument) × (step_at db t k ≡ some d') × EndsOnce d d')
  Reaches-EndsOnce tx s t start = (λ h. h, λ k d there. (d, there, EndsOnce-refl d))
  Reaches-EndsOnce tx s w (then_ {t} fact r before h) =
      let (one, ends) = Reaches-EndsOnce tx s t before in
      let (one', ends') = transaction-keeps tx fact t w r h in
      (
        λ inv. one' (one inv),
        λ k d there.
            let (d', there', evolves) = ends k d there in
            let (d'', there'', evolves') = ends' k d' there' in
            (d'', there'', EndsOnce-trans evolves evolves'),
      )
