-- ===== src/Generation/Payloads.antt =====
-- The payloads of the events behind a terminal state, of provider_result_materialize.go,
-- provider_terminal_settlement.go and provider_inbox.go in internal/biz/generation.
-- encoding/json is a parameter: `marshal` and `unmarshal` of one type of payload, `none` where they
-- return an error.
use ai_go.Common.{Bool, true, false, not, ◌&&◌, Option, none, some, [], ◌≡◌}
use ai_go.Common.Int.{ℤ, pos, ltb_ℤ}
use ai_go.Common.Text.{Text, eq_text, is_empty}
use ai_go.Common.Result.{Result, ok, err, guard, ◌>>=◌, ◌>>◌}
use ai_go.Generation.Identity.{
  Error, store_error, invalid_provider_terminal, invalid_provider_terminal_settlement,
  invalid_provider_inbox_record, ProviderTerminalStatus, completed, failed, cancelled,
  provider_terminal_identity, provider_inbox_digest, valid_provider_result_ref,
  is_frozen_capability, provider_terminal_summary_digest, provider_result_materialize_event_id,
  provider_terminal_settlement_event_id, provider_inbox_recovery_event_id,
}

pub record Json (P : Type 0) : Type 0 where
  pub marshal : P → Option Text
  pub unmarshal : Text → Option P

-- The documented behaviour of encoding/json that a round trip needs, for the payloads of a sort:
-- what was marshalled is unmarshalled to the same payload. It holds of payloads whose texts are valid
-- UTF-8: other bytes are written as U+FFFD.
abbrev pub IsFaithful : {P : Type 0} → Json P → (P → Bool) → Type 0
IsFaithful {P} json test =
    (p : P) (raw : Text) → test p ≡ true → json.marshal p ≡ some raw → json.unmarshal raw ≡ some p

pub record ProviderResultMaterializeEventPayload : Type 0 where
  pub creation_id : Text
  pub step_id : Text
  pub provider : Text
  pub account_ref : Text
  pub job_id : Text
  pub capability : Text
  pub result_ref : Text
  pub terminal_version : ℤ  -- int64
  pub terminal_digest : Text

pub record ProviderTerminalSettlementEventPayload : Type 0 where
  pub creation_id : Text
  pub step_id : Text
  pub provider : Text
  pub account_ref : Text
  pub job_id : Text
  pub capability : Text
  pub status : ProviderTerminalStatus
  pub terminal_version : ℤ  -- int64
  pub terminal_digest : Text

pub record ProviderReconcileEventPayload : Type 0 where
  pub creation_id : Text
  pub step_id : Text

abbrev is_failed_or_cancelled : ProviderTerminalStatus → Bool
is_failed_or_cancelled failed = true
is_failed_or_cancelled cancelled = true
is_failed_or_cancelled _ = false

module _ (digest : Text → Text) where
  unfoldable pub valid_materialize : ProviderResultMaterializeEventPayload → Bool
  valid_materialize p =
      provider_terminal_identity p.creation_id
      && not (is_empty (provider_result_materialize_event_id p.step_id))
      && provider_terminal_identity p.provider
      && provider_terminal_identity p.account_ref
      && provider_terminal_identity p.job_id
      && is_frozen_capability p.capability
      && valid_provider_result_ref p.result_ref
      && ltb_ℤ (pos 0) p.terminal_version
      && provider_inbox_digest p.terminal_digest
      && eq_text p.terminal_digest (provider_terminal_summary_digest digest completed p.result_ref)

  unfoldable pub valid_settlement : ProviderTerminalSettlementEventPayload → Bool
  valid_settlement p =
      provider_terminal_identity p.creation_id
      && not (is_empty (provider_terminal_settlement_event_id p.step_id))
      && provider_terminal_identity p.provider
      && provider_terminal_identity p.account_ref
      && provider_terminal_identity p.job_id
      && is_frozen_capability p.capability
      && is_failed_or_cancelled p.status
      && ltb_ℤ (pos 0) p.terminal_version
      && provider_inbox_digest p.terminal_digest
      && eq_text p.terminal_digest (provider_terminal_summary_digest digest p.status [])

-- `json.Marshal(payload)`.
abbrev pub or_store_error : Option Text → Result Error Text
or_store_error none = err store_error
or_store_error (some raw) = ok raw

abbrev pub marshalled : {P : Type 0} → Json P → P → Result Error Text
marshalled json p = or_store_error (json.marshal p)

abbrev pub or_invalid : {A : Type 0} → Error → Option A → Result Error A
or_invalid e none = err e
or_invalid e (some a) = ok a

-- `err != nil || string(canonical) != string(raw)`.
abbrev pub is_canonical : Text → Result Error Text → Bool
is_canonical raw (ok canonical) = eq_text canonical raw
is_canonical raw (err e) = false

module _ (digest : Text → Text) (json : Json ProviderResultMaterializeEventPayload) where
  unfoldable pub marshal_provider_result_materialize_event_payload :
      ProviderResultMaterializeEventPayload → Result Error Text
  marshal_provider_result_materialize_event_payload p = do
    guard (valid_materialize digest p) invalid_provider_terminal
    marshalled json p

  unfoldable pub parse_provider_result_materialize_event_payload :
      Text → Result Error ProviderResultMaterializeEventPayload
  parse_provider_result_materialize_event_payload raw = do
    p ← or_invalid invalid_provider_terminal (json.unmarshal raw)
    guard (valid_materialize digest p) invalid_provider_terminal
    guard (is_canonical raw (marshal_provider_result_materialize_event_payload p))
        invalid_provider_terminal
    ok p

module _ (digest : Text → Text) (json : Json ProviderTerminalSettlementEventPayload) where
  unfoldable pub marshal_provider_terminal_settlement_event_payload :
      ProviderTerminalSettlementEventPayload → Result Error Text
  marshal_provider_terminal_settlement_event_payload p = do
    guard (valid_settlement digest p) invalid_provider_terminal_settlement
    marshalled json p

  unfoldable pub parse_provider_terminal_settlement_event_payload :
      Text → Result Error ProviderTerminalSettlementEventPayload
  parse_provider_terminal_settlement_event_payload raw = do
    p ← or_invalid invalid_provider_terminal_settlement (json.unmarshal raw)
    guard (valid_settlement digest p) invalid_provider_terminal_settlement
    guard (is_canonical raw (marshal_provider_terminal_settlement_event_payload p))
        invalid_provider_terminal_settlement
    ok p

unfoldable pub marshal_provider_reconcile_event_payload :
    Json ProviderReconcileEventPayload → Text → Text → Result Error Text
marshal_provider_reconcile_event_payload json creation_id step_id = do
  guard
      (provider_terminal_identity creation_id
        && not (is_empty (provider_inbox_recovery_event_id step_id)))
      invalid_provider_inbox_record
  marshalled json (record { creation_id = creation_id; step_id = step_id })
