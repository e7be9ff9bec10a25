-- ===== src/Tests/Canonical.antt =====
-- The payloads behind a terminal state, with a codec that knows two payloads.
use ai_go.Common.{
  Bool, true, ◌≡◌, refl, ◌&&◌, inl, inr, none, some, arith, ap, sym, Bool-cases, if◌then◌else◌,
}
use ai_go.Common.Int.{pos, eqb_ℤ, eqb_ℤ_sound}
use ai_go.Common.Text.{
  Text, codes, eq_text, eq_text_sound, is_trimmed, starts_with_space, ends_with_space, is_space1,
  is_space2, is_space3,
}
use ai_go.Common.Result.{ok, err}
use ai_go.Generation.Identity.{
  ProviderTerminalStatus, cancelled, invalid_provider_terminal, provider_terminal_identity,
  are_identity_characters, provider_inbox_digest, is_hex, valid_provider_result_ref, has_line_break,
  is_frozen_capability, provider_terminal_summary_digest, provider_result_materialize_event_id,
}
use ai_go.Generation.Payloads.{
  Json, IsFaithful, ProviderResultMaterializeEventPayload, ProviderTerminalSettlementEventPayload,
  valid_materialize, valid_settlement, parse_provider_result_materialize_event_payload,
  parse_provider_terminal_settlement_event_payload,
  marshal_provider_result_materialize_event_payload,
  marshal_provider_terminal_settlement_event_payload,
}
use ai_go.Generation.Canonical.{parse-canonical, parse-marshal}
use ai_go.Tests.Generation.{constant_digest}

abbrev result : ProviderResultMaterializeEventPayload
result = record {
  creation_id = codes "c1";
  step_id = codes "s1";
  provider = codes "polarstar";
  account_ref = codes "main";
  job_id = codes "job-7";
  capability = codes "text_to_image";
  result_ref = codes "https://r/1.png";
  terminal_version = pos 1;
  terminal_digest = constant_digest (codes "d");
}

abbrev settlement : ProviderTerminalSettlementEventPayload
settlement = record {
  creation_id = codes "c1";
  step_id = codes "s1";
  provider = codes "polarstar";
  account_ref = codes "main";
  job_id = codes "job-7";
  capability = codes "text_to_image";
  status = cancelled;
  terminal_version = pos 1;
  terminal_digest = constant_digest (codes "d");
}

abbrev is_result : ProviderResultMaterializeEventPayload → Bool
is_result p =
    eq_text p.creation_id result.creation_id
    && eq_text p.step_id result.step_id
    && eq_text p.provider result.provider
    && eq_text p.account_ref result.account_ref
    && eq_text p.job_id result.job_id
    && eq_text p.capability result.capability
    && eq_text p.result_ref result.result_ref
    && eqb_ℤ p.terminal_version result.terminal_version
    && eq_text p.terminal_digest result.terminal_digest

abbrev is_cancelled : ProviderTerminalStatus → Bool
is_cancelled cancelled = true
is_cancelled _ = Bool.false

is_cancelled_sound : (x : ProviderTerminalStatus) → is_cancelled x ≡ true → x ≡ cancelled
is_cancelled_sound x h = ground arith

abbrev is_settlement : ProviderTerminalSettlementEventPayload → Bool
is_settlement p =
    eq_text p.creation_id settlement.creation_id
    && eq_text p.step_id settlement.step_id
    && eq_text p.provider settlement.provider
    && eq_text p.account_ref settlement.account_ref
    && eq_text p.job_id settlement.job_id
    && eq_text p.capability settlement.capability
    && is_cancelled p.status
    && eqb_ℤ p.terminal_version settlement.terminal_version
    && eq_text p.terminal_digest settlement.terminal_digest

is_result_sound : (p : ProviderResultMaterializeEventPayload) → is_result p ≡ true → p ≡ result
is_result_sound p h =
    let creation = eq_text_sound p.creation_id result.creation_id (ground arith) in
    let step = eq_text_sound p.step_id result.step_id (ground arith) in
    let provider = eq_text_sound p.provider result.provider (ground arith) in
    let account = eq_text_sound p.account_ref result.account_ref (ground arith) in
    let job = eq_text_sound p.job_id result.job_id (ground arith) in
    let capability = eq_text_sound p.capability result.capability (ground arith) in
    let ref = eq_text_sound p.result_ref result.result_ref (ground arith) in
    let version = eqb_ℤ_sound p.terminal_version result.terminal_version (ground arith) in
    let digest = eq_text_sound p.terminal_digest result.terminal_digest (ground arith) in
    λ i. record {
      creation_id = creation i;
      step_id = step i;
      provider = provider i;
      account_ref = account i;
      job_id = job i;
      capability = capability i;
      result_ref = ref i;
      terminal_version = version i;
      terminal_digest = digest i;
    }

is_settlement_sound :
    (p : ProviderTerminalSettlementEventPayload) → is_settlement p ≡ true → p ≡ settlement
is_settlement_sound p h =
    let creation = eq_text_sound p.creation_id settlement.creation_id (ground arith) in
    let step = eq_text_sound p.step_id settlement.step_id (ground arith) in
    let provider = eq_text_sound p.provider settlement.provider (ground arith) in
    let account = eq_text_sound p.account_ref settlement.account_ref (ground arith) in
    let job = eq_text_sound p.job_id settlement.job_id (ground arith) in
    let capability = eq_text_sound p.capability settlement.capability (ground arith) in
    let status = is_cancelled_sound p.status (ground arith) in
    let version = eqb_ℤ_sound p.terminal_version settlement.terminal_version (ground arith) in
    let digest = eq_text_sound p.terminal_digest settlement.terminal_digest (ground arith) in
    λ i. record {
      creation_id = creation i;
      step_id = step i;
      provider = provider i;
      account_ref = account i;
      job_id = job i;
      capability = capability i;
      status = status i;
      terminal_version = version i;
      terminal_digest = digest i;
    }

-- The codec that writes one payload, and reads it from any bytes.
module _ {P : Type 0} (sample : P) (test : P → Bool) where
  abbrev codec : Json P
  codec = record {
    marshal = λ p. if test p then some (codes "{}") else none;
    unmarshal = λ raw. some sample;
  }

  codec-IsFaithful :
      ((p : P) → test p ≡ true → p ≡ sample) → (valid : P → Bool) → IsFaithful codec valid
  codec-IsFaithful sound valid p raw good h = elim (Bool-cases (test p)) [
    | inl same ↦ ap some (sym (sound p same))
    | inr other ↦ absurd (ground arith)
  ]

abbrev results : Json ProviderResultMaterializeEventPayload
results = codec result is_result

abbrev settlements : Json ProviderTerminalSettlementEventPayload
settlements = codec settlement is_settlement

-- The one reference here.
abbrev is_known_ref : Text → Bool
is_known_ref = eq_text result.result_ref

parse-marshal_example :
    (is_known_ref result.result_ref ≡ true
      → marshal_provider_result_materialize_event_payload constant_digest results result
        ≡ ok (codes "{}")
      → parse_provider_result_materialize_event_payload constant_digest results (codes "{}")
        ≡ ok result)
    × (marshal_provider_terminal_settlement_event_payload constant_digest settlements settlement
          ≡ ok (codes "{}")
        → parse_provider_terminal_settlement_event_payload constant_digest settlements (codes "{}")
          ≡ ok settlement)
parse-marshal_example =
    parse-marshal constant_digest results settlements is_known_ref
      (codec-IsFaithful result is_result is_result_sound
        (λ p. valid_materialize constant_digest p && is_known_ref p.result_ref))
      (codec-IsFaithful settlement is_settlement is_settlement_sound
        (valid_settlement constant_digest))
      result settlement (codes "{}")

parse-canonical_example :
    (parse_provider_result_materialize_event_payload constant_digest results (codes "{}")
        ≡ ok result
      → (valid_materialize constant_digest result ≡ true)
        × (marshal_provider_result_materialize_event_payload constant_digest results result
            ≡ ok (codes "{}")))
    × (parse_provider_terminal_settlement_event_payload constant_digest settlements (codes "{}")
          ≡ ok settlement
        → (valid_settlement constant_digest settlement ≡ true)
          × (marshal_provider_terminal_settlement_event_payload constant_digest settlements
                settlement
              ≡ ok (codes "{}")))
parse-canonical_example =
    parse-canonical constant_digest results settlements result settlement (codes "{}")

result_is_parsed :
    parse_provider_result_materialize_event_payload constant_digest
      (codec result is_result)
      (codes "{}")
    ≡ ok result
unfolding parse_provider_result_materialize_event_payload
    marshal_provider_result_materialize_event_payload valid_materialize provider_terminal_identity
    are_identity_characters provider_inbox_digest is_hex valid_provider_result_ref has_line_break
    is_frozen_capability provider_terminal_summary_digest provider_result_materialize_event_id
    eq_text is_trimmed starts_with_space ends_with_space is_space1 is_space2 is_space3
result_is_parsed = refl

-- Bytes that differ from the canonical ones are refused.
other_bytes_are_refused :
    parse_provider_result_materialize_event_payload constant_digest
      (codec result is_result)
      (codes "{ }")
    ≡ err invalid_provider_terminal
unfolding parse_provider_result_materialize_event_payload
    marshal_provider_result_materialize_event_payload valid_materialize provider_terminal_identity
    are_identity_characters provider_inbox_digest is_hex valid_provider_result_ref has_line_break
    is_frozen_capability provider_terminal_summary_digest provider_result_materialize_event_id
    eq_text is_trimmed starts_with_space ends_with_space is_space1 is_space2 is_space3
other_bytes_are_refused = refl
