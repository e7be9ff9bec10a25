-- ===== src/Generation/Canonical.antt =====
-- The events behind a terminal state: their payloads are parsed as they are written.
use ai_go.Common.{
  ◌&&◌, Bool, true, ◌≡◌, ap, sym, ◌∙◌, inl, inr, Option, none, some, arith, Bool-cases,
}
use ai_go.Common.Text.{Text, eq_text_sound, eq_text_refl}
use ai_go.Common.Result.{Result, ok, err, guard, ◌>>=◌, ◌>>◌}
use ai_go.Generation.Identity.{
  Error, invalid_provider_terminal, invalid_provider_terminal_settlement,
}
use ai_go.Generation.Payloads.{
  Json, IsFaithful, ProviderResultMaterializeEventPayload, ProviderTerminalSettlementEventPayload,
  valid_materialize, valid_settlement, marshalled, or_store_error, or_invalid, is_canonical,
  marshal_provider_result_materialize_event_payload,
  parse_provider_result_materialize_event_payload,
  marshal_provider_terminal_settlement_event_payload,
  parse_provider_terminal_settlement_event_payload,
}

is_canonical-ok : (raw : Text) (x : Result Error Text) → is_canonical raw x ≡ true → x ≡ ok raw
is_canonical-ok raw (ok c) h = ap ok (eq_text_sound c raw h)
is_canonical-ok raw (err e) h = absurd (ground arith)

or_store_error-ok : (o : Option Text) (raw : Text) → or_store_error o ≡ ok raw → o ≡ some raw
or_store_error-ok none raw h = absurd (cc)
or_store_error-ok (some r) raw h = ground arith

module _ {P : Type 0} (json : Json P) (valid : P → Bool) (invalid : Error)
    (write : P → Result Error Text) where
  abbrev checked : Text → P → Result Error P
  checked raw q = guard (valid q) invalid >> (guard (is_canonical raw (write q)) invalid >> ok q)

  checked-ok : (raw : Text) (q p : P) → checked raw q ≡ ok p → write p ≡ ok raw
  checked-ok raw q p h = elim (Bool-cases (is_canonical raw (write q))) [
    | inl canonical ↦
        let same : q ≡ p = ground arith in
        is_canonical-ok raw (write p) (ap (λ x. is_canonical raw (write x)) (sym same) ∙ canonical)
    | inr other ↦ absurd (ground arith)
  ]

  parsed-ok :
      (raw : Text) (o : Option P) (p : P)
      → or_invalid invalid o >>= checked raw ≡ ok p
      → write p ≡ ok raw
  parsed-ok raw none p h = absurd (cc)
  parsed-ok raw (some q) p h = checked-ok raw q p h

  ok-parsed :
      (raw : Text) (p : P)
      → json.unmarshal raw ≡ some p
      → valid p ≡ true
      → write p ≡ ok raw
      → or_invalid invalid (json.unmarshal raw) >>= checked raw ≡ ok p
  ok-parsed raw p read good wrote =
      let canonical : is_canonical raw (write p) ≡ true =
        ap (is_canonical raw) wrote ∙ eq_text_refl raw in
      ap (λ o. or_invalid invalid o >>= checked raw) read
      ∙ (λ i. guard (good i) invalid >> (guard (canonical i) invalid >> ok p))

  written-valid :
      (p : P) (raw : Text)
      → (guard (valid p) invalid >> marshalled json p) ≡ ok raw
      → (valid p ≡ true) × (json.marshal p ≡ some raw)
  written-valid p raw h = elim (Bool-cases (valid p)) [
    | inl good ↦ (good, or_store_error-ok (json.marshal p) raw (ground arith))
    | inr bad ↦ absurd (ground arith)
  ]

module _ (digest : Text → Text) (results : Json ProviderResultMaterializeEventPayload)
    (settlements : Json ProviderTerminalSettlementEventPayload) where
  -- A payload that is parsed from some bytes is valid and is written as these very bytes, whatever
  -- encoding/json does: for the events of results and for those of settlements.
  pub parse-canonical :
      (p : ProviderResultMaterializeEventPayload) (q : ProviderTerminalSettlementEventPayload)
      (raw : Text)
      → (parse_provider_result_materialize_event_payload digest results raw ≡ ok p
          → (valid_materialize digest p ≡ true)
            × (marshal_provider_result_materialize_event_payload digest results p ≡ ok raw))
        × (parse_provider_terminal_settlement_event_payload digest settlements raw ≡ ok q
            → (valid_settlement digest q ≡ true)
              × (marshal_provider_terminal_settlement_event_payload digest settlements q ≡ ok raw))
  unfolding parse_provider_result_materialize_event_payload
      parse_provider_terminal_settlement_event_payload
      marshal_provider_result_materialize_event_payload
      marshal_provider_terminal_settlement_event_payload
  parse-canonical p q raw = (
    λ h.
        let wrote =
          parsed-ok results (valid_materialize digest) invalid_provider_terminal
            (marshal_provider_result_materialize_event_payload digest results) raw
            (results.unmarshal raw) p h in
        (
          (written-valid results (valid_materialize digest) invalid_provider_terminal
              (marshal_provider_result_materialize_event_payload digest results) p raw wrote).0,
          wrote,
        ),
    λ h.
        let wrote =
          parsed-ok settlements (valid_settlement digest) invalid_provider_terminal_settlement
            (marshal_provider_terminal_settlement_event_payload digest settlements) raw
            (settlements.unmarshal raw) q h in
        (
          (written-valid settlements (valid_settlement digest) invalid_provider_terminal_settlement
              (marshal_provider_terminal_settlement_event_payload digest settlements) q raw
              wrote).0,
          wrote,
        ),
  )

  -- Where encoding/json reads back what it wrote for a valid payload, which for a result it does
  -- only where the result's reference is valid UTF-8, such a payload that is written as some bytes
  -- is parsed from them: for the events of results and for those of settlements.
  pub parse-marshal :
      (utf8_valid : Text → Bool)
      → IsFaithful results (λ p. valid_materialize digest p && utf8_valid p.result_ref)
      → IsFaithful settlements (valid_settlement digest)
      → (p : ProviderResultMaterializeEventPayload) (q : ProviderTerminalSettlementEventPayload)
        (raw : Text)
      → (utf8_valid p.result_ref ≡ true
          → marshal_provider_result_materialize_event_payload digest results p ≡ ok raw
          → parse_provider_result_materialize_event_payload digest results raw ≡ ok p)
        × (marshal_provider_terminal_settlement_event_payload digest settlements q ≡ ok raw
            → parse_provider_terminal_settlement_event_payload digest settlements raw ≡ ok q)
  unfolding parse_provider_result_materialize_event_payload
      parse_provider_terminal_settlement_event_payload
      marshal_provider_result_materialize_event_payload
      marshal_provider_terminal_settlement_event_payload
  parse-marshal utf8_valid faithful faithful' p q raw = (
    λ readable h.
        let write = marshal_provider_result_materialize_event_payload digest results in
        let (good, out) =
          written-valid results (valid_materialize digest) invalid_provider_terminal write p raw
            h in
        let accepted : (valid_materialize digest p && utf8_valid p.result_ref) ≡ true =
          ground arith in
        ok-parsed results (valid_materialize digest) invalid_provider_terminal write raw p
          (faithful p raw accepted out) good h,
    λ h.
        let write = marshal_provider_terminal_settlement_event_payload digest settlements in
        let (good, out) =
          written-valid settlements (valid_settlement digest) invalid_provider_terminal_settlement
            write q raw h in
        ok-parsed settlements (valid_settlement digest) invalid_provider_terminal_settlement write
          raw q (faithful' q raw good out) good h,
  )
