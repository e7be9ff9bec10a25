-- ===== src/Generation/Identity.antt =====
-- internal/biz/generation: the checks on identities, digests and result locators of
-- provider_inbox.go and provider_terminal.go, the digests, and the IDs of the events. A `for` over
-- a string visits runes; a byte that is not ASCII begins a rune which fails the test, so that a
-- visit of every byte accepts the same strings.
use ai_go.Common.{
  ℕ, Bool, true, false, not, ◌&&◌, ◌||◌, [], ◌∷◌, ◌++◌, map, leb, ◌==◌, if◌then◌else◌,
}
use ai_go.Common.Text.{Text, codes, eq_text, is_empty, length, is_trimmed}
use ai_go.Common.Case.{lower_byte}

pub data Error : Type 0 where
  invalid_provider_terminal provider_terminal_conflict provider_terminal_fence : Error
  provider_terminal_version : Error
  invalid_provider_terminal_settlement invalid_provider_inbox_record : Error
  store_error : Error

-- `ProviderTerminalStatus`; the empty string is `no_status`, every other one `other_status`.
pub data ProviderTerminalStatus : Type 0 where
  no_status completed failed cancelled : ProviderTerminalStatus
  other_status : Text → ProviderTerminalStatus

abbrev pub status_text : ProviderTerminalStatus → Text
status_text no_status = []
status_text completed = codes "completed"
status_text failed = codes "failed"
status_text cancelled = codes "cancelled"
status_text (other_status t) = t

abbrev pub valid_provider_terminal_status : ProviderTerminalStatus → Bool
valid_provider_terminal_status completed = true
valid_provider_terminal_status failed = true
valid_provider_terminal_status cancelled = true
valid_provider_terminal_status _ = false

abbrev pub provider_terminal_max_identity : ℕ
provider_terminal_max_identity = 200

abbrev is_letter_or_digit : ℕ → Bool
is_letter_or_digit c =
    (leb b'a' c && leb c b'z') || (leb b'A' c && leb c b'Z') || (leb b'0' c && leb c b'9')

-- The loop behind the first byte.
unfoldable pub are_identity_characters : Text → Bool
are_identity_characters [] = true
are_identity_characters (c ∷ cs) =
    (is_letter_or_digit c || c == b'.' || c == b'_' || c == b':' || c == b'-')
    && are_identity_characters cs

abbrev begins_identity : Text → Bool
begins_identity [] = true
begins_identity (c ∷ cs) = is_letter_or_digit c && are_identity_characters cs

-- `providerTerminalIdentity` and `providerInboxStableIdentity`, which are one function.
unfoldable pub provider_terminal_identity : Text → Bool
provider_terminal_identity value =
    not (is_empty value)
    && leb (length value) provider_terminal_max_identity
    && is_trimmed value
    && begins_identity value

unfoldable pub are_lease_characters : Text → Bool
are_lease_characters [] = true
are_lease_characters (c ∷ cs) =
    (is_letter_or_digit c || c == b'-' || c == b'_') && are_lease_characters cs

unfoldable pub valid_provider_outbox_lease_token : Text → Bool
valid_provider_outbox_lease_token value =
    not (is_empty value) && leb (length value) 512 && is_trimmed value && are_lease_characters value

-- `hex.DecodeString` accepts digits of either case.
unfoldable pub is_hex : Text → Bool
is_hex [] = true
is_hex (c ∷ cs) =
    ((leb b'0' c && leb c b'9') || (leb b'a' c && leb c b'f') || (leb b'A' c && leb c b'F'))
    && is_hex cs

-- `strings.ToLower` behind a successful decoding, where all bytes are ASCII.
unfoldable pub provider_inbox_digest : Text → Bool
provider_inbox_digest value =
    length value == 64 && is_hex value && eq_text value (map lower_byte value)

-- `strings.ContainsAny(value, "\r\n")`.
unfoldable pub has_line_break : Text → Bool
has_line_break [] = false
has_line_break (c ∷ cs) = c == 13 || c == 10 || has_line_break cs

unfoldable pub valid_provider_result_ref : Text → Bool
valid_provider_result_ref value =
    not (is_empty value)
    && leb (length value) 8192
    && is_trimmed value
    && not (has_line_break value)

unfoldable pub is_frozen_capability : Text → Bool
is_frozen_capability capability =
    eq_text capability (codes "text_to_image")
    || eq_text capability (codes "image_edit")
    || eq_text capability (codes "image_to_video")

abbrev pub provider_terminal_settlement_event_type : Text
provider_terminal_settlement_event_type = codes "generation.terminal-settle"

abbrev pub provider_result_materialize_event_type : Text
provider_result_materialize_event_type = codes "generation.result-materialize"

abbrev pub provider_reconcile_event_type : Text
provider_reconcile_event_type = codes "generation.reconcile"

-- The type, a colon and the step.
abbrev event_id : Text → Text → Text
event_id event_type step_id =
    if provider_terminal_identity step_id then event_type ++ (b':' ∷ step_id) else []

unfoldable pub provider_terminal_settlement_event_id : Text → Text
provider_terminal_settlement_event_id step_id =
    event_id provider_terminal_settlement_event_type step_id

unfoldable pub provider_result_materialize_event_id : Text → Text
provider_result_materialize_event_id step_id =
    event_id provider_result_materialize_event_type step_id

unfoldable pub provider_inbox_recovery_event_id : Text → Text
provider_inbox_recovery_event_id step_id = event_id provider_reconcile_event_type step_id

-- `digest` is the hexadecimal SHA-256 of a text.
module _ (digest : Text → Text) where
  unfoldable pub provider_terminal_summary_digest : ProviderTerminalStatus → Text → Text
  provider_terminal_summary_digest status result_ref =
      digest (codes "b2b.terminal.v2" ++ (0 ∷ status_text status) ++ (0 ∷ result_ref))
