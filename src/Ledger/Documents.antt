-- ===== src/Ledger/Documents.antt =====
-- internal/data/model/ledger.go and the `DailyQuotaDocument` of internal/data/model/creations.go:
-- the documents of the ledger's collections, and their conversions in
-- internal/data/ledger_repository.go.
use ai_go.Common.{Bool, true, false, Option, none, some}
use ai_go.Common.Int.{ℤ, pos, ◌+ℤ◌}
use ai_go.Common.Text.{Text, eq_text}
use ai_go.Common.Clock.{Time}
use ai_go.Ledger.Model.{
  BenefitSource, ReservationStatus, reserved, reversed, confiscated, Reservation,
}

pub record AccountDocument : Type 0 where
  pub diamond_balance : ℤ  -- int64
  pub created_at : Time
  pub updated_at : Time

pub record QuotaKey : Type 0 where
  pub user_id : Text
  pub quota_kind : Text
  pub local_date : Text

pub record QuotaDocument : Type 0 where
  pub limit : ℤ
  pub used_count : ℤ
  pub updated_at : Time

-- `publication_state`; every value but these is `other_state`, `published` among them.
pub data PublicationState : Type 0 where
  absent state_open state_reversed state_confiscated : PublicationState
  other_state : Text → PublicationState

pub record ReservationDocument : Type 0 where
  pub id : Text
  pub creation_id : Text
  pub user_id : Text
  pub price_diamonds : ℤ
  pub reserved_diamonds : ℤ
  pub benefit_source : BenefitSource
  pub quota_kind : Text
  pub local_date : Text
  pub quota_limit : ℤ
  pub quota_units : ℤ
  pub status : ReservationStatus
  pub publication_state : PublicationState
  pub publication_version : ℤ
  pub created_at : Time
  pub updated_at : Time

pub record LedgerEntryDocument : Type 0 where
  pub idempotency_key : Text
  pub account_id : Text
  pub creation_id : Text
  pub delta_diamonds : ℤ
  pub reason : Text
  pub reservation_id : Text
  pub created_at : Time

unfoldable pub new_reservation_document : Reservation → ReservationDocument
new_reservation_document v = record {
  id = v.id;
  creation_id = v.creation_id;
  user_id = v.user_id;
  price_diamonds = v.price_diamonds;
  reserved_diamonds = v.charged_diamonds;
  benefit_source = v.source;
  quota_kind = v.quota.kind;
  local_date = v.quota.local_date;
  quota_limit = v.quota.limit;
  quota_units = v.quota.units;
  status = v.status;
  publication_state = absent;
  publication_version = pos 0;
  created_at = v.created_at;
  updated_at = v.updated_at;
}

unfoldable pub to_biz_reservation : ReservationDocument → Reservation
to_biz_reservation d = record {
  id = d.id;
  creation_id = d.creation_id;
  user_id = d.user_id;
  price_diamonds = d.price_diamonds;
  source = d.benefit_source;
  charged_diamonds = d.reserved_diamonds;
  quota = record {
    kind = d.quota_kind;
    local_date = d.local_date;
    limit = d.quota_limit;
    units = d.quota_units;
  };
  status = d.status;
  created_at = d.created_at;
  updated_at = d.updated_at;
}

-- Comparison of the stored status with `from`, as strings.
abbrev pub has_status : ReservationStatus → ReservationStatus → Bool
has_status reserved reserved = true
has_status reversed reversed = true
has_status confiscated confiscated = true
has_status (ReservationStatus.other_status a) (ReservationStatus.other_status b) = eq_text a b
has_status _ _ = false

-- The filter of `TransitionReservation`: from `reserved`, only behind a gate that is absent or
-- open.
abbrev pub is_open_gate : PublicationState → Bool
is_open_gate absent = true
is_open_gate state_open = true
is_open_gate _ = false

-- The gate's state after a transition to a status.
abbrev pub closed_gate : ReservationStatus → Option PublicationState
closed_gate reversed = some state_reversed
closed_gate confiscated = some state_confiscated
closed_gate _ = none

-- The update of `TransitionReservation` from `reserved`.
abbrev pub settle_document :
    ReservationStatus → Time → Option PublicationState → ReservationDocument → ReservationDocument
settle_document to at none d = record d { status = to; updated_at = at }
settle_document to at (some gate) d = record d {
  status = to;
  updated_at = at;
  publication_state = gate;
  publication_version = d.publication_version +ℤ pos 1;
}
