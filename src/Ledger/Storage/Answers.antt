-- ===== src/Ledger/Storage/Answers.antt =====
-- What a request to internal/biz/ledger/usecase.go is answered, by the stored quota and account.
use ai_go.Common.{
  Bool, true, false, ◌≡◌, refl, ap, ◌∙◌, inl, inr, Option, none, some, arith, Bool-cases, not, ◌&&◌,
  if◌then◌else◌,
}
use ai_go.Common.Int.{
  ℤ, pos, ◌+ℤ◌, ◌-ℤ◌, ◌≤ℤ◌, ◌<ℤ◌, leb_ℤ, eqb_ℤ, eqb_ℤ_sound, eqb_ℤ_refl, +ℤ_parts, -ℤ_parts,
}
use ai_go.Common.Result.{Result, ok, err}
use ai_go.Ledger.Model.{
  BenefitSource, daily_quota, diamonds, reserved, ReserveRequest, Reservation, QuotaReservation,
  insufficient_funds, Error,
}
use ai_go.Ledger.Usecase.{new_reservation, quota_disabled, invalid_reserve_request, reservation_id}
use ai_go.Ledger.Documents.{AccountDocument, QuotaDocument}
use ai_go.Ledger.Storage.{can_debit, can_consume}

-- Whether the quota has room for the request, and whether the account covers a price.
abbrev pub has_room : QuotaReservation → Option QuotaDocument → Bool
has_room q none = false
has_room q (some d) = not (quota_disabled q) && can_consume q d

abbrev pub can_pay : ℤ → Option AccountDocument → Bool
can_pay price none = false
can_pay price (some d) = can_debit price d

-- What a reservation of the request is answered, from the quota and the account that are stored.
abbrev pub verdict :
    ReserveRequest → Option QuotaDocument → Option AccountDocument → Result Error Reservation
verdict req q a =
    if has_room req.quota q
    then ok (new_reservation req (daily_quota, pos 0))
    else if can_pay req.price_diamonds a
    then ok (new_reservation req (diamonds, req.price_diamonds))
    else err insufficient_funds

-- The stored quota is the request's, with as many units left as it asks for.
pub record HasRoom (q : QuotaReservation) (o : Option QuotaDocument) : Type 0 where
  pub document : QuotaDocument
  pub stored : o ≡ some document
  pub wanted : pos 0 <ℤ q.units
  pub same_limit : document.limit ≡ q.limit
  pub room : document.used_count +ℤ q.units ≤ℤ q.limit

-- The stored account holds a price.
pub record Covers (price : ℤ) (o : Option AccountDocument) : Type 0 where
  pub document : AccountDocument
  pub stored : o ≡ some document
  pub enough : price ≤ℤ document.diamond_balance

room-leb : (used limit units : ℤ) → leb_ℤ used (limit -ℤ units) ≡ true → used +ℤ units ≤ℤ limit
room-leb used limit units h = ground (arith, +ℤ_parts used units, -ℤ_parts limit units)

leb-room : (used limit units : ℤ) → used +ℤ units ≤ℤ limit → leb_ℤ used (limit -ℤ units) ≡ true
leb-room used limit units h = ground (arith, +ℤ_parts used units, -ℤ_parts limit units)

has_room-HasRoom :
    (req : ReserveRequest) (o : Option QuotaDocument)
    → invalid_reserve_request req ≡ false
    → has_room req.quota o ≡ true
    → HasRoom req.quota o
unfolding invalid_reserve_request
has_room-HasRoom req none good h = absurd (cc)
has_room-HasRoom req (some d) good h = record {
  document = d;
  stored = refl;
  wanted = ground arith;
  same_limit = eqb_ℤ_sound d.limit req.quota.limit (ground arith);
  room = room-leb d.used_count req.quota.limit req.quota.units (ground arith);
}

HasRoom-has_room :
    (q : QuotaReservation) (o : Option QuotaDocument) → HasRoom q o → has_room q o ≡ true
unfolding quota_disabled
HasRoom-has_room q o h =
    let limit : eqb_ℤ h.document.limit q.limit ≡ true =
      ap (λ z. eqb_ℤ z q.limit) h.same_limit ∙ eqb_ℤ_refl q.limit in
    let left = leb-room h.document.used_count q.limit q.units h.room in
    let units : eqb_ℤ q.units (pos 0) ≡ false = (let positive = h.wanted in ground arith) in
    ap (has_room q) h.stored ∙ rw (limit, left, units) (ground arith)

can_pay-Covers : (price : ℤ) (o : Option AccountDocument) → can_pay price o ≡ true → Covers price o
can_pay-Covers price none h = absurd (cc)
can_pay-Covers price (some d) h = record { document = d; stored = refl; enough = ground arith }

Covers-can_pay : (price : ℤ) (o : Option AccountDocument) → Covers price o → can_pay price o ≡ true
Covers-can_pay price o h =
    let enough = h.enough in
    ap (can_pay price) h.stored
    ∙ (let e : leb_ℤ price h.document.diamond_balance ≡ true = ground arith in e)

-- The reservation of a request that is charged to a source.
abbrev granted : ReserveRequest → BenefitSource → ℤ → Reservation
granted req source charged = record {
  id = reservation_id req.creation_id;
  creation_id = req.creation_id;
  user_id = req.user_id;
  price_diamonds = req.price_diamonds;
  source = source;
  charged_diamonds = charged;
  quota = req.quota;
  status = reserved;
  created_at = req.business_at;
  updated_at = req.business_at;
}

-- What a request is answered where the stored quota and account are these.
pub record Answers (req : ReserveRequest) (q : Option QuotaDocument) (a : Option AccountDocument)
    (answer : Result Error Reservation) : Type 0 where
  pub by_quota : HasRoom req.quota q → answer ≡ ok (granted req daily_quota (pos 0))
  pub by_diamonds :
      ¬ HasRoom req.quota q
      → Covers req.price_diamonds a
      → answer ≡ ok (granted req diamonds req.price_diamonds)
  pub refused :
      ¬ HasRoom req.quota q → ¬ Covers req.price_diamonds a → answer ≡ err insufficient_funds

pub verdict-Answers :
    (req : ReserveRequest) (q : Option QuotaDocument) (a : Option AccountDocument)
    → invalid_reserve_request req ≡ false
    → Answers req q a (verdict req q a)
verdict-Answers req q a good =
    let full : ¬ HasRoom req.quota q → has_room req.quota q ≡ false = λ no.
      elim (Bool-cases (has_room req.quota q)) [
        | inl room ↦ absurd (no (has_room-HasRoom req q good room))
        | inr full ↦ full
      ] in
    let short : ¬ Covers req.price_diamonds a → can_pay req.price_diamonds a ≡ false = λ no.
      elim (Bool-cases (can_pay req.price_diamonds a)) [
        | inl room ↦ absurd (no (can_pay-Covers req.price_diamonds a room))
        | inr short ↦ short
      ] in
    record {
      by_quota = λ h. rw (HasRoom-has_room req.quota q h) refl;
      by_diamonds = λ no h. rw (full no, Covers-can_pay req.price_diamonds a h) refl;
      refused = λ no poor. rw (full no, short poor) refl;
    }
