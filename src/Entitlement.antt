-- ===== src/Entitlement.antt =====
-- internal/biz/entitlement (model.go, usecase.go): prices, VIP gates and daily benefits.
-- `int32` and `int64` values are integers; a subscription that is `nil` is `none`.
pub mod Gates
use ai_go.Common.{
  ℕ, ◌+◌, ◌*◌, Bool, true, false, not, ◌&&◌, ◌||◌, Option, none, some, ◌==◌, ltb, leb,
  if◌then◌else◌,
}
use ai_go.Common.Int.{ℤ, pos, ltb_ℤ, leb_ℤ, eqb_ℤ}
use ai_go.Common.Text.{Text, codes, eq_text, is_blank}
use ai_go.Common.Result.{Result, ok, err, guard, ◌>>=◌, ◌>>◌}
use ai_go.Common.Clock.{Time, is_zero, after, sub_time, hour}

-- `ProductOutput`; every other string is `other`.
pub data ProductOutput : Type 0 where
  image video : ProductOutput
  other : Text → ProductOutput

pub record VideoOptions : Type 0 where
  pub duration_seconds : ℤ
  pub enable_audio : Bool
  pub reference_image_count : ℤ

pub data SubscriptionStatus : Type 0 where
  active : SubscriptionStatus
  inactive : Text → SubscriptionStatus

pub data SubscriptionBillingPeriod : Type 0 where
  monthly yearly : SubscriptionBillingPeriod
  other_period : Text → SubscriptionBillingPeriod

pub record SubscriptionSnapshot : Type 0 where
  pub status : SubscriptionStatus
  pub billing_period : SubscriptionBillingPeriod
  pub starts_at : Time
  pub expires_at : Time
  pub created_at : Time
  pub updated_at : Time

pub record UserSnapshot : Type 0 where
  pub account_bound : Bool
  pub timezone : Text
  pub subscription : Option SubscriptionSnapshot

pub record GenerationRequest : Type 0 where
  pub output : ProductOutput
  pub video : VideoOptions

pub record GenerationDecision : Type 0 where
  pub price_diamonds : ℤ

pub record DailyBenefits : Type 0 where
  pub local_date : Text
  pub image_limit : ℤ
  pub video_limit : ℤ
  pub daily_diamonds : ℤ
  pub first_month_doubled : Bool

pub data Error : Type 0 where
  account_binding_required vip_required : Error
  unsupported_product_output unsupported_video_duration invalid_timezone : Error

abbrev pub image_price_diamonds : ℕ
image_price_diamonds = 20

abbrev pub vip_daily_image_limit : ℕ
vip_daily_image_limit = 10

abbrev pub vip_daily_video_limit : ℕ
vip_daily_video_limit = 3

abbrev pub vip_daily_diamonds : ℕ
vip_daily_diamonds = 50

abbrev pub first_month_multiplier : ℕ
first_month_multiplier = 2

abbrev pub first_month_duration : ℕ
first_month_duration = 30 * 24 * hour

unfoldable pub resolve_video_price : ℤ → Result Error ℤ
resolve_video_price duration =
    if eqb_ℤ duration (pos 5)
    then ok (pos 50)
    else if eqb_ℤ duration (pos 10)
    then ok (pos 100)
    else if eqb_ℤ duration (pos 15)
    then ok (pos 150)
    else err unsupported_video_duration

unfoldable pub requires_vip_video_capability : VideoOptions → Bool
requires_vip_video_capability v =
    ltb_ℤ (pos 5) v.duration_seconds || v.enable_audio || ltb_ℤ (pos 1) v.reference_image_count

abbrev pub is_active : SubscriptionStatus → Bool
is_active active = true
is_active (inactive s) = false

unfoldable pub is_vip_at : Option SubscriptionSnapshot → Time → Bool
is_vip_at none now = false
is_vip_at (some s) now = is_active s.status && after s.expires_at now

abbrev pub is_yearly : SubscriptionBillingPeriod → Bool
is_yearly yearly = true
is_yearly monthly = false
is_yearly (other_period s) = false

-- `StartsAt`, or `CreatedAt` where it is missing.
abbrev pub start_of : SubscriptionSnapshot → Time
start_of s = if is_zero s.starts_at then s.created_at else s.starts_at

unfoldable pub is_yearly_first_month : Option SubscriptionSnapshot → Time → Bool
unfolding is_vip_at
is_yearly_first_month none now = false
is_yearly_first_month (some s) now =
    if not (is_vip_at (some s) now) || not (is_yearly s.billing_period)
    then false
    else if is_zero (start_of s)
    then false
    else leb_ℤ (pos 0) (sub_time now (start_of s))
      && leb_ℤ (sub_time now (start_of s)) (pos first_month_duration)

-- The `switch` on the product's output.
unfoldable pub evaluate_output :
    ProductOutput
    → Option SubscriptionSnapshot
    → VideoOptions
    → Time
    → Result Error GenerationDecision
unfolding resolve_video_price requires_vip_video_capability is_vip_at
evaluate_output image s v now = ok (record { price_diamonds = pos image_price_diamonds })
evaluate_output video s v now = do
  price ← resolve_video_price v.duration_seconds
  guard (is_vip_at s now || not (requires_vip_video_capability v)) vip_required
  ok (record { price_diamonds = price })
evaluate_output (other t) s v now = err unsupported_product_output

unfoldable pub evaluate_generation_at :
    UserSnapshot → GenerationRequest → Time → Result Error GenerationDecision
unfolding evaluate_output
evaluate_generation_at user request now = do
  guard user.account_bound account_binding_required
  evaluate_output request.output user.subscription request.video now

-- The benefits of a user of whom it is known whether he is a VIP.
unfoldable pub benefits_on : Text → Option SubscriptionSnapshot → Time → DailyBenefits
unfolding is_vip_at is_yearly_first_month
benefits_on date s now =
    let doubled = is_yearly_first_month s now in
    let factor : ℕ = if doubled then first_month_multiplier else 1 in
    if not (is_vip_at s now)
    then record {
      local_date = date;
      image_limit = pos 0;
      video_limit = pos 0;
      daily_diamonds = pos 0;
      first_month_doubled = false;
    }
    else record {
      local_date = date;
      image_limit = pos (vip_daily_image_limit * factor);
      video_limit = pos (vip_daily_video_limit * factor);
      daily_diamonds = pos vip_daily_diamonds;
      first_month_doubled = doubled;
    }

-- The time zone database and its calendar belong to Go: `load_location` is `time.LoadLocation`,
-- `none` where it fails, and `local_date_in` formats an instant as `2006-01-02` there.
module _ {Location : Type 0} (load_location : Text → Option Location)
    (local_date_in : Location → Time → Text) where
  unfoldable pub load_stored_timezone : Text → Result Error Location
  unfolding is_blank eq_text
  load_stored_timezone timezone =
      if is_blank timezone || eq_text timezone (codes "Local")
      then err invalid_timezone
      else elim (load_location timezone) [ none ↦ err invalid_timezone | some l ↦ ok l ]

  unfoldable pub resolve_daily_benefits_at : UserSnapshot → Time → Result Error DailyBenefits
  unfolding load_stored_timezone benefits_on
  resolve_daily_benefits_at user now = do
    location ← load_stored_timezone user.timezone
    ok (benefits_on (local_date_in location now) user.subscription now)
