-- ===== src/Creations/Quota.antt =====
-- Between internal/biz/entitlement, internal/biz/creations and internal/biz/ledger: what a creation
-- asks the ledger for.
use ai_go.Common.{
  ℕ, ◌≤◌, ◌<◌, false, [], ◌≡◌, refl, sym, ap, ◌∙◌, ◌≢◌, ◌⊎◌, inl, inr, Option, arith, ◌/◌, ◌*◌,
}
use ai_go.Common.Int.{ℤ, pos, ◌≤ℤ◌}
use ai_go.Common.Text.{Text, codes, is_empty-ne_nil}
use ai_go.Common.Result.{ok, Result-cases}
use ai_go.Common.Clock.{Time}
use ai_go.Entitlement.{
  ProductOutput, image, video, VideoOptions, UserSnapshot, GenerationRequest, GenerationDecision,
  DailyBenefits, SubscriptionSnapshot, evaluate_generation_at, resolve_daily_benefits_at,
  load_stored_timezone, benefits_on,
}
use ai_go.Entitlement.Gates.{Granted, granted_image, granted_video, evaluate_generation_at_iff}
use ai_go.Ledger.Model.{QuotaReservation, ReserveRequest}
use ai_go.Ledger.Usecase.{invalid_reserve_request, quota_disabled}
use ai_go.Creations.Plan.{quota_of, quota_for_output, quota_reservation_for, quotient}

-- The limits of a day's benefits.
benefits_on-limits :
    (date : Text) (s : Option SubscriptionSnapshot) (now : Time)
    → let b = benefits_on date s now in
      ((b.image_limit ≡ pos 0) ⊎ (b.image_limit ≡ pos 10) ⊎ (b.image_limit ≡ pos 20))
      × ((b.video_limit ≡ pos 0) ⊎ (b.video_limit ≡ pos 3) ⊎ (b.video_limit ≡ pos 6))
      × (b.local_date ≡ date)
unfolding benefits_on
benefits_on-limits date s now = (ground arith, ground arith, ground arith)

-- Units that are asked for fit under the limits.
quota_of-valid :
    (kind date : Text) (creation user : Text) (price limit units : ℤ) (now : Time)
    → kind ≢ []
    → date ≢ []
    → creation ≢ []
    → user ≢ []
    → pos 1 ≤ℤ price
    → (limit ≡ pos 0) ⊎ ((pos 1 ≤ℤ units) × (units ≤ℤ limit))
    → 0 < now
    → invalid_reserve_request (record {
      creation_id = creation;
      user_id = user;
      price_diamonds = price;
      quota = quota_of kind date limit units;
      business_at = now;
    })
      ≡ false
unfolding invalid_reserve_request quota_disabled
quota_of-valid kind date creation user price limit units now a b c d e f g = ground (
  arith,
  is_empty-ne_nil kind a,
  is_empty-ne_nil date b,
  is_empty-ne_nil creation c,
  is_empty-ne_nil user d,
)

video_units :
    (k : ℕ) (limit : ℤ)
    → 1 ≤ k
    → k ≤ 3
    → (limit ≡ pos 0) ⊎ (limit ≡ pos 3) ⊎ (limit ≡ pos 6)
    → (limit ≡ pos 0) ⊎ ((pos 1 ≤ℤ pos k) × (pos k ≤ℤ limit))
video_units k limit a b c = ground arith

image_units :
    (limit : ℤ)
    → (limit ≡ pos 0) ⊎ (limit ≡ pos 10) ⊎ (limit ≡ pos 20)
    → (limit ≡ pos 0) ⊎ ((pos 1 ≤ℤ pos 1) × (pos 1 ≤ℤ limit))
image_units limit c = ground arith

fives : (k : ℕ) → 5 * k / 5 ≡ k
fives k = omega arith

-- The request that a creation makes of the ledger.
abbrev pub request_of : Text → Text → ℤ → QuotaReservation → Time → ReserveRequest
request_of creation user price quota now = record {
  creation_id = creation;
  user_id = user;
  price_diamonds = price;
  quota = quota;
  business_at = now;
}

-- The quota for a product under some benefits, and the ledger's verdict on the request with it.
abbrev pub Accepted : GenerationRequest → DailyBenefits → Text → Text → ℤ → Time → Type 0
Accepted product b creation user price now =
    (q : QuotaReservation) × (quota_reservation_for product b ≡ ok q)
    × (invalid_reserve_request (request_of creation user price q now) ≡ false)

dated :
    (product : GenerationRequest) (b : DailyBenefits) (q : QuotaReservation)
    → b.local_date ≢ []
    → quota_for_output product.output product.video.duration_seconds b ≡ ok q
    → quota_reservation_for product b ≡ ok q
unfolding quota_reservation_for
dated product b q a h = rw (is_empty-ne_nil b.local_date a) h

Granted-Accepted :
    (s : Option SubscriptionSnapshot) (now : Time) (o : ProductOutput) (v : VideoOptions) (p : ℤ)
    (b : DailyBenefits) (creation user : Text)
    → (b.image_limit ≡ pos 0) ⊎ (b.image_limit ≡ pos 10) ⊎ (b.image_limit ≡ pos 20)
    → (b.video_limit ≡ pos 0) ⊎ (b.video_limit ≡ pos 3) ⊎ (b.video_limit ≡ pos 6)
    → b.local_date ≢ []
    → creation ≢ []
    → user ≢ []
    → 0 < now
    → Granted s now o v p
    → Accepted (record { output = o; video = v }) b creation user p now
unfolding quota_for_output
Granted-Accepted s now o v p b creation user images videos date named owned timed granted_image = (
  quota_of (codes "vip_daily_image") b.local_date b.image_limit (pos 1),
  dated (record { output = image; video = v }) b _ date refl,
  quota_of-valid (codes "vip_daily_image") b.local_date creation user (pos 20) b.image_limit (pos 1)
      now (λ e. absurd (cc)) date named owned (omega arith) (image_units b.image_limit images)
      timed,
)
Granted-Accepted s now o v p b creation user images videos date named owned timed
      (granted_video k low high duration gate) =
    let units : quotient v.duration_seconds 5 ≡ pos k =
      ap (λ d. quotient d 5) duration ∙ ap pos (fives k) in
    (
      quota_of (codes "vip_daily_video") b.local_date b.video_limit (pos k),
      dated (record { output = video; video = v }) b _ date
          (ap (λ u. ok (quota_of (codes "vip_daily_video") b.local_date b.video_limit u)) units),
      quota_of-valid (codes "vip_daily_video") b.local_date creation user (pos (50 * k))
          b.video_limit (pos k) now (λ e. absurd (cc)) date named owned (omega arith)
          (video_units k b.video_limit low high videos) timed,
    )

module _ {Location : Type 0} (load_location : Text → Option Location)
    (local_date_in : Location → Time → Text) where
  resolved :
      (user : UserSnapshot) (now : Time) (b : DailyBenefits)
      → resolve_daily_benefits_at load_location local_date_in user now ≡ ok b
      → (l : Location) × (b ≡ benefits_on (local_date_in l now) user.subscription now)
  unfolding resolve_daily_benefits_at
  resolved user now b h =
      elim (Result-cases (load_stored_timezone load_location local_date_in user.timezone)) [
        | inl (l, e) ↦ (l, ground arith)
        | inr (x, e) ↦ absurd (ground arith)
      ]

  -- Where a generation is granted and the daily benefits resolve, at an instant that is not the
  -- zero time, whose date is written with at least one character, a quota is found for the
  -- product, and the ledger's request for the price and that quota is never invalid.
  pub evaluate_generation_at-Accepted :
      (user : UserSnapshot) (product : GenerationRequest) (now : Time)
      (decision : GenerationDecision) (b : DailyBenefits) (creation user_id : Text)
      → ((l : Location) → local_date_in l now ≢ [])
      → creation ≢ []
      → user_id ≢ []
      → 0 < now
      → evaluate_generation_at user product now ≡ ok decision
      → resolve_daily_benefits_at load_location local_date_in user now ≡ ok b
      → Accepted product b creation user_id decision.price_diamonds now
  evaluate_generation_at-Accepted user product now decision b creation user_id dates named owned
        timed h k =
      let (l, same) = resolved user now b k in
      let (images, videos, date) = benefits_on-limits (local_date_in l now) user.subscription now in
      let (bound, granted) =
        (evaluate_generation_at_iff user product now decision.price_diamonds).0 h in
      Granted-Accepted user.subscription now product.output product.video decision.price_diamonds b
        creation user_id (rw same images) (rw same videos) (rw same (λ e. dates l (sym date ∙ e)))
        named owned timed granted
