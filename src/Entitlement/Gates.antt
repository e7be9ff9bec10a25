-- ===== src/Entitlement/Gates.antt =====
-- What a generation costs, who is refused, and how the daily benefits are scaled.
use ai_go.Common.{
  ℕ, ◌*◌, ◌≡◌, refl, ◌⊎◌, ◌↔◌, true, false, Option, arith, Bool-cases, inl, inr, ◌||◌, not, ◌≤◌,
}
use ai_go.Common.Int.{ℤ, pos, ◌≤ℤ◌, eqb_ℤ}
use ai_go.Common.Text.{Text}
use ai_go.Common.Result.{ok, Result-cases}
use ai_go.Common.Clock.{Time}
use ai_go.Entitlement.{
  ProductOutput, image, video, other, VideoOptions, SubscriptionSnapshot, UserSnapshot,
  GenerationRequest, resolve_video_price, requires_vip_video_capability, is_vip_at, evaluate_output,
  evaluate_generation_at,
}

-- What a user without VIP may ask of a video: five seconds, no audio, one reference image.
abbrev pub IsBasic : VideoOptions → Type 0
IsBasic v =
    (v.duration_seconds ≤ℤ pos 5) × (v.enable_audio ≡ false) × (v.reference_image_count ≤ℤ pos 1)

-- The published rules, on their own: which requests are granted to whom, at which price.
pub data Granted (s : Option SubscriptionSnapshot) (now : Time)
    : ProductOutput → VideoOptions → ℤ → Type 0 where
  granted_image : {v : VideoOptions} → Granted s now image v (pos 20)
  granted_video :
      {v : VideoOptions} (k : ℕ)
      → 1 ≤ k
      → k ≤ 3
      → v.duration_seconds ≡ pos (5 * k)
      → (is_vip_at s now ≡ true) ⊎ IsBasic v
      → Granted s now video v (pos (50 * k))

abbrev PriceOf : ℤ → ℤ → Type 0
PriceOf d p = (k : ℕ) × (1 ≤ k) × (k ≤ 3) × (d ≡ pos (5 * k)) × (p ≡ pos (50 * k))

resolve_video_price_sound : (d p : ℤ) → resolve_video_price d ≡ ok p → PriceOf d p
unfolding resolve_video_price
resolve_video_price_sound d p h = elim (Bool-cases (eqb_ℤ d (pos 5))) [
  | inl a ↦ (1, omega arith, omega arith, ground arith, ground arith)
  | inr a ↦ elim (Bool-cases (eqb_ℤ d (pos 10))) [
    | inl b ↦ (2, omega arith, omega arith, ground arith, ground arith)
    | inr b ↦ (3, omega arith, omega arith, ground arith, ground arith)
  ]
]

resolve_video_price_complete :
    (k : ℕ) → 1 ≤ k → k ≤ 3 → resolve_video_price (pos (5 * k)) ≡ ok (pos (50 * k))
unfolding resolve_video_price
resolve_video_price_complete k a b = ground arith

gate_sound :
    (s : Option SubscriptionSnapshot) (v : VideoOptions) (now : Time)
    → (is_vip_at s now || not (requires_vip_video_capability v)) ≡ true
    → (is_vip_at s now ≡ true) ⊎ IsBasic v
unfolding requires_vip_video_capability
gate_sound s v now h = ground arith

gate_complete :
    (s : Option SubscriptionSnapshot) (v : VideoOptions) (now : Time)
    → (is_vip_at s now ≡ true) ⊎ IsBasic v
    → (is_vip_at s now || not (requires_vip_video_capability v)) ≡ true
unfolding requires_vip_video_capability
gate_complete s v now h = ground arith

evaluate_output_sound :
    (o : ProductOutput) (s : Option SubscriptionSnapshot) (v : VideoOptions) (now : Time) (p : ℤ)
    → evaluate_output o s v now ≡ ok (record { price_diamonds = p })
    → Granted s now o v p
unfolding evaluate_output
evaluate_output_sound image s v now p h = let e : p ≡ pos 20 = ground arith in rw e granted_image
evaluate_output_sound (other t) s v now p h = cc
evaluate_output_sound video s v now p h =
    elim (Result-cases (resolve_video_price v.duration_seconds)) [
      | inr (e, failed) ↦ ground arith
      | inl (q, priced) ↦
          elim (Bool-cases (is_vip_at s now || not (requires_vip_video_capability v))) [
            | inr shut ↦ ground arith
            | inl passed ↦
                let (k, low, high, duration, price) =
                  resolve_video_price_sound v.duration_seconds q priced in
                let e : p ≡ pos (50 * k) = ground arith in
                rw e (granted_video k low high duration (gate_sound s v now passed))
          ]
    ]

evaluate_output_complete :
    {o : ProductOutput} {s : Option SubscriptionSnapshot} {v : VideoOptions} {now : Time} {p : ℤ}
    → Granted s now o v p
    → evaluate_output o s v now ≡ ok (record { price_diamonds = p })
unfolding evaluate_output
evaluate_output_complete granted_image = refl
evaluate_output_complete {s} {v} {now} (granted_video k low high duration gate) =
    ground (arith, resolve_video_price_complete k low high, gate_complete s v now gate, duration)

-- A generation is granted at a price exactly when the account is bound and the published rules
-- grant the output at that price: an image for 20 diamonds; a video of 5, 10 or 15 seconds for 10
-- diamonds a second, to a VIP, or to anyone if it lasts at most 5 seconds, has no audio and at
-- most one reference image.
pub evaluate_generation_at_iff :
    (user : UserSnapshot) (request : GenerationRequest) (now : Time) (p : ℤ)
    → (evaluate_generation_at user request now ≡ ok (record { price_diamonds = p }))
      ↔ ((user.account_bound ≡ true) × Granted user.subscription now request.output request.video p)
unfolding evaluate_generation_at
evaluate_generation_at_iff user request now p = (
  λ h. elim (Bool-cases user.account_bound) [
    | inl bound ↦ (
      bound,
      evaluate_output_sound request.output user.subscription request.video now p (rw bound at h),
    )
    | inr unbound ↦ absurd (ground arith)
  ],
  λ h. rw h.0 (evaluate_output_complete h.1),
)
