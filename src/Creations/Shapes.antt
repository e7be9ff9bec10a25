-- ===== src/Creations/Shapes.antt =====
-- Which plans of steps internal/biz/creations accepts, and what it makes of them.
use ai_go.Common.{ℕ, true, List, [], ◌∷◌, ◌≡◌, refl, ◌↔◌, arith}
use ai_go.Common.Int.{pos, wrap32, int_laws}
use ai_go.Common.Result.{ok}
use ai_go.Entitlement.{ProductOutput, image, video, GenerationRequest}
use ai_go.Creations.Plan.{
  StepAtom, text_to_image, image_edit, image_to_video, StepPlan, validate_plan,
  has_continuous_sequences, are_continuous, is_allowed_plan, atoms,
}

-- The plans of the product: an image from text or from an image; a video from an image, or from
-- text by way of an image.
pub data Planned : ProductOutput → List StepPlan → Type 0 where
  from_text : Planned image (record { sequence = pos 1; atom = text_to_image } ∷ [])
  from_image : Planned image (record { sequence = pos 1; atom = image_edit } ∷ [])
  animated : Planned video (record { sequence = pos 1; atom = image_to_video } ∷ [])
  text_animated : Planned video (
      record { sequence = pos 1; atom = text_to_image }
      ∷ record { sequence = pos 2; atom = image_to_video }
      ∷ [])

step_eq :
    (p : StepPlan) (n : ℕ) (a : StepAtom)
    → p.sequence ≡ pos n
    → p.atom ≡ a
    → p ≡ record { sequence = pos n; atom = a }
step_eq p n a h k i = record { sequence = h i; atom = k i }

Planned-one :
    (output : ProductOutput) (p : StepPlan) (a : StepAtom)
    → p.atom ≡ a
    → is_allowed_plan output (a ∷ []) ≡ true
    → p.sequence ≡ pos 1
    → Planned output (p ∷ [])
unfolding is_allowed_plan
Planned-one image p text_to_image e h k = rw (step_eq p 1 text_to_image k e) from_text
Planned-one image p image_edit e h k = rw (step_eq p 1 image_edit k e) from_image
Planned-one image p image_to_video e h k = absurd (cc)
Planned-one image p (StepAtom.other_atom x) e h k = absurd (cc)
Planned-one video p text_to_image e h k = absurd (cc)
Planned-one video p image_edit e h k = absurd (cc)
Planned-one video p image_to_video e h k = rw (step_eq p 1 image_to_video k e) animated
Planned-one video p (StepAtom.other_atom x) e h k = absurd (cc)
Planned-one (ProductOutput.other t) p text_to_image e h k = absurd (cc)
Planned-one (ProductOutput.other t) p image_edit e h k = absurd (cc)
Planned-one (ProductOutput.other t) p image_to_video e h k = absurd (cc)
Planned-one (ProductOutput.other t) p (StepAtom.other_atom x) e h k = absurd (cc)

Planned-two :
    (output : ProductOutput) (p q : StepPlan) (a b : StepAtom)
    → p.atom ≡ a
    → q.atom ≡ b
    → is_allowed_plan output (a ∷ b ∷ []) ≡ true
    → p.sequence ≡ pos 1
    → q.sequence ≡ pos 2
    → Planned output (p ∷ q ∷ [])
unfolding is_allowed_plan
Planned-two image p q text_to_image b e f h k l = absurd (cc)
Planned-two image p q image_edit b e f h k l = absurd (cc)
Planned-two image p q image_to_video b e f h k l = absurd (cc)
Planned-two image p q (StepAtom.other_atom x) b e f h k l = absurd (cc)
Planned-two video p q text_to_image text_to_image e f h k l = absurd (cc)
Planned-two video p q text_to_image image_edit e f h k l = absurd (cc)
Planned-two video p q text_to_image image_to_video e f h k l =
    rw (step_eq p 1 text_to_image k e, step_eq q 2 image_to_video l f) text_animated
Planned-two video p q text_to_image (StepAtom.other_atom x) e f h k l = absurd (cc)
Planned-two video p q image_edit b e f h k l = absurd (cc)
Planned-two video p q image_to_video b e f h k l = absurd (cc)
Planned-two video p q (StepAtom.other_atom x) b e f h k l = absurd (cc)
Planned-two (ProductOutput.other t) p q text_to_image b e f h k l = absurd (cc)
Planned-two (ProductOutput.other t) p q image_edit b e f h k l = absurd (cc)
Planned-two (ProductOutput.other t) p q image_to_video b e f h k l = absurd (cc)
Planned-two (ProductOutput.other t) p q (StepAtom.other_atom x) b e f h k l = absurd (cc)

planned_more :
    (output : ProductOutput) (a b c : StepAtom) (rest : List StepAtom)
    → is_allowed_plan output (a ∷ b ∷ c ∷ rest) ≡ true
    → ⊥
unfolding is_allowed_plan
planned_more image text_to_image b c rest h = cc
planned_more image image_edit b c rest h = cc
planned_more image image_to_video b c rest h = cc
planned_more image (StepAtom.other_atom x) b c rest h = cc
planned_more video text_to_image text_to_image c rest h = cc
planned_more video text_to_image image_edit c rest h = cc
planned_more video text_to_image image_to_video c rest h = cc
planned_more video text_to_image (StepAtom.other_atom x) c rest h = cc
planned_more video image_edit b c rest h = cc
planned_more video image_to_video b c rest h = cc
planned_more video (StepAtom.other_atom x) b c rest h = cc
planned_more (ProductOutput.other t) text_to_image b c rest h = cc
planned_more (ProductOutput.other t) image_edit b c rest h = cc
planned_more (ProductOutput.other t) image_to_video b c rest h = cc
planned_more (ProductOutput.other t) (StepAtom.other_atom x) b c rest h = cc

first_sequence :
    (p : StepPlan) (rest : List StepPlan)
    → has_continuous_sequences (p ∷ rest) ≡ true
    → p.sequence ≡ pos 1
unfolding has_continuous_sequences are_continuous wrap32
first_sequence p rest h = grind int_laws

second_sequence :
    (p q : StepPlan) (rest : List StepPlan)
    → has_continuous_sequences (p ∷ q ∷ rest) ≡ true
    → q.sequence ≡ pos 2
unfolding has_continuous_sequences are_continuous wrap32
second_sequence p q rest h = grind int_laws

allowed-Planned :
    (output : ProductOutput) (plan : List StepPlan)
    → has_continuous_sequences plan ≡ true
    → is_allowed_plan output (atoms plan) ≡ true
    → Planned output plan
allowed-Planned output [] h k = absurd (unfold has_continuous_sequences in cc)
allowed-Planned output (p ∷ []) h k = Planned-one output p p.atom refl k (first_sequence p [] h)
allowed-Planned output (p ∷ q ∷ []) h k =
    Planned-two output p q p.atom q.atom refl refl k (first_sequence p (q ∷ []) h)
      (second_sequence p q [] h)
allowed-Planned output (p ∷ q ∷ r ∷ rest) h k =
    absurd (planned_more output p.atom q.atom r.atom (atoms rest) k)

Planned-allowed :
    (output : ProductOutput) (plan : List StepPlan)
    → Planned output plan
    → (has_continuous_sequences plan ≡ true) × (is_allowed_plan output (atoms plan) ≡ true)
unfolding has_continuous_sequences are_continuous wrap32 is_allowed_plan
Planned-allowed output plan from_text = (refl, refl)
Planned-allowed output plan from_image = (refl, refl)
Planned-allowed output plan animated = (refl, refl)
Planned-allowed output plan text_animated = (refl, refl)

-- A plan of steps is accepted for a product exactly when it is one of the four plans there are.
pub validate_plan_iff :
    (product : GenerationRequest) (plan : List StepPlan)
    → (validate_plan product plan ≡ ok tt) ↔ Planned product.output plan
unfolding validate_plan
validate_plan_iff product plan = (
  λ h. allowed-Planned product.output plan (ground arith) (ground arith),
  λ p. let (a, b) = Planned-allowed product.output plan p in ground arith,
)
