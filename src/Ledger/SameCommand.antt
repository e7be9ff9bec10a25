-- ===== src/Ledger/SameCommand.antt =====
-- `sameReservationCommand` of internal/biz/ledger/usecase.go.
use ai_go.Common.{ap, true, ◌≡◌, refl, sym, ◌∙◌, arith}
use ai_go.Common.Int.{eqb_ℤ, eqb_ℤ_sound, ℤ}
use ai_go.Common.Text.{eq_text, eq_text_sound, eq_text_refl, Text}
use ai_go.Ledger.Model.{ReserveRequest, Reservation}
use ai_go.Ledger.Usecase.{same_reservation_command}

-- A request asks for what a reservation holds.
pub record SameCommand (n : Reservation) (req : ReserveRequest) : Type 0 where
  pub same_user : n.user_id ≡ req.user_id
  pub same_price : n.price_diamonds ≡ req.price_diamonds
  pub same_kind : n.quota.kind ≡ req.quota.kind
  pub same_date : n.quota.local_date ≡ req.quota.local_date
  pub same_limit : n.quota.limit ≡ req.quota.limit
  pub same_units : n.quota.units ≡ req.quota.units

pub same_reservation_command-SameCommand :
    (n : Reservation) (req : ReserveRequest)
    → same_reservation_command n req ≡ true
    → SameCommand n req
unfolding same_reservation_command
same_reservation_command-SameCommand n req h = record {
  same_user = eq_text_sound n.user_id req.user_id (ground arith);
  same_price = eqb_ℤ_sound n.price_diamonds req.price_diamonds (ground arith);
  same_kind = eq_text_sound n.quota.kind req.quota.kind (ground arith);
  same_date = eq_text_sound n.quota.local_date req.quota.local_date (ground arith);
  same_limit = eqb_ℤ_sound n.quota.limit req.quota.limit (ground arith);
  same_units = eqb_ℤ_sound n.quota.units req.quota.units (ground arith);
}

eq_text-true : (a b : Text) → a ≡ b → eq_text a b ≡ true
eq_text-true a b e = ap (eq_text a) (sym e) ∙ eq_text_refl a

eqb_ℤ-true : (a b : ℤ) → a ≡ b → eqb_ℤ a b ≡ true
eqb_ℤ-true a b e = ground arith

pub SameCommand-same_reservation_command :
    (n : Reservation) (req : ReserveRequest)
    → SameCommand n req
    → same_reservation_command n req ≡ true
unfolding same_reservation_command
SameCommand-same_reservation_command n req s =
    rw
      (
        eq_text-true n.user_id req.user_id s.same_user,
        eqb_ℤ-true n.price_diamonds req.price_diamonds s.same_price,
        eq_text-true n.quota.kind req.quota.kind s.same_kind,
        eq_text-true n.quota.local_date req.quota.local_date s.same_date,
        eqb_ℤ-true n.quota.limit req.quota.limit s.same_limit,
        eqb_ℤ-true n.quota.units req.quota.units s.same_units,
      )
      refl
