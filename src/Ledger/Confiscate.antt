-- ===== src/Ledger/Confiscate.antt =====
-- The outcome of `ConfiscateInTx` of internal/biz/ledger/usecase.go.
use ai_go.Common.{
  true, false, ◌≡◌, refl, sym, ◌∙◌, inl, inr, ◌||◌, Option, none, some, arith, Bool-cases,
}
use ai_go.Common.Text.{Text, is_empty}
use ai_go.Common.Clock.{Time, is_zero}
use ai_go.Common.Result.{Result-cases, ok}
use ai_go.Common.Action.{>>=-eq-ok, ◌>>=◌}
use ai_go.Ledger.Model.{Repository, reserved, confiscated, Reservation}
use ai_go.Ledger.Usecase.{confiscate_in_tx, confiscate_found, is_reserved}
use ai_go.Ledger.Contract.{View, Laws}
use ai_go.Ledger.Settle.{Settled}

module _ {S : Type 0} (v : View S) where
  -- A confiscation: the settlement alone. What was taken stays taken.
  pub record Confiscation (c : Text) (at : Time) (n : Reservation) (s t : S) : Type 0 where
    pub settled : Settled v c confiscated at n s t
    pub same_balances : View.balance v t ≡ View.balance v s
    pub same_quotas : View.quota v t ≡ View.quota v s
    pub same_entries : View.entry v t ≡ View.entry v s

  -- What a confiscation that succeeds has done, and returned.
  abbrev pub Confiscates : Text → Time → Reservation → S → S → Type 0
  Confiscates c at n' s t =
      (n : Reservation) × Confiscation c at n s t × (n' ≡ record n { status = confiscated })

module _ {S : Type 0} (v : View S) (r : Repository S) (laws : Laws v r) where
  confiscate_found-Confiscates :
      (c : Text) (at : Time) (n' : Reservation) (s t : S) (o : Option Reservation)
      → View.reservation v s c ≡ o
      → confiscate_found r c at o s ≡ (ok n', t)
      → Confiscates v c at n' s t
  unfolding confiscate_found
  confiscate_found-Confiscates c at n' s t none e h = absurd (cc)
  confiscate_found-Confiscates c at n' s t (some n) e h = elim (Bool-cases (is_reserved n.status)) [
    | inr settled ↦ absurd (ground arith)
    | inl was ↦
        let x = r.transition_reservation c reserved confiscated at s in
        elim (Result-cases x.0) [
          | inr (y, failed) ↦ absurd (ground arith)
          | inl (false, missed) ↦ absurd (ground arith)
          | inl (true, hit) ↦
              let facts : (n' ≡ record n { status = confiscated }) × (t ≡ x.1) = ground arith in
              let (m, was', open_, moved, shut) =
                laws.transition_law c confiscated at s t (λ i. (hit i, sym facts.1 i)) in
              let same : m ≡ n = ground (arith, sym moved.old_reservation ∙ e) in
              (
                m,
                record {
                  settled = record {
                    was_stored = moved.old_reservation;
                    was_reserved = was';
                    was_open = open_;
                    stored = moved.new_reservation;
                    shut = shut (inr refl);
                    other_reservations = moved.other_reservations;
                  };
                  same_balances = moved.same_balances;
                  same_quotas = moved.same_quotas;
                  same_entries = moved.same_entries;
                },
                rw same facts.0,
              )
        ]
  ]

  -- A confiscation that succeeds found a reserved reservation whose result is unpublished, marks
  -- it confiscated with its gate shut, and changes nothing else: no balance, quota, entry or other
  -- reservation.
  pub confiscate_in_tx-Confiscates :
      (c reason : Text) (at : Time) (s t : S) (n' : Reservation)
      → confiscate_in_tx (some r) c reason at s ≡ (ok n', t)
      → Confiscates v c at n' s t
  unfolding confiscate_in_tx
  confiscate_in_tx-Confiscates c reason at s t n' h =
      elim (Bool-cases (is_empty c || is_empty reason || is_zero at)) [
        | inl bad ↦ absurd (ground arith)
        | inr good ↦
            let h' : (r.find_reservation c >>= confiscate_found r c at) s ≡ (ok n', t) =
              rw good at h in
            let (o, u, found, k) =
              >>=-eq-ok (r.find_reservation c) (confiscate_found r c at) s h' in
            let (same, read) = laws.find_law c s u o found in
            confiscate_found-Confiscates c at n' s t o (sym read) (rw same at k)
      ]
