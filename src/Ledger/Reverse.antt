-- ===== src/Ledger/Reverse.antt =====
-- The outcomes of `ReverseInTx` of internal/biz/ledger/usecase.go.
use ai_go.Common.{
  true, false, ◌≡◌, refl, sym, ap, ◌∙◌, inl, inr, ◌||◌, not, Option, none, some, arith, Bool-cases,
}
use ai_go.Common.Text.{Text, is_empty}
use ai_go.Common.Clock.{Time, is_zero}
use ai_go.Common.Result.{Result-cases, ok}
use ai_go.Common.Action.{>>=-eq-ok, ◌>>=◌}
use ai_go.Ledger.Model.{
  Repository, ReservationStatus, reserved, reversed, confiscated, ReversalReason, Reservation,
}
use ai_go.Ledger.Usecase.{
  reverse_in_tx, reverse_found, reverse_status, reverse_reserved, refund, refund_and_write,
  write_reversal, reverse_entry, is_allowed_reversal_reason,
}
use ai_go.Ledger.Contract.{View, Laws, Reservations}
use ai_go.Ledger.Settle.{Reversal, refund-GivenBack, Refunded-across}

module _ {S : Type 0} (v : View S) where
  -- How a reversal that succeeds ended, for the reservation `n` that it found.
  pub data Reverses (c : Text) (reason : ReversalReason) (at : Time) (n : Reservation) (s : S)
      : Reservation → S → Type 0 where
    again : n.status ≡ reversed → Reverses c reason at n s n s
    done :
        {t : S}
        → Reversal v c reason at n s t
        → Reverses c reason at n s (record n { status = reversed }) t

module _ {S : Type 0} (v : View S) (r : Repository S) (laws : Laws v r) where
  refund_and_write-Reversal :
      (c : Text) (reason : ReversalReason) (at : Time) (n n' : Reservation) (s u t : S)
      → n.status ≡ reserved
      → View.may_settle v s c ≡ true
      → View.may_settle v u c ≡ false
      → Reservations v s u c (some n) (record n { status = reversed; updated_at = at })
      → refund_and_write r c reason at n u ≡ (ok n', t)
      → Reversal v c reason at n s t × (n' ≡ record n { status = reversed })
  unfolding refund_and_write write_reversal
  refund_and_write-Reversal c reason at n n' s u t was open_ shut moved h =
      let (d, w, paid, k) =
        >>=-eq-ok (refund r n at n.source) (write_reversal r c reason at n) u h in
      let y = r.append_ledger_entry (reverse_entry c reason at d) w in
      let facts : (y.0 ≡ ok tt) × (n' ≡ record n { status = reversed }) × (t ≡ y.1) =
        ground arith in
      let (back, same_reservations, same_gates, same_entries) =
        refund-GivenBack v r laws n at n.source u w d refl paid in
      let log =
        laws.append_law (reverse_entry c reason at d) w t (λ i. (facts.0 i, sym facts.2 i)) in
      (
        record {
          delta = d;
          settled = record {
            was_stored = moved.old_reservation;
            was_reserved = was;
            was_open = open_;
            stored = (λ i. (log.same_reservations ∙ same_reservations) i c) ∙ moved.new_reservation;
            shut = (λ i. (log.same_gates ∙ same_gates) i c) ∙ shut;
            other_reservations = λ k ne.
                (λ i. (log.same_reservations ∙ same_reservations) i k)
                ∙ moved.other_reservations k ne;
          };
          refunded =
              Refunded-across v back moved.same_balances moved.same_quotas log.same_balances
                log.same_quotas;
          logged = log.new_entry;
          unlogged =
              sym (λ i.
                (same_entries ∙ moved.same_entries) i (reverse_entry c reason at d).idempotency_key)
              ∙ log.no_entry;
          other_entries =
              λ k ne. log.other_entries k ne ∙ (λ i. (same_entries ∙ moved.same_entries) i k);
        },
        facts.1,
      )

  reverse_reserved-Reverses :
      (c : Text) (reason : ReversalReason) (at : Time) (n n' : Reservation) (s t : S)
      → View.reservation v s c ≡ some n
      → reverse_reserved r c reason at n s ≡ (ok n', t)
      → Reverses v c reason at n s n' t
  unfolding reverse_reserved
  reverse_reserved-Reverses c reason at n n' s t stored h =
      let x = r.transition_reservation c reserved reversed at s in
      elim (Result-cases x.0) [
        | inr (e, failed) ↦ absurd (ground arith)
        | inl (false, missed) ↦ absurd (ground arith)
        | inl (true, hit) ↦
            let k : refund_and_write r c reason at n x.1 ≡ (ok n', t) = ground arith in
            let (m, was, open_, moved, shut) =
              laws.transition_law c reversed at s x.1 (λ i. (hit i, x.1)) in
            let same : m ≡ n = ground (arith, sym moved.old_reservation ∙ stored) in
            let (reversal, e) =
              refund_and_write-Reversal c reason at n n' s x.1 t (rw same at was) open_
                (shut (inl refl)) (rw same at moved) k in
            rw e (done reversal)
      ]

  reverse_status-Reverses :
      (c : Text) (reason : ReversalReason) (at : Time) (n n' : Reservation) (s t : S)
      (status : ReservationStatus)
      → n.status ≡ status
      → View.reservation v s c ≡ some n
      → reverse_status r c reason at n status s ≡ (ok n', t)
      → Reverses v c reason at n s n' t
  unfolding reverse_status
  reverse_status-Reverses c reason at n n' s t reserved e stored h =
      reverse_reserved-Reverses c reason at n n' s t stored h
  reverse_status-Reverses c reason at n n' s t reversed e stored h =
      let p : n ≡ n' = ground arith in let q : s ≡ t = ap (λ x. x.1) h in rw (← p, ← q) (again e)
  reverse_status-Reverses c reason at n n' s t confiscated e stored h = absurd (cc)
  reverse_status-Reverses c reason at n n' s t (ReservationStatus.other_status x) e stored h =
      absurd (cc)

  -- A reversal that succeeds found a reservation. Either it was reversed before, and the call
  -- changes nothing; or it was reserved, its result unpublished, and the call marks it reversed,
  -- gives back exactly what it records as taken, to the balance or to the quota of the day it was
  -- taken from, adds one ledger entry of that many diamonds, and changes nothing else.
  pub reverse_in_tx-Reverses :
      (c : Text) (reason : ReversalReason) (at : Time) (s t : S) (n' : Reservation)
      → reverse_in_tx (some r) c reason at s ≡ (ok n', t)
      → (n : Reservation) × (View.reservation v s c ≡ some n)
        × (is_allowed_reversal_reason reason ≡ true)
        × Reverses v c reason at n s n' t
  unfolding reverse_in_tx
  reverse_in_tx-Reverses c reason at s t n' h =
      elim (Bool-cases (is_empty c || not (is_allowed_reversal_reason reason) || is_zero at)) [
        | inl bad ↦ absurd (ground arith)
        | inr good ↦
            let h' : (r.find_reservation c >>= reverse_found r c reason at) s ≡ (ok n', t) =
              rw good at h in
            let (o, u, found, k) =
              >>=-eq-ok (r.find_reservation c) (reverse_found r c reason at) s h' in
            let (same, read) = laws.find_law c s u o found in
            reverse_found-Reverses o (sym read) (ground arith) (rw same at k)
      ]
    where
      reverse_found-Reverses :
          (o : Option Reservation)
          → View.reservation v s c ≡ o
          → is_allowed_reversal_reason reason ≡ true
          → reverse_found r c reason at o s ≡ (ok n', t)
          → (n : Reservation) × (View.reservation v s c ≡ some n)
            × (is_allowed_reversal_reason reason ≡ true)
            × Reverses v c reason at n s n' t
      reverse_found-Reverses none e g k = absurd (unfold reverse_found in cc)
      reverse_found-Reverses (some n) e g k = (
        n,
        e,
        g,
        reverse_status-Reverses c reason at n n' s t n.status refl e (unfold reverse_found in k),
      )
