-- ===== src/Ledger/History.antt =====
-- Sequences of the commands of internal/biz/ledger/usecase.go, seen as steps between stores.
use ai_go.Common.{
  Bool, ◌≡◌, sym, ◌∙◌, inl, inr, some, arith, Bool-cases, Option-cases, List, [], ◌∷◌, ◌||◌, not,
}
use ai_go.Common.Text.{Text, is_empty}
use ai_go.Common.Clock.{Time, is_zero}
use ai_go.Common.Result.{ok, Result-cases}
use ai_go.Common.Action.{Action, >>=-eq-ok, ◌>>=◌}
use ai_go.Mongo.{Transaction}
use ai_go.Ledger.Model.{
  repository_error, Repository, Error, ReversalReason, ReserveRequest, Reservation,
}
use ai_go.Ledger.Usecase.{
  within, reserve, reverse, confiscate, reserve_in_tx, reserve_found, reverse_in_tx,
  confiscate_in_tx, is_allowed_reversal_reason,
}
use ai_go.Ledger.Contract.{View, Laws}
use ai_go.Ledger.Reserve.{Made, reserve_in_tx-Made}
use ai_go.Ledger.Settle.{Reversal}
use ai_go.Ledger.Reverse.{Reverses, again, done, reverse_in_tx-Reverses}
use ai_go.Ledger.Confiscate.{Confiscation, confiscate_in_tx-Confiscates}
use ai_go.Ledger.Transactions.{
  wired, Command, to_reserve, to_reverse, to_confiscate, perform, perform_all, within-ok,
  within-err, within-ok, reserve_callback,
}
use ai_go.Ledger.Invariant.{
  IsHistory, IsHistory-refl, IsHistory-trans, kept, settled-kept, Paid-IsHeld, Refunded-IsHeld,
}

-- What one command may do to a store.
data Step {S : Type 0} (v : View S) (s : S) : S → Type 0 where
  unchanged : Step v s s
  makes : {t : S} (req : ReserveRequest) (n : Reservation) → Made v req s t n → Step v s t
  reverses :
      {t : S} (c : Text) (reason : ReversalReason) (at : Time) (n : Reservation)
      → Reversal v c reason at n s t
      → Step v s t
  confiscates :
      {t : S} (c : Text) (at : Time) (n : Reservation) → Confiscation v c at n s t → Step v s t

module _ {S : Type 0} (v : View S) where
  Step-IsHistory : {s t : S} → Step v s t → IsHistory v s t
  Step-IsHistory {s} unchanged = IsHistory-refl v s
  Step-IsHistory (makes req n m) = record {
    entries = kept v m.unlogged m.other_entries;
    settled = λ c x h ne. kept v m.fresh m.other_reservations c x h;
    held = Paid-IsHeld v m.paid;
  }
  Step-IsHistory (reverses c reason at n m) = record {
    entries = kept v m.unlogged m.other_entries;
    settled = settled-kept v m.settled;
    held = Refunded-IsHeld v m.refunded;
  }
  Step-IsHistory (confiscates c at n m) = record {
    entries = λ k e h. (λ i. m.same_entries i k) ∙ h;
    settled = settled-kept v m.settled;
    held = λ h. record {
      balances = λ w b e. h.balances w b ((λ i. sym m.same_balances i w) ∙ e);
      quotas = λ w k d q e. h.quotas w k d q ((λ i. sym m.same_quotas i w k d) ∙ e);
    };
  }

module _ {S : Type 0} (v : View S) (r : Repository S) (laws : Laws v r)
    (tx : Transaction S Error repository_error Reservation) where
  reserve_in_tx-Step :
      (req : ReserveRequest) (s t : S) (n : Reservation)
      → reserve_in_tx (some r) req s ≡ (ok n, t)
      → Step v s t
  unfolding reserve_in_tx reserve_found
  reserve_in_tx-Step req s t n h = elim (Option-cases (View.reservation v s req.creation_id)) [
    | inl none_yet ↦ makes req n (reserve_in_tx-Made v r laws req s t n none_yet h).1
    | inr (m, stored) ↦ elim (Bool-cases (is_empty req.creation_id || is_zero req.business_at)) [
      | inl bad ↦ absurd (ground arith)
      | inr good ↦
          let h' : (r.find_reservation req.creation_id >>= reserve_found r req) s ≡ (ok n, t) =
            rw good at h in
          let (o, u, found, k) =
            >>=-eq-ok (r.find_reservation req.creation_id) (reserve_found r req) s h' in
          let (same, read) = laws.find_law req.creation_id s u o found in
          let k' : reserve_found r req (some m) s ≡ (ok n, t) = rw (same, read ∙ stored) at k in
          let stays : s ≡ t = ground arith in rw (← stays) unchanged
    ]
  ]

  Reverses-Step :
      (c : Text) (reason : ReversalReason) (at : Time) (n n' : Reservation) (s t : S)
      → Reverses v c reason at n s n' t
      → Step v s t
  Reverses-Step c reason at n n' s t (again e) = unchanged
  Reverses-Step c reason at n n' s t (done f) = reverses c reason at n f

  within-Step :
      (bad : Bool) (callback : Repository S → Action S Error Reservation) (s : S)
      → ((t : S) (n : Reservation) → callback r s ≡ (ok n, t) → Step v s t)
      → Step v s (within (some r) (some tx) bad callback s).1
  within-Step bad callback s succeeds =
      let x = within (some r) (some tx) bad callback s in
      elim (Result-cases x.0) [
        | inl (n, done_) ↦
            succeeds x.1 n (within-ok r (some tx) bad callback s x.1 n (λ i. (done_ i, x.1)))
        | inr (e, failed) ↦
            elim (within-err r (some tx) bad callback s x.1 e (λ i. (failed i, x.1))) [
              | inl same ↦ rw same unchanged
              | inr (n, kept) ↦ succeeds x.1 n kept
            ]
      ]

  -- A command that fails after its commit was kept all the same is a step like one that succeeds.
  perform-Step : (now : Time) (c : Command) (s : S) → Step v s (perform (wired r tx) now c s).1
  unfolding perform reserve reverse confiscate
  perform-Step now (to_reserve req) s =
      within-Step (is_empty req.creation_id) (reserve_callback now req) s
        (λ t n h. reserve_in_tx-Step _ s t n h)
  perform-Step now (to_reverse c reason) s =
      within-Step (is_empty c || not (is_allowed_reversal_reason reason))
        (λ x. reverse_in_tx (some x) c reason now) s
        (λ t n h.
          let (m, stored, allowed, f) = reverse_in_tx-Reverses v r laws c reason now s t n h in
          Reverses-Step c reason now m n s t f)
  perform-Step now (to_confiscate c reason) s =
      within-Step (is_empty c || is_empty reason) (λ x. confiscate_in_tx (some x) c reason now) s
        (λ t n h.
          let (m, f, e) = confiscate_in_tx-Confiscates v r laws c reason now s t n h in
          confiscates c now m f)

  -- After any sequence of reservations, reversals and confiscations, whatever fails among them:
  -- every ledger entry that was there is still there unaltered, every reservation that was settled
  -- is unaltered, and if no balance was negative and no quota's use outside 0 to its limit, so it
  -- still is.
  pub perform_all-IsHistory :
      (cs : List (Time × Command)) (s : S) → IsHistory v s (perform_all (wired r tx) cs s)
  unfolding perform_all
  perform_all-IsHistory [] s = IsHistory-refl v s
  perform_all-IsHistory ((now, c) ∷ cs) s =
      IsHistory-trans v (Step-IsHistory v (perform-Step now c s))
        (perform_all-IsHistory cs (perform (wired r tx) now c s).1)
