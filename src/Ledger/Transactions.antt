-- ===== src/Ledger/Transactions.antt =====
-- The public commands of internal/biz/ledger/usecase.go, each in its transaction.
use ai_go.Common.{
  true, false, ◌≡◌, ◌⊎◌, inl, inr, sym, ap, Option, none, some, Bool, List, [], ◌∷◌, if◌then◌else◌,
}
use ai_go.Common.Text.{Text}
use ai_go.Common.Clock.{Time, is_zero}
use ai_go.Common.Result.{ok, err}
use ai_go.Common.Action.{Action}
use ai_go.Mongo.{Transaction}
use ai_go.Ledger.Model.{
  repository_error, Repository, Error, ReversalReason, ReserveRequest, Reservation,
}
use ai_go.Ledger.Usecase.{Usecase, within, reserve, reverse, confiscate, reserve_in_tx}

pub data Command : Type 0 where
  to_reserve : ReserveRequest → Command
  to_reverse : Text → ReversalReason → Command
  to_confiscate : Text → Text → Command

module _ {S : Type 0} where
  -- The use case over its repository and its transactions.
  abbrev pub wired : Repository S → Transaction S Error repository_error Reservation → Usecase S
  wired r tx = record { repository = some r; tx = some tx }

  -- One command at a time.
  unfoldable pub perform : Usecase S → Time → Command → Action S Error Reservation
  perform u now (to_reserve r) = reserve u now r
  perform u now (to_reverse c reason) = reverse u now c reason
  perform u now (to_confiscate c reason) = confiscate u now c reason

  -- The store after a sequence of commands, whatever each of them answers.
  unfoldable pub perform_all : Usecase S → List (Time × Command) → S → S
  perform_all u [] s = s
  perform_all u ((now, c) ∷ cs) s = perform_all u cs (perform u now c s).1

-- The callback of `Reserve`.
abbrev pub reserve_callback :
    {S : Type 0} → Time → ReserveRequest → Repository S → Action S Error Reservation
reserve_callback now req r =
    reserve_in_tx (some r)
      (record req { business_at = if is_zero req.business_at then now else req.business_at })

module _ {S : Type 0} where
  pub within-err :
      (r : Repository S) (tx : Option (Transaction S Error repository_error Reservation))
      (bad : Bool) (callback : Repository S → Action S Error Reservation) (s t : S) (e : Error)
      → within (some r) tx bad callback s ≡ (err e, t)
      → (t ≡ s) ⊎ ((n : Reservation) × (callback r s ≡ (ok n, t)))
  unfolding within
  within-err r none bad callback s t e h = inl (sym (ap (λ x. x.1) h))
  within-err r (some tx) true callback s t e h = inl (sym (ap (λ x. x.1) h))
  within-err r (some tx) false callback s t e h = elim (tx.aborts (callback r) s t e h) [
    | inl same ↦ inl same
    | inr (lost, n, kept) ↦ inr (n, kept)
  ]

  pub within-ok :
      (r : Repository S) (tx : Option (Transaction S Error repository_error Reservation))
      (bad : Bool) (callback : Repository S → Action S Error Reservation) (s t : S)
      (n : Reservation)
      → within (some r) tx bad callback s ≡ (ok n, t)
      → callback r s ≡ (ok n, t)
  unfolding within
  within-ok r none bad callback s t n h = absurd (cc)
  within-ok r (some tx) true callback s t n h = absurd (cc)
  within-ok r (some tx) false callback s t n h = tx.commits (callback r) s t n h
