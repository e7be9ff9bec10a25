-- ===== src/Ledger/Invariant.antt =====
-- Invariants of the stores that internal/biz/ledger/usecase.go works on: entries, settled
-- reservations, balances and the uses of quotas.
use ai_go.Common.{◌≡◌, sym, ap, ◌∙◌, ◌≢◌, inl, inr, Option, none, some, arith}
use ai_go.Common.Int.{ℤ, pos, ◌+ℤ◌, ◌-ℤ◌, ◌≤ℤ◌, ◌<ℤ◌, int_laws}
use ai_go.Common.Text.{Text, text-cases}
use ai_go.Common.Clock.{Time}
use ai_go.Ledger.Model.{
  BenefitSource, ReservationStatus, LedgerEntry, reserved, ReserveRequest, Reservation,
}
use ai_go.Ledger.Contract.{View, QuotaUse}
use ai_go.Ledger.Reserve.{Paid, by_quota, by_diamonds}
use ai_go.Ledger.Settle.{Refunded, to_quota, to_balance, Settled}

add_nonneg : (a b : ℤ) → pos 0 ≤ℤ a → pos 0 <ℤ b → pos 0 ≤ℤ a +ℤ b
add_nonneg a b h k = grind int_laws

sub_nonneg : (a b : ℤ) → a ≤ℤ b → pos 0 ≤ℤ b -ℤ a
sub_nonneg a b h = grind int_laws

sub_le : (a b c : ℤ) → pos 0 <ℤ a → b ≤ℤ c → b -ℤ a ≤ℤ c
sub_le a b c h k = grind int_laws

module _ {S : Type 0} (v : View S) where
  pub record IsHeld (s : S) : Type 0 where
    pub balances : (w : Text) (b : ℤ) → View.balance v s w ≡ some b → pos 0 ≤ℤ b
    pub quotas :
        (w k d : Text) (q : QuotaUse)
        → View.quota v s w k d ≡ some q
        → (pos 0 ≤ℤ q.used) × (q.used ≤ℤ q.limit)

  pub record IsHistory (s t : S) : Type 0 where
    pub entries :
        (k : Text) (e : LedgerEntry) → View.entry v s k ≡ some e → View.entry v t k ≡ some e
    pub settled :
        (c : Text) (n : Reservation)
        → View.reservation v s c ≡ some n
        → n.status ≢ reserved
        → View.reservation v t c ≡ some n
    pub held : IsHeld s → IsHeld t

  pub IsHistory-refl : (s : S) → IsHistory s s
  IsHistory-refl s = record { entries = λ k e h. h; settled = λ c n h ne. h; held = λ h. h }

  pub IsHistory-trans : {s t u : S} → IsHistory s t → IsHistory t u → IsHistory s u
  IsHistory-trans a b = record {
    entries = λ k e h. b.entries k e (a.entries k e h);
    settled = λ c n h ne. b.settled c n (a.settled c n h ne) ne;
    held = λ h. b.held (a.held h);
  }

  -- One new key keeps what is stored under the others.
  pub kept :
      {A : Type 0} {f g : Text → Option A} {k : Text}
      → f k ≡ none
      → ((j : Text) → j ≢ k → g j ≡ f j)
      → (j : Text) (a : A) → f j ≡ some a
      → g j ≡ some a
  kept {A} {f} {g} {k} new others j a h = elim (text-cases j k) [
    | inl e ↦ absurd (cc)
    | inr ne ↦ others j ne ∙ h
  ]

  pub settled-kept :
      {c : Text} {to : ReservationStatus} {at : Time} {n : Reservation} {s t : S}
      → Settled v c to at n s t
      → (k : Text) (m : Reservation) → View.reservation v s k ≡ some m
      → m.status ≢ reserved
      → View.reservation v t k ≡ some m
  settled-kept {c} {n = n} {s = s} f k m h ne = elim (text-cases k c) [
    | inl e ↦
        let same : m ≡ n = ground (arith, sym h ∙ ap (View.reservation v s) e ∙ f.was_stored) in
        absurd (ne (ap (λ x. x.status) same ∙ f.was_reserved))
    | inr other ↦ f.other_reservations k other ∙ h
  ]

  -- One balance and one quota are replaced.
  one_balance :
      {s t : S} (u : Text) (b : ℤ)
      → View.balance v t u ≡ some b
      → pos 0 ≤ℤ b
      → ((w : Text) → w ≢ u → View.balance v t w ≡ View.balance v s w)
      → IsHeld s
      → (w : Text) (x : ℤ) → View.balance v t w ≡ some x
      → pos 0 ≤ℤ x
  one_balance u b new h others held w x e = elim (text-cases w u) [
    | inl same ↦ let p : x ≡ b = ground (arith, sym e ∙ ap (View.balance v _) same ∙ new) in rw p h
    | inr ne ↦ held.balances w x (sym (others w ne) ∙ e)
  ]

  one_quota :
      {s t : S} (u kind date : Text) (y : QuotaUse)
      → View.quota v t u kind date ≡ some y
      → (pos 0 ≤ℤ y.used) × (y.used ≤ℤ y.limit)
      → ((w k d : Text) → w ≢ u → View.quota v t w k d ≡ View.quota v s w k d)
      → ((w k d : Text) → k ≢ kind → View.quota v t w k d ≡ View.quota v s w k d)
      → ((w k d : Text) → d ≢ date → View.quota v t w k d ≡ View.quota v s w k d)
      → IsHeld s
      → (w k d : Text) (q : QuotaUse) → View.quota v t w k d ≡ some q
      → (pos 0 ≤ℤ q.used) × (q.used ≤ℤ q.limit)
  one_quota {t = t} u kind date y new h users kinds dates held w k d q e = elim (text-cases w u) [
    | inr ne ↦ held.quotas w k d q (sym (users w k d ne) ∙ e)
    | inl a ↦ elim (text-cases k kind) [
      | inr ne ↦ held.quotas w k d q (sym (kinds w k d ne) ∙ e)
      | inl b ↦ elim (text-cases d date) [
        | inr ne ↦ held.quotas w k d q (sym (dates w k d ne) ∙ e)
        | inl c ↦
            let p : q ≡ y = ground (arith, sym e ∙ (λ i. View.quota v t (a i) (b i) (c i)) ∙ new) in
            rw p h
      ]
    ]
  ]

  pub Paid-IsHeld :
      {req : ReserveRequest} {s t : S} {c : BenefitSource × ℤ}
      → Paid v req s t c
      → IsHeld s
      → IsHeld t
  Paid-IsHeld {req} (by_quota used p q old new users kinds dates same) held = record {
    balances = λ w b e. held.balances w b ((λ i. sym same i w) ∙ e);
    quotas =
        one_quota req.user_id req.quota.kind req.quota.local_date _ new
          (
            add_nonneg used req.quota.units
                ((held.quotas req.user_id req.quota.kind req.quota.local_date _ old).0) p,
            q,
          )
          users kinds dates held;
  }
  Paid-IsHeld {req} (by_diamonds b p q old new others same) held = record {
    balances = one_balance req.user_id _ new (sub_nonneg req.price_diamonds b q) others held;
    quotas = λ w k d x e. held.quotas w k d x ((λ i. sym same i w k d) ∙ e);
  }

  pub Refunded-IsHeld :
      {n : Reservation} {s t : S} {d : ℤ} → Refunded v n s t d → IsHeld s → IsHeld t
  Refunded-IsHeld {n} (to_quota x e p q old new users kinds dates same) held = record {
    balances = λ w b e. held.balances w b ((λ i. sym same i w) ∙ e);
    quotas =
        one_quota n.user_id n.quota.kind n.quota.local_date _ new
          (
            sub_nonneg n.quota.units x.used q,
            sub_le n.quota.units x.used x.limit p
                ((held.quotas n.user_id n.quota.kind n.quota.local_date x old).1),
          )
          users kinds dates held;
  }
  Refunded-IsHeld {n} (to_balance b e p old new others same) held = record {
    balances =
        one_balance n.user_id _ new
          (add_nonneg b n.charged_diamonds (held.balances n.user_id b old) p) others held;
    quotas = λ w k d x e. held.quotas w k d x ((λ i. sym same i w k d) ∙ e);
  }
