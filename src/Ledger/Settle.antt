-- ===== src/Ledger/Settle.antt =====
-- What the reversal and the confiscation of internal/biz/ledger/usecase.go do when they succeed.
use ai_go.Common.{true, false, ◌≡◌, sym, ◌∙◌, ◌≢◌, none, some, arith}
use ai_go.Common.Int.{ℤ, pos, ◌+ℤ◌, ◌-ℤ◌, ◌≤ℤ◌, ◌<ℤ◌}
use ai_go.Common.Text.{Text}
use ai_go.Common.Clock.{Time}
use ai_go.Common.Result.{ok}
use ai_go.Ledger.Model.{
  Repository, BenefitSource, daily_quota, diamonds, other_source, ReservationStatus, reserved,
  reversed, ReversalReason, Reservation,
}
use ai_go.Ledger.Usecase.{refund, reverse_ledger_key, reversal_text}
use ai_go.Ledger.Contract.{View, QuotaUse, Laws}

module _ {S : Type 0} (v : View S) where
  -- What a reversal gives back, and how many diamonds that are.
  pub data Refunded (n : Reservation) (s t : S) : ℤ → Type 0 where
    to_quota :
        (use_ : QuotaUse)
        → n.source ≡ daily_quota
        → pos 0 <ℤ n.quota.units
        → n.quota.units ≤ℤ use_.used
        → View.quota v s n.user_id n.quota.kind n.quota.local_date ≡ some use_
        → View.quota v t n.user_id n.quota.kind n.quota.local_date
          ≡ some (record use_ { used = use_.used -ℤ n.quota.units })
        → ((w k d : Text) → w ≢ n.user_id → View.quota v t w k d ≡ View.quota v s w k d)
        → ((w k d : Text) → k ≢ n.quota.kind → View.quota v t w k d ≡ View.quota v s w k d)
        → ((w k d : Text) → d ≢ n.quota.local_date → View.quota v t w k d ≡ View.quota v s w k d)
        → View.balance v t ≡ View.balance v s
        → Refunded n s t (pos 0)
    to_balance :
        (b : ℤ)
        → n.source ≡ diamonds
        → pos 0 <ℤ n.charged_diamonds
        → View.balance v s n.user_id ≡ some b
        → View.balance v t n.user_id ≡ some (b +ℤ n.charged_diamonds)
        → ((w : Text) → w ≢ n.user_id → View.balance v t w ≡ View.balance v s w)
        → View.quota v t ≡ View.quota v s
        → Refunded n s t n.charged_diamonds

  -- The creation's reservation `n` was reserved, with its result unpublished, and now has status
  -- `to` and a shut gate; the other reservations are as they were.
  pub record Settled (c : Text) (to : ReservationStatus) (at : Time) (n : Reservation) (s t : S)
      : Type 0 where
    pub was_stored : View.reservation v s c ≡ some n
    pub was_reserved : n.status ≡ reserved
    pub was_open : View.may_settle v s c ≡ true
    pub stored : View.reservation v t c ≡ some (record n { status = to; updated_at = at })
    pub shut : View.may_settle v t c ≡ false
    pub other_reservations : (k : Text) → k ≢ c → View.reservation v t k ≡ View.reservation v s k

  -- A reversal: the settlement, the refund, and one new ledger entry of the diamonds refunded.
  pub record Reversal (c : Text) (reason : ReversalReason) (at : Time) (n : Reservation) (s t : S)
      : Type 0 where
    pub delta : ℤ
    pub settled : Settled c reversed at n s t
    pub refunded : Refunded n s t delta
    pub logged :
        View.entry v t (reverse_ledger_key c)
        ≡ some (record {
          idempotency_key = reverse_ledger_key c;
          creation_id = c;
          delta_diamonds = delta;
          reason = reversal_text reason;
          created_at = at;
        })
    pub unlogged : View.entry v s (reverse_ledger_key c) ≡ none
    pub other_entries : (k : Text) → k ≢ reverse_ledger_key c → View.entry v t k ≡ View.entry v s k

  -- A refund between two stores, with what else it leaves alone.
  abbrev pub GivenBack : Reservation → S → S → ℤ → Type 0
  GivenBack n s t d =
      Refunded n s t d
      × (View.reservation v t ≡ View.reservation v s)
      × (View.may_settle v t ≡ View.may_settle v s)
      × (View.entry v t ≡ View.entry v s)

  -- The stores between which a refund is seen may differ in all but balances and quotas.
  pub Refunded-across :
      {n : Reservation} {s s' t t' : S} {d : ℤ}
      → Refunded n s' t' d
      → View.balance v s' ≡ View.balance v s
      → View.quota v s' ≡ View.quota v s
      → View.balance v t ≡ View.balance v t'
      → View.quota v t ≡ View.quota v t'
      → Refunded n s t d
  Refunded-across {n} (to_quota use_ e p q old new users kinds dates same) bs qs bt qt =
      to_quota use_ e p q ((λ i. sym qs i n.user_id n.quota.kind n.quota.local_date) ∙ old)
        ((λ i. qt i n.user_id n.quota.kind n.quota.local_date) ∙ new)
        (λ w k d ne. (λ i. qt i w k d) ∙ users w k d ne ∙ (λ i. qs i w k d))
        (λ w k d ne. (λ i. qt i w k d) ∙ kinds w k d ne ∙ (λ i. qs i w k d))
        (λ w k d ne. (λ i. qt i w k d) ∙ dates w k d ne ∙ (λ i. qs i w k d)) (bt ∙ same ∙ bs)
  Refunded-across {n} (to_balance b e p old new others same) bs qs bt qt =
      to_balance b e p ((λ i. sym bs i n.user_id) ∙ old) ((λ i. bt i n.user_id) ∙ new)
        (λ w ne. (λ i. bt i w) ∙ others w ne ∙ (λ i. bs i w)) (qt ∙ same ∙ qs)

module _ {S : Type 0} (v : View S) (r : Repository S) (laws : Laws v r) where
  pub refund-GivenBack :
      (n : Reservation) (at : Time) (source : BenefitSource) (s t : S) (d : ℤ)
      → n.source ≡ source
      → refund r n at source s ≡ (ok d, t)
      → GivenBack v n s t d
  unfolding refund
  refund-GivenBack n at (other_source x) s t d e h = absurd (cc)
  refund-GivenBack n at diamonds s t d e h =
      let x = r.credit_diamonds n.user_id n.charged_diamonds at s in
      let facts : (x.0 ≡ ok tt) × (d ≡ n.charged_diamonds) × (t ≡ x.1) = ground arith in
      let (b, positive, f) =
        laws.credit_law n.user_id n.charged_diamonds at s t (λ i. (facts.0 i, sym facts.2 i)) in
      (
        rw facts.1
            (to_balance b e positive f.old_balance f.new_balance f.other_balances f.same_quotas),
        f.same_reservations,
        f.same_gates,
        f.same_entries,
      )
  refund-GivenBack n at daily_quota s t d e h =
      let x = r.restore_quota n.user_id n.quota at s in
      let facts : (x.0 ≡ ok tt) × (d ≡ pos 0) × (t ≡ x.1) = ground arith in
      let (use_, positive, enough, f) =
        laws.restore_law n.user_id n.quota at s t (λ i. (facts.0 i, sym facts.2 i)) in
      (
        rw facts.1 (
            to_quota use_ e positive enough f.old_use f.new_use f.other_users f.other_kinds
              f.other_dates f.same_balances),
        f.same_reservations,
        f.same_gates,
        f.same_entries,
      )
