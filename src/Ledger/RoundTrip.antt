-- ===== src/Ledger/RoundTrip.antt =====
-- A reservation and its reversal, one after the other, in internal/biz/ledger/usecase.go.
use ai_go.Common.{◌≡◌, refl, sym, ap, ◌∙◌, inl, inr, Option, none, some, arith}
use ai_go.Common.Int.{ℤ, pos, ◌+ℤ◌, ◌-ℤ◌, int_laws}
use ai_go.Common.Text.{Text, text-cases}
use ai_go.Common.Clock.{Time}
use ai_go.Common.Result.{ok}
use ai_go.Ledger.Model.{
  Repository, LedgerEntry, BenefitSource, ReversalReason, ReserveRequest, Reservation,
}
use ai_go.Ledger.Usecase.{
  reserve_in_tx, reverse_in_tx, reserve_ledger_key, reverse_ledger_key, reserve_entry,
  reverse_entry, new_reservation,
}
use ai_go.Ledger.Contract.{View, Laws}
use ai_go.Ledger.Reserve.{Paid, by_quota, by_diamonds, Made, reserve_in_tx-Made}
use ai_go.Ledger.Settle.{Refunded, to_quota, to_balance}
use ai_go.Ledger.Reverse.{Reverses, again, done, reverse_in_tx-Reverses}

add_sub_cancel : (a b : ℤ) → (a +ℤ b) -ℤ b ≡ a
add_sub_cancel a b = grind int_laws

sub_add_cancel : (a b : ℤ) → (a -ℤ b) +ℤ b ≡ a
sub_add_cancel a b = grind int_laws

-- The two ledger entries of a creation, of which the second takes back the first.
pub record Cancelling (creation_id : Text) (charged : ℤ) (before after_ : Option LedgerEntry)
    : Type 0 where
  pub reserve_entry_ : LedgerEntry
  pub reverse_entry_ : LedgerEntry
  pub reserve_logged : before ≡ some reserve_entry_
  pub reverse_logged : after_ ≡ some reverse_entry_
  pub same_creations :
      (reserve_entry_.creation_id ≡ creation_id) × (reverse_entry_.creation_id ≡ creation_id)
  pub amount : reserve_entry_.delta_diamonds ≡ pos 0 -ℤ charged
  pub cancel : reserve_entry_.delta_diamonds +ℤ reverse_entry_.delta_diamonds ≡ pos 0

module _ {S : Type 0} (v : View S) where
  -- Every balance and every quota is as it was.
  pub record Restored (s t : S) : Type 0 where
    pub balances : (w : Text) → View.balance v t w ≡ View.balance v s w
    pub quotas : (w k d : Text) → View.quota v t w k d ≡ View.quota v s w k d

  Paid-Refunded :
      (req : ReserveRequest) (s u t : S) (c : BenefitSource × ℤ) (d : ℤ)
      → Paid v req s u c
      → Refunded v (new_reservation req c) u t d
      → Restored s t × (d ≡ c.1)
  Paid-Refunded req s u t c d (by_diamonds b p q old new others quotas)
        (to_quota x e _ _ _ _ _ _ _ _) =
      absurd (cc)
  Paid-Refunded req s u t c d (by_quota b p q old new users kinds dates same)
        (to_balance x e _ _ _ _ _) =
      absurd (cc)
  Paid-Refunded req s u t c d (by_diamonds b p q old new others quotas)
        (to_balance b' e p' old' new' others' quotas') =
      let same : b' ≡ b -ℤ req.price_diamonds = ground (arith, sym old' ∙ new) in
      (
        record {
          balances = λ w. elim (text-cases w req.user_id) [
            | inl e ↦ rw e (
                new'
                ∙ ap some
                    (ap (λ z. z +ℤ req.price_diamonds) same ∙ sub_add_cancel b req.price_diamonds)
                ∙ sym old)
            | inr ne ↦ others' w ne ∙ others w ne
          ];
          quotas = λ w k d i. (quotas' ∙ quotas) i w k d;
        },
        refl,
      )
  Paid-Refunded req s u t c d (by_quota used p q old new users kinds dates same)
        (to_quota x e p' q' old' new' users' kinds' dates' same') =
      let found : x ≡ record { limit = req.quota.limit; used = used +ℤ req.quota.units } =
        ground (arith, sym old' ∙ new) in
      let back : record x { used = x.used -ℤ req.quota.units }
          ≡ record { limit = req.quota.limit; used = used } =
        rw found (
          ap (λ z. record { limit = req.quota.limit; used = z })
            (add_sub_cancel used req.quota.units)) in
      (
        record {
          balances = λ w i. (same' ∙ same) i w;
          quotas = λ w k d. elim (text-cases w req.user_id) [
            | inr ne ↦ users' w k d ne ∙ users w k d ne
            | inl e ↦ elim (text-cases k req.quota.kind) [
              | inr ne ↦ kinds' w k d ne ∙ kinds w k d ne
              | inl f ↦ elim (text-cases d req.quota.local_date) [
                | inr ne ↦ dates' w k d ne ∙ dates w k d ne
                | inl g ↦ rw (e, f, g) (new' ∙ ap some back ∙ sym old)
              ]
            ]
          ];
        },
        refl,
      )

  -- The reservation made between `s` and `u` is undone at `t`.
  abbrev pub Undone : ReserveRequest → ReversalReason → Time → Reservation → S → S → S → Type 0
  Undone req reason at n s u t =
      Restored s t
      × Cancelling req.creation_id n.charged_diamonds
          (View.entry v u (reserve_ledger_key req.creation_id))
          (View.entry v t (reverse_ledger_key req.creation_id))

  Made-reversed-Undone :
      (req : ReserveRequest) (reason : ReversalReason) (at : Time) (s u t : S)
      (n m n' : Reservation)
      → Made v req s u n
      → m ≡ new_reservation req (n.source, n.charged_diamonds)
      → Reverses v req.creation_id reason at m u n' t
      → Undone req reason at n s u t
  Made-reversed-Undone req reason at s u t n m n' made same (again e) = absurd (cc)
  Made-reversed-Undone req reason at s u t n m n' made same (done f) =
      let (restored, e) =
        Paid-Refunded req s u t (n.source, n.charged_diamonds) f.delta made.paid
          (rw same at f.refunded) in
      (
        restored,
        record {
          reserve_entry_ = reserve_entry req n.charged_diamonds;
          reverse_entry_ = reverse_entry req.creation_id reason at f.delta;
          reserve_logged = made.logged;
          reverse_logged = f.logged;
          same_creations = (refl, refl);
          amount = refl;
          cancel =
              ap (λ z. (pos 0 -ℤ n.charged_diamonds) +ℤ z) e
              ∙ sub_add_cancel (pos 0) n.charged_diamonds;
        },
      )

module _ {S : Type 0} (v : View S) (r : Repository S) (laws : Laws v r) where
  -- A new reservation followed by a reversal that both succeed leave every balance and every quota
  -- as they were before, and the two ledger entries of the creation cancel each other.
  pub reserve_in_tx-reverse_in_tx :
      (req : ReserveRequest) (reason : ReversalReason) (at : Time) (s u t : S) (n n' : Reservation)
      → View.reservation v s req.creation_id ≡ none
      → reserve_in_tx (some r) req s ≡ (ok n, u)
      → reverse_in_tx (some r) req.creation_id reason at u ≡ (ok n', t)
      → Undone v req reason at n s u t
  reserve_in_tx-reverse_in_tx req reason at s u t n n' fresh h k =
      let (good, made) = reserve_in_tx-Made v r laws req s u n fresh h in
      let (m, stored, allowed, outcome) =
        reverse_in_tx-Reverses v r laws req.creation_id reason at u t n' k in
      let same : m ≡ new_reservation req (n.source, n.charged_diamonds) =
        ground (arith, sym stored ∙ made.stored) ∙ made.is_new in
      Made-reversed-Undone v req reason at s u t n m n' made same outcome
