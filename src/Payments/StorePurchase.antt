-- ===== src/Payments/StorePurchase.antt =====
-- `SettleVerifiedStorePurchase` of internal/biz/payments/checkout.go when it succeeds.
use mathlib.Core.Path.{subst}
use ai_go.Common.{
  true, false, not, ◌≡◌, refl, sym, ap, ◌∙◌, ◌⊎◌, inl, inr, Option, none, some, arith, Bool-cases,
}
use ai_go.Common.Text.{Text, eq_text_sound}
use ai_go.Common.Case.{UnicodeCase}
use ai_go.Common.Result.{Result, ok, Result-cases}
use ai_go.Common.Action.{lift, >>=-eq-ok, guard-eq-ok, rescue-eq-ok, ◌>>=◌}
use ai_go.Common.Clock.{Time}
use ai_go.Mongo.{Transaction, aborted}
use ai_go.Payments.Model.{
  repository_error, Provider, PaymentOrder, Error, Repository, ApplyResult, invalid_store_purchase,
}
use ai_go.Payments.Rules.{is_valid_provider}
use ai_go.Payments.Contract.{View, Laws}
use ai_go.Payments.Effects.{Settles}
use ai_go.Payments.Settle.{settle_verified_order-Settles}
use ai_go.Payments.Service.{settle_verified_order}
use ai_go.Payments.Checkout.{
  VerifiedStorePurchase, payment_provider, normalize_purchase, is_same_purchase, same_purchase,
  store_input, is_order_already_exists, create_frozen, freeze_store_order, store_settlement,
  settle_verified_store_purchase,
}
use ai_go.Payments.Freeze.{Created, create_frozen-Created}

same_purchase-eq-ok :
    (p : VerifiedStorePurchase) (provider : Provider) (f : Option PaymentOrder) (o : PaymentOrder)
    → same_purchase p provider f ≡ ok o
    → (f ≡ some o) × (is_same_purchase p provider o ≡ true)
unfolding same_purchase
same_purchase-eq-ok p provider none o h = absurd (cc)
same_purchase-eq-ok p provider (some q) o h = elim (Bool-cases (is_same_purchase p provider q)) [
  | inr other ↦ absurd (ground arith)
  | inl is ↦
      let same : q ≡ o = ground arith in
      (ap some same, ap (is_same_purchase p provider) (sym same) ∙ is)
]

module _ {S : Type 0} (v : View S) where
  -- The order of a store's transaction: a new one, or the one that it has.
  pub data Ordered (p : VerifiedStorePurchase) (provider : Provider) (o : PaymentOrder) (s m : S)
      : S → Type 0 where
    creates :
        {t : S}
        → Created v p.product_id (store_input p provider) p.business_at o s t
        → Ordered p provider o s m t
    reuses :
        View.order v m o.id ≡ some o
        → o.user_id ≡ p.user_id
        → o.product_id ≡ p.product_id
        → o.provider ≡ provider
        → o.provider_order_id ≡ p.external_transaction_id
        → Ordered p provider o s m m

module _ {S : Type 0} (v : View S) (r : Repository S) (laws : Laws v r) (u : UnicodeCase)
    (digest : Text → Text) (now : Time) (new_order_id : Result Error Text) where
  freeze_store_order-Ordered :
      (tx : Transaction S Error repository_error PaymentOrder) (meanwhile : S → S)
      (p : VerifiedStorePurchase) (provider : Provider) (s t : S) (o : PaymentOrder)
      → freeze_store_order u digest r now new_order_id tx meanwhile p provider s ≡ (ok o, t)
      → Ordered v p provider o s (meanwhile s) t
  unfolding freeze_store_order is_same_purchase
  freeze_store_order-Ordered tx meanwhile p provider s t o h =
      let find = r.find_order_by_provider_order provider p.external_transaction_id in
      let check = λ (found : Option PaymentOrder). lift {S = S} (same_purchase p provider found) in
      let converge = λ (x : S). (find >>= check) (meanwhile x) in
      let create =
        create_frozen u digest r now new_order_id p.product_id new_order_id (store_input p provider)
          p.business_at in
      let run = tx.run create in
      elim (rescue-eq-ok is_order_already_exists converge (run s) h) [
        | inl done ↦ creates (
            create_frozen-Created v r laws u digest now new_order_id p.product_id new_order_id
              (store_input p provider) p.business_at (λ id. refl) s t o
              (tx.commits create s t o done))
        | inr (e, failed, taken, converged) ↦
            let back : (run s).1 ≡ s =
              aborted tx is_order_already_exists create s (run s).1 e (λ i. (failed i, (run s).1))
                refl taken in
            let (found, m, read, k) =
              >>=-eq-ok find check (meanwhile s) (sym (ap converge back) ∙ converged) in
            let (is, same) = same_purchase-eq-ok p provider found o (ap (λ x. x.0) k) in
            let (there, at_provider, at_order) =
              laws.locate_law provider p.external_transaction_id (meanwhile s) m o
                (read ∙ (λ i. (ok (is i), m))) in
            let here : meanwhile s ≡ t =
              sym (laws.locate_same provider p.external_transaction_id (meanwhile s) m found read)
              ∙ ap (λ x. x.1) k in
            subst (Ordered v p provider o s (meanwhile s)) here (
              reuses there (eq_text_sound o.user_id p.user_id (ground arith))
                (eq_text_sound o.product_id p.product_id (ground arith)) at_provider at_order)
      ]

  -- A store purchase that succeeds has an order for its channel and transaction: a new one of the
  -- current version of its product, frozen for its user, or the one that the transaction already
  -- has, which must be the same user's for the same product. It settles that order, so that its
  -- diamonds are applied at most once.
  pub settle_verified_store_purchase-Settles :
      (orders : Transaction S Error repository_error PaymentOrder)
      (results : Transaction S Error repository_error ApplyResult) (meanwhile : S → S)
      (purchase : VerifiedStorePurchase) (s t : S) (res : ApplyResult)
      → settle_verified_store_purchase u digest r now new_order_id orders results meanwhile purchase
          s
        ≡ (ok res, t)
      → (p : VerifiedStorePurchase) × (o : PaymentOrder) × (m : S) × (normalize_purchase purchase
            now
          ≡ ok p)
        × Ordered v p (payment_provider p.provider) o s (meanwhile s) m
        × (Settles v (store_settlement p (payment_provider p.provider) o) m t res
            ⊎ (Settles v (store_settlement p (payment_provider p.provider) o) (meanwhile m) t res
                × (res.applied ≡ false)
                × (t ≡ meanwhile m)))
  unfolding settle_verified_store_purchase
  settle_verified_store_purchase-Settles orders results meanwhile purchase s t res h =
      elim (Result-cases (normalize_purchase purchase now)) [
        | inr (e, failed) ↦ absurd (ground arith)
        | inl (p, normal) ↦
            let provider = payment_provider p.provider in
            let freeze =
              freeze_store_order u digest r now new_order_id orders meanwhile p provider in
            let settle = λ (o : PaymentOrder).
              settle_verified_order r now results meanwhile (store_settlement p provider o) in
            let (ok_provider, h') =
              guard-eq-ok (not (is_valid_provider provider)) invalid_store_purchase
                (freeze >>= settle) s (rw normal at h) in
            let (o, m, froze, k) = >>=-eq-ok freeze settle s h' in
            let (valid, how) =
              settle_verified_order-Settles v r laws now results meanwhile
                (store_settlement p provider o) m t res k in
            (
              p,
              o,
              m,
              normal,
              freeze_store_order-Ordered orders meanwhile p provider s m o froze,
              how,
            )
      ]
