-- ===== src/Payments/Checkout/Pending.antt =====
-- The pending order of a checkout, of internal/biz/payments/checkout.go.
use mathlib.Core.Path.{subst}
use ai_go.Common.{not, ◌||◌, ◌&&◌, ◌≡◌, ◌∙◌, refl, ap, sym, inl, inr, Option, none, some, arith}
use ai_go.Common.Text.{Text, is_blank, eq_text_sound}
use ai_go.Common.Case.{UnicodeCase}
use ai_go.Common.Result.{Result, ok}
use ai_go.Common.Action.{lift, rescue, rescue-eq-ok, >>=-eq-ok, guard-eq-ok, ◌>>=◌}
use ai_go.Common.Clock.{Time}
use ai_go.Mongo.{Transaction, aborted}
use ai_go.Payments.Model.{
  repository_error, PaymentOrder, pay_cores, Error, invalid_payment_order, Repository,
}
use ai_go.Payments.Rules.{PaymentChannelSelection}
use ai_go.Payments.Contract.{View, Laws}
use ai_go.Payments.Freeze.{Created, create_frozen-Created}
use ai_go.Payments.Checkout.{
  pay_cores_input, client_payment_order_id, is_same_request, same_request, pending_order_id,
  is_order_already_exists, create_frozen, create_pending_pay_cores_order,
}

module _ {S : Type 0} (v : View S) (digest : Text → Text) where
  -- The order that a checkout asks for: a new one of the current version of the product, or the one
  -- that the client's request already has.
  pub data PendingOrder (user_id product_id : Text) (c : PaymentChannelSelection) (now : Time)
      (o : PaymentOrder) (s m : S) : S → Type 0 where
    creates :
        {u : S}
        → Created v product_id (pay_cores_input user_id c) now o s u
        → PendingOrder user_id product_id c now o s m u
    reuses :
        o.id ≡ client_payment_order_id digest user_id product_id c.client_request_id
        → View.order v m o.id ≡ some o
        → PendingOrder user_id product_id c now o s m m

module _ {S : Type 0} (v : View S) (r : Repository S) (laws : Laws v r) (unicode : UnicodeCase)
    (digest : Text → Text) (now : Time) (new_order_id : Result Error Text) where
  same_request-eq-ok :
      (user_id product_id : Text) (f : Option PaymentOrder) (o : PaymentOrder)
      → same_request user_id product_id f ≡ ok o
      → (f ≡ some o)
        × (o.user_id ≡ user_id)
        × (o.product_id ≡ product_id)
        × (o.provider ≡ pay_cores)
  unfolding same_request is_same_request
  same_request-eq-ok user_id product_id none o h = absurd (cc)
  same_request-eq-ok user_id product_id (some q) o h =
      let same : q ≡ o = ground arith in
      let user : q.user_id ≡ user_id = eq_text_sound q.user_id user_id (ground arith) in
      let product : q.product_id ≡ product_id =
        eq_text_sound q.product_id product_id (ground arith) in
      let provider : q.provider ≡ pay_cores = eq_text_sound q.provider pay_cores (ground arith) in
      (
        ap some same,
        sym (ap PaymentOrder.user_id same) ∙ user,
        sym (ap PaymentOrder.product_id same) ∙ product,
        sym (ap PaymentOrder.provider same) ∙ provider,
      )

  pub create_frozen-PendingOrder :
      (tx : Transaction S Error repository_error PaymentOrder) (meanwhile : S → S)
      (user_id product_id : Text) (c : PaymentChannelSelection) (s t : S) (o : PaymentOrder)
      → create_pending_pay_cores_order unicode digest r now new_order_id tx meanwhile user_id
          product_id c s
        ≡ (ok o, t)
      → PendingOrder v digest user_id product_id c now o s (meanwhile s) t
        × (o.user_id ≡ user_id)
        × (o.product_id ≡ product_id)
        × (o.provider ≡ pay_cores)
  unfolding create_pending_pay_cores_order
  create_frozen-PendingOrder tx meanwhile user_id product_id c s t o h =
      let find =
        r.find_order (client_payment_order_id digest user_id product_id c.client_request_id) in
      let check =
        λ (found : Option PaymentOrder). lift {S = S} (same_request user_id product_id found) in
      let converge = λ (x : S). (find >>= check) (meanwhile x) in
      let drawn = pending_order_id unicode digest r now new_order_id user_id product_id c in
      let create =
        create_frozen unicode digest r now new_order_id product_id drawn (pay_cores_input user_id c)
          now in
      let run = tx.run create in
      let retries =
        λ (e : Error). is_order_already_exists e && not (is_blank c.client_request_id) in
      let (good, h') =
        guard-eq-ok (is_blank user_id || is_blank product_id) invalid_payment_order
          (λ x. rescue retries converge (run x)) s h in
      elim (rescue-eq-ok retries converge (run s) h') [
        | inl done ↦
            let made =
              create_frozen-Created v r laws unicode digest now new_order_id product_id drawn
                (pay_cores_input user_id c) now (λ id. refl) s t o (tx.commits create s t o done) in
            (
              creates made,
              ap PaymentOrder.user_id made.is_frozen.copies,
              ap PaymentOrder.product_id made.is_frozen.copies ∙ made.named,
              ap PaymentOrder.provider made.is_frozen.copies,
            )
        | inr (e, failed, taken, converged) ↦
            let back : (run s).1 ≡ s =
              aborted tx retries create s (run s).1 e (λ i. (failed i, (run s).1)) refl taken in
            let (found, m, read, k) =
              >>=-eq-ok find check (meanwhile s) (sym (ap converge back) ∙ converged) in
            let (is, user, product, provider) =
              same_request-eq-ok user_id product_id found o (ap (λ x. x.0) k) in
            let (same, stored) =
              laws.find_order_law
                (client_payment_order_id digest user_id product_id c.client_request_id)
                (meanwhile s) m found read in
            let there = sym stored ∙ is in
            let id = laws.order_id (meanwhile s) _ o there in
            let here : meanwhile s ≡ t = sym same ∙ ap (λ x. x.1) k in
            (
              subst (PendingOrder v digest user_id product_id c now o s (meanwhile s)) here
                  (reuses id (ap (View.order v (meanwhile s)) id ∙ there)),
              user,
              product,
              provider,
            )
      ]
