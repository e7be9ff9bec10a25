-- ===== src/Payments/Checkout/Bound.antt =====
-- The checkout of internal/biz/payments/checkout.go when it succeeds.
use ai_go.Common.{
  Bool, true, false, not, ◌||◌, ◌≡◌, ◌⊎◌, ◌∙◌, refl, ap, sym, if◌then◌else◌, inl, inr, Option, none,
  some, ◌++◌, arith, Bool-cases,
}
use ai_go.Common.Int.{pos, ◌<ℤ◌, eqb_ℤ_sound}
use ai_go.Common.Text.{Text, is_blank, is_empty, eq_text, eq_text_sound}
use ai_go.Common.Case.{UnicodeCase}
use ai_go.Common.Result.{Result, ok}
use ai_go.Common.Action.{Action, raise_if, lift, >>=-eq-ok, guard-eq-ok, ◌>>=◌, ◌>>◌}
use ai_go.Common.Clock.{Time}
use ai_go.Mongo.{Transaction}
use ai_go.Payments.Model.{
  repository_error, PaymentProduct, PaymentOrder, PaymentOrderStatus, pending, paid, pay_cores,
  Error, invalid_payment_order, payment_order_mismatch, Repository,
}
use ai_go.Payments.Rules.{
  is_pending, is_paid, PaymentChannelSelection, normalized, invalid_channel,
  invalid_pay_cores_pricing,
}
use ai_go.Payments.Contract.{View, Laws}
use ai_go.Payments.Checkout.Pending.{PendingOrder, create_frozen-PendingOrder}
use ai_go.Payments.Checkout.{local_prefix, create_pending_pay_cores_order}
use ai_go.Payments.Checkout.PayCores.{
  PayCoresCheckoutRequest, PayCoresCheckoutResult, PayCoresCheckout, matches_channel,
  checkout_request, is_same_checkout, same_checkout, available_label, bind_answer, bind_order_of,
  bind_checkout, checkout_order, create_pay_cores_checkout_for_channel,
}

-- The checkout of an order: the order as it was frozen, of the channel chosen, under the id that
-- PayCores answered; its status is the one it had, or pending or paid where another process bound it.
pub record Bound (o : PaymentOrder) (c : PaymentChannelSelection)
    (response : PayCoresCheckoutResult) (k : PayCoresCheckout) : Type 0 where
  pub same_id : k.order.id ≡ o.id
  pub same_user : k.order.user_id ≡ o.user_id
  pub same_provider : k.order.provider ≡ o.provider
  pub channel_provider : k.order.channel_provider ≡ c.provider
  pub channel_account : k.order.channel_account ≡ c.account
  pub channel_device_platform : k.order.channel_device_platform ≡ c.client_device_platform
  pub same_product : k.order.product_id ≡ o.product_id
  pub same_version : k.order.product_version ≡ o.product_version
  pub same_diamonds : k.order.diamond_amount ≡ o.diamond_amount
  pub same_amount : k.order.amount_cents ≡ o.amount_cents
  pub same_currency : k.order.currency ≡ o.currency
  pub status : (k.order.status ≡ o.status) ⊎ ((k.order.status ≡ pending) ⊎ (k.order.status ≡ paid))
  pub bound : k.order.provider_order_id ≡ response.provider_order_id
  pub url : k.checkout_url ≡ response.checkout_url

-- An order of the channel chosen.
pub record OfChannel (c : PaymentChannelSelection) (o : PaymentOrder) : Type 0 where
  pub provider : o.channel_provider ≡ c.provider
  pub account : o.channel_account ≡ c.account
  pub device_platform : o.channel_device_platform ≡ c.client_device_platform

matches_channel-OfChannel :
    (c : PaymentChannelSelection) (o : PaymentOrder) → matches_channel o c ≡ true → OfChannel c o
unfolding matches_channel
matches_channel-OfChannel c o h = record {
  provider = eq_text_sound o.channel_provider c.provider (ground arith);
  account = eq_text_sound o.channel_account c.account (ground arith);
  device_platform = eq_text_sound o.channel_device_platform c.client_device_platform (ground arith);
}

pending_or_paid :
    (p : PaymentOrderStatus) → (is_pending p || is_paid p) ≡ true → (p ≡ pending) ⊎ (p ≡ paid)
pending_or_paid pending h = inl refl
pending_or_paid paid h = inr refl
pending_or_paid (PaymentOrderStatus.other_order_status t) h = absurd (cc)

same_checkout-Bound :
    (o : PaymentOrder) (c : PaymentChannelSelection) (response : PayCoresCheckoutResult)
    (f : Option PaymentOrder) (k : PayCoresCheckout)
    → same_checkout o c response f ≡ ok k
    → Bound o c response k
unfolding same_checkout is_same_checkout
same_checkout-Bound o c response none k h = absurd (cc)
same_checkout-Bound o c response (some q) k h =
    elim (Bool-cases (is_same_checkout o c response q)) [
      | inr other ↦ absurd (ground arith)
      | inl is ↦
          let same : k ≡ record { order = q; checkout_url = response.checkout_url } =
            ground arith in
          rw same (record {
            same_id = eq_text_sound q.id o.id (ground arith);
            same_user = eq_text_sound q.user_id o.user_id (ground arith);
            same_provider = eq_text_sound q.provider o.provider (ground arith);
            channel_provider = (matches_channel-OfChannel c q (ground arith)).provider;
            channel_account = (matches_channel-OfChannel c q (ground arith)).account;
            channel_device_platform =
                (matches_channel-OfChannel c q (ground arith)).device_platform;
            status = inr (pending_or_paid q.status (ground arith));
            same_product = eq_text_sound q.product_id o.product_id (ground arith);
            same_version = eqb_ℤ_sound q.product_version o.product_version (ground arith);
            same_diamonds = eqb_ℤ_sound q.diamond_amount o.diamond_amount (ground arith);
            same_amount = eqb_ℤ_sound q.amount_cents o.amount_cents (ground arith);
            same_currency = eq_text_sound q.currency o.currency (ground arith);
            bound = eq_text_sound q.provider_order_id response.provider_order_id (ground arith);
            url = refl;
          })
    ]

module _ {S : Type 0} (r : Repository S) (now : Time) where
  bind_answer-Bound :
      (o : PaymentOrder) (c : PaymentChannelSelection) (response : PayCoresCheckoutResult)
      (b : Bool) (s t : S) (k : PayCoresCheckout)
      → OfChannel c o
      → bind_answer r now o c response b s ≡ (ok k, t)
      → Bound o c response k
  unfolding bind_answer
  bind_answer-Bound o c response true s t k of_channel h =
      let same : k ≡ record {
        order = record o { provider_order_id = response.provider_order_id; updated_at = now };
        checkout_url = response.checkout_url;
      } =
        ground arith in
      rw same (record {
        same_id = refl;
        same_user = refl;
        same_provider = refl;
        channel_provider = of_channel.provider;
        channel_account = of_channel.account;
        channel_device_platform = of_channel.device_platform;
        status = inl refl;
        same_product = refl;
        same_version = refl;
        same_diamonds = refl;
        same_amount = refl;
        same_currency = refl;
        bound = refl;
        url = refl;
      })
  bind_answer-Bound o c response false s t k of_channel h =
      let (current, u, found, l) =
        >>=-eq-ok (r.find_order o.id) (λ f. lift (same_checkout o c response f)) s h in
      same_checkout-Bound o c response current k (ap (λ x. x.0) l)

  bind_order_of-Bound :
      (o : PaymentOrder) (c : PaymentChannelSelection) (response : PayCoresCheckoutResult)
      (b : Bool) (s t : S) (k : PayCoresCheckout)
      → OfChannel c o
      → bind_order_of r now o c response b s ≡ (ok k, t)
      → Bound o c response k
  unfolding bind_order_of
  bind_order_of-Bound o c response true s t k of_channel h =
      let (b, u, found, l) =
        >>=-eq-ok
          (r.bind_pay_cores_provider_order o.id o.provider_order_id response.provider_order_id now)
          (bind_answer r now o c response) s h in
      bind_answer-Bound o c response b u t k of_channel l
  bind_order_of-Bound o c response false s t k of_channel h =
      let facts : (eq_text o.provider_order_id response.provider_order_id ≡ true)
          × (k ≡ record {
            order = record o { updated_at = now };
            checkout_url = response.checkout_url;
          }) =
        ground arith in
      rw facts.1 (record {
        same_id = refl;
        same_user = refl;
        same_provider = refl;
        channel_provider = of_channel.provider;
        channel_account = of_channel.account;
        channel_device_platform = of_channel.device_platform;
        status = inl refl;
        same_product = refl;
        same_version = refl;
        same_diamonds = refl;
        same_amount = refl;
        same_currency = refl;
        bound = eq_text_sound o.provider_order_id response.provider_order_id facts.0;
        url = refl;
      })

available_label-ok :
    (f : Option PaymentProduct) (p : PaymentProduct) → available_label f ≡ ok p → f ≡ some p
unfolding available_label
available_label-ok none p h = absurd (cc)
available_label-ok (some q) p h = let same : q ≡ p = ground arith in ap some same

priced-positive :
    (unicode : UnicodeCase) (o : PaymentOrder)
    → invalid_pay_cores_pricing unicode o ≡ false
    → pos 0 <ℤ o.amount_cents
unfolding invalid_pay_cores_pricing
priced-positive unicode o h = ground arith

module _ {S : Type 0} (v : View S) (r : Repository S) (laws : Laws v r) (unicode : UnicodeCase)
    (digest : Text → Text) (now : Time) (new_order_id : Result Error Text)
    (pay_cores_order : PayCoresCheckoutRequest → Action S Error PayCoresCheckoutResult) where
  -- A checkout that succeeds has an order of its user, its product and the chosen channel, a new one
  -- of the product's current version or the one that the client's request already has, priced at a
  -- cent at least. It has asked PayCores with the price and the diamonds frozen in
  -- that order; what it returns is that order, under the channel order answered, of the same channel
  -- and of the status it had, or else pending or paid, where another process has bound it.
  pub create_pay_cores_checkout-Bound :
      (tx : Transaction S Error repository_error PaymentOrder) (meanwhile : S → S)
      (user_id product_id : Text) (selection : PaymentChannelSelection) (s t : S)
      (k : PayCoresCheckout)
      → create_pay_cores_checkout_for_channel unicode digest r now new_order_id pay_cores_order tx
          meanwhile user_id product_id selection s
        ≡ (ok k, t)
      → let c = normalized unicode selection in
        (o : PaymentOrder) × (p : PaymentProduct) × (response : PayCoresCheckoutResult) × (u : S)
        × (x : S) × PendingOrder v digest user_id product_id c now o s (meanwhile s) u
        × (o.user_id ≡ user_id)
        × (o.product_id ≡ product_id)
        × (o.provider ≡ pay_cores)
        × OfChannel c o
        × (pos 0 <ℤ o.amount_cents)
        × (invalid_pay_cores_pricing unicode o ≡ false)
        × (View.product v u o.product_id o.product_version ≡ some p)
        × (pay_cores_order
              (record {
                user_id = user_id;
                product_id = o.product_id;
                amount_cents = o.amount_cents;
                currency = o.currency;
                credits = o.diamond_amount;
                label = p.label;
                client_request_id =
                    if is_empty c.client_request_id then o.id else c.client_request_id;
                provider = c.provider;
                account = c.account;
                client_device_platform = c.client_device_platform;
              })
              u
            ≡ (ok response, x))
        × Bound o c response k
  unfolding create_pay_cores_checkout_for_channel checkout_order available_label bind_checkout
  create_pay_cores_checkout-Bound tx meanwhile user_id product_id selection s t k h =
      let c = normalized unicode selection in
      let create =
        create_pending_pay_cores_order unicode digest r now new_order_id tx meanwhile user_id
          product_id c in
      let finish = checkout_order unicode digest r now new_order_id pay_cores_order user_id c in
      let (valid, h1) =
        guard-eq-ok (invalid_channel unicode c) invalid_payment_order (create >>= finish) s h in
      let (o, u, made, h2) = >>=-eq-ok create finish s h1 in
      let find = r.find_product o.product_id o.product_version in
      let ask = λ (p : PaymentProduct).
        pay_cores_order (checkout_request user_id c o p) >>= bind_checkout r now o c in
      let then_ask = λ (f : Option PaymentProduct). lift {S = S} (available_label f) >>= ask in
      let (matches, h3) =
        guard-eq-ok (not (matches_channel o c)) payment_order_mismatch
          (raise_if (invalid_pay_cores_pricing unicode o) invalid_payment_order
            >> (find >>= then_ask))
          u h2 in
      let (priced, h4) =
        guard-eq-ok (invalid_pay_cores_pricing unicode o) invalid_payment_order (find >>= then_ask)
          u h3 in
      let (f, v', found, h5) = >>=-eq-ok find then_ask u h4 in
      let (p, w, labelled, h6) = >>=-eq-ok (lift (available_label f)) ask v' h5 in
      let (response, x, answered, h7) =
        >>=-eq-ok (pay_cores_order (checkout_request user_id c o p)) (bind_checkout r now o c) w
          h6 in
      let (named, h8) =
        guard-eq-ok (is_blank response.provider_order_id || is_blank response.checkout_url)
          invalid_payment_order
          (bind_order_of r now o c response (eq_text o.provider_order_id (local_prefix ++ o.id))) x
          h7 in
      let of_channel = matches_channel-OfChannel c o (ground arith) in
      let (pending_, user, product, provider) =
        create_frozen-PendingOrder v r laws unicode digest now new_order_id tx meanwhile user_id
          product_id c s u o made in
      let (unmoved, read) = laws.find_product_law o.product_id o.product_version u v' f found in
      let is = available_label-ok f p (ap (λ y. y.0) labelled) in
      let here : w ≡ u = sym (ap (λ y. y.1) labelled) ∙ unmoved in
      (
        o,
        p,
        response,
        u,
        x,
        pending_,
        user,
        product,
        provider,
        of_channel,
        priced-positive unicode o priced,
        priced,
        sym read ∙ is,
        sym (ap (pay_cores_order (checkout_request user_id c o p)) here) ∙ answered,
        bind_order_of-Bound r now o c response (eq_text o.provider_order_id (local_prefix ++ o.id))
            x t k of_channel h8,
      )
