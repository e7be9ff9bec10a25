-- ===== src/Payments/Callback/Steps.antt =====
-- The steps of the callback of internal/biz/payments/callback.go when they succeed.
use ai_go.Common.{
  Bool, true, false, not, ◌≡◌, refl, sym, ap, ◌∙◌, ◌≢◌, inl, inr, Option, none, some, arith,
  Bool-cases, ◌⊎◌, ◌+◌,
}
use ai_go.Common.Text.{Text, codes, is_blank}
use ai_go.Common.Result.{ok}
use ai_go.Common.Action.{Action, raise_if, lift, >>=-eq-ok, guard-eq-ok, ◌>>=◌, ◌>>◌}
use ai_go.Common.Clock.{Time, is_zero}
use ai_go.Mongo.{Collection, reply}
use ai_go.Payments.Model.{
  pay_cores, PaymentOrder, ApplyResult, VerifiedOrderSettlement, Error, Repository,
  invalid_verified_payment_confirmation, confirmed_callback_dependencies_unavailable,
}
use ai_go.Payments.Contract.{View, Laws}
use ai_go.Payments.Callback.{
  PayCoresCallbackNonceDocument, VerifiedPaymentConfirmation, is_valid_confirmation,
  is_confirmed_callback_path, payment_callback_nonce_ttl, verified_order_settlement, located,
  on_nonces, on_payments, consume, look_again, settle_confirmation, handle,
}

located-eq-ok : (f : Option PaymentOrder) (o : PaymentOrder) → located f ≡ ok o → f ≡ some o
unfolding located
located-eq-ok none o h = absurd (cc)
located-eq-ok (some p) o h = elim (Bool-cases (is_blank p.id)) [
  | inl blank ↦ absurd (ground arith)
  | inr named ↦ ground arith
]

-- A code that may not run.
on_payments-eq-ok :
    {N S E A : Type 0} (m : Action S E A) (n n' : N) (s t : S) {a : A}
    → on_payments m (n, s) ≡ (ok a, (n', t))
    → (n' ≡ n) × (m s ≡ (ok a, t))
on_payments-eq-ok m n n' s t h = (sym (ap (λ x. x.1.0) h), λ i. ((h i).0, (h i).1.1))

-- What a check leaves alone if what follows it does.
pub guard-same :
    {S E A X : Type 0} (f : S → X) (b : Bool) (e : E) (m : Action S E A) (s : S)
    → f (m s).1 ≡ f s
    → f ((raise_if b e >> m) s).1 ≡ f s
guard-same f true e m s h = refl
guard-same f false e m s h = h

module _ (nonces : Collection Text PayCoresCallbackNonceDocument) where
  pub consume-eq-ok :
      (hash method path : Text) (at : Time) (n n' : Collection.Store nonces)
      → consume nonces hash method path at n ≡ (ok tt, n')
      → (Collection.get nonces n hash ≡ none)
        × (Collection.get nonces n' hash
            ≡ some (record { method = method; path = path; expires_at = at }))
  unfolding consume
  consume-eq-ok hash method path at n n' h =
      let d : PayCoresCallbackNonceDocument = record {
        method = method;
        path = path;
        expires_at = at;
      } in
      let x = Collection.insert_one nonces hash d n in
      let facts : (x.0 ≡ reply true) × (n' ≡ x.1) = ground arith in
      let (old, new, others) =
        Collection.insert_one_law nonces hash d n n' (λ i. (facts.0 i, sym facts.1 i)) in
      (old, new)

  pub consume-ne-ok :
      (hash method path : Text) (at : Time) (n : Collection.Store nonces)
      {d : PayCoresCallbackNonceDocument}
      → Collection.get nonces n hash ≡ some d
      → (consume nonces hash method path at n).0 ≢ ok tt
  consume-ne-ok hash method path at n there k =
      let n' = (consume nonces hash method path at n).1 in
      let (absent, rest) = consume-eq-ok hash method path at n n' (λ i. (k i, n')) in
      absurd (ground (arith, sym absent ∙ there))

  module _ {S : Type 0} (r : Repository S)
      (settle : VerifiedOrderSettlement → Action S Error ApplyResult)
      (wait : Action S Error (Unit {0})) where
    -- What the callback may run: its checks, the nonce, and then the payments.
    pub handle-eq-ok :
        (path : Text) (now : Time) (c : VerifiedPaymentConfirmation)
        (n n' : Collection.Store nonces) (s t : S) (res : ApplyResult)
        → handle nonces r settle wait path now c (n, s) ≡ (ok res, (n', t))
        → (is_valid_confirmation c ≡ true)
          × (consume nonces c.nonce_hash (codes "POST") path (now + payment_callback_nonce_ttl) n
              ≡ (ok tt, n'))
          × (settle_confirmation nonces r settle wait now c s ≡ (ok res, t))
    unfolding handle
    handle-eq-ok path now c n n' s t res h =
        let use_nonce =
          consume nonces c.nonce_hash (codes "POST") path (now + payment_callback_nonce_ttl) in
        let pay = settle_confirmation nonces r settle wait now c in
        let (on_path, h1) =
          guard-eq-ok (not (is_confirmed_callback_path path))
            confirmed_callback_dependencies_unavailable
            (raise_if (not (is_valid_confirmation c)) invalid_verified_payment_confirmation
              >> (raise_if (is_zero now) confirmed_callback_dependencies_unavailable
                  >> (on_nonces use_nonce >> on_payments pay)))
            (n, s) h in
        let (valid, h2) =
          guard-eq-ok (not (is_valid_confirmation c)) invalid_verified_payment_confirmation
            (raise_if (is_zero now) confirmed_callback_dependencies_unavailable
              >> (on_nonces use_nonce >> on_payments pay))
            (n, s) h1 in
        let (timed, h3) =
          guard-eq-ok (is_zero now) confirmed_callback_dependencies_unavailable
            (on_nonces use_nonce >> on_payments pay) (n, s) h2 in
        let (tt, m, consumed, k) =
          >>=-eq-ok (on_nonces use_nonce) (λ _. on_payments pay) (n, s) h3 in
        let (same, paid_) = on_payments-eq-ok pay m.0 n' m.1 t k in
        let at : m.1 ≡ s = sym (ap (λ x. x.1.1) consumed) in
        (
          ground arith,
          λ i. ((consumed i).0, ((consumed ∙ (λ j. (ok tt, (sym same j, m.1)))) i).1.0),
          sym (ap pay at) ∙ paid_,
        )

    look_again-found :
        (v : View S)
        → Laws v r
        → (c : VerifiedPaymentConfirmation) (first : Option PaymentOrder) (s s1 u : S)
          (o : PaymentOrder)
        → r.find_order_by_provider_order pay_cores c.order_id s ≡ (ok first, s1)
        → look_again nonces r settle wait c first s1 ≡ (ok (some o), u)
        → ((u ≡ s) ⊎ (wait s ≡ (ok tt, u)))
          × (View.order v u o.id ≡ some o)
          × (o.provider ≡ pay_cores)
          × (o.provider_order_id ≡ c.order_id)
    unfolding look_again
    look_again-found v laws c (some p) s s1 u o read looked =
        let (there, provider, provider_order) = laws.locate_law pay_cores c.order_id s s1 p read in
        let here = laws.locate_same pay_cores c.order_id s s1 (some p) read in
        let same : o ≡ p = ground arith in
        let at : u ≡ s = sym (ap (λ x. x.1) looked) ∙ here in
        (
          inl at,
          (λ i. View.order v (at i) (PaymentOrder.id (same i))) ∙ there ∙ ap some (sym same),
          ap PaymentOrder.provider same ∙ provider,
          ap PaymentOrder.provider_order_id same ∙ provider_order,
        )
    look_again-found v laws c none s s1 u o read looked =
        let here = laws.locate_same pay_cores c.order_id s s1 none read in
        let find = r.find_order_by_provider_order pay_cores c.order_id in
        let (tt, s2, waited, k) = >>=-eq-ok wait (λ _. find) s1 looked in
        let (there, provider, provider_order) = laws.locate_law pay_cores c.order_id s2 u o k in
        let at = laws.locate_same pay_cores c.order_id s2 u (some o) k in
        (
          inr (sym (ap wait here) ∙ waited ∙ (λ i. (ok tt, sym at i))),
          (λ i. View.order v (at i) o.id) ∙ there,
          provider,
          provider_order,
        )

    pub settle_confirmation-eq-ok :
        (v : View S)
        → Laws v r
        → (now : Time) (c : VerifiedPaymentConfirmation) (s t : S) (res : ApplyResult)
        → settle_confirmation nonces r settle wait now c s ≡ (ok res, t)
        → (o : PaymentOrder) × (u : S) × ((u ≡ s) ⊎ (wait s ≡ (ok tt, u)))
          × (View.order v u o.id ≡ some o)
          × (o.provider ≡ pay_cores)
          × (o.provider_order_id ≡ c.order_id)
          × (settle (verified_order_settlement c o.id now) u ≡ (ok res, t))
    unfolding settle_confirmation
    settle_confirmation-eq-ok v laws now c s t res h =
        let find = r.find_order_by_provider_order pay_cores c.order_id in
        let finish = λ (found : Option PaymentOrder).
          lift {S = S} (located found) >>= λ o. settle (verified_order_settlement c o.id now) in
        let (first, s1, read, h1) =
          >>=-eq-ok find (λ f. look_again nonces r settle wait c f >>= finish) s h in
        let (found, u, looked, h2) =
          >>=-eq-ok (look_again nonces r settle wait c first) finish s1 h1 in
        let (o, u', good, h3) =
          >>=-eq-ok (lift (located found)) (λ o. settle (verified_order_settlement c o.id now)) u
            h2 in
        let is : found ≡ some o = located-eq-ok found o (ap (λ x. x.0) good) in
        let at : u ≡ u' = ap (λ x. x.1) good in
        let (which, there, provider, provider_order) =
          look_again-found v laws c first s s1 u o read (looked ∙ (λ i. (ok (is i), u))) in
        (
          o,
          u,
          which,
          there,
          provider,
          provider_order,
          ap (settle (verified_order_settlement c o.id now)) at ∙ h3,
        )
