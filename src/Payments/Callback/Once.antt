-- ===== src/Payments/Callback/Once.antt =====
-- The callback of internal/biz/payments/callback.go when it succeeds, and when its nonce is
-- consumed already.
use ai_go.Common.{false, not, ◌≡◌, refl, ap, ◌∙◌, ◌≢◌, inl, inr, none, some, ◌⊎◌, ◌+◌}
use ai_go.Common.Text.{Text, codes}
use ai_go.Common.Result.{Result, Result-cases, ok, err}
use ai_go.Common.Action.{Action, raise_if, ◌>>◌}
use ai_go.Common.Clock.{Time, is_zero}
use ai_go.Mongo.{Collection, Transaction}
use ai_go.Payments.Model.{
  repository_error, PaymentOrder, ApplyResult, VerifiedOrderSettlement, Error, Repository,
  invalid_verified_payment_confirmation, confirmed_callback_dependencies_unavailable,
}
use ai_go.Payments.Service.{settle_verified_order}
use ai_go.Payments.Contract.{View, Laws}
use ai_go.Payments.Effects.{Settles}
use ai_go.Payments.Settle.{settle_verified_order-Settles}
use ai_go.Payments.Callback.Steps.{
  guard-same, consume-eq-ok, consume-ne-ok, handle-eq-ok, settle_confirmation-eq-ok,
}
use ai_go.Payments.Callback.{
  PayCoresCallbackNonceDocument, VerifiedPaymentConfirmation, is_valid_confirmation,
  is_confirmed_callback_path, payment_callback_nonce_ttl, verified_order_settlement, on_nonces,
  on_payments, consume, settle_confirmation, handle,
}

module _ (nonces : Collection Text PayCoresCallbackNonceDocument) where
  module _ {S : Type 0} (r : Repository S)
      (settle : VerifiedOrderSettlement → Action S Error ApplyResult)
      (wait : Action S Error (Unit {0})) where
    -- A callback whose nonce is there changes no payment, and fails.
    consume-taken :
        (path : Text) (now : Time) (c : VerifiedPaymentConfirmation) (n : Collection.Store nonces)
        (s : S) (x : Result Error (Unit {0}))
        → (consume nonces c.nonce_hash (codes "POST") path (now + payment_callback_nonce_ttl) n).0
          ≡ x
        → x ≢ ok tt
        → (handle nonces r settle wait path now c (n, s)).1.1 ≡ s
    unfolding handle
    consume-taken path now c n s (ok tt) e fails = absurd (fails refl)
    consume-taken path now c n s (err f) e fails =
        let use_nonce =
          consume nonces c.nonce_hash (codes "POST") path (now + payment_callback_nonce_ttl) in
        let pay = settle_confirmation nonces r settle wait now c in
        guard-same (λ x. x.1) (not (is_confirmed_callback_path path))
          confirmed_callback_dependencies_unavailable
          (raise_if (not (is_valid_confirmation c)) invalid_verified_payment_confirmation
            >> (raise_if (is_zero now) confirmed_callback_dependencies_unavailable
                >> (on_nonces use_nonce >> on_payments pay)))
          (n, s)
          (guard-same (λ x. x.1) (not (is_valid_confirmation c))
            invalid_verified_payment_confirmation
            (raise_if (is_zero now) confirmed_callback_dependencies_unavailable
              >> (on_nonces use_nonce >> on_payments pay))
            (n, s)
            (guard-same (λ x. x.1) (is_zero now) confirmed_callback_dependencies_unavailable
              (on_nonces use_nonce >> on_payments pay) (n, s) (rw e refl)))

    -- A callback that succeeded has consumed its nonce, which was not consumed before and is now, so
    -- that no callback with that nonce succeeds again while the nonce has a document, in whatever
    -- state the nonces are by then: at any time, on any path, with any association and whatever became
    -- of the payments, it fails and leaves the payments as they are.
    pub handle_once :
        (path : Text) (now : Time) (c : VerifiedPaymentConfirmation)
        (n n' : Collection.Store nonces) (s t : S) (res : ApplyResult)
        → handle nonces r settle wait path now c (n, s) ≡ (ok res, (n', t))
        → (Collection.get nonces n c.nonce_hash ≡ none)
          × ((d : PayCoresCallbackNonceDocument) × (Collection.get nonces n' c.nonce_hash ≡ some d))
          × ((path' : Text) (now' : Time) (c' : VerifiedPaymentConfirmation)
                (m : Collection.Store nonces) (u : S) (d : PayCoresCallbackNonceDocument)
              → c'.nonce_hash ≡ c.nonce_hash
              → Collection.get nonces m c.nonce_hash ≡ some d
              → (e : Error) × ((handle nonces r settle wait path' now' c' (m, u)).0 ≡ err e)
                × ((handle nonces r settle wait path' now' c' (m, u)).1.1 ≡ u))
    handle_once path now c n n' s t res h =
        let (valid, consumed, paid_) =
          handle-eq-ok nonces r settle wait path now c n n' s t res h in
        let (fresh, taken) =
          consume-eq-ok nonces c.nonce_hash (codes "POST") path (now + payment_callback_nonce_ttl) n
            n' consumed in
        (
          fresh,
          (_, taken),
          λ path' now' c' m u d e there.
              again path' now' c' m u (ap (Collection.get nonces m) e ∙ there),
        )
      where
        again :
            (path' : Text) (now' : Time) (c' : VerifiedPaymentConfirmation)
            (m : Collection.Store nonces) (u : S) {d : PayCoresCallbackNonceDocument}
            → Collection.get nonces m c'.nonce_hash ≡ some d
            → (e : Error) × ((handle nonces r settle wait path' now' c' (m, u)).0 ≡ err e)
              × ((handle nonces r settle wait path' now' c' (m, u)).1.1 ≡ u)
        again path' now' c' m u there =
            let x = handle nonces r settle wait path' now' c' (m, u) in
            let expiry = now' + payment_callback_nonce_ttl in
            let use_nonce = consume nonces c'.nonce_hash (codes "POST") path' expiry m in
            let fails = consume-ne-ok nonces c'.nonce_hash (codes "POST") path' expiry m there in
            elim (Result-cases x.0) [
              | inl (res', done) ↦
                  let (valid, consumed, paid_) =
                    handle-eq-ok nonces r settle wait path' now' c' m x.1.0 u x.1.1 res'
                      (λ i. (done i, x.1)) in
                  absurd (fails (ap (λ y. y.0) consumed))
              | inr (e, failed) ↦
                  (e, failed, consume-taken path' now' c' m u use_nonce.0 refl fails)
            ]

module _ (nonces : Collection Text PayCoresCallbackNonceDocument) {S : Type 0} (v : View S)
    (r : Repository S) (laws : Laws v r)
    (tx : Transaction S Error repository_error ApplyResult) where
  -- A callback that succeeds settles the PayCores order whose channel order it names, as it is stored
  -- at the start or, if it was not yet there, after the wait; the settlement is for the confirmed
  -- user and transaction, and applies the order's diamonds or is a replay.
  pub handle-Settles :
      (wait : Action S Error (Unit {0})) (clock : Time) (meanwhile : S → S) (path : Text)
      (now : Time) (c : VerifiedPaymentConfirmation) (n n' : Collection.Store nonces) (s t : S)
      (res : ApplyResult)
      → handle nonces r (settle_verified_order r clock tx meanwhile) wait path now c (n, s)
        ≡ (ok res, (n', t))
      → (o : PaymentOrder) × (u : S) × ((u ≡ s) ⊎ (wait s ≡ (ok tt, u)))
        × (View.order v u o.id ≡ some o)
        × (o.provider_order_id ≡ c.order_id)
        × (Settles v (verified_order_settlement c o.id now) u t res
            ⊎ (Settles v (verified_order_settlement c o.id now) (meanwhile u) t res
                × (res.applied ≡ false)
                × (t ≡ meanwhile u)))
  handle-Settles wait clock meanwhile path now c n n' s t res h =
      let settle = settle_verified_order r clock tx meanwhile in
      let (valid, consumed, paid_) = handle-eq-ok nonces r settle wait path now c n n' s t res h in
      let (o, u, which, there, provider, provider_order, k) =
        settle_confirmation-eq-ok nonces r settle wait v laws now c s t res paid_ in
      let (good, how) =
        settle_verified_order-Settles v r laws clock tx meanwhile
          (verified_order_settlement c o.id now) u t res k in
      (o, u, which, there, provider_order, how)
